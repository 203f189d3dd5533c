-- ===== src/Sync/Queue/Fifo.antt =====
-- pkg/ds/sync/queue.go: the order of the values over a sequence of calls.
use lock_free_p2p_go.Prelude.{
  ◌≡◌, sym, ap, ◌∙◌, List, ◌∷◌, [], ◌++◌, false, Option, ◌==◌, length, append_assoc, append-nil,
  arith, if◌then◌else◌,
}
use lock_free_p2p_go.Sync.Queue.{Queue, enqueue, dequeue}

pub data Call (V : Type 0) : Type 0 where
  enqueues : Option V → Call V
  dequeues : Call V

module _ {V : Type 0} where
  -- The values that a sequence of calls puts in, in order.
  abbrev pub put_by : List (Call V) → List (Option V)
  put_by [] = []
  put_by (enqueues v ∷ cs) = v ∷ put_by cs
  put_by (dequeues ∷ cs) = put_by cs

  -- The queue after a sequence of calls, and the values that its calls of Dequeue returned with true.
  unfoldable pub after_calls : Queue V → List (Call V) → Queue V × List (Option V)
  after_calls q [] = (q, [])
  after_calls q (enqueues v ∷ cs) = after_calls (enqueue q v) cs
  after_calls q (dequeues ∷ cs) =
      let r = dequeue q in
      let rest = after_calls r.0 cs in if r.2 then (rest.0, r.1 ∷ rest.1) else rest

  not_empty : (x : Option V) (xs : List (Option V)) → (length (x ∷ xs) == 0) ≡ false
  not_empty x xs = ground arith

  from_items :
      (xs : List (Option V)) (cs : List (Call V))
      → let r = after_calls (record { items = xs }) cs in xs ++ put_by cs ≡ r.1 ++ r.0.items
  unfolding after_calls enqueue dequeue
  from_items xs [] = append-nil xs
  from_items xs (enqueues v ∷ cs) =
      sym (append_assoc xs (v ∷ []) (put_by cs)) ∙ from_items (xs ++ v ∷ []) cs
  from_items [] (dequeues ∷ cs) = from_items [] cs
  from_items (x ∷ xs) (dequeues ∷ cs) = rw (not_empty x xs) (ap (◌∷◌ x) (from_items xs cs))

  -- After any sequence of calls of Enqueue and Dequeue, the values of the queue at the beginning
  -- followed by those that were put in, in order, are the values that Dequeue returned with true,
  -- in order, followed by the values that the queue holds at the end.
  pub fifo_under_lock :
      (q : Queue V) (cs : List (Call V))
      → q.items ++ put_by cs ≡ (after_calls q cs).1 ++ (after_calls q cs).0.items
  fifo_under_lock q cs = from_items q.items cs
