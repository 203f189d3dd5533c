-- ===== src/LockFree/Queue/Progress.antt =====
-- pkg/ds/lockfree/queue.go: a goroutine that runs alone, from any state that others left behind.
use lock_free_p2p_go.Prelude.{
  ℕ, suc, List, ◌≡◌, ◌⊎◌, refl, sym, ap, ◌∙◌, Option, none, some, Bool, true, false, arith, inl,
  inr, Bool-cases, ◌==◌, Option-cases,
}
use mathlib.Core.Path.{subst}
use lock_free_p2p_go.LockFree.Queue.{
  Memory, System, Pc, peek_next, peek_value, empty_next, peek_branch, enq_tail, enq_next, enq_check,
  enq_link, enq_swing, enq_help, deq_tail, deq_next, deq_check, deq_help, deq_value, deq_cas,
  enqueued, deq_head, dequeued, peek_head, peeked, empty_head, answered, Call, enqueue, dequeue,
  peek, is_empty, start, step, at_rest, update, Reach, call, is_nil,
}
use lock_free_p2p_go.LockFree.Queue.Reachable.{Reach-Inv}
use lock_free_p2p_go.LockFree.Queue.Steps.{next_at}
use lock_free_p2p_go.LockFree.Queue.Observations.{tail_lags_by_one}

eq_refl : (a : ℕ) → (a == a) ≡ true
eq_refl a = ground arith

module _ {V : Type 0} where
  -- Within k steps of its own, and none of another goroutine between them, a goroutine gets from one
  -- place to another.
  pub data SoloRun : ℕ → Memory V → Pc V → Pc V → Type 0 where
    there : {k : ℕ} {m : Memory V} {p : Pc V} → SoloRun k m p p
    moves :
        {k : ℕ} {m : Memory V} {p q : Pc V}
        → SoloRun k (step m p).0 (step m p).1 q
        → SoloRun (suc k) m p q

  one :
      {k : ℕ} {m : Memory V} {p q : Pc V} (m' : Memory V) (p' : Pc V)
      → step m p ≡ (m', p')
      → SoloRun k m' p' q
      → SoloRun (suc k) m p q
  one {k} {m} {p} {q} m' p' e h = moves (subst (λ r. SoloRun k r.0 r.1 q) (sym e) h)

  -- `tail` points to the last node or to the one before it.
  abbrev Lag : Memory V → Type 0
  Lag m = (m.next m.tail ≡ none) ⊎ ((n : ℕ) × (m.next m.tail ≡ some n) × (m.next n ≡ none))

  -- The round of Enqueue that links the node.
  link_alone :
      (k : ℕ) (m : Memory V) (node : ℕ)
      → m.next m.tail ≡ none
      → SoloRun (suc (suc (suc (suc (suc k))))) m (enq_tail node) enqueued
  unfolding step
  link_alone k m node nil = one m (enq_next node m.tail) refl (
      one m (enq_check node m.tail none) (ap (λ o. (m, enq_check node m.tail o)) nil) (
        one m (enq_link node m.tail) (rw (eq_refl m.tail) refl) (
          one (record m { next = update m.next m.tail (some node) }) (enq_swing node m.tail)
            (rw nil refl) (one _ enqueued refl there))))

  enqueue_alone : (m : Memory V) (node : ℕ) → Lag m → SoloRun 11 m (enq_tail node) enqueued
  unfolding step
  enqueue_alone m node (inl nil) = link_alone 6 m node nil
  enqueue_alone m node (inr (n, e, nil)) = one m (enq_next node m.tail) refl (
      one m (enq_check node m.tail (some n)) (ap (λ o. (m, enq_check node m.tail o)) e) (
        one m (enq_help node m.tail n) (rw (eq_refl m.tail) refl) (
          one (record m { tail = n }) (enq_tail node) (rw (eq_refl m.tail) refl)
            (link_alone 2 (record m { tail = n }) node nil))))

  -- The round of Dequeue that takes a value, for a tail that is not at the dummy.
  take_alone :
      (k : ℕ) (m : Memory V) (n : ℕ)
      → m.next m.head ≡ some n
      → (m.head == m.tail) ≡ false
      → SoloRun (suc (suc (suc (suc (suc (suc k)))))) m deq_head (dequeued (m.value n) true)
  unfolding step
  take_alone k m n e apart = one m (deq_tail m.head) refl (
      one m (deq_next m.head m.tail) refl (
        one m (deq_check m.head m.tail (some n)) (ap (λ o. (m, deq_check m.head m.tail o)) e) (
          one m (deq_value m.head n) (rw (eq_refl m.head, apart) refl) (
            one m (deq_cas m.head n (m.value n)) refl (
              one (record m { head = n }) (dequeued (m.value n) true) (rw (eq_refl m.head) refl)
                there)))))

  -- An empty queue: Dequeue returns false after four steps.
  find_alone :
      (k : ℕ) (m : Memory V)
      → m.next m.head ≡ none
      → (m.head == m.tail) ≡ true
      → SoloRun (suc (suc (suc (suc k)))) m deq_head (dequeued none false)
  unfolding step
  find_alone k m e same = one m (deq_tail m.head) refl (
      one m (deq_next m.head m.tail) refl (
        one m (deq_check m.head m.tail none) (ap (λ o. (m, deq_check m.head m.tail o)) e)
          (one m (dequeued none false) (rw (eq_refl m.head, same) refl) there)))

  -- Where the tail lags at the dummy, Dequeue moves it first.
  help_alone :
      (m : Memory V) (n : ℕ)
      → m.next m.head ≡ some n
      → (m.head == m.tail) ≡ true
      → m.next n ≡ none
      → SoloRun 11 m deq_head (dequeued (m.value n) true)
  unfolding step
  help_alone m n e same nil =
      let apart : (m.head == n) ≡ false = elim (Bool-cases (m.head == n)) [
        | inl loop ↦ let here : m.head ≡ n = ground arith in cc (sym nil ∙ ap m.next (sym here) ∙ e)
        | inr fine ↦ fine
      ] in
      let tail_is_head : (m.tail == m.tail) ≡ true = eq_refl m.tail in
      one m (deq_tail m.head) refl (
        one m (deq_next m.head m.tail) refl (
          one m (deq_check m.head m.tail (some n)) (ap (λ o. (m, deq_check m.head m.tail o)) e) (
            one m (deq_help m.tail n) (rw (eq_refl m.head, same) refl) (
              one (record m { tail = n }) deq_head (rw tail_is_head refl)
                (take_alone 0 (record m { tail = n }) n e apart)))))

  dequeue_alone :
      (m : Memory V)
      → Lag m
      → (m.next m.head ≡ none → m.head ≡ m.tail)
      → (v : Option V) × (found : Bool) × SoloRun 11 m deq_head (dequeued v found)
  dequeue_alone m lag empty = elim (Option-cases (m.next m.head)) [
    | inl nil ↦ (none, false, find_alone 7 m nil (rw (empty nil) (eq_refl m.tail)))
    | inr (n, e) ↦ elim (Bool-cases (m.head == m.tail)) [
      | inr apart ↦ (m.value n, true, take_alone 5 m n e apart)
      | inl same ↦
          let here : m.head ≡ m.tail = ground arith in
          elim lag [
            | inl nil ↦ cc (sym nil ∙ ap m.next (sym here) ∙ e)
            | inr (n', e', nil) ↦
                let next_is : n ≡ n' = cc (sym e ∙ ap m.next here ∙ e') in
                (m.value n, true, help_alone m n e same (ap m.next next_is ∙ nil))
          ]
    ]
  ]

  peek_alone :
      (m : Memory V) → (v : Option V) × (found : Bool) × SoloRun 11 m peek_head (peeked v found)
  unfolding step
  peek_alone m = elim (Option-cases (m.next m.head)) [
    | inl nil ↦ (
      none,
      false,
      one m (peek_next m.head) refl
          (one m (peeked none false) (ap (λ o. (m, peek_branch o)) nil) there),
    )
    | inr (n, e) ↦ (
      m.value n,
      true,
      one m (peek_next m.head) refl (
          one m (peek_value n) (ap (λ o. (m, peek_branch o)) e)
            (one m (peeked (m.value n) true) refl there)),
    )
  ]

  empty_alone : (m : Memory V) → SoloRun 11 m empty_head (answered (is_nil (m.next m.head)))
  unfolding step
  empty_alone m = one m (empty_next m.head) refl (one m _ refl there)

  -- Where the dummy is the last node, the tail is at it.
  empty_tail :
      {ins outs : List (Option V)} {s : System V}
      → Reach ins outs s
      → s.mem.next s.mem.head ≡ none
      → s.mem.head ≡ s.mem.tail
  empty_tail {s} r nil =
      let (g, inv) = Reach-Inv r in
      let l = inv.list in
      elim (next_at g.front s.mem.head l l.head_at (omega (arith, l.ordered, l.within))) [
        | inl (before, x) ↦ cc (sym nil ∙ x)
        | inr (here, x) ↦
            let same : g.front ≡ g.back = omega (arith, here, l.ordered, l.within) in
            l.head_at ∙ ap g.at same ∙ sym l.tail_at
      ]

  -- Where a call of each operation ends.
  abbrev pub Ends : Call V → Pc V → Type 0
  Ends (enqueue v) p = p ≡ enqueued
  Ends dequeue p = (v : Option V) × (found : Bool) × (p ≡ dequeued v found)
  Ends peek p = (v : Option V) × (found : Bool) × (p ≡ peeked v found)
  Ends is_empty p = (b : Bool) × (p ≡ answered b)

  -- In every reachable state, wherever the other goroutines stopped, a goroutine that begins a call
  -- and is not interrupted returns from it within eleven steps of its own: no operation waits for
  -- another goroutine.
  pub returns_alone :
      {ins outs : List (Option V)} {s : System V} (i : ℕ) (c : Call V)
      → Reach ins outs s
      → at_rest (s.pc i) ≡ true
      → (q : Pc V) × Ends c q × SoloRun 11 (start s.mem c).0 (start s.mem c).1 q
  unfolding start
  returns_alone {s} i (enqueue v) r e = (
    enqueued,
    refl,
    enqueue_alone (start s.mem (enqueue v)).0 s.mem.size
        (tail_lags_by_one (call i (enqueue v) e r)),
  )
  returns_alone {s} i dequeue r e =
      let (v, found, run) = dequeue_alone s.mem (tail_lags_by_one r) (empty_tail r) in
      (dequeued v found, (v, found, refl), run)
  returns_alone {s} i peek r e =
      let (v, found, run) = peek_alone s.mem in (peeked v found, (v, found, refl), run)
  returns_alone {s} i is_empty r e = (_, (_, refl), empty_alone s.mem)
