-- ===== src/LockFree/Queue/Observations.antt =====
-- What the goroutines may conclude from what they read.
use lock_free_p2p_go.Prelude.{
  List, ℕ, suc, [], ◌≡◌, sym, ◌∙◌, ap, Option, none, some, arith, inl, inr, ◌⊎◌,
}
use mathlib.Core.Path.{subst}
use lock_free_p2p_go.LockFree.Queue.{System, Reach, Memory, Pc, deq_next, peek_next, empty_next}
use lock_free_p2p_go.LockFree.Queue.Invariant.{View, IsList, UpTo, Knows}
use lock_free_p2p_go.LockFree.Queue.{Linked, stop, Holds}
use lock_free_p2p_go.LockFree.Queue.Reachable.{Reach-Inv}
use lock_free_p2p_go.LockFree.Queue.Steps.{next_at}

-- The dummy whose `next` field the goroutine reads by its next step, in Dequeue, Peek or IsEmpty.
abbrev pub dummy_to_read : {V : Type 0} → Pc V → Option ℕ
dummy_to_read (deq_next hd tl) = some hd
dummy_to_read (peek_next hd) = some hd
dummy_to_read (empty_next hd) = some hd
dummy_to_read _ = none

some_eq : {a b : ℕ} → some a ≡ some b → a ≡ b
some_eq e = cc

dummy-UpTo :
    {V : Type 0} (m : Memory V) (g : View) (p : Pc V) (hd : ℕ)
    → Knows m g p
    → dummy_to_read p ≡ some hd
    → UpTo g g.front hd
dummy-UpTo m g (deq_next a tl) hd (i, j, e, h, f, le, b) x =
    subst (UpTo g g.front) (some_eq x) (i, e, h)
dummy-UpTo m g (peek_next a) hd k x = subst (UpTo g g.front) (some_eq x) k
dummy-UpTo m g (empty_next a) hd k x = subst (UpTo g g.front) (some_eq x) k
dummy-UpTo m g p hd k x = cc

module _ {V : Type 0} {ins outs : List (Option V)} {s : System V} (r : Reach ins outs s) where
  -- A nil in the `next` field of a node that was the dummy means that the queue holds nothing at
  -- this moment, however many other goroutines have moved since `head` was read.
  nil_means_empty :
      {g : View} (hd : ℕ)
      → IsList s.mem g
      → UpTo g g.front hd
      → s.mem.next hd ≡ none
      → Holds s.mem []
  nil_means_empty {g} hd l (i, e, h) nil =
      elim (next_at i hd l e (omega (arith, l.ordered, l.within))) [
        | inl (before, x) ↦ cc (sym nil ∙ x)
        | inr (here, x) ↦
            let front : i ≡ g.front = omega (arith, l.ordered, l.within) in
            let same : s.mem.head ≡ hd = l.head_at ∙ ap g.at (sym front) ∙ sym e in
            subst (λ o. Linked s.mem o []) (sym (ap s.mem.next same ∙ nil)) stop
      ]

  -- When Dequeue, Peek or IsEmpty, in any interleaving, reads a nil from the `next` field of the
  -- dummy that it has loaded before, the queue is empty at the moment of this read. (All their
  -- reports of an empty queue come from such a read.)
  pub empty_when_read :
      (i hd : ℕ) → dummy_to_read (s.pc i) ≡ some hd → s.mem.next hd ≡ none → Holds s.mem []
  empty_when_read i hd at nil =
      let (g, inv) = Reach-Inv r in
      nil_means_empty hd inv.list (dummy-UpTo s.mem g (s.pc i) hd (inv.knows i) at) nil

  -- `tail` points to the last node or to the one before it, in every reachable state: one helping
  -- step is enough.
  pub tail_lags_by_one :
      (s.mem.next s.mem.tail ≡ none)
      ⊎ ((n : ℕ) × (s.mem.next s.mem.tail ≡ some n) × (s.mem.next n ≡ none))
  tail_lags_by_one =
      let (g, inv) = Reach-Inv r in
      let l = inv.list in
      elim (next_at g.back s.mem.tail l l.tail_at l.within) [
        | inr (here, x) ↦ inl x
        | inl (before, x) ↦
            let next_is_last : suc g.back ≡ g.last = omega (arith, l.near) in
            inr (g.at (suc g.back), x, ap (λ j. s.mem.next (g.at j)) next_is_last ∙ l.ends)
      ]
