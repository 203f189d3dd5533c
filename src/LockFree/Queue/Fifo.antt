-- ===== src/LockFree/Queue/Fifo.antt =====
-- The queue as a list: what was put in and not yet taken out, in order.
use lock_free_p2p_go.Prelude.{
  List, ℕ, zero, suc, [], ◌∷◌, ◌++◌, ◌-◌, append_assoc, append-nil, ◌+◌, ◌≤◌, ◌≡◌, ◌≢◌, refl, sym,
  ◌∙◌, ap, Option, arith, true, Bool-cases, inl, inr, ◌==◌,
}
use mathlib.Core.Path.{subst}
use lock_free_p2p_go.LockFree.Queue.{
  System, Reach, begin, call, move, start, puts, takes, Call, enqueue, dequeue, peek, is_empty,
  Memory, Pc, enq_link, enq_swing, enq_help, deq_help, deq_cas, faulted, step, is_nil,
}
use lock_free_p2p_go.LockFree.Queue.Invariant.{Inv, View, IsList, Knows}
use lock_free_p2p_go.LockFree.Queue.Growth.{Grows}
use lock_free_p2p_go.LockFree.Queue.Moves.{extended, popped, advance, same_place, pop-Keeps}
use lock_free_p2p_go.LockFree.Queue.Link.{link-Keeps}
use lock_free_p2p_go.LockFree.Queue.Growth.{Grows}
use lock_free_p2p_go.LockFree.Queue.Steps.{step-Keeps}
use lock_free_p2p_go.LockFree.Queue.{Linked, stop, node, Holds}
use lock_free_p2p_go.LockFree.Queue.Reachable.{
  first_view, alloc-Grows, called-Inv, initial-Inv, moved-Inv, Reach-Inv,
}
use lock_free_p2p_go.LockFree.Queue.Link.{at_new}

module _ {V : Type 0} where
  -- The values at k places, from `lo` on.
  segment : Memory V → View → ℕ → ℕ → List (Option V)
  segment m g zero lo = []
  segment m g (suc k) lo = m.value (g.at lo) ∷ segment m g k (suc lo)

  -- The values of the nodes behind the dummy.
  queued : Memory V → View → List (Option V)
  unfolding segment
  queued m g = segment m g (g.last - g.front) (suc g.front)

  Linked-segment :
      {m : Memory V} {g : View} (k lo : ℕ)
      → IsList m g
      → lo + k ≡ g.last
      → Linked m (m.next (g.at lo)) (segment m g k (suc lo))
  unfolding segment
  Linked-segment {m} {g} zero lo l e =
      let here : lo ≡ g.last = omega arith in rw (here, l.ends) stop
  Linked-segment {m} {g} (suc k) lo l e =
      rw (l.linked lo (omega arith))
        (node (g.at (suc lo)) (Linked-segment k (suc lo) l (omega arith)))

  Holds-queued : {m : Memory V} {g : View} → IsList m g → Holds m (queued m g)
  unfolding queued
  Holds-queued {m} {g} l =
      subst (λ a. Linked m (m.next a) (segment m g (g.last - g.front) (suc g.front)))
        (sym l.head_at)
        (Linked-segment (g.last - g.front) g.front l (omega (arith, l.ordered, l.within)))

  pub Linked-unique :
      {m : Memory V} {o : Option ℕ} {p q : List (Option V)} → Linked m o p → Linked m o q → p ≡ q
  Linked-unique stop stop = refl
  Linked-unique {m} (node a x) (node b y) = ap (◌∷◌ (m.value a)) (Linked-unique x y)

  segment-Grows :
      {m m' : Memory V} {g g' : View} (k lo : ℕ)
      → IsList m g
      → Grows m g m' g'
      → lo + k ≤ suc g.last
      → segment m' g' k lo ≡ segment m g k lo
  unfolding segment
  segment-Grows zero lo l w h = refl
  segment-Grows {m} {m'} {g} {g'} (suc k) lo l w h = rw (
    w.same lo (omega arith),
    w.values (g.at lo) (l.allocated lo (omega arith)),
    segment-Grows k (suc lo) l w (omega arith),
  )

  segment_last :
      (m : Memory V) (g : View) (k lo : ℕ)
      → segment m g (suc k) lo ≡ segment m g k lo ++ m.value (g.at (lo + k)) ∷ []
  unfolding segment
  segment_last m g zero lo = let here : lo + 0 ≡ lo = omega arith in rw here
  segment_last m g (suc k) lo =
      let here : lo + suc k ≡ suc lo + k = omega arith in
      rw here (ap (◌∷◌ (m.value (g.at lo))) (segment_last m g k (suc lo)))

  -- Nothing is put in or taken out: the list stays.
  queued_same :
      {m m' : Memory V} {g g' : View}
      → IsList m g
      → Grows m g m' g'
      → g'.last ≡ g.last
      → g'.front ≡ g.front
      → queued m' g' ≡ queued m g
  unfolding queued
  queued_same {m} {m'} {g} {g'} l w e f =
      rw (e, f)
        (segment-Grows (g.last - g.front) (suc g.front) l w (omega (arith, l.ordered, l.within)))

  queued-link :
      {m m' : Memory V} {g : View} (n : ℕ)
      → IsList m g
      → Grows m g m' (extended g n)
      → m'.value n ≡ m.value n
      → queued m' (extended g n) ≡ queued m g ++ m.value n ∷ []
  unfolding queued
  queued-link {m} {m'} {g} n l w e =
      let ordered = l.ordered in
      let within = l.within in
      let more : suc g.last - g.front ≡ suc (g.last - g.front) = omega arith in
      let place : suc g.front + (g.last - g.front) ≡ suc g.last = omega arith in
      let old = segment-Grows (g.last - g.front) (suc g.front) l w (omega arith) in
      rw (
        more,
        segment_last m' (extended g n) (g.last - g.front) (suc g.front),
        old,
        place,
        at_new g n,
        e,
      )

  queued-pop :
      {m : Memory V} {g : View} (hd nx : ℕ) (v : Option V)
      → IsList m g
      → Knows m g (deq_cas hd nx v)
      → (m.head == hd) ≡ true
      → queued m g ≡ v ∷ queued (record m { head = nx }) (popped g)
  unfolding queued segment
  queued-pop {m} {g} hd nx v l ((i, e, h, k, f), x) won =
      let place : i ≡ g.front =
        same_place i g.front hd m.head l e l.head_at (omega (arith, l.within))
          (omega (arith, l.ordered, l.within)) (ground arith) in
      let less : g.last - g.front ≡ suc (g.last - suc g.front) = omega (arith, l.within) in
      let value : m.value (g.at (suc g.front)) ≡ v =
        ap m.value (ap (λ j. g.at (suc j)) (sym place) ∙ sym f) ∙ sym x in
      let rest : segment (record m { head = nx }) (popped g) (g.last - suc g.front)
            (suc (suc g.front))
          ≡ segment m g (g.last - suc g.front) (suc (suc g.front)) =
        segment-Grows (g.last - suc g.front) (suc (suc g.front)) l
          (pop-Keeps hd nx v l ((i, e, h, k, f), x) won).grows (omega (arith, l.within)) in
      rw (less, value) (ap (◌∷◌ v) (sym rest))

  -- What a step puts in goes to the back of the list, and what it takes out was at its front.
  abbrev StepEffect : Memory V → View → Pc V → Type 0
  StepEffect m g p = queued m g ++ puts m p ≡ takes m p ++ queued (step m p).0 (advance m g p)

  step-StepEffect :
      {m : Memory V} {g : View} (p : Pc V) → IsList m g → Knows m g p → StepEffect m g p
  unfolding step puts takes
  step-StepEffect {m} {g} (enq_link n tl) l k = elim (Bool-cases (is_nil (m.next tl))) [
    | inl nil ↦ rw nil (sym (queued-link n l (link-Keeps n tl l k nil).grows refl))
    | inr lost ↦ rw lost (append-nil (queued m g))
  ]
  step-StepEffect {m} {g} (deq_cas hd nx v) l k = elim (Bool-cases (m.head == hd)) [
    | inl won ↦ rw won (append-nil (queued m g) ∙ queued-pop hd nx v l k won)
    | inr lost ↦ rw lost (append-nil (queued m g))
  ]
  step-StepEffect {m} {g} (enq_swing n tl) l k =
      append-nil (queued m g)
      ∙ sym (queued_same l (step-Keeps (enq_swing n tl) l k).grows (ground arith) (ground arith))
  step-StepEffect {m} {g} (enq_help n tl nx) l k =
      append-nil (queued m g)
      ∙ sym (queued_same l (step-Keeps (enq_help n tl nx) l k).grows (ground arith) (ground arith))
  step-StepEffect {m} {g} (deq_help tl nx) l k =
      append-nil (queued m g)
      ∙ sym (
          queued_same l (step-Keeps {V = V} (deq_help tl nx) l k).grows (ground arith)
            (ground arith))
  step-StepEffect {m} {g} p l k = append-nil (queued m g)

  start-queued :
      {m : Memory V} {g : View} (c : Call V) → IsList m g → queued (start m c).0 g ≡ queued m g
  unfolding start
  start-queued {m} {g} (enqueue v) l = unfold start in queued_same l (alloc-Grows m g v) refl refl
  start-queued dequeue l = refl
  start-queued peek l = refl
  start-queued is_empty l = refl

  -- The invariant with the history: what was put in is what was taken out and what is there.
  Reach-history :
      {ins outs : List (Option V)} {s : System V}
      → Reach ins outs s
      → (g : View) × Inv s g × (ins ≡ outs ++ queued s.mem g)
  unfolding queued segment
  Reach-history begin = (first_view, initial-Inv, refl)
  Reach-history (call {outs = outs} {s = s} i c rest r) =
      let (g, inv, h) = Reach-history r in
      (g, called-Inv i c inv, h ∙ ap (◌++◌ outs) (sym (start-queued c inv.list)))
  Reach-history (move {outs = outs} {s = s} i r) =
      let (g, inv, h) = Reach-history r in
      let p = s.pc i in
      (
        advance s.mem g p,
        moved-Inv i inv,
        ap (λ t. t ++ puts s.mem p) h
            ∙ append_assoc outs (queued s.mem g) (puts s.mem p)
            ∙ ap (◌++◌ outs) (step-StepEffect p inv.list (inv.knows i))
            ∙ sym (append_assoc outs (takes s.mem p) _),
      )

  -- First in, first out, in every reachable state of every interleaving: the values that were linked,
  -- in the order of the linking steps, are the values that Dequeue has returned, in the order of
  -- its successful steps, followed by the values that the queue holds. So no value is lost,
  -- duplicated or overtaken.
  pub fifo :
      {ins outs : List (Option V)} {s : System V}
      → Reach ins outs s
      → (q : List (Option V)) × Holds s.mem q × (ins ≡ outs ++ q)
  fifo {s} r = let (g, inv, h) = Reach-history r in (queued s.mem g, Holds-queued inv.list, h)

  -- No interleaving dereferences a nil pointer.
  pub never_faults :
      {ins outs : List (Option V)} {s : System V} → Reach ins outs s → (i : ℕ) → s.pc i ≢ faulted
  never_faults {s} r i e = let (g, inv) = Reach-Inv r in subst (Knows s.mem g) e (inv.knows i)
