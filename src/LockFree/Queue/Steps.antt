-- ===== src/LockFree/Queue/Steps.antt =====
-- pkg/ds/lockfree/queue.go: the list and a goroutine's knowledge after each of its steps.
use lock_free_p2p_go.Prelude.{
  ℕ, suc, ◌≤◌, ◌<◌, ◌≡◌, ◌≢◌, refl, sym, ◌∙◌, ap, Option, none, some, arith, true, Bool-cases, inl,
  inr, ◌==◌, ◌⊎◌,
}
use native.Mathlib.Decide.{dec_lt}
use lock_free_p2p_go.LockFree.Queue.{
  Memory, Pc, idle, enq_tail, enq_next, enq_check, enq_link, enq_swing, enq_help, enqueued,
  deq_head, deq_tail, deq_next, deq_check, deq_help, deq_value, deq_cas, dequeued, peek_head,
  peek_next, peek_value, peeked, empty_head, empty_next, answered, faulted, step, is_nil,
  enq_branch, deq_branch, peek_branch,
}
use lock_free_p2p_go.LockFree.Queue.Invariant.{
  View, IsList, IsFresh, UpTo, Read, ReadHead, Knows, owned,
}
use lock_free_p2p_go.LockFree.Queue.Moves.{advance, Keeps, reads, cas_tail-Keeps, pop-Keeps}
use lock_free_p2p_go.LockFree.Queue.Link.{link-Keeps}

enq_branch-owned :
    (V : Type 0) (n tl : ℕ) (nx : Option ℕ) → owned {V = V} (enq_branch n tl nx) ≡ some n
enq_branch-owned V n tl none = refl
enq_branch-owned V n tl (some x) = refl

deq_branch-owned :
    (V : Type 0) (hd tl : ℕ) (nx : Option ℕ) (n : ℕ) → owned {V = V} (deq_branch hd tl nx) ≢ some n
deq_branch-owned V hd tl none n = λ e. ground arith
deq_branch-owned V hd tl (some x) n = λ e. ground arith

module _ {V : Type 0} where
  enq_branch-Knows :
      {m : Memory V} {g : View} (n tl : ℕ) (nx : Option ℕ)
      → IsFresh m g n
      → Read g g.back tl nx
      → Knows m g (enq_branch n tl nx)
  enq_branch-Knows n tl none fr r = (fr, r)
  enq_branch-Knows n tl (some x) fr r = (fr, r)

  -- The branch that would dereference a nil is never taken.
  deq_branch-Knows :
      {m : Memory V} {g : View} (hd tl : ℕ) (nx : Option ℕ)
      → IsList m g
      → ReadHead g hd tl nx
      → (hd == m.head) ≡ true
      → Knows m g (deq_branch hd tl nx)
  deq_branch-Knows hd tl none l (u, e) current = rw e (ground arith)
  deq_branch-Knows {m} {g} hd tl (some x) l (i, j, e, h, f, le, b, inside, y) current =
      elim (Bool-cases (hd == tl)) [
        | inl one ↦
            let tail_here : tl ≡ g.at i = ground arith in
            rw one (i, tail_here, omega arith, inside, y)
        | inr two ↦
            let apart : i ≢ j = λ x. ground (arith, ap g.at x) in
            rw two (i, e, h, omega (arith, apart), y)
      ]

  -- The `next` field of a node of the list.
  pub next_at :
      {m : Memory V} {g : View} (i a : ℕ)
      → IsList m g
      → a ≡ g.at i
      → i ≤ g.last
      → ((i < g.last) × (m.next a ≡ some (g.at (suc i)))) ⊎ ((i ≡ g.last) × (m.next a ≡ none))
  next_at {m} {g} i a l e h = elim (dec_lt i g.last) [
    | yes before ↦ inl (before, ap m.next e ∙ l.linked i before)
    | no other ↦
        let here : i ≡ g.last = omega arith in inr (here, ap m.next (e ∙ ap g.at here) ∙ l.ends)
  ]

  reads_next :
      {m : Memory V} {g : View} (tl : ℕ)
      → IsList m g
      → UpTo g g.back tl
      → Read g g.back tl (m.next tl)
  reads_next tl l (i, e, h) = elim (next_at i tl l e (omega (arith, l.within))) [
    | inl (before, x) ↦ rw x (i, e, h, before, refl)
    | inr (here, x) ↦ rw x (i, e, h)
  ]

  reads_head_next :
      {m : Memory V} {g : View} (hd tl : ℕ)
      → IsList m g
      → Knows m g (deq_next hd tl)
      → ReadHead g hd tl (m.next hd)
  reads_head_next {m} {g} hd tl l (i, j, e, h, f, le, b) =
      elim (next_at i hd l e (omega (arith, l.within))) [
        | inl (before, x) ↦ rw x (i, j, e, h, f, le, b, before, refl)
        | inr (here, x) ↦
            let one : i ≡ j = omega (arith, l.within) in rw x ((i, e, h), e ∙ ap g.at one ∙ sym f)
      ]

  peek_branch-Knows :
      {m : Memory V} {g : View} (hd : ℕ)
      → IsList m g
      → UpTo g g.front hd
      → Knows m g (peek_branch (m.next hd))
  peek_branch-Knows hd l (i, e, h) = elim (next_at i hd l e (omega (arith, l.ordered, l.within))) [
    | inl (before, x) ↦ rw x (suc i, refl, before)
    | inr (here, x) ↦ rw x tt
  ]

  peek_branch-owned : (m : Memory V) (hd n : ℕ) → owned {V = V} (peek_branch (m.next hd)) ≢ some n
  peek_branch-owned m hd n = λ e. ground arith

  -- A step keeps the shape of the list, whatever the goroutine is about to do.
  pub step-Keeps :
      {m : Memory V} {g : View} (p : Pc V)
      → IsList m g
      → Knows m g p
      → Keeps m g p (step m p).0 (advance m g p) (step m p).1
  unfolding step
  step-Keeps idle l k = reads idle idle l tt (λ n e. e)
  step-Keeps {g} (enq_tail n) l k =
      reads (enq_tail n) _ l (k, (g.back, l.tail_at, omega arith)) (λ x e. e)
  step-Keeps (enq_next n tl) l (fr, u) =
      reads (enq_next n tl) _ l (fr, reads_next tl l u) (λ x e. e)
  step-Keeps {m} (enq_check n tl nx) l (fr, r) = elim (Bool-cases (tl == m.tail)) [
    | inl current ↦ rw current (
        reads (enq_check n tl nx) _ l (enq_branch-Knows n tl nx fr r)
          (λ x e. sym (enq_branch-owned V n tl nx) ∙ e))
    | inr stale ↦ rw stale (reads (enq_check n tl nx) _ l fr (λ x e. e))
  ]
  step-Keeps {m} (enq_link n tl) l k = elim (Bool-cases (is_nil (m.next tl))) [
    | inl nil ↦ rw nil (link-Keeps n tl l k nil)
    | inr lost ↦ rw lost (reads (enq_link n tl) _ l k.0 (λ x e. e))
  ]
  step-Keeps (enq_swing n tl) l k =
      cas_tail-Keeps (enq_swing n tl) enqueued tl n l k tt tt (λ x e. cc)
  step-Keeps {m} (enq_help n tl nx) l (fr, k) =
      cas_tail-Keeps (enq_help n tl nx) (enq_tail n) tl nx l k
        (record { known = fr.known; alone = fr.alone; outside = fr.outside }) fr (λ x e. e)
  step-Keeps enqueued l k = reads enqueued enqueued l tt (λ n e. e)
  step-Keeps {g} deq_head l k = reads deq_head _ l (g.front, l.head_at, omega arith) (λ n e. e)
  step-Keeps {g} (deq_tail hd) l (i, e, h) =
      reads (deq_tail hd) _ l (i, g.back, e, h, l.tail_at, omega (arith, l.ordered), omega arith)
        (λ n x. x)
  step-Keeps (deq_next hd tl) l k =
      reads (deq_next hd tl) _ l (reads_head_next hd tl l k) (λ n x. x)
  step-Keeps {m} (deq_check hd tl nx) l k = elim (Bool-cases (hd == m.head)) [
    | inl current ↦ rw current (
        reads (deq_check hd tl nx) _ l (deq_branch-Knows hd tl nx l k current)
          (λ n e. absurd (deq_branch-owned V hd tl nx n e)))
    | inr stale ↦ rw stale (reads (deq_check hd tl nx) _ l tt (λ n e. e))
  ]
  step-Keeps (deq_help tl nx) l k =
      cas_tail-Keeps (deq_help tl nx) deq_head tl nx l k tt tt (λ x e. e)
  step-Keeps (deq_value hd nx) l k = reads (deq_value hd nx) _ l (k, refl) (λ n e. e)
  step-Keeps {m} (deq_cas hd nx v) l k = elim (Bool-cases (m.head == hd)) [
    | inl won ↦ rw won (pop-Keeps hd nx v l k won)
    | inr lost ↦ rw lost (reads (deq_cas hd nx v) deq_head l tt (λ n e. e))
  ]
  step-Keeps (dequeued v ok) l k = reads (dequeued v ok) (dequeued v ok) l tt (λ n e. e)
  step-Keeps {g} peek_head l k = reads peek_head _ l (g.front, l.head_at, omega arith) (λ n e. e)
  step-Keeps {m} (peek_next hd) l k =
      reads (peek_next hd) _ l (peek_branch-Knows hd l k)
        (λ n e. absurd (peek_branch-owned m hd n e))
  step-Keeps (peek_value nx) l k = reads (peek_value nx) _ l tt (λ n e. e)
  step-Keeps (peeked v ok) l k = reads (peeked v ok) (peeked v ok) l tt (λ n e. e)
  step-Keeps {g} empty_head l k = reads empty_head _ l (g.front, l.head_at, omega arith) (λ n e. e)
  step-Keeps (empty_next hd) l k = reads (empty_next hd) _ l tt (λ n e. e)
  step-Keeps (answered b) l k = reads (answered b) (answered b) l tt (λ n e. e)
  step-Keeps faulted l k = absurd k
