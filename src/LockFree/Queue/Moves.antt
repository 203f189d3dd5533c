-- ===== src/LockFree/Queue/Moves.antt =====
-- pkg/ds/lockfree/queue.go: the list before and after a compare-and-swap on head or tail.
use lock_free_p2p_go.Prelude.{
  ℕ, suc, ◌≤◌, ◌≡◌, ◌≢◌, refl, sym, ◌∙◌, ap, Option, some, arith, true, Bool-cases, inl, inr, ◌==◌,
  if◌then◌else◌,
}
use native.Mathlib.Decide.{dec_lt}
use lock_free_p2p_go.LockFree.Queue.{
  Memory, Pc, enq_link, enq_swing, enq_help, deq_help, deq_cas, dequeued, update, is_nil, cas_tail,
}
use lock_free_p2p_go.LockFree.Queue.Invariant.{View, IsList, IsFresh, Step, Knows, owned}
use lock_free_p2p_go.LockFree.Queue.Growth.{Grows, Grows-refl}

-- The view after a node is linked behind the last one, after `tail` moves on, and after `head` does.
abbrev pub extended : View → ℕ → View
extended g n = record g { at = update g.at (suc g.last) n; last = suc g.last }

abbrev pub swung : View → View
swung g = record g { back = suc g.back }

abbrev pub popped : View → View
popped g = record g { front = suc g.front }

-- The view after a step.
abbrev pub advance : {V : Type 0} → Memory V → View → Pc V → View
advance m g (enq_link n tl) = if is_nil (m.next tl) then extended g n else g
advance m g (enq_swing n tl) = if m.tail == tl then swung g else g
advance m g (enq_help n tl nx) = if m.tail == tl then swung g else g
advance m g (deq_help tl nx) = if m.tail == tl then swung g else g
advance m g (deq_cas hd nx v) = if m.head == hd then popped g else g
advance m g _ = g

module _ {V : Type 0} where
  -- The list is in shape afterwards, the goroutine knows what its new place needs, and nothing is
  -- lost that other goroutines know.
  pub record Keeps (m : Memory V) (g : View) (p : Pc V) (m' : Memory V) (g' : View) (p' : Pc V)
      : Type 0 where
    pub list : IsList m' g'
    pub knows : Knows m' g' p'
    pub grows : Grows m g m' g'
    pub fresh : (n : ℕ) → IsFresh m g n → owned p ≢ some n → IsFresh m' g' n
    pub owns : (n : ℕ) → owned p' ≡ some n → owned p ≡ some n

  -- A step that only reads.
  pub reads :
      {m : Memory V} {g : View} (p p' : Pc V)
      → IsList m g
      → Knows m g p'
      → ((n : ℕ) → owned p' ≡ some n → owned p ≡ some n)
      → Keeps m g p m g p'
  reads {m} {g} p p' l k o = record {
    list = l;
    knows = k;
    grows = Grows-refl m g;
    fresh = λ n f h. f;
    owns = o;
  }

  -- The places of `head` and `tail`, and of a node that was read, agree if the pointers do.
  pub same_place :
      {m : Memory V} {g : View} (i j a b : ℕ)
      → IsList m g
      → a ≡ g.at i
      → b ≡ g.at j
      → i ≤ g.last
      → j ≤ g.last
      → a ≡ b
      → i ≡ j
  same_place i j a b l e f h k x = l.distinct i j h k (sym e ∙ x ∙ f)

  pub cas_tail-Keeps :
      {m : Memory V} {g : View} (p p' : Pc V) (tl nx : ℕ)
      → IsList m g
      → Step g g.back tl nx
      → Knows (record m { tail = nx }) (swung g) p'
      → Knows m g p'
      → ((n : ℕ) → owned p' ≡ some n → owned p ≡ some n)
      → Keeps m g p (cas_tail m tl nx) (if m.tail == tl then swung g else g) p'
  cas_tail-Keeps {m} {g} p p' tl nx l (i, e, h, inside, f) later now o =
      elim (Bool-cases (m.tail == tl)) [
        | inr lost ↦ rw lost (reads p p' l now o)
        | inl won ↦
            let place : i ≡ g.back =
              same_place i g.back tl m.tail l e l.tail_at (omega (arith, l.within)) l.within
                (ground arith) in
            let w : Grows m g (record m { tail = nx }) (swung g) = record {
              same = λ j k. refl;
              longer = omega arith;
              forward = omega arith;
              onward = omega arith;
              values = λ n k. refl;
            } in
            rw won (record {
              list = record {
                head_at = l.head_at;
                tail_at = f ∙ ap (λ k. g.at (suc k)) place;
                ordered = omega (arith, l.ordered);
                within = omega arith;
                near = omega (arith, l.near);
                linked = l.linked;
                ends = l.ends;
                distinct = l.distinct;
                allocated = l.allocated;
              };
              knows = later;
              grows = w;
              fresh = λ n fr x. record { known = fr.known; alone = fr.alone; outside = fr.outside };
              owns = o;
            })
      ]

  -- The node read is the last one if its pointer is nil.
  pub last_of_nil :
      {m : Memory V} {g : View} (i a : ℕ)
      → IsList m g
      → a ≡ g.at i
      → i ≤ g.last
      → is_nil (m.next a) ≡ true
      → i ≡ g.last
  last_of_nil {m} {g} i a l e h nil = elim (dec_lt i g.last) [
    | yes before ↦ absurd (ground (arith, l.linked i before, ap m.next e))
    | no other ↦ omega arith
  ]

  pub pop-Keeps :
      {m : Memory V} {g : View} (hd nx : ℕ) (v : Option V)
      → IsList m g
      → Knows m g (deq_cas hd nx v)
      → (m.head == hd) ≡ true
      → Keeps m g (deq_cas hd nx v) (record m { head = nx }) (popped g) (dequeued v true)
  pop-Keeps {m} {g} hd nx v l ((i, e, h, k, f), x) won =
      let place : i ≡ g.front =
        same_place i g.front hd m.head l e l.head_at (omega (arith, l.within))
          (omega (arith, l.ordered, l.within)) (ground arith) in
      record {
        list = record {
          head_at = f ∙ ap (λ j. g.at (suc j)) place;
          tail_at = l.tail_at;
          ordered = omega arith;
          within = l.within;
          near = l.near;
          linked = l.linked;
          ends = l.ends;
          distinct = l.distinct;
          allocated = l.allocated;
        };
        knows = tt;
        grows = record {
          same = λ j b. refl;
          longer = omega arith;
          forward = omega arith;
          onward = omega arith;
          values = λ n b. refl;
        };
        fresh = λ n fr y. record { known = fr.known; alone = fr.alone; outside = fr.outside };
        owns = λ n y. cc;
      }
