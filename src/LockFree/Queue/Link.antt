-- ===== src/LockFree/Queue/Link.antt =====
-- The step that links a new node behind the last one.
use lock_free_p2p_go.Prelude.{ℕ, suc, ◌≤◌, ◌≡◌, ◌≢◌, refl, sym, ◌∙◌, ap, some, arith, true}
use native.Mathlib.Decide.{dec_lt}
use lock_free_p2p_go.LockFree.Queue.{Memory, enq_link, enq_swing, update, is_nil}
use lock_free_p2p_go.LockFree.Queue.Invariant.{View, IsList, IsFresh, Knows}
use lock_free_p2p_go.LockFree.Queue.Moves.{extended, Keeps, last_of_nil}

pub at_old : (g : View) (n j : ℕ) → j ≤ g.last → (extended g n).at j ≡ g.at j
at_old g n j h = ground arith

pub at_new : (g : View) (n : ℕ) → (extended g n).at (suc g.last) ≡ n
at_new g n = ground arith

module _ {V : Type 0} where
  link-IsList :
      {m : Memory V} {g : View} (n tl : ℕ)
      → IsList m g
      → IsFresh m g n
      → tl ≡ g.at g.last
      → g.back ≡ g.last
      → IsList (record m { next = update m.next tl (some n) }) (extended g n)
  link-IsList {m} {g} n tl l fr e b = record {
    head_at = l.head_at ∙ sym (at_old g n g.front (omega (arith, l.ordered, l.within)));
    tail_at = l.tail_at ∙ sym (at_old g n g.back l.within);
    ordered = l.ordered;
    within = omega (arith, l.within);
    near = omega arith;
    linked = λ i h. elim (dec_lt i g.last) [
      | yes before ↦
          let apart : tl ≢ g.at i = λ x.
            absurd (omega (arith, l.distinct g.last i (omega arith) (omega arith) (sym e ∙ x))) in
          ground
            (arith, at_old g n i (omega arith), at_old g n (suc i) before, l.linked i before, apart)
      | no other ↦
          let here : i ≡ g.last = omega arith in
          rw (here, at_new g n, at_old g n g.last (omega arith)) (ground (arith, e))
    ];
    ends =
        let apart : tl ≢ n = λ x. fr.outside g.last (omega arith) (sym e ∙ x) in
        rw (at_new g n) (ground (arith, apart, fr.alone));
    distinct = λ i j h k x. elim (dec_lt i (suc g.last)) [
      | yes old_i ↦ elim (dec_lt j (suc g.last)) [
        | yes old_j ↦
            l.distinct i j (omega arith) (omega arith)
              (sym (at_old g n i (omega arith)) ∙ x ∙ at_old g n j (omega arith))
        | no new_j ↦
            let here : j ≡ suc g.last = omega arith in
            absurd (
              fr.outside i (omega arith)
                (sym (at_old g n i (omega arith)) ∙ x ∙ ap (extended g n).at here ∙ at_new g n))
      ]
      | no new_i ↦ elim (dec_lt j (suc g.last)) [
        | yes old_j ↦
            let here : i ≡ suc g.last = omega arith in
            absurd (
              fr.outside j (omega arith)
                (sym (at_old g n j (omega arith)) ∙ sym x ∙ ap (extended g n).at here ∙ at_new g n))
        | no new_j ↦ omega arith
      ]
    ];
    allocated = λ i h. elim (dec_lt i (suc g.last)) [
      | yes old ↦ rw (at_old g n i (omega arith)) (l.allocated i (omega arith))
      | no new ↦ let here : i ≡ suc g.last = omega arith in rw (here, at_new g n) fr.known
    ];
  }

  pub link-Keeps :
      {m : Memory V} {g : View} (n tl : ℕ)
      → IsList m g
      → Knows m g (enq_link n tl)
      → is_nil (m.next tl) ≡ true
      → Keeps m g
          (enq_link n tl)
          (record m { next = update m.next tl (some n) })
          (extended g n)
          (enq_swing n tl)
  link-Keeps {m} {g} n tl l (fr, (i, e, h)) nil =
      let place : i ≡ g.last = last_of_nil i tl l e (omega (arith, l.within)) nil in
      let last_node : tl ≡ g.at g.last = e ∙ ap g.at place in
      record {
        list = link-IsList n tl l fr last_node (omega (arith, l.within));
        knows = (
          g.last,
          last_node ∙ sym (at_old g n g.last (omega arith)),
          omega arith,
          omega arith,
          sym (at_new g n),
        );
        grows = record {
          same = at_old g n;
          longer = omega arith;
          forward = omega arith;
          onward = omega arith;
          values = λ k b. refl;
        };
        fresh = λ k f other. record {
          known = f.known;
          alone =
              let apart : tl ≢ k = λ x. f.outside g.last (omega arith) (sym last_node ∙ x) in
              ground (arith, f.alone, apart);
          outside = λ j b x. elim (dec_lt j (suc g.last)) [
            | yes old ↦ f.outside j (omega arith) (sym (at_old g n j (omega arith)) ∙ x)
            | no new ↦
                let here : j ≡ suc g.last = omega arith in
                other (ap some (sym (at_new g n) ∙ ap (extended g n).at (sym here) ∙ x))
          ];
        };
        owns = λ k x. cc;
      }
