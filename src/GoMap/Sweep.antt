-- ===== src/GoMap/Sweep.antt =====
-- Go's maps: a loop that deletes the entries that pass a test.
use lock_free_p2p_go.Prelude.{
  ℕ, suc, ◌+◌, ◌≡◌, refl, sym, ◌∙◌, List, ◌∷◌, [], true, Bool, Option, none, some, Bool-cases,
  Option-cases, inl, inr, arith, All, length, if◌then◌else◌,
}
use mathlib.Core.List.{Permᴰ}
use mathlib.Core.List.Permᴰ as Permᴰ
use lock_free_p2p_go.Bytes.{bytes_eq}
use lock_free_p2p_go.Bytes.Laws.{bytes_eq→≡, bytes_eq_iff}
use lock_free_p2p_go.GoMap.{lookup, erase, there, sweep}
use lock_free_p2p_go.GoMap.Laws.{lookup-erase, erase-some}
use lock_free_p2p_go.GoMap.Keys.{IsMap, IsMap-erase, length-erase}
use lock_free_p2p_go.GoMap.Orders.{perm-SameMap, bytes_eq_sym}

module _ {V : Type 0} where
  -- Every entry of the list is in the map.
  abbrev pub IsWithin : (order es : List (List ℕ × V)) → Type 0
  IsWithin order es = All (λ e. lookup es e.0 ≡ some e.1) order

  IsWithin-erase :
      (order es : List (List ℕ × V)) (key : List ℕ)
      → lookup order key ≡ none
      → IsWithin order es
      → IsWithin order (erase es key)
  IsWithin-erase [] es key h w = tt
  IsWithin-erase (e ∷ order) es key h w = elim (Bool-cases (bytes_eq e.0 key)) [
    | inl same ↦ absurd (cc (rw same at h))
    | inr other ↦ (
      lookup-erase es key e.0 ∙ rw (bytes_eq_sym e.0 key other) w.0,
      IsWithin-erase order es key (rw other at h) w.1,
    )
  ]

  IsWithin-cons :
      (e : List ℕ × V) (order es : List (List ℕ × V))
      → lookup es e.0 ≡ none
      → IsWithin order es
      → IsWithin order (e ∷ es)
  IsWithin-cons e [] es h w = tt
  IsWithin-cons e (f ∷ order) es h w = elim (Bool-cases (bytes_eq e.0 f.0)) [
    | inl same ↦
        let gone : lookup es f.0 ≡ none = rw (bytes_eq→≡ e.0 f.0 same) at h in
        absurd (cc (gone, w.0))
    | inr other ↦ (rw other w.0, IsWithin-cons e order es h w.1)
  ]

  pub IsWithin-itself : (es : List (List ℕ × V)) → IsMap es → IsWithin es es
  IsWithin-itself [] m = tt
  IsWithin-itself (e ∷ es) m =
      let self : bytes_eq e.0 e.0 ≡ true = (bytes_eq_iff e.0 e.0).1 refl in
      (rw self refl, IsWithin-cons e es es m.0 (IsWithin-itself es m.1))

  pub IsWithin-same :
      (order fs es : List (List ℕ × V))
      → ((k : List ℕ) → lookup es k ≡ lookup fs k)
      → IsWithin order fs
      → IsWithin order es
  IsWithin-same [] fs es h w = tt
  IsWithin-same (e ∷ order) fs es h w = (h e.0 ∙ w.0, IsWithin-same order fs es h w.1)

module _ {V : Type 0} (test : V → Bool) where
  -- What the loop leaves of what a key looks up.
  abbrev pub unless : Option V → Option V
  unless none = none
  unless (some v) = if test v then none else some v

  pub IsMap-sweep : (order es : List (List ℕ × V)) → IsMap es → IsMap (sweep test order es).0
  unfolding sweep
  IsMap-sweep [] es m = m
  IsMap-sweep (e ∷ order) es m = elim (Bool-cases (test e.1)) [
    | inl gone ↦ rw gone (IsMap-sweep order (erase es e.0) (IsMap-erase es e.0 m))
    | inr kept ↦ rw kept (IsMap-sweep order es m)
  ]

  pub sweep-some :
      (order es : List (List ℕ × V)) (k : List ℕ) (v : V)
      → lookup (sweep test order es).0 k ≡ some v
      → lookup es k ≡ some v
  unfolding sweep
  sweep-some [] es k v h = h
  sweep-some (e ∷ order) es k v h = elim (Bool-cases (test e.1)) [
    | inl gone ↦ (erase-some es e.0 k v (sweep-some order (erase es e.0) k v (rw gone at h))).0
    | inr kept ↦ sweep-some order es k v (rw kept at h)
  ]

  -- Each deletion takes one entry.
  pub length-sweep :
      (order es : List (List ℕ × V))
      → IsMap order
      → IsMap es
      → IsWithin order es
      → length (sweep test order es).0 + length (sweep test order es).1 ≡ length es
  unfolding sweep
  length-sweep [] es o m w = omega arith
  length-sweep (e ∷ order) es o m w = elim (Bool-cases (test e.1)) [
    | inl gone ↦
        let one : length es ≡ suc (length (erase es e.0)) = length-erase es e.0 m ∙ rw w.0 refl in
        rw gone (
          omega (
            arith,
            one,
            length-sweep order (erase es e.0) o.1 (IsMap-erase es e.0 m)
                (IsWithin-erase order es e.0 o.0 w.1),
          ))
    | inr kept ↦ rw kept (length-sweep order es o.1 m w.1)
  ]

  lookup-sweep_within :
      (order es : List (List ℕ × V)) (k : List ℕ)
      → IsMap order
      → IsWithin order es
      → lookup (sweep test order es).0 k
        ≡ (if there (lookup order k) then unless (lookup es k) else lookup es k)
  unfolding sweep
  lookup-sweep_within [] es k o w = refl
  lookup-sweep_within (e ∷ order) es k o w = elim (Bool-cases (bytes_eq e.0 k)) [
    | inl here ↦
        let absent : lookup order k ≡ none = rw (bytes_eq→≡ e.0 k here) at o.0 in
        let found : lookup es k ≡ some e.1 = rw (bytes_eq→≡ e.0 k here) at w.0 in
        elim (Bool-cases (test e.1)) [
          | inl gone ↦
              let later =
                lookup-sweep_within order (erase es e.0) k o.1
                  (IsWithin-erase order es e.0 o.0 w.1) in
              let cut : lookup (erase es e.0) k ≡ none = lookup-erase es e.0 k ∙ rw here refl in
              rw (here, gone, found, gone, later, absent, cut) refl
          | inr kept ↦
              rw (here, kept, found, kept, lookup-sweep_within order es k o.1 w.1, absent, found)
                refl
        ]
    | inr other ↦ elim (Bool-cases (test e.1)) [
      | inl gone ↦
          let later =
            lookup-sweep_within order (erase es e.0) k o.1 (IsWithin-erase order es e.0 o.0 w.1) in
          let same : lookup (erase es e.0) k ≡ lookup es k =
            lookup-erase es e.0 k ∙ rw other refl in
          rw (other, gone, later, same) refl
      | inr kept ↦ rw (other, kept) (lookup-sweep_within order es k o.1 w.1)
    ]
  ]

  -- The loop in an order of the entries of the map: the map has what does not pass the test, and as
  -- many entries fewer as there are deletions.
  pub record Swept (es : List (List ℕ × V)) (r : List (List ℕ × V) × List (List ℕ × V))
      : Type 0 where
    pub is_map : IsMap r.0
    pub lengths : length r.0 + length r.1 ≡ length es
    pub looks_up : (k : List ℕ) → lookup r.0 k ≡ unless (lookup es k)

  pub sweep-Swept :
      (order es : List (List ℕ × V)) → Permᴰ order es → IsMap es → Swept es (sweep test order es)
  sweep-Swept order es p m =
      let s = perm-SameMap (Permᴰ.symm p) m in
      let w =
        IsWithin-same order order es (λ k. sym (s.looks_up k)) (IsWithin-itself order s.is_map) in
      record {
        is_map = IsMap-sweep order es m;
        lengths = length-sweep order es s.is_map m w;
        looks_up = λ k. lookup-sweep_within order es k s.is_map w ∙ rw s.looks_up (absent k);
      }
    where
      absent :
          (k : List ℕ)
          → (if there (lookup es k) then unless (lookup es k) else lookup es k)
            ≡ unless (lookup es k)
      absent k = elim (Option-cases (lookup es k)) [ inl h ↦ rw h refl | inr h ↦ rw (h.1) refl ]
