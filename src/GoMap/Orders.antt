-- ===== src/GoMap/Orders.antt =====
-- Go's maps: the order in which a loop goes through the entries.
use lock_free_p2p_go.Prelude.{
  ℕ, ◌≡◌, refl, sym, ◌∙◌, ap, List, ◌∷◌, false, none, Bool-cases, inl, inr, arith,
}
use mathlib.Core.List.{Permᴰ}
use lock_free_p2p_go.Bytes.{bytes_eq}
use lock_free_p2p_go.Bytes.Laws.{bytes_eq→≡, bytes_eq_iff}
use lock_free_p2p_go.GoMap.{lookup}
use lock_free_p2p_go.GoMap.Keys.{IsMap}
use lock_free_p2p_go.GoMap.Totals.{total}

pub bytes_eq_sym : (a b : List ℕ) → bytes_eq a b ≡ false → bytes_eq b a ≡ false
bytes_eq_sym a b h = ground (arith, bytes_eq_iff a b, bytes_eq_iff b a)

-- A sum over the entries in another order.
pub perm-total :
    {V : Type 0} (weight : V → ℕ) {es fs : List (List ℕ × V)}
    → Permᴰ es fs
    → total weight es ≡ total weight fs
perm-total weight Permᴰ.nil = refl
perm-total weight (Permᴰ.cons e p) = omega (arith, ap (λ x. weight x.1) e, perm-total weight p)
perm-total weight (Permᴰ.swap e f) = omega (arith, ap (λ x. weight x.1) e, ap (λ x. weight x.1) f)
perm-total weight (Permᴰ.trans p q) = perm-total weight p ∙ perm-total weight q

module _ {V : Type 0} where
  -- Two lists of the same entries, one for each key, look up the same.
  pub record SameMap (es fs : List (List ℕ × V)) : Type 0 where
    pub is_map : IsMap fs
    pub looks_up : (k : List ℕ) → lookup fs k ≡ lookup es k

  SameMap-swap :
      (x y : List ℕ × V) (l : List (List ℕ × V))
      → IsMap (y ∷ x ∷ l)
      → SameMap (y ∷ x ∷ l) (x ∷ y ∷ l)
  SameMap-swap x y l m = elim (Bool-cases (bytes_eq x.0 y.0)) [
    | inl same ↦ absurd (cc (rw same at m.0))
    | inr other ↦
        let back = bytes_eq_sym x.0 y.0 other in
        let absent : lookup l y.0 ≡ none = rw other at m.0 in
        record {
          is_map = (rw back m.1.0, (absent, m.1.1));
          looks_up = λ k. elim (Bool-cases (bytes_eq x.0 k)) [
            | inl here ↦
                let apart : bytes_eq y.0 k ≡ false = rw (bytes_eq→≡ x.0 k here) at back in
                rw (here, apart) refl
            | inr elsewhere ↦ rw elsewhere refl
          ];
        }
  ]

  pub perm-SameMap : {es fs : List (List ℕ × V)} → Permᴰ es fs → IsMap es → SameMap es fs
  perm-SameMap Permᴰ.nil m = record { is_map = tt; looks_up = λ k. refl }
  perm-SameMap (Permᴰ.cons {a = x} {b = y} {l₁ = es} {l₂ = fs} e p) m =
      let s = perm-SameMap p m.1 in
      let one : SameMap (x ∷ es) (x ∷ fs) = record {
        is_map = (s.looks_up x.0 ∙ m.0, s.is_map);
        looks_up = λ k. rw s.looks_up refl;
      } in
      rw (sym (ap (λ z. z ∷ fs) e)) one
  perm-SameMap (Permᴰ.swap {a = x} {b = y} {a' = u} {b' = v} {l = l} e f) m =
      rw (← e, ← f) (SameMap-swap y x l m)
  perm-SameMap (Permᴰ.trans p q) m =
      let s = perm-SameMap p m in
      let t = perm-SameMap q s.is_map in
      record { is_map = t.is_map; looks_up = λ k. t.looks_up k ∙ s.looks_up k }
