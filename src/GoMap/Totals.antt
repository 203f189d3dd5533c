-- ===== src/GoMap/Totals.antt =====
-- Go's maps: a sum over the entries, and how a write and a deletion change it.
use lock_free_p2p_go.Prelude.{
  ℕ, ◌+◌, ◌≡◌, refl, List, ◌∷◌, [], none, some, Bool-cases, inl, inr, arith,
}
use lock_free_p2p_go.Bytes.{bytes_eq}
use lock_free_p2p_go.Bytes.Laws.{bytes_eq→≡}
use lock_free_p2p_go.GoMap.{lookup, assign, erase}
use lock_free_p2p_go.GoMap.Keys.{IsMap, erase-none}

module _ {V : Type 0} (weight : V → ℕ) where
  abbrev pub total : List (List ℕ × V) → ℕ
  total [] = 0
  total (e ∷ es) = weight e.1 + total es

  pub total-assign :
      (es : List (List ℕ × V)) (key : List ℕ) (v : V)
      → lookup es key ≡ none
      → total (assign es key v) ≡ weight v + total es
  total-assign [] key v h = refl
  total-assign (e ∷ es) key v h = elim (Bool-cases (bytes_eq e.0 key)) [
    | inl same ↦ absurd (cc (rw same at h))
    | inr other ↦ rw other (omega (arith, total-assign es key v (rw other at h)))
  ]

  pub total-erase :
      (es : List (List ℕ × V)) (key : List ℕ) (v : V)
      → IsMap es
      → lookup es key ≡ some v
      → total es ≡ weight v + total (erase es key)
  total-erase [] key v m h = absurd (cc h)
  total-erase (e ∷ es) key v m h = elim (Bool-cases (bytes_eq e.0 key)) [
    | inl same ↦
        let gone : lookup es key ≡ none = rw (bytes_eq→≡ e.0 key same) at m.0 in
        let is : e.1 ≡ v = cc (rw same at h) in rw (same, erase-none es key gone, is) refl
    | inr other ↦ rw other (omega (arith, total-erase es key v m.1 (rw other at h)))
  ]
