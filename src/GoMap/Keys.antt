-- ===== src/GoMap/Keys.antt =====
-- Go's maps: one entry for each key, and how many entries there are.
use lock_free_p2p_go.Prelude.{
  ℕ, suc, ◌≡◌, refl, sym, ap, List, ◌∷◌, [], true, false, none, some, if◌then◌else◌, Bool-cases,
  inl, inr, arith, Mem, length,
}
use mathlib.Core.List.{Memᴰ}
use mathlib.Core.Logic.{∥∥₁_map}
use lock_free_p2p_go.Bytes.{bytes_eq}
use lock_free_p2p_go.Bytes.Laws.{bytes_eq→≡, bytes_eq_iff}
use lock_free_p2p_go.GoMap.{lookup, assign, erase, there}
use lock_free_p2p_go.GoMap.Laws.{lookup-assign, lookup-erase}

module _ {V : Type 0} where
  -- No two entries have the same key.
  abbrev pub IsMap : List (List ℕ × V) → Type 0
  IsMap [] = Unit {0}
  IsMap (e ∷ es) = (lookup es e.0 ≡ none) × IsMap es

  pub erase-none :
      (es : List (List ℕ × V)) (key : List ℕ) → lookup es key ≡ none → erase es key ≡ es
  erase-none [] key h = refl
  erase-none (e ∷ es) key h = elim (Bool-cases (bytes_eq e.0 key)) [
    | inl same ↦ absurd (cc (rw same at h))
    | inr other ↦ rw (other, erase-none es key (rw other at h)) refl
  ]

  pub IsMap-erase : (es : List (List ℕ × V)) (key : List ℕ) → IsMap es → IsMap (erase es key)
  IsMap-erase [] key m = m
  IsMap-erase (e ∷ es) key m = elim (Bool-cases (bytes_eq e.0 key)) [
    | inl same ↦ rw same (IsMap-erase es key m.1)
    | inr other ↦ rw other ((ground (arith, lookup-erase es key e.0, m.0), IsMap-erase es key m.1))
  ]

  pub IsMap-assign :
      (es : List (List ℕ × V)) (key : List ℕ) (v : V) → IsMap es → IsMap (assign es key v)
  IsMap-assign [] key v m = (refl, tt)
  IsMap-assign (e ∷ es) key v m = elim (Bool-cases (bytes_eq e.0 key)) [
    | inl same ↦ let here = bytes_eq→≡ e.0 key same in rw same ((rw (← here) m.0, m.1))
    | inr other ↦
        let apart : bytes_eq key e.0 ≡ false =
          ground (arith, bytes_eq_iff e.0 key, bytes_eq_iff key e.0) in
        rw other ((rw (lookup-assign es key e.0 v, apart) m.0, IsMap-assign es key v m.1))
  ]

  -- An entry of the list is what its key looks up.
  pub Mem-lookup :
      (es : List (List ℕ × V)) (k : List ℕ) (v : V)
      → IsMap es
      → Mem (k, v) es
      → ∥ (lookup es k ≡ some v) ∥₁
  Mem-lookup es k v m i = ∥∥₁_map i (found es m)
    where
      found : (fs : List (List ℕ × V)) → IsMap fs → Memᴰ (k, v) fs → lookup fs k ≡ some v
      found [] m' i' = elim i' [ ]
      found (f ∷ fs) m' (Memᴰ.head e) =
          let same : bytes_eq f.0 k ≡ true = (bytes_eq_iff f.0 k).1 (ap (λ x. x.0) (sym e)) in
          rw same (ap (λ x. some x.1) (sym e))
      found (f ∷ fs) m' (Memᴰ.tail i') =
          let later = found fs m'.1 i' in
          elim (Bool-cases (bytes_eq f.0 k)) [
            | inl same ↦
                let gone : lookup fs k ≡ none = rw (bytes_eq→≡ f.0 k same) at m'.0 in
                absurd (cc (gone, later))
            | inr other ↦ rw other later
          ]

  pub length-erase :
      (es : List (List ℕ × V)) (key : List ℕ)
      → IsMap es
      → length es
        ≡ (if there (lookup es key) then suc (length (erase es key)) else length (erase es key))
  length-erase [] key m = refl
  length-erase (e ∷ es) key m = elim (Bool-cases (bytes_eq e.0 key)) [
    | inl same ↦
        let gone : lookup es key ≡ none = rw (bytes_eq→≡ e.0 key same) at m.0 in
        rw (same, erase-none es key gone) refl
    | inr other ↦ rw other (ground (arith, length-erase es key m.1))
  ]

  pub length-assign :
      (es : List (List ℕ × V)) (key : List ℕ) (v : V)
      → length (assign es key v) ≡ (if there (lookup es key) then length es else suc (length es))
  length-assign [] key v = refl
  length-assign (e ∷ es) key v = elim (Bool-cases (bytes_eq e.0 key)) [
    | inl same ↦ rw same refl
    | inr other ↦ rw other (ground (arith, length-assign es key v))
  ]

  -- A deletion takes back the write of a new key.
  pub erase-assign :
      (es : List (List ℕ × V)) (key : List ℕ) (v : V)
      → lookup es key ≡ none
      → erase (assign es key v) key ≡ es
  erase-assign [] key v h =
      let self : bytes_eq key key ≡ true = (bytes_eq_iff key key).1 refl in rw self refl
  erase-assign (e ∷ es) key v h = elim (Bool-cases (bytes_eq e.0 key)) [
    | inl same ↦ absurd (cc (rw same at h))
    | inr other ↦ rw (other, other) (ap (◌∷◌ e) (erase-assign es key v (rw other at h)))
  ]
