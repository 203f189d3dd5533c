-- ===== src/GoMap/Laws.antt =====
-- Go's maps: what is looked up after a write and after a deletion.
use lock_free_p2p_go.Prelude.{
  ℕ, ◌≡◌, refl, sym, ap, ◌∙◌, List, ◌∷◌, [], Bool, true, false, Option, none, some, if◌then◌else◌,
  Bool-cases, inl, inr, ◌⊎◌, arith, Mem,
}
use mathlib.Core.List.{mem-cons_self, mem-cons_of_mem}
use lock_free_p2p_go.Bytes.{bytes_eq}
use lock_free_p2p_go.Bytes.Laws.{bytes_eq→≡}
use lock_free_p2p_go.GoMap.{lookup, assign, erase}

module _ {V : Type 0} where
  same_key :
      (b : Bool) (w v : Option V) (o : Option V)
      → (if b then w else o) ≡ (if b then w else (if b then v else o))
  same_key true w v o = refl
  same_key false w v o = refl

  -- A key other than the entry's is answered first, whatever the entry says.
  other_key :
      (a key k : List ℕ) (w v o : Option V)
      → bytes_eq a key ≡ false
      → (if bytes_eq a k then v else (if bytes_eq key k then w else o))
        ≡ (if bytes_eq key k then w else (if bytes_eq a k then v else o))
  other_key a key k w v o other = elim (Bool-cases (bytes_eq key k)) [
    | inl asked ↦
        let e : bytes_eq a k ≡ false = ap (bytes_eq a) (sym (bytes_eq→≡ key k asked)) ∙ other in
        rw (e, asked)
    | inr not_asked ↦ rw not_asked
  ]

  pub lookup-assign :
      (es : List (List ℕ × V)) (key k : List ℕ) (v : V)
      → lookup (assign es key v) k ≡ (if bytes_eq key k then some v else lookup es k)
  lookup-assign [] key k v = refl
  lookup-assign (e ∷ es) key k v = elim (Bool-cases (bytes_eq e.0 key)) [
    | inl same ↦
        let here : bytes_eq e.0 k ≡ bytes_eq key k =
          ap (λ a. bytes_eq a k) (bytes_eq→≡ e.0 key same) in
        rw (same, here) (same_key (bytes_eq key k) (some v) (some e.1) (lookup es k))
    | inr other ↦
        rw (other, lookup-assign es key k v)
          (other_key e.0 key k (some v) (some e.1) (lookup es k) other)
  ]

  pub lookup-erase :
      (es : List (List ℕ × V)) (key k : List ℕ)
      → lookup (erase es key) k ≡ (if bytes_eq key k then none else lookup es k)
  lookup-erase [] key k = elim (Bool-cases (bytes_eq key k)) [ inl a ↦ rw a | inr b ↦ rw b ]
  lookup-erase (e ∷ es) key k = elim (Bool-cases (bytes_eq e.0 key)) [
    | inl same ↦
        let here : bytes_eq e.0 k ≡ bytes_eq key k =
          ap (λ a. bytes_eq a k) (bytes_eq→≡ e.0 key same) in
        rw (same, here, lookup-erase es key k)
          (same_key (bytes_eq key k) none (some e.1) (lookup es k))
    | inr other ↦
        rw (other, lookup-erase es key k) (other_key e.0 key k none (some e.1) (lookup es k) other)
  ]

  -- What is still there after a deletion was there before, under another key.
  pub erase-some :
      (es : List (List ℕ × V)) (key k : List ℕ) (v : V)
      → lookup (erase es key) k ≡ some v
      → (lookup es k ≡ some v) × (bytes_eq key k ≡ false)
  erase-some es key k v e = ground (arith, lookup-erase es key k)

  -- What is there after a write is what was written, or it was there before.
  pub assign-some :
      (es : List (List ℕ × V)) (key k : List ℕ) (w v : V)
      → lookup (assign es key w) k ≡ some v
      → ((key ≡ k) × (w ≡ v)) ⊎ (lookup es k ≡ some v)
  assign-some es key k w v e = elim (Bool-cases (bytes_eq key k)) [
    | inl asked ↦ inl (bytes_eq→≡ key k asked, ground (arith, lookup-assign es key k w))
    | inr other ↦ inr (ground (arith, lookup-assign es key k w))
  ]

  pub lookup-Mem :
      (es : List (List ℕ × V)) (k : List ℕ) (v : V) → lookup es k ≡ some v → Mem (k, v) es
  lookup-Mem [] k v e = cc
  lookup-Mem (x ∷ es) k v e = elim (Bool-cases (bytes_eq x.0 k)) [
    | inl same ↦
        let found : x.1 ≡ v = ground arith in
        let entry : x ≡ (k, v) = λ i. (bytes_eq→≡ x.0 k same i, found i) in rw entry mem-cons_self
    | inr other ↦ mem-cons_of_mem x (lookup-Mem es k v (ground arith))
  ]
