-- ===== src/Prelude/Selection.antt =====
-- The elements of a list that pass a test, and the first elements of a list.
use Prim.Native.Nat.{ℕ, zero, suc, ◌≤◌}
use mathlib.Core.Path.{◌≡◌, ap, ◌∙◌, sym, refl}
use mathlib.Core.Logic.{◌↔◌, inl, inr, ∥∥₁_map, ∥∥₁_elim}
use mathlib.Core.Bool.{Bool, true, Bool-set}
use mathlib.Core.List.{List, [], ◌∷◌, ◌++◌, Mem, Memᴰ, Perm, Permᴰ}
use mathlib.Core.List.Permᴰ as Permᴰ
use mathlib.Core.List.Memᴰ as Memᴰ
use native.Mathlib.Omega.{arith}
use lock_free_p2p_go.Prelude.Tests.{Bool-cases}
use lock_free_p2p_go.Prelude.Lists.{length, take, drop, select}

module _ {ℓ} {A : Type ℓ} (test : A → Bool) where
  select_sound : (xs : List A) (a : A) → Memᴰ a (select test xs) → Memᴰ a xs × (test a ≡ true)
  select_sound [] a i = elim i [ ]
  select_sound (x ∷ xs) a i =
      let later : Memᴰ a (select test xs) → Memᴰ a (x ∷ xs) × (test a ≡ true) =
        λ j. (let s = select_sound xs a j in (Memᴰ.tail s.0, s.1)) in
      elim (Bool-cases (test x)) [
        | inl passed ↦ elim (Memᴰ.cases_cons (rw passed at i)) [
          | inl e ↦ (Memᴰ.head e, ap test e ∙ passed)
          | inr j ↦ later j
        ]
        | inr failed ↦ later (rw failed at i)
      ]

  select_complete : (xs : List A) (a : A) → Memᴰ a xs → test a ≡ true → Memᴰ a (select test xs)
  select_complete [] a i t = elim i [ ]
  select_complete (x ∷ xs) a (Memᴰ.head e) t =
      let passed : test x ≡ true = ap test (sym e) ∙ t in rw passed (Memᴰ.head e)
  select_complete (x ∷ xs) a (Memᴰ.tail i) t =
      let later = select_complete xs a i t in
      elim (Bool-cases (test x)) [
        | inl passed ↦ rw passed (Memᴰ.tail later)
        | inr failed ↦ rw failed later
      ]

  pub Mem-select : (xs : List A) (a : A) → Mem a (select test xs) ↔ (Mem a xs × (test a ≡ true))
  Mem-select xs a = (
    λ m. (
      ∥∥₁_map m (λ i. (select_sound xs a i).0),
      ∥∥₁_elim m (Bool-set _ _) (λ i. (select_sound xs a i).1),
    ),
    λ (m, t). ∥∥₁_map m (λ i. select_complete xs a i t),
  )

  pub length-select-le : (xs : List A) → length (select test xs) ≤ length xs
  length-select-le [] = omega arith
  length-select-le (x ∷ xs) = ground (arith, length-select-le xs)

module _ {ℓ} {A : Type ℓ} where
  take_within : (n : ℕ) (xs : List A) (a : A) → Memᴰ a (take n xs) → Memᴰ a xs
  take_within zero xs a i = elim i [ ]
  take_within (suc n) [] a i = elim i [ ]
  take_within (suc n) (x ∷ xs) a (Memᴰ.head e) = Memᴰ.head e
  take_within (suc n) (x ∷ xs) a (Memᴰ.tail i) = Memᴰ.tail (take_within n xs a i)

  pub Mem-take : (n : ℕ) (xs : List A) (a : A) → Mem a (take n xs) → Mem a xs
  Mem-take n xs a m = ∥∥₁_map m (take_within n xs a)

module _ {ℓ} {A : Type ℓ} (test : A → Bool) where
  -- A selection from a list in another order is the selection in another order.
  select-Permᴰ : {xs ys : List A} → Permᴰ xs ys → Permᴰ (select test xs) (select test ys)
  select-Permᴰ Permᴰ.nil = Permᴰ.nil
  select-Permᴰ (Permᴰ.cons {a} {b} e p) =
      let later = select-Permᴰ p in
      rw e (elim (Bool-cases (test b)) [
        | inl passed ↦ rw passed (Permᴰ.cons refl later)
        | inr failed ↦ rw failed later
      ])
  select-Permᴰ (Permᴰ.swap {a} {b} {a'} {b'} {l} e f) =
      rw (e, f)
        (elim (Bool-cases (test a')) [
          | inl first ↦ elim (Bool-cases (test b')) [
            | inl second ↦ rw (first, second) (Permᴰ.swap refl refl)
            | inr failed ↦ rw (first, failed) (Permᴰ.refl (a' ∷ select test l))
          ]
          | inr first ↦ elim (Bool-cases (test b')) [
            | inl second ↦ rw (first, second) (Permᴰ.refl (b' ∷ select test l))
            | inr failed ↦ rw (first, failed) (Permᴰ.refl (select test l))
          ]
        ])
  select-Permᴰ (Permᴰ.trans p q) = Permᴰ.trans (select-Permᴰ p) (select-Permᴰ q)

  pub select-Perm : {xs ys : List A} → Perm xs ys → Perm (select test xs) (select test ys)
  select-Perm {xs} {ys} p =
      ∥∥₁_map {B = Permᴰ (select test xs) (select test ys)} p (λ q. select-Permᴰ q)

pub take-append-drop {ℓ} : {A : Type ℓ} (n : ℕ) (xs : List A) → take n xs ++ drop n xs ≡ xs
take-append-drop zero xs = refl
take-append-drop (suc n) [] = refl
take-append-drop (suc n) (x ∷ xs) = ap (◌∷◌ x) (take-append-drop n xs)
