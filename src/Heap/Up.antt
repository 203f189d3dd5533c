-- ===== src/Heap/Up.antt =====
-- container/heap: `up`.
use lock_free_p2p_go.Prelude.{
  ℕ, zero, suc, ◌≤◌, ◌<◌, ◌≡◌, ◌≢◌, refl, List, length, arith, swap, length-swap, swap-perm,
  get_elem?, get_elem?-swap, ◌==◌, Perm, Bool-cases, inl, inr, ◌||◌, not, ◌∙◌,
}
use mathlib.Core.List.Perm
use lock_free_p2p_go.Heap.{parent, key_at, up_loop, up, less}
use lock_free_p2p_go.Heap.Order.{IsHeapFrom, IsBridged, key_at-swap}

module _ {A : Type 0} (key : A → ℕ) where
  up_loop-perm : (k : ℕ) (a : List A) (j : ℕ) → Perm (up_loop key k a j) a
  unfolding up_loop
  up_loop-perm zero a j = Perm.rfl
  up_loop-perm (suc k) a j = elim (Bool-cases ((parent j == j) || not (less key a j (parent j)))) [
    | inl stop ↦ rw stop Perm.rfl
    | inr go ↦
        rw go
          (Perm.trans (up_loop-perm k (swap a (parent j) j) (parent j)) (swap-perm a (parent j) j))
  ]

  pub up-perm : (a : List A) (j : ℕ) → Perm (up key a j) a
  unfolding up
  up-perm a j = up_loop-perm (suc j) a j

  length-up_loop : (k : ℕ) (a : List A) (j : ℕ) → length (up_loop key k a j) ≡ length a
  unfolding up_loop
  length-up_loop zero a j = refl
  length-up_loop (suc k) a j =
      elim (Bool-cases ((parent j == j) || not (less key a j (parent j)))) [
        | inl stop ↦ rw stop refl
        | inr go ↦
            rw go (length-up_loop k (swap a (parent j) j) (parent j) ∙ length-swap a (parent j) j)
      ]

  pub length-up : (a : List A) (j : ℕ) → length (up key a j) ≡ length a
  unfolding up
  length-up a j = length-up_loop (suc j) a j

  -- Only the edge above j may be out of order.
  pub record UpInv (n : ℕ) (a : List A) (j : ℕ) : Type 0 where
    pub inside : j < n
    pub fits : n ≤ length a
    pub edges : (c : ℕ) → 0 < c → c < n → c ≢ j → key_at key a c ≤ key_at key a (parent c)
    pub bridged : IsBridged key 0 n a j

  swap-UpInv :
      (n : ℕ) (a : List A) (j : ℕ)
      → UpInv n a j
      → 0 < j
      → key_at key a (parent j) < key_at key a j
      → UpInv n (swap a (parent j) j) (parent j)
  swap-UpInv n a j v pos before =
      let inside = v.inside in
      let fits = v.fits in
      let at = λ (c : ℕ). key_at-swap key a (parent j) j c (omega arith) (omega arith) in
      record {
        inside = omega arith;
        fits = omega (arith, length-swap a (parent j) j);
        edges = λ c p q r.
            ground (arith, at c, at (parent c), v.edges c, v.edges (parent j), v.bridged c);
        bridged = λ c p q r s t.
            ground
              (arith, at c, at (parent (parent j)), v.edges c, v.edges (parent j), v.bridged c);
      }

  up_loop-IsHeapFrom :
      (k n : ℕ) (a : List A) (j : ℕ) → j < k → UpInv n a j → IsHeapFrom key 0 n (up_loop key k a j)
  unfolding up_loop
  up_loop-IsHeapFrom zero n a j f v = absurd (omega arith)
  up_loop-IsHeapFrom (suc k) n a j f v =
      elim (Bool-cases ((parent j == j) || not (less key a j (parent j)))) [
        | inl stop ↦ rw stop (λ c p q r. ground (arith, v.edges c))
        | inr go ↦ rw go (
            up_loop-IsHeapFrom k n (swap a (parent j) j) (parent j) (ground arith)
              (swap-UpInv n a j v (ground arith) (ground arith)))
      ]

  -- `up` makes a heap of a slice with one entry too low in the tree.
  pub up-IsHeapFrom : (n : ℕ) (a : List A) (j : ℕ) → UpInv n a j → IsHeapFrom key 0 n (up key a j)
  unfolding up
  up-IsHeapFrom n a j v = up_loop-IsHeapFrom (suc j) n a j (omega arith) v

  up_loop-beyond :
      (k : ℕ) (a : List A) (j c : ℕ)
      → j < length a
      → j < c
      → get_elem? (up_loop key k a j) c ≡ get_elem? a c
  unfolding up_loop
  up_loop-beyond zero a j c h l = refl
  up_loop-beyond (suc k) a j c h l =
      elim (Bool-cases ((parent j == j) || not (less key a j (parent j)))) [
        | inl stop ↦ rw stop refl
        | inr go ↦ rw go (
            up_loop-beyond k (swap a (parent j) j) (parent j) c
              (omega (arith, length-swap a (parent j) j)) (omega arith)
            ∙ get_elem?-swap a (parent j) j c (omega arith) h
            ∙ ground arith)
      ]

  -- Entries behind j stay.
  pub up-beyond :
      (a : List A) (j c : ℕ) → j < length a → j < c → get_elem? (up key a j) c ≡ get_elem? a c
  unfolding up
  up-beyond a j c h l = up_loop-beyond (suc j) a j c h l
