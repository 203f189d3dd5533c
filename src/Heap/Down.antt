-- ===== src/Heap/Down.antt =====
-- container/heap: `down` and `Init`.
use lock_free_p2p_go.Prelude.{
  ℕ, zero, suc, ◌+◌, ◌-◌, ◌*◌, ◌/◌, ◌≤◌, ◌<◌, ◌≡◌, ◌≢◌, ◌⊎◌, refl, List, length, arith, swap,
  length-swap, swap-perm, get_elem?, get_elem?-swap, ltb, leb, Perm, Bool-cases, inl, inr, ◌∙◌,
  true, false,
}
use mathlib.Core.List.Perm
use lock_free_p2p_go.Heap.{
  parent, key_at, less, first_child, settled, down_loop, down, init_loop, init,
}
use lock_free_p2p_go.Heap.Order.{IsHeapFrom, IsHeap, IsBridged, key_at-swap}

module _ {A : Type 0} (key : A → ℕ) where
  down_loop-perm : (k : ℕ) (a : List A) (i n : ℕ) → Perm (down_loop key k a i n).0 a
  unfolding down_loop
  down_loop-perm zero a i n = Perm.rfl
  down_loop-perm (suc k) a i n = elim (Bool-cases (settled key a i n)) [
    | inl stop ↦ rw stop Perm.rfl
    | inr go ↦
        let child = first_child key a i n in
        rw go (Perm.trans (down_loop-perm k (swap a i child) child n) (swap-perm a i child))
  ]

  pub down-perm : (a : List A) (i n : ℕ) → Perm (down key a i n).0 a
  unfolding down
  down-perm a i n = down_loop-perm (suc n) a i n

  length-down_loop : (k : ℕ) (a : List A) (i n : ℕ) → length (down_loop key k a i n).0 ≡ length a
  unfolding down_loop
  length-down_loop zero a i n = refl
  length-down_loop (suc k) a i n = elim (Bool-cases (settled key a i n)) [
    | inl stop ↦ rw stop refl
    | inr go ↦
        let child = first_child key a i n in
        rw go (length-down_loop k (swap a i child) child n ∙ length-swap a i child)
  ]

  pub length-down : (a : List A) (i n : ℕ) → length (down key a i n).0 ≡ length a
  unfolding down
  length-down a i n = length-down_loop (suc n) a i n

  -- Entries from n on stay.
  down_loop-beyond :
      (k : ℕ) (a : List A) (i n c : ℕ)
      → n ≤ length a
      → n ≤ c
      → get_elem? (down_loop key k a i n).0 c ≡ get_elem? a c
  unfolding down_loop
  down_loop-beyond zero a i n c h l = refl
  down_loop-beyond (suc k) a i n c h l = elim (Bool-cases (settled key a i n)) [
    | inl stop ↦ rw stop refl
    | inr go ↦
        let child = first_child key a i n in
        let below : child < n = ground arith in
        let inside : i < n = ground arith in
        rw go (
          down_loop-beyond k (swap a i child) child n c (omega (arith, length-swap a i child)) l
          ∙ get_elem?-swap a i child c (omega arith) (omega arith)
          ∙ ground arith)
  ]

  pub down-beyond :
      (a : List A) (i n c : ℕ)
      → n ≤ length a
      → n ≤ c
      → get_elem? (down key a i n).0 c ≡ get_elem? a c
  unfolding down
  down-beyond a i n c h l = down_loop-beyond (suc n) a i n c h l

  -- Only the edges below i may be out of order.
  pub record DownInv (lo n : ℕ) (a : List A) (i : ℕ) : Type 0 where
    pub fits : n ≤ length a
    pub edges :
        (c : ℕ)
        → 0 < c
        → c < n
        → lo ≤ parent c
        → parent c ≢ i
        → key_at key a c ≤ key_at key a (parent c)
    pub bridged : IsBridged key lo n a i

  -- The first child is a child of i, and no other comes before it.
  pub record IsFirstChild (a : List A) (i n m : ℕ) : Type 0 where
    pub below : m < n
    pub child : parent m ≡ i
    pub later : i < m
    pub first : (c : ℕ) → 0 < c → c < n → parent c ≡ i → key_at key a c ≤ key_at key a m

  pub first_child-IsFirstChild :
      (a : List A) (i n : ℕ) → 2 * i + 1 < n → IsFirstChild a i n (first_child key a i n)
  first_child-IsFirstChild a i n h = record {
    below = ground arith;
    child = ground arith;
    later = ground arith;
    first =
        λ c p q r. let which : (c ≡ 2 * i + 1) ⊎ (c ≡ 2 * i + 1 + 1) = ground arith in ground arith;
  }

  swap-DownInv :
      (lo n : ℕ) (a : List A) (i m : ℕ)
      → DownInv lo n a i
      → IsFirstChild a i n m
      → key_at key a i < key_at key a m
      → DownInv lo n (swap a i m) m
  swap-DownInv lo n a i m v s before =
      let below = s.below in
      let later = s.later in
      let fits = v.fits in
      let child = s.child in
      let at = λ (c : ℕ). key_at-swap key a i m c (omega arith) (omega arith) in
      record {
        fits = omega (arith, length-swap a i m);
        edges = λ c p q r t. ground (arith, at c, at (parent c), v.edges c, v.bridged m, s.first c);
        bridged = λ c p q r t u. ground (arith, at c, at (parent m), v.edges c);
      }

  down_loop-IsHeapFrom :
      (k lo n : ℕ) (a : List A) (i : ℕ)
      → n - i < k
      → DownInv lo n a i
      → IsHeapFrom key lo n (down_loop key k a i n).0
  unfolding down_loop
  down_loop-IsHeapFrom zero lo n a i f v = absurd (omega arith)
  down_loop-IsHeapFrom (suc k) lo n a i f v = elim (Bool-cases (leb n (2 * i + 1))) [
    | inl leaf ↦ rw leaf (λ c p q r. v.edges c p q r (ground arith))
    | inr inner ↦
        let m = first_child key a i n in
        let s = first_child-IsFirstChild a i n (ground arith) in
        elim (Bool-cases (less key a m i)) [
          | inl before ↦
              let below = s.below in
              let later = s.later in
              rw (inner, before)
                (down_loop-IsHeapFrom k lo n (swap a i m) m (omega arith)
                  (swap-DownInv lo n a i m v s (ground arith)))
          | inr rests ↦ rw (inner, rests) (λ c p q r. ground (arith, v.edges c, s.first c))
        ]
  ]

  -- `down` makes a heap of a slice with one entry too high in the tree.
  pub down-IsHeapFrom :
      (lo n : ℕ) (a : List A) (i : ℕ) → DownInv lo n a i → IsHeapFrom key lo n (down key a i n).0
  unfolding down
  down-IsHeapFrom lo n a i v = down_loop-IsHeapFrom (suc n) lo n a i (omega arith) v

  -- An entry that does not stay comes to rest further down.
  down_loop-later : (k : ℕ) (a : List A) (i n : ℕ) → i ≤ (down_loop key k a i n).1
  unfolding down_loop
  down_loop-later zero a i n = omega arith
  down_loop-later (suc k) a i n = elim (Bool-cases (settled key a i n)) [
    | inl stop ↦ rw stop (omega arith)
    | inr go ↦
        let child = first_child key a i n in
        let later : i < child = ground arith in
        rw go (omega (arith, down_loop-later k (swap a i child) child n))
  ]

  pub down-moved :
      (a : List A) (i n : ℕ) → settled key a i n ≡ false → ltb i (down key a i n).1 ≡ true
  unfolding down down_loop
  down-moved a i n go =
      let child = first_child key a i n in
      let later : i < child = ground arith in
      rw go (ground (arith, down_loop-later n (swap a i child) child n))

  pub down-settled : (a : List A) (i n : ℕ) → settled key a i n ≡ true → down key a i n ≡ (a, i)
  unfolding down down_loop
  down-settled a i n stop = rw stop refl

  init_loop-perm : (i : ℕ) (a : List A) → Perm (init_loop key i a) a
  unfolding init_loop
  init_loop-perm zero a = Perm.rfl
  init_loop-perm (suc i) a =
      Perm.trans (init_loop-perm i (down key a i (length a)).0) (down-perm a i (length a))

  pub init-perm : (a : List A) → Perm (init key a) a
  unfolding init
  init-perm a = init_loop-perm (length a / 2) a

  init_loop-IsHeap :
      (i : ℕ) (a : List A) → IsHeapFrom key i (length a) a → IsHeap key (init_loop key i a)
  unfolding init_loop
  init_loop-IsHeap zero a h = h
  init_loop-IsHeap (suc i) a h =
      let v : DownInv i (length a) a i = record {
        fits = omega arith;
        edges = λ c p q r t. h c p q (omega arith);
        bridged = λ c p q r t u. absurd (omega arith);
      } in
      let size = length-down a i (length a) in
      init_loop-IsHeap i (down key a i (length a)).0 (rw size (down-IsHeapFrom i (length a) a i v))

  -- `Init` makes a heap of any slice.
  pub init-IsHeap : (a : List A) → IsHeap key (init key a)
  unfolding init
  init-IsHeap a = init_loop-IsHeap (length a / 2) a (λ c p q r. absurd (omega arith))
