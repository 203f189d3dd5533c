-- ===== src/Heap/Operations.antt =====
-- container/heap: Push, Pop and Remove.
use lock_free_p2p_go.Prelude.{
  ℕ, suc, ◌-◌, ◌≤◌, ◌<◌, ◌≡◌, ◌≢◌, ap, ◌∙◌, List, ◌∷◌, [], ◌++◌, Option, some, length, arith, swap,
  length-swap, swap-perm, Mem, Mem-get_elem?, get_elem?-lt, get_elem?, get_elem?-swap,
  get_elem?-some, get_elem?-append, append-perm, but_last, but_last-perm, get_elem?-but_last,
  length-but_last, length-append, ◌==◌, ltb, Perm, Bool-cases, inl, inr, true, false, if◌then◌else◌,
}
use mathlib.Core.List.Perm
use native.Mathlib.Bridge.{le_prop}
use lock_free_p2p_go.Heap.{
  parent, key_at, key_of, settled, first_child, up, down, push, pop, remove, pop_last,
}
use lock_free_p2p_go.Heap.Order.{IsHeapFrom, IsHeap, IsBridged, key_at-swap, root_first}
use lock_free_p2p_go.Heap.Up.{UpInv, up-perm, up-IsHeapFrom, length-up, up-beyond}
use lock_free_p2p_go.Heap.Down.{
  DownInv, down-perm, down-IsHeapFrom, down-beyond, length-down, down-moved, down-settled,
  first_child-IsFirstChild,
}

module _ {A : Type 0} (key : A → ℕ) where
  pub push-perm : (a : List A) (x : A) → Perm (push key a x) (x ∷ a)
  unfolding push
  push-perm a x = Perm.trans (up-perm key (a ++ x ∷ []) (length a)) (append-perm a x)

  pub push-IsHeap : (a : List A) (x : A) → IsHeap key a → IsHeap key (push key a x)
  unfolding push
  push-IsHeap a x h =
      let size = length-append a (x ∷ []) in
      let longer : length (a ++ x ∷ []) ≡ suc (length a) = omega arith in
      let at : (c : ℕ)
          → key_at key (a ++ x ∷ []) c ≡ (if c == length a then key x else key_at key a c) =
        λ c. ap (key_of key) (get_elem?-append a x c) ∙ ground arith in
      let v : UpInv key (suc (length a)) (a ++ x ∷ []) (length a) = record {
        inside = omega arith;
        fits = omega arith;
        edges = λ c p q r. ground (arith, at c, at (parent c), h c);
        bridged = λ c p q r t u. absurd (omega arith);
      } in
      rw (length-up key (a ++ x ∷ []) (length a), longer)
        (up-IsHeapFrom key (suc (length a)) (a ++ x ∷ []) (length a) v)

  -- The last entry leaves a slice, whose first entries are a heap.
  but_last-IsHeap :
      (n : ℕ) (a : List A) → length a ≡ suc n → IsHeapFrom key 0 n a → IsHeap key (but_last a)
  but_last-IsHeap n a e h = rw (length-but_last a n e) (λ c p q r.
      let here = ap (key_of key) (get_elem?-but_last a n c e q) in
      let above = ap (key_of key) (get_elem?-but_last a n (parent c) e (omega arith)) in
      omega (arith, here, above, h c p q r))

  -- A call takes the entry that was at index i out of the slice.
  pub record Takes (a : List A) (i : ℕ) (r : Option A × List A) : Type 0 where
    pub entry : A
    pub was : get_elem? a i ≡ some entry
    pub returned : r.0 ≡ some entry
    pub left : Perm a (entry ∷ r.1)

  -- The last entry of b is what was at index i of a.
  taken :
      (a b : List A) (i n : ℕ)
      → length b ≡ suc n
      → Perm b a
      → i < length a
      → get_elem? b n ≡ get_elem? a i
      → Takes a i (pop_last b)
  taken a b i n e p h same =
      let (x, f) = get_elem?-some a i h in
      let last : length b - 1 ≡ n = omega arith in
      record {
        entry = x;
        was = f;
        returned = rw last (same ∙ f);
        left = Perm.trans (Perm.symm p) (but_last-perm b n x e (same ∙ f));
      }

  module _ (a : List A) (n : ℕ) (size : length a ≡ suc n) where
    sunk-perm : (i : ℕ) → Perm (down key (swap a i n) i n).0 a
    sunk-perm i = Perm.trans (down-perm key (swap a i n) i n) (swap-perm a i n)

    length-sunk : (i : ℕ) → length (down key (swap a i n) i n).0 ≡ suc n
    length-sunk i = length-down key (swap a i n) i n ∙ length-swap a i n ∙ size

    last_of_sunk : (i : ℕ) → i < suc n → get_elem? (down key (swap a i n) i n).0 n ≡ get_elem? a i
    last_of_sunk i h =
        down-beyond key (swap a i n) i n n (omega (arith, length-swap a i n)) (omega arith)
        ∙ get_elem?-swap a i n n (omega arith) (omega arith)
        ∙ ground arith

    pub pop-Takes : Takes a 0 (pop key a)
    unfolding pop
    pop-Takes =
        let n_is : length a - 1 ≡ n = omega arith in
        rw n_is (
          taken a (down key (swap a 0 n) 0 n).0 0 n (length-sunk 0) (sunk-perm 0) (omega arith)
            (last_of_sunk 0 (omega arith)))

    pub pop-IsHeap : IsHeap key a → IsHeap key (pop key a).1
    unfolding pop
    pop-IsHeap h =
        let n_is : length a - 1 ≡ n = omega arith in
        let at = λ (c : ℕ). key_at-swap key a 0 n c (omega arith) (omega arith) in
        let v : DownInv key 0 n (swap a 0 n) 0 = record {
          fits = omega (arith, length-swap a 0 n);
          edges = λ c p q r t. ground (arith, at c, at (parent c), h c);
          bridged = λ c p q r t u. absurd (omega arith);
        } in
        rw n_is (
          but_last-IsHeap n (down key (swap a 0 n) 0 n).0 (length-sunk 0)
            (down-IsHeapFrom key 0 n (swap a 0 n) 0 v))

    module _ (i : ℕ) (inside : i < n) where
      -- After the exchange the entry at i may be out of order both ways.
      exchanged_edges :
          IsHeap key a
          → (c : ℕ) → 0 < c
          → c < n
          → c ≢ i
          → parent c ≢ i
          → key_at key (swap a i n) c ≤ key_at key (swap a i n) (parent c)
      exchanged_edges h c p q r t =
          let at = λ (d : ℕ). key_at-swap key a i n d (omega arith) (omega arith) in
          ground (arith, at c, at (parent c), h c)

      exchanged-IsBridged : IsHeap key a → IsBridged key 0 n (swap a i n) i
      exchanged-IsBridged h c p q r t u =
          let at = λ (d : ℕ). key_at-swap key a i n d (omega arith) (omega arith) in
          ground (arith, at c, at (parent i), h c, h i)

      -- The entry stays below its children: it may have to rise.
      stays-UpInv : IsHeap key a → settled key (swap a i n) i n ≡ true → UpInv key n (swap a i n) i
      stays-UpInv h stop = record {
        inside = inside;
        fits = omega (arith, length-swap a i n);
        edges = λ c p q r. elim (Bool-cases (parent c == i)) [
          | inl below ↦
              let s = first_child-IsFirstChild key (swap a i n) i n (ground arith) in
              let above : parent c ≡ i = ground arith in rw above (ground (arith, s.first c))
          | inr elsewhere ↦ exchanged_edges h c p q r (ground arith)
        ];
        bridged = exchanged-IsBridged h;
      }

      -- The entry sinks: the child that rises is in order with the parent of i.
      sinks-DownInv :
          IsHeap key a → settled key (swap a i n) i n ≡ false → DownInv key 0 n (swap a i n) i
      sinks-DownInv h go =
          let s = first_child-IsFirstChild key (swap a i n) i n (ground arith) in
          let m = first_child key (swap a i n) i n in
          let bridge = exchanged-IsBridged h m in
          let below = s.below in
          let child = s.child in
          record {
            fits = omega (arith, length-swap a i n);
            edges = λ c p q r t. elim (Bool-cases (c == i)) [
              | inl here ↦
                  let same : c ≡ i = ground arith in
                  rw same (ground (arith, exchanged-IsBridged h m, s.later))
              | inr other ↦ exchanged_edges h c p q (ground arith) t
            ];
            bridged = exchanged-IsBridged h;
          }

      abbrev mended : List A
      mended =
          let moved = down key (swap a i n) i n in
          if ltb i moved.1 then moved.0 else up key moved.0 i

      -- What `Remove` leaves before its last step.
      record IsMended (b : List A) : Type 0 where
        size_is : length b ≡ suc n
        same : Perm b a
        last_is : get_elem? b n ≡ get_elem? a i
        heap : IsHeap key a → IsHeapFrom key 0 n b

      mended-IsMended : IsMended mended
      mended-IsMended = elim (Bool-cases (settled key (swap a i n) i n)) [
        | inl stop ↦
            let rests = down-settled key (swap a i n) i n stop in
            let still : ltb i i ≡ false = ground arith in
            let long = length-swap a i n in
            rw rests (
              rw still (record {
                size_is = length-up key (swap a i n) i ∙ long ∙ size;
                same = Perm.trans (up-perm key (swap a i n) i) (swap-perm a i n);
                last_is =
                    up-beyond key (swap a i n) i n (omega arith) inside
                    ∙ get_elem?-swap a i n n (omega arith) (omega arith)
                    ∙ ground arith;
                heap = λ h. up-IsHeapFrom key n (swap a i n) i (stays-UpInv h stop);
              }))
        | inr go ↦ rw (down-moved key (swap a i n) i n go) (record {
          size_is = length-sunk i;
          same = sunk-perm i;
          last_is = last_of_sunk i (omega arith);
          heap = λ h. down-IsHeapFrom key 0 n (swap a i n) i (sinks-DownInv h go);
        })
      ]

    pub remove-Takes : (i : ℕ) → i < suc n → Takes a i (remove key a i)
    unfolding remove
    remove-Takes i h =
        let n_is : length a - 1 ≡ n = omega arith in
        elim (Bool-cases (n == i)) [
          | inl last ↦
              let same : n ≡ i = ground arith in
              rw (n_is, last)
                (rw n_is at (taken a a i n size Perm.rfl (omega arith) (ap (get_elem? a) same)))
          | inr other ↦
              let m = mended-IsMended i (ground arith) in
              rw (n_is, other)
                (taken a (mended i (ground arith)) i n m.size_is m.same (omega arith) m.last_is)
        ]

    pub remove-IsHeap : (i : ℕ) → i < suc n → IsHeap key a → IsHeap key (remove key a i).1
    unfolding remove
    remove-IsHeap i l h =
        let n_is : length a - 1 ≡ n = omega arith in
        elim (Bool-cases (n == i)) [
          | inl last ↦ rw (n_is, last) (but_last-IsHeap n a size (λ c p q r. h c p (omega arith) r))
          | inr other ↦
              let m = mended-IsMended i (ground arith) in
              rw (n_is, other) (but_last-IsHeap n (mended i (ground arith)) m.size_is (m.heap h))
        ]

  -- The entry that `Pop` takes out of a heap: no entry of the heap comes before it.
  pub pop-first :
      (a : List A) (n : ℕ) (size : length a ≡ suc n)
      → IsHeap key a
      → (y : A) → Mem y a
      → key y ≤ key (pop-Takes a n size).entry
  pop-first a n size h y m =
      let t = pop-Takes a n size in
      Mem-get_elem? a y le_prop m λ i e.
        let root = root_first key (length a) a i h (get_elem?-lt a i y e) in
        omega (arith, root, ap (key_of key) e, ap (key_of key) t.was)
