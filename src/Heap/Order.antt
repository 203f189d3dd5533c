-- ===== src/Heap/Order.antt =====
-- container/heap: the heap order on the first entries of a slice, and its root.
use lock_free_p2p_go.Prelude.{
  ℕ, zero, suc, ◌≤◌, ◌<◌, ◌≡◌, List, length, arith, get_elem?-swap, swap, ◌==◌, if◌then◌else◌, ◌∙◌,
  ap,
}
use lock_free_p2p_go.Heap.{parent, key_at, key_of}

module _ {A : Type 0} (key : A → ℕ) where
  -- Among the first n entries no entry comes before its parent, for parents from lo on.
  abbrev pub IsHeapFrom : ℕ → ℕ → List A → Type 0
  IsHeapFrom lo n a =
      (c : ℕ) → 0 < c → c < n → lo ≤ parent c → key_at key a c ≤ key_at key a (parent c)

  abbrev pub IsHeap : List A → Type 0
  IsHeap a = IsHeapFrom 0 (length a) a

  -- The children of i do not come before the parent of i.
  abbrev pub IsBridged : ℕ → ℕ → List A → ℕ → Type 0
  IsBridged lo n a i =
      (c : ℕ)
      → 0 < c
      → c < n
      → parent c ≡ i
      → 0 < i
      → lo ≤ parent i
      → key_at key a c ≤ key_at key a (parent i)

  pub key_at-swap :
      (a : List A) (i j c : ℕ)
      → i < length a
      → j < length a
      → key_at key (swap a i j) c
        ≡ (if j == c then key_at key a i else (if i == c then key_at key a j else key_at key a c))
  key_at-swap a i j c h k = ap (key_of key) (get_elem?-swap a i j c h k) ∙ ground arith

  root_first_below :
      (k n : ℕ) (a : List A) (i : ℕ)
      → IsHeapFrom 0 n a
      → i < k
      → i < n
      → key_at key a i ≤ key_at key a 0
  root_first_below zero n a i h f l = absurd (omega arith)
  root_first_below (suc k) n a i h f l = ground (arith, h i, root_first_below k n a (parent i) h)

  -- No entry comes before the root.
  pub root_first :
      (n : ℕ) (a : List A) (i : ℕ) → IsHeapFrom 0 n a → i < n → key_at key a i ≤ key_at key a 0
  root_first n a i h l = root_first_below (suc i) n a i h (omega arith) l
