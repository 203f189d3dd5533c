-- ===== src/Heap.antt =====
-- Go's container/heap, on slices that order their entries by a number, the greatest first: both
-- `Less` methods of the repository (txHeap in pkg/mempool/mempool.go, itemHeap in
-- pkg/ds/sync/priority_queue.go) say `h[i].Priority > h[j].Priority`. All indices that the package
-- forms are in range, and a slice is far too short for an index to overflow.
pub mod Order
pub mod Up
pub mod Down
pub mod Operations
use lock_free_p2p_go.Prelude.{
  ℕ, zero, suc, ◌+◌, ◌-◌, ◌*◌, ◌/◌, Bool, true, false, not, ◌&&◌, ◌||◌, Option, none, some, List,
  ◌∷◌, [], ◌++◌, ltb, leb, ◌==◌, length, if◌then◌else◌, get_elem?, swap, but_last,
}

abbrev pub parent : ℕ → ℕ
parent j = (j - 1) / 2

-- `h.Pop()` of the interface: the last entry, and the rest.
abbrev pub pop_last : {A : Type 0} → List A → Option A × List A
pop_last a = (get_elem? a (length a - 1), but_last a)

module _ {A : Type 0} (key : A → ℕ) where
  abbrev pub key_of : Option A → ℕ
  key_of none = 0
  key_of (some x) = key x

  -- The priority at an index.
  abbrev pub key_at : List A → ℕ → ℕ
  key_at a i = key_of (get_elem? a i)

  -- `h.Less(i, j)`
  abbrev pub less : List A → ℕ → ℕ → Bool
  less a i j = ltb (key_at a j) (key_at a i)

  -- `up`, by the rounds that are left.
  unfoldable pub up_loop : ℕ → List A → ℕ → List A
  up_loop zero a j = a
  up_loop (suc k) a j =
      let rest = up_loop k (swap a (parent j) j) (parent j) in
      if (parent j == j) || not (less a j (parent j)) then a else rest

  unfoldable pub up : List A → ℕ → List A
  up a j = up_loop (suc j) a j

  -- The child that comes first.
  abbrev pub first_child : List A → ℕ → ℕ → ℕ
  first_child a i n =
      let left = 2 * i + 1 in if ltb (left + 1) n && less a (left + 1) left then left + 1 else left

  -- Whether `down` stops at i.
  abbrev pub settled : List A → ℕ → ℕ → Bool
  settled a i n = leb n (2 * i + 1) || not (less a (first_child a i n) i)

  -- `down` on the first n entries: the slice, and the place where the entry came to rest.
  unfoldable pub down_loop : ℕ → List A → ℕ → ℕ → List A × ℕ
  down_loop zero a i n = (a, i)
  down_loop (suc k) a i n =
      let child = first_child a i n in
      let rest = down_loop k (swap a i child) child n in if settled a i n then (a, i) else rest

  unfoldable pub down : List A → ℕ → ℕ → List A × ℕ
  down a i n = down_loop (suc n) a i n

  -- The loop of `Init`, from index i - 1 down to 0.
  unfoldable pub init_loop : ℕ → List A → List A
  init_loop zero a = a
  init_loop (suc i) a = init_loop i (down a i (length a)).0

  unfoldable pub init : List A → List A
  init a = init_loop (length a / 2) a

  unfoldable pub push : List A → A → List A
  push a x = up (a ++ x ∷ []) (length a)

  -- `heap.Pop(h)`, for a heap that is not empty.
  unfoldable pub pop : List A → Option A × List A
  pop a = let n = length a - 1 in pop_last (down (swap a 0 n) 0 n).0

  -- `heap.Remove(h, i)`, for an index in range.
  unfoldable pub remove : List A → ℕ → Option A × List A
  remove a i =
      let n = length a - 1 in
      let moved = down (swap a i n) i n in
      let fixed = if ltb i moved.1 then moved.0 else up moved.0 i in
      if n == i then pop_last a else pop_last fixed
