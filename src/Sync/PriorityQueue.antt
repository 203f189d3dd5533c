-- ===== src/Sync/PriorityQueue.antt =====
-- pkg/ds/sync/priority_queue.go: a queue over container/heap. A priority is an int64 in two's
-- complement, and a nil interface is `none`.
pub mod Order
use lock_free_p2p_go.Prelude.{
  ℕ, ◌+◌, ◌%◌, ◌^◌, Option, none, some, Bool, true, false, List, [], length, ◌==◌, if◌then◌else◌,
  get_elem?, take,
}
use lock_free_p2p_go.Heap
use lock_free_p2p_go.Heap.{init, push, pop}

pub record Item (V : Type 0) : Type 0 where
  pub content : Option V
  pub priority : ℕ  -- int64

-- `Less` compares int64: the number with the sign bit turned has the same order.
abbrev pub rank : {V : Type 0} → Item V → ℕ
rank i = (i.priority + 2 ^ 63) % 2 ^ 64

pub record PriorityQueue (V : Type 0) : Type 0 where
  pub items : List (Item V)

module _ {V : Type 0} where
  unfoldable pub new_priority_queue : PriorityQueue V
  new_priority_queue = record { items = init rank [] }

  unfoldable pub push_item : PriorityQueue V → Option V → ℕ → PriorityQueue V
  push_item q value priority = record q {
    items = push rank q.items (record { content = value; priority = priority });
  }

  -- The queue afterwards, the item, and whether there was one.
  unfoldable pub pop_item : PriorityQueue V → PriorityQueue V × Option (Item V) × Bool
  pop_item q =
      let r = pop rank q.items in
      if length q.items == 0 then (q, none, false) else (record q { items = r.1 }, r.0, true)

  unfoldable pub peek_item : PriorityQueue V → Option (Item V) × Bool
  peek_item q = if length q.items == 0 then (none, false) else (get_elem? q.items 0, true)

  pub len : PriorityQueue V → ℕ
  len q = length q.items

  pub is_empty : PriorityQueue V → Bool
  is_empty q = len q == 0

  pub clear : PriorityQueue V → PriorityQueue V
  clear q = record q { items = take 0 q.items }
