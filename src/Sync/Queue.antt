-- ===== src/Sync/Queue.antt =====
-- pkg/ds/sync/queue.go: a queue in a slice. A nil interface is `none`.
pub mod Fifo
use lock_free_p2p_go.Prelude.{
  ℕ, List, ◌∷◌, [], ◌++◌, Bool, true, false, Option, none, some, ◌==◌, length, drop, replicate,
  take, if◌then◌else◌,
}

pub record Queue (V : Type 0) : Type 0 where
  pub items : List (Option V)

module _ {V : Type 0} where
  abbrev pub new_queue : Queue V
  new_queue = record { items = [] }

  unfoldable pub enqueue : Queue V → Option V → Queue V
  enqueue q value = record q { items = q.items ++ value ∷ [] }

  -- `q.items[0] = nil; q.items = q.items[1:]` for a slice that is not empty
  abbrev pub without_first : List (Option V) → List (Option V)
  without_first [] = []
  without_first (x ∷ xs) = drop 1 (none ∷ xs)

  -- `q.items[0]` for a slice that is not empty
  abbrev pub first : List (Option V) → Option V
  first [] = none
  first (x ∷ xs) = x

  -- The queue afterwards, the value, and whether there was one.
  unfoldable pub dequeue : Queue V → Queue V × Option V × Bool
  dequeue q =
      if length q.items == 0
      then (q, none, false)
      else (record q { items = without_first q.items }, first q.items, true)

  unfoldable pub peek : Queue V → Option V × Bool
  peek q = if length q.items == 0 then (none, false) else (first q.items, true)

  unfoldable pub len : Queue V → ℕ
  len q = length q.items

  unfoldable pub is_empty : Queue V → Bool
  is_empty q = length q.items == 0

  -- All entries become nil, and then the slice is cut to length 0.
  pub clear : Queue V → Queue V
  clear q = record q { items = take 0 (replicate (length q.items) none) }
