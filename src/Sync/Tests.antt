-- ===== src/Sync/Tests.antt =====
-- The theorems on the queues under a lock at concrete calls.
use lock_free_p2p_go.Prelude.{
  ℕ, refl, true, false, List, ◌∷◌, [], ◌≡◌, ◌≢◌, ◌≤◌, Perm, Mem, swap, exchange, none, some,
}
use lock_free_p2p_go.Heap
use lock_free_p2p_go.Sync.PriorityQueue.{
  Item, rank, PriorityQueue, new_priority_queue, push_item, pop_item, peek_item,
}
use lock_free_p2p_go.Sync.PriorityQueue.Order.{Filled, fresh, pushed, popped, pop_item-greatest}
use lock_free_p2p_go.Sync.Queue.{new_queue, enqueue, peek, len, is_empty}
use lock_free_p2p_go.Sync.Queue.Fifo.{Call, enqueues, dequeues}

abbrev calls : List (Call ℕ)
calls = enqueues (some 1) ∷ dequeues ∷ dequeues ∷ enqueues none ∷ enqueues (some 2) ∷ dequeues ∷ []

-- What Peek, Len and IsEmpty answer on a queue with one value.
observers :
    (peek (enqueue {V = ℕ} new_queue (some 1)) ≡ (some 1, true))
    × (len (enqueue {V = ℕ} new_queue (some 1)) ≡ 1)
    × (is_empty (enqueue {V = ℕ} new_queue (some 1)) ≡ false)
unfolding enqueue peek len is_empty
observers = (refl, refl, refl)

-- A priority queue that has taken in three items and given one.
abbrev mixed : PriorityQueue ℕ
mixed =
    (pop_item
      (push_item (push_item (push_item new_priority_queue (some 1) 4) (some 2) 9) (some 3) 7)).0

mixed-Filled : Filled mixed
mixed-Filled = popped (pushed (some 3) 7 (pushed (some 2) 9 (pushed (some 1) 4 fresh)))

mixed_not_empty : mixed.items ≢ []
unfolding new_priority_queue push_item pop_item Heap.init Heap.init_loop Heap.push Heap.up
    Heap.up_loop Heap.pop Heap.down Heap.down_loop swap exchange
mixed_not_empty e = cc e

pop_item-greatest_example :
    (x : Item ℕ) × ((pop_item mixed).1 ≡ some x)
    × ((pop_item mixed).2 ≡ true)
    × (peek_item mixed ≡ (some x, true))
    × Perm mixed.items (x ∷ (pop_item mixed).0.items)
    × ((y : Item ℕ) → Mem y mixed.items → rank y ≤ rank x)
pop_item-greatest_example = pop_item-greatest mixed mixed-Filled mixed_not_empty
