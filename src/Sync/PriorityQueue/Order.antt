-- ===== src/Sync/PriorityQueue/Order.antt =====
-- pkg/ds/sync/priority_queue.go: the order in which items leave.
use lock_free_p2p_go.Prelude.{
  ℕ, suc, ◌-◌, ◌≤◌, ◌≡◌, ◌≢◌, refl, ap, Option, none, some, true, false, List, ◌∷◌, [], length,
  ◌==◌, arith, Perm, Mem, Bool-cases, inl, inr,
}
use lock_free_p2p_go.Heap.{pop, init, init_loop}
use lock_free_p2p_go.Heap.Order.{IsHeap}
use lock_free_p2p_go.Heap.Operations.{push-IsHeap, pop-Takes, pop-IsHeap, pop-first}
use lock_free_p2p_go.Sync.PriorityQueue.{
  Item, rank, PriorityQueue, new_priority_queue, push_item, pop_item, peek_item, clear,
}

module _ {V : Type 0} where
  -- Where the items of a queue may stand: every state that the operations reach is one.
  pub data Filled : PriorityQueue V → Type 0 where
    fresh : Filled new_priority_queue
    pushed : {q : PriorityQueue V} (v : Option V) (p : ℕ) → Filled q → Filled (push_item q v p)
    popped : {q : PriorityQueue V} → Filled q → Filled (pop_item q).0
    cleared : {q : PriorityQueue V} → Filled q → Filled (clear q)

  pop_item-some :
      (q : PriorityQueue V)
      → length q.items ≢ 0
      → pop_item q ≡ (record q { items = (pop rank q.items).1 }, (pop rank q.items).0, true)
  unfolding pop_item
  pop_item-some q h = let there : (length q.items == 0) ≡ false = ground arith in rw there refl

  pop_item-none : (q : PriorityQueue V) → length q.items ≡ 0 → pop_item q ≡ (q, none, false)
  unfolding pop_item
  pop_item-none q h = let gone : (length q.items == 0) ≡ true = ground arith in rw gone refl

  Filled-IsHeap : {q : PriorityQueue V} → Filled q → IsHeap rank q.items
  unfolding new_priority_queue push_item init init_loop clear
  Filled-IsHeap (cleared f) = λ c p l r. absurd (omega arith)
  Filled-IsHeap fresh = λ c p l r. absurd (omega arith)
  Filled-IsHeap (pushed {q} v p f) = push-IsHeap rank q.items _ (Filled-IsHeap f)
  Filled-IsHeap (popped {q} f) = elim (Bool-cases (length q.items == 0)) [
    | inl gone ↦ rw (pop_item-none q (ground arith)) (Filled-IsHeap f)
    | inr there ↦
        rw (pop_item-some q (ground arith))
          (pop-IsHeap rank q.items (length q.items - 1) (ground arith) (Filled-IsHeap f))
  ]

  -- In every state that Push, Pop and Clear reach from a new queue and in which it is not empty: Pop returns
  -- true with the item x that Peek shows, takes exactly this item out, and no item of the queue has
  -- a priority above that of x.
  pub pop_item-greatest :
      (q : PriorityQueue V)
      → Filled q
      → q.items ≢ []
      → (x : Item V) × ((pop_item q).1 ≡ some x)
        × ((pop_item q).2 ≡ true)
        × (peek_item q ≡ (some x, true))
        × Perm q.items (x ∷ (pop_item q).0.items)
        × ((y : Item V) → Mem y q.items → rank y ≤ rank x)
  unfolding peek_item
  pop_item-greatest q f h =
      let some_items : length q.items ≢ 0 = not_empty q.items h in
      let size : length q.items ≡ suc (length q.items - 1) = omega arith in
      let there : (length q.items == 0) ≡ false = ground arith in
      let t = pop-Takes rank q.items (length q.items - 1) size in
      (
        t.entry,
        rw (pop_item-some q some_items) t.returned,
        rw (pop_item-some q some_items) refl,
        rw there (ap (λ o. (o, true)) t.was),
        rw (pop_item-some q some_items) t.left,
        pop-first rank q.items (length q.items - 1) size (Filled-IsHeap f),
      )
    where
      not_empty : (a : List (Item V)) → a ≢ [] → length a ≢ 0
      not_empty [] k e = k refl
      not_empty (x ∷ a) k e = absurd (omega arith)
