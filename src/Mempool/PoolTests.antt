-- ===== src/Mempool/PoolTests.antt =====
-- The theorems on the pool at concrete pools.
use lock_free_p2p_go.Prelude.{
  ℕ, ◌≡◌, ◌⊎◌, ◌≤◌, ◌<◌, refl, true, false, arith, List, ◌∷◌, [], some, none, length, replicate,
  take, drop, ap, swap, exchange, map, Mem, Mem-get_elem?, get_elem?, zero, suc,
}
use mathlib.Core.Logic.{◌↔◌, ◌∨₁◌}
use mathlib.Core.Bool.{Bool-set}
use mathlib.Core.List.Perm
use lock_free_p2p_go.Run.{ok}
use lock_free_p2p_go.Bytes.{bytes_eq}
use lock_free_p2p_go.GoMap.{lookup, erase}
use lock_free_p2p_go.Heap
use lock_free_p2p_go.Heap.{up, up_loop, down, down_loop, init, init_loop, push, pop}
use lock_free_p2p_go.Mempool.Tx.{Tx, new_tx, compute_hash, validate, size, since, priority}
use lock_free_p2p_go.Mempool.Pool.{
  Config, Mempool, new_mempool, holds, add, make_room, insert, outranks, remove_lowest, remove_at,
  lowest_from, remove, remove_expired, pop_highest, get_pending, wanted,
}
use lock_free_p2p_go.Mempool.Pool.Invariant.{IsPool}
use lock_free_p2p_go.Mempool.Pool.Highest.{IsFirst, pop_highest-greatest}
use lock_free_p2p_go.Mempool.Pool.Pending.{IsSorted, get_pending-best}
use lock_free_p2p_go.Mempool.Pool.Lowest.{IsLowest}
use lock_free_p2p_go.Mempool.Pool.Capacity.{Evicts, add_stores, add_bounded, add_overfills}
use lock_free_p2p_go.Mempool.Pool.Expiry.{remove_expired_iff}
use lock_free_p2p_go.Mempool.Pool.Reached.{Reached, fresh, added, removed, Reached-IsPool}

-- A hash function for the tests: the last byte of the gas price.
abbrev digest : List ℕ → List ℕ
digest b = take 1 (drop 63 b)

abbrev single : Config
single = record {
  max_size = 1;
  max_tx_size = 1000;
  min_gas_price = 1;
  tx_ttl = 1000;
  cleanup_interval = 1;
}

abbrev priced : ℕ → Tx
priced price = new_tx digest 0 (replicate 20 1) (replicate 20 2) 10 0 price 21000 []

abbrev arrived : ℕ → Tx
arrived price = record (priced price) { received_at = some 0 }

-- A pool for one transaction: the gas prices in its map and in its heap.
abbrev pool : List ℕ → List ℕ → Mempool
pool held waiting = record {
  config = single;
  txs = map (λ price. ((price ∷ []), arrived price)) held;
  pending = map arrived waiting;
}

abbrev full : Mempool
full = pool (5 ∷ []) (5 ∷ 3 ∷ [])

abbrev empty : Mempool
empty = new_mempool 0 (some single)

three : add 0 digest empty (priced 3) ≡ ok (pool (3 ∷ []) (3 ∷ []))
unfolding new_mempool new_tx compute_hash add validate size make_room insert push up up_loop
    priority since bytes_eq init init_loop
three = refl

-- The heap keeps what Remove takes out of the map.
three_removed : remove (pool (3 ∷ []) (3 ∷ [])) (3 ∷ []) ≡ ok (pool [] (3 ∷ []))
unfolding new_tx compute_hash remove bytes_eq
three_removed = refl

five : add 0 digest (pool [] (3 ∷ [])) (priced 5) ≡ ok (pool (5 ∷ []) (5 ∷ 3 ∷ []))
unfolding new_tx compute_hash add validate size make_room insert push up up_loop priority since
    bytes_eq swap exchange
five = refl

five_over_three : add 0 digest (pool (3 ∷ []) (3 ∷ [])) (priced 5) ≡ ok (pool (5 ∷ []) (5 ∷ []))
unfolding new_tx compute_hash add validate size make_room outranks remove_lowest remove_at
    lowest_from insert push up up_loop priority since bytes_eq swap exchange Heap.remove
five_over_three = refl

four_too :
    add 0 digest (pool (5 ∷ []) (5 ∷ 3 ∷ [])) (priced 4) ≡ ok (pool (5 ∷ 4 ∷ []) (5 ∷ 4 ∷ []))
unfolding new_tx compute_hash add validate size make_room outranks remove_lowest remove_at
    lowest_from insert push up up_loop priority since bytes_eq swap exchange Heap.remove
four_too = refl

three_reached : Reached digest (pool (3 ∷ []) (3 ∷ []))
three_reached = added 0 (priced 3) (fresh 0 (some single)) three

five_reached : Reached digest (pool (5 ∷ []) (5 ∷ 3 ∷ []))
five_reached = added 0 (priced 5) (removed (3 ∷ []) three_reached three_removed) five

Reached-IsPool_example : IsPool digest (pool (5 ∷ []) (5 ∷ 3 ∷ []))
Reached-IsPool_example = Reached-IsPool digest five_reached

full-IsPool : IsPool digest full
full-IsPool = Reached-IsPool digest five_reached

pop_highest-greatest_example :
    (((pop_highest 0 full).1 ≡ none) × ((h : List ℕ) → lookup full.txs h ≡ none))
    ⊎ ((tx : Tx) × ((pop_highest 0 full).1 ≡ some tx)
        × (holds full tx ≡ true)
        × ((pop_highest 0 full).0.txs ≡ erase full.txs tx.hash)
        × IsFirst digest 0 full tx)
pop_highest-greatest_example = pop_highest-greatest digest 0 full full-IsPool

get_pending-best_example :
    IsSorted 0 full (get_pending 0 full 0)
    × (length (get_pending 0 full 0) ≤ wanted full 0)
    × ((y : Tx) → Mem y (get_pending 0 full 0) → holds full y ≡ true)
    × ((h : List ℕ) (y : Tx)
        → lookup full.txs h ≡ some y
        → Mem y (get_pending 0 full 0)
          ∨₁ ((length (get_pending 0 full 0) ≡ wanted full 0)
              × ((z : Tx) → Mem z (get_pending 0 full 0) → priority 0 y ≤ priority 0 z)))
get_pending-best_example = get_pending-best 0 full digest full-IsPool 0

add_stores_example :
    (lookup (pool (3 ∷ []) (3 ∷ [])).txs (priced 5).hash ≡ none)
    × (lookup (pool (5 ∷ []) (5 ∷ [])).txs (priced 5).hash ≡ some (arrived 5))
    × (((1 < 1)
          × ((k : List ℕ)
              → bytes_eq (priced 5).hash k ≡ false
              → lookup (pool (5 ∷ []) (5 ∷ [])).txs k ≡ lookup (pool (3 ∷ []) (3 ∷ [])).txs k))
        ⊎ ((low : Tx) × Evicts digest 0
              (pool (3 ∷ []) (3 ∷ []))
              (pool (5 ∷ []) (5 ∷ []))
              (priced 5)
              low))
add_stores_example =
    add_stores digest 0 (pool (3 ∷ []) (3 ∷ [])) (pool (5 ∷ []) (5 ∷ [])) (priced 5) five_over_three

-- Every entry of this heap is in the map.
three_current : (t : Tx) → Mem t (arrived 3 ∷ []) → holds (pool (3 ∷ []) (3 ∷ [])) t ≡ true
unfolding new_tx compute_hash bytes_eq
three_current t m = Mem-get_elem? (arrived 3 ∷ []) t (Bool-set _ _) m (λ i e. at i e)
  where
    at : (i : ℕ) → get_elem? (arrived 3 ∷ []) i ≡ some t → holds (pool (3 ∷ []) (3 ∷ [])) t ≡ true
    at zero e = let same : arrived 3 ≡ t = cc e in rw (← same) refl
    at (suc i) e = absurd (cc e)

add_bounded_example : length (pool (5 ∷ []) (5 ∷ [])).txs ≤ 1
add_bounded_example =
    add_bounded digest 0 (pool (3 ∷ []) (3 ∷ [])) (pool (5 ∷ []) (5 ∷ [])) (priced 5)
      (Reached-IsPool digest three_reached) three_current (omega arith) five_over_three

-- The lowest entry of this heap is the one that is no longer in the map.
lowest_is_stale :
    (low : Tx)
    → Mem low full.pending
    → IsLowest 0 full.pending (priority 0 low)
    → holds full low ≡ false
unfolding new_tx compute_hash bytes_eq priority since
lowest_is_stale low m l = Mem-get_elem? full.pending low (Bool-set _ _) m (λ i e. at i e)
  where
    at : (i : ℕ) → get_elem? full.pending i ≡ some low → holds full low ≡ false
    at zero e =
        let same : arrived 5 ≡ low = cc e in
        let below : priority 0 low ≤ 3 = l 1 (arrived 3) refl in
        let five_is : 5 ≡ priority 0 low = ap (priority 0) same in absurd (omega arith)
    at (suc zero) e = let same : arrived 3 ≡ low = cc e in rw (← same) refl
    at (suc (suc i)) e = absurd (cc e)

add_overfills_example : 1 < length (pool (5 ∷ 4 ∷ []) (5 ∷ 4 ∷ [])).txs
add_overfills_example =
    add_overfills digest 0 full (pool (5 ∷ 4 ∷ []) (5 ∷ 4 ∷ [])) (priced 4) full-IsPool
      (omega arith) lowest_is_stale four_too

abbrev as_listed : List (List ℕ × Tx) → List (List ℕ × Tx)
as_listed es = es

remove_expired_iff_example :
    (lookup (remove_expired as_listed 2000 full).txs (5 ∷ []) ≡ some (arrived 5))
    ↔ ((lookup full.txs (5 ∷ []) ≡ some (arrived 5)) × (since 2000 (arrived 5).received_at ≤ 1000))
remove_expired_iff_example =
    remove_expired_iff as_listed 2000 full (λ es. Perm.rfl) full-IsPool.one_each (5 ∷ [])
      (arrived 5)
