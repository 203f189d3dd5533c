-- ===== src/Mempool/Pool.antt =====
-- pkg/mempool/mempool.go: the pool under its lock, so that each method is one step. The clock is read
-- once in a method: the argument `now`. A transaction is a value here, and the caller keeps no pointer
-- into the pool. `range` is the order in which one loop goes through the map. Sizes and times of a
-- Config are not negative, and a negative limit is that of 0.
pub mod Invariant
pub mod Pending
pub mod Reached
pub mod Rebuild
pub mod Expiry
pub mod Removal
pub mod Capacity
pub mod Lowest
pub mod Admission
pub mod Highest
use lock_free_p2p_go.Prelude.{
  ℕ, zero, suc, ◌+◌, ◌-◌, ◌*◌, ◌/◌, ◌%◌, ◌^◌, Bool, true, false, not, ◌||◌, ◌&&◌, Option, none,
  some, List, ◌∷◌, [], ◌++◌, map, length, ltb, leb, ◌==◌, if◌then◌else◌, get_elem?,
}
use lock_free_p2p_go.Run.{
  Run, ok, err, tx_too_large, low_gas_price, tx_exists, pool_full, tx_not_found, fail_if, ◌>>=◌,
  ◌>>◌,
}
use lock_free_p2p_go.Bytes.{bytes_eq}
use lock_free_p2p_go.GoMap.{lookup, assign, erase, there}
use lock_free_p2p_go.Heap
use lock_free_p2p_go.Mempool.Tx.{Tx, fee, size, since, priority, validate}

pub record Config : Type 0 where
  pub max_size : ℕ
  pub max_tx_size : ℕ
  pub min_gas_price : ℕ
  pub tx_ttl : ℕ  -- nanoseconds
  pub cleanup_interval : ℕ  -- nanoseconds

abbrev pub default_config : Config
default_config = record {
  max_size = 10000;
  max_tx_size = 32 * 1024;
  min_gas_price = 1;
  tx_ttl = 10800 * 1000000000;
  cleanup_interval = 300 * 1000000000;
}

-- `txs` by hash, and the slice of the heap `pending`.
pub record Mempool : Type 0 where
  pub config : Config
  pub txs : List (List ℕ × Tx)
  pub pending : List Tx

abbrev pub configured : Option Config → Config
configured none = default_config
configured (some config) = config

-- `New` at the time `now`
unfoldable pub new_mempool : (now : ℕ) → Option Config → Mempool
new_mempool now config = record {
  config = configured config;
  txs = [];
  pending = Heap.init (priority now) [];
}

-- `_, exists := mp.txs[tx.Hash]`
abbrev pub holds : Mempool → Tx → Bool
holds mp tx = there (lookup mp.txs tx.hash)

-- The limit that `GetPending` works with.
abbrev pub wanted : Mempool → ℕ → ℕ
wanted mp limit = let n = length mp.txs in if (limit == 0) || ltb n limit then n else limit

module _ (now : ℕ) where
  -- The loop of `removeLowestLocked` from index i: the index of the lowest priority.
  unfoldable pub lowest_from : List Tx → (i lowest_idx lowest_priority : ℕ) → ℕ
  lowest_from [] i lowest_idx lowest_priority = lowest_idx
  lowest_from (tx ∷ txs) i lowest_idx lowest_priority =
      let p = priority now tx in
      let lower = ltb p lowest_priority in
      lowest_from txs (suc i) (if lower then i else lowest_idx)
        (if lower then p else lowest_priority)

  unfoldable pub remove_at : Mempool → ℕ → Option Tx → Mempool
  remove_at mp i none = mp
  remove_at mp i (some tx) = record mp {
    txs = erase mp.txs tx.hash;
    pending = (Heap.remove (priority now) mp.pending i).1;
  }

  -- `removeLowestLocked`; there is no entry at any index of an empty heap.
  unfoldable pub remove_lowest : Mempool → Mempool
  remove_lowest mp =
      let i = lowest_from mp.pending 0 0 (2 ^ 64 - 1) in remove_at mp i (get_elem? mp.pending i)

  unfoldable pub outranks : Tx → Option Tx → Bool
  outranks tx none = false
  outranks tx (some lowest) = ltb (priority now lowest) (priority now tx)

  -- The part of `Add` that checks the capacity.
  unfoldable pub make_room : Mempool → Tx → Run Mempool
  make_room mp tx =
      let last = get_elem? mp.pending (length mp.pending - 1) in
      let replaced = if outranks tx last then ok (remove_lowest mp) else err pool_full in
      if leb mp.config.max_size (length mp.txs) then replaced else ok mp

  -- The end of `Add`
  unfoldable pub insert : Mempool → Tx → Mempool
  insert mp tx = record mp {
    txs = assign mp.txs tx.hash tx;
    pending = Heap.push (priority now) mp.pending tx;
  }

  -- `Add`: the pool that it leaves, when it returns no error; an error leaves the pool as it was.
  unfoldable pub add : (sha256 : List ℕ → List ℕ) → Mempool → Tx → Run Mempool
  add sha256 mp tx = do
    validate sha256 tx
    fail_if (ltb mp.config.max_tx_size (size tx)) tx_too_large
    fail_if (ltb tx.gas_price mp.config.min_gas_price) low_gas_price
    let received = record tx { received_at = some now }
    fail_if (holds mp received) tx_exists
    room ← make_room mp received
    ok (insert room received)

  -- The end of one round of the loop of `PopHighestPriority`, with the entry that left the heap and
  -- what the later rounds do.
  unfoldable pub pop_round : Mempool → Option Tx → Mempool × Option Tx → Mempool × Option Tx
  pop_round mp none rest = (mp, none)
  pop_round mp (some tx) rest =
      if holds mp tx then (record mp { txs = erase mp.txs tx.hash }, some tx) else rest

  -- The loop by the rounds that are left: one for each entry of the heap.
  unfoldable pub pop_loop : ℕ → Mempool → Mempool × Option Tx
  pop_loop zero mp = (mp, none)
  pop_loop (suc k) mp =
      let popped = Heap.pop (priority now) mp.pending in
      let left = record mp { pending = popped.1 } in pop_round left popped.0 (pop_loop k left)

  -- `PopHighestPriority`
  unfoldable pub pop_highest : Mempool → Mempool × Option Tx
  pop_highest mp = pop_loop (length mp.pending) mp

  -- The end of one round of the loop of `GetPending`, with the entry that left the copy, and the
  -- results of the later rounds, which depend on whether this one counts.
  unfoldable pub pending_round : Mempool → Option Tx → (Bool → List Tx) → List Tx
  pending_round mp none rest = []
  pending_round mp (some tx) rest =
      let kept = holds mp tx in let later = rest kept in if kept then tx ∷ later else later

  -- The loop by the entries of the copy that are left, and the number of results that are wanted.
  unfoldable pub pending_loop : Mempool → (k left : ℕ) → List Tx → List Tx
  pending_loop mp zero left copy = []
  pending_loop mp (suc k) zero copy = []
  pending_loop mp (suc k) (suc left) copy =
      let popped = Heap.pop (priority now) copy in
      pending_round mp popped.0
        (λ kept. pending_loop mp k (if kept then left else suc left) popped.1)

  -- `GetPending`
  unfoldable pub get_pending : Mempool → ℕ → List Tx
  get_pending mp limit =
      pending_loop mp (length mp.pending) (wanted mp limit) (Heap.init (priority now) mp.pending)

-- `Remove`
unfoldable pub remove : Mempool → List ℕ → Run Mempool
remove mp hash = do
  fail_if (not (there (lookup mp.txs hash))) tx_not_found
  ok (record mp { txs = erase mp.txs hash })

-- `Get`, and `Has`, `Size`, `IsFull`
abbrev pub get : Mempool → List ℕ → Option Tx × Bool
get mp hash = let tx = lookup mp.txs hash in (tx, there tx)

abbrev pub has : Mempool → List ℕ → Bool
has mp hash = there (lookup mp.txs hash)

abbrev pub pool_size : Mempool → ℕ
pool_size mp = length mp.txs

abbrev pub is_full : Mempool → Bool
is_full mp = leb mp.config.max_size (length mp.txs)

-- The loop of `PeekHighestPriority`
unfoldable pub first_held : Mempool → List Tx → Option Tx
first_held mp [] = none
first_held mp (tx ∷ txs) = let later = first_held mp txs in if holds mp tx then some tx else later

unfoldable pub peek_highest : Mempool → Option Tx
peek_highest mp = first_held mp mp.pending

-- The loop of `RemoveBatch`: the map, and how many were removed.
unfoldable pub remove_each :
    List (List ℕ × Tx) → (removed : ℕ) → List (List ℕ) → List (List ℕ × Tx) × ℕ
remove_each txs removed [] = (txs, removed)
remove_each txs removed (hash ∷ hashes) =
    let found = there (lookup txs hash) in
    remove_each (if found then erase txs hash else txs) (if found then suc removed else removed)
      hashes

unfoldable pub erase_each : List (List ℕ × Tx) → List (List ℕ) → List (List ℕ × Tx)
erase_each txs [] = txs
erase_each txs (hash ∷ hashes) = erase_each (erase txs hash) hashes

-- The first loop of `removeExpired`
unfoldable pub expired_hashes : (now ttl : ℕ) → List (List ℕ × Tx) → List (List ℕ)
expired_hashes now ttl [] = []
expired_hashes now ttl (e ∷ es) =
    let later = expired_hashes now ttl es in
    if ltb ttl (since now e.1.received_at) then e.0 ∷ later else later

module _ (range : List (List ℕ × Tx) → List (List ℕ × Tx)) where
  -- `rebuildHeapLocked`
  unfoldable pub rebuild : (now : ℕ) → Mempool → Mempool
  rebuild now mp = record mp { pending = Heap.init (priority now) (map (λ e. e.1) (range mp.txs)) }

  -- `RemoveBatch`
  unfoldable pub remove_batch : (now : ℕ) → Mempool → List (List ℕ) → Mempool × ℕ
  remove_batch now mp hashes =
      let (txs, removed) = remove_each mp.txs 0 hashes in
      let left = record mp { txs = txs } in
      let many = ltb 100 removed || ltb (length txs / 10) removed in
      (if many then rebuild now left else left, removed)

  -- `removeExpired`
  unfoldable pub remove_expired : (now : ℕ) → Mempool → Mempool
  remove_expired now mp =
      let hashes = expired_hashes now mp.config.tx_ttl (range mp.txs) in
      let left = record mp { txs = erase_each mp.txs hashes } in
      if ltb 0 (length hashes) then rebuild now left else left
