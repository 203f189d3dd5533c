-- ===== src/Mempool/Pool/Capacity.antt =====
-- pkg/mempool/mempool.go: what the map holds after Add, and how many transactions.
use lock_free_p2p_go.Prelude.{
  ℕ, ◌≤◌, ◌<◌, ◌≡◌, ◌⊎◌, refl, ap, ◌∙◌, true, false, none, some, List, length, ltb, if◌then◌else◌,
  arith, Mem, inl, inr, Mem-get_elem?,
}
use native.Mathlib.Bridge.{le_prop}
use lock_free_p2p_go.Run.{ok, err, tx_exists}
use lock_free_p2p_go.Bytes.{bytes_eq}
use lock_free_p2p_go.Bytes.Laws.{bytes_eq_iff}
use lock_free_p2p_go.GoMap.{lookup, assign, erase}
use lock_free_p2p_go.GoMap.Laws.{lookup-assign, lookup-erase}
use lock_free_p2p_go.GoMap.Keys.{length-erase, length-assign}
use lock_free_p2p_go.Mempool.Tx.{Tx, priority, size}
use lock_free_p2p_go.Mempool.Pool.{Mempool, holds, insert, add}
use lock_free_p2p_go.Mempool.Pool.Lowest.{IsLowest}
use lock_free_p2p_go.Mempool.Pool.Invariant.{IsPool}
use lock_free_p2p_go.Mempool.Pool.Admission.{
  add-Added, Room, make_room-Room, Room-config, free, evicted,
}

module _ (sha256 : List ℕ → List ℕ) (now : ℕ) (mp mp' : Mempool) (tx : Tx) where
  abbrev received : Tx
  received = record tx { received_at = some now }

  -- A transaction of the heap gave its place to tx: none of the heap has a lower priority, that of tx
  -- is higher, and its hash is no longer in the map.
  pub record Evicts (low : Tx) : Type 0 where
    pub full : mp.config.max_size ≤ length mp.txs
    pub waiting : Mem low mp.pending
    pub lowest : (y : Tx) → Mem y mp.pending → priority now low ≤ priority now y
    pub below : priority now low < priority now received
    pub gone : bytes_eq tx.hash low.hash ≡ false → lookup mp'.txs low.hash ≡ none
    pub others :
        (k : List ℕ)
        → bytes_eq tx.hash k ≡ false
        → bytes_eq low.hash k ≡ false
        → lookup mp'.txs k ≡ lookup mp.txs k

  -- When Add returns no error: the hash of the transaction was not in the map and it now has the
  -- transaction with the time of its arrival; nothing else has changed in the map if there was a free
  -- place, and otherwise one entry of the heap of the lowest priority, which is below that of the
  -- new transaction, has left the map, and no other.
  pub add_stores :
      add now sha256 mp tx ≡ ok mp'
      → (lookup mp.txs tx.hash ≡ none)
        × (lookup mp'.txs tx.hash ≡ some received)
        × (((length mp.txs < mp.config.max_size)
              × ((k : List ℕ) → bytes_eq tx.hash k ≡ false → lookup mp'.txs k ≡ lookup mp.txs k))
            ⊎ ((low : Tx) × Evicts low))
  unfolding insert
  add_stores e =
      let a = add-Added sha256 now mp mp' tx e in
      let self : bytes_eq tx.hash tx.hash ≡ true = (bytes_eq_iff tx.hash tx.hash).1 refl in
      let stored = ap (λ m. m.txs) a.result in
      let now_at =
        λ (k : List ℕ). ap (λ m. lookup m k) stored ∙ lookup-assign a.room.txs tx.hash k received in
      (
        a.absent,
        rw self at (now_at tx.hash),
        place (make_room-Room sha256 now mp received a.room a.made) now_at,
      )
    where
      place :
          {room : Mempool}
          → Room sha256 now mp received room
          → ((k : List ℕ)
              → lookup mp'.txs k
                ≡ (if bytes_eq tx.hash k then some received else lookup room.txs k))
          → ((length mp.txs < mp.config.max_size)
              × ((k : List ℕ) → bytes_eq tx.hash k ≡ false → lookup mp'.txs k ≡ lookup mp.txs k))
            ⊎ ((low : Tx) × Evicts low)
      place (free h) now_at = inl (h, λ k other. rw other at (now_at k))
      place (evicted low full m lowest below rest left) now_at =
          let now_erased = λ (k : List ℕ) (other : bytes_eq tx.hash k ≡ false).
            (rw other at (now_at k)) ∙ lookup-erase mp.txs low.hash k in
          let self : bytes_eq low.hash low.hash ≡ true = (bytes_eq_iff low.hash low.hash).1 refl in
          inr (
            low,
            record {
              full = full;
              waiting = m;
              lowest = λ y w. Mem-get_elem? mp.pending y le_prop w (λ i e. lowest i y e);
              below = below;
              gone = λ other. rw self at (now_erased low.hash other);
              others = λ k other kept. rw kept at (now_erased k other);
            },
          )

  -- When every entry of the heap is in the map, and the map has at most MaxSize entries: an Add that
  -- returns no error leaves at most MaxSize entries.
  pub add_bounded :
      IsPool sha256 mp
      → ((t : Tx) → Mem t mp.pending → holds mp t ≡ true)
      → length mp.txs ≤ mp.config.max_size
      → add now sha256 mp tx ≡ ok mp'
      → length mp'.txs ≤ mp.config.max_size
  unfolding insert
  add_bounded p current h e =
      let a = add-Added sha256 now mp mp' tx e in
      rw a.result (place (make_room-Room sha256 now mp received a.room a.made))
    where
      place :
          {room : Mempool}
          → Room sha256 now mp received room
          → length (assign room.txs tx.hash received) ≤ mp.config.max_size
      place (free k) = ground (arith, length-assign mp.txs tx.hash received)
      place (evicted low full m lowest below rest left) = ground (
        arith,
        length-assign (erase mp.txs low.hash) tx.hash received,
        length-erase mp.txs low.hash p.one_each,
        current low m,
      )

  -- When the map has MaxSize entries or more, and a lowest entry of the heap is never in the map, as
  -- Remove leaves it: an Add that returns no error leaves more entries than MaxSize.
  pub add_overfills :
      IsPool sha256 mp
      → mp.config.max_size ≤ length mp.txs
      → ((low : Tx)
          → Mem low mp.pending
          → IsLowest now mp.pending (priority now low)
          → holds mp low ≡ false)
      → add now sha256 mp tx ≡ ok mp'
      → mp.config.max_size < length mp'.txs
  unfolding insert
  add_overfills p h stale e =
      let a = add-Added sha256 now mp mp' tx e in
      rw a.result (place a.absent (make_room-Room sha256 now mp received a.room a.made))
    where
      place :
          {room : Mempool}
          → lookup mp.txs tx.hash ≡ none
          → Room sha256 now mp received room
          → mp.config.max_size < length (assign room.txs tx.hash received)
      place new (free k) = absurd (omega arith)
      place new (evicted low full m lowest below rest left) = ground (
        arith,
        new,
        lookup-erase mp.txs low.hash tx.hash,
        length-assign (erase mp.txs low.hash) tx.hash received,
        length-erase mp.txs low.hash p.one_each,
        stale low m lowest,
      )

  -- After an Add that returns no error, a second Add of the same transaction, at any time, returns
  -- that it exists already.
  pub add-add :
      (later : ℕ) → add now sha256 mp tx ≡ ok mp' → add later sha256 mp' tx ≡ err tx_exists
  unfolding add insert
  add-add later e =
      let a = add-Added sha256 now mp mp' tx e in
      let room = make_room-Room sha256 now mp received a.room a.made in
      let same : mp'.config ≡ mp.config =
        ap (λ m. m.config) a.result ∙ Room-config sha256 now mp received room in
      let small : ltb mp'.config.max_tx_size (size tx) ≡ false =
        rw same (ground (arith, a.admitted.fits)) in
      let dear : ltb tx.gas_price mp'.config.min_gas_price ≡ false =
        rw same (ground (arith, a.admitted.priced)) in
      let here : holds mp' tx ≡ true = rw (add_stores e).1 refl in
      rw (a.admitted.valid, small, dear, here) refl
