-- ===== src/Mempool/Pool/Admission.antt =====
-- pkg/mempool/mempool.go: what Add lets in, and the place that it makes.
use lock_free_p2p_go.Prelude.{
  ℕ, suc, ◌-◌, ◌^◌, ◌≤◌, ◌<◌, ◌≡◌, refl, sym, ◌∙◌, Option, none, some, List, ◌∷◌, length, ltb, leb,
  if◌then◌else◌, arith, Perm, Mem, Bool-cases, inl, inr, get_elem?, get_elem?-lt, get_elem?-Mem,
}
use lock_free_p2p_go.Run.{ok, err, pool_full, tx_exists, tx_too_large, low_gas_price}
use lock_free_p2p_go.Run.Laws.{bind-ok, fail_if-ok, ok-injective}
use lock_free_p2p_go.GoMap.{lookup, erase}
use lock_free_p2p_go.Heap
use lock_free_p2p_go.Heap.Operations.{remove-Takes, push-perm}
use lock_free_p2p_go.Mempool.Tx.{Tx, priority, size, validate, compute_hash}
use lock_free_p2p_go.Mempool.Pool.{
  Config, Mempool, holds, lowest_from, remove_at, remove_lowest, outranks, make_room, insert, add,
}
use lock_free_p2p_go.Mempool.Pool.Lowest.{IsLowest, lowest_from-IsLowest}
use lock_free_p2p_go.Mempool.Pool.Invariant.{IsAdmitted, IsPool, IsPool-erase, IsPool-assign}

module _ (sha256 : List ℕ → List ℕ) (now : ℕ) where
  -- Add returns no error: the transaction passed the checks, and what stood in its way has left.
  pub record Added (mp : Mempool) (tx : Tx) (mp' : Mempool) : Type 0 where
    pub admitted : IsAdmitted sha256 mp.config tx
    pub absent : lookup mp.txs tx.hash ≡ none
    pub room : Mempool
    pub made : make_room now mp (record tx { received_at = some now }) ≡ ok room
    pub result : mp' ≡ insert now room (record tx { received_at = some now })

  pub add-Added : (mp mp' : Mempool) (tx : Tx) → add now sha256 mp tx ≡ ok mp' → Added mp tx mp'
  unfolding add
  add-Added mp mp' tx e =
      let received = record tx { received_at = some now } in
      let (u, valid, e1) = bind-ok (validate sha256 tx) _ mp' e in
      let (small, e2) = fail_if-ok (ltb mp.config.max_tx_size (size tx)) tx_too_large _ mp' e1 in
      let (dear, e3) =
        fail_if-ok (ltb tx.gas_price mp.config.min_gas_price) low_gas_price _ mp' e2 in
      let (new, e4) = fail_if-ok (holds mp received) tx_exists _ mp' e3 in
      let (room, made, e5) = bind-ok (make_room now mp received) _ mp' e4 in
      record {
        admitted = record { valid = valid; fits = ground arith; priced = ground arith };
        absent = ground arith;
        room = room;
        made = made;
        result = sym (ok-injective e5);
      }

  -- When a transaction arrives matters to none of the checks.
  IsAdmitted-received :
      (config : Config) (tx : Tx)
      → IsAdmitted sha256 config tx
      → IsAdmitted sha256 config (record tx { received_at = some now })
  unfolding validate compute_hash size
  IsAdmitted-received config tx a = record { valid = a.valid; fits = a.fits; priced = a.priced }

  -- The place for a new transaction: there was one, or the lowest entry of the heap left.
  pub data Room (mp : Mempool) (tx : Tx) : Mempool → Type 0 where
    free : length mp.txs < mp.config.max_size → Room mp tx mp
    evicted :
        (low : Tx)
        → mp.config.max_size ≤ length mp.txs
        → Mem low mp.pending
        → IsLowest now mp.pending (priority now low)
        → priority now low < priority now tx
        → (rest : List Tx) → Perm mp.pending (low ∷ rest)
        → Room mp tx (record mp { txs = erase mp.txs low.hash; pending = rest })

  -- The lowest entry of a heap that is not empty leaves it, and its hash leaves the map.
  Removes : Mempool → Type 0
  Removes mp =
      (low : Tx) × (rest : List Tx) × Mem low mp.pending
      × IsLowest now mp.pending (priority now low)
      × Perm mp.pending (low ∷ rest)
      × (remove_lowest now mp ≡ record mp { txs = erase mp.txs low.hash; pending = rest })

  remove_lowest-Removes : (mp : Mempool) (n : ℕ) → length mp.pending ≡ suc n → Removes mp
  unfolding Removes remove_lowest remove_at
  remove_lowest-Removes mp n size =
      let i = lowest_from now mp.pending 0 0 (2 ^ 64 - 1) in
      let (low, at, lowest) = lowest_from-IsLowest now mp.pending n size in
      let inside = get_elem?-lt mp.pending i low at in
      let t = remove-Takes (priority now) mp.pending n size i (omega arith) in
      let same : t.entry ≡ low = cc (t.was, at) in
      (
        low,
        (Heap.remove (priority now) mp.pending i).1,
        get_elem?-Mem mp.pending i low at,
        lowest,
        rw same at t.left,
        rw at refl,
      )

  replaced-Room :
      (mp : Mempool) (tx : Tx) (room : Mempool) (last : Option Tx)
      → get_elem? mp.pending (length mp.pending - 1) ≡ last
      → mp.config.max_size ≤ length mp.txs
      → (if outranks now tx last then ok (remove_lowest now mp) else err pool_full) ≡ ok room
      → Room mp tx room
  unfolding outranks Removes
  replaced-Room mp tx room none at full e = absurd (cc e)
  replaced-Room mp tx room (some last) at full e =
      elim (Bool-cases (ltb (priority now last) (priority now tx))) [
        | inr lower ↦ absurd (cc (rw lower at e))
        | inl higher ↦
            let inside = get_elem?-lt mp.pending (length mp.pending - 1) last at in
            let size : length mp.pending ≡ suc (length mp.pending - 1) = omega arith in
            let (low, rest, m, lowest, left, is) =
              remove_lowest-Removes mp (length mp.pending - 1) size in
            let made : record mp { txs = erase mp.txs low.hash; pending = rest } ≡ room =
              sym is ∙ ok-injective (rw higher at e) in
            let below = lowest (length mp.pending - 1) last at in
            rw (← made) (evicted low full m lowest (ground arith) rest left)
      ]

  pub make_room-Room :
      (mp : Mempool) (tx : Tx) (room : Mempool) → make_room now mp tx ≡ ok room → Room mp tx room
  unfolding make_room
  make_room-Room mp tx room e = elim (Bool-cases (leb mp.config.max_size (length mp.txs))) [
    | inr free_place ↦
        let same : mp ≡ room = ok-injective (rw free_place at e) in
        rw (← same) (free (ground arith))
    | inl full ↦
        replaced-Room mp tx room (get_elem? mp.pending (length mp.pending - 1)) refl (ground arith)
          (rw full at e)
  ]

  pub Room-config :
      (mp : Mempool) (tx : Tx) {room : Mempool} → Room mp tx room → room.config ≡ mp.config
  Room-config mp tx (free h) = refl
  Room-config mp tx (evicted low full m lowest below rest left) = refl

  Room-IsPool :
      (mp : Mempool) (tx : Tx) {room : Mempool}
      → Room mp tx room
      → IsPool sha256 mp
      → IsPool sha256 room
  Room-IsPool mp tx (free h) p = p
  Room-IsPool mp tx (evicted low full m lowest below rest left) p =
      IsPool-erase sha256 mp low rest p left

  pub add-IsPool :
      (mp mp' : Mempool) (tx : Tx)
      → add now sha256 mp tx ≡ ok mp'
      → IsPool sha256 mp
      → IsPool sha256 mp'
  unfolding insert
  add-IsPool mp mp' tx e p =
      let a = add-Added mp mp' tx e in
      let received = record tx { received_at = some now } in
      let room = make_room-Room mp received a.room a.made in
      let p' = Room-IsPool mp received room p in
      let ad = IsAdmitted-received mp.config tx a.admitted in
      rw a.result (
        IsPool-assign sha256 a.room received (Heap.push (priority now) a.room.pending received) p'
          (rw (Room-config mp received room) ad) (push-perm (priority now) a.room.pending received))
