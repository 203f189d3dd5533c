-- ===== src/Mempool/Pool/Reached.antt =====
-- pkg/mempool/mempool.go: the pools that its operations reach, one after the other, at any times.
use lock_free_p2p_go.Prelude.{
  ℕ, ◌/◌, ◌≡◌, sym, ◌∙◌, Bool, true, false, not, ◌||◌, Option, none, some, List, length, ltb,
  if◌then◌else◌, Perm, Bool-cases, inl, inr,
}
use lock_free_p2p_go.Run.{ok, tx_not_found}
use lock_free_p2p_go.Run.Laws.{fail_if-ok, ok-injective}
use lock_free_p2p_go.GoMap.{lookup, erase, there}
use lock_free_p2p_go.GoMap.Laws.{erase-some}
use lock_free_p2p_go.GoMap.Keys.{IsMap, IsMap-erase}
use lock_free_p2p_go.Mempool.Tx.{Tx}
use lock_free_p2p_go.Mempool.Pool.{
  Config, Mempool, new_mempool, add, remove, remove_batch, remove_expired, remove_each,
  expired_hashes, erase_each, pop_highest,
}
use lock_free_p2p_go.Mempool.Pool.Invariant.{IsPool, IsPool-shrunk}
use lock_free_p2p_go.Mempool.Pool.Admission.{add-IsPool}
use lock_free_p2p_go.Mempool.Pool.Highest.{pop_highest-IsPool}
use lock_free_p2p_go.Mempool.Pool.Rebuild.{rebuild-IsPool}
use lock_free_p2p_go.Mempool.Pool.Removal.{contains, remove_each-RemovesEach}
use lock_free_p2p_go.Mempool.Pool.Expiry.{erase_each-lookup, IsMap-erase_each}

module _ (sha256 : List ℕ → List ℕ) where
  -- Each loop goes through the map in an order of its own.
  pub data Reached : Mempool → Type 0 where
    fresh : (now : ℕ) (config : Option Config) → Reached (new_mempool now config)
    added :
        {mp mp' : Mempool} (now : ℕ) (tx : Tx)
        → Reached mp
        → add now sha256 mp tx ≡ ok mp'
        → Reached mp'
    removed :
        {mp mp' : Mempool} (hash : List ℕ) → Reached mp → remove mp hash ≡ ok mp' → Reached mp'
    removed_batch :
        {mp : Mempool} (range : List (List ℕ × Tx) → List (List ℕ × Tx)) (now : ℕ)
        (hashes : List (List ℕ))
        → ((es : List (List ℕ × Tx)) → Perm (range es) es)
        → Reached mp
        → Reached (remove_batch range now mp hashes).0
    expired :
        {mp : Mempool} (range : List (List ℕ × Tx) → List (List ℕ × Tx)) (now : ℕ)
        → ((es : List (List ℕ × Tx)) → Perm (range es) es)
        → Reached mp
        → Reached (remove_expired range now mp)
    popped : {mp : Mempool} (now : ℕ) → Reached mp → Reached (pop_highest now mp).0

  new_mempool-IsPool : (now : ℕ) (config : Option Config) → IsPool sha256 (new_mempool now config)
  unfolding new_mempool
  new_mempool-IsPool now config = record {
    one_each = tt;
    keyed = λ h tx e. absurd (cc e);
    pended = λ h tx e. absurd (cc e);
    admitted = λ h tx e. absurd (cc e);
  }

  -- Entries leave the map only.
  IsPool-removed :
      (mp : Mempool) (txs : List (List ℕ × Tx))
      → IsPool sha256 mp
      → IsMap txs
      → ((h : List ℕ) (tx : Tx) → lookup txs h ≡ some tx → lookup mp.txs h ≡ some tx)
      → IsPool sha256 (record mp { txs = txs })
  IsPool-removed mp txs p m f =
      IsPool-shrunk sha256 mp txs mp.pending p m (λ h tx e. (f h tx e, λ i. i))

  remove-IsPool :
      (mp mp' : Mempool) (hash : List ℕ)
      → remove mp hash ≡ ok mp'
      → IsPool sha256 mp
      → IsPool sha256 mp'
  unfolding remove
  remove-IsPool mp mp' hash e p =
      let (found, e1) = fail_if-ok (not (there (lookup mp.txs hash))) tx_not_found _ mp' e in
      let left =
        IsPool-removed mp (erase mp.txs hash) p (IsMap-erase mp.txs hash p.one_each)
          (λ h tx f. (erase-some mp.txs hash h tx f).0) in
      rw (← ok-injective e1) left

  still :
      (gone : Bool) (o : Option Tx) (tx : Tx) → (if gone then none else o) ≡ some tx → o ≡ some tx
  still true o tx e = absurd (cc e)
  still false o tx e = e

  module _ (range : List (List ℕ × Tx) → List (List ℕ × Tx))
      (same : (es : List (List ℕ × Tx)) → Perm (range es) es) (now : ℕ) where
    remove_batch-IsPool :
        (mp : Mempool) (hashes : List (List ℕ))
        → IsPool sha256 mp
        → IsPool sha256 (remove_batch range now mp hashes).0
    unfolding remove_batch
    remove_batch-IsPool mp hashes p =
        let txs = (remove_each mp.txs 0 hashes).0 in
        let n = (remove_each mp.txs 0 hashes).1 in
        let r = remove_each-RemovesEach mp.txs 0 hashes p.one_each in
        let sub = λ (h : List ℕ) (tx : Tx) (e : lookup txs h ≡ some tx).
          still (contains hashes h) (lookup mp.txs h) tx (sym (r.now_at h) ∙ e) in
        elim (Bool-cases (ltb 100 n || ltb (length txs / 10) n)) [
          | inl many ↦ rw many (rebuild-IsPool range same now sha256 mp txs p r.is_map sub)
          | inr few ↦ rw few (IsPool-removed mp txs p r.is_map sub)
        ]

    remove_expired-IsPool :
        (mp : Mempool) → IsPool sha256 mp → IsPool sha256 (remove_expired range now mp)
    unfolding remove_expired
    remove_expired-IsPool mp p =
        let hashes = expired_hashes now mp.config.tx_ttl (range mp.txs) in
        let m = IsMap-erase_each mp.txs hashes p.one_each in
        let sub = λ (h : List ℕ) (tx : Tx) (e : lookup (erase_each mp.txs hashes) h ≡ some tx).
          still (contains hashes h) (lookup mp.txs h) tx
            (sym (erase_each-lookup mp.txs hashes h) ∙ e) in
        elim (Bool-cases (ltb 0 (length hashes))) [
          | inl some_left ↦
              rw some_left
                (rebuild-IsPool range same now sha256 mp (erase_each mp.txs hashes) p m sub)
          | inr none_left ↦ rw none_left (IsPool-removed mp (erase_each mp.txs hashes) p m sub)
        ]

  -- In every pool that New, Add, Remove, RemoveBatch, the removal of expired transactions and
  -- PopHighestPriority reach, at any times: the map has one entry for each key, and each transaction
  -- of the map stands under its hash, has passed the checks of Add and is in the heap.
  pub Reached-IsPool : {mp : Mempool} → Reached mp → IsPool sha256 mp
  Reached-IsPool (fresh now config) = new_mempool-IsPool now config
  Reached-IsPool (added {mp} {mp'} now tx r e) =
      add-IsPool sha256 now mp mp' tx e (Reached-IsPool r)
  Reached-IsPool (removed {mp} {mp'} hash r e) = remove-IsPool mp mp' hash e (Reached-IsPool r)
  Reached-IsPool (removed_batch {mp} range now hashes same r) =
      remove_batch-IsPool range same now mp hashes (Reached-IsPool r)
  Reached-IsPool (expired {mp} range now same r) =
      remove_expired-IsPool range same now mp (Reached-IsPool r)
  Reached-IsPool (popped {mp} now r) = pop_highest-IsPool sha256 now mp (Reached-IsPool r)
