-- ===== src/Mempool/Pool/Expiry.antt =====
-- pkg/mempool/mempool.go: the removal of expired transactions.
use lock_free_p2p_go.Prelude.{
  ℕ, zero, suc, ◌≤◌, ◌≡◌, refl, sym, ap, true, none, some, List, ◌∷◌, [], length, ltb,
  if◌then◌else◌, arith, Perm, Mem, Mem-get_elem?, get_elem?, Bool-cases, inl, inr,
}
use mathlib.Core.Bool.{Bool-set}
use mathlib.Core.List.Perm
use mathlib.Core.List.Memᴰ
use mathlib.Core.List.{mem-cons_of_mem}
use mathlib.Core.Logic.{◌↔◌, ∥∥₁_elim}
use lock_free_p2p_go.Bytes.{bytes_eq}
use lock_free_p2p_go.Bytes.Laws.{bytes_eq_iff}
use lock_free_p2p_go.GoMap.{lookup, erase}
use lock_free_p2p_go.GoMap.Laws.{lookup-erase, lookup-Mem}
use lock_free_p2p_go.GoMap.Keys.{IsMap, IsMap-erase, Mem-lookup}
use lock_free_p2p_go.Mempool.Tx.{Tx, since}
use lock_free_p2p_go.Mempool.Pool.{Mempool, rebuild, expired_hashes, erase_each, remove_expired}
use lock_free_p2p_go.Mempool.Pool.Removal.{contains}

pub erase_each-lookup :
    (txs : List (List ℕ × Tx)) (hashes : List (List ℕ)) (k : List ℕ)
    → lookup (erase_each txs hashes) k ≡ (if contains hashes k then none else lookup txs k)
unfolding erase_each
erase_each-lookup txs [] k = refl
erase_each-lookup txs (hash ∷ hashes) k =
    ground (arith, erase_each-lookup (erase txs hash) hashes k, lookup-erase txs hash k)

pub IsMap-erase_each :
    (txs : List (List ℕ × Tx)) (hashes : List (List ℕ)) → IsMap txs → IsMap (erase_each txs hashes)
unfolding erase_each
IsMap-erase_each txs [] m = m
IsMap-erase_each txs (hash ∷ hashes) m =
    IsMap-erase_each (erase txs hash) hashes (IsMap-erase txs hash m)

module _ (now ttl : ℕ) where
  -- The hash of an expired entry is found.
  expired_hashes_complete :
      (es : List (List ℕ × Tx)) (k : List ℕ) (tx : Tx)
      → Mem (k, tx) es
      → ltb ttl (since now tx.received_at) ≡ true
      → contains (expired_hashes now ttl es) k ≡ true
  unfolding expired_hashes
  expired_hashes_complete es k tx m old =
      Mem-get_elem? es (k, tx) (Bool-set _ _) m (λ i e. at es i e)
    where
      at :
          (fs : List (List ℕ × Tx)) (i : ℕ)
          → get_elem? fs i ≡ some (k, tx)
          → contains (expired_hashes now ttl fs) k ≡ true
      at [] i e = absurd (cc e)
      at (f ∷ fs) zero e =
          let same : f ≡ (k, tx) = cc e in
          let self : bytes_eq k k ≡ true = (bytes_eq_iff k k).1 refl in rw (same, old, self) refl
      at (f ∷ fs) (suc i) e =
          let later = at fs i e in
          elim (Bool-cases (ltb ttl (since now f.1.received_at))) [
            | inl gone ↦ rw gone (ground (arith, later))
            | inr fresh ↦ rw fresh later
          ]

  -- A hash that is found is that of an expired entry.
  expired_hashes_sound :
      (es : List (List ℕ × Tx)) (k : List ℕ)
      → contains (expired_hashes now ttl es) k ≡ true
      → (tx : Tx) × Mem (k, tx) es × (ltb ttl (since now tx.received_at) ≡ true)
  unfolding expired_hashes
  expired_hashes_sound [] k c = absurd (cc c)
  expired_hashes_sound (e ∷ es) k c = elim (Bool-cases (ltb ttl (since now e.1.received_at))) [
    | inl old ↦ elim (Bool-cases (bytes_eq e.0 k)) [
      | inl here ↦
          let same : e ≡ (k, e.1) = λ i. ((bytes_eq_iff e.0 k).0 here i, e.1) in
          (e.1, ∣ Memᴰ.head (sym same) ∣₁, old)
      | inr other ↦
          let (tx, m, o) = expired_hashes_sound es k (rw (old, other) at c) in
          (tx, mem-cons_of_mem e m, o)
    ]
    | inr fresh ↦
        let (tx, m, o) = expired_hashes_sound es k (rw fresh at c) in (tx, mem-cons_of_mem e m, o)
  ]

-- Which entries of a map with one entry for each key are not erased.
fresh_iff :
    (range : List (List ℕ × Tx) → List (List ℕ × Tx)) (now ttl : ℕ) (txs : List (List ℕ × Tx))
    → ((es : List (List ℕ × Tx)) → Perm (range es) es)
    → IsMap txs
    → (k : List ℕ) (tx : Tx)
    → (lookup (erase_each txs (expired_hashes now ttl (range txs))) k ≡ some tx)
      ↔ ((lookup txs k ≡ some tx) × (since now tx.received_at ≤ ttl))
fresh_iff range now ttl txs same m k tx =
    let hashes = expired_hashes now ttl (range txs) in
    let at = erase_each-lookup txs hashes k in
    elim (Bool-cases (contains hashes k)) [
      | inl gone ↦
          let (old_tx, i, old) = expired_hashes_sound now ttl (range txs) k gone in
          (
            λ e. absurd (cc (e, at, gone)),
            λ (e, fresh). absurd (
                ∥∥₁_elim (Mem-lookup txs k old_tx m ((Perm.mem_iff (same txs)).0 i))
                  (λ x y. absurd x)
                  (λ found.
                    let one : old_tx ≡ tx = cc (found, e) in
                    ground (arith, ap (λ x. x.received_at) one))),
          )
      | inr kept ↦
          let still : lookup (erase_each txs hashes) k ≡ lookup txs k = rw kept at at in
          rw still (
            λ e. (
              e,
              elim (Bool-cases (ltb ttl (since now tx.received_at))) [
                | inl old ↦
                    let i = (Perm.mem_iff (same txs)).1 (lookup-Mem txs k tx e) in
                    absurd (cc (expired_hashes_complete now ttl (range txs) k tx i old, kept))
                | inr fresh ↦ ground arith
              ],
            ),
            λ (e, fresh). e,
          )
    ]

-- removeExpired, on a map with one entry for each key: exactly the transactions remain that have
-- not been in the pool for longer than the TTL, in whatever order the loop goes through the map.
pub remove_expired_iff :
    (range : List (List ℕ × Tx) → List (List ℕ × Tx)) (now : ℕ) (mp : Mempool)
    → ((es : List (List ℕ × Tx)) → Perm (range es) es)
    → IsMap mp.txs
    → (k : List ℕ) (tx : Tx)
    → (lookup (remove_expired range now mp).txs k ≡ some tx)
      ↔ ((lookup mp.txs k ≡ some tx) × (since now tx.received_at ≤ mp.config.tx_ttl))
unfolding remove_expired rebuild
remove_expired_iff range now mp same m k tx =
    let hashes = expired_hashes now mp.config.tx_ttl (range mp.txs) in
    let kept = fresh_iff range now mp.config.tx_ttl mp.txs same m k tx in
    elim (Bool-cases (ltb 0 (length hashes))) [
      | inl some_left ↦ rw some_left kept
      | inr none_left ↦ rw none_left kept
    ]
