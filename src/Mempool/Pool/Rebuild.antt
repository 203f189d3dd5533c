-- ===== src/Mempool/Pool/Rebuild.antt =====
-- pkg/mempool/mempool.go: the heap that rebuildHeapLocked makes, and the pools after a removal.
use lock_free_p2p_go.Prelude.{ℕ, ◌≡◌, refl, sym, ap, ◌∙◌, true, some, List, map, Perm, Mem}
use mathlib.Core.Bool.{Bool-set}
use mathlib.Core.List.Perm
use mathlib.Core.List.{mem-map_of_mem, exists_of_mem-map}
use mathlib.Core.Logic.{∥∥₁_elim}
use lock_free_p2p_go.GoMap.{lookup}
use lock_free_p2p_go.GoMap.Laws.{lookup-Mem}
use lock_free_p2p_go.GoMap.Keys.{IsMap, Mem-lookup}
use lock_free_p2p_go.Heap.Order.{IsHeap}
use lock_free_p2p_go.Heap.Down.{init-perm, init-IsHeap}
use lock_free_p2p_go.Mempool.Tx.{Tx, priority}
use lock_free_p2p_go.Mempool.Pool.{Mempool, holds, rebuild}
use lock_free_p2p_go.Mempool.Pool.Invariant.{IsPool, IsPool-shrunk}

module _ (range : List (List ℕ × Tx) → List (List ℕ × Tx))
    (same : (es : List (List ℕ × Tx)) → Perm (range es) es) (now : ℕ) where
  rebuild-perm :
      (mp : Mempool) → Perm (rebuild range now mp).pending (map (λ e. e.1) (range mp.txs))
  unfolding rebuild
  rebuild-perm mp = init-perm (priority now) (map (λ e. e.1) (range mp.txs))

  pub rebuild-Mem :
      (mp : Mempool) (h : List ℕ) (tx : Tx)
      → lookup mp.txs h ≡ some tx
      → Mem tx (rebuild range now mp).pending
  rebuild-Mem mp h tx e =
      (Perm.mem_iff (rebuild-perm mp)).1
        (mem-map_of_mem (λ e'. e'.1) ((Perm.mem_iff (same mp.txs)).1 (lookup-Mem mp.txs h tx e)))

  pub rebuild-IsHeap : (mp : Mempool) → IsHeap (priority now) (rebuild range now mp).pending
  unfolding rebuild
  rebuild-IsHeap mp = init-IsHeap (priority now) (map (λ e. e.1) (range mp.txs))

  module _ (sha256 : List ℕ → List ℕ) where
    -- Every entry of the new heap is in the map.
    pub rebuild-holds :
        (mp : Mempool)
        → IsPool sha256 mp
        → (t : Tx) → Mem t (rebuild range now mp).pending
        → holds mp t ≡ true
    rebuild-holds mp p t m =
        ∥∥₁_elim (exists_of_mem-map ((Perm.mem_iff (rebuild-perm mp)).0 m)) (Bool-set _ _)
          (λ (e, i, is).
            ∥∥₁_elim (Mem-lookup mp.txs e.0 e.1 p.one_each ((Perm.mem_iff (same mp.txs)).0 i))
              (Bool-set _ _)
              (λ found.
                let key : t.hash ≡ e.0 = ap (λ x. x.hash) (sym is) ∙ p.keyed e.0 e.1 found in
                rw (key, found) refl))

    -- The map has lost entries, and the heap is built anew.
    pub rebuild-IsPool :
        (mp : Mempool) (txs : List (List ℕ × Tx))
        → IsPool sha256 mp
        → IsMap txs
        → ((h : List ℕ) (tx : Tx) → lookup txs h ≡ some tx → lookup mp.txs h ≡ some tx)
        → IsPool sha256 (rebuild range now (record mp { txs = txs }))
    unfolding rebuild
    rebuild-IsPool mp txs p m f =
        let left = record mp { txs = txs } in
        IsPool-shrunk sha256 mp txs (rebuild range now left).pending p m
          (λ h tx e. (f h tx e, λ i. rebuild-Mem left h tx e))
