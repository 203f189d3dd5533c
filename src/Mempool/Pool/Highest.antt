-- ===== src/Mempool/Pool/Highest.antt =====
-- pkg/mempool/mempool.go: what PopHighestPriority takes.
use lock_free_p2p_go.Prelude.{
  ℕ, zero, suc, ◌≤◌, ◌≡◌, ◌⊎◌, refl, true, Option, none, some, List, length, arith, Mem-nil,
  length-Perm, Option-cases, inl, inr,
}
use lock_free_p2p_go.GoMap.{lookup, erase}
use lock_free_p2p_go.Heap
use lock_free_p2p_go.Heap.Order.{IsHeap}
use lock_free_p2p_go.Heap.Operations.{pop-Takes, pop-IsHeap, pop-first}
use lock_free_p2p_go.Mempool.Tx.{Tx, priority}
use lock_free_p2p_go.Mempool.Pool.{Mempool, holds, pop_loop, pop_round, pop_highest}
use lock_free_p2p_go.Mempool.Pool.Invariant.{IsPool, IsPool-skip, IsPool-erase, IsPool-shrunk}

module _ (sha256 : List ℕ → List ℕ) (now : ℕ) where
  -- No transaction of the map comes before tx, when the heap is in order.
  abbrev pub IsFirst : Mempool → Tx → Type 0
  IsFirst mp tx =
      IsHeap (priority now) mp.pending
      → (h : List ℕ) (y : Tx) → lookup mp.txs h ≡ some y
      → priority now y ≤ priority now tx

  -- How a call ends: nothing was in the map, or a transaction has left it.
  pub data Popped (mp : Mempool) : Mempool × Option Tx → Type 0 where
    nothing :
        (rest : List Tx)
        → ((h : List ℕ) → lookup mp.txs h ≡ none)
        → Popped mp (record mp { pending = rest }, none)
    popped :
        (tx : Tx) (rest : List Tx)
        → holds mp tx ≡ true
        → IsFirst mp tx
        → IsPool sha256 (record mp { txs = erase mp.txs tx.hash; pending = rest })
        → Popped mp (record mp { txs = erase mp.txs tx.hash; pending = rest }, some tx)

  -- What the later rounds find in the rest of the heap, they find in the whole heap.
  Popped-rest :
      (mp : Mempool) (left : List Tx) (r : Mempool × Option Tx)
      → (IsHeap (priority now) mp.pending → IsHeap (priority now) left)
      → Popped (record mp { pending = left }) r
      → Popped mp r
  Popped-rest mp left r heap (nothing rest e) = nothing rest e
  Popped-rest mp left r heap (popped tx rest held first p) =
      popped tx rest held (λ h. first (heap h)) p

  pop_loop-Popped :
      (k : ℕ) (mp : Mempool)
      → length mp.pending ≡ k
      → IsPool sha256 mp
      → Popped mp (pop_loop now k mp)
  unfolding pop_loop pop_round
  pop_loop-Popped zero mp size p = nothing mp.pending λ h. elim (Option-cases (lookup mp.txs h)) [
    | inl gone ↦ gone
    | inr found ↦ absurd (Mem-nil mp.pending found.0 size (p.pended h found.0 found.1))
  ]
  pop_loop-Popped (suc k) mp size p =
      let t = pop-Takes (priority now) mp.pending k size in
      let rest = (Heap.pop (priority now) mp.pending).1 in
      let left = record mp { pending = rest } in
      rw t.returned (elim (Option-cases (lookup mp.txs t.entry.hash)) [
        | inl gone ↦ rw gone (
            Popped-rest mp rest (pop_loop now k left) (pop-IsHeap (priority now) mp.pending k size)
              (pop_loop-Popped k left (omega (arith, length-Perm t.left))
                (IsPool-skip sha256 mp t.entry rest p t.left gone)))
        | inr found ↦ rw found.1 (
            popped t.entry rest (rw found.1 refl)
              (λ heap h y e. pop-first (priority now) mp.pending k size heap y (p.pended h y e))
              (IsPool-erase sha256 mp t.entry rest p t.left))
      ])

  -- On a pool: PopHighestPriority returns nothing exactly when the map is empty, and otherwise a
  -- transaction whose hash is in the map. That hash, and no other, leaves the map; if the heap is in
  -- order by the priorities of the moment, no transaction of the map has a greater priority.
  pub pop_highest-greatest :
      (mp : Mempool)
      → IsPool sha256 mp
      → (((pop_highest now mp).1 ≡ none) × ((h : List ℕ) → lookup mp.txs h ≡ none))
        ⊎ ((tx : Tx) × ((pop_highest now mp).1 ≡ some tx)
            × (holds mp tx ≡ true)
            × ((pop_highest now mp).0.txs ≡ erase mp.txs tx.hash)
            × IsFirst mp tx)
  unfolding pop_highest
  pop_highest-greatest mp p = ending (pop_loop-Popped (length mp.pending) mp refl p)
    where
      ending :
          {r : Mempool × Option Tx}
          → Popped mp r
          → ((r.1 ≡ none) × ((h : List ℕ) → lookup mp.txs h ≡ none))
            ⊎ ((tx : Tx) × (r.1 ≡ some tx)
                × (holds mp tx ≡ true)
                × (r.0.txs ≡ erase mp.txs tx.hash)
                × IsFirst mp tx)
      ending (nothing rest e) = inl (refl, e)
      ending (popped tx rest held first p') = inr (tx, refl, held, refl, first)

  pub pop_highest-IsPool : (mp : Mempool) → IsPool sha256 mp → IsPool sha256 (pop_highest now mp).0
  unfolding pop_highest
  pop_highest-IsPool mp p = kept (pop_loop-Popped (length mp.pending) mp refl p)
    where
      kept : {r : Mempool × Option Tx} → Popped mp r → IsPool sha256 r.0
      kept (nothing rest e) =
          IsPool-shrunk sha256 mp mp.txs rest p p.one_each λ h tx found. absurd (cc (e h, found))
      kept (popped tx rest held first p') = p'
