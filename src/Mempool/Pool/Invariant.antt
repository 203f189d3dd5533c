-- ===== src/Mempool/Pool/Invariant.antt =====
-- pkg/mempool/mempool.go: what holds of the map and the heap of every pool.
use lock_free_p2p_go.Prelude.{
  ℕ, ◌≤◌, ◌≡◌, ◌≢◌, sym, ap, ◌∙◌, none, some, List, ◌∷◌, Perm, Mem, inl, inr,
}
use mathlib.Core.List.Perm
use mathlib.Core.List.{mem-cons_self, mem_of_ne_of_mem, mem-cons_of_mem}
use lock_free_p2p_go.Run.{ok}
use lock_free_p2p_go.Bytes.Laws.{bytes_eq_iff}
use lock_free_p2p_go.GoMap.{lookup, assign, erase}
use lock_free_p2p_go.GoMap.Laws.{erase-some, assign-some}
use lock_free_p2p_go.GoMap.Keys.{IsMap, IsMap-erase, IsMap-assign}
use lock_free_p2p_go.Mempool.Tx.{Tx, size, validate}
use lock_free_p2p_go.Mempool.Pool.{Config, Mempool}

module _ (sha256 : List ℕ → List ℕ) where
  -- What `Add` asks of a transaction alone.
  pub record IsAdmitted (config : Config) (tx : Tx) : Type 0 where
    pub valid : validate sha256 tx ≡ ok tt
    pub fits : size tx ≤ config.max_tx_size
    pub priced : config.min_gas_price ≤ tx.gas_price

  -- The map has one entry for each key. Each transaction of the map stands under its hash, has passed the checks, and is in the heap,
  -- which may hold others.
  pub record IsPool (mp : Mempool) : Type 0 where
    pub one_each : IsMap mp.txs
    pub keyed : (h : List ℕ) (tx : Tx) → lookup mp.txs h ≡ some tx → tx.hash ≡ h
    pub pended : (h : List ℕ) (tx : Tx) → lookup mp.txs h ≡ some tx → Mem tx mp.pending
    pub admitted : (h : List ℕ) (tx : Tx) → lookup mp.txs h ≡ some tx → IsAdmitted mp.config tx

  -- The map has lost entries, and the heap still has those that the map has.
  pub IsPool-shrunk :
      (mp : Mempool) (txs : List (List ℕ × Tx)) (pending : List Tx)
      → IsPool mp
      → IsMap txs
      → ((h : List ℕ) (tx : Tx)
          → lookup txs h ≡ some tx
          → (lookup mp.txs h ≡ some tx) × (Mem tx mp.pending → Mem tx pending))
      → IsPool (record mp { txs = txs; pending = pending })
  IsPool-shrunk mp txs pending p m f = record {
    one_each = m;
    keyed = λ h tx e. p.keyed h tx (f h tx e).0;
    pended = λ h tx e. (f h tx e).1 (p.pended h tx (f h tx e).0);
    admitted = λ h tx e. p.admitted h tx (f h tx e).0;
  }

  -- An entry leaves the heap, and its hash leaves the map.
  pub IsPool-erase :
      (mp : Mempool) (t : Tx) (rest : List Tx)
      → IsPool mp
      → Perm mp.pending (t ∷ rest)
      → IsPool (record mp { txs = erase mp.txs t.hash; pending = rest })
  IsPool-erase mp t rest p left =
      IsPool-shrunk mp (erase mp.txs t.hash) rest p (IsMap-erase mp.txs t.hash p.one_each) λ h tx e.
        let (before, other) = erase-some mp.txs t.hash h tx e in
        let differ : tx ≢ t = λ same.
          cc (
            other,
            (bytes_eq_iff t.hash h).1 (ap (λ x. x.hash) (sym same) ∙ p.keyed h tx before),
          ) in
        (before, λ m. mem_of_ne_of_mem differ ((Perm.mem_iff left).0 m))

  -- An entry leaves the heap whose hash is not in the map.
  pub IsPool-skip :
      (mp : Mempool) (t : Tx) (rest : List Tx)
      → IsPool mp
      → Perm mp.pending (t ∷ rest)
      → lookup mp.txs t.hash ≡ none
      → IsPool (record mp { pending = rest })
  IsPool-skip mp t rest p left gone = IsPool-shrunk mp mp.txs rest p p.one_each λ h tx e.
      let differ : tx ≢ t = λ same.
        let here : t.hash ≡ h = ap (λ x. x.hash) (sym same) ∙ p.keyed h tx e in
        cc (gone, e, ap (lookup mp.txs) here) in
      (e, λ m. mem_of_ne_of_mem differ ((Perm.mem_iff left).0 m))

  -- A transaction enters the map and the heap.
  pub IsPool-assign :
      (mp : Mempool) (t : Tx) (pending : List Tx)
      → IsPool mp
      → IsAdmitted mp.config t
      → Perm pending (t ∷ mp.pending)
      → IsPool (record mp { txs = assign mp.txs t.hash t; pending = pending })
  IsPool-assign mp t pending p ad more = record {
    one_each = IsMap-assign mp.txs t.hash t p.one_each;
    keyed = λ h tx e. elim (assign-some mp.txs t.hash h t tx e) [
      | inl new ↦ ap (λ x. x.hash) (sym new.1) ∙ new.0
      | inr old ↦ p.keyed h tx old
    ];
    pended = λ h tx e. elim (assign-some mp.txs t.hash h t tx e) [
      | inl new ↦ (Perm.mem_iff more).1 (rw new.1 mem-cons_self)
      | inr old ↦ (Perm.mem_iff more).1 (mem-cons_of_mem t (p.pended h tx old))
    ];
    admitted = λ h tx e. elim (assign-some mp.txs t.hash h t tx e) [
      | inl new ↦ rw (← new.1) ad
      | inr old ↦ p.admitted h tx old
    ];
  }
