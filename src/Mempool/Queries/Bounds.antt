-- ===== src/Mempool/Queries/Bounds.antt =====
-- pkg/mempool/mempool.go: the answers of GetByAddress, GetNonce and GetStats.
use lock_free_p2p_go.Prelude.{
  ℕ, ◌+◌, ◌%◌, ◌^◌, ◌≤◌, ◌≡◌, ◌≢◌, ◌⊎◌, refl, sym, ap, ◌∙◌, true, false, ◌&&◌, Option, none, some,
  List, ◌∷◌, [], arith, Perm, Mem, Bool-cases, Option-cases, inl, inr,
}
use mathlib.Core.List.Perm
use mathlib.Core.List.{mem-cons, mem-cons_self, mem-cons_of_mem, not-mem-nil}
use mathlib.Core.Logic.{∥∥₁_elim}
use native.Mathlib.Bridge.{le_prop}
use lock_free_p2p_go.Bytes.{bytes_eq}
use lock_free_p2p_go.Bytes.Laws.{bytes_eq_iff}
use lock_free_p2p_go.Mempool.Tx.{Tx}
use lock_free_p2p_go.Mempool.Pool.{Mempool}
use lock_free_p2p_go.Mempool.Queries.{higher, max_nonce_from, next_nonce, get_nonce}

module _ (addr : List ℕ) where
  -- What the loop of GetNonce ends with, when it starts from `found`: nothing, and no entry is the
  -- sender's; or the greatest of the nonce found and the nonces of the sender's entries.
  IsMax : List (List ℕ × Tx) → Option ℕ → Option ℕ → Type 0
  IsMax es found none = (found ≡ none) × ((e : List ℕ × Tx) → Mem e es → e.1.from ≢ addr)
  IsMax es found (some m) =
      ((found ≡ some m) ⊎ ((e : List ℕ × Tx) × Mem e es × (e.1.from ≡ addr) × (e.1.nonce ≡ m)))
      × ((f : ℕ) → found ≡ some f → f ≤ m)
      × ((e : List ℕ × Tx) → Mem e es → e.1.from ≡ addr → e.1.nonce ≤ m)

  -- The entry's nonce is taken.
  IsMax-taken :
      (x : List ℕ × Tx) (es : List (List ℕ × Tx)) (found r : Option ℕ)
      → (bytes_eq x.1.from addr && higher x.1.nonce found) ≡ true
      → IsMax es (some x.1.nonce) r
      → IsMax (x ∷ es) found r
  unfolding IsMax higher
  IsMax-taken x es found none taken i = absurd (cc i.0)
  IsMax-taken x es found (some m) taken (i, above, all) =
      let sent : x.1.from ≡ addr = (bytes_eq_iff x.1.from addr).0 (ground arith) in
      let top : x.1.nonce ≤ m = above x.1.nonce refl in
      (
        elim i [
          | inl same ↦ inr (x, mem-cons_self, sent, cc same)
          | inr (e, is, f, n) ↦ inr (e, mem-cons_of_mem x is, f, n)
        ],
        λ f is. ground (arith, rw is at taken),
        λ e is f.
            ∥∥₁_elim (mem-cons.0 is) le_prop
              (λ c. elim c [ inl here ↦ rw here top | inr later ↦ all e later f ]),
      )

  -- It is not: the entry is another sender's, or its nonce is not above the one found.
  IsMax-passed :
      (x : List ℕ × Tx) (es : List (List ℕ × Tx)) (found r : Option ℕ)
      → (bytes_eq x.1.from addr && higher x.1.nonce found) ≡ false
      → IsMax es found r
      → IsMax (x ∷ es) found r
  unfolding IsMax higher
  IsMax-passed x es found none passed (i, no_one) = (
    i,
    λ e is f.
        ∥∥₁_elim (mem-cons.0 is) (λ p q. absurd p)
          (λ c. elim c [
            | inl here ↦
                let sent : bytes_eq x.1.from addr ≡ true =
                  (bytes_eq_iff x.1.from addr).1 (ap (λ y. y.1.from) (sym here) ∙ f) in
                absurd (cc (rw (sent, i) at passed))
            | inr later ↦ no_one e later f
          ]),
  )
  IsMax-passed x es found (some m) passed (i, above, all) = (
    elim i [ inl same ↦ inl same | inr (e, is, f, n) ↦ inr (e, mem-cons_of_mem x is, f, n) ],
    above,
    λ e is f. ∥∥₁_elim (mem-cons.0 is) le_prop (λ c. elim c [
      | inl here ↦
          let sent : bytes_eq x.1.from addr ≡ true =
            (bytes_eq_iff x.1.from addr).1 (ap (λ y. y.1.from) (sym here) ∙ f) in
          rw here (elim (Option-cases found) [
            | inl nothing ↦ absurd (cc (rw (sent, nothing) at passed))
            | inr (g, is_some) ↦ ground (arith, above g is_some, rw (sent, is_some) at passed)
          ])
      | inr later ↦ all e later f
    ]),
  )

  max_nonce_from-IsMax :
      (es : List (List ℕ × Tx)) (found : Option ℕ) → IsMax es found (max_nonce_from addr es found)
  unfolding IsMax max_nonce_from
  max_nonce_from-IsMax [] none = (refl, λ e is f. not-mem-nil is)
  max_nonce_from-IsMax [] (some f) =
      (inl refl, λ g e. (let same : f ≡ g = cc e in omega arith), λ e is. absurd (not-mem-nil is))
  max_nonce_from-IsMax (x ∷ es) found =
      elim (Bool-cases (bytes_eq x.1.from addr && higher x.1.nonce found)) [
        | inl taken ↦ rw taken (
            IsMax-taken x es found (max_nonce_from addr es (some x.1.nonce)) taken
              (max_nonce_from-IsMax es (some x.1.nonce)))
        | inr passed ↦ rw passed (
            IsMax-passed x es found (max_nonce_from addr es found) passed
              (max_nonce_from-IsMax es found))
      ]

-- The next nonce of a sender, whatever the order of the loop: 0 when no transaction of the map is
-- the sender's, and otherwise one more, in uint64, than the nonce of one of the sender's transactions,
-- of which none has a greater nonce.
pub get_nonce_next :
    (range : List (List ℕ × Tx) → List (List ℕ × Tx)) (mp : Mempool) (addr : List ℕ)
    → ((es : List (List ℕ × Tx)) → Perm (range es) es)
    → ((get_nonce range mp addr ≡ 0) × ((e : List ℕ × Tx) → Mem e mp.txs → e.1.from ≢ addr))
      ⊎ ((top : List ℕ × Tx) × Mem top mp.txs
          × (top.1.from ≡ addr)
          × (get_nonce range mp addr ≡ (top.1.nonce + 1) % 2 ^ 64)
          × ((e : List ℕ × Tx) → Mem e mp.txs → e.1.from ≡ addr → e.1.nonce ≤ top.1.nonce))
unfolding get_nonce IsMax next_nonce
get_nonce_next range mp addr same =
    answer (max_nonce_from addr (range mp.txs) none) (max_nonce_from-IsMax addr (range mp.txs) none)
  where
    there_too : (e : List ℕ × Tx) → Mem e mp.txs → Mem e (range mp.txs)
    there_too e m = (Perm.mem_iff (same mp.txs)).1 m

    answer :
        (r : Option ℕ)
        → IsMax addr (range mp.txs) none r
        → ((next_nonce r ≡ 0) × ((e : List ℕ × Tx) → Mem e mp.txs → e.1.from ≢ addr))
          ⊎ ((top : List ℕ × Tx) × Mem top mp.txs
              × (top.1.from ≡ addr)
              × (next_nonce r ≡ (top.1.nonce + 1) % 2 ^ 64)
              × ((e : List ℕ × Tx) → Mem e mp.txs → e.1.from ≡ addr → e.1.nonce ≤ top.1.nonce))
    answer none (i, no_one) = inl (refl, λ e m. no_one e (there_too e m))
    answer (some m) (inl e, above, all) = absurd (cc e)
    answer (some m) (inr (top, i, f, n), above, all) = inr (
      top,
      (Perm.mem_iff (same mp.txs)).0 i,
      f,
      rw n refl,
      λ e m' g. rw n (all e (there_too e m') g),
    )
