-- ===== src/Mempool/Pool/Lowest.antt =====
-- pkg/mempool/mempool.go: the entry that removeLowestLocked finds.
use lock_free_p2p_go.Prelude.{
  ℕ, zero, suc, ◌+◌, ◌-◌, ◌^◌, ◌≤◌, ◌<◌, ◌≡◌, refl, some, List, ◌∷◌, [], length, ltb, arith,
  Bool-cases, inl, inr, get_elem?, get_elem?-some,
}
use lock_free_p2p_go.Mempool.Tx.{Tx, priority}
use lock_free_p2p_go.Mempool.Pool.{lowest_from}

module _ (now : ℕ) where
  -- No entry of the slice has a priority below p.
  abbrev pub IsLowest : List Tx → ℕ → Type 0
  IsLowest a p = (c : ℕ) (t : Tx) → get_elem? a c ≡ some t → p ≤ priority now t

  -- The scan leaves its index, or moves it to an entry of the slice, of the lowest priority.
  data Scanned (a : List Tx) (i idx p j : ℕ) : Type 0 where
    stayed : j ≡ idx → IsLowest a p → Scanned a i idx p j
    moved :
        (c : ℕ) (t : Tx)
        → j ≡ i + c
        → get_elem? a c ≡ some t
        → priority now t < p
        → IsLowest a (priority now t)
        → Scanned a i idx p j

  IsLowest-cons :
      (x : Tx) (a : List Tx) (p : ℕ) → p ≤ priority now x → IsLowest a p → IsLowest (x ∷ a) p
  IsLowest-cons x a p h l zero t e = let same : x ≡ t = cc in rw (← same) h
  IsLowest-cons x a p h l (suc c) t e = l c t e

  Scanned-lower :
      (x : Tx) (a : List Tx) (i idx p j : ℕ)
      → priority now x < p
      → Scanned a (suc i) i (priority now x) j
      → Scanned (x ∷ a) i idx p j
  Scanned-lower x a i idx p j h (stayed s l) =
      moved 0 x (omega arith) refl h (IsLowest-cons x a (priority now x) (omega arith) l)
  Scanned-lower x a i idx p j h (moved c t s e less l) =
      moved (suc c) t (omega arith) e (omega arith)
        (IsLowest-cons x a (priority now t) (omega arith) l)

  Scanned-same :
      (x : Tx) (a : List Tx) (i idx p j : ℕ)
      → p ≤ priority now x
      → Scanned a (suc i) idx p j
      → Scanned (x ∷ a) i idx p j
  Scanned-same x a i idx p j h (stayed s l) = stayed s (IsLowest-cons x a p h l)
  Scanned-same x a i idx p j h (moved c t s e less l) =
      moved (suc c) t (omega arith) e less (IsLowest-cons x a (priority now t) (omega arith) l)

  lowest_from-Scanned : (a : List Tx) (i idx p : ℕ) → Scanned a i idx p (lowest_from now a i idx p)
  unfolding lowest_from
  lowest_from-Scanned [] i idx p = stayed refl λ c t e. cc
  lowest_from-Scanned (x ∷ a) i idx p = elim (Bool-cases (ltb (priority now x) p)) [
    | inl lower ↦ rw lower (
        Scanned-lower x a i idx p _ (ground arith)
          (lowest_from-Scanned a (suc i) i (priority now x)))
    | inr same ↦
        rw same (Scanned-same x a i idx p _ (ground arith) (lowest_from-Scanned a (suc i) idx p))
  ]

  priority-lt : (t : Tx) → priority now t < 2 ^ 64
  unfolding priority
  priority-lt t = omega arith

  -- The scan of a slice that is not empty finds an entry, and none has a lower priority.
  pub lowest_from-IsLowest :
      (a : List Tx) (n : ℕ)
      → length a ≡ suc n
      → (t : Tx) × (get_elem? a (lowest_from now a 0 0 (2 ^ 64 - 1)) ≡ some t)
        × IsLowest a (priority now t)
  lowest_from-IsLowest a n size = found (lowest_from-Scanned a 0 0 (2 ^ 64 - 1))
    where
      found :
          {j : ℕ}
          → Scanned a 0 0 (2 ^ 64 - 1) j
          → (t : Tx) × (get_elem? a j ≡ some t) × IsLowest a (priority now t)
      found (stayed s l) =
          let (t, e) = get_elem?-some a 0 (omega arith) in
          (t, rw s e, λ c y f. omega (arith, l c y f, priority-lt t))
      found {j} (moved c t s e less l) = let at : j ≡ c = omega arith in (t, rw at e, l)
