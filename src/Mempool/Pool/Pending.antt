-- ===== src/Mempool/Pool/Pending.antt =====
-- pkg/mempool/mempool.go: the transactions that GetPending selects.
use lock_free_p2p_go.Prelude.{
  ℕ, zero, suc, ◌≤◌, ◌≡◌, refl, ap, ◌∙◌, true, false, some, List, ◌∷◌, [], length, arith, Perm, Mem,
  Mem-nil, length-Perm, Bool-cases, inl, inr,
}
use mathlib.Core.Bool.{Bool-set}
use mathlib.Core.HLevel.{×_prop}
use mathlib.Core.List.Perm
use mathlib.Core.List.{mem-cons, mem-cons_self, mem-cons_of_mem, not-mem-nil, Mem-prop}
use mathlib.Core.Logic.{◌∨₁◌, ∨₁_prop, ∥∥₁_elim}
use native.Mathlib.Bridge.{le_prop}
use lock_free_p2p_go.GoMap.{lookup, there}
use lock_free_p2p_go.Heap
use lock_free_p2p_go.Heap.Order.{IsHeap}
use lock_free_p2p_go.Heap.Down.{init-perm, init-IsHeap}
use lock_free_p2p_go.Heap.Operations.{pop-Takes, pop-IsHeap, pop-first}
use lock_free_p2p_go.Mempool.Tx.{Tx, priority}
use lock_free_p2p_go.Mempool.Pool.{Mempool, holds, pending_loop, pending_round, get_pending, wanted}
use lock_free_p2p_go.Mempool.Pool.Invariant.{IsPool}

module _ (now : ℕ) (mp : Mempool) where
  -- No transaction of the list comes after tx.
  abbrev pub Bounds : Tx → List Tx → Type 0
  Bounds tx a = (y : Tx) → Mem y a → priority now y ≤ priority now tx

  -- The greatest priority first.
  abbrev pub IsSorted : List Tx → Type 0
  IsSorted [] = Unit {0}
  IsSorted (tx ∷ a) = Bounds tx a × IsSorted a

  -- What is selected out of a copy of the heap, when n results are wanted.
  pub record Selects (n : ℕ) (copy result : List Tx) : Type 0 where
    pub sorted : IsSorted result
    pub enough : length result ≤ n
    pub sound : (y : Tx) → Mem y result → (holds mp y ≡ true) × Mem y copy
    pub best :
        (y : Tx)
        → holds mp y ≡ true
        → Mem y copy
        → Mem y result
          ∨₁ ((length result ≡ n) × ((z : Tx) → Mem z result → priority now y ≤ priority now z))

  Selects-none : (copy : List Tx) → Selects 0 copy []
  Selects-none copy = record {
    sorted = tt;
    enough = omega arith;
    sound = λ y m. absurd (not-mem-nil m);
    best = λ y h m. ∣ inr (refl, λ z n. absurd (not-mem-nil n)) ∣₁;
  }

  Selects-empty : (n : ℕ) (copy : List Tx) → length copy ≡ 0 → Selects n copy []
  Selects-empty n copy e = record {
    sorted = tt;
    enough = omega arith;
    sound = λ y m. absurd (not-mem-nil m);
    best = λ y h m. absurd (Mem-nil copy y e m);
  }

  -- The entry that leaves the copy is in the map: it is the first result.
  Selects-cons :
      (n : ℕ) (copy rest result : List Tx) (t : Tx)
      → Perm copy (t ∷ rest)
      → Bounds t copy
      → holds mp t ≡ true
      → Selects n rest result
      → Selects (suc n) copy (t ∷ result)
  Selects-cons n copy rest result t left first held s = record {
    sorted = (λ y m. first y (inside y (s.sound y m).1), s.sorted);
    enough = omega (arith, s.enough);
    sound = λ y m. ∥∥₁_elim (mem-cons.0 m) (×_prop (Bool-set _ _) Mem-prop) (λ c. elim c [
      | inl same ↦ (ap (holds mp) same ∙ held, (Perm.mem_iff left).1 (rw same mem-cons_self))
      | inr later ↦ ((s.sound y later).0, inside y (s.sound y later).1)
    ]);
    best = λ y h m. ∥∥₁_elim (mem-cons.0 ((Perm.mem_iff left).0 m)) ∨₁_prop (λ c. elim c [
      | inl same ↦ ∣ inl (rw same mem-cons_self) ∣₁
      | inr later ↦ ∥∥₁_elim (s.best y h later) ∨₁_prop (λ d. elim d [
        | inl chosen ↦ ∣ inl (mem-cons_of_mem t chosen) ∣₁
        | inr (full, above) ↦
            ∣ inr (
              ap suc full,
              λ z n.
                  ∥∥₁_elim (mem-cons.0 n) le_prop
                    (λ f. elim f [ inl here ↦ rw here (first y m) | inr there ↦ above z there ]),
            ) ∣₁
      ])
    ]);
  }
    where
      inside : (y : Tx) → Mem y rest → Mem y copy
      inside y m = (Perm.mem_iff left).1 (mem-cons_of_mem t m)

  -- The entry that leaves the copy is not in the map: it is passed over.
  Selects-skip :
      (n : ℕ) (copy rest result : List Tx) (t : Tx)
      → Perm copy (t ∷ rest)
      → holds mp t ≡ false
      → Selects n rest result
      → Selects n copy result
  Selects-skip n copy rest result t left gone s = record {
    sorted = s.sorted;
    enough = s.enough;
    sound = λ y m. ((s.sound y m).0, (Perm.mem_iff left).1 (mem-cons_of_mem t (s.sound y m).1));
    best = λ y h m. ∥∥₁_elim (mem-cons.0 ((Perm.mem_iff left).0 m)) ∨₁_prop (λ c. elim c [
      | inl same ↦ absurd (cc (ap (holds mp) same, h, gone))
      | inr later ↦ s.best y h later
    ]);
  }

  pending_loop-Selects :
      (k n : ℕ) (copy : List Tx)
      → length copy ≡ k
      → IsHeap (priority now) copy
      → Selects n copy (pending_loop now mp k n copy)
  unfolding pending_loop pending_round
  pending_loop-Selects zero n copy size h = Selects-empty n copy size
  pending_loop-Selects (suc k) zero copy size h = Selects-none copy
  pending_loop-Selects (suc k) (suc n) copy size h =
      let t = pop-Takes (priority now) copy k size in
      let rest = (Heap.pop (priority now) copy).1 in
      let smaller : length rest ≡ k = omega (arith, length-Perm t.left) in
      let heap = pop-IsHeap (priority now) copy k size h in
      elim (Bool-cases (holds mp t.entry)) [
        | inl held ↦
            rw (t.returned, held)
              (Selects-cons n copy rest (pending_loop now mp k n rest) t.entry t.left
                (pop-first (priority now) copy k size h) held
                (pending_loop-Selects k n rest smaller heap))
        | inr gone ↦
            rw (t.returned, gone)
              (Selects-skip (suc n) copy rest (pending_loop now mp k (suc n) rest) t.entry t.left
                gone (pending_loop-Selects k (suc n) rest smaller heap))
      ]

  -- On a pool, whatever the order of its heap: GetPending returns transactions whose hashes are in
  -- the map, in descending order of priority, and no more than the limit or, without one, than the map
  -- has. A transaction of the map that is not among them is no better than any of them, and then there
  -- are as many as wanted.
  pub get_pending-best :
      (sha256 : List ℕ → List ℕ)
      → IsPool sha256 mp
      → (limit : ℕ)
      → IsSorted (get_pending now mp limit)
        × (length (get_pending now mp limit) ≤ wanted mp limit)
        × ((y : Tx) → Mem y (get_pending now mp limit) → holds mp y ≡ true)
        × ((h : List ℕ) (y : Tx)
            → lookup mp.txs h ≡ some y
            → Mem y (get_pending now mp limit)
              ∨₁ ((length (get_pending now mp limit) ≡ wanted mp limit)
                  × ((z : Tx)
                      → Mem z (get_pending now mp limit)
                      → priority now y ≤ priority now z)))
  unfolding get_pending
  get_pending-best sha256 p limit =
      let copy = Heap.init (priority now) mp.pending in
      let same = init-perm (priority now) mp.pending in
      let s =
        pending_loop-Selects (length mp.pending) (wanted mp limit) copy (length-Perm same)
          (init-IsHeap (priority now) mp.pending) in
      (
        s.sorted,
        s.enough,
        λ y m. (s.sound y m).0,
        λ h y e. s.best y (rw (p.keyed h y e, e) refl) ((Perm.mem_iff same).1 (p.pended h y e)),
      )
