-- ===== src/LockFree/Queue/Reachable.antt =====
-- pkg/ds/lockfree/queue.go: the invariant of the whole system, by induction on reachability.
use lock_free_p2p_go.Prelude.{
  List, ℕ, ◌<◌, ◌≡◌, refl, Option, some, arith, Bool-cases, inl, inr, ◌==◌,
}
use mathlib.Core.Path.{subst}
use lock_free_p2p_go.LockFree.Queue.{
  System, Reach, begin, call, move, initial, called, moved, start, Call, enqueue, dequeue, peek,
  is_empty, Memory, Pc, enq_tail, enq_next, enq_check, enq_link, enq_help, deq_head, peek_head,
  empty_head, update,
}
use lock_free_p2p_go.LockFree.Queue.Invariant.{Inv, View, IsList, IsFresh, Knows, owned}
use lock_free_p2p_go.LockFree.Queue.Growth.{Grows}
use lock_free_p2p_go.LockFree.Queue.Growth.{Knows-Grows}
use lock_free_p2p_go.LockFree.Queue.Moves.{advance, Keeps, reads}
use lock_free_p2p_go.LockFree.Queue.Growth.{Grows}
use lock_free_p2p_go.LockFree.Queue.Steps.{step-Keeps}

abbrev pub first_view : View
first_view = record { at = λ _. 0; last = 0; front = 0; back = 0 }

some_eq : {a b : ℕ} → some a ≡ some b → a ≡ b
some_eq e = cc

module _ {V : Type 0} where
  -- The node of a goroutine is fresh until it is linked.
  owned-IsFresh :
      {m : Memory V} {g : View} (p : Pc V) (n : ℕ) → Knows m g p → owned p ≡ some n → IsFresh m g n
  owned-IsFresh {m} {g} (enq_tail a) n k e = subst (IsFresh m g) (some_eq e) k
  owned-IsFresh {m} {g} (enq_next a tl) n k e = subst (IsFresh m g) (some_eq e) k.0
  owned-IsFresh {m} {g} (enq_check a tl nx) n k e = subst (IsFresh m g) (some_eq e) k.0
  owned-IsFresh {m} {g} (enq_link a tl) n k e = subst (IsFresh m g) (some_eq e) k.0
  owned-IsFresh {m} {g} (enq_help a tl nx) n k e = subst (IsFresh m g) (some_eq e) k.0
  owned-IsFresh p n k e = cc

  -- One goroutine moves, and the others keep what they know.
  Keeps-Inv :
      {s : System V} {g : View} (i : ℕ) (m' : Memory V) (g' : View) (p' : Pc V)
      → Inv s g
      → Keeps s.mem g (s.pc i) m' g' p'
      → Inv (record { mem = m'; pc = update s.pc i p' }) g'
  Keeps-Inv {s} {g} i m' g' p' v k = record {
    list = k.list;
    knows = λ j. elim (Bool-cases (i == j)) [
      | inl self ↦ rw self k.knows
      | inr other ↦ rw other (
          Knows-Grows v.list k.grows (s.pc j) (v.knows j) (λ n e.
            k.fresh n (owned-IsFresh (s.pc j) n (v.knows j) e)
              (λ x. ground (arith, v.apart i j n x e))))
    ];
    apart = λ a b n e f. ground (arith, v.apart a b n, v.apart i b n, v.apart a i n, k.owns n);
  }

  -- The memory after Enqueue has allocated its node.
  abbrev pub allocated_node : Memory V → Option V → Memory V
  allocated_node m v = (start m (enqueue v)).0

  pub alloc-Grows : (m : Memory V) (g : View) (v : Option V) → Grows m g (allocated_node m v) g
  unfolding start
  alloc-Grows m g v = record {
    same = λ i h. refl;
    longer = omega arith;
    forward = omega arith;
    onward = omega arith;
    values = λ n h. ground arith;
  }

  pub alloc-IsFresh :
      (m : Memory V) (g : View) (v : Option V) (n : ℕ)
      → IsFresh m g n
      → IsFresh (allocated_node m v) g n
  unfolding start
  alloc-IsFresh m g v n f = record {
    known = omega (arith, f.known);
    alone = ground (arith, f.known, f.alone);
    outside = f.outside;
  }

  alloc-IsList :
      {m : Memory V} {g : View} (v : Option V) → IsList m g → IsList (allocated_node m v) g
  unfolding start
  alloc-IsList {m} {g} v l = record {
    head_at = l.head_at;
    tail_at = l.tail_at;
    ordered = l.ordered;
    within = l.within;
    near = l.near;
    linked = λ i h. ground (arith, l.linked i h, l.allocated i (omega arith));
    ends = ground (arith, l.ends, l.allocated g.last (omega arith));
    distinct = l.distinct;
    allocated = λ i h. omega (arith, l.allocated i h);
  }

  new-IsFresh :
      {m : Memory V} {g : View} (v : Option V) → IsList m g → IsFresh (allocated_node m v) g m.size
  unfolding start
  new-IsFresh {m} v l = record {
    known = omega arith;
    alone = ground arith;
    outside = λ i h e. absurd (omega (arith, l.allocated i h));
  }

  enqueue-Inv :
      {s : System V} {g : View} (i : ℕ) (v : Option V) → Inv s g → Inv (called s i (enqueue v)) g
  unfolding start
  enqueue-Inv {s} {g} i v inv = record {
    list = alloc-IsList v inv.list;
    knows = λ j. elim (Bool-cases (i == j)) [
      | inl self ↦ rw self (new-IsFresh v inv.list)
      | inr other ↦ rw other (
          Knows-Grows inv.list (alloc-Grows s.mem g v) (s.pc j) (inv.knows j)
            (λ n e. alloc-IsFresh s.mem g v n (owned-IsFresh (s.pc j) n (inv.knows j) e)))
    ];
    apart = λ a b n e f.
        let older : (j : ℕ) → owned (s.pc j) ≡ some n → n < s.mem.size =
          λ j x. (owned-IsFresh (s.pc j) n (inv.knows j) x).known in
        ground (arith, inv.apart a b n, older a, older b);
  }

  -- Any call begins in a state of the invariant.
  pub called-Inv : {s : System V} {g : View} (i : ℕ) (c : Call V) → Inv s g → Inv (called s i c) g
  unfolding start
  called-Inv i (enqueue v) inv = enqueue-Inv i v inv
  called-Inv {s} i dequeue inv =
      Keeps-Inv i s.mem _ deq_head inv (reads (s.pc i) deq_head inv.list tt (λ n e. cc))
  called-Inv {s} i peek inv =
      Keeps-Inv i s.mem _ peek_head inv (reads (s.pc i) peek_head inv.list tt (λ n e. cc))
  called-Inv {s} i is_empty inv =
      Keeps-Inv i s.mem _ empty_head inv (reads (s.pc i) empty_head inv.list tt (λ n e. cc))

  pub initial-Inv : Inv (initial {V = V}) first_view
  initial-Inv = record {
    list = record {
      head_at = refl;
      tail_at = refl;
      ordered = omega arith;
      within = omega arith;
      near = omega arith;
      linked = λ i h. absurd (omega arith);
      ends = refl;
      distinct = λ i j h k e. omega arith;
      allocated = λ i h. omega arith;
    };
    knows = λ i. tt;
    apart = λ i j n e f. cc;
  }

  pub moved-Inv :
      {s : System V} {g : View} (i : ℕ) → Inv s g → Inv (moved s i) (advance s.mem g (s.pc i))
  moved-Inv {s} i inv = Keeps-Inv i _ _ _ inv (step-Keeps (s.pc i) inv.list (inv.knows i))

  -- Every reachable state has a view in which the invariant holds.
  pub Reach-Inv :
      {ins outs : List (Option V)} {s : System V} → Reach ins outs s → (g : View) × Inv s g
  Reach-Inv begin = (first_view, initial-Inv)
  Reach-Inv (call i c rest r) = let (g, inv) = Reach-Inv r in (g, called-Inv i c inv)
  Reach-Inv (move {s = s} i r) =
      let (g, inv) = Reach-Inv r in (advance s.mem g (s.pc i), moved-Inv i inv)
