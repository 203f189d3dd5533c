-- ===== src/LockFree/Queue/Growth.antt =====
-- pkg/ds/lockfree/queue.go: how the list may change while a goroutine is between two steps.
use lock_free_p2p_go.Prelude.{ℕ, suc, ◌≤◌, ◌<◌, ◌≡◌, refl, sym, ◌∙◌, Option, none, some, arith}
use lock_free_p2p_go.LockFree.Queue.{
  Memory, Pc, idle, enq_tail, enq_next, enq_check, enq_link, enq_swing, enq_help, enqueued,
  deq_head, deq_tail, deq_next, deq_check, deq_help, deq_value, deq_cas, dequeued, peek_head,
  peek_next, peek_value, peeked, empty_head, empty_next, answered, faulted,
}
use lock_free_p2p_go.LockFree.Queue.Invariant.{
  View, IsList, IsFresh, UpTo, Step, Read, ReadHead, Ahead, Knows, owned,
}

module _ {V : Type 0} where
  pub record Grows (m : Memory V) (g : View) (m' : Memory V) (g' : View) : Type 0 where
    pub same : (i : ℕ) → i ≤ g.last → g'.at i ≡ g.at i
    pub longer : g.last ≤ g'.last
    pub forward : g.front ≤ g'.front
    pub onward : g.back ≤ g'.back
    pub values : (n : ℕ) → n < m.size → m'.value n ≡ m.value n

  pub Grows-refl : (m : Memory V) (g : View) → Grows m g m g
  Grows-refl m g = record {
    same = λ i h. refl;
    longer = omega arith;
    forward = omega arith;
    onward = omega arith;
    values = λ n h. refl;
  }

module _ {V : Type 0} {m m' : Memory V} {g g' : View} (l : IsList m g) (w : Grows m g m' g') where
  UpTo-grows : (k k' a : ℕ) → k ≤ g.last → k ≤ k' → UpTo g k a → UpTo g' k' a
  UpTo-grows k k' a h le (i, e, b) = (i, e ∙ sym (w.same i (omega arith)), omega arith)

  Step-grows : (k k' a b : ℕ) → k ≤ k' → Step g k a b → Step g' k' a b
  Step-grows k k' a b le (i, e, h, inside, f) = (
    i,
    e ∙ sym (w.same i (omega arith)),
    omega arith,
    omega (arith, w.longer),
    f ∙ sym (w.same (suc i) inside),
  )

  Read-grows : (a : ℕ) (nx : Option ℕ) → Read g g.back a nx → Read g' g'.back a nx
  Read-grows a none r = UpTo-grows g.back g'.back a l.within w.onward r
  Read-grows a (some b) r = Step-grows g.back g'.back a b w.onward r

  ReadHead-grows : (hd tl : ℕ) (nx : Option ℕ) → ReadHead g hd tl nx → ReadHead g' hd tl nx
  ReadHead-grows hd tl none (u, e) =
      (UpTo-grows g.front g'.front hd (omega (arith, l.ordered, l.within)) w.forward u, e)
  ReadHead-grows hd tl (some b) (i, j, e, h, f, le, k, inside, x) = (
    i,
    j,
    e ∙ sym (w.same i (omega arith)),
    omega (arith, w.forward),
    f ∙ sym (w.same j (omega (arith, l.within))),
    le,
    omega (arith, w.onward),
    omega (arith, w.longer),
    x ∙ sym (w.same (suc i) inside),
  )

  Ahead-grows : (hd b : ℕ) → Ahead g hd b → Ahead g' hd b
  Ahead-grows hd b (i, e, h, k, x) = (
    i,
    e ∙ sym (w.same i (omega (arith, l.within))),
    omega (arith, w.forward),
    omega (arith, w.onward),
    x ∙ sym (w.same (suc i) (omega (arith, l.within))),
  )

  -- The value of a node ahead of `head` stays.
  Ahead-value : (hd b : ℕ) → Ahead g hd b → m'.value b ≡ m.value b
  Ahead-value hd b (i, e, h, k, x) =
      w.values b (rw x (l.allocated (suc i) (omega (arith, l.within))))

  pub Knows-Grows :
      (p : Pc V) → Knows m g p → ((n : ℕ) → owned p ≡ some n → IsFresh m' g' n) → Knows m' g' p
  Knows-Grows idle k own = tt
  Knows-Grows (enq_tail n) k own = own n refl
  Knows-Grows (enq_next n tl) k own =
      (own n refl, UpTo-grows g.back g'.back tl l.within w.onward k.1)
  Knows-Grows (enq_check n tl nx) k own = (own n refl, Read-grows tl nx k.1)
  Knows-Grows (enq_link n tl) k own =
      (own n refl, UpTo-grows g.back g'.back tl l.within w.onward k.1)
  Knows-Grows (enq_swing n tl) k own = Step-grows g.back g'.back tl n w.onward k
  Knows-Grows (enq_help n tl nx) k own = (own n refl, Step-grows g.back g'.back tl nx w.onward k.1)
  Knows-Grows enqueued k own = tt
  Knows-Grows deq_head k own = tt
  Knows-Grows (deq_tail hd) k own =
      UpTo-grows g.front g'.front hd (omega (arith, l.ordered, l.within)) w.forward k
  Knows-Grows (deq_next hd tl) (i, j, e, h, f, le, b) own = (
    i,
    j,
    e ∙ sym (w.same i (omega (arith, l.within))),
    omega (arith, w.forward),
    f ∙ sym (w.same j (omega (arith, l.within))),
    le,
    omega (arith, w.onward),
  )
  Knows-Grows (deq_check hd tl nx) k own = ReadHead-grows hd tl nx k
  Knows-Grows (deq_help tl nx) k own = Step-grows g.back g'.back tl nx w.onward k
  Knows-Grows (deq_value hd nx) k own = Ahead-grows hd nx k
  Knows-Grows (deq_cas hd nx v) k own = (Ahead-grows hd nx k.0, k.1 ∙ sym (Ahead-value hd nx k.0))
  Knows-Grows (dequeued v b) k own = tt
  Knows-Grows peek_head k own = tt
  Knows-Grows (peek_next hd) k own =
      UpTo-grows g.front g'.front hd (omega (arith, l.ordered, l.within)) w.forward k
  Knows-Grows (peek_value nx) k own = UpTo-grows g.last g'.last nx (omega arith) w.longer k
  Knows-Grows (peeked v b) k own = tt
  Knows-Grows empty_head k own = tt
  Knows-Grows (empty_next hd) k own =
      UpTo-grows g.front g'.front hd (omega (arith, l.ordered, l.within)) w.forward k
  Knows-Grows (answered b) k own = tt
  Knows-Grows faulted k own = k
