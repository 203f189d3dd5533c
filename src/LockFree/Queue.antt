-- ===== src/LockFree/Queue.antt =====
-- pkg/ds/lockfree/queue.go: the queue of Michael and Scott. Goroutines interleave one access to
-- shared memory at a time, which is the order that sync/atomic gives. A node is an address, a nil
-- pointer and a nil interface are `none`, and an address is never used again while the program runs:
-- the garbage collector frees no node that a goroutine still holds.
pub mod Invariant
pub mod Growth
pub mod Moves
pub mod Link
pub mod Steps
pub mod Reachable
pub mod Fifo
pub mod Observations
pub mod Progress
mod Tests
use lock_free_p2p_go.Prelude.{
  ℕ, suc, ◌+◌, List, ◌∷◌, [], ◌++◌, Bool, true, false, Option, none, some, ◌==◌, ◌≡◌, if◌then◌else◌,
}

-- An array of memory cells with one cell written.
abbrev pub update {ℓ} : {A : Type ℓ} → (ℕ → A) → ℕ → A → ℕ → A
update f i a j = if i == j then a else f j

-- What the goroutines share: the fields of all nodes, how many nodes there are, and the two fields of
-- `Queue`. The padding does not matter to the meaning.
pub record Memory (V : Type 0) : Type 0 where
  pub value : ℕ → Option V
  pub next : ℕ → Option ℕ
  pub size : ℕ
  pub head : ℕ
  pub tail : ℕ

-- `NewQueue`: the dummy node has address 0.
abbrev pub new_queue : {V : Type 0} → Memory V
new_queue = record { value = λ _. none; next = λ _. none; size = 1; head = 0; tail = 0 }

pub data Call (V : Type 0) : Type 0 where
  enqueue : Option V → Call V
  dequeue : Call V
  peek : Call V
  is_empty : Call V

-- Where a goroutine stands, with the local variables that are live there: before the access to shared
-- memory that the constructor is named for.
pub data Pc (V : Type 0) : Type 0 where
  idle : Pc V
  -- Enqueue, with the address of its new node first
  enq_tail : (node : ℕ) → Pc V
  enq_next : (node tail : ℕ) → Pc V
  enq_check : (node tail : ℕ) (next : Option ℕ) → Pc V
  enq_link : (node tail : ℕ) → Pc V
  enq_swing : (node tail : ℕ) → Pc V
  enq_help : (node tail next : ℕ) → Pc V
  enqueued : Pc V
  -- Dequeue
  deq_head : Pc V
  deq_tail : (head : ℕ) → Pc V
  deq_next : (head tail : ℕ) → Pc V
  deq_check : (head tail : ℕ) (next : Option ℕ) → Pc V
  deq_help : (tail next : ℕ) → Pc V
  deq_value : (head next : ℕ) → Pc V
  deq_cas : (head next : ℕ) (value : Option V) → Pc V
  dequeued : (value : Option V) (ok : Bool) → Pc V
  -- Peek
  peek_head : Pc V
  peek_next : (head : ℕ) → Pc V
  peek_value : (next : ℕ) → Pc V
  peeked : (value : Option V) (ok : Bool) → Pc V
  -- IsEmpty
  empty_head : Pc V
  empty_next : (head : ℕ) → Pc V
  answered : Bool → Pc V
  -- a nil pointer was dereferenced
  faulted : Pc V

abbrev pub is_nil : Option ℕ → Bool
is_nil none = true
is_nil (some a) = false

module _ {V : Type 0} where
  -- The goroutine is not inside an operation.
  abbrev pub at_rest : Pc V → Bool
  at_rest idle = true
  at_rest enqueued = true
  at_rest (dequeued v ok) = true
  at_rest (peeked v ok) = true
  at_rest (answered b) = true
  at_rest _ = false

  -- The beginning of a call. `Enqueue` allocates its node.
  unfoldable pub start : Memory V → Call V → Memory V × Pc V
  start m (enqueue v) = (
    record m {
      value = update m.value m.size v;
      next = update m.next m.size none;
      size = m.size + 1;
    },
    enq_tail m.size,
  )
  start m dequeue = (m, deq_head)
  start m peek = (m, peek_head)
  start m is_empty = (m, empty_head)

  -- `if next == nil` in Enqueue
  abbrev pub enq_branch : ℕ → ℕ → Option ℕ → Pc V
  enq_branch node tail none = enq_link node tail
  enq_branch node tail (some next) = enq_help node tail next

  -- `if head == tail` in Dequeue, with `if next == nil` under it
  abbrev pub deq_branch : ℕ → ℕ → Option ℕ → Pc V
  deq_branch head tail none = if head == tail then dequeued none false else faulted
  deq_branch head tail (some next) =
      if head == tail then deq_help tail next else deq_value head next

  abbrev pub peek_branch : Option ℕ → Pc V
  peek_branch none = peeked none false
  peek_branch (some next) = peek_value next

  -- `CompareAndSwapPointer(&q.tail, old, new)`
  abbrev pub cas_tail : Memory V → ℕ → ℕ → Memory V
  cas_tail m old new = if m.tail == old then record m { tail = new } else m

  -- One access to shared memory by one goroutine, and the local work up to the next one.
  unfoldable pub step : Memory V → Pc V → Memory V × Pc V
  step m (enq_tail node) = (m, enq_next node m.tail)
  step m (enq_next node tail) = (m, enq_check node tail (m.next tail))
  step m (enq_check node tail next) =
      (m, if tail == m.tail then enq_branch node tail next else enq_tail node)
  step m (enq_link node tail) =
      if is_nil (m.next tail)
      then (record m { next = update m.next tail (some node) }, enq_swing node tail)
      else (m, enq_tail node)
  step m (enq_swing node tail) = (cas_tail m tail node, enqueued)
  step m (enq_help node tail next) = (cas_tail m tail next, enq_tail node)
  step m deq_head = (m, deq_tail m.head)
  step m (deq_tail head) = (m, deq_next head m.tail)
  step m (deq_next head tail) = (m, deq_check head tail (m.next head))
  step m (deq_check head tail next) =
      (m, if head == m.head then deq_branch head tail next else deq_head)
  step m (deq_help tail next) = (cas_tail m tail next, deq_head)
  step m (deq_value head next) = (m, deq_cas head next (m.value next))
  step m (deq_cas head next value) =
      if m.head == head then (record m { head = next }, dequeued value true) else (m, deq_head)
  step m peek_head = (m, peek_next m.head)
  step m (peek_next head) = (m, peek_branch (m.next head))
  step m (peek_value next) = (m, peeked (m.value next) true)
  step m empty_head = (m, empty_next m.head)
  step m (empty_next head) = (m, answered (is_nil (m.next head)))
  step m p = (m, p)

  -- The values that a step puts into the queue: that of the node that it links.
  unfoldable pub puts : Memory V → Pc V → List (Option V)
  puts m (enq_link node tail) = if is_nil (m.next tail) then m.value node ∷ [] else []
  puts m p = []

  -- The values that a step takes out of the queue, by returning them.
  unfoldable pub takes : Memory V → Pc V → List (Option V)
  takes m (deq_cas head next value) = if m.head == head then value ∷ [] else []
  takes m p = []

-- Any number of goroutines over one queue.
pub record System (V : Type 0) : Type 0 where
  pub mem : Memory V
  pub pc : ℕ → Pc V

module _ {V : Type 0} where
  abbrev pub initial : System V
  initial = record { mem = new_queue; pc = λ _. idle }

  abbrev pub called : System V → ℕ → Call V → System V
  called s i c = record { mem = (start s.mem c).0; pc = update s.pc i (start s.mem c).1 }

  abbrev pub moved : System V → ℕ → System V
  moved s i = record { mem = (step s.mem (s.pc i)).0; pc = update s.pc i (step s.mem (s.pc i)).1 }

-- The states that some interleaving of calls reaches, with the values that were put into the queue
-- and those that were taken out, each in the order in which that happened.
pub data Reach {V : Type 0} : List (Option V) → List (Option V) → System V → Type 0 where
  begin : Reach [] [] initial
  call :
      {ins outs : List (Option V)} {s : System V} (i : ℕ) (c : Call V)
      → at_rest (s.pc i) ≡ true
      → Reach ins outs s
      → Reach ins outs (called s i c)
  move :
      {ins outs : List (Option V)} {s : System V} (i : ℕ)
      → Reach ins outs s
      → Reach (ins ++ puts s.mem (s.pc i)) (outs ++ takes s.mem (s.pc i)) (moved s i)

-- What the queue holds: the values of the nodes behind the dummy, as the pointers link them.
pub data Linked {V : Type 0} (m : Memory V) : Option ℕ → List (Option V) → Type 0 where
  stop : Linked m none []
  node : (a : ℕ) {q : List (Option V)} → Linked m (m.next a) q → Linked m (some a) (m.value a ∷ q)

abbrev pub Holds : {V : Type 0} → Memory V → List (Option V) → Type 0
Holds m q = Linked m (m.next m.head) q
