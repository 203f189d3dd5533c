-- ===== src/LockFree/Queue/Invariant.antt =====
-- The shape of the linked list behind the queue, and what each goroutine knows of it.
use lock_free_p2p_go.Prelude.{ℕ, suc, ◌≤◌, ◌<◌, ◌≡◌, ◌≢◌, Option, none, some}
use lock_free_p2p_go.LockFree.Queue.{
  Memory, Pc, enq_tail, enq_next, enq_check, enq_link, enq_swing, enq_help, deq_tail, deq_next,
  deq_check, deq_help, deq_value, deq_cas, peek_next, peek_value, empty_next, faulted, System,
}

-- A view of the list: the address of the node at each place, from the first dummy on; the place of
-- the last node; and the places that `head` and `tail` point to.
pub record View : Type 0 where
  pub at : ℕ → ℕ
  pub last : ℕ
  pub front : ℕ
  pub back : ℕ

-- `a` is the node at a place up to `k`.
abbrev pub UpTo : View → ℕ → ℕ → Type 0
UpTo g k a = (i : ℕ) × (a ≡ g.at i) × (i ≤ k)

-- `a` and `b` are neighbours, and `a` is at a place up to `k`.
abbrev pub Step : View → ℕ → ℕ → ℕ → Type 0
Step g k a b = (i : ℕ) × (a ≡ g.at i) × (i ≤ k) × (i < g.last) × (b ≡ g.at (suc i))

-- What was read from the `next` field of `a`: a pointer to a neighbour, if it was no nil.
abbrev pub Read : View → ℕ → ℕ → Option ℕ → Type 0
Read g k a none = UpTo g k a
Read g k a (some b) = Step g k a b

-- What was read by Dequeue. A nil means that `head` and `tail` were one node.
abbrev pub ReadHead : View → ℕ → ℕ → Option ℕ → Type 0
ReadHead g hd tl none = UpTo g g.front hd × (hd ≡ tl)
ReadHead g hd tl (some b) =
    (i j : ℕ) × (hd ≡ g.at i)
    × (i ≤ g.front)
    × (tl ≡ g.at j)
    × (i ≤ j)
    × (j ≤ g.back)
    × (i < g.last)
    × (b ≡ g.at (suc i))

-- `hd` is at a place before `back`, and `b` is its neighbour.
abbrev pub Ahead : View → ℕ → ℕ → Type 0
Ahead g hd b = (i : ℕ) × (hd ≡ g.at i) × (i ≤ g.front) × (i < g.back) × (b ≡ g.at (suc i))

module _ {V : Type 0} where
  pub record IsList (m : Memory V) (g : View) : Type 0 where
    pub head_at : m.head ≡ g.at g.front
    pub tail_at : m.tail ≡ g.at g.back
    pub ordered : g.front ≤ g.back
    pub within : g.back ≤ g.last
    pub near : g.last ≤ suc g.back
    pub linked : (i : ℕ) → i < g.last → m.next (g.at i) ≡ some (g.at (suc i))
    pub ends : m.next (g.at g.last) ≡ none
    pub distinct : (i j : ℕ) → i ≤ g.last → j ≤ g.last → g.at i ≡ g.at j → i ≡ j
    pub allocated : (i : ℕ) → i ≤ g.last → g.at i < m.size

  -- A node that its goroutine has not linked yet.
  pub record IsFresh (m : Memory V) (g : View) (n : ℕ) : Type 0 where
    pub known : n < m.size
    pub alone : m.next n ≡ none
    pub outside : (i : ℕ) → i ≤ g.last → g.at i ≢ n

  -- What a goroutine's local variables say about the list.
  abbrev pub Knows : Memory V → View → Pc V → Type 0
  Knows m g (enq_tail n) = IsFresh m g n
  Knows m g (enq_next n tl) = IsFresh m g n × UpTo g g.back tl
  Knows m g (enq_check n tl nx) = IsFresh m g n × Read g g.back tl nx
  Knows m g (enq_link n tl) = IsFresh m g n × UpTo g g.back tl
  Knows m g (enq_swing n tl) = Step g g.back tl n
  Knows m g (enq_help n tl nx) = IsFresh m g n × Step g g.back tl nx
  Knows m g (deq_tail hd) = UpTo g g.front hd
  Knows m g (deq_next hd tl) =
      (i j : ℕ) × (hd ≡ g.at i) × (i ≤ g.front) × (tl ≡ g.at j) × (i ≤ j) × (j ≤ g.back)
  Knows m g (deq_check hd tl nx) = ReadHead g hd tl nx
  Knows m g (deq_help tl nx) = Step g g.back tl nx
  Knows m g (deq_value hd nx) = Ahead g hd nx
  Knows m g (deq_cas hd nx v) = Ahead g hd nx × (v ≡ m.value nx)
  Knows m g (peek_next hd) = UpTo g g.front hd
  Knows m g (peek_value nx) = UpTo g g.last nx
  Knows m g (empty_next hd) = UpTo g g.front hd
  Knows m g faulted = ⊥
  Knows m g _ = Unit {0}

  -- The node that a goroutine has allocated and not linked.
  abbrev pub owned : Pc V → Option ℕ
  owned (enq_tail n) = some n
  owned (enq_next n tl) = some n
  owned (enq_check n tl nx) = some n
  owned (enq_link n tl) = some n
  owned (enq_help n tl nx) = some n
  owned _ = none

  pub record Inv (s : System V) (g : View) : Type 0 where
    pub list : IsList s.mem g
    pub knows : (i : ℕ) → Knows s.mem g (s.pc i)
    pub apart : (i j n : ℕ) → owned (s.pc i) ≡ some n → owned (s.pc j) ≡ some n → i ≡ j
