-- ===== src/LockFree/HashMap.antt =====
-- pkg/ds/lockfree/hashmap.go: one list of nodes sorted by hash, and an array of pointers into it.
-- One goroutine works at a time here, so each compare-and-swap finds what the goroutine has read.
-- The linked list behind the dummy head is the list of its nodes, and a pointer to a node is the
-- node's address. FNV-1a is Go's hash/fnv: the parameter `hash_key`. A string is its bytes.
pub mod Lookup
pub mod Put
pub mod Delete
pub mod Get
pub mod Refinement
mod Tests
use lock_free_p2p_go.Prelude.{
  ℕ, ◌+◌, ◌-◌, ◌/◌, ◌%◌, ◌^◌, ◌==◌, List, ◌∷◌, [], ◌++◌, Bool, true, false, not, ◌&&◌, Option, none,
  some, ltb, if◌then◌else◌, map,
}
use Prim.Native.Nat.{bit_and, bit_or}
use lock_free_p2p_go.Run.{Run, ok, panic, ◌>>=◌}
use lock_free_p2p_go.Bytes.{bytes_eq}
use lock_free_p2p_go.LockFree.Queue.{update}

-- `hashNode`, without its `next` field. A nil value pointer is `none`.
pub record Node (V : Type 0) : Type 0 where
  pub address : ℕ
  pub key : List ℕ
  pub value : Option V
  pub hash : ℕ  -- uint64
  pub deleted : Bool

-- `fresh` is an address that no node has.
pub record HashMap (V : Type 0) : Type 0 where
  pub buckets : ℕ → Option ℕ
  pub bucket_count : ℕ  -- uint32, the length of the array
  pub count : ℕ  -- int64, in two's complement
  pub nodes : List (Node V)
  pub fresh : ℕ

-- uint32 arithmetic
abbrev or_shifted : ℕ → ℕ → ℕ
or_shifted n k = bit_or n (n / 2 ^ k)

unfoldable pub next_power_of_2 : ℕ → ℕ
next_power_of_2 n =
    if n == 0
    then 1
    else (or_shifted (or_shifted (or_shifted (or_shifted (or_shifted (n - 1) 1) 2) 4) 8) 16 + 1)
      % 2 ^ 32

-- `atomic.AddInt64`
abbrev pub add_int64 : ℕ → ℕ → ℕ
add_int64 c d = (c + d) % 2 ^ 64

abbrev pub minus_one : ℕ
minus_one = 2 ^ 64 - 1

-- The rest of the list from the node at an address on.
unfoldable pub from_address : {V : Type 0} → ℕ → List (Node V) → List (Node V)
from_address a [] = []
from_address a (n ∷ ns) = let rest = from_address a ns in if n.address == a then n ∷ ns else rest

module _ {V : Type 0} where
  unfoldable pub new_hash_map : ℕ → HashMap V
  new_hash_map bucket_count = record {
    buckets = λ _. none;
    bucket_count = next_power_of_2 (if bucket_count == 0 then 64 else bucket_count);
    count = 0;
    nodes = [];
    fresh = 1;
  }

  -- The dummy head node.
  abbrev pub dummy : Node V
  dummy = record { address = 0; key = []; value = none; hash = 0; deleted = false }

  abbrev pub get_bucket : HashMap V → ℕ → ℕ
  get_bucket m hash = bit_and (hash % 2 ^ 32) ((m.bucket_count + (2 ^ 32 - 1)) % 2 ^ 32)

  -- `hash == curr.hash && curr.key == key`
  abbrev pub matches : Node V → ℕ → List ℕ → Bool
  matches n hash key = n.hash == hash && bytes_eq n.key key

  -- The nodes before `curr`, and `curr` with those behind it (none if `curr` is nil).
  unfoldable pub find_position : List (Node V) → ℕ → List ℕ → List (Node V) × List (Node V)
  find_position [] hash key = ([], [])
  find_position (n ∷ ns) hash key =
      let later = find_position ns hash key in
      if ltb hash n.hash
      then ([], n ∷ ns)
      else (if matches n hash key then ([], n ∷ ns) else (n ∷ later.0, later.1))

  -- `*valPtr, true`, for a pointer that is not nil
  abbrev pub found : Option V → Option V × Bool
  found none = (none, false)
  found (some v) = (some v, true)

  -- The loop of `Get`.
  unfoldable pub walk : List (Node V) → ℕ → List ℕ → Option V × Bool
  walk [] hash key = (none, false)
  walk (n ∷ ns) hash key =
      let later = walk ns hash key in
      if matches n hash key
      then (if n.deleted then (none, false) else found n.value)
      else (if ltb hash n.hash then (none, false) else later)

  -- The nodes that `Get` walks through: from the bucket's node on, or from the dummy head on.
  abbrev pub entry : Option ℕ → List (Node V) → List (Node V)
  entry (some a) ns = from_address a ns
  entry none ns = dummy ∷ ns

  -- `maybeUpdateBucket`; an index beyond the array panics.
  unfoldable pub maybe_update_bucket : HashMap V → ℕ → ℕ → Run (HashMap V)
  maybe_update_bucket m hash node =
      let i = get_bucket m hash in
      if ltb i m.bucket_count then ok (record m { buckets = fill i (m.buckets i) }) else panic
    where
      fill : ℕ → Option ℕ → ℕ → Option ℕ
      fill i none = update m.buckets i (some node)
      fill i (some a) = m.buckets

  -- `Put`, for a key that has no node.
  unfoldable pub insert :
      HashMap V → List ℕ → ℕ → V → List (Node V) → List (Node V) → Run (HashMap V)
  insert m key hash v before rest =
      let n : Node V = record {
        address = m.fresh;
        key = key;
        value = some v;
        hash = hash;
        deleted = false;
      } in
      maybe_update_bucket
        (record m { nodes = before ++ n ∷ rest; count = add_int64 m.count 1; fresh = m.fresh + 1 })
        hash m.fresh

  -- `Put`, after `findPosition`.
  unfoldable pub place :
      HashMap V → List ℕ → ℕ → V → List (Node V) → List (Node V) → Run (HashMap V)
  place m key hash v before [] = insert m key hash v before []
  place m key hash v before (n ∷ rest) =
      let node_there = record n { value = some v; deleted = false } in
      if matches n hash key
      then ok (record m {
        nodes = before ++ node_there ∷ rest;
        count = if n.deleted then add_int64 m.count 1 else m.count;
      })
      else insert m key hash v before (n ∷ rest)

  -- `Delete`, after `findPosition`: the map afterwards and the answer.
  unfoldable pub remove : HashMap V → List ℕ → ℕ → List (Node V) → List (Node V) → HashMap V × Bool
  remove m key hash before [] = (m, false)
  remove m key hash before (n ∷ rest) =
      if matches n hash key && not n.deleted
      then (
        record m {
          nodes = before ++ record n { deleted = true } ∷ rest;
          count = add_int64 m.count minus_one;
        },
        true,
      )
      else (m, false)

  pub len : HashMap V → ℕ
  len m = m.count

  -- The calls of `fn` in `Range`, for one that never returns false.
  unfoldable pub range : List (Node V) → List (List ℕ × V)
  range [] = []
  range (n ∷ ns) = visit n.deleted n.value (range ns)
    where
      visit : Bool → Option V → List (List ℕ × V) → List (List ℕ × V)
      visit false (some v) calls = (n.key, v) ∷ calls
      visit _ _ calls = calls

  abbrev pub marked : Node V → Node V
  marked n = record n { deleted = true }

  unfoldable pub clear : HashMap V → HashMap V
  clear m = record m { nodes = map marked m.nodes; count = 0; buckets = λ _. none }

  module _ (hash_key : List ℕ → ℕ) where
    unfoldable pub get : HashMap V → List ℕ → Run (Option V × Bool)
    get m key =
        let hash = hash_key key in
        let i = get_bucket m hash in
        if ltb i m.bucket_count then ok (walk (entry (m.buckets i) m.nodes) hash key) else panic

    pub has : HashMap V → List ℕ → Run Bool
    has m key = get m key >>= λ r. ok r.1

    unfoldable pub put : HashMap V → List ℕ → V → Run (HashMap V)
    put m key v =
        let at = find_position m.nodes (hash_key key) key in place m key (hash_key key) v at.0 at.1

    unfoldable pub delete : HashMap V → List ℕ → HashMap V × Bool
    delete m key =
        let at = find_position m.nodes (hash_key key) key in remove m key (hash_key key) at.0 at.1
