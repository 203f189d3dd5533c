-- ===== src/LockFree/HashMap/Lookup.antt =====
-- pkg/ds/lockfree/hashmap.go: what the map holds for a key, and the invariant of its list.
use lock_free_p2p_go.Prelude.{
  ℕ, zero, suc, ◌+◌, ◌-◌, ◌/◌, ◌%◌, ◌^◌, ◌≤◌, ◌<◌, ◌≡◌, refl, ap, ◌∙◌, List, ◌∷◌, [], ◌++◌, Bool,
  true, false, Option, none, some, ltb, if◌then◌else◌, arith, Bool-cases, inl, inr, ◌⊎◌,
}
use lock_free_p2p_go.Bytes.{bytes_eq}
use lock_free_p2p_go.Bytes.Laws.{bytes_eq→≡}
use Prim.Native.Nat.{bit_and-bitwise, digits, min}
use lock_free_p2p_go.LockFree.HashMap.{Node, HashMap, matches, find_position, get_bucket}

module _ {V : Type 0} where
  -- The value of the first node with the key, unless that node is marked as deleted.
  abbrev pub holds : List (Node V) → List ℕ → Option V
  holds [] key = none
  holds (n ∷ ns) key =
      let later = holds ns key in
      if bytes_eq n.key key then (if n.deleted then none else n.value) else later

  -- The number of nodes that are not marked.
  abbrev pub live : List (Node V) → ℕ
  live [] = 0
  live (n ∷ ns) = if n.deleted then live ns else suc (live ns)

  abbrev pub is_some : Option V → Bool
  is_some none = false
  is_some (some v) = true

  module _ (hash_key : List ℕ → ℕ) where
    -- The hashes do not decrease along the list, from a least one on; each is that of the node's
    -- key; and no value pointer is nil.
    abbrev pub Ordered : ℕ → List (Node V) → Type 0
    Ordered least [] = Unit {0}
    Ordered least (n ∷ ns) =
        (least ≤ n.hash)
        × (n.hash ≡ hash_key n.key)
        × ((v : V) × (n.value ≡ some v))
        × Ordered n.hash ns

    pub matches_lem :
        (n : Node V) (key : List ℕ)
        → n.hash ≡ hash_key n.key
        → matches n (hash_key key) key ≡ bytes_eq n.key key
    matches_lem n key h = elim (Bool-cases (bytes_eq n.key key)) [
      | inl same ↦
          let e : n.hash ≡ hash_key key = h ∙ ap hash_key (bytes_eq→≡ n.key key same) in
          ground arith
      | inr other ↦ ground arith
    ]

    -- A key with a smaller hash than all nodes has no node.
    pub other_key :
        (n : Node V) (key : List ℕ)
        → n.hash ≡ hash_key n.key
        → hash_key key < n.hash
        → bytes_eq n.key key ≡ false
    other_key n key h less = elim (Bool-cases (bytes_eq n.key key)) [
      | inl same ↦ absurd (omega (arith, h, ap hash_key (bytes_eq→≡ n.key key same)))
      | inr other ↦ other
    ]

    pub holds-absent :
        (least : ℕ) (ns : List (Node V)) (key : List ℕ)
        → Ordered least ns
        → hash_key key < least
        → holds ns key ≡ none
    holds-absent least [] key o less = refl
    holds-absent least (n ∷ ns) key (le, h, v, o) less =
        rw (other_key n key h (omega arith)) (holds-absent n.hash ns key o (omega arith))

    -- The list with the part from the place that `findPosition` finds changed.
    abbrev pub edited : (List (Node V) → List (Node V)) → List ℕ → List (Node V) → List (Node V)
    edited f key ns = let at = find_position ns (hash_key key) key in at.0 ++ f at.1

    -- A node lies beyond the key's place, has the key, or lies before the key's place.
    abbrev pub Met : List ℕ → Node V → Type 0
    Met key n =
        (ltb (hash_key key) n.hash ≡ true)
        ⊎ ((ltb (hash_key key) n.hash ≡ false)
            × ((bytes_eq n.key key ≡ true) ⊎ (bytes_eq n.key key ≡ false)))

    pub met : (key : List ℕ) (n : Node V) → Met key n
    met key n = elim (Bool-cases (ltb (hash_key key) n.hash)) [
      | inl beyond ↦ inl beyond
      | inr within ↦ inr (within, Bool-cases (bytes_eq n.key key))
    ]

    module _ (f : List (Node V) → List (Node V)) (key : List ℕ) (n : Node V)
        (ns : List (Node V)) where
      pub edited_beyond : ltb (hash_key key) n.hash ≡ true → edited f key (n ∷ ns) ≡ f (n ∷ ns)
      unfolding find_position
      edited_beyond e = rw e refl

      pub edited_there :
          n.hash ≡ hash_key n.key
          → ltb (hash_key key) n.hash ≡ false
          → bytes_eq n.key key ≡ true
          → edited f key (n ∷ ns) ≡ f (n ∷ ns)
      unfolding find_position
      edited_there h e same =
          let match : matches n (hash_key key) key ≡ true = matches_lem n key h ∙ same in
          rw e (rw match refl)

      pub edited_other :
          n.hash ≡ hash_key n.key
          → ltb (hash_key key) n.hash ≡ false
          → bytes_eq n.key key ≡ false
          → edited f key (n ∷ ns) ≡ n ∷ edited f key ns
      unfolding find_position
      edited_other h e other =
          let no_match : matches n (hash_key key) key ≡ false = matches_lem n key h ∙ other in
          rw e (rw no_match refl)

  pub find_position-split :
      (ns : List (Node V)) (hash : ℕ) (key : List ℕ)
      → (find_position ns hash key).0 ++ (find_position ns hash key).1 ≡ ns
  unfolding find_position
  find_position-split [] hash key = refl
  find_position-split (n ∷ ns) hash key = elim (Bool-cases (ltb hash n.hash)) [
    | inl beyond ↦ rw beyond refl
    | inr within ↦ elim (Bool-cases (matches n hash key)) [
      | inl same ↦ rw (within, same) refl
      | inr other ↦ rw (within, other) (ap (◌∷◌ n) (find_position-split ns hash key))
    ]
  ]

  pub live-append : (xs ys : List (Node V)) → live (xs ++ ys) ≡ live xs + live ys
  live-append [] ys = omega arith
  live-append (n ∷ xs) ys = elim (Bool-cases n.deleted) [
    | inl gone ↦ rw gone (live-append xs ys)
    | inr there ↦ rw there (omega (arith, live-append xs ys))
  ]

  -- Every bucket index is inside the array, the list is in order, and the count is right.
  pub record IsMap (hash_key : List ℕ → ℕ) (m : HashMap V) : Type 0 where
    pub ordered : Ordered hash_key 0 m.nodes
    pub counts : m.count ≡ live m.nodes % 2 ^ 64
    pub some_buckets : 0 < m.bucket_count
    pub buckets_fit : m.bucket_count < 2 ^ 32

bit_and_le : (k a b : ℕ) → digits (λ b. 0) min k a b ≤ b
bit_and_le zero a b = omega arith
bit_and_le (suc k) zero b = omega arith
bit_and_le (suc k) (suc a) b = omega (arith, bit_and_le k (suc a / 2) (b / 2))

pub get_bucket_lt :
    {V : Type 0} (m : HashMap V) (hash : ℕ)
    → 0 < m.bucket_count
    → m.bucket_count < 2 ^ 32
    → get_bucket m hash < m.bucket_count
get_bucket_lt m hash h k =
    let mask = (m.bucket_count + (2 ^ 32 - 1)) % 2 ^ 32 in
    let le : get_bucket m hash ≤ mask =
      rw (bit_and-bitwise (hash % 2 ^ 32) mask) (bit_and_le (hash % 2 ^ 32) (hash % 2 ^ 32) mask) in
    omega (arith, le)
