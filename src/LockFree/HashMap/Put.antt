-- ===== src/LockFree/HashMap/Put.antt =====
-- pkg/ds/lockfree/hashmap.go: what `Put` does to the contents of the map, its order and its count.
use lock_free_p2p_go.Prelude.{
  ℕ, ◌+◌, ◌%◌, ◌^◌, ◌≤◌, ◌<◌, ◌≡◌, refl, sym, ap, ◌∙◌, List, ◌∷◌, [], ◌++◌, Bool, true, false,
  Option, none, some, ltb, if◌then◌else◌, arith, Bool-cases, inl, inr,
}
use lock_free_p2p_go.Run.{Run, ok, panic}
use lock_free_p2p_go.Bytes.{bytes_eq}
use lock_free_p2p_go.Bytes.Laws.{bytes_eq→≡}
use lock_free_p2p_go.LockFree.HashMap.{
  Node, HashMap, matches, find_position, place, insert, put, maybe_update_bucket, get_bucket,
  add_int64,
}
use lock_free_p2p_go.LockFree.HashMap.Lookup.{
  holds, live, Ordered, matches_lem, other_key, edited, edited_beyond, edited_there, edited_other,
  met, find_position-split, live-append, IsMap, get_bucket_lt,
}

counted :
    (b : Bool) (count : ℕ)
    → count < 2 ^ 64
    → (if b then add_int64 count 1 else count) ≡ (count + (if b then 1 else 0)) % 2 ^ 64
counted true count c = refl
counted false count c = omega arith

module _ {V : Type 0} where
  abbrev pub new_node : ℕ → List ℕ → ℕ → V → Node V
  new_node fresh key hash v = record {
    address = fresh;
    key = key;
    value = some v;
    hash = hash;
    deleted = false;
  }

  -- The rest of the list after `Put`, from the place on that `findPosition` found.
  abbrev pub settled : ℕ → List ℕ → ℕ → V → List (Node V) → List (Node V)
  settled fresh key hash v [] = new_node fresh key hash v ∷ []
  settled fresh key hash v (n ∷ rest) =
      if matches n hash key
      then record n { value = some v; deleted = false } ∷ rest
      else new_node fresh key hash v ∷ n ∷ rest

  -- What `Put` adds to the count.
  abbrev growth : List ℕ → ℕ → List (Node V) → ℕ
  growth key hash [] = 1
  growth key hash (n ∷ rest) = if matches n hash key then (if n.deleted then 1 else 0) else 1

  live-settled :
      (fresh : ℕ) (key : List ℕ) (hash : ℕ) (v : V) (ns : List (Node V))
      → live (settled fresh key hash v ns) ≡ live ns + growth key hash ns
  live-settled fresh key hash v [] = omega arith
  live-settled fresh key hash v (n ∷ rest) = elim (Bool-cases (matches n hash key)) [
    | inr other ↦ rw other (omega arith)
    | inl same ↦ elim (Bool-cases n.deleted) [
      | inl gone ↦ rw (same, gone) (omega arith)
      | inr there ↦ rw (same, there) (omega arith)
    ]
  ]

  -- A call returns a map with these nodes and this count, and as many buckets as before.
  record Returns (m : HashMap V) (r : Run (HashMap V)) (nodes : List (Node V)) (count : ℕ)
      : Type 0 where
    after : HashMap V
    returned : r ≡ ok after
    nodes_are : after.nodes ≡ nodes
    count_is : after.count ≡ count % 2 ^ 64
    size_is : after.bucket_count ≡ m.bucket_count

  if_ok : (b : Bool) (m : HashMap V) → b ≡ true → (if b then ok m else panic) ≡ ok m
  if_ok b m e = rw e refl

  module _ (m : HashMap V) (key : List ℕ) (hash : ℕ) (v : V) (before : List (Node V)) where
    insert_lem :
        (rest : List (Node V))
        → ltb (get_bucket m hash) m.bucket_count ≡ true
        → Returns m
            (insert m key hash v before rest)
            (before ++ new_node m.fresh key hash v ∷ rest)
            (m.count + 1)
    unfolding insert maybe_update_bucket
    insert_lem rest e = record {
      after = _;
      returned = if_ok _ _ e;
      nodes_are = refl;
      count_is = refl;
      size_is = refl;
    }

    place_lem :
        (rest : List (Node V))
        → m.count < 2 ^ 64
        → ltb (get_bucket m hash) m.bucket_count ≡ true
        → Returns m
            (place m key hash v before rest)
            (before ++ settled m.fresh key hash v rest)
            (m.count + growth key hash rest)
    unfolding place
    place_lem [] c e = insert_lem [] e
    place_lem (n ∷ rest) c e = elim (Bool-cases (matches n hash key)) [
      | inr other ↦ rw other (insert_lem (n ∷ rest) e)
      | inl same ↦
          let done : HashMap V = record m {
            nodes = before ++ record n { value = some v; deleted = false } ∷ rest;
            count = if n.deleted then add_int64 m.count 1 else m.count;
          } in
          rw same (record {
            after = done;
            returned = refl;
            nodes_are = refl;
            count_is = counted n.deleted m.count c;
            size_is = refl;
          })
    ]

  same_key :
      (b : Bool) (n : Node V) (v : V) (o : Option V)
      → (if b then some v else o)
        ≡ (if b then some v else (if b then (if n.deleted then none else n.value) else o))
  same_key true n v o = refl
  same_key false n v o = refl

  module _ (hash_key : List ℕ → ℕ) (key : List ℕ) (v : V) (fresh : ℕ) where
    abbrev nodes_after : List (Node V) → List (Node V)
    nodes_after ns = edited hash_key (settled fresh key (hash_key key) v) key ns

    settled_beyond :
        (n : Node V) (ns : List (Node V))
        → n.hash ≡ hash_key n.key
        → ltb (hash_key key) n.hash ≡ true
        → nodes_after (n ∷ ns) ≡ new_node fresh key (hash_key key) v ∷ n ∷ ns
    settled_beyond n ns h e =
        let no_match : matches n (hash_key key) key ≡ false =
          matches_lem hash_key n key h ∙ other_key hash_key n key h (ground arith) in
        edited_beyond hash_key (settled fresh key (hash_key key) v) key n ns e ∙ rw no_match refl

    settled_there :
        (n : Node V) (ns : List (Node V))
        → n.hash ≡ hash_key n.key
        → ltb (hash_key key) n.hash ≡ false
        → bytes_eq n.key key ≡ true
        → nodes_after (n ∷ ns) ≡ record n { value = some v; deleted = false } ∷ ns
    settled_there n ns h e same =
        let match : matches n (hash_key key) key ≡ true = matches_lem hash_key n key h ∙ same in
        edited_there hash_key (settled fresh key (hash_key key) v) key n ns h e same ∙ rw match refl

    holds-nodes_after :
        (least : ℕ) (ns : List (Node V)) (k : List ℕ)
        → Ordered hash_key least ns
        → holds (nodes_after ns) k ≡ (if bytes_eq key k then some v else holds ns k)
    unfolding find_position
    holds-nodes_after least [] k o = refl
    holds-nodes_after least (n ∷ ns) k (le, h, x, o) = elim (met hash_key key n) [
      | inl beyond ↦ rw (settled_beyond n ns h beyond)
      | inr (within, inl same) ↦
          let e : bytes_eq n.key k ≡ bytes_eq key k =
            ap (λ a. bytes_eq a k) (bytes_eq→≡ n.key key same) in
          rw (settled_there n ns h within same, e) (same_key (bytes_eq key k) n v (holds ns k))
      | inr (within, inr other) ↦
          rw
            (
              edited_other hash_key (settled fresh key (hash_key key) v) key n ns h within other,
              holds-nodes_after n.hash ns k o,
            )
            (elim (Bool-cases (bytes_eq key k)) [
              | inl asked ↦
                  let e : bytes_eq n.key k ≡ false =
                    ap (bytes_eq n.key) (sym (bytes_eq→≡ key k asked)) ∙ other in
                  rw (e, asked)
              | inr not_asked ↦ rw not_asked
            ])
    ]

    Ordered-nodes_after :
        (least : ℕ) (ns : List (Node V))
        → Ordered hash_key least ns
        → least ≤ hash_key key
        → Ordered hash_key least (nodes_after ns)
    unfolding find_position
    Ordered-nodes_after least [] o le = (le, refl, (v, refl), tt)
    Ordered-nodes_after least (n ∷ ns) (le, h, x, o) m = elim (met hash_key key n) [
      | inl beyond ↦
          let less : hash_key key < n.hash = ground arith in
          rw (settled_beyond n ns h beyond) (m, refl, (v, refl), (omega arith, h, x, o))
      | inr (within, inl same) ↦ rw (settled_there n ns h within same) (le, h, (v, refl), o)
      | inr (within, inr other) ↦
          rw (edited_other hash_key (settled fresh key (hash_key key) v) key n ns h within other)
            (le, h, x, Ordered-nodes_after n.hash ns o (ground arith))
    ]

  -- `Put` on a map that satisfies the invariant, with no other goroutine at work, returns without a
  -- panic. Afterwards the key has the new value, every other key has what it had, whether the key
  -- was new, there, or deleted before, and the map satisfies the invariant: the list is in order
  -- and the count is the number of nodes that are not marked (modulo 2^64).
  pub holds-put :
      (hash_key : List ℕ → ℕ) (m : HashMap V) (key : List ℕ) (v : V)
      → IsMap hash_key m
      → (m' : HashMap V) × (put hash_key m key v ≡ ok m')
        × IsMap hash_key m'
        × ((k : List ℕ) → holds m'.nodes k ≡ (if bytes_eq key k then some v else holds m.nodes k))
  unfolding put
  holds-put hash_key m key v i =
      let hash = hash_key key in
      let at = find_position m.nodes hash key in
      let inside : ltb (get_bucket m hash) m.bucket_count ≡ true =
        ground (arith, get_bucket_lt m hash i.some_buckets i.buckets_fit) in
      let r = place_lem m key hash v at.0 at.1 (omega (arith, i.counts)) inside in
      let nodes = r.nodes_are in
      let size = r.size_is in
      let lives : live r.after.nodes ≡ live m.nodes + growth key hash at.1 =
        ap live nodes
        ∙ live-append at.0 _
        ∙ ap (◌+◌ (live at.0)) (live-settled m.fresh key hash v at.1)
        ∙ omega (arith, live-append at.0 at.1, ap live (find_position-split m.nodes hash key)) in
      (
        r.after,
        r.returned,
        record {
          ordered =
              rw nodes
                (Ordered-nodes_after hash_key key v m.fresh 0 m.nodes i.ordered (omega arith));
          counts = omega (arith, r.count_is, lives, i.counts);
          some_buckets = omega (arith, size, i.some_buckets);
          buckets_fit = omega (arith, size, i.buckets_fit);
        },
        λ k. rw nodes (holds-nodes_after hash_key key v m.fresh 0 m.nodes k i.ordered),
      )
