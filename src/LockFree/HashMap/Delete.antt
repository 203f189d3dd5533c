-- ===== src/LockFree/HashMap/Delete.antt =====
-- pkg/ds/lockfree/hashmap.go: what `Delete` does to the contents of the map, its order and its count.
use lock_free_p2p_go.Prelude.{
  ℕ, ◌+◌, ◌%◌, ◌^◌, ◌<◌, ◌≡◌, refl, sym, ap, ◌∙◌, List, ◌∷◌, [], ◌++◌, Bool, true, false, not, ◌&&◌,
  Option, none, some, ltb, if◌then◌else◌, arith, Bool-cases, inl, inr,
}
use lock_free_p2p_go.Bytes.{bytes_eq}
use lock_free_p2p_go.Bytes.Laws.{bytes_eq→≡}
use lock_free_p2p_go.LockFree.HashMap.{
  Node, HashMap, matches, find_position, remove, delete, marked, minus_one, add_int64,
}
use lock_free_p2p_go.LockFree.HashMap.Lookup.{
  holds, live, is_some, Ordered, matches_lem, other_key, holds-absent, edited, edited_beyond,
  edited_there, edited_other, met, find_position-split, live-append, IsMap,
}

counted :
    (b : Bool) (count after before : ℕ)
    → count ≡ before % 2 ^ 64
    → after + (if b then 1 else 0) ≡ before
    → (if b then add_int64 count minus_one else count) ≡ after % 2 ^ 64
counted true count after before e f = omega arith
counted false count after before e f = omega arith

answer :
    {V : Type 0} (b : Bool) (o : Option V) (w : V)
    → o ≡ some w
    → not b ≡ is_some (if b then none else o)
answer true o w x = refl
answer false o w x = rw x refl

module _ {V : Type 0} where
  -- The rest of the list after `Delete`, from the place on that `findPosition` found.
  abbrev removed : List ℕ → ℕ → List (Node V) → List (Node V)
  removed key hash [] = []
  removed key hash (n ∷ rest) = if matches n hash key then marked n ∷ rest else n ∷ rest

  -- Whether `Delete` marks a node.
  abbrev hit : List ℕ → ℕ → List (Node V) → Bool
  hit key hash [] = false
  hit key hash (n ∷ rest) = matches n hash key && not n.deleted

  marked_again : (n : Node V) → n.deleted ≡ true → marked n ≡ n
  marked_again n e = rw⁻¹ e refl

  live-removed :
      (key : List ℕ) (hash : ℕ) (ns : List (Node V))
      → live (removed key hash ns) + (if hit key hash ns then 1 else 0) ≡ live ns
  live-removed key hash [] = omega arith
  live-removed key hash (n ∷ rest) = elim (Bool-cases (matches n hash key)) [
    | inr other ↦ rw other (omega arith)
    | inl same ↦ elim (Bool-cases n.deleted) [
      | inl gone ↦ rw (same, gone) (omega arith)
      | inr there ↦ rw (same, there) (omega arith)
    ]
  ]

  -- A call leaves a map with these nodes and as many buckets, and answers b.
  record Leaves (m : HashMap V) (r : HashMap V × Bool) (nodes : List (Node V)) (b : Bool)
      : Type 0 where
    nodes_are : r.0.nodes ≡ nodes
    answer_is : r.1 ≡ b
    count_is : r.0.count ≡ (if b then add_int64 m.count minus_one else m.count)
    size_is : r.0.bucket_count ≡ m.bucket_count

  remove_lem :
      (m : HashMap V) (key : List ℕ) (hash : ℕ) (before rest : List (Node V))
      → before ++ rest ≡ m.nodes
      → Leaves m
          (remove m key hash before rest)
          (before ++ removed key hash rest)
          (hit key hash rest)
  unfolding remove
  remove_lem m key hash before [] e = record {
    nodes_are = sym e;
    answer_is = refl;
    count_is = refl;
    size_is = refl;
  }
  remove_lem m key hash before (n ∷ rest) e = elim (Bool-cases (matches n hash key)) [
    | inr other ↦
        rw other (record { nodes_are = sym e; answer_is = refl; count_is = refl; size_is = refl })
    | inl same ↦ elim (Bool-cases n.deleted) [
      | inl gone ↦
          let stays : before ++ marked n ∷ rest ≡ m.nodes =
            ap (λ t. before ++ t ∷ rest) (marked_again n gone) ∙ e in
          rw (same, gone)
            (record { nodes_are = sym stays; answer_is = refl; count_is = refl; size_is = refl })
      | inr there ↦
          rw (same, there)
            (record { nodes_are = refl; answer_is = refl; count_is = refl; size_is = refl })
    ]
  ]

  module _ (hash_key : List ℕ → ℕ) (key : List ℕ) where
    abbrev nodes_after : List (Node V) → List (Node V)
    nodes_after ns = edited hash_key (removed key (hash_key key)) key ns

    removed_beyond :
        (n : Node V) (ns : List (Node V))
        → n.hash ≡ hash_key n.key
        → ltb (hash_key key) n.hash ≡ true
        → nodes_after (n ∷ ns) ≡ n ∷ ns
    removed_beyond n ns h e =
        let no_match : matches n (hash_key key) key ≡ false =
          matches_lem hash_key n key h ∙ other_key hash_key n key h (ground arith) in
        edited_beyond hash_key (removed key (hash_key key)) key n ns e ∙ rw no_match refl

    removed_there :
        (n : Node V) (ns : List (Node V))
        → n.hash ≡ hash_key n.key
        → ltb (hash_key key) n.hash ≡ false
        → bytes_eq n.key key ≡ true
        → nodes_after (n ∷ ns) ≡ marked n ∷ ns
    removed_there n ns h e same =
        let match : matches n (hash_key key) key ≡ true = matches_lem hash_key n key h ∙ same in
        edited_there hash_key (removed key (hash_key key)) key n ns h e same ∙ rw match refl

    same_key :
        (b : Bool) (n : Node V) (o : Option V)
        → (if b then none else o)
          ≡ (if b then none else (if b then (if n.deleted then none else n.value) else o))
    same_key true n o = refl
    same_key false n o = refl

    holds-nodes_after :
        (least : ℕ) (ns : List (Node V)) (k : List ℕ)
        → Ordered hash_key least ns
        → holds (nodes_after ns) k ≡ (if bytes_eq key k then none else holds ns k)
    unfolding find_position
    holds-nodes_after least [] k o = elim (Bool-cases (bytes_eq key k)) [
      | inl a ↦ rw a
      | inr b ↦ rw b
    ]
    holds-nodes_after least (n ∷ ns) k (le, h, x, o) = elim (met hash_key key n) [
      | inl beyond ↦ rw (removed_beyond n ns h beyond) (elim (Bool-cases (bytes_eq key k)) [
        | inl asked ↦ rw asked (
            ap (holds (n ∷ ns)) (sym (bytes_eq→≡ key k asked))
            ∙ rw (other_key hash_key n key h (ground arith))
                (holds-absent hash_key n.hash ns key o (ground arith)))
        | inr not_asked ↦ rw not_asked
      ])
      | inr (within, inl same) ↦
          let e : bytes_eq n.key k ≡ bytes_eq key k =
            ap (λ a. bytes_eq a k) (bytes_eq→≡ n.key key same) in
          rw (removed_there n ns h within same, e) (same_key (bytes_eq key k) n (holds ns k))
      | inr (within, inr other) ↦
          rw
            (
              edited_other hash_key (removed key (hash_key key)) key n ns h within other,
              holds-nodes_after n.hash ns k o,
            )
            (elim (Bool-cases (bytes_eq key k)) [
              | inl asked ↦
                  let e : bytes_eq n.key k ≡ false =
                    ap (bytes_eq n.key) (sym (bytes_eq→≡ key k asked)) ∙ other in
                  rw (e, asked)
              | inr not_asked ↦ rw not_asked
            ])
    ]

    hit_lem :
        (least : ℕ) (ns : List (Node V))
        → Ordered hash_key least ns
        → hit key (hash_key key) (find_position ns (hash_key key) key).1 ≡ is_some (holds ns key)
    unfolding find_position
    hit_lem least [] o = refl
    hit_lem least (n ∷ ns) (le, h, (w, x), o) = elim (met hash_key key n) [
      | inl beyond ↦
          let less : hash_key key < n.hash = ground arith in
          let other = other_key hash_key n key h less in
          let no_match : matches n (hash_key key) key ≡ false =
            matches_lem hash_key n key h ∙ other in
          rw beyond (rw (no_match, other, holds-absent hash_key n.hash ns key o less) refl)
      | inr (within, inl same) ↦
          let match : matches n (hash_key key) key ≡ true = matches_lem hash_key n key h ∙ same in
          rw within (rw match (rw (match, same) (answer n.deleted n.value w x)))
      | inr (within, inr other) ↦
          let no_match : matches n (hash_key key) key ≡ false =
            matches_lem hash_key n key h ∙ other in
          rw within (rw (no_match, other) (hit_lem n.hash ns o))
    ]

    Ordered-nodes_after :
        (least : ℕ) (ns : List (Node V))
        → Ordered hash_key least ns
        → Ordered hash_key least (nodes_after ns)
    unfolding find_position
    Ordered-nodes_after least [] o = tt
    Ordered-nodes_after least (n ∷ ns) (le, h, x, o) = elim (met hash_key key n) [
      | inl beyond ↦ rw (removed_beyond n ns h beyond) (le, h, x, o)
      | inr (within, inl same) ↦ rw (removed_there n ns h within same) (le, h, x, o)
      | inr (within, inr other) ↦
          rw (edited_other hash_key (removed key (hash_key key)) key n ns h within other)
            (le, h, x, Ordered-nodes_after n.hash ns o)
    ]

  -- `Delete` on a map that satisfies the invariant, with no other goroutine at
  -- work, answers whether the key had a value. Afterwards the key has none, every other key has
  -- what it had, and the map satisfies the invariant, the count included.
  pub holds-delete :
      (hash_key : List ℕ → ℕ) (m : HashMap V) (key : List ℕ)
      → IsMap hash_key m
      → ((delete hash_key m key).1 ≡ is_some (holds m.nodes key))
        × IsMap hash_key (delete hash_key m key).0
        × ((k : List ℕ)
            → holds (delete hash_key m key).0.nodes k
              ≡ (if bytes_eq key k then none else holds m.nodes k))
  unfolding delete
  holds-delete hash_key m key i =
      let hash = hash_key key in
      let at = find_position m.nodes hash key in
      let split = find_position-split m.nodes hash key in
      let r = remove_lem m key hash at.0 at.1 split in
      let nodes = r.nodes_are in
      let lives : live (at.0 ++ removed key hash at.1) + (if hit key hash at.1 then 1 else 0)
          ≡ live m.nodes =
        omega (
          arith,
          live-append at.0 (removed key hash at.1),
          live-removed key hash at.1,
          live-append at.0 at.1,
          ap live split,
        ) in
      (
        r.answer_is ∙ hit_lem hash_key key 0 m.nodes i.ordered,
        record {
          ordered = rw nodes (Ordered-nodes_after hash_key key 0 m.nodes i.ordered);
          counts =
              r.count_is
              ∙ counted (hit key hash at.1) m.count _ _ i.counts lives
              ∙ ap (λ t. live t % 2 ^ 64) (sym nodes);
          some_buckets = omega (arith, r.size_is, i.some_buckets);
          buckets_fit = omega (arith, r.size_is, i.buckets_fit);
        },
        λ k. rw nodes (holds-nodes_after hash_key key 0 m.nodes k i.ordered),
      )
