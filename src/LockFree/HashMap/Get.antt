-- ===== src/LockFree/HashMap/Get.antt =====
-- pkg/ds/lockfree/hashmap.go: what `Get` finds, what it misses, and the map after `Clear`.
use lock_free_p2p_go.Prelude.{
  ℕ, ◌<◌, ◌≡◌, ◌≢◌, refl, ap, ◌∙◌, List, ◌∷◌, [], Bool, true, false, ◌&&◌, Option, none, some, ltb,
  ◌==◌, if◌then◌else◌, arith, Bool-cases, inl, inr, map,
}
use lock_free_p2p_go.Run.{ok, ◌>>=◌}
use lock_free_p2p_go.Bytes.{bytes_eq}
use lock_free_p2p_go.Bytes.Laws.{bytes_eq_refl}
use lock_free_p2p_go.LockFree.Queue.{update}
use lock_free_p2p_go.LockFree.HashMap.{
  Node, HashMap, matches, found, walk, from_address, get, put, place, insert, maybe_update_bucket,
  find_position, new_hash_map, get_bucket, clear, marked,
}
use lock_free_p2p_go.LockFree.HashMap.Lookup.{
  holds, live, Ordered, matches_lem, other_key, holds-absent, met, IsMap, get_bucket_lt,
}

shown :
    {V : Type 0} (b : Bool) (o : Option V)
    → (if b then (none, false) else found o) ≡ found (if b then none else o)
shown true o = refl
shown false o = refl

module _ {V : Type 0} (hash_key : List ℕ → ℕ) where
  walk-holds :
      (least : ℕ) (ns : List (Node V)) (key : List ℕ)
      → Ordered hash_key least ns
      → walk ns (hash_key key) key ≡ found (holds ns key)
  unfolding walk
  walk-holds least [] key o = refl
  walk-holds least (n ∷ ns) key (le, h, (w, x), o) = elim (met hash_key key n) [
    | inl beyond ↦
        let less : hash_key key < n.hash = ground arith in
        let other = other_key hash_key n key h less in
        rw
          (
            matches_lem hash_key n key h ∙ other,
            beyond,
            other,
            holds-absent hash_key n.hash ns key o less,
          )
          refl
    | inr (within, inl same) ↦
        rw (matches_lem hash_key n key h ∙ same, same) (shown n.deleted n.value)
    | inr (within, inr other) ↦
        rw (matches_lem hash_key n key h ∙ other, within, other) (walk-holds n.hash ns key o)
  ]

  inside :
      (m : HashMap V) (hash : ℕ) → IsMap hash_key m → ltb (get_bucket m hash) m.bucket_count ≡ true
  inside m hash i = ground (arith, get_bucket_lt m hash i.some_buckets i.buckets_fit)

  -- While the bucket of a key has no pointer, `Get` starts at the dummy head and returns exactly what
  -- the map holds for the key, for a key whose hash is not the dummy's, 0.
  pub get-holds :
      (m : HashMap V) (key : List ℕ)
      → IsMap hash_key m
      → hash_key key ≢ 0
      → m.buckets (get_bucket m (hash_key key)) ≡ none
      → get hash_key m key ≡ ok (found (holds m.nodes key))
  unfolding get walk
  get-holds m key i h e =
      let hash = hash_key key in
      let no_match : (0 == hash) && bytes_eq [] key ≡ false = ground arith in
      let within : ltb hash 0 ≡ false = ground arith in
      rw (inside m hash i, e) (rw (no_match, within) (ap ok (walk-holds 0 m.nodes key i.ordered)))

  first_in_bucket :
      (m : HashMap V) (hash node : ℕ)
      → ltb (get_bucket m hash) m.bucket_count ≡ true
      → m.buckets (get_bucket m hash) ≡ none
      → maybe_update_bucket m hash node
        ≡ ok (record m { buckets = update m.buckets (get_bucket m hash) (some node) })
  unfolding maybe_update_bucket
  first_in_bucket m hash node e f = rw (e, f) refl

  later_in_bucket :
      (m : HashMap V) (hash node other : ℕ)
      → ltb (get_bucket m hash) m.bucket_count ≡ true
      → m.buckets (get_bucket m hash) ≡ some other
      → maybe_update_bucket m hash node ≡ ok m
  unfolding maybe_update_bucket
  later_in_bucket m hash node other e f = rw (e, f) refl

  -- Two keys share a bucket of a new map, and the second has the smaller hash. After a Put of the
  -- first and a Put of the second, `Get` of the second reports that it is not there, although its
  -- node is in the list with its value: `Get` starts at the bucket's node, which is that of the
  -- first key, and the node of the second stands before it.
  pub get_misses :
      (size : ℕ) (a b : List ℕ) (x y : V)
      → IsMap hash_key (new_hash_map {V = V} size)
      → get_bucket (new_hash_map {V = V} size) (hash_key a)
        ≡ get_bucket (new_hash_map {V = V} size) (hash_key b)
      → hash_key b < hash_key a
      → (m : HashMap V) × ((put hash_key (new_hash_map size) a x >>= λ m'. put hash_key m' b y)
          ≡ ok m)
        × (holds m.nodes b ≡ some y)
        × (get hash_key m b ≡ ok (none, false))
  unfolding new_hash_map put find_position place insert get walk from_address
  get_misses size a b x y i same less =
      let m = new_hash_map {V = V} size in
      let ha = hash_key a in
      let hb = hash_key b in
      let bucket = get_bucket m ha in
      let na : Node V = record {
        address = 1;
        key = a;
        value = some x;
        hash = ha;
        deleted = false;
      } in
      let nb : Node V = record {
        address = 2;
        key = b;
        value = some y;
        hash = hb;
        deleted = false;
      } in
      let m1 : HashMap V = record m {
        buckets = update m.buckets bucket (some 1);
        count = 1;
        nodes = na ∷ [];
        fresh = 2;
      } in
      let m2 : HashMap V = record m1 { count = 2; nodes = nb ∷ na ∷ []; fresh = 3 } in
      let smaller : ltb hb ha ≡ true = ground arith in
      let no_match : matches na hb b ≡ false = ground arith in
      let there : m1.buckets (get_bucket m1 hb) ≡ some 1 = ground (arith, same) in
      let first : put hash_key m a x ≡ ok m1 =
        first_in_bucket (record m { count = 1; nodes = na ∷ []; fresh = 2 }) ha 1 (inside m ha i)
          refl in
      let second : put hash_key m1 b y ≡ ok m2 =
        rw smaller (rw no_match (later_in_bucket m2 hb 2 1 (inside m hb i) there)) in
      let held : holds m2.nodes b ≡ some y = rw (bytes_eq_refl b) in
      (m2, rw first second, held, rw (inside m hb i, there) (rw (no_match, smaller) refl))

  marked-Ordered :
      (least : ℕ) (ns : List (Node V))
      → Ordered hash_key least ns
      → Ordered hash_key least (map marked ns)
  marked-Ordered least [] o = tt
  marked-Ordered least (n ∷ ns) (le, h, x, o) = (le, h, x, marked-Ordered n.hash ns o)

  marked-none :
      (ns : List (Node V)) (key : List ℕ)
      → (holds (map marked ns) key ≡ none) × (live (map marked ns) ≡ 0)
  marked-none [] key = (refl, refl)
  marked-none (n ∷ ns) key =
      let (h, l) = marked-none ns key in
      (elim (Bool-cases (bytes_eq n.key key)) [ inl same ↦ rw same | inr other ↦ rw other h ], l)

  -- After `Clear`, with no other goroutine at work, the invariant holds, the count is 0, and `Get`
  -- finds no key whose hash is not 0.
  pub get-clear :
      (m : HashMap V) (key : List ℕ)
      → IsMap hash_key m
      → hash_key key ≢ 0
      → IsMap hash_key (clear m)
        × ((clear m).count ≡ 0)
        × (get hash_key (clear m) key ≡ ok (none, false))
  unfolding clear
  get-clear m key i h =
      let cleared : IsMap hash_key (clear m) = record {
        ordered = marked-Ordered 0 m.nodes i.ordered;
        counts = omega (arith, (marked-none m.nodes key).1);
        some_buckets = i.some_buckets;
        buckets_fit = i.buckets_fit;
      } in
      (
        cleared,
        refl,
        get-holds (clear m) key cleared h refl ∙ ap (λ o. ok (found o)) (marked-none m.nodes key).0,
      )
