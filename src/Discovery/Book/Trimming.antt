-- ===== src/Discovery/Book/Trimming.antt =====
-- pkg/discovery/seed.go: trimOldestPeersLocked.
use lock_free_p2p_go.Prelude.{
  ℕ, zero, suc, ◌≤◌, ◌<◌, ◌≡◌, ◌⊎◌, refl, ◌∙◌, sym, true, false, Option, none, some, List, ◌∷◌, [],
  length, ltb, if◌then◌else◌, Bool-cases, inl, inr, arith, All,
}
use mathlib.Core.List.{Permᴰ, Memᴰ}
use mathlib.Core.List.Permᴰ as Permᴰ
use lock_free_p2p_go.Bytes.{bytes_eq}
use lock_free_p2p_go.Bytes.Laws.{bytes_eq→≡}
use lock_free_p2p_go.GoMap.{lookup, erase}
use lock_free_p2p_go.GoMap.Laws.{lookup-erase, erase-some}
use lock_free_p2p_go.GoMap.Keys.{IsMap, IsMap-erase, length-erase}
use lock_free_p2p_go.GoMap.Orders.{perm-SameMap}
use lock_free_p2p_go.GoMap.Sweep.{IsWithin, IsWithin-itself, IsWithin-same}
use lock_free_p2p_go.Peer.Manager.{is_empty_string}
use lock_free_p2p_go.Discovery.{PeerInfo}
use lock_free_p2p_go.Discovery.Book.{Book, before, is_seed, oldest_from, trim_loop}
use lock_free_p2p_go.Discovery.Book.Oldest.{IsNamed, Found, kept, moved, oldest_from-Found}

one_less :
    (es : Book) (a : List ℕ) (p : PeerInfo)
    → IsMap es
    → lookup es a ≡ some p
    → length es ≡ suc (length (erase es a))
one_less es a p m e = length-erase es a m ∙ rw e refl

-- Only the seeds have the empty address.
abbrev pub HasNames : Book → Type 0
HasNames es =
    (k : List ℕ) (p : PeerInfo)
    → lookup es k ≡ some p
    → is_seed p ≡ false
    → is_empty_string k ≡ false

seed_or_not : (p : PeerInfo) → (is_seed p ≡ false → true ≡ false) → is_seed p ≡ true
seed_or_not p h = elim (Bool-cases (is_seed p)) [
  | inl seed ↦ seed
  | inr other ↦ absurd (cc (h other))
]

-- What the inner loop finds in a map.
data Chosen (es : Book) : List ℕ → Type 0 where
  only_seeds :
      ((k : List ℕ) (p : PeerInfo) → lookup es k ≡ some p → is_seed p ≡ true) → Chosen es []
  oldest :
      (a : List ℕ) (p : PeerInfo)
      → is_empty_string a ≡ false
      → lookup es a ≡ some p
      → is_seed p ≡ false
      → ((k : List ℕ) (q : PeerInfo)
          → lookup es k ≡ some q
          → is_seed q ≡ false
          → before q.last_seen p.last_seen ≡ false)
      → Chosen es a

at_entry :
    (P : List ℕ × PeerInfo → Type 0) (es : Book) (e : List ℕ × PeerInfo)
    → Memᴰ e es
    → All P es
    → P e
at_entry P [] e i a = elim i [ ]
at_entry P (x ∷ es) e (Memᴰ.head same) a = rw same a.0
at_entry P (x ∷ es) e (Memᴰ.tail i) a = at_entry P es e i a.1

-- What holds of every entry holds of what is looked up.
at_key :
    (P : List ℕ × PeerInfo → Type 0) (es : Book) (k : List ℕ) (p : PeerInfo)
    → All P es
    → lookup es k ≡ some p
    → P (k, p)
at_key P [] k p a e = absurd (cc e)
at_key P (x ∷ es) k p a e = elim (Bool-cases (bytes_eq x.0 k)) [
  | inl here ↦
      let value : x.1 ≡ p = cc (rw here at e) in
      let entry : x ≡ (k, p) = λ i. (bytes_eq→≡ x.0 k here i, value i) in rw (← entry) a.0
  | inr other ↦ at_key P es k p a.1 (rw other at e)
]

module _ (range : Book → Book) (same : (es : Book) → Permᴰ (range es) es) where
  IsNamed-in_order : (order es : Book) → HasNames es → IsWithin order es → IsNamed order
  IsNamed-in_order [] es h w = tt
  IsNamed-in_order (e ∷ order) es h w = (h e.0 e.1 w.0, IsNamed-in_order order es h w.1)

  choose : (es : Book) → IsMap es → HasNames es → Chosen es (oldest_from (range es) [] none)
  choose es m names =
      let s = perm-SameMap (Permᴰ.symm (same es)) m in
      let itself = IsWithin-itself (range es) s.is_map in
      let within = IsWithin-same (range es) (range es) es (λ k. sym (s.looks_up k)) itself in
      found s.looks_up within
        (oldest_from-Found (range es) [] none (IsNamed-in_order (range es) es names within))
    where
      found :
          {a : List ℕ}
          → ((k : List ℕ) → lookup (range es) k ≡ lookup es k)
          → IsWithin (range es) es
          → Found (range es) [] none a
          → Chosen es a
      found looks within (kept some_left least) = only_seeds λ k p e. seed_or_not p (
          at_key (λ x. is_seed x.1 ≡ false → is_empty_string [] ≡ false) (range es) k p some_left
            (looks k ∙ e))
      found looks within (moved a p i other better least) =
          let there_too = at_entry (λ x. lookup es x.0 ≡ some x.1) (range es) (a, p) i within in
          oldest a p (names a p there_too other) there_too other λ k q e not_seed.
            at_key (λ x. is_seed x.1 ≡ false → before x.1.last_seen p.last_seen ≡ false) (range es)
              k q least (looks k ∙ e) not_seed

-- A map that was trimmed: it has nothing new, it keeps to the limit unless only seeds are left, no
-- more was removed than the limit asks, and what was removed is no seed and was last seen no later
-- than any other that is left and is no seed.
pub record Trimmed (max_count : ℕ) (es r : Book) : Type 0 where
  pub is_map : IsMap r
  pub within : (k : List ℕ) (p : PeerInfo) → lookup r k ≡ some p → lookup es k ≡ some p
  pub bounded :
      (length r ≤ max_count)
      ⊎ ((k : List ℕ) (p : PeerInfo) → lookup r k ≡ some p → is_seed p ≡ true)
  pub not_more : max_count ≤ length es → max_count ≤ length r
  pub oldest_first :
      (k : List ℕ) (p : PeerInfo)
      → lookup es k ≡ some p
      → lookup r k ≡ none
      → (is_seed p ≡ false)
        × ((l : List ℕ) (q : PeerInfo)
            → lookup r l ≡ some q
            → is_seed q ≡ false
            → before q.last_seen p.last_seen ≡ false)

untouched :
    (max_count : ℕ) (es : Book)
    → IsMap es
    → (length es ≤ max_count)
      ⊎ ((k : List ℕ) (p : PeerInfo) → lookup es k ≡ some p → is_seed p ≡ true)
    → Trimmed max_count es es
untouched max_count es m b = record {
  is_map = m;
  within = λ k p e. e;
  bounded = b;
  not_more = λ h. h;
  oldest_first = λ k p e gone. absurd (cc (e, gone));
}

-- One round, which removes the oldest entry, and the rounds after it.
round :
    (max_count : ℕ) (es r : Book) (a : List ℕ) (p : PeerInfo)
    → IsMap es
    → max_count < length es
    → lookup es a ≡ some p
    → is_seed p ≡ false
    → ((k : List ℕ) (q : PeerInfo)
        → lookup es k ≡ some q
        → is_seed q ≡ false
        → before q.last_seen p.last_seen ≡ false)
    → Trimmed max_count (erase es a) r
    → Trimmed max_count es r
round max_count es r a p m over at other least t = record {
  is_map = t.is_map;
  within = λ k q e. was_there k q (t.within k q e);
  bounded = t.bounded;
  not_more = λ h. t.not_more (omega (arith, one_less es a p m at));
  oldest_first = λ k q e gone. elim (Bool-cases (bytes_eq a k)) [
    | inl here ↦
        let same_key : lookup es k ≡ some p = rw (bytes_eq→≡ a k here) at at in
        let same_one : p ≡ q = cc (same_key, e) in
        rw (← same_one)
          ((other, λ l x f not_seed. least l x (was_there l x (t.within l x f)) not_seed))
    | inr elsewhere ↦
        let still : lookup (erase es a) k ≡ some q = lookup-erase es a k ∙ rw elsewhere e in
        t.oldest_first k q still gone
  ];
}
  where
    was_there : (k : List ℕ) (q : PeerInfo) → lookup (erase es a) k ≡ some q → lookup es k ≡ some q
    was_there k q e = (erase-some es a k q e).0

HasNames-erase : (es : Book) (a : List ℕ) → HasNames es → HasNames (erase es a)
HasNames-erase es a h k p e = h k p (erase-some es a k p e).0

module _ (range : Book → Book) (same : (es : Book) → Permᴰ (range es) es) where
  -- The rounds at hand are enough.
  pub trim_loop-Trimmed :
      (max_count fuel : ℕ) (es : Book)
      → length es ≤ fuel
      → IsMap es
      → HasNames es
      → Trimmed max_count es (trim_loop range max_count fuel es).0
  unfolding trim_loop
  trim_loop-Trimmed max_count zero es h m names = untouched max_count es m (inl (omega arith))
  trim_loop-Trimmed max_count (suc fuel) es h m names =
      elim (Bool-cases (ltb max_count (length es))) [
        | inr fits ↦ rw fits (untouched max_count es m (inl (ground arith)))
        | inl over ↦ rw over (
            go (ground arith) (choose range same es m names) λ a p e.
              trim_loop-Trimmed max_count fuel (erase es a) (omega (arith, one_less es a p m e))
                (IsMap-erase es a m) (HasNames-erase es a names))
      ]
    where
      go :
          {a : List ℕ}
          → max_count < length es
          → Chosen es a
          → ((b : List ℕ) (p : PeerInfo)
              → lookup es b ≡ some p
              → Trimmed max_count (erase es b) (trim_loop range max_count fuel (erase es b)).0)
          → Trimmed max_count es
              (if◌then◌else◌ {A = Book × List (Option PeerInfo)}
                (is_empty_string a)
                (es, [])
                (
                  (trim_loop range max_count fuel (erase es a)).0,
                  lookup es a ∷ (trim_loop range max_count fuel (erase es a)).1,
                )).0
      go over (only_seeds all) later = untouched max_count es m (inr all)
      go over (oldest a p named e other least) later =
          rw named (round max_count es _ a p m over e other least (later a p e))
