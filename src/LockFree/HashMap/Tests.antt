-- ===== src/LockFree/HashMap/Tests.antt =====
-- Runs of the hash map, and its theorems at concrete maps.
use lock_free_p2p_go.Prelude.{
  ℕ, List, ◌∷◌, [], ◌≡◌, refl, false, none, some, arith, if◌then◌else◌, ◌^◌, ◌+◌,
}
use lock_free_p2p_go.Run.{ok, ◌>>=◌}
use lock_free_p2p_go.Bytes.{word, bytes_eq}
use lock_free_p2p_go.LockFree.HashMap.{HashMap, new_hash_map, next_power_of_2, put, get, delete}
use lock_free_p2p_go.LockFree.HashMap.Lookup.{holds, IsMap, is_some}
use lock_free_p2p_go.Sync
use lock_free_p2p_go.LockFree.HashMap.Refinement.{
  Change, puts, deletes, under_lock, lock_free, Agree, refines_map_under_lock,
}
use lock_free_p2p_go.LockFree.HashMap.Put.{holds-put}
use lock_free_p2p_go.LockFree.HashMap.Delete.{holds-delete}
use lock_free_p2p_go.LockFree.HashMap.Get.{get_misses}

-- A hash function for the tests: one more than the bytes as a number.
abbrev hash_of : List ℕ → ℕ
hash_of key = word 1 key

abbrev no_entries : HashMap ℕ
no_entries = new_hash_map 0

no_entries-IsMap : IsMap hash_of no_entries
unfolding new_hash_map next_power_of_2
no_entries-IsMap = record {
  ordered = tt;
  counts = refl;
  some_buckets = omega arith;
  buckets_fit = omega arith;
}

abbrev low : List ℕ
low = 1 ∷ []

abbrev high : List ℕ
high = 65 ∷ []

abbrev one_entry :
    (m : HashMap ℕ) × (put hash_of no_entries high 7 ≡ ok m)
    × IsMap hash_of m
    × ((k : List ℕ)
        → holds m.nodes k ≡ (if bytes_eq high k then some 7 else holds no_entries.nodes k))
one_entry = holds-put hash_of no_entries high 7 no_entries-IsMap

-- More than 2^31 buckets wrap around to none.
wraps_to_none : next_power_of_2 (2 ^ 31 + 1) ≡ 0
unfolding next_power_of_2
wraps_to_none = refl

holds-put_example :
    (m' : HashMap ℕ) × (put hash_of one_entry.0 low 8 ≡ ok m')
    × IsMap hash_of m'
    × ((k : List ℕ)
        → holds m'.nodes k ≡ (if bytes_eq low k then some 8 else holds one_entry.0.nodes k))
holds-put_example = holds-put hash_of one_entry.0 low 8 one_entry.2

holds-delete_example :
    ((delete hash_of one_entry.0 high).1 ≡ is_some (holds one_entry.0.nodes high))
    × IsMap hash_of (delete hash_of one_entry.0 high).0
    × ((k : List ℕ)
        → holds (delete hash_of one_entry.0 high).0.nodes k
          ≡ (if bytes_eq high k then none else holds one_entry.0.nodes k))
holds-delete_example = holds-delete hash_of one_entry.0 high one_entry.2

-- The map after a Clear and a Put of the key that it had.
abbrev restored : HashMap ℕ
restored = record {
  buckets = λ _. none;
  bucket_count = 64;
  count = 1;
  nodes = record { address = 1; key = high; value = some 9; hash = 321; deleted = false } ∷ [];
  fresh = 2;
}

restored-IsMap : IsMap hash_of restored
unfolding word
restored-IsMap = record {
  ordered = (omega arith, refl, (9, refl), tt);
  counts = refl;
  some_buckets = omega arith;
  buckets_fit = omega arith;
}

get_misses_example :
    (m : HashMap ℕ) × ((put hash_of no_entries high 7 >>= λ m'. put hash_of m' low 8) ≡ ok m)
    × (holds m.nodes low ≡ some 8)
    × (get hash_of m low ≡ ok (none, false))
unfolding word new_hash_map next_power_of_2
get_misses_example = get_misses hash_of 0 high low 7 8 no_entries-IsMap refl (omega arith)

abbrev changes : List (Change ℕ)
changes = puts high 7 ∷ puts low 8 ∷ deletes high ∷ deletes high ∷ puts high 9 ∷ []

empty-Agree : Agree hash_of no_entries Sync.HashMap.new_hash_map
unfolding new_hash_map Sync.HashMap.new_hash_map
empty-Agree k = refl

refines_map_under_lock_example :
    (m' : HashMap ℕ) × (lock_free hash_of no_entries changes
      ≡ ok (m', (under_lock Sync.HashMap.new_hash_map changes).1))
    × IsMap hash_of m'
    × Agree hash_of m' (under_lock Sync.HashMap.new_hash_map changes).0
refines_map_under_lock_example =
    refines_map_under_lock hash_of no_entries Sync.HashMap.new_hash_map changes no_entries-IsMap
      empty-Agree
