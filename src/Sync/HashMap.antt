-- ===== src/Sync/HashMap.antt =====
-- pkg/ds/sync/hashmap.go: a Go map under a lock. The map is the list of its entries, one for each
-- key; a string is its bytes.
pub mod Laws
use lock_free_p2p_go.Prelude.{
  ℕ, List, ◌∷◌, [], Bool, true, false, not, Option, none, some, length, if◌then◌else◌,
}
use lock_free_p2p_go.GoMap.{lookup, assign, erase, there}

pub record HashMap (V : Type 0) : Type 0 where
  pub entries : List (List ℕ × V)

module _ {V : Type 0} where
  unfoldable pub new_hash_map : HashMap V
  new_hash_map = record { entries = [] }

  unfoldable pub get : HashMap V → List ℕ → Option V × Bool
  get m key = (lookup m.entries key, there (lookup m.entries key))

  unfoldable pub put : HashMap V → List ℕ → V → HashMap V
  put m key v = record m { entries = assign m.entries key v }

  -- The map afterwards, and the answer.
  unfoldable pub delete : HashMap V → List ℕ → HashMap V × Bool
  delete m key =
      if not (there (lookup m.entries key))
      then (m, false)
      else (record m { entries = erase m.entries key }, true)

  pub has : HashMap V → List ℕ → Bool
  has m key = there (lookup m.entries key)

  pub len : HashMap V → ℕ
  len m = length m.entries

  pub clear : HashMap V → HashMap V
  clear m = new_hash_map
