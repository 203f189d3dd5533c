-- ===== src/GoMap.antt =====
-- Go's maps with keys that are bytes (strings, and arrays of bytes): the list of the entries, one for
-- each key. Go leaves open in which order `range` goes through them.
pub mod Laws
pub mod Keys
pub mod Totals
pub mod Orders
pub mod Sweep
use lock_free_p2p_go.Prelude.{
  ℕ, List, ◌∷◌, [], Bool, true, false, Option, none, some, if◌then◌else◌,
}
use lock_free_p2p_go.Bytes.{bytes_eq}

module _ {V : Type 0} where
  -- `m[key]`
  abbrev pub lookup : List (List ℕ × V) → List ℕ → Option V
  lookup [] key = none
  lookup (e ∷ es) key = let later = lookup es key in if bytes_eq e.0 key then some e.1 else later

  -- `m[key] = value`
  abbrev pub assign : List (List ℕ × V) → List ℕ → V → List (List ℕ × V)
  assign [] key v = (key, v) ∷ []
  assign (e ∷ es) key v =
      let later = assign es key v in if bytes_eq e.0 key then (key, v) ∷ es else e ∷ later

  -- `delete(m, key)`
  abbrev pub erase : List (List ℕ × V) → List ℕ → List (List ℕ × V)
  erase [] key = []
  erase (e ∷ es) key = let later = erase es key in if bytes_eq e.0 key then later else e ∷ later

  -- The second result of a look-up
  abbrev pub there : Option V → Bool
  there none = false
  there (some v) = true

  -- `for key, value := range m { if test(value) { delete(m, key) } }`, in the order given: the map
  -- afterwards, and the entries deleted.
  unfoldable pub sweep :
      (test : V → Bool) → (order es : List (List ℕ × V)) → List (List ℕ × V) × List (List ℕ × V)
  sweep test [] es = (es, [])
  sweep test (e ∷ order) es =
      let rest = sweep test order (if test e.1 then erase es e.0 else es) in
      if test e.1 then (rest.0, e ∷ rest.1) else rest
