-- ===== src/Sync/HashMap/Laws.antt =====
-- pkg/ds/sync/hashmap.go: what is looked up after Delete.
use lock_free_p2p_go.Prelude.{
  ℕ, ◌≡◌, refl, sym, ap, ◌∙◌, List, false, Option, none, some, if◌then◌else◌, Bool-cases, inl, inr,
}
use lock_free_p2p_go.Bytes.{bytes_eq}
use lock_free_p2p_go.Bytes.Laws.{bytes_eq→≡}
use lock_free_p2p_go.GoMap.{lookup, there}
use lock_free_p2p_go.GoMap.Laws.{lookup-erase}
use lock_free_p2p_go.Sync.HashMap.{HashMap, delete}

nothing : {V : Type 0} (o : Option V) → there o ≡ false → o ≡ none
nothing none e = refl
nothing (some v) e = cc

module _ {V : Type 0} where
  -- `Delete` of a key that is not there leaves the map, and what is looked up is the same as if it
  -- had been erased.
  pub lookup-delete :
      (m : HashMap V) (key k : List ℕ)
      → (lookup (delete m key).0.entries k ≡ (if bytes_eq key k then none else lookup m.entries k))
        × ((delete m key).1 ≡ there (lookup m.entries key))
  unfolding delete
  lookup-delete m key k = elim (Bool-cases (there (lookup m.entries key))) [
    | inl found ↦ rw found (lookup-erase m.entries key k, refl)
    | inr missing ↦ rw missing (
      elim (Bool-cases (bytes_eq key k)) [
        | inl asked ↦ rw asked (
            nothing (lookup m.entries k)
              (ap (λ a. there (lookup m.entries a)) (sym (bytes_eq→≡ key k asked)) ∙ missing))
        | inr not_asked ↦ rw not_asked
      ],
      refl,
    )
  ]
