-- ===== src/LockFree/HashMap/Refinement.antt =====
-- pkg/ds/lockfree/hashmap.go against pkg/ds/sync/hashmap.go: the same calls on both maps.
use lock_free_p2p_go.Prelude.{
  ℕ, ◌≡◌, refl, sym, ap, ◌∙◌, List, ◌∷◌, [], Bool, Option, none, some, if◌then◌else◌,
}
use lock_free_p2p_go.Run.{Run, ok, ◌>>=◌}
use lock_free_p2p_go.Bytes.{bytes_eq}
use lock_free_p2p_go.LockFree.HashMap.{HashMap, put, delete}
use lock_free_p2p_go.LockFree.HashMap.Lookup.{holds, is_some, IsMap}
use lock_free_p2p_go.LockFree.HashMap.Put.{holds-put}
use lock_free_p2p_go.LockFree.HashMap.Delete.{holds-delete}
use lock_free_p2p_go.Sync
use lock_free_p2p_go.GoMap.{lookup, there}
use lock_free_p2p_go.GoMap.Laws.{lookup-assign}
use lock_free_p2p_go.Sync.HashMap.Laws.{lookup-delete}

pub data Change (V : Type 0) : Type 0 where
  puts : List ℕ → V → Change V
  deletes : List ℕ → Change V

module _ {V : Type 0} where
  is_some-there : (o : Option V) → is_some o ≡ there o
  is_some-there none = refl
  is_some-there (some v) = refl

  -- The map under a lock after a sequence of calls, and the answers of Delete.
  unfoldable pub under_lock :
      Sync.HashMap.HashMap V → List (Change V) → Sync.HashMap.HashMap V × List Bool
  under_lock h [] = (h, [])
  under_lock h (puts key v ∷ cs) = under_lock (Sync.HashMap.put h key v) cs
  under_lock h (deletes key ∷ cs) =
      let r = Sync.HashMap.delete h key in let rest = under_lock r.0 cs in (rest.0, r.1 ∷ rest.1)

  module _ (hash_key : List ℕ → ℕ) where
    -- The lock-free map after the same calls by one goroutine, and the answers of Delete.
    unfoldable pub lock_free : HashMap V → List (Change V) → Run (HashMap V × List Bool)
    lock_free m [] = ok (m, [])
    lock_free m (puts key v ∷ cs) = put hash_key m key v >>= λ m'. lock_free m' cs
    lock_free m (deletes key ∷ cs) =
        let r = delete hash_key m key in lock_free r.0 cs >>= λ rest. ok (rest.0, r.1 ∷ rest.1)

    -- Both maps hold the same value for every key.
    abbrev pub Agree : HashMap V → Sync.HashMap.HashMap V → Type 0
    Agree m h = (k : List ℕ) → holds m.nodes k ≡ lookup h.entries k

    put-Agree :
        (m : HashMap V) (h : Sync.HashMap.HashMap V) (key : List ℕ) (v : V) (m' : HashMap V)
        → Agree m h
        → ((k : List ℕ) → holds m'.nodes k ≡ (if bytes_eq key k then some v else holds m.nodes k))
        → Agree m' (Sync.HashMap.put h key v)
    unfolding Sync.HashMap.put
    put-Agree m h key v m' a e k =
        e k
        ∙ ap (λ o. if bytes_eq key k then some v else o) (a k)
        ∙ sym (lookup-assign h.entries key k v)

    delete-Agree :
        (m : HashMap V) (h : Sync.HashMap.HashMap V) (key : List ℕ)
        → IsMap hash_key m
        → Agree m h
        → Agree (delete hash_key m key).0 (Sync.HashMap.delete h key).0
          × ((delete hash_key m key).1 ≡ (Sync.HashMap.delete h key).1)
    delete-Agree m h key i a =
        let d = holds-delete hash_key m key i in
        (
          λ k.
              d.2 k
              ∙ ap (λ o. if bytes_eq key k then none else o) (a k)
              ∙ sym (lookup-delete h key k).0,
          d.0
              ∙ ap is_some (a key)
              ∙ is_some-there (lookup h.entries key)
              ∙ sym (lookup-delete h key key).1,
        )

    -- One goroutine at a time, the lock-free map refines the map under a lock: after any sequence
    -- of calls of Put and Delete on two maps that hold the same, the first of which satisfies its
    -- invariant, every call has returned, Delete has given the same answers, both maps hold the same
    -- value for every key, and the invariant holds again.
    pub refines_map_under_lock :
        (m : HashMap V) (h : Sync.HashMap.HashMap V) (cs : List (Change V))
        → IsMap hash_key m
        → Agree m h
        → (m' : HashMap V) × (lock_free m cs ≡ ok (m', (under_lock h cs).1))
          × IsMap hash_key m'
          × Agree m' (under_lock h cs).0
    unfolding lock_free under_lock
    refines_map_under_lock m h [] i a = (m, refl, i, a)
    refines_map_under_lock m h (puts key v ∷ cs) i a =
        let (m1, e, i1, a1) = holds-put hash_key m key v i in
        let (m', e', i', a') =
          refines_map_under_lock m1 (Sync.HashMap.put h key v) cs i1
            (put-Agree m h key v m1 a a1) in
        (m', rw e e', i', a')
    refines_map_under_lock m h (deletes key ∷ cs) i a =
        let d = delete-Agree m h key i a in
        let (m', e', i', a') =
          refines_map_under_lock (delete hash_key m key).0 (Sync.HashMap.delete h key).0 cs
            (holds-delete hash_key m key i).1 d.0 in
        (m', rw (e', d.1) refl, i', a')
