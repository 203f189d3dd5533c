-- ===== src/Mempool/Pool/Removal.antt =====
-- pkg/mempool/mempool.go: Remove, RemoveBatch, and the removal of expired transactions.
use lock_free_p2p_go.Prelude.{
  ℕ, suc, ◌+◌, ◌/◌, ◌≡◌, refl, sym, ap, ◌∙◌, Bool, true, false, not, ◌||◌, none, List, ◌∷◌, [],
  length, ltb, if◌then◌else◌, arith, Bool-cases, inl, inr,
}
use lock_free_p2p_go.Run.{ok, err, tx_not_found}
use lock_free_p2p_go.Run.Laws.{fail_if-ok, ok-injective}
use lock_free_p2p_go.Bytes.{bytes_eq}
use lock_free_p2p_go.Bytes.Laws.{bytes_eq_iff}
use lock_free_p2p_go.GoMap.{lookup, erase, there}
use lock_free_p2p_go.GoMap.Laws.{lookup-erase}
use lock_free_p2p_go.GoMap.Keys.{IsMap, IsMap-erase, length-erase}
use lock_free_p2p_go.Mempool.Tx.{Tx}
use lock_free_p2p_go.Mempool.Pool.{Mempool, remove, remove_each, remove_batch, rebuild}

-- Remove returns no error exactly for a hash in the map. Then this entry, and no other, has left the
-- map, and a second Remove of the hash returns that there is none.
pub remove-remove :
    (mp mp' : Mempool) (hash : List ℕ)
    → IsMap mp.txs
    → remove mp hash ≡ ok mp'
    → (there (lookup mp.txs hash) ≡ true)
      × ((k : List ℕ) → lookup mp'.txs k ≡ (if bytes_eq hash k then none else lookup mp.txs k))
      × (length mp.txs ≡ suc (length mp'.txs))
      × (remove mp' hash ≡ err tx_not_found)
unfolding remove
remove-remove mp mp' hash m e =
    let (found, e1) = fail_if-ok (not (there (lookup mp.txs hash))) tx_not_found _ mp' e in
    let is : there (lookup mp.txs hash) ≡ true = ground arith in
    let self : bytes_eq hash hash ≡ true = (bytes_eq_iff hash hash).1 refl in
    let left = ap (λ p. p.txs) (sym (ok-injective e1)) in
    let now_at = λ (k : List ℕ). ap (λ t. lookup t k) left ∙ lookup-erase mp.txs hash k in
    let gone : lookup mp'.txs hash ≡ none = rw self at (now_at hash) in
    (is, now_at, rw left (rw is at (length-erase mp.txs hash m)), rw gone refl)

-- Whether a hash is in the list.
abbrev pub contains : List (List ℕ) → List ℕ → Bool
contains [] k = false
contains (hash ∷ hashes) k = bytes_eq hash k || contains hashes k

-- What a run of the loop of RemoveBatch leaves, with the count that it starts from.
pub record RemovesEach (txs : List (List ℕ × Tx)) (removed : ℕ) (hashes : List (List ℕ))
    (r : List (List ℕ × Tx) × ℕ) : Type 0 where
  pub is_map : IsMap r.0
  pub counted : length txs + removed ≡ length r.0 + r.1
  pub now_at : (k : List ℕ) → lookup r.0 k ≡ (if contains hashes k then none else lookup txs k)

pub remove_each-RemovesEach :
    (txs : List (List ℕ × Tx)) (removed : ℕ) (hashes : List (List ℕ))
    → IsMap txs
    → RemovesEach txs removed hashes (remove_each txs removed hashes)
unfolding remove_each
remove_each-RemovesEach txs removed [] m = record { is_map = m; counted = refl; now_at = λ k. refl }
remove_each-RemovesEach txs removed (hash ∷ hashes) m =
    elim (Bool-cases (there (lookup txs hash))) [
      | inl found ↦
          let rest =
            remove_each-RemovesEach (erase txs hash) (suc removed) hashes
              (IsMap-erase txs hash m) in
          rw found (record {
            is_map = rest.is_map;
            counted = ground (arith, rest.counted, length-erase txs hash m);
            now_at = λ k. ground (arith, rest.now_at k, lookup-erase txs hash k);
          })
      | inr gone ↦
          let rest = remove_each-RemovesEach txs removed hashes m in
          rw gone (record {
            is_map = rest.is_map;
            counted = rest.counted;
            now_at = λ k. elim (Bool-cases (bytes_eq hash k)) [
              | inl asked ↦
                  let absent : lookup txs hash ≡ none = ground arith in
                  let none_there : lookup txs k ≡ none =
                    rw ((bytes_eq_iff hash k).0 asked) at absent in
                  ground (arith, rest.now_at k)
              | inr other ↦ ground (arith, rest.now_at k)
            ];
          })
    ]

module _ (range : List (List ℕ × Tx) → List (List ℕ × Tx)) (now : ℕ) where
  -- RemoveBatch, on a map with one entry for each key: the given hashes, and no others, are no longer
  -- in the map, and the number that it returns is the number of entries that have left.
  pub remove_batch-lookup :
      (mp : Mempool) (hashes : List (List ℕ))
      → IsMap mp.txs
      → ((k : List ℕ)
          → lookup (remove_batch range now mp hashes).0.txs k
            ≡ (if contains hashes k then none else lookup mp.txs k))
        × (length mp.txs
            ≡ length (remove_batch range now mp hashes).0.txs
              + (remove_batch range now mp hashes).1)
  unfolding remove_batch rebuild
  remove_batch-lookup mp hashes m =
      let r = remove_each-RemovesEach mp.txs 0 hashes m in
      elim (Bool-cases (
        ltb 100 (remove_each mp.txs 0 hashes).1
        || ltb (length (remove_each mp.txs 0 hashes).0 / 10) (remove_each mp.txs 0 hashes).1)) [
          | inl many ↦ rw many ((r.now_at, omega (arith, r.counted)))
          | inr few ↦ rw few ((r.now_at, omega (arith, r.counted)))
        ]
