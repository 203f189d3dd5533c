-- ===== src/Protocol/Inv/Safety.antt =====
-- pkg/protocol/handlers.go: the inventory decoder on any bytes.
use lock_free_p2p_go.Prelude.{
  ℕ, zero, suc, ◌+◌, ◌-◌, ◌*◌, ◌≤◌, ◌<◌, ◌≡◌, refl, List, ◌∷◌, [], ◌++◌, arith, length,
  length-append, ltb, Bool-cases, take, drop, false, All, inl, inr, ◌⊎◌,
}
use lock_free_p2p_go.Run.{Run, ok, err, too_short}
use lock_free_p2p_go.Bytes.{word}
use lock_free_p2p_go.Bytes.Laws.{slice_in_bounds, length_slice, word_at_in_bounds}
use lock_free_p2p_go.Protocol.Inv.{InvItem, decode_inv_item, decode_items, decode_inv}

decode_inv_item_returns :
    (d : List ℕ) → 33 ≤ length d → (i : InvItem) × (decode_inv_item d ≡ ok i) × (length i.hash ≡ 32)
unfolding decode_inv_item
decode_inv_item_returns d h =
    let fits : ltb (length d) 33 ≡ false = ground arith in
    (
      record { type = word 0 (take 1 d); hash = take (33 - 1) (drop 1 d) },
      rw (fits, word_at_in_bounds 1 d 0 (omega arith), slice_in_bounds d 1 33 (omega arith) h),
      length_slice d 1 33 (omega arith) h,
    )

-- A list of n items with hashes of 32 bytes is the result.
abbrev pub Yields : ℕ → Run (List InvItem) → Type 0
Yields n r = (is : List InvItem) × (r ≡ ok is) × (length is ≡ n) × All (λ i. length i.hash ≡ 32) is

All-append_last :
    (is : List InvItem) (i : InvItem)
    → All (λ j. length j.hash ≡ 32) is
    → length i.hash ≡ 32
    → All (λ j. length j.hash ≡ 32) (is ++ i ∷ [])
All-append_last [] i h k = (k, tt)
All-append_last (j ∷ is) i h k = (h.0, All-append_last is i h.1 k)

decode_items-Yields :
    (k : ℕ) (data' : List ℕ) (offset : ℕ) (acc : List InvItem) (n : ℕ)
    → length acc + k ≡ n
    → offset + k * 33 ≤ length data'
    → All (λ i. length i.hash ≡ 32) acc
    → Yields n (decode_items k data' offset acc)
unfolding decode_items
decode_items-Yields zero data' offset acc n e h v = (acc, refl, omega arith, v)
decode_items-Yields (suc k) data' offset acc n e h v =
    let tail = take (length data' - offset) (drop offset data') in
    let size = length_slice data' offset (length data') (omega arith) (omega arith) in
    let (i, read, hash) = decode_inv_item_returns tail (omega (arith, size)) in
    let (is, done, count, good) =
      decode_items-Yields k data' (offset + 33) (acc ++ i ∷ []) n
        (omega (arith, length-append acc (i ∷ []))) (omega arith) (All-append_last acc i v hash) in
    (
      is,
      rw (slice_in_bounds data' offset (length data') (omega arith) (omega arith), read) done,
      count,
      good,
    )

-- DecodeInvPayload on any bytes, with n the number that the first two announce: if there are fewer
-- than 33 * n bytes behind those two it returns an error, and otherwise it returns n items with
-- hashes of 32 bytes. It never panics, and no item fails to decode.
pub decode_inv_total :
    (data' : List ℕ)
    → ((length data' < 2 + word 0 (take 2 data') * 33) × (decode_inv data' ≡ err too_short))
      ⊎ ((2 + word 0 (take 2 data') * 33 ≤ length data')
          × Yields (word 0 (take 2 data')) (decode_inv data'))
unfolding decode_inv
decode_inv_total data' =
    let n = word 0 (take 2 data') in
    elim (Bool-cases (ltb (length data') 2)) [
      | inl short ↦ inl (ground arith, rw short)
      | inr fits ↦
          let count = word_at_in_bounds 2 data' 0 (ground arith) in
          elim (Bool-cases (ltb (length data') (2 + n * 33))) [
            | inl cut ↦ inl (ground arith, rw (fits, count, cut))
            | inr enough ↦ inr (
              ground arith,
              rw (fits, count, enough)
                  (decode_items-Yields n data' 2 [] n (omega arith) (ground arith) tt),
            )
          ]
    ]
