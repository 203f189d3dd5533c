-- ===== src/Mempool/Tx/RoundTrip.antt =====
-- pkg/mempool/tx.go: a transaction decoded after it was encoded, and the decoder on any bytes.
use lock_free_p2p_go.Prelude.{
  ℕ, ◌+◌, ◌≤◌, ◌≡◌, ◌≢◌, refl, List, ◌∷◌, [], ◌++◌, arith, length, length-append, ltb, false, none,
}
use lock_free_p2p_go.Run.{ok, panic, ◌>>=◌, data_too_small, data_size_mismatch}
use lock_free_p2p_go.Bytes.{be32, be64}
use lock_free_p2p_go.Bytes.Writes.{putting, copying, writes, writes_fill}
use lock_free_p2p_go.Bytes.Reads.{field32, field64, slice_field, guarded, sliced, worded}
use lock_free_p2p_go.Mempool.Tx.{Tx, IsTx, encode, size, compute_hash, decode_tx}

-- The format in the comment on `Encode`.
abbrev pub wire : Tx → List ℕ → List ℕ
wire tx rest =
    tx.from
    ++ (tx.to
        ++ (be64 tx.value
            ++ (be64 tx.nonce
                ++ (be64 tx.gas_price
                    ++ (be64 tx.gas_limit
                        ++ (be32 (length tx.payload)
                            ++ (tx.payload ++ (be64 tx.timestamp ++ rest))))))))

length-wire :
    (tx : Tx) (rest : List ℕ)
    → IsTx tx
    → length (wire tx rest) ≡ 84 + length tx.payload + length rest
length-wire tx rest v =
    let a = v.from_length in
    let b = v.to_length in
    let t2 =
      be64 tx.value
      ++ (be64 tx.nonce
          ++ (be64 tx.gas_price
              ++ (be64 tx.gas_limit
                  ++ (be32 (length tx.payload) ++ (tx.payload ++ (be64 tx.timestamp ++ rest)))))) in
    omega (
      arith,
      length-append tx.from (tx.to ++ t2),
      length-append tx.to t2,
      length-append tx.payload (be64 tx.timestamp ++ rest),
    )

pub encode-wire : (tx : Tx) → IsTx tx → encode tx ≡ ok (wire tx [])
unfolding encode writes
encode-wire tx v =
    let a = v.from_length in
    let b = v.to_length in
    let n = length tx.payload in
    writes_fill
      ((copying, 0, tx.from)
        ∷ (copying, 20, tx.to)
        ∷ (putting, 40, be64 tx.value)
        ∷ (putting, 48, be64 tx.nonce)
        ∷ (putting, 56, be64 tx.gas_price)
        ∷ (putting, 64, be64 tx.gas_limit)
        ∷ (putting, 72, be32 n)
        ∷ (copying, 76, tx.payload)
        ∷ (putting, 76 + n, be64 tx.timestamp)
        ∷ [])
      (20 + 20 + 8 + 8 + 8 + 8 + 4 + n + 8) (omega arith) (omega (arith, length-wire tx [] v))

pub decode_tx-wire :
    (sha256 : List ℕ → List ℕ) (tx : Tx)
    → IsTx tx
    → decode_tx sha256 (wire tx [])
      ≡ ok (record tx { hash = compute_hash sha256 tx; received_at = none })
unfolding decode_tx compute_hash
decode_tx-wire sha256 tx v =
    let a = v.from_length in
    let b = v.to_length in
    let n = length tx.payload in
    let long : (k : ℕ) → k ≤ 84 + n → ltb (length (wire tx [])) k ≡ false =
      λ k le. ground (arith, length-wire tx [] v) in
    let value = be64 tx.value in
    let nonce = be64 tx.nonce in
    let price = be64 tx.gas_price in
    let limit = be64 tx.gas_limit in
    let len = be32 n in
    let t8 = be64 tx.timestamp ++ [] in
    let t7 = tx.payload ++ t8 in
    let t6 = len ++ t7 in
    let t5 = limit ++ t6 in
    let t4 = price ++ t5 in
    let t3 = nonce ++ t4 in
    let t2 = value ++ t3 in
    let front = tx.from ∷ tx.to ∷ [] in
    rw (
      long 84 (omega arith),
      slice_field [] tx.from (tx.to ++ t2) 0 20 refl (omega arith),
      slice_field (tx.from ∷ []) tx.to t2 20 40 (omega arith) (omega arith),
      field64 (tx.from ∷ tx.to ∷ []) tx.value t3 40 (omega arith) v.value_fits,
      field64 (tx.from ∷ tx.to ∷ value ∷ []) tx.nonce t4 48 (omega arith) v.nonce_fits,
      field64 (tx.from ∷ tx.to ∷ value ∷ nonce ∷ []) tx.gas_price t5 56 (omega arith) v.price_fits,
      field64 (tx.from ∷ tx.to ∷ value ∷ nonce ∷ price ∷ []) tx.gas_limit t6 64 (omega arith)
          v.limit_fits,
      field32 (tx.from ∷ tx.to ∷ value ∷ nonce ∷ price ∷ limit ∷ []) n t7 72 (omega arith)
          v.payload_fits,
      long (76 + n + 8) (omega arith),
      slice_field (tx.from ∷ tx.to ∷ value ∷ nonce ∷ price ∷ limit ∷ len ∷ []) tx.payload t8 76
          (76 + n) (omega arith) refl,
      field64 (tx.from ∷ tx.to ∷ value ∷ nonce ∷ price ∷ limit ∷ len ∷ tx.payload ∷ []) tx.timestamp
          [] (76 + n) (omega arith) v.time_fits,
    )

-- DecodeTx reads back every transaction that Encode writes: all encoded fields, with the hash
-- computed anew and no time of receipt.
pub decode_tx-encode :
    (sha256 : List ℕ → List ℕ) (tx : Tx)
    → IsTx tx
    → (encode tx >>= decode_tx sha256)
      ≡ ok (record tx { hash = compute_hash sha256 tx; received_at = none })
decode_tx-encode sha256 tx v = rw (encode-wire tx v) (decode_tx-wire sha256 tx v)

-- DecodeTx returns a transaction or an error on every input.
pub decode_tx_returns : (sha256 : List ℕ → List ℕ) (data' : List ℕ) → decode_tx sha256 data' ≢ panic
unfolding decode_tx
decode_tx_returns sha256 data' = guarded (length data') 84 data_too_small _ λ h0.
    sliced data' 0 20 _ (omega arith) (omega arith) λ from _.
      sliced data' 20 40 _ (omega arith) (omega arith) λ to _.
        worded 8 data' 40 _ (omega arith) λ value. worded 8 data' 48 _ (omega arith) λ nonce.
          worded 8 data' 56 _ (omega arith) λ price. worded 8 data' 64 _ (omega arith) λ limit.
            worded 4 data' 72 _ (omega arith) λ n.
              guarded (length data') (76 + n + 8) data_size_mismatch _ λ h1.
                sliced data' 76 (76 + n) _ (omega arith) (omega arith)
                  λ payload _. worded 8 data' (76 + n) _ h1 λ timestamp e. cc

-- `Size` counts 38 bytes more than the encoding has.
pub size-encode :
    (tx : Tx) → IsTx tx → (b : List ℕ) × (encode tx ≡ ok b) × (size tx ≡ length b + 38)
unfolding size
size-encode tx v = (wire tx [], encode-wire tx v, omega (arith, length-wire tx [] v))
