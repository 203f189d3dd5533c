-- ===== src/Protocol/Fields/Laws.antt =====
-- pkg/protocol/codec.go: the field helpers, each decoder after its encoder.
use lock_free_p2p_go.Prelude.{
  ℕ, ◌+◌, ◌%◌, ◌^◌, ◌<◌, ◌≤◌, ◌≡◌, refl, List, ◌∷◌, [], ◌++◌, arith, length, append-nil,
  length-append, ltb, false,
}
use lock_free_p2p_go.Run.{ok, ◌>>=◌}
use lock_free_p2p_go.Bytes.{be16, be32, be64}
use lock_free_p2p_go.Bytes.Laws.{copy_whole}
use lock_free_p2p_go.Bytes.Writes.{putting, copying, writes, writes_fill}
use lock_free_p2p_go.Bytes.Reads.{field16, field32, field64, slice_field}
use lock_free_p2p_go.Protocol.Fields.{
  encode_string, decode_string, encode_bytes, decode_bytes, encode_uint32, decode_uint32,
  encode_uint64, decode_uint64,
}

encode_string-bytes : (s : List ℕ) → encode_string s ≡ ok (be16 (length s) ++ (s ++ []))
unfolding encode_string writes
encode_string-bytes s =
    writes_fill ((putting, 0, be16 (length s)) ∷ (copying, 2, s) ∷ []) (2 + length s) (omega arith)
      (omega (arith, length-append s []))

encode_bytes-bytes : (s : List ℕ) → encode_bytes s ≡ ok (be32 (length s) ++ (s ++ []))
unfolding encode_bytes writes
encode_bytes-bytes s =
    writes_fill ((putting, 0, be32 (length s)) ∷ (copying, 4, s) ∷ []) (4 + length s) (omega arith)
      (omega (arith, length-append s []))

-- DecodeString reads back what EncodeString wrote, with any bytes behind it, and reports exactly
-- the bytes that it took, for a string of at most 65533 bytes.
pub decode_string-encode_string :
    (s rest : List ℕ)
    → length s ≤ 65533
    → (encode_string s >>= λ b. decode_string (b ++ rest)) ≡ ok (s, 2 + length s)
unfolding decode_string
decode_string-encode_string s rest h =
    let fits : ltb (length (be16 (length s) ++ (s ++ rest))) 2 ≡ false = ground arith in
    let whole : (2 + length s) % 65536 ≡ 2 + length s = omega arith in
    let enough : ltb (length (be16 (length s) ++ (s ++ rest))) (2 + length s) ≡ false =
      ground (arith, length-append s rest) in
    rw (
      encode_string-bytes s,
      append-nil s,
      fits,
      field16 [] (length s) (s ++ rest) 0 refl (omega arith),
      whole,
      enough,
      slice_field (be16 (length s) ∷ []) s rest 2 (2 + length s) refl refl,
    )

-- DecodeBytes reads back what EncodeBytes wrote, with any bytes behind it, and reports exactly the
-- bytes that it took, for a slice whose length plus four fits a uint32.
pub decode_bytes-encode_bytes :
    (s rest : List ℕ)
    → 4 + length s < 2 ^ 32
    → (encode_bytes s >>= λ b. decode_bytes (b ++ rest)) ≡ ok (s, 4 + length s)
unfolding decode_bytes
decode_bytes-encode_bytes s rest h =
    let fits : ltb (length (be32 (length s) ++ (s ++ rest))) 4 ≡ false = ground arith in
    let whole : (4 + length s) % 2 ^ 32 ≡ 4 + length s = omega arith in
    let enough : ltb (length (be32 (length s) ++ (s ++ rest))) (4 + length s) ≡ false =
      ground (arith, length-append s rest) in
    rw (
      encode_bytes-bytes s,
      append-nil s,
      fits,
      field32 [] (length s) (s ++ rest) 0 refl (omega arith),
      whole,
      enough,
      slice_field (be32 (length s) ∷ []) s rest 4 (4 + length s) refl refl,
      copy_whole (length s) s refl,
    )

-- The fixed-width helpers read back every uint32 and every uint64, with any bytes behind it.
pub decode_uint-encode_uint :
    (v w : ℕ) (rest : List ℕ)
    → v < 2 ^ 32
    → w < 2 ^ 64
    → ((encode_uint32 v >>= λ b. decode_uint32 (b ++ rest)) ≡ ok v)
      × ((encode_uint64 w >>= λ b. decode_uint64 (b ++ rest)) ≡ ok w)
unfolding encode_uint32 decode_uint32 encode_uint64 decode_uint64 writes
decode_uint-encode_uint v w rest h k =
    let short32 : ltb (length (be32 v ++ rest)) 4 ≡ false = ground arith in
    let short64 : ltb (length (be64 w ++ rest)) 8 ≡ false = ground arith in
    let written32 = writes_fill ((putting, 0, be32 v) ∷ []) 4 (omega arith) refl in
    let written64 = writes_fill ((putting, 0, be64 w) ∷ []) 8 (omega arith) refl in
    (
      rw (written32, short32, field32 [] v rest 0 refl h),
      rw (written64, short64, field64 [] w rest 0 refl k),
    )
