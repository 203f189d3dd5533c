-- ===== src/Protocol/Control/RoundTrip.antt =====
-- pkg/protocol/handlers.go: Ping, Pong, Disconnect and GetPeers, decoded after they were encoded.
use lock_free_p2p_go.Prelude.{
  ℕ, ◌+◌, ◌%◌, ◌^◌, ◌<◌, ◌≤◌, ◌≡◌, refl, ◌∷◌, [], ◌++◌, arith, length, length-append, ltb, false,
}
use lock_free_p2p_go.Run.{ok, ◌>>=◌}
use lock_free_p2p_go.Bytes.{be16, be64}
use lock_free_p2p_go.Bytes.Writes.{putting, copying, writes, writes_fill}
use lock_free_p2p_go.Bytes.Reads.{field8, field16, field64, slice_field}
use lock_free_p2p_go.Protocol.Control.{
  encode_ping, decode_ping, encode_pong, decode_pong, DisconnectPayload, encode_disconnect,
  decode_disconnect, encode_get_peers, decode_get_peers,
}

-- The bytes of the payloads.
pub encode_ping-bytes : (nonce : ℕ) → encode_ping (record { nonce = nonce }) ≡ ok (be64 nonce ++ [])
unfolding encode_ping writes
encode_ping-bytes nonce = rw (writes_fill ((putting, 0, be64 nonce) ∷ []) 8 (omega arith) refl) refl

pub encode_pong-bytes : (nonce : ℕ) → encode_pong (record { nonce = nonce }) ≡ ok (be64 nonce ++ [])
unfolding encode_pong writes
encode_pong-bytes nonce = rw (writes_fill ((putting, 0, be64 nonce) ∷ []) 8 (omega arith) refl) refl

pub decode_ping-bytes :
    (nonce : ℕ) → nonce < 2 ^ 64 → decode_ping (be64 nonce ++ []) ≡ ok (record { nonce = nonce })
unfolding decode_ping
decode_ping-bytes nonce h = rw (field64 [] nonce [] 0 refl h) refl

pub decode_pong-bytes :
    (nonce : ℕ) → nonce < 2 ^ 64 → decode_pong (be64 nonce ++ []) ≡ ok (record { nonce = nonce })
unfolding decode_pong
decode_pong-bytes nonce h = rw (field64 [] nonce [] 0 refl h) refl

pub encode_disconnect-bytes :
    (d : DisconnectPayload)
    → encode_disconnect d ≡ ok ((d.reason ∷ []) ++ (be16 (length d.message) ++ (d.message ++ [])))
unfolding encode_disconnect writes
encode_disconnect-bytes d =
    let n = length d.message in
    let written =
      writes_fill
        ((putting, 0, d.reason ∷ []) ∷ (putting, 1, be16 n) ∷ (copying, 3, d.message) ∷ [])
        (1 + 2 + n) (omega arith) (omega (arith, length-append d.message [])) in
    rw written refl

-- A Pong decoded from the bytes of a Ping carries the Ping's nonce, and so do Ping and Pong decoded
-- from their own bytes; GetPeers keeps its limit.
pub decode-encode_fixed :
    (nonce limit : ℕ)
    → nonce < 2 ^ 64
    → limit < 2 ^ 16
    → ((encode_ping (record { nonce = nonce }) >>= decode_ping) ≡ ok (record { nonce = nonce }))
      × ((encode_ping (record { nonce = nonce }) >>= decode_pong) ≡ ok (record { nonce = nonce }))
      × ((encode_pong (record { nonce = nonce }) >>= decode_pong) ≡ ok (record { nonce = nonce }))
      × ((encode_get_peers (record { max_peers = limit }) >>= decode_get_peers)
          ≡ ok (record { max_peers = limit }))
unfolding encode_get_peers decode_get_peers writes
decode-encode_fixed nonce limit h k =
    let written16 = writes_fill ((putting, 0, be16 limit) ∷ []) 2 (omega arith) refl in
    (
      rw (encode_ping-bytes nonce) (decode_ping-bytes nonce h),
      rw (encode_ping-bytes nonce) (decode_pong-bytes nonce h),
      rw (encode_pong-bytes nonce) (decode_pong-bytes nonce h),
      rw (written16, field16 [] limit [] 0 refl k),
    )

-- DecodeDisconnectPayload reads back the reason and the message, for a message of at most 65532
-- bytes.
pub decode_disconnect-encode_disconnect :
    (d : DisconnectPayload)
    → length d.message ≤ 65532
    → (encode_disconnect d >>= decode_disconnect) ≡ ok d
unfolding decode_disconnect
decode_disconnect-encode_disconnect d h =
    let n = length d.message in
    let data' = (d.reason ∷ []) ++ (be16 n ++ (d.message ++ [])) in
    let fits : ltb (length data') 3 ≡ false = ground arith in
    let enough : ltb (length data') (3 + n) ≡ false = ground (arith, length-append d.message []) in
    let whole : (3 + n) % 2 ^ 16 ≡ 3 + n = omega arith in
    rw (
      encode_disconnect-bytes d,
      fits,
      field8 [] d.reason (be16 n ++ (d.message ++ [])) 0 refl,
      field16 ((d.reason ∷ []) ∷ []) n (d.message ++ []) 1 refl (omega arith),
      enough,
      whole,
      slice_field ((d.reason ∷ []) ∷ be16 n ∷ []) d.message [] 3 (3 + n) refl refl,
    )
