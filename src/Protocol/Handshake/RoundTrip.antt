-- ===== src/Protocol/Handshake/RoundTrip.antt =====
-- pkg/protocol/handshake.go: the handshake, decoded after it was encoded.
use lock_free_p2p_go.Prelude.{
  ℕ, ◌+◌, ◌≡◌, refl, List, ◌∷◌, [], ◌++◌, arith, length, length-append, ltb, false,
}
use lock_free_p2p_go.Run.{ok, ◌>>=◌}
use lock_free_p2p_go.Bytes.{be16, be32, be64}
use lock_free_p2p_go.Bytes.Writes.{putting, copying, writes, writes_fill}
use lock_free_p2p_go.Bytes.Reads.{field16, field32, field64, slice_field}
use lock_free_p2p_go.Protocol.Message.{msg_handshake}
use lock_free_p2p_go.Protocol.Handshake.{
  new_handshake_message, HandshakePayload, encode_handshake, decode_handshake, IsHandshake,
}

-- The byte layout in the comment on `Encode`: version, node id, port, nonce, agent.
abbrev pub handshake_wire : HandshakePayload → List ℕ
handshake_wire h =
    be32 h.version
    ++ (h.node_id
        ++ (be16 h.listen_port
            ++ (be64 h.nonce ++ (be16 (length h.user_agent) ++ (h.user_agent ++ [])))))

pub encode_handshake-wire :
    (h : HandshakePayload) → IsHandshake h → encode_handshake h ≡ ok (handshake_wire h)
unfolding encode_handshake writes
encode_handshake-wire h v =
    let n = v.id_length in
    writes_fill
      ((putting, 0, be32 h.version)
        ∷ (copying, 4, h.node_id)
        ∷ (putting, 20, be16 h.listen_port)
        ∷ (putting, 22, be64 h.nonce)
        ∷ (putting, 30, be16 (length h.user_agent))
        ∷ (copying, 32, h.user_agent)
        ∷ [])
      (4 + 16 + 2 + 8 + 2 + length h.user_agent) (omega arith)
      (omega (
        arith,
        length-append h.user_agent [],
        length-append h.node_id (
            be16 h.listen_port
            ++ (be64 h.nonce ++ (be16 (length h.user_agent) ++ (h.user_agent ++ [])))),
      ))

pub length-handshake_wire :
    (h : HandshakePayload) → IsHandshake h → length (handshake_wire h) ≡ 32 + length h.user_agent
length-handshake_wire h v =
    let n = v.id_length in
    omega (
      arith,
      length-append h.user_agent [],
      length-append h.node_id (
          be16 h.listen_port
          ++ (be64 h.nonce ++ (be16 (length h.user_agent) ++ (h.user_agent ++ [])))),
    )

pub decode_handshake-wire :
    (h : HandshakePayload) → IsHandshake h → decode_handshake (handshake_wire h) ≡ ok h
unfolding decode_handshake
decode_handshake-wire h v =
    let n = v.id_length in
    let w = handshake_wire h in
    let size = length-handshake_wire h v in
    let fits : ltb (length w) 32 ≡ false = ground (arith, size) in
    let enough : ltb (length w) (32 + length h.user_agent) ≡ false = ground (arith, size) in
    let ver = be32 h.version in
    let port = be16 h.listen_port in
    let nonce = be64 h.nonce in
    let len = be16 (length h.user_agent) in
    rw (
      fits,
      field32 [] h.version (h.node_id ++ (port ++ (nonce ++ (len ++ (h.user_agent ++ []))))) 0 refl
          v.version_fits,
      slice_field (ver ∷ []) h.node_id (port ++ (nonce ++ (len ++ (h.user_agent ++ [])))) 4 20 refl
          (omega arith),
      field16 (ver ∷ h.node_id ∷ []) h.listen_port (nonce ++ (len ++ (h.user_agent ++ []))) 20
          (omega arith) v.port_fits,
      field64 (ver ∷ h.node_id ∷ port ∷ []) h.nonce (len ++ (h.user_agent ++ [])) 22 (omega arith)
          v.nonce_fits,
      field16 (ver ∷ h.node_id ∷ port ∷ nonce ∷ []) (length h.user_agent) (h.user_agent ++ []) 30
          (omega arith) v.agent_fits,
      enough,
      slice_field (ver ∷ h.node_id ∷ port ∷ nonce ∷ len ∷ []) h.user_agent [] 32
          (32 + length h.user_agent) (omega arith) refl,
    )

-- DecodeHandshakePayload reads back every payload that Encode writes: all fields, for a user agent
-- of at most 65535 bytes.
pub decode_handshake-encode_handshake :
    (h : HandshakePayload) → IsHandshake h → (encode_handshake h >>= decode_handshake) ≡ ok h
decode_handshake-encode_handshake h v = rw (encode_handshake-wire h v) (decode_handshake-wire h v)

-- The message of a payload, whose encoding succeeds.
pub new_handshake_message-wire :
    (checksum_ieee : List ℕ → ℕ) (h : HandshakePayload)
    → IsHandshake h
    → new_handshake_message checksum_ieee h
      ≡ ok (record {
        type = msg_handshake;
        payload = handshake_wire h;
        checksum = checksum_ieee (handshake_wire h);
      })
unfolding new_handshake_message
new_handshake_message-wire checksum_ieee h v = rw (encode_handshake-wire h v) refl
