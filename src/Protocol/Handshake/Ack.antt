-- ===== src/Protocol/Handshake/Ack.antt =====
-- pkg/protocol/handshake.go: the answer to a handshake, decoded after it was encoded.
use lock_free_p2p_go.Prelude.{
  ℕ, ◌+◌, ◌≤◌, ◌≡◌, refl, List, ◌∷◌, [], ◌++◌, arith, length, length-append, ltb, false, true, Bool,
  if◌then◌else◌, ◌==◌,
}
use lock_free_p2p_go.Run.{ok, ◌>>=◌}
use lock_free_p2p_go.Bytes.{be16, be32, be64, word}
use lock_free_p2p_go.Bytes.Writes.{putting, copying, writes, writes_fill}
use lock_free_p2p_go.Bytes.Reads.{field16, field32, field64, word_field, slice_field}
use lock_free_p2p_go.Protocol.Message.{msg_handshake_ack}
use lock_free_p2p_go.Protocol.Handshake.{
  HandshakeAckPayload, encode_handshake_ack, decode_handshake_ack, IsHandshakeAck,
  new_handshake_ack_message,
}

abbrev flag : Bool → List ℕ
flag b = (if b then 1 else 0) ∷ []

flag_read : (b : Bool) → (word 0 (flag b) == 1) ≡ b
unfolding word
flag_read true = refl
flag_read false = refl

-- What follows the reason: version, node id, port, nonce, agent.
abbrev tail_wire : HandshakeAckPayload → List ℕ
tail_wire h =
    be32 h.version
    ++ (h.node_id
        ++ (be16 h.listen_port
            ++ (be64 h.nonce ++ (be16 (length h.user_agent) ++ (h.user_agent ++ [])))))

abbrev pub ack_wire : HandshakeAckPayload → List ℕ
ack_wire h = flag h.accepted ++ (be16 (length h.reason) ++ (h.reason ++ tail_wire h))

pub length-ack_wire :
    (h : HandshakeAckPayload)
    → IsHandshakeAck h
    → length (ack_wire h) ≡ 35 + length h.reason + length h.user_agent
length-ack_wire h v =
    let n = v.id_length in
    omega (
      arith,
      length-append h.user_agent [],
      length-append h.reason (tail_wire h),
      length-append h.node_id (
          be16 h.listen_port
          ++ (be64 h.nonce ++ (be16 (length h.user_agent) ++ (h.user_agent ++ [])))),
    )

pub encode_handshake_ack-wire :
    (h : HandshakeAckPayload) → IsHandshakeAck h → encode_handshake_ack h ≡ ok (ack_wire h)
unfolding encode_handshake_ack writes
encode_handshake_ack-wire h v =
    let n = v.id_length in
    let r = length h.reason in
    writes_fill
      ((putting, 0, flag h.accepted)
        ∷ (putting, 1, be16 r)
        ∷ (copying, 3, h.reason)
        ∷ (putting, 3 + r, be32 h.version)
        ∷ (copying, 3 + r + 4, h.node_id)
        ∷ (putting, 3 + r + 4 + 16, be16 h.listen_port)
        ∷ (putting, 3 + r + 4 + 16 + 2, be64 h.nonce)
        ∷ (putting, 3 + r + 4 + 16 + 2 + 8, be16 (length h.user_agent))
        ∷ (copying, 3 + r + 4 + 16 + 2 + 8 + 2, h.user_agent)
        ∷ [])
      (1 + 2 + r + 4 + 16 + 2 + 8 + 2 + length h.user_agent) (omega arith)
      (omega (arith, length-ack_wire h v))

pub decode_handshake_ack-wire :
    (h : HandshakeAckPayload) → IsHandshakeAck h → decode_handshake_ack (ack_wire h) ≡ ok h
unfolding decode_handshake_ack
decode_handshake_ack-wire h v =
    let n = v.id_length in
    let r = length h.reason in
    let u = length h.user_agent in
    let size = length-ack_wire h v in
    let long : (k : ℕ) → k ≤ 35 + r + u → ltb (length (ack_wire h)) k ≡ false =
      λ k le. ground (arith, size) in
    let acc = flag h.accepted in
    let rlen = be16 r in
    let ver = be32 h.version in
    let id = h.node_id in
    let port = be16 h.listen_port in
    let nonce = be64 h.nonce in
    let ulen = be16 u in
    let t7 = h.user_agent ++ [] in
    let t6 = ulen ++ t7 in
    let t5 = nonce ++ t6 in
    let t4 = port ++ t5 in
    let t3 = id ++ t4 in
    rw (
      long 35 (omega arith),
      word_field 1 [] acc (rlen ++ (h.reason ++ tail_wire h)) 0 refl refl,
      field16 (acc ∷ []) r (h.reason ++ tail_wire h) 1 refl v.reason_fits,
      long (3 + r) (omega arith),
      slice_field (acc ∷ rlen ∷ []) h.reason (tail_wire h) 3 (3 + r) refl refl,
      long (3 + r + 4) (omega arith),
      field32 (acc ∷ rlen ∷ h.reason ∷ []) h.version t3 (3 + r) (omega arith) v.version_fits,
      long (3 + r + 4 + 16) (omega arith),
      slice_field (acc ∷ rlen ∷ h.reason ∷ ver ∷ []) id t4 (3 + r + 4) (3 + r + 4 + 16)
          (omega arith) (omega arith),
      long (3 + r + 4 + 16 + 2) (omega arith),
      field16 (acc ∷ rlen ∷ h.reason ∷ ver ∷ id ∷ []) h.listen_port t5 (3 + r + 4 + 16)
          (omega arith) v.port_fits,
      long (3 + r + 4 + 16 + 2 + 8) (omega arith),
      field64 (acc ∷ rlen ∷ h.reason ∷ ver ∷ id ∷ port ∷ []) h.nonce t6 (3 + r + 4 + 16 + 2)
          (omega arith) v.nonce_fits,
      long (3 + r + 4 + 16 + 2 + 8 + 2) (omega arith),
      field16 (acc ∷ rlen ∷ h.reason ∷ ver ∷ id ∷ port ∷ nonce ∷ []) u t7 (3 + r + 4 + 16 + 2 + 8)
          (omega arith) v.agent_fits,
      long (3 + r + 4 + 16 + 2 + 8 + 2 + u) (omega arith),
      slice_field (acc ∷ rlen ∷ h.reason ∷ ver ∷ id ∷ port ∷ nonce ∷ ulen ∷ []) h.user_agent []
          (3 + r + 4 + 16 + 2 + 8 + 2) (3 + r + 4 + 16 + 2 + 8 + 2 + u) (omega arith) refl,
      flag_read h.accepted,
    )

-- The message of an answer, whose encoding succeeds.
pub new_handshake_ack_message-wire :
    (checksum_ieee : List ℕ → ℕ) (h : HandshakeAckPayload)
    → IsHandshakeAck h
    → new_handshake_ack_message checksum_ieee h
      ≡ ok (record {
        type = msg_handshake_ack;
        payload = ack_wire h;
        checksum = checksum_ieee (ack_wire h);
      })
unfolding new_handshake_ack_message
new_handshake_ack_message-wire checksum_ieee h v = rw (encode_handshake_ack-wire h v) refl

-- DecodeHandshakeAckPayload reads back every answer that Encode writes: all fields, for a reason
-- and a user agent of at most 65535 bytes each.
pub decode_handshake_ack-encode_handshake_ack :
    (h : HandshakeAckPayload)
    → IsHandshakeAck h
    → (encode_handshake_ack h >>= decode_handshake_ack) ≡ ok h
decode_handshake_ack-encode_handshake_ack h v =
    rw (encode_handshake_ack-wire h v) (decode_handshake_ack-wire h v)
