-- ===== src/Node/Acknowledging.antt =====
-- pkg/node/node.go: the answer to a handshake that one node sends and another one receives.
use lock_free_p2p_go.Prelude.{
  ℕ, ◌^◌, ◌<◌, ◌≡◌, refl, ◌∙◌, sym, Bool, false, not, List, ◌==◌, if◌then◌else◌, Bool-cases, inl,
  inr, arith,
}
use lock_free_p2p_go.Run.{ok, err, refused, self_connection}
use lock_free_p2p_go.Run.Laws.{ok-injective}
use lock_free_p2p_go.Peer.{Peer, Connection, read_message, set_id, set_version, set_user_agent}
use lock_free_p2p_go.Protocol.Message.{Message, IsSendable, protocol_version, msg_handshake_ack}
use lock_free_p2p_go.Protocol.Message.Wire.{wire, encode-wire}
use lock_free_p2p_go.Protocol.Handshake.{HandshakeAckPayload, IsHandshakeAck}
use lock_free_p2p_go.Protocol.Handshake.Ack.{
  ack_wire, length-ack_wire, decode_handshake_ack-wire, new_handshake_ack_message-wire,
}
use lock_free_p2p_go.Node.Messages.{message_of, message-IsSendable, decode_message-wire}
use lock_free_p2p_go.Node.{Node, handshake_ack_bytes, check_handshake_ack, receive_handshake_ack}

-- What a node answers.
abbrev pub ack_of :
    {C V : Type 0} → Node C V → (accepted : Bool) → (reason : List ℕ) → HandshakeAckPayload
ack_of n accepted reason = record {
  accepted = accepted;
  reason = reason;
  version = protocol_version;
  node_id = n.id;
  listen_port = n.listen_port;
  user_agent = n.user_agent;
  nonce = n.nonce;
}

module _ (checksum_ieee : List ℕ → ℕ) where
  -- The message in which it answers.
  abbrev pub ack_message : HandshakeAckPayload → Message
  ack_message h = message_of checksum_ieee msg_handshake_ack (ack_wire h)

  ack-IsSendable :
      ((b : List ℕ) → checksum_ieee b < 2 ^ 32)
      → (h : HandshakeAckPayload) → IsHandshakeAck h
      → IsSendable checksum_ieee (ack_message h)
  ack-IsSendable fits h v =
      message-IsSendable checksum_ieee fits msg_handshake_ack (ack_wire h) (omega arith)
        (omega (arith, length-ack_wire h v, v.agent_fits, v.reason_fits))

  pub handshake_ack_bytes-wire :
      {C V : Type 0} (n : Node C V) (accepted : Bool) (reason : List ℕ)
      → IsHandshakeAck (ack_of n accepted reason)
      → handshake_ack_bytes checksum_ieee n accepted reason
        ≡ ok (wire (ack_message (ack_of n accepted reason)))
  unfolding handshake_ack_bytes
  handshake_ack_bytes-wire n accepted reason v =
      rw (new_handshake_ack_message-wire checksum_ieee (ack_of n accepted reason) v)
        (encode-wire (ack_message (ack_of n accepted reason)))

  -- The checks on an answer that arrives whole.
  check_handshake_ack-wire :
      {C V : Type 0} (n : Node C V) (h : HandshakeAckPayload)
      → ((bytes : List ℕ) → checksum_ieee bytes < 2 ^ 32)
      → IsHandshakeAck h
      → check_handshake_ack checksum_ieee n (wire (ack_message h)) ≡ (
          if h.accepted
          then if h.nonce == n.nonce then err self_connection else ok h
          else err refused)
  unfolding check_handshake_ack
  check_handshake_ack-wire n h fits v =
      let read = decode_message-wire checksum_ieee (ack_message h) (ack-IsSendable fits h v) in
      rw (read, decode_handshake_ack-wire h v)
        (elim (Bool-cases h.accepted) [
          | inr off ↦ rw off refl
          | inl on ↦ elim (Bool-cases (h.nonce == n.nonce)) [
            | inl itself ↦ rw (on, itself) refl
            | inr other ↦ rw (on, other) refl
          ]
        ])

-- An answer that sendHandshakeAck of a node encodes, its fields being of their Go types and its reason
-- and its user agent of fewer than 65536 bytes each, and that reaches another node whole: receiveHandshakeAck returns the error of a refusal if the answer is one,
-- otherwise that for its own nonce, and otherwise none; and the peer has the sender's identifier,
-- version and user agent if there was no error, and is as the read left it if there was one.
pub receive_handshake_ack-handshake_ack_bytes :
    {C V D W : Type 0} (checksum_ieee : List ℕ → ℕ) (io : Connection C) (now : ℕ) (a : Node C V)
    (b : Node D W) (accepted : Bool) (reason : List ℕ) (p : Peer C V) (bytes : List ℕ)
    → ((bytes : List ℕ) → checksum_ieee bytes < 2 ^ 32)
    → IsHandshakeAck (ack_of b accepted reason)
    → handshake_ack_bytes checksum_ieee b accepted reason ≡ ok bytes
    → (read_message io now p).1 ≡ ok bytes
    → let r = receive_handshake_ack checksum_ieee io now a p in
      let q = (read_message io now p).0 in
      let agreed = if accepted then not (b.nonce == a.nonce) else false in
      (r.1 ≡ (
        if accepted
        then if b.nonce == a.nonce then err self_connection else ok tt
        else err refused))
      × (r.0.id ≡ (if agreed then b.id else q.id))
      × (r.0.version ≡ (if agreed then protocol_version else q.version))
      × (r.0.user_agent ≡ (if agreed then b.user_agent else q.user_agent))
unfolding receive_handshake_ack set_id set_version set_user_agent
receive_handshake_ack-handshake_ack_bytes checksum_ieee io now a b accepted reason p bytes fits v
      sent arrived =
    let h = ack_of b accepted reason in
    let same : bytes ≡ wire (ack_message checksum_ieee h) =
      ok-injective (sym sent ∙ handshake_ack_bytes-wire checksum_ieee b accepted reason v) in
    let checked = check_handshake_ack-wire checksum_ieee a h fits v in
    rw (arrived, same, checked)
      (elim (Bool-cases accepted) [
        | inr off ↦ rw off (refl, refl, refl, refl)
        | inl taken ↦ elim (Bool-cases (b.nonce == a.nonce)) [
          | inl itself ↦ rw (taken, itself) (refl, refl, refl, refl)
          | inr other ↦ rw (taken, other) (refl, refl, refl, refl)
        ]
      ])
