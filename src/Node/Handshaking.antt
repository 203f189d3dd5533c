-- ===== src/Node/Handshaking.antt =====
-- pkg/node/node.go: a handshake that one node sends and another one receives.
use lock_free_p2p_go.Prelude.{
  ℕ, ◌^◌, ◌<◌, ◌≡◌, refl, ◌∙◌, sym, Bool, true, false, not, List, ◌==◌, if◌then◌else◌, Bool-cases,
  inl, inr, arith,
}
use lock_free_p2p_go.Run.{Run, ok, err, self_connection, known_node}
use lock_free_p2p_go.Run.Laws.{ok-injective}
use lock_free_p2p_go.Peer.{
  Peer, Connection, read_message, set_id, set_version, set_user_agent, set_addr,
}
use lock_free_p2p_go.Peer.Manager.{has_peer}
use lock_free_p2p_go.Protocol.Message.{Message, IsSendable, protocol_version, msg_handshake}
use lock_free_p2p_go.Protocol.Message.Wire.{wire, encode-wire}
use lock_free_p2p_go.Protocol.Handshake.{HandshakePayload, IsHandshake}
use lock_free_p2p_go.Protocol.Handshake.RoundTrip.{
  handshake_wire, new_handshake_message-wire, decode_handshake-wire, length-handshake_wire,
}
use lock_free_p2p_go.Node.Messages.{message_of, message-IsSendable, decode_message-wire}
use lock_free_p2p_go.Node.{Node, handshake_bytes, check_handshake, receive_handshake}

-- What a node tells of itself.
abbrev pub handshake_of : {C V : Type 0} → Node C V → HandshakePayload
handshake_of n = record {
  version = protocol_version;
  node_id = n.id;
  listen_port = n.listen_port;
  user_agent = n.user_agent;
  nonce = n.nonce;
}

module _ (checksum_ieee : List ℕ → ℕ) where
  -- The message in which it tells it.
  abbrev pub handshake_message : HandshakePayload → Message
  handshake_message h = message_of checksum_ieee msg_handshake (handshake_wire h)

  handshake-IsSendable :
      ((b : List ℕ) → checksum_ieee b < 2 ^ 32)
      → (h : HandshakePayload) → IsHandshake h
      → IsSendable checksum_ieee (handshake_message h)
  handshake-IsSendable fits h v =
      message-IsSendable checksum_ieee fits msg_handshake (handshake_wire h) (omega arith)
        (omega (arith, length-handshake_wire h v, v.agent_fits))

  pub handshake_bytes-wire :
      {C V : Type 0} (n : Node C V)
      → IsHandshake (handshake_of n)
      → handshake_bytes checksum_ieee n ≡ ok (wire (handshake_message (handshake_of n)))
  unfolding handshake_bytes
  handshake_bytes-wire n v =
      rw (new_handshake_message-wire checksum_ieee (handshake_of n) v)
        (encode-wire (handshake_message (handshake_of n)))

  module _ {C V : Type 0} (hex : List ℕ → List ℕ) (b : Node C V) where
    -- The checks on a handshake that arrives whole.
    check_handshake-wire :
        (h : HandshakePayload)
        → ((bytes : List ℕ) → checksum_ieee bytes < 2 ^ 32)
        → IsHandshake h
        → h.version ≡ protocol_version
        → check_handshake checksum_ieee hex b (wire (handshake_message h)) ≡ (
            if h.nonce == b.nonce
            then err self_connection
            else if has_peer hex b.peer_manager h.node_id
            then err known_node
            else ok h)
    unfolding check_handshake
    check_handshake-wire h fits v version =
        let read =
          decode_message-wire checksum_ieee (handshake_message h) (handshake-IsSendable fits h v) in
        let current : (h.version == protocol_version) ≡ true = ground (arith, version) in
        rw (read, decode_handshake-wire h v)
          (elim (Bool-cases (h.nonce == b.nonce)) [
            | inl self ↦ rw self refl
            | inr other ↦ elim (Bool-cases (has_peer hex b.peer_manager h.node_id)) [
              | inl known ↦ rw (other, current, known) refl
              | inr new ↦ rw (other, current, new) refl
            ]
          ])

-- Whether a node accepts a handshake, and what it answers.
abbrev pub accepts : {C V : Type 0} → (hex : List ℕ → List ℕ) → Node C V → HandshakePayload → Bool
accepts hex b h = if h.nonce == b.nonce then false else not (has_peer hex b.peer_manager h.node_id)

abbrev pub answer :
    {C V : Type 0} → (hex : List ℕ → List ℕ) → Node C V → HandshakePayload → Run (Unit {0})
answer hex b h =
    if h.nonce == b.nonce
    then err self_connection
    else if has_peer hex b.peer_manager h.node_id
    then err known_node
    else ok tt

-- A handshake that sendHandshake of a node encodes, its fields being of their Go types and its user
-- agent of fewer than 65536 bytes, and that reaches another node whole: receiveHandshake returns the error for its own nonce, or that for a node
-- of which it has a peer, and otherwise none; and the peer has the sender's identifier, version and
-- user agent if there was no error, and is as the read left it if there was one.
pub receive_handshake-handshake_bytes :
    {C V D W : Type 0} (checksum_ieee : List ℕ → ℕ) (hex : List ℕ → List ℕ) (io : Connection C)
    (peer_addr : Peer C V → ℕ → List ℕ) (now : ℕ) (a : Node D W) (b : Node C V) (p : Peer C V)
    (bytes : List ℕ)
    → ((bytes : List ℕ) → checksum_ieee bytes < 2 ^ 32)
    → IsHandshake (handshake_of a)
    → handshake_bytes checksum_ieee a ≡ ok bytes
    → (read_message io now p).1 ≡ ok bytes
    → let r = receive_handshake checksum_ieee io hex peer_addr now b p in
      let q = (read_message io now p).0 in
      let accepted = accepts hex b (handshake_of a) in
      (r.1 ≡ answer hex b (handshake_of a))
      × (r.0.id ≡ (if accepted then a.id else q.id))
      × (r.0.version ≡ (if accepted then protocol_version else q.version))
      × (r.0.user_agent ≡ (if accepted then a.user_agent else q.user_agent))
unfolding receive_handshake set_id set_version set_user_agent set_addr
receive_handshake-handshake_bytes checksum_ieee hex io peer_addr now a b p bytes fits v sent
      arrived =
    let h = handshake_of a in
    let sent_is = handshake_bytes-wire checksum_ieee a v in
    let same : bytes ≡ wire (handshake_message checksum_ieee h) =
      ok-injective (sym sent ∙ sent_is) in
    let checked = check_handshake-wire checksum_ieee hex b h fits v refl in
    rw (arrived, same, checked)
      (elim (Bool-cases (a.nonce == b.nonce)) [
        | inl itself ↦ rw itself (refl, refl, refl, refl)
        | inr other ↦ elim (Bool-cases (has_peer hex b.peer_manager a.id)) [
          | inl known ↦ rw (other, known) (refl, refl, refl, refl)
          | inr new ↦ rw (other, new) (refl, refl, refl, refl)
        ]
      ])
