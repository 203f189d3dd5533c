-- ===== src/Node/Agreement.antt =====
-- pkg/node/node.go: what a node has read when a handshake or an answer to one is accepted.
use lock_free_p2p_go.Prelude.{ℕ, ◌≡◌, ◌≢◌, refl, sym, ap, ◌∙◌, true, false, not, List, ◌==◌, arith}
use lock_free_p2p_go.Run.{Run, ok, err, panic, ◌>>=◌}
use lock_free_p2p_go.Run.Laws.{bind-ok, fail_if-ok, ok-injective}
use lock_free_p2p_go.Peer.{
  Peer, Connection, read_message, set_id, set_addr, set_version, set_user_agent,
}
use lock_free_p2p_go.Protocol.Message.{Message, protocol_version, msg_handshake, msg_handshake_ack}
use lock_free_p2p_go.Protocol.Handshake.{
  HandshakePayload, HandshakeAckPayload, decode_handshake, decode_handshake_ack,
}
use lock_free_p2p_go.Node.{
  Node, decode_message, check_handshake, check_handshake_ack, introduced, acknowledged,
  receive_handshake, receive_handshake_ack,
}

differs : {a b : ℕ} → (a == b) ≡ false → a ≢ b
differs h = ground arith

agrees : {a b : ℕ} → not (a == b) ≡ false → a ≡ b
agrees h = ground arith

-- A handshake of another node, of the own version, from a peer with the identifier `id`.
pub record Greeted {C V : Type 0} (checksum_ieee : List ℕ → ℕ) (n : Node C V) (read : Run (List ℕ))
    (id : List ℕ) : Type 0 where
  pub bytes : List ℕ
  pub msg : Message
  pub payload : HandshakePayload
  pub arrived : read ≡ ok bytes
  pub decodes : decode_message checksum_ieee bytes ≡ ok msg
  pub kind : msg.type ≡ msg_handshake
  pub holds : decode_handshake msg.payload ≡ ok payload
  pub foreign : payload.nonce ≢ n.nonce
  pub current : payload.version ≡ protocol_version
  pub named : id ≡ payload.node_id

-- An answer of another node that accepts, from a peer with the identifier `id`.
pub record Accepted {C V : Type 0} (checksum_ieee : List ℕ → ℕ) (n : Node C V) (read : Run (List ℕ))
    (id : List ℕ) : Type 0 where
  pub bytes : List ℕ
  pub msg : Message
  pub payload : HandshakeAckPayload
  pub arrived : read ≡ ok bytes
  pub decodes : decode_message checksum_ieee bytes ≡ ok msg
  pub kind : msg.type ≡ msg_handshake_ack
  pub holds : decode_handshake_ack msg.payload ≡ ok payload
  pub agreed : payload.accepted ≡ true
  pub foreign : payload.nonce ≢ n.nonce
  pub named : id ≡ payload.node_id

module _ {C V : Type 0} (checksum_ieee : List ℕ → ℕ) (io : Connection C) where
  introduced-ok :
      (peer_addr : Peer C V → ℕ → List ℕ) (p : Peer C V) (r : Run HandshakePayload)
      → (introduced checksum_ieee io peer_addr p r).1 ≡ ok tt
      → (payload : HandshakePayload) × (r ≡ ok payload)
        × ((introduced checksum_ieee io peer_addr p r).0.id ≡ payload.node_id)
  unfolding set_id set_version set_user_agent set_addr
  introduced-ok peer_addr p (ok payload) e = (payload, refl, refl)
  introduced-ok peer_addr p (err x) e = absurd (cc e)
  introduced-ok peer_addr p panic e = absurd (cc e)

  acknowledged-ok :
      (p : Peer C V) (r : Run HandshakeAckPayload)
      → (acknowledged checksum_ieee io p r).1 ≡ ok tt
      → (payload : HandshakeAckPayload) × (r ≡ ok payload)
        × ((acknowledged checksum_ieee io p r).0.id ≡ payload.node_id)
  unfolding set_id set_version set_user_agent
  acknowledged-ok p (ok payload) e = (payload, refl, refl)
  acknowledged-ok p (err x) e = absurd (cc e)
  acknowledged-ok p panic e = absurd (cc e)

  -- A receiveHandshake that returns no error has read such a handshake.
  pub receive_handshake-Greeted :
      (hex : List ℕ → List ℕ) (peer_addr : Peer C V → ℕ → List ℕ) (now : ℕ) (n : Node C V)
      (p : Peer C V)
      → (receive_handshake checksum_ieee io hex peer_addr now n p).1 ≡ ok tt
      → Greeted checksum_ieee n
          (read_message io now p).1
          (receive_handshake checksum_ieee io hex peer_addr now n p).0.id
  unfolding receive_handshake check_handshake
  receive_handshake-Greeted hex peer_addr now n p e =
      let r = read_message io now p in
      let (payload, passed, named) =
        introduced-ok peer_addr r.0 (r.1 >>= check_handshake checksum_ieee hex n) e in
      let (bytes, arrived, checked) =
        bind-ok r.1 (check_handshake checksum_ieee hex n) payload passed in
      let (msg, decodes, c1) = bind-ok (decode_message checksum_ieee bytes) _ payload checked in
      let (kind, c2) = fail_if-ok _ _ _ payload c1 in
      let (found, holds, c3) = bind-ok (decode_handshake msg.payload) _ payload c2 in
      let (foreign, c4) = fail_if-ok _ _ _ payload c3 in
      let (current, c5) = fail_if-ok _ _ _ payload c4 in
      let (new, c6) = fail_if-ok _ _ _ payload c5 in
      let same : found ≡ payload = ok-injective c6 in
      record {
        bytes = bytes;
        msg = msg;
        payload = found;
        arrived = arrived;
        decodes = decodes;
        kind = agrees kind;
        holds = holds;
        foreign = differs foreign;
        current = agrees current;
        named = named ∙ sym (ap (λ x. x.node_id) same);
      }

  -- A receiveHandshakeAck that returns no error has read such an answer.
  pub receive_handshake_ack-Accepted :
      (now : ℕ) (n : Node C V) (p : Peer C V)
      → (receive_handshake_ack checksum_ieee io now n p).1 ≡ ok tt
      → Accepted checksum_ieee n
          (read_message io now p).1
          (receive_handshake_ack checksum_ieee io now n p).0.id
  unfolding receive_handshake_ack check_handshake_ack
  receive_handshake_ack-Accepted now n p e =
      let r = read_message io now p in
      let (payload, passed, named) =
        acknowledged-ok r.0 (r.1 >>= check_handshake_ack checksum_ieee n) e in
      let (bytes, arrived, checked) =
        bind-ok r.1 (check_handshake_ack checksum_ieee n) payload passed in
      let (msg, decodes, c1) = bind-ok (decode_message checksum_ieee bytes) _ payload checked in
      let (kind, c2) = fail_if-ok _ _ _ payload c1 in
      let (found, holds, c3) = bind-ok (decode_handshake_ack msg.payload) _ payload c2 in
      let (agreed, c4) = fail_if-ok (not found.accepted) _ _ payload c3 in
      let (foreign, c5) = fail_if-ok _ _ _ payload c4 in
      let same : found ≡ payload = ok-injective c5 in
      record {
        bytes = bytes;
        msg = msg;
        payload = found;
        arrived = arrived;
        decodes = decodes;
        kind = agrees kind;
        holds = holds;
        agreed = ground (arith, agreed);
        foreign = differs foreign;
        named = named ∙ sym (ap (λ x. x.node_id) same);
      }
