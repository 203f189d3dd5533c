-- ===== src/Node/Answering.antt =====
-- pkg/node/node.go: a Ping and a Disconnect that a node reads from a peer.
use lock_free_p2p_go.Prelude.{
  ℕ, ◌^◌, ◌≤◌, ◌<◌, ◌≡◌, refl, ◌∙◌, ap, sym, true, List, ◌∷◌, [], ◌++◌, length, arith,
  length-append,
}
use lock_free_p2p_go.Run.{ok, ◌>>=◌, ◌>>◌}
use lock_free_p2p_go.Run.Laws.{ok-injective}
use lock_free_p2p_go.Bytes.{be16, be64}
use lock_free_p2p_go.Peer.{Peer, Connection, read_message, write_message}
use lock_free_p2p_go.Protocol.Message.{Message, encode, msg_ping, msg_pong, msg_disconnect}
use lock_free_p2p_go.Protocol.Message.Wire.{wire, encode-wire}
use lock_free_p2p_go.Protocol.Control.{
  decode_pong, decode_disconnect, new_ping_message, new_pong_message, new_disconnect_message,
}
use lock_free_p2p_go.Protocol.Control.RoundTrip.{
  encode_ping-bytes, encode_pong-bytes, decode_ping-bytes, decode_pong-bytes,
  encode_disconnect-bytes, decode_disconnect-encode_disconnect,
}
use lock_free_p2p_go.Node.{Node, decode_message, handle_ping, handle_disconnect}
use lock_free_p2p_go.Node.Messages.{message_of, message-IsSendable, decode_message-wire}
use lock_free_p2p_go.Node.Reading.{Addresses, only_logged, read_round, default_handlers}

module _ (checksum_ieee : List ℕ → ℕ) where
  -- The bytes in which a Ping and a Disconnect are sent.
  abbrev pub ping_wire : (nonce : ℕ) → List ℕ
  ping_wire nonce = wire (message_of checksum_ieee msg_ping (be64 nonce ++ []))

  abbrev pub disconnect_wire : (reason : ℕ) → (message : List ℕ) → List ℕ
  disconnect_wire reason message = wire (
      message_of checksum_ieee msg_disconnect
        ((reason ∷ []) ++ (be16 (length message) ++ (message ++ []))))

  pub new_ping_message-wire :
      (nonce : ℕ) → (new_ping_message checksum_ieee nonce >>= encode) ≡ ok (ping_wire nonce)
  unfolding new_ping_message
  new_ping_message-wire nonce =
      rw (encode_ping-bytes nonce)
        (encode-wire (message_of checksum_ieee msg_ping (be64 nonce ++ [])))

  pub new_disconnect_message-wire :
      (reason : ℕ) (message : List ℕ)
      → (new_disconnect_message checksum_ieee reason message >>= encode)
        ≡ ok (disconnect_wire reason message)
  unfolding new_disconnect_message
  new_disconnect_message-wire reason message =
      rw (encode_disconnect-bytes (record { reason = reason; message = message })) (
        encode-wire (
          message_of checksum_ieee msg_disconnect
            ((reason ∷ []) ++ (be16 (length message) ++ (message ++ [])))))

module _ {C V : Type 0} (checksum_ieee : List ℕ → ℕ) (io : Connection C)
    (range : List (List ℕ × Peer C V) → List (List ℕ × Peer C V)) (addresses : Addresses)
    (n : Node C V) where
  handle_ping-bytes :
      (p : Peer C V) (nonce : ℕ)
      → nonce < 2 ^ 64
      → handle_ping checksum_ieee io p (message_of checksum_ieee msg_ping (be64 nonce ++ []))
        ≡ write_message io p (wire (message_of checksum_ieee msg_pong (be64 nonce ++ [])))
  unfolding handle_ping new_pong_message
  handle_ping-bytes p nonce h =
      rw (decode_ping-bytes nonce h, encode_pong-bytes nonce)
        (rw (encode-wire (message_of checksum_ieee msg_pong (be64 nonce ++ []))) refl)

  -- A Ping as NewPingMessage makes it, its nonce being a word of 64 bits, that reaches a node whole: one
  -- round of the loop that reads writes to the peer the bytes of a message of the type Pong, whose
  -- payload DecodePongPayload reads as one with the same nonce, and the loop goes on, unless that write
  -- panics.
  pub read_round-new_ping_message :
      (now : ℕ) (p : Peer C V) (nonce : ℕ) (bytes : List ℕ)
      → ((b : List ℕ) → checksum_ieee b < 2 ^ 32)
      → nonce < 2 ^ 64
      → (new_ping_message checksum_ieee nonce >>= encode) ≡ ok bytes
      → (read_message io now p).1 ≡ ok bytes
      → (answer : List ℕ) × (pong : Message) × (read_round checksum_ieee io
            (default_handlers checksum_ieee io range addresses n)
            now
            p
          ≡ (
            (write_message io (read_message io now p).0 answer).0,
            only_logged (write_message io (read_message io now p).0 answer).1 >> ok true,
          ))
        × (decode_message checksum_ieee answer ≡ ok pong)
        × (pong.type ≡ msg_pong)
        × (decode_pong pong.payload ≡ ok (record { nonce = nonce }))
  unfolding read_round default_handlers
  read_round-new_ping_message now p nonce bytes fits h sent arrived =
      let b = be64 nonce ++ [] in
      let ping = message_of checksum_ieee msg_ping b in
      let pong = message_of checksum_ieee msg_pong b in
      let same : bytes ≡ wire ping =
        ok-injective (sym sent ∙ new_ping_message-wire checksum_ieee nonce) in
      let got =
        decode_message-wire checksum_ieee ping
          (message-IsSendable checksum_ieee fits msg_ping b (omega arith) (omega arith)) in
      (
        wire pong,
        pong,
        rw (arrived, same, got)
            (ap (λ r. (r.0, only_logged r.1 >> ok true))
              (handle_ping-bytes (read_message io now p).0 nonce h)),
        decode_message-wire checksum_ieee pong
            (message-IsSendable checksum_ieee fits msg_pong b (omega arith) (omega arith)),
        refl,
        decode_pong-bytes nonce h,
      )

  -- A Disconnect with a message of at most 65532 bytes that reaches a node whole: after the round that
  -- reads it the peer is as the read left it, not closed, and the loop goes on.
  pub read_round-new_disconnect_message :
      (now : ℕ) (p : Peer C V) (reason : ℕ) (message : List ℕ) (bytes : List ℕ)
      → ((b : List ℕ) → checksum_ieee b < 2 ^ 32)
      → length message ≤ 65532
      → (new_disconnect_message checksum_ieee reason message >>= encode) ≡ ok bytes
      → (read_message io now p).1 ≡ ok bytes
      → read_round checksum_ieee io (default_handlers checksum_ieee io range addresses n) now p
        ≡ ((read_message io now p).0, ok true)
  unfolding read_round default_handlers handle_disconnect
  read_round-new_disconnect_message now p reason message bytes fits h sent arrived =
      let b = (reason ∷ []) ++ (be16 (length message) ++ (message ++ [])) in
      let m = message_of checksum_ieee msg_disconnect b in
      let same : bytes ≡ wire m =
        ok-injective (sym sent ∙ new_disconnect_message-wire checksum_ieee reason message) in
      let got = decode_message-wire checksum_ieee m (
        message-IsSendable checksum_ieee fits msg_disconnect b (omega arith)
          (omega (arith, h, length-append message []))) in
      let read : decode_disconnect b ≡ ok (record { reason = reason; message = message }) =
        rw (encode_disconnect-bytes (record { reason = reason; message = message })) at
          (decode_disconnect-encode_disconnect (record { reason = reason; message = message }) h) in
      rw (arrived, same, got, read) refl
