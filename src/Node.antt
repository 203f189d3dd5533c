-- ===== src/Node.antt =====
-- pkg/node/node.go: the handshake of two nodes and the answers to messages, over the peers of
-- pkg/peer/peer.go. What a method does to a peer and to the node is one step. Timeouts and the log are
-- left out, and an error that is wrapped is the error that is wrapped.
pub mod Config
pub mod BytesReader
pub mod Messages
pub mod Handshaking
pub mod Acknowledging
pub mod Exchange
pub mod Joining
pub mod Agreement
pub mod Connecting
pub mod Reading
pub mod Answering
mod Tests
use lock_free_p2p_go.Prelude.{
  ℕ, zero, suc, ◌+◌, ◌-◌, ◌^◌, Bool, true, false, not, Option, none, some, List, ◌∷◌, [], ◌++◌,
  length, take, drop, ltb, leb, ◌==◌, if◌then◌else◌,
}
use lock_free_p2p_go.Run.{
  Run, ok, err, panic, Error, io_failure, unexpected_type, self_connection, version_mismatch,
  known_node, refused, disconnect_received, already_running, ◌>>=◌, ◌>>◌, fail_if,
}
use lock_free_p2p_go.Peer.{
  Peer, Connection, connected, read_message, write_message, set_id, set_addr, set_version,
  set_user_agent, set_state, set_connected_at, close, inbound, new_peer,
}
use lock_free_p2p_go.Peer.Manager.{PeerManager, Event, add_peer, remove_peer, has_peer, close_all}
use lock_free_p2p_go.Protocol.Message.{
  Message, encode, protocol_version, msg_handshake, msg_handshake_ack,
}
use lock_free_p2p_go.Protocol.Codec.{Reader, decoder_decode}
use lock_free_p2p_go.Protocol.Handshake.{
  HandshakePayload, HandshakeAckPayload, decode_handshake, decode_handshake_ack,
  new_handshake_message, new_handshake_ack_message,
}
use lock_free_p2p_go.Protocol.Control.{decode_ping, decode_disconnect, new_pong_message}
use lock_free_p2p_go.Node.BytesReader.{bytes_reader, new_bytes_reader}

-- The node: its own fields and its peers. `user_agent` is that of the configuration.
pub record Node (C V : Type 0) : Type 0 where
  pub id : List ℕ
  pub nonce : ℕ
  pub listen_port : ℕ
  pub user_agent : List ℕ
  pub peer_manager : PeerManager (Peer C V)
  pub running : Bool

-- `protocol.NewDecoder(newBytesReader(data)).Decode()`
unfoldable pub decode_message : (checksum_ieee : List ℕ → ℕ) → List ℕ → Run Message
decode_message checksum_ieee data' =
    (decoder_decode checksum_ieee bytes_reader (new_bytes_reader data')).1

module _ {C V : Type 0} (checksum_ieee : List ℕ → ℕ) where
  -- The message of `sendHandshake`, encoded.
  unfoldable pub handshake_bytes : Node C V → Run (List ℕ)
  handshake_bytes n = do
    msg ← new_handshake_message checksum_ieee (record {
      version = protocol_version;
      node_id = n.id;
      listen_port = n.listen_port;
      user_agent = n.user_agent;
      nonce = n.nonce;
    })
    encode msg

  -- The message of `sendHandshakeAck`, encoded.
  unfoldable pub handshake_ack_bytes :
      Node C V → (accepted : Bool) → (reason : List ℕ) → Run (List ℕ)
  handshake_ack_bytes n accepted reason = do
    msg ← new_handshake_ack_message checksum_ieee (record {
      accepted = accepted;
      reason = reason;
      version = protocol_version;
      node_id = n.id;
      listen_port = n.listen_port;
      user_agent = n.user_agent;
      nonce = n.nonce;
    })
    encode msg

  -- The checks of `receiveHandshake` on what was read.
  unfoldable pub check_handshake :
      (hex : List ℕ → List ℕ) → Node C V → (data' : List ℕ) → Run HandshakePayload
  check_handshake hex n data' = do
    msg ← decode_message checksum_ieee data'
    fail_if (not (msg.type == msg_handshake)) unexpected_type
    payload ← decode_handshake msg.payload
    fail_if (payload.nonce == n.nonce) self_connection
    fail_if (not (payload.version == protocol_version)) version_mismatch
    fail_if (has_peer hex n.peer_manager payload.node_id) known_node
    ok payload

  -- The checks of `receiveHandshakeAck`
  unfoldable pub check_handshake_ack : Node C V → (data' : List ℕ) → Run HandshakeAckPayload
  check_handshake_ack n data' = do
    msg ← decode_message checksum_ieee data'
    fail_if (not (msg.type == msg_handshake_ack)) unexpected_type
    payload ← decode_handshake_ack msg.payload
    fail_if (not payload.accepted) refused
    fail_if (payload.nonce == n.nonce) self_connection
    ok payload

  module _ (io : Connection C) where
    -- `p.WriteMessage(data)` of an encoded message
    abbrev pub write_bytes : Peer C V → Run (List ℕ) → Peer C V × Run (Unit {0})
    write_bytes p (ok data') = write_message io p data'
    write_bytes p (err e) = (p, err e)
    write_bytes p panic = (p, panic)

    -- `sendHandshake` and `sendHandshakeAck`
    unfoldable pub send_handshake : Node C V → Peer C V → Peer C V × Run (Unit {0})
    send_handshake n p = write_bytes p (handshake_bytes n)

    unfoldable pub send_handshake_ack :
        Node C V → Peer C V → (accepted : Bool) → (reason : List ℕ) → Peer C V × Run (Unit {0})
    send_handshake_ack n p accepted reason = write_bytes p (handshake_ack_bytes n accepted reason)

    -- The end of `receiveHandshake`. `peer_addr` is the address made of the host of the connection's
    -- other end, which SplitHostPort takes from it, and the port of the payload.
    abbrev pub introduced :
        (peer_addr : Peer C V → ℕ → List ℕ)
        → Peer C V
        → Run HandshakePayload
        → Peer C V × Run (Unit {0})
    introduced peer_addr p (ok payload) =
        let named = set_id p payload.node_id in
        let versioned = set_version named payload.version in
        let q = set_user_agent versioned payload.user_agent in
        (set_addr q (peer_addr q payload.listen_port), ok tt)
    introduced peer_addr p (err e) = (p, err e)
    introduced peer_addr p panic = (p, panic)

    -- `receiveHandshake` at the time `now`
    unfoldable pub receive_handshake :
        (hex : List ℕ → List ℕ)
        → (peer_addr : Peer C V → ℕ → List ℕ) → (now : ℕ) → Node C V
        → Peer C V
        → Peer C V × Run (Unit {0})
    receive_handshake hex peer_addr now n p =
        let r = read_message io now p in introduced peer_addr r.0 (r.1 >>= check_handshake hex n)

    -- The end of `receiveHandshakeAck`
    abbrev pub acknowledged : Peer C V → Run HandshakeAckPayload → Peer C V × Run (Unit {0})
    acknowledged p (ok payload) =
        let named = set_id p payload.node_id in
        let versioned = set_version named payload.version in
        (set_user_agent versioned payload.user_agent, ok tt)
    acknowledged p (err e) = (p, err e)
    acknowledged p panic = (p, panic)

    -- `receiveHandshakeAck` at the time `now`
    unfoldable pub receive_handshake_ack :
        (now : ℕ) → Node C V → Peer C V → Peer C V × Run (Unit {0})
    receive_handshake_ack now n p =
        let r = read_message io now p in acknowledged r.0 (r.1 >>= check_handshake_ack n)

    -- `handlePing`
    unfoldable pub handle_ping : Peer C V → Message → Peer C V × Run (Unit {0})
    handle_ping p msg = write_bytes p (do
      payload ← decode_ping msg.payload
      pong ← new_pong_message checksum_ieee payload.nonce
      encode pong)

    -- `handleDisconnect`; its error is only logged.
    unfoldable pub handle_disconnect : Peer C V → Message → Peer C V × Run (Unit {0})
    handle_disconnect p msg =
        (p, do payload ← decode_disconnect msg.payload; err disconnect_received)

module _ {C V : Type 0} (hex : List ℕ → List ℕ) (io : Connection C) where
  -- What `startPeer` does when AddPeer returns: the peer, which is closed after an error, and whether
  -- the loop that reads starts. A panic ends the process.
  abbrev pub registered :
      Node C V
      → Peer C V
      → PeerManager (Peer C V) × Run (Option (Event (Peer C V)))
      → Node C V × Peer C V × Run Bool
  registered n p (m, ok e) = (record n { peer_manager = m }, p, ok true)
  registered n p (m, err e) = (record n { peer_manager = m }, (close io p).0, ok false)
  registered n p (m, panic) = (record n { peer_manager = m }, p, panic)

  -- `startPeer` at the time `now`
  unfoldable pub start_peer : (now : ℕ) → Node C V → Peer C V → Node C V × Peer C V × Run Bool
  start_peer now n p =
      let q = set_connected_at (set_state p connected) now in
      registered n q (add_peer hex n.peer_manager q)

  -- `removePeer`; a nil peer is left out.
  unfoldable pub node_remove_peer : Node C V → Peer C V → Node C V × Peer C V
  node_remove_peer n p =
      let r = remove_peer hex n.peer_manager p.id in
      (record n { peer_manager = r.0 }, (close io p).0)

  -- `Start`: `port` is the port on which the server listens, `none` when it does not start. A node
  -- whose server does not start stays marked as running.
  unfoldable pub start_node : (port : Option ℕ) → Node C V → Node C V × Run (Unit {0})
  start_node port n = if n.running then (n, err already_running) else listening port
    where
      listening : Option ℕ → Node C V × Run (Unit {0})
      listening none = (record n { running = true }, err io_failure)
      listening (some p) = (record n { running = true; listen_port = p }, ok tt)

  -- `Stop`; it returns no error, whatever the Close of a peer returned.
  unfoldable pub stop_node :
      (range : List (List ℕ × Peer C V) → List (List ℕ × Peer C V)) → Node C V → Node C V
  stop_node range n =
      if n.running
      then record n { running = false; peer_manager = (close_all io range n.peer_manager).0 }
      else n
