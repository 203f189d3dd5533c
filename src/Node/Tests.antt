-- ===== src/Node/Tests.antt =====
-- The theorems on a node at concrete ones.
use lock_free_p2p_go.Prelude.{
  All, Bool, ℕ, ◌^◌, ◌<◌, ◌≡◌, refl, arith, true, false, List, ◌∷◌, [], some, none, replicate,
  if◌then◌else◌,
}
use lock_free_p2p_go.Run.{◌>>◌, Run, ok}
use lock_free_p2p_go.Peer.{
  connected, Connection, Peer, inbound, new_peer, read_message, write_message,
}
use lock_free_p2p_go.Peer.Manager.{
  get_connected_peers, collect, has_peer_by_addr, new_peer_manager, default_manager_config,
}
use lock_free_p2p_go.Peer.Manager.Invariant.{IsConfig}
use lock_free_p2p_go.Peer.Manager.Reached.{fresh, IsManager, Reached-IsManager}
use lock_free_p2p_go.Protocol.Message.{Message, protocol_version, msg_pong, msg_peers}
use lock_free_p2p_go.Protocol.Message.Wire.{wire}
use lock_free_p2p_go.Protocol.Control.{decode_pong}
use lock_free_p2p_go.Protocol.Handshake.{IsHandshake}
use lock_free_p2p_go.Node.{Node, decode_message, receive_handshake}
use lock_free_p2p_go.Node.Handshaking.{
  handshake_bytes-wire, handshake_message, handshake_of, accepts, answer,
  receive_handshake-handshake_bytes,
}
use lock_free_p2p_go.Node.Connecting.{
  Settled, handle_inbound_connection, handle_outbound_connection, connections_settle,
}
use lock_free_p2p_go.Protocol.Handshake.{IsHandshakeAck}
use lock_free_p2p_go.Protocol.Peers.{PeerInfo}
use lock_free_p2p_go.Node.{receive_handshake_ack, send_handshake, send_handshake_ack}
use lock_free_p2p_go.Node.Agreement.{Greeted, Accepted}
use lock_free_p2p_go.Peer.{outbound, set_addr}
use lock_free_p2p_go.Node.Acknowledging.{
  ack_of, ack_message, handshake_ack_bytes-wire, receive_handshake_ack-handshake_ack_bytes,
}
use lock_free_p2p_go.Node.Exchange.{IsTold, handle_peers-handle_get_peers}
use lock_free_p2p_go.Node.Reading.{
  only_logged, addrs_to_dial, handle_peers, handle_get_peers, Addresses, read_round,
  default_handlers,
}
use lock_free_p2p_go.Node.Answering.{
  ping_wire, disconnect_wire, new_ping_message-wire, new_disconnect_message-wire,
  read_round-new_ping_message, read_round-new_disconnect_message,
}

abbrev no_checksum : List ℕ → ℕ
no_checksum b = 0

abbrev digits : List ℕ → List ℕ
digits b = b

abbrev in_order : {A : Type 0} → List A → List A
in_order xs = xs

no_checksum_fits : (b : List ℕ) → no_checksum b < 2 ^ 32
no_checksum_fits b = omega arith

-- A connection that brings a number of bytes and takes everything.
abbrev arriving : Run (List ℕ) → Connection ℕ
arriving data' = record {
  read = λ n. (n, data');
  write = λ n b. (n, ok tt);
  shut = λ n. (n, ok tt);
  is_shut = λ n. false;
}

abbrev node : ℕ → Node ℕ ℕ
node k = record {
  id = replicate 16 k;
  nonce = k;
  listen_port = 3000;
  user_agent = k ∷ [];
  peer_manager = new_peer_manager default_manager_config;
  running = true;
}

abbrev a_peer : Peer ℕ ℕ
a_peer = new_peer 7 (some 1) inbound

abbrev to_port : Peer ℕ ℕ → ℕ → List ℕ
to_port p port = port ∷ []

abbrev no_addresses : Addresses
no_addresses = record { split_host_port = λ a. none; atoi = λ a. none; parse_ip = λ a. none }

node-IsHandshake : IsHandshake (handshake_of (node 3))
node-IsHandshake = record {
  version_fits = omega arith;
  id_length = refl;
  port_fits = omega arith;
  nonce_fits = omega arith;
  agent_fits = omega arith;
}

abbrev hello : List ℕ
hello = wire (handshake_message no_checksum (handshake_of (node 3)))

receive_handshake-handshake_bytes_example :
    let io = arriving (ok hello) in
    let r = receive_handshake no_checksum io digits to_port 8 (node 4) a_peer in
    let q = (read_message io 8 a_peer).0 in
    let accepted = accepts digits (node 4) (handshake_of (node 3)) in
    (r.1 ≡ answer digits (node 4) (handshake_of (node 3)))
    × (r.0.id ≡ (if accepted then replicate 16 3 else q.id))
    × (r.0.version ≡ (if accepted then protocol_version else q.version))
    × (r.0.user_agent ≡ (if accepted then 3 ∷ [] else q.user_agent))
unfolding read_message new_peer
receive_handshake-handshake_bytes_example =
    receive_handshake-handshake_bytes no_checksum digits (arriving (ok hello)) to_port 8 (node 3)
      (node 4) a_peer hello no_checksum_fits node-IsHandshake
      (handshake_bytes-wire no_checksum (node 3) node-IsHandshake) refl

default-IsConfig : IsConfig default_manager_config
default-IsConfig = record {
  peers_fit = omega arith;
  inbound_fit = omega arith;
  outbound_fit = omega arith;
}

new-IsManager :
    IsManager {C = ℕ} {V = ℕ} digits default_manager_config
      (new_peer_manager default_manager_config)
new-IsManager = Reached-IsManager digits default_manager_config default-IsConfig fresh

connections_settle_example :
    let io = arriving (ok hello) in
    let p = new_peer {C = ℕ} {V = ℕ} 8 (some 1) inbound in
    let r = receive_handshake no_checksum io digits to_port 8 (node 4) p in
    let a = send_handshake_ack no_checksum io (node 4) r.0 true [] in
    let sent =
      send_handshake no_checksum io
        (node 4)
        (set_addr (new_peer {C = ℕ} {V = ℕ} 8 (some 1) outbound) (9 ∷ [])) in
    let ack = receive_handshake_ack no_checksum io 8 (node 4) sent.0 in
    Settled no_checksum digits io 8
      (node 4)
      r
      a
      (Greeted no_checksum (node 4) (read_message io 8 p).1 a.0.id)
      (handle_inbound_connection no_checksum digits io to_port 8 (node 4) 1)
    × Settled no_checksum digits io 8
        (node 4)
        sent
        ack
        (Accepted no_checksum (node 4) (read_message io 8 sent.0).1 ack.0.id)
        (handle_outbound_connection no_checksum digits io 8 (node 4) (9 ∷ []) 1)
connections_settle_example =
    connections_settle no_checksum digits (arriving (ok hello)) to_port 8 (node 4) (9 ∷ []) 1
      default-IsConfig new-IsManager.counted

abbrev ping : List ℕ
ping = ping_wire no_checksum 5

read_round-new_ping_message_example :
    let io = arriving (ok ping) in
    (answer : List ℕ) × (pong : Message) × (read_round no_checksum io
        (default_handlers no_checksum io in_order no_addresses (node 4))
        8
        a_peer
      ≡ (
        (write_message io (read_message io 8 a_peer).0 answer).0,
        only_logged (write_message io (read_message io 8 a_peer).0 answer).1 >> ok true,
      ))
    × (decode_message no_checksum answer ≡ ok pong)
    × (pong.type ≡ msg_pong)
    × (decode_pong pong.payload ≡ ok (record { nonce = 5 }))
unfolding read_message new_peer
read_round-new_ping_message_example =
    read_round-new_ping_message no_checksum (arriving (ok ping)) in_order no_addresses (node 4) 8
      a_peer 5 ping no_checksum_fits (omega arith) (new_ping_message-wire no_checksum 5) refl

abbrev farewell : List ℕ
farewell = disconnect_wire no_checksum 1 (65 ∷ [])

read_round-new_disconnect_message_example :
    let io = arriving (ok farewell) in
    read_round no_checksum io
      (default_handlers no_checksum io in_order no_addresses (node 4))
      8
      a_peer
    ≡ ((read_message io 8 a_peer).0, ok true)
unfolding read_message new_peer
read_round-new_disconnect_message_example =
    read_round-new_disconnect_message no_checksum (arriving (ok farewell)) in_order no_addresses
      (node 4) 8 a_peer 1 (65 ∷ []) farewell no_checksum_fits (omega arith)
      (new_disconnect_message-wire no_checksum 1 (65 ∷ [])) refl

node-IsHandshakeAck : IsHandshakeAck (ack_of (node 3) true [])
node-IsHandshakeAck = record {
  reason_fits = omega arith;
  version_fits = omega arith;
  id_length = refl;
  port_fits = omega arith;
  nonce_fits = omega arith;
  agent_fits = omega arith;
}

abbrev welcome : List ℕ
welcome = wire (ack_message no_checksum (ack_of (node 3) true []))

receive_handshake_ack-handshake_ack_bytes_example :
    let r = receive_handshake_ack no_checksum (arriving (ok welcome)) 8 (node 4) a_peer in
    (r.1 ≡ ok tt)
    × (r.0.id ≡ replicate 16 3)
    × (r.0.version ≡ protocol_version)
    × (r.0.user_agent ≡ 3 ∷ [])
unfolding read_message new_peer
receive_handshake_ack-handshake_ack_bytes_example =
    receive_handshake_ack-handshake_ack_bytes no_checksum (arriving (ok welcome)) 8 (node 4)
      (node 3) true [] a_peer welcome no_checksum_fits node-IsHandshakeAck
      (handshake_ack_bytes-wire no_checksum (node 3) true [] node-IsHandshakeAck) refl

-- A connected peer, under an address that is read as a host of four bytes and a port.
abbrev connected_peer : Peer ℕ ℕ
connected_peer = record a_peer { id = replicate 16 6; addr = 9 ∷ []; state = connected }

abbrev asked : Node ℕ ℕ
asked = record (node 4) {
  peer_manager = record (node 4).peer_manager {
    peers = (replicate 16 6, connected_peer) ∷ [];
    peers_by_addr = (9 ∷ [], connected_peer) ∷ [];
  };
}

abbrev local_addresses : Addresses
local_addresses = record {
  split_host_port = λ a. some (a, a);
  atoi = λ a. some 3000;
  parse_ip = λ a. some (replicate 4 1);
}

abbrev formatted : List ℕ → ℕ → List ℕ
formatted ip port = port ∷ ip

abbrev own_port : ℕ → List ℕ → Bool
own_port port a = false

abbrev asking : Message
asking = record { type = 16; payload = []; checksum = 0 }

handle_peers-handle_get_peers_example :
    let io = arriving (ok ping) in
    let ps = get_connected_peers in_order asked.peer_manager in
    (answer : List ℕ) × (peers_msg : Message) × (told : List PeerInfo) × (handle_get_peers
        no_checksum io in_order local_addresses asked a_peer asking
      ≡ write_message io a_peer answer)
    × (decode_message no_checksum answer ≡ ok peers_msg)
    × (peers_msg.type ≡ msg_peers)
    × (handle_peers formatted own_port (node 3) peers_msg
        ≡ ok (addrs_to_dial formatted own_port (node 3) told))
    × All (IsTold local_addresses a_peer.id ps) told
    × All
        (λ a. has_peer_by_addr (node 3).peer_manager a ≡ false)
        (addrs_to_dial formatted own_port (node 3) told)
unfolding new_peer get_connected_peers collect
handle_peers-handle_get_peers_example =
    handle_peers-handle_get_peers no_checksum (arriving (ok ping)) in_order local_addresses
      formatted own_port asked (node 3) a_peer asking no_checksum_fits (λ host ip e. ground arith)
      (refl, tt) (omega arith)
