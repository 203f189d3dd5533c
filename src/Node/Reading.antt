-- ===== src/Node/Reading.antt =====
-- pkg/node/node.go: the messages that a node reads from a peer and those that it sends on its own. A
-- handler of another package is a value of the type `Handler`; what the loop logs is left out.
use lock_free_p2p_go.Prelude.{
  ℕ, ◌%◌, ◌^◌, Bool, true, false, Option, none, some, List, ◌∷◌, [], length, ◌==◌, if◌then◌else◌,
}
use lock_free_p2p_go.Run.{Run, ok, err, panic, ◌>>=◌, ◌>>◌}
use lock_free_p2p_go.Bytes.{bytes_eq}
use lock_free_p2p_go.Peer.{Peer, Connection, read_message}
use lock_free_p2p_go.Peer.Manager.{
  PeerManager, is_empty_string, is_full, has_peer_by_addr, get_connected_peers, for_each_peer,
}
use lock_free_p2p_go.Protocol.Message.{
  Message, encode, msg_ping, msg_pong, msg_get_peers, msg_peers, msg_disconnect,
}
use lock_free_p2p_go.Protocol.Peers.{PeerInfo, decode_peers, new_peers_message}
use lock_free_p2p_go.Protocol.Control.{new_ping_message, new_get_peers_message}
use lock_free_p2p_go.Broadcast.{put_back, send_to_all}
use lock_free_p2p_go.Node.{Node, decode_message, write_bytes, handle_ping, handle_disconnect}

-- After an error that is only logged the code goes on; a panic ends the process.
abbrev pub only_logged : Run (Unit {0}) → Run (Unit {0})
only_logged (ok u) = ok tt
only_logged (err e) = ok tt
only_logged panic = panic

-- `MessageHandler`
abbrev pub Handler : (C V : Type 0) → Type 0
Handler C V = Peer C V → Message → Peer C V × Run (Unit {0})

-- `handlePong`
abbrev pub handle_pong : {C V : Type 0} → Handler C V
handle_pong p msg = (p, ok tt)

-- What handleGetPeers calls of net and strconv to read an address: SplitHostPort, Atoi, whose number is
-- here a word of 64 bits, and ParseIP with To4 or To16, the bytes of the address.
pub record Addresses : Type 0 where
  pub split_host_port : List ℕ → Option (List ℕ × List ℕ)
  pub atoi : List ℕ → Option ℕ
  pub parse_ip : List ℕ → Option (List ℕ)

module _ (addresses : Addresses) where
  -- What handleGetPeers tells of an address.
  unfoldable pub parse_addr : List ℕ → Option (List ℕ × ℕ)
  parse_addr addr = elim (addresses.split_host_port addr) [
    | none ↦ none
    | some (host, port_str) ↦ elim (addresses.atoi port_str) [
      | none ↦ none
      | some port ↦ elim (addresses.parse_ip host) [
        | none ↦ none
        | some ip ↦ some (ip, port % 2 ^ 16)
      ]
    ]
  ]

  -- The loop of `handleGetPeers`
  unfoldable pub peer_infos : {C V : Type 0} → (asking : List ℕ) → List (Peer C V) → List PeerInfo
  peer_infos asking [] = []
  peer_infos asking (p ∷ ps) =
      let rest = peer_infos asking ps in
      let told : List PeerInfo = elim (parse_addr p.addr) [
        | none ↦ rest
        | some (ip, port) ↦ record { node_id = p.id; ip = ip; port = port } ∷ rest
      ] in
      if bytes_eq p.id asking then rest else if is_empty_string p.addr then rest else told

-- The loop of `handlePeers`: the addresses that it starts to connect to. `addr_of` formats an address
-- of 4 or 16 bytes and a port, and `has_own_port` is its search for the own port in the text.
unfoldable pub addrs_to_dial :
    {C V : Type 0} (addr_of : List ℕ → ℕ → List ℕ) (has_own_port : (port : ℕ) → List ℕ → Bool)
    → Node C V
    → List PeerInfo
    → List (List ℕ)
addrs_to_dial addr_of has_own_port n [] = []
addrs_to_dial addr_of has_own_port n (i ∷ is) =
    let rest = addrs_to_dial addr_of has_own_port n is in
    let addr = addr_of i.ip i.port in
    let fresh =
      if has_own_port n.listen_port addr
      then rest
      else if has_peer_by_addr n.peer_manager addr
      then rest
      else addr ∷ rest in
    if length i.ip == 4 then fresh else if length i.ip == 16 then fresh else rest

-- `handlePeers`
unfoldable pub handle_peers :
    {C V : Type 0} (addr_of : List ℕ → ℕ → List ℕ) (has_own_port : (port : ℕ) → List ℕ → Bool)
    → Node C V
    → Message
    → Run (List (List ℕ))
handle_peers addr_of has_own_port n msg = do
  peers ← decode_peers msg.payload
  ok (addrs_to_dial addr_of has_own_port n peers)

module _ {C V : Type 0} (checksum_ieee : List ℕ → ℕ) (io : Connection C) where
  -- `handleGetPeers`; it does not read the payload of the message.
  unfoldable pub handle_get_peers :
      (range : List (List ℕ × Peer C V) → List (List ℕ × Peer C V))
      → Addresses
      → Node C V
      → Handler C V
  handle_get_peers range addresses n p msg = write_bytes checksum_ieee io p (do
    peers_msg ←
        new_peers_message checksum_ieee
          (peer_infos addresses p.id (get_connected_peers range n.peer_manager))
    encode peers_msg)

  -- `handleMessage`: the peer, and how the handler ended.
  abbrev pub dispatched : Peer C V → Message → Option (Handler C V) → Peer C V × Run (Unit {0})
  dispatched p msg none = (p, ok tt)
  dispatched p msg (some handler) = handler p msg

  -- A round of `readLoop` at the time `now`, and whether the loop goes on; a panic ends the process.
  abbrev pub decoded :
      (handlers : ℕ → Option (Handler C V)) → Peer C V → Run Message → Peer C V × Run Bool
  decoded handlers p (ok msg) =
      let r = dispatched p msg (handlers msg.type) in (r.0, only_logged r.1 >> ok true)
  decoded handlers p (err e) = (p, ok true)
  decoded handlers p panic = (p, panic)

  abbrev pub received :
      (handlers : ℕ → Option (Handler C V)) → Peer C V → Run (List ℕ) → Peer C V × Run Bool
  received handlers p (ok data') = decoded handlers p (decode_message checksum_ieee data')
  received handlers p (err e) = (p, ok false)
  received handlers p panic = (p, panic)

  unfoldable pub read_round :
      (handlers : ℕ → Option (Handler C V)) → (now : ℕ) → Peer C V → Peer C V × Run Bool
  read_round handlers now p = let r = read_message io now p in received handlers r.0 r.1

  module _ (range : List (List ℕ × Peer C V) → List (List ℕ × Peer C V)) where
    -- What `registerDefaultHandlers` enters. The connections that handlePeers starts are left out.
    unfoldable pub default_handlers : Addresses → Node C V → ℕ → Option (Handler C V)
    default_handlers addresses n type =
        if type == msg_ping
        then some (handle_ping checksum_ieee io)
        else if type == msg_pong
        then some handle_pong
        else if type == msg_get_peers
        then some (handle_get_peers range addresses n)
        else if type == msg_peers
        then some (λ p msg. (p, decode_peers msg.payload >>= λ peers. ok tt))
        else if type == msg_disconnect
        then some (handle_disconnect checksum_ieee io)
        else none

-- What a node sends on its own, to its peers in the order `range`; a panic ends the process.
module _ {C V : Type 0} (checksum_ieee : List ℕ → ℕ) (hex : List ℕ → List ℕ) (io : Connection C)
    (range : List (List ℕ × Peer C V) → List (List ℕ × Peer C V)) where
  -- `ForEachPeer` with a callback that writes to the connected peers. Its count of the peers that took
  -- the message is left out.
  abbrev pub sent_to_all :
      PeerManager (Peer C V) → Run (List ℕ) → PeerManager (Peer C V) × Run (Unit {0})
  sent_to_all m (ok data') =
      let r = send_to_all hex io data' [] (for_each_peer (λ p. true) (range m.peers)) m 0 in
      (r.0, r.1 >> ok tt)
  sent_to_all m (err e) = (m, err e)
  sent_to_all m panic = (m, panic)

  -- `Broadcast` of the node
  unfoldable pub node_broadcast : Node C V → Message → Node C V × Run (Unit {0})
  node_broadcast n msg =
      let r = sent_to_all n.peer_manager (encode msg) in (record n { peer_manager = r.0 }, r.1)

  -- `pingAllPeers` with the nonce that it draws
  unfoldable pub ping_all_peers : (nonce : ℕ) → Node C V → Node C V × Run (Unit {0})
  ping_all_peers nonce n =
      let r = sent_to_all n.peer_manager (new_ping_message checksum_ieee nonce >>= encode) in
      (record n { peer_manager = r.0 }, r.1)

  -- The first peer is asked, if there is one.
  abbrev pub ask_first :
      PeerManager (Peer C V) → List (Peer C V) → PeerManager (Peer C V) × Run (Unit {0})
  ask_first m [] = (m, ok tt)
  ask_first m (p ∷ ps) =
      let r = write_bytes checksum_ieee io p (new_get_peers_message checksum_ieee 20 >>= encode) in
      (put_back hex m r.0, only_logged r.1)

  -- `discoverPeers`
  unfoldable pub discover_peers : Node C V → Node C V × Run (Unit {0})
  discover_peers n =
      let r = ask_first n.peer_manager (get_connected_peers range n.peer_manager) in
      if is_full n.peer_manager then (n, ok tt) else (record n { peer_manager = r.0 }, r.1)
