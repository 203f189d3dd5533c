-- ===== src/Node/Exchange.antt =====
-- pkg/node/node.go: the peers that one node tells another of, and those that the other one dials.
use lock_free_p2p_go.Prelude.{
  ℕ, ◌%◌, ◌^◌, ◌≤◌, ◌<◌, ◌≡◌, ◌≢◌, ◌⊎◌, refl, ◌∙◌, sym, ap, Bool, true, false, some, List, ◌∷◌, [],
  ◌++◌, length, ◌==◌, if◌then◌else◌, Bool-cases, Option-cases, inl, inr, arith, All, get_elem?,
  zero, suc,
}
use mathlib.Core.Path.{subst}
use lock_free_p2p_go.Run.{ok}
use lock_free_p2p_go.Bytes.{be16, bytes_eq}
use lock_free_p2p_go.Bytes.Laws.{bytes_eq_iff}
use lock_free_p2p_go.Peer.{Peer, Connection, write_message}
use lock_free_p2p_go.Peer.Manager.{is_empty_string, has_peer_by_addr, get_connected_peers}
use lock_free_p2p_go.Protocol.Message.{Message, msg_peers}
use lock_free_p2p_go.Protocol.Message.Wire.{wire, encode-wire}
use lock_free_p2p_go.Protocol.Peers.{PeerInfo, IsPeer, new_peers_message}
use lock_free_p2p_go.Protocol.Peers.RoundTrip.{
  peers_wire, encode_peers-wire, decode_peers-wire, length-peers_wire,
}
use lock_free_p2p_go.Node.{Node, decode_message}
use lock_free_p2p_go.Node.Messages.{message_of, message-IsSendable, decode_message-wire}
use lock_free_p2p_go.Node.Reading.{
  Addresses, parse_addr, peer_infos, addrs_to_dial, handle_peers, handle_get_peers,
}

-- ParseIP with To4 or To16 gives 4 or 16 bytes.
abbrev pub ParsesIp : Addresses → Type 0
ParsesIp addresses =
    (host ip : List ℕ) → addresses.parse_ip host ≡ some ip → (length ip ≡ 4) ⊎ (length ip ≡ 16)

-- A peer of a list that another one is told of: not the one that asks, and under its own address.
abbrev pub IsTold :
    {C V : Type 0} → Addresses → (asking : List ℕ) → List (Peer C V) → PeerInfo → Type 0
IsTold {C} {V} addresses asking ps i =
    (i.node_id ≢ asking)
    × ((k : ℕ) × (q : Peer C V) × (get_elem? ps k ≡ some q)
        × (q.id ≡ i.node_id)
        × (parse_addr addresses q.addr ≡ some (i.ip, i.port)))

some-injective : {A : Type 0} {a b : A} → some a ≡ some b → a ≡ b
some-injective e = cc

module _ (addresses : Addresses) where
  -- What an address that can be read holds.
  parse_addr_fits :
      (addr ip : List ℕ) (port : ℕ)
      → ParsesIp addresses
      → parse_addr addresses addr ≡ some (ip, port)
      → ((length ip ≡ 4) ⊎ (length ip ≡ 16)) × (port < 2 ^ 16)
  unfolding parse_addr
  parse_addr_fits addr ip port h e = elim (Option-cases (addresses.split_host_port addr)) [
    | inl x ↦ absurd (cc (rw (parse_addr, x) at e))
    | inr ((host, text), x) ↦ elim (Option-cases (addresses.atoi text)) [
      | inl y ↦ absurd (cc (rw (parse_addr, x, y) at e))
      | inr (n, y) ↦ elim (Option-cases (addresses.parse_ip host)) [
        | inl z ↦ absurd (cc (rw (parse_addr, x, y, z) at e))
        | inr (found, z) ↦
            let both : (found, n % 2 ^ 16) ≡ (ip, port) =
              some-injective (rw (parse_addr, x, y, z) at e) in
            (h host ip (z ∙ ap (λ r. some r.0) both), omega (arith, ap (λ r. r.1) both))
      ]
    ]
  ]

  module _ {C V : Type 0} (asking : List ℕ) where
    -- A peer is left out, or told of first.
    peer_infos_first :
        (p : Peer C V) (ps : List (Peer C V))
        → (peer_infos addresses asking (p ∷ ps) ≡ peer_infos addresses asking ps)
          ⊎ ((ip : List ℕ) × (port : ℕ) × (p.id ≢ asking)
              × (parse_addr addresses p.addr ≡ some (ip, port))
              × (peer_infos addresses asking (p ∷ ps)
                  ≡ record { node_id = p.id; ip = ip; port = port }
                    ∷ peer_infos addresses asking ps))
    unfolding peer_infos
    peer_infos_first p ps = elim (Bool-cases (bytes_eq p.id asking)) [
      | inl self ↦ inl (rw self refl)
      | inr other ↦ elim (Bool-cases (is_empty_string p.addr)) [
        | inl none_ ↦ inl (rw (other, none_) refl)
        | inr given ↦ elim (Option-cases (parse_addr addresses p.addr)) [
          | inl unread ↦ inl (rw (other, given, unread) refl)
          | inr ((ip, port), read) ↦
              let differs : p.id ≢ asking =
                λ e. absurd (cc (other, (bytes_eq_iff p.id asking).1 e)) in
              inr (ip, port, differs, read, rw (other, given, read) refl)
        ]
      ]
    ]

    -- What is told of a list is told of a longer one.
    later-IsTold :
        (q : Peer C V) (ps : List (Peer C V)) (is : List PeerInfo)
        → All (IsTold addresses asking ps) is
        → All (IsTold addresses asking (q ∷ ps)) is
    later-IsTold q ps [] a = tt
    later-IsTold q ps (i ∷ is) ((other, (k, p, at, same, read)), rest) =
        ((other, (suc k, p, at, same, read)), later-IsTold q ps is rest)

    peer_infos-IsTold :
        (ps : List (Peer C V)) → All (IsTold addresses asking ps) (peer_infos addresses asking ps)
    unfolding peer_infos
    peer_infos-IsTold [] = tt
    peer_infos-IsTold (p ∷ ps) =
        let rest = later-IsTold p ps (peer_infos addresses asking ps) (peer_infos-IsTold ps) in
        elim (peer_infos_first p ps) [
          | inl same ↦ subst (All (IsTold addresses asking (p ∷ ps))) (sym same) rest
          | inr (ip, port, other, read, more) ↦
              subst (All (IsTold addresses asking (p ∷ ps))) (sym more)
                ((other, (zero, p, refl, refl, read)), rest)
        ]

    peer_infos-IsPeer :
        (ps : List (Peer C V))
        → ParsesIp addresses
        → All (λ p. length p.id ≡ 16) ps
        → All IsPeer (peer_infos addresses asking ps)
    unfolding peer_infos
    peer_infos-IsPeer [] h v = tt
    peer_infos-IsPeer (p ∷ ps) h v =
        let rest = peer_infos-IsPeer ps h v.1 in
        elim (peer_infos_first p ps) [
          | inl same ↦ subst (All IsPeer) (sym same) rest
          | inr (ip, port, other, read, more) ↦
              let fits = parse_addr_fits p.addr ip port h read in
              subst (All IsPeer) (sym more)
                (record { id_length = v.0; ip_length = fits.0; port_fits = fits.1 }, rest)
        ]

    length-peer_infos : (ps : List (Peer C V)) → length (peer_infos addresses asking ps) ≤ length ps
    unfolding peer_infos
    length-peer_infos [] = omega arith
    length-peer_infos (p ∷ ps) =
        let rest = length-peer_infos ps in
        elim (peer_infos_first p ps) [
          | inl same ↦ omega (arith, rest, ap length same)
          | inr (ip, port, other, read, more) ↦ omega (arith, rest, ap length more)
        ]

All-if :
    {A : Type 0} (P : A → Type 0) (b : Bool) (xs ys : List A)
    → All P xs
    → All P ys
    → All P (if b then xs else ys)
All-if P true xs ys v w = v
All-if P false xs ys v w = w

-- No peer that handlePeers dials is known under its address.
addrs_to_dial_new :
    {C V : Type 0} (addr_of : List ℕ → ℕ → List ℕ) (has_own_port : (port : ℕ) → List ℕ → Bool)
    (n : Node C V) (is : List PeerInfo)
    → All (λ a. has_peer_by_addr n.peer_manager a ≡ false) (addrs_to_dial addr_of has_own_port n is)
unfolding addrs_to_dial
addrs_to_dial_new addr_of has_own_port n [] = tt
addrs_to_dial_new {C} {V} addr_of has_own_port n (i ∷ is) =
    let rest = addrs_to_dial_new addr_of has_own_port n is in
    let addr = addr_of i.ip i.port in
    let later = addrs_to_dial addr_of has_own_port n is in
    let IsNew : List ℕ → Type 0 = λ a. has_peer_by_addr n.peer_manager a ≡ false in
    let unknown = if has_peer_by_addr n.peer_manager addr then later else addr ∷ later in
    let unknown_new : All IsNew unknown = elim (Bool-cases (has_peer_by_addr n.peer_manager addr)) [
      | inl known ↦ rw known rest
      | inr free ↦ rw free (free, rest)
    ] in
    let fresh = if has_own_port n.listen_port addr then later else unknown in
    let fresh_new = All-if IsNew (has_own_port n.listen_port addr) later unknown rest unknown_new in
    let sixteen = if length i.ip == 16 then fresh else later in
    let sixteen_new = All-if IsNew (length i.ip == 16) fresh later fresh_new rest in
    All-if IsNew (length i.ip == 4) fresh sixteen fresh_new sixteen_new

-- What handleGetPeers writes, when the connected peers are fewer than 65536, with identifiers of
-- sixteen bytes, and addresses are read as net documents: the bytes of a message of the type Peers,
-- from which handlePeers of any node takes what was told; each is a connected peer under its own
-- identifier and address, and not the one that asked; and no address that handlePeers dials is that
-- of a peer it has.
pub handle_peers-handle_get_peers :
    {C V D W : Type 0} (checksum_ieee : List ℕ → ℕ) (io : Connection C)
    (range : List (List ℕ × Peer C V) → List (List ℕ × Peer C V)) (addresses : Addresses)
    (addr_of : List ℕ → ℕ → List ℕ) (has_own_port : (port : ℕ) → List ℕ → Bool) (n : Node C V)
    (m : Node D W) (p : Peer C V) (msg : Message)
    → ((b : List ℕ) → checksum_ieee b < 2 ^ 32)
    → ParsesIp addresses
    → All (λ q. length q.id ≡ 16) (get_connected_peers range n.peer_manager)
    → length (get_connected_peers range n.peer_manager) < 2 ^ 16
    → (answer : List ℕ) × (peers_msg : Message) × (told : List PeerInfo) × (handle_get_peers
          checksum_ieee io range addresses n p msg
        ≡ write_message io p answer)
      × (decode_message checksum_ieee answer ≡ ok peers_msg)
      × (peers_msg.type ≡ msg_peers)
      × (handle_peers addr_of has_own_port m peers_msg
          ≡ ok (addrs_to_dial addr_of has_own_port m told))
      × All (IsTold addresses p.id (get_connected_peers range n.peer_manager)) told
      × All
          (λ a. has_peer_by_addr m.peer_manager a ≡ false)
          (addrs_to_dial addr_of has_own_port m told)
unfolding handle_get_peers handle_peers new_peers_message
handle_peers-handle_get_peers checksum_ieee io range addresses addr_of has_own_port n m p msg fits h
      v few =
    let ps = get_connected_peers range n.peer_manager in
    let told = peer_infos addresses p.id ps in
    let valid = peer_infos-IsPeer addresses p.id ps h v in
    let fewer = length-peer_infos addresses p.id ps in
    let b = be16 (length told) ++ peers_wire told [] in
    let sent = message_of checksum_ieee msg_peers b in
    (
      wire sent,
      sent,
      told,
      rw (encode_peers-wire told valid) (rw (encode-wire sent) refl),
      decode_message-wire checksum_ieee sent (
          message-IsSendable checksum_ieee fits msg_peers b (omega arith)
            (omega (arith, fewer, few, length-peers_wire told valid))),
      refl,
      rw (decode_peers-wire told valid (omega (arith, fewer, few))) refl,
      peer_infos-IsTold addresses p.id ps,
      addrs_to_dial_new addr_of has_own_port m told,
    )
