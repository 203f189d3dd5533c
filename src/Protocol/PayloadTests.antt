-- ===== src/Protocol/PayloadTests.antt =====
-- The theorems on the payloads at concrete ones.
use lock_free_p2p_go.Prelude.{◌∷◌, [], inl, inr, refl, true, arith, replicate}
use lock_free_p2p_go.Bytes.{word, make}
use lock_free_p2p_go.Protocol.Handshake.{
  HandshakePayload, IsHandshake, HandshakeAckPayload, IsHandshakeAck,
}
use lock_free_p2p_go.Protocol.Control.{DisconnectPayload}
use lock_free_p2p_go.Protocol.Peers.{PeerInfo, IsPeer, decode_peers}
use lock_free_p2p_go.Protocol.Peers.Safety.{Listed, decode_peers-Listed}
use lock_free_p2p_go.Protocol.Inv.{InvItem}

abbrev a_handshake : HandshakePayload
a_handshake = record {
  version = 1;
  node_id = replicate 16 3;
  listen_port = 30303;
  user_agent = 97 ∷ 98 ∷ [];
  nonce = 5000000000;
}

a_handshake-IsHandshake : IsHandshake a_handshake
a_handshake-IsHandshake = record {
  version_fits = omega arith;
  id_length = refl;
  port_fits = omega arith;
  nonce_fits = omega arith;
  agent_fits = omega arith;
}

abbrev an_ack : HandshakeAckPayload
an_ack = record {
  accepted = true;
  reason = 111 ∷ [];
  version = 1;
  node_id = replicate 16 3;
  listen_port = 30303;
  user_agent = 97 ∷ 98 ∷ [];
  nonce = 5000000000;
}

an_ack-IsHandshakeAck : IsHandshakeAck an_ack
an_ack-IsHandshakeAck = record {
  reason_fits = omega arith;
  version_fits = omega arith;
  id_length = refl;
  port_fits = omega arith;
  nonce_fits = omega arith;
  agent_fits = omega arith;
}

abbrev a_disconnect : DisconnectPayload
a_disconnect = record { reason = 2; message = 98 ∷ 121 ∷ 101 ∷ [] }

abbrev a_peer : PeerInfo
a_peer = record { node_id = replicate 16 4; ip = 127 ∷ 0 ∷ 0 ∷ 1 ∷ []; port = 30303 }

abbrev another_peer : PeerInfo
another_peer = record { node_id = replicate 16 5; ip = replicate 16 6; port = 80 }

a_peer-IsPeer : IsPeer a_peer
a_peer-IsPeer = record { id_length = refl; ip_length = inl refl; port_fits = omega arith }

another_peer-IsPeer : IsPeer another_peer
another_peer-IsPeer = record { id_length = refl; ip_length = inr refl; port_fits = omega arith }

decode_peers-Listed_example : Listed (word 0 (0 ∷ 1 ∷ [])) (decode_peers (0 ∷ 1 ∷ make 30))
decode_peers-Listed_example = decode_peers-Listed (0 ∷ 1 ∷ make 30)

abbrev an_item : InvItem
an_item = record { type = 1; hash = replicate 32 7 }
