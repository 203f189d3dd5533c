-- ===== src/Protocol/Handshake.antt =====
-- pkg/protocol/handshake.go: the payloads of the handshake and of its answer. A [16]byte is a list
-- of sixteen bytes, a string is its bytes, and `uint16(len)` is the cut that `be16` makes.
pub mod RoundTrip
pub mod Ack
pub mod Safety
use lock_free_p2p_go.Prelude.{
  ℕ, ◌+◌, ◌<◌, ◌≡◌, ◌^◌, List, ◌∷◌, [], Bool, ltb, ◌==◌, length, if◌then◌else◌,
}
use lock_free_p2p_go.Run.{Run, ok, too_short, ◌>>=◌, ◌>>◌, fail_if}
use lock_free_p2p_go.Bytes.{make, be16, be32, be64, put, copy_at, slice, word_at}
use lock_free_p2p_go.Protocol.Message.{Message, msg_handshake, msg_handshake_ack}

pub record HandshakePayload : Type 0 where
  pub version : ℕ  -- uint32
  pub node_id : List ℕ  -- [16]byte
  pub listen_port : ℕ  -- uint16
  pub user_agent : List ℕ
  pub nonce : ℕ  -- uint64

pub encode_handshake : HandshakePayload → Run (List ℕ)
encode_handshake h = do
  let buf = make (4 + 16 + 2 + 8 + 2 + length h.user_agent)
  b0 ← put buf 0 (be32 h.version)
  b1 ← copy_at b0 4 h.node_id
  b2 ← put b1 20 (be16 h.listen_port)
  b3 ← put b2 22 (be64 h.nonce)
  b4 ← put b3 30 (be16 (length h.user_agent))
  b5 ← copy_at b4 32 h.user_agent
  ok b5

pub decode_handshake : List ℕ → Run HandshakePayload
decode_handshake data' = do
  fail_if (ltb (length data') 32) too_short
  version ← word_at 4 data' 0
  node_id ← slice data' 4 20
  listen_port ← word_at 2 data' 20
  nonce ← word_at 8 data' 22
  user_agent_len ← word_at 2 data' 30
  fail_if (ltb (length data') (32 + user_agent_len)) too_short
  user_agent ← slice data' 32 (32 + user_agent_len)
  ok (record {
    version = version;
    node_id = node_id;
    listen_port = listen_port;
    user_agent = user_agent;
    nonce = nonce;
  })

pub record HandshakeAckPayload : Type 0 where
  pub accepted : Bool
  pub reason : List ℕ
  pub version : ℕ  -- uint32
  pub node_id : List ℕ  -- [16]byte
  pub listen_port : ℕ  -- uint16
  pub user_agent : List ℕ
  pub nonce : ℕ  -- uint64

pub encode_handshake_ack : HandshakeAckPayload → Run (List ℕ)
encode_handshake_ack h = do
  let r = length h.reason
  let buf = make (1 + 2 + r + 4 + 16 + 2 + 8 + 2 + length h.user_agent)
  b0 ← put buf 0 ((if h.accepted then 1 else 0) ∷ [])
  b1 ← put b0 1 (be16 r)
  b2 ← copy_at b1 3 h.reason
  b3 ← put b2 (3 + r) (be32 h.version)
  b4 ← copy_at b3 (3 + r + 4) h.node_id
  b5 ← put b4 (3 + r + 4 + 16) (be16 h.listen_port)
  b6 ← put b5 (3 + r + 4 + 16 + 2) (be64 h.nonce)
  b7 ← put b6 (3 + r + 4 + 16 + 2 + 8) (be16 (length h.user_agent))
  b8 ← copy_at b7 (3 + r + 4 + 16 + 2 + 8 + 2) h.user_agent
  ok b8

pub decode_handshake_ack : List ℕ → Run HandshakeAckPayload
decode_handshake_ack data' = do
  fail_if (ltb (length data') 35) too_short
  accepted ← word_at 1 data' 0
  r ← word_at 2 data' 1
  fail_if (ltb (length data') (3 + r)) too_short
  reason ← slice data' 3 (3 + r)
  fail_if (ltb (length data') (3 + r + 4)) too_short
  version ← word_at 4 data' (3 + r)
  fail_if (ltb (length data') (3 + r + 4 + 16)) too_short
  node_id ← slice data' (3 + r + 4) (3 + r + 4 + 16)
  fail_if (ltb (length data') (3 + r + 4 + 16 + 2)) too_short
  listen_port ← word_at 2 data' (3 + r + 4 + 16)
  fail_if (ltb (length data') (3 + r + 4 + 16 + 2 + 8)) too_short
  nonce ← word_at 8 data' (3 + r + 4 + 16 + 2)
  fail_if (ltb (length data') (3 + r + 4 + 16 + 2 + 8 + 2)) too_short
  u ← word_at 2 data' (3 + r + 4 + 16 + 2 + 8)
  fail_if (ltb (length data') (3 + r + 4 + 16 + 2 + 8 + 2 + u)) too_short
  user_agent ← slice data' (3 + r + 4 + 16 + 2 + 8 + 2) (3 + r + 4 + 16 + 2 + 8 + 2 + u)
  ok (record {
    accepted = accepted == 1;
    reason = reason;
    version = version;
    node_id = node_id;
    listen_port = listen_port;
    user_agent = user_agent;
    nonce = nonce;
  })

module _ (checksum_ieee : List ℕ → ℕ) where
  pub new_handshake_message : HandshakePayload → Run Message
  new_handshake_message payload = do
    b ← encode_handshake payload
    ok (record { type = msg_handshake; payload = b; checksum = checksum_ieee b })

  pub new_handshake_ack_message : HandshakeAckPayload → Run Message
  new_handshake_ack_message payload = do
    b ← encode_handshake_ack payload
    ok (record { type = msg_handshake_ack; payload = b; checksum = checksum_ieee b })

-- The Go types of the fields, and strings that fit their two-byte lengths.
pub record IsHandshake (h : HandshakePayload) : Type 0 where
  pub version_fits : h.version < 2 ^ 32
  pub id_length : length h.node_id ≡ 16
  pub port_fits : h.listen_port < 2 ^ 16
  pub nonce_fits : h.nonce < 2 ^ 64
  pub agent_fits : length h.user_agent < 2 ^ 16

pub record IsHandshakeAck (h : HandshakeAckPayload) : Type 0 where
  pub reason_fits : length h.reason < 2 ^ 16
  pub version_fits : h.version < 2 ^ 32
  pub id_length : length h.node_id ≡ 16
  pub port_fits : h.listen_port < 2 ^ 16
  pub nonce_fits : h.nonce < 2 ^ 64
  pub agent_fits : length h.user_agent < 2 ^ 16
