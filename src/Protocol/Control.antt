-- ===== src/Protocol/Control.antt =====
-- pkg/protocol/handlers.go, its first half: Ping, Pong, Disconnect and GetPeers.
pub mod RoundTrip
pub mod Overflow
use lock_free_p2p_go.Prelude.{ℕ, ◌+◌, ◌%◌, ◌^◌, List, ◌∷◌, [], ltb, length}
use lock_free_p2p_go.Run.{Run, ok, too_short, ◌>>=◌, ◌>>◌, fail_if}
use lock_free_p2p_go.Bytes.{make, be16, be64, put, copy_at, slice, word_at}
use lock_free_p2p_go.Protocol.Message.{Message, msg_ping, msg_pong, msg_disconnect, msg_get_peers}

pub record PingPayload : Type 0 where
  pub nonce : ℕ  -- uint64

pub encode_ping : PingPayload → Run (List ℕ)
encode_ping p = do let buf = make 8; b0 ← put buf 0 (be64 p.nonce); ok b0

pub decode_ping : List ℕ → Run PingPayload
decode_ping data' = do
  fail_if (ltb (length data') 8) too_short
  nonce ← word_at 8 data' 0
  ok (record { nonce = nonce })

pub record PongPayload : Type 0 where
  pub nonce : ℕ  -- uint64

pub encode_pong : PongPayload → Run (List ℕ)
encode_pong p = do let buf = make 8; b0 ← put buf 0 (be64 p.nonce); ok b0

pub decode_pong : List ℕ → Run PongPayload
decode_pong data' = do
  fail_if (ltb (length data') 8) too_short
  nonce ← word_at 8 data' 0
  ok (record { nonce = nonce })

pub record DisconnectPayload : Type 0 where
  pub reason : ℕ  -- uint8
  pub message : List ℕ

pub encode_disconnect : DisconnectPayload → Run (List ℕ)
encode_disconnect d = do
  let buf = make (1 + 2 + length d.message)
  b0 ← put buf 0 (d.reason ∷ [])
  b1 ← put b0 1 (be16 (length d.message))
  b2 ← copy_at b1 3 d.message
  ok b2

-- The length check adds in `int`, and the slice `data[3 : 3+msgLen]` adds in uint16.
pub decode_disconnect : List ℕ → Run DisconnectPayload
decode_disconnect data' = do
  fail_if (ltb (length data') 3) too_short
  reason ← word_at 1 data' 0
  msg_len ← word_at 2 data' 1
  fail_if (ltb (length data') (3 + msg_len)) too_short
  message ← slice data' 3 ((3 + msg_len) % 2 ^ 16)
  ok (record { reason = reason; message = message })

pub record GetPeersPayload : Type 0 where
  pub max_peers : ℕ  -- uint16

pub encode_get_peers : GetPeersPayload → Run (List ℕ)
encode_get_peers g = do let buf = make 2; b0 ← put buf 0 (be16 g.max_peers); ok b0

pub decode_get_peers : List ℕ → Run GetPeersPayload
decode_get_peers data' = do
  fail_if (ltb (length data') 2) too_short
  max_peers ← word_at 2 data' 0
  ok (record { max_peers = max_peers })

module _ (checksum_ieee : List ℕ → ℕ) where
  unfoldable pub new_ping_message : ℕ → Run Message
  new_ping_message nonce = do
    b ← encode_ping (record { nonce = nonce })
    ok (record { type = msg_ping; payload = b; checksum = checksum_ieee b })

  unfoldable pub new_pong_message : ℕ → Run Message
  new_pong_message nonce = do
    b ← encode_pong (record { nonce = nonce })
    ok (record { type = msg_pong; payload = b; checksum = checksum_ieee b })

  unfoldable pub new_disconnect_message : ℕ → List ℕ → Run Message
  new_disconnect_message reason message = do
    b ← encode_disconnect (record { reason = reason; message = message })
    ok (record { type = msg_disconnect; payload = b; checksum = checksum_ieee b })

  pub new_get_peers_message : ℕ → Run Message
  new_get_peers_message max_peers = do
    b ← encode_get_peers (record { max_peers = max_peers })
    ok (record { type = msg_get_peers; payload = b; checksum = checksum_ieee b })
