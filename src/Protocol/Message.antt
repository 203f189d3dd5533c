-- ===== src/Protocol/Message.antt =====
-- pkg/protocol/message.go: a message, its encoding and its validation. CRC32 is Go's hash/crc32: the
-- parameter `checksum_ieee`.
pub mod Wire
use lock_free_p2p_go.Prelude.{
  ℕ, ◌+◌, ◌*◌, List, ◌∷◌, [], not, ltb, ◌==◌, length, if◌then◌else◌, ◌<◌, ◌^◌, ◌≤◌, ◌≡◌,
}
use lock_free_p2p_go.Run.{Run, ok, err, too_large, bad_checksum, ◌>>=◌, ◌>>◌, fail_if}
use lock_free_p2p_go.Bytes.{make, be32, put, copy_at}

abbrev pub magic_number : ℕ
magic_number = 0x50325031

abbrev pub protocol_version : ℕ
protocol_version = 1

abbrev pub header_size : ℕ
header_size = 13

abbrev pub max_payload_size : ℕ
max_payload_size = 10 * 1024 * 1024

-- `MessageType`, a byte
abbrev pub msg_handshake : ℕ
msg_handshake = 0x00

abbrev pub msg_handshake_ack : ℕ
msg_handshake_ack = 0x01

abbrev pub msg_ping : ℕ
msg_ping = 0x02

abbrev pub msg_pong : ℕ
msg_pong = 0x03

abbrev pub msg_disconnect : ℕ
msg_disconnect = 0x04

abbrev pub msg_get_peers : ℕ
msg_get_peers = 0x10

abbrev pub msg_peers : ℕ
msg_peers = 0x11

abbrev pub msg_inv : ℕ
msg_inv = 0x23

abbrev pub msg_get_data : ℕ
msg_get_data = 0x24

pub record Message : Type 0 where
  pub type : ℕ  -- uint8
  pub payload : List ℕ
  pub checksum : ℕ  -- uint32

-- Every operation of the message that does not compute a checksum.
pub encode : Message → Run (List ℕ)
encode m = do
  let buf = make (header_size + length m.payload)
  b0 ← put buf 0 (be32 magic_number)
  b1 ← put b0 4 (m.type ∷ [])
  b2 ← put b1 5 (be32 (length m.payload))
  b3 ← put b2 9 (be32 m.checksum)
  b4 ← copy_at b3 header_size m.payload
  ok b4

module _ (checksum_ieee : List ℕ → ℕ) where
  pub new_message : ℕ → List ℕ → Message
  new_message msg_type payload = record {
    type = msg_type;
    payload = payload;
    checksum = checksum_ieee payload;
  }

  unfoldable pub validate : Message → Run (Unit {0})
  validate m = do
    fail_if (ltb max_payload_size (length m.payload)) too_large
    fail_if (not (m.checksum == checksum_ieee m.payload)) bad_checksum

  -- What the encoding of a message needs so that `validate` accepts it on the other side.
  pub record IsSendable (m : Message) : Type 0 where
    pub kind : m.type < 256
    pub bounded : length m.payload ≤ max_payload_size
    pub sum_fits : m.checksum < 2 ^ 32
    pub sum_right : m.checksum ≡ checksum_ieee m.payload
