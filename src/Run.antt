-- ===== src/Run.antt =====
-- How a Go call ends: it returns a value, it returns an error, or it panics (an index or a slice
-- out of range). The errors are those of pkg/protocol, pkg/mempool, pkg/peer, pkg/transport and
-- pkg/node.
pub mod Laws
use lock_free_p2p_go.Prelude.{Bool, true, false}

-- The errors that the code returns, one for each message that it formats.
pub data Error : Type 0 where
  -- Fewer bytes than the format needs.
  too_short : Error
  -- The first four bytes are not the magic number.
  bad_magic : Error
  -- The length field exceeds the largest payload.
  too_large : Error
  -- The checksum is not that of the payload.
  bad_checksum : Error
  -- The address is neither 4 nor 16 bytes long.
  bad_ip_length : Error
  -- `io.EOF`: the peer closed the connection between two messages.
  eof : Error
  -- A read or a write of the connection failed.
  io_failure : Error
  -- ValidationError of a transaction: two about encoded data, three about fields.
  data_too_small : Error
  data_size_mismatch : Error
  hash_mismatch : Error
  zero_gas_limit : Error
  zero_sender : Error
  -- ValidationError of Add about the size of a transaction, and the errors of pkg/mempool/mempool.go.
  tx_too_large : Error
  low_gas_price : Error
  tx_exists : Error
  pool_full : Error
  tx_not_found : Error
  -- The errors of pkg/transport/connection.go.
  connection_closed : Error
  message_too_large : Error
  empty_message : Error
  -- The errors of ParseID in pkg/peer/peer.go, and those of AddPeer in pkg/peer/manager.go.
  bad_id : Error
  bad_id_length : Error
  too_many_peers : Error
  too_many_inbound : Error
  too_many_outbound : Error
  known_id : Error
  known_addr : Error
  -- The errors of the handshake, of handleDisconnect and of Start in pkg/node/node.go.
  unexpected_type : Error
  self_connection : Error
  version_mismatch : Error
  known_node : Error
  refused : Error
  disconnect_received : Error
  already_running : Error

pub data Run {ℓ} (A : Type ℓ) : Type ℓ where
  ok : A → Run A
  err : Error → Run A
  panic : Run A

infixl 5 ◌>>=◌
abbrev pub ◌>>=◌ {ℓ κ} : {A : Type ℓ} {B : Type κ} → Run A → (A → Run B) → Run B
ok a >>= f = f a
err e >>= f = err e
panic >>= f = panic

infixl 5 ◌>>◌
abbrev pub ◌>>◌ {ℓ κ} : {A : Type ℓ} {B : Type κ} → Run A → Run B → Run B
m >> k = m >>= λ _. k

-- `if failed { return error }`
abbrev pub fail_if : Bool → Error → Run (Unit {0})
fail_if true e = err e
fail_if false e = ok tt
