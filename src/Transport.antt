-- ===== src/Transport.antt =====
-- pkg/transport/connection.go: messages over a TCP connection, each behind its length in four bytes.
-- Go's parts are parameters: the bufio.Reader behind io.ReadFull, the bufio.Writer, and the Close of
-- the net.Conn. A deadline that passes is a failed read or write of these. Each method is one step.
pub mod RoundTrip
mod Tests
use lock_free_p2p_go.Prelude.{
  ℕ, ◌*◌, Bool, true, false, not, List, length, ltb, ◌==◌, if◌then◌else◌,
}
use lock_free_p2p_go.Run.{
  Run, ok, err, panic, io_failure, connection_closed, message_too_large, empty_message,
}
use lock_free_p2p_go.Bytes.{be32, word}
use lock_free_p2p_go.Protocol.Codec.{Reader}
use lock_free_p2p_go.Peer

-- `bufio.Writer`: whether the error of Write and of Flush is nil.
pub record BufferedWriter (W : Type 0) : Type 0 where
  pub write : W → List ℕ → W × Bool
  pub flush : W → W × Bool

pub record Connection (R W N : Type 0) : Type 0 where
  pub conn : N
  pub reader : R
  pub writer : W
  pub closed : Bool
  pub read_timeout : ℕ  -- nanoseconds
  pub write_timeout : ℕ  -- nanoseconds

abbrev pub new_connection : {R W N : Type 0} → N → R → W → Connection R W N
new_connection conn reader writer = record {
  conn = conn;
  reader = reader;
  writer = writer;
  closed = false;
  read_timeout = 30 * 1000000000;
  write_timeout = 10 * 1000000000;
}

abbrev pub max_message_size : ℕ
max_message_size = 10 * 1024 * 1024

-- The end of `ReadMessage`: every error of the read is wrapped.
abbrev pub payload_of : Run (List ℕ) → Run (List ℕ)
payload_of (ok payload) = ok payload
payload_of (err e) = err io_failure
payload_of panic = panic

abbrev pub unless_failed : Bool → Run (Unit {0})
unless_failed succeeded = if succeeded then ok tt else err io_failure

module _ {W : Type 0} (wr : BufferedWriter W) where
  -- The last two lines of `Write` and `WriteMessage`: Write, and Flush if there is no error.
  abbrev pub write_flush : W → List ℕ → W × Run (Unit {0})
  write_flush w data' =
      let r = wr.write w data' in
      let f = wr.flush r.0 in if r.1 then (f.0, unless_failed f.1) else (r.0, err io_failure)

  -- The writes of `WriteMessage`.
  abbrev pub write_framed : W → List ℕ → W × Run (Unit {0})
  write_framed w data' =
      let r = wr.write w (be32 (length data')) in
      let s = write_flush r.0 data' in if r.1 then s else (r.0, err io_failure)

module _ {R W N : Type 0} where
  pub set_read_timeout : Connection R W N → ℕ → Connection R W N
  set_read_timeout c d = record c { read_timeout = d }

  pub set_write_timeout : Connection R W N → ℕ → Connection R W N
  set_write_timeout c d = record c { write_timeout = d }

  pub is_closed : Connection R W N → Bool
  is_closed c = c.closed

  module _ (rd : Reader R) where
    -- `Read` into a buffer of n bytes.
    abbrev pub read : Connection R W N → ℕ → Connection R W N × Run (List ℕ)
    read c n =
        let r = rd.read_full c.reader n in
        if c.closed then (c, err connection_closed) else (record c { reader = r.0 }, r.1)

    -- `ReadMessage` behind the read of the length.
    abbrev pub with_length : Connection R W N → Run (List ℕ) → Connection R W N × Run (List ℕ)
    with_length c (ok buf) =
        let n = word 0 buf in
        let r = read c n in
        if ltb max_message_size n
        then (c, err message_too_large)
        else (if n == 0 then (c, err empty_message) else (r.0, payload_of r.1))
    with_length c (err e) = (c, err io_failure)
    with_length c panic = (c, panic)

    unfoldable pub read_message : Connection R W N → Connection R W N × Run (List ℕ)
    read_message c = let r = read c 4 in with_length r.0 r.1

  module _ (wr : BufferedWriter W) where
    -- `Write`, without the number of bytes that it returns.
    pub write : Connection R W N → List ℕ → Connection R W N × Run (Unit {0})
    write c data' =
        let r = write_flush wr c.writer data' in
        if c.closed then (c, err connection_closed) else (record c { writer = r.0 }, r.1)

    unfoldable pub write_message : Connection R W N → List ℕ → Connection R W N × Run (Unit {0})
    write_message c data' =
        let r = write_framed wr c.writer data' in
        if c.closed then (c, err connection_closed) else (record c { writer = r.0 }, r.1)

    -- `Close`; the error of Flush is passed over. `net_close` is the Close of the net.Conn.
    unfoldable pub close :
        (net_close : N → N × Bool) → Connection R W N → Connection R W N × Run (Unit {0})
    close net_close c =
        let n = net_close c.conn in
        if c.closed then (c, ok tt) else (
          record c { conn = n.0; writer = (wr.flush c.writer).0; closed = true },
          unless_failed n.1,
        )

  -- What a peer calls.
  abbrev pub peer_connection :
      Reader R → BufferedWriter W → (N → N × Bool) → Peer.Connection (Connection R W N)
  peer_connection rd wr net_close = record {
    read = read_message rd;
    write = write_message wr;
    shut = close wr net_close;
    is_shut = is_closed;
  }
