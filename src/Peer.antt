-- ===== src/Peer.antt =====
-- pkg/peer/peer.go: a peer. The connection, of pkg/transport, is a value of the type C with the
-- operations `Connection`. Each method is one step: the calls of other goroutines come before it or
-- after it. The identifier of a peer is its 16 bytes, and a time is its nanoseconds, `none` for Go's
-- zero time.
pub mod Lifecycle
pub mod Manager
mod Tests
use lock_free_p2p_go.Prelude.{
  ℕ, ◌+◌, ◌-◌, ◌%◌, ◌^◌, Bool, true, false, ◌||◌, Option, none, some, List, [], length,
  if◌then◌else◌, ◌==◌,
}
use lock_free_p2p_go.Run.{Run, ok, err, panic, bad_id, bad_id_length}
use lock_free_p2p_go.Bytes.{make}
use lock_free_p2p_go.GoMap.{lookup, assign, there}
use lock_free_p2p_go.Mempool.Tx.{since}

-- What a peer calls of its connection: the connection afterwards and what the call returns.
pub record Connection (C : Type 0) : Type 0 where
  pub read : C → C × Run (List ℕ)
  pub write : C → List ℕ → C × Run (Unit {0})
  pub shut : C → C × Run (Unit {0})
  pub is_shut : C → Bool

-- `ParseID`; `decode` is DecodeString of encoding/hex, `none` for its error.
pub parse_id : (decode : List ℕ → Option (List ℕ)) → List ℕ → Run (List ℕ)
parse_id decode s = elim (decode s) [
  | none ↦ err bad_id
  | some b ↦ if length b == 16 then ok b else err bad_id_length
]

pub data State : Type 0 where
  disconnected : State
  connecting : State
  handshaking : State
  connected : State
  disconnecting : State

pub data Direction : Type 0 where
  inbound : Direction
  outbound : Direction

-- `metadata` has values of any type V.
pub record Peer (C V : Type 0) : Type 0 where
  pub id : List ℕ
  pub conn : Option C
  pub addr : List ℕ
  pub direction : Direction
  pub state : State
  pub created_at : ℕ
  pub connected_at : Option ℕ
  pub last_seen : ℕ
  pub bytes_sent : ℕ  -- uint64
  pub bytes_received : ℕ  -- uint64
  pub messages_sent : ℕ  -- uint64
  pub messages_recv : ℕ  -- uint64
  pub version : ℕ  -- uint32
  pub user_agent : List ℕ
  pub metadata : List (List ℕ × V)

pub record Stats : Type 0 where
  pub bytes_sent : ℕ
  pub bytes_received : ℕ
  pub messages_sent : ℕ
  pub messages_recv : ℕ
  pub connected_for : ℕ

-- The test of `Close` and `IsClosed` on the state.
abbrev pub is_down : State → Bool
is_down disconnected = true
is_down connecting = false
is_down handshaking = false
is_down connected = false
is_down disconnecting = true

abbrev pub is_up : State → Bool
is_up disconnected = false
is_up connecting = false
is_up handshaking = false
is_up connected = true
is_up disconnecting = false

-- `atomic.AddUint64`
abbrev pub add_word : ℕ → ℕ → ℕ
add_word n k = (n + k) % 2 ^ 64

-- `ConnectedFor`
connected_for : (now : ℕ) → Option ℕ → ℕ
connected_for now none = 0
connected_for now (some t) = since now (some t)

module _ {C : Type 0} (io : Connection C) where
  -- The call of the connection in `Close`.
  abbrev pub shut_down : Option C → Option C × Run (Unit {0})
  shut_down none = (none, ok tt)
  shut_down (some c) = let r = io.shut c in (some r.0, r.1)

  abbrev pub conn_closed : Option C → Bool
  conn_closed none = true
  conn_closed (some c) = io.is_shut c

module _ {C V : Type 0} where
  -- `NewPeer` at the time `now`
  unfoldable pub new_peer : (now : ℕ) → Option C → Direction → Peer C V
  new_peer now conn direction = record {
    id = make 16;
    conn = conn;
    addr = [];
    direction = direction;
    state = connecting;
    created_at = now;
    connected_at = none;
    last_seen = now;
    bytes_sent = 0;
    bytes_received = 0;
    messages_sent = 0;
    messages_recv = 0;
    version = 0;
    user_agent = [];
    metadata = [];
  }

  unfoldable pub set_id : Peer C V → List ℕ → Peer C V
  set_id p id = record p { id = id }

  unfoldable pub set_addr : Peer C V → List ℕ → Peer C V
  set_addr p addr = record p { addr = addr }

  unfoldable pub set_state : Peer C V → State → Peer C V
  set_state p state = record p { state = state }

  unfoldable pub set_version : Peer C V → ℕ → Peer C V
  set_version p version = record p { version = version }

  unfoldable pub set_user_agent : Peer C V → List ℕ → Peer C V
  set_user_agent p agent = record p { user_agent = agent }

  unfoldable pub set_connected_at : Peer C V → ℕ → Peer C V
  set_connected_at p t = record p { connected_at = some t }

  pub update_last_seen : (now : ℕ) → Peer C V → Peer C V
  update_last_seen now p = record p { last_seen = now }

  abbrev pub is_connected : Peer C V → Bool
  is_connected p = is_up p.state

  pub get_metadata : Peer C V → List ℕ → Option V × Bool
  get_metadata p key = let v = lookup p.metadata key in (v, there v)

  pub set_metadata : Peer C V → List ℕ → V → Peer C V
  set_metadata p key v = record p { metadata = assign p.metadata key v }

  pub stats : (now : ℕ) → Peer C V → Stats
  stats now p = record {
    bytes_sent = p.bytes_sent;
    bytes_received = p.bytes_received;
    messages_sent = p.messages_sent;
    messages_recv = p.messages_recv;
    connected_for = connected_for now p.connected_at;
  }

  module _ (io : Connection C) where
    -- The end of `ReadMessage`, after the call of the connection.
    abbrev pub after_read : (now : ℕ) → Peer C V → Run (List ℕ) → Peer C V
    after_read now p (ok data') = record p {
      bytes_received = add_word p.bytes_received (length data' + 4);
      messages_recv = add_word p.messages_recv 1;
      last_seen = now;
    }
    after_read now p (err e) = p
    after_read now p panic = p

    -- `ReadMessage` at the time `now`; it panics when there is no connection.
    abbrev pub read_from : (now : ℕ) → Peer C V → Option C → Peer C V × Run (List ℕ)
    read_from now p none = (p, panic)
    read_from now p (some c) =
        let r = io.read c in (after_read now (record p { conn = some r.0 }) r.1, r.1)

    unfoldable pub read_message : (now : ℕ) → Peer C V → Peer C V × Run (List ℕ)
    read_message now p = read_from now p p.conn

    -- The end of `WriteMessage`, after the call of the connection.
    abbrev pub after_write : Peer C V → List ℕ → Run (Unit {0}) → Peer C V
    after_write p data' (ok u) = record p {
      bytes_sent = add_word p.bytes_sent (length data' + 4);
      messages_sent = add_word p.messages_sent 1;
    }
    after_write p data' (err e) = p
    after_write p data' panic = p

    -- `WriteMessage`, on the connection.
    abbrev pub write_to : Peer C V → List ℕ → Option C → Peer C V × Run (Unit {0})
    write_to p data' none = (p, panic)
    write_to p data' (some c) =
        let r = io.write c data' in (after_write (record p { conn = some r.0 }) data' r.1, r.1)

    unfoldable pub write_message : Peer C V → List ℕ → Peer C V × Run (Unit {0})
    write_message p data' = write_to p data' p.conn

    -- `Close`
    unfoldable pub close : Peer C V → Peer C V × Run (Unit {0})
    close p =
        let r = shut_down io p.conn in
        if is_down p.state then (p, ok tt) else (record p { conn = r.0; state = disconnected }, r.1)

    unfoldable pub is_closed : Peer C V → Bool
    is_closed p = if is_down p.state then true else conn_closed io p.conn
