-- ===== src/Peer/Manager.antt =====
-- pkg/peer/manager.go: the manager of the peers. Each method is one step, and the caller does not
-- change the identifier, the address or the direction of a peer while the manager has it: a peer is
-- a value here. `hex` is EncodeToString of encoding/hex. A handler that is set is called with what is
-- returned as an event.
pub mod Invariant
pub mod Adding
pub mod Removing
pub mod Reached
use lock_free_p2p_go.Prelude.{
  ℕ, ◌+◌, ◌-◌, ◌%◌, ◌^◌, Bool, true, false, not, Option, none, some, List, ◌∷◌, [], map, ltb, leb,
  if◌then◌else◌,
}
use lock_free_p2p_go.Run.{
  Run, ok, err, panic, too_many_peers, too_many_inbound, too_many_outbound, known_id, known_addr,
}
use lock_free_p2p_go.GoMap.{lookup, assign, erase, there}
use lock_free_p2p_go.Peer.{
  Peer, Connection, Direction, inbound, outbound, add_word, is_connected, close,
}

pub record ManagerConfig : Type 0 where
  pub max_peers : ℕ
  pub max_inbound_peers : ℕ
  pub max_outbound_peers : ℕ

abbrev pub default_manager_config : ManagerConfig
default_manager_config = record { max_peers = 50; max_inbound_peers = 25; max_outbound_peers = 25 }

-- The counts are int64 in two's complement.
pub record PeerManager (P : Type 0) : Type 0 where
  pub peers : List (List ℕ × P)
  pub peers_by_addr : List (List ℕ × P)
  pub total_count : ℕ
  pub inbound_count : ℕ
  pub outbound_count : ℕ
  pub config : ManagerConfig
  pub handled : Bool

pub data Event (P : Type 0) : Type 0 where
  peer_connected : P → Event P
  peer_disconnected : P → Event P

abbrev pub new_peer_manager : {P : Type 0} → ManagerConfig → PeerManager P
new_peer_manager config = record {
  peers = [];
  peers_by_addr = [];
  total_count = 0;
  inbound_count = 0;
  outbound_count = 0;
  config = config;
  handled = false;
}

abbrev pub is_inbound : Direction → Bool
is_inbound inbound = true
is_inbound outbound = false

abbrev pub is_empty_string : List ℕ → Bool
is_empty_string [] = true
is_empty_string (c ∷ cs) = false

-- `count >= int64(max)`, for a limit that is an int of 64 bits and not negative: the numbers with the
-- sign bit turned have the same order.
abbrev pub at_least : (count limit : ℕ) → Bool
at_least count limit = leb ((limit + 2 ^ 63) % 2 ^ 64) ((count + 2 ^ 63) % 2 ^ 64)

-- `atomic.AddInt64(&count, -1)`
abbrev pub less_one : ℕ → ℕ
less_one count = add_word count (2 ^ 64 - 1)

module _ {C V : Type 0} (hex : List ℕ → List ℕ) where
  -- `if m.eventHandler != nil`
  abbrev pub event_of : PeerManager (Peer C V) → Event (Peer C V) → Option (Event (Peer C V))
  event_of m e = if m.handled then some e else none

  -- The end of `AddPeer`: the counts and the event.
  abbrev pub count_in :
      PeerManager (Peer C V) → Peer C V → PeerManager (Peer C V) × Run (Option (Event (Peer C V)))
  count_in m p =
      let to = is_inbound p.direction in
      (
        record m {
          total_count = add_word m.total_count 1;
          inbound_count = if to then add_word m.inbound_count 1 else m.inbound_count;
          outbound_count = if to then m.outbound_count else add_word m.outbound_count 1;
        },
        ok (event_of m (peer_connected p)),
      )

  -- `LoadOrStore` of the address, with the way back.
  abbrev pub store_addr :
      PeerManager (Peer C V) → Peer C V → PeerManager (Peer C V) × Run (Option (Event (Peer C V)))
  store_addr m p =
      if is_empty_string p.addr
      then count_in m p
      else (if there (lookup m.peers_by_addr p.addr)
          then (record m { peers = erase m.peers (hex p.id) }, err known_addr)
          else count_in (record m { peers_by_addr = assign m.peers_by_addr p.addr p }) p)

  -- `LoadOrStore` of the identifier.
  abbrev pub store_id :
      PeerManager (Peer C V) → Peer C V → PeerManager (Peer C V) × Run (Option (Event (Peer C V)))
  store_id m p =
      if there (lookup m.peers (hex p.id))
      then (m, err known_id)
      else store_addr (record m { peers = assign m.peers (hex p.id) p }) p

  -- `AddPeer`
  unfoldable pub add_peer :
      PeerManager (Peer C V) → Peer C V → PeerManager (Peer C V) × Run (Option (Event (Peer C V)))
  add_peer m p =
      let to = is_inbound p.direction in
      if at_least m.total_count m.config.max_peers
      then (m, err too_many_peers)
      else (if to
          then (if at_least m.inbound_count m.config.max_inbound_peers
              then (m, err too_many_inbound)
              else store_id m p)
          else (if at_least m.outbound_count m.config.max_outbound_peers
              then (m, err too_many_outbound)
              else store_id m p))

  -- The part of `RemovePeer` after `LoadAndDelete`: the manager, the peer and the event.
  abbrev pub count_out :
      PeerManager (Peer C V)
      → (key : List ℕ) → Option (Peer C V)
      → PeerManager (Peer C V) × Option (Peer C V) × Option (Event (Peer C V))
  count_out m key none = (m, none, none)
  count_out m key (some p) =
      let to = is_inbound p.direction in
      (
        record m {
          peers = erase m.peers key;
          peers_by_addr =
              if is_empty_string p.addr then m.peers_by_addr else erase m.peers_by_addr p.addr;
          total_count = less_one m.total_count;
          inbound_count = if to then less_one m.inbound_count else m.inbound_count;
          outbound_count = if to then m.outbound_count else less_one m.outbound_count;
        },
        some p,
        event_of m (peer_disconnected p),
      )

  -- `RemovePeer`
  unfoldable pub remove_peer :
      PeerManager (Peer C V)
      → List ℕ
      → PeerManager (Peer C V) × Option (Peer C V) × Option (Event (Peer C V))
  remove_peer m id = count_out m (hex id) (lookup m.peers (hex id))

  -- `GetPeer` and `HasPeer`
  unfoldable pub get_peer : PeerManager (Peer C V) → List ℕ → Option (Peer C V)
  get_peer m id = lookup m.peers (hex id)

  pub has_peer : PeerManager (Peer C V) → List ℕ → Bool
  has_peer m id = there (lookup m.peers (hex id))

-- `GetPeerByAddr` and `HasPeerByAddr`
pub get_peer_by_addr : {P : Type 0} → PeerManager P → List ℕ → Option P
get_peer_by_addr m addr = lookup m.peers_by_addr addr

pub has_peer_by_addr : {P : Type 0} → PeerManager P → List ℕ → Bool
has_peer_by_addr m addr = there (lookup m.peers_by_addr addr)

-- `IsFull`, `CanAcceptInbound` and `CanDialOutbound`
pub is_full : {P : Type 0} → PeerManager P → Bool
is_full m = at_least m.total_count m.config.max_peers

pub can_accept_inbound : {P : Type 0} → PeerManager P → Bool
can_accept_inbound m = not (at_least m.inbound_count m.config.max_inbound_peers)

pub can_dial_outbound : {P : Type 0} → PeerManager P → Bool
can_dial_outbound m = not (at_least m.outbound_count m.config.max_outbound_peers)

pub set_event_handler : {P : Type 0} → PeerManager P → Bool → PeerManager P
set_event_handler m is_set = record m { handled = is_set }

-- The loop of a callback that collects the peers that pass a test.
unfoldable pub collect : {P : Type 0} → (P → Bool) → List (List ℕ × P) → List P
collect test [] = []
collect test (e ∷ es) = let later = collect test es in if test e.1 then e.1 ∷ later else later

-- `ForEachPeer` with a callback that returns whether to go on: the peers it is called with.
unfoldable pub for_each_peer : {P : Type 0} → (P → Bool) → List (List ℕ × P) → List P
for_each_peer goes_on [] = []
for_each_peer goes_on (e ∷ es) =
    let later = for_each_peer goes_on es in if goes_on e.1 then e.1 ∷ later else e.1 ∷ []

-- `range` is the order in which sync.Map's Range goes through the peers.
module _ {C V : Type 0} (range : List (List ℕ × Peer C V) → List (List ℕ × Peer C V)) where
  unfoldable pub get_all_peers : PeerManager (Peer C V) → List (Peer C V)
  get_all_peers m = collect (λ p. true) (range m.peers)

  unfoldable pub get_connected_peers : PeerManager (Peer C V) → List (Peer C V)
  get_connected_peers m = collect is_connected (range m.peers)

  unfoldable pub get_inbound_peers : PeerManager (Peer C V) → List (Peer C V)
  get_inbound_peers m = collect (λ p. is_inbound p.direction) (range m.peers)

  unfoldable pub get_outbound_peers : PeerManager (Peer C V) → List (Peer C V)
  get_outbound_peers m = collect (λ p. not (is_inbound p.direction)) (range m.peers)

-- `if err != nil { lastErr = err }`
later_error : Run (Unit {0}) → Run (Unit {0}) → Run (Unit {0})
later_error (ok u) last = last
later_error (err e) last = err e
later_error panic last = panic

-- `Close`: each peer is closed, and the last error is returned. Both maps have the same peers.
module _ {C V : Type 0} (io : Connection C) where
  pub close_each : List (List ℕ × Peer C V) → List (List ℕ × Peer C V)
  close_each es = map (λ e. (e.0, (close io e.1).0)) es

  pub close_loop : List (List ℕ × Peer C V) → (last : Run (Unit {0})) → Run (Unit {0})
  close_loop [] last = last
  close_loop (e ∷ es) last = close_loop es (later_error (close io e.1).1 last)

  pub close_all :
      (range : List (List ℕ × Peer C V) → List (List ℕ × Peer C V))
      → PeerManager (Peer C V)
      → PeerManager (Peer C V) × Run (Unit {0})
  close_all range m = (
    record m { peers = close_each m.peers; peers_by_addr = close_each m.peers_by_addr },
    close_loop (range m.peers) (ok tt),
  )
