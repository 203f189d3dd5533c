-- ===== src/Broadcast.antt =====
-- pkg/node/broadcast.go: the filter of messages that were seen, and the broadcast of a message to the
-- peers of pkg/peer/manager.go. Each method is one step. A hash is a uint64, and its key in the map of
-- the seen messages the list of it alone. The log is left out.

pub mod Seen
pub mod Once
pub mod Targets
pub mod Sending
pub mod Reaching
pub mod Relaying
mod Tests
use lock_free_p2p_go.Prelude.{
  ℕ, suc, ◌+◌, ◌-◌, ◌*◌, ◌%◌, ◌^◌, Bool, true, false, ◌||◌, not, Option, none, some, List, ◌∷◌, [],
  length, take, select, ltb, leb, if◌then◌else◌,
}
use lock_free_p2p_go.Run.{Run, ok, err, panic}
use lock_free_p2p_go.GoMap.{lookup, assign, there, sweep}
use lock_free_p2p_go.Mempool.Tx.{since}
use lock_free_p2p_go.Peer.{Peer, Connection, add_word, is_connected, write_message}
use lock_free_p2p_go.Peer.Manager.{PeerManager, is_empty_string, for_each_peer, get_connected_peers}
use lock_free_p2p_go.Protocol.Message.{Message, encode}

-- Durations in nanoseconds; the limits are not negative.
pub record BroadcastConfig : Type 0 where
  pub message_ttl : ℕ
  pub max_seen_messages : ℕ
  pub gossip_fanout : ℕ
  pub cleanup_interval : ℕ

abbrev pub default_broadcast_config : BroadcastConfig
default_broadcast_config = record {
  message_ttl = 10 * 60 * 10 ^ 9;
  max_seen_messages = 100000;
  gossip_fanout = 7;
  cleanup_interval = 60 * 10 ^ 9;
}

-- `seen_messages` has the time at which a hash was first seen; `count` is int64 in two's complement.
pub record BroadcastManager : Type 0 where
  pub seen_messages : List (List ℕ × ℕ)
  pub count : ℕ
  pub config : BroadcastConfig

-- `NewBroadcastManager`; `none` is a nil configuration.
unfoldable pub new_broadcast_manager : Option BroadcastConfig → BroadcastManager
new_broadcast_manager none = record {
  seen_messages = [];
  count = 0;
  config = default_broadcast_config;
}
new_broadcast_manager (some config) = record { seen_messages = []; count = 0; config = config }

abbrev pub hash_key : ℕ → List ℕ
hash_key hash = hash ∷ []

-- `now.Sub(seenAt) > bm.config.MessageTTL`
abbrev pub has_expired : (now ttl : ℕ) → (seen_at : ℕ) → Bool
has_expired now ttl seen_at = ltb ttl (since now (some seen_at))

-- `atomic.AddInt64(&count, -deleted)`
abbrev pub less : (count deleted : ℕ) → ℕ
less count deleted = add_word count (2 ^ 64 - deleted % 2 ^ 64)

-- `cleanup` at the time `now`; `range` is the order in which sync.Map's Range goes through the entries.
unfoldable pub cleanup :
    (range : List (List ℕ × ℕ) → List (List ℕ × ℕ))
    → (now : ℕ) → BroadcastManager
    → BroadcastManager
cleanup range now bm =
    let r =
      sweep (has_expired now bm.config.message_ttl) (range bm.seen_messages) bm.seen_messages in
    record bm {
      seen_messages = r.0;
      count = if ltb 0 (length r.1) then less bm.count (length r.1) else bm.count;
    }

-- `HasSeen`
unfoldable pub has_seen : BroadcastManager → (hash : ℕ) → Bool
has_seen bm hash = there (lookup bm.seen_messages (hash_key hash))

-- `MarkSeen` at the time `now`
unfoldable pub mark_seen : (now : ℕ) → BroadcastManager → (hash : ℕ) → BroadcastManager × Bool
mark_seen now bm hash = if there (lookup bm.seen_messages (hash_key hash)) then (bm, false) else (
  record bm {
    seen_messages = assign bm.seen_messages (hash_key hash) now;
    count = add_word bm.count 1;
  },
  true,
)

-- `GetStats`: SeenMessagesCount
pub get_stats : BroadcastManager → ℕ
get_stats bm = bm.count

-- `MessageHash`: `sum64` is the xxhash of the bytes written to a new digest.
unfoldable pub message_hash : (sum64 : List ℕ → ℕ) → Message → ℕ
message_hash sum64 msg = sum64 (msg.type ∷ msg.payload)

-- `exclude != nil && exclude[id]`; a nil map looks up as an empty one.
abbrev pub is_set : Option Bool → Bool
is_set none = false
is_set (some b) = b

abbrev pub is_excluded : (exclude : List (List ℕ × Bool)) → (id : List ℕ) → Bool
is_excluded exclude id = is_set (lookup exclude id)

-- The candidates of `selectGossipTargets`
unfoldable pub candidates_of :
    {C V : Type 0} → (exclude : List (List ℕ × Bool)) → List (Peer C V) → List (Peer C V)
candidates_of exclude ps = select (λ p. not (is_excluded exclude p.id)) ps

module _ {C V : Type 0} where
  -- `selectGossipTargets`; `shuffle` is rand.Shuffle.
  unfoldable pub select_gossip_targets :
      (range : List (List ℕ × Peer C V) → List (List ℕ × Peer C V))
      → (shuffle : List (Peer C V) → List (Peer C V)) → BroadcastManager
      → PeerManager (Peer C V)
      → (exclude : List (List ℕ × Bool)) → List (Peer C V)
  select_gossip_targets range shuffle bm m exclude =
      let candidates = candidates_of exclude (get_connected_peers range m) in
      if leb (length candidates) bm.config.gossip_fanout
      then candidates
      else take bm.config.gossip_fanout (shuffle candidates)

  module _ (hex : List ℕ → List ℕ) where
    -- The maps of the manager have pointers to their peers: a change of a peer shows in both.
    unfoldable pub put_back : PeerManager (Peer C V) → Peer C V → PeerManager (Peer C V)
    put_back m p = record m {
      peers = assign m.peers (hex p.id) p;
      peers_by_addr =
          if is_empty_string p.addr then m.peers_by_addr else assign m.peers_by_addr p.addr p;
    }

    module _ (io : Connection C) where
      -- The loop of `GossipBroadcast` and `RelayIfNew`, with the count of the messages sent.
      unfoldable pub send_each :
          (data' : List ℕ)
          → List (Peer C V)
          → PeerManager (Peer C V)
          → (count : ℕ) → PeerManager (Peer C V) × Run ℕ
      send_each data' [] m count = (m, ok count)
      send_each data' (p ∷ ps) m count =
          let r = write_message io p data' in
          elim r.1 [
            | ok u ↦ send_each data' ps (put_back m r.0) (suc count)
            | err e ↦ send_each data' ps (put_back m r.0) count
            | panic ↦ (put_back m r.0, panic)
          ]

      -- The callback of `Broadcast`, on the peers that ForEachPeer calls it with.
      unfoldable pub send_to_all :
          (data' : List ℕ)
          → (exclude : List (List ℕ × Bool)) → List (Peer C V)
          → PeerManager (Peer C V)
          → (count : ℕ) → PeerManager (Peer C V) × Run ℕ
      send_to_all data' exclude [] m count = (m, ok count)
      send_to_all data' exclude (p ∷ ps) m count =
          let later = send_to_all data' exclude ps m count in
          let r = write_message io p data' in
          let sent : PeerManager (Peer C V) × Run ℕ = elim r.1 [
            | ok u ↦ send_to_all data' exclude ps (put_back m r.0) (suc count)
            | err e ↦ send_to_all data' exclude ps (put_back m r.0) count
            | panic ↦ (put_back m r.0, panic)
          ] in
          if is_excluded exclude p.id then later else if not (is_connected p) then later else sent

-- What a broadcast leaves: both managers, and what it returns.
pub record Outcome (C V : Type 0) (A : Type 0) : Type 0 where
  pub manager : BroadcastManager
  pub peers : PeerManager (Peer C V)
  pub result : Run A

-- `return count, true`
abbrev pub and_new : Run ℕ → Run (ℕ × Bool)
and_new (ok count) = ok (count, true)
and_new (err e) = err e
and_new panic = panic

module _ {C V : Type 0} (hex : List ℕ → List ℕ) (io : Connection C) (sum64 : List ℕ → ℕ)
    (range : List (List ℕ × Peer C V) → List (List ℕ × Peer C V)) where
  -- `Broadcast` at the time `now`
  unfoldable pub broadcast :
      (now : ℕ)
      → BroadcastManager
      → PeerManager (Peer C V)
      → Message
      → (exclude : List (List ℕ × Bool)) → Outcome C V ℕ
  broadcast now bm m msg exclude = elim (encode msg) [
    | ok data' ↦
        let marked = mark_seen now bm (message_hash sum64 msg) in
        let called_with = for_each_peer (λ p. true) (range m.peers) in
        let r = send_to_all hex io data' exclude called_with m 0 in
        if marked.1
        then record { manager = marked.0; peers = r.0; result = r.1 }
        else record { manager = marked.0; peers = m; result = ok 0 }
    | err e ↦ record { manager = bm; peers = m; result = err e }
    | panic ↦ record { manager = bm; peers = m; result = panic }
  ]

  module _ (shuffle : List (Peer C V) → List (Peer C V)) where
    -- `GossipBroadcast`
    unfoldable pub gossip_broadcast :
        (now : ℕ)
        → BroadcastManager
        → PeerManager (Peer C V)
        → Message
        → (exclude : List (List ℕ × Bool)) → Outcome C V ℕ
    gossip_broadcast now bm m msg exclude = elim (encode msg) [
      | ok data' ↦
          let marked = mark_seen now bm (message_hash sum64 msg) in
          let peers = select_gossip_targets range shuffle marked.0 m exclude in
          let r = send_each hex io data' peers m 0 in
          if marked.1
          then record { manager = marked.0; peers = r.0; result = r.1 }
          else record { manager = marked.0; peers = m; result = ok 0 }
      | err e ↦ record { manager = bm; peers = m; result = err e }
      | panic ↦ record { manager = bm; peers = m; result = panic }
    ]

    -- `Relay`
    unfoldable pub relay :
        (now : ℕ)
        → BroadcastManager
        → PeerManager (Peer C V)
        → Message
        → (from : Peer C V) → Outcome C V ℕ
    relay now bm m msg from = gossip_broadcast now bm m msg ((from.id, true) ∷ [])

    -- `RelayIfNew`; the message is marked before it is encoded.
    unfoldable pub relay_if_new :
        (now : ℕ)
        → BroadcastManager
        → PeerManager (Peer C V)
        → Message
        → (from : Peer C V) → Outcome C V (ℕ × Bool)
    relay_if_new now bm m msg from =
        let marked = mark_seen now bm (message_hash sum64 msg) in
        let peers = select_gossip_targets range shuffle marked.0 m ((from.id, true) ∷ []) in
        let new : Outcome C V (ℕ × Bool) = elim (encode msg) [
          | ok data' ↦
              let r = send_each hex io data' peers m 0 in
              record { manager = marked.0; peers = r.0; result = and_new r.1 }
          | err e ↦ record { manager = marked.0; peers = m; result = err e }
          | panic ↦ record { manager = marked.0; peers = m; result = panic }
        ] in
        if marked.1 then new else record { manager = marked.0; peers = m; result = ok (0, false) }
