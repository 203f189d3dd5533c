-- ===== src/Discovery/Seed.antt =====
-- pkg/discovery/seed.go: the addresses that a node knows. Each method is one step, since it holds the
-- lock; `range` is the order in which a loop goes through the map. A peer's information is a value: its
-- owner does not change it while the book has it. Handlers are of any type H, and an operation returns
-- which are called with which events, in the order of the calls. The log is left out.
pub mod Reading
pub mod Invariant
pub mod Reached
pub mod Cleanup
use lock_free_p2p_go.Prelude.{
  ℕ, zero, suc, ◌+◌, ◌*◌, ◌^◌, Bool, true, false, ◌&&◌, ◌||◌, not, Option, none, some, List, ◌∷◌,
  [], ◌++◌, length, map, ltb, leb, if◌then◌else◌, select,
}
use lock_free_p2p_go.Bytes.{bytes_eq}
use lock_free_p2p_go.GoMap.{lookup, assign, erase, there, sweep}
use lock_free_p2p_go.Mempool.Tx.{since}
use lock_free_p2p_go.Peer.{add_word}
use lock_free_p2p_go.Peer.Manager.{is_empty_string}
use lock_free_p2p_go.Discovery.{PeerInfo, Config, should_retry}
use lock_free_p2p_go.Discovery.Book.{
  Book, with_seeds, configured, trim_loop, gather, seen_again, first_seen, is_expired,
}

pub data Event : Type 0 where
  peer_discovered : PeerInfo → Event
  peer_removed : PeerInfo → Event
  peer_updated : PeerInfo → Event

pub record SeedDiscovery (H : Type 0) : Type 0 where
  pub seeds : List (List ℕ)
  pub peers : Book
  pub config : Config
  pub event_handlers : List H
  pub running : Bool
  pub local_addr : List ℕ

module _ {H : Type 0} where
  -- `NewSeedDiscovery` at the time `now`; `none` is a nil configuration.
  unfoldable pub new_seed_discovery :
      (now : ℕ) → (seeds : List (List ℕ)) → (local_addr : List ℕ) → Option Config → SeedDiscovery H
  new_seed_discovery now seeds local_addr config = record {
    seeds = seeds;
    peers = with_seeds now seeds [];
    config = configured config;
    event_handlers = [];
    running = false;
    local_addr = local_addr;
  }

  -- `Start` and `Stop`: whether the loop of `cleanupStalePeers` runs.
  unfoldable pub start : SeedDiscovery H → SeedDiscovery H
  start sd = record sd { running = true }

  unfoldable pub stop : SeedDiscovery H → SeedDiscovery H
  stop sd = record sd { running = false }

  -- `emitEventLocked`
  abbrev pub emit_event_locked : SeedDiscovery H → Event → List (H × Event)
  emit_event_locked sd e = map (λ handler. (handler, e)) sd.event_handlers

  abbrev pub emit_removed : SeedDiscovery H → List PeerInfo → List (H × Event)
  emit_removed sd [] = []
  emit_removed sd (p ∷ ps) = emit_event_locked sd (peer_removed p) ++ emit_removed sd ps

  -- The event of a removal is emitted with what the map had.
  abbrev pub emit_trimmed : SeedDiscovery H → List (Option PeerInfo) → List (H × Event)
  emit_trimmed sd [] = []
  emit_trimmed sd (none ∷ ps) = emit_trimmed sd ps
  emit_trimmed sd (some p ∷ ps) = emit_event_locked sd (peer_removed p) ++ emit_trimmed sd ps

  -- `AddPeer` at the time `now`; `none` is nil.
  abbrev pub enter :
      (now : ℕ) → SeedDiscovery H → PeerInfo → Option PeerInfo → SeedDiscovery H × List (H × Event)
  enter now sd info none =
      let p = first_seen now info in
      (record sd { peers = assign sd.peers info.addr p }, emit_event_locked sd (peer_discovered p))
  enter now sd info (some existing) =
      let p = seen_again now existing info.id in
      (record sd { peers = assign sd.peers info.addr p }, emit_event_locked sd (peer_updated p))

  unfoldable pub add_peer :
      (now : ℕ) → SeedDiscovery H → Option PeerInfo → SeedDiscovery H × List (H × Event)
  add_peer now sd none = (sd, [])
  add_peer now sd (some info) =
      let entered = enter now sd info (lookup sd.peers info.addr) in
      if is_empty_string info.addr
      then (sd, [])
      else if bytes_eq info.addr sd.local_addr
      then (sd, [])
      else entered

  -- `RemovePeer`
  abbrev pub leave :
      SeedDiscovery H → (addr : List ℕ) → Option PeerInfo → SeedDiscovery H × List (H × Event)
  leave sd addr none = (sd, [])
  leave sd addr (some p) =
      (record sd { peers = erase sd.peers addr }, emit_event_locked sd (peer_removed p))

  unfoldable pub remove_peer :
      SeedDiscovery H → (addr : List ℕ) → SeedDiscovery H × List (H × Event)
  remove_peer sd addr = leave sd addr (lookup sd.peers addr)

  -- `MarkAttempt` and `MarkSuccess` at the time `now`
  abbrev pub change :
      SeedDiscovery H → (addr : List ℕ) → (PeerInfo → PeerInfo) → Option PeerInfo → SeedDiscovery H
  change sd addr f none = sd
  change sd addr f (some p) = record sd { peers = assign sd.peers addr (f p) }

  unfoldable pub mark_attempt : (now : ℕ) → SeedDiscovery H → (addr : List ℕ) → SeedDiscovery H
  mark_attempt now sd addr =
      change sd addr (λ p. record p { attempts = add_word p.attempts 1; last_attempt = some now })
        (lookup sd.peers addr)

  unfoldable pub mark_success : (now : ℕ) → SeedDiscovery H → (addr : List ℕ) → SeedDiscovery H
  mark_success now sd addr =
      change sd addr (λ p. record p { attempts = 0; last_attempt = none; last_seen = some now })
        (lookup sd.peers addr)

  -- `OnEvent`
  unfoldable pub on_event : SeedDiscovery H → H → SeedDiscovery H
  on_event sd handler = record sd { event_handlers = sd.event_handlers ++ (handler ∷ []) }

  unfoldable pub peer_count : SeedDiscovery H → ℕ
  peer_count sd = length sd.peers

  abbrev pub is_other : SeedDiscovery H → List ℕ × PeerInfo → Bool
  is_other sd e = not (bytes_eq e.0 sd.local_addr)

  module _ (range : Book → Book) where
    unfoldable pub trim_oldest_peers_locked :
        SeedDiscovery H → (max_count : ℕ) → SeedDiscovery H × List (H × Event)
    trim_oldest_peers_locked sd max_count =
        let r = trim_loop range max_count (length sd.peers) sd.peers in
        (record sd { peers = r.0 }, emit_trimmed sd r.1)

    -- `cleanupStalePeers` at the time `now`
    unfoldable pub cleanup_stale_peers :
        (now : ℕ) → SeedDiscovery H → SeedDiscovery H × List (H × Event)
    cleanup_stale_peers now sd =
        let r = sweep (is_expired now sd.config.peer_ttl) (range sd.peers) sd.peers in
        let swept = record sd { peers = r.0 } in
        let calls = emit_removed sd (map (λ e. e.1) r.1) in
        let trimmed = trim_oldest_peers_locked swept sd.config.max_peers in
        if ltb sd.config.max_peers (length r.0)
        then (trimmed.0, calls ++ trimmed.1)
        else (swept, calls)

    -- `FindPeers`; a limit that is not positive is 0.
    unfoldable pub find_peers : SeedDiscovery H → (limit : ℕ) → List PeerInfo
    find_peers sd limit = gather (is_other sd) (λ n. ltb 0 limit && leb limit n) (range sd.peers) []

    -- `GetPeersForGossip`; a negative limit, with which make panics, is left out.
    unfoldable pub get_peers_for_gossip : SeedDiscovery H → (limit : ℕ) → List PeerInfo
    get_peers_for_gossip sd limit = gather (is_other sd) (λ n. leb limit n) (range sd.peers) []

    unfoldable pub get_peers : SeedDiscovery H → List PeerInfo
    get_peers sd = map (λ e. e.1) (range sd.peers)

    -- `GetRetryablePeers` at the time `now`
    unfoldable pub get_retryable_peers : (now : ℕ) → SeedDiscovery H → List PeerInfo
    get_retryable_peers now sd =
        let retryable = λ (e : List ℕ × PeerInfo).
          is_other sd e
          && should_retry now e.1 sd.config.retry_base_interval sd.config.max_retry_attempts in
        gather retryable (λ n. false) (range sd.peers) []
