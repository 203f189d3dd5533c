-- ===== src/Discovery/Gossip.antt =====
-- pkg/discovery/gossip.go: the gossip of known addresses, on top of pkg/discovery/seed.go. Each method
-- is one step. `gossip_func` is the function that SetGossipFunc sets, which sends peers and answers
-- whether it could; `shuffle` is rand.Shuffle, and `range` the order of a loop through a map.
pub mod Selection
pub mod Quiet
use lock_free_p2p_go.Prelude.{
  ℕ, zero, suc, ◌+◌, ◌*◌, ◌%◌, ◌^◌, Bool, true, false, ◌&&◌, ◌||◌, not, Option, none, some, List,
  ◌∷◌, [], ◌++◌, length, take, map, select, ltb, leb, if◌then◌else◌,
}
use lock_free_p2p_go.Bytes.{bytes_eq}
use lock_free_p2p_go.GoMap.{lookup, assign, there, sweep}
use lock_free_p2p_go.Mempool.Tx.{since}
use lock_free_p2p_go.Broadcast.{is_set}
use lock_free_p2p_go.Discovery.{PeerInfo, Config, second, signed_leb, elapsed}
use lock_free_p2p_go.Discovery.Book.{Book}
use lock_free_p2p_go.Discovery.Seed.{
  SeedDiscovery, Event, new_seed_discovery, start, stop, add_peer, find_peers, is_other,
}

-- Durations in nanoseconds; neither they nor the limits are negative.
pub record GossipConfig : Type 0 where
  pub gossip_interval : ℕ
  pub gossip_fanout : ℕ
  pub max_gossip_peers : ℕ
  pub gossip_ttl : ℕ

abbrev pub default_gossip_config : GossipConfig
default_gossip_config = record {
  gossip_interval = 60 * second;
  gossip_fanout = 3;
  max_gossip_peers = 10;
  gossip_ttl = 5 * 60 * second;
}

abbrev pub Recent : Type 0
Recent = List (List ℕ × ℕ)

pub record GossipDiscovery (H : Type 0) : Type 0 where
  pub seed : SeedDiscovery H
  pub gossip_config : GossipConfig
  pub recent_gossip : Recent
  pub gossip_running : Bool

abbrev pub gossip_configured : Option GossipConfig → GossipConfig
gossip_configured none = default_gossip_config
gossip_configured (some config) = config

-- `!exists || now.Sub(lastGossip) > ttl`
abbrev pub is_quiet : (now ttl : ℕ) → Option ℕ → Bool
is_quiet now ttl none = true
is_quiet now ttl (some last_gossip) = ltb ttl (since now (some last_gossip))

-- The candidates of `selectPeersToGossip`
unfoldable pub gossip_candidates : (now ttl : ℕ) → Recent → List PeerInfo → List PeerInfo
gossip_candidates now ttl recent peers = select (λ p. is_quiet now ttl (lookup recent p.addr)) peers

-- `if len(candidates) > n { candidates = candidates[:n] }`
abbrev pub at_most : (n : ℕ) → List PeerInfo → List PeerInfo
at_most n candidates = if ltb n (length candidates) then take n candidates else candidates

-- The last loop of `doGossip`
unfoldable pub mark_gossip : (now : ℕ) → List PeerInfo → Recent → Recent
mark_gossip now [] recent = recent
mark_gossip now (p ∷ ps) recent = mark_gossip now ps (assign recent p.addr now)

module _ {H : Type 0} where
  -- `NewGossipDiscovery` at the time `now`; `none` is a nil configuration.
  unfoldable pub new_gossip_discovery :
      (now : ℕ)
      → (seeds : List (List ℕ)) → (local_addr : List ℕ) → Option Config
      → Option GossipConfig
      → GossipDiscovery H
  new_gossip_discovery now seeds local_addr config gossip_config = record {
    seed = new_seed_discovery now seeds local_addr config;
    gossip_config = gossip_configured gossip_config;
    recent_gossip = [];
    gossip_running = false;
  }

  -- `Start` and `Stop`: whether the loops run.
  unfoldable pub start_gossip : GossipDiscovery H → GossipDiscovery H
  start_gossip gd = record gd { seed = start gd.seed; gossip_running = true }

  unfoldable pub stop_gossip : GossipDiscovery H → GossipDiscovery H
  stop_gossip gd = record gd { seed = stop gd.seed; gossip_running = false }

  -- `cleanupRecentGossip` at the time `now`; `GossipTTL*2` is an int64 and may wrap.
  unfoldable pub cleanup_recent_gossip :
      (range : Recent → Recent) → (now : ℕ) → GossipDiscovery H → GossipDiscovery H
  cleanup_recent_gossip range now gd =
      let is_old = λ (last_gossip : ℕ).
        not (signed_leb (elapsed now last_gossip) ((gd.gossip_config.gossip_ttl * 2) % 2 ^ 64)) in
      record gd { recent_gossip = (sweep is_old (range gd.recent_gossip) gd.recent_gossip).0 }

  -- `HandleGossip`, each AddPeer at the time `now`; `none` is a nil pointer.
  unfoldable pub handle_gossip :
      (now : ℕ) → GossipDiscovery H → List (Option PeerInfo) → GossipDiscovery H × List (H × Event)
  handle_gossip now gd [] = (gd, [])
  handle_gossip now gd (p ∷ ps) =
      let r = add_peer now gd.seed p in
      let rest = handle_gossip now (record gd { seed = r.0 }) ps in (rest.0, r.1 ++ rest.1)

  -- `Advertise` at the time `now`: the peers that are sent, and whether it returns no error.
  abbrev pub self_info : (now : ℕ) → GossipDiscovery H → PeerInfo
  self_info now gd = record {
    id = [];
    addr = gd.seed.local_addr;
    source = 115 ∷ 101 ∷ 108 ∷ 102 ∷ [];
    last_seen = some now;
    attempts = 0;
    last_attempt = none;
  }

  abbrev pub advertise :
      Option (List PeerInfo → Bool) → (now : ℕ) → GossipDiscovery H → List PeerInfo × Bool
  advertise none now gd = ([], true)
  advertise (some gossip_func) now gd = let sent = self_info now gd ∷ [] in (sent, gossip_func sent)

  -- The part of `doGossip` after the selection, which marks at the time `now`: the peers that are sent.
  abbrev pub gossip_with :
      (List PeerInfo → Bool)
      → (now : ℕ) → GossipDiscovery H
      → (peers : List PeerInfo) → GossipDiscovery H × List PeerInfo
  gossip_with gossip_func now gd [] = (gd, [])
  gossip_with gossip_func now gd (p ∷ ps) =
      let marked = mark_gossip now (p ∷ ps) gd.recent_gossip in
      (if gossip_func (p ∷ ps) then record gd { recent_gossip = marked } else gd, p ∷ ps)

  -- `exclude != nil && exclude[addr]` and the own address
  abbrev pub is_random :
      GossipDiscovery H → (exclude : List (List ℕ × Bool)) → List ℕ × PeerInfo → Bool
  is_random gd exclude e = not (is_set (lookup exclude e.0)) && is_other gd.seed e

  module _ (range : Book → Book) (shuffle : List PeerInfo → List PeerInfo) where
    -- `selectPeersToGossip` at the time `now`
    unfoldable pub select_peers_to_gossip : (now : ℕ) → GossipDiscovery H → List PeerInfo
    select_peers_to_gossip now gd =
        let all_peers = map (λ e. e.1) (range gd.seed.peers) in
        let candidates =
          gossip_candidates now gd.gossip_config.gossip_ttl gd.recent_gossip all_peers in
        at_most gd.gossip_config.max_gossip_peers (shuffle candidates)

    -- `doGossip`, which selects at the time `now` and marks at the time `later`.
    unfoldable pub do_gossip :
        Option (List PeerInfo → Bool)
        → (now later : ℕ) → GossipDiscovery H
        → GossipDiscovery H × List PeerInfo
    do_gossip none now later gd = (gd, [])
    do_gossip (some gossip_func) now later gd =
        gossip_with gossip_func later gd (select_peers_to_gossip now gd)

    -- `GetRandomPeers`
    unfoldable pub get_random_peers :
        GossipDiscovery H → (n : ℕ) → (exclude : List (List ℕ × Bool)) → List PeerInfo
    get_random_peers gd n exclude =
        let candidates = map (λ e. e.1) (select (is_random gd exclude) (range gd.seed.peers)) in
        at_most n (shuffle candidates)

  -- `FindPeers`
  unfoldable pub find_gossip_peers :
      (range : Book → Book) → GossipDiscovery H → (limit : ℕ) → List PeerInfo
  find_gossip_peers range gd limit = find_peers range gd.seed limit
