-- ===== src/Discovery/Book.antt =====
-- pkg/discovery/seed.go: the map of the known peers, and the loops over it.
pub mod Gathering
pub mod Oldest
pub mod Trimming
use lock_free_p2p_go.Prelude.{
  ℕ, zero, suc, ◌+◌, ◌*◌, ◌^◌, Bool, true, false, ◌&&◌, ◌||◌, not, Option, none, some, List, ◌∷◌,
  [], ◌++◌, length, map, ltb, leb, if◌then◌else◌,
}
use lock_free_p2p_go.Bytes.{bytes_eq}
use lock_free_p2p_go.GoMap.{lookup, assign, erase}
use lock_free_p2p_go.Mempool.Tx.{since}
use lock_free_p2p_go.Peer.Manager.{is_empty_string}
use lock_free_p2p_go.Discovery.{PeerInfo, Config, default_config}

abbrev pub Book : Type 0
Book = List (List ℕ × PeerInfo)

-- "seed" and "gossip"
abbrev pub seed_source : List ℕ
seed_source = 115 ∷ 101 ∷ 101 ∷ 100 ∷ []

abbrev pub gossip_source : List ℕ
gossip_source = 103 ∷ 111 ∷ 115 ∷ 115 ∷ 105 ∷ 112 ∷ []

abbrev pub is_seed : PeerInfo → Bool
is_seed p = bytes_eq p.source seed_source

abbrev pub seed_info : (now : ℕ) → List ℕ → PeerInfo
seed_info now seed = record {
  id = [];
  addr = seed;
  source = seed_source;
  last_seen = some now;
  attempts = 0;
  last_attempt = none;
}

-- The loop of `NewSeedDiscovery`
unfoldable pub with_seeds : (now : ℕ) → List (List ℕ) → Book → Book
with_seeds now [] peers = peers
with_seeds now (seed ∷ seeds) peers = with_seeds now seeds (assign peers seed (seed_info now seed))

abbrev pub configured : Option Config → Config
configured none = default_config
configured (some config) = config

-- The first time is before the second one: Go's zero time is before all others.
abbrev pub before : Option ℕ → Option ℕ → Bool
before none none = false
before none (some u) = true
before (some t) none = false
before (some t) (some u) = ltb t u

-- The loop of `trimOldestPeersLocked` over the map: `oldestAddr`, from the one found so far.
unfoldable pub oldest_from : Book → (oldest_addr : List ℕ) → (oldest_time : Option ℕ) → List ℕ
oldest_from [] oldest_addr oldest_time = oldest_addr
oldest_from (e ∷ es) oldest_addr oldest_time =
    let taken =
      not (is_seed e.1) && (is_empty_string oldest_addr || before e.1.last_seen oldest_time) in
    oldest_from es (if taken then e.0 else oldest_addr)
      (if taken then e.1.last_seen else oldest_time)

-- The outer loop of `trimOldestPeersLocked`: the map, and the entries removed, in their order. Each
-- round removes an entry, and there are as many rounds at hand as there are entries.
unfoldable pub trim_loop :
    (range : Book → Book) → (max_count fuel : ℕ) → (peers : Book) → Book × List (Option PeerInfo)
trim_loop range max_count zero peers = (peers, [])
trim_loop range max_count (suc fuel) peers =
    let oldest_addr = oldest_from (range peers) [] none in
    let rest = trim_loop range max_count fuel (erase peers oldest_addr) in
    if ltb max_count (length peers)
    then (if is_empty_string oldest_addr
        then (peers, [])
        else (rest.0, lookup peers oldest_addr ∷ rest.1))
    else (peers, [])

-- `for addr, peer := range sd.peers` with a `continue` unless `keep` holds, and the `break` once `stop`
-- holds of the number of the peers appended.
unfoldable pub gather :
    (keep : List ℕ × PeerInfo → Bool)
    → (stop : ℕ → Bool) → Book
    → (peers : List PeerInfo) → List PeerInfo
gather keep stop [] peers = peers
gather keep stop (e ∷ es) peers =
    let more = peers ++ (e.1 ∷ []) in
    let skipped = gather keep stop es peers in
    let appended = gather keep stop es more in
    if keep e then if stop (length more) then more else appended else skipped

-- The two branches of `AddPeer`: an address that is known, and a new one.
abbrev pub seen_again : (now : ℕ) → PeerInfo → (id : List ℕ) → PeerInfo
seen_again now existing id = record existing {
  last_seen = some now;
  id = if is_empty_string id then existing.id else id;
}

abbrev pub first_seen : (now : ℕ) → PeerInfo → PeerInfo
first_seen now info = record info {
  last_seen = some now;
  source = if is_empty_string info.source then gossip_source else info.source;
}

-- The test of `cleanupStalePeers`
abbrev pub is_expired : (now ttl : ℕ) → PeerInfo → Bool
is_expired now ttl p = not (is_seed p) && ltb ttl (since now p.last_seen)
