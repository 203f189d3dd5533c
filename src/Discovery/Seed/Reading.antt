-- ===== src/Discovery/Seed/Reading.antt =====
-- pkg/discovery/seed.go: the methods that read the map.
use lock_free_p2p_go.Prelude.{
  ℕ, ◌≡◌, false, List, [], take, ltb, leb, ◌&&◌, ◌==◌, if◌then◌else◌, Bool-cases, inl, inr, arith,
}
use lock_free_p2p_go.Discovery.{PeerInfo}
use lock_free_p2p_go.Discovery.Book.{Book}
use lock_free_p2p_go.Discovery.Book.Gathering.{kept, gather_all, gather_first}
use lock_free_p2p_go.Discovery.Seed.{SeedDiscovery, is_other, find_peers, get_peers_for_gossip}

module _ {H : Type 0} (range : Book → Book) (sd : SeedDiscovery H) where
  -- What is known but the own address, in the order of the loop.
  abbrev pub others : List PeerInfo
  others = kept (is_other sd) (range sd.peers)

  -- FindPeers, in whatever order the loop goes through the map, returns the first of the peers under
  -- other addresses than the own one, as many as the limit, and all of them when the limit is 0.
  pub find_peers-take :
      (limit : ℕ) → find_peers range sd limit ≡ (if limit == 0 then others else take limit others)
  unfolding find_peers
  find_peers-take limit = elim (Bool-cases (limit == 0)) [
    | inl unlimited ↦
        let none_set : ltb 0 limit ≡ false = ground arith in
        rw (unlimited, none_set) (gather_all (is_other sd) (range sd.peers) [])
    | inr limited ↦ rw limited (
        gather_first (is_other sd) (λ k. ltb 0 limit && leb limit k) limit (λ k h. ground arith)
          (ground arith) (range sd.peers))
  ]

  -- GetPeersForGossip returns the first of the peers under other addresses than the own one, as many as
  -- the limit, but one also when the limit is 0.
  pub get_peers_for_gossip-take :
      (limit : ℕ)
      → get_peers_for_gossip range sd limit ≡ take (if limit == 0 then 1 else limit) others
  unfolding get_peers_for_gossip
  get_peers_for_gossip-take limit =
      gather_first (is_other sd) (λ k. leb limit k) (if limit == 0 then 1 else limit)
        (λ k h. ground arith) (ground arith) (range sd.peers)
