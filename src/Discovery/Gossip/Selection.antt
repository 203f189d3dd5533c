-- ===== src/Discovery/Gossip/Selection.antt =====
-- pkg/discovery/gossip.go: which peers are selected.
use lock_free_p2p_go.Prelude.{
  ℕ, ◌≤◌, ◌≡◌, ◌⊎◌, refl, Bool, true, false, not, ◌&&◌, List, length, take, map, select, ltb,
  Bool-cases, inl, inr, arith, Perm, Mem, Mem-select, Mem-take, length-take,
}
use mathlib.Core.Logic.{◌↔◌, ∥∥₁_map, ∥∥₁_elim}
use mathlib.Core.List.{exists_of_mem-map, mem-map_of_mem, Mem-prop}
use mathlib.Core.List.Perm
use lock_free_p2p_go.Bytes.{bytes_eq}
use lock_free_p2p_go.GoMap.{lookup}
use lock_free_p2p_go.Broadcast.{is_set}
use lock_free_p2p_go.Discovery.{PeerInfo}
use lock_free_p2p_go.Discovery.Book.{Book}
use lock_free_p2p_go.Discovery.Gossip.{
  GossipDiscovery, at_most, is_quiet, is_random, gossip_candidates, select_peers_to_gossip,
  get_random_peers,
}

-- At most n of those that satisfy P, and n of them unless it is all of them.
pub record IsSample (P : PeerInfo → Type 0) (n : ℕ) (r : List PeerInfo) : Type 0 where
  pub fits : length r ≤ n
  pub each : (p : PeerInfo) → Mem p r → P p
  pub enough : (length r ≡ n) ⊎ ((p : PeerInfo) → P p → Mem p r)

at_most-IsSample :
    (P : PeerInfo → Type 0) (n : ℕ) (candidates mixed : List PeerInfo)
    → Perm mixed candidates
    → ((p : PeerInfo) → Mem p candidates ↔ P p)
    → IsSample P n (at_most n mixed)
at_most-IsSample P n candidates mixed perm iff = elim (Bool-cases (ltb n (length mixed))) [
  | inl many ↦
      let cut : length (take n mixed) ≡ n = ground (arith, length-take n mixed) in
      rw many (record {
        fits = omega (arith, cut);
        each = λ p i. (iff p).0 ((Perm.mem_iff perm).0 (Mem-take n mixed p i));
        enough = inl cut;
      })
  | inr few ↦ rw few (record {
    fits = ground arith;
    each = λ p i. (iff p).0 ((Perm.mem_iff perm).0 i);
    enough = inr (λ p h. (Perm.mem_iff perm).1 ((iff p).1 h));
  })
]

module _ {H : Type 0} (range : Book → Book) (shuffle : List PeerInfo → List PeerInfo)
    (gd : GossipDiscovery H) where
  -- A known peer whose address was not sent within the TTL.
  abbrev pub IsDue : (now : ℕ) → PeerInfo → Type 0
  IsDue now p =
      Mem p (map (λ e. e.1) gd.seed.peers)
      × (is_quiet now gd.gossip_config.gossip_ttl (lookup gd.recent_gossip p.addr) ≡ true)

  -- selectPeersToGossip, in whatever order a loop goes through the map and whatever the shuffle: at
  -- most MaxGossipPeers known peers that were not sent within the TTL, and as many as that unless it
  -- is all of them.
  pub select_peers_to_gossip-IsSample :
      (now : ℕ)
      → ((es : Book) → Perm (range es) es)
      → ((ps : List PeerInfo) → Perm (shuffle ps) ps)
      → IsSample
          (IsDue now)
          gd.gossip_config.max_gossip_peers
          (select_peers_to_gossip range shuffle now gd)
  unfolding select_peers_to_gossip gossip_candidates
  select_peers_to_gossip-IsSample now same mixed =
      at_most-IsSample (IsDue now) gd.gossip_config.max_gossip_peers
        (select due (map (λ e. e.1) (range gd.seed.peers))) _ (mixed _) iff
    where
      due : PeerInfo → Bool
      due p = is_quiet now gd.gossip_config.gossip_ttl (lookup gd.recent_gossip p.addr)

      iff : (p : PeerInfo) → Mem p (select due (map (λ e. e.1) (range gd.seed.peers))) ↔ IsDue now p
      iff p =
          let known = Perm.mem_iff (Perm.map (λ e. e.1) (same gd.seed.peers)) in
          let selected = Mem-select due (map (λ e. e.1) (range gd.seed.peers)) p in
          (λ i. (let s = selected.0 i in (known.0 s.0, s.1)), λ (i, d). selected.1 (known.1 i, d))

  -- A known peer that is not excluded, under another address than the own one.
  abbrev pub IsAvailable : (exclude : List (List ℕ × Bool)) → PeerInfo → Type 0
  IsAvailable exclude p = ∥ (
      (addr : List ℕ) × Mem (addr, p) gd.seed.peers
      × (is_set (lookup exclude addr) ≡ false)
      × (bytes_eq addr gd.seed.local_addr ≡ false)) ∥₁

  -- GetRandomPeers, in whatever order the loop goes through the map and whatever the shuffle: at most
  -- n known peers under addresses that are neither excluded nor the own one, and as many as n unless
  -- it is all of them.
  pub get_random_peers-IsSample :
      (n : ℕ) (exclude : List (List ℕ × Bool))
      → ((es : Book) → Perm (range es) es)
      → ((ps : List PeerInfo) → Perm (shuffle ps) ps)
      → IsSample (IsAvailable exclude) n (get_random_peers range shuffle gd n exclude)
  unfolding get_random_peers
  get_random_peers-IsSample n exclude same mixed =
      at_most-IsSample (IsAvailable exclude) n
        (map (λ e. e.1) (select (is_random gd exclude) (range gd.seed.peers))) _ (mixed _)
        λ p. (
          λ i. ∥∥₁_map (exists_of_mem-map i) (λ t. there p t.0 t.1 t.2),
          λ i. ∥∥₁_elim i Mem-prop (λ (addr, known, free, foreign).
              let random : is_random gd exclude (addr, p) ≡ true = rw (free, foreign) refl in
              let chosen =
                (selected (addr, p)).1 ((Perm.mem_iff (same gd.seed.peers)).1 known, random) in
              mem-map_of_mem (λ (e : List ℕ × PeerInfo). e.1) chosen),
        )
    where
      selected :
          (e : List ℕ × PeerInfo)
          → Mem e (select (is_random gd exclude) (range gd.seed.peers))
            ↔ (Mem e (range gd.seed.peers) × (is_random gd exclude e ≡ true))
      selected e = Mem-select (is_random gd exclude) (range gd.seed.peers) e

      both : (a b : Bool) → (not a && not b) ≡ true → (a ≡ false) × (b ≡ false)
      both a b h = ground arith

      there :
          (p : PeerInfo) (e : List ℕ × PeerInfo)
          → Mem e (select (is_random gd exclude) (range gd.seed.peers))
          → e.1 ≡ p
          → (addr : List ℕ) × Mem (addr, p) gd.seed.peers
            × (is_set (lookup exclude addr) ≡ false)
            × (bytes_eq addr gd.seed.local_addr ≡ false)
      there p e i same_one =
          let (known, random) = (selected e).0 i in
          let (free, foreign) =
            both (is_set (lookup exclude e.0)) (bytes_eq e.0 gd.seed.local_addr) random in
          let entry : e ≡ (e.0, p) = λ j. (e.0, same_one j) in
          let in_map : Mem e gd.seed.peers = (Perm.mem_iff (same gd.seed.peers)).0 known in
          (e.0, rw entry at in_map, free, foreign)
