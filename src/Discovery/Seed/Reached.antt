-- ===== src/Discovery/Seed/Reached.antt =====
-- pkg/discovery/seed.go: the books that the methods reach.
use lock_free_p2p_go.Prelude.{ℕ, refl, Option, List}
use mathlib.Core.List.{Permᴰ}
use lock_free_p2p_go.Discovery.{PeerInfo, Config}
use lock_free_p2p_go.Discovery.Book.{Book}
use lock_free_p2p_go.Discovery.Seed.{
  SeedDiscovery, new_seed_discovery, add_peer, remove_peer, mark_attempt, mark_success, on_event,
  start, stop, cleanup_stale_peers,
}
use lock_free_p2p_go.Discovery.Seed.Invariant.{
  HasBook, with_seeds-IsBook, add_peer-HasBook, remove_peer-HasBook, change-HasBook,
  cleanup-HasBook,
}

module _ {H : Type 0} (range : Book → Book) (same : (es : Book) → Permᴰ (range es) es) where
  -- The books that the methods reach.
  pub data Reached : SeedDiscovery H → Type 0 where
    fresh :
        (now : ℕ) (seeds : List (List ℕ)) (local_addr : List ℕ) (config : Option Config)
        → Reached (new_seed_discovery now seeds local_addr config)
    started : {sd : SeedDiscovery H} → Reached sd → Reached (start sd)
    stopped : {sd : SeedDiscovery H} → Reached sd → Reached (stop sd)
    added :
        {sd : SeedDiscovery H} (now : ℕ) (info : Option PeerInfo)
        → Reached sd
        → Reached (add_peer now sd info).0
    removed : {sd : SeedDiscovery H} (addr : List ℕ) → Reached sd → Reached (remove_peer sd addr).0
    attempted :
        {sd : SeedDiscovery H} (now : ℕ) (addr : List ℕ)
        → Reached sd
        → Reached (mark_attempt now sd addr)
    succeeded :
        {sd : SeedDiscovery H} (now : ℕ) (addr : List ℕ)
        → Reached sd
        → Reached (mark_success now sd addr)
    listens : {sd : SeedDiscovery H} (handler : H) → Reached sd → Reached (on_event sd handler)
    cleaned :
        {sd : SeedDiscovery H} (now : ℕ) → Reached sd → Reached (cleanup_stale_peers range now sd).0

  -- In every book that the methods reach from a new one, at any times and in whatever order a loop
  -- goes through the map: there is one entry for each address; each stands under its own address,
  -- with a source and a time; and only a seed has the empty address or the own one.
  pub Reached-IsBook : {sd : SeedDiscovery H} → Reached sd → HasBook sd
  unfolding new_seed_discovery start stop mark_attempt mark_success on_event
  Reached-IsBook (fresh now seeds local_addr config) =
      with_seeds-IsBook now seeds (record { is_map = tt; entries = λ k p e. absurd (cc e) })
  Reached-IsBook (started r) = Reached-IsBook r
  Reached-IsBook (stopped r) = Reached-IsBook r
  Reached-IsBook (added {sd = sd} now info r) = add_peer-HasBook now sd info (Reached-IsBook r)
  Reached-IsBook (removed {sd = sd} addr r) = remove_peer-HasBook sd addr (Reached-IsBook r)
  Reached-IsBook (attempted {sd = sd} now addr r) =
      change-HasBook sd addr _ (λ p. refl) (λ p. refl) (λ p h. h) (Reached-IsBook r)
  Reached-IsBook (succeeded {sd = sd} now addr r) =
      change-HasBook sd addr _ (λ p. refl) (λ p. refl) (λ p h. refl) (Reached-IsBook r)
  Reached-IsBook (listens handler r) = Reached-IsBook r
  Reached-IsBook (cleaned {sd = sd} now r) = cleanup-HasBook range same now sd (Reached-IsBook r)
