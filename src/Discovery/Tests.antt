-- ===== src/Discovery/Tests.antt =====
-- The theorems on discovery at a book with a seed and two other peers.
use lock_free_p2p_go.Prelude.{
  ℕ, ◌+◌, ◌*◌, ◌^◌, ◌<◌, ◌≡◌, ◌≢◌, refl, Bool, true, none, some, List, ◌∷◌, [], arith,
}
use mathlib.Core.Logic.{◌↔◌}
use mathlib.Core.List.{mem-cons_self}
use mathlib.Core.List.Perm
use mathlib.Core.List.Permᴰ as Permᴰ
use lock_free_p2p_go.Bytes.{bytes_eq}
use lock_free_p2p_go.Mempool.Tx.{since}
use lock_free_p2p_go.Discovery.{PeerInfo, should_retry}
use lock_free_p2p_go.Discovery.Backoff.{IsOver, wait, should_retry_iff, should_retry_at_once}
use lock_free_p2p_go.Discovery.Book.{seed_info}
use lock_free_p2p_go.Discovery.Seed.{
  SeedDiscovery, new_seed_discovery, add_peer, mark_attempt, cleanup_stale_peers,
}
use lock_free_p2p_go.Discovery.Seed.Invariant.{HasBook}
use lock_free_p2p_go.Discovery.Seed.Reached.{Reached, fresh, added, attempted, Reached-IsBook}
use lock_free_p2p_go.Discovery.Seed.Cleanup.{Cleaned, cleanup_stale_peers-Cleaned}
use lock_free_p2p_go.Discovery.Gossip.{
  GossipDiscovery, select_peers_to_gossip, do_gossip, get_random_peers, cleanup_recent_gossip,
  gossip_candidates, mark_gossip, default_gossip_config,
}
use lock_free_p2p_go.Discovery.Gossip.Selection.{IsSample, IsAvailable, get_random_peers-IsSample}
use lock_free_p2p_go.Discovery.Gossip.Quiet.{do_gossip_once, cleanup_recent_gossip-candidates}

abbrev in_order : {A : Type 0} → List A → List A
in_order xs = xs

abbrev known : ℕ → PeerInfo
known n = record {
  id = [];
  addr = n ∷ [];
  source = [];
  last_seen = none;
  attempts = 3;
  last_attempt = some 5;
}

abbrev book : SeedDiscovery ℕ
book = new_seed_discovery 100 ((1 ∷ []) ∷ []) (9 ∷ []) none

-- Two peers join, one is tried, and a peer under the own address is left out.
abbrev joined : SeedDiscovery ℕ
joined =
    (add_peer 400
      (mark_attempt 300 (add_peer 250 (add_peer 200 book (some (known 2))).0 (some (known 3))).0
        (3 ∷ []))
      (some (known 9))).0

joined_reached : Reached in_order (λ es. Permᴰ.refl es) joined
joined_reached = added 400 (some (known 9)) (
    attempted 300 (3 ∷ []) (
      added 250 (some (known 3))
        (added 200 (some (known 2)) (fresh 100 ((1 ∷ []) ∷ []) (9 ∷ []) none))))

Reached-IsBook_example : HasBook joined
Reached-IsBook_example = Reached-IsBook in_order (λ es. Permᴰ.refl es) joined_reached

cleanup_stale_peers-Cleaned_example :
    Cleaned
      (10 ^ 15)
      joined.config.peer_ttl
      joined.config.max_peers
      joined.peers
      (cleanup_stale_peers in_order (10 ^ 15) joined).0.peers
cleanup_stale_peers-Cleaned_example =
    cleanup_stale_peers-Cleaned in_order (10 ^ 15) joined (λ es. Permᴰ.refl es)
      (Reached-IsBook in_order (λ es. Permᴰ.refl es) joined_reached)

-- Three attempts, of which the last was at 5, with a minute between the first ones.
should_retry_iff_example :
    (should_retry (10 ^ 12) (known 2) (60 * 10 ^ 9) 10 ≡ true)
    ↔ ((3 < 10) × IsOver (10 ^ 12) (wait (60 * 10 ^ 9) 3) (some 5))
should_retry_iff_example =
    should_retry_iff (10 ^ 12) (known 2) (60 * 10 ^ 9) 10 (omega arith) (omega arith)

abbrev tired : PeerInfo
tired = record (known 2) { attempts = 64 }

should_retry_at_once_example : should_retry 6 tired (60 * 10 ^ 9) 100 ≡ true
should_retry_at_once_example =
    should_retry_at_once 6 5 tired (60 * 10 ^ 9) 100 (omega arith) (omega arith) refl (omega arith)

abbrev gossips : GossipDiscovery ℕ
gossips = record {
  seed = joined;
  gossip_config = default_gossip_config;
  recent_gossip = (2 ∷ [], 500) ∷ [];
  gossip_running = true;
}

get_random_peers-IsSample_example :
    IsSample
      (IsAvailable in_order in_order gossips ((1 ∷ [], true) ∷ []))
      2
      (get_random_peers in_order in_order gossips 2 ((1 ∷ [], true) ∷ []))
get_random_peers-IsSample_example =
    get_random_peers-IsSample in_order in_order gossips 2 ((1 ∷ [], true) ∷ []) (λ es. Perm.rfl)
      (λ ps. Perm.rfl)

cleanup_recent_gossip-candidates_example :
    gossip_candidates
      (10 ^ 13)
      gossips.gossip_config.gossip_ttl
      (cleanup_recent_gossip in_order (10 ^ 12) gossips).recent_gossip
      (known 2 ∷ known 3 ∷ [])
    ≡ gossip_candidates
        (10 ^ 13)
        gossips.gossip_config.gossip_ttl
        gossips.recent_gossip
        (known 2 ∷ known 3 ∷ [])
cleanup_recent_gossip-candidates_example =
    cleanup_recent_gossip-candidates in_order gossips (10 ^ 12) (10 ^ 13) (known 2 ∷ known 3 ∷ [])
      (Permᴰ.refl gossips.recent_gossip) (refl, tt) (omega arith) (omega arith)

abbrev two_known : GossipDiscovery ℕ
two_known = record gossips {
  seed = record joined { peers = (1 ∷ [], seed_info 100 (1 ∷ [])) ∷ (2 ∷ [], known 2) ∷ [] };
}

abbrev marked_at : ℕ
marked_at = 10 ^ 9

-- When the second address, sent at 500, is due again.
abbrev due_at : ℕ
due_at = 501 + 300 * 10 ^ 9

sends_well : List PeerInfo → Bool
sends_well ps = true

do_gossip_once_example : (known 2).addr ≢ (seed_info 100 (1 ∷ [])).addr
unfolding do_gossip select_peers_to_gossip gossip_candidates bytes_eq since sends_well mark_gossip
do_gossip_once_example =
    do_gossip_once in_order in_order two_known sends_well 600 marked_at due_at
      (seed_info 100 (1 ∷ [])) (known 2) (λ es. Perm.rfl) (λ ps. Perm.rfl) refl mem-cons_self
      (omega arith) mem-cons_self
