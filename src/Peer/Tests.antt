-- ===== src/Peer/Tests.antt =====
-- The theorems on peers and their manager at concrete ones.
use lock_free_p2p_go.Prelude.{
  ℕ, zero, suc, ◌≡◌, ◌⊎◌, refl, arith, List, ◌∷◌, [], false, Option, some, none,
}
use lock_free_p2p_go.Run.{Run, ok, err, io_failure, Error}
use lock_free_p2p_go.Peer.{Connection, Peer, inbound, new_peer}
use lock_free_p2p_go.Peer.Manager.{
  PeerManager, Event, default_manager_config, new_peer_manager, add_peer, remove_peer, get_peer,
}
use lock_free_p2p_go.Peer.Manager.Invariant.{IsConfig}
use lock_free_p2p_go.Peer.Manager.Adding.{add_peer-get_peer}
use lock_free_p2p_go.Peer.Manager.Reached.{
  Reached, fresh, added, removed, IsManager, Reached-IsManager,
}

-- A connection that takes a number of messages and then fails.
abbrev wire : Connection ℕ
wire = record {
  read = λ n. (n, ok (1 ∷ []));
  write = λ n data'. if_left n;
  shut = λ n. (n, err io_failure);
  is_shut = λ n. false;
}
  where
    if_left : ℕ → ℕ × Run (Unit {0})
    if_left zero = (zero, err io_failure)
    if_left (suc n) = (n, ok tt)

abbrev a_peer : Peer ℕ ℕ
a_peer = record (new_peer 7 (some 1) inbound) { id = 1 ∷ 2 ∷ []; addr = 9 ∷ [] }

-- An encoding of identifiers for the tests.
abbrev digits : List ℕ → List ℕ
digits b = b

default-IsConfig : IsConfig default_manager_config
default-IsConfig = record {
  peers_fit = omega arith;
  inbound_fit = omega arith;
  outbound_fit = omega arith;
}

abbrev managers : PeerManager (Peer ℕ ℕ)
managers = new_peer_manager default_manager_config

managers_reached : Reached digits default_manager_config managers
managers_reached = fresh

managers-IsManager : IsManager digits default_manager_config managers
managers-IsManager =
    Reached-IsManager digits default_manager_config default-IsConfig managers_reached

Reached-IsManager_example :
    IsManager digits default_manager_config
      (remove_peer digits (add_peer digits managers a_peer).0 (1 ∷ [])).0
Reached-IsManager_example =
    Reached-IsManager digits default_manager_config default-IsConfig
      (removed (1 ∷ []) (added a_peer fresh))

add_peer-get_peer_example :
    ((e : Error) × ((add_peer digits managers a_peer).1 ≡ err e)
      × ((add_peer digits managers a_peer).0 ≡ managers))
    ⊎ ((event : Option (Event (Peer ℕ ℕ))) × ((add_peer digits managers a_peer).1 ≡ ok event)
        × (get_peer digits managers (1 ∷ 2 ∷ []) ≡ none)
        × (get_peer digits (add_peer digits managers a_peer).0 (1 ∷ 2 ∷ []) ≡ some a_peer)
        × ((add_peer digits managers a_peer).0.total_count ≡ 1))
unfolding new_peer
add_peer-get_peer_example =
    add_peer-get_peer digits managers a_peer (add_peer digits managers a_peer).0
      (add_peer digits managers a_peer).1 default-IsConfig managers-IsManager.counted refl
