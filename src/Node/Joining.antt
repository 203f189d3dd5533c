-- ===== src/Node/Joining.antt =====
-- pkg/node/node.go: a peer that startPeer enters, and removePeer takes out again; and a Ping.
use lock_free_p2p_go.Prelude.{
  ℕ, ◌≡◌, ◌⊎◌, refl, ap, true, false, Option, none, some, List, inl, inr, Bool,
}
use lock_free_p2p_go.Run.{Run, ok, err, panic, Error}
use lock_free_p2p_go.Peer.{
  Peer, Connection, connected, disconnected, set_state, set_connected_at, close, shut_down,
}
use lock_free_p2p_go.Peer.Manager.{PeerManager, Event, add_peer, get_peer}
use lock_free_p2p_go.Peer.Manager.Invariant.{IsConfig, IsCounted}
use lock_free_p2p_go.Peer.Manager.Adding.{add_peer-get_peer}
use lock_free_p2p_go.Peer.Manager.Removing.{remove_peer-add_peer}
use lock_free_p2p_go.Node.{Node, registered, start_peer, node_remove_peer}

-- A call returned an error.
abbrev pub Failed : {A : Type 0} → Run A → Type 0
Failed r = (e : Error) × (r ≡ err e)

module _ {C V : Type 0} (hex : List ℕ → List ℕ) (io : Connection C) where
  -- What startPeer of a peer, marked as connected, leaves: the peer closed and no loop, or the peer
  -- entered until it is removed.
  abbrev pub Joined : Node C V → Peer C V → Node C V × Peer C V × Run Bool → Type 0
  Joined n q s =
      ((s.2 ≡ ok false)
        × (s.0 ≡ n)
        × (s.1.state ≡ disconnected)
        × (s.1.conn ≡ (shut_down io q.conn).0)
        × Failed (add_peer hex n.peer_manager q).1)
      ⊎ ((s.2 ≡ ok true)
          × (s.1.state ≡ connected)
          × (s.1.id ≡ q.id)
          × (get_peer hex n.peer_manager s.1.id ≡ none)
          × (get_peer hex s.0.peer_manager s.1.id ≡ some s.1)
          × ((node_remove_peer hex io s.0 s.1).0 ≡ n))

  registered-Joined :
      (n : Node C V) (q : Peer C V) (r : PeerManager (Peer C V) × Run (Option (Event (Peer C V))))
      → IsConfig n.peer_manager.config
      → IsCounted n.peer_manager
      → q.state ≡ connected
      → add_peer hex n.peer_manager q ≡ r
      → Joined n q (registered hex io n q r)
  unfolding node_remove_peer close
  registered-Joined n q (m, ok event) fits c up e =
      elim (add_peer-get_peer hex n.peer_manager q m (ok event) fits c e) [
        | inl (x, failed, _) ↦ absurd (cc failed)
        | inr (_, _, new, found, _) ↦ inr (
          refl,
          up,
          refl,
          new,
          found,
          ap (λ s. record n { peer_manager = s.0 })
              (remove_peer-add_peer hex n.peer_manager q m event fits c e),
        )
      ]
  registered-Joined n q (m, err x) fits c up e =
      elim (add_peer-get_peer hex n.peer_manager q m (err x) fits c e) [
        | inl (_, _, same) ↦ inl (
          refl,
          ap (λ m. record n { peer_manager = m }) same,
          rw up refl,
          rw up refl,
          (x, ap (λ s. s.1) e),
        )
        | inr (_, wrong, _, _, _) ↦ absurd (cc wrong)
      ]
  registered-Joined n q (m, panic) fits c up e =
      elim (add_peer-get_peer hex n.peer_manager q m panic fits c e) [
        | inl (_, wrong, _) ↦ absurd (cc wrong)
        | inr (_, wrong, _, _, _) ↦ absurd (cc wrong)
      ]

  -- On a node whose peer manager has the right counts and limits that an int of 64 bits holds: startPeer
  -- either leaves the node as it was, the peer disconnected, its connection shut and no loop reading,
  -- when AddPeer fails; or it starts the loop, the identifier of the peer had no peer before and has
  -- this one, connected, after it, and removePeer of the peer makes the node what it was.
  pub node_remove_peer-start_peer :
      (now : ℕ) (n : Node C V) (p : Peer C V)
      → IsConfig n.peer_manager.config
      → IsCounted n.peer_manager
      → Joined n (set_connected_at (set_state p connected) now) (start_peer hex io now n p)
  unfolding start_peer set_state set_connected_at
  node_remove_peer-start_peer now n p fits c =
      let q = set_connected_at (set_state p connected) now in
      registered-Joined n q (add_peer hex n.peer_manager q) fits c refl refl
