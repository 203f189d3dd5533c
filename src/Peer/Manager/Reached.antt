-- ===== src/Peer/Manager/Reached.antt =====
-- pkg/peer/manager.go: the managers that its operations reach, one after the other.
use lock_free_p2p_go.Prelude.{ℕ, ◌≡◌, ◌∙◌, refl, Bool, List, arith}
use lock_free_p2p_go.Peer.{Peer}
use lock_free_p2p_go.Peer.Manager.{
  ManagerConfig, PeerManager, new_peer_manager, add_peer, remove_peer, set_event_handler,
}
use lock_free_p2p_go.Peer.Manager.Invariant.{IsConfig, IsCounted, IsIndexed}
use lock_free_p2p_go.Peer.Manager.Adding.{add_peer-IsCounted, add_peer-IsIndexed, add_peer-config}
use lock_free_p2p_go.Peer.Manager.Removing.{
  remove_peer-IsCounted, remove_peer-IsIndexed, remove_peer-config,
}

module _ {C V : Type 0} (hex : List ℕ → List ℕ) (config : ManagerConfig) where
  pub data Reached : PeerManager (Peer C V) → Type 0 where
    fresh : Reached (new_peer_manager config)
    added : {m : PeerManager (Peer C V)} (p : Peer C V) → Reached m → Reached (add_peer hex m p).0
    removed :
        {m : PeerManager (Peer C V)} (id : List ℕ) → Reached m → Reached (remove_peer hex m id).0
    handled :
        {m : PeerManager (Peer C V)} (is_set : Bool)
        → Reached m
        → Reached (set_event_handler m is_set)

  pub record IsManager (m : PeerManager (Peer C V)) : Type 0 where
    pub same : m.config ≡ config
    pub counted : IsCounted m
    pub indexed : IsIndexed hex m

  -- In every manager that AddPeer, RemovePeer and SetEventHandler reach from a new one, one call after
  -- the other, with limits that an int of 64 bits holds: the counts are the numbers of the peers and of
  -- those of each direction, and within the limits; each peer stands under its identifier and, if it
  -- has an address, under this address, no two under the same; and the index of the addresses has no
  -- other entries.
  pub Reached-IsManager : {m : PeerManager (Peer C V)} → IsConfig config → Reached m → IsManager m
  unfolding set_event_handler
  Reached-IsManager fits fresh = record {
    same = refl;
    counted = record {
      total_is = refl;
      inbound_is = refl;
      outbound_is = refl;
      total_fits = omega arith;
      inbound_fits = omega arith;
      outbound_fits = omega arith;
    };
    indexed = record {
      one_each = tt;
      one_addr = tt;
      keyed = λ k p e. absurd (cc e);
      addressed = λ k p e g. absurd (cc e);
      listed = λ a p e. absurd (cc e);
    };
  }
  Reached-IsManager fits (added {m} p r) =
      let i = Reached-IsManager fits r in
      let f = rw (← i.same) at fits in
      record {
        same = add_peer-config hex m p f i.counted ∙ i.same;
        counted = add_peer-IsCounted hex m p f i.counted;
        indexed = add_peer-IsIndexed hex m p f i.counted i.indexed;
      }
  Reached-IsManager fits (removed {m} id r) =
      let i = Reached-IsManager fits r in
      let f = rw (← i.same) at fits in
      record {
        same = remove_peer-config hex m id ∙ i.same;
        counted = remove_peer-IsCounted hex m id f i.indexed i.counted;
        indexed = remove_peer-IsIndexed hex m id i.indexed;
      }
  Reached-IsManager fits (handled {m} is_set r) =
      let i = Reached-IsManager fits r in
      let c = i.counted in
      let x = i.indexed in
      record {
        same = i.same;
        counted = record {
          total_is = c.total_is;
          inbound_is = c.inbound_is;
          outbound_is = c.outbound_is;
          total_fits = c.total_fits;
          inbound_fits = c.inbound_fits;
          outbound_fits = c.outbound_fits;
        };
        indexed = record {
          one_each = x.one_each;
          one_addr = x.one_addr;
          keyed = x.keyed;
          addressed = x.addressed;
          listed = x.listed;
        };
      }
