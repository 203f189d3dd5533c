-- ===== src/Broadcast/Targets.antt =====
-- pkg/node/broadcast.go: the peers that a gossip is sent to.
use lock_free_p2p_go.Prelude.{
  ℕ, ◌≤◌, ◌<◌, ◌≡◌, refl, Bool, true, false, not, List, ◌∷◌, [], length, take, select, leb, map,
  Bool-cases, inl, inr, arith, Perm, Mem, Mem-select, Mem-take, length-take, length-Perm, ◌⊎◌, ◌++◌,
  drop, append-nil, select-Perm, take-append-drop,
}
use mathlib.Core.Logic.{◌↔◌}
use mathlib.Core.List.Perm
use lock_free_p2p_go.Peer.{Peer, is_connected}
use lock_free_p2p_go.Peer.Manager.{PeerManager, collect, get_connected_peers}
use lock_free_p2p_go.Broadcast.{BroadcastManager, is_excluded, candidates_of, select_gossip_targets}

not-false : {b : Bool} → not b ≡ true → b ≡ false
not-false {b} h = ground arith

module _ {C V : Type 0} where
  -- The loop of a callback that collects, as a selection of the peers.
  pub collect-select :
      (test : Peer C V → Bool) (es : List (List ℕ × Peer C V))
      → collect test es ≡ select test (map (λ e. e.1) es)
  unfolding collect
  collect-select test [] = refl
  collect-select test (e ∷ es) = rw (collect-select test es) refl

  -- A peer to which a message may be sent.
  pub record IsWanted (exclude : List (List ℕ × Bool)) (p : Peer C V) : Type 0 where
    pub connected : is_connected p ≡ true
    pub not_excluded : is_excluded exclude p.id ≡ false

  module _ (range : List (List ℕ × Peer C V) → List (List ℕ × Peer C V))
      (m : PeerManager (Peer C V)) (exclude : List (List ℕ × Bool)) where
    IsWanted-iff :
        (p : Peer C V)
        → Mem p (candidates_of exclude (get_connected_peers range m))
          ↔ (Mem p (map (λ e. e.1) (range m.peers)) × IsWanted exclude p)
    unfolding candidates_of get_connected_peers
    IsWanted-iff p =
        let peers = map (λ e. e.1) (range m.peers) in
        let inner = Mem-select is_connected peers p in
        let outer =
          Mem-select (λ (q : Peer C V). not (is_excluded exclude q.id)) (select is_connected peers)
            p in
        rw (collect-select is_connected (range m.peers)) (
          λ i.
              let (j, n) = outer.0 i in
              let (k, c) = inner.0 j in (k, record { connected = c; not_excluded = not-false n }),
          λ (k, w). outer.1 (inner.1 (k, w.connected), rw w.not_excluded refl),
        )

    -- Peers to send to: at most the fanout, each one connected and not excluded, and either as many
    -- as the fanout or all of those.
    pub record IsChoice (fanout : ℕ) (targets : List (Peer C V)) : Type 0 where
      pub fits : length targets ≤ fanout
      pub each :
          (p : Peer C V) → Mem p targets → Mem p (map (λ e. e.1) m.peers) × IsWanted exclude p
      pub enough :
          (length targets ≡ fanout)
          ⊎ ((p : Peer C V) → Mem p (map (λ e. e.1) m.peers) → IsWanted exclude p → Mem p targets)

    -- selectGossipTargets, in whatever order a loop goes through the peers and whatever the shuffle:
    -- at most the fanout of peers of the manager, each of them connected and not excluded; and as
    -- many as the fanout, unless it takes all that are connected and not excluded.
    pub select_gossip_targets-IsChoice :
        (shuffle : List (Peer C V) → List (Peer C V)) (bm : BroadcastManager)
        → ((es : List (List ℕ × Peer C V)) → Perm (range es) es)
        → ((ps : List (Peer C V)) → Perm (shuffle ps) ps)
        → IsChoice bm.config.gossip_fanout (select_gossip_targets range shuffle bm m exclude)
    unfolding select_gossip_targets
    select_gossip_targets-IsChoice shuffle bm same mixed =
        elim (Bool-cases (leb (length candidates) bm.config.gossip_fanout)) [
          | inl few ↦ rw few (record {
            fits = ground arith;
            each = wanted;
            enough = inr (λ p i w. (IsWanted-iff p).1 ((there p).1 i, w));
          })
          | inr many ↦
              let longer : bm.config.gossip_fanout < length candidates = ground arith in
              rw many (record {
                fits = omega (arith, cut longer);
                each = λ p i. wanted p ((Perm.mem_iff (mixed candidates)).0 (Mem-take _ _ p i));
                enough = inl (cut longer);
              })
        ]
      where
        candidates : List (Peer C V)
        candidates = candidates_of exclude (get_connected_peers range m)

        there :
            (p : Peer C V) → Mem p (map (λ e. e.1) (range m.peers)) ↔ Mem p (map (λ e. e.1) m.peers)
        there p = Perm.mem_iff (Perm.map (λ e. e.1) (same m.peers))

        wanted :
            (p : Peer C V) → Mem p candidates → Mem p (map (λ e. e.1) m.peers) × IsWanted exclude p
        wanted p i = let (j, w) = (IsWanted-iff p).0 i in ((there p).0 j, w)

        cut :
            bm.config.gossip_fanout < length candidates
            → length (take bm.config.gossip_fanout (shuffle candidates)) ≡ bm.config.gossip_fanout
        cut longer = omega (
          arith,
          length-take bm.config.gossip_fanout (shuffle candidates),
          length-Perm (mixed candidates),
        )

    -- The connected peers that are not excluded.
    abbrev pub all_wanted : List (Peer C V)
    all_wanted = candidates_of exclude (select is_connected (map (λ e. e.1) m.peers))

    candidates_of-Perm :
        ((es : List (List ℕ × Peer C V)) → Perm (range es) es)
        → Perm (candidates_of exclude (get_connected_peers range m)) all_wanted
    unfolding candidates_of get_connected_peers
    candidates_of-Perm same = rw (collect-select is_connected (range m.peers)) (
        select-Perm (λ (p : Peer C V). not (is_excluded exclude p.id))
          (select-Perm is_connected (Perm.map (λ e. e.1) (same m.peers))))

    -- selectGossipTargets takes each of them at most once: together with those it leaves out, its
    -- targets are all of them. It leaves one out only when it takes as many as the fanout.
    pub select_gossip_targets-Perm :
        (shuffle : List (Peer C V) → List (Peer C V)) (bm : BroadcastManager)
        → ((es : List (List ℕ × Peer C V)) → Perm (range es) es)
        → ((ps : List (Peer C V)) → Perm (shuffle ps) ps)
        → (rest : List (Peer C V)) × Perm
            (select_gossip_targets range shuffle bm m exclude ++ rest)
            all_wanted
    unfolding select_gossip_targets
    select_gossip_targets-Perm shuffle bm same mixed =
        let candidates = candidates_of exclude (get_connected_peers range m) in
        let fanout = bm.config.gossip_fanout in
        elim (Bool-cases (leb (length candidates) fanout)) [
          | inl few ↦ rw few ([], rw (append-nil candidates) (candidates_of-Perm same))
          | inr many ↦ rw many (
            drop fanout (shuffle candidates),
            rw (take-append-drop fanout (shuffle candidates))
                (Perm.trans (mixed candidates) (candidates_of-Perm same)),
          )
        ]
