-- ===== src/Broadcast/Once.antt =====
-- pkg/node/broadcast.go: a message that was sent is not sent again while it is remembered.
use lock_free_p2p_go.Prelude.{
  ℕ, ◌+◌, ◌≤◌, ◌≡◌, refl, ◌∙◌, ap, Bool, true, false, some, List, ltb, Bool-cases, inl, inr, arith,
  Perm,
}
use mathlib.Core.Logic.{∥∥₁_elim}
use lock_free_p2p_go.Run.{ok}
use lock_free_p2p_go.Bytes.{bytes_eq}
use lock_free_p2p_go.Bytes.Laws.{bytes_eq_iff, bytes_eq→≡}
use lock_free_p2p_go.GoMap.{lookup, there}
use lock_free_p2p_go.GoMap.Laws.{lookup-assign}
use lock_free_p2p_go.GoMap.Keys.{IsMap}
use lock_free_p2p_go.Mempool.Tx.{since}
use lock_free_p2p_go.Peer.{Peer, Connection}
use lock_free_p2p_go.Peer.Manager.{PeerManager}
use lock_free_p2p_go.Protocol.Message.{Message}
use lock_free_p2p_go.Protocol.Message.Wire.{encode-wire}
use lock_free_p2p_go.Broadcast.{
  BroadcastManager, cleanup, mark_seen, has_expired, hash_key, has_seen, message_hash, broadcast,
  gossip_broadcast, relay_if_new,
}
use lock_free_p2p_go.Broadcast.Seen.{
  IsCounted, mark_seen-IsCounted, cleanup-IsCounted, cleanup-Swept,
}

-- A hash is in the map since the time t.
abbrev pub Remembers : (t hash : ℕ) → BroadcastManager → Type 0
Remembers t hash bm = lookup bm.seen_messages (hash_key hash) ≡ some t

module _ (range : List (List ℕ × ℕ) → List (List ℕ × ℕ)) (t : ℕ) where
  -- What happens to the manager while a message that was seen at t is not older than the TTL: any
  -- messages are marked, and cleanup runs.
  pub data Within : BroadcastManager → BroadcastManager → Type 0 where
    stays : {bm : BroadcastManager} → Within bm bm
    marks :
        {bm bm' : BroadcastManager} (now hash : ℕ)
        → Within bm bm'
        → Within bm (mark_seen now bm' hash).0
    cleans :
        {bm bm' : BroadcastManager} (now : ℕ)
        → now ≤ t + bm'.config.message_ttl
        → Within bm bm'
        → Within bm (cleanup range now bm')

mark_seen-Remembers :
    (now : ℕ) (bm : BroadcastManager) (other t hash : ℕ)
    → Remembers t hash bm
    → Remembers t hash (mark_seen now bm other).0
unfolding mark_seen
mark_seen-Remembers now bm other t hash r =
    elim (Bool-cases (there (lookup bm.seen_messages (hash_key other)))) [
      | inl known ↦ rw known r
      | inr new ↦ elim (Bool-cases (bytes_eq (hash_key other) (hash_key hash))) [
        | inl same ↦
            let key = bytes_eq→≡ (hash_key other) (hash_key hash) same in
            absurd (cc (new, ap there (ap (lookup bm.seen_messages) key ∙ r)))
        | inr apart ↦
            rw new
              (lookup-assign bm.seen_messages (hash_key other) (hash_key hash) now ∙ rw apart r)
      ]
    ]

-- MarkSeen leaves the hash in the map.
mark_seen-new :
    (now : ℕ) (bm : BroadcastManager) (hash : ℕ)
    → has_seen bm hash ≡ false
    → Remembers now hash (mark_seen now bm hash).0
unfolding mark_seen has_seen
mark_seen-new now bm hash new =
    let self : bytes_eq (hash_key hash) (hash_key hash) ≡ true =
      (bytes_eq_iff (hash_key hash) (hash_key hash)).1 refl in
    rw new (lookup-assign bm.seen_messages (hash_key hash) (hash_key hash) now ∙ rw self refl)

cleanup-Remembers :
    (range : List (List ℕ × ℕ) → List (List ℕ × ℕ)) (now : ℕ) (bm : BroadcastManager) (t hash : ℕ)
    → Perm (range bm.seen_messages) bm.seen_messages
    → IsMap bm.seen_messages
    → now ≤ t + bm.config.message_ttl
    → Remembers t hash bm
    → Remembers t hash (cleanup range now bm)
unfolding cleanup since
cleanup-Remembers range now bm t hash p m h r =
    let fresh : has_expired now bm.config.message_ttl t ≡ false =
      young now t bm.config.message_ttl h in
    ∥∥₁_elim p (hlevel)
      (λ q. (cleanup-Swept range now bm q m).looks_up (hash_key hash) ∙ rw (r, fresh) refl)
  where
    young : (n u ttl : ℕ) → n ≤ u + ttl → ltb ttl (since n (some u)) ≡ false
    young n u ttl k = ground arith

Within-Remembers :
    {range : List (List ℕ × ℕ) → List (List ℕ × ℕ)} {t : ℕ} {bm bm' : BroadcastManager} (hash : ℕ)
    → ((es : List (List ℕ × ℕ)) → Perm (range es) es)
    → IsCounted bm
    → Remembers t hash bm
    → Within range t bm bm'
    → IsCounted bm' × Remembers t hash bm'
Within-Remembers hash same c r stays = (c, r)
Within-Remembers {t = t} hash same c r (marks {bm' = b} now other w) =
    let (d, s) = Within-Remembers hash same c r w in
    (mark_seen-IsCounted now b other d, mark_seen-Remembers now b other t hash s)
Within-Remembers {range} {t} hash same c r (cleans {bm' = b} now h w) =
    let (d, s) = Within-Remembers hash same c r w in
    let p = same b.seen_messages in
    (cleanup-IsCounted range now b p d, cleanup-Remembers range now b t hash p d.one_each h s)

mark_seen_again :
    (now : ℕ) (bm : BroadcastManager) (t hash : ℕ)
    → Remembers t hash bm
    → mark_seen now bm hash ≡ (bm, false)
unfolding mark_seen
mark_seen_again now bm t hash r = rw r refl

module _ {C V : Type 0} (hex : List ℕ → List ℕ) (io : Connection C) (sum64 : List ℕ → ℕ)
    (range : List (List ℕ × Peer C V) → List (List ℕ × Peer C V))
    (shuffle : List (Peer C V) → List (Peer C V)) where
  -- Nothing is sent of a message that is in the map.
  pub record IsIgnored (now : ℕ) (bm : BroadcastManager) (m : PeerManager (Peer C V))
      (msg : Message) : Type 0 where
    pub by_broadcast :
        (exclude : List (List ℕ × Bool))
        → broadcast hex io sum64 range now bm m msg exclude
          ≡ record { manager = bm; peers = m; result = ok 0 }
    pub by_gossip :
        (exclude : List (List ℕ × Bool))
        → gossip_broadcast hex io sum64 range shuffle now bm m msg exclude
          ≡ record { manager = bm; peers = m; result = ok 0 }
    pub by_relay :
        (from : Peer C V)
        → relay_if_new hex io sum64 range shuffle now bm m msg from
          ≡ record { manager = bm; peers = m; result = ok (0, false) }

  Remembers-IsIgnored :
      (now : ℕ) (bm : BroadcastManager) (m : PeerManager (Peer C V)) (msg : Message) (t : ℕ)
      → Remembers t (message_hash sum64 msg) bm
      → IsIgnored now bm m msg
  unfolding broadcast gossip_broadcast relay_if_new
  Remembers-IsIgnored now bm m msg t r =
      let again = mark_seen_again now bm t (message_hash sum64 msg) r in
      record {
        by_broadcast = λ exclude. rw (broadcast, encode-wire msg, again) refl;
        by_gossip = λ exclude. rw (gossip_broadcast, encode-wire msg, again) refl;
        by_relay = λ from. rw again refl;
      }

  relay_if_new-manager :
      (now : ℕ) (bm : BroadcastManager) (m : PeerManager (Peer C V)) (msg : Message)
      (from : Peer C V)
      → (relay_if_new hex io sum64 range shuffle now bm m msg from).manager
        ≡ (mark_seen now bm (message_hash sum64 msg)).0
  unfolding relay_if_new
  relay_if_new-manager now bm m msg from =
      elim (Bool-cases (mark_seen now bm (message_hash sum64 msg)).1) [
        | inl new ↦ rw (new, encode-wire) refl
        | inr known ↦ rw known refl
      ]

  -- After RelayIfNew of a message that is new, while it is not older than the TTL, whatever else is
  -- marked and whenever cleanup runs: Broadcast, GossipBroadcast and RelayIfNew of a message with the
  -- same hash, on any peers, send nothing, change nothing, and return 0 and that it is not new.
  pub relayed_once :
      (range' : List (List ℕ × ℕ) → List (List ℕ × ℕ))
      → (now later : ℕ) (bm bm' : BroadcastManager) (m m' : PeerManager (Peer C V))
        (msg msg' : Message) (from : Peer C V)
      → ((es : List (List ℕ × ℕ)) → Perm (range' es) es)
      → IsCounted bm
      → has_seen bm (message_hash sum64 msg) ≡ false
      → Within range' now (relay_if_new hex io sum64 range shuffle now bm m msg from).manager bm'
      → message_hash sum64 msg' ≡ message_hash sum64 msg
      → IsIgnored later bm' m' msg'
  relayed_once range' now later bm bm' m m' msg msg' from same c new w e =
      let hash = message_hash sum64 msg in
      let is = relay_if_new-manager now bm m msg from in
      let start : Remembers now hash
          (relay_if_new hex io sum64 range shuffle now bm m msg from).manager =
        rw is (mark_seen-new now bm hash new) in
      let counted : IsCounted (relay_if_new hex io sum64 range shuffle now bm m msg from).manager =
        rw is (mark_seen-IsCounted now bm hash c) in
      let kept = Within-Remembers hash same counted start w in
      Remembers-IsIgnored later bm' m' msg' now (rw e kept.1)
