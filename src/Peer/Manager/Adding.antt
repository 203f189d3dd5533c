-- ===== src/Peer/Manager/Adding.antt =====
-- pkg/peer/manager.go: AddPeer.
use lock_free_p2p_go.Prelude.{
  ℕ, ◌+◌, ◌<◌, ◌≡◌, ◌⊎◌, refl, sym, ap, ◌∙◌, true, false, Option, none, some, List, if◌then◌else◌,
  arith, Bool-cases, Option-cases, inl, inr,
}
use lock_free_p2p_go.Run.{
  Run, ok, err, Error, too_many_peers, too_many_inbound, too_many_outbound, known_id, known_addr,
}
use lock_free_p2p_go.Bytes.{bytes_eq}
use lock_free_p2p_go.Bytes.Laws.{bytes_eq_iff, bytes_eq→≡}
use lock_free_p2p_go.GoMap.{lookup, assign}
use lock_free_p2p_go.GoMap.Laws.{lookup-assign, assign-some}
use lock_free_p2p_go.GoMap.Keys.{IsMap, IsMap-assign, erase-assign}
use lock_free_p2p_go.Peer.{Peer, add_word}
use lock_free_p2p_go.Peer.Manager.{
  PeerManager, Event, peer_connected, is_inbound, is_empty_string, at_least, count_in, store_id,
  add_peer, event_of, get_peer,
}
use lock_free_p2p_go.Peer.Manager.Invariant.{
  IsConfig, IsCounted, IsIndexed, below, count_in-IsCounted,
}

module _ {C V : Type 0} (hex : List ℕ → List ℕ) (m : PeerManager (Peer C V)) (p : Peer C V) where
  -- The index of the addresses after AddPeer: a peer without an address is not in it.
  pub data Addressed : List (List ℕ × Peer C V) → Type 0 where
    without : is_empty_string p.addr ≡ true → Addressed m.peers_by_addr
    under :
        is_empty_string p.addr ≡ false
        → lookup m.peers_by_addr p.addr ≡ none
        → Addressed (assign m.peers_by_addr p.addr p)

  abbrev pub HasPlace : Type 0
  HasPlace =
      (m.total_count < m.config.max_peers)
      × (if is_inbound p.direction
          then m.inbound_count < m.config.max_inbound_peers
          else m.outbound_count < m.config.max_outbound_peers)

  -- How AddPeer ends: an error leaves the manager as it was.
  pub data Added : PeerManager (Peer C V) × Run (Option (Event (Peer C V))) → Type 0 where
    refused : (e : Error) → Added (m, err e)
    entered :
        (by_addr : List (List ℕ × Peer C V))
        → HasPlace
        → lookup m.peers (hex p.id) ≡ none
        → Addressed by_addr
        → Added (
            count_in hex
              (record m { peers = assign m.peers (hex p.id) p; peers_by_addr = by_addr })
              p)

  store_id-Added : HasPlace → Added (store_id hex m p)
  store_id-Added place = elim (Option-cases (lookup m.peers (hex p.id))) [
    | inr known ↦ rw known.1 (refused known_id)
    | inl new ↦ rw new (elim (Bool-cases (is_empty_string p.addr)) [
      | inl none_given ↦ rw none_given (entered m.peers_by_addr place new (without none_given))
      | inr given ↦ elim (Option-cases (lookup m.peers_by_addr p.addr)) [
        | inl free ↦
            rw (given, free)
              (entered (assign m.peers_by_addr p.addr p) place new (under given free))
        | inr taken ↦
            rw (given, taken.1, erase-assign m.peers (hex p.id) p new) (refused known_addr)
      ]
    ])
  ]

  pub add_peer-Added : IsConfig m.config → IsCounted m → Added (add_peer hex m p)
  unfolding add_peer
  add_peer-Added fits c = elim (Bool-cases (at_least m.total_count m.config.max_peers)) [
    | inl full ↦ rw full (refused too_many_peers)
    | inr room ↦
        let l =
          below m.total_count m.config.max_peers fits.peers_fit
            (omega (arith, c.total_is, c.total_fits)) room in
        elim (Bool-cases (is_inbound p.direction)) [
          | inl to ↦ elim (Bool-cases (at_least m.inbound_count m.config.max_inbound_peers)) [
            | inl full ↦ rw (room, to, full) (refused too_many_inbound)
            | inr free ↦
                let k =
                  below m.inbound_count m.config.max_inbound_peers fits.inbound_fit
                    (omega (arith, c.inbound_is, c.inbound_fits)) free in
                rw (room, to, free) (rw to at (store_id-Added (l, rw to k)))
          ]
          | inr from ↦ elim (Bool-cases (at_least m.outbound_count m.config.max_outbound_peers)) [
            | inl full ↦ rw (room, from, full) (refused too_many_outbound)
            | inr free ↦
                let k =
                  below m.outbound_count m.config.max_outbound_peers fits.outbound_fit
                    (omega (arith, c.outbound_is, c.outbound_fits)) free in
                rw (room, from, free) (rw from at (store_id-Added (l, rw from k)))
          ]
        ]
  ]

  pub add_peer-IsCounted : IsConfig m.config → IsCounted m → IsCounted (add_peer hex m p).0
  add_peer-IsCounted fits c = counted (add_peer-Added fits c)
    where
      counted :
          {r : PeerManager (Peer C V) × Run (Option (Event (Peer C V)))} → Added r → IsCounted r.0
      counted (refused e) = c
      counted (entered by_addr place new a) =
          count_in-IsCounted hex m p by_addr fits c new place.0 place.1

  Addressed-IsMap :
      {by_addr : List (List ℕ × Peer C V)}
      → Addressed by_addr
      → IsMap m.peers_by_addr
      → IsMap by_addr
  Addressed-IsMap (without e) i = i
  Addressed-IsMap (under g f) i = IsMap-assign m.peers_by_addr p.addr p i

  -- A peer that was there keeps its address, which the new peer does not have.
  Addressed-kept :
      {by_addr : List (List ℕ × Peer C V)} (q : Peer C V)
      → Addressed by_addr
      → lookup m.peers_by_addr q.addr ≡ some q
      → lookup by_addr q.addr ≡ some q
  Addressed-kept q (without e) f = f
  Addressed-kept q (under g free) f = elim (Bool-cases (bytes_eq p.addr q.addr)) [
    | inl same ↦ absurd (cc (free, f, ap (lookup m.peers_by_addr) (bytes_eq→≡ p.addr q.addr same)))
    | inr other ↦ rw (lookup-assign m.peers_by_addr p.addr q.addr p, other) f
  ]

  Addressed-own :
      {by_addr : List (List ℕ × Peer C V)}
      → Addressed by_addr
      → is_empty_string p.addr ≡ false
      → lookup by_addr p.addr ≡ some p
  Addressed-own (without e) given = absurd (cc (e, given))
  Addressed-own (under g free) given =
      let self : bytes_eq p.addr p.addr ≡ true = (bytes_eq_iff p.addr p.addr).1 refl in
      rw (lookup-assign m.peers_by_addr p.addr p.addr p, self) refl

  Addressed-some :
      {by_addr : List (List ℕ × Peer C V)} (b : List ℕ) (q : Peer C V)
      → Addressed by_addr
      → lookup by_addr b ≡ some q
      → ((p.addr ≡ b) × (is_empty_string p.addr ≡ false) × (p ≡ q))
        ⊎ (lookup m.peers_by_addr b ≡ some q)
  Addressed-some b q (without e) f = inr f
  Addressed-some b q (under g free) f = elim (assign-some m.peers_by_addr p.addr b p q f) [
    | inl now ↦ inl (now.0, g, now.1)
    | inr old ↦ inr old
  ]

  -- A peer that was there stays under its identifier.
  kept_peer :
      (k : List ℕ) (q : Peer C V)
      → lookup m.peers (hex p.id) ≡ none
      → lookup m.peers k ≡ some q
      → lookup (assign m.peers (hex p.id) p) k ≡ some q
  kept_peer k q new e = elim (Bool-cases (bytes_eq (hex p.id) k)) [
    | inl same ↦ absurd (cc (new, e, ap (lookup m.peers) (bytes_eq→≡ (hex p.id) k same)))
    | inr other ↦ rw (lookup-assign m.peers (hex p.id) k p, other) e
  ]

  pub entered-IsIndexed :
      {by_addr : List (List ℕ × Peer C V)}
      → lookup m.peers (hex p.id) ≡ none
      → Addressed by_addr
      → IsIndexed hex m
      → IsIndexed hex
          (count_in hex
            (record m { peers = assign m.peers (hex p.id) p; peers_by_addr = by_addr })
            p).0
  entered-IsIndexed {by_addr} new a i =
      let self : bytes_eq (hex p.id) (hex p.id) ≡ true =
        (bytes_eq_iff (hex p.id) (hex p.id)).1 refl in
      let mine : lookup (assign m.peers (hex p.id) p) (hex p.id) ≡ some p =
        rw (lookup-assign m.peers (hex p.id) (hex p.id) p, self) refl in
      record {
        one_each = IsMap-assign m.peers (hex p.id) p i.one_each;
        one_addr = Addressed-IsMap a i.one_addr;
        keyed = λ k q e. elim (assign-some m.peers (hex p.id) k p q e) [
          | inl now ↦ rw (← now.1) now.0
          | inr old ↦ i.keyed k q old
        ];
        addressed = λ k q e given. elim (assign-some m.peers (hex p.id) k p q e) [
          | inl now ↦ rw (← now.1) (Addressed-own a (rw (← now.1) at given))
          | inr old ↦ Addressed-kept q a (i.addressed k q old given)
        ];
        listed = λ b q e. elim (Addressed-some b q a e) [
          | inl (here, given, now) ↦ (rw (← now) here, rw (← here) given, rw (← now) mine)
          | inr old ↦
              let (at, given, there_) = i.listed b q old in
              (at, given, kept_peer (hex q.id) q new there_)
        ];
      }

  pub add_peer-IsIndexed :
      IsConfig m.config → IsCounted m → IsIndexed hex m → IsIndexed hex (add_peer hex m p).0
  add_peer-IsIndexed fits c i = indexed (add_peer-Added fits c)
    where
      indexed :
          {r : PeerManager (Peer C V) × Run (Option (Event (Peer C V)))}
          → Added r
          → IsIndexed hex r.0
      indexed (refused e) = i
      indexed (entered by_addr place new a) = entered-IsIndexed new a i

  pub add_peer-config : IsConfig m.config → IsCounted m → (add_peer hex m p).0.config ≡ m.config
  add_peer-config fits c = same (add_peer-Added fits c)
    where
      same :
          {r : PeerManager (Peer C V) × Run (Option (Event (Peer C V)))}
          → Added r
          → r.0.config ≡ m.config
      same (refused e) = refl
      same (entered by_addr place new a) = refl

  -- On a manager whose counts are right and within limits that an int of 64 bits holds: an AddPeer that
  -- returns an error leaves the manager as it was, the peer that it stored under its identifier before
  -- it found the address included; one that returns no error makes the peer the one of its identifier,
  -- which had none, and raises the number of peers by one.
  pub add_peer-get_peer :
      (m' : PeerManager (Peer C V)) (r : Run (Option (Event (Peer C V))))
      → IsConfig m.config
      → IsCounted m
      → add_peer hex m p ≡ (m', r)
      → ((e : Error) × (r ≡ err e) × (m' ≡ m))
        ⊎ ((event : Option (Event (Peer C V))) × (r ≡ ok event)
            × (get_peer hex m p.id ≡ none)
            × (get_peer hex m' p.id ≡ some p)
            × (m'.total_count ≡ m.total_count + 1))
  unfolding get_peer
  add_peer-get_peer m' r fits c e = ending (add_peer-Added fits c) e
    where
      ending :
          {s : PeerManager (Peer C V) × Run (Option (Event (Peer C V)))}
          → Added s
          → s ≡ (m', r)
          → ((e : Error) × (r ≡ err e) × (m' ≡ m))
            ⊎ ((event : Option (Event (Peer C V))) × (r ≡ ok event)
                × (get_peer hex m p.id ≡ none)
                × (get_peer hex m' p.id ≡ some p)
                × (m'.total_count ≡ m.total_count + 1))
      ending (refused x) f = inl (x, sym (ap (λ s. s.1) f), sym (ap (λ s. s.0) f))
      ending (entered by_addr place new a) f =
          let self : bytes_eq (hex p.id) (hex p.id) ≡ true =
            (bytes_eq_iff (hex p.id) (hex p.id)).1 refl in
          let found : lookup (assign m.peers (hex p.id) p) (hex p.id) ≡ some p =
            rw (lookup-assign m.peers (hex p.id) (hex p.id) p, self) refl in
          let more : add_word m.total_count 1 ≡ m.total_count + 1 =
            omega (arith, place.0, fits.peers_fit) in
          inr (
            event_of hex m (peer_connected p),
            sym (ap (λ s. s.1) f),
            new,
            ap (λ s. lookup s.0.peers (hex p.id)) (sym f) ∙ found,
            ap (λ s. s.0.total_count) (sym f) ∙ more,
          )
