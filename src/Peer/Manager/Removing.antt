-- ===== src/Peer/Manager/Removing.antt =====
-- pkg/peer/manager.go: RemovePeer.
use lock_free_p2p_go.Prelude.{
  ℕ, ◌^◌, ◌<◌, ◌≡◌, ◌⊎◌, refl, sym, ap, ◌∙◌, true, false, Option, some, List, if◌then◌else◌, arith,
  Bool-cases, Option-cases, inl, inr,
}
use lock_free_p2p_go.Run.{Run, ok}
use lock_free_p2p_go.Bytes.{bytes_eq}
use lock_free_p2p_go.Bytes.Laws.{bytes_eq_iff, bytes_eq→≡}
use lock_free_p2p_go.GoMap.{lookup, assign, erase}
use lock_free_p2p_go.GoMap.Laws.{lookup-assign, lookup-erase, erase-some}
use lock_free_p2p_go.GoMap.Keys.{IsMap, IsMap-erase, erase-assign}
use lock_free_p2p_go.GoMap.Totals.{total-erase}
use lock_free_p2p_go.Peer.{Peer, add_word}
use lock_free_p2p_go.Peer.Manager.{
  PeerManager, Event, peer_disconnected, is_inbound, is_empty_string, less_one, add_peer, count_out,
  remove_peer, event_of,
}
use lock_free_p2p_go.Peer.Manager.Invariant.{IsConfig, IsCounted, IsIndexed}
use lock_free_p2p_go.Peer.Manager.Adding.{
  Added, Addressed, refused, entered, without, under, add_peer-Added,
}

module _ {C V : Type 0} (hex : List ℕ → List ℕ) (m : PeerManager (Peer C V)) where
  -- The index of the addresses after a peer has left.
  abbrev left_addr : Peer C V → List (List ℕ × Peer C V)
  left_addr p = if is_empty_string p.addr then m.peers_by_addr else erase m.peers_by_addr p.addr

  count_out-IsCounted :
      (key : List ℕ) (p : Peer C V)
      → lookup m.peers key ≡ some p
      → IsMap m.peers
      → IsConfig m.config
      → IsCounted m
      → IsCounted (count_out hex m key (some p)).0
  count_out-IsCounted key p found one fits c =
      let fewer = total-erase (λ (q : Peer C V). 1) m.peers key p one found in
      let fewer_in =
        total-erase (λ (q : Peer C V). if is_inbound q.direction then 1 else 0) m.peers key p one
          found in
      let fewer_out =
        total-erase (λ (q : Peer C V). if is_inbound q.direction then 0 else 1) m.peers key p one
          found in
      let t = c.total_is in
      let tf = c.total_fits in
      let n = c.inbound_is in
      let nf = c.inbound_fits in
      let u = c.outbound_is in
      let uf = c.outbound_fits in
      elim (Bool-cases (is_inbound p.direction)) [
        | inl to ↦
            let i = rw to at fewer_in in
            let o = rw to at fewer_out in
            rw to (record {
              total_is = omega (arith, fits.peers_fit);
              inbound_is = omega (arith, fits.inbound_fit);
              outbound_is = omega arith;
              total_fits = omega arith;
              inbound_fits = omega arith;
              outbound_fits = omega arith;
            })
        | inr from ↦
            let i = rw from at fewer_in in
            let o = rw from at fewer_out in
            rw from (record {
              total_is = omega (arith, fits.peers_fit);
              inbound_is = omega arith;
              outbound_is = omega (arith, fits.outbound_fit);
              total_fits = omega arith;
              inbound_fits = omega arith;
              outbound_fits = omega arith;
            })
      ]

  left_addr-some :
      (p : Peer C V) (b : List ℕ) (q : Peer C V)
      → lookup (left_addr p) b ≡ some q
      → (lookup m.peers_by_addr b ≡ some q)
        × ((is_empty_string p.addr ≡ true) ⊎ (bytes_eq p.addr b ≡ false))
  left_addr-some p b q e = elim (Bool-cases (is_empty_string p.addr)) [
    | inl gone ↦ (rw gone at e, inl gone)
    | inr given ↦
        let (old, other) = erase-some m.peers_by_addr p.addr b q (rw given at e) in (old, inr other)
  ]

  left_addr-other :
      (p : Peer C V) (b : List ℕ)
      → bytes_eq p.addr b ≡ false
      → lookup (left_addr p) b ≡ lookup m.peers_by_addr b
  left_addr-other p b other = elim (Bool-cases (is_empty_string p.addr)) [
    | inl gone ↦ rw gone refl
    | inr given ↦ rw (given, lookup-erase m.peers_by_addr p.addr b, other) refl
  ]

  IsMap-left_addr : (p : Peer C V) → IsMap m.peers_by_addr → IsMap (left_addr p)
  IsMap-left_addr p i = elim (Bool-cases (is_empty_string p.addr)) [
    | inl gone ↦ rw gone i
    | inr given ↦ rw given (IsMap-erase m.peers_by_addr p.addr i)
  ]

  count_out-IsIndexed :
      (key : List ℕ) (p : Peer C V)
      → lookup m.peers key ≡ some p
      → IsIndexed hex m
      → IsIndexed hex (count_out hex m key (some p)).0
  count_out-IsIndexed key p found i = record {
    one_each = IsMap-erase m.peers key i.one_each;
    one_addr = IsMap-left_addr p i.one_addr;
    keyed = λ k q e. i.keyed k q (erase-some m.peers key k q e).0;
    addressed = λ k q e given.
        let (old, other) = erase-some m.peers key k q e in
        let there_ = i.addressed k q old given in
        elim (Bool-cases (bytes_eq p.addr q.addr)) [
          | inr apart ↦ left_addr-other p q.addr apart ∙ there_
          | inl same ↦
              let equal = bytes_eq→≡ p.addr q.addr same in
              let p_too = i.addressed key p found (rw equal given) in
              let one : p ≡ q = cc (p_too, there_, ap (lookup m.peers_by_addr) equal) in
              let keys : key ≡ k =
                sym (i.keyed key p found) ∙ ap (λ r. hex r.id) one ∙ i.keyed k q old in
              absurd (cc (other, (bytes_eq_iff key k).1 keys))
        ];
    listed = λ b q e.
        let (old, apart) = left_addr-some p b q e in
        let (at, given, there_) = i.listed b q old in
        (
          at,
          given,
          elim (Bool-cases (bytes_eq key (hex q.id))) [
            | inr other ↦ rw (lookup-erase m.peers key (hex q.id), other) there_
            | inl same ↦
                let one : p ≡ q =
                  cc (found, there_, ap (lookup m.peers) (bytes_eq→≡ key (hex q.id) same)) in
                let mine : p.addr ≡ b = ap (λ r. r.addr) one ∙ at in
                elim apart [
                  | inl gone ↦ absurd (cc (gone, given, ap is_empty_string mine))
                  | inr differ ↦ absurd (cc (differ, (bytes_eq_iff p.addr b).1 mine))
                ]
          ],
        );
  }

  pub remove_peer-IsCounted :
      (id : List ℕ)
      → IsConfig m.config
      → IsIndexed hex m
      → IsCounted m
      → IsCounted (remove_peer hex m id).0
  unfolding remove_peer
  remove_peer-IsCounted id fits i c = elim (Option-cases (lookup m.peers (hex id))) [
    | inl none_there ↦ rw none_there c
    | inr (p, found) ↦ rw found (count_out-IsCounted (hex id) p found i.one_each fits c)
  ]

  pub remove_peer-IsIndexed :
      (id : List ℕ) → IsIndexed hex m → IsIndexed hex (remove_peer hex m id).0
  unfolding remove_peer
  remove_peer-IsIndexed id i = elim (Option-cases (lookup m.peers (hex id))) [
    | inl none_there ↦ rw none_there i
    | inr (p, found) ↦ rw found (count_out-IsIndexed (hex id) p found i)
  ]

  pub remove_peer-config : (id : List ℕ) → (remove_peer hex m id).0.config ≡ m.config
  unfolding remove_peer
  remove_peer-config id = elim (Option-cases (lookup m.peers (hex id))) [
    | inl none_there ↦ rw none_there refl
    | inr (p, found) ↦ rw found refl
  ]

module _ {C V : Type 0} (hex : List ℕ → List ℕ) (m : PeerManager (Peer C V)) (p : Peer C V) where
  left-Addressed :
      {by_addr : List (List ℕ × Peer C V)}
      → Addressed hex m p by_addr
      → (if is_empty_string p.addr then by_addr else erase by_addr p.addr) ≡ m.peers_by_addr
  left-Addressed (without gone) = rw gone refl
  left-Addressed (under given free) = rw (given, erase-assign m.peers_by_addr p.addr p free) refl

  -- A count below 2^64 that goes up by one and down by one.
  less_one-add_word : (n : ℕ) → n < 2 ^ 63 → less_one (add_word n 1) ≡ n
  less_one-add_word n h = omega arith

  -- On a manager whose counts are right and within limits that an int of 64 bits holds: after an
  -- AddPeer that returns no error, RemovePeer of the peer's identifier returns the peer, calls the
  -- handler if one is set, and leaves the manager as it was before the AddPeer.
  pub remove_peer-add_peer :
      (m' : PeerManager (Peer C V)) (event : Option (Event (Peer C V)))
      → IsConfig m.config
      → IsCounted m
      → add_peer hex m p ≡ (m', ok event)
      → remove_peer hex m' p.id ≡ (m, some p, event_of hex m (peer_disconnected p))
  unfolding remove_peer
  remove_peer-add_peer m' event fits c e = back (add_peer-Added hex m p fits c) e
    where
      back :
          {r : PeerManager (Peer C V) × Run (Option (Event (Peer C V)))}
          → Added hex m p r
          → r ≡ (m', ok event)
          → remove_peer hex m' p.id ≡ (m, some p, event_of hex m (peer_disconnected p))
      back (refused x) f = absurd (cc (ap (λ r. r.1) f))
      back (entered by_addr place new a) f =
          let self : bytes_eq (hex p.id) (hex p.id) ≡ true =
            (bytes_eq_iff (hex p.id) (hex p.id)).1 refl in
          let found : lookup (assign m.peers (hex p.id) p) (hex p.id) ≡ some p =
            rw (lookup-assign m.peers (hex p.id) (hex p.id) p, self) refl in
          let t = less_one-add_word m.total_count (omega (arith, place.0, fits.peers_fit)) in
          let peers_back = erase-assign m.peers (hex p.id) p new in
          let addr_back = left-Addressed a in
          rw (← ap (λ r. r.0) f, found)
            (elim (Bool-cases (is_inbound p.direction)) [
              | inl to ↦
                  let k = rw to at place.1 in
                  let n = less_one-add_word m.inbound_count (omega (arith, fits.inbound_fit)) in
                  rw (to, t, n, peers_back, addr_back) refl
              | inr from ↦
                  let k = rw from at place.1 in
                  let n = less_one-add_word m.outbound_count (omega (arith, fits.outbound_fit)) in
                  rw (from, t, n, peers_back, addr_back) refl
            ])
