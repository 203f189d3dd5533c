-- ===== src/Discovery/Gossip/Quiet.antt =====
-- pkg/discovery/gossip.go: what was sent is not sent again within the TTL.
use lock_free_p2p_go.Prelude.{
  ℕ, ◌+◌, ◌-◌, ◌*◌, ◌%◌, ◌^◌, ◌<◌, not, leb, ◌≤◌, ◌≡◌, ◌≢◌, refl, ◌∙◌, sym, ap, Bool, true, false,
  Option, none, some, List, ◌∷◌, [], select, ltb, Bool-cases, inl, inr, arith, Perm, Mem,
}
use mathlib.Core.List.{Permᴰ, Memᴰ}
use mathlib.Core.List.Memᴰ as Memᴰ
use mathlib.Core.Logic.{∥∥₁_elim}
use lock_free_p2p_go.Bytes.{bytes_eq}
use lock_free_p2p_go.Bytes.Laws.{bytes_eq_iff}
use lock_free_p2p_go.GoMap.{lookup, assign, sweep}
use lock_free_p2p_go.GoMap.Laws.{lookup-assign}
use lock_free_p2p_go.GoMap.Keys.{IsMap}
use lock_free_p2p_go.GoMap.Sweep.{sweep-Swept, unless}
use lock_free_p2p_go.Mempool.Tx.{since}
use lock_free_p2p_go.Discovery.{PeerInfo, signed_leb, elapsed}
use lock_free_p2p_go.Discovery.Book.{Book}
use lock_free_p2p_go.Discovery.Gossip.{
  GossipDiscovery, Recent, is_quiet, mark_gossip, gossip_with, do_gossip, gossip_candidates,
  select_peers_to_gossip, cleanup_recent_gossip,
}
use lock_free_p2p_go.Discovery.Gossip.Selection.{select_peers_to_gossip-IsSample}

-- The loop marks every peer that was sent with the time.
mark_gossip_other :
    (now : ℕ) (ps : List PeerInfo) (recent : Recent) (addr : List ℕ)
    → lookup recent addr ≡ some now
    → lookup (mark_gossip now ps recent) addr ≡ some now
unfolding mark_gossip
mark_gossip_other now [] recent addr h = h
mark_gossip_other now (p ∷ ps) recent addr h =
    mark_gossip_other now ps (assign recent p.addr now) addr (
      lookup-assign recent p.addr addr now ∙ (elim (Bool-cases (bytes_eq p.addr addr)) [
        | inl same ↦ rw same refl
        | inr other ↦ rw other h
      ]))

mark_gossip_sent :
    (now : ℕ) (ps : List PeerInfo) (recent : Recent) (p : PeerInfo)
    → Memᴰ p ps
    → lookup (mark_gossip now ps recent) p.addr ≡ some now
unfolding mark_gossip
mark_gossip_sent now [] recent p i = elim i [ ]
mark_gossip_sent now (q ∷ ps) recent p (Memᴰ.head e) =
    let self : bytes_eq q.addr q.addr ≡ true = (bytes_eq_iff q.addr q.addr).1 refl in
    let here : lookup (assign recent q.addr now) q.addr ≡ some now =
      lookup-assign recent q.addr q.addr now ∙ rw self refl in
    rw e (mark_gossip_other now ps (assign recent q.addr now) q.addr here)
mark_gossip_sent now (q ∷ ps) recent p (Memᴰ.tail i) =
    mark_gossip_sent now ps (assign recent q.addr now) p i

-- An address that was marked is not due until the TTL has passed.
not_due : (now t ttl : ℕ) → now ≤ t + ttl → is_quiet now ttl (some t) ≡ false
unfolding since
not_due now t ttl h = ground arith

module _ {H : Type 0} (range : Book → Book) (shuffle : List PeerInfo → List PeerInfo)
    (gd : GossipDiscovery H) where
  -- After a doGossip whose function returned no error: until the TTL has passed since it marked what
  -- it sent, no peer under the address of one that it sent is selected.
  pub do_gossip_once :
      (gossip_func : List PeerInfo → Bool) (now marked later : ℕ) (p q : PeerInfo)
      → ((es : Book) → Perm (range es) es)
      → ((ps : List PeerInfo) → Perm (shuffle ps) ps)
      → gossip_func (select_peers_to_gossip range shuffle now gd) ≡ true
      → Mem p (do_gossip range shuffle (some gossip_func) now marked gd).1
      → later ≤ marked + gd.gossip_config.gossip_ttl
      → Mem q (
          select_peers_to_gossip range shuffle later
            (do_gossip range shuffle (some gossip_func) now marked gd).0)
      → q.addr ≢ p.addr
  unfolding do_gossip
  do_gossip_once gossip_func now marked later p q same mixed sent_well i within j =
      go (select_peers_to_gossip range shuffle now gd) sent_well i j
    where
      go :
          (sent : List PeerInfo)
          → gossip_func sent ≡ true
          → Mem p (gossip_with gossip_func marked gd sent).1
          → Mem q (
              select_peers_to_gossip range shuffle later (gossip_with gossip_func marked gd sent).0)
          → q.addr ≢ p.addr
      go [] well i' j' e = ∥∥₁_elim i' (hlevel) (λ m. Memᴰ.not-nil m)
      go (s ∷ ss) well i' j' e =
          let after : GossipDiscovery H = record gd {
            recent_gossip = mark_gossip marked (s ∷ ss) gd.recent_gossip;
          } in
          let choice = select_peers_to_gossip-IsSample range shuffle after later same mixed in
          let due = (choice.each q (rw well at j')).1 in
          let quiet = not_due later marked gd.gossip_config.gossip_ttl within in
          ∥∥₁_elim i' (hlevel) (λ m.
            let noted = mark_gossip_sent marked (s ∷ ss) gd.recent_gossip p m in
            absurd (cc (rw (e, noted, quiet) at due)))

-- A time that the cleanup drops was due anyway, and stays so.
dropped :
    (now later t ttl : ℕ)
    → ttl < 2 ^ 62
    → now ≤ later
    → not (signed_leb (elapsed now t) ((ttl * 2) % 2 ^ 64)) ≡ true
    → ltb ttl (since later (some t)) ≡ true
unfolding since elapsed
dropped now later t ttl small h old =
    let whole : (ttl * 2) % 2 ^ 64 ≡ ttl * 2 = omega arith in
    let turned : (ttl * 2 + 2 ^ 63) % 2 ^ 64 ≡ ttl * 2 + 2 ^ 63 = omega arith in
    elim (Bool-cases (leb t now)) [
      | inl past ↦ elim (Bool-cases (ltb (now - t) (2 ^ 63))) [
        | inl near ↦
            let there : (now - t + 2 ^ 63) % 2 ^ 64 ≡ now - t + 2 ^ 63 = ground arith in
            ground (arith, rw (elapsed, past, near, whole, turned, there) at old)
        | inr far ↦ ground arith
      ]
      | inr future ↦ elim (Bool-cases (ltb (t - now) (2 ^ 63))) [
        | inl near ↦
            let there : (2 ^ 64 - (t - now) + 2 ^ 63) % 2 ^ 64 ≡ 2 ^ 63 - (t - now) =
              ground arith in
            ground (arith, rw (elapsed, future, near, whole, turned, there) at old)
        | inr far ↦ ground (arith, rw (elapsed, future, far, whole, turned) at old)
      ]
    ]

module _ {H : Type 0} (order : Recent → Recent) (gd : GossipDiscovery H) where
  -- cleanupRecentGossip, for a TTL of less than 2 to the 62 nanoseconds, in whatever order its loop goes
  -- through the map, changes nothing of what is selected: at its time and later the candidates of any
  -- peers are the same as without it.
  pub cleanup_recent_gossip-candidates :
      (now later : ℕ) (ps : List PeerInfo)
      → Permᴰ (order gd.recent_gossip) gd.recent_gossip
      → IsMap gd.recent_gossip
      → gd.gossip_config.gossip_ttl < 2 ^ 62
      → now ≤ later
      → gossip_candidates later gd.gossip_config.gossip_ttl
          (cleanup_recent_gossip order now gd).recent_gossip
          ps
        ≡ gossip_candidates later gd.gossip_config.gossip_ttl gd.recent_gossip ps
  unfolding gossip_candidates cleanup_recent_gossip
  cleanup_recent_gossip-candidates now later ps perm m small h = go ps
    where
      ttl : ℕ
      ttl = gd.gossip_config.gossip_ttl

      is_old : ℕ → Bool
      is_old t = not (signed_leb (elapsed now t) ((ttl * 2) % 2 ^ 64))

      left : Recent
      left = (sweep is_old (order gd.recent_gossip) gd.recent_gossip).0

      same_test : (o : Option ℕ) → is_quiet later ttl (unless is_old o) ≡ is_quiet later ttl o
      same_test none = refl
      same_test (some t) = elim (Bool-cases (is_old t)) [
        | inl old ↦ rw old (sym (dropped now later t ttl small h old))
        | inr kept ↦ rw kept refl
      ]

      alike :
          (addr : List ℕ)
          → is_quiet later ttl (lookup left addr)
            ≡ is_quiet later ttl (lookup gd.recent_gossip addr)
      alike addr =
          let swept = sweep-Swept is_old (order gd.recent_gossip) gd.recent_gossip perm m in
          ap (is_quiet later ttl) (swept.looks_up addr) ∙ same_test (lookup gd.recent_gossip addr)

      go :
          (qs : List PeerInfo)
          → select (λ p. is_quiet later ttl (lookup left p.addr)) qs
            ≡ select (λ p. is_quiet later ttl (lookup gd.recent_gossip p.addr)) qs
      go [] = refl
      go (q ∷ qs) = rw (alike q.addr, go qs) refl
