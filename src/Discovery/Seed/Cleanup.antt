-- ===== src/Discovery/Seed/Cleanup.antt =====
-- pkg/discovery/seed.go: cleanupStalePeers.
use lock_free_p2p_go.Prelude.{
  ℕ, ◌≤◌, ◌<◌, ◌≡◌, ◌⊎◌, refl, ◌∙◌, sym, true, false, Option, none, some, List, Bool-cases,
  Option-cases, inl, inr, arith, length, ltb,
}
use mathlib.Core.List.{Permᴰ}
use lock_free_p2p_go.GoMap.{lookup, sweep}
use lock_free_p2p_go.GoMap.Sweep.{sweep-Swept, unless}
use lock_free_p2p_go.Mempool.Tx.{since}
use lock_free_p2p_go.Discovery.{PeerInfo}
use lock_free_p2p_go.Discovery.Book.{Book, is_seed, is_expired, before}
use lock_free_p2p_go.Discovery.Book.Trimming.{Trimmed, trim_loop-Trimmed}
use lock_free_p2p_go.Discovery.Seed.{SeedDiscovery, cleanup_stale_peers, trim_oldest_peers_locked}
use lock_free_p2p_go.Discovery.Seed.Invariant.{HasBook, IsBook-names, swept-IsBook}

-- What cleanup leaves of a map: nothing new, all seeds, and no other peer that has expired; no more
-- than the limit, unless only seeds are left. A peer that has not expired is removed only if it is no
-- seed, as many as the limit are left, and it was last seen no later than any other that is left and
-- is no seed.
pub record Cleaned (now ttl max_peers : ℕ) (es r : Book) : Type 0 where
  pub within : (k : List ℕ) (p : PeerInfo) → lookup r k ≡ some p → lookup es k ≡ some p
  pub seeds_stay :
      (k : List ℕ) (p : PeerInfo) → lookup es k ≡ some p → is_seed p ≡ true → lookup r k ≡ some p
  pub fresh :
      (k : List ℕ) (p : PeerInfo)
      → lookup r k ≡ some p
      → is_seed p ≡ false
      → since now p.last_seen ≤ ttl
  pub bounded :
      (length r ≤ max_peers)
      ⊎ ((k : List ℕ) (p : PeerInfo) → lookup r k ≡ some p → is_seed p ≡ true)
  pub oldest_first :
      (k : List ℕ) (p : PeerInfo)
      → lookup es k ≡ some p
      → since now p.last_seen ≤ ttl
      → lookup r k ≡ none
      → (is_seed p ≡ false)
        × (max_peers ≤ length r)
        × ((l : List ℕ) (q : PeerInfo)
            → lookup r l ≡ some q
            → is_seed q ≡ false
            → before q.last_seen p.last_seen ≡ false)

module _ (now ttl max_peers : ℕ) (es swept : Book) where
  -- What a sweep leaves.
  record IsSwept : Type 0 where
    within : (k : List ℕ) (p : PeerInfo) → lookup swept k ≡ some p → lookup es k ≡ some p
    stays :
        (k : List ℕ) (p : PeerInfo)
        → lookup es k ≡ some p
        → is_expired now ttl p ≡ false
        → lookup swept k ≡ some p
    young : (k : List ℕ) (p : PeerInfo) → lookup swept k ≡ some p → is_expired now ttl p ≡ false

  swept-IsSwept :
      ((k : List ℕ) → lookup swept k ≡ unless (is_expired now ttl) (lookup es k)) → IsSwept
  swept-IsSwept looks = record {
    within = λ k p e. (left k p (lookup es k) (sym (looks k) ∙ e)).0;
    stays = λ k p e fresh. looks k ∙ rw (e, fresh) refl;
    young = λ k p e. (left k p (lookup es k) (sym (looks k) ∙ e)).1;
  }
    where
      left :
          (k : List ℕ) (p : PeerInfo) (o : Option PeerInfo)
          → unless (is_expired now ttl) o ≡ some p
          → (o ≡ some p) × (is_expired now ttl p ≡ false)
      left k p none e = absurd (cc e)
      left k p (some q) e = elim (Bool-cases (is_expired now ttl q)) [
        | inl gone ↦ absurd (cc (rw gone at e))
        | inr kept ↦ let one : q ≡ p = cc (rw kept at e) in rw (← one) ((refl, kept))
      ]

  fresh_if :
      (p : PeerInfo)
      → is_expired now ttl p ≡ false
      → is_seed p ≡ false
      → since now p.last_seen ≤ ttl
  fresh_if p young other = elim (Bool-cases (ltb ttl (since now p.last_seen))) [
    | inl old ↦ absurd (cc (rw (other, old) at young))
    | inr fine ↦ ground arith
  ]

  not_expired : (p : PeerInfo) → since now p.last_seen ≤ ttl → is_expired now ttl p ≡ false
  not_expired p h =
      let fine : ltb ttl (since now p.last_seen) ≡ false = ground arith in
      elim (Bool-cases (is_seed p)) [ inl seed ↦ rw seed refl | inr other ↦ rw (other, fine) refl ]

  seed_lives : (p : PeerInfo) → is_seed p ≡ true → is_expired now ttl p ≡ false
  seed_lives p seed = rw seed refl

  -- Nothing to trim.
  swept-Cleaned : IsSwept → length swept ≤ max_peers → Cleaned now ttl max_peers es swept
  swept-Cleaned s fits = record {
    within = s.within;
    seeds_stay = λ k p e seed. s.stays k p e (seed_lives p seed);
    fresh = λ k p e other. fresh_if p (s.young k p e) other;
    bounded = inl fits;
    oldest_first = λ k p e young gone. absurd (cc (s.stays k p e (not_expired p young), gone));
  }

  Trimmed-Cleaned :
      (r : Book)
      → IsSwept
      → max_peers < length swept
      → Trimmed max_peers swept r
      → Cleaned now ttl max_peers es r
  Trimmed-Cleaned r s over t = record {
    within = λ k p e. s.within k p (t.within k p e);
    seeds_stay = λ k p e seed. stays k p (s.stays k p e (seed_lives p seed)) seed;
    fresh = λ k p e other. fresh_if p (s.young k p (t.within k p e)) other;
    bounded = t.bounded;
    oldest_first = λ k p e young gone.
        let out = t.oldest_first k p (s.stays k p e (not_expired p young)) gone in
        (out.0, t.not_more (omega arith), out.1);
  }
    where
      stays :
          (k : List ℕ) (p : PeerInfo)
          → lookup swept k ≡ some p
          → is_seed p ≡ true
          → lookup r k ≡ some p
      stays k p e seed = elim (Option-cases (lookup r k)) [
        | inl gone ↦ absurd (cc (seed, (t.oldest_first k p e gone).0))
        | inr (q, there) ↦ there ∙ (sym (t.within k q there) ∙ e)
      ]

-- cleanupStalePeers on a book, in whatever order the loops go through the map: what it leaves has all
-- seeds and no other peer that was last seen longer ago than the TTL; it keeps to MaxPeers unless only
-- seeds are left; and a peer that is no seed and within the TTL is removed only while there are more
-- than MaxPeers, those last seen longest ago first.
pub cleanup_stale_peers-Cleaned :
    {H : Type 0} (range : Book → Book) (now : ℕ) (sd : SeedDiscovery H)
    → ((es : Book) → Permᴰ (range es) es)
    → HasBook sd
    → Cleaned now sd.config.peer_ttl sd.config.max_peers sd.peers
        (cleanup_stale_peers range now sd).0.peers
unfolding cleanup_stale_peers trim_oldest_peers_locked
cleanup_stale_peers-Cleaned range now sd same b =
    let ttl = sd.config.peer_ttl in
    let r = (sweep (is_expired now ttl) (range sd.peers) sd.peers).0 in
    let swept =
      sweep-Swept (is_expired now ttl) (range sd.peers) sd.peers (same sd.peers) b.is_map in
    let s = swept-IsSwept now ttl sd.config.max_peers sd.peers r swept.looks_up in
    let kept = swept-IsBook range same now sd b in
    elim (Bool-cases (ltb sd.config.max_peers (length r))) [
      | inr fits ↦ rw fits (swept-Cleaned now ttl sd.config.max_peers sd.peers r s (ground arith))
      | inl over ↦ rw over (
          Trimmed-Cleaned now ttl sd.config.max_peers sd.peers r _ s (ground arith) (
            trim_loop-Trimmed range same sd.config.max_peers (length r) r (omega arith) kept.is_map
              (IsBook-names kept)))
    ]
