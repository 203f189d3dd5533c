-- ===== src/Discovery/Seed/Invariant.antt =====
-- pkg/discovery/seed.go: what holds of the known peers.
use lock_free_p2p_go.Prelude.{
  ℕ, ◌≡◌, refl, ◌∙◌, ap, sym, true, false, Option, none, some, List, ◌∷◌, [], Bool-cases,
  Option-cases, inl, inr, arith, length, ltb,
}
use mathlib.Core.List.{Permᴰ}
use lock_free_p2p_go.Bytes.{bytes_eq}
use lock_free_p2p_go.GoMap.{lookup, assign, erase, there, sweep}
use lock_free_p2p_go.GoMap.Laws.{assign-some, erase-some}
use lock_free_p2p_go.GoMap.Keys.{IsMap, IsMap-assign, IsMap-erase}
use lock_free_p2p_go.GoMap.Sweep.{IsMap-sweep, sweep-some}
use lock_free_p2p_go.Peer.Manager.{is_empty_string}
use lock_free_p2p_go.Discovery.{PeerInfo}
use lock_free_p2p_go.Discovery.Book.{
  Book, is_seed, seed_info, seed_source, with_seeds, seen_again, first_seen, is_expired, trim_loop,
}
use lock_free_p2p_go.Discovery.Book.Trimming.{trim_loop-Trimmed, HasNames}
use lock_free_p2p_go.Discovery.Seed.{
  SeedDiscovery, add_peer, remove_peer, change, cleanup_stale_peers, trim_oldest_peers_locked,
}

-- An entry stands under its address, with a source and a time; one that is no seed has an address,
-- which is not the own one.
pub record IsEntry (local_addr k : List ℕ) (p : PeerInfo) : Type 0 where
  pub keyed : p.addr ≡ k
  pub sourced : is_empty_string p.source ≡ false
  pub timed : there p.last_seen ≡ true
  pub named : is_seed p ≡ false → is_empty_string k ≡ false
  pub foreign : is_seed p ≡ false → bytes_eq k local_addr ≡ false

pub record IsBook (local_addr : List ℕ) (es : Book) : Type 0 where
  pub is_map : IsMap es
  pub entries : (k : List ℕ) (p : PeerInfo) → lookup es k ≡ some p → IsEntry local_addr k p

module _ {local_addr : List ℕ} where
  pub IsBook-names : {es : Book} → IsBook local_addr es → HasNames es
  IsBook-names b k p e = (b.entries k p e).named

  IsBook-assign :
      {es : Book} (k : List ℕ) (p : PeerInfo)
      → IsEntry local_addr k p
      → IsBook local_addr es
      → IsBook local_addr (assign es k p)
  IsBook-assign {es} k p entry b = record {
    is_map = IsMap-assign es k p b.is_map;
    entries = λ l q e. elim (assign-some es k l p q e) [
      | inl (key, value) ↦ rw (← key, ← value) entry
      | inr old ↦ b.entries l q old
    ];
  }

  IsBook-erase : {es : Book} (k : List ℕ) → IsBook local_addr es → IsBook local_addr (erase es k)
  IsBook-erase {es} k b = record {
    is_map = IsMap-erase es k b.is_map;
    entries = λ l q e. b.entries l q (erase-some es k l q e).0;
  }

  seed-IsEntry : (now : ℕ) (seed : List ℕ) → IsEntry local_addr seed (seed_info now seed)
  unfolding bytes_eq
  seed-IsEntry now seed = record {
    keyed = refl;
    sourced = refl;
    timed = refl;
    named = λ h. absurd (cc h);
    foreign = λ h. absurd (cc h);
  }

  pub with_seeds-IsBook :
      (now : ℕ) (seeds : List (List ℕ)) {es : Book}
      → IsBook local_addr es
      → IsBook local_addr (with_seeds now seeds es)
  unfolding with_seeds
  with_seeds-IsBook now [] b = b
  with_seeds-IsBook now (seed ∷ seeds) b =
      with_seeds-IsBook now seeds
        (IsBook-assign seed (seed_info now seed) (seed-IsEntry now seed) b)

  -- An entry changed in its identifier, its attempts or its times.
  IsEntry-changed :
      (k : List ℕ) (p q : PeerInfo)
      → q.addr ≡ p.addr
      → q.source ≡ p.source
      → there q.last_seen ≡ true
      → IsEntry local_addr k p
      → IsEntry local_addr k q
  IsEntry-changed k p q addr source time e =
      let seeds : is_seed q ≡ is_seed p = ap (λ s. bytes_eq s seed_source) source in
      record {
        keyed = addr ∙ e.keyed;
        sourced = rw source e.sourced;
        timed = time;
        named = λ h. e.named (sym seeds ∙ h);
        foreign = λ h. e.foreign (sym seeds ∙ h);
      }

  new-IsEntry :
      (now : ℕ) (info : PeerInfo)
      → is_empty_string info.addr ≡ false
      → bytes_eq info.addr local_addr ≡ false
      → IsEntry local_addr info.addr (first_seen now info)
  new-IsEntry now info named foreign = record {
    keyed = refl;
    sourced = elim (Bool-cases (is_empty_string info.source)) [
      | inl nothing ↦ rw nothing refl
      | inr given ↦ rw given given
    ];
    timed = refl;
    named = λ h. named;
    foreign = λ h. foreign;
  }

  module _ (range : Book → Book) (same : (es : Book) → Permᴰ (range es) es) where
    trimmed-IsBook :
        (max_count : ℕ) (es : Book)
        → IsBook local_addr es
        → IsBook local_addr (trim_loop range max_count (length es) es).0
    trimmed-IsBook max_count es b =
        let t =
          trim_loop-Trimmed range same max_count (length es) es (omega arith) b.is_map
            (IsBook-names b) in
        record { is_map = t.is_map; entries = λ k p e. b.entries k p (t.within k p e) }

module _ {H : Type 0} where
  abbrev pub HasBook : SeedDiscovery H → Type 0
  HasBook sd = IsBook sd.local_addr sd.peers

  pub add_peer-HasBook :
      (now : ℕ) (sd : SeedDiscovery H) (info : Option PeerInfo)
      → HasBook sd
      → HasBook (add_peer now sd info).0
  unfolding add_peer
  add_peer-HasBook now sd none b = b
  add_peer-HasBook now sd (some info) b = elim (Bool-cases (is_empty_string info.addr)) [
    | inl nothing ↦ rw nothing b
    | inr named ↦ elim (Bool-cases (bytes_eq info.addr sd.local_addr)) [
      | inl own ↦ rw (named, own) b
      | inr foreign ↦
          rw (named, foreign)
            (elim (Option-cases (lookup sd.peers info.addr)) [
              | inl new ↦ rw new (IsBook-assign info.addr _ (new-IsEntry now info named foreign) b)
              | inr (p, known) ↦ rw known (
                  IsBook-assign info.addr _
                    (IsEntry-changed info.addr p (seen_again now p info.id) refl refl refl
                      (b.entries info.addr p known))
                    b)
            ])
    ]
  ]

  pub remove_peer-HasBook :
      (sd : SeedDiscovery H) (addr : List ℕ) → HasBook sd → HasBook (remove_peer sd addr).0
  unfolding remove_peer
  remove_peer-HasBook sd addr b = elim (Option-cases (lookup sd.peers addr)) [
    | inl unknown ↦ rw unknown b
    | inr (p, known) ↦ rw known (IsBook-erase addr b)
  ]

  pub change-HasBook :
      (sd : SeedDiscovery H) (addr : List ℕ) (f : PeerInfo → PeerInfo)
      → ((p : PeerInfo) → (f p).addr ≡ p.addr)
      → ((p : PeerInfo) → (f p).source ≡ p.source)
      → ((p : PeerInfo) → there p.last_seen ≡ true → there (f p).last_seen ≡ true)
      → HasBook sd
      → HasBook (change sd addr f (lookup sd.peers addr))
  change-HasBook sd addr f same_addr same_source time b =
      elim (Option-cases (lookup sd.peers addr)) [
        | inl unknown ↦ rw unknown b
        | inr (p, known) ↦
            let e = b.entries addr p known in
            rw known (
              IsBook-assign addr (f p)
                (IsEntry-changed addr p (f p) (same_addr p) (same_source p) (time p e.timed) e) b)
      ]

  module _ (range : Book → Book) (same : (es : Book) → Permᴰ (range es) es) where
    pub swept-IsBook :
        (now : ℕ) (sd : SeedDiscovery H)
        → HasBook sd
        → IsBook sd.local_addr
            (sweep (is_expired now sd.config.peer_ttl) (range sd.peers) sd.peers).0
    swept-IsBook now sd b = record {
      is_map = IsMap-sweep (is_expired now sd.config.peer_ttl) (range sd.peers) sd.peers b.is_map;
      entries = λ k p e.
          b.entries k p
            (sweep-some (is_expired now sd.config.peer_ttl) (range sd.peers) sd.peers k p e);
    }

    pub cleanup-HasBook :
        (now : ℕ) (sd : SeedDiscovery H) → HasBook sd → HasBook (cleanup_stale_peers range now sd).0
    unfolding cleanup_stale_peers trim_oldest_peers_locked
    cleanup-HasBook now sd b =
        let r = (sweep (is_expired now sd.config.peer_ttl) (range sd.peers) sd.peers).0 in
        let s = swept-IsBook now sd b in
        elim (Bool-cases (ltb sd.config.max_peers (length r))) [
          | inl over ↦ rw over (trimmed-IsBook range same sd.config.max_peers r s)
          | inr fits ↦ rw fits s
        ]
