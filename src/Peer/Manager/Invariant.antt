-- ===== src/Peer/Manager/Invariant.antt =====
-- pkg/peer/manager.go: what holds of the maps and the counts of a manager.
use lock_free_p2p_go.Prelude.{
  ℕ, ◌+◌, ◌%◌, ◌^◌, ◌≤◌, ◌<◌, ◌≡◌, false, none, some, List, if◌then◌else◌, arith, Bool-cases, inl,
  inr,
}
use lock_free_p2p_go.GoMap.{lookup, assign}
use lock_free_p2p_go.GoMap.Keys.{IsMap}
use lock_free_p2p_go.GoMap.Totals.{total, total-assign}
use lock_free_p2p_go.Peer.{Peer}
use lock_free_p2p_go.Peer.Manager.{
  ManagerConfig, PeerManager, is_inbound, is_empty_string, at_least, count_in,
}

-- Limits that an int of 64 bits holds.
pub record IsConfig (config : ManagerConfig) : Type 0 where
  pub peers_fit : config.max_peers < 2 ^ 63
  pub inbound_fit : config.max_inbound_peers < 2 ^ 63
  pub outbound_fit : config.max_outbound_peers < 2 ^ 63

-- A count within a limit, for which the test on int64 says that the limit is not reached.
pub below :
    (count limit : ℕ)
    → limit < 2 ^ 63
    → count ≤ limit
    → at_least count limit ≡ false
    → count < limit
below count limit h k e =
    let l : (limit + 2 ^ 63) % 2 ^ 64 ≡ limit + 2 ^ 63 = omega arith in
    let c : (count + 2 ^ 63) % 2 ^ 64 ≡ count + 2 ^ 63 = omega arith in
    ground (arith, rw (l, c) at e)

module _ {C V : Type 0} where
  -- How many peers, and how many of one direction.
  abbrev pub peers_in : List (List ℕ × Peer C V) → ℕ
  peers_in es = total (λ p. 1) es

  abbrev pub inbound_in : List (List ℕ × Peer C V) → ℕ
  inbound_in es = total (λ p. if is_inbound p.direction then 1 else 0) es

  abbrev pub outbound_in : List (List ℕ × Peer C V) → ℕ
  outbound_in es = total (λ p. if is_inbound p.direction then 0 else 1) es

  -- The counts are those of the peers, and keep to the limits.
  pub record IsCounted (m : PeerManager (Peer C V)) : Type 0 where
    pub total_is : m.total_count ≡ peers_in m.peers
    pub inbound_is : m.inbound_count ≡ inbound_in m.peers
    pub outbound_is : m.outbound_count ≡ outbound_in m.peers
    pub total_fits : peers_in m.peers ≤ m.config.max_peers
    pub inbound_fits : inbound_in m.peers ≤ m.config.max_inbound_peers
    pub outbound_fits : outbound_in m.peers ≤ m.config.max_outbound_peers

module _ {C V : Type 0} (hex : List ℕ → List ℕ) where
  -- Each peer stands under its identifier, and those that have an address also under this address,
  -- no two under the same.
  pub record IsIndexed (m : PeerManager (Peer C V)) : Type 0 where
    pub one_each : IsMap m.peers
    pub one_addr : IsMap m.peers_by_addr
    pub keyed : (k : List ℕ) (p : Peer C V) → lookup m.peers k ≡ some p → hex p.id ≡ k
    pub addressed :
        (k : List ℕ) (p : Peer C V)
        → lookup m.peers k ≡ some p
        → is_empty_string p.addr ≡ false
        → lookup m.peers_by_addr p.addr ≡ some p
    pub listed :
        (a : List ℕ) (p : Peer C V)
        → lookup m.peers_by_addr a ≡ some p
        → (p.addr ≡ a) × (is_empty_string a ≡ false) × (lookup m.peers (hex p.id) ≡ some p)

  -- A peer enters, below the limits.
  pub count_in-IsCounted :
      (m : PeerManager (Peer C V)) (p : Peer C V) (by_addr : List (List ℕ × Peer C V))
      → IsConfig m.config
      → IsCounted m
      → lookup m.peers (hex p.id) ≡ none
      → m.total_count < m.config.max_peers
      → (if is_inbound p.direction
          then m.inbound_count < m.config.max_inbound_peers
          else m.outbound_count < m.config.max_outbound_peers)
      → IsCounted
          (count_in hex
            (record m { peers = assign m.peers (hex p.id) p; peers_by_addr = by_addr })
            p).0
  count_in-IsCounted m p by_addr fits c new h k =
      let more = total-assign (λ (q : Peer C V). 1) m.peers (hex p.id) p new in
      let more_in =
        total-assign (λ (q : Peer C V). if is_inbound q.direction then 1 else 0) m.peers (hex p.id)
          p new in
      let more_out =
        total-assign (λ (q : Peer C V). if is_inbound q.direction then 0 else 1) m.peers (hex p.id)
          p new in
      elim (Bool-cases (is_inbound p.direction)) [
        | inl to ↦
            let l = rw to at k in
            let i = rw to at more_in in
            let o = rw to at more_out in
            rw to (record {
              total_is = omega (arith, c.total_is, fits.peers_fit);
              inbound_is = omega (arith, c.inbound_is, fits.inbound_fit);
              outbound_is = omega (arith, c.outbound_is);
              total_fits = omega (arith, c.total_is);
              inbound_fits = omega (arith, c.inbound_is);
              outbound_fits = omega (arith, c.outbound_fits);
            })
        | inr from ↦
            let l = rw from at k in
            let i = rw from at more_in in
            let o = rw from at more_out in
            rw from (record {
              total_is = omega (arith, c.total_is, fits.peers_fit);
              inbound_is = omega (arith, c.inbound_is);
              outbound_is = omega (arith, c.outbound_is, fits.outbound_fit);
              total_fits = omega (arith, c.total_is);
              inbound_fits = omega (arith, c.inbound_fits);
              outbound_fits = omega (arith, c.outbound_is);
            })
      ]
