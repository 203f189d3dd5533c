-- ===== src/Node/Config.antt =====
-- pkg/node/config.go: the configuration of a node.
use lock_free_p2p_go.Prelude.{
  ℕ, ◌+◌, ◌-◌, ◌*◌, ◌/◌, ◌%◌, ◌^◌, ◌≤◌, ◌<◌, ◌≡◌, refl, List, ◌∷◌, [], ◌==◌, if◌then◌else◌,
  Bool-cases, inl, inr, arith,
}
use lock_free_p2p_go.Peer.Manager.{ManagerConfig, is_empty_string}
use lock_free_p2p_go.Peer.Manager.Invariant.{IsConfig}
use lock_free_p2p_go.Discovery.{signed_leb, second}

-- Durations in nanoseconds. A number that is not positive is 0 here.
pub record Config : Type 0 where
  pub listen_addr : List ℕ
  pub seeds : List (List ℕ)
  pub max_peers : ℕ
  pub max_inbound_peers : ℕ
  pub max_outbound_peers : ℕ
  pub user_agent : List ℕ
  pub dial_timeout : ℕ
  pub handshake_timeout : ℕ
  pub ping_interval : ℕ
  pub ping_timeout : ℕ
  pub discovery_interval : ℕ

-- ":3000" and "go-p2p/1.0.0"
abbrev pub default_node_config : Config
default_node_config = record {
  listen_addr = 58 ∷ 51 ∷ 48 ∷ 48 ∷ 48 ∷ [];
  seeds = [];
  max_peers = 50;
  max_inbound_peers = 25;
  max_outbound_peers = 25;
  user_agent = 103 ∷ 111 ∷ 45 ∷ 112 ∷ 50 ∷ 112 ∷ 47 ∷ 49 ∷ 46 ∷ 48 ∷ 46 ∷ 48 ∷ [];
  dial_timeout = 10 * second;
  handshake_timeout = 5 * second;
  ping_interval = 30 * second;
  ping_timeout = 10 * second;
  discovery_interval = 30 * second;
}

-- `if value <= 0 { value = default }`
abbrev pub or_default : (value default : ℕ) → ℕ
or_default value default = if value == 0 then default else value

abbrev pub or_default_string : (value default : List ℕ) → List ℕ
or_default_string value default = if is_empty_string value then default else value

-- The first part of `Validate`
abbrev pub with_defaults : Config → Config
with_defaults c = record c {
  listen_addr = or_default_string c.listen_addr default_node_config.listen_addr;
  max_peers = or_default c.max_peers default_node_config.max_peers;
  max_inbound_peers = or_default c.max_inbound_peers default_node_config.max_inbound_peers;
  max_outbound_peers = or_default c.max_outbound_peers default_node_config.max_outbound_peers;
  user_agent = or_default_string c.user_agent default_node_config.user_agent;
  dial_timeout = or_default c.dial_timeout default_node_config.dial_timeout;
  handshake_timeout = or_default c.handshake_timeout default_node_config.handshake_timeout;
  ping_interval = or_default c.ping_interval default_node_config.ping_interval;
  ping_timeout = or_default c.ping_timeout default_node_config.ping_timeout;
  discovery_interval = or_default c.discovery_interval default_node_config.discovery_interval;
}

-- The last part of `Validate`; the sum is an int of 64 bits.
abbrev pub with_limits : Config → Config
with_limits c =
    let sum = (c.max_inbound_peers + c.max_outbound_peers) % 2 ^ 64 in
    if signed_leb sum c.max_peers then c else record c {
      max_inbound_peers = c.max_peers / 2;
      max_outbound_peers = c.max_peers - c.max_peers / 2;
    }

-- `Validate`, which returns no error
unfoldable pub validate_config : Config → Config
validate_config c = with_limits (with_defaults c)

-- `ToPeerManagerConfig`
unfoldable pub to_peer_manager_config : Config → ManagerConfig
to_peer_manager_config c = record {
  max_peers = c.max_peers;
  max_inbound_peers = c.max_inbound_peers;
  max_outbound_peers = c.max_outbound_peers;
}

defaulted :
    (value default : ℕ)
    → value < 2 ^ 62
    → 0 < default
    → default < 2 ^ 62
    → (0 < or_default value default) × (or_default value default < 2 ^ 62)
defaulted value default h k l = ground arith

limited :
    (c : Config)
    → c.max_peers < 2 ^ 63
    → c.max_inbound_peers + c.max_outbound_peers < 2 ^ 63
    → ((with_limits c).max_inbound_peers + (with_limits c).max_outbound_peers ≤ c.max_peers)
      × ((with_limits c).max_peers ≡ c.max_peers)
limited c fits sum_fits =
    let sum = c.max_inbound_peers + c.max_outbound_peers in
    let small : sum % 2 ^ 64 ≡ sum = omega arith in
    let x : (sum + 2 ^ 63) % 2 ^ 64 ≡ sum + 2 ^ 63 = omega arith in
    let y : (c.max_peers + 2 ^ 63) % 2 ^ 64 ≡ c.max_peers + 2 ^ 63 = omega arith in
    elim (Bool-cases (signed_leb (sum % 2 ^ 64) c.max_peers)) [
      | inl within ↦ rw within (ground (arith, rw (small, x, y) at within), refl)
      | inr over ↦ rw over (omega arith, refl)
    ]

-- Validate of limits that are less than 2 to the 62: there is room for a peer, the limits of the two
-- directions together do not exceed the limit of all peers, and the limits that AddPeer compares with
-- fit an int of 64 bits.
pub validate_config_lem :
    (c : Config)
    → c.max_peers < 2 ^ 62
    → c.max_inbound_peers < 2 ^ 62
    → c.max_outbound_peers < 2 ^ 62
    → let v = validate_config c in
      (0 < v.max_peers)
      × (v.max_inbound_peers + v.max_outbound_peers ≤ v.max_peers)
      × IsConfig (to_peer_manager_config v)
unfolding validate_config to_peer_manager_config
validate_config_lem c h i o =
    let d = with_defaults c in
    let all : (0 < d.max_peers) × (d.max_peers < 2 ^ 62) =
      defaulted c.max_peers 50 h (omega arith) (omega arith) in
    let ins : d.max_inbound_peers < 2 ^ 62 =
      (defaulted c.max_inbound_peers 25 i (omega arith) (omega arith)).1 in
    let outs : d.max_outbound_peers < 2 ^ 62 =
      (defaulted c.max_outbound_peers 25 o (omega arith) (omega arith)).1 in
    let l = limited d (omega arith) (omega arith) in
    (
      omega (arith, l.1, all.0),
      omega (arith, l.0, l.1),
      record {
        peers_fit = omega (arith, l.1, all.1);
        inbound_fit = omega (arith, l.0, all.1);
        outbound_fit = omega (arith, l.0, all.1);
      },
    )
