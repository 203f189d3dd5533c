-- ===== src/Discovery.antt =====
-- pkg/discovery/discovery.go: what is known of a peer before it is connected, and when to try it again.
-- A time is its nanoseconds, `none` for Go's zero time. TCPAddr asks the resolver and is left out.
pub mod Backoff
pub mod Book
pub mod Seed
pub mod Gossip
mod Tests
use lock_free_p2p_go.Prelude.{
  ℕ, ◌+◌, ◌-◌, ◌*◌, ◌%◌, ◌^◌, Bool, true, false, Option, none, some, List, ltb, leb, if◌then◌else◌,
}
use lock_free_p2p_go.Mempool.Tx.{since}

-- `source` tells how the peer became known.
pub record PeerInfo : Type 0 where
  pub id : List ℕ
  pub addr : List ℕ
  pub source : List ℕ
  pub last_seen : Option ℕ
  pub attempts : ℕ
  pub last_attempt : Option ℕ

-- Durations in nanoseconds; neither they nor the limits are negative.
pub record Config : Type 0 where
  pub discovery_interval : ℕ
  pub max_peers : ℕ
  pub peer_ttl : ℕ
  pub retry_base_interval : ℕ
  pub max_retry_attempts : ℕ

abbrev pub second : ℕ
second = 10 ^ 9

abbrev pub default_config : Config
default_config = record {
  discovery_interval = 30 * second;
  max_peers = 1000;
  peer_ttl = 24 * 3600 * second;
  retry_base_interval = 60 * second;
  max_retry_attempts = 10;
}

-- `IsStale` at the time `now`
unfoldable pub is_stale : (now : ℕ) → PeerInfo → (max_age : ℕ) → Bool
is_stale now p max_age = ltb max_age (since now p.last_seen)

-- An int64 in two's complement is a number below 2 ^ 64; `a <= b` on two of them.
abbrev pub signed_leb : (a b : ℕ) → Bool
signed_leb a b = leb ((a + 2 ^ 63) % 2 ^ 64) ((b + 2 ^ 63) % 2 ^ 64)

-- `time.Since(t)` as an int64, which stops at the largest and the smallest one.
unfoldable pub elapsed : (now t : ℕ) → ℕ
elapsed now t =
    if leb t now
    then (if ltb (now - t) (2 ^ 63) then now - t else 2 ^ 63 - 1)
    else (if ltb (t - now) (2 ^ 63) then 2 ^ 64 - (t - now) else 2 ^ 63)

-- `baseInterval * time.Duration(1<<uint(p.Attempts))` as an int64
unfoldable pub doubled : (base_interval attempts : ℕ) → ℕ
doubled base_interval attempts =
    (base_interval * (if ltb attempts 64 then 2 ^ attempts else 0)) % 2 ^ 64

abbrev pub max_backoff : ℕ
max_backoff = 3600 * second

unfoldable pub backoff : (base_interval attempts : ℕ) → ℕ
backoff base_interval attempts =
    let b = doubled base_interval attempts in if signed_leb b max_backoff then b else max_backoff

-- The end of `ShouldRetry`
unfoldable pub is_due : (now base_interval attempts : ℕ) → Option ℕ → Bool
is_due now base_interval attempts none = true
is_due now base_interval attempts (some t) =
    signed_leb (backoff base_interval attempts) (elapsed now t)

-- `ShouldRetry` at the time `now`
unfoldable pub should_retry : (now : ℕ) → PeerInfo → (base_interval max_attempts : ℕ) → Bool
should_retry now p base_interval max_attempts =
    if leb max_attempts p.attempts
    then false
    else is_due now base_interval p.attempts p.last_attempt
