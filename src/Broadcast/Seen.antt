-- ===== src/Broadcast/Seen.antt =====
-- pkg/node/broadcast.go: the map of the seen messages and its count.
use lock_free_p2p_go.Prelude.{
  ℕ, ◌+◌, ◌%◌, ◌^◌, ◌≡◌, refl, true, false, Option, none, some, List, length, ltb, if◌then◌else◌,
  Bool-cases, inl, inr, arith, Perm,
}
use mathlib.Core.List.{Permᴰ}
use mathlib.Core.Logic.{∥∥₁_elim}
use native.Mathlib.Nat.{ℕ_set}
use lock_free_p2p_go.GoMap.{lookup, there, sweep}
use lock_free_p2p_go.GoMap.Keys.{IsMap, IsMap-assign, length-assign}
use lock_free_p2p_go.GoMap.Sweep.{Swept, sweep-Swept, IsMap-sweep}
use lock_free_p2p_go.Broadcast.{
  BroadcastConfig, BroadcastManager, new_broadcast_manager, cleanup, mark_seen, has_expired,
  get_stats, less, hash_key, has_seen,
}

-- One entry for each hash, and the count is their number, in 64 bits.
pub record IsCounted (bm : BroadcastManager) : Type 0 where
  pub one_each : IsMap bm.seen_messages
  pub count_is : bm.count ≡ length bm.seen_messages % 2 ^ 64

pub mark_seen-IsCounted :
    (now : ℕ) (bm : BroadcastManager) (hash : ℕ)
    → IsCounted bm
    → IsCounted (mark_seen now bm hash).0
unfolding mark_seen
mark_seen-IsCounted now bm hash c =
    elim (Bool-cases (there (lookup bm.seen_messages (hash_key hash)))) [
      | inl known ↦ rw known c
      | inr new ↦
          let longer = rw new at (length-assign bm.seen_messages (hash_key hash) now) in
          rw new (record {
            one_each = IsMap-assign bm.seen_messages (hash_key hash) now c.one_each;
            count_is = omega (arith, longer, c.count_is);
          })
    ]

pub mark_seen-is_new :
    (now : ℕ) (bm : BroadcastManager) (hash : ℕ)
    → has_seen bm hash ≡ false
    → (mark_seen now bm hash).1 ≡ true
unfolding mark_seen has_seen
mark_seen-is_new now bm hash new = rw new refl

pub mark_seen-config :
    (now : ℕ) (bm : BroadcastManager) (hash : ℕ) → (mark_seen now bm hash).0.config ≡ bm.config
unfolding mark_seen
mark_seen-config now bm hash = ground arith

pub cleanup-Swept :
    (range : List (List ℕ × ℕ) → List (List ℕ × ℕ)) (now : ℕ) (bm : BroadcastManager)
    → Permᴰ (range bm.seen_messages) bm.seen_messages
    → IsMap bm.seen_messages
    → Swept
        (has_expired now bm.config.message_ttl)
        bm.seen_messages
        (sweep (has_expired now bm.config.message_ttl) (range bm.seen_messages) bm.seen_messages)
cleanup-Swept range now bm p m =
    sweep-Swept (has_expired now bm.config.message_ttl) (range bm.seen_messages) bm.seen_messages p
      m

less_count :
    (count kept gone all : ℕ)
    → kept + gone ≡ all
    → count ≡ all % 2 ^ 64
    → (if ltb 0 gone then less count gone else count) ≡ kept % 2 ^ 64
less_count count kept gone all e c = elim (Bool-cases (ltb 0 gone)) [
  | inl some_gone ↦ rw some_gone (omega arith)
  | inr none_gone ↦ rw none_gone (ground arith)
]

pub cleanup-IsCounted :
    (range : List (List ℕ × ℕ) → List (List ℕ × ℕ)) (now : ℕ) (bm : BroadcastManager)
    → Perm (range bm.seen_messages) bm.seen_messages
    → IsCounted bm
    → IsCounted (cleanup range now bm)
unfolding cleanup
cleanup-IsCounted range now bm p c = record {
  one_each =
      IsMap-sweep (has_expired now bm.config.message_ttl) (range bm.seen_messages) bm.seen_messages
        c.one_each;
  count_is = ∥∥₁_elim p (ℕ_set _ _) (λ q.
      let s = cleanup-Swept range now bm q c.one_each in
      less_count bm.count _ _ (length bm.seen_messages) s.lengths c.count_is);
}

module _ (range : List (List ℕ × ℕ) → List (List ℕ × ℕ)) where
  -- The managers that its methods reach: a broadcast, a gossip and a relay change it by MarkSeen alone.
  pub data Reached : BroadcastManager → Type 0 where
    fresh : (config : Option BroadcastConfig) → Reached (new_broadcast_manager config)
    marked : {bm : BroadcastManager} (now hash : ℕ) → Reached bm → Reached (mark_seen now bm hash).0
    cleaned : {bm : BroadcastManager} (now : ℕ) → Reached bm → Reached (cleanup range now bm)

  fresh-IsCounted : (config : Option BroadcastConfig) → IsCounted (new_broadcast_manager config)
  unfolding new_broadcast_manager
  fresh-IsCounted none = record { one_each = tt; count_is = refl }
  fresh-IsCounted (some config) = record { one_each = tt; count_is = refl }

  -- In every manager that MarkSeen and cleanup reach from a new one, at any times and in whatever order
  -- a loop goes through the map: there is one entry for each hash, and GetStats returns the number of
  -- the entries, in 64 bits.
  pub Reached-IsCounted :
      {bm : BroadcastManager}
      → ((es : List (List ℕ × ℕ)) → Perm (range es) es)
      → Reached bm
      → IsMap bm.seen_messages × (get_stats bm ≡ length bm.seen_messages % 2 ^ 64)
  unfolding get_stats
  Reached-IsCounted {bm} same r = let c = counted r in (c.one_each, c.count_is)
    where
      counted : {b : BroadcastManager} → Reached b → IsCounted b
      counted (fresh config) = fresh-IsCounted config
      counted (marked {bm = b} now hash s) = mark_seen-IsCounted now b hash (counted s)
      counted (cleaned {bm = b} now s) =
          cleanup-IsCounted range now b (same b.seen_messages) (counted s)
