-- ===== src/Discovery/Book/Oldest.antt =====
-- pkg/discovery/seed.go: the address that the inner loop of trimOldestPeersLocked finds.
use lock_free_p2p_go.Prelude.{
  ℕ, ◌≡◌, refl, Bool, true, false, Option, none, some, not, List, ◌∷◌, [], ◌&&◌, ◌||◌, Bool-cases,
  inl, inr, arith, All,
}
use mathlib.Core.List.{Memᴰ}
use lock_free_p2p_go.Peer.Manager.{is_empty_string}
use lock_free_p2p_go.Discovery.{PeerInfo}
use lock_free_p2p_go.Discovery.Book.{Book, before, is_seed, oldest_from}

before-asym : (s t : Option ℕ) → before s t ≡ true → before t s ≡ false
before-asym none none h = absurd (cc h)
before-asym none (some u) h = refl
before-asym (some t) none h = absurd (cc h)
before-asym (some t) (some u) h = ground arith

before_trans : (s t u : Option ℕ) → before s t ≡ true → before t u ≡ true → before s u ≡ true
before_trans none none u h k = absurd (cc h)
before_trans none (some t) none h k = absurd (cc k)
before_trans none (some t) (some u) h k = refl
before_trans (some s) none u h k = absurd (cc h)
before_trans (some s) (some t) none h k = absurd (cc k)
before_trans (some s) (some t) (some u) h k = ground arith

-- No peer that is not a seed was last seen before the time t.
abbrev pub IsLeast : Book → Option ℕ → Type 0
IsLeast es t = All (λ e. is_seed e.1 ≡ false → before e.1.last_seen t ≡ false) es

-- Only the seeds have the empty address.
abbrev pub IsNamed : Book → Type 0
IsNamed es = All (λ e. is_seed e.1 ≡ false → is_empty_string e.0 ≡ false) es

-- What the loop finds: what was found before, or a better entry, which no other one betters.
pub data Found (es : Book) (addr : List ℕ) (time : Option ℕ) : List ℕ → Type 0 where
  kept :
      All (λ e. is_seed e.1 ≡ false → is_empty_string addr ≡ false) es
      → IsLeast es time
      → Found es addr time addr
  moved :
      (a : List ℕ) (p : PeerInfo)
      → Memᴰ (a, p) es
      → is_seed p ≡ false
      → (is_empty_string addr || before p.last_seen time) ≡ true
      → IsLeast es p.last_seen
      → Found es addr time a

before_self : (s : Option ℕ) → before s s ≡ false
before_self none = refl
before_self (some s) = ground arith

taken-Found :
    (k : List ℕ) (p : PeerInfo) (es : Book) (addr : List ℕ) (time : Option ℕ) {a : List ℕ}
    → is_seed p ≡ false
    → is_empty_string k ≡ false
    → (is_empty_string addr || before p.last_seen time) ≡ true
    → Found es k p.last_seen a
    → Found ((k, p) ∷ es) addr time a
taken-Found k p es addr time other named better (kept some_left least) =
    moved k p (Memᴰ.head refl) other better ((λ h. before_self p.last_seen, least))
taken-Found k p es addr time other named better (moved a q i not_seed earlier least) =
    let q_first : before q.last_seen p.last_seen ≡ true = rw named at earlier in
    moved a q (Memᴰ.tail i) not_seed (first (is_empty_string addr) q_first better)
      ((λ h. before-asym q.last_seen p.last_seen q_first, least))
  where
    first :
        (b : Bool)
        → before q.last_seen p.last_seen ≡ true
        → (b || before p.last_seen time) ≡ true
        → (b || before q.last_seen time) ≡ true
    first true f g = refl
    first false f g = before_trans q.last_seen p.last_seen time f g

not_taken : (s b c : Bool) → (not s && (b || c)) ≡ false → s ≡ false → (b ≡ false) × (c ≡ false)
not_taken s b c h k = ground arith

passed-Found :
    (e : List ℕ × PeerInfo) (es : Book) (addr : List ℕ) (time : Option ℕ) {a : List ℕ}
    → (not (is_seed e.1) && (is_empty_string addr || before e.1.last_seen time)) ≡ false
    → Found es addr time a
    → Found (e ∷ es) addr time a
passed-Found e es addr time passed (kept some_left least) =
    let neither =
      not_taken (is_seed e.1) (is_empty_string addr) (before e.1.last_seen time) passed in
    kept (λ other. (neither other).0, some_left) (λ other. (neither other).1, least)
passed-Found e es addr time passed (moved a q i not_seed earlier least) =
    let neither =
      not_taken (is_seed e.1) (is_empty_string addr) (before e.1.last_seen time) passed in
    moved a q (Memᴰ.tail i) not_seed earlier
      (λ other. later (neither other).0 (neither other).1 earlier, least)
  where
    later :
        is_empty_string addr ≡ false
        → before e.1.last_seen time ≡ false
        → (is_empty_string addr || before q.last_seen time) ≡ true
        → before e.1.last_seen q.last_seen ≡ false
    later named not_before sooner = elim (Bool-cases (before e.1.last_seen q.last_seen)) [
      | inl yet_sooner ↦
          let all_three =
            before_trans e.1.last_seen q.last_seen time yet_sooner (rw named at sooner) in
          absurd (cc (all_three, not_before))
      | inr fine ↦ fine
    ]

pub oldest_from-Found :
    (es : Book) (addr : List ℕ) (time : Option ℕ)
    → IsNamed es
    → Found es addr time (oldest_from es addr time)
unfolding oldest_from
oldest_from-Found [] addr time named = kept tt tt
oldest_from-Found (e ∷ es) addr time named =
    elim (Bool-cases (not (is_seed e.1) && (is_empty_string addr || before e.1.last_seen time))) [
      | inl taken ↦
          let (other, better) = split (is_seed e.1) _ taken in
          rw taken (
            taken-Found e.0 e.1 es addr time other (named.0 other) better
              (oldest_from-Found es e.0 e.1.last_seen named.1))
      | inr passed ↦
          rw passed (passed-Found e es addr time passed (oldest_from-Found es addr time named.1))
    ]
  where
    split : (s b : Bool) → (not s && b) ≡ true → (s ≡ false) × (b ≡ true)
    split true b h = absurd (cc h)
    split false b h = (refl, h)
