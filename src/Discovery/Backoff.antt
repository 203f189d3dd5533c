-- ===== src/Discovery/Backoff.antt =====
-- pkg/discovery/discovery.go: the exponential backoff of ShouldRetry.
use lock_free_p2p_go.Prelude.{
  ℕ, ◌+◌, ◌-◌, ◌*◌, ◌%◌, ◌^◌, ◌≤◌, ◌<◌, ◌≡◌, refl, true, false, Option, none, some, ltb, leb,
  if◌then◌else◌, Bool-cases, inl, inr, arith,
}
use Prim.Native.Nat.{min}
use mathlib.Core.Logic.{◌↔◌}
use lock_free_p2p_go.Discovery.{
  PeerInfo, signed_leb, elapsed, doubled, backoff, max_backoff, is_due, should_retry,
}

-- On numbers without the sign bit the test is that of the numbers.
signed_leb-small : (a b : ℕ) → a < 2 ^ 63 → b < 2 ^ 63 → (signed_leb a b ≡ true) ↔ (a ≤ b)
signed_leb-small a b h k =
    let x : (a + 2 ^ 63) % 2 ^ 64 ≡ a + 2 ^ 63 = omega arith in
    let y : (b + 2 ^ 63) % 2 ^ 64 ≡ b + 2 ^ 63 = omega arith in rw (x, y) (ground arith)

-- The wait before a retry.
abbrev pub wait : (base_interval attempts : ℕ) → ℕ
wait base_interval attempts = min (base_interval * 2 ^ attempts) max_backoff

capped :
    (p : ℕ)
    → p < 2 ^ 63
    → (if signed_leb (p % 2 ^ 64) max_backoff then p % 2 ^ 64 else max_backoff) ≡ min p max_backoff
capped p h =
    let small : p % 2 ^ 64 ≡ p = omega arith in
    let test = signed_leb-small p max_backoff h (omega arith) in
    rw small (elim (Bool-cases (signed_leb p max_backoff)) [
      | inl below ↦ rw below (omega (arith, test.0 below))
      | inr above ↦ rw above (omega (arith, over (λ le. absurd (cc (above, test.1 le)))))
    ])
  where
    over : ¬ (p ≤ max_backoff) → max_backoff < p
    over n = omega (arith, n)

backoff-wait :
    (base_interval attempts : ℕ)
    → attempts < 64
    → base_interval * 2 ^ attempts < 2 ^ 63
    → backoff base_interval attempts ≡ wait base_interval attempts
unfolding backoff doubled
backoff-wait b n h fits =
    let shift : ltb n 64 ≡ true = ground arith in rw shift (capped (b * 2 ^ n) fits)

-- Whether a wait is over.
waited : (now t w : ℕ) → w ≤ max_backoff → (signed_leb w (elapsed now t) ≡ true) ↔ (t + w ≤ now)
unfolding elapsed
waited now t w h = elim (Bool-cases (leb t now)) [
  | inl past ↦ elim (Bool-cases (ltb (now - t) (2 ^ 63))) [
    | inl fits ↦
        let test = signed_leb-small w (now - t) (omega arith) (ground arith) in
        rw (past, fits) (λ e. ground (arith, test.0 e), λ l. test.1 (ground arith))
    | inr long ↦
        let test = signed_leb-small w (2 ^ 63 - 1) (omega arith) (omega arith) in
        rw (past, long) (λ e. ground arith, λ l. test.1 (omega arith))
  ]
  | inr future ↦
      let later : now < t = ground arith in
      rw future (λ e. absurd (negative later e), λ l. absurd (omega arith))
]
  where
    negative :
        now < t
        → signed_leb w (if ltb (t - now) (2 ^ 63) then 2 ^ 64 - (t - now) else 2 ^ 63) ≡ true
        → ⊥
    negative later e = elim (Bool-cases (ltb (t - now) (2 ^ 63))) [
      | inl near ↦ below (2 ^ 64 - (t - now)) (ground arith) (omega arith) (rw near at e)
      | inr far ↦ below (2 ^ 63) (omega arith) (omega arith) (rw far at e)
    ]
      where
        below : (d : ℕ) → 2 ^ 63 ≤ d → d < 2 ^ 64 → signed_leb w d ≡ true → ⊥
        below d k l f =
            let x : (w + 2 ^ 63) % 2 ^ 64 ≡ w + 2 ^ 63 = omega arith in
            let y : (d + 2 ^ 63) % 2 ^ 64 ≡ d - 2 ^ 63 = omega arith in
            ground (arith, rw (x, y) at f)

-- A wait that is over, or none since there was no attempt.
abbrev pub IsOver : (now wait : ℕ) → Option ℕ → Type 0
IsOver now w none = Unit
IsOver now w (some t) = t + w ≤ now

-- ShouldRetry, when the interval doubled once for each attempt is an int64: it allows an attempt exactly
-- when there were fewer than the most that are allowed and the last of them, if there was one, is at
-- least as long ago as that interval or an hour, whichever is shorter.
pub should_retry_iff :
    (now : ℕ) (p : PeerInfo) (base_interval max_attempts : ℕ)
    → p.attempts < 64
    → base_interval * 2 ^ p.attempts < 2 ^ 63
    → (should_retry now p base_interval max_attempts ≡ true)
      ↔ ((p.attempts < max_attempts) × IsOver now (wait base_interval p.attempts) p.last_attempt)
unfolding should_retry is_due
should_retry_iff now p base_interval max_attempts h fits =
    elim (Bool-cases (leb max_attempts p.attempts)) [
      | inl spent ↦ rw spent (λ e. absurd (cc e), λ l. absurd (ground (arith, l.0)))
      | inr left ↦
          let fewer : p.attempts < max_attempts = ground arith in
          let due = due_iff p.last_attempt in rw left (λ e. (fewer, due.0 e), λ l. due.1 l.1)
    ]
  where
    due_iff :
        (last : Option ℕ)
        → (is_due now base_interval p.attempts last ≡ true)
          ↔ IsOver now (wait base_interval p.attempts) last
    due_iff none = (λ e. tt, λ u. refl)
    due_iff (some t) =
        rw (backoff-wait base_interval p.attempts h fits)
          (waited now t (wait base_interval p.attempts) (omega arith))

-- ShouldRetry from the sixty-fourth attempt on, when as many are allowed: the doubled interval is 0 in
-- an int64, and it allows the next attempt at once.
pub should_retry_at_once :
    (now t : ℕ) (p : PeerInfo) (base_interval max_attempts : ℕ)
    → 64 ≤ p.attempts
    → p.attempts < max_attempts
    → p.last_attempt ≡ some t
    → t ≤ now
    → should_retry now p base_interval max_attempts ≡ true
unfolding should_retry is_due backoff doubled
should_retry_at_once now t p base_interval max_attempts many left last past =
    let fewer : leb max_attempts p.attempts ≡ false = ground arith in
    let gone : ltb p.attempts 64 ≡ false = ground arith in
    let zero_is : (base_interval * 0) % 2 ^ 64 ≡ 0 = omega arith in
    rw (fewer, last, gone, zero_is) ((waited now t 0 (omega arith)).1 (omega arith))
