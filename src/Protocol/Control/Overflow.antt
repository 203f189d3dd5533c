-- ===== src/Protocol/Control/Overflow.antt =====
-- pkg/protocol/handlers.go: the slice of a Disconnect message ends at `3 + msgLen` in uint16.
use lock_free_p2p_go.Prelude.{
  ℕ, ◌+◌, ◌%◌, ◌^◌, ◌<◌, ◌≤◌, ◌≡◌, ◌≢◌, ◌⊎◌, inl, inr, List, ◌∷◌, [], arith, length, ltb, leb,
  false, Bool-cases, All, take, drop, ◌&&◌,
}
use mathlib.Core.Logic.{◌↔◌}
use lock_free_p2p_go.Run.{panic}
use lock_free_p2p_go.Bytes.{word, IsByte}
use lock_free_p2p_go.Bytes.Laws.{word_at_in_bounds, slice_in_bounds, slice_reversed}
use lock_free_p2p_go.Protocol.Control.{decode_disconnect}

-- `msgLen`
abbrev pub announced_message : List ℕ → ℕ
announced_message data' = word 0 (take 2 (drop 1 data'))

announced_message_lt : (data' : List ℕ) → All IsByte data' → announced_message data' < 2 ^ 16
unfolding word
announced_message_lt [] h = omega arith
announced_message_lt (a ∷ []) h = omega arith
announced_message_lt (a ∷ b ∷ []) h = omega arith
announced_message_lt (a ∷ b ∷ c ∷ r) h = omega arith

decode_disconnect_wraps :
    (data' : List ℕ)
    → 3 + announced_message data' ≤ length data'
    → 65533 ≤ announced_message data'
    → announced_message data' < 2 ^ 16
    → decode_disconnect data' ≡ panic
unfolding decode_disconnect
decode_disconnect_wraps data' h k l =
    let a = announced_message data' in
    let fits : ltb (length data') 3 ≡ false = ground arith in
    let enough : ltb (length data') (3 + a) ≡ false = ground arith in
    rw (
      fits,
      word_at_in_bounds 1 data' 0 (omega arith),
      word_at_in_bounds 2 data' 1 (omega arith),
      enough,
      slice_reversed data' 3 ((3 + a) % 2 ^ 16) (omega arith),
    )

decode_disconnect_returns :
    (data' : List ℕ)
    → (length data' < 3 + announced_message data') ⊎ (announced_message data' < 65533)
    → decode_disconnect data' ≢ panic
unfolding decode_disconnect
decode_disconnect_returns data' h = elim (Bool-cases (ltb (length data') 3)) [
  | inl short ↦ rw short (λ e. cc)
  | inr fits ↦
      let a = announced_message data' in
      let one = word_at_in_bounds 1 data' 0 (ground arith) in
      let two = word_at_in_bounds 2 data' 1 (ground arith) in
      elim (Bool-cases (ltb (length data') (3 + a))) [
        | inl cut ↦ rw (fits, one, two, cut) (λ e. cc)
        | inr enough ↦
            let whole : (3 + a) % 2 ^ 16 ≡ 3 + a = ground arith in
            rw
              (
                fits,
                one,
                two,
                enough,
                whole,
                slice_in_bounds data' 3 (3 + a) (omega arith) (ground arith),
              )
              (λ e. cc)
      ]
]

-- DecodeDisconnectPayload panics on exactly the inputs that announce a message of 65533 bytes or
-- more and hold it: the length check adds in `int` and passes, and the slice's end wraps in uint16
-- to a place before its begin. On all other inputs it returns.
pub decode_disconnect_panics :
    (data' : List ℕ)
    → All IsByte data'
    → (decode_disconnect data' ≡ panic)
      ↔ ((3 + announced_message data' ≤ length data') × (65533 ≤ announced_message data'))
decode_disconnect_panics data' h = (
  λ e.
      elim (Bool-cases
        (leb (3 + announced_message data') (length data') && leb 65533 (announced_message data'))) [
          | inl both ↦ ground arith
          | inr other ↦ absurd (decode_disconnect_returns data' (ground arith) e)
        ],
  λ (k, l). decode_disconnect_wraps data' k l (announced_message_lt data' h),
)
