-- ===== src/Protocol/Fields/Overflow.antt =====
-- pkg/protocol/codec.go: DecodeString and DecodeBytes compute the end of a field in the width of its
-- length prefix.
use lock_free_p2p_go.Prelude.{
  ℕ, ◌+◌, ◌%◌, ◌^◌, ◌<◌, ◌≤◌, ◌≡◌, ◌≢◌, ◌⊎◌, inl, inr, List, ◌∷◌, [], arith, length, All, take, ltb,
  leb, false, Bool-cases, drop, ◌-◌, ◌&&◌,
}
use mathlib.Core.Logic.{◌↔◌}
use lock_free_p2p_go.Run.{panic}
use lock_free_p2p_go.Bytes.{IsByte, word}
use lock_free_p2p_go.Bytes.Laws.{
  word_at_in_bounds, slice_in_bounds, slice_reversed, copy_whole, length_slice,
}
use lock_free_p2p_go.Protocol.Fields.{decode_string, decode_bytes}

-- The length that the prefix announces.
abbrev pub announced : ℕ → List ℕ → ℕ
announced w data' = word 0 (take w data')

announced_lt_16 : (data' : List ℕ) → All IsByte data' → announced 2 data' < 2 ^ 16
unfolding word
announced_lt_16 [] h = omega arith
announced_lt_16 (a ∷ []) h = omega arith
announced_lt_16 (a ∷ b ∷ r) h = omega arith

announced_lt_32 : (data' : List ℕ) → All IsByte data' → announced 4 data' < 2 ^ 32
unfolding word
announced_lt_32 [] h = omega arith
announced_lt_32 (a ∷ []) h = omega arith
announced_lt_32 (a ∷ b ∷ []) h = omega arith
announced_lt_32 (a ∷ b ∷ c ∷ []) h = omega arith
announced_lt_32 (a ∷ b ∷ c ∷ d ∷ r) h = omega arith

-- One field behind a length of w bytes, whose end is computed modulo m.
decode_string_wraps :
    (data' : List ℕ)
    → 2 ≤ length data'
    → 65534 ≤ announced 2 data'
    → announced 2 data' < 2 ^ 16
    → decode_string data' ≡ panic
unfolding decode_string
decode_string_wraps data' h k l =
    let a = announced 2 data' in
    let fits : ltb (length data') 2 ≡ false = ground arith in
    let enough : ltb (length data') ((2 + a) % 2 ^ 16) ≡ false = ground arith in
    rw (
      fits,
      word_at_in_bounds 2 data' 0 h,
      enough,
      slice_reversed data' 2 ((2 + a) % 2 ^ 16) (omega arith),
    )

decode_string_returns :
    (data' : List ℕ)
    → (length data' < 2) ⊎ (announced 2 data' < 65534)
    → decode_string data' ≢ panic
unfolding decode_string
decode_string_returns data' h = elim (Bool-cases (ltb (length data') 2)) [
  | inl short ↦ rw short (λ e. cc)
  | inr fits ↦
      let a = announced 2 data' in
      let whole : (2 + a) % 2 ^ 16 ≡ 2 + a = ground arith in
      elim (Bool-cases (ltb (length data') (2 + a))) [
        | inl cut ↦ rw (fits, word_at_in_bounds 2 data' 0 (ground arith), whole, cut) (λ e. cc)
        | inr enough ↦
            rw
              (
                fits,
                word_at_in_bounds 2 data' 0 (ground arith),
                whole,
                enough,
                slice_in_bounds data' 2 (2 + a) (omega arith) (ground arith),
              )
              (λ e. cc)
      ]
]

-- DecodeString panics on exactly the inputs whose two-byte length is 65534 or 65535: `2 + length`
-- wraps to 0 or 1, the length check passes, and the slice ends before it begins. On all other
-- inputs it returns.
decode_string_panics :
    (data' : List ℕ)
    → All IsByte data'
    → (decode_string data' ≡ panic) ↔ ((2 ≤ length data') × (65534 ≤ announced 2 data'))
decode_string_panics data' h = (
  λ e. elim (Bool-cases (leb 2 (length data') && leb 65534 (announced 2 data'))) [
    | inl both ↦ ground arith
    | inr other ↦ absurd (decode_string_returns data' (ground arith) e)
  ],
  λ (k, l). decode_string_wraps data' k l (announced_lt_16 data' h),
)

decode_bytes_wraps :
    (data' : List ℕ)
    → 4 ≤ length data'
    → 2 ^ 32 - 4 ≤ announced 4 data'
    → announced 4 data' < 2 ^ 32
    → decode_bytes data' ≡ panic
unfolding decode_bytes
decode_bytes_wraps data' h k l =
    let a = announced 4 data' in
    let fits : ltb (length data') 4 ≡ false = ground arith in
    let enough : ltb (length data') ((4 + a) % 2 ^ 32) ≡ false = ground arith in
    rw (
      fits,
      word_at_in_bounds 4 data' 0 h,
      enough,
      slice_reversed data' 4 ((4 + a) % 2 ^ 32) (omega arith),
    )

decode_bytes_returns :
    (data' : List ℕ)
    → (length data' < 4) ⊎ (announced 4 data' < 2 ^ 32 - 4)
    → decode_bytes data' ≢ panic
unfolding decode_bytes
decode_bytes_returns data' h = elim (Bool-cases (ltb (length data') 4)) [
  | inl short ↦ rw short (λ e. cc)
  | inr fits ↦
      let a = announced 4 data' in
      let whole : (4 + a) % 2 ^ 32 ≡ 4 + a = ground arith in
      elim (Bool-cases (ltb (length data') (4 + a))) [
        | inl cut ↦ rw (fits, word_at_in_bounds 4 data' 0 (ground arith), whole, cut) (λ e. cc)
        | inr enough ↦
            let inside : 4 + a ≤ length data' = ground arith in
            rw
              (
                fits,
                word_at_in_bounds 4 data' 0 (ground arith),
                whole,
                enough,
                slice_in_bounds data' 4 (4 + a) (omega arith) inside,
                copy_whole a (take (4 + a - 4) (drop 4 data'))
                    (omega (arith, length_slice data' 4 (4 + a) (omega arith) inside)),
              )
              (λ e. cc)
      ]
]

-- DecodeBytes panics on exactly the inputs whose four-byte length is one of the last four numbers
-- below 2^32, where `4 + length` wraps. On all other inputs it returns.
decode_bytes_panics :
    (data' : List ℕ)
    → All IsByte data'
    → (decode_bytes data' ≡ panic) ↔ ((4 ≤ length data') × (2 ^ 32 - 4 ≤ announced 4 data'))
decode_bytes_panics data' h = (
  λ e. elim (Bool-cases (leb 4 (length data') && leb (2 ^ 32 - 4) (announced 4 data'))) [
    | inl both ↦ ground arith
    | inr other ↦ absurd (decode_bytes_returns data' (ground arith) e)
  ],
  λ (k, l). decode_bytes_wraps data' k l (announced_lt_32 data' h),
)

-- DecodeString panics on exactly the inputs of at least two bytes that announce a length of 65534 or
-- 65535, and DecodeBytes on exactly those of at least four bytes that announce one of the last four
-- lengths below 2^32: the end of the field wraps, the length check passes, and the slice ends before
-- it begins.
pub fields_panic :
    (data' : List ℕ)
    → All IsByte data'
    → ((decode_string data' ≡ panic) ↔ ((2 ≤ length data') × (65534 ≤ announced 2 data')))
      × ((decode_bytes data' ≡ panic) ↔ ((4 ≤ length data') × (2 ^ 32 - 4 ≤ announced 4 data')))
fields_panic data' h = (decode_string_panics data' h, decode_bytes_panics data' h)
