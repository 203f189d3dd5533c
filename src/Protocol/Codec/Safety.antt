-- ===== src/Protocol/Codec/Safety.antt =====
-- pkg/protocol/codec.go: Decode on any input, well formed or not.
use lock_free_p2p_go.Prelude.{
  ℕ, true, length-append, ◌<◌, ◌≤◌, ◌≡◌, ◌≢◌, refl, List, [], ◌++◌, arith, length, take, ltb,
  if◌then◌else◌, ◌==◌, drop, drop-append, take-append, Bool-cases, inl, inr, ◌⊎◌, ◌∙◌, ap,
}
use lock_free_p2p_go.Run.{Run, ok, err, panic, eof, io_failure, bad_magic, too_large}
use lock_free_p2p_go.Bytes.{word}
use lock_free_p2p_go.Bytes.Laws.{word_at_in_bounds}
use lock_free_p2p_go.Protocol.Message.{
  Message, magic_number, header_size, max_payload_size, validate,
}
use lock_free_p2p_go.Protocol.Codec.{
  Reader, Delivers, parse_header, finish, receive_payload, receive, with_header, decoder_decode,
  header_error,
}

-- What io.ReadFull documents of any reader: it does not panic, and a nil error means a full buffer.
pub record ReadsExactly {R : Type 0} (rd : Reader R) : Type 0 where
  pub no_panic : (r : R) (n : ℕ) → (rd.read_full r n).1 ≢ panic
  pub exact : (r : R) (n : ℕ) (b : List ℕ) → (rd.read_full r n).1 ≡ ok b → length b ≡ n

-- The four fields of a header, read as big-endian words.
abbrev pub magic_of : List ℕ → ℕ
magic_of h = word 0 (take 4 h)

abbrev pub length_of : List ℕ → ℕ
length_of h = word 0 (take 4 (drop 5 h))

parse_header_lem :
    (h : List ℕ)
    → length h ≡ header_size
    → parse_header h ≡ (
        if magic_of h == magic_number
        then (if ltb max_payload_size (length_of h)
            then err too_large
            else ok (word 0 (take 1 (drop 4 h)), length_of h, word 0 (take 4 (drop 9 h))))
        else err bad_magic)
unfolding parse_header
parse_header_lem h e =
    rw
      (
        word_at_in_bounds 4 h 0 (omega arith),
        word_at_in_bounds 1 h 4 (omega arith),
        word_at_in_bounds 4 h 5 (omega arith),
        word_at_in_bounds 4 h 9 (omega arith),
      )
      (ground arith)

parse_header_returns : (h : List ℕ) → length h ≡ header_size → parse_header h ≢ panic
parse_header_returns h e = rw (parse_header_lem h e) (λ p. ground arith)

abbrev IsValid : (List ℕ → ℕ) → Message → Type 0
IsValid checksum_ieee m =
    (length m.payload ≤ max_payload_size) × (m.checksum ≡ checksum_ieee m.payload)

module _ (checksum_ieee : List ℕ → ℕ) where
  finish-IsValid :
      (type checksum : ℕ) (p : List ℕ) (m : Message)
      → finish checksum_ieee type checksum p ≡ ok m
      → IsValid checksum_ieee m
  unfolding finish validate
  finish-IsValid type checksum p m e = ground arith

  finish_returns : (type checksum : ℕ) (p : List ℕ) → finish checksum_ieee type checksum p ≢ panic
  unfolding finish validate
  finish_returns type checksum p e = ground arith

module _ (checksum_ieee : List ℕ → ℕ) {R : Type 0} (rd : Reader R) where
  receive_payload-IsValid :
      (r : R) (type checksum : ℕ) (got : Run (List ℕ)) (m : Message)
      → (receive_payload checksum_ieee rd r type checksum got).1 ≡ ok m
      → IsValid checksum_ieee m
  unfolding receive_payload
  receive_payload-IsValid r type checksum (ok p) m e =
      finish-IsValid checksum_ieee type checksum p m e
  receive_payload-IsValid r type checksum (err x) m e = cc
  receive_payload-IsValid r type checksum panic m e = cc

  receive-IsValid :
      (r : R) (parsed : Run (ℕ × ℕ × ℕ)) (m : Message)
      → (receive checksum_ieee rd r parsed).1 ≡ ok m
      → IsValid checksum_ieee m
  unfolding receive
  receive-IsValid r (ok (type, n, checksum)) m e = ground (
    arith,
    finish-IsValid checksum_ieee type checksum [] m,
    receive_payload-IsValid (rd.read_full r n).0 type checksum (rd.read_full r n).1 m,
  )
  receive-IsValid r (err x) m e = cc
  receive-IsValid r panic m e = cc

  with_header-IsValid :
      (r : R) (got : Run (List ℕ)) (m : Message)
      → (with_header checksum_ieee rd r got).1 ≡ ok m
      → IsValid checksum_ieee m
  unfolding with_header
  with_header-IsValid r (ok h) m e = receive-IsValid r (parse_header h) m e
  with_header-IsValid r (err x) m e = cc
  with_header-IsValid r panic m e = cc

  -- Whatever arrives, a message that `Decode` returns has a payload of at most MaxPayloadSize
  -- bytes, and its checksum field is the CRC32 of its payload.
  pub decoder_decode-IsValid :
      (r : R) (m : Message)
      → (decoder_decode checksum_ieee rd r).1 ≡ ok m
      → (length m.payload ≤ max_payload_size) × (m.checksum ≡ checksum_ieee m.payload)
  unfolding decoder_decode
  decoder_decode-IsValid r m e =
      with_header-IsValid (rd.read_full r header_size).0 (rd.read_full r header_size).1 m e

  module _ (exactly : ReadsExactly rd) where
    receive_payload_returns :
        (r : R) (type checksum : ℕ) (got : Run (List ℕ))
        → got ≢ panic
        → (receive_payload checksum_ieee rd r type checksum got).1 ≢ panic
    unfolding receive_payload
    receive_payload_returns r type checksum (ok p) h = finish_returns checksum_ieee type checksum p
    receive_payload_returns r type checksum (err x) h = λ e. cc
    receive_payload_returns r type checksum panic h = absurd (h refl)

    receive_returns :
        (r : R) (parsed : Run (ℕ × ℕ × ℕ))
        → parsed ≢ panic
        → (receive checksum_ieee rd r parsed).1 ≢ panic
    unfolding receive
    receive_returns r (ok (type, n, checksum)) h = elim (Bool-cases (ltb 0 n)) [
      | inl some_bytes ↦ rw some_bytes (
          receive_payload_returns (rd.read_full r n).0 type checksum (rd.read_full r n).1
            (exactly.no_panic r n))
      | inr empty ↦ rw empty (finish_returns checksum_ieee type checksum [])
    ]
    receive_returns r (err x) h = λ e. cc
    receive_returns r panic h = absurd (h refl)

    with_header_returns :
        (r : R) (got : Run (List ℕ))
        → got ≢ panic
        → ((b : List ℕ) → got ≡ ok b → length b ≡ header_size)
        → (with_header checksum_ieee rd r got).1 ≢ panic
    unfolding with_header
    with_header_returns r (ok h) k full =
        receive_returns r (parse_header h) (parse_header_returns h (full h refl))
    with_header_returns r (err x) k full = λ e. cc
    with_header_returns r panic k full = absurd (k refl)

    -- No input makes `Decode` panic, on any reader that keeps to io.ReadFull's contract.
    pub decoder_decode_returns : (r : R) → (decoder_decode checksum_ieee rd r).1 ≢ panic
    unfolding decoder_decode
    decoder_decode_returns r =
        with_header_returns (rd.read_full r header_size).0 (rd.read_full r header_size).1
          (exactly.no_panic r header_size) (exactly.exact r header_size)

  module _ (d : Delivers rd) where
    -- A header with another magic number, or with a length above MaxPayloadSize, is refused with
    -- the error for it, and none of the bytes behind the header has been read.
    pub decoder_decode-refuses :
        (r : R) (h s : List ℕ)
        → d.left r ≡ h ++ s
        → length h ≡ header_size
        → (magic_of h ≢ magic_number) ⊎ (max_payload_size < length_of h)
        → ((decoder_decode checksum_ieee rd r).1
            ≡ (if magic_of h == magic_number then err too_large else err bad_magic))
          × (d.left (decoder_decode checksum_ieee rd r).0 ≡ s)
    unfolding decoder_decode with_header receive
    decoder_decode-refuses r h s e n bad =
        let got : (rd.read_full r header_size).1 ≡ ok h =
          d.filled r header_size (omega (arith, ap length e, length-append h s))
          ∙ ap ok (ap (take header_size) e ∙ take-append h s header_size (omega arith)) in
        let behind : d.left (rd.read_full r header_size).0 ≡ s =
          d.consumed r header_size
          ∙ ap (drop header_size) e
          ∙ drop-append h s header_size (omega arith) in
        elim (Bool-cases (magic_of h == magic_number)) [
          | inl right ↦
              let long : ltb max_payload_size (length_of h) ≡ true = ground arith in
              rw (got, parse_header_lem h n, right, long) (refl, behind)
          | inr wrong ↦ rw (got, parse_header_lem h n, wrong) (refl, behind)
        ]

    -- At the end of the stream `Decode` hands on `io.EOF`; inside a header it reports a failed read.
    pub decoder_decode_ended :
        (r : R)
        → length (d.left r) < header_size
        → (decoder_decode checksum_ieee rd r).1
          ≡ (if length (d.left r) == 0 then err eof else err io_failure)
    unfolding decoder_decode with_header header_error
    decoder_decode_ended r h = elim (Bool-cases (length (d.left r) == 0)) [
      | inl done ↦ rw (done, d.ended r header_size (omega arith) (ground arith)) refl
      | inr more ↦ rw (more, d.cut r header_size (λ e. ground (arith, ap length e)) h) refl
    ]
