-- ===== src/Protocol/Codec/RoundTrip.antt =====
-- pkg/protocol/codec.go: Encode and Decode against the layout of a message.
use lock_free_p2p_go.Prelude.{
  ℕ, ◌≤◌, ◌≡◌, refl, sym, ap, ◌∙◌, List, ◌∷◌, [], ◌++◌, true, arith, length, take, drop,
  length-append, append_assoc, append-nil, take-append, drop-append, ltb,
}
use lock_free_p2p_go.Run.{ok}
use lock_free_p2p_go.Bytes.{be32, word}
use lock_free_p2p_go.Bytes.Writes.{putting, writes, writes_fill}
use lock_free_p2p_go.Bytes.Reads.{word_field, field32}
use lock_free_p2p_go.Protocol.Message.{Message, IsSendable, magic_number, header_size, validate}
use lock_free_p2p_go.Protocol.Message.Wire.{header, wire}
use lock_free_p2p_go.Protocol.Codec.{
  Writer, Accepts, Reader, Delivers, Fills, encode_header, parse_header, send_payload, send,
  encoder_encode, finish, receive_payload, receive, with_header, decoder_decode,
}

encode_header-header : (m : Message) → encode_header m ≡ ok (header m [])
unfolding encode_header writes
encode_header-header m =
    writes_fill
      ((putting, 0, be32 magic_number)
        ∷ (putting, 4, m.type ∷ [])
        ∷ (putting, 5, be32 (length m.payload))
        ∷ (putting, 9, be32 m.checksum)
        ∷ [])
      header_size (omega arith) (omega arith)

-- The checks of the decoder accept the header of a sendable message and give its fields back.
parse_header-header :
    (checksum_ieee : List ℕ → ℕ) (m : Message)
    → IsSendable checksum_ieee m
    → parse_header (header m []) ≡ ok (m.type, length m.payload, m.checksum)
unfolding parse_header word
parse_header-header checksum_ieee m s =
    rw
      (
        field32 [] magic_number ((m.type ∷ []) ++ (be32 (length m.payload) ++ be32 m.checksum)) 0
            refl (omega arith),
        word_field 1 (be32 magic_number ∷ []) (m.type ∷ [])
            (be32 (length m.payload) ++ be32 m.checksum) 4 refl refl,
        field32 (be32 magic_number ∷ (m.type ∷ []) ∷ []) (length m.payload) (be32 m.checksum) 5 refl
            (omega (arith, s.bounded)),
        field32 (be32 magic_number ∷ (m.type ∷ []) ∷ be32 (length m.payload) ∷ []) m.checksum [] 9
            refl s.sum_fits,
      )
      (ground (arith, s.bounded))

-- The bytes of a message and what follows, split where the decoder splits them.
wire-split : (m : Message) (s : List ℕ) → wire m ++ s ≡ header m [] ++ (m.payload ++ s)
wire-split m s = rw (append-nil m.payload)

module _ {W : Type 0} (wr : Writer W) (a : Accepts wr) where
  send_payload-written :
      (w : W) (p : List ℕ)
      → ((send_payload wr w p).1 ≡ ok tt) × (a.written (send_payload wr w p).0 ≡ a.written w ++ p)
  unfolding send_payload
  send_payload-written w [] = (refl, sym (append-nil (a.written w)))
  send_payload-written w (b ∷ p) =
      let more : ltb 0 (length (b ∷ p)) ≡ true = ground arith in
      rw (more, a.succeeds w (b ∷ p)) (refl, a.appends w (b ∷ p))

  -- On a writer that takes everything, `Encoder.Encode` succeeds, and it appends the bytes of the
  -- documented layout: header first, then the payload.
  pub encoder_encode-written :
      (w : W) (m : Message)
      → ((encoder_encode wr w m).1 ≡ ok tt)
        × (a.written (encoder_encode wr w m).0 ≡ a.written w ++ wire m)
  unfolding encoder_encode send
  encoder_encode-written w m =
      let w' = (wr.write w (header m [])).0 in
      let sent = send_payload-written w' m.payload in
      rw (encode_header-header m, a.succeeds w (header m []))
        (
          sent.0,
          sent.1
              ∙ rw (a.appends w (header m [])) (
                  append_assoc (a.written w) (header m []) m.payload
                  ∙ ap (λ t. a.written w ++ header m t) (sym (append-nil m.payload))),
        )

finish-sendable :
    (checksum_ieee : List ℕ → ℕ) (m : Message)
    → IsSendable checksum_ieee m
    → finish checksum_ieee m.type m.checksum m.payload ≡ ok m
unfolding finish validate
finish-sendable checksum_ieee m s = ground (arith, s.bounded, s.sum_right)

module _ (checksum_ieee : List ℕ → ℕ) {R : Type 0} (rd : Reader R) (d : Fills rd) where
  receive-wire :
      (r : R) (type checksum : ℕ) (p s : List ℕ) (m : Message)
      → finish checksum_ieee type checksum p ≡ ok m
      → d.left r ≡ p ++ s
      → ((receive checksum_ieee rd r (ok (type, length p, checksum))).1 ≡ ok m)
        × (d.left (receive checksum_ieee rd r (ok (type, length p, checksum))).0 ≡ s)
  unfolding receive receive_payload
  receive-wire r type checksum [] s m f e = (f, e)
  receive-wire r type checksum (b ∷ p) s m f e =
      let more : ltb 0 (length (b ∷ p)) ≡ true = ground arith in
      let whole : length (b ∷ p) ≤ length (d.left r) =
        omega (arith, ap length e, length-append (b ∷ p) s) in
      let got : (rd.read_full r (length (b ∷ p))).1 ≡ ok (b ∷ p) =
        d.filled r (length (b ∷ p)) whole
        ∙ ap ok (ap (take (length (b ∷ p))) e ∙ take-append (b ∷ p) s (length (b ∷ p)) refl) in
      rw (more, got)
        (
          f,
          d.consumed r (length (b ∷ p)) whole
              ∙ ap (drop (length (b ∷ p))) e
              ∙ drop-append (b ∷ p) s (length (b ∷ p)) refl,
        )

  -- `Decode` on a reader of which only the bytes that are there are known.
  pub decoder_decode-filled :
      (r : R) (m : Message) (s : List ℕ)
      → IsSendable checksum_ieee m
      → d.left r ≡ wire m ++ s
      → ((decoder_decode checksum_ieee rd r).1 ≡ ok m)
        × (d.left (decoder_decode checksum_ieee rd r).0 ≡ s)
  unfolding decoder_decode with_header
  decoder_decode-filled r m s v e =
      let split = e ∙ wire-split m s in
      let got : (rd.read_full r header_size).1 ≡ ok (header m []) =
        d.filled r header_size (there split) ∙ ap ok (ap (take header_size) split) in
      let behind : d.left (rd.read_full r header_size).0 ≡ m.payload ++ s =
        d.consumed r header_size (there split) ∙ ap (drop header_size) split in
      rw (got, parse_header-header checksum_ieee m v)
        (receive-wire (rd.read_full r header_size).0 m.type m.checksum m.payload s m
          (finish-sendable checksum_ieee m v) behind)
    where
      there : d.left r ≡ header m [] ++ (m.payload ++ s) → header_size ≤ length (d.left r)
      there split = omega (arith, ap length split, length-append (header m []) (m.payload ++ s))

module _ (checksum_ieee : List ℕ → ℕ) {R : Type 0} (rd : Reader R) (d : Delivers rd) where
  -- `Decode` on a stream that begins with the bytes of a message which `Validate` accepts returns
  -- exactly that message, and leaves the reader right behind it.
  pub decoder_decode-wire :
      (r : R) (m : Message) (s : List ℕ)
      → IsSendable checksum_ieee m
      → d.left r ≡ wire m ++ s
      → ((decoder_decode checksum_ieee rd r).1 ≡ ok m)
        × (d.left (decoder_decode checksum_ieee rd r).0 ≡ s)
  decoder_decode-wire =
      let fills : Fills rd = record {
        left = d.left;
        filled = d.filled;
        consumed = λ r n h. d.consumed r n;
      } in
      decoder_decode-filled checksum_ieee rd fills
