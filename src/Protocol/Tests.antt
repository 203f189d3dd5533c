-- ===== src/Protocol/Tests.antt =====
-- The theorems on the protocol at concrete messages, over a tape of bytes.
use lock_free_p2p_go.Prelude.{
  ℕ, ◌-◌, ◌^◌, ◌≤◌, List, ◌∷◌, [], ◌++◌, ◌≡◌, ◌≢◌, refl, ap, true, arith, if◌then◌else◌, leb, ◌==◌,
  length, take, drop, length-take,
}
use mathlib.Core.Logic.{◌↔◌}
use lock_free_p2p_go.Run.{Run, ok, err, panic, eof, io_failure}
use lock_free_p2p_go.Protocol.Message.{Message, IsSendable, max_payload_size}
use lock_free_p2p_go.Protocol.Message.Wire.{wire}
use lock_free_p2p_go.Protocol.Codec.{Writer, Accepts, Reader, Delivers, decoder_decode}
use lock_free_p2p_go.Protocol.Codec.RoundTrip.{decoder_decode-wire}
use lock_free_p2p_go.Protocol.Codec.Safety.{ReadsExactly, decoder_decode-IsValid}
use lock_free_p2p_go.Protocol.Fields.{decode_string, decode_bytes}
use lock_free_p2p_go.Protocol.Fields.Overflow.{announced, fields_panic}

-- A connection that is a tape: writing appends, and reading takes from the front.
abbrev tape_writer : Writer (List ℕ)
tape_writer = record { write = λ w p. (w ++ p, true) }

abbrev tape_accepts : Accepts tape_writer
tape_accepts = record { written = λ w. w; succeeds = λ w p. refl; appends = λ w p. refl }

abbrev taken : List ℕ → ℕ → Run (List ℕ)
taken r n =
    if leb n (length r) then ok (take n r) else (if length r == 0 then err eof else err io_failure)

abbrev tape_reader : Reader (List ℕ)
tape_reader = record { read_full = λ r n. (drop n r, taken r n) }

nothing_left : (r : List ℕ) → r ≢ [] → length r ≢ 0
nothing_left [] h e = h refl
nothing_left (b ∷ r) h e = absurd (omega arith)

tape_delivers : Delivers tape_reader
tape_delivers = record {
  left = λ r. r;
  filled = λ r n h. ground arith;
  consumed = λ r n. refl;
  ended = λ r n h e. ground (arith, ap length e);
  cut = λ r n h l. ground (arith, nothing_left r h);
}

tape_exact : ReadsExactly tape_reader
tape_exact = record {
  no_panic = λ r n e. ground arith;
  exact = λ r n b e. ground (arith, length-take n r);
}

-- A checksum for the tests.
abbrev sum_of : List ℕ → ℕ
sum_of p = length p

abbrev a_message : Message
a_message = record { type = 2; payload = 7 ∷ 8 ∷ []; checksum = 2 }

a_message-IsSendable : IsSendable sum_of a_message
a_message-IsSendable = record {
  kind = omega arith;
  bounded = omega arith;
  sum_fits = omega arith;
  sum_right = refl;
}

decoder_decode-wire_example :
    ((decoder_decode sum_of tape_reader (wire a_message ++ 5 ∷ [])).1 ≡ ok a_message)
    × (tape_delivers.left (decoder_decode sum_of tape_reader (wire a_message ++ 5 ∷ [])).0 ≡ 5 ∷ [])
unfolding tape_delivers
decoder_decode-wire_example =
    decoder_decode-wire sum_of tape_reader tape_delivers (wire a_message ++ 5 ∷ []) a_message
      (5 ∷ []) a_message-IsSendable refl

decoder_decode-IsValid_example :
    (length a_message.payload ≤ max_payload_size) × (a_message.checksum ≡ sum_of a_message.payload)
unfolding tape_delivers
decoder_decode-IsValid_example =
    decoder_decode-IsValid sum_of tape_reader (wire a_message ++ 5 ∷ []) a_message
      decoder_decode-wire_example.0

fields_panic_example :
    ((decode_string (255 ∷ 255 ∷ 255 ∷ 255 ∷ []) ≡ panic)
      ↔ ((2 ≤ 4) × (65534 ≤ announced 2 (255 ∷ 255 ∷ 255 ∷ 255 ∷ []))))
    × ((decode_bytes (255 ∷ 255 ∷ 255 ∷ 255 ∷ []) ≡ panic)
        ↔ ((4 ≤ 4) × (2 ^ 32 - 4 ≤ announced 4 (255 ∷ 255 ∷ 255 ∷ 255 ∷ []))))
fields_panic_example =
    fields_panic (255 ∷ 255 ∷ 255 ∷ 255 ∷ [])
      (omega arith, (omega arith, (omega arith, (omega arith, tt))))
