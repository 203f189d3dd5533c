-- ===== src/Node/Messages.antt =====
-- pkg/node/node.go: a message whose bytes a node decodes whole.
use lock_free_p2p_go.Prelude.{ℕ, ◌^◌, ◌≤◌, ◌<◌, ◌≡◌, refl, sym, List, [], length, append-nil}
use lock_free_p2p_go.Run.{ok}
use lock_free_p2p_go.Protocol.Message.{Message, IsSendable, max_payload_size}
use lock_free_p2p_go.Protocol.Message.Wire.{wire}
use lock_free_p2p_go.Protocol.Codec.RoundTrip.{decoder_decode-filled}
use lock_free_p2p_go.Node.BytesReader.{bytes_reader, new_bytes_reader, bytes_reader-Fills}
use lock_free_p2p_go.Node.{decode_message}

module _ (checksum_ieee : List ℕ → ℕ) where
  -- A message of a type and a payload.
  abbrev pub message_of : (type : ℕ) → (payload : List ℕ) → Message
  message_of type b = record { type = type; payload = b; checksum = checksum_ieee b }

  pub message-IsSendable :
      ((b : List ℕ) → checksum_ieee b < 2 ^ 32)
      → (type : ℕ) (b : List ℕ) → type < 256
      → length b ≤ max_payload_size
      → IsSendable checksum_ieee (message_of type b)
  message-IsSendable fits type b h k = record {
    kind = h;
    bounded = k;
    sum_fits = fits b;
    sum_right = refl;
  }

  -- A message over the reader of its bytes.
  pub decode_message-wire :
      (m : Message) → IsSendable checksum_ieee m → decode_message checksum_ieee (wire m) ≡ ok m
  unfolding decode_message
  decode_message-wire m s =
      (decoder_decode-filled checksum_ieee bytes_reader bytes_reader-Fills
        (new_bytes_reader (wire m)) m [] s (sym (append-nil (wire m)))).0
