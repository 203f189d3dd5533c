-- ===== src/Protocol/Message/Wire.antt =====
-- pkg/protocol/message.go: the byte layout of a message, and `Encode` against it.
use lock_free_p2p_go.Prelude.{ℕ, ◌+◌, ◌≡◌, List, [], ◌∷◌, ◌++◌, arith, length, length-append}
use lock_free_p2p_go.Run.{ok}
use lock_free_p2p_go.Bytes.{be32}
use lock_free_p2p_go.Bytes.Writes.{putting, copying, writes, writes_fill}
use lock_free_p2p_go.Protocol.Message.{Message, encode, magic_number, header_size}

-- The table in the comment on `Message`: magic, type, length, checksum, payload.
abbrev pub header : Message → List ℕ → List ℕ
header m rest =
    be32 magic_number ++ ((m.type ∷ []) ++ (be32 (length m.payload) ++ (be32 m.checksum ++ rest)))

abbrev pub wire : Message → List ℕ
wire m = header m (m.payload ++ [])

-- `Encode` returns the header's thirteen bytes and the payload behind them, in the documented
-- layout, and none of its writes is out of bounds.
pub encode-wire : (m : Message) → encode m ≡ ok (wire m)
unfolding encode writes
encode-wire m =
    writes_fill
      ((putting, 0, be32 magic_number)
        ∷ (putting, 4, m.type ∷ [])
        ∷ (putting, 5, be32 (length m.payload))
        ∷ (putting, 9, be32 m.checksum)
        ∷ (copying, 13, m.payload)
        ∷ [])
      (header_size + length m.payload) (omega arith) (omega (arith, length-append m.payload []))
