-- ===== src/Protocol/Handshake/Safety.antt =====
-- pkg/protocol/handshake.go: the handshake decoders on any bytes.
use lock_free_p2p_go.Prelude.{ℕ, ◌+◌, ◌≢◌, List, arith, length}
use lock_free_p2p_go.Run.{panic, too_short}
use lock_free_p2p_go.Bytes.Reads.{guarded, sliced, worded}
use lock_free_p2p_go.Protocol.Handshake.{decode_handshake, decode_handshake_ack}

-- DecodeHandshakePayload returns a payload or an error on every input.
decode_handshake_returns : (data' : List ℕ) → decode_handshake data' ≢ panic
unfolding decode_handshake
decode_handshake_returns data' = guarded (length data') 32 too_short _ λ h0.
    worded 4 data' 0 _ (omega arith) λ version.
      sliced data' 4 20 _ (omega arith) (omega arith) λ id _.
        worded 2 data' 20 _ (omega arith) λ port. worded 8 data' 22 _ (omega arith) λ nonce.
          worded 2 data' 30 _ (omega arith) λ u.
            guarded (length data') (32 + u) too_short _
              λ h1. sliced data' 32 (32 + u) _ (omega arith) (omega arith) λ agent _ e. cc

-- DecodeHandshakeAckPayload returns a payload or an error on every input: each of its checks covers
-- the read behind it.
decode_handshake_ack_returns : (data' : List ℕ) → decode_handshake_ack data' ≢ panic
unfolding decode_handshake_ack
decode_handshake_ack_returns data' = guarded (length data') 35 too_short _ λ h0.
    worded 1 data' 0 _ (omega arith) λ accepted. worded 2 data' 1 _ (omega arith) λ r.
      guarded (length data') (3 + r) too_short _ λ h1.
        sliced data' 3 (3 + r) _ (omega arith) h1 λ reason _.
          guarded (length data') (3 + r + 4) too_short _ λ h2.
            worded 4 data' (3 + r) _ h2 λ version.
              guarded (length data') (3 + r + 4 + 16) too_short _ λ h3.
                sliced data' (3 + r + 4) (3 + r + 4 + 16) _ (omega arith) h3 λ id _.
                  guarded (length data') (3 + r + 4 + 16 + 2) too_short _ λ h4.
                    worded 2 data' (3 + r + 4 + 16) _ h4 λ port.
                      guarded (length data') (3 + r + 4 + 16 + 2 + 8) too_short _ λ h5.
                        worded 8 data' (3 + r + 4 + 16 + 2) _ h5 λ nonce.
                          guarded (length data') (3 + r + 4 + 16 + 2 + 8 + 2) too_short _ λ h6.
                            worded 2 data' (3 + r + 4 + 16 + 2 + 8) _ h6 λ u.
                              guarded (length data') (3 + r + 4 + 16 + 2 + 8 + 2 + u) too_short _
                                λ h7.
                                  sliced data' (3 + r + 4 + 16 + 2 + 8 + 2)
                                    (3 + r + 4 + 16 + 2 + 8 + 2 + u) _ (omega arith) h7
                                    λ agent _ e. cc

-- On every input both decoders of the handshake return a payload or an error.
pub handshakes_return :
    (data' : List ℕ) → (decode_handshake data' ≢ panic) × (decode_handshake_ack data' ≢ panic)
handshakes_return data' = (decode_handshake_returns data', decode_handshake_ack_returns data')
