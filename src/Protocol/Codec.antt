-- ===== src/Protocol/Codec.antt =====
-- pkg/protocol/codec.go: Encoder and Decoder, which move messages over a connection. The connection
-- is Go's: an io.Writer, and an io.Reader behind io.ReadFull, are parameters.
pub mod RoundTrip
pub mod Safety
use lock_free_p2p_go.Prelude.{
  ℕ, ◌+◌, ◌<◌, ◌≤◌, ◌≡◌, ◌≢◌, List, ◌∷◌, [], ◌++◌, Bool, true, not, ltb, ◌==◌, length, take, drop,
  if◌then◌else◌,
}
use lock_free_p2p_go.Run.{
  Run, ok, err, panic, Error, eof, io_failure, bad_magic, too_large, ◌>>=◌, ◌>>◌, fail_if,
}
use lock_free_p2p_go.Bytes.{make, be32, put, word_at}
use lock_free_p2p_go.Protocol.Message.{
  Message, magic_number, header_size, max_payload_size, validate,
}

-- `w.Write(p)`: the writer afterwards, and whether the error is nil.
pub record Writer (W : Type 0) : Type 0 where
  pub write : W → List ℕ → W × Bool

-- A writer that takes everything: what io.Writer promises as long as it returns no error.
pub record Accepts {W : Type 0} (wr : Writer W) : Type 0 where
  pub written : W → List ℕ
  pub succeeds : (w : W) (p : List ℕ) → (wr.write w p).1 ≡ true
  pub appends : (w : W) (p : List ℕ) → written (wr.write w p).0 ≡ written w ++ p

-- `io.ReadFull(r, buf)` for a buffer of n bytes: the reader afterwards, and the filled buffer or
-- the error.
pub record Reader (R : Type 0) : Type 0 where
  pub read_full : R → ℕ → R × Run (List ℕ)

-- What io.ReadFull documents of a reader with `left` still to come, when that is enough.
pub record Fills {R : Type 0} (rd : Reader R) : Type 0 where
  pub left : R → List ℕ
  pub filled : (r : R) (n : ℕ) → n ≤ length (left r) → (rd.read_full r n).1 ≡ ok (take n (left r))
  pub consumed : (r : R) (n : ℕ) → n ≤ length (left r) → left (rd.read_full r n).0 ≡ drop n (left r)

-- What io.ReadFull documents of a reader with `left` still to come.
pub record Delivers {R : Type 0} (rd : Reader R) : Type 0 where
  pub left : R → List ℕ
  pub filled : (r : R) (n : ℕ) → n ≤ length (left r) → (rd.read_full r n).1 ≡ ok (take n (left r))
  pub consumed : (r : R) (n : ℕ) → left (rd.read_full r n).0 ≡ drop n (left r)
  pub ended : (r : R) (n : ℕ) → 0 < n → left r ≡ [] → (rd.read_full r n).1 ≡ err eof
  pub cut :
      (r : R) (n : ℕ) → left r ≢ [] → length (left r) < n → (rd.read_full r n).1 ≡ err io_failure

-- The header of `Encoder.Encode`.
pub encode_header : Message → Run (List ℕ)
encode_header m = do
  let header = make header_size
  h0 ← put header 0 (be32 magic_number)
  h1 ← put h0 4 (m.type ∷ [])
  h2 ← put h1 5 (be32 (length m.payload))
  h3 ← put h2 9 (be32 m.checksum)
  ok h3

-- The checks of `Decoder.Decode` on the header: type, length and checksum, if they pass.
pub parse_header : List ℕ → Run (ℕ × ℕ × ℕ)
parse_header header = do
  magic ← word_at 4 header 0
  fail_if (not (magic == magic_number)) bad_magic
  type ← word_at 1 header 4
  length' ← word_at 4 header 5
  checksum ← word_at 4 header 9
  fail_if (ltb max_payload_size length') too_large
  ok (type, length', checksum)

module _ {W : Type 0} (wr : Writer W) where
  -- The second write, for a payload that is not empty.
  send_payload : W → List ℕ → W × Run (Unit {0})
  send_payload w payload =
      if ltb 0 (length payload)
      then (let (w', sent) = wr.write w payload in (w', fail_if (not sent) io_failure))
      else (w, ok tt)

  send : W → Message → Run (List ℕ) → W × Run (Unit {0})
  send w m (ok header) =
      let (w', sent) = wr.write w header in
      if sent then send_payload w' m.payload else (w', err io_failure)
  send w m (err e) = (w, err e)
  send w m panic = (w, panic)

  pub encoder_encode : W → Message → W × Run (Unit {0})
  encoder_encode w m = send w m (encode_header m)

-- The message that is built at the end, and its validation.
pub finish : (List ℕ → ℕ) → ℕ → ℕ → List ℕ → Run Message
finish checksum_ieee type checksum payload =
    let m : Message = record { type = type; payload = payload; checksum = checksum } in
    validate checksum_ieee m >> ok m

module _ (checksum_ieee : List ℕ → ℕ) {R : Type 0} (rd : Reader R) where
  -- The read of the payload wraps every error.
  receive_payload : R → ℕ → ℕ → Run (List ℕ) → R × Run Message
  receive_payload r type checksum (ok payload) = (r, finish checksum_ieee type checksum payload)
  receive_payload r type checksum (err e) = (r, err io_failure)
  receive_payload r type checksum panic = (r, panic)

  receive : R → Run (ℕ × ℕ × ℕ) → R × Run Message
  receive r (ok (type, length', checksum)) =
      if ltb 0 length'
      then (let (r', got) = rd.read_full r length' in receive_payload r' type checksum got)
      else (r, finish checksum_ieee type checksum [])
  receive r (err e) = (r, err e)
  receive r panic = (r, panic)

  -- The read of the header hands on `io.EOF` and wraps any other error.
  header_error : Error → Error
  header_error eof = eof
  header_error _ = io_failure

  with_header : R → Run (List ℕ) → R × Run Message
  with_header r (ok header) = receive r (parse_header header)
  with_header r (err e) = (r, err (header_error e))
  with_header r panic = (r, panic)

  pub decoder_decode : R → R × Run Message
  decoder_decode r = let (r', got) = rd.read_full r header_size in with_header r' got
