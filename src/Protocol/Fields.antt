-- ===== src/Protocol/Fields.antt =====
-- pkg/protocol/codec.go, the helpers for payload fields: strings and byte slices behind their
-- lengths, and fixed-width words. A Go string is its bytes.
pub mod Laws
pub mod Overflow
use lock_free_p2p_go.Prelude.{ℕ, ◌+◌, ◌%◌, ◌^◌, List, ltb, length, ◌++◌}
use lock_free_p2p_go.Run.{Run, ok, too_short, ◌>>=◌, ◌>>◌, fail_if}
use lock_free_p2p_go.Bytes.{make, be16, be32, be64, put, copy_at, slice, word_at}

-- `uint16(len(data))` is the cut that `be16` makes.
pub encode_string : List ℕ → Run (List ℕ)
encode_string s = do
  let buf = make (2 + length s)
  b0 ← put buf 0 (be16 (length s))
  b1 ← copy_at b0 2 s
  ok b1

-- `2 + length` is computed in uint16.
pub decode_string : List ℕ → Run (List ℕ × ℕ)
decode_string data' = do
  fail_if (ltb (length data') 2) too_short
  length' ← word_at 2 data' 0
  let end = (2 + length') % 2 ^ 16
  fail_if (ltb (length data') end) too_short
  s ← slice data' 2 end
  ok (s, end)

pub encode_uint32 : ℕ → Run (List ℕ)
encode_uint32 v = do let buf = make 4; b0 ← put buf 0 (be32 v); ok b0

pub decode_uint32 : List ℕ → Run ℕ
decode_uint32 data' = do fail_if (ltb (length data') 4) too_short; word_at 4 data' 0

unfoldable pub encode_uint64 : ℕ → Run (List ℕ)
encode_uint64 v = do let buf = make 8; b0 ← put buf 0 (be64 v); ok b0

unfoldable pub decode_uint64 : List ℕ → Run ℕ
decode_uint64 data' = do fail_if (ltb (length data') 8) too_short; word_at 8 data' 0

pub encode_bytes : List ℕ → Run (List ℕ)
encode_bytes s = do
  let buf = make (4 + length s)
  b0 ← put buf 0 (be32 (length s))
  b1 ← copy_at b0 4 s
  ok b1

-- `4 + length` is computed in uint32.
pub decode_bytes : List ℕ → Run (List ℕ × ℕ)
decode_bytes data' = do
  fail_if (ltb (length data') 4) too_short
  length' ← word_at 4 data' 0
  let end = (4 + length') % 2 ^ 32
  fail_if (ltb (length data') end) too_short
  let result = make length'
  s ← slice data' 4 end
  r0 ← copy_at result 0 s
  ok (r0, end)
