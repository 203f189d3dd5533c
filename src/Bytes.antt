-- ===== src/Bytes.antt =====
-- Byte slices: what pkg/protocol and pkg/mempool/tx.go do with them through `copy`, slice
-- expressions and encoding/binary. A byte is a number below 256, a slice is a list.
pub mod Laws
pub mod Writes
pub mod Reads
use lock_free_p2p_go.Prelude.{
  ℕ, zero, suc, ◌+◌, ◌-◌, ◌*◌, ◌/◌, ◌%◌, ◌<◌, List, [], ◌∷◌, ◌++◌, Bool, true, false, ◌&&◌, ◌==◌,
  leb, if◌then◌else◌, length, take, drop, replicate,
}
use lock_free_p2p_go.Run.{Run, ok, panic, ◌>>=◌}

abbrev pub IsByte : ℕ → Type 0
IsByte b = b < 256

-- `==` on byte arrays and on strings
unfoldable pub bytes_eq : List ℕ → List ℕ → Bool
bytes_eq [] [] = true
bytes_eq (a ∷ xs) (b ∷ ys) = (a == b) && bytes_eq xs ys
bytes_eq xs ys = false

-- `make([]byte, n)`
abbrev pub make : ℕ → List ℕ
make n = replicate n 0

-- The big-endian bytes of a w-byte word, the most significant first; higher bits are cut off.
abbrev pub be16 : ℕ → List ℕ
be16 v = (v / 256 % 256) ∷ (v % 256) ∷ []

abbrev pub be32 : ℕ → List ℕ
be32 v = be16 (v / 65536) ++ be16 v

abbrev pub be64 : ℕ → List ℕ
be64 v = be32 (v / 4294967296) ++ be32 v

-- The word that some big-endian bytes stand for.
unfoldable pub word : ℕ → List ℕ → ℕ
word acc [] = acc
word acc (b ∷ bs) = word (acc * 256 + b) bs

-- `PutUintN(buf[off:], v)` with the bytes of v: a panic if they do not fit.
pub put : List ℕ → ℕ → List ℕ → Run (List ℕ)
put buf off src =
    if leb (off + length src) (length buf)
    then ok (take off buf ++ (src ++ drop (off + length src) buf))
    else panic

-- `copy(buf[off:], src)`: what does not fit is left out; a panic if `off` is beyond the end.
pub copy_at : List ℕ → ℕ → List ℕ → Run (List ℕ)
copy_at buf off src =
    if leb off (length buf)
    then ok (take off buf ++ (take (length buf - off) src ++ drop (off + length src) buf))
    else panic

-- `data[lo:hi]`
pub slice : List ℕ → ℕ → ℕ → Run (List ℕ)
slice data' lo hi =
    if leb lo hi && leb hi (length data') then ok (take (hi - lo) (drop lo data')) else panic

-- `binary.BigEndian.UintN(data[off:])` for a word of w bytes
unfoldable pub word_at : ℕ → List ℕ → ℕ → Run ℕ
word_at w data' off = do bs ← slice data' off (off + w); ok (word 0 bs)
