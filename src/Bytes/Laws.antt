-- ===== src/Bytes/Laws.antt =====
-- Laws of the byte slices: writes at consecutive offsets fill a fresh buffer field by field, and a
-- read at a field's offset gives the field.
use lock_free_p2p_go.Prelude.{
  [], ◌∷◌, true, append-nil, ℕ, ◌+◌, ◌-◌, ◌^◌, ◌<◌, ◌≤◌, ◌≡◌, refl, List, ◌++◌, arith, length, take,
  drop, append_assoc, length-append, length-replicate, length-take, length-drop, take-append,
  drop-append, take_all, replicate-add,
}
use lock_free_p2p_go.Run.{ok, panic}
use lock_free_p2p_go.Bytes.{make, be16, be32, be64, word, put, copy_at, slice, word_at, bytes_eq}
use mathlib.Core.Logic.{◌↔◌}

-- What is left of a buffer of zeros behind its front and a piece of that front's successor.
drop_front :
    (pre src : List ℕ) (k off : ℕ)
    → off ≡ length pre
    → drop (off + length src) (pre ++ make (length src + k)) ≡ make k
drop_front pre src k off h =
    rw
      (
        replicate-add {A = ℕ} (length src) k (length src + k) 0 refl,
        ← append_assoc pre (make (length src)) (make k),
      )
      (drop-append (pre ++ make (length src)) (make k) (off + length src) (
        omega
          (arith, length-append pre (make (length src)), length-replicate {A = ℕ} (length src) 0)))

length_front : (pre : List ℕ) (n : ℕ) → length (pre ++ make n) ≡ length pre + n
length_front pre n = omega (arith, length-append pre (make n), length-replicate {A = ℕ} n 0)

-- A write of the next field behind `pre` into the zeros that are left.
pub put_next :
    (pre src : List ℕ) (k off : ℕ)
    → off ≡ length pre
    → put (pre ++ make (length src + k)) off src ≡ ok ((pre ++ src) ++ make k)
unfolding put
put_next pre src k off h =
    rw (take-append pre (make (length src + k)) off h, drop_front pre src k off h)
      (ground (arith, append_assoc pre src (make k), length_front pre (length src + k)))

pub copy_next :
    (pre src : List ℕ) (k off : ℕ)
    → off ≡ length pre
    → copy_at (pre ++ make (length src + k)) off src ≡ ok ((pre ++ src) ++ make k)
unfolding copy_at
copy_next pre src k off h =
    rw
      (
        take-append pre (make (length src + k)) off h,
        drop_front pre src k off h,
        take_all src (length (pre ++ make (length src + k)) - off)
            (omega (arith, length_front pre (length src + k))),
      )
      (ground (arith, append_assoc pre src (make k), length_front pre (length src + k)))

-- The bytes between two others are read as they are.
pub slice_middle :
    (data' pre mid post : List ℕ) (lo hi : ℕ)
    → data' ≡ pre ++ (mid ++ post)
    → lo ≡ length pre
    → hi ≡ lo + length mid
    → slice data' lo hi ≡ ok mid
unfolding slice
slice_middle data' pre mid post lo hi e hl hh =
    rw (e, drop-append pre (mid ++ post) lo hl, take-append mid post (hi - lo) (omega arith))
      (ground (arith, length-append pre (mid ++ post), length-append mid post))

-- Words of the widths that are used.
pub word-be16 : (v : ℕ) → v < 2 ^ 16 → word 0 (be16 v) ≡ v
unfolding word
word-be16 v h = omega arith

pub word-be32 : (v : ℕ) → v < 2 ^ 32 → word 0 (be32 v) ≡ v
unfolding word
word-be32 v h = omega arith

pub word-be64 : (v : ℕ) → v < 2 ^ 64 → word 0 (be64 v) ≡ v
unfolding word
word-be64 v h = omega arith

-- In bounds, a slice expression does not panic, and gives as many bytes as it says.
pub slice_in_bounds :
    (data' : List ℕ) (lo hi : ℕ)
    → lo ≤ hi
    → hi ≤ length data'
    → slice data' lo hi ≡ ok (take (hi - lo) (drop lo data'))
unfolding slice
slice_in_bounds data' lo hi h k = ground arith

pub length_slice :
    (data' : List ℕ) (lo hi : ℕ)
    → lo ≤ hi
    → hi ≤ length data'
    → length (take (hi - lo) (drop lo data')) ≡ hi - lo
length_slice data' lo hi h k =
    omega (arith, length-take (hi - lo) (drop lo data'), length-drop lo data')

pub slice_reversed : (data' : List ℕ) (lo hi : ℕ) → hi < lo → slice data' lo hi ≡ panic
unfolding slice
slice_reversed data' lo hi h = ground arith

pub word_at_in_bounds :
    (w : ℕ) (data' : List ℕ) (off : ℕ)
    → off + w ≤ length data'
    → word_at w data' off ≡ ok (word 0 (take (off + w - off) (drop off data')))
unfolding word_at
word_at_in_bounds w data' off h = rw (slice_in_bounds data' off (off + w) (omega arith) h)

pub word_at_middle :
    (w : ℕ) (data' pre mid post : List ℕ) (off : ℕ)
    → data' ≡ pre ++ (mid ++ post)
    → off ≡ length pre
    → w ≡ length mid
    → word_at w data' off ≡ ok (word 0 mid)
unfolding word_at
word_at_middle w data' pre mid post off e h k =
    rw (slice_middle data' pre mid post off (off + w) e h (omega arith))

-- A copy into a fresh slice of the right length is the source.
pub copy_whole : (n : ℕ) (s : List ℕ) → n ≡ length s → copy_at (make n) 0 s ≡ ok s
copy_whole n s h =
    let size : n ≡ length s + 0 = omega arith in rw (size, copy_next [] s 0 0 refl, append-nil s)

-- Byte arrays and strings are equal when their bytes are.
pub bytes_eq_iff : (a b : List ℕ) → (bytes_eq a b ≡ true) ↔ (a ≡ b)
unfolding bytes_eq
bytes_eq_iff [] [] = (λ e. refl, λ e. refl)
bytes_eq_iff [] (b ∷ ys) = (λ e. cc, λ e. cc)
bytes_eq_iff (a ∷ xs) [] = (λ e. cc, λ e. cc)
bytes_eq_iff (a ∷ xs) (b ∷ ys) =
    let ih = bytes_eq_iff xs ys in (λ e. ground (arith, ih.0), λ e. ground (arith, ih.1))

pub bytes_eq_refl : (a : List ℕ) → bytes_eq a a ≡ true
bytes_eq_refl a = (bytes_eq_iff a a).1 refl

pub bytes_eq→≡ : (a b : List ℕ) → bytes_eq a b ≡ true → a ≡ b
bytes_eq→≡ a b = (bytes_eq_iff a b).0
