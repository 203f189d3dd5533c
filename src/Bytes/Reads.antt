-- ===== src/Bytes/Reads.antt =====
-- Reading a field back from the place where an encoder put it.
use lock_free_p2p_go.Prelude.{
  ℕ, ltb, Bool-cases, inl, inr, ◌-◌, take, drop, ◌+◌, ◌<◌, ◌≤◌, ◌≡◌, ◌≢◌, refl, List, [], ◌∷◌, ◌++◌,
  arith, length, append_assoc, length-append, ◌∙◌, ap, ◌^◌,
}
use lock_free_p2p_go.Run.{Run, fail_if, Error, ok, panic, ◌>>=◌}
use lock_free_p2p_go.Bytes.{slice, word, word_at, be16, be32, be64}
use lock_free_p2p_go.Bytes.Laws.{
  slice_middle, length_slice, word_at_middle, slice_in_bounds, word_at_in_bounds, word-be16,
  word-be32, word-be64,
}

-- `front` holds the fields before the one that is read.
abbrev pub prepend : List (List ℕ) → List ℕ → List ℕ
prepend [] t = t
prepend (x ∷ xs) t = x ++ prepend xs t

abbrev pub lengths : List (List ℕ) → ℕ
lengths [] = 0
lengths (x ∷ xs) = length x + lengths xs

split_front : (front : List (List ℕ)) (t : List ℕ) → prepend front t ≡ prepend front [] ++ t
split_front [] t = refl
split_front (x ∷ xs) t = ap (◌++◌ x) (split_front xs t) ∙ rw (append_assoc x (prepend xs []) t)

length_front : (front : List (List ℕ)) → length (prepend front []) ≡ lengths front
length_front [] = refl
length_front (x ∷ xs) = omega (arith, length-append x (prepend xs []), length_front xs)

pub slice_field :
    (front : List (List ℕ)) (mid post : List ℕ) (lo hi : ℕ)
    → lo ≡ lengths front
    → hi ≡ lo + length mid
    → slice (prepend front (mid ++ post)) lo hi ≡ ok mid
slice_field front mid post lo hi h k =
    slice_middle (prepend front (mid ++ post)) (prepend front []) mid post lo hi
      (split_front front (mid ++ post)) (omega (arith, length_front front)) k

pub word_field :
    (w : ℕ) (front : List (List ℕ)) (mid post : List ℕ) (off : ℕ)
    → off ≡ lengths front
    → w ≡ length mid
    → word_at w (prepend front (mid ++ post)) off ≡ ok (word 0 mid)
word_field w front mid post off h k =
    word_at_middle w (prepend front (mid ++ post)) (prepend front []) mid post off
      (split_front front (mid ++ post)) (omega (arith, length_front front)) k

pub field16 :
    (front : List (List ℕ)) (v : ℕ) (post : List ℕ) (off : ℕ)
    → off ≡ lengths front
    → v < 2 ^ 16
    → word_at 2 (prepend front (be16 v ++ post)) off ≡ ok v
field16 front v post off h k = word_field 2 front (be16 v) post off h refl ∙ ap ok (word-be16 v k)

pub field32 :
    (front : List (List ℕ)) (v : ℕ) (post : List ℕ) (off : ℕ)
    → off ≡ lengths front
    → v < 2 ^ 32
    → word_at 4 (prepend front (be32 v ++ post)) off ≡ ok v
field32 front v post off h k = word_field 4 front (be32 v) post off h refl ∙ ap ok (word-be32 v k)

pub field64 :
    (front : List (List ℕ)) (v : ℕ) (post : List ℕ) (off : ℕ)
    → off ≡ lengths front
    → v < 2 ^ 64
    → word_at 8 (prepend front (be64 v ++ post)) off ≡ ok v
field64 front v post off h k = word_field 8 front (be64 v) post off h refl ∙ ap ok (word-be64 v k)

-- In bounds no read panics, whatever the bytes are.
pub slice_returns :
    (data' : List ℕ) (lo hi : ℕ) → lo ≤ hi → hi ≤ length data' → slice data' lo hi ≢ panic
slice_returns data' lo hi h k = rw (slice_in_bounds data' lo hi h k) (λ e. cc)

pub word_at_returns :
    (w : ℕ) (data' : List ℕ) (off : ℕ) → off + w ≤ length data' → word_at w data' off ≢ panic
word_at_returns w data' off h = rw (word_at_in_bounds w data' off h) (λ e. cc)

-- A chain of calls panics only if one of them does.
pub >>=-returns {ℓ κ} :
    {A : Type ℓ} {B : Type κ} (m : Run A) (f : A → Run B)
    → m ≢ panic
    → ((a : A) → m ≡ ok a → f a ≢ panic)
    → (m >>= f) ≢ panic
>>=-returns (ok a) f h k = k a refl
>>=-returns (Run.err e) f h k = λ p. cc
>>=-returns panic f h k = absurd (h refl)

-- `if n < k { return error }` in front of the rest: the rest may use that it did not fire.
pub guarded {ℓ} :
    {A : Type ℓ} (n k : ℕ) (e : Error) (rest : Run A)
    → (k ≤ n → rest ≢ panic)
    → (fail_if (ltb n k) e >>= λ _. rest) ≢ panic
guarded n k e rest h = elim (Bool-cases (ltb n k)) [
  | inl short ↦ rw short (λ p. cc)
  | inr long ↦ rw long (h (ground arith))
]

-- `x ← data[lo:hi]`, with the rest, and the same of a word.
pub sliced {ℓ} :
    {A : Type ℓ} (data' : List ℕ) (lo hi : ℕ) (rest : List ℕ → Run A)
    → lo ≤ hi
    → hi ≤ length data'
    → ((s : List ℕ) → length s ≡ hi - lo → rest s ≢ panic)
    → (slice data' lo hi >>= rest) ≢ panic
sliced data' lo hi rest h k r =
    rw (slice_in_bounds data' lo hi h k)
      (r (take (hi - lo) (drop lo data')) (length_slice data' lo hi h k))

pub worded {ℓ} :
    {A : Type ℓ} (w : ℕ) (data' : List ℕ) (off : ℕ) (rest : ℕ → Run A)
    → off + w ≤ length data'
    → ((v : ℕ) → rest v ≢ panic)
    → (word_at w data' off >>= rest) ≢ panic
worded w data' off rest h r =
    rw (word_at_in_bounds w data' off h) (r (word 0 (take (off + w - off) (drop off data'))))

word-byte : (b : ℕ) → word 0 (b ∷ []) ≡ b
unfolding word
word-byte b = omega arith

pub field8 :
    (front : List (List ℕ)) (b : ℕ) (post : List ℕ) (off : ℕ)
    → off ≡ lengths front
    → word_at 1 (prepend front ((b ∷ []) ++ post)) off ≡ ok b
field8 front b post off h = word_field 1 front (b ∷ []) post off h refl ∙ ap ok (word-byte b)
