-- ===== src/Bytes/Writes.antt =====
-- A buffer that is filled field by field. An encoder of the program allocates a buffer of the exact
-- size and writes its fields at consecutive offsets; the lemma here is used for each of them.
use lock_free_p2p_go.Prelude.{
  ℕ, ◌+◌, ◌≡◌, refl, List, [], ◌∷◌, ◌++◌, arith, length, append_assoc, length-append,
}
use lock_free_p2p_go.Run.{Run, ok, ◌>>=◌}
use lock_free_p2p_go.Bytes.{make, put, copy_at}
use lock_free_p2p_go.Bytes.Laws.{put_next, copy_next}

-- `PutUintN` and an indexed store need room for the field, `copy` does not.
pub data Mode : Type 0 where
  putting : Mode
  copying : Mode

pub write_by : Mode → List ℕ → ℕ → List ℕ → Run (List ℕ)
write_by putting = put
write_by copying = copy_at

-- The writes one after another.
unfoldable pub writes : List ℕ → List (Mode × ℕ × List ℕ) → Run (List ℕ)
unfolding write_by
writes buf [] = ok buf
writes buf ((mode, off, src) ∷ fields) = write_by mode buf off src >>= λ b. writes b fields

-- The fields stand at consecutive offsets, from `n` on.
abbrev pub Consecutive : ℕ → List (Mode × ℕ × List ℕ) → Type 0
Consecutive n [] = Unit {0}
Consecutive n ((mode, off, src) ∷ fields) = (off ≡ n) × Consecutive (n + length src) fields

abbrev pub contents : List (Mode × ℕ × List ℕ) → List ℕ
contents [] = []
contents ((mode, off, src) ∷ fields) = src ++ contents fields

write_by_next :
    (mode : Mode) (pre src : List ℕ) (k off : ℕ)
    → off ≡ length pre
    → write_by mode (pre ++ make (length src + k)) off src ≡ ok ((pre ++ src) ++ make k)
unfolding write_by
write_by_next putting pre src k off h = put_next pre src k off h
write_by_next copying pre src k off h = copy_next pre src k off h

writes_fill_behind :
    (pre : List ℕ) (fields : List (Mode × ℕ × List ℕ)) (n k : ℕ)
    → n ≡ length pre
    → Consecutive n fields
    → k ≡ length (contents fields)
    → writes (pre ++ make k) fields ≡ ok (pre ++ contents fields)
unfolding writes
writes_fill_behind pre [] n k h c e = rw e
writes_fill_behind pre ((mode, off, src) ∷ fields) n k h c e =
    rw
      (
        e,
        length-append src (contents fields),
        write_by_next mode pre src (length (contents fields)) off (omega arith),
      )
      (rw (← append_assoc pre src (contents fields)) (
        writes_fill_behind (pre ++ src) fields (n + length src) (length (contents fields))
          (omega (arith, length-append pre src)) c.1 refl))

-- Writes at consecutive offsets into a fresh buffer of the right size leave the fields, in order.
pub writes_fill :
    (fields : List (Mode × ℕ × List ℕ)) (k : ℕ)
    → Consecutive 0 fields
    → k ≡ length (contents fields)
    → writes (make k) fields ≡ ok (contents fields)
writes_fill fields k c e = writes_fill_behind [] fields 0 k refl c e
