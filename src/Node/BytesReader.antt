-- ===== src/Node/BytesReader.antt =====
-- pkg/node/node.go: the reader over the bytes of a message, behind io.ReadFull.
use lock_free_p2p_go.Prelude.{
  ℕ, zero, suc, ◌+◌, ◌-◌, ◌≤◌, ◌<◌, ◌≡◌, refl, ◌∙◌, ap, sym, true, false, List, ◌∷◌, [], ◌++◌,
  length, take, drop, leb, ◌==◌, if◌then◌else◌, arith, length-take, length-drop,
}
use lock_free_p2p_go.Run.{Run, ok, err, panic, io_failure}
use lock_free_p2p_go.Protocol.Codec.{Reader, Fills}

pub record BytesReader : Type 0 where
  pub data' : List ℕ
  pub pos : ℕ

abbrev pub new_bytes_reader : List ℕ → BytesReader
new_bytes_reader data' = record { data' = data'; pos = 0 }

-- `Read` into a slice of n bytes: the bytes copied. Its error at the end is not io.EOF.
abbrev pub read_some : BytesReader → (n : ℕ) → BytesReader × Run (List ℕ)
read_some r n =
    let copied = take n (drop r.pos r.data') in
    if leb (length r.data') r.pos
    then (r, err io_failure)
    else (record r { pos = r.pos + length copied }, ok copied)

-- The loop of io.ReadFull, which reads on while bytes are missing. Each round but the last one copies
-- a byte, and there are as many rounds at hand as bytes are missing, and one.
abbrev pub read_rest :
    (fuel : ℕ) → BytesReader → (missing : ℕ) → (got : List ℕ) → BytesReader × Run (List ℕ)
read_rest zero r missing got = (r, ok got)
read_rest (suc fuel) r missing got =
    let next = read_some r missing in
    let read_on : BytesReader × Run (List ℕ) = elim next.1 [
      | ok copied ↦ read_rest fuel next.0 (missing - length copied) (got ++ copied)
      | err e ↦ (next.0, err e)
      | panic ↦ (next.0, panic)
    ] in
    if missing == 0 then (r, ok got) else read_on

abbrev pub bytes_reader : Reader BytesReader
bytes_reader = record { read_full = λ r n. read_rest (suc n) r n [] }

-- What is left to read.
abbrev pub left : BytesReader → List ℕ
left r = drop r.pos r.data'

drop-drop : {A : Type 0} (n m k : ℕ) (xs : List A) → k ≡ n + m → drop m (drop n xs) ≡ drop k xs
drop-drop zero m k xs e = ap (λ j. drop j xs) (omega (arith, e))
drop-drop (suc n) zero zero [] e = refl
drop-drop (suc n) zero (suc k) [] e = refl
drop-drop (suc n) (suc m) zero [] e = absurd (omega arith)
drop-drop (suc n) (suc m) (suc k) [] e = refl
drop-drop (suc n) m zero (x ∷ xs) e = absurd (omega arith)
drop-drop (suc n) m (suc k) (x ∷ xs) e = drop-drop n m k xs (omega arith)

-- One round reads everything that is asked for, when it is there.
read_rest_there :
    (fuel : ℕ) (r : BytesReader) (n : ℕ)
    → n ≤ length (left r)
    → 0 < n
    → read_rest (suc (suc fuel)) r n [] ≡ (record r { pos = r.pos + n }, ok (take n (left r)))
read_rest_there fuel r n h some_asked =
    let asked : (n == 0) ≡ false = ground arith in
    let more : leb (length r.data') r.pos ≡ false = ground (arith, length-drop r.pos r.data') in
    let size : length (take n (left r)) ≡ n = omega (arith, length-take n (left r)) in
    let done : ((n - length (take n (left r))) == 0) ≡ true = ground (arith, size) in
    rw (asked, more, done, size) (rw more refl)

pub fills :
    (r : BytesReader) (n : ℕ)
    → n ≤ length (left r)
    → (bytes_reader.read_full r n).1 ≡ ok (take n (left r))
fills r zero h = refl
fills r (suc n) h = ap (λ x. x.1) (read_rest_there n r (suc n) h (omega arith))

pub consumes :
    (r : BytesReader) (n : ℕ)
    → n ≤ length (left r)
    → left (bytes_reader.read_full r n).0 ≡ drop n (left r)
consumes r zero h = refl
consumes r (suc n) h =
    ap (λ x. left x.0) (read_rest_there n r (suc n) h (omega arith))
    ∙ sym (drop-drop r.pos (suc n) (r.pos + suc n) r.data' refl)

-- io.ReadFull on the reader returns the bytes that are asked for, when they are there.
abbrev pub bytes_reader-Fills : Fills bytes_reader
bytes_reader-Fills = record { left = left; filled = fills; consumed = consumes }
