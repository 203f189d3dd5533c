-- ===== src/Transport/RoundTrip.antt =====
-- pkg/transport/connection.go: what WriteMessage sends, ReadMessage receives.
use lock_free_p2p_go.Prelude.{
  ℕ, ◌^◌, ◌≤◌, ◌<◌, ◌≡◌, ◌⊎◌, inl, inr, refl, sym, ap, ◌∙◌, true, false, List, ◌++◌, length, ltb,
  ◌==◌, arith, take, drop, take-append, drop-append, append_assoc, length-append,
}
use lock_free_p2p_go.Run.{ok, err, message_too_large, empty_message}
use lock_free_p2p_go.Bytes.{be32}
use lock_free_p2p_go.Bytes.Laws.{word-be32}
use lock_free_p2p_go.Protocol.Codec.{Reader, Delivers}
use lock_free_p2p_go.Transport.{
  BufferedWriter, Connection, max_message_size, read, payload_of, read_message, write_message,
}

-- What bufio.Writer documents as long as no write of the connection fails: Flush sends everything that
-- was written.
pub record Flushes {W : Type 0} (wr : BufferedWriter W) : Type 0 where
  pub written : W → List ℕ
  pub sent : W → List ℕ
  pub succeeds : (w : W) (p : List ℕ) → (wr.write w p).1 ≡ true
  pub appends : (w : W) (p : List ℕ) → written (wr.write w p).0 ≡ written w ++ p
  pub flushed : (w : W) → (wr.flush w).1 ≡ true
  pub sends : (w : W) → sent (wr.flush w).0 ≡ written w

-- The bytes of a message.
abbrev pub framed : List ℕ → List ℕ
framed data' = be32 (length data') ++ data'

module _ {R W N : Type 0} where
  write_message-framed :
      (wr : BufferedWriter W) (a : Flushes wr) (c : Connection R W N) (data' : List ℕ)
      → c.closed ≡ false
      → ((write_message wr c data').1 ≡ ok tt)
        × (a.sent (write_message wr c data').0.writer ≡ a.written c.writer ++ framed data')
  unfolding write_message
  write_message-framed wr a c data' open_ =
      let w = (wr.write c.writer (be32 (length data'))).0 in
      rw
        (
          open_,
          a.succeeds c.writer (be32 (length data')),
          a.succeeds w data',
          a.flushed (wr.write w data').0,
        )
        (
          refl,
          a.sends (wr.write w data').0
              ∙ a.appends w data'
              ∙ ap (λ s. s ++ data') (a.appends c.writer (be32 (length data')))
              ∙ append_assoc (a.written c.writer) (be32 (length data')) data',
        )

  module _ (rd : Reader R) (v : Delivers rd) where
    -- The read of four bytes that stand before others.
    read_length :
        (c : Connection R W N) (n : ℕ) (rest : List ℕ)
        → c.closed ≡ false
        → v.left c.reader ≡ be32 n ++ rest
        → ((read rd c 4).1 ≡ ok (be32 n))
          × (v.left (read rd c 4).0.reader ≡ rest)
          × ((read rd c 4).0.closed ≡ false)
    read_length c n rest open_ e =
        let size = length-append (be32 n) rest in
        rw open_ (
          v.filled c.reader 4 (omega (arith, ap length e)) ∙ ap (λ s. ok (take 4 s)) e,
          v.consumed c.reader 4 ∙ ap (drop 4) e,
          refl,
        )

    read_message-framed :
        (c : Connection R W N) (data' rest : List ℕ)
        → c.closed ≡ false
        → 0 < length data'
        → length data' ≤ max_message_size
        → v.left c.reader ≡ framed data' ++ rest
        → ((read_message rd c).1 ≡ ok data') × (v.left (read_message rd c).0.reader ≡ rest)
    unfolding read_message
    read_message-framed c data' rest open_ more fits e =
        let (r, l, o) =
          read_length c (length data') (data' ++ rest) open_
            (e ∙ append_assoc (be32 (length data')) data' rest) in
        let d = (read rd c 4).0 in
        let is = word-be32 (length data') (omega arith) in
        let small : ltb max_message_size (length data') ≡ false = ground arith in
        let some_ : (length data' == 0) ≡ false = ground arith in
        let size = length-append data' rest in
        rw (r, is, small, some_, o)
          (
            ap payload_of (
                v.filled d.reader (length data') (omega (arith, ap length l))
                ∙ ap ok (ap (take (length data')) l ∙ take-append data' rest (length data') refl)),
            v.consumed d.reader (length data')
                ∙ ap (drop (length data')) l
                ∙ drop-append data' rest (length data') refl,
          )

-- On an open connection whose writer takes everything, WriteMessage returns no error. When what has
-- then been sent, behind what was written before, and what follows it, is what is still to come at
-- another open connection, ReadMessage there returns the message, if it has between 1 byte and 10 MB,
-- and stops right behind it.
pub read_message-write_message :
    {R W N : Type 0} (wr : BufferedWriter W) (a : Flushes wr) (rd : Reader R) (v : Delivers rd)
    (c d : Connection R W N) (data' rest : List ℕ)
    → c.closed ≡ false
    → d.closed ≡ false
    → 0 < length data'
    → length data' ≤ max_message_size
    → a.sent (write_message wr c data').0.writer ++ rest ≡ a.written c.writer ++ v.left d.reader
    → ((write_message wr c data').1 ≡ ok tt)
      × ((read_message rd d).1 ≡ ok data')
      × (v.left (read_message rd d).0.reader ≡ rest)
read_message-write_message wr a rd v c d data' rest open_c open_d more fits arrives =
    let (fine, sent) = write_message-framed wr a c data' open_c in
    let before = a.written c.writer in
    let all : before ++ (framed data' ++ rest) ≡ before ++ v.left d.reader =
      sym (append_assoc before (framed data') rest) ∙ ap (λ s. s ++ rest) (sym sent) ∙ arrives in
    let here : v.left d.reader ≡ framed data' ++ rest =
      sym (drop-append before (v.left d.reader) (length before) refl)
      ∙ ap (drop (length before)) (sym all)
      ∙ drop-append before (framed data' ++ rest) (length before) refl in
    let (got, left_) = read_message-framed rd v d data' rest open_d more fits here in
    (fine, got, left_)

-- ReadMessage on an open connection refuses a length of 0 and one of more than 10 MB, and reads
-- nothing behind the length: the bytes of the message are left to be taken for the next length.
pub read_message_refuses :
    {R W N : Type 0} (rd : Reader R) (v : Delivers rd) (c : Connection R W N) (n : ℕ)
    (rest : List ℕ)
    → c.closed ≡ false
    → n < 2 ^ 32
    → (n ≡ 0) ⊎ (max_message_size < n)
    → v.left c.reader ≡ be32 n ++ rest
    → (((read_message rd c).1 ≡ err empty_message)
        ⊎ ((read_message rd c).1 ≡ err message_too_large))
      × (v.left (read_message rd c).0.reader ≡ rest)
unfolding read_message
read_message_refuses rd v c n rest open_ fits bad e =
    let (r, l, o) = read_length rd v c n rest open_ e in
    let is = word-be32 n fits in
    elim bad [
      | inl zero_ ↦
          let small : ltb max_message_size n ≡ false = ground arith in
          let none_ : (n == 0) ≡ true = ground arith in rw (r, is, small, none_) (inl refl, l)
      | inr large ↦
          let big : ltb max_message_size n ≡ true = ground arith in rw (r, is, big) (inr refl, l)
    ]
