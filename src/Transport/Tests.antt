-- ===== src/Transport/Tests.antt =====
-- The theorems on the connection at concrete connections: readers and writers are the bytes that are
-- left and those that were written and sent.
use lock_free_p2p_go.Prelude.{
  ℕ, ◌≡◌, ◌⊎◌, inl, refl, ap, true, List, ◌∷◌, [], ◌++◌, length, take, drop, ltb, ◌==◌,
  if◌then◌else◌, arith,
}
use lock_free_p2p_go.Run.{ok, err, eof, io_failure, message_too_large, empty_message}
use lock_free_p2p_go.Protocol.Codec.{Reader, Delivers}
use lock_free_p2p_go.Transport.{
  BufferedWriter, Connection, new_connection, read_message, write_message,
}
use lock_free_p2p_go.Transport.RoundTrip.{Flushes, read_message-write_message, read_message_refuses}

abbrev tape_reader : Reader (List ℕ)
tape_reader = record {
  read_full = λ r n. (
    drop n r,
    if ltb (length r) n then (if length r == 0 then err eof else err io_failure) else ok (take n r),
  );
}

nothing_left : (r : List ℕ) (n : ℕ) → length r ≡ 0 → r ≡ []
nothing_left [] n h = refl
nothing_left (b ∷ r) n h = absurd (omega arith)

tape_delivers : Delivers tape_reader
tape_delivers = record {
  left = λ r. r;
  filled = λ r n h. ground arith;
  consumed = λ r n. refl;
  ended = λ r n h e. ground (arith, ap length e);
  cut = λ r n h l. ground (arith, nothing_left r n);
}

-- What was written, and what was sent of it.
abbrev buffer : BufferedWriter (List ℕ × List ℕ)
buffer = record { write = λ w p. ((w.0 ++ p, w.1), true); flush = λ w. ((w.0, w.0), true) }

buffer_flushes : Flushes buffer
buffer_flushes = record {
  written = λ w. w.0;
  sent = λ w. w.1;
  succeeds = λ w p. refl;
  appends = λ w p. refl;
  flushed = λ w. refl;
  sends = λ w. refl;
}

abbrev sender : Connection (List ℕ) (List ℕ × List ℕ) ℕ
sender = new_connection 0 [] (5 ∷ [], 5 ∷ [])

abbrev receiver : List ℕ → Connection (List ℕ) (List ℕ × List ℕ) ℕ
receiver left = new_connection 0 left ([], [])

read_message-write_message_example :
    ((write_message buffer sender (7 ∷ 8 ∷ [])).1 ≡ ok tt)
    × ((read_message tape_reader (receiver (0 ∷ 0 ∷ 0 ∷ 2 ∷ 7 ∷ 8 ∷ 9 ∷ []))).1 ≡ ok (7 ∷ 8 ∷ []))
    × (tape_delivers.left
          (read_message tape_reader (receiver (0 ∷ 0 ∷ 0 ∷ 2 ∷ 7 ∷ 8 ∷ 9 ∷ []))).0.reader
        ≡ 9 ∷ [])
unfolding tape_delivers buffer_flushes write_message
read_message-write_message_example =
    read_message-write_message buffer buffer_flushes tape_reader tape_delivers sender
      (receiver (0 ∷ 0 ∷ 0 ∷ 2 ∷ 7 ∷ 8 ∷ 9 ∷ [])) (7 ∷ 8 ∷ []) (9 ∷ []) refl refl (omega arith)
      (omega arith) refl

read_message_refuses_example :
    (((read_message tape_reader (receiver (0 ∷ 0 ∷ 0 ∷ 0 ∷ 9 ∷ []))).1 ≡ err empty_message)
      ⊎ ((read_message tape_reader (receiver (0 ∷ 0 ∷ 0 ∷ 0 ∷ 9 ∷ []))).1 ≡ err message_too_large))
    × (tape_delivers.left (read_message tape_reader (receiver (0 ∷ 0 ∷ 0 ∷ 0 ∷ 9 ∷ []))).0.reader
        ≡ 9 ∷ [])
unfolding tape_delivers
read_message_refuses_example =
    read_message_refuses tape_reader tape_delivers (receiver (0 ∷ 0 ∷ 0 ∷ 0 ∷ 9 ∷ [])) 0 (9 ∷ [])
      refl (omega arith) (inl refl) refl
