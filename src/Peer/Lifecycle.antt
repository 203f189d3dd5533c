-- ===== src/Peer/Lifecycle.antt =====
-- pkg/peer/peer.go: the end of a peer, and its counts of what was sent.
use lock_free_p2p_go.Prelude.{
  ℕ, ◌+◌, ◌%◌, ◌^◌, ◌<◌, ◌≡◌, refl, true, Option, none, some, List, ◌∷◌, [], length, arith,
  Bool-cases, inl, inr,
}
use lock_free_p2p_go.Run.{Run, ok, err, panic}
use lock_free_p2p_go.Peer.{
  Connection, Peer, is_down, close, is_closed, write_message, write_to, after_write,
}

-- The bytes of the messages that were written, each with its prefix of four bytes, and their number.
abbrev pub cost : Run (Unit {0}) → ℕ → ℕ
cost (ok u) n = n
cost (err e) n = 0
cost panic n = 0

abbrev pub bytes_of : List (List ℕ) → List (Run (Unit {0})) → ℕ
bytes_of [] results = 0
bytes_of (data' ∷ rest) [] = 0
bytes_of (data' ∷ rest) (r ∷ rs) = cost r (length data' + 4) + bytes_of rest rs

abbrev pub number_of : List (Run (Unit {0})) → ℕ
number_of [] = 0
number_of (r ∷ rs) = cost r 1 + number_of rs

module _ {C V : Type 0} (io : Connection C) where
  -- After a Close the peer is closed, whatever the connection answered; a second Close returns no error,
  -- and changes nothing: it does not call the connection again.
  pub close-close :
      (p : Peer C V)
      → (is_closed io (close io p).0 ≡ true) × (close io (close io p).0 ≡ ((close io p).0, ok tt))
  unfolding close is_closed
  close-close p = elim (Bool-cases (is_down p.state)) [
    | inl down ↦ rw (down, down) (refl, refl)
    | inr up ↦ rw up (refl, refl)
  ]

  -- WriteMessage for one message after the other, and what the calls return.
  pub write_all : Peer C V → List (List ℕ) → Peer C V × List (Run (Unit {0}))
  write_all p [] = (p, [])
  write_all p (data' ∷ rest) =
      let r = write_message io p data' in let later = write_all r.0 rest in (later.0, r.1 ∷ later.1)

  -- One call of WriteMessage.
  write_message-counts :
      (p : Peer C V) (data' : List ℕ)
      → p.bytes_sent < 2 ^ 64
      → p.messages_sent < 2 ^ 64
      → ((write_message io p data').0.bytes_sent
          ≡ (p.bytes_sent + cost (write_message io p data').1 (length data' + 4)) % 2 ^ 64)
        × ((write_message io p data').0.messages_sent
            ≡ (p.messages_sent + cost (write_message io p data').1 1) % 2 ^ 64)
  unfolding write_message
  write_message-counts p data' h k = go p.conn
    where
      after :
          (q : Peer C V) (r : Run (Unit {0}))
          → q.bytes_sent < 2 ^ 64
          → q.messages_sent < 2 ^ 64
          → ((after_write io q data' r).bytes_sent
              ≡ (q.bytes_sent + cost r (length data' + 4)) % 2 ^ 64)
            × ((after_write io q data' r).messages_sent ≡ (q.messages_sent + cost r 1) % 2 ^ 64)
      after q (ok u) i j = (refl, refl)
      after q (err e) i j = (omega arith, omega arith)
      after q panic i j = (omega arith, omega arith)

      go :
          (c : Option C)
          → ((write_to io p data' c).0.bytes_sent
              ≡ (p.bytes_sent + cost (write_to io p data' c).1 (length data' + 4)) % 2 ^ 64)
            × ((write_to io p data' c).0.messages_sent
                ≡ (p.messages_sent + cost (write_to io p data' c).1 1) % 2 ^ 64)
      go none = (omega arith, omega arith)
      go (some c) = after (record p { conn = some (io.write c data').0 }) (io.write c data').1 h k

  -- After any sequence of calls of WriteMessage, whatever the connection answers, the counts have grown,
  -- in uint64, by the bytes of the messages that were written, with their prefixes, and by the number
  -- of these messages.
  pub write_all_counts :
      (messages : List (List ℕ)) (p : Peer C V)
      → p.bytes_sent < 2 ^ 64
      → p.messages_sent < 2 ^ 64
      → ((write_all p messages).0.bytes_sent
          ≡ (p.bytes_sent + bytes_of messages (write_all p messages).1) % 2 ^ 64)
        × ((write_all p messages).0.messages_sent
            ≡ (p.messages_sent + number_of (write_all p messages).1) % 2 ^ 64)
  unfolding write_all
  write_all_counts [] p h k = (omega arith, omega arith)
  write_all_counts (data' ∷ rest) p h k =
      let (b, n) = write_message-counts p data' h k in
      let q = (write_message io p data').0 in
      let (c, m) = write_all_counts rest q (omega arith) (omega arith) in (omega arith, omega arith)
