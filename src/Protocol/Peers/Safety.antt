-- ===== src/Protocol/Peers/Safety.antt =====
-- pkg/protocol/handlers.go: the peer decoders on any bytes.
use lock_free_p2p_go.Prelude.{
  ℕ, zero, suc, ◌+◌, ◌-◌, ◌≤◌, ◌≡◌, ◌⊎◌, inl, inr, List, ◌∷◌, [], ◌++◌, arith, length,
  length-append, ltb, leb, ◌==◌, ◌&&◌, not, Bool-cases, take, drop, All,
}
use lock_free_p2p_go.Run.{Run, ok, err, Error, too_short, bad_ip_length, ◌>>=◌}
use lock_free_p2p_go.Bytes.{word}
use lock_free_p2p_go.Bytes.Laws.{slice_in_bounds, length_slice, word_at_in_bounds}
use lock_free_p2p_go.Protocol.Peers.{PeerInfo, decode_peer_info, decode_each, decode_peers}

-- The result of `decode_peer_info` on d: an error, or a peer with a 16-byte id and an address of
-- 4 or 16 bytes, which takes no more bytes than there are.
pub data Parsed (d : List ℕ) : Run (PeerInfo × ℕ) → Type 0 where
  refused : (e : Error) → Parsed d (err e)
  parsed :
      (p : PeerInfo) (n : ℕ)
      → length p.node_id ≡ 16
      → (length p.ip ≡ 4) ⊎ (length p.ip ≡ 16)
      → n ≡ 19 + length p.ip
      → n ≤ length d
      → Parsed d (ok (p, n))

-- DecodePeerInfo never panics: it refuses its input, or returns a peer whose node id has sixteen
-- bytes and whose address has 4 or 16, with the number of bytes that the peer takes, which are there.
pub decode_peer_info-Parsed : (data' : List ℕ) → Parsed data' (decode_peer_info data')
unfolding decode_peer_info
decode_peer_info-Parsed data' = elim (Bool-cases (ltb (length data') 19)) [
  | inl short ↦ rw short (refused too_short)
  | inr fits ↦
      let size : 19 ≤ length data' = ground arith in
      let n = word 0 (take 1 (drop 16 data')) in
      let start = slice_in_bounds data' 0 16 (omega arith) (omega arith) in
      let len = word_at_in_bounds 1 data' 16 (omega arith) in
      elim (Bool-cases (not (n == 4) && not (n == 16))) [
        | inl other ↦ rw (fits, start, len, other) (refused bad_ip_length)
        | inr kind ↦ elim (Bool-cases (ltb (length data') (17 + n + 2))) [
          | inl cut ↦ rw (fits, start, len, kind, cut) (refused too_short)
          | inr enough ↦
              let whole : 17 + n + 2 ≤ length data' = ground arith in
              let ip_size = length_slice data' 17 (17 + n) (omega arith) (omega arith) in
              rw
                (
                  fits,
                  start,
                  len,
                  kind,
                  enough,
                  slice_in_bounds data' 17 (17 + n) (omega arith) (omega arith),
                  word_at_in_bounds 2 data' (17 + n) whole,
                )
                (parsed _ _ (length_slice data' 0 16 (omega arith) (omega arith))
                  (ground (arith, ip_size)) (omega (arith, ip_size)) whole)
        ]
      ]
]

abbrev pub IsWellFormed : PeerInfo → Type 0
IsWellFormed p = (length p.node_id ≡ 16) × ((length p.ip ≡ 4) ⊎ (length p.ip ≡ 16))

-- An error, or a list of n well-formed peers.
pub data Listed (n : ℕ) : Run (List PeerInfo) → Type 0 where
  refused : (e : Error) → Listed n (err e)
  listed : (ps : List PeerInfo) → length ps ≡ n → All IsWellFormed ps → Listed n (ok ps)

Listed-bind :
    {d : List ℕ} {r : Run (PeerInfo × ℕ)} (n : ℕ) (f : PeerInfo × ℕ → Run (List PeerInfo))
    → Parsed d r
    → ((p : PeerInfo) (k : ℕ) → IsWellFormed p → Listed n (f (p, k)))
    → Listed n (r >>= f)
Listed-bind n f (Parsed.refused e) h = Listed.refused e
Listed-bind n f (Parsed.parsed p k i a s l) h = h p k (i, a)

All-append_last :
    (ps : List PeerInfo) (p : PeerInfo)
    → All IsWellFormed ps
    → IsWellFormed p
    → All IsWellFormed (ps ++ p ∷ [])
All-append_last [] p h k = (k, tt)
All-append_last (q ∷ ps) p h k = (h.0, All-append_last ps p h.1 k)

decode_each-Listed :
    (k : ℕ) (data' : List ℕ) (offset : ℕ) (acc : List PeerInfo) (n : ℕ)
    → length acc + k ≡ n
    → All IsWellFormed acc
    → Listed n (decode_each k data' offset acc)
unfolding decode_each
decode_each-Listed zero data' offset acc n e h = listed acc (omega arith) h
decode_each-Listed (suc k) data' offset acc n e h = elim (Bool-cases (leb (length data') offset)) [
  | inl done ↦ rw done (Listed.refused too_short)
  | inr more ↦
      let tail = take (length data' - offset) (drop offset data') in
      rw (more, slice_in_bounds data' offset (length data') (ground arith) (omega arith))
        (Listed-bind n _ (decode_peer_info-Parsed tail) λ p m good.
          decode_each-Listed k data' (offset + m) (acc ++ p ∷ []) n
            (omega (arith, length-append acc (p ∷ []))) (All-append_last acc p h good))
]

-- DecodePeersPayload never panics: it refuses its input, or returns exactly as many peers as the
-- first two bytes announce, each with a 16-byte node id and an address of 4 or 16 bytes.
pub decode_peers-Listed : (data' : List ℕ) → Listed (word 0 (take 2 data')) (decode_peers data')
unfolding decode_peers
decode_peers-Listed data' = elim (Bool-cases (ltb (length data') 2)) [
  | inl short ↦ rw short (Listed.refused too_short)
  | inr fits ↦
      rw (fits, word_at_in_bounds 2 data' 0 (ground arith))
        (decode_each-Listed (word 0 (take 2 data')) data' 2 [] _ (omega arith) tt)
]
