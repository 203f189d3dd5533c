-- ===== src/Protocol/Peers/RoundTrip.antt =====
-- pkg/protocol/handlers.go: a list of peers, decoded after it was encoded.
use lock_free_p2p_go.Prelude.{
  ℕ, ◌*◌, ◌≤◌, ◌+◌, ◌%◌, ◌^◌, ◌<◌, ◌≡◌, refl, sym, ap, ◌∙◌, List, ◌∷◌, [], ◌++◌, arith, length,
  length-append, append-nil, append_assoc, ltb, leb, ◌==◌, ◌&&◌, not, false, All, map,
}
use lock_free_p2p_go.Run.{ok, ◌>>=◌}
use lock_free_p2p_go.Bytes.{be16, make}
use lock_free_p2p_go.Bytes.Laws.{slice_middle, copy_next, put_next}
use lock_free_p2p_go.Bytes.Writes.{putting, copying, writes, writes_fill}
use lock_free_p2p_go.Bytes.Reads.{field8, field16, slice_field}
use lock_free_p2p_go.Protocol.Peers.{
  PeerInfo, IsPeer, encode_peer_info, decode_peer_info, encode_each, total_size, copy_each,
  encode_peers, decode_each, decode_peers,
}

-- Node id, length of the address, address, port, and what follows.
abbrev pub peer_wire : PeerInfo → List ℕ → List ℕ
peer_wire p rest = p.node_id ++ ((length p.ip ∷ []) ++ (p.ip ++ (be16 p.port ++ rest)))

abbrev pub peers_wire : List PeerInfo → List ℕ → List ℕ
peers_wire [] rest = rest
peers_wire (p ∷ ps) rest = peer_wire p (peers_wire ps rest)

peer_wire-append : (p : PeerInfo) (t : List ℕ) → peer_wire p [] ++ t ≡ peer_wire p t
peer_wire-append p t = simp append_assoc

pub length-peer_wire :
    (p : PeerInfo) (t : List ℕ) → IsPeer p → length (peer_wire p t) ≡ 19 + length p.ip + length t
length-peer_wire p t v =
    let n = v.id_length in
    omega (
      arith,
      length-append p.node_id ((length p.ip ∷ []) ++ (p.ip ++ (be16 p.port ++ t))),
      length-append p.ip (be16 p.port ++ t),
    )

encode_peer_info-wire : (p : PeerInfo) → IsPeer p → encode_peer_info p ≡ ok (peer_wire p [])
unfolding encode_peer_info writes
encode_peer_info-wire p v =
    let n = v.id_length in
    let byte : length p.ip % 256 ≡ length p.ip = omega (arith, v.ip_length) in
    rw byte (
      writes_fill
        ((copying, 0, p.node_id)
          ∷ (putting, 16, length p.ip ∷ [])
          ∷ (copying, 17, p.ip)
          ∷ (putting, 17 + length p.ip, be16 p.port)
          ∷ [])
        (16 + 1 + length p.ip + 2) (omega arith) (omega (arith, length-peer_wire p [] v)))

decode_peer_info-wire :
    (p : PeerInfo) (t : List ℕ)
    → IsPeer p
    → decode_peer_info (peer_wire p t) ≡ ok (p, 17 + length p.ip + 2)
unfolding decode_peer_info
decode_peer_info-wire p t v =
    let n = v.id_length in
    let size = length-peer_wire p t v in
    let fits : ltb (length (peer_wire p t)) 19 ≡ false = ground (arith, size) in
    let kind : (not (length p.ip == 4) && not (length p.ip == 16)) ≡ false =
      ground (arith, v.ip_length) in
    let enough : ltb (length (peer_wire p t)) (17 + length p.ip + 2) ≡ false =
      ground (arith, size) in
    rw (
      fits,
      slice_field [] p.node_id ((length p.ip ∷ []) ++ (p.ip ++ (be16 p.port ++ t))) 0 16 refl
          (omega arith),
      field8 (p.node_id ∷ []) (length p.ip) (p.ip ++ (be16 p.port ++ t)) 16 (omega arith),
      kind,
      enough,
      slice_field (p.node_id ∷ (length p.ip ∷ []) ∷ []) p.ip (be16 p.port ++ t) 17
          (17 + length p.ip) (omega arith) refl,
      field16 (p.node_id ∷ (length p.ip ∷ []) ∷ p.ip ∷ []) p.port t (17 + length p.ip) (omega arith)
          v.port_fits,
    )

encode_each-wire :
    (ps : List PeerInfo) → All IsPeer ps → encode_each ps ≡ ok (map (λ p. peer_wire p []) ps)
unfolding encode_each
encode_each-wire [] v = refl
encode_each-wire (p ∷ ps) v = rw (encode_peer_info-wire p v.0, encode_each-wire ps v.1)

-- The second loop fills the zeros behind `pre`.
copy_each-wire :
    (pre : List ℕ) (ps : List PeerInfo) (off k : ℕ)
    → off ≡ length pre
    → k ≡ total_size (map (λ p. peer_wire p []) ps)
    → copy_each (pre ++ make k) off (map (λ p. peer_wire p []) ps) ≡ ok (pre ++ peers_wire ps [])
unfolding copy_each
copy_each-wire pre [] off k h e = rw e
copy_each-wire pre (p ∷ ps) off k h e =
    let w = peer_wire p [] in
    let rest = total_size (map (λ (q : PeerInfo). peer_wire q []) ps) in
    let behind : (pre ++ w) ++ peers_wire ps [] ≡ pre ++ peer_wire p (peers_wire ps []) =
      append_assoc pre w (peers_wire ps [])
      ∙ ap (◌++◌ pre) (peer_wire-append p (peers_wire ps [])) in
    rw (e, copy_next pre w rest off h, ← behind)
      (copy_each-wire (pre ++ w) ps (off + length w) rest (omega (arith, length-append pre w)) refl)

pub encode_peers-wire :
    (ps : List PeerInfo)
    → All IsPeer ps
    → encode_peers ps ≡ ok (be16 (length ps) ++ peers_wire ps [])
unfolding encode_peers
encode_peers-wire ps v =
    let k = total_size (map (λ (q : PeerInfo). peer_wire q []) ps) in
    rw (encode_each-wire ps v, put_next [] (be16 (length ps)) k 0 refl)
      (copy_each-wire (be16 (length ps)) ps 2 k refl refl)

decode_each-wire :
    (ps acc : List PeerInfo) (front rest : List ℕ) (off : ℕ)
    → All IsPeer ps
    → off ≡ length front
    → decode_each (length ps) (front ++ peers_wire ps rest) off acc ≡ ok (acc ++ ps)
unfolding decode_each
decode_each-wire [] acc front rest off v h = rw (append-nil acc)
decode_each-wire (p ∷ ps) acc front rest off v h =
    let t = peers_wire ps rest in
    let data' = front ++ peer_wire p t in
    let size = length-append front (peer_wire p t) in
    let more : leb (length data') off ≡ false = ground (arith, size, length-peer_wire p t v.0) in
    let split : data' ≡ (front ++ peer_wire p []) ++ t =
      ap (◌++◌ front) (sym (peer_wire-append p t)) ∙ sym (append_assoc front (peer_wire p []) t) in
    rw
      (
        more,
        slice_middle data' front (peer_wire p t) [] off (length data')
            (ap (◌++◌ front) (sym (append-nil (peer_wire p t)))) h (omega (arith, size)),
        decode_peer_info-wire p t v.0,
        split,
      )
      (decode_each-wire ps (acc ++ p ∷ []) (front ++ peer_wire p []) rest
          (off + (17 + length p.ip + 2)) v.1
          (omega (arith, length-append front (peer_wire p []), length-peer_wire p [] v.0))
        ∙ ap ok (append_assoc acc (p ∷ []) ps))

peers_wire-append :
    (ps : List PeerInfo) (rest : List ℕ) → peers_wire ps [] ++ rest ≡ peers_wire ps rest
peers_wire-append [] rest = refl
peers_wire-append (p ∷ ps) rest =
    ap (λ t. t ++ rest) (sym (peer_wire-append p (peers_wire ps [])))
    ∙ append_assoc (peer_wire p []) (peers_wire ps []) rest
    ∙ ap (◌++◌ (peer_wire p [])) (peers_wire-append ps rest)
    ∙ peer_wire-append p (peers_wire ps rest)

-- DecodePeersPayload reads back every list of at most 65535 peers with IPv4 or IPv6 addresses that
-- Encode writes, in its order, whatever bytes stand behind it.
pub decode_peers-encode_peers :
    (ps : List PeerInfo) (rest : List ℕ)
    → All IsPeer ps
    → length ps < 2 ^ 16
    → (encode_peers ps >>= λ b. decode_peers (b ++ rest)) ≡ ok ps
unfolding decode_peers
decode_peers-encode_peers ps rest v h =
    let data' = be16 (length ps) ++ peers_wire ps rest in
    let fits : ltb (length data') 2 ≡ false = ground arith in
    rw
      (
        encode_peers-wire ps v,
        peers_wire-append ps rest,
        fits,
        field16 [] (length ps) (peers_wire ps rest) 0 refl h,
      )
      (decode_each-wire ps [] (be16 (length ps)) rest 2 v refl)

-- The same, read from the bytes.
pub decode_peers-wire :
    (ps : List PeerInfo)
    → All IsPeer ps
    → length ps < 2 ^ 16
    → decode_peers (be16 (length ps) ++ peers_wire ps []) ≡ ok ps
decode_peers-wire ps v h =
    let b = be16 (length ps) ++ peers_wire ps [] in
    ap decode_peers (sym (append-nil b))
    ∙ (rw (encode_peers-wire ps v) at (decode_peers-encode_peers ps [] v h))

-- A peer takes at most 35 bytes.
pub length-peers_wire :
    (ps : List PeerInfo) → All IsPeer ps → length (peers_wire ps []) ≤ 35 * length ps
length-peers_wire [] v = omega arith
length-peers_wire (p ∷ ps) v =
    omega
      (arith, length-peer_wire p (peers_wire ps []) v.0, length-peers_wire ps v.1, v.0.ip_length)
