-- ===== src/Protocol/Peers.antt =====
-- pkg/protocol/handlers.go: PeerInfo and the Peers message.
pub mod RoundTrip
pub mod Safety
use lock_free_p2p_go.Prelude.{
  ℕ, zero, suc, ◌+◌, ◌%◌, ◌^◌, ◌<◌, ◌≡◌, ◌⊎◌, List, ◌∷◌, [], ◌++◌, ltb, leb, ◌==◌, not, ◌&&◌,
  length,
}
use lock_free_p2p_go.Run.{Run, ok, too_short, bad_ip_length, ◌>>=◌, ◌>>◌, fail_if}
use lock_free_p2p_go.Bytes.{make, be16, put, copy_at, slice, word_at}
use lock_free_p2p_go.Protocol.Message.{Message, msg_peers}

pub record PeerInfo : Type 0 where
  pub node_id : List ℕ  -- [16]byte
  pub ip : List ℕ
  pub port : ℕ  -- uint16

pub encode_peer_info : PeerInfo → Run (List ℕ)
encode_peer_info p = do
  let buf = make (16 + 1 + length p.ip + 2)
  b0 ← copy_at buf 0 p.node_id
  b1 ← put b0 16 ((length p.ip % 256) ∷ [])
  b2 ← copy_at b1 17 p.ip
  b3 ← put b2 (17 + length p.ip) (be16 p.port)
  ok b3

-- The peer, and the number of bytes that it takes.
pub decode_peer_info : List ℕ → Run (PeerInfo × ℕ)
decode_peer_info data' = do
  fail_if (ltb (length data') 19) too_short
  node_id ← slice data' 0 16
  ip_len ← word_at 1 data' 16
  fail_if (not (ip_len == 4) && not (ip_len == 16)) bad_ip_length
  fail_if (ltb (length data') (17 + ip_len + 2)) too_short
  ip ← slice data' 17 (17 + ip_len)
  port ← word_at 2 data' (17 + ip_len)
  ok (record { node_id = node_id; ip = ip; port = port }, 17 + ip_len + 2)

-- The first loop of `PeersPayload.Encode`, and the size that it adds up.
pub encode_each : List PeerInfo → Run (List (List ℕ))
encode_each [] = ok []
encode_each (p ∷ ps) = do encoded ← encode_peer_info p; rest ← encode_each ps; ok (encoded ∷ rest)

abbrev pub total_size : List (List ℕ) → ℕ
total_size [] = 0
total_size (e ∷ es) = length e + total_size es

-- Its second loop.
unfoldable pub copy_each : List ℕ → ℕ → List (List ℕ) → Run (List ℕ)
copy_each buf offset [] = ok buf
copy_each buf offset (e ∷ es) = copy_at buf offset e >>= λ b. copy_each b (offset + length e) es

pub encode_peers : List PeerInfo → Run (List ℕ)
encode_peers peers = do
  encoded ← encode_each peers
  let buf = make (2 + total_size encoded)
  b0 ← put buf 0 (be16 (length peers))
  copy_each b0 2 encoded

-- The loop of `DecodePeersPayload`, by the rounds that are left.
pub decode_each : ℕ → List ℕ → ℕ → List PeerInfo → Run (List PeerInfo)
decode_each zero data' offset peers = ok peers
decode_each (suc k) data' offset peers = do
  fail_if (leb (length data') offset) too_short
  tail ← slice data' offset (length data')
  (peer, consumed) ← decode_peer_info tail
  decode_each k data' (offset + consumed) (peers ++ peer ∷ [])

pub decode_peers : List ℕ → Run (List PeerInfo)
decode_peers data' = do
  fail_if (ltb (length data') 2) too_short
  peer_count ← word_at 2 data' 0
  decode_each peer_count data' 2 []

unfoldable pub new_peers_message : (List ℕ → ℕ) → List PeerInfo → Run Message
new_peers_message checksum_ieee peers = do
  b ← encode_peers peers
  ok (record { type = msg_peers; payload = b; checksum = checksum_ieee b })

-- The Go types of the fields, and an address of one of the two lengths that the decoder takes.
pub record IsPeer (p : PeerInfo) : Type 0 where
  pub id_length : length p.node_id ≡ 16
  pub ip_length : (length p.ip ≡ 4) ⊎ (length p.ip ≡ 16)
  pub port_fits : p.port < 2 ^ 16
