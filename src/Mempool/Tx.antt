-- ===== src/Mempool/Tx.antt =====
-- pkg/mempool/tx.go: a transaction, its hash, its validation and its bytes. SHA-256 is Go's
-- crypto/sha256: the parameter `sha256`. A Timestamp is its `uint64(UnixNano())`, and a ReceivedAt is
-- `none` while it is Go's zero time.
pub mod RoundTrip
pub mod Validation
use lock_free_p2p_go.Prelude.{
  ℕ, ◌+◌, ◌-◌, ◌*◌, ◌/◌, ◌%◌, ◌^◌, ◌<◌, ◌≡◌, List, ◌∷◌, [], ◌++◌, Bool, true, false, not, ltb, ◌==◌,
  ◌&&◌, Option, none, some, length, if◌then◌else◌,
}
use lock_free_p2p_go.Run.{
  Run, ok, err, data_too_small, data_size_mismatch, hash_mismatch, zero_gas_limit, zero_sender,
  ◌>>=◌, ◌>>◌, fail_if,
}
use lock_free_p2p_go.Bytes.{make, bytes_eq, be32, be64, put, copy_at, slice, word_at}

pub record Tx : Type 0 where
  pub hash : List ℕ  -- [32]byte
  pub from : List ℕ  -- [20]byte
  pub to : List ℕ  -- [20]byte
  pub value : ℕ  -- uint64
  pub nonce : ℕ  -- uint64
  pub gas_price : ℕ  -- uint64
  pub gas_limit : ℕ  -- uint64
  pub payload : List ℕ  -- Data
  pub timestamp : ℕ
  pub received_at : Option ℕ

-- `Fee`: the product in uint64
unfoldable pub fee : Tx → ℕ
fee tx = (tx.gas_price * tx.gas_limit) % 2 ^ 64

-- `time.Since(t)` in nanoseconds at the time `now`: a Duration stops at 2^63 - 1, which the time since
-- Go's zero time exceeds. It is 0 for a time in the future, which no caller tells from a negative one.
unfoldable pub since : (now : ℕ) → Option ℕ → ℕ
since now none = 2 ^ 63 - 1
since now (some t) = let gone = now - t in if ltb gone (2 ^ 63) then gone else 2 ^ 63 - 1

-- `Priority` at the time `now`: the gas price and the whole seconds waited, the sum in uint64. The
-- seconds go through a float64, which is taken as exact.
unfoldable pub priority : (now : ℕ) → Tx → ℕ
priority now tx = (tx.gas_price + since now tx.received_at / 1000000000) % 2 ^ 64

unfoldable pub size : Tx → ℕ
size tx = 72 + length tx.payload + 50

pub encode : Tx → Run (List ℕ)
encode tx = do
  let n = length tx.payload
  let buf = make (20 + 20 + 8 + 8 + 8 + 8 + 4 + n + 8)
  b0 ← copy_at buf 0 tx.from
  b1 ← copy_at b0 20 tx.to
  b2 ← put b1 40 (be64 tx.value)
  b3 ← put b2 48 (be64 tx.nonce)
  b4 ← put b3 56 (be64 tx.gas_price)
  b5 ← put b4 64 (be64 tx.gas_limit)
  b6 ← put b5 72 (be32 n)
  b7 ← copy_at b6 76 tx.payload
  b8 ← put b7 (76 + n) (be64 tx.timestamp)
  ok b8

-- `time.Now()` is the argument `now`.
module _ (sha256 : List ℕ → List ℕ) where
  -- The writes to the hasher, one after the other.
  unfoldable pub compute_hash : Tx → List ℕ
  compute_hash tx = sha256 (
      tx.from
      ++ (tx.to
          ++ (be64 tx.value
              ++ (be64 tx.nonce
                  ++ (be64 tx.gas_price
                      ++ (be64 tx.gas_limit ++ (tx.payload ++ be64 tx.timestamp)))))))

  unfoldable pub new_tx :
      (now : ℕ) (from to : List ℕ) (value nonce gas_price gas_limit : ℕ) → List ℕ → Tx
  new_tx now from to value nonce gas_price gas_limit payload =
      let tx : Tx = record {
        hash = make 32;
        from = from;
        to = to;
        value = value;
        nonce = nonce;
        gas_price = gas_price;
        gas_limit = gas_limit;
        payload = payload;
        timestamp = now;
        received_at = none;
      } in
      record tx { hash = compute_hash tx }

  unfoldable pub validate : Tx → Run (Unit {0})
  validate tx = do
    fail_if (not (bytes_eq tx.hash (compute_hash tx))) hash_mismatch
    fail_if (tx.gas_limit == 0) zero_gas_limit
    fail_if (bytes_eq tx.from (make 20)) zero_sender

  pub decode_tx : List ℕ → Run Tx
  decode_tx data' = do
    fail_if (ltb (length data') 84) data_too_small
    from ← slice data' 0 20
    to ← slice data' 20 40
    value ← word_at 8 data' 40
    nonce ← word_at 8 data' 48
    gas_price ← word_at 8 data' 56
    gas_limit ← word_at 8 data' 64
    n ← word_at 4 data' 72
    fail_if (ltb (length data') (76 + n + 8)) data_size_mismatch
    payload ← slice data' 76 (76 + n)
    timestamp ← word_at 8 data' (76 + n)
    let tx : Tx = record {
      hash = make 32;
      from = from;
      to = to;
      value = value;
      nonce = nonce;
      gas_price = gas_price;
      gas_limit = gas_limit;
      payload = payload;
      timestamp = timestamp;
      received_at = none;
    }
    ok (record tx { hash = compute_hash tx })

-- The Go types of the fields that are encoded, and a length that fits four bytes.
pub record IsTx (tx : Tx) : Type 0 where
  pub from_length : length tx.from ≡ 20
  pub to_length : length tx.to ≡ 20
  pub value_fits : tx.value < 2 ^ 64
  pub nonce_fits : tx.nonce < 2 ^ 64
  pub price_fits : tx.gas_price < 2 ^ 64
  pub limit_fits : tx.gas_limit < 2 ^ 64
  pub payload_fits : length tx.payload < 2 ^ 32
  pub time_fits : tx.timestamp < 2 ^ 64
