-- ===== src/Mempool/Queries.antt =====
-- pkg/mempool/mempool.go: the queries that go through the whole map, in the order `range`.
pub mod Bounds
use lock_free_p2p_go.Prelude.{
  ℕ, zero, suc, ◌+◌, ◌%◌, ◌^◌, Bool, true, false, ◌||◌, ◌&&◌, Option, none, some, List, ◌∷◌, [],
  length, ltb, ◌==◌, if◌then◌else◌,
}
use lock_free_p2p_go.Bytes.{bytes_eq}
use lock_free_p2p_go.Mempool.Tx.{Tx, fee}
use lock_free_p2p_go.Mempool.Pool.{Mempool}

-- The loop of `GetByAddress`
unfoldable pub sent_by : (addr : List ℕ) → List (List ℕ × Tx) → List Tx
sent_by addr [] = []
sent_by addr (e ∷ es) =
    let later = sent_by addr es in if bytes_eq e.1.from addr then e.1 ∷ later else later

-- Whether the loop of `GetNonce` takes a nonce over the one that it has found.
unfoldable pub higher : ℕ → Option ℕ → Bool
higher nonce none = true
higher nonce (some max_nonce) = ltb max_nonce nonce

-- The loop of `GetNonce`: `maxNonce`, once it is found.
unfoldable pub max_nonce_from : (addr : List ℕ) → List (List ℕ × Tx) → Option ℕ → Option ℕ
max_nonce_from addr [] found = found
max_nonce_from addr (e ∷ es) found =
    let taken = bytes_eq e.1.from addr && higher e.1.nonce found in
    max_nonce_from addr es (if taken then some e.1.nonce else found)

-- The last lines of `GetNonce`; `maxNonce + 1` in uint64
unfoldable pub next_nonce : Option ℕ → ℕ
next_nonce none = 0
next_nonce (some max_nonce) = (max_nonce + 1) % 2 ^ 64

pub record Stats : Type 0 where
  pub size : ℕ
  pub max_size : ℕ
  pub total_fees : ℕ  -- uint64
  pub min_gas_price : ℕ  -- uint64
  pub max_gas_price : ℕ  -- uint64

-- One round of the loop of `GetStats`
unfoldable pub count : Stats → Tx → Stats
count s tx = record s {
  total_fees = (s.total_fees + fee tx) % 2 ^ 64;
  min_gas_price =
      if (s.min_gas_price == 0) || ltb tx.gas_price s.min_gas_price
      then tx.gas_price
      else s.min_gas_price;
  max_gas_price = if ltb s.max_gas_price tx.gas_price then tx.gas_price else s.max_gas_price;
}

unfoldable pub count_all : Stats → List (List ℕ × Tx) → Stats
count_all s [] = s
count_all s (e ∷ es) = count_all (count s e.1) es

module _ (range : List (List ℕ × Tx) → List (List ℕ × Tx)) where
  unfoldable pub get_by_address : Mempool → List ℕ → List Tx
  get_by_address mp addr = sent_by addr (range mp.txs)

  unfoldable pub get_nonce : Mempool → List ℕ → ℕ
  get_nonce mp addr = next_nonce (max_nonce_from addr (range mp.txs) none)

  unfoldable pub get_stats : Mempool → Stats
  get_stats mp =
      let s : Stats = record {
        size = length mp.txs;
        max_size = mp.config.max_size;
        total_fees = 0;
        min_gas_price = 0;
        max_gas_price = 0;
      } in
      count_all s (range mp.txs)
