-- ===== src/Mempool/Tests.antt =====
-- The theorems on transactions at a concrete one.
use lock_free_p2p_go.Prelude.{ℕ, List, ◌∷◌, [], refl, arith, length, replicate}
use lock_free_p2p_go.Mempool.Tx.{Tx, IsTx, new_tx}

-- A hash function for the tests.
abbrev digest : List ℕ → List ℕ
digest b = replicate 32 (length b)

abbrev sender : List ℕ
sender = replicate 20 1

abbrev a_tx : Tx
a_tx = new_tx digest 1700000000 sender (replicate 20 2) 10 0 3 21000 (7 ∷ 8 ∷ [])

a_tx-IsTx : IsTx a_tx
unfolding new_tx
a_tx-IsTx = record {
  from_length = refl;
  to_length = refl;
  value_fits = omega arith;
  nonce_fits = omega arith;
  price_fits = omega arith;
  limit_fits = omega arith;
  payload_fits = omega arith;
  time_fits = omega arith;
}
