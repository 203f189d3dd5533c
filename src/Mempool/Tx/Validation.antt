-- ===== src/Mempool/Tx/Validation.antt =====
-- pkg/mempool/tx.go: which transactions `Validate` accepts.
use lock_free_p2p_go.Prelude.{ℕ, ◌≡◌, ◌≢◌, refl, List, arith}
use mathlib.Core.Logic.{◌↔◌}
use lock_free_p2p_go.Run.{ok, ◌>>=◌}
use lock_free_p2p_go.Bytes.{make}
use lock_free_p2p_go.Bytes.Laws.{bytes_eq_iff}
use lock_free_p2p_go.Mempool.Tx.{Tx, IsTx, encode, compute_hash, validate, new_tx, decode_tx}
use lock_free_p2p_go.Mempool.Tx.RoundTrip.{encode-wire, decode_tx-wire}

-- `Validate` accepts exactly the transactions whose Hash field is the hash of their contents, whose
-- gas limit is not zero and whose sender is not the zero address.
pub validate_iff :
    (sha256 : List ℕ → List ℕ) (tx : Tx)
    → (validate sha256 tx ≡ ok tt)
      ↔ ((tx.hash ≡ compute_hash sha256 tx) × (tx.gas_limit ≢ 0) × (tx.from ≢ make 20))
unfolding validate
validate_iff sha256 tx =
    let h = bytes_eq_iff tx.hash (compute_hash sha256 tx) in
    let f = bytes_eq_iff tx.from (make 20) in
    (λ e. ground (arith, h.0, f.1), λ c. ground (arith, h.1, f.0))

-- A transaction that NewTx makes from a sender that is not the zero address, with a gas limit that
-- is not zero, passes `Validate` where it is made, and its bytes decode to one that passes too.
pub new_tx-validate :
    (sha256 : List ℕ → List ℕ) (now : ℕ) (from to : List ℕ) (value nonce price limit : ℕ)
    (payload : List ℕ)
    → IsTx (new_tx sha256 now from to value nonce price limit payload)
    → limit ≢ 0
    → from ≢ make 20
    → (validate sha256 (new_tx sha256 now from to value nonce price limit payload) ≡ ok tt)
      × ((encode (new_tx sha256 now from to value nonce price limit payload) >>= λ b.
            decode_tx sha256 b >>= validate sha256)
          ≡ ok tt)
unfolding new_tx compute_hash
new_tx-validate sha256 now from to value nonce price limit payload v h k =
    let tx = new_tx sha256 now from to value nonce price limit payload in
    let passes : validate sha256 tx ≡ ok tt = (validate_iff sha256 tx).1 (refl, h, k) in
    (passes, rw (encode-wire tx v, decode_tx-wire sha256 tx v) passes)
