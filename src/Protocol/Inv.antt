-- ===== src/Protocol/Inv.antt =====
-- pkg/protocol/handlers.go, its last part: inventories (Inv), and the requests for them (GetData).
pub mod RoundTrip
pub mod Safety
use lock_free_p2p_go.Prelude.{ℕ, zero, suc, ◌+◌, ◌*◌, ◌<◌, ◌≡◌, List, ◌∷◌, [], ◌++◌, ltb, length}
use lock_free_p2p_go.Run.{Run, ok, too_short, ◌>>=◌, ◌>>◌, fail_if}
use lock_free_p2p_go.Bytes.{make, be16, put, copy_at, slice, word_at}
use lock_free_p2p_go.Protocol.Message.{Message, msg_inv, msg_get_data}

pub record InvItem : Type 0 where
  pub type : ℕ  -- uint8
  pub hash : List ℕ  -- [32]byte

pub encode_inv_item : InvItem → Run (List ℕ)
encode_inv_item i = do
  let buf = make 33
  b0 ← put buf 0 (i.type ∷ [])
  b1 ← copy_at b0 1 i.hash
  ok b1

pub decode_inv_item : List ℕ → Run InvItem
decode_inv_item data' = do
  fail_if (ltb (length data') 33) too_short
  type ← word_at 1 data' 0
  hash ← slice data' 1 33
  ok (record { type = type; hash = hash })

-- The loop of `InvPayload.Encode`.
pub copy_items : List ℕ → ℕ → List InvItem → Run (List ℕ)
copy_items buf offset [] = ok buf
copy_items buf offset (i ∷ items) = do
  encoded ← encode_inv_item i
  b ← copy_at buf offset encoded
  copy_items b (offset + 33) items

pub encode_inv : List InvItem → Run (List ℕ)
encode_inv items = do
  let buf = make (2 + length items * 33)
  b0 ← put buf 0 (be16 (length items))
  copy_items b0 2 items

-- The loop of `DecodeInvPayload`, by the rounds that are left.
pub decode_items : ℕ → List ℕ → ℕ → List InvItem → Run (List InvItem)
decode_items zero data' offset items = ok items
decode_items (suc k) data' offset items = do
  tail ← slice data' offset (length data')
  item ← decode_inv_item tail
  decode_items k data' (offset + 33) (items ++ item ∷ [])

pub decode_inv : List ℕ → Run (List InvItem)
decode_inv data' = do
  fail_if (ltb (length data') 2) too_short
  count ← word_at 2 data' 0
  fail_if (ltb (length data') (2 + count * 33)) too_short
  decode_items count data' 2 []

pub decode_get_data : List ℕ → Run (List InvItem)
decode_get_data = decode_inv

module _ (checksum_ieee : List ℕ → ℕ) where
  pub new_inv_message : List InvItem → Run Message
  new_inv_message items = do
    b ← encode_inv items
    ok (record { type = msg_inv; payload = b; checksum = checksum_ieee b })

  pub new_get_data_message : List InvItem → Run Message
  new_get_data_message items = do
    b ← encode_inv items
    ok (record { type = msg_get_data; payload = b; checksum = checksum_ieee b })

-- The Go types of the fields.
pub record IsItem (i : InvItem) : Type 0 where
  pub type_fits : i.type < 256
  pub hash_length : length i.hash ≡ 32
