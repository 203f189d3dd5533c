-- ===== src/Protocol/Inv/RoundTrip.antt =====
-- pkg/protocol/handlers.go: an inventory, decoded after it was encoded.
use lock_free_p2p_go.Prelude.{
  ℕ, ◌+◌, ◌*◌, ◌^◌, ◌<◌, ◌≡◌, refl, sym, ap, ◌∙◌, List, ◌∷◌, [], ◌++◌, arith, length, length-append,
  append-nil, append_assoc, ltb, false, All,
}
use lock_free_p2p_go.Run.{ok, ◌>>=◌}
use lock_free_p2p_go.Bytes.{be16, make}
use lock_free_p2p_go.Bytes.Laws.{slice_middle, copy_next, put_next}
use lock_free_p2p_go.Bytes.Writes.{putting, copying, writes, writes_fill}
use lock_free_p2p_go.Bytes.Reads.{field8, field16, slice_field}
use lock_free_p2p_go.Protocol.Inv.{
  InvItem, IsItem, encode_inv_item, decode_inv_item, copy_items, encode_inv, decode_items,
  decode_inv,
}

abbrev pub item_wire : InvItem → List ℕ → List ℕ
item_wire i rest = (i.type ∷ []) ++ (i.hash ++ rest)

abbrev pub items_wire : List InvItem → List ℕ → List ℕ
items_wire [] rest = rest
items_wire (i ∷ is) rest = item_wire i (items_wire is rest)

item_wire-append : (i : InvItem) (t : List ℕ) → item_wire i [] ++ t ≡ item_wire i t
item_wire-append i t = simp append_assoc

length-item_wire : (i : InvItem) (t : List ℕ) → IsItem i → length (item_wire i t) ≡ 33 + length t
length-item_wire i t v = let n = v.hash_length in omega (arith, length-append i.hash t)

encode_inv_item-wire : (i : InvItem) → IsItem i → encode_inv_item i ≡ ok (item_wire i [])
unfolding encode_inv_item writes
encode_inv_item-wire i v =
    writes_fill ((putting, 0, i.type ∷ []) ∷ (copying, 1, i.hash) ∷ []) 33 (omega arith)
      (omega (arith, length-item_wire i [] v))

decode_inv_item-wire :
    (i : InvItem) (t : List ℕ) → IsItem i → decode_inv_item (item_wire i t) ≡ ok i
unfolding decode_inv_item
decode_inv_item-wire i t v =
    let n = v.hash_length in
    let fits : ltb (length (item_wire i t)) 33 ≡ false = ground (arith, length-item_wire i t v) in
    rw (
      fits,
      field8 [] i.type (i.hash ++ t) 0 refl,
      slice_field ((i.type ∷ []) ∷ []) i.hash t 1 33 refl (omega arith),
    )

copy_items-wire :
    (pre : List ℕ) (is : List InvItem) (off k : ℕ)
    → All IsItem is
    → off ≡ length pre
    → k ≡ length is * 33
    → copy_items (pre ++ make k) off is ≡ ok (pre ++ items_wire is [])
unfolding copy_items
copy_items-wire pre [] off k v h e = let done : k ≡ 0 = omega arith in rw done
copy_items-wire pre (i ∷ is) off k v h e =
    let w = item_wire i [] in
    let size = length-item_wire i [] v.0 in
    let room : k ≡ length w + length is * 33 = omega (arith, size) in
    let behind : (pre ++ w) ++ items_wire is [] ≡ pre ++ item_wire i (items_wire is []) =
      append_assoc pre w (items_wire is [])
      ∙ ap (◌++◌ pre) (item_wire-append i (items_wire is [])) in
    rw (room, encode_inv_item-wire i v.0, copy_next pre w (length is * 33) off h, ← behind)
      (copy_items-wire (pre ++ w) is (off + 33) (length is * 33) v.1
        (omega (arith, size, length-append pre w)) refl)

encode_inv-wire :
    (is : List InvItem) → All IsItem is → encode_inv is ≡ ok (be16 (length is) ++ items_wire is [])
unfolding encode_inv
encode_inv-wire is v =
    let room : 2 + length is * 33 ≡ length (be16 (length is)) + length is * 33 = refl in
    rw (room, put_next [] (be16 (length is)) (length is * 33) 0 refl)
      (copy_items-wire (be16 (length is)) is 2 (length is * 33) v refl refl)

decode_items-wire :
    (is acc : List InvItem) (front rest : List ℕ) (off : ℕ)
    → All IsItem is
    → off ≡ length front
    → decode_items (length is) (front ++ items_wire is rest) off acc ≡ ok (acc ++ is)
unfolding decode_items
decode_items-wire [] acc front rest off v h = rw (append-nil acc)
decode_items-wire (i ∷ is) acc front rest off v h =
    let t = items_wire is rest in
    let data' = front ++ item_wire i t in
    let size = length-append front (item_wire i t) in
    let split : data' ≡ (front ++ item_wire i []) ++ t =
      ap (◌++◌ front) (sym (item_wire-append i t)) ∙ sym (append_assoc front (item_wire i []) t) in
    rw
      (
        slice_middle data' front (item_wire i t) [] off (length data')
            (ap (◌++◌ front) (sym (append-nil (item_wire i t)))) h (omega (arith, size)),
        decode_inv_item-wire i t v.0,
        split,
      )
      (decode_items-wire is (acc ++ i ∷ []) (front ++ item_wire i []) rest (off + 33) v.1
          (omega (arith, length-append front (item_wire i []), length-item_wire i [] v.0))
        ∙ ap ok (append_assoc acc (i ∷ []) is))

items_wire-append :
    (is : List InvItem) (rest : List ℕ) → items_wire is [] ++ rest ≡ items_wire is rest
items_wire-append [] rest = refl
items_wire-append (i ∷ is) rest =
    ap (λ t. t ++ rest) (sym (item_wire-append i (items_wire is [])))
    ∙ append_assoc (item_wire i []) (items_wire is []) rest
    ∙ ap (◌++◌ (item_wire i [])) (items_wire-append is rest)
    ∙ item_wire-append i (items_wire is rest)

length-items_wire :
    (is : List InvItem) (rest : List ℕ)
    → All IsItem is
    → length (items_wire is rest) ≡ length is * 33 + length rest
length-items_wire [] rest v = omega arith
length-items_wire (i ∷ is) rest v =
    omega (arith, length-item_wire i (items_wire is rest) v.0, length-items_wire is rest v.1)

-- DecodeInvPayload, and with it DecodeGetDataPayload, reads back every list of at most 65535 items
-- that Encode writes, in its order, whatever bytes stand behind it.
pub decode_inv-encode_inv :
    (is : List InvItem) (rest : List ℕ)
    → All IsItem is
    → length is < 2 ^ 16
    → (encode_inv is >>= λ b. decode_inv (b ++ rest)) ≡ ok is
unfolding decode_inv
decode_inv-encode_inv is rest v h =
    let data' = be16 (length is) ++ items_wire is rest in
    let fits : ltb (length data') 2 ≡ false = ground arith in
    let enough : ltb (length data') (2 + length is * 33) ≡ false =
      ground (arith, length-items_wire is rest v) in
    rw
      (
        encode_inv-wire is v,
        items_wire-append is rest,
        fits,
        field16 [] (length is) (items_wire is rest) 0 refl h,
        enough,
      )
      (decode_items-wire is [] (be16 (length is)) rest 2 v refl)
