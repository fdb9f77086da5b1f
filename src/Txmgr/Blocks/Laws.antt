-- ===== src/Txmgr/Blocks/Laws.antt =====
-- A block record holds its block and its transactions in the order that they were appended in.
use mass_net_wallet.Prelude.{
  ℕ, suc, ◌+◌, ◌*◌, ◌%◌, ◌^◌, ◌<◌, ◌≡◌, refl, sym, ap, ◌∙◌, false, Option, some, List, [], ◌∷◌,
  ◌++◌, arith, ltb, length, take, drop, All, length-append, append_assoc, append-nil,
  take-append_length, drop-append_length, replicate,
}
use mass_net_wallet.Prelude.Bytes.{
  Bytes, put_be, be, slice, field, be-put_be, length-put_be, slice-append_head, slice-append_skip,
  slice_self, lengths,
}
use mass_net_wallet.Prelude.Exec.{ok, ◌>>=◌}
use mass_net_wallet.Db.{Bucket, IsBucket}
use mass_net_wallet.Db.Rules.{get-put_self}
use mass_net_wallet.Txmgr.{Hash, IsHash, BlockMeta, IsBlockMeta}
use mass_net_wallet.Txmgr.Blocks.{
  key_block_record, value_block_record, append_raw_block_record, append_all, transactions_from,
  read_raw_block_record, update_block_record, fetch_block_record,
}

concat : List Hash → Bytes
concat [] = []
concat (h ∷ hs) = h ++ concat hs

-- the value of a block with some transactions
block_value : BlockMeta → ℕ → Bytes → Bytes
block_value m n hashes = m.hash ++ (put_be 8 m.timestamp ++ (put_be 4 n ++ hashes))

concat-append : (hs : List Hash) (h : Hash) → concat (hs ++ (h ∷ [])) ≡ concat hs ++ h
unfolding concat
concat-append [] h = append-nil h
concat-append (g ∷ hs) h =
    ap (λ (t : Bytes). g ++ t) (concat-append hs h) ∙ sym (append_assoc g (concat hs) h)

length-concat : (hs : List Hash) → All IsHash hs → length (concat hs) ≡ 32 * length hs
unfolding concat
length-concat [] a = refl
length-concat (h ∷ hs) a = omega (arith, length-append h (concat hs), length-concat hs a.1, a.0)

-- the bytes before the count
head_of : BlockMeta → Bytes
head_of m = m.hash ++ put_be 8 m.timestamp

length-head_of : (m : BlockMeta) → IsBlockMeta m → length (head_of m) ≡ 40
unfolding head_of
length-head_of m v = omega (lengths, v.hash_len)

module _ (m : BlockMeta) (v : IsBlockMeta m) (n : ℕ) (hashes : Bytes) where
  length-block_value : length (block_value m n hashes) ≡ 44 + length hashes
  unfolding block_value
  length-block_value = omega (lengths, v.hash_len)

  slice-block_value_hash : slice 0 32 (block_value m n hashes) ≡ m.hash
  unfolding block_value
  slice-block_value_hash =
      slice-append_head 32 m.hash (put_be 8 m.timestamp ++ (put_be 4 n ++ hashes)) v.hash_len

  slice-block_value_time : slice 32 40 (block_value m n hashes) ≡ put_be 8 m.timestamp
  unfolding block_value
  slice-block_value_time =
      slice-append_skip 32 40 m.hash (put_be 8 m.timestamp ++ (put_be 4 n ++ hashes)) v.hash_len
        (omega arith)
      ∙ slice-append_head 8 (put_be 8 m.timestamp) (put_be 4 n ++ hashes)
          (length-put_be 8 m.timestamp)

  slice-block_value_count : slice 40 44 (block_value m n hashes) ≡ put_be 4 n
  unfolding block_value
  slice-block_value_count =
      slice-append_skip 40 44 m.hash (put_be 8 m.timestamp ++ (put_be 4 n ++ hashes)) v.hash_len
        (omega arith)
      ∙ slice-append_skip 8 12 (put_be 8 m.timestamp) (put_be 4 n ++ hashes)
          (length-put_be 8 m.timestamp) (omega arith)
      ∙ slice-append_head 4 (put_be 4 n) hashes (length-put_be 4 n)

  block_value-head_of : block_value m n hashes ≡ head_of m ++ (put_be 4 n ++ hashes)
  unfolding block_value head_of
  block_value-head_of = sym (append_assoc m.hash (put_be 8 m.timestamp) (put_be 4 n ++ hashes))

  take-block_value : take 40 (block_value m n hashes) ≡ head_of m
  take-block_value =
      ap (take 40) block_value-head_of
      ∙ ap (λ (k : ℕ). take k (head_of m ++ (put_be 4 n ++ hashes))) (sym (length-head_of m v))
      ∙ take-append_length (head_of m) (put_be 4 n ++ hashes)

  drop-block_value : drop 44 (block_value m n hashes) ≡ hashes
  unfolding head_of
  drop-block_value =
      let front : Bytes = head_of m ++ put_be 4 n in
      let len : length front ≡ 44 = omega (lengths, length-head_of m v) in
      ap (drop 44) (block_value-head_of ∙ sym (append_assoc (head_of m) (put_be 4 n) hashes))
      ∙ ap (λ (k : ℕ). drop k (front ++ hashes)) (sym len)
      ∙ drop-append_length front hashes

block_value-append :
    (m : BlockMeta) (n : ℕ) (hashes h : Bytes)
    → block_value m n hashes ++ h ≡ block_value m n (hashes ++ h)
unfolding block_value
block_value-append m n hashes h = rw (append_assoc, append_assoc, append_assoc) refl

-- Appending a transaction to a record.
append-block_value :
    (m : BlockMeta) (hs : List Hash) (h : Hash)
    → IsBlockMeta m
    → length hs + 1 < 2 ^ 32
    → append_raw_block_record (block_value m (length hs) (concat hs)) h
      ≡ ok (block_value m (length (hs ++ (h ∷ []))) (concat (hs ++ (h ∷ []))))
unfolding append_raw_block_record
append-block_value m hs h v room =
    let n = length hs in
    let long : ltb (length (block_value m n (concat hs))) 44 ≡ false =
      ground (arith, length-block_value m v n (concat hs)) in
    let count : (be (slice 40 44 (block_value m n (concat hs ++ h))) + 1) % 2 ^ 32 ≡ n + 1 =
      rw (slice-block_value_count m v n (concat hs ++ h), be-put_be 4 n (omega arith))
        (omega arith) in
    let next : length (hs ++ (h ∷ [])) ≡ n + 1 = length-append hs (h ∷ []) in
    rw
      (
        long,
        block_value-append m n (concat hs) h,
        take-block_value m v n (concat hs ++ h),
        count,
        drop-block_value m v n (concat hs ++ h),
        concat-append hs h,
        next,
      )
      (ap ok (sym (block_value-head_of m v (n + 1) (concat hs ++ h))))

append_all-block_value :
    (m : BlockMeta) (hs gs : List Hash)
    → IsBlockMeta m
    → length hs + length gs < 2 ^ 32
    → append_all (block_value m (length hs) (concat hs)) gs
      ≡ ok (block_value m (length (hs ++ gs)) (concat (hs ++ gs)))
unfolding append_all
append_all-block_value m hs [] v room = rw (append-nil hs) refl
append_all-block_value m hs (g ∷ gs) v room =
    let next : length (hs ++ (g ∷ [])) ≡ length hs + 1 = length-append hs (g ∷ []) in
    rw (append-block_value m hs g v (omega arith)) (
      append_all-block_value m (hs ++ (g ∷ [])) gs v (omega (arith, next))
      ∙ rw (append_assoc hs (g ∷ []) gs) refl)

field-append : (h rest : Bytes) → IsHash h → field 32 (h ++ rest) ≡ h
unfolding field
field-append h rest e =
    ap (take 32) (append_assoc h rest (replicate 32 0))
    ∙ ap (λ (k : ℕ). take k (h ++ (rest ++ replicate 32 0))) (sym e)
    ∙ take-append_length h (rest ++ replicate 32 0)

drop-append : (h rest : Bytes) → IsHash h → drop 32 (h ++ rest) ≡ rest
drop-append h rest e = ap (λ (k : ℕ). drop k (h ++ rest)) (sym e) ∙ drop-append_length h rest

transactions_from-concat :
    (hs : List Hash) → All IsHash hs → transactions_from (length hs) (concat hs) ≡ hs
unfolding transactions_from concat
transactions_from-concat [] a = refl
transactions_from-concat (h ∷ hs) a =
    rw
      (
        field-append h (concat hs) a.0,
        drop-append h (concat hs) a.0,
        transactions_from-concat hs a.1,
      )
      refl

read-block_value :
    (m : BlockMeta) (hs : List Hash)
    → IsBlockMeta m
    → m.timestamp < 2 ^ 64
    → All IsHash hs
    → length hs < 2 ^ 32
    → read_raw_block_record (key_block_record m.height) (block_value m (length hs) (concat hs))
      ≡ ok (record { block = m; transactions = hs })
unfolding read_raw_block_record key_block_record
read-block_value m hs v time a room =
    let n = length hs in
    let w = block_value m n (concat hs) in
    let len : length w ≡ 44 + 32 * n =
      length-block_value m v n (concat hs) ∙ ap (λ (k : ℕ). 44 + k) (length-concat hs a) in
    let short_key : ltb (length (put_be 8 m.height)) 8 ≡ false =
      ground (arith, length-put_be 8 m.height) in
    let long : ltb (length w) 44 ≡ false = ground (arith, len) in
    let whole : ltb (length w) (44 + 32 * n) ≡ false = ground (arith, len) in
    let count : be (slice 40 44 w) ≡ n =
      ap be (slice-block_value_count m v n (concat hs)) ∙ be-put_be 4 n room in
    let height : be (slice 0 8 (put_be 8 m.height)) ≡ m.height =
      ap be (slice_self 8 (put_be 8 m.height) (length-put_be 8 m.height))
      ∙ be-put_be 8 m.height v.height_lt in
    let stamp : be (slice 32 40 w) ≡ m.timestamp =
      ap be (slice-block_value_time m v n (concat hs)) ∙ be-put_be 8 m.timestamp time in
    rw
      (
        short_key,
        count,
        long,
        whole,
        height,
        stamp,
        slice-block_value_hash m v n (concat hs),
        drop-block_value m v n (concat hs),
        transactions_from-concat hs a,
      )
      refl

value_block_record-block_value :
    (m : BlockMeta) (h : Hash) → value_block_record m h ≡ block_value m 1 (concat (h ∷ []))
unfolding value_block_record block_value concat
value_block_record-block_value m h = rw (append-nil h) refl

-- In a ready store, for a block with a 64-bit time and from one to 2^32 - 1 transactions with
-- 32-byte hashes, updateBlockRecord succeeds, and fetchBlockRecord then gives back the block and
-- its transactions in their order.
pub fetch-update_block_record :
    {S : Type 0} (ns : Bucket S) {Ready : ℕ → S → Type 0} (laws : IsBucket ns Ready) (n : ℕ)
    (m : BlockMeta) (h : Hash) (hs : List Hash) (s : S) {o : Option Bytes}
    → Ready (suc n) s
    → IsBlockMeta m
    → m.timestamp < 2 ^ 64
    → All IsHash (h ∷ hs)
    → length (h ∷ hs) < 2 ^ 32
    → ns.get (key_block_record m.height) s ≡ ok o
    → ((update_block_record ns m (h ∷ hs) s).0 ≡ ok tt)
      × (fetch_block_record ns m.height (update_block_record ns m (h ∷ hs) s).1
          ≡ ok (some (record { block = m; transactions = h ∷ hs })))
unfolding update_block_record fetch_block_record ◌>>=◌
fetch-update_block_record ns laws n m h hs s r v time a room g =
    let k = key_block_record m.height in
    let all : List Hash = h ∷ hs in
    let w = block_value m (length all) (concat all) in
    let made : append_all (value_block_record m h) hs ≡ ok w =
      ap (λ (t : Bytes). append_all t hs) (value_block_record-block_value m h)
      ∙ append_all-block_value m (h ∷ []) hs v (omega (arith, room)) in
    let pos : 0 < length k = unfold key_block_record in omega (arith, length-put_be 8 m.height) in
    let full : 0 < length w = omega (arith, length-block_value m v (length all) (concat all)) in
    rw made (
      (laws.put_lem n k w s r pos full).0,
      rw (get-put_self ns laws n k s w r pos full g, read-block_value m all v time a room) refl,
    )
