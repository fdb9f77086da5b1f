-- ===== src/Txmgr/TxRecords/Laws.antt =====
-- Transaction records and unmined transactions are read back as they were written.
use mass_net_wallet.Prelude.{
  ℕ, suc, ◌-◌, ◌≤◌, ◌^◌, ◌<◌, ◌≡◌, refl, sym, ap, ◌∙◌, false, Option, some, ◌++◌, arith, ltb,
  length, drop, drop-append_length, length-append,
}
use mass_net_wallet.Prelude.Bytes.{
  Bytes, put_be, be, slice, be-put_be, length-put_be, slice-append_head, slice-append_skip,
  slice_self, lengths,
}
use mass_net_wallet.Prelude.Exec.{Result, ok, err, and_then, ◌>>=◌}
use mass_net_wallet.Db.{Bucket, IsBucket}
use mass_net_wallet.Db.Rules.{get-put_self}
use mass_net_wallet.Txmgr.{Hash, IsHash, BlockLoc, BlockMeta}
use mass_net_wallet.Txmgr.TxRecords.{
  TxLoc, MsgTxs, IsMsgTxs, key_tx_record, tx_record_value, read_tx_record_loc, value_unmined,
  read_raw_unmined, put_tx_record, exists_tx_record,
}

pub record IsLoc (loc : BlockLoc) (tx_loc : TxLoc) : Type 0 where
  pub file_lt : loc.file < 2 ^ 32
  pub offset_lt : loc.offset < 2 ^ 64
  pub size_lt : loc.size < 2 ^ 64
  pub start_lt : tx_loc.tx_start < 2 ^ 32
  pub len_lt : tx_loc.tx_len < 2 ^ 32

module _ (loc : BlockLoc) (t : TxLoc) (v : IsLoc loc t) where
  after_file : Bytes
  after_file =
      put_be 8 loc.offset ++ (put_be 8 loc.size ++ (put_be 4 t.tx_start ++ put_be 4 t.tx_len))

  after_offset : Bytes
  after_offset = put_be 8 loc.size ++ (put_be 4 t.tx_start ++ put_be 4 t.tx_len)

  after_size : Bytes
  after_size = put_be 4 t.tx_start ++ put_be 4 t.tx_len

  slice-after_file :
      (from to : ℕ)
      → 4 ≤ from
      → slice from to (tx_record_value loc t) ≡ slice (from - 4) (to - 4) after_file
  unfolding tx_record_value after_file
  slice-after_file from to h =
      slice-append_skip from to (put_be 4 loc.file) after_file (length-put_be 4 loc.file) h

  slice-after_offset :
      (from to : ℕ) → 8 ≤ from → slice from to after_file ≡ slice (from - 8) (to - 8) after_offset
  unfolding after_file after_offset
  slice-after_offset from to h =
      slice-append_skip from to (put_be 8 loc.offset) after_offset (length-put_be 8 loc.offset) h

  slice-after_size :
      (from to : ℕ) → 8 ≤ from → slice from to after_offset ≡ slice (from - 8) (to - 8) after_size
  unfolding after_offset after_size
  slice-after_size from to h =
      slice-append_skip from to (put_be 8 loc.size) after_size (length-put_be 8 loc.size) h

  read-file : be (slice 0 4 (tx_record_value loc t)) ≡ loc.file
  unfolding tx_record_value after_file
  read-file =
      ap be (slice-append_head 4 (put_be 4 loc.file) after_file (length-put_be 4 loc.file))
      ∙ be-put_be 4 loc.file v.file_lt

  read-offset : be (slice 4 12 (tx_record_value loc t)) ≡ loc.offset
  unfolding after_file after_offset
  read-offset =
      ap be (
        slice-after_file 4 12 (omega arith)
        ∙ slice-append_head 8 (put_be 8 loc.offset) after_offset (length-put_be 8 loc.offset))
      ∙ be-put_be 8 loc.offset v.offset_lt

  read-size : be (slice 12 20 (tx_record_value loc t)) ≡ loc.size
  unfolding after_offset after_size
  read-size =
      ap be (
        slice-after_file 12 20 (omega arith)
        ∙ slice-after_offset 8 16 (omega arith)
        ∙ slice-append_head 8 (put_be 8 loc.size) after_size (length-put_be 8 loc.size))
      ∙ be-put_be 8 loc.size v.size_lt

  read-start : be (slice 20 24 (tx_record_value loc t)) ≡ t.tx_start
  unfolding after_size
  read-start =
      ap be (
        slice-after_file 20 24 (omega arith)
        ∙ slice-after_offset 16 20 (omega arith)
        ∙ slice-after_size 8 12 (omega arith)
        ∙ slice-append_head 4 (put_be 4 t.tx_start) (put_be 4 t.tx_len)
            (length-put_be 4 t.tx_start))
      ∙ be-put_be 4 t.tx_start v.start_lt

  read-len : be (slice 24 28 (tx_record_value loc t)) ≡ t.tx_len
  unfolding after_size
  read-len =
      ap be (
        slice-after_file 24 28 (omega arith)
        ∙ slice-after_offset 20 24 (omega arith)
        ∙ slice-after_size 12 16 (omega arith)
        ∙ slice-append_skip 4 8 (put_be 4 t.tx_start) (put_be 4 t.tx_len)
            (length-put_be 4 t.tx_start) (omega arith)
        ∙ slice_self 4 (put_be 4 t.tx_len) (length-put_be 4 t.tx_len))
      ∙ be-put_be 4 t.tx_len v.len_lt

  pub length-tx_record_value : length (tx_record_value loc t) ≡ 28
  unfolding tx_record_value
  length-tx_record_value = omega lengths

  pub read-tx_record_value : read_tx_record_loc (tx_record_value loc t) ≡ ok (loc, t)
  unfolding read_tx_record_loc
  read-tx_record_value =
      rw (length-tx_record_value, read-file, read-offset, read-size, read-start, read-len) refl

-- In a ready store putTxRecord succeeds, the record then exists, and the places that it was given,
-- of 32 and 64 bits, are read back from its value.
pub read-put_tx_record :
    {S : Type 0} (ns : Bucket S) {Ready : ℕ → S → Type 0} (laws : IsBucket ns Ready) (n : ℕ)
    (h : Hash) (m : BlockMeta) (loc : BlockLoc) (t : TxLoc) (s : S) {o : Option Bytes}
    → Ready (suc n) s
    → IsHash h
    → IsLoc loc t
    → ns.get (key_tx_record h m) s ≡ ok o
    → ((put_tx_record ns h t m loc s).0 ≡ ok tt)
      × (exists_tx_record ns h m (put_tx_record ns h t m loc s).1
          ≡ (key_tx_record h m, some (tx_record_value loc t)))
      × (read_tx_record_loc (tx_record_value loc t) ≡ ok (loc, t))
unfolding put_tx_record exists_tx_record ◌>>=◌
read-put_tx_record ns laws n h m loc t s r e v g =
    let k = key_tx_record h m in
    let w = tx_record_value loc t in
    let pos : 0 < length k = unfold key_tx_record in omega (lengths, e) in
    let full : 0 < length w = omega (arith, length-tx_record_value loc t v) in
    (
      rw (laws.put_lem n k w s r pos full).0 refl,
      rw (get-put_self ns laws n k s w r pos full g) refl,
      read-tx_record_value loc t v,
    )

with_time :
    (p : Bytes) (r : Result Bytes) {v : Bytes}
    → and_then r (λ (bs : Bytes). ok (p ++ bs)) ≡ ok v
    → (bs : Bytes) × (r ≡ ok bs) × (p ++ bs ≡ v)
with_time p (ok bs) h = (bs, refl, cc)
with_time p (err x) h = cc

-- An unmined transaction and its time, below 2^63, are read back from its value, where wire.MsgTx
-- is read back from its own bytes.
pub read-value_unmined :
    {M : Type 0} (msgs : MsgTxs M) (received : ℕ) (msg : M) {v : Bytes}
    → IsMsgTxs msgs
    → received < 2 ^ 63
    → value_unmined msgs received msg ≡ ok v
    → read_raw_unmined msgs v ≡ ok (received, msg)
unfolding value_unmined read_raw_unmined
read-value_unmined msgs received msg {v} laws small e =
    let p = put_be 8 received in
    let (bs, encoded, same) = with_time p (msgs.bytes msg) e in
    let long : ltb (length (p ++ bs)) 8 ≡ false =
      ground (arith, length-append p bs, length-put_be 8 received) in
    let rest : drop 8 (p ++ bs) ≡ bs =
      ap (λ (k : ℕ). drop k (p ++ bs)) (sym (length-put_be 8 received)) ∙ drop-append_length p bs in
    let time : be (slice 0 8 (p ++ bs)) ≡ received =
      ap be (slice-append_head 8 p bs (length-put_be 8 received))
      ∙ be-put_be 8 received (omega arith) in
    ap (read_raw_unmined msgs) (sym same)
    ∙ rw (long, rest, laws.set_bytes-bytes msg encoded, time) refl
