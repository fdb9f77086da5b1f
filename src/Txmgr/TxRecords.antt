-- ===== src/Txmgr/TxRecords.antt =====
-- masswallet/txmgr/txstore_db.go: bucketTxRecords, from a transaction and its block to where the
-- node keeps them, and bucketUnmined.
pub mod Laws
use mass_net_wallet.Prelude.{
  ℕ, ◌+◌, ◌≡◌, Bool, true, false, not, ◌||◌, Option, none, some, List, [], ◌∷◌, ◌++◌, ltb, ◌==◌,
  if◌then◌else◌, length, drop,
}
use mass_net_wallet.Prelude.Bytes.{Bytes, put_be, be, slice}
use mass_net_wallet.Prelude.Exec.{
  Error, short, duplicate_record, wrapped, Result, ok, err, Exec, wrap, and_then,
}
use mass_net_wallet.Db.{Entry, Bucket}
use mass_net_wallet.Txmgr.{Hash, BlockLoc, BlockMeta}

-- wire.TxLoc
pub record TxLoc : Type 0 where
  pub tx_start : ℕ
  pub tx_len : ℕ

-- wire.MsgTx, which is not under the repository: its encoding for the database
pub record MsgTxs (M : Type 0) : Type 0 where
  pub bytes : M → Result Bytes
  pub set_bytes : Bytes → Result M

-- SetBytes takes back what Bytes gives.
pub record IsMsgTxs {M : Type 0} (msgs : MsgTxs M) : Type 0 where
  pub set_bytes-bytes : (m : M) {bs : Bytes} → msgs.bytes m ≡ ok bs → msgs.set_bytes bs ≡ ok m

unfoldable pub key_tx_record : Hash → BlockMeta → Bytes
key_tx_record tx_hash block = tx_hash ++ (put_be 8 block.height ++ block.hash)

-- The start and the length are written as uint32.
unfoldable pub tx_record_value : BlockLoc → TxLoc → Bytes
tx_record_value loc tx_loc =
    put_be 4 loc.file
    ++ (put_be 8 loc.offset
        ++ (put_be 8 loc.size ++ (put_be 4 tx_loc.tx_start ++ put_be 4 tx_loc.tx_len)))

unfoldable pub read_tx_record_loc : Bytes → Result (BlockLoc × TxLoc)
read_tx_record_loc v =
    if not (length v == 28)
    then err short
    else ok (
      record { file = be (slice 0 4 v); offset = be (slice 4 12 v); size = be (slice 12 20 v) },
      record { tx_start = be (slice 20 24 v); tx_len = be (slice 24 28 v) },
    )

unfoldable pub read_tx_record_key : Bytes → Result (ℕ × Bytes)
read_tx_record_key k =
    if ltb (length k) 72 then err short else ok (be (slice 32 40 k), slice 40 72 k)

-- what fetchRawTxRecordByHashHeight makes of the entries that it finds
only_entry : List Entry → Result (Option Entry)
only_entry [] = ok none
only_entry (e ∷ []) = ok (some e)
only_entry (e ∷ (f ∷ es)) = err duplicate_record

first_value : List Entry → Option Bytes
first_value [] = none
first_value (e ∷ es) = some e.value

-- the loop of fetchLatestRawTxRecordOfHash
pub latest_loop : ℕ → Option Entry → List Entry → Option Entry
latest_loop found_height found [] = found
latest_loop found_height found (e ∷ es) =
    let h = be (slice 32 40 e.key) in
    latest_loop (if ltb found_height h then h else found_height)
      (if ltb found_height h then some e else found) es

module _ {M : Type 0} (msgs : MsgTxs M) where
  unfoldable pub value_unmined : ℕ → M → Result Bytes
  value_unmined received msg = and_then (msgs.bytes msg) λ bs. ok (put_be 8 received ++ bs)

  unfoldable pub read_raw_unmined : Bytes → Result (ℕ × M)
  read_raw_unmined v = if ltb (length v) 8 then err short else elim (msgs.set_bytes (drop 8 v)) [
    | ok msg ↦ ok (be (slice 0 8 v), msg)
    | err e ↦ err (wrapped e)
  ]

module _ {S : Type 0} (ns : Bucket S) where
  unfoldable pub exists_raw_unmined : Bytes → S → Result (Option Bytes)
  exists_raw_unmined k s = ns.get k s

  unfoldable pub put_raw_unmined : Bytes → Bytes → Exec S (Unit {0})
  put_raw_unmined k v = ns.put k v

  unfoldable pub delete_raw_unmined : Bytes → Exec S (Unit {0})
  delete_raw_unmined k = ns.delete k

  unfoldable pub put_tx_record : Hash → TxLoc → BlockMeta → BlockLoc → Exec S (Unit {0})
  unfolding tx_record_value
  put_tx_record tx_hash tx_loc block loc =
      wrap (ns.put (key_tx_record tx_hash block) (tx_record_value loc tx_loc))

  -- An error of the read is dropped.
  unfoldable pub exists_tx_record : Hash → BlockMeta → S → Bytes × Option Bytes
  exists_tx_record tx_hash block s =
      let k = key_tx_record tx_hash block in (k, elim (ns.get k s) [ ok v ↦ v | err e ↦ none ])

  unfoldable pub fetch_raw_tx_record_by_tx_hash_height : Hash → ℕ → S → Result (Option Bytes)
  unfolding first_value
  fetch_raw_tx_record_by_tx_hash_height tx_hash height s =
      if not (length tx_hash == 32)
      then err short
      else and_then (ns.get_by_prefix (tx_hash ++ put_be 8 height) s) λ es. ok (first_value es)

  unfoldable pub fetch_raw_tx_record_by_hash_height : Hash → ℕ → S → Result (Option Entry)
  unfolding only_entry
  fetch_raw_tx_record_by_hash_height tx_hash height s =
      if not (length tx_hash == 32) || (height == 0)
      then err short
      else and_then (ns.get_by_prefix (tx_hash ++ put_be 8 height) s) λ es. only_entry es

  unfoldable pub fetch_latest_raw_tx_record_of_hash : Hash → S → Result (Option Entry)
  unfolding latest_loop
  fetch_latest_raw_tx_record_of_hash tx_hash s =
      if not (length tx_hash == 32)
      then err short
      else and_then (ns.get_by_prefix tx_hash s) λ es. ok (latest_loop 0 none es)
