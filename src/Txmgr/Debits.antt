-- ===== src/Txmgr/Debits.antt =====
-- masswallet/txmgr/utxostore_db.go: bucketDebits, from a transaction's input to the credit it spends.
pub mod Laws
use mass_net_wallet.Prelude.{ℕ, Option, none, some, ◌++◌, ltb, if◌then◌else◌, length}
use mass_net_wallet.Prelude.Bytes.{Bytes, put_be, slice, field}
use mass_net_wallet.Prelude.Exec.{short, Result, ok, err, Exec, wrap}
use mass_net_wallet.Db.{Bucket}
use mass_net_wallet.Txmgr.{Hash, BlockMeta, Amounts}

unfoldable pub key_debit : Hash → ℕ → BlockMeta → Bytes
key_debit tx_hash index block = tx_hash ++ (put_be 8 block.height ++ (block.hash ++ put_be 4 index))

unfoldable pub value_debit : ℕ → Bytes → Bytes
value_debit amount cred_key = put_be 8 amount ++ field 76 cred_key

-- the answer of existsDebit for what is stored: nil, or the debit's key and the credit's
debit_found : Bytes → Result (Option Bytes) → Result (Option (Bytes × Bytes))
debit_found k (err e) = err e
debit_found k (ok none) = ok none
debit_found k (ok (some v)) = if ltb (length v) 84 then err short else ok (some (k, slice 8 84 v))

module _ {S : Type 0} (ns : Bucket S) where
  unfoldable pub put_debit :
      {A : Type 0} → Amounts A → Hash → ℕ → A → BlockMeta → Bytes → Exec S (Unit {0})
  unfolding value_debit
  put_debit amounts tx_hash index amount block cred_key =
      wrap
        (ns.put (key_debit tx_hash index block) (value_debit (amounts.uint_value amount) cred_key))

  unfoldable pub exists_debit : Hash → ℕ → BlockMeta → S → Result (Option (Bytes × Bytes))
  unfolding debit_found
  exists_debit tx_hash index block s =
      let k = key_debit tx_hash index block in debit_found k (ns.get k s)

  unfoldable pub delete_raw_debit : Bytes → Exec S (Unit {0})
  delete_raw_debit k = wrap (ns.delete k)
