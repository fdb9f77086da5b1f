-- ===== src/Txmgr/Store/Lookup.antt =====
-- masswallet/txmgr/txstore.go: ExistsTx and ExistsUtxo, which find an output of the current wallet's
-- transactions.
use mass_net_wallet.Prelude.{
  ℕ, Bool, true, false, not, Option, none, some, List, [], ◌∷◌, ◌==◌, if◌then◌else◌,
}
use mass_net_wallet.Prelude.Bytes.{Bytes, bytes_eq}
use mass_net_wallet.Prelude.Exec.{unexpected, not_found, Result, ok, err, and_then}
use mass_net_wallet.Prelude.Keeps.{if_nil}
use mass_net_wallet.Db.{Bucket, Entry}
use mass_net_wallet.Txmgr.{Hash, OutPoint, BlockMeta, UtxoFlags, Credit}
use mass_net_wallet.Txmgr.Unspent.{exists_unspent, exists_raw_unmined_input}
use mass_net_wallet.Txmgr.Credits.{
  read_raw_credit_key, read_unmined_credit_key, read_credit_value, blank_credit, exists_raw_credit,
  get_credits_by_tx_hash,
}
use mass_net_wallet.Txmgr.TxRecords.{exists_tx_record, read_tx_record_loc}
use mass_net_wallet.Txmgr.Store.{
  Namespace, ns_tx_records, ns_unspent, ns_unmined_inputs, ns_unmined_credits, ns_credits, Outside,
  is_nil, bytes_of,
}
use mass_net_wallet.Txmgr.Store.Scan.{Visit}

module _ {S M A : Type 0} (outside : Outside M A) (fetch_bucket : Namespace → Bucket S) where
  abbrev start : Credit A
  start = blank_credit outside.money.zero_amount

  -- the first of the entries whose key, as `read` reads it, has the index, with its credit
  unfoldable pub with_index :
      (Bytes → Credit A → Result (Credit A)) → ℕ → List Entry → Result (Option (Credit A × Entry))
  with_index read index [] = ok none
  with_index read index (e ∷ es) =
      let rest = with_index read index es in
      and_then (read e.key start)
        λ cred. if cred.out_point.index == index then ok (some (cred, e)) else rest

  -- the message of a credit's transaction, where the chain has it at its place
  unfoldable pub fetch_msg : S → Credit A → Result (M × BlockMeta)
  fetch_msg s cred =
      and_then
        (read_tx_record_loc (
          bytes_of
            (exists_tx_record (fetch_bucket ns_tx_records) cred.out_point.hash cred.block s).1))
        λ locs. and_then (outside.fetch_tx_by_loc cred.block.height locs.1) λ msg.
          if bytes_eq (outside.tx_hash msg) cred.out_point.hash
          then ok (msg, cred.block)
          else err not_found

  -- ExistsTx at an output that is spent, or not mined
  exists_tx_of_credits : S → OutPoint → Result (M × BlockMeta)
  unfolding with_index fetch_msg
  exists_tx_of_credits s out =
      and_then (get_credits_by_tx_hash (fetch_bucket ns_credits) out.hash s) λ entries.
        and_then (with_index read_raw_credit_key out.index entries)
          λ found. if_nil found (err not_found) (λ x. fetch_msg s x.0)

  unfoldable pub exists_tx : OutPoint → S → Result (M × BlockMeta)
  unfolding exists_tx_of_credits fetch_msg
  exists_tx out s =
      and_then (exists_unspent (fetch_bucket ns_unspent) outside.current_account out s) λ found.
        if_nil found.1 (exists_tx_of_credits s out)
          (λ cred_key. and_then (read_raw_credit_key cred_key start) λ cred. fetch_msg s cred)

  -- The flags of a value that must be spent, or not: the flag of the pool is looked up under the key of
  -- the unspent output.
  unfoldable pub flags_of_value : Bytes → Bool → Bool → Bytes → S → Result UtxoFlags
  flags_of_value usp_key spent unmined v s =
      and_then (read_credit_value outside.amounts v start) λ cred.
        if if spent then cred.flags.spent else not cred.flags.spent
        then ok (record (cred.flags) {
          spent_by_unmined =
              not (is_nil (exists_raw_unmined_input (fetch_bucket ns_unmined_inputs) usp_key s));
          is_unmined = unmined;
        })
        else err unexpected

  -- the unmined credits, which are looked at only where the hash has no mined credit
  unmined_flags : Bytes → OutPoint → S → Result UtxoFlags
  unfolding with_index flags_of_value
  unmined_flags usp_key out s =
      and_then (get_credits_by_tx_hash (fetch_bucket ns_unmined_credits) out.hash s) λ entries.
        and_then (with_index read_unmined_credit_key out.index entries)
          λ found. if_nil found (err not_found) (λ x. flags_of_value usp_key false true x.1.value s)

  no_entries : List Entry → Bool
  no_entries [] = true
  no_entries (e ∷ es) = false

  spent_flags : Bytes → OutPoint → S → Result UtxoFlags
  unfolding with_index flags_of_value unmined_flags no_entries
  spent_flags usp_key out s =
      and_then (get_credits_by_tx_hash (fetch_bucket ns_credits) out.hash s) λ entries.
        and_then (with_index read_raw_credit_key out.index entries) λ found.
          if_nil found (if no_entries entries then unmined_flags usp_key out s else err not_found)
            (λ x. flags_of_value usp_key true false x.1.value s)

  unfoldable pub exists_utxo : OutPoint → S → Result UtxoFlags
  unfolding spent_flags flags_of_value
  exists_utxo out s =
      and_then (exists_unspent (fetch_bucket ns_unspent) outside.current_account out s) λ found.
        if_nil found.1 (spent_flags found.0 out s) (λ cred_key.
          and_then (exists_raw_credit (fetch_bucket ns_credits) cred_key s)
            λ value. if_nil value (err unexpected) (λ v. flags_of_value found.0 false false v s))

  -- UtxoStore.ExistCreditFromTx: whether an iterator over the credits visits an entry under the hash
  unfoldable pub exist_credit_from_tx : Hash → (Bytes → S → Visit) → S → Bool
  unfolding no_entries
  exist_credit_from_tx tx_hash iterator s = not (no_entries (iterator tx_hash s).entries)
