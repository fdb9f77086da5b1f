-- ===== src/Txmgr/Store/Wallets.antt =====
-- masswallet/txmgr/txstore.go and utxostore.go: RemoveRelevantTx, which takes out of the stores what only a
-- removed wallet needs. Go visits its maps in any order, so their entries are lists here.
use mass_net_wallet.Prelude.{
  ℕ, ◌+◌, Bool, true, false, not, ◌||◌, Option, none, some, List, [], ◌∷◌, ◌++◌, leb, ◌==◌,
  if◌then◌else◌, length,
}
use mass_net_wallet.Prelude.Bytes.{Bytes, bytes_eq}
use mass_net_wallet.Prelude.Exec.{
  unexpected, Result, ok, err, Exec, pure, raise, lift, reads, ◌>>=◌, ◌>>◌,
}
use mass_net_wallet.Prelude.Keeps.{for_each, for_with, if_nil}
use mass_net_wallet.Db.{Bucket, Entry}
use mass_net_wallet.Txmgr.{Hash, Credit}
use mass_net_wallet.Txmgr.Unspent.{canonical_out_point, delete_raw_unmined_input}
use mass_net_wallet.Txmgr.Credits.{
  read_raw_credit_key, read_unmined_credit_key, read_credit_value, read_credit_spender,
  delete_raw_credit, delete_raw_unmined_credit, blank_credit,
}
use mass_net_wallet.Txmgr.Debits.{delete_raw_debit}
use mass_net_wallet.Txmgr.Blocks.{
  exists_block_record, read_raw_block_record, delete_block_record, update_block_record,
}
use mass_net_wallet.Txmgr.TxRecords.{
  exists_raw_unmined, read_raw_unmined, delete_raw_unmined, fetch_raw_tx_record_by_hash_height,
  read_tx_record_loc, read_tx_record_key,
}
use mass_net_wallet.Txmgr.Store.{
  Namespace, ns_unmined, ns_tx_records, ns_blocks, ns_unmined_inputs, ns_unmined_credits,
  ns_credits, ns_debits, PkScript, TxOut, Outside, len, bytes_of,
}
use mass_net_wallet.Txmgr.Store.Utxo.{is_unsupported}
use mass_net_wallet.Txmgr.Store.Scan.{Visit, contains, unless_failed}

-- an entry of a map from hashes to heights, and one from heights to sets of hashes
pub record TxHeight : Type 0 where
  pub tx_hash : Hash
  pub height : ℕ

pub record Removed : Type 0 where
  pub height : ℕ
  pub hashes : List Hash

unfoldable pub height_of : Hash → List TxHeight → Option ℕ
height_of h [] = none
height_of h (t ∷ ts) = if bytes_eq t.tx_hash h then some t.height else height_of h ts

unfoldable pub set_height : Hash → ℕ → List TxHeight → List TxHeight
set_height h n [] = record { tx_hash = h; height = n } ∷ []
set_height h n (t ∷ ts) =
    if bytes_eq t.tx_hash h then record { tx_hash = h; height = n } ∷ ts else t ∷ set_height h n ts

unfoldable pub add_removed : ℕ → Hash → List Removed → List Removed
add_removed height h [] = record { height = height; hashes = h ∷ [] } ∷ []
add_removed height h (r ∷ rs) =
    if r.height == height
    then record { height = height; hashes = h ∷ r.hashes } ∷ rs
    else r ∷ add_removed height h rs

unfoldable pub insert_hash : Hash → List Hash → List Hash
insert_hash h hs = if contains hs h then hs else hs ++ (h ∷ [])

-- exist && hgt != height
other_height : Option ℕ → ℕ → Bool
other_height none n = false
other_height (some m) n = not (m == n)

-- the hashes that are not in the set
unfoldable pub without_hashes : List Hash → List Hash → List Hash
without_hashes hashes [] = []
without_hashes hashes (h ∷ hs) =
    let rest = without_hashes hashes hs in if contains hashes h then rest else h ∷ rest

-- _ = deleteRawUnminedInput(...)
ignore_error : {S : Type 0} → Exec S (Unit {0}) → Exec S (Unit {0})
ignore_error m s = (ok tt, (m s).1)

module _ {S M A : Type 0} (outside : Outside M A) (fetch_bucket : Namespace → Bucket S) where
  -- no address of another wallet of the key store among the outputs
  unfoldable pub is_foreign : Result Bytes → Bool
  is_foreign (ok account) = false
  is_foreign (err e) = true

  unfoldable pub removable_script : List Bytes → Result PkScript → Result Bool
  unfolding is_unsupported contains is_foreign
  removable_script scripts (err e) = if is_unsupported e then ok true else err e
  removable_script scripts (ok ps) = ok (
      contains scripts ps.std_script_address
      || is_foreign (outside.account_of_address ps.std_encode_address))

  -- It stops at the first output of another wallet.
  unfoldable pub removable_outputs : List Bytes → List TxOut → Result Bool
  unfolding removable_script
  removable_outputs scripts [] = ok true
  removable_outputs scripts (o ∷ os) =
      let rest = removable_outputs scripts os in
      elim (removable_script scripts (outside.parse_pk_script o.pk_script)) [
        | ok true ↦ rest
        | ok false ↦ ok false
        | err e ↦ err e
      ]

  unfoldable pub removable_tx_for_remove_wallet : M → List Bytes → Result Bool
  unfolding removable_outputs
  removable_tx_for_remove_wallet msg scripts = removable_outputs scripts (outside.tx_out msg)

  -- a round of checkBlockRecordAfterTxRemoved
  unfoldable pub check_block_record : Removed → Exec S (Unit {0})
  unfolding without_hashes
  check_block_record removed = do
    found ← reads (exists_block_record (fetch_bucket ns_blocks) removed.height)
    if_nil found.1 (pure tt) (λ v. do
      blk_rec ← lift (read_raw_block_record found.0 v)
      let new_blk_txs = without_hashes removed.hashes blk_rec.transactions
      if length new_blk_txs == 0
          then delete_block_record (fetch_bucket ns_blocks) removed.height
          else update_block_record (fetch_bucket ns_blocks) blk_rec.block new_blk_txs)

  unfoldable pub check_block_record_after_tx_removed : List Removed → Exec S (Unit {0})
  unfolding check_block_record
  check_block_record_after_tx_removed = for_each check_block_record

  -- the deletions of removeRelevantCredit for one credit
  delete_relevant : Entry → Credit A → Exec S (Unit {0})
  unfolding ignore_error
  delete_relevant e cred = do
    delete_raw_credit (fetch_bucket ns_credits) e.key
    ignore_error (
        delete_raw_unmined_input (fetch_bucket ns_unmined_inputs)
          (canonical_out_point cred.out_point.hash cred.out_point.index))
    if cred.flags.spent
        then if_nil (read_credit_spender e.value) (raise unexpected)
            (λ k. delete_raw_debit (fetch_bucket ns_debits) k)
        else pure tt

  -- At most 20000 credits are deleted in a call, and of a transaction only those of one height.
  unfoldable pub relevant_loop :
      List Bytes → ℕ → List TxHeight → List Entry → Exec S (List TxHeight × Bool)
  unfolding delete_relevant height_of set_height other_height
  relevant_loop scripts count heights [] = pure (heights, true)
  relevant_loop scripts count heights (e ∷ es) = do
    keyed ← lift (read_raw_credit_key e.key (blank_credit outside.money.zero_amount))
    cred ← lift (read_credit_value outside.amounts e.value keyed)
    if not (contains scripts cred.script_hash)
        then relevant_loop scripts count heights es
        else (if leb 20000 count
              || other_height (height_of cred.out_point.hash heights) cred.block.height
            then pure (heights, false)
            else (delete_relevant e cred
                >> relevant_loop scripts (count + 1)
                    (set_height cred.out_point.hash cred.block.height heights) es))

  unfoldable pub remove_relevant_credit : List Bytes → (S → Visit) → Exec S (List TxHeight × Bool)
  unfolding relevant_loop unless_failed
  remove_relevant_credit scripts iterator s =
      if length scripts == 0
      then (ok ([], true), s)
      else (let visit = iterator s in
          let (r, s') = relevant_loop scripts 0 [] visit.entries s in
          (unless_failed visit.failure r, s'))

  -- a round of removeRelevantUnminedCredit
  relevant_unmined : List Bytes → Entry → List Hash → Exec S (List Hash)
  unfolding ignore_error insert_hash
  relevant_unmined scripts e txs = do
    keyed ← lift (read_unmined_credit_key e.key (blank_credit outside.money.zero_amount))
    cred ← lift (read_credit_value outside.amounts e.value keyed)
    if contains scripts cred.script_hash
        then (do
          delete_raw_unmined_credit (fetch_bucket ns_unmined_credits) e.key
          ignore_error (
              delete_raw_unmined_input (fetch_bucket ns_unmined_inputs)
                (canonical_out_point cred.out_point.hash cred.out_point.index))
          pure (insert_hash cred.out_point.hash txs))
        else pure txs

  unfoldable pub remove_relevant_unmined_credit : List Bytes → (S → Visit) → Exec S (List Hash)
  unfolding relevant_unmined unless_failed
  remove_relevant_unmined_credit scripts iterator s =
      if length scripts == 0
      then (ok [], s)
      else (let visit = iterator s in
          let (r, s') = for_with (relevant_unmined scripts) visit.entries [] s in
          (unless_failed visit.failure r, s'))

  -- RemoveRelevantTx, at an unmined transaction that had a credit of the wallet
  remove_unmined : List Bytes → Hash → List Hash → Exec S (List Hash)
  unfolding removable_tx_for_remove_wallet
  remove_unmined scripts h deleted = do
    v ← reads (exists_raw_unmined (fetch_bucket ns_unmined) h)
    if len v == 0 then pure deleted else (do
      read ← lift (read_raw_unmined outside.msgs (bytes_of v))
      removable ← lift (removable_tx_for_remove_wallet read.1 scripts)
      if removable
          then (delete_raw_unmined (fetch_bucket ns_unmined) h >> pure (deleted ++ (h ∷ [])))
          else pure deleted)

  -- RemoveRelevantTx, at a mined transaction that had one
  remove_mined :
      List Bytes → TxHeight → List Hash × List Removed → Exec S (List Hash × List Removed)
  unfolding removable_tx_for_remove_wallet add_removed
  remove_mined scripts t (deleted, blocks) = do
    found ←
        reads (fetch_raw_tx_record_by_hash_height (fetch_bucket ns_tx_records) t.tx_hash t.height)
    if_nil found (pure (deleted, blocks)) (λ item. do
      locs ← lift (read_tx_record_loc item.value)
      msg ← lift (outside.fetch_tx_by_file_loc locs.0 locs.1)
      removable ← lift (removable_tx_for_remove_wallet msg scripts)
      if removable
          then (do
            (fetch_bucket ns_tx_records).delete item.key
            key ← lift (read_tx_record_key item.key)
            pure (deleted ++ (t.tx_hash ∷ []), add_removed key.0 t.tx_hash blocks))
          else pure (deleted, blocks))

  -- `scripts` are those of the wallet's addresses; the iterators are those of the two buckets. It gives
  -- the hashes of the deleted transactions, and whether nothing is left to do.
  unfoldable pub remove_relevant_tx :
      List Bytes → (S → Visit) → (S → Visit) → Exec S (List Hash × Bool)
  unfolding remove_relevant_unmined_credit remove_unmined remove_relevant_credit remove_mined
      check_block_record_after_tx_removed
  remove_relevant_tx scripts unmined_credits credits =
      if length scripts == 0 then pure ([], true) else (do
        unmined_hashes ← remove_relevant_unmined_credit scripts unmined_credits
        deleted ← for_with (remove_unmined scripts) unmined_hashes []
        found ← remove_relevant_credit scripts credits
        removed ← for_with (remove_mined scripts) found.0 (deleted, [])
        check_block_record_after_tx_removed removed.1
        pure (removed.0, found.1))
