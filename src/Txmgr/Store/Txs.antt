-- ===== src/Txmgr/Store/Txs.antt =====
-- masswallet/txmgr/txstore.go: what happens to the buckets when a transaction arrives, in a block or
-- from the pool, and when one in conflict with a mined one is removed. A map's writes before an error
-- are dropped: every caller gives the error up.
use mass_net_wallet.Prelude.{ℕ, Bool, not, Option, none, some, List, if◌then◌else◌}
use mass_net_wallet.Prelude.Bytes.{Bytes, bytes_eq}
use mass_net_wallet.Prelude.Exec.{
  unexpected, chain_reorg, ok, Exec, pure, raise, lift, reads, guard, ◌>>=◌, ◌>>◌,
}
use mass_net_wallet.Prelude.Keeps.{if_nil}
use mass_net_wallet.Db.{Bucket}
use mass_net_wallet.Txmgr.{Hash, BlockLoc, BlockMeta}
use mass_net_wallet.Txmgr.Balances.{Balance}
use mass_net_wallet.Txmgr.Blocks.{
  exists_block_record, put_block_record, put_raw_block_record, append_raw_block_record,
  read_block_hash_from_value,
}
use mass_net_wallet.Txmgr.TxRecords.{
  exists_raw_unmined, delete_raw_unmined, exists_tx_record, put_tx_record,
}
use mass_net_wallet.Txmgr.Store.{
  Namespace, ns_unmined, ns_tx_records, ns_blocks, TxRecord, Outside, is_nil,
}
use mass_net_wallet.Txmgr.Store.Utxo.{add_credits, delete_unmined_credits}
use mass_net_wallet.Txmgr.Store.Spends.{update_mined_balance}
use mass_net_wallet.Txmgr.Store.Unmined.{insert_mem_pool_tx, remove_double_spends}

module _ {S M A : Type 0} (outside : Outside M A) (fetch_bucket : Namespace → Bucket S) where
  -- the block record with one more transaction
  unfoldable pub append_block_record : Hash → Bytes × Option Bytes → BlockMeta → Exec S (Unit {0})
  append_block_record tx_hash found block =
      if_nil found.1 (put_block_record (fetch_bucket ns_blocks) block tx_hash) (λ v.
        lift (append_raw_block_record v tx_hash) >>= λ w.
        put_raw_block_record (fetch_bucket ns_blocks) found.0 w)

  -- the last part of insertMinedTx: the transaction is in the pool no more
  unfoldable pub leave_pool : ℕ → TxRecord M → Exec S (Unit {0})
  unfolding remove_double_spends
  leave_pool fuel rec = do
    v ← reads (exists_raw_unmined (fetch_bucket ns_unmined) rec.hash)
    if is_nil v
        then pure tt
        else (delete_unmined_credits outside fetch_bucket rec
            >> delete_raw_unmined (fetch_bucket ns_unmined) rec.hash)
    remove_double_spends outside fetch_bucket fuel rec

  -- insertMinedTx, of a transaction that has no record yet
  unfoldable pub insert_new_tx :
      ℕ → TxRecord M → BlockMeta → BlockLoc → List (Balance A) → Exec S (List (Balance A))
  unfolding append_block_record update_mined_balance leave_pool
  insert_new_tx fuel rec block loc balances = do
    found ← reads (exists_block_record (fetch_bucket ns_blocks) block.height)
    append_block_record rec.hash found block
    put_tx_record (fetch_bucket ns_tx_records) rec.hash rec.tx_loc block loc
    balances' ← update_mined_balance outside fetch_bucket rec block balances
    leave_pool fuel rec
    pure balances'

  unfoldable pub insert_mined_tx :
      ℕ → TxRecord M → BlockMeta → BlockLoc → List (Balance A) → Exec S (List (Balance A))
  unfolding insert_new_tx
  insert_mined_tx fuel rec block loc balances = do
    recorded ← reads (λ s. ok (exists_tx_record (fetch_bucket ns_tx_records) rec.hash block s))
    if is_nil recorded.1 then insert_new_tx fuel rec block loc balances else pure balances

  -- Beside a block stands its place, which is a field of BlockMeta.
  unfoldable pub insert_tx :
      ℕ → TxRecord M → Option (BlockMeta × BlockLoc) → List (Balance A) → Exec S (List (Balance A))
  unfolding insert_mem_pool_tx insert_mined_tx
  insert_tx fuel rec block balances =
      if_nil block (insert_mem_pool_tx outside fetch_bucket rec >> pure balances)
        (λ b. insert_mined_tx fuel rec b.0 b.1 balances)

  unfoldable pub block_of : Option (BlockMeta × BlockLoc) → Option BlockMeta
  block_of none = none
  block_of (some b) = some b.0

  unfoldable pub add_relevant_tx :
      ℕ → TxRecord M → Option (BlockMeta × BlockLoc) → List (Balance A) → Exec S (List (Balance A))
  unfolding insert_tx block_of
  add_relevant_tx fuel rec block balances = insert_tx fuel rec block balances >>= λ balances'.
      add_credits outside fetch_bucket rec (block_of block) balances'

  -- insertMinedTxForImporting: the block record, checked against the block
  unfoldable pub import_block_record :
      Hash → Bool → Bytes × Option Bytes → BlockMeta → Exec S (Unit {0})
  import_block_record tx_hash exists found block =
      if_nil found.1
        (if exists
          then raise unexpected
          else put_block_record (fetch_bucket ns_blocks) block tx_hash)
        (λ v. do
          block_hash ← lift (read_block_hash_from_value v)
          guard (bytes_eq block.hash block_hash) chain_reorg
          if exists
              then pure tt
              else (lift (append_raw_block_record v tx_hash) >>= λ w.
                  put_raw_block_record (fetch_bucket ns_blocks) found.0 w))

  unfoldable pub insert_mined_tx_for_importing :
      TxRecord M → BlockMeta → BlockLoc → List (Balance A) → Exec S (List (Balance A))
  unfolding import_block_record update_mined_balance
  insert_mined_tx_for_importing rec block loc balances = do
    recorded ← reads (λ s. ok (exists_tx_record (fetch_bucket ns_tx_records) rec.hash block s))
    let exists = not (is_nil recorded.1)
    found ← reads (exists_block_record (fetch_bucket ns_blocks) block.height)
    import_block_record rec.hash exists found block
    if exists
        then pure tt
        else put_tx_record (fetch_bucket ns_tx_records) rec.hash rec.tx_loc block loc
    update_mined_balance outside fetch_bucket rec block balances

  unfoldable pub add_relevant_tx_for_importing :
      TxRecord M → BlockMeta → BlockLoc → List (Balance A) → Exec S (List (Balance A))
  unfolding insert_mined_tx_for_importing
  add_relevant_tx_for_importing rec block loc balances =
      insert_mined_tx_for_importing rec block loc balances >>= λ balances'.
      add_credits outside fetch_bucket rec (some block) balances'
