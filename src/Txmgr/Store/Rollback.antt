-- ===== src/Txmgr/Store/Rollback.antt =====
-- masswallet/txmgr/txstore.go: Rollback, which takes the blocks from the last one down to a height out of
-- the stores. Its loop counts down in uint64: the caller, disconnectBlock, refuses height 0.
use mass_net_wallet.Prelude.{ℕ, zero, suc, ◌+◌, ◌-◌, not, ◌||◌, List, [], ◌∷◌, ◌++◌, if◌then◌else◌}
use mathlib.Core.List.{reverse}
use mass_net_wallet.Prelude.Bytes.{Bytes, bytes_eq}
use mass_net_wallet.Prelude.Exec.{
  unexpected, no_synced_block, Result, ok, err, Exec, pure, raise, lift, reads, guard, ◌>>=◌, ◌>>◌,
}
use mass_net_wallet.Prelude.Keeps.{for_each, for_with, if_nil}
use mass_net_wallet.Db.{Bucket}
use mass_net_wallet.Txmgr.{Hash, BlockLoc, BlockMeta}
use mass_net_wallet.Txmgr.Balances.{fetch_all_mined_balance, update_mined_balances}
use mass_net_wallet.Txmgr.Unspent.{canonical_out_point}
use mass_net_wallet.Txmgr.Blocks.{fetch_block_record, delete_block_record}
use mass_net_wallet.Txmgr.TxRecords.{TxLoc, exists_tx_record, read_tx_record_loc, put_raw_unmined}
use mass_net_wallet.Txmgr.Sync.{fetch_synced_to}
use mass_net_wallet.Txmgr.Store.{
  Namespace, ns_unmined, ns_tx_records, ns_blocks, ns_mined_balance, ns_sync_bucket_name, Outside,
  indexed_from, bytes_of,
}
use mass_net_wallet.Txmgr.Store.Unmined.{for_spenders, remove_conflict}
use mass_net_wallet.Txmgr.Store.Undoing.{Undo, undo_coin_base_output, undo_input, undo_output}

-- curHeight, from the top down, for so many rounds
unfoldable pub heights_down : ℕ → ℕ → List ℕ
heights_down zero top = []
heights_down (suc rounds) top = top ∷ heights_down rounds (top - 1)

module _ {S M A : Type 0} (outside : Outside M A) (fetch_bucket : Namespace → Bucket S) where
  -- a transaction that goes back to the pool; `rec_val` is the value of its record
  unfoldable pub undo_spending : ℕ → Hash → BlockMeta → Bytes → M → Undo A → Exec S (Undo A)
  unfolding undo_input undo_output
  undo_spending cur_height tx_hash block rec_val msg undo = do
    put_raw_unmined (fetch_bucket ns_unmined) tx_hash rec_val
    undo' ←
        for_with (undo_input outside fetch_bucket tx_hash block)
          (indexed_from 0 (outside.tx_in msg)) undo
    for_with (undo_output outside fetch_bucket cur_height tx_hash block)
        (indexed_from 0 (outside.tx_out msg)) undo'

  -- A transaction whose place could not be read is left as it is.
  unfoldable pub undo_located :
      ℕ → BlockMeta → Hash → Bytes → Bytes → Undo A → Result (BlockLoc × TxLoc) → Exec S (Undo A)
  unfolding undo_spending undo_coin_base_output
  undo_located cur_height block tx_hash rec_key rec_val undo (err e) = pure undo
  undo_located cur_height block tx_hash rec_key rec_val undo (ok locs) = do
    msg ← lift (outside.fetch_tx_by_file_loc locs.0 locs.1)
    guard (not outside.dev_mode || bytes_eq (outside.tx_hash msg) tx_hash) unexpected
    (fetch_bucket ns_tx_records).delete rec_key
    if outside.is_coin_base msg
        then for_with (undo_coin_base_output outside fetch_bucket cur_height tx_hash block)
            (indexed_from 0 (outside.tx_out msg)) undo
        else undo_spending cur_height tx_hash block rec_val msg undo

  unfoldable pub undo_tx : ℕ → BlockMeta → Hash → Undo A → Exec S (Undo A)
  unfolding undo_located
  undo_tx cur_height block tx_hash undo = do
    found ← reads (λ s. ok (exists_tx_record (fetch_bucket ns_tx_records) tx_hash block s))
    undo_located cur_height block tx_hash found.0 (bytes_of found.1) undo
        (read_tx_record_loc (bytes_of found.1))

  -- a round of the loop over the heights: the transactions of the block, the last one first
  unfoldable pub undo_block : ℕ → Undo A → Exec S (Undo A)
  unfolding undo_tx
  undo_block cur_height undo = do
    found ← reads (fetch_block_record (fetch_bucket ns_blocks) cur_height)
    if_nil found (pure undo) (λ b.
        for_with (undo_tx cur_height b.block) (reverse b.transactions)
          (record undo { heights_to_remove = undo.heights_to_remove ++ (b.block.height ∷ []) }))

  -- what follows the loops
  unfoldable pub finish_rollback : ℕ → Undo A → Exec S (Unit {0})
  finish_rollback fuel undo = do
    for_each (λ h. delete_block_record (fetch_bucket ns_blocks) h) undo.heights_to_remove
    for_each
        (λ op.
          for_spenders outside fetch_bucket (remove_conflict outside fetch_bucket fuel)
            (canonical_out_point op.hash op.index))
        undo.coin_base_credits
    update_mined_balances (fetch_bucket ns_mined_balance) outside.amounts undo.balances

  -- SyncStore.SyncedTo
  unfoldable pub synced_to : Exec S BlockMeta
  synced_to = reads (fetch_synced_to (fetch_bucket ns_sync_bucket_name)) >>= λ found.
      if_nil found (raise no_synced_block) pure

  -- `fuel` bounds the depth of removeConflict.
  unfoldable pub rollback : ℕ → ℕ → Exec S (Unit {0})
  unfolding heights_down undo_block finish_rollback synced_to
  rollback fuel height = do
    balances ← reads (fetch_all_mined_balance (fetch_bucket ns_mined_balance) outside.amounts)
    top ← synced_to
    undo ←
        for_with undo_block (heights_down (top.height + 1 - height) top.height)
          (record { balances = balances; coin_base_credits = []; heights_to_remove = [] })
    finish_rollback fuel undo
