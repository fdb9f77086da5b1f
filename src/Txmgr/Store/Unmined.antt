-- ===== src/Txmgr/Store/Unmined.antt =====
-- masswallet/txmgr/txstore.go: the pool. A transaction comes into it by insertMemPoolTx; one in
-- conflict with a mined one leaves it, with the transactions that spend its outputs.
use mass_net_wallet.Prelude.{ℕ, zero, suc, ◌%◌, ◌^◌, [], ◌==◌, if◌then◌else◌}
use mass_net_wallet.Prelude.Bytes.{Bytes}
use mass_net_wallet.Prelude.Exec.{
  unexpected_coinbase, not_found, out_of_fuel, Result, ok, err, Exec, pure, raise, lift, reads,
  ◌>>=◌, ◌>>◌, and_then,
}
use mass_net_wallet.Prelude.Keeps.{for_each}
use mass_net_wallet.Db.{Bucket}
use mass_net_wallet.Txmgr.{Hash}
use mass_net_wallet.Txmgr.Unspent.{canonical_out_point, fetch_unmined_input_spend_tx_hashes}
use mass_net_wallet.Txmgr.Credits.{delete_raw_unmined_credit}
use mass_net_wallet.Txmgr.TxRecords.{
  exists_raw_unmined, put_raw_unmined, delete_raw_unmined, value_unmined, read_raw_unmined,
}
use mass_net_wallet.Txmgr.Store.{
  Namespace, ns_unmined, ns_unmined_inputs, ns_unmined_credits, TxRecord, TxOut, Outside, at,
  indexed_from, is_nil, len, bytes_of,
}
use mass_net_wallet.Txmgr.Store.Utxo.{
  remove_unmined_game_history, insert_unmined_inputs, delete_unmined_inputs,
}

module _ {S M A : Type 0} (outside : Outside M A) (fetch_bucket : Namespace → Bucket S) where
  -- the unmined record of a hash: only the message and the time are stored
  unfoldable pub unmined_record : Hash → ℕ × M → TxRecord M
  unmined_record tx_hash read = record {
    msg_tx = read.1;
    hash = tx_hash;
    received = read.0;
    relevant_tx_in = [];
    relevant_tx_out = [];
    tx_loc = record { tx_start = 0; tx_len = 0 };
  }

  unfoldable pub insert_mem_pool_tx : TxRecord M → Exec S (Unit {0})
  insert_mem_pool_tx rec = if outside.is_coin_base rec.msg_tx then raise unexpected_coinbase else do
    um ← reads (exists_raw_unmined (fetch_bucket ns_unmined) rec.hash)
    if is_nil um
        then (do
          v ← lift (value_unmined outside.msgs rec.received rec.msg_tx)
          put_raw_unmined (fetch_bucket ns_unmined) rec.hash v
          insert_unmined_inputs outside fetch_bucket rec)
        else pure tt

  -- The record of the spending transaction with a hash, and what is done to it: nothing where there
  -- is none.
  unfoldable pub with_unmined : (TxRecord M → Exec S (Unit {0})) → Hash → Exec S (Unit {0})
  unfolding unmined_record
  with_unmined act tx_hash = do
    v ← reads (exists_raw_unmined (fetch_bucket ns_unmined) tx_hash)
    if len v == 0
        then pure tt
        else (lift (read_raw_unmined outside.msgs (bytes_of v)) >>= λ read.
            act (unmined_record tx_hash read))

  -- the transactions that the pool has as spenders of an output, and what is done to each
  unfoldable pub for_spenders : (TxRecord M → Exec S (Unit {0})) → Bytes → Exec S (Unit {0})
  unfolding with_unmined
  for_spenders act k =
      reads (fetch_unmined_input_spend_tx_hashes (fetch_bucket ns_unmined_inputs) k) >>= λ hashes.
      for_each (with_unmined act) hashes

  -- a round of removeConflict: the spenders of an output, and its credit
  unfoldable pub remove_output :
      (TxRecord M → Exec S (Unit {0})) → Hash → ℕ × TxOut → Exec S (Unit {0})
  unfolding for_spenders
  remove_output act tx_hash output =
      let k = canonical_out_point tx_hash (output.0 % 2 ^ 32) in
      for_spenders act k >> delete_raw_unmined_credit (fetch_bucket ns_unmined_credits) k

  -- It calls itself on the spenders of each output: `fuel` bounds the depth.
  unfoldable pub remove_conflict : ℕ → TxRecord M → Exec S (Unit {0})
  unfolding remove_output
  remove_conflict zero rec = raise out_of_fuel
  remove_conflict (suc fuel) rec = do
    for_each (remove_output (remove_conflict fuel) rec.hash)
        (indexed_from 0 (outside.tx_out rec.msg_tx))
    delete_unmined_inputs outside fetch_bucket rec
    remove_unmined_game_history outside fetch_bucket rec
    delete_raw_unmined (fetch_bucket ns_unmined) rec.hash

  unfoldable pub remove_double_spends : ℕ → TxRecord M → Exec S (Unit {0})
  unfolding for_spenders remove_conflict
  remove_double_spends fuel rec = do
    for_each
        (λ rel. lift (at (outside.tx_in rec.msg_tx) rel.index) >>= λ prev_out.
          for_spenders (remove_conflict fuel) (canonical_out_point prev_out.hash prev_out.index))
        rec.relevant_tx_in
    delete_unmined_inputs outside fetch_bucket rec

  unfoldable pub exist_unmined_tx : Hash → S → Result M
  exist_unmined_tx tx_hash s =
      and_then (exists_raw_unmined (fetch_bucket ns_unmined) tx_hash s) λ v.
        if len v == 0
        then err not_found
        else and_then (read_raw_unmined outside.msgs (bytes_of v)) λ read. ok read.1
