-- ===== src/Tests/Scans.antt =====
-- The theorems on the scan of unspent outputs and on block records at concrete states.
use mass_net_wallet.Prelude.{
  ℕ, ◌≡◌, refl, Bool, true, false, none, [], ◌∷◌, ◌++◌, arith, replicate, All,
}
use mass_net_wallet.Prelude.Bytes.{Bytes, put_be, be, slice, field, has_prefix, bytes_eq}
use mass_net_wallet.Prelude.Exec.{ok, returns, ◌>>=◌, wrap_result}
use mass_net_wallet.Txmgr.{binding}
use mass_net_wallet.Txmgr.Blocks.{BlockRecord, update_block_record}
use mass_net_wallet.Txmgr.Store.{
  ns_unspent, ns_blocks, at, is_nil, len, bytes_of, balance_of, set_balance,
}
use mass_net_wallet.Txmgr.Store.Scan.{
  Visit, script_address_unspents, unspents_loop, wanted, contains, credit_of, not_zero, item_of,
  confirmations, unless_failed,
}
use mass_net_wallet.Txmgr.Store.MemPool.{IsRecorded}
use mass_net_wallet.Txmgr.Store.Flags.{HasShortKeys, unspents-insert_mem_pool_tx}
use mass_net_wallet.Wallet.Eligible.{Utxo}
use mass_net_wallet.Prelude.Keeps.{for_each, for_with, if_nil}
use mass_net_wallet.Db.{lookup}
use mass_net_wallet.Txmgr.Addresses.{
  key_address_record, exists_raw_address_record, put_raw_address_record, value_address_record,
  read_address_height,
}
use mass_net_wallet.Txmgr.Credits.{
  exists_credit, value_unspent_credit, put_raw_credit, key_credit, credit_value, flag_byte,
  is_class_binding, is_class_staking, read_credit_value, blank_credit, class_of,
}
use mass_net_wallet.Txmgr.Unspent.{
  put_unspent, canonical_unspent_key, value_unspent, exists_raw_unspent, canonical_out_point,
  put_raw_unmined_input, or_empty, exists_raw_unmined_input, read_canonical_unspent_key,
  read_block_of_unspent,
}
use mass_net_wallet.Txmgr.Games.{
  bit, delete_unmined_game_history, game_prefix, key_game_history, key_unmined_game_history,
  put_game_history,
}
use mass_net_wallet.Txmgr.TxRecords.{exists_raw_unmined, put_raw_unmined, value_unmined}
use mass_net_wallet.Txmgr.Store.Utxo.{
  add_mined_credits, add_credit, record_address, address_record_of, class_of_script,
  create_game_history, new_credit, record_history, insert_unmined_inputs,
}
use mass_net_wallet.Txmgr.Store.Unmined.{insert_mem_pool_tx}
use mass_net_wallet.Tests.Namespaces.{Tables, tables-IsStore, tables}
use mass_net_wallet.Tests.Pool.{credited, empty, no_unmined}
use mass_net_wallet.Tests.Chain.{
  messages-IsMsgTxs, funding_hash, parent_hash, child_hash, parent, outside, record_of, block,
  script, decode,
}

unspents : Bytes → Tables → Visit
unspents name s = record { entries = s ns_unspent; failure = none }

abbrev every_item : Utxo ℕ → Bool × Bool
every_item u = (false, true)

abbrev found_unspent : Utxo ℕ
found_unspent = record {
  out_point = record { hash = funding_hash; index = 0 };
  flags = record {
    spent = false;
    spent_by_unmined = false;
    change = false;
    is_unmined = false;
    utxo_class = binding;
  };
  amount = 5;
  confirmations = 3;
  maturity = 0;
  script_hash = script.std_script_address;
}

no_inputs : HasShortKeys outside tables credited
unfolding credited ◌>>=◌ for_each for_with if_nil put_be be slice field has_prefix bytes_eq lookup
    key_address_record exists_raw_address_record put_raw_address_record value_address_record
    read_address_height exists_credit value_unspent_credit put_raw_credit key_credit credit_value
    flag_byte is_class_binding is_class_staking put_unspent canonical_unspent_key value_unspent bit
    delete_unmined_game_history game_prefix key_game_history key_unmined_game_history
    put_game_history at is_nil balance_of set_balance add_mined_credits add_credit record_address
    address_record_of class_of_script create_game_history new_credit record_history tables
    exists_raw_unmined_input
no_inputs j h = refl

-- The output that `parent` spends is found, and is not flagged.
found_them :
    script_address_unspents outside tables
      (script.std_script_address ∷ [])
      9
      every_item
      unspents
      (insert_mem_pool_tx outside tables (record_of parent) credited).1
    ≡ ok (found_unspent ∷ [])
unfolding unspents credited ◌>>=◌ for_each for_with if_nil put_be be slice field has_prefix bytes_eq
    lookup key_address_record exists_raw_address_record put_raw_address_record value_address_record
    read_address_height exists_credit value_unspent_credit put_raw_credit key_credit credit_value
    flag_byte is_class_binding is_class_staking put_unspent canonical_unspent_key value_unspent bit
    delete_unmined_game_history game_prefix key_game_history key_unmined_game_history
    put_game_history at is_nil balance_of set_balance add_mined_credits add_credit record_address
    address_record_of class_of_script create_game_history new_credit record_history tables
    wrap_result exists_raw_unspent canonical_out_point put_raw_unmined_input or_empty
    exists_raw_unmined_input read_canonical_unspent_key read_block_of_unspent read_credit_value
    class_of blank_credit exists_raw_unmined put_raw_unmined value_unmined insert_unmined_inputs
    insert_mem_pool_tx script_address_unspents unspents_loop wanted contains credit_of not_zero
    item_of confirmations unless_failed decode bytes_of len
found_them = refl

unspents-insert_mem_pool_tx_example :
    All
      (IsRecorded outside tables tables-IsStore
        (record_of parent)
        refl
        (insert_mem_pool_tx outside tables (record_of parent) credited).1)
      (record_of parent).relevant_tx_in
    × All (λ (u : Utxo ℕ). u.flags.spent_by_unmined ≡ false) (found_unspent ∷ [])
unfolding at
unspents-insert_mem_pool_tx_example =
    unspents-insert_mem_pool_tx outside tables tables-IsStore (record_of parent) (refl, tt)
      (script.std_script_address ∷ []) 9 every_item unspents credited refl tt messages-IsMsgTxs refl
      refl (omega arith) no_unmined (λ j. unfold tables in returns tt) (returns tt, tt) no_inputs
      found_them

abbrev two_txs : BlockRecord
two_txs = record { block = block 8; transactions = parent_hash ∷ child_hash ∷ [] }

abbrev with_block : Tables
with_block =
    (update_block_record (tables ns_blocks) (block 8) (parent_hash ∷ child_hash ∷ []) empty).1

abbrev two_value : Bytes
two_value =
    replicate 32 8
    ++ (0 ∷ 0 ∷ 0 ∷ 0 ∷ 95 ∷ 94 ∷ 16 ∷ 0 ∷ 0 ∷ 0 ∷ 0 ∷ 2 ∷ [])
    ++ parent_hash
    ++ child_hash
