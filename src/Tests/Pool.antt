-- ===== src/Tests/Pool.antt =====
-- The theorems on the transaction store at concrete states: a credit that one transaction makes, one
-- spends, and a third spends again from the pool.
use mass_net_wallet.Prelude.{ℕ, ◌+◌, ◌≡◌, refl, none, List, [], ◌∷◌, arith, All}
use mass_net_wallet.Prelude.Bytes.{bytes_eq, put_be, be, slice, field, has_prefix}
use mass_net_wallet.Prelude.Exec.{Result, ok, returns, ◌>>=◌, wrap_result}
use mass_net_wallet.Db.{lookup}
use mass_net_wallet.Txmgr.Balances.{Balance}
use mass_net_wallet.Txmgr.Store.{
  at, is_nil, balance_of, set_balance, indexed_from, len, bytes_of, Namespace-discrete, ns_unmined,
  ns_tx_records,
}
use mass_net_wallet.Txmgr.Store.Utxo.{
  add_mined_credits, add_credit, record_address, address_record_of, class_of_script,
  create_game_history, new_credit, record_history, delete_unmined_credits, delete_unmined_inputs,
  delete_unmined_input, remove_unmined_game_history, remove_history, remove_history_of,
  history_to_remove,
}
use mass_net_wallet.Txmgr.Store.Spends.{
  update_mined_balance, spend_input, spend_found, spender_of, withdraw_spent, withdrawn_history,
}
use mass_net_wallet.Txmgr.Store.Unmined.{
  remove_double_spends, for_spenders, with_unmined, unmined_record, remove_conflict, remove_output,
  insert_mem_pool_tx, exist_unmined_tx,
}
use mass_net_wallet.Txmgr.Store.Txs.{
  insert_mined_tx, insert_new_tx, append_block_record, leave_pool,
}
use mass_net_wallet.Txmgr.Store.Totals.{add_mined_credits_total, paid_to, value_in}
use mass_net_wallet.Prelude.Keeps.{for_each, for_with, if_nil}
use mass_net_wallet.Txmgr.Addresses.{
  key_address_record, exists_raw_address_record, put_raw_address_record, value_address_record,
  read_address_height, delete_raw_address_record,
}
use mass_net_wallet.Txmgr.Credits.{
  exists_credit, value_unspent_credit, put_raw_credit, key_credit, credit_value, flag_byte,
  is_class_binding, is_class_staking, spend_credit, spent_value, or_nil, read_raw_credit_key,
  read_credit_value, blank_credit, class_of, unspend_raw_credit, unspend_found, unspent_value,
  delete_raw_credit, value_unmined_credit_from_mined, put_raw_unmined_credit,
  delete_raw_unmined_credit,
}
use mass_net_wallet.Txmgr.Unspent.{
  put_unspent, canonical_unspent_key, value_unspent, exists_unspent, exists_raw_unspent,
  delete_raw_unspent, canonical_out_point, fetch_unmined_input_spend_tx_hashes, spend_tx_hashes,
  put_raw_unmined_input, or_empty, exists_raw_unmined_input, delete_raw_unmined_input,
  fetch_ns_unspent_value_from_raw_credit, put_raw_unspent,
}
use mass_net_wallet.Txmgr.Games.{
  bit, delete_unmined_game_history, game_prefix, key_game_history, key_unmined_game_history,
  put_game_history, withdraw_game, move_game, stored_length, set_withdrawn, unwithdraw_game,
}
use mass_net_wallet.Txmgr.Debits.{put_debit, key_debit, value_debit, exists_debit, delete_raw_debit}
use mass_net_wallet.Txmgr.Blocks.{
  exists_block_record, key_block_record, put_block_record, value_block_record, put_raw_block_record,
  append_raw_block_record,
}
use mass_net_wallet.Txmgr.TxRecords.{
  exists_tx_record, key_tx_record, put_tx_record, tx_record_value, exists_raw_unmined,
  put_raw_unmined, delete_raw_unmined, value_unmined, read_raw_unmined, read_tx_record_loc,
}
use mass_net_wallet.Txmgr.Store.Undoing.{
  undo_input, unspent_again, unwithdraw_spent, undo_output, output_address, drop_unspent,
  drop_address, drop_history, mined_history, out_point_of,
}
use mass_net_wallet.Txmgr.Store.Rollback.{undo_tx, undo_located, undo_spending}
use mass_net_wallet.Txmgr.Store.Once.{insert_mined_tx_again}
use mass_net_wallet.Txmgr.Store.MemPool.{IsRecorded, exist-insert_mem_pool_tx}
use mass_net_wallet.Tests.Namespaces.{Tables, tables, tables-IsStore}
use mass_net_wallet.Tests.Payments.{coin_money-IsMoney}
use mass_net_wallet.Tests.Chain.{
  funding, parent, parent_hash, wallet, outside, record_of, block, file_place, decode,
  messages-IsMsgTxs,
}

abbrev pub empty : Tables
empty a = []

abbrev pub opening : List (Balance ℕ)
opening = record { wallet_id = wallet; amount = 30 } ∷ []

unfoldable pub funded : Result (List (Balance ℕ)) × Tables
funded = add_mined_credits outside tables (record_of funding) (block 7) opening empty

funded-ok : funded.0 ≡ ok (record { wallet_id = wallet; amount = 35 } ∷ [])
unfolding funded ◌>>=◌ for_each for_with put_be be slice field has_prefix bytes_eq lookup
    key_address_record exists_raw_address_record put_raw_address_record value_address_record
    read_address_height exists_credit value_unspent_credit put_raw_credit key_credit credit_value
    flag_byte is_class_binding is_class_staking put_unspent canonical_unspent_key value_unspent bit
    delete_unmined_game_history game_prefix key_game_history key_unmined_game_history
    put_game_history at is_nil balance_of set_balance add_mined_credits add_credit record_address
    address_record_of class_of_script create_game_history new_credit record_history tables
funded-ok = refl

add_mined_credits_total_example :
    value_in outside wallet (record { wallet_id = wallet; amount = 35 } ∷ [])
    ≡ value_in outside wallet opening
      + paid_to outside wallet funding (record_of funding).relevant_tx_out
unfolding funded
add_mined_credits_total_example =
    add_mined_credits_total outside coin_money-IsMoney tables (record_of funding) (block 7) wallet
      opening empty funded-ok

-- the store once the credit is there, and once `parent` has spent it in a block
unfoldable pub credited : Tables
unfolding funded
credited = funded.1

unfoldable pub spent : Result (List (Balance ℕ)) × Tables
unfolding credited
spent = insert_mined_tx outside tables 2 (record_of parent) (block 8) file_place opening credited

spent-ok : spent.0 ≡ ok (record { wallet_id = wallet; amount = 25 } ∷ [])
unfolding spent ◌>>=◌ wrap_result for_each for_with if_nil put_be be slice field has_prefix bytes_eq
    lookup key_address_record exists_raw_address_record put_raw_address_record value_address_record
    read_address_height delete_raw_address_record exists_credit value_unspent_credit put_raw_credit
    key_credit credit_value flag_byte is_class_binding is_class_staking spend_credit spent_value
    or_nil read_raw_credit_key read_credit_value blank_credit class_of unspend_raw_credit
    unspend_found unspent_value delete_raw_credit value_unmined_credit_from_mined
    put_raw_unmined_credit delete_raw_unmined_credit put_unspent canonical_unspent_key value_unspent
    exists_unspent exists_raw_unspent delete_raw_unspent canonical_out_point
    fetch_unmined_input_spend_tx_hashes spend_tx_hashes put_raw_unmined_input or_empty
    exists_raw_unmined_input delete_raw_unmined_input fetch_ns_unspent_value_from_raw_credit
    put_raw_unspent bit delete_unmined_game_history game_prefix key_game_history
    key_unmined_game_history put_game_history withdraw_game move_game stored_length set_withdrawn
    unwithdraw_game put_debit key_debit value_debit exists_debit delete_raw_debit
    exists_block_record key_block_record put_block_record value_block_record put_raw_block_record
    append_raw_block_record exists_tx_record key_tx_record put_tx_record tx_record_value
    exists_raw_unmined put_raw_unmined delete_raw_unmined value_unmined read_raw_unmined
    read_tx_record_loc at indexed_from is_nil len bytes_of balance_of set_balance Namespace-discrete
    add_mined_credits add_credit record_address address_record_of class_of_script
    create_game_history new_credit record_history delete_unmined_credits delete_unmined_inputs
    delete_unmined_input remove_unmined_game_history remove_history remove_history_of
    history_to_remove insert_mined_tx insert_new_tx append_block_record update_mined_balance
    spend_input spend_found spender_of withdraw_spent withdrawn_history leave_pool
    remove_double_spends for_spenders with_unmined unmined_record remove_conflict remove_output
    undo_tx undo_located undo_spending undo_input unspent_again unwithdraw_spent undo_output
    output_address drop_unspent drop_address drop_history mined_history out_point_of tables decode
spent-ok = refl

none_found : (tables ns_tx_records).get (key_tx_record parent_hash (block 8)) credited ≡ ok none
unfolding credited ◌>>=◌ wrap_result for_each for_with if_nil put_be be slice field has_prefix
    bytes_eq lookup key_address_record exists_raw_address_record put_raw_address_record
    value_address_record read_address_height delete_raw_address_record exists_credit
    value_unspent_credit put_raw_credit key_credit credit_value flag_byte is_class_binding
    is_class_staking spend_credit spent_value or_nil read_raw_credit_key read_credit_value
    blank_credit class_of unspend_raw_credit unspend_found unspent_value delete_raw_credit
    value_unmined_credit_from_mined put_raw_unmined_credit delete_raw_unmined_credit put_unspent
    canonical_unspent_key value_unspent exists_unspent exists_raw_unspent delete_raw_unspent
    canonical_out_point fetch_unmined_input_spend_tx_hashes spend_tx_hashes put_raw_unmined_input
    or_empty exists_raw_unmined_input delete_raw_unmined_input
    fetch_ns_unspent_value_from_raw_credit put_raw_unspent bit delete_unmined_game_history
    game_prefix key_game_history key_unmined_game_history put_game_history withdraw_game move_game
    stored_length set_withdrawn unwithdraw_game put_debit key_debit value_debit exists_debit
    delete_raw_debit exists_block_record key_block_record put_block_record value_block_record
    put_raw_block_record append_raw_block_record exists_tx_record key_tx_record put_tx_record
    tx_record_value exists_raw_unmined put_raw_unmined delete_raw_unmined value_unmined
    read_raw_unmined read_tx_record_loc at indexed_from is_nil len bytes_of balance_of set_balance
    Namespace-discrete add_mined_credits add_credit record_address address_record_of class_of_script
    create_game_history new_credit record_history delete_unmined_credits delete_unmined_inputs
    delete_unmined_input remove_unmined_game_history remove_history remove_history_of
    history_to_remove insert_mined_tx insert_new_tx append_block_record update_mined_balance
    spend_input spend_found spender_of withdraw_spent withdrawn_history leave_pool
    remove_double_spends for_spenders with_unmined unmined_record remove_conflict remove_output
    undo_tx undo_located undo_spending undo_input unspent_again unwithdraw_spent undo_output
    output_address drop_unspent drop_address drop_history mined_history out_point_of tables decode
none_found = refl

insert_mined_tx_again_example :
    insert_mined_tx outside tables 5 (record_of parent) (block 8) file_place opening spent.1
    ≡ (ok opening, spent.1)
unfolding spent
insert_mined_tx_again_example =
    insert_mined_tx_again outside tables tables-IsStore (record_of parent) (block 8) file_place 2 5
      opening opening credited {o = none} tt refl none_found spent-ok

pub no_unmined : (tables ns_unmined).get parent_hash credited ≡ ok none
unfolding credited ◌>>=◌ wrap_result for_each for_with if_nil put_be be slice field has_prefix
    bytes_eq lookup key_address_record exists_raw_address_record put_raw_address_record
    value_address_record read_address_height delete_raw_address_record exists_credit
    value_unspent_credit put_raw_credit key_credit credit_value flag_byte is_class_binding
    is_class_staking spend_credit spent_value or_nil read_raw_credit_key read_credit_value
    blank_credit class_of unspend_raw_credit unspend_found unspent_value delete_raw_credit
    value_unmined_credit_from_mined put_raw_unmined_credit delete_raw_unmined_credit put_unspent
    canonical_unspent_key value_unspent exists_unspent exists_raw_unspent delete_raw_unspent
    canonical_out_point fetch_unmined_input_spend_tx_hashes spend_tx_hashes put_raw_unmined_input
    or_empty exists_raw_unmined_input delete_raw_unmined_input
    fetch_ns_unspent_value_from_raw_credit put_raw_unspent bit delete_unmined_game_history
    game_prefix key_game_history key_unmined_game_history put_game_history withdraw_game move_game
    stored_length set_withdrawn unwithdraw_game put_debit key_debit value_debit exists_debit
    delete_raw_debit exists_block_record key_block_record put_block_record value_block_record
    put_raw_block_record append_raw_block_record exists_tx_record key_tx_record put_tx_record
    tx_record_value exists_raw_unmined put_raw_unmined delete_raw_unmined value_unmined
    read_raw_unmined read_tx_record_loc at indexed_from is_nil len bytes_of balance_of set_balance
    Namespace-discrete add_mined_credits add_credit record_address address_record_of class_of_script
    create_game_history new_credit record_history delete_unmined_credits delete_unmined_inputs
    delete_unmined_input remove_unmined_game_history remove_history remove_history_of
    history_to_remove insert_mined_tx insert_new_tx append_block_record update_mined_balance
    spend_input spend_found spender_of withdraw_spent withdrawn_history leave_pool
    remove_double_spends for_spenders with_unmined unmined_record remove_conflict remove_output
    undo_tx undo_located undo_spending undo_input unspent_again unwithdraw_spent undo_output
    output_address drop_unspent drop_address drop_history mined_history out_point_of tables decode
no_unmined = refl

exist-insert_mem_pool_tx_example :
    ((insert_mem_pool_tx outside tables (record_of parent) credited).0 ≡ ok tt)
    × (exist_unmined_tx outside tables parent_hash
          (insert_mem_pool_tx outside tables (record_of parent) credited).1
        ≡ ok parent)
    × All
        (IsRecorded outside tables tables-IsStore
          (record_of parent)
          refl
          (insert_mem_pool_tx outside tables (record_of parent) credited).1)
        (record_of parent).relevant_tx_in
unfolding at
exist-insert_mem_pool_tx_example =
    exist-insert_mem_pool_tx outside tables tables-IsStore (record_of parent) refl credited tt
      messages-IsMsgTxs refl refl (omega arith) no_unmined (λ j. unfold tables in returns tt)
      (returns tt, tt)
