-- ===== src/Tests/Reorgs.antt =====
-- A rollback of the block that `parent` is in, at concrete inputs.
use mass_net_wallet.Prelude.{◌||◌, ℕ, ◌≡◌, refl, true, none, some, [], ◌∷◌, arith, not, drop}
use mass_net_wallet.Prelude.Bytes.{bytes_eq, put_be, be, slice, field, has_prefix}
use mass_net_wallet.Prelude.Exec.{Result, ok, err, ◌>>=◌, wrap_result, short, wrapped}
use mass_net_wallet.Db.{lookup}
use mass_net_wallet.Txmgr.Store.{
  at, is_nil, balance_of, set_balance, indexed_from, len, bytes_of, Namespace-discrete, ns_unmined,
  ns_tx_records,
}
use mass_net_wallet.Txmgr.Store.Utxo.{
  add_mined_credits, add_credit, record_address, address_record_of, class_of_script,
  create_game_history, new_credit, record_history, delete_unmined_credits, delete_unmined_inputs,
  delete_unmined_input, remove_unmined_game_history, remove_history, remove_history_of,
  history_to_remove,
}
use mass_net_wallet.Txmgr.Store.Spends.{
  update_mined_balance, spend_input, spend_found, spender_of, withdraw_spent, withdrawn_history,
}
use mass_net_wallet.Txmgr.Store.Unmined.{
  remove_double_spends, for_spenders, with_unmined, unmined_record, remove_conflict, remove_output,
  exist_unmined_tx,
}
use mass_net_wallet.Txmgr.Store.Txs.{
  insert_mined_tx, insert_new_tx, append_block_record, leave_pool,
}
use mass_net_wallet.Prelude.Keeps.{for_each, for_with, if_nil}
use mass_net_wallet.Txmgr.Addresses.{
  key_address_record, exists_raw_address_record, put_raw_address_record, value_address_record,
  read_address_height, delete_raw_address_record,
}
use mass_net_wallet.Txmgr.Credits.{
  exists_credit, value_unspent_credit, put_raw_credit, key_credit, credit_value, flag_byte,
  is_class_binding, is_class_staking, spend_credit, spent_value, or_nil, read_raw_credit_key,
  read_credit_value, blank_credit, class_of, unspend_raw_credit, unspend_found, unspent_value,
  delete_raw_credit, value_unmined_credit_from_mined, put_raw_unmined_credit,
  delete_raw_unmined_credit,
}
use mass_net_wallet.Txmgr.Unspent.{
  put_unspent, canonical_unspent_key, value_unspent, exists_unspent, exists_raw_unspent,
  delete_raw_unspent, canonical_out_point, fetch_unmined_input_spend_tx_hashes, spend_tx_hashes,
  put_raw_unmined_input, or_empty, exists_raw_unmined_input, delete_raw_unmined_input,
  fetch_ns_unspent_value_from_raw_credit, put_raw_unspent,
}
use mass_net_wallet.Txmgr.Games.{
  bit, delete_unmined_game_history, game_prefix, key_game_history, key_unmined_game_history,
  put_game_history, withdraw_game, move_game, stored_length, set_withdrawn, unwithdraw_game,
}
use mass_net_wallet.Txmgr.Debits.{put_debit, key_debit, value_debit, exists_debit, delete_raw_debit}
use mass_net_wallet.Txmgr.Blocks.{
  exists_block_record, key_block_record, put_block_record, value_block_record, put_raw_block_record,
  append_raw_block_record,
}
use mass_net_wallet.Txmgr.TxRecords.{
  exists_tx_record, key_tx_record, put_tx_record, tx_record_value, exists_raw_unmined,
  put_raw_unmined, delete_raw_unmined, value_unmined, read_raw_unmined, read_tx_record_loc,
}
use mass_net_wallet.Txmgr.Store.Undoing.{
  undo_input, unspent_again, unwithdraw_spent, undo_output, output_address, drop_unspent,
  drop_address, drop_history, mined_history, out_point_of, Undo,
}
use mass_net_wallet.Txmgr.Store.Rollback.{undo_tx, undo_located, undo_spending}
use mass_net_wallet.Txmgr.{is_staking, is_binding}
use mass_net_wallet.Txmgr.TxRecords.Laws.{IsLoc}
use mass_net_wallet.Txmgr.Store.Reorg.{exist-undo_tx}
use mass_net_wallet.Tests.Namespaces.{Tables, tables, tables-IsStore}
use mass_net_wallet.Tests.Chain.{
  parent, parent_hash, wallet, outside, block, file_place, decode, place,
}
use mass_net_wallet.Tests.Pool.{opening, spent}

is_place : IsLoc file_place place
is_place = record {
  file_lt = omega arith;
  offset_lt = omega arith;
  size_lt = omega arith;
  start_lt = omega arith;
  len_lt = omega arith;
}

same_hash : (not outside.dev_mode || bytes_eq (outside.tx_hash parent) parent_hash) ≡ true
unfolding bytes_eq
same_hash = refl

refused : outside.msgs.set_bytes (drop 8 (tx_record_value file_place place)) ≡ err short
unfolding decode tx_record_value put_be bytes_eq
refused = refl

-- the rollback of `parent`
abbrev nothing : Undo ℕ
nothing = record { balances = opening; coin_base_credits = []; heights_to_remove = [] }

unfoldable undone : Result (Undo ℕ) × Tables
unfolding spent
undone = undo_tx outside tables 8 (block 8) parent_hash nothing spent.1

abbrev restored : Undo ℕ
restored = record nothing { balances = record { wallet_id = wallet; amount = 35 } ∷ [] }

undone-ok : undone.0 ≡ ok restored
unfolding undone is_staking is_binding ◌>>=◌ wrap_result for_each for_with if_nil put_be be slice
    field has_prefix bytes_eq lookup key_address_record exists_raw_address_record
    put_raw_address_record value_address_record read_address_height delete_raw_address_record
    exists_credit value_unspent_credit put_raw_credit key_credit credit_value flag_byte
    is_class_binding is_class_staking spend_credit spent_value or_nil read_raw_credit_key
    read_credit_value blank_credit class_of unspend_raw_credit unspend_found unspent_value
    delete_raw_credit value_unmined_credit_from_mined put_raw_unmined_credit
    delete_raw_unmined_credit put_unspent canonical_unspent_key value_unspent exists_unspent
    exists_raw_unspent delete_raw_unspent canonical_out_point fetch_unmined_input_spend_tx_hashes
    spend_tx_hashes put_raw_unmined_input or_empty exists_raw_unmined_input delete_raw_unmined_input
    fetch_ns_unspent_value_from_raw_credit put_raw_unspent bit delete_unmined_game_history
    game_prefix key_game_history key_unmined_game_history put_game_history withdraw_game move_game
    stored_length set_withdrawn unwithdraw_game put_debit key_debit value_debit exists_debit
    delete_raw_debit exists_block_record key_block_record put_block_record value_block_record
    put_raw_block_record append_raw_block_record exists_tx_record key_tx_record put_tx_record
    tx_record_value exists_raw_unmined put_raw_unmined delete_raw_unmined value_unmined
    read_raw_unmined read_tx_record_loc at indexed_from is_nil len bytes_of balance_of set_balance
    Namespace-discrete add_mined_credits add_credit record_address address_record_of class_of_script
    create_game_history new_credit record_history delete_unmined_credits delete_unmined_inputs
    delete_unmined_input remove_unmined_game_history remove_history remove_history_of
    history_to_remove insert_mined_tx insert_new_tx append_block_record update_mined_balance
    spend_input spend_found spender_of withdraw_spent withdrawn_history leave_pool
    remove_double_spends for_spenders with_unmined unmined_record remove_conflict remove_output
    undo_tx undo_located undo_spending undo_input unspent_again unwithdraw_spent undo_output
    output_address drop_unspent drop_address drop_history mined_history out_point_of tables decode
undone-ok = refl

recorded :
    (tables ns_tx_records).get (key_tx_record parent_hash (block 8)) spent.1
    ≡ ok (some (tx_record_value file_place place))
unfolding spent ◌>>=◌ wrap_result for_each for_with if_nil put_be be slice field has_prefix bytes_eq
    lookup key_address_record exists_raw_address_record put_raw_address_record value_address_record
    read_address_height delete_raw_address_record exists_credit value_unspent_credit put_raw_credit
    key_credit credit_value flag_byte is_class_binding is_class_staking spend_credit spent_value
    or_nil read_raw_credit_key read_credit_value blank_credit class_of unspend_raw_credit
    unspend_found unspent_value delete_raw_credit value_unmined_credit_from_mined
    put_raw_unmined_credit delete_raw_unmined_credit put_unspent canonical_unspent_key value_unspent
    exists_unspent exists_raw_unspent delete_raw_unspent canonical_out_point
    fetch_unmined_input_spend_tx_hashes spend_tx_hashes put_raw_unmined_input or_empty
    exists_raw_unmined_input delete_raw_unmined_input fetch_ns_unspent_value_from_raw_credit
    put_raw_unspent bit delete_unmined_game_history game_prefix key_game_history
    key_unmined_game_history put_game_history withdraw_game move_game stored_length set_withdrawn
    unwithdraw_game put_debit key_debit value_debit exists_debit delete_raw_debit
    exists_block_record key_block_record put_block_record value_block_record put_raw_block_record
    append_raw_block_record exists_tx_record key_tx_record put_tx_record tx_record_value
    exists_raw_unmined put_raw_unmined delete_raw_unmined value_unmined read_raw_unmined
    read_tx_record_loc at indexed_from is_nil len bytes_of balance_of set_balance Namespace-discrete
    add_mined_credits add_credit record_address address_record_of class_of_script
    create_game_history new_credit record_history delete_unmined_credits delete_unmined_inputs
    delete_unmined_input remove_unmined_game_history remove_history remove_history_of
    history_to_remove insert_mined_tx insert_new_tx append_block_record update_mined_balance
    spend_input spend_found spender_of withdraw_spent withdrawn_history leave_pool
    remove_double_spends for_spenders with_unmined unmined_record remove_conflict remove_output
    undo_tx undo_located undo_spending undo_input unspent_again unwithdraw_spent undo_output
    output_address drop_unspent drop_address drop_history mined_history out_point_of tables decode
recorded = refl

left_pool : (tables ns_unmined).get parent_hash spent.1 ≡ ok none
unfolding spent ◌>>=◌ wrap_result for_each for_with if_nil put_be be slice field has_prefix bytes_eq
    lookup key_address_record exists_raw_address_record put_raw_address_record value_address_record
    read_address_height delete_raw_address_record exists_credit value_unspent_credit put_raw_credit
    key_credit credit_value flag_byte is_class_binding is_class_staking spend_credit spent_value
    or_nil read_raw_credit_key read_credit_value blank_credit class_of unspend_raw_credit
    unspend_found unspent_value delete_raw_credit value_unmined_credit_from_mined
    put_raw_unmined_credit delete_raw_unmined_credit put_unspent canonical_unspent_key value_unspent
    exists_unspent exists_raw_unspent delete_raw_unspent canonical_out_point
    fetch_unmined_input_spend_tx_hashes spend_tx_hashes put_raw_unmined_input or_empty
    exists_raw_unmined_input delete_raw_unmined_input fetch_ns_unspent_value_from_raw_credit
    put_raw_unspent bit delete_unmined_game_history game_prefix key_game_history
    key_unmined_game_history put_game_history withdraw_game move_game stored_length set_withdrawn
    unwithdraw_game put_debit key_debit value_debit exists_debit delete_raw_debit
    exists_block_record key_block_record put_block_record value_block_record put_raw_block_record
    append_raw_block_record exists_tx_record key_tx_record put_tx_record tx_record_value
    exists_raw_unmined put_raw_unmined delete_raw_unmined value_unmined read_raw_unmined
    read_tx_record_loc at indexed_from is_nil len bytes_of balance_of set_balance Namespace-discrete
    add_mined_credits add_credit record_address address_record_of class_of_script
    create_game_history new_credit record_history delete_unmined_credits delete_unmined_inputs
    delete_unmined_input remove_unmined_game_history remove_history remove_history_of
    history_to_remove insert_mined_tx insert_new_tx append_block_record update_mined_balance
    spend_input spend_found spender_of withdraw_spent withdrawn_history leave_pool
    remove_double_spends for_spenders with_unmined unmined_record remove_conflict remove_output
    undo_tx undo_located undo_spending undo_input unspent_again unwithdraw_spent undo_output
    output_address drop_unspent drop_address drop_history mined_history out_point_of tables decode
left_pool = refl

exist-undo_tx_example :
    ((tables ns_unmined).get parent_hash
        (undo_tx outside tables 8 (block 8) parent_hash nothing spent.1).1
      ≡ ok (some (tx_record_value file_place place)))
    × (exist_unmined_tx outside tables parent_hash
          (undo_tx outside tables 8 (block 8) parent_hash nothing spent.1).1
        ≡ err (wrapped short))
exist-undo_tx_example =
    exist-undo_tx outside tables tables-IsStore parent_hash refl 8 (block 8) file_place place parent
      spent.1 {o = none} tt is_place recorded refl same_hash refl left_pool nothing {u' = restored}
      (unfold undone in undone-ok) refused
