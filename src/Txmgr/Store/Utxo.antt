-- ===== src/Txmgr/Store/Utxo.antt =====
-- masswallet/txmgr/utxostore.go: the credits of a transaction, mined or not, the inputs of unmined
-- transactions, and the histories of stakings and bindings.
use mass_net_wallet.Prelude.{
  ℕ, ◌%◌, ◌^◌, Bool, true, false, ◌||◌, Option, none, some, List, [], ◌∷◌, ltb, ◌==◌, if◌then◌else◌,
  length,
}
use mass_net_wallet.Prelude.Bytes.{Bytes}
use mass_net_wallet.Prelude.Exec.{
  unexpected_coinbase, duplicated_credit, expired_credit, unsupported_script, Error, Result, ok,
  err, Exec, pure, raise, lift, reads, guard, ◌>>=◌, ◌>>◌, and_then,
}
use mass_net_wallet.Prelude.Keeps.{for_each, for_with, if_nil}
use mass_net_wallet.Db.{Bucket}
use mass_net_wallet.Txmgr.{
  Hash, OutPoint, BlockMeta, UtxoClass, standard, staking, binding, Credit, AddressRecord,
  GameHistory,
}
use mass_net_wallet.Txmgr.Balances.{Balance}
use mass_net_wallet.Txmgr.Unspent.{
  canonical_out_point, canonical_unspent_key, exists_raw_unspent, put_unspent,
  put_raw_unmined_input, exists_raw_unmined_input, delete_raw_unmined_input,
}
use mass_net_wallet.Txmgr.Credits.{
  exists_credit, value_unspent_credit, put_raw_credit, exists_raw_unmined_credit,
  value_unmined_credit, put_raw_unmined_credit, delete_raw_unmined_credit,
}
use mass_net_wallet.Txmgr.Addresses.{
  key_address_record, value_address_record, read_address_height, put_raw_address_record,
  exists_raw_address_record,
}
use mass_net_wallet.Txmgr.Games.{
  delete_by_prefix, put_game_history, put_unmined_game_history, delete_unmined_game_history,
}
use mass_net_wallet.Txmgr.Store.{
  Namespace, ns_addresses, ns_game_history, ns_unmined_game_history, ns_unspent, ns_unmined_inputs,
  ns_unmined_credits, ns_credits, PkScript, RelevantMeta, TxRecord, Outside, at, indexed_from,
  is_nil, len, balance_of, set_balance,
}

-- The address that a script pays to: the staking address of a staking.
unfoldable pub address_record_of : Bytes → PkScript → ℕ → AddressRecord
address_record_of wallet_id ps height = record {
  wallet_id = wallet_id;
  encode_address = if ps.is_staking then ps.second_encode_address else ps.std_encode_address;
  address_class = ps.address_class;
  block_height = height;
}

unfoldable pub class_of_script : PkScript → UtxoClass
class_of_script ps = if ps.is_staking then staking else if ps.is_binding then binding else standard

-- addrV == nil || readAddressHeight(addrV) == 0
is_unused : Option Bytes → Result Bool
is_unused none = ok true
is_unused (some v) = and_then (read_address_height v) λ height. ok (height == 0)

-- err == utils.ErrUnsupportedScript
unfoldable pub is_unsupported : Error → Bool
is_unsupported unsupported_script = true
is_unsupported _ = false

unfoldable pub create_game_history : Hash → ℕ → List RelevantMeta → List GameHistory
create_game_history tx_hash height [] = []
create_game_history tx_hash height (rel ∷ rels) =
    let rest = create_game_history tx_hash height rels in
    if rel.pk_script.is_staking || rel.pk_script.is_binding
    then record {
      wallet_id = rel.wallet_id;
      tx_hash = tx_hash;
      vout = rel.index % 2 ^ 32;
      withdrawn = false;
      is_binding = rel.pk_script.is_binding;
      block_height = height;
    }
      ∷ rest
    else rest

-- the history that removeUnminedGameHistory deletes: it sets no output index
unfoldable pub history_to_remove : Hash → Bytes → PkScript → GameHistory
history_to_remove tx_hash wallet_id ps = record {
  wallet_id = wallet_id;
  tx_hash = tx_hash;
  vout = 0;
  withdrawn = false;
  is_binding = ps.is_binding;
  block_height = 0;
}

module _ {S M A : Type 0} (outside : Outside M A) (fetch_bucket : Namespace → Bucket S) where
  -- "record address" of AddCredits
  unfoldable pub record_address : AddressRecord → Exec S (Unit {0})
  unfolding is_unused
  record_address r = do
    k ← lift (key_address_record outside.is_valid_address_class r)
    v ← reads (exists_raw_address_record (fetch_bucket ns_addresses) k)
    unused ← lift (is_unused v)
    if unused
        then put_raw_address_record (fetch_bucket ns_addresses) k (value_address_record r)
        else pure tt

  -- the credit that AddCredits makes
  unfoldable pub new_credit : TxRecord M → BlockMeta → RelevantMeta → A → Credit A
  unfolding class_of_script
  new_credit rec block rel amount = record {
    out_point = record { hash = rec.hash; index = rel.index % 2 ^ 32 };
    block = block;
    amount = amount;
    maturity =
        (if outside.is_coin_base rec.msg_tx
          then outside.coinbase_maturity
          else rel.pk_script.maturity)
        % 2 ^ 32;
    script_hash = rel.pk_script.std_script_address;
    flags = record {
      spent = false;
      spent_by_unmined = false;
      change = rel.is_change_addr;
      is_unmined = false;
      utxo_class = class_of_script rel.pk_script;
    };
  }

  -- a round of the loop of AddCredits over the outputs
  unfoldable pub add_credit :
      TxRecord M → BlockMeta → RelevantMeta → List (Balance A) → Exec S (List (Balance A))
  unfolding address_record_of record_address new_credit
  add_credit rec block rel balances = do
    found ← reads (exists_credit (fetch_bucket ns_credits) rec.hash (rel.index % 2 ^ 32) block)
    guard (is_nil found.1) duplicated_credit
    record_address (address_record_of rel.wallet_id rel.pk_script block.height)
    output ← lift (at (outside.tx_out rec.msg_tx) rel.index)
    amount ← lift (outside.amount_from_int output.value)
    v ← lift (value_unspent_credit outside.amounts (new_credit rec block rel amount))
    put_raw_credit (fetch_bucket ns_credits) found.0 v
    put_unspent (fetch_bucket ns_unspent) rel.wallet_id (new_credit rec block rel amount).out_point
        block
    balance ←
        lift
          (outside.money.add (balance_of outside.money.zero_amount rel.wallet_id balances) amount)
    pure (set_balance rel.wallet_id balance balances)

  -- the loop of AddCredits over the histories
  unfoldable pub record_history : GameHistory → Exec S (Unit {0})
  record_history history =
      delete_unmined_game_history (fetch_bucket ns_unmined_game_history) history
      >> put_game_history (fetch_bucket ns_game_history) history

  -- a round of addUnminedCredits
  unfoldable pub add_unmined_credit : TxRecord M → RelevantMeta → Exec S (Unit {0})
  add_unmined_credit rec rel = do
    let k = canonical_out_point rec.hash (rel.index % 2 ^ 32)
    v ← reads (exists_raw_unmined_credit (fetch_bucket ns_unmined_credits) k)
    guard (is_nil v) duplicated_credit
    unspent ← reads (
        exists_raw_unspent (fetch_bucket ns_unspent)
          (canonical_unspent_key rel.wallet_id rec.hash (rel.index % 2 ^ 32)))
    guard (is_nil unspent) expired_credit
    output ← lift (at (outside.tx_out rec.msg_tx) rel.index)
    amount ← lift (outside.amount_from_int output.value)
    w ← lift (
        value_unmined_credit outside.amounts amount rel.is_change_addr
          (rel.pk_script.maturity % 2 ^ 32) rel.pk_script.std_script_address
          rel.pk_script.is_staking rel.pk_script.is_binding)
    put_raw_unmined_credit (fetch_bucket ns_unmined_credits) k w

  unfoldable pub add_unmined_credits : TxRecord M → Exec S (Unit {0})
  unfolding create_game_history add_unmined_credit
  add_unmined_credits rec =
      for_each (add_unmined_credit rec) rec.relevant_tx_out
      >> for_each
          (λ history. put_unmined_game_history (fetch_bucket ns_unmined_game_history) history)
          (create_game_history rec.hash 0 rec.relevant_tx_out)

  -- AddCredits past its first test, of a mined transaction
  unfoldable pub add_mined_credits :
      TxRecord M → BlockMeta → List (Balance A) → Exec S (List (Balance A))
  unfolding create_game_history add_credit record_history
  add_mined_credits rec block balances = do
    balances' ← for_with (add_credit rec block) rec.relevant_tx_out balances
    for_each record_history (create_game_history rec.hash block.height rec.relevant_tx_out)
    pure balances'

  -- No block stands for a transaction that is not mined. The balances come back changed.
  unfoldable pub add_credits :
      TxRecord M → Option BlockMeta → List (Balance A) → Exec S (List (Balance A))
  unfolding add_mined_credits add_unmined_credits
  add_credits rec block balances =
      if length rec.relevant_tx_out == 0
      then pure balances
      else if_nil block
          (if outside.is_coin_base rec.msg_tx
            then raise unexpected_coinbase
            else (add_unmined_credits rec >> pure balances))
          (λ b. add_mined_credits rec b balances)

  -- removeUnminedGameHistory, once the account of a script is known, or not
  unfoldable pub remove_history_of : Hash → PkScript → Result Bytes → Exec S (Unit {0})
  unfolding history_to_remove
  remove_history_of tx_hash ps (err e) = pure tt
  remove_history_of tx_hash ps (ok account) =
      delete_unmined_game_history (fetch_bucket ns_unmined_game_history)
        (history_to_remove tx_hash account ps)

  -- removeUnminedGameHistory at a parsed script, or at the error of the parser
  unfoldable pub remove_history : Hash → Result PkScript → Exec S (Unit {0})
  unfolding remove_history_of is_unsupported
  remove_history tx_hash (err e) = if is_unsupported e then pure tt else raise e
  remove_history tx_hash (ok ps) =
      if ps.is_staking || ps.is_binding
      then remove_history_of tx_hash ps (outside.account_of_address ps.std_encode_address)
      else pure tt

  unfoldable pub remove_unmined_game_history : TxRecord M → Exec S (Unit {0})
  unfolding remove_history
  remove_unmined_game_history rec =
      for_each (λ output. remove_history rec.hash (outside.parse_pk_script output.pk_script))
        (outside.tx_out rec.msg_tx)

  unfoldable pub insert_unmined_inputs : TxRecord M → Exec S (Unit {0})
  insert_unmined_inputs rec =
      for_each
        (λ rel. lift (at (outside.tx_in rec.msg_tx) rel.index) >>= λ prev_out.
          put_raw_unmined_input (fetch_bucket ns_unmined_inputs)
            (canonical_out_point prev_out.hash prev_out.index) rec.hash)
        rec.relevant_tx_in

  unfoldable pub delete_unmined_credits : TxRecord M → Exec S (Unit {0})
  delete_unmined_credits rec =
      for_each
        (λ output.
          delete_raw_unmined_credit (fetch_bucket ns_unmined_credits)
            (canonical_out_point rec.hash (output.0 % 2 ^ 32)))
        (indexed_from 0 (outside.tx_out rec.msg_tx))

  -- a round of deleteUnminedInputs
  unfoldable pub delete_unmined_input : OutPoint → Exec S (Unit {0})
  delete_unmined_input prev_out = do
    let k = canonical_out_point prev_out.hash prev_out.index
    stored ← reads (λ s. ok (exists_raw_unmined_input (fetch_bucket ns_unmined_inputs) k s))
    if ltb 0 (len stored)
        then delete_raw_unmined_input (fetch_bucket ns_unmined_inputs) k
        else pure tt

  unfoldable pub delete_unmined_inputs : TxRecord M → Exec S (Unit {0})
  unfolding delete_unmined_input
  delete_unmined_inputs rec = for_each delete_unmined_input (outside.tx_in rec.msg_tx)

  unfoldable pub remove_game_history_by_wallet_id : Bytes → Exec S (Unit {0})
  remove_game_history_by_wallet_id wallet_id =
      if length wallet_id == 0
      then pure tt
      else (delete_by_prefix (fetch_bucket ns_game_history) wallet_id
          >> delete_by_prefix (fetch_bucket ns_unmined_game_history) wallet_id)
