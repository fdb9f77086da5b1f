-- ===== src/Txmgr/Store/Undoing.antt =====
-- masswallet/txmgr/txstore.go: what Rollback does to an input and to an output of a transaction, of a
-- coinbase and of another one.
use mass_net_wallet.Prelude.{
  ℕ, ◌%◌, ◌^◌, Bool, true, false, ◌||◌, List, [], ◌∷◌, ◌++◌, ltb, ◌==◌, if◌then◌else◌,
}
use mass_net_wallet.Prelude.Bytes.{Bytes}
use mass_net_wallet.Prelude.Exec.{
  unexpected, script_hash_not_found, Error, Result, ok, err, Exec, pure, raise, lift, reads, ◌>>=◌,
  ◌>>◌,
}
use mass_net_wallet.Prelude.Keeps.{if_nil}
use mass_net_wallet.Db.{Bucket}
use mass_net_wallet.Txmgr.{Hash, OutPoint, BlockMeta, GameHistory, Credit, is_staking, is_binding}
use mass_net_wallet.Txmgr.Balances.{Balance}
use mass_net_wallet.Txmgr.Unspent.{
  canonical_out_point, canonical_unspent_key, exists_unspent, put_raw_unspent, delete_raw_unspent,
  put_raw_unmined_input, fetch_ns_unspent_value_from_raw_credit,
}
use mass_net_wallet.Txmgr.Credits.{
  exists_credit, delete_raw_credit, unspend_raw_credit, read_raw_credit_key,
  value_unmined_credit_from_mined, put_raw_unmined_credit,
}
use mass_net_wallet.Txmgr.Debits.{exists_debit, delete_raw_debit}
use mass_net_wallet.Txmgr.Addresses.{
  key_address_record, read_address_height, exists_raw_address_record, delete_raw_address_record,
}
use mass_net_wallet.Txmgr.Games.{
  key_game_history, key_unmined_game_history, value_game_history, unwithdraw_game,
}
use mass_net_wallet.Txmgr.Store.{
  Namespace, ns_addresses, ns_game_history, ns_unmined_game_history, ns_unspent, ns_unmined_inputs,
  ns_unmined_credits, ns_credits, ns_debits, PkScript, TxOut, Outside, balance_of, set_balance,
}
use mass_net_wallet.Txmgr.Store.Utxo.{address_record_of}
use mass_net_wallet.Txmgr.Store.Spends.{withdrawn_history}

-- the local variables allMined, coinBaseCredits and heightsToRemove
pub record Undo (A : Type 0) : Type 0 where
  pub balances : List (Balance A)
  pub coin_base_credits : List OutPoint
  pub heights_to_remove : List ℕ

unfoldable pub out_point_of : Hash → ℕ → OutPoint
out_point_of tx_hash i = record { hash = tx_hash; index = i }

-- err == keystore.ErrScriptHashNotFound
is_not_relevant : Error → Bool
is_not_relevant script_hash_not_found = true
is_not_relevant _ = false

unfoldable pub mined_history : Hash → ℕ → Bytes → PkScript → ℕ → GameHistory
mined_history tx_hash i account ps height = record {
  wallet_id = account;
  tx_hash = tx_hash;
  vout = i;
  withdrawn = false;
  is_binding = ps.is_binding;
  block_height = height;
}

module _ {S M A : Type 0} (outside : Outside M A) (fetch_bucket : Namespace → Bucket S) where
  set_undo : List (Balance A) → Undo A → Undo A
  set_undo balances undo = record undo { balances = balances }

  -- The output is unspent no more, and its value leaves the balance.
  unfoldable pub drop_unspent : Bytes → OutPoint → TxOut → Undo A → Exec S (Undo A)
  unfolding set_undo
  drop_unspent account op output undo = do
    found ← reads (exists_unspent (fetch_bucket ns_unspent) account op)
    if_nil found.1 (pure undo) (λ cred_key. do
      delete_raw_unspent (fetch_bucket ns_unspent) found.0
      amt ← lift (outside.amount_from_int output.value)
      balance ←
          lift (outside.money.sub (balance_of outside.money.zero_amount account undo.balances) amt)
      pure (set_undo (set_balance account balance undo.balances) undo))

  -- "check and remove address": one that was first used at this height
  unfoldable pub drop_address : ℕ → Bytes → PkScript → Exec S (Unit {0})
  drop_address cur_height account ps = do
    k ← lift (key_address_record outside.is_valid_address_class (address_record_of account ps 0))
    found ← reads (exists_raw_address_record (fetch_bucket ns_addresses) k)
    if_nil found (pure tt) (λ v.
        if ltb 0 cur_height
        then (lift (read_address_height v) >>= λ height.
            if height == cur_height
            then delete_raw_address_record (fetch_bucket ns_addresses) k
            else pure tt)
        else pure tt)

  -- An output of a coinbase, whose address is in the wallet or not.
  unfoldable pub coin_base_address :
      ℕ → OutPoint → TxOut → PkScript → Undo A → Result Bytes → Exec S (Undo A)
  unfolding drop_unspent drop_address
  coin_base_address cur_height op output ps undo (err e) = pure undo
  coin_base_address cur_height op output ps undo (ok account) = do
    undo' ← drop_unspent account op output undo
    drop_address cur_height account ps
    pure undo'

  unfoldable pub undo_coin_base_output : ℕ → Hash → BlockMeta → ℕ × TxOut → Undo A → Exec S (Undo A)
  unfolding coin_base_address out_point_of
  undo_coin_base_output cur_height tx_hash block (i, output) undo = do
    let op = out_point_of tx_hash (i % 2 ^ 32)
    found ← reads (exists_credit (fetch_bucket ns_credits) tx_hash (i % 2 ^ 32) block)
    if_nil found.1 (pure undo) (λ v. do
      (fetch_bucket ns_credits).delete found.0
      ps ← lift (outside.parse_pk_script output.pk_script)
      coin_base_address cur_height op output ps
          (record undo { coin_base_credits = undo.coin_base_credits ++ (op ∷ []) })
          (outside.account_of_address ps.std_encode_address))

  -- The staking or binding that an input had withdrawn is there again.
  unfoldable pub unwithdraw_spent : Bytes → OutPoint → Bytes → Credit A → Exec S (Unit {0})
  unwithdraw_spent account prev_out cred_key cred =
      if is_staking cred || is_binding cred
      then (lift (read_raw_credit_key cred_key cred) >>= λ read.
          unwithdraw_game (fetch_bucket ns_game_history)
            (withdrawn_history account prev_out (is_binding cred) read.block.height))
      else pure tt

  -- An input that spent a credit, whose script is of the wallet or not.
  unfoldable pub unspent_again :
      OutPoint → Bytes → Credit A → Undo A → Result Bytes → Exec S (Undo A)
  unfolding is_not_relevant set_undo unwithdraw_spent
  unspent_again prev_out cred_key cred undo (err e) =
      if is_not_relevant e then pure undo else raise e
  unspent_again prev_out cred_key cred undo (ok account) = do
    v ← lift (fetch_ns_unspent_value_from_raw_credit cred_key)
    put_raw_unspent (fetch_bucket ns_unspent)
        (canonical_unspent_key account prev_out.hash prev_out.index) v
    balance ←
        lift (
          outside.money.add (balance_of outside.money.zero_amount account undo.balances)
            cred.amount)
    unwithdraw_spent account prev_out cred_key cred
    pure (set_undo (set_balance account balance undo.balances) undo)

  unfoldable pub undo_input : Hash → BlockMeta → ℕ × OutPoint → Undo A → Exec S (Undo A)
  unfolding unspent_again
  undo_input tx_hash block (i, prev_out) undo = do
    put_raw_unmined_input (fetch_bucket ns_unmined_inputs)
        (canonical_out_point prev_out.hash prev_out.index) tx_hash
    debit ← reads (exists_debit (fetch_bucket ns_debits) tx_hash (i % 2 ^ 32) block)
    if_nil debit (pure undo) (λ keys. do
      delete_raw_debit (fetch_bucket ns_debits) keys.0
      found ←
          unspend_raw_credit (fetch_bucket ns_credits) outside.amounts outside.money.zero_amount
            keys.1
      if_nil found (raise unexpected) (λ cred.
          unspent_again prev_out keys.1 cred undo
            (outside.account_of_script_hash cred.script_hash)))

  -- "check and delete game history"
  unfoldable pub drop_history : Hash → ℕ → Bytes → PkScript → ℕ → Exec S (Unit {0})
  unfolding mined_history
  drop_history tx_hash i account ps cur_height =
      if ps.is_staking || ps.is_binding
      then ((fetch_bucket ns_game_history).delete
            (key_game_history (mined_history tx_hash i account ps cur_height))
          >> (fetch_bucket ns_unmined_game_history).put
              (key_unmined_game_history (mined_history tx_hash i account ps cur_height))
              value_game_history)
      else pure tt

  unfoldable pub output_address :
      ℕ → OutPoint → TxOut → PkScript → Undo A → Result Bytes → Exec S (Undo A)
  unfolding drop_unspent drop_address drop_history
  output_address cur_height op output ps undo (err e) = pure undo
  output_address cur_height op output ps undo (ok account) = do
    undo' ← drop_unspent account op output undo
    drop_address cur_height account ps
    drop_history op.hash op.index account ps cur_height
    pure undo'

  unfoldable pub undo_output : ℕ → Hash → BlockMeta → ℕ × TxOut → Undo A → Exec S (Undo A)
  unfolding output_address out_point_of
  undo_output cur_height tx_hash block (i, output) undo = do
    let op = out_point_of tx_hash (i % 2 ^ 32)
    found ← reads (exists_credit (fetch_bucket ns_credits) tx_hash (i % 2 ^ 32) block)
    if_nil found.1 (pure undo) (λ v. do
      delete_raw_credit (fetch_bucket ns_credits) found.0
      w ← lift (value_unmined_credit_from_mined v)
      put_raw_unmined_credit (fetch_bucket ns_unmined_credits)
          (canonical_out_point tx_hash (i % 2 ^ 32)) w
      ps ← lift (outside.parse_pk_script output.pk_script)
      output_address cur_height op output ps undo
          (outside.account_of_address ps.std_encode_address))
