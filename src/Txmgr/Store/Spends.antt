-- ===== src/Txmgr/Store/Spends.antt =====
-- masswallet/txmgr/txstore.go: updateMinedBalance, which spends the outputs that a mined transaction
-- takes, with their histories and debits.
use mass_net_wallet.Prelude.{ℕ, ◌%◌, ◌^◌, Bool, false, ◌||◌, List, if◌then◌else◌}
use mass_net_wallet.Prelude.Bytes.{Bytes}
use mass_net_wallet.Prelude.Exec.{
  unexpected_credit_not_found, Exec, pure, raise, lift, reads, ◌>>=◌, ◌>>◌,
}
use mass_net_wallet.Prelude.Keeps.{for_with, if_nil}
use mass_net_wallet.Db.{Bucket}
use mass_net_wallet.Txmgr.{Hash, OutPoint, BlockMeta, IndexedIncidence, GameHistory}
use mass_net_wallet.Txmgr.Balances.{Balance}
use mass_net_wallet.Txmgr.Unspent.{exists_unspent, delete_raw_unspent}
use mass_net_wallet.Txmgr.Credits.{spend_credit, read_raw_credit_key, blank_credit}
use mass_net_wallet.Txmgr.Debits.{put_debit}
use mass_net_wallet.Txmgr.Games.{withdraw_game}
use mass_net_wallet.Txmgr.Store.{
  Namespace, ns_game_history, ns_unspent, ns_credits, ns_debits, RelevantMeta, TxRecord, Outside,
  at, balance_of, set_balance,
}

unfoldable pub spender_of : Hash → BlockMeta → ℕ → IndexedIncidence
spender_of tx_hash block index = record { tx_hash = tx_hash; block = block; index = index }

-- the history of the staking or binding that an input withdraws
unfoldable pub withdrawn_history : Bytes → OutPoint → Bool → ℕ → GameHistory
withdrawn_history wallet_id prev_out is_binding height = record {
  wallet_id = wallet_id;
  tx_hash = prev_out.hash;
  vout = prev_out.index;
  withdrawn = false;
  is_binding = is_binding;
  block_height = height;
}

module _ {S M A : Type 0} (outside : Outside M A) (fetch_bucket : Namespace → Bucket S) where
  -- the withdrawal of the staking or binding that an input spends
  unfoldable pub withdraw_spent : RelevantMeta → OutPoint → Bytes → Exec S (Unit {0})
  unfolding withdrawn_history
  withdraw_spent rel prev_out cred_key =
      if rel.pk_script.is_binding || rel.pk_script.is_staking
      then (lift (read_raw_credit_key cred_key (blank_credit outside.money.zero_amount)) >>= λ cred.
          withdraw_game (fetch_bucket ns_game_history)
            (withdrawn_history rel.wallet_id prev_out rel.pk_script.is_binding cred.block.height))
      else pure tt

  -- updateMinedBalance, at an input whose previous output and credit are known
  unfoldable pub spend_found :
      TxRecord M
      → BlockMeta
      → RelevantMeta
      → OutPoint
      → Bytes
      → List (Balance A)
      → Bytes
      → Exec S (List (Balance A))
  unfolding spender_of withdraw_spent
  spend_found rec block rel prev_out unspent_key balances cred_key = do
    amt ←
        spend_credit (fetch_bucket ns_credits) outside.amounts cred_key
          (spender_of rec.hash block (rel.index % 2 ^ 32))
    withdraw_spent rel prev_out cred_key
    put_debit (fetch_bucket ns_debits) outside.amounts rec.hash (rel.index % 2 ^ 32) amt block
        cred_key
    delete_raw_unspent (fetch_bucket ns_unspent) unspent_key
    balance ←
        lift (outside.money.sub (balance_of outside.money.zero_amount rel.wallet_id balances) amt)
    pure (set_balance rel.wallet_id balance balances)

  -- a round of updateMinedBalance
  unfoldable pub spend_input :
      TxRecord M → BlockMeta → RelevantMeta → List (Balance A) → Exec S (List (Balance A))
  unfolding spend_found
  spend_input rec block rel balances = do
    prev_out ← lift (at (outside.tx_in rec.msg_tx) rel.index)
    found ← reads (exists_unspent (fetch_bucket ns_unspent) rel.wallet_id prev_out)
    if_nil found.1 (raise unexpected_credit_not_found)
        (spend_found rec block rel prev_out found.0 balances)

  unfoldable pub update_mined_balance :
      TxRecord M → BlockMeta → List (Balance A) → Exec S (List (Balance A))
  unfolding spend_input
  update_mined_balance rec block balances =
      for_with (spend_input rec block) rec.relevant_tx_in balances
