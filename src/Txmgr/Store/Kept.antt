-- ===== src/Txmgr/Store/Kept.antt =====
-- What the operations of the stores leave as it is: a statement about the transaction that the writes
-- in the buckets of an operation keep is kept by the operation, also where it fails.
use mass_net_wallet.Prelude.{ℕ, zero, suc, inl, inr, Bool-cases, ◌==◌, false, List}
use mass_net_wallet.Prelude.Bytes.{Bytes}
use mass_net_wallet.Prelude.Exec.{Result, ok, err, Exec}
use mass_net_wallet.Prelude.Keeps.{
  Keeps, keeps, Keeps-pure, Keeps-raise, Keeps-lift, Keeps-reads, Keeps-wrap, Keeps-bind, Keeps-if,
  Keeps-if_nil, Keeps-for_each, Keeps-for_with,
}
use mass_net_wallet.Db.{Bucket}
use mass_net_wallet.Txmgr.{Hash, OutPoint, BlockMeta, IndexedIncidence, GameHistory}
use mass_net_wallet.Txmgr.Balances.{Balance}
use mass_net_wallet.Txmgr.Unspent.{delete_raw_unspent, delete_raw_unmined_input}
use mass_net_wallet.Txmgr.Credits.{spend_credit, put_raw_credit, delete_raw_unmined_credit}
use mass_net_wallet.Txmgr.Debits.{put_debit}
use mass_net_wallet.Txmgr.TxRecords.{delete_raw_unmined}
use mass_net_wallet.Txmgr.Games.{
  withdraw_game, move_game, stored_length, set_withdrawn, key_game_history,
  delete_unmined_game_history,
}
use mass_net_wallet.Txmgr.Store.{
  Namespace, ns_unmined, ns_game_history, ns_unmined_game_history, ns_unspent, ns_unmined_inputs,
  ns_unmined_credits, ns_credits, ns_debits, PkScript, RelevantMeta, TxRecord, TxOut, Outside,
  indexed_from,
}
use mass_net_wallet.Txmgr.Store.Utxo.{
  remove_history_of, remove_history, history_to_remove, remove_unmined_game_history,
  delete_unmined_credits, delete_unmined_input, delete_unmined_inputs,
}
use mass_net_wallet.Txmgr.Store.Spends.{
  withdraw_spent, spend_found, spend_input, update_mined_balance,
}
use mass_net_wallet.Txmgr.Store.Unmined.{
  with_unmined, for_spenders, remove_output, remove_conflict, remove_double_spends,
}
use mass_net_wallet.Txmgr.Store.Txs.{leave_pool}

module _ {S M A : Type 0} (outside : Outside M A) (fetch_bucket : Namespace → Bucket S)
    (P : S → Type 0) where
  abbrev pub Puts : Namespace → Type 0
  Puts a = (k v : Bytes) → Keeps P ((fetch_bucket a).put k v)

  abbrev pub Deletes : Namespace → Type 0
  Deletes a = (k : Bytes) → Keeps P ((fetch_bucket a).delete k)

  pub delete_unmined_inputs-Keeps :
      Deletes ns_unmined_inputs
      → (rec : TxRecord M) → Keeps P (delete_unmined_inputs outside fetch_bucket rec)
  unfolding delete_unmined_inputs delete_unmined_input delete_raw_unmined_input
  delete_unmined_inputs-Keeps d rec =
      Keeps-for_each (λ o. Keeps-bind (Keeps-reads _) (λ v. search (keeps, d)))
        (outside.tx_in rec.msg_tx)

  pub delete_unmined_credits-Keeps :
      Deletes ns_unmined_credits
      → (rec : TxRecord M) → Keeps P (delete_unmined_credits outside fetch_bucket rec)
  unfolding delete_unmined_credits delete_raw_unmined_credit
  delete_unmined_credits-Keeps d rec = search (keeps, d)

  -- the deletions of removeUnminedGameHistory
  abbrev pub HistoryDeletes : Hash → Type 0
  HistoryDeletes tx_hash =
      (account : Bytes) (ps : PkScript)
      → Keeps P (
          delete_unmined_game_history (fetch_bucket ns_unmined_game_history)
            (history_to_remove tx_hash account ps))

  remove_history_of-Keeps :
      (tx_hash : Hash)
      → HistoryDeletes tx_hash
      → (ps : PkScript) (r : Result Bytes)
      → Keeps P (remove_history_of outside fetch_bucket tx_hash ps r)
  unfolding remove_history_of
  remove_history_of-Keeps tx_hash d ps (ok account) = d account ps
  remove_history_of-Keeps tx_hash d ps (err e) = Keeps-pure tt

  remove_history-Keeps :
      (tx_hash : Hash)
      → HistoryDeletes tx_hash
      → (r : Result PkScript) → Keeps P (remove_history outside fetch_bucket tx_hash r)
  unfolding remove_history
  remove_history-Keeps tx_hash d (ok ps) =
      Keeps-if _ (remove_history_of-Keeps tx_hash d ps _) (Keeps-pure tt)
  remove_history-Keeps tx_hash d (err e) = Keeps-if _ (Keeps-pure tt) (Keeps-raise e)

  pub remove_unmined_game_history-Keeps :
      (rec : TxRecord M)
      → HistoryDeletes rec.hash
      → Keeps P (remove_unmined_game_history outside fetch_bucket rec)
  unfolding remove_unmined_game_history
  remove_unmined_game_history-Keeps rec d =
      Keeps-for_each (λ o. remove_history-Keeps rec.hash d (outside.parse_pk_script o.pk_script))
        (outside.tx_out rec.msg_tx)

  for_spenders-Keeps :
      (act : TxRecord M → Exec S (Unit {0}))
      → ((rec : TxRecord M) → Keeps P (act rec))
      → (k : Bytes) → Keeps P (for_spenders outside fetch_bucket act k)
  unfolding for_spenders with_unmined
  for_spenders-Keeps act d k = Keeps-bind (Keeps-reads _) (λ hashes.
      Keeps-for_each
        (λ h.
          Keeps-bind (Keeps-reads _)
            (λ v. Keeps-if _ (Keeps-pure tt) (Keeps-bind (Keeps-lift _) (λ read. d _))))
        hashes)

  module _ (credits : Deletes ns_unmined_credits) (inputs : Deletes ns_unmined_inputs)
      (games : Deletes ns_unmined_game_history) (unmined : Deletes ns_unmined) where
    pub remove_output-Keeps :
        (act : TxRecord M → Exec S (Unit {0}))
        → ((rec : TxRecord M) → Keeps P (act rec))
        → (tx_hash : Hash) (o : ℕ × TxOut)
        → Keeps P (remove_output outside fetch_bucket act tx_hash o)
    unfolding remove_output delete_raw_unmined_credit
    remove_output-Keeps act d tx_hash o = search (keeps, credits, for_spenders-Keeps act d)

    pub remove_conflict-Keeps :
        (fuel : ℕ) (rec : TxRecord M) → Keeps P (remove_conflict outside fetch_bucket fuel rec)
    unfolding remove_conflict delete_raw_unmined delete_unmined_game_history
    remove_conflict-Keeps zero rec = Keeps-raise _
    remove_conflict-Keeps (suc fuel) rec =
        Keeps-bind
          (Keeps-for_each
            (remove_output-Keeps (remove_conflict outside fetch_bucket fuel)
              (remove_conflict-Keeps fuel) rec.hash)
            (indexed_from 0 (outside.tx_out rec.msg_tx)))
          (λ _. Keeps-bind (delete_unmined_inputs-Keeps inputs rec) (λ _.
            Keeps-bind (remove_unmined_game_history-Keeps rec (λ account ps. games _))
              (λ _. unmined rec.hash)))

    pub remove_double_spends-Keeps :
        (fuel : ℕ) (rec : TxRecord M) → Keeps P (remove_double_spends outside fetch_bucket fuel rec)
    unfolding remove_double_spends
    remove_double_spends-Keeps fuel rec = search (
      keeps,
      for_spenders-Keeps (remove_conflict outside fetch_bucket fuel) (remove_conflict-Keeps fuel),
      delete_unmined_inputs-Keeps inputs,
    )

    pub leave_pool-Keeps :
        (fuel : ℕ) (rec : TxRecord M) → Keeps P (leave_pool outside fetch_bucket fuel rec)
    unfolding leave_pool delete_raw_unmined
    leave_pool-Keeps fuel rec =
        search
          (keeps, delete_unmined_credits-Keeps credits, unmined, remove_double_spends-Keeps fuel)

  -- what a block's transaction writes before it leaves the pool
  module _ (credits : Puts ns_credits) (debits : Puts ns_debits) (unspent : Deletes ns_unspent)
      (game_put : Puts ns_game_history) (game_delete : Deletes ns_game_history) where
    withdraw_game-Keeps :
        (history : GameHistory) → Keeps P (withdraw_game (fetch_bucket ns_game_history) history)
    unfolding withdraw_game move_game
    withdraw_game-Keeps history = record {
      run = λ s h.
          let key = key_game_history (set_withdrawn false history) in
          let stored = stored_length ((fetch_bucket ns_game_history).get key s) in
          elim (Bool-cases (stored == 0)) [
            | inl e ↦ rw e h
            | inr e ↦ rw e ((Keeps-bind (game_delete key) (λ _. game_put _ _)).run s h)
          ];
    }

    spend_credit-Keeps :
        (k : Bytes) (sp : IndexedIncidence)
        → Keeps P (spend_credit (fetch_bucket ns_credits) outside.amounts k sp)
    unfolding spend_credit put_raw_credit
    spend_credit-Keeps k sp = Keeps-bind (Keeps-reads _) (λ found. Keeps-if _ (Keeps-raise _) (
        Keeps-bind (Keeps-lift _)
          (λ amount. Keeps-bind (Keeps-wrap (credits _ _)) (λ _. Keeps-pure _))))

    withdraw_spent-Keeps :
        (rel : RelevantMeta) (o : OutPoint) (k : Bytes)
        → Keeps P (withdraw_spent outside fetch_bucket rel o k)
    unfolding withdraw_spent
    withdraw_spent-Keeps rel o k = search (keeps, withdraw_game-Keeps)

    spend_found-Keeps :
        (rec : TxRecord M) (b : BlockMeta) (rel : RelevantMeta) (o : OutPoint) (k : Bytes)
        (bs : List (Balance A)) (c : Bytes)
        → Keeps P (spend_found outside fetch_bucket rec b rel o k bs c)
    unfolding spend_found put_debit delete_raw_unspent
    spend_found-Keeps rec b rel o k bs c = Keeps-bind (spend_credit-Keeps _ _) (λ amt.
        Keeps-bind (withdraw_spent-Keeps rel o c) (λ _. Keeps-bind (Keeps-wrap (debits _ _)) (λ _.
          Keeps-bind (Keeps-wrap (unspent _))
            (λ _. Keeps-bind (Keeps-lift _) (λ balance. Keeps-pure _)))))

    pub update_mined_balance-Keeps :
        (rec : TxRecord M) (b : BlockMeta) (bs : List (Balance A))
        → Keeps P (update_mined_balance outside fetch_bucket rec b bs)
    unfolding update_mined_balance spend_input
    update_mined_balance-Keeps rec b bs =
        Keeps-for_with
          (λ rel l. Keeps-bind (Keeps-lift _) (λ o.
            Keeps-bind (Keeps-reads _)
              (λ found. Keeps-if_nil _ (Keeps-raise _) (spend_found-Keeps rec b rel o found.0 l))))
          rec.relevant_tx_in bs
