-- ===== src/Txmgr/Store/Undone.antt =====
-- Rollback of masswallet/txmgr/txstore.go: what undoing an input or an output leaves alone, if the
-- writes to the buckets other than that of the unmined transactions do.
use mass_net_wallet.Prelude.{ℕ, ◌≢◌, true, Option, none, some, Bool-cases, inl, inr, ◌==◌}
use mass_net_wallet.Prelude.Bytes.{Bytes}
use mass_net_wallet.Prelude.Exec.{Result, ok, err}
use mass_net_wallet.Prelude.Keeps.{
  Keeps, Keeps-pure, Keeps-raise, Keeps-lift, Keeps-reads, Keeps-wrap, Keeps-bind, Keeps-if,
  Keeps-if_nil,
}
use mass_net_wallet.Db.{Bucket}
use mass_net_wallet.Txmgr.{Hash, OutPoint, BlockMeta, GameHistory, Credit}
use mass_net_wallet.Txmgr.Unspent.{put_raw_unspent, delete_raw_unspent, put_raw_unmined_input}
use mass_net_wallet.Txmgr.Credits.{
  delete_raw_credit, unspend_raw_credit, unspend_found, put_raw_unmined_credit,
}
use mass_net_wallet.Txmgr.Debits.{delete_raw_debit}
use mass_net_wallet.Txmgr.Addresses.{delete_raw_address_record}
use mass_net_wallet.Txmgr.Games.{
  unwithdraw_game, move_game, stored_length, set_withdrawn, key_game_history,
}
use mass_net_wallet.Txmgr.Store.{
  Namespace, ns_unmined, ns_addresses, ns_game_history, ns_unmined_game_history, ns_unspent,
  ns_unmined_inputs, ns_unmined_credits, ns_credits, ns_debits, PkScript, TxOut, Outside,
}
use mass_net_wallet.Txmgr.Store.Undoing.{
  Undo, drop_unspent, drop_address, drop_history, unwithdraw_spent, unspent_again, undo_input,
  output_address, undo_output,
}

module _ {S M A : Type 0} (outside : Outside M A) (fetch_bucket : Namespace → Bucket S)
    (P : S → Type 0)
    (puts : (a : Namespace) → a ≢ ns_unmined → (k v : Bytes) → Keeps P ((fetch_bucket a).put k v))
    (deletes : (a : Namespace)
      → a ≢ ns_unmined
      → (k : Bytes) → Keeps P ((fetch_bucket a).delete k)) where
  drop_unspent-Keeps :
      (account : Bytes) (op : OutPoint) (o : TxOut) (u : Undo A)
      → Keeps P (drop_unspent outside fetch_bucket account op o u)
  unfolding drop_unspent delete_raw_unspent
  drop_unspent-Keeps account op o u = Keeps-bind (Keeps-reads _) (λ found.
      Keeps-if_nil _ (Keeps-pure _) (λ k.
        Keeps-bind (Keeps-wrap (deletes ns_unspent (λ e. cc) _))
          (λ _. Keeps-bind (Keeps-lift _) (λ amt. Keeps-bind (Keeps-lift _) (λ b. Keeps-pure _)))))

  drop_address-Keeps :
      (h : ℕ) (account : Bytes) (ps : PkScript)
      → Keeps P (drop_address outside fetch_bucket h account ps)
  unfolding drop_address delete_raw_address_record
  drop_address-Keeps h account ps = Keeps-bind (Keeps-lift _) (λ k.
      Keeps-bind (Keeps-reads _) (λ found. Keeps-if_nil _ (Keeps-pure _) (λ v.
        Keeps-if _
          (Keeps-bind (Keeps-lift _)
            (λ height. Keeps-if _ (deletes ns_addresses (λ e. cc) _) (Keeps-pure _)))
          (Keeps-pure _))))

  drop_history-Keeps :
      (h : Hash) (i : ℕ) (account : Bytes) (ps : PkScript) (height : ℕ)
      → Keeps P (drop_history outside fetch_bucket h i account ps height)
  unfolding drop_history
  drop_history-Keeps h i account ps height =
      Keeps-if _
        (Keeps-bind (deletes ns_game_history (λ e. cc) _)
          (λ _. puts ns_unmined_game_history (λ e. cc) _ _))
        (Keeps-pure _)

  output_address-Keeps :
      (h : ℕ) (op : OutPoint) (o : TxOut) (ps : PkScript) (u : Undo A) (r : Result Bytes)
      → Keeps P (output_address outside fetch_bucket h op o ps u r)
  unfolding output_address
  output_address-Keeps h op o ps u (err e) = Keeps-pure _
  output_address-Keeps h op o ps u (ok account) =
      Keeps-bind (drop_unspent-Keeps account op o u) (λ u'.
        Keeps-bind (drop_address-Keeps h account ps)
          (λ _. Keeps-bind (drop_history-Keeps op.hash op.index account ps h) (λ _. Keeps-pure _)))

  pub undo_output-Keeps :
      (h : ℕ) (tx_hash : Hash) (b : BlockMeta) (o : ℕ × TxOut) (u : Undo A)
      → Keeps P (undo_output outside fetch_bucket h tx_hash b o u)
  unfolding undo_output delete_raw_credit put_raw_unmined_credit
  undo_output-Keeps h tx_hash b (i, o) u = Keeps-bind (Keeps-reads _) (λ found.
      Keeps-if_nil _ (Keeps-pure _) (λ v.
        Keeps-bind (Keeps-wrap (deletes ns_credits (λ e. cc) _)) (λ _.
          Keeps-bind (Keeps-lift _) (λ w.
            Keeps-bind (Keeps-wrap (puts ns_unmined_credits (λ e. cc) _ _))
              (λ _. Keeps-bind (Keeps-lift _) (λ ps. output_address-Keeps h _ o ps u _))))))

  unwithdraw-Keeps : (g : GameHistory) → Keeps P (unwithdraw_game (fetch_bucket ns_game_history) g)
  unfolding unwithdraw_game move_game
  unwithdraw-Keeps g = record {
    run = λ s h.
        let key = key_game_history (set_withdrawn true g) in
        let stored = stored_length ((fetch_bucket ns_game_history).get key s) in
        elim (Bool-cases (stored == 0)) [
          | inl e ↦ rw e h
          | inr e ↦ rw e (
              (Keeps-bind (deletes ns_game_history (λ x. cc) key)
                  (λ _. puts ns_game_history (λ x. cc) _ _)).run
                s h)
        ];
  }

  unwithdraw_spent-Keeps :
      (account : Bytes) (o : OutPoint) (k : Bytes) (c : Credit A)
      → Keeps P (unwithdraw_spent outside fetch_bucket account o k c)
  unfolding unwithdraw_spent
  unwithdraw_spent-Keeps account o k c =
      Keeps-if _ (Keeps-bind (Keeps-lift _) (λ r. unwithdraw-Keeps _)) (Keeps-pure _)

  unspent_again-Keeps :
      (o : OutPoint) (k : Bytes) (c : Credit A) (u : Undo A) (r : Result Bytes)
      → Keeps P (unspent_again outside fetch_bucket o k c u r)
  unfolding unspent_again put_raw_unspent
  unspent_again-Keeps o k c u (err e) = Keeps-if _ (Keeps-pure _) (Keeps-raise _)
  unspent_again-Keeps o k c u (ok account) = Keeps-bind (Keeps-lift _) (λ v.
      Keeps-bind (Keeps-if _ (Keeps-raise _) (Keeps-wrap (puts ns_unspent (λ e. cc) _ _))) (λ _.
        Keeps-bind (Keeps-lift _)
          (λ b. Keeps-bind (unwithdraw_spent-Keeps account o k c) (λ _. Keeps-pure _))))

  unspend_found-Keeps :
      (z : A) (k : Bytes) (v : Option Bytes)
      → Keeps P (unspend_found (fetch_bucket ns_credits) outside.amounts z k v)
  unfolding unspend_found
  unspend_found-Keeps z k none = Keeps-pure _
  unspend_found-Keeps z k (some v) =
      Keeps-bind (Keeps-wrap (puts ns_credits (λ e. cc) _ _))
        (λ _. Keeps-bind (Keeps-lift _) (λ c. Keeps-pure _))

  pub undo_input-Keeps :
      (tx_hash : Hash) (b : BlockMeta) (o : ℕ × OutPoint) (u : Undo A)
      → Keeps P (undo_input outside fetch_bucket tx_hash b o u)
  unfolding undo_input put_raw_unmined_input delete_raw_debit unspend_raw_credit
  undo_input-Keeps tx_hash b (i, o) u =
      Keeps-bind (Keeps-bind (Keeps-reads _) (λ old. puts ns_unmined_inputs (λ e. cc) _ _)) (λ _.
        Keeps-bind (Keeps-reads _) (λ debit. Keeps-if_nil _ (Keeps-pure _) (λ keys.
          Keeps-bind (Keeps-wrap (deletes ns_debits (λ e. cc) _)) (λ _.
            Keeps-bind
              (Keeps-bind (Keeps-reads _)
                (λ v. unspend_found-Keeps outside.money.zero_amount keys.1 v))
              (λ found.
                Keeps-if_nil _ (Keeps-raise _) (λ c. unspent_again-Keeps o keys.1 c u _))))))
