-- ===== src/Txmgr/Store/Reorg.antt =====
-- What the pool holds for a transaction that a rollback took out of its block.
use mass_net_wallet.Prelude.{
  ℕ, ◌<◌, ◌≡◌, ◌≢◌, refl, ◌∙◌, true, false, ◌||◌, not, Option, some, length, drop, arith,
}
use mass_net_wallet.Prelude.Bytes.{Bytes, bytes_eq}
use mass_net_wallet.Prelude.Exec.{Error, Result, ok, err, wrapped, ◌>>=◌}
use mass_net_wallet.Prelude.Keeps.{
  Keeps, Leads, Leads-Keeps, Leads-bind, Keeps-bind, Keeps-for_with,
}
use mass_net_wallet.Db.{Bucket}
use mass_net_wallet.Db.Rules.{get-put_self}
use mass_net_wallet.Txmgr.{Hash, IsHash, BlockLoc, BlockMeta}
use mass_net_wallet.Txmgr.TxRecords.{
  TxLoc, exists_tx_record, put_raw_unmined, tx_record_value, key_tx_record, read_raw_unmined,
  exists_raw_unmined,
}
use mass_net_wallet.Txmgr.TxRecords.Laws.{IsLoc, length-tx_record_value, read-tx_record_value}
use mass_net_wallet.Txmgr.Store.{
  Namespace, ns_unmined, ns_tx_records, IsStore, Outside, bytes_of, len,
}
use mass_net_wallet.Txmgr.Store.Unmined.{exist_unmined_tx}
use mass_net_wallet.Txmgr.Store.Undoing.{Undo}
use mass_net_wallet.Txmgr.Store.Rollback.{undo_spending, undo_located, undo_tx}
use mass_net_wallet.Txmgr.Store.Undone.{undo_output-Keeps, undo_input-Keeps}

module _ {S M A : Type 0} (outside : Outside M A) (fetch_bucket : Namespace → Bucket S)
    {Ready : ℕ → S → Type 0} (laws : IsStore fetch_bucket Ready) (tx_hash : Hash)
    (hash : IsHash tx_hash) where
  -- what the bucket of unmined transactions has for the hash
  Holds : Result (Option Bytes) → S → Type 0
  Holds o s = (fetch_bucket ns_unmined).get tx_hash s ≡ o

  put-Holds :
      (o : Result (Option Bytes)) (a : Namespace)
      → a ≢ ns_unmined
      → (k v : Bytes) → Keeps (Holds o) ((fetch_bucket a).put k v)
  unfolding Holds
  put-Holds o a apart k v = record {
    run = λ s h. laws.get-put_apart a ns_unmined k v tx_hash s apart ∙ h;
  }

  delete-Holds :
      (o : Result (Option Bytes)) (a : Namespace)
      → a ≢ ns_unmined
      → (k : Bytes) → Keeps (Holds o) ((fetch_bucket a).delete k)
  unfolding Holds
  delete-Holds o a apart k = record {
    run = λ s h. laws.get-delete_apart a ns_unmined k tx_hash s apart ∙ h;
  }

  undo_spending-Leads :
      (o : Option Bytes) (height : ℕ) (b : BlockMeta) (v : Bytes) (msg : M) (u : Undo A)
      → 0 < length v
      → Leads
          (λ s. Ready 1 s × Holds (ok o) s)
          (undo_spending outside fetch_bucket height tx_hash b v msg u)
          (λ _. Holds (ok (some v)))
  unfolding undo_spending put_raw_unmined
  undo_spending-Leads o height b v msg u full =
      let puts = put-Holds (ok (some v)) in
      let deletes = delete-Holds (ok (some v)) in
      Leads-bind {Q = λ _. Holds (ok (some v))}
        (record {
          run = λ s h a e.
              unfold Holds in
              let law = laws.is_bucket ns_unmined in
              let pos : 0 < length tx_hash = omega (arith, hash) in
              get-put_self (fetch_bucket ns_unmined) law 0 tx_hash s v h.0 pos full h.1;
        })
        (λ _. Leads-Keeps (
          Keeps-bind
            (Keeps-for_with (undo_input-Keeps outside fetch_bucket _ puts deletes tx_hash b) _ u)
            (λ u'.
              Keeps-for_with
                (undo_output-Keeps outside fetch_bucket _ puts deletes height tx_hash b) _ u')))

  module _ (height : ℕ) (b : BlockMeta) (loc : BlockLoc) (tx_loc : TxLoc) (msg : M) (s : S)
      {o : Option Bytes} (r : Ready 2 s) (is_loc : IsLoc loc tx_loc)
      (recorded : (fetch_bucket ns_tx_records).get (key_tx_record tx_hash b) s
        ≡ ok (some (tx_record_value loc tx_loc)))
      (fetched : outside.fetch_tx_by_file_loc loc tx_loc ≡ ok msg)
      (same : (not outside.dev_mode || bytes_eq (outside.tx_hash msg) tx_hash) ≡ true)
      (spends : outside.is_coin_base msg ≡ false)
      (readable : (fetch_bucket ns_unmined).get tx_hash s ≡ ok o) where
    found_refused :
        (v : Bytes) (t : S) {e : Error}
        → (fetch_bucket ns_unmined).get tx_hash t ≡ ok (some v)
        → length v ≡ 28
        → outside.msgs.set_bytes (drop 8 v) ≡ err e
        → exist_unmined_tx outside fetch_bucket tx_hash t ≡ err (wrapped e)
    unfolding exist_unmined_tx exists_raw_unmined read_raw_unmined len bytes_of
    found_refused v t found full refused = rw (found, full, refused) refl

    undo_tx-eq :
        (u : Undo A)
        → undo_tx outside fetch_bucket height b tx_hash u s
          ≡ undo_spending outside fetch_bucket height tx_hash b
              (tx_record_value loc tx_loc)
              msg
              u
              ((fetch_bucket ns_tx_records).delete (key_tx_record tx_hash b) s).1
    unfolding undo_tx undo_located exists_tx_record bytes_of ◌>>=◌
    undo_tx-eq u = rw (
      recorded,
      read-tx_record_value loc tx_loc is_loc,
      fetched,
      same,
      ((laws.is_bucket ns_tx_records).delete_lem 1 (key_tx_record tx_hash b) s r).0,
      spends,
    )

    -- In a store that is ready for two writes, where the rollback of a transaction that is no
    -- coinbase succeeds, the pool has under its hash the place of the transaction in the node's
    -- files, in place of the time and the transaction; and ExistUnminedTx fails, where wire.MsgTx
    -- refuses the last 20 bytes of that place.
    pub exist-undo_tx :
        (u : Undo A) {u' : Undo A} {e : Error}
        → (undo_tx outside fetch_bucket height b tx_hash u s).0 ≡ ok u'
        → outside.msgs.set_bytes (drop 8 (tx_record_value loc tx_loc)) ≡ err e
        → ((fetch_bucket ns_unmined).get tx_hash
              (undo_tx outside fetch_bucket height b tx_hash u s).1
            ≡ ok (some (tx_record_value loc tx_loc)))
          × (exist_unmined_tx outside fetch_bucket tx_hash
                (undo_tx outside fetch_bucket height b tx_hash u s).1
              ≡ err (wrapped e))
    exist-undo_tx u {u'} {e} done refused =
        let v = tx_record_value loc tx_loc in
        let t = ((fetch_bucket ns_tx_records).delete (key_tx_record tx_hash b) s).1 in
        let full : length v ≡ 28 = length-tx_record_value loc tx_loc is_loc in
        let start : Holds (ok o) t =
          (delete-Holds (ok o) ns_tx_records (λ x. cc) (key_tx_record tx_hash b)).run s
            (unfold Holds in readable) in
        let room = ((laws.is_bucket ns_tx_records).delete_lem 1 (key_tx_record tx_hash b) s r).1 in
        let end =
          (undo_spending-Leads o height b v msg u (omega (arith, full))).run t (room, start) u'
            (rw (← undo_tx-eq u) done) in
        rw (undo_tx-eq u) (unfold Holds in (end, found_refused v _ end full refused))
