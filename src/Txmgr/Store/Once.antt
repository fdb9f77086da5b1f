-- ===== src/Txmgr/Store/Once.antt =====
-- A mined transaction is inserted once (insertMinedTx).
use mass_net_wallet.Prelude.{ℕ, ◌<◌, ◌≡◌, ◌≢◌, refl, ◌∙◌, Option, none, some, List, length}
use mass_net_wallet.Prelude.Bytes.{Bytes, lengths}
use mass_net_wallet.Prelude.Exec.{Result, ok, ◌>>=◌}
use mass_net_wallet.Prelude.Keeps.{
  Keeps, Leads, Leads-Keeps, Leads-bind, Keeps-reads, Keeps-lift, if_nil, Leads-pure,
}
use mass_net_wallet.Db.{Bucket}
use mass_net_wallet.Db.Rules.{get-put_self}
use mass_net_wallet.Txmgr.{IsHash, BlockLoc, BlockMeta}
use mass_net_wallet.Txmgr.Balances.{Balance}
use mass_net_wallet.Txmgr.Blocks.{put_block_record, put_raw_block_record}
use mass_net_wallet.Txmgr.TxRecords.{
  key_tx_record, tx_record_value, exists_tx_record, put_tx_record,
}
use mass_net_wallet.Txmgr.Store.{
  Namespace, ns_tx_records, ns_blocks, ns_unmined, ns_unmined_inputs, ns_unmined_credits,
  ns_unmined_game_history, ns_credits, ns_debits, ns_unspent, ns_game_history, IsStore, TxRecord,
  Outside, is_nil,
}
use mass_net_wallet.Txmgr.Store.Spends.{update_mined_balance}
use mass_net_wallet.Txmgr.Store.Txs.{
  insert_mined_tx, insert_new_tx, append_block_record, leave_pool,
}
use mass_net_wallet.Txmgr.Store.Kept.{update_mined_balance-Keeps, leave_pool-Keeps}

module _ {S M A : Type 0} (outside : Outside M A) (fetch_bucket : Namespace → Bucket S)
    {Ready : ℕ → S → Type 0} (laws : IsStore fetch_bucket Ready) (rec : TxRecord M)
    (block : BlockMeta) (loc : BlockLoc) where
  -- what is read under the key of the transaction's record
  Recorded : Result (Option Bytes) → S → Type 0
  Recorded o s = (fetch_bucket ns_tx_records).get (key_tx_record rec.hash block) s ≡ o

  put-Recorded :
      (o : Result (Option Bytes)) (a : Namespace)
      → a ≢ ns_tx_records
      → (k v : Bytes) → Keeps (Recorded o) ((fetch_bucket a).put k v)
  unfolding Recorded
  put-Recorded o a apart k v = record {
    run = λ s h. laws.get-put_apart a ns_tx_records k v _ s apart ∙ h;
  }

  delete-Recorded :
      (o : Result (Option Bytes)) (a : Namespace)
      → a ≢ ns_tx_records
      → (k : Bytes) → Keeps (Recorded o) ((fetch_bucket a).delete k)
  unfolding Recorded
  delete-Recorded o a apart k = record {
    run = λ s h. laws.get-delete_apart a ns_tx_records k _ s apart ∙ h;
  }

  -- what is recorded, in a transaction that is ready for `n` writes more
  Roomy : ℕ → Result (Option Bytes) → S → Type 0
  Roomy n o s = Ready n s × Recorded o s

  put_block-Leads :
      (o : Result (Option Bytes)) (k v : Bytes)
      → Leads (Roomy 2 o) ((fetch_bucket ns_blocks).put k v) (λ _. Roomy 1 o)
  unfolding Roomy
  put_block-Leads o k v = record {
    run = λ s h a e.
        (laws.put_ready ns_blocks 1 k v s h.0, (put-Recorded o ns_blocks (λ x. cc) k v).run s h.1);
  }

  append-Leads :
      (o : Result (Option Bytes)) (key : Bytes) (found : Option Bytes)
      → Leads
          (Roomy 2 o)
          (append_block_record outside fetch_bucket rec.hash (key, found) block)
          (λ _. Roomy 1 o)
  unfolding append_block_record put_block_record put_raw_block_record if_nil
  append-Leads o key none = put_block-Leads o _ _
  append-Leads o key (some v) = Leads-bind (Leads-Keeps (Keeps-lift _)) (λ w. put_block-Leads o _ _)

  balance-Keeps :
      (o : Result (Option Bytes)) (bs : List (Balance A))
      → Keeps (Recorded o) (update_mined_balance outside fetch_bucket rec block bs)
  balance-Keeps o bs =
      update_mined_balance-Keeps outside fetch_bucket (Recorded o)
        (put-Recorded o ns_credits (λ e. cc)) (put-Recorded o ns_debits (λ e. cc))
        (delete-Recorded o ns_unspent (λ e. cc)) (put-Recorded o ns_game_history (λ e. cc))
        (delete-Recorded o ns_game_history (λ e. cc)) rec block bs

  pool-Keeps :
      (o : Result (Option Bytes)) (fuel : ℕ)
      → Keeps (Recorded o) (leave_pool outside fetch_bucket fuel rec)
  pool-Keeps o fuel =
      leave_pool-Keeps outside fetch_bucket (Recorded o)
        (delete-Recorded o ns_unmined_credits (λ e. cc))
        (delete-Recorded o ns_unmined_inputs (λ e. cc))
        (delete-Recorded o ns_unmined_game_history (λ e. cc))
        (delete-Recorded o ns_unmined (λ e. cc)) fuel rec

  record-Leads :
      (o : Option Bytes)
      → IsHash rec.hash
      → Leads
          (Roomy 1 (ok o))
          (put_tx_record (fetch_bucket ns_tx_records) rec.hash rec.tx_loc block loc)
          (λ _. Recorded (ok (some (tx_record_value loc rec.tx_loc))))
  unfolding put_tx_record Roomy Recorded ◌>>=◌
  record-Leads o e = record {
    run = λ s h a _.
        let k = key_tx_record rec.hash block in
        let w = tx_record_value loc rec.tx_loc in
        let pos : 0 < length k = unfold key_tx_record in omega (lengths, e) in
        let full : 0 < length w = unfold tx_record_value in omega lengths in
        let law = laws.is_bucket ns_tx_records in
        get-put_self (fetch_bucket ns_tx_records) law 0 k s w h.0 pos full h.1;
  }

  new-Leads :
      (fuel : ℕ) (bs : List (Balance A)) (o : Option Bytes)
      → IsHash rec.hash
      → Leads
          (Roomy 2 (ok o))
          (insert_new_tx outside fetch_bucket fuel rec block loc bs)
          (λ _. Recorded (ok (some (tx_record_value loc rec.tx_loc))))
  unfolding insert_new_tx
  new-Leads fuel bs o e =
      let p = ok (some (tx_record_value loc rec.tx_loc)) in
      Leads-bind (Leads-Keeps (Keeps-reads _)) (λ found.
        Leads-bind (append-Leads (ok o) found.0 found.1) (λ _. Leads-bind (record-Leads o e) (λ _.
          Leads-bind (Leads-Keeps (balance-Keeps p bs)) (λ bs'.
            Leads-bind (Leads-Keeps (pool-Keeps p fuel)) (λ _. Leads-pure bs' (λ s h. h))))))

  module _ (fuel : ℕ) (bs : List (Balance A)) where
    Recorded-skips :
        (v : Bytes) (s : S)
        → Recorded (ok (some v)) s
        → insert_mined_tx outside fetch_bucket fuel rec block loc bs s ≡ (ok bs, s)
    unfolding insert_mined_tx exists_tx_record is_nil Recorded ◌>>=◌
    Recorded-skips v s h = rw h refl

    none_found :
        (s : S)
        → Recorded (ok none) s
        → insert_mined_tx outside fetch_bucket fuel rec block loc bs s
          ≡ insert_new_tx outside fetch_bucket fuel rec block loc bs s
    unfolding insert_mined_tx exists_tx_record is_nil Recorded ◌>>=◌
    none_found s h = rw h refl

    Recorded-insert :
        (o : Option Bytes) (s : S) {bs' : List (Balance A)}
        → IsHash rec.hash
        → Roomy 2 (ok o) s
        → (insert_mined_tx outside fetch_bucket fuel rec block loc bs s).0 ≡ ok bs'
        → (v : Bytes) × Recorded
            (ok (some v))
            (insert_mined_tx outside fetch_bucket fuel rec block loc bs s).1
    Recorded-insert (some v) s e h g = (v, unfold Roomy in rw (Recorded-skips v s h.1) h.1)
    Recorded-insert none s {bs'} e h g = (
      tx_record_value loc rec.tx_loc,
      unfold Roomy in
          rw (none_found s h.1)
            ((new-Leads fuel bs none e).run s h bs' (rw (← none_found s h.1) g)),
    )

-- In a store that is ready for two writes, once insertMinedTx has succeeded on a transaction,
-- whose record could be read, it succeeds again on it with any balances, gives them back unchanged
-- and writes nothing.
pub insert_mined_tx_again :
    {S M A : Type 0} (outside : Outside M A) (fetch_bucket : Namespace → Bucket S)
    {Ready : ℕ → S → Type 0}
    → IsStore fetch_bucket Ready
    → (rec : TxRecord M) (block : BlockMeta) (loc : BlockLoc) (fuel again : ℕ)
      (bs cs : List (Balance A)) (s : S) {o : Option Bytes} {bs' : List (Balance A)}
    → Ready 2 s
    → IsHash rec.hash
    → (fetch_bucket ns_tx_records).get (key_tx_record rec.hash block) s ≡ ok o
    → (insert_mined_tx outside fetch_bucket fuel rec block loc bs s).0 ≡ ok bs'
    → insert_mined_tx outside fetch_bucket again rec block loc cs
        (insert_mined_tx outside fetch_bucket fuel rec block loc bs s).1
      ≡ (ok cs, (insert_mined_tx outside fetch_bucket fuel rec block loc bs s).1)
insert_mined_tx_again outside fetch_bucket laws rec block loc fuel again bs cs s {o} r e g done =
    let (v, h) =
      Recorded-insert outside fetch_bucket laws rec block loc fuel bs o s e
        (unfold Roomy in unfold Recorded in (r, g)) done in
    Recorded-skips outside fetch_bucket laws rec block loc again cs v _ h
