-- ===== src/Txmgr/Store/Flags.antt =====
-- The flag SpentByUnmined of what ScriptAddressUnspents finds.
use mathlib.Core.Path.{subst}
use mass_net_wallet.Prelude.{
  ℕ, zero, suc, ◌<◌, ◌^◌, ◌++◌, ◌≤◌, ◌≡◌, refl, ap, ◌∙◌, Bool, true, false, Option, none, some,
  List, [], ◌∷◌, length, arith, if◌then◌else◌, All, Bool-cases, inl, inr, ltb,
}
use mass_net_wallet.Prelude.Bytes.{Bytes, lengths}
use mass_net_wallet.Prelude.Exec.{Error, short, Result, ok, err, and_then, Returns}
use mass_net_wallet.Prelude.Keeps.{
  Keeps, Keeps-pure, Keeps-raise, Keeps-reads, Keeps-lift, Keeps-lift_bind, Keeps-bind, Keeps-if,
  Keeps-for_each, if_nil, ok_inj,
}
use mass_net_wallet.Db.{Bucket, Entry}
use mass_net_wallet.Txmgr.{IsHash, OutPoint, Credit}
use mass_net_wallet.Txmgr.Unspent.{
  canonical_out_point, read_canonical_unspent_key, put_raw_unmined_input, exists_raw_unmined_input,
}
use mass_net_wallet.Txmgr.TxRecords.{put_raw_unmined, IsMsgTxs}
use mass_net_wallet.Txmgr.Store.MemPool.{exist-insert_mem_pool_tx}
use mass_net_wallet.Txmgr.Store.{
  Namespace, ns_unmined, ns_unmined_inputs, IsStore, TxRecord, Outside, at, is_nil,
}
use mass_net_wallet.Txmgr.Store.Utxo.{insert_unmined_inputs}
use mass_net_wallet.Txmgr.Store.Unmined.{insert_mem_pool_tx}
use mass_net_wallet.Txmgr.Store.Scan.{
  Visit, credit_of, item_of, wanted, unspents_loop, unless_failed, script_address_unspents,
}
use mass_net_wallet.Wallet.Eligible.{Utxo}

at-All :
    {X : Type 0} (P : X → Type 0) (xs : List X) (i : ℕ) {x : X} → All P xs → at xs i ≡ ok x → P x
unfolding at
at-All P [] i h e = absurd (cc)
at-All P (y ∷ xs) zero h e = subst P (ok_inj e) h.0
at-All P (y ∷ xs) (suc i) h e = at-All P xs i h.1 e

out_point_length : (o : OutPoint) → IsHash o.hash → length (canonical_out_point o.hash o.index) ≡ 36
unfolding canonical_out_point
out_point_length o h = omega (lengths, h)

-- Every item of a result, if there is one.
Each : {X : Type 0} → (X → Type 0) → Result (List X) → Type 0
Each P (ok xs) = All P xs
Each P (err e) = Unit

module _ {S M A : Type 0} (outside : Outside M A) (fetch_bucket : Namespace → Bucket S) where
  -- no unmined input has a key as long as that of an unspent output
  abbrev pub HasShortKeys : S → Type 0
  HasShortKeys s =
      (j : Bytes)
      → 78 ≤ length j
      → exists_raw_unmined_input (fetch_bucket ns_unmined_inputs) j s ≡ none

  abbrev pub IsNotFlagged : Utxo A → Type 0
  IsNotFlagged u = u.flags.spent_by_unmined ≡ false

  module _ (scripts : List Bytes) (sync_height : ℕ) (filter : Utxo A → Bool × Bool) (s : S)
      (shorter : HasShortKeys s) where
    item_of-IsNotFlagged :
        (k : Bytes) (c : Credit A)
        → 78 ≤ length k
        → IsNotFlagged (item_of outside fetch_bucket sync_height k c s)
    unfolding item_of is_nil
    item_of-IsNotFlagged k c h = rw (shorter k h) refl

    Each-add :
        (stop take : Bool) (u : Utxo A) (rest : Result (List (Utxo A)))
        → IsNotFlagged u
        → Each IsNotFlagged rest
        → Each IsNotFlagged (
            and_then (if stop then ok [] else rest) λ items. ok (if take then u ∷ items else items))
    unfolding Each
    Each-add true true u rest h r = (h, tt)
    Each-add true false u rest h r = tt
    Each-add false true u (ok xs) h r = (h, r)
    Each-add false false u (ok xs) h r = r
    Each-add false take u (err e) h r = tt

    Each-found :
        (k : Bytes) (found : Result (Option (Credit A))) (rest : Result (List (Utxo A)))
        → 78 ≤ length k
        → Each IsNotFlagged rest
        → Each IsNotFlagged (
            and_then found λ o. if_nil o rest (λ c.
              let item = item_of outside fetch_bucket sync_height k c s in
              and_then
                (if (filter item).0 then ok [] else rest)
                λ items. ok (if (filter item).1 then item ∷ items else items)))
    unfolding Each if_nil
    Each-found k (err e) rest h r = tt
    Each-found k (ok none) rest h r = r
    Each-found k (ok (some c)) rest h r =
        let item = item_of outside fetch_bucket sync_height k c s in
        Each-add (filter item).0 (filter item).1 item rest (item_of-IsNotFlagged k c h) r

    wanted_short :
        (e : Entry)
        → ltb (length e.key) 78 ≡ true
        → wanted outside fetch_bucket scripts sync_height e s ≡ err short
    unfolding wanted credit_of read_canonical_unspent_key
    wanted_short e h = rw h refl

    loop-Each :
        (es : List Entry)
        → Each IsNotFlagged (unspents_loop outside fetch_bucket scripts sync_height filter es s)
    unfolding unspents_loop
    loop-Each [] = unfold Each in tt
    loop-Each (e ∷ es) =
        let rest = loop-Each es in
        elim (Bool-cases (ltb (length e.key) 78)) [
          | inl h ↦ rw (wanted_short e h) (unfold Each in tt)
          | inr h ↦
              Each-found e.key (wanted outside fetch_bucket scripts sync_height e s)
                (unspents_loop outside fetch_bucket scripts sync_height filter es s) (ground arith)
                rest
        ]

    Each-unless_failed :
        {X : Type 0} (P : X → Type 0) (f : Option Error) (r : Result (List X)) {xs : List X}
        → Each P r
        → unless_failed f r ≡ ok xs
        → All P xs
    unfolding Each unless_failed
    Each-unless_failed P none (ok xs) h e = subst (All P) (ok_inj e) h
    Each-unless_failed P none (err x) h e = absurd (cc)
    Each-unless_failed P (some f) (ok xs) h e = absurd (cc)
    Each-unless_failed P (some f) (err x) h e = absurd (cc)

    unspents-IsNotFlagged :
        (iterator : Bytes → S → Visit) {us : List (Utxo A)}
        → script_address_unspents outside fetch_bucket scripts sync_height filter iterator s ≡ ok us
        → All IsNotFlagged us
    unfolding script_address_unspents
    unspents-IsNotFlagged iterator e =
        let visit = iterator outside.current_account s in
        Each-unless_failed IsNotFlagged visit.failure
          (unspents_loop outside fetch_bucket scripts sync_height filter visit.entries s)
          (loop-Each visit.entries) e

  module _ {Ready : ℕ → S → Type 0} (laws : IsStore fetch_bucket Ready) (rec : TxRecord M)
      (hashes : All (λ (o : OutPoint). IsHash o.hash) (outside.tx_in rec.msg_tx)) where
    Shorter : S → Type 0
    Shorter s = HasShortKeys s

    same_input :
        (j : Bytes) (t s : S)
        → (fetch_bucket ns_unmined_inputs).get j t ≡ (fetch_bucket ns_unmined_inputs).get j s
        → exists_raw_unmined_input (fetch_bucket ns_unmined_inputs) j t
          ≡ exists_raw_unmined_input (fetch_bucket ns_unmined_inputs) j s
    unfolding exists_raw_unmined_input
    same_input j t s e =
        ap
          (λ (r : Result (Option Bytes)).
            let o : Option Bytes = elim r [ ok v ↦ v | err x ↦ none ] in o)
          e

    put_unmined-Keeps :
        (k v : Bytes) → Keeps Shorter (put_raw_unmined (fetch_bucket ns_unmined) k v)
    unfolding Shorter put_raw_unmined
    put_unmined-Keeps k v = record {
      run = λ s h j long.
          same_input j _ s (laws.get-put_apart ns_unmined ns_unmined_inputs k v j s (λ e. cc))
          ∙ h j long;
    }

    put_input-Keeps :
        (k v : Bytes) → length k ≡ 36 → Keeps Shorter ((fetch_bucket ns_unmined_inputs).put k v)
    unfolding Shorter
    put_input-Keeps k v len = record {
      run = λ s h j long.
          same_input j _ s (
            laws.get-put_ne ns_unmined_inputs k v j s
              (λ e. absurd (omega (arith, len, long, ap (λ (x : Bytes). length x) e))))
          ∙ h j long;
    }

    insert_inputs-Keeps : Keeps Shorter (insert_unmined_inputs outside fetch_bucket rec)
    unfolding insert_unmined_inputs put_raw_unmined_input
    insert_inputs-Keeps =
        Keeps-for_each
          (λ rel. Keeps-lift_bind _ (λ o e. Keeps-bind (Keeps-reads _) (λ old. put_input-Keeps _ _ (
            out_point_length o (
              at-All (λ (o : OutPoint). IsHash o.hash) (outside.tx_in rec.msg_tx) rel.index hashes
                e)))))
          rec.relevant_tx_in

    insert_mem_pool_tx-Keeps : Keeps Shorter (insert_mem_pool_tx outside fetch_bucket rec)
    unfolding insert_mem_pool_tx
    insert_mem_pool_tx-Keeps = Keeps-if _ (Keeps-raise _) (
        Keeps-bind (Keeps-reads _) (λ um.
          Keeps-if _
            (Keeps-bind (Keeps-lift _)
              (λ v. Keeps-bind (put_unmined-Keeps _ _) (λ _. insert_inputs-Keeps)))
            (Keeps-pure _)))

    -- Under the conditions of insertMemPoolTx's success, where the store's unmined inputs all have
    -- keys shorter than 78 bytes and the transaction's inputs have 32-byte hashes, insertMemPoolTx
    -- records the transaction, last, as a spender of each relevant input; ScriptAddressUnspents,
    -- where it then succeeds, still flags nothing that it finds as spent by an unmined
    -- transaction: also not what this one spends.
    pub unspents-insert_mem_pool_tx :
        (scripts : List Bytes) (sync_height : ℕ) (filter : Utxo A → Bool × Bool)
        (iterator : Bytes → S → Visit) (s : S) {bs : Bytes} {us : List (Utxo A)}
        → IsHash rec.hash
        → Ready (suc (length rec.relevant_tx_in)) s
        → IsMsgTxs outside.msgs
        → outside.is_coin_base rec.msg_tx ≡ false
        → outside.msgs.bytes rec.msg_tx ≡ ok bs
        → rec.received < 2 ^ 63
        → (fetch_bucket ns_unmined).get rec.hash s ≡ ok none
        → ((j : Bytes) → Returns (λ _. Unit {0}) ((fetch_bucket ns_unmined_inputs).get j s))
        → All
            (λ rel. Returns (λ _. Unit {0}) (at (outside.tx_in rec.msg_tx) rel.index))
            rec.relevant_tx_in
        → HasShortKeys s
        → script_address_unspents outside fetch_bucket scripts sync_height filter iterator
            (insert_mem_pool_tx outside fetch_bucket rec s).1
          ≡ ok us
        → All
            (λ rel.
              Returns
                (λ (o : OutPoint).
                  (before : Bytes) × ((fetch_bucket ns_unmined_inputs).get
                      (canonical_out_point o.hash o.index)
                      (insert_mem_pool_tx outside fetch_bucket rec s).1
                    ≡ ok (some (before ++ rec.hash))))
                (at (outside.tx_in rec.msg_tx) rel.index))
            rec.relevant_tx_in
          × All IsNotFlagged us
    unspents-insert_mem_pool_tx scripts sync_height filter iterator s h r msgs spends bytes time new
          inputs there shorter e =
        let done =
          exist-insert_mem_pool_tx outside fetch_bucket laws rec h s r msgs spends bytes time new
            inputs there in
        let after = insert_mem_pool_tx-Keeps.run s (unfold Shorter in shorter) in
        (
          done.2,
          unspents-IsNotFlagged scripts sync_height filter
              (insert_mem_pool_tx outside fetch_bucket rec s).1 (unfold Shorter in after) iterator
              e,
        )
