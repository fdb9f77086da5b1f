-- ===== src/Txmgr/Store/MemPool.antt =====
-- A transaction that comes from the pool is found again (insertMemPoolTx, ExistUnminedTx).
use mathlib.Core.Path.{subst}
use mass_net_wallet.Prelude.{
  ℕ, suc, ◌+◌, sym, List, [], ◌∷◌, ◌<◌, ◌≡◌, ◌^◌, refl, ◌∙◌, false, Option, none, some, ◌++◌,
  length, arith, if◌then◌else◌, All, Bool-cases, inl, inr, ◌==◌,
}
use mass_net_wallet.Prelude.Bytes.{Bytes, put_be, lengths, bytes_eq, bytes_eq_iff}
use mass_net_wallet.Prelude.Exec.{Result, ok, err, Returns, returns, Returns-map, Exec, lift, ◌>>=◌}
use mass_net_wallet.Prelude.Keeps.{for_each}
use mass_net_wallet.Db.{Bucket, now}
use mass_net_wallet.Db.Rules.{get-put_self}
use mass_net_wallet.Txmgr.{IsHash, OutPoint}
use mass_net_wallet.Txmgr.Unspent.{put_raw_unmined_input, canonical_out_point, or_empty}
use mass_net_wallet.Txmgr.TxRecords.{IsMsgTxs, value_unmined, exists_raw_unmined, put_raw_unmined}
use mass_net_wallet.Txmgr.TxRecords.Laws.{read-value_unmined}
use mass_net_wallet.Txmgr.Store.{
  Namespace, ns_unmined, ns_unmined_inputs, IsStore, RelevantMeta, TxRecord, Outside, at, len,
  is_nil, bytes_of,
}
use mass_net_wallet.Txmgr.Store.Utxo.{insert_unmined_inputs}
use mass_net_wallet.Txmgr.Store.Unmined.{insert_mem_pool_tx, exist_unmined_tx}

-- the value of a call that returns
value_of : {X : Type 0} (r : Result X) → Returns (λ _. Unit {0}) r → (x : X) × (r ≡ ok x)
value_of (ok x) h = (x, refl)
value_of (err e) h = elim h [ ]

for_each-step :
    {S X : Type 0} (body : X → Exec S (Unit {0})) (x : X) (xs : List X) (s : S)
    → (body x s).0 ≡ ok tt
    → for_each body (x ∷ xs) s ≡ for_each body xs (body x s).1
unfolding for_each ◌>>=◌
for_each-step body x xs s e = rw e refl

module _ {S M A : Type 0} (outside : Outside M A) (fetch_bucket : Namespace → Bucket S)
    {Ready : ℕ → S → Type 0} (laws : IsStore fetch_bucket Ready) (rec : TxRecord M)
    (hash : IsHash rec.hash) where
  -- A state in which the pool's inputs can be read, the transaction's record has the value `v`, and
  -- `n` writes can be made.
  record InPool (v : Bytes) (n : ℕ) (s : S) : Type 0 where
    ready : Ready n s
    found : (fetch_bucket ns_unmined).get rec.hash s ≡ ok (some v)
    inputs : (j : Bytes) → Returns (λ _. Unit {0}) ((fetch_bucket ns_unmined_inputs).get j s)

  -- The transaction is the last of those that spend the output with this key.
  abbrev pub Ends : Bytes → S → Type 0
  Ends k s =
      (before : Bytes) × ((fetch_bucket ns_unmined_inputs).get k s ≡ ok (some (before ++ rec.hash)))

  -- The input is recorded as spent by the transaction.
  abbrev pub IsRecorded : S → RelevantMeta → Type 0
  IsRecorded s rel =
      Returns (λ (o : OutPoint). Ends (canonical_out_point o.hash o.index) s)
        (at (outside.tx_in rec.msg_tx) rel.index)

  abbrev pub IsThere : RelevantMeta → Type 0
  IsThere rel = Returns (λ _. Unit {0}) (at (outside.tx_in rec.msg_tx) rel.index)

  readable-now :
      (k j v : Bytes) (o p : Result (Option Bytes))
      → Returns (λ _. Unit {0}) o
      → Returns (λ _. Unit {0}) p
      → Returns (λ _. Unit {0}) (if bytes_eq k j then now (some v) o else p)
  readable-now k j v (ok x) p a b = elim (Bool-cases (bytes_eq k j)) [
    | inl e ↦ rw e (returns tt)
    | inr e ↦ rw e b
  ]
  readable-now k j v (err e) p a b = elim a [ ]

  -- what a write of inputs makes of a state: it succeeds, and what ended with the hash still does
  abbrev Written : Bytes → ℕ → S → Result (Unit {0}) × S → Type 0
  Written v n s out = (out.0 ≡ ok tt) × InPool v n out.1 × ((j : Bytes) → Ends j s → Ends j out.1)

  put_input :
      (v : Bytes) (n : ℕ) (o : OutPoint) (s : S)
      → InPool v (suc n) s
      → Written v n s (
          put_raw_unmined_input
            (fetch_bucket ns_unmined_inputs)
            (canonical_out_point o.hash o.index)
            rec.hash
            s)
        × Ends
            (canonical_out_point o.hash o.index)
            (put_raw_unmined_input
              (fetch_bucket ns_unmined_inputs)
              (canonical_out_point o.hash o.index)
              rec.hash
              s).1
  unfolding put_raw_unmined_input ◌>>=◌
  put_input v n o s h =
      let k = canonical_out_point o.hash o.index in
      let (old, e) = value_of ((fetch_bucket ns_unmined_inputs).get k s) (h.inputs k) in
      let w = or_empty old ++ rec.hash in
      let law = laws.is_bucket ns_unmined_inputs in
      let pos : 0 < length k = unfold canonical_out_point in omega (lengths) in
      let full : 0 < length w = omega (lengths, hash) in
      let put = law.put_lem n k w s h.ready pos full in
      let ends : Ends k ((fetch_bucket ns_unmined_inputs).put k w s).1 = (
        or_empty old,
        get-put_self (fetch_bucket ns_unmined_inputs) law n k s w h.ready pos full e,
      ) in
      rw e (
        (
          put.0,
          record {
            ready = put.1;
            found =
                laws.get-put_apart ns_unmined_inputs ns_unmined k w rec.hash s (λ e. cc) ∙ h.found;
            inputs = λ j.
                rw (law.get-put n k w j s h.ready pos full)
                  (readable-now k j w _ _ (h.inputs k) (h.inputs j));
          },
          λ j before. elim (Bool-cases (bytes_eq k j)) [
            | inl same ↦
                subst (λ (x : Bytes). Ends x ((fetch_bucket ns_unmined_inputs).put k w s).1)
                  ((bytes_eq_iff k j).0 same) ends
            | inr other ↦ (before.0, rw (law.get-put n k w j s h.ready pos full, other) before.1)
          ],
        ),
        ends,
      )

  -- the body of insertUnminedInputs
  abbrev insert_input : RelevantMeta → Exec S (Unit {0})
  insert_input rel = lift (at (outside.tx_in rec.msg_tx) rel.index) >>= λ o.
      put_raw_unmined_input (fetch_bucket ns_unmined_inputs) (canonical_out_point o.hash o.index)
        rec.hash

  insert_input-Written :
      (v : Bytes) (n : ℕ) (rel : RelevantMeta) (s : S)
      → IsThere rel
      → InPool v (suc n) s
      → Written v n s (insert_input rel s) × IsRecorded (insert_input rel s).1 rel
  unfolding ◌>>=◌
  insert_input-Written v n rel s there h =
      let (o, e) = value_of (at (outside.tx_in rec.msg_tx) rel.index) there in
      let done = put_input v n o s h in rw e (done.0, returns done.1)

  IsRecorded-kept :
      (s t : S) (rel : RelevantMeta)
      → ((j : Bytes) → Ends j s → Ends j t)
      → IsRecorded s rel
      → IsRecorded t rel
  IsRecorded-kept s t rel k h = Returns-map h (λ o e. k (canonical_out_point o.hash o.index) e)

  inputs_loop :
      (v : Bytes) (rels : List RelevantMeta) (n : ℕ) (s : S)
      → All IsThere rels
      → InPool v (length rels + n) s
      → Written v n s (for_each insert_input rels s)
        × All (IsRecorded (for_each insert_input rels s).1) rels
  inputs_loop v [] n s there h =
      let none_left : 0 + n ≡ n = omega arith in
      let pool = subst (λ (m : ℕ). InPool v m s) none_left h in
      unfold for_each ◌>>=◌ in ((refl, pool, λ j e. e), tt)
  inputs_loop v (rel ∷ rels) n s there h =
      let more : suc (length rels + n) ≡ length (rel ∷ rels) + n = omega arith in
      let (one, recorded) =
        insert_input-Written v (length rels + n) rel s there.0
          (subst (λ (m : ℕ). InPool v m s) (sym more) h) in
      let t = (insert_input rel s).1 in
      let (rest, others) = inputs_loop v rels n t there.1 one.1 in
      subst
        (λ (out : Result (Unit {0}) × S). Written v n s out × All (IsRecorded out.1) (rel ∷ rels))
        (sym (for_each-step insert_input rel rels s one.0))
        (
          (rest.0, rest.1, λ j e. rest.2 j (one.2 j e)),
          (IsRecorded-kept t (for_each insert_input rels t).1 rel rest.2 recorded, others),
        )

  -- In a store that is ready for one write more than the transaction has relevant inputs, with no
  -- unmined record of it, for a transaction that is no coinbase and that encodes, whose time is
  -- below 2^63, whose relevant inputs are there, and where the unmined inputs can be read,
  -- insertMemPoolTx succeeds, ExistUnminedTx then finds the transaction, and the unmined input of
  -- each relevant one ends with its hash.
  pub exist-insert_mem_pool_tx :
      (s : S) {bs : Bytes}
      → Ready (suc (length rec.relevant_tx_in)) s
      → IsMsgTxs outside.msgs
      → outside.is_coin_base rec.msg_tx ≡ false
      → outside.msgs.bytes rec.msg_tx ≡ ok bs
      → rec.received < 2 ^ 63
      → (fetch_bucket ns_unmined).get rec.hash s ≡ ok none
      → ((j : Bytes) → Returns (λ _. Unit {0}) ((fetch_bucket ns_unmined_inputs).get j s))
      → All IsThere rec.relevant_tx_in
      → ((insert_mem_pool_tx outside fetch_bucket rec s).0 ≡ ok tt)
        × (exist_unmined_tx outside fetch_bucket rec.hash
              (insert_mem_pool_tx outside fetch_bucket rec s).1
            ≡ ok rec.msg_tx)
        × All (IsRecorded (insert_mem_pool_tx outside fetch_bucket rec s).1) rec.relevant_tx_in
  unfolding insert_mem_pool_tx exists_raw_unmined put_raw_unmined exist_unmined_tx value_unmined
      is_nil len bytes_of insert_unmined_inputs ◌>>=◌
  exist-insert_mem_pool_tx s {bs} r msgs spends bytes time new inputs there =
      let v = put_be 8 rec.received ++ bs in
      let full : 0 < length v = omega lengths in
      let pos : 0 < length rec.hash = omega (arith, hash) in
      let law = laws.is_bucket ns_unmined in
      let n = length rec.relevant_tx_in in
      let put = law.put_lem n rec.hash v s r pos full in
      let t = ((fetch_bucket ns_unmined).put rec.hash v s).1 in
      let more : n ≡ n + 0 = omega arith in
      let stored : InPool v (n + 0) t = record {
        ready = subst (λ (m : ℕ). Ready m t) more put.1;
        found = get-put_self (fetch_bucket ns_unmined) law n rec.hash s v r pos full new;
        inputs = λ j.
            rw (laws.get-put_apart ns_unmined ns_unmined_inputs rec.hash v j s (λ e. cc))
              (inputs j);
      } in
      let (rest, recorded) = inputs_loop v rec.relevant_tx_in 0 t there stored in
      let some_bytes : (length v == 0) ≡ false = ground (arith, full) in
      let read =
        read-value_unmined outside.msgs rec.received rec.msg_tx {v = v} msgs time
          (unfold value_unmined in rw bytes refl) in
      rw (spends, new, bytes, put.0) (rest.0, rw (rest.1.found, some_bytes, read) refl, recorded)
