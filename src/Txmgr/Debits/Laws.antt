-- ===== src/Txmgr/Debits/Laws.antt =====
-- A debit leads back to the credit that its input spends.
use mass_net_wallet.Prelude.{
  ℕ, suc, ◌<◌, ◌≡◌, ◌∙◌, ap, false, Option, some, ◌++◌, arith, ltb, length, length-append,
}
use mass_net_wallet.Prelude.Bytes.{
  Bytes, put_be, slice, field, length-put_be, field_self, length-field, slice-append_skip,
  slice_self, lengths,
}
use mass_net_wallet.Prelude.Exec.{ok, ◌>>=◌}
use mass_net_wallet.Db.{Bucket, IsBucket}
use mass_net_wallet.Db.Rules.{get-put_self}
use mass_net_wallet.Txmgr.{Hash, IsHash, BlockMeta, IsBlockMeta, Amounts}
use mass_net_wallet.Txmgr.Debits.{key_debit, value_debit, debit_found, put_debit, exists_debit}

length-key_debit :
    (h : Hash) (i : ℕ) (m : BlockMeta) → IsHash h → IsBlockMeta m → length (key_debit h i m) ≡ 76
unfolding key_debit
length-key_debit h i m e v = omega (lengths, v.hash_len)

debit_found-value_debit :
    (k : Bytes) (n : ℕ) (cred_key : Bytes)
    → length cred_key ≡ 76
    → debit_found k (ok (some (value_debit n cred_key))) ≡ ok (some (k, cred_key))
unfolding debit_found value_debit
debit_found-value_debit k n cred_key e =
    let long : ltb (length (put_be 8 n ++ field 76 cred_key)) 84 ≡ false = ground (
      arith,
      length-append (put_be 8 n) (field 76 cred_key),
      length-put_be 8 n,
      length-field 76 cred_key,
    ) in
    let part : slice 8 84 (put_be 8 n ++ field 76 cred_key) ≡ cred_key =
      slice-append_skip 8 84 (put_be 8 n) (field 76 cred_key) (length-put_be 8 n) (omega arith)
      ∙ slice_self 76 (field 76 cred_key) (length-field 76 cred_key)
      ∙ field_self 76 cred_key e in
    rw (long, part)

-- In a ready store putDebit with a credit's key of 76 bytes succeeds, and the debit of that input
-- then exists and leads to that key.
pub exists-put_debit :
    {S A : Type 0} (ns : Bucket S) {Ready : ℕ → S → Type 0} (laws : IsBucket ns Ready)
    (amounts : Amounts A) (n : ℕ) (h : Hash) (i : ℕ) (a : A) (m : BlockMeta) (cred_key : Bytes)
    (s : S) {o : Option Bytes}
    → Ready (suc n) s
    → IsHash h
    → IsBlockMeta m
    → length cred_key ≡ 76
    → ns.get (key_debit h i m) s ≡ ok o
    → ((put_debit ns amounts h i a m cred_key s).0 ≡ ok tt)
      × (exists_debit ns h i m (put_debit ns amounts h i a m cred_key s).1
          ≡ ok (some (key_debit h i m, cred_key)))
unfolding put_debit exists_debit ◌>>=◌
exists-put_debit ns laws amounts n h i a m cred_key s r eh em ec g =
    let k = key_debit h i m in
    let v = value_debit (amounts.uint_value a) cred_key in
    let pos : 0 < length k = omega (arith, length-key_debit h i m eh em) in
    let full : 0 < length v = unfold value_debit in omega lengths in
    (
      ground (arith, (laws.put_lem n k v s r pos full).0),
      ap (debit_found k) (get-put_self ns laws n k s v r pos full g)
          ∙ debit_found-value_debit k (amounts.uint_value a) cred_key ec,
    )
