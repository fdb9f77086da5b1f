-- ===== src/Txmgr/Unspent/Credit.antt =====
-- An unspent entry leads to the credit that it stands for.
use mass_net_wallet.Prelude.{
  ℕ, suc, ◌<◌, ◌≡◌, refl, true, Option, some, arith, ◌==◌, ltb, false, length, append_assoc,
}
use mass_net_wallet.Prelude.Bytes.{Bytes, put_be, field_self, lengths}
use mass_net_wallet.Prelude.Exec.{ok, ◌>>=◌}
use mass_net_wallet.Db.{Bucket, IsBucket}
use mass_net_wallet.Db.Rules.{get-put_self}
use mass_net_wallet.Txmgr.{OutPoint, IsOutPoint, BlockMeta, IsBlockMeta}
use mass_net_wallet.Txmgr.Unspent.{
  canonical_unspent_key, value_unspent, credit_key_of, map_result, put_unspent, exists_raw_unspent,
  exists_unspent,
}
use mass_net_wallet.Txmgr.Unspent.Laws.{
  length-canonical_unspent_key, slice-canonical_unspent_key_hash, slice-canonical_unspent_key_index,
}
use mass_net_wallet.Txmgr.Credits.{key_credit}

length-value_unspent : (m : BlockMeta) → IsBlockMeta m → length (value_unspent m) ≡ 40
unfolding value_unspent
length-value_unspent m v = omega (lengths, v.hash_len)

credit_key_of-value_unspent :
    (w : Bytes) (op : OutPoint) (m : BlockMeta)
    → IsOutPoint op
    → IsBlockMeta m
    → credit_key_of (canonical_unspent_key w op.hash op.index) (some (value_unspent m))
      ≡ some (key_credit op.hash op.index m)
unfolding credit_key_of key_credit
credit_key_of-value_unspent w op m v z =
    rw
      (
        slice-canonical_unspent_key_hash w op.hash op.index v.hash_len,
        slice-canonical_unspent_key_index w op.hash op.index v.hash_len,
        field_self 40 (value_unspent m) (length-value_unspent m z),
      )
      (unfold value_unspent in
        rw (append_assoc (put_be 8 m.height) m.hash (put_be 4 op.index)) refl)

-- In a ready store, for a wallet id of 42 bytes, a valid outpoint and a valid block, putUnspent
-- succeeds, and existsUnspent then leads to the key of that credit in bucketCredits.
pub exists-put_unspent :
    {S : Type 0} (ns : Bucket S) {Ready : ℕ → S → Type 0} (laws : IsBucket ns Ready) (n : ℕ)
    (w : Bytes) (op : OutPoint) (m : BlockMeta) (s : S) {o : Option Bytes}
    → Ready (suc n) s
    → length w ≡ 42
    → IsOutPoint op
    → IsBlockMeta m
    → ns.get (canonical_unspent_key w op.hash op.index) s ≡ ok o
    → ((put_unspent ns w op m s).0 ≡ ok tt)
      × (exists_unspent ns w op (put_unspent ns w op m s).1
          ≡ ok (canonical_unspent_key w op.hash op.index, some (key_credit op.hash op.index m)))
unfolding put_unspent exists_unspent exists_raw_unspent map_result ◌>>=◌
exists-put_unspent ns laws n w op m s r e v z g =
    let k = canonical_unspent_key w op.hash op.index in
    let len = length-canonical_unspent_key w op.hash op.index v.hash_len in
    let pos : 0 < length k = omega (arith, len) in
    let full : 0 < length (value_unspent m) = omega (arith, length-value_unspent m z) in
    let right : (length w == 42) ≡ true = ground (arith, e) in
    let long : ltb (length k) 78 ≡ false = ground (arith, len) in
    rw (right, long)
      (
        rw (laws.put_lem n k (value_unspent m) s r pos full).0 refl,
        rw
            (
              get-put_self ns laws n k s (value_unspent m) r pos full g,
              credit_key_of-value_unspent w op m v z,
            )
            refl,
      )
