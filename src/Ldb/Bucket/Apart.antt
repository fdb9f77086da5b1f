-- ===== src/Ldb/Bucket/Apart.antt =====
-- Buckets with different paths do not see one another's writes.
use mass_net_wallet.Prelude.{
  ℕ, suc, ◌≡◌, ◌≢◌, refl, sym, ap, ◌∙◌, inl, inr, true, false, [], ◌∷◌, arith, Bool-cases,
}
use mass_net_wallet.Prelude.Bytes.{Bytes, bytes_eq, bytes_eq_iff}
use mass_net_wallet.Prelude.Exec.{ok}
use mass_net_wallet.Ldb.Path.{LevelBucket, inner_key}
use mass_net_wallet.Ldb.Path.Isolation.{IsWellFormed, inner_key_injective}
use mass_net_wallet.Ldb.Batch.{batch_put, batch_delete}
use mass_net_wallet.Ldb.Transaction.{Leveldb, Transaction}
use mass_net_wallet.Ldb.Bucket.{get, put, delete}
use mass_net_wallet.Ldb.Bucket.Reads.{
  IsReady, flat_key, get-get_flat, get_empty, get_flat-put, get_flat-delete, put_flat_key,
  delete_flat_key, delete_empty, one-IsReady,
}

-- Keys of buckets with different paths differ.
pub flat_key-apart :
    (b c : LevelBucket) (k j : Bytes)
    → IsWellFormed b
    → IsWellFormed c
    → b.path ≢ c.path
    → bytes_eq (flat_key b k) (flat_key c j) ≡ false
unfolding flat_key inner_key
flat_key-apart b c k j w z h = elim (Bool-cases (bytes_eq (flat_key b k) (flat_key c j))) [
  | inr e ↦ e
  | inl e ↦ absurd (
      h
        (inner_key_injective b c k j true true w z refl
          (ap ok (sym ((bytes_eq_iff (flat_key b k) (flat_key c j)).0 e)))).0)
]

-- Writes through one bucket change nothing that a bucket with another path reads.
module _ {D : Type 0} (l : Leveldb D) (b c : LevelBucket) where
  -- In a ready transaction, a put through one well-formed bucket changes nothing that a well-
  -- formed bucket with another path reads.
  pub get-put_apart :
      (n : ℕ) (k v j : Bytes) (tx : Transaction D)
      → IsWellFormed b
      → IsWellFormed c
      → b.path ≢ c.path
      → IsReady (suc n) tx
      → get l c j (put l b k v tx).1 ≡ get l c j tx
  get-put_apart n [] v j tx w z h r = unfold put inner_key in ground arith
  get-put_apart n (x ∷ k) [] j tx w z h r = unfold put inner_key in ground arith
  get-put_apart n (x ∷ k) (y ∷ v) [] tx w z h r =
      get_empty l c (put l b (x ∷ k) (y ∷ v) tx).1 ∙ sym (get_empty l c tx)
  get-put_apart n (x ∷ k) (y ∷ v) (i ∷ j) tx w z h r =
      rw
        (
          put_flat_key l b (x ∷ k) (y ∷ v) tx (one-IsReady r) (omega arith) (omega arith),
          get-get_flat l c (i ∷ j) (record tx { b = batch_put tx.b (flat_key b (x ∷ k)) (y ∷ v) })
              (omega arith),
          get-get_flat l c (i ∷ j) tx (omega arith),
        )
        (get_flat-put l (flat_key b (x ∷ k)) (y ∷ v) (flat_key c (i ∷ j)) tx (one-IsReady r)
          ∙ rw (flat_key-apart b c (x ∷ k) (i ∷ j) w z h) refl)

  -- In a ready transaction, a delete through one well-formed bucket changes nothing that a well-
  -- formed bucket with another path reads.
  pub get-delete_apart :
      (n : ℕ) (k j : Bytes) (tx : Transaction D)
      → IsWellFormed b
      → IsWellFormed c
      → b.path ≢ c.path
      → IsReady (suc n) tx
      → get l c j (delete l b k tx).1 ≡ get l c j tx
  get-delete_apart n [] j tx w z h r = rw (delete_empty l b tx (one-IsReady r)) refl
  get-delete_apart n (x ∷ k) [] tx w z h r =
      get_empty l c (delete l b (x ∷ k) tx).1 ∙ sym (get_empty l c tx)
  get-delete_apart n (x ∷ k) (i ∷ j) tx w z h r =
      rw
        (
          delete_flat_key l b (x ∷ k) tx (one-IsReady r) (omega arith),
          get-get_flat l c (i ∷ j) (record tx { b = batch_delete tx.b (flat_key b (x ∷ k)) })
              (omega arith),
          get-get_flat l c (i ∷ j) tx (omega arith),
        )
        (get_flat-delete l (flat_key b (x ∷ k)) (flat_key c (i ∷ j)) tx (one-IsReady r)
          ∙ rw (flat_key-apart b c (x ∷ k) (i ∷ j) w z h) refl)
