-- ===== src/Txmgr/Store/Levels.antt =====
-- The buckets of one LevelDB transaction are a store: a write through one changes nothing under another
-- key of it or in another one, also where the sequence number of the batch has wrapped.
use mass_net_wallet.Prelude.{
  ℕ, suc, ◌≡◌, ◌≢◌, refl, ap, sym, ◌∙◌, true, false, Bool-cases, inl, inr, [], ◌∷◌, length, ◌<◌,
  arith, ◌^◌, ◌%◌, ◌+◌,
}
use mass_net_wallet.Prelude.Bytes.{Bytes, IsBytes, bytes_eq}
use mass_net_wallet.Prelude.Exec.{ok}
use mass_net_wallet.Db.Rules.{bytes_eq-ne}
use mass_net_wallet.Ldb.Path.{LevelBucket, inner_key}
use mass_net_wallet.Ldb.Path.Isolation.{IsWellFormed}
use mass_net_wallet.Ldb.Batch.{Batch, batch_get, batch_put, batch_delete}
use mass_net_wallet.Ldb.Batch.Net.{find-store}
use mass_net_wallet.Ldb.Transaction.{Leveldb, IsLeveldb, Transaction}
use mass_net_wallet.Ldb.Bucket.{get, put, delete, level_bucket}
use mass_net_wallet.Ldb.Bucket.Reads.{
  IsReady, get_flat, flat_key, get-get_flat, get_empty, bytes_eq-flat_key, put-IsReady,
}
use mass_net_wallet.Ldb.Bucket.Apart.{flat_key-apart}
use mass_net_wallet.Ldb.Bucket.Contract.{level_bucket-IsBucket}
use mass_net_wallet.Txmgr.Store.{Namespace, IsStore}

batch_get-put_ne :
    (b : Batch) (k v j : Bytes)
    → bytes_eq k j ≡ false
    → batch_get (batch_put b k v) j ≡ batch_get b j
unfolding batch_get batch_put
batch_get-put_ne b k v j h =
    rw (find-store k j (record { bytes = v; seq = (b.seq_no + 1) % 2 ^ 32 }) b.puts, h) refl

batch_get-delete_ne :
    (b : Batch) (k j : Bytes)
    → bytes_eq k j ≡ false
    → batch_get (batch_delete b k) j ≡ batch_get b j
unfolding batch_get batch_delete
batch_get-delete_ne b k j h = rw (find-store k j ((b.seq_no + 1) % 2 ^ 32) b.deletes, h) refl

module _ {D : Type 0} (l : Leveldb D) where
  get-batch_ne :
      (c : LevelBucket) (j : Bytes) (tx : Transaction D) (b : Batch)
      → batch_get b (flat_key c j) ≡ batch_get tx.b (flat_key c j)
      → get l c j (record tx { b = b }) ≡ get l c j tx
  get-batch_ne c [] tx b h = get_empty l c (record tx { b = b }) ∙ sym (get_empty l c tx)
  get-batch_ne c (i ∷ j) tx b h =
      rw
        (
          get-get_flat l c (i ∷ j) (record tx { b = b }) (omega arith),
          get-get_flat l c (i ∷ j) tx (omega arith),
        )
        (unfold get_flat in ground (arith, h))

  refused :
      (b : LevelBucket) (k v : Bytes) (tx : Transaction D)
      → tx.read_only ≡ true
      → (put l b k v tx).1 ≡ tx
  unfolding put
  refused b k v tx e = ground (arith, e)

  written :
      (b : LevelBucket) (k v : Bytes) (tx : Transaction D)
      → tx.read_only ≡ false
      → 0 < length k
      → 0 < length v
      → put l b k v tx ≡ (ok tt, record tx { b = batch_put tx.b (flat_key b k) v })
  unfolding put inner_key flat_key
  written b k v tx e hk hv = ground (arith, e)

  not_deleted :
      (b : LevelBucket) (k : Bytes) (tx : Transaction D)
      → tx.read_only ≡ true
      → (delete l b k tx).1 ≡ tx
  unfolding delete
  not_deleted b k tx e = ground (arith, e)

  deleted :
      (b : LevelBucket) (k : Bytes) (tx : Transaction D)
      → tx.read_only ≡ false
      → 0 < length k
      → delete l b k tx ≡ (ok tt, record tx { b = batch_delete tx.b (flat_key b k) })
  unfolding delete inner_key flat_key
  deleted b k tx e hk = ground (arith, e)

  -- Where the flat keys differ, a write through `b` is not seen through `c`.
  module _ (b c : LevelBucket) (j : Bytes) (tx : Transaction D) where
    get-put_flat_ne :
        (k v : Bytes)
        → bytes_eq (flat_key b k) (flat_key c j) ≡ false
        → get l c j (put l b k v tx).1 ≡ get l c j tx
    get-put_flat_ne [] v h = unfold put inner_key in ground arith
    get-put_flat_ne (x ∷ k) [] h = unfold put inner_key in ground arith
    get-put_flat_ne (x ∷ k) (y ∷ v) h =
        let after =
          get-batch_ne c j tx (batch_put tx.b (flat_key b (x ∷ k)) (y ∷ v))
            (batch_get-put_ne tx.b (flat_key b (x ∷ k)) (y ∷ v) (flat_key c j) h) in
        elim (Bool-cases tx.read_only) [
          | inl e ↦ ap (λ (t : Transaction D). get l c j t) (refused b (x ∷ k) (y ∷ v) tx e)
          | inr e ↦ rw (written b (x ∷ k) (y ∷ v) tx e (omega arith) (omega arith)) after
        ]

    get-delete_flat_ne :
        (k : Bytes)
        → bytes_eq (flat_key b k) (flat_key c j) ≡ false
        → get l c j (delete l b k tx).1 ≡ get l c j tx
    get-delete_flat_ne [] h = unfold delete inner_key in ground arith
    get-delete_flat_ne (x ∷ k) h =
        let after =
          get-batch_ne c j tx (batch_delete tx.b (flat_key b (x ∷ k)))
            (batch_get-delete_ne tx.b (flat_key b (x ∷ k)) (flat_key c j) h) in
        elim (Bool-cases tx.read_only) [
          | inl e ↦ ap (λ (t : Transaction D). get l c j t) (not_deleted b (x ∷ k) tx e)
          | inr e ↦ rw (deleted b (x ∷ k) tx e (omega arith)) after
        ]

  less-IsReady : {n : ℕ} {tx : Transaction D} → IsReady (suc n) tx → IsReady n tx
  less-IsReady r = record {
    consistent = r.consistent;
    can_write = λ _. r.can_write (omega arith);
    room = omega (arith, r.room);
  }

  no_key : (b : LevelBucket) (v : Bytes) (tx : Transaction D) → (put l b [] v tx).1 ≡ tx
  unfolding put inner_key
  no_key b v tx = ground arith

  no_value : (b : LevelBucket) (k : Bytes) (tx : Transaction D) → (put l b k [] tx).1 ≡ tx
  unfolding put
  no_value b k tx = ground arith

  put-IsReady_any :
      (b : LevelBucket) (n : ℕ) (k v : Bytes) (tx : Transaction D)
      → IsReady (suc n) tx
      → IsReady n (put l b k v tx).1
  put-IsReady_any b n [] v tx r = rw (no_key b v tx) (less-IsReady r)
  put-IsReady_any b n (x ∷ k) [] tx r = rw (no_value b (x ∷ k) tx) (less-IsReady r)
  put-IsReady_any b n (x ∷ k) (y ∷ v) tx r =
      (put-IsReady l b n (x ∷ k) (y ∷ v) tx r (omega arith) (omega arith)).1

-- Buckets of one LevelDB transaction, each well formed and no two with one path, are a store: over
-- a LevelDB that behaves as documented, a write through one uses up one of the writes that the
-- transaction is ready for, and changes no read of another key of it or of any key of another one.
pub level_bucket-IsStore :
    {D : Type 0} (l : Leveldb D) (buckets : Namespace → LevelBucket)
    → IsLeveldb l
    → ((a : Namespace) → IsWellFormed (buckets a))
    → ((a : Namespace) → IsBytes (buckets a).path)
    → ((a b : Namespace) → a ≢ b → (buckets a).path ≢ (buckets b).path)
    → IsStore (λ a. level_bucket l (buckets a)) IsReady
level_bucket-IsStore l buckets laws formed bytes apart = record {
  is_bucket = λ a. level_bucket-IsBucket l (buckets a) laws (bytes a);
  put_ready = λ a n k v tx r. put-IsReady_any l (buckets a) n k v tx r;
  get-put_ne = λ a k v j tx h.
      get-put_flat_ne l (buckets a) (buckets a) j tx k v
        (bytes_eq-flat_key (buckets a) k j ∙ bytes_eq-ne k j h);
  get-put_apart = λ a b k v j tx h.
      get-put_flat_ne l (buckets a) (buckets b) j tx k v
        (flat_key-apart (buckets a) (buckets b) k j (formed a) (formed b) (apart a b h));
  get-delete_apart = λ a b k j tx h.
      get-delete_flat_ne l (buckets a) (buckets b) j tx k
        (flat_key-apart (buckets a) (buckets b) k j (formed a) (formed b) (apart a b h));
}
