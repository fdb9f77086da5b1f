-- ===== src/Ldb/Bucket/Reads.antt =====
-- What a bucket reads after its own writes, after those of another bucket, and after the commit.
use mass_net_wallet.Prelude.{
  ℕ, suc, ◌+◌, ◌^◌, ◌<◌, ◌≡◌, refl, ◌∙◌, false, Option, none, some, [], ◌∷◌, ◌++◌, arith,
  if◌then◌else◌, length,
}
use mass_net_wallet.Prelude.Bytes.{Bytes, bytes_eq, bytes_eq_iff}
use mass_net_wallet.Prelude.Exec.{Result, ok, err}
use mass_net_wallet.Db.{now}
use mass_net_wallet.Ldb.Path.{LevelBucket, inner_key}
use mass_net_wallet.Ldb.Batch.{batch_get, batch_put, batch_delete}
use mass_net_wallet.Ldb.Batch.Net.{
  IsConsistent, batch_get-batch_put, batch_get-batch_delete, batch_put-IsConsistent,
  batch_delete-IsConsistent,
}
use mass_net_wallet.Ldb.Transaction.{value, absent, failed, Leveldb, Transaction}
use mass_net_wallet.Ldb.Bucket.{get, put, delete}

-- The transaction can be read, and takes `n` more writes: a read transaction takes none, and the
-- 32-bit sequence number of a batch must not wrap.
pub record IsReady {D : Type 0} (n : ℕ) (tx : Transaction D) : Type 0 where
  pub consistent : IsConsistent tx.b
  pub can_write : 0 < n → tx.read_only ≡ false
  pub room : tx.b.seq_no + n < 2 ^ 32

-- The read of a flat key, which is what `get` does with a key that is not empty.
unfoldable pub get_flat : {D : Type 0} → Leveldb D → Bytes → Transaction D → Result (Option Bytes)
get_flat l k tx = elim (l.get tx.disk k) [
  | failed e ↦ err e
  | absent ↦ if tx.read_only then ok none else ok (batch_get tx.b k).0
  | value v ↦
      if tx.read_only
      then ok (some v)
      else if (batch_get tx.b k).1
      then ok none
      else elim (batch_get tx.b k).0 [ none ↦ ok (some v) | some v' ↦ ok (some v') ]
]

unfoldable pub flat_key : LevelBucket → Bytes → Bytes
flat_key b k = b.path ++ (b'_' ∷ k)

module _ {D : Type 0} (l : Leveldb D) where
  pub get-get_flat :
      (b : LevelBucket) (k : Bytes) (tx : Transaction D)
      → 0 < length k
      → get l b k tx ≡ get_flat l (flat_key b k) tx
  unfolding get get_flat inner_key flat_key
  get-get_flat b k tx h = ground arith

  pub get_empty : (b : LevelBucket) (tx : Transaction D) → get l b [] tx ≡ ok none
  unfolding get inner_key
  get_empty b tx = refl

  pub get_flat-put :
      (k v j : Bytes) (tx : Transaction D)
      → IsReady 1 tx
      → get_flat l j (record tx { b = batch_put tx.b k v })
        ≡ (if bytes_eq k j then now (some v) (get_flat l k tx) else get_flat l j tx)
  unfolding get_flat
  get_flat-put k v j tx r = ground (
    arith,
    batch_get-batch_put tx.b r.consistent r.room k v j,
    bytes_eq_iff k j,
    r.can_write (omega arith),
  )

  pub get_flat-delete :
      (k j : Bytes) (tx : Transaction D)
      → IsReady 1 tx
      → get_flat l j (record tx { b = batch_delete tx.b k })
        ≡ (if bytes_eq k j then now none (get_flat l k tx) else get_flat l j tx)
  unfolding get_flat
  get_flat-delete k j tx r = ground (
    arith,
    batch_get-batch_delete tx.b r.consistent r.room k j,
    bytes_eq_iff k j,
    r.can_write (omega arith),
  )

  pub put_flat_key :
      (b : LevelBucket) (k v : Bytes) (tx : Transaction D)
      → IsReady 1 tx
      → 0 < length k
      → 0 < length v
      → put l b k v tx ≡ (ok tt, record tx { b = batch_put tx.b (flat_key b k) v })
  unfolding put inner_key flat_key
  put_flat_key b k v tx r hk hv = ground (arith, r.can_write (omega arith))

  pub delete_flat_key :
      (b : LevelBucket) (k : Bytes) (tx : Transaction D)
      → IsReady 1 tx
      → 0 < length k
      → delete l b k tx ≡ (ok tt, record tx { b = batch_delete tx.b (flat_key b k) })
  unfolding delete inner_key flat_key
  delete_flat_key b k tx r hk = ground (arith, r.can_write (omega arith))

  pub delete_empty :
      (b : LevelBucket) (tx : Transaction D) → IsReady 1 tx → delete l b [] tx ≡ (ok tt, tx)
  unfolding delete inner_key
  delete_empty b tx r = ground (arith, r.can_write (omega arith))

pub one-IsReady : {D : Type 0} {n : ℕ} {tx : Transaction D} → IsReady (suc n) tx → IsReady 1 tx
one-IsReady r = record {
  consistent = r.consistent;
  can_write = λ _. r.can_write (omega arith);
  room = omega (arith, r.room);
}

pub bytes_eq-append : (p xs ys : Bytes) → bytes_eq (p ++ xs) (p ++ ys) ≡ bytes_eq xs ys
unfolding bytes_eq
bytes_eq-append [] xs ys = refl
bytes_eq-append (x ∷ p) xs ys = ground (arith, bytes_eq-append p xs ys)

pub bytes_eq-flat_key :
    (b : LevelBucket) (k j : Bytes) → bytes_eq (flat_key b k) (flat_key b j) ≡ bytes_eq k j
unfolding flat_key
bytes_eq-flat_key b k j =
    bytes_eq-append b.path (b'_' ∷ k) (b'_' ∷ j) ∙ unfold bytes_eq in ground arith

module _ {D : Type 0} (l : Leveldb D) (b : LevelBucket) where
  -- In a ready transaction, after a put of a key and a value that are not empty, a bucket reads
  -- the new value at its key, and what it read before at any other.
  pub get-put :
      (n : ℕ) (k v j : Bytes) (tx : Transaction D)
      → IsReady (suc n) tx
      → 0 < length k
      → 0 < length v
      → get l b j (put l b k v tx).1
        ≡ (if bytes_eq k j then now (some v) (get l b k tx) else get l b j tx)
  get-put n k v [] tx r hk hv =
      ground (arith, get_empty l b tx, get_empty l b (put l b k v tx).1, bytes_eq_iff k [])
  get-put n k v (x ∷ j) tx r hk hv =
      rw
        (
          put_flat_key l b k v tx (one-IsReady r) hk hv,
          get-get_flat l b (x ∷ j) (record tx { b = batch_put tx.b (flat_key b k) v })
              (omega arith),
          get-get_flat l b (x ∷ j) tx (omega arith),
          get-get_flat l b k tx hk,
          ← bytes_eq-flat_key b k (x ∷ j),
        )
        (get_flat-put l (flat_key b k) v (flat_key b (x ∷ j)) tx (one-IsReady r))

  -- In a ready transaction, after a delete a bucket reads nothing at its key, and what it read
  -- before at any other.
  pub get-delete :
      (n : ℕ) (k j : Bytes) (tx : Transaction D)
      → IsReady (suc n) tx
      → get l b j (delete l b k tx).1
        ≡ (if bytes_eq k j then now none (get l b k tx) else get l b j tx)
  get-delete n [] [] tx r =
      rw (delete_empty l b tx (one-IsReady r))
        (ground (arith, get_empty l b tx, bytes_eq_iff [] []))
  get-delete n [] (x ∷ j) tx r =
      rw (delete_empty l b tx (one-IsReady r)) (ground (arith, bytes_eq_iff [] (x ∷ j)))
  get-delete n (c ∷ k) [] tx r =
      ground
        (arith, get_empty l b tx, get_empty l b (delete l b (c ∷ k) tx).1, bytes_eq_iff (c ∷ k) [])
  get-delete n (c ∷ k) (x ∷ j) tx r =
      rw
        (
          delete_flat_key l b (c ∷ k) tx (one-IsReady r) (omega arith),
          get-get_flat l b (x ∷ j) (record tx { b = batch_delete tx.b (flat_key b (c ∷ k)) })
              (omega arith),
          get-get_flat l b (x ∷ j) tx (omega arith),
          get-get_flat l b (c ∷ k) tx (omega arith),
          ← bytes_eq-flat_key b (c ∷ k) (x ∷ j),
        )
        (get_flat-delete l (flat_key b (c ∷ k)) (flat_key b (x ∷ j)) tx (one-IsReady r))

  -- In a ready transaction a put succeeds and uses up one write.
  pub put-IsReady :
      (n : ℕ) (k v : Bytes) (tx : Transaction D)
      → IsReady (suc n) tx
      → 0 < length k
      → 0 < length v
      → ((put l b k v tx).0 ≡ ok tt) × IsReady n (put l b k v tx).1
  put-IsReady n k v tx r hk hv = rw (put_flat_key l b k v tx (one-IsReady r) hk hv) (
    refl,
    record {
      consistent = batch_put-IsConsistent tx.b r.consistent (one-IsReady r).room (flat_key b k) v;
      can_write = λ _. r.can_write (omega arith);
      room = unfold batch_put in omega (arith, r.room);
    },
  )

  pub delete-IsReady :
      (n : ℕ) (k : Bytes) (tx : Transaction D)
      → IsReady (suc n) tx
      → ((delete l b k tx).0 ≡ ok tt) × IsReady n (delete l b k tx).1
  delete-IsReady n [] tx r = rw (delete_empty l b tx (one-IsReady r)) (
    refl,
    record {
      consistent = r.consistent;
      can_write = λ _. r.can_write (omega arith);
      room = omega (arith, r.room);
    },
  )
  delete-IsReady n (c ∷ k) tx r =
      rw (delete_flat_key l b (c ∷ k) tx (one-IsReady r) (omega arith)) (
        refl,
        record {
          consistent =
              batch_delete-IsConsistent tx.b r.consistent (one-IsReady r).room (flat_key b (c ∷ k));
          can_write = λ _. r.can_write (omega arith);
          room = unfold batch_delete in omega (arith, r.room);
        },
      )
