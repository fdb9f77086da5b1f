-- ===== src/Ldb/Transaction.antt =====
-- masswallet/db/ldb/leveldb.go: transactions and the methods of a bucket. The goleveldb package is
-- the parameter `Leveldb`.
use mass_net_wallet.Prelude.{
  ℕ, ◌≡◌, Bool, true, false, not, ◌&&◌, Option, none, some, List, [], ◌∷◌, ◌==◌, if◌then◌else◌, All,
}
use mass_net_wallet.Prelude.Bytes.{Bytes, IsBytes}
use mass_net_wallet.Prelude.Exec.{
  Error, bucket_exist, invalid_bucket_name, write_not_allowed, panic, Result, ok, err, Exec,
}
use mass_net_wallet.Db.{Entry, Range, in_range, lookup}
use mass_net_wallet.Ldb.Path.{
  join_bucket_path, is_valid_bucket_name, LevelBucket, LevelBucketMeta, meta_depth, meta_name,
  sub_bucket, top_level, index_key,
}
use mass_net_wallet.Ldb.Batch.{BatchOp, Batch, new_batch, batch_get, batch_put}
use mass_net_wallet.Ldb.Batch.Net.{last_op}

-- leveldb.DB.Get: a value, ErrNotFound, or another error
pub data Found : Type 0 where
  value : Bytes → Found
  absent : Found
  failed : Error → Found

-- goleveldb over contents `D`. `scan` is an iterator run over a range to its end, with its Error().
pub record Leveldb (D : Type 0) : Type 0 where
  pub get : D → Bytes → Found
  pub scan : D → Range → List Entry × Option Error
  -- the error, if any, and what the disk then holds
  pub write : D → List BatchOp → Result (Unit {0}) × D

abbrev pub is_failed : Found → Bool
is_failed (failed e) = true
is_failed (value v) = false
is_failed absent = false

abbrev pub found_value : Found → Option Bytes
found_value (value v) = some v
found_value absent = none
found_value (failed e) = none

-- A write of operations, for a key whose last one is given.
abbrev pub after : Option (Option Bytes) → Found → Found
after none f = f
after (some none) f = absent
after (some (some v)) f = value v

-- What the documentation of goleveldb says of these calls.
pub record IsLeveldb {D : Type 0} (l : Leveldb D) : Type 0 where
  pub lookup-scan :
      (d : D) (r : Range) (k : Bytes) {es : List Entry}
      → l.scan d r ≡ (es, none)
      → IsBytes k
      → is_failed (l.get d k) ≡ false
      → lookup k es ≡ (if in_range r k then found_value (l.get d k) else none)
  pub scan_within :
      (d : D) (r : Range) {es : List Entry}
      → l.scan d r ≡ (es, none)
      → All (λ (e : Entry). IsBytes e.key × (in_range r e.key ≡ true)) es
  pub get-write :
      (d : D) (ops : List BatchOp) (k : Bytes) {d' : D}
      → l.write d ops ≡ (ok tt, d')
      → l.get d' k ≡ after (last_op k ops) (l.get d k)

-- transaction; `b` is not used where `read_only` is set. `cache` has a bucket for the address of
-- a BucketMeta.
pub record Transaction (D : Type 0) : Type 0 where
  pub read_only : Bool
  pub b : Batch
  pub disk : D
  pub cache : List (ℕ × LevelBucket)

unfoldable pub begin_tx : {D : Type 0} → D → Transaction D
begin_tx d = record { read_only = false; b = new_batch; disk = d; cache = [] }

unfoldable pub begin_read_tx : {D : Type 0} → D → Transaction D
begin_read_tx d = record { read_only = true; b = new_batch; disk = d; cache = [] }

cached : ℕ → List (ℕ × LevelBucket) → Option LevelBucket
cached id [] = none
cached id ((i, b) ∷ rest) = if i == id then some b else cached id rest

is_some : Option Bytes → Bool
is_some none = false
is_some (some v) = true

module _ {D : Type 0} (l : Leveldb D) where
  -- the test of TopLevelBucket, FetchBucket and Bucket: the batch is asked only where the disk has
  -- no entry
  index_exists : Transaction D → Bytes → Bool
  unfolding is_some
  index_exists tx key = elim (l.get tx.disk key) [
    | value v ↦ true
    | absent ↦ not tx.read_only && is_some (batch_get tx.b key).0
    | failed e ↦ false
  ]

  unfoldable pub top_level_bucket : Bytes → Transaction D → Option LevelBucket
  unfolding index_exists
  top_level_bucket name tx =
      let b = top_level name in if index_exists tx (index_key b.path) then some b else none

  fetch_new : ℕ → LevelBucketMeta → Transaction D → Result (Option LevelBucket) × Transaction D
  unfolding index_exists
  fetch_new id meta tx =
      let path = join_bucket_path meta.paths in
      if index_exists tx (index_key path)
      then elim (meta_name meta) [
        | none ↦ (err panic, tx)
        | some name ↦
            let b : LevelBucket = record { name = name; path = path; depth = meta_depth meta } in
            (ok (some b), record tx { cache = (id, b) ∷ tx.cache })
      ]
      else (ok none, tx)

  -- `id` is the address of the meta.
  unfoldable pub fetch_bucket :
      Option (ℕ × LevelBucketMeta) → Exec (Transaction D) (Option LevelBucket)
  unfolding fetch_new cached
  fetch_bucket none tx = (ok none, tx)
  fetch_bucket (some (id, meta)) tx = elim (cached id tx.cache) [
    | some b ↦ (ok (some b), tx)
    | none ↦ fetch_new id meta tx
  ]

  -- the common end of CreateTopLevelBucket and NewBucket
  create_index : LevelBucket → Exec (Transaction D) LevelBucket
  create_index sub tx =
      let key = index_key sub.path in
      let created = record tx { b = batch_put tx.b key sub.name } in
      elim (l.get tx.disk key) [
        | value v ↦ if (batch_get tx.b key).1 then (ok sub, created) else (err bucket_exist, tx)
        | absent ↦ (ok sub, created)
        | failed e ↦ (err e, tx)
      ]

  unfoldable pub create_top_level_bucket : Bytes → Exec (Transaction D) LevelBucket
  unfolding create_index
  create_top_level_bucket name tx =
      if tx.read_only
      then (err write_not_allowed, tx)
      else if not (is_valid_bucket_name name)
      then (err invalid_bucket_name, tx)
      else create_index (top_level name) tx

  unfoldable pub new_bucket : LevelBucket → Bytes → Exec (Transaction D) LevelBucket
  unfolding create_index
  new_bucket b name tx =
      if tx.read_only
      then (err write_not_allowed, tx)
      else elim (sub_bucket b name) [ ok sub ↦ create_index sub tx | err e ↦ (err e, tx) ]

  unfoldable pub bucket : LevelBucket → Bytes → Transaction D → Option LevelBucket
  unfolding index_exists
  bucket b name tx = elim (sub_bucket b name) [
    | ok sub ↦ if index_exists tx (index_key sub.path) then some sub else none
    | err e ↦ none
  ]

  -- Commit: the result, and what the disk holds then.
  unfoldable pub commit : Transaction D → Result (Unit {0}) × D
  commit tx = if tx.read_only then (ok tt, tx.disk) else l.write tx.disk tx.b.b

  unfoldable pub rollback : Transaction D → D
  rollback tx = tx.disk

  -- db.Update and db.View on a LevelDB
  unfoldable pub update : Exec (Transaction D) (Unit {0}) → D → Result (Unit {0}) × D
  unfolding commit rollback
  update f d =
      let (r, tx) = f (begin_tx d) in elim r [ ok u ↦ commit tx | err e ↦ (err e, rollback tx) ]

  unfoldable pub view : (Transaction D → Result (Unit {0})) → D → Result (Unit {0})
  view f d = f (begin_read_tx d)
