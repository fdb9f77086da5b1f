-- ===== src/Ldb/Bucket.antt =====
-- masswallet/db/ldb/leveldb.go: reads and writes of a bucket inside a transaction.
pub mod Reads
pub mod Apart
pub mod Commit
pub mod Prefix
pub mod Contract
use mass_net_wallet.Prelude.{
  ℕ, zero, suc, ◌+◌, ◌≡◌, Bool, true, false, not, ◌&&◌, Option, none, some, List, [], ◌∷◌, ◌++◌,
  map, ltb, ◌==◌, if◌then◌else◌, length, drop,
}
use mass_net_wallet.Prelude.Bytes.{Bytes, bytes_eq, has_prefix}
use mass_net_wallet.Prelude.Exec.{Error, illegal_value, write_not_allowed, Result, ok, err, Exec}
use mass_net_wallet.Db.{Entry, bytes_prefix, Bucket}
use mass_net_wallet.Ldb.Path.{join_bucket_path, LevelBucket, inner_key}
use mass_net_wallet.Ldb.Batch.{Batch, batch_get, batch_put, batch_delete, get_net_puts_by_prefix}
use mass_net_wallet.Ldb.Transaction.{Leveldb, value, absent, failed, Transaction}

has_key : Bytes → List Entry → Bool
has_key k [] = false
has_key k (e ∷ es) = let rest = has_key k es in if bytes_eq e.key k then true else rest

module _ {D : Type 0} (l : Leveldb D) where
  unfoldable pub get : LevelBucket → Bytes → Transaction D → Result (Option Bytes)
  get b key tx = elim (inner_key b key false) [
    | err e ↦ ok none
    | ok k ↦ elim (l.get tx.disk k) [
      | failed e ↦ err e
      | absent ↦ if tx.read_only then ok none else ok (batch_get tx.b k).0
      | value v ↦
          if tx.read_only
          then ok (some v)
          else if (batch_get tx.b k).1
          then ok none
          else elim (batch_get tx.b k).0 [ none ↦ ok (some v) | some v' ↦ ok (some v') ]
    ]
  ]

  unfoldable pub put : LevelBucket → Bytes → Bytes → Exec (Transaction D) (Unit {0})
  put b key v tx =
      if tx.read_only
      then (err write_not_allowed, tx)
      else if length v == 0
      then (err illegal_value, tx)
      else elim (inner_key b key false) [
        | err e ↦ (err e, tx)
        | ok k ↦ (ok tt, record tx { b = batch_put tx.b k v })
      ]

  unfoldable pub delete : LevelBucket → Bytes → Exec (Transaction D) (Unit {0})
  delete b key tx =
      if tx.read_only then (err write_not_allowed, tx) else elim (inner_key b key false) [
        | err e ↦ (ok tt, tx)
        | ok k ↦ (ok tt, record tx { b = batch_delete tx.b k })
      ]

  -- What the first loop of GetByPrefix keeps of the disk's entries, under their flat keys.
  disk_kept : Transaction D → List Entry → List Entry
  disk_kept tx [] = []
  disk_kept tx (e ∷ es) =
      let rest = disk_kept tx es in
      if tx.read_only
      then e ∷ rest
      else if (batch_get tx.b e.key).1
      then rest
      else elim (batch_get tx.b e.key).0 [
        | none ↦ e ∷ rest
        | some v ↦ record { key = e.key; value = v } ∷ rest
      ]

  -- The second loop appends the batch's entries that the first one did not meet.
  add_net : List Entry → List Entry → List Entry
  add_net kept [] = kept
  add_net kept (e ∷ es) = add_net (if has_key e.key kept then kept else kept ++ (e ∷ [])) es

  strip : ℕ → Entry → Entry
  strip n e = record { key = drop n e.key; value = e.value }

  unfoldable pub get_by_prefix : LevelBucket → Bytes → Transaction D → Result (List Entry)
  unfolding disk_kept add_net strip has_key
  get_by_prefix b prefix tx = elim (inner_key b prefix true) [
    | err e ↦ ok []
    | ok inner ↦
        let found = l.scan tx.disk (bytes_prefix inner) in
        let kept = disk_kept tx found.0 in
        let all = if tx.read_only then kept else add_net kept (get_net_puts_by_prefix tx.b inner) in
        elim found.1 [ some e ↦ err e | none ↦ ok (map (strip (length b.path + 1)) all) ]
  ]

  -- a loop of Clear: delete what the batch has not deleted
  delete_all : List Entry → Batch → Batch
  delete_all [] b = b
  delete_all (e ∷ es) b = delete_all es (if (batch_get b e.key).1 then b else batch_delete b e.key)

  delete_keys : List Entry → Batch → Batch
  delete_keys [] b = b
  delete_keys (e ∷ es) b = delete_keys es (batch_delete b e.key)

  unfoldable pub clear : LevelBucket → Exec (Transaction D) (Unit {0})
  unfolding delete_all delete_keys
  clear b tx =
      if tx.read_only
      then (err write_not_allowed, tx)
      else (let prefix = join_bucket_path (b.path ∷ ([] ∷ [])) in
          let found = l.scan tx.disk (bytes_prefix prefix) in
          let b1 = delete_all found.0 tx.b in
          let b2 = delete_keys (get_net_puts_by_prefix b1 prefix) b1 in
          (elim found.1 [ some e ↦ err e | none ↦ ok tt ], record tx { b = b2 }))

  -- the methods that the stores call
  abbrev pub level_bucket : LevelBucket → Bucket (Transaction D)
  level_bucket b = record {
    get = get b;
    put = put b;
    delete = delete b;
    get_by_prefix = get_by_prefix b;
  }
