-- ===== src/Ldb/Names.antt =====
-- masswallet/db/ldb/leveldb.go: the names of the buckets in a transaction and in a bucket.
use mass_net_wallet.Prelude.{
  ℕ, zero, suc, ◌+◌, Bool, true, false, not, ◌&&◌, Option, none, some, List, [], ◌∷◌, ◌++◌, ltb,
  ◌==◌, if◌then◌else◌, length,
}
use mass_net_wallet.Prelude.Bytes.{Bytes, bytes_eq}
use mass_net_wallet.Prelude.Exec.{illegal_value, illegal_bucket_path, Result, ok, err}
use mass_net_wallet.Db.{Entry, bytes_prefix}
use mass_net_wallet.Ldb.Path.{
  join_bucket_path, split, itoa, bucket_name_bucket, top_level_bucket_depth, LevelBucket, set_depth,
}
use mass_net_wallet.Ldb.Batch.{batch_get, get_net_puts_by_prefix}
use mass_net_wallet.Ldb.Transaction.{Leveldb, Transaction}

mem : Bytes → List Bytes → Bool
mem k [] = false
mem k (x ∷ xs) = let rest = mem k xs in if bytes_eq x k then true else rest

-- the component at an index of a split path
component : ℕ → List Bytes → Option Bytes
component n [] = none
component zero (x ∷ xs) = some x
component (suc n) (x ∷ xs) = component n xs

-- `len(ss) == i + 1 && ss[i] == value` for the split of an index entry's key
is_index_entry : ℕ → Bytes → Bytes → Bool
unfolding component
is_index_entry i key name =
    let ss = split key in
    length ss == i + 1 && elim (component i ss) [ none ↦ false | some s ↦ bytes_eq s name ]

module _ {D : Type 0} (l : Leveldb D) where
  -- The first loop of BucketNames, over the disk's index entries.
  names_disk : Transaction D → ℕ → List Entry → List Bytes → Result (List Bytes)
  unfolding is_index_entry
  names_disk tx i [] names = ok names
  names_disk tx i (e ∷ es) names =
      let (v, deleted) = batch_get tx.b e.key in
      let name = if tx.read_only then e.value else elim v [ none ↦ e.value | some v' ↦ v' ] in
      let skip = names_disk tx i es names in
      let more = names_disk tx i es (names ++ (name ∷ [])) in
      if not tx.read_only && deleted
      then skip
      else if is_index_entry i e.key name
      then more
      else err illegal_value

  -- The second loop, over the batch's index entries; `set` has the names found so far.
  names_net : ℕ → List Entry → List Bytes → Result (List Bytes)
  unfolding is_index_entry mem
  names_net i [] names = ok names
  names_net i (e ∷ es) names =
      let rest = names_net i es (if mem e.value names then names else names ++ (e.value ∷ [])) in
      if is_index_entry i e.key e.value then rest else err illegal_value

  and_net : Transaction D → ℕ → Bytes → Result (List Bytes) → Result (List Bytes)
  unfolding names_net
  and_net tx i prefix (err e) = err e
  and_net tx i prefix (ok names) =
      if tx.read_only then ok names else names_net i (get_net_puts_by_prefix tx.b prefix) names

  unfoldable pub top_level_bucket_names : Transaction D → Result (List Bytes)
  unfolding names_disk and_net
  top_level_bucket_names tx =
      let prefix = join_bucket_path (bucket_name_bucket ∷ (top_level_bucket_depth ∷ ([] ∷ []))) in
      let (es, failure) = l.scan tx.disk (bytes_prefix prefix) in
      let first = names_disk tx 2 es [] in
      let both = and_net tx 2 prefix first in
      elim first [ err e ↦ err e | ok names ↦ elim failure [ some e ↦ err e | none ↦ both ] ]

  -- Here the iterator's error is looked at last.
  unfoldable pub bucket_names : LevelBucket → Transaction D → Result (List Bytes)
  unfolding names_disk and_net
  bucket_names b tx =
      let ss = split b.path in
      let prefix = join_bucket_path (
        bucket_name_bucket
        ∷ (join_bucket_path (set_depth (itoa (b.depth + 1)) ss ++ ([] ∷ [])) ∷ [])) in
      let (es, failure) = l.scan tx.disk (bytes_prefix prefix) in
      let i = b.depth + 2 in
      let both = and_net tx i prefix (names_disk tx i es []) in
      if ltb (length ss) 2 then err illegal_bucket_path else elim both [
        | err e ↦ err e
        | ok names ↦ elim failure [ some e ↦ err e | none ↦ ok names ]
      ]
