-- ===== src/Tests/Ldb.antt =====
-- Concrete runs of the buckets, at which their theorems apply.
use mass_net_wallet.Prelude.{ap, ◌≡◌, ◌≢◌, refl, true, false, some, [], ◌∷◌, arith}
use mass_net_wallet.Prelude.Bytes.{Bytes, bytes_eq, has_prefix}
use mass_net_wallet.Prelude.Exec.{ok, Exec}
use mass_net_wallet.Db.{in_range, bytes_prefix, lookup, IsBucket}
use mass_net_wallet.Db.Prefix.{in_range-bytes_prefix}
use mass_net_wallet.Ldb.Path.{LevelBucket, inner_key, sub_bucket}
use mass_net_wallet.Ldb.Path.Isolation.{IsWellFormed, inner_key_injective, sub_bucket-IsWellFormed}
use mass_net_wallet.Ldb.Batch.{batch_get, batch_put, get_net_puts_by_prefix}
use mass_net_wallet.Ldb.Transaction.{begin_tx, begin_read_tx, update}
use mass_net_wallet.Ldb.Bucket.{get, put, get_by_prefix, level_bucket}
use mass_net_wallet.Ldb.Bucket.Reads.{IsReady, put-IsReady}
use mass_net_wallet.Ldb.Bucket.Apart.{get-put_apart}
use mass_net_wallet.Ldb.Bucket.Commit.{get-update}
use mass_net_wallet.Ldb.Bucket.Prefix.{lookup-get_by_prefix}
use mass_net_wallet.Ldb.Bucket.Contract.{level_bucket-IsBucket}
use mass_net_wallet.Tests.Memory.{memory, memory-IsLeveldb}
use mass_net_wallet.Tests.Store.{
  w, v, Tx, tx, tx-IsReady, w-IsWellFormed, v-IsWellFormed, w-IsBytes,
}

abbrev key : Bytes
key = 1 ∷ (2 ∷ [])

abbrev nine : Bytes
nine = 9 ∷ []

-- the transaction once it has put a pair
abbrev written : Tx
written = (put memory w key nine tx).1

written-IsReady : IsReady 4 written
written-IsReady = (put-IsReady memory w 4 key nine tx tx-IsReady (omega arith) (omega arith)).1

inner_key_injective_example : (w.path ≡ w.path) × (key ≡ key)
inner_key_injective_example =
    inner_key_injective w w key key true false {x = b'1' ∷ (b'_' ∷ (b'w' ∷ (b'_' ∷ key)))}
      w-IsWellFormed w-IsWellFormed (unfold inner_key in refl) (unfold inner_key in refl)

lookup-get_by_prefix_example : lookup key (record { key = key; value = nine } ∷ []) ≡ some nine
unfolding get get_by_prefix put inner_key memory begin_tx batch_get batch_put bytes_eq has_prefix
    get_net_puts_by_prefix lookup
lookup-get_by_prefix_example =
    lookup-get_by_prefix memory memory-IsLeveldb w 4 (1 ∷ []) key written w-IsBytes
      (omega arith, (omega arith, tt)) written-IsReady (omega arith) refl refl

one_put : Exec Tx (Unit {0})
one_put = put memory w key nine

get-update_example : get memory w key (begin_read_tx (update memory one_put []).1) ≡ ok (some nine)
unfolding one_put update begin_tx lookup
get-update_example =
    get-update memory one_put [] w key memory-IsLeveldb written-IsReady.consistent
      (unfold put inner_key memory batch_put in refl)
      (unfold get put inner_key memory batch_get batch_put bytes_eq in refl)

bad_put : Exec Tx (Unit {0})
bad_put = put memory w key []

level_bucket-IsBucket_example : IsBucket (level_bucket memory w) IsReady
level_bucket-IsBucket_example = level_bucket-IsBucket memory w memory-IsLeveldb w-IsBytes

w-ne-v : w.path ≢ v.path
unfolding bytes_eq
w-ne-v e = cc (ap (bytes_eq w.path) e)

get-put_apart_example : get memory v key (put memory w key nine tx).1 ≡ get memory v key tx
get-put_apart_example =
    get-put_apart memory w v 4 key nine key tx w-IsWellFormed v-IsWellFormed w-ne-v tx-IsReady

in_range-bytes_prefix_example : in_range (bytes_prefix (255 ∷ [])) (255 ∷ (0 ∷ [])) ≡ true
unfolding has_prefix
in_range-bytes_prefix_example =
    in_range-bytes_prefix (255 ∷ []) (255 ∷ (0 ∷ [])) (omega arith, (omega arith, tt))

inside : LevelBucket
inside = record {
  name = b'u' ∷ [];
  path = b'2' ∷ (b'_' ∷ (b'w' ∷ (b'_' ∷ (b'u' ∷ []))));
  depth = 2;
}

sub_bucket-IsWellFormed_example : IsWellFormed inside
unfolding inside
sub_bucket-IsWellFormed_example =
    sub_bucket-IsWellFormed w (b'u' ∷ []) w-IsWellFormed (unfold sub_bucket in refl)
