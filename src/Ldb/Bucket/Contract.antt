-- ===== src/Ldb/Bucket/Contract.antt =====
-- A bucket of a LevelDB transaction keeps what the stores rely on.
use mass_net_wallet.Prelude.Bytes.{IsBytes}
use mass_net_wallet.Db.{IsBucket}
use mass_net_wallet.Ldb.Path.{LevelBucket}
use mass_net_wallet.Ldb.Transaction.{Leveldb, IsLeveldb}
use mass_net_wallet.Ldb.Bucket.{level_bucket}
use mass_net_wallet.Ldb.Bucket.Reads.{IsReady, put-IsReady, delete-IsReady, get-put, get-delete}
use mass_net_wallet.Ldb.Bucket.Prefix.{lookup-get_by_prefix}

-- The methods of a bucket, inside any transaction over a LevelDB that behaves as documented, are a
-- `Bucket` in the sense of the interface.
pub level_bucket-IsBucket :
    {D : Type 0} (l : Leveldb D) (b : LevelBucket)
    → IsLeveldb l
    → IsBytes b.path
    → IsBucket (level_bucket l b) IsReady
level_bucket-IsBucket l b laws path = record {
  put_lem = put-IsReady l b;
  delete_lem = delete-IsReady l b;
  get-put = get-put l b;
  get-delete = get-delete l b;
  lookup-get_by_prefix = λ n prefix k s {es} {o} r hk pos e g.
      lookup-get_by_prefix l laws b n prefix k s path hk r pos e g;
}
