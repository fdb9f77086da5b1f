-- ===== src/Tests/Store.antt =====
-- A wallet's bucket in a transaction over a store in memory, for the concrete runs.
use mass_net_wallet.Prelude.{
  ◌^◌, ◌<◌, ◌≡◌, refl, Bool, true, false, List, [], ◌∷◌, arith, ltb, if◌then◌else◌, replicate,
}
use mass_net_wallet.Prelude.Bytes.{IsBytes}
use mass_net_wallet.Prelude.Exec.{ok, err, short}
use mass_net_wallet.Db.{Entry, Bucket, IsBucket}
use mass_net_wallet.Ldb.Path.{LevelBucket, top_level, is_valid_bucket_name}
use mass_net_wallet.Ldb.Path.Isolation.{IsWellFormed, top_level-IsWellFormed}
use mass_net_wallet.Ldb.Batch.Net.{new_batch-IsConsistent}
use mass_net_wallet.Ldb.Transaction.{Transaction, begin_tx}
use mass_net_wallet.Ldb.Bucket.{level_bucket}
use mass_net_wallet.Ldb.Bucket.Reads.{IsReady}
use mass_net_wallet.Ldb.Bucket.Contract.{level_bucket-IsBucket}
use mass_net_wallet.Txmgr.{
  Hash, IsHash, BlockMeta, IsBlockMeta, OutPoint, IsOutPoint, Amounts, IsAmounts,
}
use mass_net_wallet.Tests.Memory.{memory, memory-IsLeveldb}

-- the buckets "w" and "v"
abbrev pub w : LevelBucket
w = record { name = b'w' ∷ []; path = b'1' ∷ (b'_' ∷ (b'w' ∷ [])); depth = 1 }

abbrev pub v : LevelBucket
v = record { name = b'v' ∷ []; path = b'1' ∷ (b'_' ∷ (b'v' ∷ [])); depth = 1 }

pub w-IsWellFormed : IsWellFormed w
unfolding top_level is_valid_bucket_name
w-IsWellFormed = top_level-IsWellFormed (b'w' ∷ []) refl

pub v-IsWellFormed : IsWellFormed v
unfolding top_level is_valid_bucket_name
v-IsWellFormed = top_level-IsWellFormed (b'v' ∷ []) refl

pub w-IsBytes : IsBytes w.path
w-IsBytes = (omega arith, (omega arith, (omega arith, tt)))

abbrev pub Tx : Type 0
Tx = Transaction (List Entry)

abbrev pub tx : Tx
tx = begin_tx []

pub tx-IsReady : IsReady 5 tx
unfolding begin_tx
tx-IsReady = record {
  consistent = new_batch-IsConsistent;
  can_write = λ _. refl;
  room = omega arith;
}

abbrev pub ns : Bucket Tx
ns = level_bucket memory w

pub ns-IsBucket : IsBucket ns IsReady
ns-IsBucket = level_bucket-IsBucket memory w memory-IsLeveldb w-IsBytes

abbrev pub hash_1 : Hash
hash_1 = 1 ∷ replicate 31 0

pub hash_1-IsHash : IsHash hash_1
hash_1-IsHash = refl

abbrev pub block_7 : BlockMeta
block_7 = record { height = 7; hash = hash_1; timestamp = 100 }

pub block_7-IsBlockMeta : IsBlockMeta block_7
block_7-IsBlockMeta = record { hash_len = hash_1-IsHash; height_lt = omega arith }

abbrev pub out_point : OutPoint
out_point = record { hash = hash_1; index = 2 }

pub out_point-IsOutPoint : IsOutPoint out_point
out_point-IsOutPoint = record { hash_len = hash_1-IsHash; index_lt = omega arith }

-- Amounts of zero and one coin of 10^8.
unfoldable pub coins : Amounts Bool
coins = record {
  from_uint = λ n. if ltb n 1 then ok false else if ltb n 100000001 then ok true else err short;
  uint_value = λ c. if c then 100000000 else 0;
}

from_uint-uint_value : (a : Bool) → coins.from_uint (coins.uint_value a) ≡ ok a
unfolding coins
from_uint-uint_value true = refl
from_uint-uint_value false = refl

uint_value-lt : (a : Bool) → coins.uint_value a < 2 ^ 64
unfolding coins
uint_value-lt true = omega arith
uint_value-lt false = omega arith

pub coins-IsAmounts : IsAmounts coins
coins-IsAmounts = record {
  from_uint-uint_value = from_uint-uint_value;
  uint_value-lt = uint_value-lt;
}
