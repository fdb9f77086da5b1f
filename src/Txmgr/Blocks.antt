-- ===== src/Txmgr/Blocks.antt =====
-- masswallet/txmgr/txstore_db.go: bucketBlocks, from a height to its block and the hashes of the
-- wallet's transactions in it.
pub mod Laws
use mass_net_wallet.Prelude.{
  ℕ, zero, suc, ◌+◌, ◌*◌, ◌%◌, ◌^◌, ◌≡◌, Bool, true, false, Option, none, some, List, [], ◌∷◌, ◌++◌,
  ltb, if◌then◌else◌, length, take, drop,
}
use mass_net_wallet.Prelude.Bytes.{Bytes, put_be, be, slice, field}
use mass_net_wallet.Prelude.Exec.{short, panic, Result, ok, err, Exec, raise, lift, ◌>>=◌, and_then}
use mass_net_wallet.Db.{Bucket}
use mass_net_wallet.Txmgr.{Hash, BlockMeta}

-- blockRecord, whose BlockMeta has no location in the store
pub record BlockRecord : Type 0 where
  pub block : BlockMeta
  pub transactions : List Hash

unfoldable pub key_block_record : ℕ → Bytes
key_block_record height = put_be 8 height

unfoldable pub value_block_record : BlockMeta → Hash → Bytes
value_block_record block tx_hash =
    block.hash ++ (put_be 8 block.timestamp ++ (put_be 4 1 ++ tx_hash))

-- The count is a uint32.
unfoldable pub append_raw_block_record : Bytes → Hash → Result Bytes
append_raw_block_record v tx_hash =
    if ltb (length v) 44
    then err short
    else (let newv = v ++ tx_hash in
        ok (take 40 newv ++ (put_be 4 ((be (slice 40 44 newv) + 1) % 2 ^ 32) ++ drop 44 newv)))

-- the loop of updateBlockRecord
unfoldable pub append_all : Bytes → List Hash → Result Bytes
append_all v [] = ok v
append_all v (h ∷ hs) = and_then (append_raw_block_record v h) λ w. append_all w hs

unfoldable pub read_block_hash_from_value : Bytes → Result Hash
read_block_hash_from_value v = if ltb (length v) 44 then err short else ok (slice 0 32 v)

-- the loop of readRawBlockRecord: so many hashes from a place in the value
unfoldable pub transactions_from : ℕ → Bytes → List Hash
transactions_from zero v = []
transactions_from (suc n) v = field 32 v ∷ transactions_from n (drop 32 v)

unfoldable pub read_raw_block_record : Bytes → Bytes → Result BlockRecord
unfolding transactions_from
read_raw_block_record k v =
    let num_transactions = be (slice 40 44 v) in
    if ltb (length k) 8
    then err short
    else if ltb (length v) 44
    then err short
    else if ltb (length v) (44 + 32 * num_transactions)
    then err short
    else ok (record {
      block = record {
        height = be (slice 0 8 k);
        hash = slice 0 32 v;
        timestamp = be (slice 32 40 v);
      };
      transactions = transactions_from num_transactions (drop 44 v);
    })

module _ {S : Type 0} (ns : Bucket S) where
  unfoldable pub put_raw_block_record : Bytes → Bytes → Exec S (Unit {0})
  put_raw_block_record k v = ns.put k v

  unfoldable pub put_block_record : BlockMeta → Hash → Exec S (Unit {0})
  put_block_record block tx_hash =
      put_raw_block_record (key_block_record block.height) (value_block_record block tx_hash)

  -- An empty list panics at its first index.
  unfoldable pub update_block_record : BlockMeta → List Hash → Exec S (Unit {0})
  unfolding put_raw_block_record append_all
  update_block_record block [] = raise panic
  update_block_record block (h ∷ hs) = do
    v ← lift (append_all (value_block_record block h) hs)
    put_raw_block_record (key_block_record block.height) v

  unfoldable pub exists_block_record : ℕ → S → Result (Bytes × Option Bytes)
  exists_block_record height s =
      let k = key_block_record height in and_then (ns.get k s) λ v. ok (k, v)

  unfoldable pub delete_block_record : ℕ → Exec S (Unit {0})
  delete_block_record height = ns.delete (key_block_record height)

  unfoldable pub fetch_block_record : ℕ → S → Result (Option BlockRecord)
  unfolding read_raw_block_record
  fetch_block_record height s = and_then (ns.get (key_block_record height) s) λ o. elim o [
    | none ↦ ok none
    | some v ↦ and_then (read_raw_block_record (key_block_record height) v) λ b. ok (some b)
  ]
