-- ===== src/Txmgr/Store/BlockCheck.antt =====
-- A block's record after some of its transactions are removed (checkBlockRecordAfterTxRemoved).
use mass_net_wallet.Prelude.{ℕ, ◌<◌, ◌≡◌, ◌^◌, Option, none, some, List, [], ◌∷◌, length, All}
use mass_net_wallet.Prelude.Bytes.{Bytes}
use mass_net_wallet.Prelude.Exec.{Result, ok}
use mass_net_wallet.Db.{Bucket}
use mass_net_wallet.Txmgr.{Hash, IsHash, BlockMeta, IsBlockMeta}
use mass_net_wallet.Txmgr.Blocks.{
  BlockRecord, key_block_record, read_raw_block_record, fetch_block_record,
}
use mass_net_wallet.Txmgr.Store.{Namespace, ns_blocks, IsStore, Outside}

-- what is left of a block record: nothing where it has no transaction any more
unfoldable pub left_of : BlockMeta → List Hash → Option BlockRecord
left_of block [] = none
left_of block (h ∷ hs) = some (record { block = block; transactions = h ∷ hs })

module _ {S M A : Type 0} (outside : Outside M A) (fetch_bucket : Namespace → Bucket S)
    {Ready : ℕ → S → Type 0} (laws : IsStore fetch_bucket Ready) (b : BlockRecord)
    (hashes : List Hash) (s : S) {v : Bytes} (r : Ready 1 s) (meta : IsBlockMeta b.block)
    (time : b.block.timestamp < 2 ^ 64) (all : All IsHash b.transactions)
    (room : length b.transactions < 2 ^ 32)
    (stored : (fetch_bucket ns_blocks).get (key_block_record b.block.height) s ≡ ok (some v))
    (read : read_raw_block_record (key_block_record b.block.height) v ≡ ok b) where
  Checked : List Hash → S → Result (Unit {0}) × S → Type 0
  Checked hs t out =
      (out.0 ≡ ok tt)
      × (fetch_block_record (fetch_bucket ns_blocks) b.block.height out.1 ≡ ok (left_of b.block hs))
