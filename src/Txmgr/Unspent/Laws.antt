-- ===== src/Txmgr/Unspent/Laws.antt =====
-- The keys and values of bucketUnspent and bucketUnminedInputs.
use mass_net_wallet.Prelude.{ℕ, ◌≡◌, ◌∙◌, ◌++◌, arith, length}
use mass_net_wallet.Prelude.Bytes.{
  Bytes, put_be, slice, field, be-put_be, length-put_be, field_self, length-field,
  slice-append_skip, slice-append_head, slice_self, lengths,
}
use mass_net_wallet.Prelude.Exec.{ok}
use mass_net_wallet.Txmgr.{Hash, IsHash, OutPoint, IsOutPoint, BlockMeta, IsBlockMeta}
use mass_net_wallet.Txmgr.Unspent.{
  canonical_unspent_key, read_canonical_unspent_key, value_unspent, read_block_of_unspent,
}

pub length-canonical_unspent_key :
    (w : Bytes) (h : Hash) (i : ℕ) → IsHash h → length (canonical_unspent_key w h i) ≡ 78
unfolding canonical_unspent_key
length-canonical_unspent_key w h i e = omega lengths

-- The wallet id, the hash and the index are each read back from an unspent key.
pub slice-canonical_unspent_key_hash :
    (w : Bytes) (h : Hash) (i : ℕ) → IsHash h → slice 42 74 (canonical_unspent_key w h i) ≡ h
unfolding canonical_unspent_key
slice-canonical_unspent_key_hash w h i e =
    slice-append_skip 42 74 (field 42 w) (h ++ put_be 4 i) (length-field 42 w) (omega arith)
    ∙ slice-append_head 32 h (put_be 4 i) e

pub slice-canonical_unspent_key_index :
    (w : Bytes) (h : Hash) (i : ℕ)
    → IsHash h
    → slice 74 78 (canonical_unspent_key w h i) ≡ put_be 4 i
unfolding canonical_unspent_key
slice-canonical_unspent_key_index w h i e =
    slice-append_skip 74 78 (field 42 w) (h ++ put_be 4 i) (length-field 42 w) (omega arith)
    ∙ slice-append_skip 32 36 h (put_be 4 i) e (omega arith)
    ∙ slice_self 4 (put_be 4 i) (length-put_be 4 i)

slice-canonical_unspent_key_wallet :
    (w : Bytes) (h : Hash) (i : ℕ) → length w ≡ 42 → slice 0 42 (canonical_unspent_key w h i) ≡ w
unfolding canonical_unspent_key
slice-canonical_unspent_key_wallet w h i e =
    slice-append_head 42 (field 42 w) (h ++ put_be 4 i) (length-field 42 w) ∙ field_self 42 w e

-- An outpoint is read back from its unspent key, whatever the wallet.
pub read-canonical_unspent_key :
    (w : Bytes) (op : OutPoint)
    → IsOutPoint op
    → read_canonical_unspent_key (canonical_unspent_key w op.hash op.index) ≡ ok op
unfolding read_canonical_unspent_key
read-canonical_unspent_key w op v = ground (
  arith,
  length-canonical_unspent_key w op.hash op.index v.hash_len,
  slice-canonical_unspent_key_hash w op.hash op.index v.hash_len,
  slice-canonical_unspent_key_index w op.hash op.index v.hash_len,
  be-put_be 4 op.index v.index_lt,
)

-- Unspent keys of wallet ids of 42 bytes and of valid outpoints are equal only where the wallets
-- and the outpoints are.
pub canonical_unspent_key_injective :
    (w u : Bytes) (op oq : OutPoint)
    → length w ≡ 42
    → length u ≡ 42
    → IsOutPoint op
    → IsOutPoint oq
    → canonical_unspent_key w op.hash op.index ≡ canonical_unspent_key u oq.hash oq.index
    → (w ≡ u) × (op ≡ oq)
canonical_unspent_key_injective w u op oq lw lu v z e = (
  cc (
    slice-canonical_unspent_key_wallet w op.hash op.index lw,
    slice-canonical_unspent_key_wallet u oq.hash oq.index lu,
    e,
  ),
  cc (read-canonical_unspent_key w op v, read-canonical_unspent_key u oq z, e),
)

-- The height and the hash of a valid block are read back from the value of an unspent entry; the
-- timestamp stays what it was.
pub read-value_unspent :
    (m b : BlockMeta)
    → IsBlockMeta m
    → read_block_of_unspent (value_unspent m) b ≡ ok (record m { timestamp = b.timestamp })
unfolding read_block_of_unspent value_unspent
read-value_unspent m b v =
    let len : length (put_be 8 m.height ++ m.hash) ≡ 40 = omega (lengths, v.hash_len) in
    let height = slice-append_head 8 (put_be 8 m.height) m.hash (length-put_be 8 m.height) in
    let hash =
      slice-append_skip 8 40 (put_be 8 m.height) m.hash (length-put_be 8 m.height) (omega arith)
      ∙ slice_self 32 m.hash v.hash_len in
    ground (arith, len, height, hash, be-put_be 8 m.height v.height_lt)
