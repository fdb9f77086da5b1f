-- ===== src/Txmgr/Unspent.antt =====
-- masswallet/txmgr/utxostore_db.go: bucketUnspent, whose key is a wallet id and an outpoint and
-- whose value is the block of the credit, and bucketUnminedInputs.
pub mod Laws
pub mod Inputs
pub mod Credit
use mass_net_wallet.Prelude.{
  ℕ, zero, suc, ◌≡◌, Bool, true, false, not, ◌&&◌, ◌||◌, Option, none, some, List, [], ◌∷◌, ◌++◌,
  ltb, ◌==◌, if◌then◌else◌, length, take, drop,
}
use mass_net_wallet.Prelude.Bytes.{Bytes, put_be, be, slice, field}
use mass_net_wallet.Prelude.Exec.{short, panic, Result, ok, err, Exec, raise, reads, wrap, ◌>>=◌}
use mass_net_wallet.Db.{Bucket}
use mass_net_wallet.Txmgr.{Hash, OutPoint, BlockMeta}

unfoldable pub canonical_out_point : Hash → ℕ → Bytes
canonical_out_point tx_hash index = tx_hash ++ put_be 4 index

unfoldable pub canonical_unspent_key : Bytes → Hash → ℕ → Bytes
canonical_unspent_key wallet_id tx_hash index = field 42 wallet_id ++ (tx_hash ++ put_be 4 index)

unfoldable pub read_canonical_unspent_key : Bytes → Result OutPoint
read_canonical_unspent_key k =
    if ltb (length k) 78
    then err short
    else ok (record { hash = slice 42 74 k; index = be (slice 74 78 k) })

unfoldable pub value_unspent : BlockMeta → Bytes
value_unspent block = put_be 8 block.height ++ block.hash

-- It leaves the timestamp of `block` as it is.
unfoldable pub read_block_of_unspent : Bytes → BlockMeta → Result BlockMeta
read_block_of_unspent v block =
    if ltb (length v) 40
    then err short
    else ok (record { height = be (slice 0 8 v); hash = slice 8 40 v; timestamp = block.timestamp })

-- The key in bucketCredits that an unspent entry stands for.
credit_key_of : Bytes → Option Bytes → Option Bytes
credit_key_of k none = none
credit_key_of k (some v) = some (slice 42 74 k ++ (field 40 v ++ slice 74 78 k))

map_result : {A B : Type 0} → (A → B) → Result A → Result B
map_result f (ok a) = ok (f a)
map_result f (err e) = err e

-- fetchUnminedInputSpendTxHashes, on the hashes of the spending transactions one after another.
-- Every round takes 32 bytes, so the length is enough fuel; what is shorter than a hash panics.
hashes_loop : ℕ → Bytes → Result (List Hash)
hashes_loop zero raw = ok []
hashes_loop (suc fuel) raw =
    let rest = hashes_loop fuel (drop 32 raw) in
    if length raw == 0
    then ok []
    else if ltb (length raw) 32
    then err panic
    else map_result (λ (hs : List Hash). take 32 raw ∷ hs) rest

unfoldable pub or_empty : Option Bytes → Bytes
or_empty none = []
or_empty (some v) = v

unfoldable pub spend_tx_hashes : Result (Option Bytes) → Result (List Hash)
unfolding hashes_loop map_result
spend_tx_hashes (err e) = ok []
spend_tx_hashes (ok none) = ok []
spend_tx_hashes (ok (some raw)) = hashes_loop (length raw) raw

module _ {S : Type 0} (ns : Bucket S) where
  unfoldable pub exists_raw_unspent : Bytes → S → Result (Option Bytes)
  unfolding credit_key_of map_result
  exists_raw_unspent k s =
      if ltb (length k) 78 then err short else map_result (credit_key_of k) (ns.get k s)

  unfoldable pub exists_unspent : Bytes → OutPoint → S → Result (Bytes × Option Bytes)
  unfolding map_result
  exists_unspent wallet_id out_point s =
      let k = canonical_unspent_key wallet_id out_point.hash out_point.index in
      if length wallet_id == 42
      then map_result (λ (c : Option Bytes). (k, c)) (exists_raw_unspent k s)
      else err short

  unfoldable pub put_unspent : Bytes → OutPoint → BlockMeta → Exec S (Unit {0})
  put_unspent wallet_id out_point block =
      let k = canonical_unspent_key wallet_id out_point.hash out_point.index in
      if length wallet_id == 42 then wrap (ns.put k (value_unspent block)) else raise short

  unfoldable pub put_raw_unspent : Bytes → Bytes → Exec S (Unit {0})
  put_raw_unspent k v =
      if not (length k == 78) || not (length v == 40) then raise short else wrap (ns.put k v)

  unfoldable pub delete_raw_unspent : Bytes → Exec S (Unit {0})
  delete_raw_unspent k = wrap (ns.delete k)

  -- It appends to what is stored.
  unfoldable pub put_raw_unmined_input : Bytes → Bytes → Exec S (Unit {0})
  unfolding or_empty
  put_raw_unmined_input k v = do
    spend_tx_hashes ← reads (ns.get k)
    ns.put k (or_empty spend_tx_hashes ++ v)

  -- An error of the read is dropped.
  unfoldable pub exists_raw_unmined_input : Bytes → S → Option Bytes
  exists_raw_unmined_input k s = elim (ns.get k s) [ ok v ↦ v | err e ↦ none ]

  unfoldable pub delete_raw_unmined_input : Bytes → Exec S (Unit {0})
  delete_raw_unmined_input k = wrap (ns.delete k)

  unfoldable pub fetch_unmined_input_spend_tx_hashes : Bytes → S → Result (List Hash)
  unfolding spend_tx_hashes
  fetch_unmined_input_spend_tx_hashes k s = spend_tx_hashes (ns.get k s)

-- fetchNsUnspentValueFromRawCredit
unfoldable pub fetch_ns_unspent_value_from_raw_credit : Bytes → Result Bytes
fetch_ns_unspent_value_from_raw_credit k =
    if ltb (length k) 76 then err short else ok (slice 32 72 k)
