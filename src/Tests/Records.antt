-- ===== src/Tests/Records.antt =====
-- Concrete runs of the block, sync, history, transaction and address records, at which their
-- theorems apply.
use mass_net_wallet.Prelude.{
  ◌≡◌, refl, sym, true, false, some, none, [], ◌∷◌, arith, inl, replicate,
}
use mass_net_wallet.Prelude.Bytes.{Bytes, put_be, be, slice, field, bytes_eq}
use mass_net_wallet.Prelude.Exec.{ok, ◌>>=◌}
use mass_net_wallet.Db.{lookup}
use mass_net_wallet.Ldb.Path.{inner_key}
use mass_net_wallet.Ldb.Batch.{batch_get, batch_put}
use mass_net_wallet.Ldb.Transaction.{begin_tx}
use mass_net_wallet.Ldb.Bucket.{get, put}
use mass_net_wallet.Ldb.Bucket.Reads.{IsReady}
use mass_net_wallet.Txmgr.{BlockMeta, BlockLoc, GameHistory, AddressRecord}
use mass_net_wallet.Txmgr.Blocks.{key_block_record, update_block_record, fetch_block_record}
use mass_net_wallet.Txmgr.Blocks.Laws.{fetch-update_block_record}
use mass_net_wallet.Txmgr.Sync.{
  check_next, advance, put_synced_bucket, synced_to_name, fetch_synced_block, fetch_synced_to,
  put_synced_to, reset_synced_to,
}
use mass_net_wallet.Txmgr.Sync.Advance.{fetch-put_synced_to, put_synced_to_contiguous}
use mass_net_wallet.Txmgr.Sync.Reset.{reset_synced_to_lem}
use mass_net_wallet.Txmgr.Games.{
  bit, game_prefix, key_game_history, value_game_history, withdraw_game, unwithdraw_game,
  set_withdrawn,
}
use mass_net_wallet.Txmgr.Games.Laws.{IsGameHistory}
use mass_net_wallet.Txmgr.Games.Withdraw.{unwithdraw-withdraw_game}
use mass_net_wallet.Txmgr.TxRecords.{
  TxLoc, MsgTxs, IsMsgTxs, key_tx_record, tx_record_value, read_tx_record_loc, put_tx_record,
  exists_tx_record,
}
use mass_net_wallet.Txmgr.TxRecords.Laws.{IsLoc, read-put_tx_record}
use mass_net_wallet.Tests.Memory.{memory}
use mass_net_wallet.Tests.Store.{
  Tx, tx, tx-IsReady, ns, ns-IsBucket, hash_1, hash_1-IsHash, block_7, block_7-IsBlockMeta,
}

-- A transaction that has written nothing reads nothing.
pub get-tx : (k : Bytes) → ns.get k tx ≡ ok none
unfolding get inner_key memory begin_tx batch_get lookup
get-tx [] = refl
get-tx (x ∷ k) = ground arith

fetch-update_block_record_example :
    ((update_block_record ns block_7 (hash_1 ∷ (hash_1 ∷ [])) tx).0 ≡ ok tt)
    × (fetch_block_record ns 7 (update_block_record ns block_7 (hash_1 ∷ (hash_1 ∷ [])) tx).1
        ≡ ok (some (record { block = block_7; transactions = hash_1 ∷ (hash_1 ∷ []) })))
fetch-update_block_record_example =
    fetch-update_block_record ns ns-IsBucket 4 block_7 hash_1 (hash_1 ∷ []) tx {o = none} tx-IsReady
      block_7-IsBlockMeta (omega arith) (hash_1-IsHash, (hash_1-IsHash, tt)) (omega arith)
      (get-tx (key_block_record 7))

-- the first block
abbrev block_0 : BlockMeta
block_0 = record { height = 0; hash = hash_1; timestamp = 100 }

fetch-put_synced_to_example :
    ((put_synced_to ns block_0 tx).0 ≡ ok tt)
    × (fetch_synced_to ns (put_synced_to ns block_0 tx).1 ≡ ok (some block_0))
fetch-put_synced_to_example =
    fetch-put_synced_to ns ns-IsBucket 3 block_0 tx {o = none} {p = none} tx-IsReady
      (record { hash_len = hash_1-IsHash; height_lt = omega arith }) (omega arith) (omega arith)
      (get-tx synced_to_name) (get-tx (put_be 8 0)) (inl refl)
      (unfold fetch_synced_block put_be get inner_key memory begin_tx batch_get lookup in refl)

abbrev game : GameHistory
game = record {
  wallet_id = replicate 42 b'w';
  tx_hash = hash_1;
  vout = 1;
  withdrawn = false;
  is_binding = true;
  block_height = 7;
}

game-IsGameHistory : IsGameHistory game
game-IsGameHistory = record {
  wallet_len = refl;
  hash_len = hash_1-IsHash;
  height_lt = omega arith;
  vout_lt = omega arith;
}

abbrev loc : BlockLoc
loc = record { file = 1; offset = 2; size = 3 }

abbrev tx_loc : TxLoc
tx_loc = record { tx_start = 4; tx_len = 5 }

loc-IsLoc : IsLoc loc tx_loc
loc-IsLoc = record {
  file_lt = omega arith;
  offset_lt = omega arith;
  size_lt = omega arith;
  start_lt = omega arith;
  len_lt = omega arith;
}

read-put_tx_record_example :
    ((put_tx_record ns hash_1 tx_loc block_7 loc tx).0 ≡ ok tt)
    × (exists_tx_record ns hash_1 block_7 (put_tx_record ns hash_1 tx_loc block_7 loc tx).1
        ≡ (key_tx_record hash_1 block_7, some (tx_record_value loc tx_loc)))
    × (read_tx_record_loc (tx_record_value loc tx_loc) ≡ ok (loc, tx_loc))
read-put_tx_record_example =
    read-put_tx_record ns ns-IsBucket 4 hash_1 block_7 loc tx_loc tx {o = none} tx-IsReady
      hash_1-IsHash loc-IsLoc (get-tx (key_tx_record hash_1 block_7))

-- Messages that are their own bytes.
unfoldable pub raw : MsgTxs Bytes
raw = record { bytes = λ m. ok m; set_bytes = λ b. ok b }

raw-IsMsgTxs : IsMsgTxs raw
unfolding raw
raw-IsMsgTxs = record { set_bytes-bytes = λ m e. sym e }

abbrev address : AddressRecord
address = record {
  wallet_id = replicate 42 b'w';
  encode_address = b'm' ∷ [];
  address_class = 1;
  block_height = 7;
}

-- the second block, on a transaction that has stored the first
abbrev block_1 : BlockMeta
block_1 = record { height = 1; hash = hash_1; timestamp = 101 }

abbrev begun : Tx
begun = (put_synced_to ns block_0 tx).1

put_synced_to_contiguous_example :
    ((b : BlockMeta) × (fetch_synced_block ns 0 begun ≡ ok (some b)))
    × (fetch_synced_block ns 2 begun ≡ ok none)
put_synced_to_contiguous_example =
    put_synced_to_contiguous ns block_1 begun (omega arith) (omega arith) (
      unfold put_synced_to check_next advance put_synced_bucket fetch_synced_block ◌>>=◌ put_be be
        slice get put inner_key memory begin_tx batch_get batch_put bytes_eq lookup in
      refl)

-- a transaction that has followed the chain to height 1
abbrev named : Tx
named = (ns.put synced_to_name (put_be 8 1) tx).1

abbrev followed : Tx
followed = (ns.put (put_be 8 1) hash_1 named).1

followed-IsReady : IsReady 3 followed
unfolding put_be
followed-IsReady =
    (ns-IsBucket.put_lem 3 (put_be 8 1) hash_1 named
      (ns-IsBucket.put_lem 4 synced_to_name (put_be 8 1) tx tx-IsReady (omega arith)
        (omega arith)).1
      (omega arith) (omega arith)).1

reset_synced_to_lem_example :
    ((reset_synced_to ns 0 followed).0 ≡ ok tt)
    × (ns.get synced_to_name (reset_synced_to ns 0 followed).1 ≡ ok (some (put_be 8 0)))
    × (fetch_synced_block ns 1 (reset_synced_to ns 0 followed).1 ≡ ok none)
reset_synced_to_lem_example =
    reset_synced_to_lem ns ns-IsBucket 1 1 0 1 followed {o = some hash_1} followed-IsReady
      (omega arith) (omega arith)
      (unfold put_be get put inner_key memory begin_tx batch_get batch_put bytes_eq lookup in refl)
      (unfold put_be get put inner_key memory begin_tx batch_get batch_put bytes_eq lookup in refl)

-- a transaction that has stored the history
abbrev playing : Tx
playing = (ns.put (key_game_history (set_withdrawn false game)) value_game_history tx).1

playing-IsReady : IsReady 4 playing
unfolding key_game_history game_prefix field bit set_withdrawn put_be
playing-IsReady =
    (ns-IsBucket.put_lem 4 (key_game_history (set_withdrawn false game)) value_game_history tx
      tx-IsReady (omega arith) (omega arith)).1

unwithdraw-withdraw_game_example :
    ((withdraw_game ns game playing).0 ≡ ok tt)
    × (ns.get (key_game_history (set_withdrawn true game)) (withdraw_game ns game playing).1
        ≡ ok (some value_game_history))
    × (ns.get (key_game_history (set_withdrawn false game)) (withdraw_game ns game playing).1
        ≡ ok none)
    × ((unwithdraw_game ns game (withdraw_game ns game playing).1).0 ≡ ok tt)
    × (ns.get
          (key_game_history (set_withdrawn false game))
          (unwithdraw_game ns game (withdraw_game ns game playing).1).1
        ≡ ok (some value_game_history))
    × (ns.get
          (key_game_history (set_withdrawn true game))
          (unwithdraw_game ns game (withdraw_game ns game playing).1).1
        ≡ ok none)
unwithdraw-withdraw_game_example =
    unwithdraw-withdraw_game ns ns-IsBucket game 0 playing {v = value_game_history} {o = none}
      playing-IsReady
      (unfold key_game_history game_prefix set_withdrawn bit put_be field get put inner_key memory
          begin_tx batch_get batch_put bytes_eq lookup in
        refl)
      (omega arith)
      (unfold key_game_history game_prefix set_withdrawn bit put_be field get put inner_key memory
          begin_tx batch_get batch_put bytes_eq lookup in
        refl)
