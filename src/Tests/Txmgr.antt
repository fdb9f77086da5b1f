-- ===== src/Tests/Txmgr.antt =====
-- Concrete runs of the transaction stores, at which their theorems apply.
use mass_net_wallet.Prelude.{
  ◌<◌, ◌≤◌, ◌≡◌, refl, Bool, true, false, some, none, [], ◌∷◌, arith, length, inl,
}
use mass_net_wallet.Prelude.Bytes.{Bytes, zeros, put_be, bytes_eq, has_prefix, be, slice}
use mass_net_wallet.Prelude.Exec.{ok, err, short}
use mass_net_wallet.Db.{Entry, lookup}
use mass_net_wallet.Db.Rules.{get-put_self}
use mass_net_wallet.Ldb.Path.{inner_key}
use mass_net_wallet.Ldb.Batch.{batch_get, batch_put, get_net_puts_by_prefix}
use mass_net_wallet.Ldb.Transaction.{begin_tx}
use mass_net_wallet.Ldb.Bucket.{get, put, get_by_prefix}
use mass_net_wallet.Ldb.Bucket.Reads.{IsReady}
use mass_net_wallet.Txmgr.{IndexedIncidence, Credit, staking}
use mass_net_wallet.Txmgr.Unspent.{
  canonical_unspent_key, read_canonical_unspent_key, put_raw_unmined_input,
  fetch_unmined_input_spend_tx_hashes,
}
use mass_net_wallet.Txmgr.Unspent.Laws.{read-canonical_unspent_key}
use mass_net_wallet.Txmgr.Unspent.Inputs.{fetch-put_raw_unmined_input}
use mass_net_wallet.Txmgr.Credits.{
  key_credit, credit_value, flag_byte, spend_credit, unspend_raw_credit,
  get_last_credit_by_tx_hash_index_till_height,
}
use mass_net_wallet.Txmgr.Credits.Spending.{
  fresh, used, spend_credit_fresh, spend_credit_used, unspend_credit_used,
}
use mass_net_wallet.Txmgr.Credits.Latest.{
  entry_height, IsCandidate, Among, get_last_credit_by_tx_hash_index_till_height_latest,
}
use mass_net_wallet.Tests.Memory.{memory}
use mass_net_wallet.Tests.Store.{
  Tx, tx, tx-IsReady, ns, ns-IsBucket, hash_1, hash_1-IsHash, block_7, out_point,
  out_point-IsOutPoint, coins, coins-IsAmounts,
}

abbrev wallet : Bytes
wallet = zeros 42

wallet-length : length wallet ≡ 42
unfolding zeros
wallet-length = refl

read-canonical_unspent_key_example :
    read_canonical_unspent_key (canonical_unspent_key wallet hash_1 2) ≡ ok out_point
read-canonical_unspent_key_example =
    read-canonical_unspent_key wallet out_point out_point-IsOutPoint

abbrev raw_key : Bytes
raw_key = 4 ∷ []

-- The transaction with no spender of the outpoint yet.
fetch-put_raw_unmined_input_example :
    ((put_raw_unmined_input ns raw_key hash_1 tx).0 ≡ ok tt)
    × (fetch_unmined_input_spend_tx_hashes ns raw_key (put_raw_unmined_input ns raw_key hash_1 tx).1
        ≡ ok (hash_1 ∷ []))
fetch-put_raw_unmined_input_example =
    fetch-put_raw_unmined_input ns ns-IsBucket 4 raw_key hash_1 tx {o = none} {hs = []} tx-IsReady
      (omega arith) hash_1-IsHash (unfold get inner_key memory begin_tx batch_get lookup in refl)
      (unfold fetch_unmined_input_spend_tx_hashes get inner_key memory begin_tx batch_get lookup in
        refl)

abbrev script : Bytes
script = zeros 32

script-length : length script ≡ 32
unfolding zeros
script-length = refl

abbrev spender : IndexedIncidence
spender = record { tx_hash = hash_1; block = block_7; index = 3 }

abbrev coin : Credit Bool
coin = record {
  out_point = out_point;
  block = block_7;
  amount = true;
  maturity = 5;
  script_hash = script;
  flags = record {
    spent = false;
    spent_by_unmined = false;
    change = true;
    is_unmined = false;
    utxo_class = staking;
  };
}

-- what is stored for it
abbrev value : Bytes
value = fresh coins coin

value-length : 0 < length value
unfolding fresh credit_value put_be flag_byte zeros
value-length = omega arith

-- the transaction that holds it
abbrev stored : Tx
stored = (ns.put raw_key value tx).1

stored-IsReady : IsReady 4 stored
stored-IsReady = (ns-IsBucket.put_lem 4 raw_key value tx tx-IsReady (omega arith) value-length).1

get-stored : ns.get raw_key stored ≡ ok (some value)
get-stored =
    get-put_self ns ns-IsBucket 4 raw_key tx value {o = none} tx-IsReady (omega arith) value-length
      (unfold get inner_key memory begin_tx batch_get lookup in refl)

spend_credit_fresh_example :
    ((spend_credit ns coins raw_key spender stored).0 ≡ ok true)
    × (ns.get raw_key (spend_credit ns coins raw_key spender stored).1
        ≡ ok (some (used coins coin spender)))
    × IsReady 3 (spend_credit ns coins raw_key spender stored).1
spend_credit_fresh_example =
    spend_credit_fresh ns ns-IsBucket coins coins-IsAmounts 3 raw_key coin (omega arith)
      script-length spender stored stored-IsReady get-stored

-- the transaction once the credit is spent
abbrev spent : Tx
spent = (spend_credit ns coins raw_key spender stored).1

spend_credit_used_example : spend_credit ns coins raw_key spender spent ≡ (err short, spent)
spend_credit_used_example =
    spend_credit_used ns ns-IsBucket coins coins-IsAmounts 3 raw_key coin (omega arith)
      script-length spender spender spent spend_credit_fresh_example.1

unspend_credit_used_example :
    ns.get raw_key (unspend_raw_credit ns coins false raw_key spent).1 ≡ ok (some value)
unspend_credit_used_example =
    unspend_credit_used ns ns-IsBucket coins coins-IsAmounts 2 raw_key coin (omega arith)
      script-length false spender spent spend_credit_fresh_example.2 spend_credit_fresh_example.1

-- the same, written out
abbrev coin_value : Bytes
coin_value = credit_value 100000000 (flag_byte true true false) 5 script

abbrev cred_key : Bytes
cred_key = key_credit hash_1 2 block_7

-- the transaction that holds the coin, in block 7
abbrev mined : Tx
mined = (ns.put cred_key coin_value tx).1

abbrev mined_entry : Entry
mined_entry = record { key = cred_key; value = coin_value }

mined_entry-IsCandidate : IsCandidate 2 9 mined_entry
unfolding key_credit put_be be slice zeros
mined_entry-IsCandidate = record { same = refl; reached = omega arith; mined = omega arith }

get_last_credit_by_tx_hash_index_till_height_latest_example :
    (l : Entry) × (some mined_entry ≡ some l)
    × Among l (mined_entry ∷ [])
    × IsCandidate 2 9 l
    × (entry_height mined_entry ≤ entry_height l)
get_last_credit_by_tx_hash_index_till_height_latest_example =
    get_last_credit_by_tx_hash_index_till_height_latest ns hash_1 2 9 mined mined_entry
      {es = mined_entry ∷ []} {r = some mined_entry}
      (unfold key_credit put_be credit_value flag_byte zeros get_by_prefix put inner_key memory
          begin_tx batch_get batch_put bytes_eq has_prefix get_net_puts_by_prefix in
        refl)
      (unfold get_last_credit_by_tx_hash_index_till_height be slice key_credit put_be credit_value
          flag_byte zeros get_by_prefix put inner_key memory begin_tx batch_get batch_put bytes_eq
          has_prefix get_net_puts_by_prefix in
        refl)
      (inl refl) mined_entry-IsCandidate
