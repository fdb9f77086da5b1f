-- ===== src/Tests/Wallets.antt =====
-- Concrete runs of the unspent entries, of the deletion under a prefix and of the wallet status, at
-- which their theorems apply.
use mass_net_wallet.Prelude.{
  ℕ, suc, List, Bool, true, false, ◌≡◌, refl, some, none, [], ◌∷◌, ◌++◌, arith, replicate,
}
use mass_net_wallet.Prelude.Bytes.{Bytes, put_be, bytes_eq}
use mass_net_wallet.Prelude.Exec.{ok}
use mass_net_wallet.Db.Drivers.{DbDriver}
use mass_net_wallet.Txmgr.Balances.{Balance, update_mined_balances, gross_balance}
use mass_net_wallet.Txmgr.Balances.Update.{gross-update_mined_balances}
use mass_net_wallet.Tests.Store.{coins, coins-IsAmounts}
use mass_net_wallet.Db.{lookup}
use mass_net_wallet.Ldb.Path.{inner_key}
use mass_net_wallet.Ldb.Batch.{batch_get, batch_put}
use mass_net_wallet.Ldb.Transaction.{begin_tx}
use mass_net_wallet.Ldb.Bucket.{get, put}
use mass_net_wallet.Ldb.Bucket.Reads.{IsReady}
use mass_net_wallet.Ldb.Bucket.{get_by_prefix}
use mass_net_wallet.Ldb.Batch.{get_net_puts_by_prefix}
use mass_net_wallet.Prelude.Bytes.{has_prefix}
use mass_net_wallet.Tests.Store.{out_point, out_point-IsOutPoint}
use mass_net_wallet.Txmgr.Unspent.{canonical_unspent_key, put_unspent, exists_unspent}
use mass_net_wallet.Txmgr.Unspent.Credit.{exists-put_unspent}
use mass_net_wallet.Txmgr.Credits.{key_credit}
use mass_net_wallet.Txmgr.Games.{delete_by_prefix}
use mass_net_wallet.Txmgr.Games.Delete.{delete_by_prefix_lem}
use mass_net_wallet.Txmgr.{WalletStatus}
use mass_net_wallet.Tests.Memory.{memory}
use mass_net_wallet.Tests.Store.{
  Tx, tx, tx-IsReady, ns, ns-IsBucket, hash_1, block_7, block_7-IsBlockMeta,
}
use mass_net_wallet.Tests.Records.{get-tx}

abbrev wallet : Bytes
wallet = replicate 42 b'w'

exists-put_unspent_example :
    ((put_unspent ns wallet (record { hash = hash_1; index = 2 }) block_7 tx).0 ≡ ok tt)
    × (exists_unspent ns wallet
          (record { hash = hash_1; index = 2 })
          (put_unspent ns wallet (record { hash = hash_1; index = 2 }) block_7 tx).1
        ≡ ok (canonical_unspent_key wallet hash_1 2, some (key_credit hash_1 2 block_7)))
exists-put_unspent_example =
    exists-put_unspent ns ns-IsBucket 4 wallet out_point block_7 tx {o = none} tx-IsReady refl
      out_point-IsOutPoint block_7-IsBlockMeta (get-tx (canonical_unspent_key wallet hash_1 2))

-- a transaction with two pairs, one of them under the prefix
abbrev filled : Tx
filled = (ns.put (2 ∷ []) (8 ∷ []) (ns.put (1 ∷ (1 ∷ [])) (9 ∷ []) tx).1).1

filled-IsReady : IsReady 3 filled
filled-IsReady =
    (ns-IsBucket.put_lem 3 (2 ∷ []) (8 ∷ []) (ns.put (1 ∷ (1 ∷ [])) (9 ∷ []) tx).1
      (ns-IsBucket.put_lem 4 (1 ∷ (1 ∷ [])) (9 ∷ []) tx tx-IsReady (omega arith) (omega arith)).1
      (omega arith) (omega arith)).1

delete_by_prefix_lem_example :
    ((delete_by_prefix ns (1 ∷ []) filled).0 ≡ ok tt)
    × (ns.get (1 ∷ (1 ∷ [])) (delete_by_prefix ns (1 ∷ []) filled).1 ≡ ok none)
unfolding has_prefix
delete_by_prefix_lem_example =
    delete_by_prefix_lem ns ns-IsBucket 2 (1 ∷ []) (1 ∷ (1 ∷ [])) filled
      {es = record { key = 1 ∷ (1 ∷ []); value = 9 ∷ [] } ∷ []} {o = some (9 ∷ [])} filled-IsReady
      (omega arith, (omega arith, tt)) (omega arith)
      (unfold get_by_prefix put inner_key memory begin_tx get_net_puts_by_prefix batch_get batch_put
          bytes_eq has_prefix lookup in
        refl)
      (unfold get put inner_key memory begin_tx batch_get batch_put bytes_eq lookup in refl)

abbrev status : WalletStatus
status = record { wallet_id = wallet; synced_height = 7; flags = 0 }

-- a transaction that has stored the status
abbrev known : Tx
known = (ns.put wallet (put_be 8 7 ++ (0 ∷ [])) tx).1

known-IsReady : IsReady 4 known
unfolding put_be
known-IsReady =
    (ns-IsBucket.put_lem 4 wallet (put_be 8 7 ++ (0 ∷ [])) tx tx-IsReady (omega arith)
      (omega arith)).1

abbrev other_wallet : Bytes
other_wallet = replicate 42 1

abbrev balances : List (Balance Bool)
balances = record { wallet_id = other_wallet; amount = false } ∷ []

gross-update_mined_balances_example :
    ((update_mined_balances ns coins (record { wallet_id = wallet; amount = true } ∷ balances) tx).0
      ≡ ok tt)
    × (gross_balance ns coins
          (wallet)
          (update_mined_balances ns coins
            (record { wallet_id = wallet; amount = true } ∷ balances)
            tx).1
        ≡ ok true)
gross-update_mined_balances_example =
    gross-update_mined_balances ns ns-IsBucket coins coins-IsAmounts
      (record { wallet_id = wallet; amount = true }) [] balances 3 tx {o = none} tx-IsReady
      (refl, (refl, tt)) refl (unfold bytes_eq in refl, tt) (get-tx wallet)

abbrev driver : DbDriver ℕ ℕ
driver = record { db_type = b'l' ∷ []; open_db = λ n. ok n; create_db = λ n. ok (suc n) }

abbrev arguments : ℕ
arguments = 7
