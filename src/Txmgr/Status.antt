-- ===== src/Txmgr/Status.antt =====
-- masswallet/txmgr/syncstore.go and common_db.go: the status of each wallet, in its own bucket, which
-- `bucket` is once the transaction has fetched it.
pub mod Laws
use mass_net_wallet.Prelude.{
  ℕ, ◌≡◌, Bool, true, false, not, ◌||◌, Option, none, some, List, [], ◌∷◌, ◌++◌, ◌==◌,
  if◌then◌else◌, length, bit_or,
}
use mass_net_wallet.Prelude.Bytes.{Bytes, put_be}
use mass_net_wallet.Prelude.Exec.{
  short, empty_key_value, Result, ok, err, Exec, raise, reads, ◌>>=◌, and_then,
}
use mass_net_wallet.Db.{Entry, Bucket}
use mass_net_wallet.Txmgr.{WalletStatus, wallet_flags_remove}
use mass_net_wallet.Txmgr.Sync.{read_wallet_status}

-- the loop of GetAllWalletStatus
read_all : List Entry → Result (List WalletStatus)
read_all [] = ok []
read_all (e ∷ es) =
    and_then
      (read_wallet_status e.key e.value (record { wallet_id = []; synced_height = 0; flags = 0 }))
      λ status. and_then (read_all es) λ rest. ok (status ∷ rest)

module _ {S : Type 0} (bucket : Bucket S) where
  unfoldable pub fetch_all_entry : S → Result (List Entry)
  fetch_all_entry s = bucket.get_by_prefix [] s

  unfoldable pub exists_value : Bytes → S → Result (Option Bytes)
  exists_value k s = if length k == 0 then err empty_key_value else bucket.get k s

  unfoldable pub delete_key : Bytes → Exec S (Unit {0})
  delete_key k = if length k == 0 then raise empty_key_value else bucket.delete k

  unfoldable pub put_key_value : Bytes → Bytes → Exec S (Unit {0})
  put_key_value k v =
      if (length k == 0) || (length v == 0) then raise empty_key_value else bucket.put k v

  unfoldable pub get_all_wallet_status : S → Result (List WalletStatus)
  unfolding read_all
  get_all_wallet_status s = and_then (bucket.get_by_prefix [] s) λ es. read_all es

  -- nil is read as an empty value.
  unfoldable pub get_wallet_status : Bytes → S → Result WalletStatus
  unfolding exists_value
  get_wallet_status wallet_id s = and_then (exists_value wallet_id s) λ o.
      read_wallet_status wallet_id (elim o [ none ↦ [] | some v ↦ v ])
        (record { wallet_id = []; synced_height = 0; flags = 0 })

  unfoldable pub put_wallet_status : WalletStatus → Exec S (Unit {0})
  unfolding put_key_value
  put_wallet_status ws =
      if not (length ws.wallet_id == 42)
      then raise short
      else put_key_value ws.wallet_id (put_be 8 ws.synced_height ++ (ws.flags ∷ []))

  unfoldable pub delete_wallet_status : Bytes → Exec S (Unit {0})
  unfolding delete_key
  delete_wallet_status wallet_id = delete_key wallet_id

  unfoldable pub mark_delete_wallet : Bytes → Exec S (Unit {0})
  mark_delete_wallet wallet_id = reads (get_wallet_status wallet_id) >>= λ status.
      put_wallet_status (record status { flags = bit_or status.flags wallet_flags_remove })
