-- ===== src/Txmgr/Balances.antt =====
-- masswallet/txmgr/utxostore.go: the operations of the UTXO store on the buckets of balances, addresses
-- and histories, each at its bucket once the transaction has fetched it.
pub mod Update
use mass_net_wallet.Prelude.{
  ℕ, zero, suc, ◌≡◌, Bool, true, false, not, ◌||◌, Option, none, some, List, [], ◌∷◌, ◌==◌, ltb,
  if◌then◌else◌, length,
}
use mass_net_wallet.Prelude.Bytes.{Bytes, be, slice}
use mass_net_wallet.Prelude.Exec.{
  short, not_found, panic, wrapped, Result, ok, err, Exec, pure, raise, lift, ◌>>=◌, and_then,
}
use mass_net_wallet.Db.{Entry, Bucket}
use mass_net_wallet.Txmgr.{Amounts, AddressRecord, AddressDetail}
use mass_net_wallet.Txmgr.Addresses.{
  key_address_record, value_address_record, put_raw_address_record, fetch_addresses_by_wallet_id,
  fetch_mined_balance, put_mined_balance, delete_mined_balance,
}
use mass_net_wallet.Txmgr.Games.{delete_by_prefix}

-- an entry of map[string]massutil.Amount
pub record Balance (A : Type 0) : Type 0 where
  pub wallet_id : Bytes
  pub amount : A

-- fmt.Errorf("...: %v", err)
wrap_error : {T : Type 0} → Result T → Result T
wrap_error (ok t) = ok t
wrap_error (err e) = err (wrapped e)

module _ {S A : Type 0} (ns : Bucket S) (amounts : Amounts A) where
  unfoldable pub init_new_wallet : A → Bytes → Exec S (Unit {0})
  init_new_wallet zero_amount name = put_mined_balance ns amounts name zero_amount

  -- the loop visits the entries of the map in any order
  unfoldable pub update_mined_balances : List (Balance A) → Exec S (Unit {0})
  update_mined_balances [] = pure tt
  update_mined_balances (b ∷ bs) =
      put_mined_balance ns amounts b.wallet_id b.amount >>= λ _. update_mined_balances bs

  unfoldable pub read_balances : List Entry → Result (List (Balance A))
  read_balances [] = ok []
  read_balances (e ∷ es) =
      let rest =
        and_then (amounts.from_uint (be e.value)) λ a.
          and_then (read_balances es) λ bs. ok (record { wallet_id = e.key; amount = a } ∷ bs) in
      if not (length e.value == 8) then err short else rest

  unfoldable pub fetch_all_mined_balance : S → Result (List (Balance A))
  unfolding read_balances wrap_error
  fetch_all_mined_balance s =
      and_then (wrap_error (fetch_mined_balance ns [] s)) λ es. read_balances es

  -- Uint64 of a value that is too short panics.
  unfoldable pub first_balance : List Entry → Result A
  first_balance [] = err not_found
  first_balance (e ∷ es) =
      if ltb (length e.value) 8 then err panic else amounts.from_uint (be (slice 0 8 e.value))

  unfoldable pub gross_balance : Bytes → S → Result A
  unfolding first_balance
  gross_balance name s = and_then (fetch_mined_balance ns name s) λ es. first_balance es

module _ {S : Type 0} (ns : Bucket S) where
  unfoldable pub remove_mined_balance : Bytes → Exec S (Unit {0})
  remove_mined_balance account = delete_mined_balance ns account

  -- RemoveAddressByWalletId and RemoveUnspentByWalletId, at their buckets
  unfoldable pub remove_by_wallet_id : Bytes → Exec S (Unit {0})
  remove_by_wallet_id wallet_id =
      if length wallet_id == 0 then pure tt else delete_by_prefix ns wallet_id

  unfoldable pub put_new_address : (ℕ → Bool) → Bytes → Bytes → ℕ → Exec S (Unit {0})
  put_new_address valid wallet_id address address_class =
      let r : AddressRecord = record {
        wallet_id = wallet_id;
        address_class = address_class;
        encode_address = address;
        block_height = 0;
      } in
      lift (key_address_record valid r) >>= λ k.
      put_raw_address_record ns k (value_address_record r)

  unfoldable pub get_addresses : Bytes → S → Result (List AddressDetail)
  get_addresses wallet_id s = fetch_addresses_by_wallet_id ns wallet_id s
