-- ===== src/Txmgr/Addresses.antt =====
-- masswallet/txmgr/utxostore_db.go: the addresses of a wallet and its mined balance.
pub mod Laws
use mass_net_wallet.Prelude.{
  ℕ, ◌≡◌, Bool, true, false, not, Option, none, some, List, [], ◌∷◌, ◌++◌, ltb, ◌==◌, if◌then◌else◌,
  length, drop,
}
use mass_net_wallet.Prelude.Bytes.{Bytes, put_be, be, slice}
use mass_net_wallet.Prelude.Exec.{
  short, empty_address, bad_address_class, panic, Result, ok, err, Exec, wrap, raise, ◌>>=◌,
  and_then,
}
use mass_net_wallet.Db.{Entry, Bucket}
use mass_net_wallet.Txmgr.{AddressRecord, AddressDetail, Amounts}

-- `is_valid_address_class` is massutil.IsValidAddressClass.
unfoldable pub key_address_record : (ℕ → Bool) → AddressRecord → Result Bytes
key_address_record is_valid_address_class r =
    if not (length r.wallet_id == 42)
    then err short
    else if length r.encode_address == 0
    then err empty_address
    else if not (is_valid_address_class r.address_class)
    then err bad_address_class
    else ok (r.wallet_id ++ (put_be 2 r.address_class ++ r.encode_address))

unfoldable pub value_address_record : AddressRecord → Bytes
value_address_record r = put_be 8 r.block_height

unfoldable pub read_address_height : Bytes → Result ℕ
read_address_height v = if ltb (length v) 8 then err panic else ok (be (slice 0 8 v))

-- a round of fetchAddressesByWalletId
unfoldable pub address_detail : Entry → Result AddressDetail
unfolding read_address_height
address_detail e =
    if ltb (length e.key) 44
    then err panic
    else and_then (read_address_height e.value) λ height. ok (record {
      address = drop 44 e.key;
      address_class = be (slice 42 44 e.key);
      used = ltb 0 height;
    })

pub address_details : List Entry → Result (List AddressDetail)
unfolding address_detail
address_details [] = ok []
address_details (e ∷ es) =
    and_then (address_detail e) λ d. and_then (address_details es) λ ds. ok (d ∷ ds)

module _ {S : Type 0} (ns : Bucket S) where
  unfoldable pub put_raw_address_record : Bytes → Bytes → Exec S (Unit {0})
  put_raw_address_record k v = ns.put k v

  unfoldable pub exists_raw_address_record : Bytes → S → Result (Option Bytes)
  exists_raw_address_record k s = ns.get k s

  unfoldable pub delete_raw_address_record : Bytes → Exec S (Unit {0})
  delete_raw_address_record k = ns.delete k

  unfoldable pub fetch_addresses_by_wallet_id : Bytes → S → Result (List AddressDetail)
  unfolding address_details
  fetch_addresses_by_wallet_id wallet_id s =
      and_then (ns.get_by_prefix wallet_id s) λ es. address_details es

  -- the entry of one account, or every entry where no account is given
  unfoldable pub fetch_mined_balance : Bytes → S → Result (List Entry)
  fetch_mined_balance account s =
      if ltb 0 (length account)
      then (and_then (ns.get account s)
          λ o. elim o [ none ↦ ok [] | some v ↦ ok (record { key = account; value = v } ∷ []) ])
      else ns.get_by_prefix [] s

  unfoldable pub put_mined_balance : {A : Type 0} → Amounts A → Bytes → A → Exec S (Unit {0})
  put_mined_balance amounts wallet_id amt =
      if not (length wallet_id == 42)
      then raise short
      else wrap (ns.put wallet_id (put_be 8 (amounts.uint_value amt)))

  unfoldable pub delete_mined_balance : Bytes → Exec S (Unit {0})
  delete_mined_balance account = ns.delete account
