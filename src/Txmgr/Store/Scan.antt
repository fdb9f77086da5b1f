-- ===== src/Txmgr/Store/Scan.antt =====
-- masswallet/txmgr/utxostore.go: the scans of a wallet's unspent outputs, ScriptAddressUnspents and
-- ScriptAddressBalance, and WalletBalance. An iterator gives the entries that it visits and the error
-- that it ends with, if any; the lock muUtxo lets one scan run at a time.
use mass_net_wallet.Prelude.{
  ℕ, ◌+◌, ◌-◌, ◌%◌, ◌^◌, Bool, false, not, ◌&&◌, ◌||◌, Option, none, some, List, [], ◌∷◌, leb, ◌==◌,
  if◌then◌else◌, length,
}
use mass_net_wallet.Prelude.Bytes.{Bytes, bytes_eq}
use mass_net_wallet.Prelude.Exec.{Error, Result, ok, err, and_then, wrap_result}
use mass_net_wallet.Prelude.Keeps.{if_nil}
use mass_net_wallet.Db.{Bucket, Entry}
use mass_net_wallet.Txmgr.{OutPoint, Credit, is_staking, is_binding}
use mass_net_wallet.Txmgr.Unspent.{
  read_canonical_unspent_key, read_block_of_unspent, exists_raw_unspent, exists_raw_unmined_input,
}
use mass_net_wallet.Txmgr.Credits.{exists_credit, read_credit_value, blank_credit}
use mass_net_wallet.Txmgr.Store.{
  Namespace, ns_unspent, ns_unmined_inputs, ns_credits, Outside, is_nil,
}
use mass_net_wallet.Wallet.Eligible.{Utxo}

-- what an iterator visits, and its Error after the loop
pub record Visit : Type 0 where
  pub entries : List Entry
  pub failure : Option Error

unfoldable pub contains : List Bytes → Bytes → Bool
contains [] script = false
contains (x ∷ xs) script = bytes_eq x script || contains xs script

-- syncHeight - height + 1, a uint64
unfoldable pub confirmations : ℕ → ℕ → ℕ
confirmations sync_height height = (sync_height + (2 ^ 64 - height) + 1) % 2 ^ 64

-- if err := iter.Error(); err != nil
unfoldable pub unless_failed : {X : Type 0} → Option Error → Result X → Result X
unless_failed none r = r
unless_failed (some e) (ok x) = err e
unless_failed (some e) (err f) = err f

pub record BalanceDetail (A : Type 0) : Type 0 where
  pub total : A
  pub spendable : A
  pub withdrawable_staking : A
  pub withdrawable_binding : A

module _ {S M A : Type 0} (outside : Outside M A) (fetch_bucket : Namespace → Bucket S) where
  -- What both scans make of an entry: the credit, if its value is there and is not zero.
  unfoldable pub not_zero : Credit A → Option (Credit A)
  not_zero c = if outside.is_zero c.amount then none else some c

  unfoldable pub credit_of : Entry → S → Result (Option (Credit A))
  unfolding not_zero
  credit_of e s = and_then (read_canonical_unspent_key e.key) λ op.
      and_then (read_block_of_unspent e.value (record { height = 0; hash = []; timestamp = 0 }))
        λ block.
          and_then (exists_credit (fetch_bucket ns_credits) op.hash op.index block s) λ found.
            if_nil found.1
              (and_then (exists_raw_unspent (fetch_bucket ns_unspent) e.key s) λ inspect. ok none)
              (λ v.
                and_then
                  (read_credit_value outside.amounts v
                    (record (blank_credit outside.money.zero_amount) {
                      out_point = op;
                      block = block;
                    }))
                  λ c. ok (not_zero c))

  -- the item of ScriptAddressUnspents
  unfoldable pub item_of : ℕ → Bytes → Credit A → S → Utxo A
  item_of sync_height it_key c s = record {
    out_point = c.out_point;
    flags = record (c.flags) {
      spent_by_unmined =
          not (is_nil (exists_raw_unmined_input (fetch_bucket ns_unmined_inputs) it_key s));
    };
    amount = c.amount;
    confirmations = confirmations sync_height c.block.height % 2 ^ 32;
    maturity = c.maturity;
    script_hash = c.script_hash;
  }

  module _ (scripts : List Bytes) (sync_height : ℕ) where
    -- An entry of a script that is asked for.
    unfoldable pub wanted : Entry → S → Result (Option (Credit A))
    unfolding credit_of contains
    wanted e s = and_then (credit_of e s) λ found.
        if_nil found (ok none) (λ c. ok (if contains scripts c.script_hash then some c else none))

    -- The items in the order of the scan; those of a script are the ones with its hash. The filter
    -- says whether the scan stops, and whether it takes the item.
    unfoldable pub unspents_loop : (Utxo A → Bool × Bool) → List Entry → S → Result (List (Utxo A))
    unfolding wanted item_of
    unspents_loop filter [] s = ok []
    unspents_loop filter (e ∷ es) s =
        let rest = unspents_loop filter es s in
        and_then (wanted e s) λ found. if_nil found rest (λ c.
          let item = item_of sync_height e.key c s in
          and_then (if (filter item).0 then ok [] else rest)
            λ items. ok (if (filter item).1 then item ∷ items else items))

    unfoldable pub script_address_unspents :
        (Utxo A → Bool × Bool) → (Bytes → S → Visit) → S → Result (List (Utxo A))
    unfolding unspents_loop unless_failed
    script_address_unspents filter iterator s =
        let visit = iterator outside.current_account s in
        unless_failed visit.failure (unspents_loop filter visit.entries s)

    -- The detail of a credit's class with the credit added.
    unfoldable pub add_spendable : Credit A → BalanceDetail A → Result (BalanceDetail A)
    add_spendable c d =
        if is_binding c
        then (and_then (outside.money.add d.withdrawable_binding c.amount)
            λ x. ok (record d { withdrawable_binding = x }))
        else if is_staking c
        then (and_then (outside.money.add d.withdrawable_staking c.amount)
            λ x. ok (record d { withdrawable_staking = x }))
        else (and_then (outside.money.add d.spendable c.amount)
            λ x. ok (record d { spendable = x }))

    -- `pool_spends` is CheckPoolOutPointSpend.
    unfoldable pub add_to_balance :
        ℕ → (OutPoint → Bool) → Credit A → BalanceDetail A → Result (BalanceDetail A)
    unfolding add_spendable
    add_to_balance min_conf pool_spends c d =
        let confs = confirmations sync_height c.block.height in
        if leb min_conf confs
        then (and_then (outside.money.add d.total c.amount) λ x.
            let d' : BalanceDetail A = record d { total = x } in
            if leb c.maturity confs && not (pool_spends c.out_point)
            then add_spendable c d'
            else ok d')
        else ok d

    -- a map from scripts to details, each script once
    unfoldable pub add_to_script :
        ℕ
        → (OutPoint → Bool)
        → Credit A
        → List (Bytes × BalanceDetail A)
        → Result (List (Bytes × BalanceDetail A))
    unfolding add_to_balance
    add_to_script min_conf pool_spends c [] = ok []
    add_to_script min_conf pool_spends c ((script, d) ∷ ds) =
        let rest = add_to_script min_conf pool_spends c ds in
        if bytes_eq script c.script_hash
        then (and_then (add_to_balance min_conf pool_spends c d) λ d'. ok ((script, d') ∷ ds))
        else (and_then rest λ ds'. ok ((script, d) ∷ ds'))

    unfoldable pub balances_loop :
        ℕ
        → (OutPoint → Bool)
        → List Entry
        → List (Bytes × BalanceDetail A)
        → S
        → Result (List (Bytes × BalanceDetail A))
    unfolding wanted add_to_script
    balances_loop min_conf pool_spends [] ds s = ok ds
    balances_loop min_conf pool_spends (e ∷ es) ds s = and_then (wanted e s) λ found.
        and_then (if_nil found (ok ds) (λ c. add_to_script min_conf pool_spends c ds))
          λ ds'. balances_loop min_conf pool_spends es ds' s

    abbrev zero_detail : BalanceDetail A
    zero_detail = record {
      total = outside.money.zero_amount;
      spendable = outside.money.zero_amount;
      withdrawable_staking = outside.money.zero_amount;
      withdrawable_binding = outside.money.zero_amount;
    }

    unfoldable pub zero_details : List Bytes → List (Bytes × BalanceDetail A)
    zero_details [] = []
    zero_details (x ∷ xs) = (x, zero_detail) ∷ zero_details xs

    unfoldable pub script_address_balance :
        ℕ → (OutPoint → Bool) → (Bytes → S → Visit) → S → Result (List (Bytes × BalanceDetail A))
    unfolding balances_loop zero_details unless_failed
    script_address_balance min_conf pool_spends iterator s =
        let visit = iterator outside.current_account s in
        unless_failed visit.failure
          (balances_loop min_conf pool_spends visit.entries (zero_details scripts) s)

    -- the sum of WalletBalance
    unfoldable pub sum_details :
        List (Bytes × BalanceDetail A) → BalanceDetail A → Result (BalanceDetail A)
    sum_details [] acc = ok acc
    sum_details ((script, d) ∷ ds) acc = and_then (outside.money.add acc.total d.total) λ t.
        and_then (outside.money.add acc.spendable d.spendable) λ p.
          and_then (outside.money.add acc.withdrawable_staking d.withdrawable_staking) λ w.
            and_then (outside.money.add acc.withdrawable_binding d.withdrawable_binding) λ b.
              sum_details ds (record {
                total = t;
                spendable = p;
                withdrawable_staking = w;
                withdrawable_binding = b;
              })

    -- `scripts` are those of the wallet's addresses.
    unfoldable pub wallet_balance :
        ℕ → (OutPoint → Bool) → (Bytes → S → Visit) → S → Result (BalanceDetail A)
    unfolding script_address_balance sum_details
    wallet_balance min_conf pool_spends iterator s =
        if length scripts == 0
        then ok zero_detail
        else (and_then (wrap_result (script_address_balance min_conf pool_spends iterator s))
            λ ds. sum_details ds zero_detail)
