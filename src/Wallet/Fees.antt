-- ===== src/Wallet/Fees.antt =====
-- masswallet/common.go and masswallet/wallet.go: who pays the fee of a transaction, and its change. A
-- Go map is the list of its entries, in the order in which a range loop visits them.
pub mod Entries
pub mod Split
pub mod Change
use mass_net_wallet.Prelude.{
  ℕ, ◌+◌, ◌-◌, ◌*◌, ◌/◌, Bool, true, false, ◌&&◌, ◌||◌, List, [], ◌∷◌, ltb, leb, ◌==◌,
  if◌then◌else◌, length,
}
use mass_net_wallet.Prelude.Bytes.{Bytes, bytes_eq}
use mass_net_wallet.Prelude.Exec.{Result, ok, err, and_then, unknown_subfeefrom, not_enough_inputs}
use mass_net_wallet.Wallet.Money.{Money}

-- an entry of map[string]massutil.Amount
pub record Payment (A : Type 0) : Type 0 where
  pub address : Bytes
  pub amount : A

unfoldable pub member : Bytes → List Bytes → Bool
member a [] = false
member a (b ∷ bs) = bytes_eq a b || member a bs

unfoldable pub addresses : {A : Type 0} → List (Payment A) → List Bytes
addresses [] = []
addresses (p ∷ ps) = p.address ∷ addresses ps

-- the loop that looks each selected address up
unfoldable pub all_known : List Bytes → List Bytes → Bool
unfolding member
all_known [] known = true
all_known (a ∷ rest) known = member a known && all_known rest known

-- eachSub, the fee divided by the number of selected addresses, rounded up
unfoldable pub each_sub : ℕ → ℕ → ℕ
each_sub fee n = (fee + n - 1) / n

module _ {A : Type 0} (money : Money A) where
  -- the amounts summed up where the sender pays the fee
  unfoldable pub add_amounts : A → List (Payment A) → Result A
  add_amounts total [] = ok total
  add_amounts total (p ∷ ps) = and_then (money.add total p.amount) λ t. add_amounts t ps

  -- newAmount of one entry
  unfoldable pub new_amount : List Bytes → A → Payment A → Result A
  unfolding member
  new_amount selected each p =
      let less = money.sub p.amount each in if member p.address selected then less else ok p.amount

  -- the loop that subtracts from the selected amounts and sums up
  unfoldable pub subtract_each :
      List Bytes → A → A → List (Payment A) → Result (List (Payment A) × A)
  unfolding new_amount
  subtract_each selected each total [] = ok ([], total)
  subtract_each selected each total (p ∷ ps) = and_then (new_amount selected each p) λ a.
      and_then (money.add total a) λ t.
        and_then (subtract_each selected each t ps)
          λ r. ok (record { address = p.address; amount = a } ∷ r.0, r.1)

  -- maybeSubtractFeeFromAmounts: the new amounts, and their sum with the fee. The fee and the number
  -- of addresses are far below 2^62, so `int64` does not overflow.
  unfoldable pub maybe_subtract_fee_from_amounts :
      List (Payment A) → List Bytes → A → Result (List (Payment A) × A)
  unfolding all_known addresses add_amounts subtract_each each_sub
  maybe_subtract_fee_from_amounts amounts selected required_fee =
      let n = length selected in
      let each = each_sub (money.int_value required_fee) n in
      let sender_pays : Result (List (Payment A) × A) =
        and_then (money.add money.zero_amount required_fee)
          λ fee. and_then (add_amounts fee amounts) λ total. ok (amounts, total) in
      let receivers_pay : Result (List (Payment A) × A) = and_then (money.from_int each) λ each_amt.
        and_then (money.from_int (each * n)) λ actual.
          and_then (money.add money.zero_amount actual)
            λ fee. subtract_each selected each_amt fee amounts in
      let paid = if n == 0 then sender_pays else receivers_pay in
      if all_known selected (addresses amounts) then paid else err unknown_subfeefrom

  -- CreateRawTransaction, from its inputs' sum to its outputs: the amounts paid out, and the change.
  -- `estimate` is EstimateManualTxFee of the inputs and a number of outputs.
  unfoldable pub pay_and_change :
      (ℕ → Result A) → A → List (Payment A) → List Bytes → Result (List (Payment A) × A)
  unfolding maybe_subtract_fee_from_amounts
  pay_and_change estimate total_in amounts selected =
      let with_change : Result (List (Payment A) × A) =
        and_then (estimate (length amounts + 1)) λ fee.
          and_then (maybe_subtract_fee_from_amounts amounts selected fee) λ r.
            let change = and_then (money.sub total_in r.1) λ c. ok (r.0, c) in
            if leb (money.int_value total_in) (money.int_value r.1)
            then err not_enough_inputs
            else change in
      and_then (estimate (length amounts)) λ fee.
        and_then (maybe_subtract_fee_from_amounts amounts selected fee) λ r.
          let exact : Result (List (Payment A) × A) =
            and_then (money.sub total_in r.1)
              λ c. if money.int_value c == 0 then ok (r.0, c) else with_change in
          if ltb (money.int_value total_in) (money.int_value r.1)
          then err not_enough_inputs
          else exact
