-- ===== src/Wallet/Construct.antt =====
-- masswallet/common.go: autoConstructTxInAndChangeTxOut, which looks for the inputs and the change of a
-- transaction until the fee that it offers covers the fee that its size requires.
pub mod Rounds
pub mod Balance
use mass_net_wallet.Prelude.{
  ℕ, zero, suc, ◌+◌, Bool, true, false, Option, none, some, List, [], ◌∷◌, ltb, leb, ◌==◌,
  if◌then◌else◌, length,
}
use mass_net_wallet.Prelude.Bytes.{Bytes}
use mass_net_wallet.Prelude.Exec.{
  Result, ok, err, overfull_utxo, insufficient_funds, invalid_amount, and_then,
}
use mass_net_wallet.Prelude.Signed.{ℤ}
use mass_net_wallet.Wallet.Money.{Money}

-- `none` where the rounds that are allowed do not end the loop
abbrev pub Run : Type 0 → Type 0
Run A = Option (Result A)

abbrev pub and_run : {A B : Type 0} → Result A → (A → Run B) → Run B
and_run (ok a) f = f a
and_run (err e) f = some (err e)

abbrev pub then_run : {A B : Type 0} → Run A → (A → Run B) → Run B
then_run none f = none
then_run (some r) f = and_run r f

-- what findEligibleUtxos returns
pub record Found (A C : Type 0) : Type 0 where
  pub utxos : List C
  pub first_addr : Bytes
  pub found : A
  pub overfull : Bool

-- The methods that the loop calls: findEligibleUtxos; amountToTxOut; estimateSignedSize and
-- CalcMinRequiredTxRelayFee of the inputs and the number of outputs; addTxIn; and MinRelayTxFee().
pub record Calls (A C Out In : Type 0) : Type 0 where
  pub find : A → Result (Found A C)
  pub change_out : Bytes → A → Result Out
  pub required_fee : List C → ℕ → Result A
  pub add_tx_in : List C → Result (List In)
  pub min_relay_tx_fee : A

-- the inputs found for an offered fee, and the change output if there is one
pub record Choice (C Out : Type 0) : Type 0 where
  pub utxos : List C
  pub change : Option Out

pub record Built (A Out In : Type 0) : Type 0 where
  pub fee : A
  pub inputs : List In
  pub change : Option Out

-- len(msgTx.TxOut), with the change
unfoldable pub tx_out_len : {C Out : Type 0} → ℕ → Choice C Out → ℕ
tx_out_len n c = elim c.change [ none ↦ n | some o ↦ n + 1 ]

unfoldable pub or_invalid_amount : {A : Type 0} → Result A → Result A
or_invalid_amount (ok a) = ok a
or_invalid_amount (err e) = err invalid_amount

module _ {A C Out In : Type 0} (money : Money A) (calls : Calls A C Out In)
    (change_addr : Bytes) where
  -- the sum of the outputs, whose values are an int64 each
  unfoldable pub sum_outputs : A → List ℤ → Result A
  unfolding or_invalid_amount
  sum_outputs sum [] = ok sum
  sum_outputs sum (v ∷ vs) =
      and_then (or_invalid_amount (money.add_int sum v)) λ s. sum_outputs s vs

  -- what the inner loop returns once the change is not dust
  unfoldable pub with_change : Found A C → A → Result (Choice C Out)
  with_change f change =
      let address = if length change_addr == 0 then f.first_addr else change_addr in
      and_then (calls.change_out address change)
        λ o. ok (record { utxos = f.utxos; change = some o })

  -- the inner loop: no dust is left as change
  unfoldable pub choose : ℕ → A → A → A → Run (Choice C Out)
  unfolding with_change
  choose zero target out_amounts adj = none
  choose (suc fuel) target out_amounts adj =
      let again = choose fuel target out_amounts calls.min_relay_tx_fee in
      and_run (money.add target out_amounts) λ want. and_run (money.add want adj) λ want_adj.
        and_run (calls.find want_adj) λ f.
          let change = money.sub_value f.found want in
          let settled : Run (Choice C Out) =
            if money.int_value change == 0
            then some (ok (record { utxos = f.utxos; change = none }))
            else (if ltb (money.int_value change) (money.int_value calls.min_relay_tx_fee)
                then again
                else some (with_change f change)) in
          if ltb (money.int_value f.found) (money.int_value want_adj)
          then some (err (if f.overfull then overfull_utxo else insufficient_funds))
          else settled

  -- the outer loop
  unfoldable pub construct : ℕ → ℕ → A → A → Run (Built A Out In)
  unfolding choose tx_out_len
  construct zero outputs out_amounts target = none
  construct (suc fuel) outputs out_amounts target =
      let again : A → Run (Built A Out In) = λ fee. construct fuel outputs out_amounts fee in
      then_run (choose 2 target out_amounts money.zero_amount) λ c.
        and_run (calls.required_fee c.utxos (tx_out_len outputs c)) λ required.
          let higher = again required in
          let built : Run (Built A Out In) = some (
            and_then (calls.add_tx_in c.utxos)
              λ ins. ok (record { fee = target; inputs = ins; change = c.change })) in
          if leb (money.int_value required) (money.int_value target) then built else higher

  -- autoConstructTxInAndChangeTxOut of a transaction with these output values. The offered fee rises
  -- in each round of the outer loop, and an amount is at most `max_amount`.
  unfoldable pub auto_construct : ℕ → List ℤ → A → Run (Built A Out In)
  unfolding sum_outputs construct
  auto_construct max_amount values user_tx_fee =
      let target =
        if money.int_value user_tx_fee == 0 then calls.min_relay_tx_fee else user_tx_fee in
      and_run (sum_outputs money.zero_amount values)
        λ out_amounts. construct (max_amount + 2) (length values) out_amounts target
