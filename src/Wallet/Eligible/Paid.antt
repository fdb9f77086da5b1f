-- ===== src/Wallet/Eligible/Paid.antt =====
-- autoConstructTxInAndChangeTxOut of masswallet/common.go, with the inputs that findEligibleUtxos of
-- masswallet/tx.go selects.
use mass_net_wallet.Prelude.{ℕ, ◌+◌, ◌≤◌, ◌≡◌, List, length}
use mass_net_wallet.Prelude.Bytes.{Bytes}
use mass_net_wallet.Prelude.Exec.{ok}
use mass_net_wallet.Wallet.Money.{Money, IsMoney, gain, loss}
use mass_net_wallet.Prelude.Signed.{ℤ}
use mass_net_wallet.Wallet.OptOutputs.Picks.{total}
use mass_net_wallet.Wallet.Construct.{Found, Calls, Built, tx_out_len}
use mass_net_wallet.Wallet.Construct.Balance.{IsChange}
use mass_net_wallet.Wallet.Eligible.{Utxo, Sources, find_eligible_utxos}
use mass_net_wallet.Wallet.Eligible.Usable.{IsSelection}

module _ {A Out In : Type 0} (money : Money A) (max_amount : ℕ) (laws : IsMoney money max_amount)
    (sources : Sources A) (calls : Calls A (Utxo A) Out In) (change_addr : Bytes)
    (addresses : List Bytes) where
  -- the calls, with findEligibleUtxos of these addresses
  abbrev pub finding : Calls A (Utxo A) Out In
  finding = record calls { find = find_eligible_utxos money sources addresses }

  -- The inputs are a selection of findEligibleUtxos; they add up to the outputs, the fee and the change;
  -- and the fee covers what they and the outputs require.
  pub record Spends (values : List ℤ) (b : Built A Out In) : Type 0 where
    pub search : A
    pub eligible : Found A (Utxo A)
    pub selection : IsSelection money max_amount laws sources addresses search eligible
    pub inputs_eq : calls.add_tx_in eligible.utxos ≡ ok b.inputs
    pub change_amount : A
    pub balance :
        total (λ (u : Utxo A). money.int_value u.amount) eligible.utxos + total loss values
        ≡ total gain values + money.int_value b.fee + money.int_value change_amount
    pub change_ok :
        IsChange money max_amount laws finding change_addr eligible.first_addr change_amount
          b.change
    pub required : A
    pub estimated :
        calls.required_fee eligible.utxos
          (tx_out_len (length values) (record { utxos = eligible.utxos; change = b.change }))
        ≡ ok required
    pub covered : money.int_value required ≤ money.int_value b.fee
