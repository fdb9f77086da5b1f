-- ===== src/Wallet/Eligible.antt =====
-- masswallet/tx.go: findEligibleUtxos, from the unspent outputs of some addresses to those that pay an
-- amount.
pub mod Sums
pub mod Usable
pub mod Paid
use mass_net_wallet.Prelude.{
  ℕ, Bool, true, false, not, ◌&&◌, Option, none, some, List, [], ◌∷◌, leb, ◌==◌, if◌then◌else◌,
  length,
}
use mass_net_wallet.Prelude.Bytes.{Bytes, bytes_eq}
use mass_net_wallet.Prelude.Exec.{Result, ok, err, panic, and_then, invalid_parameter, not_found}
use mass_net_wallet.Txmgr.{OutPoint, UtxoFlags, UtxoClass, staking, binding}
use mass_net_wallet.Wallet.Money.{Money}
use mass_net_wallet.Wallet.Selector.{TopKSelector, new_top_k_selector, submit_all, items}
use mass_net_wallet.Wallet.OptOutputs.{opt_outputs}
use mass_net_wallet.Wallet.Construct.{Found}

-- txmgr.Credit, as far as the selection reads it
pub record Utxo (A : Type 0) : Type 0 where
  pub out_point : OutPoint
  pub flags : UtxoFlags
  pub amount : A
  pub confirmations : ℕ
  pub maturity : ℕ
  pub script_hash : Bytes

-- What the selection calls: the script hash of an address in the current keystore;
-- ScriptAddressUnspents at the synced height; UTXOUsed; CheckPoolOutPointSpend; sort.Slice by amount,
-- the largest first; and GetMaxStandardTxSize().
pub record Sources (A : Type 0) : Type 0 where
  pub script_address : Bytes → Result Bytes
  pub unspents : List Bytes → Result (List (Utxo A))
  pub utxo_used : OutPoint → Bool
  pub pool_spends : OutPoint → Bool
  pub sort_utxos : List (Utxo A) → List (Utxo A)
  pub max_standard_tx_size : ℕ

unfoldable pub is_locked_class : UtxoClass → Bool
is_locked_class staking = true
is_locked_class binding = true
is_locked_class c = false

unfoldable pub keep : {C : Type 0} → (C → Bool) → List C → List C
keep p [] = []
keep p (c ∷ cs) = let rest = keep p cs in if p c then c ∷ rest else rest

module _ {A : Type 0} (money : Money A) (sources : Sources A) where
  -- the test of the scan's callback
  unfoldable pub is_usable : Utxo A → Bool
  unfolding is_locked_class
  is_usable u =
      leb u.maturity u.confirmations
      && not u.flags.spent_by_unmined
      && not u.flags.spent
      && not (is_locked_class u.flags.utxo_class)
      && not (sources.utxo_used u.out_point)
      && not (sources.pool_spends u.out_point)

  -- the script hashes of the addresses
  unfoldable pub script_set : List Bytes → Result (List Bytes)
  script_set [] = ok []
  script_set (a ∷ rest) =
      and_then (sources.script_address a) λ s. and_then (script_set rest) λ ss. ok (s ∷ ss)

  -- getUtxosExcludeBindingAndStaking: the items, and whether the selector is full
  unfoldable pub get_utxos_exclude_binding_and_staking :
      List Bytes → A → Result (List (Utxo A) × Bool)
  unfolding is_usable script_set keep
  get_utxos_exclude_binding_and_staking addresses want = and_then (script_set addresses) λ scripts.
      and_then (sources.unspents scripts) λ credits.
        and_then
          (submit_all (λ u. money.int_value u.amount)
            (new_top_k_selector sources.max_standard_tx_size (money.int_value want))
            (keep is_usable credits))
          λ s. ok (items s, length (items s) == s.k)

  -- the first address of the list that the credit pays; `ma, _ := am.Address(addr)` is nil where it
  -- fails
  unfoldable pub address_of : Bytes → List Bytes → Result Bytes
  address_of script_hash [] = err not_found
  address_of script_hash (a ∷ rest) =
      let next = address_of script_hash rest in
      elim (sources.script_address a) [
        | ok s ↦ if bytes_eq s script_hash then ok a else next
        | err e ↦ err panic
      ]

  unfoldable pub first_address : List Bytes → List (Utxo A) → Result Bytes
  unfolding address_of
  first_address addresses [] = ok []
  first_address addresses (u ∷ rest) = address_of u.script_hash addresses

  unfoldable pub find_eligible_utxos : List Bytes → A → Result (Found A (Utxo A))
  unfolding get_utxos_exclude_binding_and_staking first_address
  find_eligible_utxos addresses amount =
      let search : Result (Found A (Utxo A)) =
        and_then (get_utxos_exclude_binding_and_staking addresses amount) λ g.
          and_then (opt_outputs money (λ u. u.amount) amount (sources.sort_utxos g.0)) λ r.
            and_then (first_address addresses r.0) λ first. ok (record {
              utxos = r.0;
              first_addr = first;
              found = r.1;
              overfull = g.1 && (length g.0 == length r.0);
            }) in
      if length addresses == 0
      then err invalid_parameter
      else (if money.int_value amount == 0 then err invalid_parameter else search)
