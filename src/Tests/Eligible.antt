-- ===== src/Tests/Eligible.antt =====
-- A concrete run of findEligibleUtxos, at which its theorem applies.
use mass_net_wallet.Prelude.{ℕ, ◌≤◌, ◌≡◌, refl, Bool, true, false, some, List, [], ◌∷◌, arith}
use mass_net_wallet.Prelude.Bytes.{Bytes, bytes_eq, zeros}
use mass_net_wallet.Prelude.Exec.{ok, err, short}
use mass_net_wallet.Txmgr.{UtxoFlags, standard}
use mass_net_wallet.Wallet.Selector.{submit_all, new_top_k_selector, items}
use mass_net_wallet.Wallet.OptOutputs.{opt_outputs}
use mass_net_wallet.Wallet.OptOutputs.Picks.{total}
use mass_net_wallet.Wallet.Construct.{Found, Calls, Built}
use mass_net_wallet.Wallet.Fees.Change.{at_result}
use mass_net_wallet.Wallet.Eligible.{Utxo, Sources, find_eligible_utxos}
use mass_net_wallet.Wallet.Eligible.Usable.{
  IsReordering, IsBounded, IsSelection, find_eligible_utxos-IsSelection,
}
use mass_net_wallet.Tests.Payments.{coin_money, coin_money-IsMoney}

abbrev address : Bytes
address = b'a' ∷ []

abbrev flags : Bool → UtxoFlags
flags spent = record {
  spent = spent;
  spent_by_unmined = false;
  change = false;
  is_unmined = false;
  utxo_class = standard;
}

abbrev utxo : ℕ → Bool → ℕ → Utxo ℕ
utxo n spent maturity = record {
  out_point = record { hash = zeros 32; index = n };
  flags = flags spent;
  amount = n;
  confirmations = 10;
  maturity = maturity;
  script_hash = address;
}

-- two usable outputs, one that is spent, and one that is not mature
abbrev unspents : List (Utxo ℕ)
unspents = utxo 9 false 0 ∷ utxo 5 true 0 ∷ utxo 6 false 20 ∷ utxo 7 false 0 ∷ []

abbrev sources : Sources ℕ
sources = record {
  script_address = λ a. ok a;
  unspents = λ scripts. ok unspents;
  utxo_used = λ o. false;
  pool_spends = λ o. false;
  sort_utxos = λ us. us;
  max_standard_tx_size = 462;
}

abbrev found : Found ℕ (Utxo ℕ)
found = record {
  utxos = utxo 7 false 0 ∷ utxo 9 false 0 ∷ [];
  first_addr = address;
  found = 16;
  overfull = false;
}

sources-IsReordering : IsReordering coin_money 1000 coin_money-IsMoney sources
sources-IsReordering = λ f us. refl

sources-IsBounded : IsBounded coin_money 1000 coin_money-IsMoney sources
sources-IsBounded =
    λ scripts credits e. at_result (λ cs. total (λ u. u.amount) cs ≤ 1000) e (omega arith)

find_eligible_utxos-found : find_eligible_utxos coin_money sources (address ∷ []) 8 ≡ ok found
unfolding find_eligible_utxos bytes_eq submit_all new_top_k_selector opt_outputs items
find_eligible_utxos-found = refl

find_eligible_utxos-IsSelection_example :
    IsSelection coin_money 1000 coin_money-IsMoney sources (address ∷ []) 8 found
find_eligible_utxos-IsSelection_example =
    find_eligible_utxos-IsSelection coin_money 1000 coin_money-IsMoney sources sources-IsReordering
      sources-IsBounded (address ∷ []) 8 found find_eligible_utxos-found

abbrev calls : Calls ℕ (Utxo ℕ) ℕ ℕ
calls = record {
  find = λ want. err short;
  change_out = λ address change. ok change;
  required_fee = λ utxos outputs. ok 1;
  add_tx_in = λ utxos. ok (16 ∷ []);
  min_relay_tx_fee = 2;
}

abbrev built : Built ℕ ℕ ℕ
built = record { fee = 3; inputs = 16 ∷ []; change = some 8 }
