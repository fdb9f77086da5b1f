-- ===== src/Tests/Payments.antt =====
-- Concrete runs of the wallet manager's computations and of its amounts' text, at which their
-- theorems apply.
use mass_net_wallet.Prelude.{
  ℕ, ◌+◌, ◌-◌, ◌*◌, ◌/◌, ◌^◌, ◌≤◌, ◌<◌, ◌≡◌, ◌⊎◌, refl, Bool, true, false, List, [], ◌∷◌, arith,
  min, leb, if◌then◌else◌, count,
}
use mass_net_wallet.Prelude.Bytes.{Bytes, bytes_eq}
use mass_net_wallet.Prelude.Exec.{Result, ok, err, amount_range, short, Returns, returns}
use mass_net_wallet.Prelude.Signed.{ℤ, pos, negsuc, decimal}
use mass_net_wallet.Wallet.Money.{Money, IsMoney, gain, loss}
use mass_net_wallet.Wallet.Selector.{new_top_k_selector, submit_all}
use mass_net_wallet.Wallet.Selector.Choice.{IsChoice, submit_all-new_top_k_selector}
use mass_net_wallet.Wallet.OptOutputs.{opt_outputs}
use mass_net_wallet.Wallet.OptOutputs.Picks.{total}
use mass_net_wallet.Wallet.OptOutputs.Coverage.{opt_outputs_covers}
use mass_net_wallet.Wallet.Fees.{
  Payment, addresses, member, all_known, each_sub, maybe_subtract_fee_from_amounts, pay_and_change,
}
use mass_net_wallet.Wallet.Fees.Split.{
  paid, Reduced, maybe_subtract_fee_from_amounts_receivers, each_sub_bounds,
}
use mass_net_wallet.Wallet.Fees.Change.{Balanced, pay_and_change_balance}
use mass_net_wallet.Wallet.Construct.{Calls, auto_construct}
use mass_net_wallet.Wallet.Construct.Rounds.{Ends, auto_construct-Ends}
use mass_net_wallet.Api.Amounts.{
  Limits, IsLimits, Uint128, IsUint128, amount_to_string, string_to_amount,
}
use mass_net_wallet.Api.Amounts.RoundTrip.{string_to_amount-amount_to_string}

-- amounts up to 1000
abbrev pub capped : ℕ → Result ℕ
capped n = if leb n 1000 then ok n else err amount_range

abbrev pub coin_money : Money ℕ
coin_money = record {
  zero_amount = 0;
  from_int = capped;
  add = λ a b. capped (a + b);
  add_int = λ a i. elim i [ pos n ↦ capped (a + n) | negsuc n ↦ err amount_range ];
  sub = λ a b. if leb b a then ok (a - b) else err amount_range;
  sub_value = λ a b. a - b;
  int_value = λ a. a;
}

capped-ok : (n : ℕ) → n ≤ 1000 → Returns (λ c. c ≡ n) (capped n)
capped-ok n h = let low : leb n 1000 ≡ true = ground arith in rw low (returns refl)

capped_int : (a c : ℕ) (i : ℤ) → coin_money.add_int a i ≡ ok c → c + loss i ≡ a + gain i
capped_int a c (pos n) e = ground arith
capped_int a c (negsuc n) e = absurd (ground arith)

pub coin_money-IsMoney : IsMoney coin_money 1000
coin_money-IsMoney = record {
  max_lt = omega arith;
  zero_eq = refl;
  from_ok = capped-ok;
  add_ok = λ a b h. capped-ok (a + b) h;
  sub_ok = λ a b h. (let low : leb b a ≡ true = ground arith in rw low (returns refl));
  sub_value_eq = λ a b h. refl;
  sub_inv = λ a b c e. ground arith;
  add_inv = λ a b c e. ground arith;
  add_int_inv = capped_int;
}

abbrev coins : List ℕ
coins = 9 ∷ 7 ∷ 6 ∷ 20 ∷ 5 ∷ 12 ∷ 8 ∷ []

submit_all-new_top_k_selector_example :
    Returns
      (λ s. (s.k ≡ 462 / 154) × (s.require_amt ≡ 10) × IsChoice (λ n. n) s coins)
      (submit_all (λ n. n) (new_top_k_selector 462 10) coins)
submit_all-new_top_k_selector_example = submit_all-new_top_k_selector (λ n. n) 462 10 coins

opt_outputs_covers_example :
    Returns
      (λ r.
        (r.1 ≡ total (λ c. c) r.0)
        × ((p : ℕ → Bool) → count p r.0 ≤ count p (9 ∷ 7 ∷ 6 ∷ 2 ∷ []))
        × (min 8 (total (λ c. c) (9 ∷ 7 ∷ 6 ∷ 2 ∷ [])) ≤ r.1))
      (opt_outputs coin_money (λ c. c) 8 (9 ∷ 7 ∷ 6 ∷ 2 ∷ []))
opt_outputs_covers_example =
    opt_outputs_covers coin_money (λ c. c) 8 1000 coin_money-IsMoney (9 ∷ 7 ∷ 6 ∷ 2 ∷ [])
      (omega arith) (omega arith)

abbrev address_a : Bytes
address_a = b'a' ∷ []

abbrev address_b : Bytes
address_b = b'b' ∷ []

abbrev payments : List (Payment ℕ)
payments =
    record { address = address_a; amount = 100 }
    ∷ (record { address = address_b; amount = 50 } ∷ [])

maybe_subtract_fee_from_amounts_receivers_example :
    Returns
      (λ r.
        Reduced coin_money (address_b ∷ []) (each_sub 7 1) payments r.0
        × (r.1 ≡ paid coin_money payments)
        × (paid coin_money r.0 + each_sub 7 1 * 1 ≡ paid coin_money payments))
      (maybe_subtract_fee_from_amounts coin_money payments (address_b ∷ []) 7)
unfolding member addresses all_known each_sub bytes_eq
maybe_subtract_fee_from_amounts_receivers_example =
    maybe_subtract_fee_from_amounts_receivers coin_money 1000 coin_money-IsMoney payments
      (address_b ∷ []) 7 (omega arith) (refl, tt) (refl, (refl, tt)) refl (omega arith)
      (omega arith, (omega arith, tt))

each_sub_bounds_example : (7 ≤ each_sub 7 2 * 2) × (each_sub 7 2 * 2 < 7 + 2)
each_sub_bounds_example = each_sub_bounds 7 2 (omega arith)

-- 10 for each output
abbrev estimate : ℕ → Result ℕ
estimate n = ok (10 * n)

abbrev rest : ℕ
rest = 120

pay_and_change_balance_example :
    (Balanced coin_money 1000 coin_money-IsMoney estimate 300 payments [] 2 (payments, rest)
      × (rest ≡ 0))
    ⊎ (Balanced coin_money 1000 coin_money-IsMoney estimate 300 payments [] (2 + 1) (payments, rest)
        × (0 < rest))
unfolding pay_and_change
pay_and_change_balance_example =
    pay_and_change_balance coin_money 1000 coin_money-IsMoney estimate 300 payments []
      (payments, rest) refl

-- a wallet that holds 300 in one output
abbrev calls : Calls ℕ ℕ ℕ ℕ
calls = record {
  find = λ want.
      ok (record { utxos = 300 ∷ []; first_addr = address_a; found = 300; overfull = false });
  change_out = λ address change. ok change;
  required_fee = λ utxos outputs. ok (10 * outputs);
  add_tx_in = λ utxos. ok utxos;
  min_relay_tx_fee = 5;
}

auto_construct-Ends_example :
    Ends (auto_construct coin_money calls [] 1000 (pos 100 ∷ (pos 50 ∷ [])) 0)
auto_construct-Ends_example =
    auto_construct-Ends coin_money 1000 coin_money-IsMoney calls [] (pos 100 ∷ (pos 50 ∷ [])) 0

abbrev limits : Limits
limits = record { maxwell_per_mass = 10 ^ 8; max_mass = 206438400; max_amount = 206438400 * 10 ^ 8 }

limits-IsLimits : IsLimits limits
limits-IsLimits = record { per_mass = refl; covered = omega arith; max_lt = omega arith }

natural : ℤ → Result ℕ
natural (pos n) = ok n
natural (negsuc n) = err short

abbrev wide : Uint128 ℕ ℕ
wide = record {
  from_int = natural;
  from_uint = λ n. n;
  add_uint = λ x n. ok (x + n);
  mul_int = λ x i. elim i [ pos n ↦ ok (x * n) | negsuc n ↦ err short ];
  add_int = λ x i. elim i [ pos n ↦ ok (x + n) | negsuc n ↦ err short ];
  string = decimal;
  value = λ x. x;
  new_amount = λ x. ok x;
  int_value = pos;
}

wide-IsUint128 : IsUint128 wide limits.max_amount
unfolding natural
wide-IsUint128 = record {
  from_int_ok = λ n h. returns refl;
  from_uint_ok = λ n h. refl;
  add_uint_ok = λ x n h. returns refl;
  mul_int_ok = λ x n h. returns refl;
  add_int_ok = λ x n h. returns refl;
  string_eq = λ x. refl;
  new_amount_ok = λ x h. returns refl;
}

string_to_amount-amount_to_string_example :
    Returns
      (λ s. Returns (λ a. pos a ≡ pos 150000000) (string_to_amount limits wide s))
      (amount_to_string limits wide (pos 150000000))
string_to_amount-amount_to_string_example =
    string_to_amount-amount_to_string limits limits-IsLimits wide wide-IsUint128 150000000
      (omega arith)
