-- ===== src/Api/Amounts/Fraction.antt =====
-- api/util.go: the eight digits that stand for an amount's fraction of a Mass.
use mass_net_wallet.Prelude.{
  ℕ, zero, suc, ◌+◌, ◌/◌, ◌%◌, ◌^◌, ◌≡◌, refl, ap, ◌∙◌, true, ◌++◌, arith, length,
}
use mass_net_wallet.Prelude.Bytes.{Bytes}
use mass_net_wallet.Prelude.Signed.{decimal, value_loop, only_digits}
use mass_net_wallet.Api.Amounts.Decimals.{
  last_digits, chop, tail_value, length-last_digits, decimal-last_digits, value_loop-last_digits,
  only_digits-last_digits,
}

unfoldable pub fraction : ℕ → Bytes
unfolding last_digits
fraction n = last_digits 8 n

pub length-fraction : (n : ℕ) → length (fraction n) ≡ 8
unfolding fraction
length-fraction n = length-last_digits 8 n

pub only_digits-fraction : (n : ℕ) → only_digits (fraction n) ≡ true
unfolding fraction
only_digits-fraction n = only_digits-last_digits 8 n

pub value_loop-fraction : (n : ℕ) → value_loop 0 (fraction n) ≡ n % 10 ^ 8
unfolding fraction
value_loop-fraction n = omega (arith, value_loop-last_digits 8 n)

-- The digits are those of the number that they make.
last_digits_eq : (k m n : ℕ) → tail_value k m ≡ tail_value k n → last_digits k m ≡ last_digits k n
unfolding last_digits
last_digits_eq zero m n h = refl
last_digits_eq (suc k) m n h =
    let last : m % 10 ≡ n % 10 = omega arith in
    let rest : tail_value k (m / 10) ≡ tail_value k (n / 10) = omega arith in
    rw (last, last_digits_eq k (m / 10) (n / 10) rest) refl

-- One Mass more has the same fraction.
fraction-add : (n : ℕ) → fraction (n + 10 ^ 8) ≡ fraction n
unfolding fraction
fraction-add n = last_digits_eq 8 (n + 10 ^ 8) n (omega arith)

-- The text of an amount with one Mass more is its whole Mass, one more, and its fraction.
pub decimal-fraction : (n : ℕ) → decimal (n + 10 ^ 8) ≡ decimal (n / 10 ^ 8 + 1) ++ fraction n
unfolding fraction
decimal-fraction n =
    let w = n + 10 ^ 8 in
    let whole : chop 8 w ≡ n / 10 ^ 8 + 1 = omega arith in
    decimal-last_digits 8 w (omega arith)
    ∙ ap (λ t. decimal t ++ last_digits 8 w) whole
    ∙ ap (λ t. decimal (n / 10 ^ 8 + 1) ++ t) (fraction-add n)
