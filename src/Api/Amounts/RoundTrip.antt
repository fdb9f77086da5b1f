-- ===== src/Api/Amounts/RoundTrip.antt =====
-- api/util.go: StringToAmount reads back what AmountToString writes.
use mass_net_wallet.Prelude.{
  ℕ, suc, ◌+◌, ◌-◌, ◌*◌, ◌/◌, ◌%◌, ◌^◌, ◌≤◌, ◌≡◌, refl, ap, ◌∙◌, true, false, [], ◌∷◌, ◌++◌, arith,
  ltb, length, length-append, replicate, take-append_length, drop-append_length,
}
use mass_net_wallet.Prelude.Bytes.{Bytes}
use mass_net_wallet.Prelude.Signed.{ℤ, pos, pred, itoa, decimal, only_digits, parse_int}
use mass_net_wallet.Prelude.Exec.{ok, and_then, Returns, returns, Returns-and_then, Returns-map}
use mass_net_wallet.Api.Amounts.{
  Limits, IsLimits, Uint128, IsUint128, trim_right, cut, join_parts, amount_to_string, integral,
  fractional, convert, amount_of_parts, string_to_amount,
}
use mass_net_wallet.Api.Amounts.Decimals.{
  only_digits-decimal, parse_int-digits, parse_int-decimal, split_dot-digits, split_dot-dot,
  trim_right-zeros, only_digits-trim_right, trim_right-trim_right, integral-decimal,
}
use mass_net_wallet.Api.Amounts.Fraction.{
  fraction, length-fraction, only_digits-fraction, value_loop-fraction, decimal-fraction,
}

-- the text of an amount: its whole Mass, and its fraction without the zeros at its end
abbrev text : ℕ → Bytes
text m = join_parts (decimal (m / 10 ^ 8)) (trim_right (fraction m))

cut-append : (xs ys : Bytes) → length ys ≡ 8 → cut (xs ++ ys) ≡ ok (xs, trim_right ys)
unfolding cut
cut-append xs ys e =
    let at : length (xs ++ ys) - 8 ≡ length xs = omega (arith, length-append xs ys) in
    ground (arith, length-append xs ys, take-append_length xs ys, drop-append_length xs ys)

pred-add : (n : ℕ) → pred (pos (n + 1)) ≡ pos n
unfolding pred
pred-add n = let e : n + 1 ≡ suc n = omega arith in ap (λ (k : ℕ). pred (pos k)) e

module _ {U A : Type 0} (limits : Limits) (limit_laws : IsLimits limits) (u128 : Uint128 U A)
    (laws : IsUint128 u128 limits.max_amount) where
  amount_to_string-text :
      (m : ℕ)
      → m ≤ limits.max_amount
      → Returns (λ s. s ≡ text m) (amount_to_string limits u128 (pos m))
  unfolding amount_to_string itoa pred
  amount_to_string-text m h =
      let low : ltb limits.max_amount m ≡ false = ground arith in
      rw low (
        Returns-and_then (laws.from_int_ok m (omega (arith, limit_laws.max_lt))) λ u e.
          Returns-and_then
            (laws.add_uint_ok u limits.maxwell_per_mass
              (omega (arith, limit_laws.max_lt, limit_laws.per_mass)))
            λ v f.
              let value_eq : u128.value v ≡ m + 10 ^ 8 = omega (arith, limit_laws.per_mass) in
              let shown : u128.string v ≡ decimal (m / 10 ^ 8 + 1) ++ fraction m =
                laws.string_eq v ∙ ap decimal value_eq ∙ decimal-fraction m in
              let read : parse_int (decimal (m / 10 ^ 8 + 1)) ≡ ok (pos (m / 10 ^ 8 + 1)) =
                parse_int-decimal (m / 10 ^ 8 + 1) (omega (arith, limit_laws.max_lt)) in
              rw
                (
                  shown,
                  cut-append (decimal (m / 10 ^ 8 + 1)) (fraction m) (length-fraction m),
                  read,
                )
                (returns (
                  ap (λ (n : ℤ). join_parts (itoa n) (trim_right (fraction m)))
                    (pred-add (m / 10 ^ 8)))))

  fractional-trim_right : (m : ℕ) → fractional (trim_right (fraction m)) ≡ ok (fraction m)
  unfolding fractional
  fractional-trim_right m =
      let zeros = trim_right-zeros (fraction m) in
      rw (trim_right-trim_right (fraction m)) (
        let fits : ltb 8 (length (trim_right (fraction m))) ≡ false =
          ground (arith, zeros.0, length-fraction m) in
        let padded : trim_right (fraction m)
              ++ replicate (8 - length (trim_right (fraction m))) b'0'
            ≡ fraction m =
          rw (length-fraction m) at zeros.1 in
        rw (fits, padded) refl)

  convert-digits :
      (m : ℕ)
      → m ≤ limits.max_amount
      → Returns
          (λ a. u128.int_value a ≡ pos m)
          (convert limits u128 (decimal (m / 10 ^ 8)) (fraction m))
  unfolding convert
  convert-digits m h =
      let whole : parse_int (decimal (m / 10 ^ 8)) ≡ ok (pos (m / 10 ^ 8)) =
        parse_int-decimal (m / 10 ^ 8) (omega (arith, limit_laws.max_lt)) in
      let part : parse_int (fraction m) ≡ ok (pos (m % 10 ^ 8)) = rw (value_loop-fraction m) at (
        parse_int-digits (fraction m) (only_digits-fraction m) (omega (arith, length-fraction m))
          (omega (arith, value_loop-fraction m))) in
      let in_range : ltb limits.max_mass (m / 10 ^ 8) ≡ false =
        ground (arith, limit_laws.covered) in
      rw (whole, in_range, part)
        (let one : u128.value (u128.from_uint limits.maxwell_per_mass) ≡ 10 ^ 8 = omega (
          arith,
          laws.from_uint_ok limits.maxwell_per_mass (omega (arith, limit_laws.per_mass)),
          limit_laws.per_mass,
        ) in
          Returns-and_then
            (laws.mul_int_ok (u128.from_uint limits.maxwell_per_mass) (m / 10 ^ 8)
              (rw one (omega (arith, limit_laws.max_lt))))
            λ u e.
              let whole_value : u128.value u ≡ 10 ^ 8 * (m / 10 ^ 8) = rw one at e in
              Returns-and_then (laws.add_int_ok u (m % 10 ^ 8) (omega (arith, limit_laws.max_lt)))
                λ v f.
                  let total : u128.value v ≡ m = omega arith in
                  Returns-map (laws.new_amount_ok v (omega arith)) λ a g. g ∙ ap pos total)

  read_parts :
      (d t f : Bytes)
      → integral d ≡ d
      → fractional t ≡ ok f
      → and_then (fractional t) (λ x. convert limits u128 (integral d) x) ≡ convert limits u128 d f
  read_parts d t f e g =
      ap (λ r. and_then r (λ x. convert limits u128 (integral d) x)) g
      ∙ ap (λ x. convert limits u128 x f) e

  -- the parts between the dots
  string_to_amount-join_parts :
      (d t f : Bytes)
      → only_digits d ≡ true
      → only_digits t ≡ true
      → integral d ≡ d
      → fractional t ≡ ok f
      → string_to_amount limits u128 (join_parts d t) ≡ convert limits u128 d f
  unfolding string_to_amount join_parts amount_of_parts
  string_to_amount-join_parts d [] f h k e g =
      ap (amount_of_parts limits u128) (split_dot-digits d h) ∙ read_parts d [] f e g
  string_to_amount-join_parts d (c ∷ cs) f h k e g =
      ap (amount_of_parts limits u128) (split_dot-dot d (c ∷ cs) h k) ∙ read_parts d (c ∷ cs) f e g

  string_to_amount-text :
      (m : ℕ)
      → m ≤ limits.max_amount
      → Returns (λ a. u128.int_value a ≡ pos m) (string_to_amount limits u128 (text m))
  string_to_amount-text m h =
      rw
        (string_to_amount-join_parts (decimal (m / 10 ^ 8)) (trim_right (fraction m)) (fraction m)
          (only_digits-decimal (m / 10 ^ 8))
          (only_digits-trim_right (fraction m) (only_digits-fraction m))
          (integral-decimal (m / 10 ^ 8)) (fractional-trim_right m))
        (convert-digits m h)

  -- AmountToString succeeds on every number from 0 to the largest amount, and StringToAmount reads
  -- that number back from the text. The constants are as in MASS and the 128-bit arithmetic
  -- behaves as documented.
  pub string_to_amount-amount_to_string :
      (m : ℕ)
      → m ≤ limits.max_amount
      → Returns
          (λ s. Returns (λ a. u128.int_value a ≡ pos m) (string_to_amount limits u128 s))
          (amount_to_string limits u128 (pos m))
  string_to_amount-amount_to_string m h =
      Returns-map (amount_to_string-text m h) λ s e. rw e (string_to_amount-text m h)
