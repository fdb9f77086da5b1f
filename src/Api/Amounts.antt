-- ===== src/Api/Amounts.antt =====
-- api/util.go: amounts in Maxwell, and their decimal text in Mass. masswallet/common.go has a copy of
-- AmountToString.
pub mod Decimals
pub mod Fraction
pub mod RoundTrip
use mass_net_wallet.Prelude.{
  ℕ, zero, suc, ◌+◌, ◌-◌, ◌*◌, ◌^◌, ◌≤◌, ◌<◌, ◌≡◌, Bool, true, false, not, List, [], ◌∷◌, ◌++◌, ltb,
  leb, ◌==◌, if◌then◌else◌, length, take, drop, replicate,
}
use mass_net_wallet.Prelude.Bytes.{Bytes}
use mass_net_wallet.Prelude.Signed.{ℤ, pos, negsuc, pred, itoa, decimal, parse_int}
use mass_net_wallet.Prelude.Exec.{
  Result, ok, err, panic, amount_range, illegal_format, high_precision, and_then, Returns,
}

-- consensus.MaxwellPerMass and MaxMass, and massutil.MaxAmount()
pub record Limits : Type 0 where
  pub maxwell_per_mass : ℕ
  pub max_mass : ℕ
  pub max_amount : ℕ

pub record IsLimits (l : Limits) : Type 0 where
  pub per_mass : l.maxwell_per_mass ≡ 10 ^ 8
  pub covered : l.max_amount ≤ l.max_mass * 10 ^ 8
  pub max_lt : l.max_amount < 2 ^ 63

-- safetype.Uint128, and massutil.NewAmount, IntValue and ZeroAmount
pub record Uint128 (U A : Type 0) : Type 0 where
  pub from_int : ℤ → Result U
  pub from_uint : ℕ → U
  pub add_uint : U → ℕ → Result U
  pub mul_int : U → ℤ → Result U
  pub add_int : U → ℤ → Result U
  pub string : U → Bytes
  pub value : U → ℕ
  pub new_amount : U → Result A
  pub int_value : A → ℤ

pub record IsUint128 {U A : Type 0} (u : Uint128 U A) (max_amount : ℕ) : Type 0 where
  pub from_int_ok : (n : ℕ) → n < 2 ^ 63 → Returns (λ x. u.value x ≡ n) (u.from_int (pos n))
  pub from_uint_ok : (n : ℕ) → n < 2 ^ 64 → u.value (u.from_uint n) ≡ n
  pub add_uint_ok :
      (x : U) (n : ℕ)
      → u.value x + n < 2 ^ 128
      → Returns (λ y. u.value y ≡ u.value x + n) (u.add_uint x n)
  pub mul_int_ok :
      (x : U) (n : ℕ)
      → u.value x * n < 2 ^ 128
      → Returns (λ y. u.value y ≡ u.value x * n) (u.mul_int x (pos n))
  pub add_int_ok :
      (x : U) (n : ℕ)
      → u.value x + n < 2 ^ 128
      → Returns (λ y. u.value y ≡ u.value x + n) (u.add_int x (pos n))
  pub string_eq : (x : U) → u.string x ≡ decimal (u.value x)
  pub new_amount_ok :
      (x : U)
      → u.value x ≤ max_amount
      → Returns (λ a. u.int_value a ≡ pos (u.value x)) (u.new_amount x)

-- strings.TrimLeft(s, "0")
unfoldable pub trim_left : Bytes → Bytes
trim_left [] = []
trim_left (c ∷ cs) = let rest = trim_left cs in if c == b'0' then rest else c ∷ cs

-- a first character in front of what is left of the others
keep_front : ℕ → Bytes → Bytes
keep_front c [] = if c == b'0' then [] else c ∷ []
keep_front c (d ∷ ds) = c ∷ (d ∷ ds)

-- strings.TrimRight(s, "0")
unfoldable pub trim_right : Bytes → Bytes
unfolding keep_front
trim_right [] = []
trim_right (c ∷ cs) = keep_front c (trim_right cs)

extend_head : ℕ → List Bytes → List Bytes
extend_head c [] = (c ∷ []) ∷ []
extend_head c (x ∷ xs) = (c ∷ x) ∷ xs

-- strings.Split(s, ".")
unfoldable pub split_dot : Bytes → List Bytes
unfolding extend_head
split_dot [] = [] ∷ []
split_dot (c ∷ cs) = let rest = split_dot cs in if c == b'.' then [] ∷ rest else extend_head c rest

-- s[:len(s)-8] and s[len(s)-8:], without the zeros at the end of the second
unfoldable pub cut : Bytes → Result (Bytes × Bytes)
unfolding trim_right
cut s =
    let at = length s - 8 in
    if ltb (length s) 8 then err panic else ok (take at s, trim_right (drop at s))

unfoldable pub join_parts : Bytes → Bytes → Bytes
join_parts s_int [] = s_int
join_parts s_int (c ∷ cs) = s_int ++ (b'.' ∷ (c ∷ cs))

-- the integral part, "0" where it has no other digit
unfoldable pub integral : Bytes → Bytes
unfolding trim_left
integral s = let t = trim_left s in if length t == 0 then b'0' ∷ [] else t

-- the fractional part in eight digits
unfoldable pub fractional : Bytes → Result Bytes
unfolding trim_right
fractional s =
    let t = trim_right s in
    if ltb 8 (length t) then err high_precision else ok (t ++ replicate (8 - length t) b'0')

module _ {U A : Type 0} (limits : Limits) (u128 : Uint128 U A) where
  -- m > max, of an int64
  above_max : ℤ → Bool
  above_max (pos n) = ltb limits.max_amount n
  above_max (negsuc n) = false

  unfoldable pub amount_to_string : ℤ → Result Bytes
  unfolding above_max cut join_parts itoa parse_int pred
  amount_to_string m =
      let text : Result Bytes = and_then (u128.from_int m) λ u.
        and_then (u128.add_uint u limits.maxwell_per_mass) λ v.
          and_then (cut (u128.string v))
            λ parts. and_then (parse_int parts.0) λ i. ok (join_parts (itoa (pred i)) parts.1) in
      if above_max m then err amount_range else text

  -- `i < 0 || uint64(i) > consensus.MaxMass`
  in_mass_range : ℤ → Result ℤ
  in_mass_range (pos n) = if ltb limits.max_mass n then err amount_range else ok (pos n)
  in_mass_range (negsuc n) = err amount_range

  -- `f < 0`
  not_negative : ℤ → Result ℤ
  not_negative (pos n) = ok (pos n)
  not_negative (negsuc n) = err illegal_format

  -- from the two parts on
  unfoldable pub convert : Bytes → Bytes → Result A
  unfolding parse_int in_mass_range not_negative
  convert s_int s_frac = and_then (parse_int s_int) λ i0. and_then (in_mass_range i0) λ i.
      and_then (parse_int s_frac) λ f0. and_then (not_negative f0) λ f.
        and_then (u128.mul_int (u128.from_uint limits.maxwell_per_mass) i)
          λ u. and_then (u128.add_int u f) λ v. u128.new_amount v

  -- what follows from the parts between the dots
  unfoldable pub amount_of_parts : List Bytes → Result A
  unfolding integral fractional convert
  amount_of_parts [] = err panic
  amount_of_parts (s ∷ []) = and_then (fractional []) λ f. convert (integral s) f
  amount_of_parts (s ∷ (t ∷ [])) = and_then (fractional t) λ f. convert (integral s) f
  amount_of_parts (s ∷ (t ∷ (r ∷ rest))) = err illegal_format

  unfoldable pub string_to_amount : Bytes → Result A
  unfolding split_dot amount_of_parts
  string_to_amount s = amount_of_parts (split_dot s)
