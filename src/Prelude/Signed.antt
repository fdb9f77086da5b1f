-- ===== src/Prelude/Signed.antt =====
-- int64 as a signed number, and its decimal text (strconv).
use Prim.Native.Nat.{ℕ, zero, suc, ◌+◌, ◌-◌, ◌*◌, ◌/◌, ◌%◌, ◌^◌}
use mathlib.Core.Bool.{Bool, true, ◌&&◌}
use mathlib.Core.List.{[], ◌∷◌, ◌++◌}
use mass_net_wallet.Prelude.Tests.{ltb, leb, ◌==◌, if◌then◌else◌}
use mass_net_wallet.Prelude.Bytes.{Bytes}
use mass_net_wallet.Prelude.Exec.{Result, ok, err, not_a_number}

pub data ℤ : Type 0 where
  pos : ℕ → ℤ
  -- minus one, and less
  negsuc : ℕ → ℤ

-- minus a number that is not negative
unfoldable pub neg : ℕ → ℤ
neg zero = pos 0
neg (suc n) = negsuc n

-- n - 1
unfoldable pub pred : ℤ → ℤ
pred (pos zero) = negsuc 0
pred (pos (suc n)) = pos n
pred (negsuc n) = negsuc (suc n)

-- the digits of a number; `fuel` is above their number
unfoldable pub digits_loop : ℕ → ℕ → Bytes
digits_loop zero n = []
digits_loop (suc fuel) n =
    let rest = digits_loop fuel (n / 10) in
    if ltb n 10 then (b'0' + n) ∷ [] else rest ++ ((b'0' + n % 10) ∷ [])

unfoldable pub decimal : ℕ → Bytes
unfolding digits_loop
decimal n = digits_loop (suc n) n

-- strconv.Itoa
unfoldable pub itoa : ℤ → Bytes
unfolding decimal
itoa (pos n) = decimal n
itoa (negsuc n) = b'-' ∷ decimal (suc n)

unfoldable pub value_loop : ℕ → Bytes → ℕ
value_loop acc [] = acc
value_loop acc (c ∷ cs) = value_loop (acc * 10 + (c - b'0')) cs

unfoldable pub only_digits : Bytes → Bool
only_digits [] = true
only_digits (c ∷ cs) = leb b'0' c && leb c b'9' && only_digits cs

-- digits without a sign, up to a bound
unfoldable pub parse_digits : ℕ → Bytes → Result ℕ
unfolding value_loop only_digits
parse_digits bound [] = err not_a_number
parse_digits bound (c ∷ cs) =
    let n = value_loop 0 (c ∷ cs) in
    if only_digits (c ∷ cs) && ltb n bound then ok n else err not_a_number

map_result : {A B : Type 0} → (A → B) → Result A → Result B
map_result f (ok a) = ok (f a)
map_result f (err e) = err e

-- strconv.ParseInt(s, 10, 64), and strconv.Atoi where `int` has 64 bits: one sign may stand in front.
unfoldable pub parse_int : Bytes → Result ℤ
unfolding parse_digits neg map_result
parse_int [] = err not_a_number
parse_int (c ∷ cs) =
    if c == b'-'
    then map_result neg (parse_digits (2 ^ 63 + 1) cs)
    else (if c == b'+'
        then map_result pos (parse_digits (2 ^ 63) cs)
        else map_result pos (parse_digits (2 ^ 63) (c ∷ cs)))
