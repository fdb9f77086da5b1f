-- ===== src/Api/Amounts/Decimals.antt =====
-- strconv and strings: the digits of a number, what is read back from them, and what trimming leaves.
use mass_net_wallet.Prelude.{
  ℕ, zero, suc, ◌+◌, ◌-◌, ◌*◌, ◌/◌, ◌%◌, ◌^◌, ◌≤◌, ◌<◌, ◌≡◌, refl, ap, sym, ◌∙◌, true, [], ◌∷◌,
  ◌++◌, append_assoc, append-nil, arith, ltb, ◌==◌, length, length-append, length-replicate,
  replicate, Bool-cases, inl, inr,
}
use mass_net_wallet.Prelude.Bytes.{Bytes}
use mass_net_wallet.Prelude.Signed.{
  pos, digits_loop, decimal, value_loop, only_digits, parse_digits, parse_int,
}
use mass_net_wallet.Prelude.Exec.{ok}
use mass_net_wallet.Api.Amounts.{trim_left, keep_front, trim_right, split_dot, integral}

-- the last `k` digits
unfoldable pub last_digits : ℕ → ℕ → Bytes
last_digits zero n = []
last_digits (suc k) n = last_digits k (n / 10) ++ ((b'0' + n % 10) ∷ [])

-- the number without its last `k` digits, and the number that these make
abbrev pub chop : ℕ → ℕ → ℕ
chop zero n = n
chop (suc k) n = chop k (n / 10)

abbrev pub tail_value : ℕ → ℕ → ℕ
tail_value zero n = 0
tail_value (suc k) n = tail_value k (n / 10) * 10 + n % 10

pub length-last_digits : (k n : ℕ) → length (last_digits k n) ≡ k
unfolding last_digits
length-last_digits zero n = refl
length-last_digits (suc k) n = omega (
  arith,
  length-append (last_digits k (n / 10)) ((b'0' + n % 10) ∷ []),
  length-last_digits k (n / 10),
)

digits_loop_fuel : (f g n : ℕ) → n < f → n < g → digits_loop f n ≡ digits_loop g n
unfolding digits_loop
digits_loop_fuel zero g n h k = absurd (omega arith)
digits_loop_fuel (suc f) zero n h k = absurd (omega arith)
digits_loop_fuel (suc f) (suc g) n h k = ground (arith, digits_loop_fuel f g (n / 10))

decimal_step : (n : ℕ) → 10 ≤ n → decimal n ≡ decimal (n / 10) ++ ((b'0' + n % 10) ∷ [])
unfolding decimal digits_loop
decimal_step n h = ground (arith, digits_loop_fuel n (suc (n / 10)) (n / 10))

chop_le : (k n : ℕ) → chop k n ≤ n
chop_le zero n = omega arith
chop_le (suc k) n = omega (arith, chop_le k (n / 10))

-- A number with more digits ends in its last ones.
pub decimal-last_digits :
    (k n : ℕ) → 0 < chop k n → decimal n ≡ decimal (chop k n) ++ last_digits k n
unfolding last_digits
decimal-last_digits zero n h = sym (append-nil (decimal n))
decimal-last_digits (suc k) n h =
    let big : 10 ≤ n = omega (arith, chop_le k (n / 10)) in
    decimal_step n big
    ∙ ap (λ t. t ++ ((b'0' + n % 10) ∷ [])) (decimal-last_digits k (n / 10) h)
    ∙ append_assoc (decimal (chop k (n / 10))) (last_digits k (n / 10)) ((b'0' + n % 10) ∷ [])

value_loop-append :
    (acc : ℕ) (xs : Bytes) (c : ℕ)
    → value_loop acc (xs ++ (c ∷ [])) ≡ value_loop acc xs * 10 + (c - b'0')
unfolding value_loop
value_loop-append acc [] c = refl
value_loop-append acc (x ∷ xs) c = value_loop-append (acc * 10 + (x - b'0')) xs c

pub value_loop-last_digits : (k n : ℕ) → value_loop 0 (last_digits k n) ≡ tail_value k n
unfolding value_loop last_digits
value_loop-last_digits zero n = refl
value_loop-last_digits (suc k) n = omega (
  arith,
  value_loop-append 0 (last_digits k (n / 10)) (b'0' + n % 10),
  value_loop-last_digits k (n / 10),
)

value_loop-digits_loop : (fuel n : ℕ) → n < fuel → value_loop 0 (digits_loop fuel n) ≡ n
unfolding digits_loop value_loop
value_loop-digits_loop zero n h = absurd (omega arith)
value_loop-digits_loop (suc fuel) n h = ground (
  arith,
  value_loop-digits_loop fuel (n / 10),
  value_loop-append 0 (digits_loop fuel (n / 10)) (b'0' + n % 10),
)

only_digits-append :
    (xs ys : Bytes) → only_digits xs ≡ true → only_digits ys ≡ true → only_digits (xs ++ ys) ≡ true
unfolding only_digits
only_digits-append [] ys h k = k
only_digits-append (x ∷ xs) ys h k = ground (arith, only_digits-append xs ys)

only_digits-digit : (d : ℕ) → d < 10 → only_digits ((b'0' + d) ∷ []) ≡ true
unfolding only_digits
only_digits-digit d h = ground arith

pub only_digits-last_digits : (k n : ℕ) → only_digits (last_digits k n) ≡ true
unfolding only_digits last_digits
only_digits-last_digits zero n = refl
only_digits-last_digits (suc k) n =
    only_digits-append (last_digits k (n / 10)) ((b'0' + n % 10) ∷ [])
      (only_digits-last_digits k (n / 10)) (only_digits-digit (n % 10) (omega arith))

only_digits-digits_loop : (fuel n : ℕ) → only_digits (digits_loop fuel n) ≡ true
unfolding digits_loop only_digits
only_digits-digits_loop zero n = refl
only_digits-digits_loop (suc fuel) n = ground (
  arith,
  only_digits-digits_loop fuel (n / 10),
  only_digits-append (digits_loop fuel (n / 10)) ((b'0' + n % 10) ∷ []),
)

pub only_digits-decimal : (n : ℕ) → only_digits (decimal n) ≡ true
unfolding decimal
only_digits-decimal n = only_digits-digits_loop (suc n) n

-- Digits are read as the number that they make.
pub parse_int-digits :
    (xs : Bytes)
    → only_digits xs ≡ true
    → 0 < length xs
    → value_loop 0 xs < 2 ^ 63
    → parse_int xs ≡ ok (pos (value_loop 0 xs))
unfolding parse_int parse_digits only_digits
parse_int-digits [] h p b = absurd (omega arith)
parse_int-digits (c ∷ cs) h p b = ground arith

pub length-decimal : (n : ℕ) → 0 < length (decimal n)
unfolding decimal digits_loop
length-decimal n = ground (arith, length-append (digits_loop n (n / 10)) ((b'0' + n % 10) ∷ []))

pub parse_int-decimal : (n : ℕ) → n < 2 ^ 63 → parse_int (decimal n) ≡ ok (pos n)
unfolding decimal
parse_int-decimal n h =
    let e = value_loop-digits_loop (suc n) n (omega arith) in
    rw e at (parse_int-digits (decimal n) (only_digits-decimal n) (length-decimal n) (rw e h))

-- Digits hold no dot.
pub split_dot-digits : (xs : Bytes) → only_digits xs ≡ true → split_dot xs ≡ xs ∷ []
unfolding split_dot only_digits
split_dot-digits [] h = refl
split_dot-digits (c ∷ cs) h = ground (arith, split_dot-digits cs)

pub split_dot-dot :
    (xs ys : Bytes)
    → only_digits xs ≡ true
    → only_digits ys ≡ true
    → split_dot (xs ++ (b'.' ∷ ys)) ≡ xs ∷ (ys ∷ [])
unfolding split_dot only_digits
split_dot-dot [] ys h k = ground (arith, split_dot-digits ys)
split_dot-dot (c ∷ cs) ys h k = ground (arith, split_dot-dot cs ys)

keep_front-zeros :
    (c : ℕ) (t cs : Bytes) (n : ℕ)
    → t ++ replicate n b'0' ≡ cs
    → (m : ℕ) × (keep_front c t ++ replicate m b'0' ≡ c ∷ cs)
unfolding keep_front
keep_front-zeros c [] cs n e = elim (Bool-cases (c == b'0')) [
  | inl t ↦ (suc n, rw t (ground arith))
  | inr t ↦ (n, rw t (ap (λ xs. c ∷ xs) e))
]
keep_front-zeros c (d ∷ ds) cs n e = (n, ap (λ xs. c ∷ xs) e)

-- What TrimRight cuts off are zeros.
trim_right-some_zeros : (xs : Bytes) → (n : ℕ) × (trim_right xs ++ replicate n b'0' ≡ xs)
unfolding trim_right
trim_right-some_zeros [] = (0, refl)
trim_right-some_zeros (c ∷ cs) =
    let (n, e) = trim_right-some_zeros cs in keep_front-zeros c (trim_right cs) cs n e

pub trim_right-zeros :
    (xs : Bytes)
    → (length (trim_right xs) ≤ length xs)
      × (trim_right xs ++ replicate (length xs - length (trim_right xs)) b'0' ≡ xs)
trim_right-zeros xs =
    let (n, e) = trim_right-some_zeros xs in
    let sizes = length-append (trim_right xs) (replicate n b'0') in
    let total : length (trim_right xs) + n ≡ length xs =
      omega (arith, length-replicate {A = ℕ} n b'0', ap (length {A = ℕ}) e) in
    let same : length xs - length (trim_right xs) ≡ n = omega arith in (omega arith, rw same e)

pub only_digits-trim_right :
    (xs : Bytes) → only_digits xs ≡ true → only_digits (trim_right xs) ≡ true
unfolding trim_right only_digits
only_digits-trim_right [] h = refl
only_digits-trim_right (c ∷ cs) h = ground (arith, only_digits-trim_right cs)

pub trim_right-trim_right : (xs : Bytes) → trim_right (trim_right xs) ≡ trim_right xs
unfolding trim_right
trim_right-trim_right [] = refl
trim_right-trim_right (c ∷ cs) = ground (arith, trim_right-trim_right cs)

trim_left-digits_loop :
    (fuel n : ℕ) (ys : Bytes)
    → 0 < n
    → n < fuel
    → trim_left (digits_loop fuel n ++ ys) ≡ digits_loop fuel n ++ ys
unfolding trim_left digits_loop
trim_left-digits_loop zero n ys h k = absurd (omega arith)
trim_left-digits_loop (suc fuel) n ys h k = elim (Bool-cases (ltb n 10)) [
  | inl t ↦ rw t (ground arith)
  | inr t ↦
      rw (t, append_assoc (digits_loop fuel (n / 10)) ((b'0' + n % 10) ∷ []) ys)
        (trim_left-digits_loop fuel (n / 10) ((b'0' + n % 10) ∷ ys) (ground arith) (omega arith))
]

trim_left-decimal : (n : ℕ) → 0 < n → trim_left (decimal n) ≡ decimal n
unfolding decimal
trim_left-decimal n h =
    let bare = append-nil (digits_loop (suc n) n) in
    ap trim_left (sym bare) ∙ trim_left-digits_loop (suc n) n [] h (omega arith) ∙ bare

pub integral-decimal : (n : ℕ) → integral (decimal n) ≡ decimal n
unfolding integral decimal
integral-decimal zero = refl
integral-decimal (suc n) =
    let kept : trim_left (decimal (suc n)) ≡ decimal (suc n) =
      trim_left-decimal (suc n) (omega arith) in
    ground (arith, length-decimal (suc n))
