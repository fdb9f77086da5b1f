-- ===== src/Wallet/Money.antt =====
-- massutil.Amount as the wallet calls it; the type is not under src/ and is a parameter here.
use mass_net_wallet.Prelude.{ℕ, ◌+◌, ◌-◌, ◌≤◌, ◌<◌, ◌≡◌, ◌^◌}
use mass_net_wallet.Prelude.Signed.{ℤ, pos, negsuc}
use mass_net_wallet.Prelude.Exec.{Result, ok, Returns}

-- ZeroAmount, NewAmountFromInt of an int64 that is not negative, Add, Sub, and IntValue, which is
-- also what Cmp compares
pub record Money (A : Type 0) : Type 0 where
  pub zero_amount : A
  pub from_int : ℕ → Result A
  pub add : A → A → Result A
  -- AddInt, of an int64
  pub add_int : A → ℤ → Result A
  pub sub : A → A → Result A
  -- what Sub gives beside its error, if any
  pub sub_value : A → A → A
  pub int_value : A → ℕ

-- what an int64 adds, and what it takes away
abbrev pub gain : ℤ → ℕ
gain (pos n) = n
gain (negsuc n) = 0

abbrev pub loss : ℤ → ℕ
loss (pos n) = 0
loss (negsuc n) = n + 1

-- An amount is at most MaxAmount, an int64, and arithmetic succeeds up to it.
pub record IsMoney {A : Type 0} (money : Money A) (max_amount : ℕ) : Type 0 where
  pub max_lt : max_amount < 2 ^ 63
  pub zero_eq : money.int_value money.zero_amount ≡ 0
  pub from_ok : (n : ℕ) → n ≤ max_amount → Returns (λ c. money.int_value c ≡ n) (money.from_int n)
  pub add_ok :
      (a b : A)
      → money.int_value a + money.int_value b ≤ max_amount
      → Returns (λ c. money.int_value c ≡ money.int_value a + money.int_value b) (money.add a b)
  pub sub_ok :
      (a b : A)
      → money.int_value b ≤ money.int_value a
      → Returns (λ c. money.int_value c ≡ money.int_value a - money.int_value b) (money.sub a b)
  pub sub_value_eq :
      (a b : A)
      → money.int_value b ≤ money.int_value a
      → money.int_value (money.sub_value a b) ≡ money.int_value a - money.int_value b
  pub sub_inv :
      (a b c : A) → money.sub a b ≡ ok c → money.int_value c + money.int_value b ≡ money.int_value a
  pub add_inv :
      (a b c : A)
      → money.add a b ≡ ok c
      → (money.int_value c ≡ money.int_value a + money.int_value b)
        × (money.int_value c ≤ max_amount)
  pub add_int_inv :
      (a c : A) (i : ℤ)
      → money.add_int a i ≡ ok c
      → money.int_value c + loss i ≡ money.int_value a + gain i
