-- ===== src/Wallet/Fees/Change.antt =====
-- masswallet/wallet.go: CreateRawTransaction spends what its inputs hold.
use mass_net_wallet.Prelude.{
  ℕ, ◌+◌, ◌*◌, ◌<◌, [], ◌∷◌, ◌≡◌, refl, ap, ◌⊎◌, inl, inr, Bool, true, false, List, arith, ltb, leb,
  ◌==◌, if◌then◌else◌, length,
}
use mathlib.Core.Path.{subst}
use mass_net_wallet.Prelude.Bytes.{Bytes}
use mass_net_wallet.Prelude.Exec.{Result, ok, err, and_then, not_enough_inputs}
use mass_net_wallet.Wallet.Money.{Money, IsMoney}
use mass_net_wallet.Wallet.Fees.{
  Payment, addresses, all_known, each_sub, add_amounts, new_amount, subtract_each,
  maybe_subtract_fee_from_amounts, pay_and_change,
}
use mass_net_wallet.Wallet.Fees.Split.{paid}

-- what a call that returns has called
pub and_then-ok :
    {A B : Type 0} (r : Result A) (f : A → Result B) (b : B)
    → and_then r f ≡ ok b
    → (a : A) × (r ≡ ok a) × (f a ≡ ok b)
and_then-ok (ok a) f b e = (a, refl, e)
and_then-ok (err x) f b e = absurd (ground arith)

pub if-ok :
    {A : Type 0} (c : Bool) (x y : Result A) (b : A)
    → (if c then x else y) ≡ ok b
    → ((c ≡ true) × (x ≡ ok b)) ⊎ ((c ≡ false) × (y ≡ ok b))
if-ok true x y b e = inl (refl, e)
if-ok false x y b e = inr (refl, e)

value_or : {A : Type 0} → A → Result A → A
value_or d (ok a) = a
value_or d (err e) = d

-- What holds of the result holds of what is returned.
pub at_result : {A : Type 0} (P : A → Type 0) {a b : A} → ok a ≡ ok b → P a → P b
unfolding value_or
at_result P {a} {b} e p = subst P (ap (value_or a) e) p

module _ {A : Type 0} (money : Money A) (max_amount : ℕ) (laws : IsMoney money max_amount)
    (estimate : ℕ → Result A) (total_in : A) (amounts : List (Payment A))
    (selected : List Bytes) where
  add_amounts-total :
      (sum : A) (ps : List (Payment A)) (t : A)
      → add_amounts money sum ps ≡ ok t
      → money.int_value t ≡ money.int_value sum + paid money ps
  unfolding add_amounts
  add_amounts-total sum [] t e =
      at_result (λ x. money.int_value x ≡ money.int_value sum + 0) e (omega arith)
  add_amounts-total sum (p ∷ ps) t e =
      let (u, added, e1) = and_then-ok (money.add sum p.amount) _ t e in
      omega (arith, (laws.add_inv sum p.amount u added).0, add_amounts-total u ps t e1)

  subtract_each-total :
      (each sum : A) (ps : List (Payment A)) (r : List (Payment A) × A)
      → subtract_each money selected each sum ps ≡ ok r
      → money.int_value r.1 ≡ money.int_value sum + paid money r.0
  unfolding subtract_each
  subtract_each-total each sum [] r e =
      at_result (λ x. money.int_value x.1 ≡ money.int_value sum + paid money x.0) e (omega arith)
  subtract_each-total each sum (p ∷ ps) r e =
      let (a, less, e1) = and_then-ok (new_amount money selected each p) _ r e in
      let (u, added, e2) = and_then-ok (money.add sum a) _ r e1 in
      let (q, rest, e3) = and_then-ok (subtract_each money selected each u ps) _ r e2 in
      at_result (λ x. money.int_value x.1 ≡ money.int_value sum + paid money x.0) e3
        (omega (arith, (laws.add_inv sum a u added).0, subtract_each-total each u ps q rest))

  -- What is charged beside the amounts: the fee, or the shares of all selected addresses.
  abbrev pub charge : A → Result A
  charge fee =
      let n = length selected in
      if n == 0 then ok fee else money.from_int (each_sub (money.int_value fee) n * n)

  maybe_subtract_fee_from_amounts-total :
      (fee : A) (r : List (Payment A) × A)
      → maybe_subtract_fee_from_amounts money amounts selected fee ≡ ok r
      → (charged : A) × (charge fee ≡ ok charged)
        × (money.int_value r.1 ≡ paid money r.0 + money.int_value charged)
  unfolding maybe_subtract_fee_from_amounts
  maybe_subtract_fee_from_amounts-total fee r e =
      elim (if-ok (all_known selected (addresses amounts)) _ _ r e) [
        | inr unknown ↦ absurd (ground arith)
        | inl known ↦ elim (if-ok (length selected == 0) _ _ r known.1) [
          | inl none_given ↦
              let (f, e1, r1) = and_then-ok (money.add money.zero_amount fee) _ r none_given.1 in
              let (t, e2, r2) = and_then-ok (add_amounts money f amounts) _ r r1 in
              (
                fee,
                rw none_given.0 refl,
                at_result (λ x. money.int_value x.1 ≡ paid money x.0 + money.int_value fee) r2
                    (omega (
                      arith,
                      laws.zero_eq,
                      (laws.add_inv money.zero_amount fee f e1).0,
                      add_amounts-total f amounts t e2,
                    )),
              )
          | inr given ↦
              let n = length selected in
              let (each, e0, r0) =
                and_then-ok (money.from_int (each_sub (money.int_value fee) n)) _ r given.1 in
              let (actual, e1, r1) =
                and_then-ok (money.from_int (each_sub (money.int_value fee) n * n)) _ r r0 in
              let (f, e2, r2) = and_then-ok (money.add money.zero_amount actual) _ r r1 in
              (
                actual,
                rw given.0 e1,
                omega (
                  arith,
                  laws.zero_eq,
                  (laws.add_inv money.zero_amount actual f e2).0,
                  subtract_each-total each f amounts r r2,
                ),
              )
        ]
      ]

  -- The fee is the estimate for `n` outputs; the total is that of the amounts paid out and of what is
  -- charged for the fee; and the inputs hold the change and the total.
  pub record Balanced (n : ℕ) (r : List (Payment A) × A) : Type 0 where
    pub fee : A
    pub total : A
    pub estimated : estimate n ≡ ok fee
    pub split : maybe_subtract_fee_from_amounts money amounts selected fee ≡ ok (r.0, total)
    pub charged : A
    pub charged_eq : charge fee ≡ ok charged
    pub total_eq : money.int_value total ≡ paid money r.0 + money.int_value charged
    pub balance : money.int_value r.1 + money.int_value total ≡ money.int_value total_in

  balanced :
      (n : ℕ) (fee : A) (s : List (Payment A) × A) (c : A)
      → estimate n ≡ ok fee
      → maybe_subtract_fee_from_amounts money amounts selected fee ≡ ok s
      → money.int_value c + money.int_value s.1 ≡ money.int_value total_in
      → Balanced n (s.0, c)
  balanced n fee s c est sp balance =
      let (charged, e, sum) = maybe_subtract_fee_from_amounts-total fee s sp in
      record {
        fee = fee;
        total = s.1;
        estimated = est;
        split = sp;
        charged = charged;
        charged_eq = e;
        total_eq = sum;
        balance = balance;
      }

  with_change_balance :
      (n : ℕ) (r : List (Payment A) × A)
      → and_then (estimate n) (λ fee.
        and_then (maybe_subtract_fee_from_amounts money amounts selected fee) (λ s.
          if leb (money.int_value total_in) (money.int_value s.1)
          then err not_enough_inputs
          else and_then (money.sub total_in s.1) (λ c. ok (s.0, c))))
        ≡ ok r
      → Balanced n r × (0 < money.int_value r.1)
  with_change_balance n r e =
      let (fee, est, e1) = and_then-ok (estimate n) _ r e in
      let (s, sp, e2) =
        and_then-ok (maybe_subtract_fee_from_amounts money amounts selected fee) _ r e1 in
      elim (if-ok (leb (money.int_value total_in) (money.int_value s.1)) _ _ r e2) [
        | inl h ↦ absurd (ground arith)
        | inr h ↦
            let (c, sub, e3) = and_then-ok (money.sub total_in s.1) _ r h.1 in
            let balance = laws.sub_inv total_in s.1 c sub in
            at_result (λ t. Balanced n t × (0 < money.int_value t.1)) e3
              (balanced n fee s c est sp balance, ground arith)
      ]

  -- Where CreateRawTransaction gets to its outputs, the fee is the estimate for as many outputs as
  -- it makes, the total is what it pays out together with what it charges, which is the fee or the
  -- shares of all selected addresses, its inputs hold exactly the total and the change, and a
  -- change output is made only where something is left.
  pub pay_and_change_balance :
      (r : List (Payment A) × A)
      → pay_and_change money estimate total_in amounts selected ≡ ok r
      → (Balanced (length amounts) r × (money.int_value r.1 ≡ 0))
        ⊎ (Balanced (length amounts + 1) r × (0 < money.int_value r.1))
  unfolding pay_and_change
  pay_and_change_balance r e =
      let n = length amounts in
      let (fee, est, e1) = and_then-ok (estimate n) _ r e in
      let (s, sp, e2) =
        and_then-ok (maybe_subtract_fee_from_amounts money amounts selected fee) _ r e1 in
      elim (if-ok (ltb (money.int_value total_in) (money.int_value s.1)) _ _ r e2) [
        | inl h ↦ absurd (ground arith)
        | inr h ↦
            let (c, sub, e3) = and_then-ok (money.sub total_in s.1) _ r h.1 in
            let balance = laws.sub_inv total_in s.1 c sub in
            elim (if-ok (money.int_value c == 0) _ _ r e3) [
              | inl z ↦ inl (
                  at_result (λ t. Balanced n t × (money.int_value t.1 ≡ 0)) z.1
                    (balanced n fee s c est sp balance, ground arith))
              | inr z ↦ inr (with_change_balance (n + 1) r z.1)
            ]
      ]
