-- ===== src/Wallet/Fees/Split.antt =====
-- masswallet/common.go: what maybeSubtractFeeFromAmounts makes of the amounts and the fee.
use mass_net_wallet.Prelude.{
  ℕ, ◌+◌, ◌-◌, ◌*◌, ◌≤◌, ◌<◌, ◌≡◌, refl, Bool, true, false, List, [], ◌∷◌, arith, ◌==◌, length, All,
  count, Bool-cases, inl, inr,
}
use native.Mathlib.Nat.{lt-div-mul-add, div-mul-le_self}
use mass_net_wallet.Prelude.Bytes.{Bytes}
use mass_net_wallet.Prelude.Exec.{Returns, returns, Returns-and_then, Returns-map, Returns-if}
use mass_net_wallet.Wallet.Money.{Money, IsMoney}
use mass_net_wallet.Wallet.Fees.{
  Payment, member, addresses, all_known, each_sub, add_amounts, new_amount, subtract_each,
  maybe_subtract_fee_from_amounts,
}
use mass_net_wallet.Wallet.Fees.Entries.{Distinct, count-member}

-- what a selected entry, or another, has to pay
abbrev pub share : ℕ → Bool → ℕ
share each true = each
share each false = 0

module _ {A : Type 0} (money : Money A) where
  -- the sum of the amounts
  abbrev pub paid : List (Payment A) → ℕ
  paid [] = 0
  paid (p ∷ ps) = money.int_value p.amount + paid ps

  -- the sum of what the entries have to pay
  abbrev pub due : List Bytes → ℕ → List (Payment A) → ℕ
  due selected each [] = 0
  due selected each (p ∷ ps) = share each (member p.address selected) + due selected each ps

  due-count :
      (selected : List Bytes) (each : ℕ) (ps : List (Payment A))
      → due selected each ps ≡ each * count (λ a. member a selected) (addresses ps)
  unfolding addresses
  due-count selected each [] = omega arith
  due-count selected each (p ∷ ps) = elim (Bool-cases (member p.address selected)) [
    | inl t ↦ rw t (grind (arith, due-count selected each ps))
    | inr t ↦ rw t (omega (arith, due-count selected each ps))
  ]

  -- Each selected entry is less by `each`, and the others are as they were.
  abbrev pub Reduced : List Bytes → ℕ → List (Payment A) → List (Payment A) → Type 0
  Reduced selected each [] [] = Unit {0}
  Reduced selected each [] (q ∷ qs) = ⊥
  Reduced selected each (p ∷ ps) [] = ⊥
  Reduced selected each (p ∷ ps) (q ∷ qs) =
      (q.address ≡ p.address)
      × (money.int_value q.amount + share each (member p.address selected)
          ≡ money.int_value p.amount)
      × Reduced selected each ps qs

  pub Reduced-paid :
      (selected : List Bytes) (each : ℕ) (ps qs : List (Payment A))
      → Reduced selected each ps qs
      → paid qs + due selected each ps ≡ paid ps
  Reduced-paid selected each [] [] h = omega arith
  Reduced-paid selected each [] (q ∷ qs) h = absurd h
  Reduced-paid selected each (p ∷ ps) [] h = absurd h
  Reduced-paid selected each (p ∷ ps) (q ∷ qs) h =
      omega (arith, h.1, Reduced-paid selected each ps qs h.2)

module _ {A : Type 0} (money : Money A) (max_amount : ℕ) (laws : IsMoney money max_amount) where
  -- every selected entry has the part of the fee that it is to pay
  abbrev pub CanPay : List Bytes → ℕ → List (Payment A) → Type 0
  CanPay selected each =
      All (λ p. share each (member p.address selected) ≤ money.int_value p.amount)

  due_le :
      (selected : List Bytes) (each : ℕ) (ps : List (Payment A))
      → CanPay selected each ps
      → due money selected each ps ≤ paid money ps
  due_le selected each [] h = omega arith
  due_le selected each (p ∷ ps) h = omega (arith, h.0, due_le selected each ps h.1)

  new_amount-Reduced :
      (selected : List Bytes) (each : A) (p : Payment A)
      → share (money.int_value each) (member p.address selected) ≤ money.int_value p.amount
      → Returns
          (λ a.
            money.int_value a + share (money.int_value each) (member p.address selected)
            ≡ money.int_value p.amount)
          (new_amount money selected each p)
  unfolding new_amount
  new_amount-Reduced selected each p h = elim (Bool-cases (member p.address selected)) [
    | inl t ↦
        let enough : money.int_value each ≤ money.int_value p.amount = rw t at h in
        rw t (Returns-map (laws.sub_ok p.amount each (omega arith)) λ a e. omega arith)
    | inr t ↦ rw t (returns (omega arith))
  ]

  subtract_each-Reduced :
      (selected : List Bytes) (each total : A) (ps : List (Payment A))
      → CanPay selected (money.int_value each) ps
      → money.int_value total + paid money ps
        ≤ max_amount + due money selected (money.int_value each) ps
      → Returns
          (λ r.
            Reduced money selected (money.int_value each) ps r.0
            × (money.int_value r.1 ≡ money.int_value total + paid money r.0))
          (subtract_each money selected each total ps)
  unfolding subtract_each
  subtract_each-Reduced selected each total [] h m = returns (tt, omega arith)
  subtract_each-Reduced selected each total (p ∷ ps) h m =
      Returns-and_then (new_amount-Reduced selected each p h.0) λ a e.
        Returns-and_then
          (laws.add_ok total a (omega (arith, due_le selected (money.int_value each) ps h.1)))
          λ t f.
            Returns-and_then (subtract_each-Reduced selected each t ps h.1 (omega arith))
              λ r g. returns ((refl, e, g.0), omega (arith, g.1))

  add_amounts-paid :
      (total : A) (ps : List (Payment A))
      → money.int_value total + paid money ps ≤ max_amount
      → Returns
          (λ t. money.int_value t ≡ money.int_value total + paid money ps)
          (add_amounts money total ps)
  unfolding add_amounts
  add_amounts-paid total [] m = returns (omega arith)
  add_amounts-paid total (p ∷ ps) m =
      Returns-and_then (laws.add_ok total p.amount (omega arith))
        λ t e. Returns-map (add_amounts-paid t ps (omega arith)) λ u f. omega arith

  -- Where no address is selected and the amounts and the fee add up to an amount, the amounts stay
  -- as they are and the total is their sum with the fee.
  pub maybe_subtract_fee_from_amounts_sender :
      (amounts : List (Payment A)) (fee : A)
      → paid money amounts + money.int_value fee ≤ max_amount
      → Returns
          (λ r. (r.0 ≡ amounts) × (money.int_value r.1 ≡ paid money amounts + money.int_value fee))
          (maybe_subtract_fee_from_amounts money amounts [] fee)
  unfolding maybe_subtract_fee_from_amounts
  maybe_subtract_fee_from_amounts_sender amounts fee m =
      Returns-and_then (laws.add_ok money.zero_amount fee (omega (arith, laws.zero_eq))) λ f e.
        Returns-and_then (add_amounts-paid f amounts (omega (arith, laws.zero_eq)))
          λ total t. returns (refl, omega (arith, laws.zero_eq))

  -- Where the selected addresses, one at least, are keys of the amounts, the amounts add up to an
  -- amount and each selected one can pay its share, maybeSubtractFeeFromAmounts succeeds: each
  -- selected amount is less by the share and the others are as they were, the total is the sum of
  -- the amounts, and the new amounts and all shares add up to it.
  pub maybe_subtract_fee_from_amounts_receivers :
      (amounts : List (Payment A)) (selected : List Bytes) (fee : A)
      → 0 < length selected
      → Distinct selected
      → Distinct (addresses amounts)
      → all_known selected (addresses amounts) ≡ true
      → paid money amounts ≤ max_amount
      → CanPay selected (each_sub (money.int_value fee) (length selected)) amounts
      → Returns
          (λ r.
            Reduced money selected (each_sub (money.int_value fee) (length selected)) amounts r.0
            × (money.int_value r.1 ≡ paid money amounts)
            × (paid money r.0 + each_sub (money.int_value fee) (length selected) * length selected
                ≡ paid money amounts))
          (maybe_subtract_fee_from_amounts money amounts selected fee)
  unfolding maybe_subtract_fee_from_amounts
  maybe_subtract_fee_from_amounts_receivers amounts selected fee pos ds da known m can =
      let n = length selected in
      let each = each_sub (money.int_value fee) n in
      let fee_due : due money selected each amounts ≡ each * n =
        rw
          (
            due-count money selected each amounts,
            count-member selected (addresses amounts) ds da known,
          )
          refl in
      let fee_le : each * n ≤ paid money amounts =
        omega (arith, due_le selected each amounts can) in
      let each_le : each ≤ each * n = grind arith in
      rw known (
        Returns-if (n == 0) (λ z. absurd (ground arith))
          (λ nz. Returns-and_then (laws.from_ok each (omega arith)) λ e f.
            Returns-and_then (laws.from_ok (each * n) (omega arith)) λ actual g.
              Returns-and_then (laws.add_ok money.zero_amount actual (omega (arith, laws.zero_eq)))
                λ total t.
                  Returns-map
                    (subtract_each-Reduced selected e total amounts (rw f can)
                      (rw f (omega (arith, laws.zero_eq))))
                    λ r v.
                      let reduced : Reduced money selected each amounts r.0 = rw f at v.0 in
                      let sum = Reduced-paid money selected each amounts r.0 reduced in
                      (reduced, omega (arith, v.1, laws.zero_eq), omega arith)))

-- For at least one selected address, the shares together pay the fee, and less than one unit for
-- each address beyond it.
pub each_sub_bounds :
    (fee n : ℕ) → 0 < n → (fee ≤ each_sub fee n * n) × (each_sub fee n * n < fee + n)
unfolding each_sub
each_sub_bounds fee n h = (
  omega (arith, lt-div-mul-add {a = fee + n - 1} h),
  omega (arith, div-mul-le_self (fee + n - 1) n),
)
