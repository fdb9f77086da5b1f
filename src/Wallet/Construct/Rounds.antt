-- ===== src/Wallet/Construct/Rounds.antt =====
-- masswallet/common.go: the loops of autoConstructTxInAndChangeTxOut end.
use mass_net_wallet.Prelude.{
  ℕ, zero, suc, ◌+◌, ◌≤◌, ◌<◌, ◌≡◌, refl, Bool, true, false, none, some, List, arith, ltb, leb,
  ◌==◌, if◌then◌else◌, length,
}
use mass_net_wallet.Prelude.Bytes.{Bytes}
use mass_net_wallet.Prelude.Exec.{Result, ok, err}
use mass_net_wallet.Wallet.Money.{Money, IsMoney}
use mass_net_wallet.Prelude.Signed.{ℤ}
use mass_net_wallet.Wallet.Construct.{
  Run, and_run, then_run, Calls, Choice, choose, construct, auto_construct,
}

-- the loop has ended, with a result or an error
abbrev pub Ends : {A : Type 0} → Run A → Type 0
Ends none = ⊥
Ends (some r) = Unit {0}

and_run-Ends :
    {A B : Type 0} (r : Result A) (f : A → Run B)
    → ((a : A) → r ≡ ok a → Ends (f a))
    → Ends (and_run r f)
and_run-Ends (ok a) f h = h a refl
and_run-Ends (err e) f h = tt

then_run-Ends :
    {A B : Type 0} (r : Run A) (f : A → Run B)
    → Ends r
    → ((a : A) → r ≡ some (ok a) → Ends (f a))
    → Ends (then_run r f)
then_run-Ends none f e h = e
then_run-Ends (some (ok a)) f e h = h a refl
then_run-Ends (some (err x)) f e h = tt

-- what a call that returns has called
pub and_run-ok :
    {A B : Type 0} (r : Result A) (f : A → Run B) (b : B)
    → and_run r f ≡ some (ok b)
    → (a : A) × (r ≡ ok a) × (f a ≡ some (ok b))
and_run-ok (ok a) f b e = (a, refl, e)
and_run-ok (err x) f b e = absurd (ground arith)

pub then_run-ok :
    {A B : Type 0} (r : Run A) (f : A → Run B) (b : B)
    → then_run r f ≡ some (ok b)
    → (a : A) × (r ≡ some (ok a)) × (f a ≡ some (ok b))
then_run-ok none f b e = absurd (ground arith)
then_run-ok (some (ok a)) f b e = (a, refl, e)
then_run-ok (some (err x)) f b e = absurd (ground arith)

if-Ends :
    {A : Type 0} (b : Bool) (x y : Run A)
    → (b ≡ true → Ends x)
    → (b ≡ false → Ends y)
    → Ends (if b then x else y)
if-Ends true x y h k = h refl
if-Ends false x y h k = k refl

module _ {A C Out In : Type 0} (money : Money A) (max_amount : ℕ) (laws : IsMoney money max_amount)
    (calls : Calls A C Out In) (change_addr : Bytes) where
  -- With the least fee on top of what is wanted, the change is no dust.
  choose_again-Ends :
      (fuel : ℕ) (target out_amounts : A)
      → Ends (choose money calls change_addr (suc fuel) target out_amounts calls.min_relay_tx_fee)
  unfolding choose
  choose_again-Ends fuel target out_amounts =
      and_run-Ends (money.add target out_amounts) _ λ want e.
        and_run-Ends (money.add want calls.min_relay_tx_fee) _ λ want_adj f.
          and_run-Ends (calls.find want_adj) _ λ found g.
            let want_value = laws.add_inv want calls.min_relay_tx_fee want_adj f in
            if-Ends (ltb (money.int_value found.found) (money.int_value want_adj)) _ _ (λ low. tt)
              λ enough.
                if-Ends (money.int_value (money.sub_value found.found want) == 0) _ _ (λ exact. tt)
                  λ more.
                    if-Ends
                      (ltb (money.int_value (money.sub_value found.found want))
                        (money.int_value calls.min_relay_tx_fee))
                      _ _
                      (λ dust.
                        absurd (ground (arith, want_value.0, laws.sub_value_eq found.found want)))
                      (λ change. tt)

  choose-Ends :
      (target out_amounts adj : A) → Ends (choose money calls change_addr 2 target out_amounts adj)
  unfolding choose
  choose-Ends target out_amounts adj = and_run-Ends (money.add target out_amounts) _ λ want e.
      and_run-Ends (money.add want adj) _ λ want_adj f.
        and_run-Ends (calls.find want_adj) _ λ found g.
          if-Ends (ltb (money.int_value found.found) (money.int_value want_adj)) _ _ (λ low. tt)
            λ enough.
              if-Ends (money.int_value (money.sub_value found.found want) == 0) _ _ (λ exact. tt)
                λ more.
                  if-Ends
                    (ltb (money.int_value (money.sub_value found.found want))
                      (money.int_value calls.min_relay_tx_fee))
                    _ _ (λ dust. choose_again-Ends 0 target out_amounts) (λ change. tt)

  -- A fee that the inner loop finds inputs for is an amount.
  choose_le :
      (target out_amounts adj : A) (c : Choice C Out)
      → choose money calls change_addr 2 target out_amounts adj ≡ some (ok c)
      → money.int_value target ≤ max_amount
  unfolding choose
  choose_le target out_amounts adj c e =
      let (want, f, rest) = and_run-ok (money.add target out_amounts) _ c e in
      omega (arith, laws.add_inv target out_amounts want f)

  construct-Ends :
      (fuel outputs : ℕ) (out_amounts target : A)
      → max_amount + 1 < fuel + money.int_value target
      → 0 < fuel
      → Ends (construct money calls change_addr fuel outputs out_amounts target)
  unfolding construct
  construct-Ends zero outputs out_amounts target h p = absurd (omega arith)
  construct-Ends (suc fuel) outputs out_amounts target h p =
      then_run-Ends (choose money calls change_addr 2 target out_amounts money.zero_amount) _
        (choose-Ends target out_amounts money.zero_amount)
        λ c e. and_run-Ends (calls.required_fee c.utxos _) _ λ required f.
          let bound = choose_le target out_amounts money.zero_amount c e in
          if-Ends (leb (money.int_value required) (money.int_value target)) _ _ (λ covered. tt)
            (λ higher.
              construct-Ends fuel outputs out_amounts required (ground arith) (omega arith))

  -- The loops of autoConstructTxInAndChangeTxOut end, whatever the calls return, within two rounds
  -- of the inner loop and `max_amount + 2` of the outer one, where the arithmetic of amounts
  -- behaves as documented.
  pub auto_construct-Ends :
      (values : List ℤ) (user_tx_fee : A)
      → Ends (auto_construct money calls change_addr max_amount values user_tx_fee)
  unfolding auto_construct
  auto_construct-Ends values user_tx_fee = and_run-Ends _ _ λ out_amounts e.
      let target =
        if money.int_value user_tx_fee == 0 then calls.min_relay_tx_fee else user_tx_fee in
      construct-Ends (max_amount + 2) (length values) out_amounts target (omega arith) (omega arith)
