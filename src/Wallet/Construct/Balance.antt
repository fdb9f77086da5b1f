-- ===== src/Wallet/Construct/Balance.antt =====
-- masswallet/common.go: what the transaction that autoConstructTxInAndChangeTxOut builds pays.
use mass_net_wallet.Prelude.{
  ℕ, zero, suc, ◌+◌, ◌-◌, ◌≤◌, ◌≡◌, refl, ◌⊎◌, inl, inr, ap, Bool, true, false, Option, none, some,
  List, [], ◌∷◌, arith, ltb, leb, ◌==◌, if◌then◌else◌, length,
}
use mass_net_wallet.Prelude.Bytes.{Bytes}
use mass_net_wallet.Prelude.Exec.{Result, ok, err}
use mass_net_wallet.Prelude.Signed.{ℤ}
use mass_net_wallet.Wallet.Money.{Money, IsMoney, gain, loss}
use mass_net_wallet.Wallet.Construct.{
  Run, Found, Calls, Choice, Built, tx_out_len, with_change, or_invalid_amount, choose, construct,
  auto_construct, sum_outputs,
}
use mass_net_wallet.Wallet.Construct.Rounds.{and_run-ok, then_run-ok}
use mass_net_wallet.Wallet.OptOutputs.Picks.{total}
use mass_net_wallet.Wallet.Fees.Change.{and_then-ok, at_result}

if_run-ok :
    {A : Type 0} (c : Bool) (x y : Run A) (b : A)
    → (if c then x else y) ≡ some (ok b)
    → ((c ≡ true) × (x ≡ some (ok b))) ⊎ ((c ≡ false) × (y ≡ some (ok b)))
if_run-ok true x y b e = inl (refl, e)
if_run-ok false x y b e = inr (refl, e)

result_or : {A : Type 0} → Result A → Run A → Result A
result_or d none = d
result_or d (some r) = r

result_eq : {A : Type 0} {r s : Result A} → some r ≡ some s → r ≡ s
unfolding result_or
result_eq {r = r} e = ap (result_or r) e

or_invalid_amount_ok : {A : Type 0} (r : Result A) (a : A) → or_invalid_amount r ≡ ok a → r ≡ ok a
unfolding or_invalid_amount
or_invalid_amount_ok (ok b) a e = e
or_invalid_amount_ok (err x) a e = absurd (ground arith)

module _ {A C Out In : Type 0} (money : Money A) (max_amount : ℕ) (laws : IsMoney money max_amount)
    (calls : Calls A C Out In) (change_addr : Bytes) where
  -- The change that an output stands for, where `first` is the first address of the inputs.
  abbrev pub IsChange : Bytes → A → Option Out → Type 0
  IsChange first change none = money.int_value change ≡ 0
  IsChange first change (some o) =
      (money.int_value calls.min_relay_tx_fee ≤ money.int_value change)
      × (calls.change_out (if length change_addr == 0 then first else change_addr) change ≡ ok o)

  -- The inputs hold the outputs, the fee and the change, which is no dust.
  pub record Balanced (out_amounts fee : A) (c : Choice C Out) : Type 0 where
    pub search : A
    pub eligible : Found A C
    pub change_amount : A
    pub searched : calls.find search ≡ ok eligible
    pub spent : c.utxos ≡ eligible.utxos
    pub balance :
        money.int_value eligible.found
        ≡ money.int_value out_amounts + money.int_value fee + money.int_value change_amount
    pub change_ok : IsChange eligible.first_addr change_amount c.change

  choose-Balanced :
      (fuel : ℕ) (target out_amounts adj : A) (c : Choice C Out)
      → choose money calls change_addr fuel target out_amounts adj ≡ some (ok c)
      → Balanced out_amounts target c
  unfolding choose with_change
  choose-Balanced zero target out_amounts adj c e = absurd (ground arith)
  choose-Balanced (suc fuel) target out_amounts adj c e =
      let (want, e1, r1) = and_run-ok (money.add target out_amounts) _ c e in
      let (want_adj, e2, r2) = and_run-ok (money.add want adj) _ c r1 in
      let (f, e3, r3) = and_run-ok (calls.find want_adj) _ c r2 in
      let change = money.sub_value f.found want in
      elim (if_run-ok (ltb (money.int_value f.found) (money.int_value want_adj)) _ _ c r3) [
        | inl low ↦ absurd (ground arith)
        | inr enough ↦
            let sum = laws.add_inv target out_amounts want e1 in
            let high = laws.add_inv want adj want_adj e2 in
            let rest : money.int_value change ≡ money.int_value f.found - money.int_value want =
              laws.sub_value_eq f.found want (ground (arith, high)) in
            elim (if_run-ok (money.int_value change == 0) _ _ c enough.1) [
              | inl exact ↦ at_result (Balanced out_amounts target) (result_eq exact.1) (record {
                search = want_adj;
                eligible = f;
                change_amount = change;
                searched = e3;
                spent = refl;
                balance = ground (arith, sum.0, high.0);
                change_ok = ground arith;
              })
              | inr more ↦
                  elim (if_run-ok
                    (ltb (money.int_value change) (money.int_value calls.min_relay_tx_fee)) _ _ c
                    more.1) [
                      | inl dust ↦
                          choose-Balanced fuel target out_amounts calls.min_relay_tx_fee c dust.1
                      | inr kept ↦
                          let (o, e4, r4) =
                            and_then-ok (calls.change_out _ change) _ c (result_eq kept.1) in
                          at_result (Balanced out_amounts target) r4 (record {
                            search = want_adj;
                            eligible = f;
                            change_amount = change;
                            searched = e3;
                            spent = refl;
                            balance = ground (arith, sum.0, high.0);
                            change_ok = (ground arith, e4);
                          })
                    ]
            ]
      ]

  -- What is built spends the inputs found for its fee, and the fee covers what its size requires.
  pub record IsPaid (outputs : ℕ) (out_amounts : A) (b : Built A Out In) : Type 0 where
    pub choice : Choice C Out
    pub required : A
    pub balanced : Balanced out_amounts b.fee choice
    pub estimated : calls.required_fee choice.utxos (tx_out_len outputs choice) ≡ ok required
    pub covered : money.int_value required ≤ money.int_value b.fee
    pub inputs_eq : calls.add_tx_in choice.utxos ≡ ok b.inputs
    pub change_eq : b.change ≡ choice.change

  construct-IsPaid :
      (fuel outputs : ℕ) (out_amounts target : A) (b : Built A Out In)
      → construct money calls change_addr fuel outputs out_amounts target ≡ some (ok b)
      → IsPaid outputs out_amounts b
  unfolding construct
  construct-IsPaid zero outputs out_amounts target b e = absurd (ground arith)
  construct-IsPaid (suc fuel) outputs out_amounts target b e =
      let (c, e1, r1) =
        then_run-ok (choose money calls change_addr 2 target out_amounts money.zero_amount) _ b e in
      let (required, e2, r2) =
        and_run-ok (calls.required_fee c.utxos (tx_out_len outputs c)) _ b r1 in
      elim (if_run-ok (leb (money.int_value required) (money.int_value target)) _ _ b r2) [
        | inl covered ↦
            let (ins, e3, r3) = and_then-ok (calls.add_tx_in c.utxos) _ b (result_eq covered.1) in
            at_result (IsPaid outputs out_amounts) r3 (record {
              choice = c;
              required = required;
              balanced = choose-Balanced 2 target out_amounts money.zero_amount c e1;
              estimated = e2;
              covered = ground arith;
              inputs_eq = e3;
              change_eq = refl;
            })
        | inr higher ↦ construct-IsPaid fuel outputs out_amounts required b higher.1
      ]

  sum_outputs-total :
      (sum : A) (values : List ℤ) (out : A)
      → sum_outputs money calls change_addr sum values ≡ ok out
      → money.int_value out + total loss values ≡ money.int_value sum + total gain values
  unfolding sum_outputs
  sum_outputs-total sum [] out e =
      at_result (λ o. money.int_value o + 0 ≡ money.int_value sum + 0) e (omega arith)
  sum_outputs-total sum (v ∷ vs) out e =
      let (s, e1, r1) = and_then-ok (or_invalid_amount (money.add_int sum v)) _ out e in
      let added = laws.add_int_inv sum s v (or_invalid_amount_ok (money.add_int sum v) s e1) in
      omega (arith, sum_outputs-total s vs out r1, added)

  -- For a transaction that autoConstructTxInAndChangeTxOut builds, the sum that its search has
  -- returned is exactly that of its outputs, its fee and its change; the change is none, or an
  -- output of at least the least relay fee; and the fee covers what the size requires. The
  -- arithmetic of amounts behaves as documented.
  pub auto_construct-IsPaid :
      (values : List ℤ) (user_tx_fee : A) (b : Built A Out In)
      → auto_construct money calls change_addr max_amount values user_tx_fee ≡ some (ok b)
      → (out_amounts : A) × (money.int_value out_amounts + total loss values ≡ total gain values)
        × IsPaid (length values) out_amounts b
  unfolding auto_construct
  auto_construct-IsPaid values user_tx_fee b e =
      let (out, e1, r1) =
        and_run-ok (sum_outputs money calls change_addr money.zero_amount values) _ b e in
      (
        out,
        omega (arith, sum_outputs-total money.zero_amount values out e1, laws.zero_eq),
        construct-IsPaid (max_amount + 2) (length values) out _ b r1,
      )
