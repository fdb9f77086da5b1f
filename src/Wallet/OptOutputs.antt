-- ===== src/Wallet/OptOutputs.antt =====
-- masswallet/tx.go: optOutputs, which selects the credits that pay an amount.
pub mod Picks
pub mod Rounds
pub mod Coverage
use mass_net_wallet.Prelude.{
  ℕ, suc, ◌+◌, Bool, true, false, Option, none, some, List, [], ◌∷◌, ◌++◌, ltb, ◌==◌, if◌then◌else◌,
}
use mass_net_wallet.Prelude.Exec.{Result, ok, and_then}
use mass_net_wallet.Wallet.Money.{Money}
use mass_net_wallet.Wallet.Selector.{load}

-- the variables of the loop: optAmount, sumReserve, unSelectedUtIndex, selectedUtIndex
pub record Scan (A : Type 0) : Type 0 where
  pub opt_amount : A
  pub sum_reserve : A
  pub unselected : List ℕ
  pub selected : List ℕ

-- s[len(s)-1], where there is one
unfoldable pub last_index : List ℕ → Option ℕ
last_index [] = none
last_index (x ∷ []) = some x
last_index (x ∷ (y ∷ rest)) = last_index (y ∷ rest)

-- the indices that are below a bound, in their order
unfoldable pub indices_below : ℕ → List ℕ → List ℕ
indices_below bound [] = []
indices_below bound (x ∷ xs) =
    let rest = indices_below bound xs in if ltb x bound then x ∷ rest else rest

-- `lastUnselIdx` in place of what is selected after it
unfoldable pub exchanged : Option ℕ → List ℕ → List ℕ
unfolding indices_below
exchanged none selected = selected
exchanged (some last) selected = indices_below last selected ++ (last ∷ [])

module _ {A C : Type 0} (money : Money A) (amount_of : C → A) (amount : A) where
  -- the last round, where what is selected may not be enough
  unfoldable pub last_round : ℕ → A → List ℕ → List ℕ → List ℕ
  unfolding last_index exchanged
  last_round index opt unselected selected =
      let all = selected ++ (index ∷ []) in
      if ltb (money.int_value opt) (money.int_value amount)
      then exchanged (last_index unselected) all
      else all

  -- the rounds from an index on, at the credits from there
  unfoldable pub scan : ℕ → List C → Scan A → Result (Scan A)
  unfolding last_round
  scan index [] s = ok s
  scan index (u ∷ rest) s = and_then (money.add s.sum_reserve (amount_of u)) λ reserve.
      and_then (money.add s.opt_amount (amount_of u)) λ opt.
        let skipped : Result (Scan A) = scan (suc index) rest (record {
          opt_amount = money.sub_value opt (amount_of u);
          sum_reserve = reserve;
          unselected = s.unselected ++ (index ∷ []);
          selected = s.selected;
        }) in
        let with_it : Scan A = record {
          opt_amount = opt;
          sum_reserve = reserve;
          unselected = s.unselected;
          selected = s.selected ++ (index ∷ []);
        } in
        let taken : Result (Scan A) = scan (suc index) rest with_it in
        let ended : Scan A = record {
          opt_amount = opt;
          sum_reserve = reserve;
          unselected = s.unselected;
          selected = last_round index opt s.unselected s.selected;
        } in
        elim rest [
          | [] ↦ ok ended
          | v ∷ more ↦
              if ltb (money.int_value amount) (money.int_value opt)
              then skipped
              else (if money.int_value opt == money.int_value amount then ok with_it else taken)
        ]

  -- the loop over the selected indices
  unfoldable pub gather : List C → List ℕ → A → Result (List C × A)
  unfolding load
  gather utxos [] sum = ok ([], sum)
  gather utxos (i ∷ is) sum = and_then (load utxos i) λ u.
      and_then (money.add sum (amount_of u))
        λ more. and_then (gather utxos is more) λ r. ok (u ∷ r.0, r.1)

  -- optOutputs, where `sorted` is what sort.Slice makes of the credits: the selected ones, their
  -- sum, and the sum of the credits that were looked at
  unfoldable pub opt_outputs : List C → Result (List C × A × A)
  unfolding scan gather
  opt_outputs sorted =
      let start : Scan A = record {
        opt_amount = money.zero_amount;
        sum_reserve = money.zero_amount;
        unselected = [];
        selected = [];
      } in
      let run : Result (List C × A × A) = and_then (scan 0 sorted start) λ s.
        and_then (gather sorted s.selected money.zero_amount) λ r. ok (r.0, r.1, s.sum_reserve) in
      if money.int_value amount == 0 then ok ([], money.zero_amount, money.zero_amount) else run
