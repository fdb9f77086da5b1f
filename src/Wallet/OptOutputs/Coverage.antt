-- ===== src/Wallet/OptOutputs/Coverage.antt =====
-- masswallet/tx.go: what optOutputs selects pays the amount, if all of the credits do.
use mass_net_wallet.Prelude.{
  ℕ, min, suc, ◌+◌, ◌≤◌, ◌<◌, ◌≡◌, refl, ap, Bool, List, [], ◌∷◌, arith, ◌==◌, length, weight,
  count,
}
use mass_net_wallet.Prelude.Exec.{Returns, returns, Returns-and_then, Returns-if}
use mass_net_wallet.Wallet.Money.{Money, IsMoney}
use mass_net_wallet.Wallet.Selector.Cells.{key, load-ok, load-key}
use mass_net_wallet.Wallet.OptOutputs.{Scan, scan, gather, opt_outputs}
use mass_net_wallet.Wallet.OptOutputs.Picks.{
  Rising, total, count-total, chosen, first, chosen_le, first-length,
}
use mass_net_wallet.Wallet.OptOutputs.Rounds.{Covers, IsRest, scan-Covers}

zero_add : (j : ℕ) → 0 + j ≡ j
zero_add j = omega arith

-- The credits at rising indices are among the credits, each taken once.
chosen-first :
    {C : Type 0} (f : C → ℕ) (us : List C) (is : List ℕ)
    → Rising 0 (length us) is
    → chosen f us is ≤ total f us
chosen-first f us is v =
    omega (arith, chosen_le f us 0 (length us) is (omega arith) v, first-length f us)

module _ {A C : Type 0} (money : Money A) (amount_of : C → A) (amount : A) (max_amount : ℕ)
    (laws : IsMoney money max_amount) (us : List C) where
  abbrev worth : C → ℕ
  worth c = money.int_value (amount_of c)

  gather-total :
      (lo : ℕ) (is : List ℕ) (sum : A)
      → Rising lo (length us) is
      → money.int_value sum + chosen worth us is ≤ max_amount
      → Returns
          (λ r.
            (money.int_value r.1 ≡ money.int_value sum + total worth r.0)
            × ((f : C → ℕ) → total f r.0 ≡ chosen f us is))
          (gather money amount_of amount us is sum)
  unfolding gather
  gather-total lo [] sum v h = returns (omega arith, λ f. refl)
  gather-total lo (i ∷ is) sum v h =
      let (u, e) = load-ok us i v.1 in
      let worth_eq = load-key worth us i u e in
      rw e (
        Returns-and_then (laws.add_ok sum (amount_of u) (omega arith)) λ more m.
          Returns-and_then (gather-total (suc i) is more v.2 (omega arith))
            λ r t. returns (omega (arith, t.0), λ f. omega (arith, t.1 f, load-key f us i u e)))

  abbrev start_scan : Scan A
  start_scan = record {
    opt_amount = money.zero_amount;
    sum_reserve = money.zero_amount;
    unselected = [];
    selected = [];
  }

  scan_all-Covers :
      (rest : List C)
      → total worth us ≤ max_amount
      → IsRest money amount_of amount max_amount laws us 0 rest
      → Returns
          (Covers money amount_of amount max_amount laws us)
          (scan money amount_of amount 0 rest start_scan)
  unfolding scan
  scan_all-Covers [] m r =
      let empty : length us ≡ 0 = omega (arith, r.size) in
      let none_left : first worth us (length us) ≡ 0 = ap (first worth us) empty in
      returns (record { rising = tt; enough = omega arith })
  scan_all-Covers (u ∷ rest) m r =
      scan-Covers money amount_of amount max_amount laws us 0 u rest start_scan m r
        (record { rising = tt; opt_eq = laws.zero_eq; reserve_eq = laws.zero_eq; skips = refl })

  -- For an amount above 0, and credits, in any order, that together do not exceed the largest
  -- amount, optOutputs succeeds; the sum that it returns is that of its selection, which takes
  -- each credit at most as often as it is there, and is not less than the amount, or than the sum
  -- of all credits where that is smaller.
  pub opt_outputs_covers :
      0 < money.int_value amount
      → total worth us ≤ max_amount
      → Returns
          (λ r.
            (money.int_value r.1 ≡ total worth r.0)
            × ((p : C → Bool) → count p r.0 ≤ count p us)
            × (min (money.int_value amount) (total worth us) ≤ money.int_value r.1))
          (opt_outputs money amount_of amount us)
  unfolding opt_outputs
  opt_outputs_covers pos m =
      Returns-if (money.int_value amount == 0) (λ z. absurd (ground arith))
        (λ nz.
          Returns-and_then
            (scan_all-Covers us m
              (record { size = omega arith; same = λ j. ap (key worth us) (zero_add j) }))
            λ s c.
              let part = chosen-first worth us s.selected c.rising in
              Returns-and_then
                (gather-total 0 s.selected money.zero_amount c.rising (omega (arith, laws.zero_eq)))
                λ r t. returns (
                  omega (arith, t.0, laws.zero_eq),
                  λ p. omega (
                    arith,
                    count-total p r.0,
                    count-total p us,
                    t.1 (λ x. weight (p x)),
                    chosen-first (λ x. weight (p x)) us s.selected c.rising,
                  ),
                  omega (arith, t.0, t.1 worth, laws.zero_eq, c.enough, first-length worth us),
                ))
