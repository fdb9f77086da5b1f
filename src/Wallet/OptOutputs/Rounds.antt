-- ===== src/Wallet/OptOutputs/Rounds.antt =====
-- masswallet/tx.go: the rounds of optOutputs, and the indices that they select.
use mass_net_wallet.Prelude.{
  ℕ, min, suc, ◌+◌, ◌≤◌, ◌<◌, ◌≡◌, inl, inr, ap, Option, none, some, List, [], ◌∷◌, ◌++◌, arith,
  ltb, ◌==◌, length, Bool-cases,
}
use mathlib.Core.Path.{subst}
use mass_net_wallet.Prelude.Exec.{Returns, returns, Returns-and_then, Returns-if}
use mass_net_wallet.Wallet.Money.{Money, IsMoney}
use mass_net_wallet.Wallet.Selector.Cells.{key}
use mass_net_wallet.Wallet.OptOutputs.{Scan, last_index, indices_below, exchanged, last_round, scan}
use mass_net_wallet.Wallet.OptOutputs.Picks.{
  Rising, Rising-snoc, Rising-mono, indices_below-Rising, indices_below_all, indices_below-snoc,
  last_index-snoc, total, chosen, first, chosen-snoc, first_le, chosen_le, first-length,
}

module _ {A C : Type 0} (money : Money A) (amount_of : C → A) (amount : A) (max_amount : ℕ)
    (laws : IsMoney money max_amount) (us : List C) where
  abbrev pub worth : C → ℕ
  worth c = money.int_value (amount_of c)

  abbrev pub want : ℕ
  want = money.int_value amount

  -- What the last index that was skipped says of those selected before it.
  abbrev pub Skips : Option ℕ → ℕ → List ℕ → Type 0
  Skips none i selected = chosen worth us selected ≡ first worth us i
  Skips (some j) i selected =
      j < i × want < chosen worth us (indices_below j selected) + key worth us j

  pub record IsScan (i : ℕ) (s : Scan A) : Type 0 where
    pub rising : Rising 0 i s.selected
    pub opt_eq : money.int_value s.opt_amount ≡ chosen worth us s.selected
    pub reserve_eq : money.int_value s.sum_reserve ≡ first worth us i
    pub skips : Skips (last_index s.unselected) i s.selected

  -- The selected indices rise, and their sum is not less than the amount, or than that of all credits.
  pub record Covers (s : Scan A) : Type 0 where
    pub rising : Rising 0 (length us) s.selected
    pub enough : min want (first worth us (length us)) ≤ chosen worth us s.selected

  -- `rest` is what follows the first `i` credits
  pub record IsRest (i : ℕ) (rest : List C) : Type 0 where
    pub size : length us ≡ i + length rest
    pub same : (j : ℕ) → key worth us (i + j) ≡ key worth rest j

  IsRest-next : (i : ℕ) (u : C) (rest : List C) → IsRest i (u ∷ rest) → IsRest (suc i) rest
  IsRest-next i u rest r = record {
    size = omega (arith, r.size);
    same = λ j. subst (λ (k : ℕ). key worth us k ≡ key worth rest j) (omega arith) (r.same (suc j));
  }

  IsRest-head : (i : ℕ) (u : C) (rest : List C) → IsRest i (u ∷ rest) → key worth us i ≡ worth u
  IsRest-head i u rest r = subst (λ (k : ℕ). key worth us k ≡ worth u) (omega arith) (r.same 0)

  Skips-taken :
      (o : Option ℕ) (i : ℕ) (selected : List ℕ)
      → Skips o i selected
      → Skips o (suc i) (selected ++ (i ∷ []))
  Skips-taken none i selected h = omega (arith, chosen-snoc worth us selected i)
  Skips-taken (some j) i selected h =
      (omega arith, rw (indices_below-snoc j i selected (omega arith)) h.1)

  -- where the last round exchanges what it selected after the last index that was skipped
  exchange-Covers :
      (i : ℕ) (o : Option ℕ) (selected : List ℕ)
      → suc i ≡ length us
      → Rising 0 i selected
      → Skips o i selected
      → (Rising 0 (length us) (exchanged o (selected ++ (i ∷ []))))
        × (min want (first worth us (length us))
            ≤ chosen worth us (exchanged o (selected ++ (i ∷ []))))
  unfolding exchanged
  exchange-Covers i none selected e r h = (
    subst (λ (k : ℕ). Rising 0 k (selected ++ (i ∷ []))) e
        (Rising-snoc 0 i selected (omega arith) r),
    omega (arith, chosen-snoc worth us selected i, ap (first worth us) e),
  )
  exchange-Covers i (some j) selected e r h =
      let all = selected ++ (i ∷ []) in
      let below = indices_below-Rising j 0 (suc i) all (Rising-snoc 0 i selected (omega arith) r) in
      (
        Rising-mono 0 (suc j) (length us) (indices_below j all ++ (j ∷ [])) (omega arith)
            (Rising-snoc 0 j (indices_below j all) (omega arith) below),
        omega (
          arith,
          h.1,
          chosen-snoc worth us (indices_below j all) j,
          ap (chosen worth us) (indices_below-snoc j i selected (omega arith)),
        ),
      )

  last_round-Covers :
      (i : ℕ) (opt : A) (s : Scan A)
      → suc i ≡ length us
      → IsScan i s
      → money.int_value opt ≡ money.int_value s.opt_amount + key worth us i
      → Rising 0 (length us) (last_round money amount_of amount i opt s.unselected s.selected)
        × (min want (first worth us (length us))
            ≤ chosen worth us (last_round money amount_of amount i opt s.unselected s.selected))
  unfolding last_round
  last_round-Covers i opt s e v q = elim (Bool-cases (ltb (money.int_value opt) want)) [
    | inl t ↦ rw t (exchange-Covers i (last_index s.unselected) s.selected e v.rising v.skips)
    | inr t ↦ rw t (
      subst (λ (k : ℕ). Rising 0 k (s.selected ++ (i ∷ []))) e
          (Rising-snoc 0 i s.selected (omega arith) v.rising),
      ground (arith, chosen-snoc worth us s.selected i, v.opt_eq),
    )
  ]

  -- the round that selects the credit
  taken-IsScan :
      (i : ℕ) (opt reserve : A) (s : Scan A)
      → IsScan i s
      → money.int_value opt ≡ money.int_value s.opt_amount + key worth us i
      → money.int_value reserve ≡ money.int_value s.sum_reserve + key worth us i
      → IsScan (suc i) (record {
        opt_amount = opt;
        sum_reserve = reserve;
        unselected = s.unselected;
        selected = s.selected ++ (i ∷ []);
      })
  taken-IsScan i opt reserve s v e f = record {
    rising = Rising-snoc 0 i s.selected (omega arith) v.rising;
    opt_eq = omega (arith, v.opt_eq, chosen-snoc worth us s.selected i);
    reserve_eq = omega (arith, v.reserve_eq);
    skips = Skips-taken (last_index s.unselected) i s.selected v.skips;
  }

  -- the round that skips the credit, since it would exceed the amount
  skipped-IsScan :
      (i : ℕ) (opt reserve : A) (s : Scan A) (u : C)
      → IsScan i s
      → key worth us i ≡ worth u
      → want < money.int_value opt
      → money.int_value opt ≡ money.int_value s.opt_amount + worth u
      → money.int_value reserve ≡ money.int_value s.sum_reserve + worth u
      → IsScan (suc i) (record {
        opt_amount = money.sub_value opt (amount_of u);
        sum_reserve = reserve;
        unselected = s.unselected ++ (i ∷ []);
        selected = s.selected;
      })
  skipped-IsScan i opt reserve s u v h low e f = record {
    rising = Rising-mono 0 i (suc i) s.selected (omega arith) v.rising;
    opt_eq = omega (arith, v.opt_eq, laws.sub_value_eq opt (amount_of u) (omega arith));
    reserve_eq = omega (arith, v.reserve_eq);
    skips = rw (last_index-snoc s.unselected i) (
      omega arith,
      rw (indices_below_all i 0 i s.selected (omega arith) v.rising) (omega (arith, v.opt_eq)),
    );
  }

  -- What is looked at fits the largest amount.
  sums_fit :
      (i n : ℕ) (s : Scan A)
      → total worth us ≤ max_amount
      → length us ≡ suc i + n
      → IsScan i s
      → (money.int_value s.sum_reserve + key worth us i ≤ max_amount)
        × (money.int_value s.opt_amount + key worth us i ≤ max_amount)
  sums_fit i n s m e v =
      let bound : first worth us (suc i) ≤ total worth us =
        omega (arith, first_le worth us (suc i) (length us) (omega arith), first-length worth us) in
      let part : chosen worth us s.selected ≤ first worth us i =
        omega (arith, chosen_le worth us 0 i s.selected (omega arith) v.rising) in
      (omega (arith, v.reserve_eq), omega (arith, v.opt_eq))

  pub scan-Covers :
      (i : ℕ) (u : C) (rest : List C) (s : Scan A)
      → total worth us ≤ max_amount
      → IsRest i (u ∷ rest)
      → IsScan i s
      → Returns Covers (scan money amount_of amount i (u ∷ rest) s)
  unfolding scan
  scan-Covers i u [] s m r v =
      let head = IsRest-head i u [] r in
      let fit = sums_fit i 0 s m (omega (arith, r.size)) v in
      Returns-and_then (laws.add_ok s.sum_reserve (amount_of u) (omega (arith, fit.0))) λ reserve e.
        Returns-and_then (laws.add_ok s.opt_amount (amount_of u) (omega (arith, fit.1))) λ opt f.
          let last = last_round-Covers i opt s (omega (arith, r.size)) v (omega arith) in
          returns (record { rising = last.0; enough = last.1 })
  scan-Covers i u (w ∷ rest) s m r v =
      let head = IsRest-head i u (w ∷ rest) r in
      let fit = sums_fit i (suc (length rest)) s m (omega (arith, r.size)) v in
      let next = IsRest-next i u (w ∷ rest) r in
      Returns-and_then (laws.add_ok s.sum_reserve (amount_of u) (omega (arith, fit.0))) λ reserve e.
        Returns-and_then (laws.add_ok s.opt_amount (amount_of u) (omega (arith, fit.1))) λ opt f.
          let taken = taken-IsScan i opt reserve s v (omega arith) (omega arith) in
          Returns-if (ltb want (money.int_value opt))
            (λ high.
              scan-Covers (suc i) w rest _ m next
                (skipped-IsScan i opt reserve s u v head (ground arith) f e))
            (λ low.
              Returns-if (money.int_value opt == want)
                (λ exact. returns (record {
                  rising =
                      Rising-mono 0 (suc i) (length us) (s.selected ++ (i ∷ []))
                        (omega (arith, r.size)) taken.rising;
                  enough = ground (arith, taken.opt_eq);
                }))
                (λ more. scan-Covers (suc i) w rest _ m next taken))
