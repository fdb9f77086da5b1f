-- ===== src/Wallet/Selector.antt =====
-- masswallet/utxo_selector.go: the selector of credits for an amount, which keeps the `k` largest of
-- those that do not exceed the amount in a binary heap, and the smallest of those that exceed it.
pub mod Cells
pub mod Sift
pub mod TopK
pub mod Choice
use mass_net_wallet.Prelude.{
  ℕ, zero, suc, ◌+◌, ◌*◌, ◌/◌, Bool, true, false, ◌&&◌, Option, none, some, List, [], ◌∷◌, ◌++◌,
  ltb, leb, ◌==◌, if◌then◌else◌, length, set,
}
use mass_net_wallet.Prelude.Exec.{Result, ok, err, panic, out_of_fuel, and_then}

-- a[i]
unfoldable pub load : {A : Type 0} → List A → ℕ → Result A
load [] i = err panic
load (x ∷ xs) zero = ok x
load (x ∷ xs) (suc i) = load xs i

-- topKSelector; of an Amount the selector uses only the order, which Cmp takes from a number
pub record TopKSelector (C : Type 0) : Type 0 where
  pub k : ℕ
  pub base : List C
  pub guard : Option C
  pub require_amt : ℕ

-- newTopKSelector at blockchain.GetMaxStandardTxSize()
unfoldable pub new_top_k_selector :
    {C : Type 0} (max_standard_tx_size require_amt : ℕ) → TopKSelector C
new_top_k_selector max_standard_tx_size require_amt = record {
  k = max_standard_tx_size / 154;
  base = [];
  guard = none;
  require_amt = require_amt;
}

-- Items
unfoldable pub items : {C : Type 0} → TopKSelector C → List C
items s = elim s.guard [ none ↦ s.base | some g ↦ s.base ++ (g ∷ []) ]

module _ {C : Type 0} (amount : C → ℕ) where
  -- The child with the smaller amount: `&&` reads the two only if the right one exists.
  unfoldable pub smaller_child : ℕ → List C → ℕ → Result ℕ
  unfolding load
  smaller_child k base child =
      let compared : Result ℕ = and_then (load base child) λ x.
        and_then (load base (child + 1))
          λ y. ok (if ltb (amount y) (amount x) then child + 1 else child) in
      if ltb (child + 1) k then compared else ok child

  unfoldable pub adjust_loop : ℕ → ℕ → ℕ → List C → Result (List C)
  unfolding smaller_child load
  adjust_loop zero k cur base = err out_of_fuel
  adjust_loop (suc fuel) k cur base =
      let sink : ℕ → C → C → Result (List C) =
        λ child x y. adjust_loop fuel k child (set (set base cur y) child x) in
      let step : Result (List C) = and_then (smaller_child k base (2 * cur + 1)) λ child.
        and_then (load base cur) λ x.
          and_then (load base child)
            λ y. let rest = sink child x y in if ltb (amount y) (amount x) then rest else ok base in
      if ltb cur (k / 2) then step else ok base

  -- adjust: the index at least doubles in each round, so `k + 1` rounds are enough.
  unfoldable pub adjust : ℕ → List C → ℕ → Result (List C)
  unfolding adjust_loop
  adjust k base i = adjust_loop (suc k) k i base

  -- for i := s.k/2 - 1; i >= 0; i-- { s.adjust(i) }, called at s.k/2
  unfoldable pub adjust_down : ℕ → ℕ → List C → Result (List C)
  adjust_down k zero base = ok base
  adjust_down k (suc i) base = and_then (adjust k base i) λ b. adjust_down k i b

  -- s.guard after submit of an item that exceeds the required amount
  unfoldable pub new_guard : Option C → C → Option C
  new_guard none item = some item
  new_guard (some g) item = if ltb (amount item) (amount g) then some item else some g

  -- submit of one that does not, where the base is not full
  unfoldable pub submit_free : TopKSelector C → C → Result (TopKSelector C)
  unfolding adjust_down
  submit_free s item =
      let base = s.base ++ (item ∷ []) in
      let ordered = adjust_down s.k (s.k / 2) base in
      let final = if length base == s.k then ordered else ok base in
      and_then final λ b. ok (record s { base = b })

  -- submit of one that does not, where the base is full
  unfoldable pub submit_full : TopKSelector C → C → Result (TopKSelector C)
  unfolding adjust load
  submit_full s item =
      let replaced : Result (TopKSelector C) =
        and_then (adjust s.k (set s.base 0 item) 0) λ b. ok (record s { base = b }) in
      let compared : Result (TopKSelector C) =
        and_then (load s.base 0)
          λ least. if ltb (amount least) (amount item) then replaced else ok s in
      if ltb 0 s.k then compared else ok s

  unfoldable pub submit : TopKSelector C → C → Result (TopKSelector C)
  unfolding new_guard submit_free submit_full
  submit s item =
      if ltb s.require_amt (amount item)
      then ok (record s { guard = new_guard s.guard item })
      else (if ltb (length s.base) s.k then submit_free s item else submit_full s item)

  -- one call of submit for each credit
  unfoldable pub submit_all : TopKSelector C → List C → Result (TopKSelector C)
  unfolding submit
  submit_all s [] = ok s
  submit_all s (c ∷ cs) = and_then (submit s c) λ s'. submit_all s' cs
