-- ===== src/Wallet/Eligible/Sums.antt =====
-- masswallet/tx.go: a list whose entries are all among those of another has the smaller sum.
use mass_net_wallet.Prelude.{
  ℕ, zero, suc, ◌+◌, ◌≤◌, ◌≡◌, refl, min, Bool, List, [], ◌∷◌, arith, ltb, count,
}
use mass_net_wallet.Wallet.OptOutputs.Picks.{total}

module _ {C : Type 0} (f : C → ℕ) where
  -- the entries that are worth more than 0, those that are worth more than 1, and so on
  abbrev layers : ℕ → List C → ℕ
  layers zero xs = 0
  layers (suc n) xs = layers n xs + count (λ x. ltb n (f x)) xs

  layers-cons : (n : ℕ) (x : C) (xs : List C) → layers n (x ∷ xs) ≡ min n (f x) + layers n xs
  layers-cons zero x xs = omega arith
  layers-cons (suc n) x xs = ground (arith, layers-cons n x xs)

  layers-nil : (n : ℕ) → layers n [] ≡ 0
  layers-nil zero = refl
  layers-nil (suc n) = omega (arith, layers-nil n)

  layers_le : (n : ℕ) (xs : List C) → layers n xs ≤ total f xs
  layers_le n [] = omega (arith, layers-nil n)
  layers_le n (x ∷ xs) = omega (arith, layers-cons n x xs, layers_le n xs)

  layers_enough : (n : ℕ) (xs : List C) → total f xs ≤ n → layers n xs ≡ total f xs
  layers_enough n [] h = layers-nil n
  layers_enough n (x ∷ xs) h = omega (arith, layers-cons n x xs, layers_enough n xs)

  layers_mono :
      (n : ℕ) (xs ys : List C)
      → ((p : C → Bool) → count p xs ≤ count p ys)
      → layers n xs ≤ layers n ys
  layers_mono zero xs ys h = omega arith
  layers_mono (suc n) xs ys h = omega (arith, layers_mono n xs ys h, h (λ x. ltb n (f x)))

  pub total_le :
      (xs ys : List C) → ((p : C → Bool) → count p xs ≤ count p ys) → total f xs ≤ total f ys
  total_le xs ys h = omega (
    arith,
    layers_enough (total f xs) xs (omega arith),
    layers_mono (total f xs) xs ys h,
    layers_le (total f xs) ys,
  )
