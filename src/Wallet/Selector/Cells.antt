-- ===== src/Wallet/Selector/Cells.antt =====
-- masswallet/utxo_selector.go: what a selector's slice reads after its writes, as numbers.
use mass_net_wallet.Prelude.{
  ℕ, zero, suc, ◌+◌, ◌≤◌, ◌<◌, false, ltb, ◌≡◌, ◌≢◌, refl, Bool, List, [], ◌∷◌, map, arith, ◌==◌,
  if◌then◌else◌, length, length-set, set, get_or, count, weight,
}
use mass_net_wallet.Prelude.Exec.{ok}
use mass_net_wallet.Wallet.Selector.{load}

module _ {C : Type 0} where
  pub load-ok : (xs : List C) (i : ℕ) → i < length xs → (x : C) × (load xs i ≡ ok x)
  unfolding load
  load-ok [] i h = absurd (omega arith)
  load-ok (x ∷ xs) zero h = (x, refl)
  load-ok (x ∷ xs) (suc i) h = load-ok xs i (omega arith)

  load-set_other : (xs : List C) (i j : ℕ) (v : C) → i ≢ j → load (set xs i v) j ≡ load xs j
  unfolding load
  load-set_other [] i j v h = refl
  load-set_other (x ∷ xs) zero zero v h = absurd (h refl)
  load-set_other (x ∷ xs) zero (suc j) v h = refl
  load-set_other (x ∷ xs) (suc i) zero v h = refl
  load-set_other (x ∷ xs) (suc i) (suc j) v h = load-set_other xs i j v (omega arith)

  -- a write trades the entry that a read finds
  pub count-set :
      (p : C → Bool) (xs : List C) (i : ℕ) (x v : C)
      → load xs i ≡ ok x
      → count p (set xs i v) + weight (p x) ≡ count p xs + weight (p v)
  unfolding load
  count-set p [] i x v e = ground arith
  count-set p (y ∷ xs) zero x v e = ground arith
  count-set p (y ∷ xs) (suc i) x v e = omega (arith, count-set p xs i x v e)

  pub count-swap :
      (p : C → Bool) (xs : List C) (i j : ℕ) (x y : C)
      → i ≢ j
      → load xs i ≡ ok x
      → load xs j ≡ ok y
      → count p (set (set xs i y) j x) ≡ count p xs
  count-swap p xs i j x y h e f =
      let g : load (set xs i y) j ≡ ok y = rw (load-set_other xs i j y h) f in
      omega (arith, count-set p (set xs i y) j y x g, count-set p xs i x y e)

  -- What no entry passes, none that is read does.
  pub load-count_none :
      (p : C → Bool) (xs : List C) (i : ℕ) (x : C) → load xs i ≡ ok x → count p xs ≡ 0 → p x ≡ false
  unfolding load
  load-count_none p [] i x e h = ground arith
  load-count_none p (y ∷ xs) zero x e h = ground arith
  load-count_none p (y ∷ xs) (suc i) x e h = load-count_none p xs i x e (omega arith)

module _ {C : Type 0} (amount : C → ℕ) where
  -- the amount at an index, 0 past the end
  abbrev pub key : List C → ℕ → ℕ
  key xs i = get_or (map amount xs) i 0

  pub load-key : (xs : List C) (i : ℕ) (x : C) → load xs i ≡ ok x → amount x ≡ key xs i
  unfolding load
  load-key [] i x e = ground arith
  load-key (y ∷ xs) zero x e = ground arith
  load-key (y ∷ xs) (suc i) x e = load-key xs i x e

  pub key-set :
      (xs : List C) (i j : ℕ) (v : C)
      → i < length xs
      → key (set xs i v) j ≡ (if i == j then amount v else key xs j)
  key-set [] i j v h = absurd (omega arith)
  key-set (x ∷ xs) zero zero v h = refl
  key-set (x ∷ xs) (suc i) (suc j) v h = ground (arith, key-set xs i j v)
  key-set (x ∷ xs) i j v h = ground arith

  pub key-swap :
      (xs : List C) (i j : ℕ) (x y : C)
      → i < length xs
      → j < length xs
      → load xs i ≡ ok x
      → load xs j ≡ ok y
      → (c : ℕ)
      → key (set (set xs i y) j x) c
        ≡ (if j == c then key xs i else (if i == c then key xs j else key xs c))
  key-swap xs i j x y hi hj e f c =
      let hj' : j < length (set xs i y) = omega (arith, length-set xs i y) in
      ground (
        arith,
        key-set (set xs i y) j c x hj',
        key-set xs i c y hi,
        load-key xs i x e,
        load-key xs j y f,
      )

  pub count_below :
      (m : ℕ) (xs : List C)
      → ((i : ℕ) → i < length xs → m ≤ key xs i)
      → count (λ c. ltb (amount c) m) xs ≡ 0
  count_below m [] h = refl
  count_below m (x ∷ xs) h = ground (arith, h 0, count_below m xs (λ i q. h (suc i) (omega arith)))
