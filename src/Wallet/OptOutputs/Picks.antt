-- ===== src/Wallet/OptOutputs/Picks.antt =====
-- masswallet/tx.go: what the credits at rising indices add up to.
use mass_net_wallet.Prelude.{
  ℕ, zero, suc, ◌+◌, ◌≤◌, ◌<◌, ◌≡◌, refl, ap, Bool, some, inl, inr, Bool-cases, ltb→lt, ◌==◌, List,
  [], ◌∷◌, ◌++◌, arith, ltb, length, weight, count,
}
use mass_net_wallet.Wallet.Selector.Cells.{key}
use mass_net_wallet.Wallet.OptOutputs.{last_index, indices_below}

-- indices from `lo` on that rise and stay below `hi`
abbrev pub Rising : ℕ → ℕ → List ℕ → Type 0
Rising lo hi [] = Unit {0}
Rising lo hi (x ∷ xs) = lo ≤ x × x < hi × Rising (suc x) hi xs

pub Rising-snoc :
    (lo i : ℕ) (xs : List ℕ) → lo ≤ i → Rising lo i xs → Rising lo (suc i) (xs ++ (i ∷ []))
Rising-snoc lo i [] h v = (h, omega arith, tt)
Rising-snoc lo i (x ∷ xs) h v = (v.0, omega arith, Rising-snoc (suc x) i xs (omega arith) v.2)

pub Rising-mono : (lo i j : ℕ) (xs : List ℕ) → i ≤ j → Rising lo i xs → Rising lo j xs
Rising-mono lo i j [] h v = v
Rising-mono lo i j (x ∷ xs) h v = (v.0, omega arith, Rising-mono (suc x) i j xs h v.2)

Rising-lower : (lo lo' i : ℕ) (xs : List ℕ) → lo' ≤ lo → Rising lo i xs → Rising lo' i xs
Rising-lower lo lo' i [] h v = v
Rising-lower lo lo' i (x ∷ xs) h v = (omega arith, v.1, v.2)

pub indices_below-Rising :
    (j lo hi : ℕ) (xs : List ℕ) → Rising lo hi xs → Rising lo j (indices_below j xs)
unfolding indices_below
indices_below-Rising j lo hi [] v = v
indices_below-Rising j lo hi (x ∷ xs) v =
    let rest = indices_below-Rising j (suc x) hi xs v.2 in
    elim (Bool-cases (ltb x j)) [
      | inl t ↦ rw t (v.0, ltb→lt x j t, rest)
      | inr t ↦ rw t (Rising-lower (suc x) lo j (indices_below j xs) (omega (arith, v.0)) rest)
    ]

-- Nothing is cut from indices that are all below the bound.
pub indices_below_all :
    (j lo hi : ℕ) (xs : List ℕ) → hi ≤ j → Rising lo hi xs → indices_below j xs ≡ xs
unfolding indices_below
indices_below_all j lo hi [] h v = refl
indices_below_all j lo hi (x ∷ xs) h v =
    let rest = indices_below_all j (suc x) hi xs h v.2 in ground arith

pub indices_below-snoc :
    (j i : ℕ) (xs : List ℕ) → j ≤ i → indices_below j (xs ++ (i ∷ [])) ≡ indices_below j xs
unfolding indices_below
indices_below-snoc j i [] h = ground arith
indices_below-snoc j i (x ∷ xs) h = let rest = indices_below-snoc j i xs h in ground arith

pub last_index-snoc : (xs : List ℕ) (i : ℕ) → last_index (xs ++ (i ∷ [])) ≡ some i
unfolding last_index
last_index-snoc [] i = refl
last_index-snoc (x ∷ []) i = refl
last_index-snoc (x ∷ (y ∷ xs)) i = last_index-snoc (y ∷ xs) i

module _ {C : Type 0} where
  -- the sum of what the entries are worth
  abbrev pub total : (C → ℕ) → List C → ℕ
  total f [] = 0
  total f (x ∷ xs) = f x + total f xs

  pub count-total : (p : C → Bool) (xs : List C) → count p xs ≡ total (λ x. weight (p x)) xs
  count-total p [] = refl
  count-total p (x ∷ xs) = ap (λ (n : ℕ). weight (p x) + n) (count-total p xs)

module _ {C : Type 0} (f : C → ℕ) (us : List C) where
  -- the sum at the indices
  abbrev pub chosen : List ℕ → ℕ
  chosen [] = 0
  chosen (i ∷ is) = key f us i + chosen is

  -- the sum of the first entries
  abbrev pub first : ℕ → ℕ
  first zero = 0
  first (suc i) = first i + key f us i

  pub chosen-snoc : (is : List ℕ) (i : ℕ) → chosen (is ++ (i ∷ [])) ≡ chosen is + key f us i
  chosen-snoc [] i = omega arith
  chosen-snoc (j ∷ is) i = omega (arith, chosen-snoc is i)

  pub first_le : (i j : ℕ) → i ≤ j → first i ≤ first j
  first_le zero zero h = omega arith
  first_le (suc i) zero h = absurd (omega arith)
  first_le i (suc j) h = elim (Bool-cases (i == suc j)) [
    | inl t ↦ let same : i ≡ suc j = ground arith in rw same (omega arith)
    | inr t ↦ omega (arith, first_le i j (ground arith))
  ]

  pub chosen_le :
      (lo hi : ℕ) (is : List ℕ) → lo ≤ hi → Rising lo hi is → first lo + chosen is ≤ first hi
  chosen_le lo hi [] h v = omega (arith, first_le lo hi h)
  chosen_le lo hi (i ∷ is) h v = omega (arith, first_le lo i v.0, chosen_le (suc i) hi is v.1 v.2)

first_cons :
    {C : Type 0} (f : C → ℕ) (u : C) (us : List C) (n : ℕ)
    → first f (u ∷ us) (suc n) ≡ f u + first f us n
first_cons f u us zero = omega arith
first_cons f u us (suc n) = omega (arith, first_cons f u us n)

-- All the first entries are all.
pub first-length : {C : Type 0} (f : C → ℕ) (us : List C) → first f us (length us) ≡ total f us
first-length f [] = refl
first-length f (u ∷ us) = omega (arith, first_cons f u us (length us), first-length f us)
