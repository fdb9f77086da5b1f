-- ===== src/Wallet/Selector/TopK.antt =====
-- masswallet/utxo_selector.go: what the base keeps of the credits that are seen, and what it drops.
use mass_net_wallet.Prelude.{
  ℕ, suc, ◌+◌, ◌≤◌, ◌<◌, ◌≡◌, Bool, ◌&&◌, List, [], ◌∷◌, ◌++◌, arith, ltb, leb, length, length-set,
  set, weight, count, count-append, count_le_length, count_mono, count_none,
}
use mass_net_wallet.Prelude.Exec.{ok}
use mass_net_wallet.Wallet.Selector.{load}
use mass_net_wallet.Wallet.Selector.Cells.{count-set, load-count_none, load-key, count_below}
use mass_net_wallet.Wallet.Selector.Sift.{IsHeapFrom, Sifted, root_least}

module _ {C : Type 0} where
  abbrev pub snoc : List C → C → List C
  snoc xs x = xs ++ (x ∷ [])

  pub count-snoc :
      (p : C → Bool) (xs : List C) (x : C) → count p (snoc xs x) ≡ count p xs + weight (p x)
  count-snoc p xs x = omega (arith, count-append p xs (x ∷ []))

module _ {C : Type 0} (amount : C → ℕ) where
  -- The base and what is dropped are, entry for entry, the credits seen whose amount is at most
  -- `r`; something is dropped only where the base is full, and `floor` lies between the two.
  pub record IsTopK (k r : ℕ) (base seen dropped : List C) (floor : ℕ) : Type 0 where
    pub size : length base ≤ k
    pub ordered : length base ≡ k → IsHeapFrom amount 0 base
    pub kept :
        (p : C → Bool) → count p base + count p dropped ≡ count (λ c. leb (amount c) r && p c) seen
    pub full : 0 < length dropped → length base ≡ k
    pub above : count (λ c. ltb (amount c) floor) base ≡ 0
    pub below : count (λ c. ltb floor (amount c)) dropped ≡ 0

  kept-snoc :
      (r : ℕ) (p : C → Bool) (seen : List C) (item : C)
      → amount item ≤ r
      → count (λ c. leb (amount c) r && p c) (snoc seen item)
        ≡ count (λ c. leb (amount c) r && p c) seen + weight (p item)
  kept-snoc r p seen item h = ground (arith, count-snoc (λ c. leb (amount c) r && p c) seen item)

  -- An item above `r` is no matter of the base.
  pub big-IsTopK :
      (k r : ℕ) (base seen dropped : List C) (floor : ℕ) (item : C)
      → IsTopK k r base seen dropped floor
      → r < amount item
      → IsTopK k r base (snoc seen item) dropped floor
  big-IsTopK k r base seen dropped floor item v h = record {
    size = v.size;
    ordered = v.ordered;
    kept = λ p. ground (arith, v.kept p, count-snoc (λ c. leb (amount c) r && p c) seen item);
    full = v.full;
    above = v.above;
    below = v.below;
  }

  -- A base that is not full takes one more.
  pub free-IsTopK :
      (k r : ℕ) (base seen dropped : List C) (floor : ℕ) (item : C)
      → IsTopK k r base seen dropped floor
      → amount item ≤ r
      → length base < k
      → (b : List C) → length b ≡ suc (length base)
      → (length b ≡ k → IsHeapFrom amount 0 b)
      → ((p : C → Bool) → count p b ≡ count p (snoc base item))
      → IsTopK k r b (snoc seen item) dropped 0
  free-IsTopK k r base seen dropped floor item v h room b size heap same =
      let nothing : length dropped ≡ 0 = ground (arith, v.full) in
      record {
        size = omega arith;
        ordered = heap;
        kept =
            λ p. omega (arith, same p, count-snoc p base item, kept-snoc r p seen item h, v.kept p);
        full = λ q. absurd (omega arith);
        above = count_none (λ c. ltb (amount c) 0) (λ c. ground arith) b;
        below = omega (arith, count_le_length (λ c. ltb 0 (amount c)) dropped);
      }

  dropped_mono :
      (m n : ℕ)
      → m ≤ n
      → (xs : List C) → count (λ c. ltb n (amount c)) xs ≤ count (λ c. ltb m (amount c)) xs
  dropped_mono m n h xs =
      count_mono (λ c. ltb n (amount c)) (λ c. ltb m (amount c)) (λ x e. ground arith) xs

  -- A full base whose root is not below the item drops the item.
  pub keep-IsTopK :
      (k r : ℕ) (base seen dropped : List C) (floor : ℕ) (item least : C)
      → IsTopK k r base seen dropped floor
      → amount item ≤ r
      → length base ≡ k
      → load base 0 ≡ ok least
      → amount item ≤ amount least
      → IsTopK k r base (snoc seen item) (item ∷ dropped) (amount least)
  keep-IsTopK k r base seen dropped floor item least v h full e low =
      let root = load-key amount base 0 least e in
      let heap = v.ordered full in
      let higher : floor ≤ amount least =
        ground (arith, load-count_none (λ c. ltb (amount c) floor) base 0 least e v.above) in
      record {
        size = v.size;
        ordered = v.ordered;
        kept = λ p. omega (arith, kept-snoc r p seen item h, v.kept p);
        full = λ q. full;
        above =
            count_below amount (amount least) base λ i q. rw root (root_least amount base i heap q);
        below = ground (arith, dropped_mono floor (amount least) higher dropped, v.below);
      }

  -- A full base whose root is below the item drops the root.
  pub replace-IsTopK :
      (k r : ℕ) (base seen dropped : List C) (floor : ℕ) (item least : C)
      → IsTopK k r base seen dropped floor
      → amount item ≤ r
      → length base ≡ k
      → load base 0 ≡ ok least
      → amount least < amount item
      → (b : List C) → Sifted amount 0 (set base 0 item) b
      → IsTopK k r b (snoc seen item) (least ∷ dropped) (amount least)
  replace-IsTopK k r base seen dropped floor item least v h full e high b t =
      let root = load-key amount base 0 least e in
      let heap = v.ordered full in
      let size : length b ≡ k = omega (arith, t.size, length-set base 0 item) in
      let higher : floor ≤ amount least =
        ground (arith, load-count_none (λ c. ltb (amount c) floor) base 0 least e v.above) in
      let swapped : (p : C → Bool) → count p b + weight (p least) ≡ count p base + weight (p item) =
        λ p. omega (arith, t.same p, count-set p base 0 least item e) in
      let none_below : count (λ c. ltb (amount c) (amount least)) base ≡ 0 =
        count_below amount (amount least) base λ i q. rw root (root_least amount base i heap q) in
      record {
        size = omega arith;
        ordered = λ q. t.heap;
        kept = λ p. omega (arith, kept-snoc r p seen item h, v.kept p, swapped p);
        full = λ q. size;
        above = ground (arith, swapped (λ c. ltb (amount c) (amount least)));
        below = ground (arith, dropped_mono floor (amount least) higher dropped, v.below);
      }

  -- A selector with no room for any drops all.
  pub empty-IsTopK :
      (r : ℕ) (base seen dropped : List C) (floor : ℕ) (item : C)
      → IsTopK 0 r base seen dropped floor
      → amount item ≤ r
      → IsTopK 0 r base (snoc seen item) (item ∷ dropped) (amount item + floor)
  empty-IsTopK r base seen dropped floor item v h =
      let nothing : length base ≡ 0 = omega (arith, v.size) in
      record {
        size = v.size;
        ordered = v.ordered;
        kept = λ p. omega (arith, kept-snoc r p seen item h, v.kept p);
        full = λ q. nothing;
        above = omega (arith, count_le_length (λ c. ltb (amount c) (amount item + floor)) base);
        below =
            ground (arith, dropped_mono floor (amount item + floor) (omega arith) dropped, v.below);
      }
