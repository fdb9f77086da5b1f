-- ===== src/Wallet/Selector/Choice.antt =====
-- masswallet/utxo_selector.go: what `submit` keeps of the credits that it has seen.
use mass_net_wallet.Prelude.{
  ℕ, ◌+◌, ◌/◌, ◌≤◌, ◌<◌, ◌≡◌, inl, inr, refl, sym, ◌∙◌, Bool, true, ◌&&◌, Option, none, some, List,
  [], ◌∷◌, ◌++◌, append_assoc, append-nil, arith, ltb, ◌==◌, length, length-append, count,
  count_mono, Bool-cases,
}
use mathlib.Core.Path.{subst}
use mass_net_wallet.Prelude.Exec.{Returns, returns, Returns-and_then, Returns-map, Returns-if}
use mass_net_wallet.Wallet.Selector.{
  TopKSelector, items, new_top_k_selector, new_guard, submit_free, submit_full, submit, submit_all,
}
use mass_net_wallet.Wallet.Selector.Cells.{load-ok}
use mass_net_wallet.Wallet.Selector.Sift.{adjust_down-heap, adjust-root}
use mass_net_wallet.Wallet.Selector.TopK.{
  IsTopK, snoc, count-snoc, big-IsTopK, free-IsTopK, keep-IsTopK, replace-IsTopK, empty-IsTopK,
}

module _ {C : Type 0} (amount : C → ℕ) where
  -- The guard is a least one of the credits seen whose amount is above `r`.
  abbrev pub IsGuard : ℕ → Option C → List C → Type 0
  IsGuard r none seen = count (λ c. ltb r (amount c)) seen ≡ 0
  IsGuard r (some g) seen =
      r < amount g
      × (count (λ c. ltb r (amount c) && ltb (amount c) (amount g)) seen ≡ 0)
      × ((p : C → Bool) → p g ≡ true → 0 < count p seen)

  pub record IsChoice (s : TopKSelector C) (seen : List C) : Type 0 where
    pub dropped : List C
    pub floor : ℕ
    pub top : IsTopK amount s.k s.require_amt s.base seen dropped floor
    pub guarded : IsGuard s.require_amt s.guard seen

  -- A call keeps the selector's bounds.
  abbrev pub Follows : TopKSelector C → TopKSelector C → Type 0
  Follows s s' = (s'.k ≡ s.k) × (s'.require_amt ≡ s.require_amt)

  submit_free-IsChoice :
      (s : TopKSelector C) (seen : List C) (item : C)
      → IsChoice s seen
      → amount item ≤ s.require_amt
      → length s.base < s.k
      → IsGuard s.require_amt s.guard (snoc seen item)
      → Returns (λ s'. Follows s s' × IsChoice s' (snoc seen item)) (submit_free amount s item)
  unfolding submit_free
  submit_free-IsChoice s seen item v h room g =
      let base = snoc s.base item in
      let longer = length-append s.base (item ∷ []) in
      let post =
        free-IsTopK amount s.k s.require_amt s.base seen v.dropped v.floor item v.top h room in
      Returns-and_then
        (Returns-if (length base == s.k)
          (λ now.
            Returns-map (adjust_down-heap amount s.k base (ground arith))
              λ b t. post b (omega (arith, t.size)) (λ q. t.heap) t.same)
          (λ later. returns (post base (omega arith) (λ q. ground arith) (λ p. refl))))
        λ b t.
          returns ((refl, refl), record { dropped = v.dropped; floor = 0; top = t; guarded = g })

  submit_full-IsChoice :
      (s : TopKSelector C) (seen : List C) (item : C)
      → IsChoice s seen
      → amount item ≤ s.require_amt
      → length s.base ≡ s.k
      → IsGuard s.require_amt s.guard (snoc seen item)
      → Returns (λ s'. Follows s s' × IsChoice s' (snoc seen item)) (submit_full amount s item)
  unfolding submit_full
  submit_full-IsChoice s seen item v h full g =
      let none_kept : s.k ≡ 0
          → IsTopK amount s.k s.require_amt s.base (snoc seen item) (item ∷ v.dropped)
              (amount item + v.floor) =
        λ e.
          subst
            (λ k.
              IsTopK amount k s.require_amt s.base (snoc seen item) (item ∷ v.dropped)
                (amount item + v.floor))
            (sym e)
            (empty-IsTopK amount s.require_amt s.base seen v.dropped v.floor item
              (subst (λ k. IsTopK amount k s.require_amt s.base seen v.dropped v.floor) e v.top)
              h) in
      Returns-if (ltb 0 s.k)
        (λ some_room.
          let (least, e) = load-ok s.base 0 (ground arith) in
          rw e (
            Returns-if (ltb (amount least) (amount item))
              (λ high.
                Returns-and_then (adjust-root amount s.k s.base item full (v.top.ordered full))
                  λ b t. returns (
                    (refl, refl),
                    record {
                      dropped = least ∷ v.dropped;
                      floor = amount least;
                      top =
                          replace-IsTopK amount s.k s.require_amt s.base seen v.dropped v.floor item
                            least v.top h full e (ground arith) b t;
                      guarded = g;
                    },
                  ))
              (λ low. returns (
                (refl, refl),
                record {
                  dropped = item ∷ v.dropped;
                  floor = amount least;
                  top =
                      keep-IsTopK amount s.k s.require_amt s.base seen v.dropped v.floor item least
                        v.top h full e (ground arith);
                  guarded = g;
                },
              ))))
        (λ no_room. returns (
          (refl, refl),
          record {
            dropped = item ∷ v.dropped;
            floor = amount item + v.floor;
            top = none_kept (ground arith);
            guarded = g;
          },
        ))

  IsGuard-small :
      (r : ℕ) (g : Option C) (seen : List C) (item : C)
      → amount item ≤ r
      → IsGuard r g seen
      → IsGuard r g (snoc seen item)
  IsGuard-small r none seen item h v = ground (arith, count-snoc (λ c. ltb r (amount c)) seen item)
  IsGuard-small r (some g) seen item h v = (
    v.0,
    ground (arith, count-snoc (λ c. ltb r (amount c) && ltb (amount c) (amount g)) seen item),
    λ p e. omega (arith, count-snoc p seen item, v.2 p e),
  )

  IsGuard-big :
      (r : ℕ) (g : Option C) (seen : List C) (item : C)
      → r < amount item
      → IsGuard r g seen
      → IsGuard r (new_guard amount g item) (snoc seen item)
  unfolding new_guard
  IsGuard-big r none seen item h v = (
    h,
    ground (
      arith,
      count-snoc (λ c. ltb r (amount c) && ltb (amount c) (amount item)) seen item,
      count_mono (λ c. ltb r (amount c) && ltb (amount c) (amount item)) (λ c. ltb r (amount c))
          (λ c e. ground arith) seen,
    ),
    λ p e. ground (arith, count-snoc p seen item),
  )
  IsGuard-big r (some g) seen item h v = elim (Bool-cases (ltb (amount item) (amount g))) [
    | inl t ↦ rw t (
      h,
      ground (
        arith,
        count-snoc (λ c. ltb r (amount c) && ltb (amount c) (amount item)) seen item,
        count_mono (λ c. ltb r (amount c) && ltb (amount c) (amount item))
            (λ c. ltb r (amount c) && ltb (amount c) (amount g)) (λ c e. ground arith) seen,
      ),
      λ p e. ground (arith, count-snoc p seen item),
    )
    | inr t ↦ rw t (
      v.0,
      ground
          (arith, v.1, count-snoc (λ c. ltb r (amount c) && ltb (amount c) (amount g)) seen item),
      λ p e. omega (arith, count-snoc p seen item, v.2 p e),
    )
  ]

  submit-IsChoice :
      (s : TopKSelector C) (seen : List C) (item : C)
      → IsChoice s seen
      → Returns (λ s'. Follows s s' × IsChoice s' (snoc seen item)) (submit amount s item)
  unfolding submit
  submit-IsChoice s seen item v =
      Returns-if (ltb s.require_amt (amount item))
        (λ big.
          let h : s.require_amt < amount item = ground arith in
          returns (
            (refl, refl),
            record {
              dropped = v.dropped;
              floor = v.floor;
              top = big-IsTopK amount s.k s.require_amt s.base seen v.dropped v.floor item v.top h;
              guarded = IsGuard-big s.require_amt s.guard seen item h v.guarded;
            },
          ))
        (λ small.
          let h : amount item ≤ s.require_amt = ground arith in
          let g = IsGuard-small s.require_amt s.guard seen item h v.guarded in
          Returns-if (ltb (length s.base) s.k)
            (λ room. submit_free-IsChoice s seen item v h (ground arith) g)
            (λ full. submit_full-IsChoice s seen item v h (ground (arith, v.top.size)) g))

  submit_all-IsChoice :
      (s : TopKSelector C) (seen credits : List C)
      → IsChoice s seen
      → Returns (λ s'. Follows s s' × IsChoice s' (seen ++ credits)) (submit_all amount s credits)
  unfolding submit_all
  submit_all-IsChoice s seen [] v = returns ((refl, refl), rw append-nil v)
  submit_all-IsChoice s seen (c ∷ cs) v = Returns-and_then (submit-IsChoice s seen c v) λ t w.
      Returns-map (submit_all-IsChoice t (snoc seen c) cs w.1) λ u x. (
        (x.0.0 ∙ w.0.0, x.0.1 ∙ w.0.1),
        subst (λ l. IsChoice u l) (append_assoc seen (c ∷ []) cs) x.1,
      )

  pub new-IsChoice : (size r : ℕ) → IsChoice (new_top_k_selector size r) []
  unfolding new_top_k_selector
  new-IsChoice size r = record {
    dropped = [];
    floor = 0;
    top = record {
      size = omega arith;
      ordered = λ e i c g q. absurd (omega arith);
      kept = λ p. refl;
      full = λ q. absurd (omega arith);
      above = refl;
      below = refl;
    };
    guarded = refl;
  }

  -- A new selector takes any credits without a read out of range, and in the rounds that `adjust`
  -- is given. Its base and some dropped credits are then, each as often as it was submitted, the
  -- credits up to the required amount; the base has at most `k`, nothing is dropped unless it has
  -- `k`, and no dropped credit is larger than one in the base. The guard is a least credit above
  -- the required amount, if there is one.
  pub submit_all-new_top_k_selector :
      (size r : ℕ) (credits : List C)
      → Returns
          (λ s. (s.k ≡ size / 154) × (s.require_amt ≡ r) × IsChoice s credits)
          (submit_all amount (new_top_k_selector size r) credits)
  unfolding new_top_k_selector
  submit_all-new_top_k_selector size r credits =
      Returns-map (submit_all-IsChoice (new_top_k_selector size r) [] credits (new-IsChoice size r))
        λ s v. (v.0.0, v.0.1, v.1)

  items_bound :
      (base : List C) (g : Option C) (k r : ℕ)
      → length (items (record { k = k; base = base; guard = g; require_amt = r })) ≤ length base + 1
  unfolding items
  items_bound base none k r = omega arith
  items_bound base (some g) k r = omega (arith, length-append base (g ∷ []))

  -- A new selector that has taken any credits has at most one item more than its `k`.
  pub length-items :
      (size r : ℕ) (credits : List C)
      → Returns
          (λ s. length (items s) ≤ size / 154 + 1)
          (submit_all amount (new_top_k_selector size r) credits)
  length-items size r credits =
      Returns-map (submit_all-new_top_k_selector size r credits)
        λ s v. omega (arith, v.0, v.2.top.size, items_bound s.base s.guard s.k s.require_amt)
