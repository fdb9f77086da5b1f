-- ===== src/Wallet/Eligible/Usable.antt =====
-- masswallet/tx.go: what findEligibleUtxos selects.
use mass_net_wallet.Prelude.{
  ℕ, ◌+◌, ◌≤◌, ◌<◌, ◌≡◌, refl, min, inl, inr, Bool, false, ◌&&◌, ◌||◌, Option, none, some, List, [],
  ◌∷◌, arith, ltb, leb, ◌==◌, length, weight, count, count-append, count_mono, count_none,
}
use mathlib.Core.Path.{subst}
use mass_net_wallet.Prelude.Bytes.{Bytes}
use mass_net_wallet.Prelude.Exec.{Result, ok, Returns, returns}
use mass_net_wallet.Wallet.Money.{Money, IsMoney}
use mass_net_wallet.Wallet.Selector.{TopKSelector, new_top_k_selector, submit_all, items}
use mass_net_wallet.Wallet.Selector.Choice.{IsChoice, IsGuard, submit_all-new_top_k_selector}
use mass_net_wallet.Wallet.OptOutputs.{opt_outputs}
use mass_net_wallet.Wallet.OptOutputs.Picks.{total, count-total}
use mass_net_wallet.Wallet.OptOutputs.Coverage.{opt_outputs_covers}
use mass_net_wallet.Wallet.Construct.{Found}
use mass_net_wallet.Wallet.Fees.Change.{and_then-ok, if-ok, at_result}
use mass_net_wallet.Wallet.Eligible.{
  Utxo, Sources, keep, is_locked_class, is_usable, script_set,
  get_utxos_exclude_binding_and_staking, first_address, find_eligible_utxos,
}
use mass_net_wallet.Wallet.Eligible.Sums.{total_le}

count-keep :
    {C : Type 0} (p q : C → Bool) (cs : List C) → count p (keep q cs) ≡ count (λ c. q c && p c) cs
unfolding keep
count-keep p q [] = refl
count-keep p q (c ∷ cs) = ground (arith, count-keep p q cs)

count_both :
    {C : Type 0} (amount : C → ℕ) (r : ℕ) (p : C → Bool) (cs : List C)
    → count (λ c. leb (amount c) r && p c) cs + count (λ c. ltb r (amount c) && p c) cs ≡ count p cs
count_both amount r p [] = omega arith
count_both amount r p (c ∷ cs) = ground (arith, count_both amount r p cs)

guard_among :
    {C : Type 0} (amount : C → ℕ) (r : ℕ) (g : Option C) (base seen : List C) (p : C → Bool) (k : ℕ)
    → IsGuard amount r g seen
    → count p base ≤ count (λ c. leb (amount c) r && p c) seen
    → count p (items (record { k = k; base = base; guard = g; require_amt = r })) ≤ count p seen
unfolding items
guard_among amount r none base seen p k v h = omega (arith, count_both amount r p seen)
guard_among amount r (some g) base seen p k v h = ground (
  arith,
  count_both amount r p seen,
  count-append p base (g ∷ []),
  v.2 (λ c. ltb r (amount c) && p c),
)

-- The items of a selector are among the credits that it has seen.
items_among :
    {C : Type 0} (amount : C → ℕ) (s : TopKSelector C) (seen : List C)
    → IsChoice amount s seen
    → (p : C → Bool) → count p (items s) ≤ count p seen
items_among amount s seen v p =
    guard_among amount s.require_amt s.guard s.base seen p s.k v.guarded
      (omega (arith, v.top.kept p))

-- what holds of a call's value, where the call returns it
Returns-ok :
    {T : Type 0} {Post : T → Type 0} {r : Result T} {t : T} → Returns Post r → r ≡ ok t → Post t
Returns-ok {Post = Post} (returns h) e = at_result Post e h

module _ {A : Type 0} (money : Money A) (max_amount : ℕ) (laws : IsMoney money max_amount)
    (sources : Sources A) where
  abbrev worth : Utxo A → ℕ
  worth u = money.int_value u.amount

  -- an output that no transaction of the wallet may spend now
  abbrev pub is_unspendable : Utxo A → Bool
  is_unspendable u =
      u.flags.spent
      || u.flags.spent_by_unmined
      || ltb u.confirmations u.maturity
      || is_locked_class u.flags.utxo_class
      || sources.utxo_used u.out_point
      || sources.pool_spends u.out_point

  usable_or_not : (u : Utxo A) → (is_usable money sources u && is_unspendable u) ≡ false
  unfolding is_usable
  usable_or_not u = ground arith

  -- sort.Slice reorders: a sum over the entries stays as it is.
  abbrev pub IsReordering : Type 0
  IsReordering =
      (f : Utxo A → ℕ) (us : List (Utxo A)) → total f (sources.sort_utxos us) ≡ total f us

  -- What a scan finds fits in an amount.
  abbrev pub IsBounded : Type 0
  IsBounded =
      (scripts : List Bytes) (credits : List (Utxo A))
      → sources.unspents scripts ≡ ok credits
      → total worth credits ≤ max_amount

  -- The selector is a new one for the amount that has taken every usable output that was found. The
  -- inputs are spendable outputs of the addresses, none of them more often than it was found; their sum is what is
  -- returned, and it is not less than the amount, or than all that the selector kept.
  pub record IsSelection (addresses : List Bytes) (amount : A) (f : Found A (Utxo A)) : Type 0 where
    pub scripts : List Bytes
    pub credits : List (Utxo A)
    pub selector : TopKSelector (Utxo A)
    pub resolved : script_set money sources addresses ≡ ok scripts
    pub scanned : sources.unspents scripts ≡ ok credits
    pub submitted :
        submit_all worth
          (new_top_k_selector sources.max_standard_tx_size (money.int_value amount))
          (keep (is_usable money sources) credits)
        ≡ ok selector
    pub chosen : IsChoice worth selector (keep (is_usable money sources) credits)
    pub once :
        (p : Utxo A → Bool)
        → count p f.utxos ≤ count (λ u. is_usable money sources u && p u) credits
    pub spendable : count is_unspendable f.utxos ≡ 0
    pub sum : money.int_value f.found ≡ total worth f.utxos
    pub enough :
        min (money.int_value amount) (total worth (items selector)) ≤ money.int_value f.found

  keep_le :
      (credits : List (Utxo A))
      → total worth (keep (is_usable money sources) credits) ≤ total worth credits
  keep_le credits = total_le worth (keep (is_usable money sources) credits) credits λ p. omega (
    arith,
    count-keep p (is_usable money sources) credits,
    count_mono (λ u. is_usable money sources u && p u) p (λ u e. ground arith) credits,
  )

  sort-count :
      IsReordering
      → (p : Utxo A → Bool) (us : List (Utxo A)) → count p (sources.sort_utxos us) ≡ count p us
  sort-count reorder p us = omega (
    arith,
    count-total p (sources.sort_utxos us),
    count-total p us,
    reorder (λ x. weight (p x)) us,
  )

  -- from the calls' values on
  select-IsSelection :
      (addresses scripts : List Bytes) (amount : A) (credits : List (Utxo A))
      (s : TopKSelector (Utxo A)) (r : List (Utxo A) × A × A) (first : Bytes) (overfull : Bool)
      → IsReordering
      → total worth credits ≤ max_amount
      → 0 < money.int_value amount
      → script_set money sources addresses ≡ ok scripts
      → sources.unspents scripts ≡ ok credits
      → submit_all worth
          (new_top_k_selector sources.max_standard_tx_size (money.int_value amount))
          (keep (is_usable money sources) credits)
        ≡ ok s
      → IsChoice worth s (keep (is_usable money sources) credits)
      → opt_outputs money (λ u. u.amount) amount (sources.sort_utxos (items s)) ≡ ok r
      → IsSelection addresses amount
          (record { utxos = r.0; first_addr = first; found = r.1; overfull = overfull })
  select-IsSelection addresses scripts amount credits s r first overfull reorder bound h e4 e5 e6 v
        e2 =
      let usable = keep (is_usable money sources) credits in
      let among = items_among worth s usable v in
      let fits : total worth (sources.sort_utxos (items s)) ≤ max_amount =
        omega (
          arith,
          reorder worth (items s),
          total_le worth (items s) usable among,
          keep_le credits,
        ) in
      let post =
        Returns-ok
          (opt_outputs_covers money (λ u. u.amount) amount max_amount laws
            (sources.sort_utxos (items s)) h fits)
          e2 in
      record {
        scripts = scripts;
        credits = credits;
        selector = s;
        resolved = e4;
        scanned = e5;
        submitted = e6;
        chosen = v;
        once = λ p. omega (
          arith,
          post.1 p,
          sort-count reorder p (items s),
          among p,
          count-keep p (is_usable money sources) credits,
        );
        spendable = omega (
          arith,
          post.1 is_unspendable,
          sort-count reorder is_unspendable (items s),
          among is_unspendable,
          count-keep is_unspendable (is_usable money sources) credits,
          count_none (λ u. is_usable money sources u && is_unspendable u) usable_or_not credits,
        );
        sum = post.0;
        enough = omega (arith, post.2, reorder worth (items s));
      }

  -- Where findEligibleUtxos returns, what it selects is among the outputs that the scan of the
  -- addresses' scripts found, none more often than it was found, and none is spent, flagged as
  -- spent by an unmined transaction, immature, of a staking or binding, used, or spent in the
  -- pool. The sum that it returns is that of the selection, and not less than the amount, or than
  -- what a new selector for that amount keeps of all the usable outputs found. sort.Slice
  -- reorders, what a scan finds fits in an amount, and the arithmetic of amounts behaves as
  -- documented.
  pub find_eligible_utxos-IsSelection :
      IsReordering
      → IsBounded
      → (addresses : List Bytes) (amount : A) (f : Found A (Utxo A))
      → find_eligible_utxos money sources addresses amount ≡ ok f
      → IsSelection addresses amount f
  unfolding find_eligible_utxos get_utxos_exclude_binding_and_staking
  find_eligible_utxos-IsSelection reorder bounded addresses amount f e =
      elim (if-ok (length addresses == 0) _ _ f e) [
        | inl none_given ↦ absurd (ground arith)
        | inr given ↦ elim (if-ok (money.int_value amount == 0) _ _ f given.1) [
          | inl nothing ↦ absurd (ground arith)
          | inr some_amount ↦
              let (g, e1, r1) =
                and_then-ok (get_utxos_exclude_binding_and_staking money sources addresses amount) _
                  f some_amount.1 in
              let (r, e2, r2) =
                and_then-ok (opt_outputs money (λ u. u.amount) amount (sources.sort_utxos g.0)) _ f
                  r1 in
              let (first, e3, r3) =
                and_then-ok (first_address money sources addresses r.0) _ f r2 in
              let (scripts, e4, r4) = and_then-ok (script_set money sources addresses) _ g e1 in
              let (credits, e5, r5) = and_then-ok (sources.unspents scripts) _ g r4 in
              let (s, e6, r6) =
                and_then-ok
                  (submit_all worth
                    (new_top_k_selector sources.max_standard_tx_size (money.int_value amount))
                    (keep (is_usable money sources) credits))
                  _ g r5 in
              let chosen =
                Returns-ok
                  (submit_all-new_top_k_selector worth sources.max_standard_tx_size
                    (money.int_value amount) (keep (is_usable money sources) credits))
                  e6 in
              let same : g.0 ≡ items s =
                at_result (λ (t : List (Utxo A) × Bool). t.0 ≡ items s) r6 refl in
              let e7 : opt_outputs money (λ u. u.amount) amount (sources.sort_utxos (items s))
                  ≡ ok r =
                subst
                  (λ us. opt_outputs money (λ u. u.amount) amount (sources.sort_utxos us) ≡ ok r)
                  same e2 in
              at_result (IsSelection addresses amount) r3 (
                select-IsSelection addresses scripts amount credits s r first _ reorder
                  (bounded scripts credits e5) (ground arith) e4 e5 e6 chosen.2 e7)
        ]
      ]
