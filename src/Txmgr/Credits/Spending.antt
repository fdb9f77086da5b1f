-- ===== src/Txmgr/Credits/Spending.antt =====
-- Spending a credit, spending it again, and taking the spending back.
use mass_net_wallet.Prelude.{
  ℕ, zero, suc, ◌<◌, ◌≡◌, refl, sym, ap, ◌∙◌, Bool, true, false, some, [], ◌∷◌, ◌++◌, arith, ◌==◌,
  length, take, append_assoc, append-nil, bit_and, bit_or, get_or, set, replicate,
  take-append_length,
}
use mass_net_wallet.Prelude.Bytes.{
  Bytes, put_be, be, slice, field, be-put_be, length-put_be, lengths,
}
use mass_net_wallet.Prelude.Exec.{ok, err, short, state-lift, ◌>>=◌}
use mass_net_wallet.Db.{Bucket, IsBucket}
use mass_net_wallet.Db.Rules.{get-put_self}
use mass_net_wallet.Txmgr.{IndexedIncidence, Amounts, IsAmounts, Credit}
use mass_net_wallet.Txmgr.Credits.{
  value_unspent_credit, is_class_staking, is_class_binding, key_credit, flag_byte, credit_value,
  spent_value, unspent_value, spend_credit, unspend_raw_credit, unspend_found, read_credit_value,
  blank_credit, put_raw_credit,
}
use mass_net_wallet.Txmgr.Credits.Values.{
  length-credit_value, slice-credit_value_amount, get_or-credit_value_flag,
}

set-append : (xs ys : Bytes) (i y x : ℕ) → length xs ≡ i → set (xs ++ (y ∷ ys)) i x ≡ xs ++ (x ∷ ys)
set-append [] ys zero y x e = refl
set-append [] ys (suc i) y x e = absurd (omega arith)
set-append (z ∷ xs) ys zero y x e = absurd (omega arith)
set-append (z ∷ xs) ys (suc i) y x e =
    ap (λ (t : Bytes). z ∷ t) (set-append xs ys i y x (omega arith))

set-credit_value :
    (n flag x m : ℕ) (sh : Bytes) → set (credit_value n flag m sh) 8 x ≡ credit_value n x m sh
unfolding credit_value
set-credit_value n flag x m sh =
    set-append (put_be 8 n) (put_be 4 m ++ sh) 8 flag x (length-put_be 8 n)

-- the 76 bytes behind a spent credit
tail_of : IndexedIncidence → Bytes
tail_of sp = key_credit sp.tx_hash sp.index sp.block

module _ (n flag m : ℕ) (sh : Bytes) (e : length sh ≡ 32) where
  value_of : Bytes
  value_of = credit_value n flag m sh

  flag-value_of : get_or value_of 8 0 ≡ flag
  unfolding value_of
  flag-value_of =
      ap (λ (t : Bytes). get_or t 8 0) (sym (append-nil (credit_value n flag m sh)))
      ∙ get_or-credit_value_flag n flag m sh [] e

  spent_value-credit_value :
      (sp : IndexedIncidence)
      → spent_value value_of sp ≡ credit_value n (bit_or flag 1) m sh ++ tail_of sp
  unfolding spent_value tail_of key_credit
  spent_value-credit_value sp =
      ap (λ (f : ℕ). set value_of 8 (bit_or f 1) ++ key_credit sp.tx_hash sp.index sp.block)
        flag-value_of
      ∙ ap (λ (t : Bytes). t ++ key_credit sp.tx_hash sp.index sp.block)
          (unfold value_of in set-credit_value n flag (bit_or flag 1) m sh)

  field-value_of : (rest : Bytes) → field 45 (value_of ++ rest) ≡ value_of
  unfolding field value_of
  field-value_of rest =
      ap (take 45) (append_assoc value_of rest (replicate 45 0))
      ∙ ap (λ (k : ℕ). take k (value_of ++ (rest ++ replicate 45 0)))
          (sym (length-credit_value n flag m sh [] e))
      ∙ take-append_length value_of (rest ++ replicate 45 0)

  unspent_value-credit_value :
      (rest : Bytes) → unspent_value (value_of ++ rest) ≡ credit_value n (bit_and flag 254) m sh
  unfolding unspent_value
  unspent_value-credit_value rest =
      ap (λ (w : Bytes). set w 8 (bit_and (get_or w 8 0) 254)) (field-value_of rest)
      ∙ ap (λ (f : ℕ). set value_of 8 (bit_and f 254)) flag-value_of
      ∙ unfold value_of in set-credit_value n flag (bit_and flag 254) m sh

-- A flag byte that a new credit can have: the spent bit goes on and off without touching the rest.
flag_byte-spent_twice : (a b c : Bool) → bit_and (bit_or (flag_byte a b c) 1) 254 ≡ flag_byte a b c
unfolding flag_byte
flag_byte-spent_twice true true true = refl
flag_byte-spent_twice true true false = refl
flag_byte-spent_twice true false true = refl
flag_byte-spent_twice true false false = refl
flag_byte-spent_twice false true true = refl
flag_byte-spent_twice false true false = refl
flag_byte-spent_twice false false true = refl
flag_byte-spent_twice false false false = refl

-- the flags that a new credit is stored with
unfoldable pub flags_of : {A : Type 0} → Credit A → ℕ
flags_of c =
    flag_byte c.flags.change (is_class_staking c.flags.utxo_class)
      (is_class_binding c.flags.utxo_class)

-- the value that a new credit has, and the one that it has once it is spent
unfoldable pub fresh : {A : Type 0} → Amounts A → Credit A → Bytes
fresh amounts c = credit_value (amounts.uint_value c.amount) (flags_of c) c.maturity c.script_hash

unfoldable pub used : {A : Type 0} → Amounts A → Credit A → IndexedIncidence → Bytes
unfolding tail_of
used amounts c sp =
    credit_value (amounts.uint_value c.amount) (bit_or (flags_of c) 1) c.maturity c.script_hash
    ++ tail_of sp

value_unspent_credit-fresh :
    {A : Type 0} (amounts : Amounts A) (c : Credit A)
    → length c.script_hash ≡ 32
    → value_unspent_credit amounts c ≡ ok (fresh amounts c)
unfolding value_unspent_credit fresh flags_of
value_unspent_credit-fresh amounts c e = ground arith

flags_of-spent_twice :
    {A : Type 0} (c : Credit A) → bit_and (bit_or (flags_of c) 1) 254 ≡ flags_of c
unfolding flags_of
flags_of-spent_twice c =
    flag_byte-spent_twice c.flags.change (is_class_staking c.flags.utxo_class)
      (is_class_binding c.flags.utxo_class)

module _ {S A : Type 0} (ns : Bucket S) {Ready : ℕ → S → Type 0} (laws : IsBucket ns Ready)
    (amounts : Amounts A) (amount_laws : IsAmounts amounts) (n : ℕ) (k : Bytes) (c : Credit A)
    (pos : 0 < length k) (e : length c.script_hash ≡ 32) where
  length-fresh : length (fresh amounts c) ≡ 45
  unfolding fresh
  length-fresh =
      length-credit_value (amounts.uint_value c.amount) (flags_of c) c.maturity c.script_hash [] e

  spent_value-fresh : (sp : IndexedIncidence) → spent_value (fresh amounts c) sp ≡ used amounts c sp
  unfolding fresh used value_of
  spent_value-fresh sp =
      spent_value-credit_value (amounts.uint_value c.amount) (flags_of c) c.maturity c.script_hash e
        sp

  length-used : (sp : IndexedIncidence) → 45 < length (used amounts c sp)
  unfolding used tail_of key_credit
  length-used sp =
      let n' = amounts.uint_value c.amount in
      let f = bit_or (flags_of c) 1 in
      omega (lengths, length-credit_value n' f c.maturity c.script_hash [] e)

  amount-fresh : be (slice 0 8 (fresh amounts c)) ≡ amounts.uint_value c.amount
  unfolding fresh
  amount-fresh =
      let f = flags_of c in
      ap (λ (t : Bytes). be (slice 0 8 t))
        (sym (append-nil (credit_value (amounts.uint_value c.amount) f c.maturity c.script_hash)))
      ∙ ap be
          (slice-credit_value_amount (amounts.uint_value c.amount) f c.maturity c.script_hash [] e)
      ∙ be-put_be 8 (amounts.uint_value c.amount) (amount_laws.uint_value-lt c.amount)

  module _ (sp : IndexedIncidence) (s : S) (r : Ready (suc n) s)
      (g : ns.get k s ≡ ok (some (fresh amounts c))) where
    spend-eq : spend_credit ns amounts k sp s ≡ (ok c.amount, (ns.put k (used amounts c sp) s).1)
    unfolding spend_credit put_raw_credit ◌>>=◌
    spend-eq = rw (
      g,
      length-fresh,
      amount-fresh,
      amount_laws.from_uint-uint_value c.amount,
      spent_value-fresh sp,
      (laws.put_lem n k (used amounts c sp) s r pos (omega (arith, length-used sp))).0,
    )

    -- In a ready store, spending a credit that is stored as new gives its amount and stores it as
    -- spent, with its spender; the store takes one write less.
    pub spend_credit_fresh :
        ((spend_credit ns amounts k sp s).0 ≡ ok c.amount)
        × (ns.get k (spend_credit ns amounts k sp s).1 ≡ ok (some (used amounts c sp)))
        × Ready n (spend_credit ns amounts k sp s).1
    spend_credit_fresh =
        let full : 0 < length (used amounts c sp) = omega (arith, length-used sp) in
        rw spend-eq (
          refl,
          get-put_self ns laws n k s (used amounts c sp) r pos full g,
          (laws.put_lem n k (used amounts c sp) s r pos full).1,
        )

  -- A credit that is stored as spent is not spent again: the second spending fails and writes
  -- nothing.
  pub spend_credit_used :
      (sp sq : IndexedIncidence) (s : S)
      → ns.get k s ≡ ok (some (used amounts c sp))
      → spend_credit ns amounts k sq s ≡ (err short, s)
  unfolding spend_credit ◌>>=◌
  spend_credit_used sp sq s g =
      let long : (length (used amounts c sp) == 45) ≡ false = ground (arith, length-used sp) in
      rw (g, long)

  unspent_value-used :
      (sp : IndexedIncidence) → unspent_value (used amounts c sp) ≡ (fresh amounts c)
  unfolding used fresh
  unspent_value-used sp =
      let n' = amounts.uint_value c.amount in
      let f = flags_of c in
      unfold value_of in
      unspent_value-credit_value n' (bit_or f 1) c.maturity c.script_hash e (tail_of sp)
      ∙ ap (λ (x : ℕ). credit_value n' x c.maturity c.script_hash) (flags_of-spent_twice c)

  unspend_eq :
      (start : A) (sp : IndexedIncidence) (s : S)
      → Ready (suc n) s
      → ns.get k s ≡ ok (some (used amounts c sp))
      → (unspend_raw_credit ns amounts start k s).1 ≡ (ns.put k (fresh amounts c) s).1
  unfolding unspend_raw_credit unspend_found ◌>>=◌
  unspend_eq start sp s r g =
      let full : 0 < length (fresh amounts c) = omega (arith, length-fresh) in
      rw (g, unspent_value-used sp, (laws.put_lem n k (fresh amounts c) s r pos full).0)
        (state-lift (read_credit_value amounts (fresh amounts c) (blank_credit start))
          (λ (d : Credit A). some d) (ns.put k (fresh amounts c) s).1)

  -- In a ready store, unspending a credit that was spent stores again, byte for byte, what it was
  -- before.
  pub unspend_credit_used :
      (start : A) (sp : IndexedIncidence) (s : S)
      → Ready (suc n) s
      → ns.get k s ≡ ok (some (used amounts c sp))
      → ns.get k (unspend_raw_credit ns amounts start k s).1 ≡ ok (some (fresh amounts c))
  unspend_credit_used start sp s r g =
      rw (unspend_eq start sp s r g)
        (get-put_self ns laws n k s (fresh amounts c) r pos (omega (arith, length-fresh)) g)
