-- ===== src/Txmgr/Credits/Values.antt =====
-- The keys and the values of credits are read back as they were written.
use mass_net_wallet.Prelude.{
  ℕ, ◌/◌, ◌^◌, ◌<◌, ◌≡◌, refl, sym, ap, ◌∙◌, Bool, true, false, not, [], ◌∷◌, ◌++◌, arith, ltb,
  ◌==◌, length, length-append, append_assoc, append-nil, bit_and, get_or,
}
use mass_net_wallet.Prelude.Bytes.{
  Bytes, put_be, slice, be-put_be, length-put_be, slice-append_skip, slice-append_head, slice_self,
  get_or-append_skip, lengths,
}
use mass_net_wallet.Prelude.Exec.{Result, ok, and_then}
use mass_net_wallet.Txmgr.{
  Hash, IsHash, BlockMeta, IsBlockMeta, Amounts, IsAmounts, Credit, UtxoClass, standard, staking,
  binding, unknown,
}
use mass_net_wallet.Txmgr.Credits.{
  key_credit, flag_byte, is_class_staking, is_class_binding, credit_value, class_of,
  read_raw_credit_key, value_unspent_credit, read_credit_value,
}

module _ (h : Hash) (i : ℕ) (m : BlockMeta) (eh : IsHash h) (em : IsBlockMeta m) where
  pub length-key_credit : length (key_credit h i m) ≡ 76
  unfolding key_credit
  length-key_credit = omega (lengths, em.hash_len)

  slice-key_credit_height : slice 32 40 (key_credit h i m) ≡ put_be 8 m.height
  unfolding key_credit
  slice-key_credit_height =
      slice-append_skip 32 40 h _ eh (omega arith)
      ∙ slice-append_head 8 (put_be 8 m.height) _ (length-put_be 8 m.height)

  slice-key_credit_block : slice 40 72 (key_credit h i m) ≡ m.hash
  unfolding key_credit
  slice-key_credit_block =
      slice-append_skip 40 72 h _ eh (omega arith)
      ∙ slice-append_skip 8 40 (put_be 8 m.height) _ (length-put_be 8 m.height) (omega arith)
      ∙ slice-append_head 32 m.hash (put_be 4 i) em.hash_len

  slice-key_credit_index : slice 72 76 (key_credit h i m) ≡ put_be 4 i
  unfolding key_credit
  slice-key_credit_index =
      slice-append_skip 72 76 h _ eh (omega arith)
      ∙ slice-append_skip 40 44 (put_be 8 m.height) _ (length-put_be 8 m.height) (omega arith)
      ∙ slice-append_skip 32 36 m.hash (put_be 4 i) em.hash_len (omega arith)
      ∙ slice_self 4 (put_be 4 i) (length-put_be 4 i)

  -- A credit's key gives back the outpoint and the block that it was made from, for a 32-byte
  -- hash, a 32-bit index and a valid block.
  pub read-key_credit :
      {A : Type 0} (c : Credit A)
      → i < 2 ^ 32
      → read_raw_credit_key (key_credit h i m) c
        ≡ ok (record c {
          out_point = record { hash = h; index = i };
          block = record m { timestamp = c.block.timestamp };
        })
  unfolding read_raw_credit_key
  read-key_credit c hi =
      let hash : slice 0 32 (key_credit h i m) ≡ h =
        unfold key_credit in slice-append_head 32 h _ eh in
      ground (
        arith,
        length-key_credit,
        hash,
        slice-key_credit_height,
        slice-key_credit_block,
        slice-key_credit_index,
        be-put_be 8 m.height em.height_lt,
        be-put_be 4 i hi,
      )

-- The parts of a credit's value, whatever follows them.
module _ (amount flag maturity : ℕ) (sh rest : Bytes) (e : length sh ≡ 32) where
  whole : Bytes
  whole = credit_value amount flag maturity sh ++ rest

  whole-parts : whole ≡ put_be 8 amount ++ ((flag ∷ []) ++ (put_be 4 maturity ++ (sh ++ rest)))
  unfolding whole credit_value
  whole-parts =
      append_assoc (put_be 8 amount) _ rest
      ∙ ap (λ (t : Bytes). put_be 8 amount ++ (flag ∷ t)) (append_assoc (put_be 4 maturity) sh rest)

  pub length-credit_value : length (credit_value amount flag maturity sh) ≡ 45
  unfolding credit_value
  length-credit_value = omega lengths

  pub slice-credit_value_amount :
      slice 0 8 (credit_value amount flag maturity sh ++ rest) ≡ put_be 8 amount
  unfolding whole
  slice-credit_value_amount =
      ap (slice 0 8) whole-parts ∙ slice-append_head 8 (put_be 8 amount) _ (length-put_be 8 amount)

  pub get_or-credit_value_flag : get_or (credit_value amount flag maturity sh ++ rest) 8 0 ≡ flag
  unfolding whole
  get_or-credit_value_flag =
      ap (λ (t : Bytes). get_or t 8 0) whole-parts
      ∙ get_or-append_skip 8 (put_be 8 amount) _ (length-put_be 8 amount) (omega arith)

  pub slice-credit_value_maturity :
      slice 9 13 (credit_value amount flag maturity sh ++ rest) ≡ put_be 4 maturity
  unfolding whole
  slice-credit_value_maturity =
      ap (slice 9 13) whole-parts
      ∙ slice-append_skip 9 13 (put_be 8 amount) _ (length-put_be 8 amount) (omega arith)
      ∙ slice-append_skip 1 5 (flag ∷ []) _ refl (omega arith)
      ∙ slice-append_head 4 (put_be 4 maturity) _ (length-put_be 4 maturity)

  pub slice-credit_value_script : slice 13 45 (credit_value amount flag maturity sh ++ rest) ≡ sh
  unfolding whole
  slice-credit_value_script =
      ap (slice 13 45) whole-parts
      ∙ slice-append_skip 13 45 (put_be 8 amount) _ (length-put_be 8 amount) (omega arith)
      ∙ slice-append_skip 5 37 (flag ∷ []) _ refl (omega arith)
      ∙ slice-append_skip 4 36 (put_be 4 maturity) _ (length-put_be 4 maturity) (omega arith)
      ∙ slice-append_head 32 sh rest e

-- the class that a stored credit is read with
abbrev pub stored_class : UtxoClass → UtxoClass
stored_class standard = standard
stored_class staking = staking
stored_class binding = binding
stored_class unknown = standard

module _ {A : Type 0} (amounts : Amounts A) (laws : IsAmounts amounts) where
  -- what `read_credit_value` makes of a flag byte
  unfoldable pub read_flags : A → ℕ → Bytes → ℕ → Credit A → Result (Credit A)
  read_flags a maturity sh flag d = and_then (class_of (bit_and flag 12 / 4)) λ c. ok (record d {
    amount = a;
    maturity = maturity;
    script_hash = sh;
    flags = record (d.flags) {
      spent = not (bit_and flag 1 == 0);
      change = not (bit_and flag 2 == 0);
      utxo_class = c;
    };
  })

  pub read-credit_value :
      (a : A) (flag maturity : ℕ) (sh rest : Bytes) (d : Credit A)
      → length sh ≡ 32
      → maturity < 2 ^ 32
      → read_credit_value amounts (credit_value (amounts.uint_value a) flag maturity sh ++ rest) d
        ≡ read_flags a maturity sh flag d
  unfolding read_credit_value read_flags
  read-credit_value a flag maturity sh rest d e hm =
      let n = amounts.uint_value a in
      let v = credit_value n flag maturity sh in
      let long : ltb (length (v ++ rest)) 45 ≡ false =
        ground (arith, length-append v rest, length-credit_value n flag maturity sh rest e) in
      rw (
        long,
        slice-credit_value_amount n flag maturity sh rest e,
        be-put_be 8 n (laws.uint_value-lt a),
        laws.from_uint-uint_value a,
        get_or-credit_value_flag n flag maturity sh rest e,
        slice-credit_value_maturity n flag maturity sh rest e,
        be-put_be 4 maturity hm,
        slice-credit_value_script n flag maturity sh rest e,
      )

value_unspent_credit-eq-ok :
    {A : Type 0} (amounts : Amounts A) (c : Credit A) {v : Bytes}
    → value_unspent_credit amounts c ≡ ok v
    → (length c.script_hash ≡ 32)
      × (v
          ≡ credit_value
              (amounts.uint_value c.amount)
              (flag_byte c.flags.change
                (is_class_staking c.flags.utxo_class)
                (is_class_binding c.flags.utxo_class))
              c.maturity
              c.script_hash)
unfolding value_unspent_credit
value_unspent_credit-eq-ok amounts c e = ground arith

read_flags-flag_byte :
    {A : Type 0} (amounts : Amounts A) (laws : IsAmounts amounts) (a : A) (maturity : ℕ)
    (sh : Bytes) (ch : Bool) (k : UtxoClass) (d : Credit A)
    → read_flags amounts laws a maturity sh
        (flag_byte ch (is_class_staking k) (is_class_binding k))
        d
      ≡ ok (record d {
        amount = a;
        maturity = maturity;
        script_hash = sh;
        flags = record (d.flags) { spent = false; change = ch; utxo_class = stored_class k };
      })
unfolding read_flags flag_byte class_of is_class_staking is_class_binding
read_flags-flag_byte amounts laws a maturity sh true standard d = refl
read_flags-flag_byte amounts laws a maturity sh true staking d = refl
read_flags-flag_byte amounts laws a maturity sh true binding d = refl
read_flags-flag_byte amounts laws a maturity sh true unknown d = refl
read_flags-flag_byte amounts laws a maturity sh false standard d = refl
read_flags-flag_byte amounts laws a maturity sh false staking d = refl
read_flags-flag_byte amounts laws a maturity sh false binding d = refl
read_flags-flag_byte amounts laws a maturity sh false unknown d = refl

-- Where a mined credit has a value and its maturity fits in 32 bits, the amount, maturity, script
-- hash, change flag and class are read back from the value, unspent; a class that has no bit is
-- read as standard.
pub read-value_unspent_credit :
    {A : Type 0} (amounts : Amounts A) (laws : IsAmounts amounts) (c d : Credit A) {v : Bytes}
    → c.maturity < 2 ^ 32
    → value_unspent_credit amounts c ≡ ok v
    → read_credit_value amounts v d
      ≡ ok (record d {
        amount = c.amount;
        maturity = c.maturity;
        script_hash = c.script_hash;
        flags = record (d.flags) {
          spent = false;
          change = c.flags.change;
          utxo_class = stored_class c.flags.utxo_class;
        };
      })
read-value_unspent_credit amounts laws c d {v} hm e =
    let (len, shape) = value_unspent_credit-eq-ok amounts c e in
    let k = c.flags.utxo_class in
    let flag = flag_byte c.flags.change (is_class_staking k) (is_class_binding k) in
    ap (λ (w : Bytes). read_credit_value amounts w d) (shape ∙ sym (append-nil _))
    ∙ read-credit_value amounts laws c.amount flag c.maturity c.script_hash [] d len hm
    ∙ read_flags-flag_byte amounts laws c.amount c.maturity c.script_hash c.flags.change k d
