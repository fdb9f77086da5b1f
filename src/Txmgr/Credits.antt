-- ===== src/Txmgr/Credits.antt =====
-- masswallet/txmgr/utxostore_db.go: bucketCredits and bucketUnminedCredits. A credit's value is
-- 45 bytes while it is unspent; spending it sets a flag and appends 76 bytes, the spender's debit key.
pub mod Values
pub mod Spending
pub mod Latest
use mass_net_wallet.Prelude.{
  ℕ, zero, suc, ◌+◌, ◌/◌, ◌≡◌, Bool, true, false, not, ◌&&◌, ◌||◌, Option, none, some, List, [],
  ◌∷◌, ◌++◌, ltb, leb, ◌==◌, if◌then◌else◌, length, take, drop, get_or, set, bit_and, bit_or,
}
use mass_net_wallet.Prelude.Bytes.{Bytes, put_be, be, slice, field}
use mass_net_wallet.Prelude.Exec.{
  short, unknown_class, panic, Error, Result, ok, err, Exec, pure, raise, reads, lift, wrap, ◌>>=◌,
  ◌>>◌, and_then,
}
use mass_net_wallet.Db.{Bucket, Entry}
use mass_net_wallet.Txmgr.{
  Hash, OutPoint, BlockMeta, IndexedIncidence, UtxoClass, standard, staking, binding, UtxoFlags,
  Amounts, Credit,
}

unfoldable pub key_credit : Hash → ℕ → BlockMeta → Bytes
key_credit tx_hash index block =
    tx_hash ++ (put_be 8 block.height ++ (block.hash ++ put_be 4 index))

-- the byte of flags that the two `value...Credit` functions write
unfoldable pub flag_byte : Bool → Bool → Bool → ℕ
flag_byte change is_staking is_binding =
    let a = if change then bit_or 0 2 else 0 in
    let b = if is_staking then bit_or a 4 else a in if is_binding then bit_or b 8 else b

unfoldable pub is_class_staking : UtxoClass → Bool
is_class_staking staking = true
is_class_staking _ = false

unfoldable pub is_class_binding : UtxoClass → Bool
is_class_binding binding = true
is_class_binding _ = false

-- what an unspent credit, mined or not, is stored as
unfoldable pub credit_value : ℕ → ℕ → ℕ → Bytes → Bytes
credit_value amount flag maturity script_hash =
    put_be 8 amount ++ ((flag ∷ []) ++ (put_be 4 maturity ++ script_hash))

-- the decoding of the two class bits
unfoldable pub class_of : ℕ → Result UtxoClass
class_of f =
    if f == 0
    then ok standard
    else if f == 1
    then ok staking
    else if f == 2
    then ok binding
    else err unknown_class

-- The readers of a key keep the other fields of the credit.
unfoldable pub read_raw_credit_key : {A : Type 0} → Bytes → Credit A → Result (Credit A)
read_raw_credit_key k cred =
    if ltb (length k) 76
    then err short
    else ok (record cred {
      out_point = record { hash = slice 0 32 k; index = be (slice 72 76 k) };
      block = record (cred.block) { height = be (slice 32 40 k); hash = slice 40 72 k };
    })

unfoldable pub read_unmined_credit_key : {A : Type 0} → Bytes → Credit A → Result (Credit A)
read_unmined_credit_key k cred =
    if not (length k == 36)
    then err short
    else ok (record cred { out_point = record { hash = slice 0 32 k; index = be (slice 32 36 k) } })

unfoldable pub value_unmined_credit_from_mined : Bytes → Result Bytes
value_unmined_credit_from_mined v = if ltb (length v) 45 then err short else ok (slice 0 45 v)

-- nil where there is no spender
unfoldable pub read_credit_spender : Bytes → Option Bytes
read_credit_spender v = if ltb (length v) 121 then none else some (field 76 (slice 45 121 v))

unfoldable pub fetch_tx_record_key_from_raw_credit_key : Bytes → Result Bytes
fetch_tx_record_key_from_raw_credit_key k =
    if ltb (length k) 72 then err short else ok (slice 0 72 k)

unfoldable pub fetch_raw_credit_maturity_script_hash : Bytes → Result (ℕ × Bytes)
fetch_raw_credit_maturity_script_hash v =
    if ltb (length v) 45 then err short else ok (be (slice 9 13 v), slice 13 45 v)

module _ {A : Type 0} (amounts : Amounts A) where
  unfoldable pub value_unspent_credit : Credit A → Result Bytes
  unfolding flag_byte is_class_staking is_class_binding credit_value
  value_unspent_credit cred =
      if not (length cred.script_hash == 32)
      then err short
      else ok (
          credit_value (amounts.uint_value cred.amount)
            (flag_byte cred.flags.change (is_class_staking cred.flags.utxo_class)
              (is_class_binding cred.flags.utxo_class))
            cred.maturity cred.script_hash)

  -- `ps_staking` and `ps_binding` are what the script answers.
  unfoldable pub value_unmined_credit : A → Bool → ℕ → Bytes → Bool → Bool → Result Bytes
  unfolding flag_byte credit_value
  value_unmined_credit amount change maturity script_hash ps_staking ps_binding =
      if not (length script_hash == 32)
      then err short
      else ok (
          credit_value (amounts.uint_value amount) (flag_byte change ps_staking ps_binding) maturity
            script_hash)

  -- It fills the fields that a value has and keeps the others; its writes before an error are
  -- dropped by every caller.
  unfoldable pub read_credit_value : Bytes → Credit A → Result (Credit A)
  unfolding class_of
  read_credit_value v cred =
      if ltb (length v) 45
      then err short
      else and_then (amounts.from_uint (be (slice 0 8 v))) λ amount.
        let flag = get_or v 8 0 in
        and_then (class_of (bit_and flag 12 / 4)) λ c. ok (record cred {
          amount = amount;
          maturity = be (slice 9 13 v);
          script_hash = slice 13 45 v;
          flags = record (cred.flags) {
            spent = not (bit_and flag 1 == 0);
            change = not (bit_and flag 2 == 0);
            utxo_class = c;
          };
        })

  unfoldable pub fetch_raw_credit_amount_spent : Bytes → Result (A × Bool)
  fetch_raw_credit_amount_spent v =
      if ltb (length v) 45
      then err short
      else and_then (amounts.from_uint (be (slice 0 8 v)))
          λ amt. ok (amt, not (bit_and (get_or v 8 0) 1 == 0))

-- the value with its first flag set, and the spender behind it
unfoldable pub spent_value : Bytes → IndexedIncidence → Bytes
spent_value v spender =
    set v 8 (bit_or (get_or v 8 0) 1)
    ++ (spender.tx_hash
        ++ (put_be 8 spender.block.height ++ (spender.block.hash ++ put_be 4 spender.index)))

-- the first 45 bytes with the first flag cleared
unfoldable pub unspent_value : Bytes → Bytes
unspent_value v = let w = field 45 v in set w 8 (bit_and (get_or w 8 0) 254)

unfoldable pub or_nil : Option Bytes → Bytes
or_nil none = []
or_nil (some v) = v

unfoldable pub blank_credit : {A : Type 0} → A → Credit A
blank_credit a = record {
  out_point = record { hash = []; index = 0 };
  block = record { height = 0; hash = []; timestamp = 0 };
  amount = a;
  maturity = 0;
  script_hash = [];
  flags = record {
    spent = false;
    spent_by_unmined = false;
    change = false;
    is_unmined = false;
    utxo_class = standard;
  };
}

module _ {S : Type 0} (ns : Bucket S) where
  unfoldable pub exists_raw_unmined_credit : Bytes → S → Result (Option Bytes)
  exists_raw_unmined_credit k s = if ltb (length k) 36 then err short else ns.get k s

  unfoldable pub delete_raw_unmined_credit : Bytes → Exec S (Unit {0})
  delete_raw_unmined_credit k = wrap (ns.delete k)

  unfoldable pub put_raw_unmined_credit : Bytes → Bytes → Exec S (Unit {0})
  put_raw_unmined_credit k v = wrap (ns.put k v)

  unfoldable pub exists_credit : Hash → ℕ → BlockMeta → S → Result (Bytes × Option Bytes)
  exists_credit tx_hash index block s =
      let k = key_credit tx_hash index block in and_then (ns.get k s) λ v. ok (k, v)

  unfoldable pub exists_raw_credit : Bytes → S → Result (Option Bytes)
  exists_raw_credit k s = ns.get k s

  unfoldable pub put_raw_credit : Bytes → Bytes → Exec S (Unit {0})
  put_raw_credit k v = wrap (ns.put k v)

  unfoldable pub delete_raw_credit : Bytes → Exec S (Unit {0})
  delete_raw_credit k = wrap (ns.delete k)

  module _ {A : Type 0} (amounts : Amounts A) where
    unfoldable pub spend_credit : Bytes → IndexedIncidence → Exec S A
    unfolding spent_value or_nil put_raw_credit
    spend_credit cred_key spender = do
      found ← reads (ns.get cred_key)
      let v = or_nil found
      if not (length v == 45) then raise short else do
        amount ← lift (amounts.from_uint (be (slice 0 8 v)))
        put_raw_credit cred_key (spent_value v spender)
        pure amount

    -- nil where there is no such credit; `start` is the amount of a credit before it is read
    unfoldable pub unspend_found : A → Bytes → Option Bytes → Exec S (Option (Credit A))
    unfolding unspent_value blank_credit
    unspend_found start cred_key none = pure none
    unspend_found start cred_key (some v) = do
      wrap (ns.put cred_key (unspent_value v))
      c ← lift (read_credit_value amounts (unspent_value v) (blank_credit start))
      pure (some c)

    unfoldable pub unspend_raw_credit : A → Bytes → Exec S (Option (Credit A))
    unfolding unspend_found
    unspend_raw_credit start cred_key = do
      found ← reads (ns.get cred_key)
      unspend_found start cred_key found

  unfoldable pub get_credits_by_tx_hash : Hash → S → Result (List Entry)
  get_credits_by_tx_hash tx_sha s = ns.get_by_prefix tx_sha s

  -- The map from indexes to entries: a later entry replaces an earlier one.
  by_index : List Entry → ℕ → Option Entry
  by_index [] i = none
  by_index (e ∷ es) i = elim (by_index es i) [
    | some later ↦ some later
    | none ↦ if be (slice 72 76 e.key) == i then some e else none
  ]

  -- A shorter key panics where its index is read.
  are_credit_keys : List Entry → Bool
  are_credit_keys [] = true
  are_credit_keys (e ∷ es) = let rest = are_credit_keys es in leb 76 (length e.key) && rest

  unfoldable pub get_credits_by_tx_hash_height : Hash → ℕ → S → Result (ℕ → Option Entry)
  unfolding by_index are_credit_keys
  get_credits_by_tx_hash_height tx_sha height s =
      if not (length tx_sha == 32)
      then err short
      else and_then (ns.get_by_prefix (tx_sha ++ put_be 8 height) s)
          λ entries. if are_credit_keys entries then ok (by_index entries) else err panic

  -- the loop of getLastCreditByTxHashIndexTillHeight
  last_loop : ℕ → ℕ → ℕ → Option Entry → List Entry → Option Entry
  last_loop index height target ret [] = ret
  last_loop index height target ret (e ∷ es) =
      let e_height = be (slice 32 40 e.key) in
      let taken = be (slice 72 76 e.key) == index && (leb e_height height && ltb target e_height) in
      last_loop index height (if taken then e_height else target) (if taken then some e else ret) es

  unfoldable pub get_last_credit_by_tx_hash_index_till_height :
      Hash → ℕ → ℕ → S → Result (Option Entry)
  unfolding last_loop are_credit_keys
  get_last_credit_by_tx_hash_index_till_height tx_sha index height s =
      if not (length tx_sha == 32)
      then err short
      else and_then (ns.get_by_prefix tx_sha s) λ entries.
        if are_credit_keys entries then ok (last_loop index height 0 none entries) else err panic
