-- ===== src/Prelude/Exec.antt =====
-- Fallible code. A Go error is a value of `Error`, and a method that writes leaves its state behind
-- also where it fails, so the state comes back beside the result.
use Prim.Native.Nat.{ℕ}
use mathlib.Core.Path.{◌≡◌, refl}
use mathlib.Core.Bool.{Bool, true, false}
use mass_net_wallet.Prelude.Tests.{if◌then◌else◌}

pub data Error : Type 0 where
  -- masswallet/db/db.go
  bucket_exist invalid_bucket_name illegal_key illegal_value not_supported : Error
  illegal_bucket_path invalid_argument write_not_allowed unknown_db_type : Error
  -- a slice or a wallet id of another length than its format has
  short : Error
  unknown_class empty_address bad_address_class : Error
  duplicate_record empty_key_value : Error
  incorrect_synced_to synced_too_great synced_too_small no_synced_block : Error
  not_found : Error
  -- masswallet/txmgr/errors.go, masswallet/utils/txscript.go, masswallet/keystore/errors.go
  chain_reorg unexpected_credit_not_found unsupported_script script_hash_not_found : Error
  unexpected_coinbase duplicated_credit expired_credit unexpected : Error
  -- masswallet/errors.go
  unknown_subfeefrom not_enough_inputs : Error
  overfull_utxo insufficient_funds invalid_amount invalid_parameter : Error
  -- strconv, and api/util.go
  not_a_number amount_range illegal_format high_precision : Error
  -- an error that code outside the repository returns
  external : ℕ → Error
  -- fmt.Errorf("...: %v", err)
  wrapped : Error → Error
  -- no Go value: a slice or index expression out of range, and the model's fuel running out
  panic out_of_fuel : Error

pub data Result {ℓ} (A : Type ℓ) : Type ℓ where
  ok : A → Result A
  err : Error → Result A

-- What has a result, followed by what uses it.
abbrev pub and_then {ℓ κ} : {A : Type ℓ} {B : Type κ} → Result A → (A → Result B) → Result B
and_then (ok a) f = f a
and_then (err e) f = err e

-- The call ends well, with a value of which `Post` holds.
pub data Returns {ℓ κ} {T : Type ℓ} (Post : T → Type κ) : Result T → Type (ℓ ⊔ κ) where
  returns : {value : T} → Post value → Returns Post (ok value)

-- a test that chooses between two calls
pub Returns-if {ℓ κ} :
    {T : Type ℓ} {Post : T → Type κ} {yes no : Result T} (test : Bool)
    → (test ≡ true → Returns Post yes)
    → (test ≡ false → Returns Post no)
    → Returns Post (if test then yes else no)
Returns-if true on_yes on_no = on_yes refl
Returns-if false on_yes on_no = on_no refl

-- a call that uses what another returns
pub Returns-and_then {ℓ κ ℓ' κ'} :
    {T : Type ℓ} {U : Type ℓ'} {Post : T → Type κ} {Next : U → Type κ'} {call : Result T}
    {use_it : T → Result U}
    → Returns Post call
    → ((value : T) → Post value → Returns Next (use_it value))
    → Returns Next (and_then call use_it)
Returns-and_then (returns {value} holds) next = next value holds

-- a weaker statement of the same call
pub Returns-map {ℓ κ κ'} :
    {T : Type ℓ} {Post : T → Type κ} {Weak : T → Type κ'} {call : Result T}
    → Returns Post call
    → ((value : T) → Post value → Weak value)
    → Returns Weak call
Returns-map (returns {value} holds) weaken = returns (weaken value holds)

unfoldable pub wrap_result : {A : Type 0} → Result A → Result A
wrap_result (ok a) = ok a
wrap_result (err e) = err (wrapped e)

abbrev pub Exec : Type 0 → Type 0 → Type 0
Exec S A = S → Result A × S

module _ {S A : Type 0} where
  unfoldable pub pure : A → Exec S A
  pure a s = (ok a, s)

  unfoldable pub raise : Error → Exec S A
  raise e s = (err e, s)

  -- a call that reads the state
  unfoldable pub reads : (S → Result A) → Exec S A
  reads f s = (f s, s)

  unfoldable pub lift : Result A → Exec S A
  lift r s = (r, s)

  -- if err != nil { return fmt.Errorf("...: %v", err) }
  unfoldable pub wrap : Exec S A → Exec S A
  unfolding wrap_result
  wrap m s = let (r, s') = m s in (wrap_result r, s')

module _ {S A B : Type 0} where
  abbrev pub continue : Result A → (A → Exec S B) → Exec S B
  continue (ok a) f s = f a s
  continue (err e) f s = (err e, s)

  infixl 5 ◌>>=◌ ◌>>◌
  -- opening this opens the actions above too
  unfoldable pub ◌>>=◌ : Exec S A → (A → Exec S B) → Exec S B
  unfolding pure raise reads lift wrap
  ◌>>=◌ m f s = let (r, s') = m s in continue r f s'

  abbrev pub ◌>>◌ : Exec S A → Exec S B → Exec S B
  m >> n = m >>= λ _. n

abbrev pub guard : {S : Type 0} → Bool → Error → Exec S (Unit {0})
guard true e s = (ok tt, s)
guard false e s = (err e, s)

-- What is computed from a result alone leaves the state as it is.
pub state-lift :
    {S A B : Type 0} (r : Result A) (f : A → B) (s : S) → ((lift r >>= λ a. pure (f a)) s).1 ≡ s
unfolding ◌>>=◌
state-lift (ok a) f s = refl
state-lift (err e) f s = refl
