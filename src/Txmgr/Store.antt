-- ===== src/Txmgr/Store.antt =====
-- masswallet/txmgr: what the transaction store and the UTXO store share. One database transaction
-- holds the buckets of StoreBucketMeta; the records of type.go come with what the stores read of
-- wire.MsgTx, of the chain and of the key store, which are parameters.
pub mod Utxo
pub mod Spends
pub mod Unmined
pub mod Txs
pub mod Kept
pub mod MemPool
pub mod Once
pub mod Totals
pub mod Undoing
pub mod Rollback
pub mod Undone
pub mod Reorg
pub mod Levels
pub mod Scan
pub mod Flags
pub mod Wallets
pub mod BlockCheck
pub mod Lookup
pub mod Histories
use mass_net_wallet.Prelude.{
  ℕ, zero, suc, ◌+◌, ◌<◌, ◌≡◌, ◌≢◌, Bool, true, false, not, Option, none, some, List, [], ◌∷◌,
  if◌then◌else◌, length,
}
use mass_net_wallet.Prelude.Bytes.{Bytes, bytes_eq}
use mass_net_wallet.Prelude.Signed.{ℤ}
use mass_net_wallet.Prelude.Exec.{panic, Error, Result, ok, err}
use mass_net_wallet.Db.{Bucket, IsBucket}
use mass_net_wallet.Txmgr.{Hash, OutPoint, BlockLoc, Amounts}
use mass_net_wallet.Txmgr.TxRecords.{TxLoc, MsgTxs}
use mass_net_wallet.Txmgr.Balances.{Balance}
use mass_net_wallet.Wallet.Money.{Money}

-- the fields of StoreBucketMeta
pub data Namespace : Type 0 where
  ns_unmined ns_tx_records ns_blocks ns_addresses ns_game_history : Namespace
  ns_unmined_game_history ns_unspent ns_unmined_inputs ns_unmined_credits : Namespace
  ns_mined_balance ns_credits ns_debits ns_sync_bucket_name ns_wallet_status : Namespace

-- What the stores rely on across buckets: each is a bucket, a write uses up one of the writes that the
-- transaction is ready for, and changes nothing under another key or in another bucket, whether it
-- succeeds or not.
pub record IsStore {S : Type 0} (fetch_bucket : Namespace → Bucket S) (Ready : ℕ → S → Type 0)
    : Type 0 where
  pub is_bucket : (a : Namespace) → IsBucket (fetch_bucket a) Ready
  pub put_ready :
      (a : Namespace) (n : ℕ) (k v : Bytes) (s : S)
      → Ready (suc n) s
      → Ready n ((fetch_bucket a).put k v s).1
  pub get-put_ne :
      (a : Namespace) (k v j : Bytes) (s : S)
      → k ≢ j
      → (fetch_bucket a).get j ((fetch_bucket a).put k v s).1 ≡ (fetch_bucket a).get j s
  pub get-put_apart :
      (a b : Namespace) (k v j : Bytes) (s : S)
      → a ≢ b
      → (fetch_bucket b).get j ((fetch_bucket a).put k v s).1 ≡ (fetch_bucket b).get j s
  pub get-delete_apart :
      (a b : Namespace) (k j : Bytes) (s : S)
      → a ≢ b
      → (fetch_bucket b).get j ((fetch_bucket a).delete k s).1 ≡ (fetch_bucket b).get j s

-- utils.PkScript: what its methods answer. The second address of a standard script is not read.
pub record PkScript : Type 0 where
  pub maturity : ℕ
  pub address_class : ℕ
  pub is_staking : Bool
  pub is_binding : Bool
  pub std_script_address : Bytes
  pub std_encode_address : Bytes
  pub second_encode_address : Bytes

pub record RelevantMeta : Type 0 where
  pub index : ℕ
  pub pk_script : PkScript
  pub wallet_id : Bytes
  pub is_change_addr : Bool

-- `HasBindingIn` and `HasBindingOut` are for the notifications.
pub record TxRecord (M : Type 0) : Type 0 where
  pub msg_tx : M
  pub hash : Hash
  pub received : ℕ
  pub relevant_tx_in : List RelevantMeta
  pub relevant_tx_out : List RelevantMeta
  pub tx_loc : TxLoc

-- wire.TxOut
pub record TxOut : Type 0 where
  pub value : ℤ
  pub pk_script : Bytes

-- What the stores call outside: wire.MsgTx, massutil.Amount, the parser of scripts, the chain, and the
-- account of the key store that holds an address or a script hash.
pub record Outside (M A : Type 0) : Type 0 where
  pub msgs : MsgTxs M
  pub tx_in : M → List OutPoint
  pub tx_out : M → List TxOut
  pub tx_hash : M → Hash
  pub is_coin_base : M → Bool
  pub coinbase_maturity : ℕ
  pub amounts : Amounts A
  pub money : Money A
  -- NewAmountFromInt
  pub amount_from_int : ℤ → Result A
  pub is_zero : A → Bool
  pub parse_pk_script : Bytes → Result PkScript
  pub is_valid_address_class : ℕ → Bool
  pub account_of_address : Bytes → Result Bytes
  pub account_of_script_hash : Bytes → Result Bytes
  -- CurrentKeystore().Name()
  pub current_account : Bytes
  -- debug.DevMode()
  pub dev_mode : Bool
  pub fetch_tx_by_loc : ℕ → TxLoc → Result M
  pub fetch_tx_by_file_loc : BlockLoc → TxLoc → Result M

-- xs[i], which panics out of range
unfoldable pub at : {X : Type 0} → List X → ℕ → Result X
at [] i = err panic
at (x ∷ xs) zero = ok x
at (x ∷ xs) (suc i) = at xs i

-- for i, x := range xs
unfoldable pub indexed_from : {X : Type 0} → ℕ → List X → List (ℕ × X)
indexed_from i [] = []
indexed_from i (x ∷ xs) = (i, x) ∷ indexed_from (i + 1) xs

unfoldable pub is_nil : {X : Type 0} → Option X → Bool
is_nil none = true
is_nil (some x) = false

-- len(v)
unfoldable pub len : Option Bytes → ℕ
len none = 0
len (some v) = length v

unfoldable pub bytes_of : Option Bytes → Bytes
bytes_of none = []
bytes_of (some v) = v

-- map[string]massutil.Amount, with the zero amount for a missing key
module _ {A : Type 0} where
  unfoldable pub balance_of : A → Bytes → List (Balance A) → A
  balance_of zero_amount w [] = zero_amount
  balance_of zero_amount w (b ∷ bs) =
      if bytes_eq b.wallet_id w then b.amount else balance_of zero_amount w bs

  unfoldable pub set_balance : Bytes → A → List (Balance A) → List (Balance A)
  set_balance w a [] = record { wallet_id = w; amount = a } ∷ []
  set_balance w a (b ∷ bs) =
      if bytes_eq b.wallet_id w
      then record { wallet_id = w; amount = a } ∷ bs
      else b ∷ set_balance w a bs

unfoldable pub Namespace-discrete : Discrete Namespace
Namespace-discrete = hlevel
