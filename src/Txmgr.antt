-- ===== src/Txmgr.antt =====
-- masswallet/txmgr/type.go: the records of the transaction stores. A Go string is its bytes, a hash
-- is 32 bytes, and a time is its Unix seconds, which are not negative.
pub mod Unspent
pub mod Credits
pub mod Debits
pub mod Blocks
pub mod Sync
pub mod Games
pub mod TxRecords
pub mod Addresses
pub mod Status
pub mod Balances
pub mod Store
use mass_net_wallet.Prelude.{
  ℕ, ◌-◌, ◌^◌, ◌<◌, ◌≡◌, Bool, true, false, not, Option, List, ◌==◌, length, bit_and, ◌++◌,
}
use mass_net_wallet.Prelude.Bytes.{Bytes, put_be}
use mass_net_wallet.Prelude.Exec.{Result, ok}

abbrev pub Hash : Type 0
Hash = Bytes

abbrev pub IsHash : Hash → Type 0
IsHash h = length h ≡ 32

pub record OutPoint : Type 0 where
  pub hash : Hash
  pub index : ℕ

pub record IsOutPoint (op : OutPoint) : Type 0 where
  pub hash_len : IsHash op.hash
  pub index_lt : op.index < 2 ^ 32

-- database.BlockLoc
pub record BlockLoc : Type 0 where
  pub file : ℕ
  pub offset : ℕ
  pub size : ℕ

-- BlockMeta, less `Loc`, which only the writer of transaction records reads and takes beside it
pub record BlockMeta : Type 0 where
  pub height : ℕ
  pub hash : Hash
  pub timestamp : ℕ

pub record IsBlockMeta (m : BlockMeta) : Type 0 where
  pub hash_len : IsHash m.hash
  pub height_lt : m.height < 2 ^ 64

-- incidence and indexedIncidence
pub record IndexedIncidence : Type 0 where
  pub tx_hash : Hash
  pub block : BlockMeta
  pub index : ℕ

-- UtxoClass
pub data UtxoClass : Type 0 where
  standard staking binding unknown : UtxoClass

pub record UtxoFlags : Type 0 where
  pub spent : Bool
  pub spent_by_unmined : Bool
  pub change : Bool
  pub is_unmined : Bool
  pub utxo_class : UtxoClass

-- What the stores use of massutil.Amount, which is not under src/.
pub record Amounts (A : Type 0) : Type 0 where
  pub from_uint : ℕ → Result A
  pub uint_value : A → ℕ

-- NewAmountFromUint takes back what UintValue gives, which is a uint64.
pub record IsAmounts {A : Type 0} (amounts : Amounts A) : Type 0 where
  pub from_uint-uint_value : (a : A) → amounts.from_uint (amounts.uint_value a) ≡ ok a
  pub uint_value-lt : (a : A) → amounts.uint_value a < 2 ^ 64

-- credit
pub record Credit (A : Type 0) : Type 0 where
  pub out_point : OutPoint
  pub block : BlockMeta
  pub amount : A
  pub maturity : ℕ
  pub script_hash : Bytes
  pub flags : UtxoFlags

unfoldable pub is_staking : {A : Type 0} → Credit A → Bool
is_staking c = elim c.flags.utxo_class [ staking ↦ true | _ ↦ false ]

unfoldable pub is_binding : {A : Type 0} → Credit A → Bool
is_binding c = elim c.flags.utxo_class [ binding ↦ true | _ ↦ false ]

-- addressRecord
pub record AddressRecord : Type 0 where
  pub wallet_id : Bytes
  pub encode_address : Bytes
  pub address_class : ℕ
  pub block_height : ℕ

pub record AddressDetail : Type 0 where
  pub address : Bytes
  pub address_class : ℕ
  pub used : Bool

-- gameHistory
pub record GameHistory : Type 0 where
  pub wallet_id : Bytes
  pub tx_hash : Hash
  pub vout : ℕ
  pub withdrawn : Bool
  pub is_binding : Bool
  pub block_height : ℕ

-- WalletSyncedDone
abbrev pub wallet_synced_done : ℕ
wallet_synced_done = 2 ^ 64 - 1

-- WalletFlagsRemove
abbrev pub wallet_flags_remove : ℕ
wallet_flags_remove = 0x01

pub record WalletStatus : Type 0 where
  pub wallet_id : Bytes
  pub synced_height : ℕ
  pub flags : ℕ

unfoldable pub ready : WalletStatus → Bool
ready s = s.synced_height == wallet_synced_done

unfoldable pub is_removed : WalletStatus → Bool
is_removed s = not (bit_and s.flags wallet_flags_remove == 0)
