-- ===== src/Txmgr/Store/Histories.antt =====
-- masswallet/txmgr/utxostore.go: the queries of a wallet's stakings and bindings, in the pool and in
-- blocks. They read the histories of the wallet, and pass over those whose credit is gone.
use mass_net_wallet.Prelude.{
  ℕ, ◌+◌, ◌-◌, ◌%◌, ◌^◌, Bool, true, false, not, Option, none, some, List, [], ◌∷◌, ltb, ◌==◌,
  if◌then◌else◌,
}
use mass_net_wallet.Prelude.Bytes.{Bytes}
use mass_net_wallet.Prelude.Exec.{Result, ok, err, and_then}
use mass_net_wallet.Prelude.Keeps.{if_nil}
use mass_net_wallet.Db.{Entry, Bucket}
use mass_net_wallet.Txmgr.{Hash, GameHistory}
use mass_net_wallet.Txmgr.Unspent.{canonical_out_point, exists_raw_unmined_input}
use mass_net_wallet.Txmgr.Credits.{
  exists_raw_unmined_credit, fetch_raw_credit_maturity_script_hash, fetch_raw_credit_amount_spent,
  get_credits_by_tx_hash_height,
}
use mass_net_wallet.Txmgr.TxRecords.{
  exists_raw_unmined, read_raw_unmined, fetch_raw_tx_record_by_tx_hash_height, read_tx_record_loc,
}
use mass_net_wallet.Txmgr.Games.{get_raw_game_history_by_wallet_id, read_game_history}
use mass_net_wallet.Txmgr.Store.{
  Namespace, ns_unmined, ns_tx_records, ns_game_history, ns_unmined_game_history, ns_unmined_inputs,
  ns_unmined_credits, ns_credits, Outside, at, is_nil, len, bytes_of,
}

abbrev pub game_staking : ℕ
game_staking = 0

abbrev pub game_binding : ℕ
game_binding = 1

-- The hash and the index of the output are those of the detail.
pub record StakingUtxo (A : Type 0) : Type 0 where
  pub address : Bytes
  pub amount : A
  pub spent : Bool
  pub spent_by_unmined : Bool
  pub frozen_period : ℕ

-- An address stands for its encoding.
pub record BindingUtxo (A : Type 0) : Type 0 where
  pub holder : Bytes
  pub binding_target : Bytes
  pub amount : A
  pub spent : Bool
  pub spent_by_unmined : Bool

-- A detail of a staking, where `U` is StakingUtxo, or of a binding. No query sets the field Op.
pub record HistoryDetail (U : Type 0) : Type 0 where
  pub tx_hash : Hash
  pub index : ℕ
  pub block_height : ℕ
  pub utxo : U

abbrev no_history : GameHistory
no_history = record {
  wallet_id = [];
  tx_hash = [];
  vout = 0;
  withdrawn = false;
  is_binding = false;
  block_height = 0;
}

-- maturity - 1, a uint32
frozen : ℕ → ℕ
frozen maturity = (maturity + (2 ^ 32 - 1)) % 2 ^ 32

-- One detail at most for each entry, in their order; an error ends the query.
unfoldable pub details_of :
    {X : Type 0} → (Entry → Result (Option X)) → List Entry → Result (List X)
details_of detail [] = ok []
details_of detail (e ∷ es) =
    let rest = details_of detail es in
    and_then (detail e) λ found. and_then rest λ ds. ok (if_nil found ds (λ d. d ∷ ds))

-- `sort` is sort.Slice with the order "comes before", and `staking_address` encodes the address of
-- NewAddressStakingScriptHash.
module _ {S M A : Type 0} (outside : Outside M A) (fetch_bucket : Namespace → Bucket S)
    (staking_address : Bytes → Result Bytes)
    (sort : (X : Type 0) → (X → X → Bool) → List X → List X) where
  -- The staking that a credit's value is of.
  staking_of : GameHistory → Bytes → Result (HistoryDetail (StakingUtxo A))
  unfolding frozen
  staking_of history v = and_then (fetch_raw_credit_maturity_script_hash v) λ read.
      and_then (staking_address read.1) λ address.
        and_then (fetch_raw_credit_amount_spent outside.amounts v) λ amt. ok (record {
          tx_hash = history.tx_hash;
          index = history.vout;
          block_height = history.block_height;
          utxo = record {
            address = address;
            amount = amt.0;
            spent = amt.1;
            spent_by_unmined = false;
            frozen_period = frozen read.0;
          };
        })

  -- Whether the pool spends an output that no block spends.
  pool_spends : GameHistory → Bool → S → Bool
  pool_spends history spent s =
      if spent
      then false
      else not (
          is_nil (
            exists_raw_unmined_input (fetch_bucket ns_unmined_inputs)
              (canonical_out_point history.tx_hash history.vout) s))

  -- The queries of the pool set neither the height nor the flags.
  unmined_staking : S → Entry → Result (Option (HistoryDetail (StakingUtxo A)))
  unfolding staking_of
  unmined_staking s e = and_then (read_game_history true e.key no_history) λ history.
      and_then
        (exists_raw_unmined_credit (fetch_bucket ns_unmined_credits)
          (canonical_out_point history.tx_hash history.vout) s)
        λ cred_v. if_nil cred_v (ok none) (λ v.
          and_then (staking_of history v)
            λ d. ok (some (record d { utxo = record (d.utxo) { spent = false } })))

  unfoldable pub get_unmined_staking_history_detail :
      Bytes → S → Result (List (HistoryDetail (StakingUtxo A)))
  unfolding unmined_staking
  get_unmined_staking_history_detail wallet_id s =
      and_then
        (get_raw_game_history_by_wallet_id (fetch_bucket ns_unmined_game_history) wallet_id
          game_staking false s)
        (details_of (unmined_staking s))

  mined_staking : S → Entry → Result (Option (HistoryDetail (StakingUtxo A)))
  unfolding staking_of pool_spends
  mined_staking s e = and_then (read_game_history false e.key no_history) λ history.
      if history.block_height == 0
      then ok none
      else (and_then
          (get_credits_by_tx_hash_height (fetch_bucket ns_credits) history.tx_hash
            history.block_height s)
          λ credits. if_nil (credits history.vout) (ok none) (λ credit.
            and_then (staking_of history credit.value) λ d. ok (
              some (record d {
                utxo = record (d.utxo) { spent_by_unmined = pool_spends history d.utxo.spent s };
              }))))

  -- BlockHeight + uint64(FrozenPeriod)
  frozen_until : HistoryDetail (StakingUtxo A) → ℕ
  frozen_until d = (d.block_height + d.utxo.frozen_period) % 2 ^ 64

  unfoldable pub get_staking_history_detail :
      Bytes → Bool → S → Result (List (HistoryDetail (StakingUtxo A)))
  unfolding mined_staking frozen_until
  get_staking_history_detail wallet_id exclude_withdrawn s =
      and_then
        (get_raw_game_history_by_wallet_id (fetch_bucket ns_game_history) wallet_id game_staking
          exclude_withdrawn s)
        λ entries.
          and_then (details_of (mined_staking s) entries)
            λ ds. ok (sort _ (λ a b. ltb (frozen_until b) (frozen_until a)) ds)

  -- The binding of an output of a message, with the amount and the flags that it has.
  binding_of : M → GameHistory → A → Bool → Bool → Result (HistoryDetail (BindingUtxo A) × M)
  binding_of msg history amt spent by_unmined =
      and_then (at (outside.tx_out msg) history.vout) λ output.
        and_then (outside.parse_pk_script output.pk_script) λ script. ok (
          record {
            tx_hash = history.tx_hash;
            index = history.vout;
            block_height = history.block_height;
            utxo = record {
              holder = script.std_encode_address;
              binding_target = script.second_encode_address;
              amount = amt;
              spent = spent;
              spent_by_unmined = by_unmined;
            };
          },
          msg,
        )

  unmined_binding : S → Entry → Result (Option (HistoryDetail (BindingUtxo A) × M))
  unfolding binding_of
  unmined_binding s e = and_then (read_game_history true e.key no_history) λ history.
      and_then (exists_raw_unmined (fetch_bucket ns_unmined) history.tx_hash s) λ unmined.
        if len unmined == 0
        then ok none
        else (and_then (read_raw_unmined outside.msgs (bytes_of unmined)) λ rec.
            and_then
              (exists_raw_unmined_credit (fetch_bucket ns_unmined_credits)
                (canonical_out_point history.tx_hash history.vout) s)
              λ cred_v. if_nil cred_v (ok none) (λ v.
                and_then (at (outside.tx_out rec.1) history.vout) λ output.
                  and_then (outside.amount_from_int output.value)
                    λ amt. and_then (binding_of rec.1 history amt false false) λ d. ok (some d)))

  unfoldable pub get_unmined_binding_history_detail :
      Bytes → S → Result (List (HistoryDetail (BindingUtxo A) × M))
  unfolding unmined_binding
  get_unmined_binding_history_detail wallet_id s =
      and_then
        (get_raw_game_history_by_wallet_id (fetch_bucket ns_unmined_game_history) wallet_id
          game_binding false s)
        (details_of (unmined_binding s))

  -- The credit of a history, once its message is fetched.
  fetched_binding : S → GameHistory → Result M → Result (Option (HistoryDetail (BindingUtxo A) × M))
  unfolding binding_of pool_spends
  fetched_binding s history (err e) = ok none
  fetched_binding s history (ok msg) =
      and_then
        (get_credits_by_tx_hash_height (fetch_bucket ns_credits) history.tx_hash
          history.block_height s)
        λ credits. if_nil (credits history.vout) (ok none) (λ credit.
          and_then (fetch_raw_credit_amount_spent outside.amounts credit.value) λ amt.
            and_then (binding_of msg history amt.0 amt.1 (pool_spends history amt.1 s))
              λ d. ok (some d))

  mined_binding : S → Entry → Result (Option (HistoryDetail (BindingUtxo A) × M))
  unfolding fetched_binding
  mined_binding s e = and_then (read_game_history false e.key no_history) λ history.
      if history.block_height == 0
      then ok none
      else (and_then
          (fetch_raw_tx_record_by_tx_hash_height (fetch_bucket ns_tx_records) history.tx_hash
            history.block_height s)
          λ rec_val. fetched_binding s history (
            and_then (read_tx_record_loc (bytes_of rec_val))
              λ locs. outside.fetch_tx_by_loc history.block_height locs.1))

  unfoldable pub get_binding_history_detail :
      Bytes → Bool → S → Result (List (HistoryDetail (BindingUtxo A) × M))
  unfolding mined_binding
  get_binding_history_detail wallet_id exclude_withdrawn s =
      and_then
        (get_raw_game_history_by_wallet_id (fetch_bucket ns_game_history) wallet_id game_binding
          exclude_withdrawn s)
        λ entries.
          and_then (details_of (mined_binding s) entries)
            λ ds. ok (sort _ (λ a b. ltb b.0.block_height a.0.block_height) ds)
