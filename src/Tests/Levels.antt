-- ===== src/Tests/Levels.antt =====
-- The buckets of the stores in one LevelDB transaction, over a store in memory.
use mass_net_wallet.Prelude.{
  ℕ, ◌≡◌, refl, sym, ap, ◌∙◌, [], ◌∷◌, arith, ◌==◌, if◌then◌else◌, get_or,
}
use mass_net_wallet.Prelude.Bytes.{Bytes, IsBytes}
use mass_net_wallet.Ldb.Path.{LevelBucket, top_level, is_valid_bucket_name}
use mass_net_wallet.Ldb.Path.Isolation.{IsWellFormed, top_level-IsWellFormed}
use mass_net_wallet.Ldb.Bucket.{level_bucket}
use mass_net_wallet.Ldb.Bucket.Reads.{IsReady}
use mass_net_wallet.Txmgr.Store.{
  Namespace, ns_unmined, ns_tx_records, ns_blocks, ns_addresses, ns_game_history,
  ns_unmined_game_history, ns_unspent, ns_unmined_inputs, ns_unmined_credits, ns_mined_balance,
  ns_credits, ns_debits, ns_sync_bucket_name, ns_wallet_status, IsStore,
}
use mass_net_wallet.Txmgr.Store.Levels.{level_bucket-IsStore}
use mass_net_wallet.Tests.Memory.{memory, memory-IsLeveldb}

-- a name of one letter for each bucket
letter : Namespace → ℕ
letter ns_unmined = 97
letter ns_tx_records = 98
letter ns_blocks = 99
letter ns_addresses = 100
letter ns_game_history = 101
letter ns_unmined_game_history = 102
letter ns_unspent = 103
letter ns_unmined_inputs = 104
letter ns_unmined_credits = 105
letter ns_mined_balance = 106
letter ns_credits = 107
letter ns_debits = 108
letter ns_sync_bucket_name = 109
letter ns_wallet_status = 110

bucket_of : ℕ → Namespace
bucket_of n =
    if n == 97
    then ns_unmined
    else if n == 98
    then ns_tx_records
    else if n == 99
    then ns_blocks
    else if n == 100
    then ns_addresses
    else if n == 101
    then ns_game_history
    else if n == 102
    then ns_unmined_game_history
    else if n == 103
    then ns_unspent
    else if n == 104
    then ns_unmined_inputs
    else if n == 105
    then ns_unmined_credits
    else if n == 106
    then ns_mined_balance
    else if n == 107
    then ns_credits
    else if n == 108
    then ns_debits
    else if n == 109
    then ns_sync_bucket_name
    else ns_wallet_status

buckets : Namespace → LevelBucket
unfolding letter
buckets a = top_level (letter a ∷ [])

buckets-IsWellFormed : (a : Namespace) → IsWellFormed (buckets a)
unfolding buckets
buckets-IsWellFormed ns_unmined =
    top_level-IsWellFormed (97 ∷ []) (unfold is_valid_bucket_name in refl)
buckets-IsWellFormed ns_tx_records =
    top_level-IsWellFormed (98 ∷ []) (unfold is_valid_bucket_name in refl)
buckets-IsWellFormed ns_blocks =
    top_level-IsWellFormed (99 ∷ []) (unfold is_valid_bucket_name in refl)
buckets-IsWellFormed ns_addresses =
    top_level-IsWellFormed (100 ∷ []) (unfold is_valid_bucket_name in refl)
buckets-IsWellFormed ns_game_history =
    top_level-IsWellFormed (101 ∷ []) (unfold is_valid_bucket_name in refl)
buckets-IsWellFormed ns_unmined_game_history =
    top_level-IsWellFormed (102 ∷ []) (unfold is_valid_bucket_name in refl)
buckets-IsWellFormed ns_unspent =
    top_level-IsWellFormed (103 ∷ []) (unfold is_valid_bucket_name in refl)
buckets-IsWellFormed ns_unmined_inputs =
    top_level-IsWellFormed (104 ∷ []) (unfold is_valid_bucket_name in refl)
buckets-IsWellFormed ns_unmined_credits =
    top_level-IsWellFormed (105 ∷ []) (unfold is_valid_bucket_name in refl)
buckets-IsWellFormed ns_mined_balance =
    top_level-IsWellFormed (106 ∷ []) (unfold is_valid_bucket_name in refl)
buckets-IsWellFormed ns_credits =
    top_level-IsWellFormed (107 ∷ []) (unfold is_valid_bucket_name in refl)
buckets-IsWellFormed ns_debits =
    top_level-IsWellFormed (108 ∷ []) (unfold is_valid_bucket_name in refl)
buckets-IsWellFormed ns_sync_bucket_name =
    top_level-IsWellFormed (109 ∷ []) (unfold is_valid_bucket_name in refl)
buckets-IsWellFormed ns_wallet_status =
    top_level-IsWellFormed (110 ∷ []) (unfold is_valid_bucket_name in refl)

buckets-IsBytes : (a : Namespace) → IsBytes (buckets a).path
unfolding buckets top_level
buckets-IsBytes ns_unmined = (omega arith, (omega arith, (omega arith, tt)))
buckets-IsBytes ns_tx_records = (omega arith, (omega arith, (omega arith, tt)))
buckets-IsBytes ns_blocks = (omega arith, (omega arith, (omega arith, tt)))
buckets-IsBytes ns_addresses = (omega arith, (omega arith, (omega arith, tt)))
buckets-IsBytes ns_game_history = (omega arith, (omega arith, (omega arith, tt)))
buckets-IsBytes ns_unmined_game_history = (omega arith, (omega arith, (omega arith, tt)))
buckets-IsBytes ns_unspent = (omega arith, (omega arith, (omega arith, tt)))
buckets-IsBytes ns_unmined_inputs = (omega arith, (omega arith, (omega arith, tt)))
buckets-IsBytes ns_unmined_credits = (omega arith, (omega arith, (omega arith, tt)))
buckets-IsBytes ns_mined_balance = (omega arith, (omega arith, (omega arith, tt)))
buckets-IsBytes ns_credits = (omega arith, (omega arith, (omega arith, tt)))
buckets-IsBytes ns_debits = (omega arith, (omega arith, (omega arith, tt)))
buckets-IsBytes ns_sync_bucket_name = (omega arith, (omega arith, (omega arith, tt)))
buckets-IsBytes ns_wallet_status = (omega arith, (omega arith, (omega arith, tt)))

read_back : (a : Namespace) → bucket_of (get_or (buckets a).path 2 0) ≡ a
unfolding bucket_of buckets top_level
read_back ns_unmined = refl
read_back ns_tx_records = refl
read_back ns_blocks = refl
read_back ns_addresses = refl
read_back ns_game_history = refl
read_back ns_unmined_game_history = refl
read_back ns_unspent = refl
read_back ns_unmined_inputs = refl
read_back ns_unmined_credits = refl
read_back ns_mined_balance = refl
read_back ns_credits = refl
read_back ns_debits = refl
read_back ns_sync_bucket_name = refl
read_back ns_wallet_status = refl

level_bucket-IsStore_example : IsStore (λ a. level_bucket memory (buckets a)) IsReady
level_bucket-IsStore_example =
    level_bucket-IsStore memory buckets memory-IsLeveldb buckets-IsWellFormed buckets-IsBytes
      (λ a b h e.
        h (sym (read_back a) ∙ ap (λ (p : Bytes). bucket_of (get_or p 2 0)) e ∙ read_back b))
