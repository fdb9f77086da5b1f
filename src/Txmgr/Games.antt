-- ===== src/Txmgr/Games.antt =====
-- masswallet/txmgr/utxostore_db.go: the histories of stakings and bindings, whose keys carry all that
-- they say, and the loop that deletes under a prefix.
pub mod Laws
pub mod Withdraw
pub mod Delete
use mass_net_wallet.Prelude.{
  ℕ, zero, suc, ◌≡◌, Bool, true, false, not, Option, none, some, List, [], ◌∷◌, ◌++◌, ltb, ◌==◌,
  if◌then◌else◌, length, get_or, bit_and,
}
use mass_net_wallet.Prelude.Bytes.{Bytes, put_be, be, slice, field}
use mass_net_wallet.Prelude.Exec.{
  short, not_found, Result, ok, err, Exec, raise, pure, lift, reads, ◌>>=◌, ◌>>◌, and_then,
}
use mass_net_wallet.Db.{Entry, Bucket}
use mass_net_wallet.Txmgr.{GameHistory}

unfoldable pub bit : Bool → ℕ
bit true = 1
bit false = 0

-- the bytes that the two keys begin with
unfoldable pub game_prefix : GameHistory → Bool → Bytes
unfolding bit
game_prefix history withdrawn =
    field 42 history.wallet_id ++ (bit history.is_binding ∷ (bit withdrawn ∷ []))

unfoldable pub key_game_history : GameHistory → Bytes
unfolding game_prefix
key_game_history history =
    game_prefix history history.withdrawn
    ++ (history.tx_hash ++ (put_be 8 history.block_height ++ put_be 4 history.vout))

unfoldable pub key_unmined_game_history : GameHistory → Bytes
unfolding game_prefix
key_unmined_game_history history =
    game_prefix history false ++ (history.tx_hash ++ put_be 4 history.vout)

abbrev pub value_game_history : Bytes
value_game_history = 0 ∷ []

-- It keeps the height of `history` for an unmined key.
unfoldable pub read_game_history : Bool → Bytes → GameHistory → Result GameHistory
read_game_history is_unmined k history =
    if ltb (length k) (if is_unmined then 80 else 88)
    then err short
    else ok (record {
      wallet_id = slice 0 42 k;
      is_binding = not (bit_and (get_or k 42 0) 1 == 0);
      withdrawn = not (bit_and (get_or k 43 0) 1 == 0);
      tx_hash = slice 44 76 k;
      block_height = if is_unmined then history.block_height else be (slice 76 84 k);
      vout = if is_unmined then be (slice 76 80 k) else be (slice 84 88 k);
    })

unfoldable pub set_withdrawn : Bool → GameHistory → GameHistory
set_withdrawn w history = record history { withdrawn = w }

-- len(v), of what a read gives; it is 0 where the read fails
unfoldable pub stored_length : Result (Option Bytes) → ℕ
stored_length (ok (some v)) = length v
stored_length (ok none) = 0
stored_length (err e) = 0

module _ {S : Type 0} (ns : Bucket S) where
  unfoldable pub put_unmined_game_history : GameHistory → Exec S (Unit {0})
  put_unmined_game_history history = ns.put (key_unmined_game_history history) value_game_history

  unfoldable pub put_game_history : GameHistory → Exec S (Unit {0})
  put_game_history history = ns.put (key_game_history history) value_game_history

  unfoldable pub delete_unmined_game_history : GameHistory → Exec S (Unit {0})
  delete_unmined_game_history history = ns.delete (key_unmined_game_history history)

  unfoldable pub get_raw_game_history_by_wallet_id : Bytes → ℕ → Bool → S → Result (List Entry)
  get_raw_game_history_by_wallet_id wallet_id gt exclude_withdrawn s =
      if not (length wallet_id == 42)
      then err short
      else ns.get_by_prefix (wallet_id ++ (gt ∷ (if exclude_withdrawn then 0 ∷ [] else []))) s

  -- the key of the history with the flag as it is, and then with the flag as it becomes
  unfoldable pub move_game : Bool → Bool → GameHistory → Exec S (Unit {0})
  unfolding set_withdrawn stored_length
  move_game old new history s =
      let key = key_game_history (set_withdrawn old history) in
      let stored = stored_length (ns.get key s) in
      if stored == 0
      then (err not_found, s)
      else (ns.delete key >>= λ _.
            ns.put (key_game_history (set_withdrawn new history)) value_game_history)
          s

  unfoldable pub withdraw_game : GameHistory → Exec S (Unit {0})
  unfolding move_game
  withdraw_game = move_game false true

  unfoldable pub unwithdraw_game : GameHistory → Exec S (Unit {0})
  unfolding move_game
  unwithdraw_game = move_game true false

  unfoldable pub delete_entries : List Entry → Exec S (Unit {0})
  delete_entries [] = pure tt
  delete_entries (e ∷ es) = ns.delete e.key >>= λ _. delete_entries es

  unfoldable pub delete_by_prefix : Bytes → Exec S (Unit {0})
  unfolding delete_entries
  delete_by_prefix prefix = reads (ns.get_by_prefix prefix) >>= λ entries. delete_entries entries
