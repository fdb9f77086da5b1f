-- ===== src/Txmgr/Games/Laws.antt =====
-- The key of a history says all that the history does.
use mass_net_wallet.Prelude.{
  ℕ, ◌+◌, ◌^◌, ◌<◌, ◌≡◌, refl, ap, ◌∙◌, Bool, true, false, not, [], ◌∷◌, ◌++◌, arith, ltb, ◌==◌,
  length, get_or, bit_and, append_assoc,
}
use mass_net_wallet.Prelude.Bytes.{
  Bytes, put_be, be, slice, field, be-put_be, length-put_be, field_self, length-field,
  slice-append_head, slice-append_skip, slice_self, get_or-append_skip, lengths,
}
use mass_net_wallet.Prelude.Exec.{ok}
use mass_net_wallet.Txmgr.{IsHash, GameHistory}
use mass_net_wallet.Txmgr.Games.{bit, game_prefix, key_game_history, read_game_history}

-- a history that the store can hold
pub record IsGameHistory (g : GameHistory) : Type 0 where
  pub wallet_len : length g.wallet_id ≡ 42
  pub hash_len : IsHash g.tx_hash
  pub height_lt : g.block_height < 2 ^ 64
  pub vout_lt : g.vout < 2 ^ 32

bit-flag : (b : Bool) → not (bit_and (bit b) 1 == 0) ≡ b
unfolding bit
bit-flag true = refl
bit-flag false = refl

-- the parts of a key, whatever follows the flags
module _ (g : GameHistory) (w : Bool) (rest : Bytes) where
  pub length-game_prefix : length (game_prefix g w) ≡ 44
  unfolding game_prefix
  length-game_prefix = omega lengths

  game_prefix_assoc :
      game_prefix g w ++ rest ≡ field 42 g.wallet_id ++ (bit g.is_binding ∷ (bit w ∷ rest))
  unfolding game_prefix
  game_prefix_assoc = append_assoc (field 42 g.wallet_id) (bit g.is_binding ∷ (bit w ∷ [])) rest

  slice-wallet : length g.wallet_id ≡ 42 → slice 0 42 (game_prefix g w ++ rest) ≡ g.wallet_id
  slice-wallet e =
      ap (slice 0 42) game_prefix_assoc
      ∙ slice-append_head 42 (field 42 g.wallet_id) (bit g.is_binding ∷ (bit w ∷ rest))
          (length-field 42 g.wallet_id)
      ∙ field_self 42 g.wallet_id e

  get_or-binding : get_or (game_prefix g w ++ rest) 42 0 ≡ bit g.is_binding
  get_or-binding =
      ap (λ (t : Bytes). get_or t 42 0) game_prefix_assoc
      ∙ get_or-append_skip 42 (field 42 g.wallet_id) (bit g.is_binding ∷ (bit w ∷ rest))
          (length-field 42 g.wallet_id) (omega arith)

  pub get_or-withdrawn : get_or (game_prefix g w ++ rest) 43 0 ≡ bit w
  get_or-withdrawn =
      ap (λ (t : Bytes). get_or t 43 0) game_prefix_assoc
      ∙ get_or-append_skip 43 (field 42 g.wallet_id) (bit g.is_binding ∷ (bit w ∷ rest))
          (length-field 42 g.wallet_id) (omega arith)

  -- what follows the flags
  pub slice-behind :
      (from to : ℕ) → slice (44 + from) (44 + to) (game_prefix g w ++ rest) ≡ slice from to rest
  slice-behind from to =
      slice-append_skip (44 + from) (44 + to) (game_prefix g w) rest length-game_prefix
        (omega arith)
      ∙ ap (λ (p : ℕ × ℕ). slice p.0 p.1 rest) (ground arith)

module _ (g : GameHistory) (v : IsGameHistory g) where
  tail_of : Bytes
  tail_of = g.tx_hash ++ (put_be 8 g.block_height ++ put_be 4 g.vout)

  slice-tail_hash : slice 0 32 tail_of ≡ g.tx_hash
  unfolding tail_of
  slice-tail_hash =
      slice-append_head 32 g.tx_hash (put_be 8 g.block_height ++ put_be 4 g.vout) v.hash_len

  be-tail_height : be (slice 32 40 tail_of) ≡ g.block_height
  unfolding tail_of
  be-tail_height =
      ap be (
        slice-append_skip 32 40 g.tx_hash (put_be 8 g.block_height ++ put_be 4 g.vout) v.hash_len
          (omega arith)
        ∙ slice-append_head 8 (put_be 8 g.block_height) (put_be 4 g.vout)
            (length-put_be 8 g.block_height))
      ∙ be-put_be 8 g.block_height v.height_lt

  be-tail_vout : be (slice 40 44 tail_of) ≡ g.vout
  unfolding tail_of
  be-tail_vout =
      ap be (
        slice-append_skip 40 44 g.tx_hash (put_be 8 g.block_height ++ put_be 4 g.vout) v.hash_len
          (omega arith)
        ∙ slice-append_skip 8 12 (put_be 8 g.block_height) (put_be 4 g.vout)
            (length-put_be 8 g.block_height) (omega arith)
        ∙ slice_self 4 (put_be 4 g.vout) (length-put_be 4 g.vout))
      ∙ be-put_be 4 g.vout v.vout_lt

  -- A mined history whose wallet id has 42 bytes, whose hash has 32 and whose numbers fit is read
  -- back from its key.
  pub read-key_game_history :
      (d : GameHistory) → read_game_history false (key_game_history g) d ≡ ok g
  unfolding key_game_history read_game_history
  read-key_game_history d =
      let k = game_prefix g g.withdrawn ++ tail_of in
      let len : length k ≡ 88 =
        unfold tail_of in omega (lengths, length-game_prefix g g.withdrawn tail_of, v.hash_len) in
      let long : ltb (length k) 88 ≡ false = ground (arith, len) in
      let hash : slice 44 76 k ≡ g.tx_hash =
        slice-behind g g.withdrawn tail_of 0 32 ∙ slice-tail_hash in
      let height : be (slice 76 84 k) ≡ g.block_height =
        ap be (slice-behind g g.withdrawn tail_of 32 40) ∙ be-tail_height in
      let vout : be (slice 84 88 k) ≡ g.vout =
        ap be (slice-behind g g.withdrawn tail_of 40 44) ∙ be-tail_vout in
      let binding =
        ap (λ (b : ℕ). not (bit_and b 1 == 0)) (get_or-binding g g.withdrawn tail_of)
        ∙ bit-flag g.is_binding in
      let withdrawn =
        ap (λ (b : ℕ). not (bit_and b 1 == 0)) (get_or-withdrawn g g.withdrawn tail_of)
        ∙ bit-flag g.withdrawn in
      unfold tail_of in
      rw
        (
          long,
          slice-wallet g g.withdrawn tail_of v.wallet_len,
          binding,
          withdrawn,
          hash,
          height,
          vout,
        )
        refl
