-- ===== src/Txmgr/Status/Laws.antt =====
-- The status of a wallet is read back, and marking a wallet as removed changes its flags alone.
use mass_net_wallet.Prelude.{
  ℕ, suc, ◌^◌, ◌<◌, ◌≡◌, refl, ap, ◌∙◌, Option, [], ◌∷◌, ◌++◌, arith, length, get_or, bit_or,
}
use mass_net_wallet.Prelude.Bytes.{
  Bytes, put_be, be, slice, be-put_be, length-put_be, slice-append_head, get_or-append_skip,
  lengths,
}
use mass_net_wallet.Prelude.Exec.{ok, ◌>>=◌}
use mass_net_wallet.Db.{Bucket, IsBucket}
use mass_net_wallet.Db.Rules.{get-put_self}
use mass_net_wallet.Txmgr.{WalletStatus, wallet_flags_remove}
use mass_net_wallet.Txmgr.Sync.{read_wallet_status}
use mass_net_wallet.Txmgr.Status.{
  get_wallet_status, exists_value, put_wallet_status, put_key_value, mark_delete_wallet,
}

-- what is stored for a status
abbrev status_bytes : WalletStatus → Bytes
status_bytes ws = put_be 8 ws.synced_height ++ (ws.flags ∷ [])

read-status_bytes :
    (ws d : WalletStatus)
    → length ws.wallet_id ≡ 42
    → ws.synced_height < 2 ^ 64
    → read_wallet_status ws.wallet_id (status_bytes ws) d ≡ ok ws
unfolding read_wallet_status
read-status_bytes ws d e h =
    let p = put_be 8 ws.synced_height in
    let len : length (p ++ (ws.flags ∷ [])) ≡ 9 = omega lengths in
    let height : be (slice 0 8 (p ++ (ws.flags ∷ []))) ≡ ws.synced_height =
      ap be (slice-append_head 8 p (ws.flags ∷ []) (length-put_be 8 ws.synced_height))
      ∙ be-put_be 8 ws.synced_height h in
    let flag : get_or (p ++ (ws.flags ∷ [])) 8 0 ≡ ws.flags =
      get_or-append_skip 8 p (ws.flags ∷ []) (length-put_be 8 ws.synced_height) (omega arith) in
    rw (e, len, height, flag) refl

module _ {S : Type 0} (bucket : Bucket S) {Ready : ℕ → S → Type 0}
    (laws : IsBucket bucket Ready) where
  -- In a ready store PutWalletStatus of a wallet id of 42 bytes and a 64-bit height succeeds, and
  -- GetWalletStatus then gives the status back.
  pub get-put_wallet_status :
      (n : ℕ) (ws : WalletStatus) (s : S) {o : Option Bytes}
      → Ready (suc n) s
      → length ws.wallet_id ≡ 42
      → ws.synced_height < 2 ^ 64
      → bucket.get ws.wallet_id s ≡ ok o
      → ((put_wallet_status bucket ws s).0 ≡ ok tt)
        × (get_wallet_status bucket ws.wallet_id (put_wallet_status bucket ws s).1 ≡ ok ws)
  unfolding put_wallet_status put_key_value get_wallet_status exists_value
  get-put_wallet_status n ws s r e h g =
      let len : length (status_bytes ws) ≡ 9 = omega lengths in
      let pos : 0 < length ws.wallet_id = omega (arith, e) in
      let full : 0 < length (status_bytes ws) = omega (arith, len) in
      let d : WalletStatus = record { wallet_id = []; synced_height = 0; flags = 0 } in
      rw (e, len)
        (
          (laws.put_lem n ws.wallet_id (status_bytes ws) s r pos full).0,
          rw (get-put_self bucket laws n ws.wallet_id s (status_bytes ws) r pos full g)
              (read-status_bytes ws d e h),
        )

  -- In a ready store that has the status of a wallet, MarkDeleteWallet succeeds, and
  -- GetWalletStatus then gives the same status with the flag of removal set.
  pub get-mark_delete_wallet :
      (n : ℕ) (ws : WalletStatus) (s : S) {o : Option Bytes}
      → Ready (suc n) s
      → length ws.wallet_id ≡ 42
      → ws.synced_height < 2 ^ 64
      → bucket.get ws.wallet_id s ≡ ok o
      → get_wallet_status bucket ws.wallet_id s ≡ ok ws
      → ((mark_delete_wallet bucket ws.wallet_id s).0 ≡ ok tt)
        × (get_wallet_status bucket ws.wallet_id (mark_delete_wallet bucket ws.wallet_id s).1
            ≡ ok (record ws { flags = bit_or ws.flags wallet_flags_remove }))
  unfolding mark_delete_wallet ◌>>=◌
  get-mark_delete_wallet n ws s r e h g stored = rw stored (
      get-put_wallet_status n (record ws { flags = bit_or ws.flags wallet_flags_remove }) s r e h g)
