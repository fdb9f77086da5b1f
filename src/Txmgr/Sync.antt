-- ===== src/Txmgr/Sync.antt =====
-- masswallet/txmgr/syncstore_db.go: the blocks that the wallet has followed, one for each height up
-- to the one that `synced_to_name` holds, and the status of a wallet.
pub mod Reset
pub mod Advance
use mass_net_wallet.Prelude.{
  ℕ, zero, suc, ◌+◌, ◌-◌, ◌%◌, ◌^◌, ◌≡◌, Bool, true, false, not, Option, none, some, List, [], ◌∷◌,
  ◌++◌, ltb, ◌==◌, if◌then◌else◌, length, get_or,
}
use mass_net_wallet.Prelude.Bytes.{Bytes, put_be, be, slice}
use mass_net_wallet.Prelude.Exec.{
  short, panic, incorrect_synced_to, synced_too_great, synced_too_small, Result, ok, err, Exec,
  raise, reads, pure, wrap, ◌>>=◌, ◌>>◌, and_then,
}
use mass_net_wallet.Db.{Bucket}
use mass_net_wallet.Txmgr.{BlockMeta, WalletStatus}

-- syncedToName
abbrev pub synced_to_name : Bytes
synced_to_name = b's' ∷ (b'y' ∷ (b'n' ∷ (b'c' ∷ (b'e' ∷ (b'd' ∷ (b't' ∷ (b'o' ∷ [])))))))

-- the answer of fetchSyncedBlock for what is stored
synced_block : ℕ → Option Bytes → Result (Option BlockMeta)
synced_block height none = ok none
synced_block height (some v) =
    if not (length v == 36)
    then err short
    else ok (some (record { height = height; hash = slice 0 32 v; timestamp = be (slice 32 36 v) }))

-- It fills what the key and the value have, and keeps the flags where there are none.
unfoldable pub read_wallet_status : Bytes → Bytes → WalletStatus → Result WalletStatus
read_wallet_status k v ws =
    if not (length k == 42)
    then err short
    else if ltb (length v) 8
    then err short
    else ok (record {
      wallet_id = k;
      synced_height = be (slice 0 8 v);
      flags = if ltb 8 (length v) then get_or v 8 0 else ws.flags;
    })

module _ {S : Type 0} (bucket : Bucket S) where
  unfoldable pub fetch_synced_block : ℕ → S → Result (Option BlockMeta)
  unfolding synced_block
  fetch_synced_block height s = and_then (bucket.get (put_be 8 height) s) λ o. synced_block height o

  -- `v[0:8]` of a shorter value panics.
  unfoldable pub fetch_synced_to : S → Result (Option BlockMeta)
  unfolding fetch_synced_block
  fetch_synced_to s = and_then (bucket.get synced_to_name s) λ o. elim o [
    | none ↦ ok none
    | some v ↦ if ltb (length v) 8 then err panic else fetch_synced_block (be (slice 0 8 v)) s
  ]

  unfoldable pub put_synced_bucket : BlockMeta → Exec S (Unit {0})
  put_synced_bucket bs = wrap (bucket.put (put_be 8 bs.height) (bs.hash ++ put_be 4 bs.timestamp))

  -- the loop of resetSyncedTo, with the rounds that are left and `cur`
  reset_loop : ℕ → ℕ → Exec S (Unit {0})
  reset_loop zero cur = pure tt
  reset_loop (suc n) cur = bucket.delete (put_be 8 cur) >>= λ _. reset_loop n (cur - 1)

  -- `v` is what is stored under the name, nil where nothing is.
  unfoldable pub reset_from : ℕ → Bytes → Exec S (Unit {0})
  unfolding reset_loop
  reset_from height v =
      if not (length v == 8)
      then raise incorrect_synced_to
      else (let cur = be (slice 0 8 v) in
          reset_loop (cur - height) cur >>= λ _.
          bucket.put synced_to_name (put_be 8 (if ltb height cur then height else cur)))

  unfoldable pub reset_synced_to : ℕ → Exec S (Unit {0})
  unfolding reset_from
  reset_synced_to height = reads (bucket.get synced_to_name) >>= λ o.
      reset_from height (elim o [ none ↦ [] | some v ↦ v ])

  -- putSyncedTo on the blocks that are stored below and above the new one
  unfoldable pub advance : BlockMeta → Exec S (Unit {0})
  unfolding put_synced_bucket
  advance bs = put_synced_bucket bs >>= λ _. wrap (bucket.put synced_to_name (put_be 8 bs.height))

  unfoldable pub check_next : BlockMeta → Exec S (Unit {0})
  unfolding advance fetch_synced_block
  check_next bs = wrap (reads (fetch_synced_block ((bs.height + 1) % 2 ^ 64))) >>= λ b. elim b [
    | none ↦ advance bs
    | some b ↦ raise synced_too_small
  ]

  -- A block is stored only above one that is stored, and below none.
  unfoldable pub put_synced_to : BlockMeta → Exec S (Unit {0})
  unfolding check_next fetch_synced_block
  put_synced_to bs =
      if ltb 0 bs.height
      then (wrap (reads (fetch_synced_block (bs.height - 1))) >>= λ b. elim b [
        | none ↦ raise synced_too_great
        | some b ↦ check_next bs
      ])
      else check_next bs
