-- ===== src/Txmgr/Sync/Advance.antt =====
-- A block is stored only on top of the last one.
use mass_net_wallet.Prelude.{
  ℕ, suc, ◌+◌, ◌-◌, ◌%◌, ◌^◌, ◌<◌, ◌≡◌, refl, sym, ap, ◌∙◌, true, false, Option, none, some, ◌++◌,
  arith, ltb, ◌⊎◌, inl, inr, Bool-cases, length,
}
use mass_net_wallet.Prelude.Bytes.{
  Bytes, put_be, be, slice, be-put_be, length-put_be, slice_self, slice-append_head,
  slice-append_skip, lengths,
}
use mass_net_wallet.Prelude.Exec.{Result, ok, err, ◌>>=◌}
use mass_net_wallet.Db.{Bucket, IsBucket}
use mass_net_wallet.Db.Rules.{get-put_self, get-put_ne}
use mass_net_wallet.Txmgr.{BlockMeta, IsBlockMeta}
use mass_net_wallet.Txmgr.Sync.{
  synced_to_name, synced_block, fetch_synced_block, fetch_synced_to, put_synced_bucket, advance,
  check_next, put_synced_to,
}
use mass_net_wallet.Txmgr.Sync.Reset.{put_be-ne-synced_to_name}

-- what is stored for a block
abbrev block_bytes : BlockMeta → Bytes
block_bytes bs = bs.hash ++ put_be 4 bs.timestamp

synced_block-block_bytes :
    (bs : BlockMeta)
    → IsBlockMeta bs
    → bs.timestamp < 2 ^ 32
    → synced_block bs.height (some (block_bytes bs)) ≡ ok (some bs)
unfolding synced_block
synced_block-block_bytes bs v time =
    let len : length (bs.hash ++ put_be 4 bs.timestamp) ≡ 36 = omega (lengths, v.hash_len) in
    let stamp : be (slice 32 36 (bs.hash ++ put_be 4 bs.timestamp)) ≡ bs.timestamp =
      ap be (
        slice-append_skip 32 36 bs.hash (put_be 4 bs.timestamp) v.hash_len (omega arith)
        ∙ slice_self 4 (put_be 4 bs.timestamp) (length-put_be 4 bs.timestamp))
      ∙ be-put_be 4 bs.timestamp time in
    rw (len, stamp, slice-append_head 32 bs.hash (put_be 4 bs.timestamp) v.hash_len) refl

module _ {S : Type 0} (bucket : Bucket S) {Ready : ℕ → S → Type 0}
    (laws : IsBucket bucket Ready) where
  -- both writes succeed
  advance_eq :
      (n : ℕ) (bs : BlockMeta) (s : S)
      → Ready (suc (suc n)) s
      → IsBlockMeta bs
      → advance bucket bs s ≡ (
        ok tt,
        (bucket.put synced_to_name
            (put_be 8 bs.height)
            (bucket.put (put_be 8 bs.height) (block_bytes bs) s).1).1,
      )
  unfolding advance put_synced_bucket ◌>>=◌
  advance_eq n bs s r v =
      let k = put_be 8 bs.height in
      let pos : 0 < length k = omega (arith, length-put_be 8 bs.height) in
      let full : 0 < length (block_bytes bs) = omega (lengths, v.hash_len) in
      let (ran, ready) = laws.put_lem (suc n) k (block_bytes bs) s r pos full in
      let s1 = (bucket.put k (block_bytes bs) s).1 in
      rw (ran, (laws.put_lem n synced_to_name k s1 ready (omega arith) pos).0) refl

  fetch-advance :
      (n : ℕ) (bs : BlockMeta) (s : S) {o p : Option Bytes}
      → Ready (suc (suc n)) s
      → IsBlockMeta bs
      → bs.height < 2 ^ 62
      → bs.timestamp < 2 ^ 32
      → bucket.get synced_to_name s ≡ ok o
      → bucket.get (put_be 8 bs.height) s ≡ ok p
      → ((advance bucket bs s).0 ≡ ok tt)
        × (fetch_synced_to bucket (advance bucket bs s).1 ≡ ok (some bs))
  unfolding fetch_synced_to fetch_synced_block
  fetch-advance n bs s {o} {p} r v small time g h =
      let k = put_be 8 bs.height in
      let w = bs.hash ++ put_be 4 bs.timestamp in
      let pos : 0 < length k = omega (arith, length-put_be 8 bs.height) in
      let full : 0 < length w = omega (lengths, v.hash_len) in
      let (ran, ready) = laws.put_lem (suc n) k w s r pos full in
      let s1 = (bucket.put k w s).1 in
      let apart = put_be-ne-synced_to_name bs.height small in
      let name1 : bucket.get synced_to_name s1 ≡ ok o =
        get-put_ne bucket laws (suc n) k s w synced_to_name r pos full apart ∙ g in
      let block1 = get-put_self bucket laws (suc n) k s w r pos full h in
      let block2 =
        get-put_ne bucket laws n synced_to_name s1 k k ready (omega arith) pos (λ e. apart (sym e))
        ∙ block1 in
      let name2 = get-put_self bucket laws n synced_to_name s1 k ready (omega arith) pos name1 in
      let long : ltb (length k) 8 ≡ false = ground (arith, length-put_be 8 bs.height) in
      let height : be (slice 0 8 k) ≡ bs.height =
        ap be (slice_self 8 k (length-put_be 8 bs.height)) ∙ be-put_be 8 bs.height v.height_lt in
      let made = advance_eq n bs s r v in
      let s2 = (bucket.put synced_to_name k s1).1 in
      let read : fetch_synced_to bucket s2 ≡ ok (some bs) =
        rw (name2, long, height, block2) (synced_block-block_bytes bs v time) in
      (
        ap (λ (t : Result (Unit {0}) × S). t.0) made,
        ap (λ (t : Result (Unit {0}) × S). fetch_synced_to bucket t.1) made ∙ read,
      )

  -- A block with a height below 2^62 and a 32-bit time, whose height is 0 or whose predecessor is
  -- stored, and above which none is stored, is accepted by putSyncedTo in a ready store, and
  -- fetchSyncedTo then gives it back.
  pub fetch-put_synced_to :
      (n : ℕ) (bs : BlockMeta) (s : S) {o p : Option Bytes}
      → Ready (suc (suc n)) s
      → IsBlockMeta bs
      → bs.height < 2 ^ 62
      → bs.timestamp < 2 ^ 32
      → bucket.get synced_to_name s ≡ ok o
      → bucket.get (put_be 8 bs.height) s ≡ ok p
      → (bs.height ≡ 0)
        ⊎ ((b : BlockMeta) × (fetch_synced_block bucket (bs.height - 1) s ≡ ok (some b)))
      → fetch_synced_block bucket (bs.height + 1) s ≡ ok none
      → ((put_synced_to bucket bs s).0 ≡ ok tt)
        × (fetch_synced_to bucket (put_synced_to bucket bs s).1 ≡ ok (some bs))
  unfolding put_synced_to check_next ◌>>=◌
  fetch-put_synced_to n bs s r v small time g h below above =
      let next : (bs.height + 1) % 2 ^ 64 ≡ bs.height + 1 = omega arith in
      let done = fetch-advance n bs s r v small time g h in
      elim below [
        | inl zero_height ↦
            let low : ltb 0 bs.height ≡ false = ground arith in rw (low, next, above) done
        | inr (b, prev) ↦ elim (Bool-cases (ltb 0 bs.height)) [
          | inl high ↦ rw (high, prev, next, above) done
          | inr low ↦ rw (low, next, above) done
        ]
      ]

-- Where putSyncedTo accepts a block whose height is from 1 to 2^62 - 1, the block below it was
-- stored and the block above it was not.
pub put_synced_to_contiguous :
    {S : Type 0} (bucket : Bucket S) (bs : BlockMeta) (s : S)
    → 0 < bs.height
    → bs.height < 2 ^ 62
    → (put_synced_to bucket bs s).0 ≡ ok tt
    → ((b : BlockMeta) × (fetch_synced_block bucket (bs.height - 1) s ≡ ok (some b)))
      × (fetch_synced_block bucket (bs.height + 1) s ≡ ok none)
unfolding put_synced_to check_next ◌>>=◌
put_synced_to_contiguous bucket bs s pos small done =
    let next : (bs.height + 1) % 2 ^ 64 ≡ bs.height + 1 = omega arith in
    go (fetch_synced_block bucket (bs.height - 1) s) (fetch_synced_block bucket (bs.height + 1) s)
      refl refl next
  where
    high : ltb 0 bs.height ≡ true
    high = ground arith

    go :
        (x y : Result (Option BlockMeta))
        → fetch_synced_block bucket (bs.height - 1) s ≡ x
        → fetch_synced_block bucket (bs.height + 1) s ≡ y
        → (bs.height + 1) % 2 ^ 64 ≡ bs.height + 1
        → ((b : BlockMeta) × (fetch_synced_block bucket (bs.height - 1) s ≡ ok (some b)))
          × (fetch_synced_block bucket (bs.height + 1) s ≡ ok none)
    go (ok (some b)) (ok none) e f next = ((b, e), f)
    go (ok (some b)) (ok (some c)) e f next = cc (rw (high, e, next, f) at done)
    go (ok (some b)) (err x) e f next = cc (rw (high, e, next, f) at done)
    go (ok none) y e f next = cc (rw (high, e) at done)
    go (err x) y e f next = cc (rw (high, e) at done)
