-- ===== src/Txmgr/Sync/Reset.antt =====
-- Going back to an earlier height takes away the blocks above it and no others.
use mass_net_wallet.Prelude.{
  ℕ, zero, suc, ◌+◌, ◌-◌, ◌^◌, ◌<◌, ◌≡◌, ◌≢◌, refl, sym, ap, ◌∙◌, Bool, true, false, ◌&&◌, ◌||◌,
  Option, none, some, arith, ltb, leb, ◌==◌, if◌then◌else◌, length, Bool-cases, inl, inr,
}
use mathlib.Core.Path.{subst}
use mass_net_wallet.Prelude.Bytes.{
  Bytes, put_be, be, slice, be-put_be, length-put_be, slice_self, bytes_eq, bytes_eq_iff,
}
use mass_net_wallet.Prelude.Exec.{ok, ◌>>=◌}
use mass_net_wallet.Db.{Bucket, IsBucket}
use mass_net_wallet.Db.Rules.{get-put_self, get-put_ne}
use mass_net_wallet.Txmgr.Sync.{
  synced_to_name, fetch_synced_block, reset_loop, reset_from, reset_synced_to,
}

-- The keys of heights differ, and none of them below 2 ^ 62 is the name.
pub bytes_eq-put_be :
    (i j : ℕ) → i < 2 ^ 64 → j < 2 ^ 64 → bytes_eq (put_be 8 i) (put_be 8 j) ≡ (i == j)
bytes_eq-put_be i j hi hj =
    ground (arith, bytes_eq_iff (put_be 8 i) (put_be 8 j), be-put_be 8 i hi, be-put_be 8 j hj)

pub put_be-ne-synced_to_name : (i : ℕ) → i < 2 ^ 62 → put_be 8 i ≢ synced_to_name
put_be-ne-synced_to_name i h e =
    let same : i ≡ be synced_to_name = sym (be-put_be 8 i (omega arith)) ∙ ap be e in
    unfold be in omega (arith, same)

-- the keys that a run of the loop deletes
is_hit : ℕ → ℕ → Bytes → Bool
is_hit zero cur key = false
is_hit (suc d) cur key = bytes_eq (put_be 8 cur) key || is_hit d (cur - 1) key

is_hit-put_be :
    (d height j : ℕ)
    → height + d < 2 ^ 64
    → j < 2 ^ 64
    → is_hit d (height + d) (put_be 8 j) ≡ (ltb height j && leb j (height + d))
unfolding is_hit
is_hit-put_be zero height j h k = ground arith
is_hit-put_be (suc d) height j h k =
    let down : height + suc d - 1 ≡ height + d = omega arith in
    rw (bytes_eq-put_be (height + suc d) j h k, down, is_hit-put_be d height j (omega arith) k)
      (ground arith)

is_hit-sub :
    (cur height j : ℕ)
    → cur < 2 ^ 64
    → j < 2 ^ 64
    → is_hit (cur - height) cur (put_be 8 j) ≡ (ltb height j && leb j cur)
is_hit-sub cur height j h k = elim (Bool-cases (leb height cur)) [
  | inl e ↦
      let sum : height + (cur - height) ≡ cur = ground arith in
      subst (λ (c : ℕ). is_hit (cur - height) c (put_be 8 j) ≡ (ltb height j && leb j c)) sum
        (is_hit-put_be (cur - height) height j (omega arith) k)
  | inr e ↦
      let none_left : cur - height ≡ 0 = ground arith in
      rw none_left (unfold is_hit in ground arith)
]

module _ {S : Type 0} (bucket : Bucket S) {Ready : ℕ → S → Type 0}
    (laws : IsBucket bucket Ready) where
  reset_loop_lem :
      (d n cur : ℕ) (key : Bytes) (s : S) {o : Option Bytes}
      → Ready (d + n) s
      → bucket.get key s ≡ ok o
      → ((reset_loop bucket d cur s).0 ≡ ok tt)
        × Ready n (reset_loop bucket d cur s).1
        × (bucket.get key (reset_loop bucket d cur s).1 ≡ ok (if is_hit d cur key then none else o))
  unfolding reset_loop is_hit ◌>>=◌
  reset_loop_lem zero n cur key s r g = (refl, subst (λ (m : ℕ). Ready m s) (omega arith) r, g)
  reset_loop_lem (suc d) n cur key s {o} r g =
      let r' : Ready (suc (d + n)) s = subst (λ (m : ℕ). Ready m s) (omega arith) r in
      let (done, ready') = laws.delete_lem (d + n) (put_be 8 cur) s r' in
      let next : bucket.get key (bucket.delete (put_be 8 cur) s).1
          ≡ ok (if bytes_eq (put_be 8 cur) key then none else o) =
        ground (
          arith,
          laws.get-delete (d + n) (put_be 8 cur) key s r',
          bytes_eq_iff (put_be 8 cur) key,
        ) in
      let (ran, ready, kept) =
        reset_loop_lem d n (cur - 1) key (bucket.delete (put_be 8 cur) s).1 ready' next in
      rw done (ran, ready, kept ∙ ground arith)

  reset_from_lem :
      (n cur height : ℕ) (key : Bytes) (s : S) {o : Option Bytes}
      → Ready (cur - height + suc n) s
      → cur < 2 ^ 62
      → key ≢ synced_to_name
      → bucket.get synced_to_name s ≡ ok (some (put_be 8 cur))
      → bucket.get key s ≡ ok o
      → ((reset_from bucket height (put_be 8 cur) s).0 ≡ ok tt)
        × (bucket.get synced_to_name (reset_from bucket height (put_be 8 cur) s).1
            ≡ ok (some (put_be 8 (if ltb height cur then height else cur))))
        × (bucket.get key (reset_from bucket height (put_be 8 cur) s).1
            ≡ ok (if is_hit (cur - height) cur key then none else o))
  unfolding reset_from ◌>>=◌
  reset_from_lem n cur height key s {o} r small apart g h =
      let long : length (put_be 8 cur) == 8 ≡ true = ground (arith, length-put_be 8 cur) in
      let read : be (slice 0 8 (put_be 8 cur)) ≡ cur =
        ap be (slice_self 8 (put_be 8 cur) (length-put_be 8 cur)) ∙ be-put_be 8 cur (omega arith) in
      let low = if ltb height cur then height else cur in
      let s' = (reset_loop bucket (cur - height) cur s).1 in
      let (ran, ready, name) = reset_loop_lem (cur - height) (suc n) cur synced_to_name s r g in
      let (_, _, kept) = reset_loop_lem (cur - height) (suc n) cur key s r h in
      let full : 0 < length (put_be 8 low) = omega (arith, length-put_be 8 low) in
      rw (long, read, ran)
        (
          (laws.put_lem n synced_to_name (put_be 8 low) s' ready (omega arith) full).0,
          get-put_self bucket laws n synced_to_name s' (put_be 8 low) ready (omega arith) full name,
          get-put_ne bucket laws n synced_to_name s' (put_be 8 low) key ready (omega arith) full
                (λ e. apart (sym e))
              ∙ kept,
        )

  -- Where the synced height is `cur`, below 2^62, and the store takes the writes, resetSyncedTo to
  -- `height` succeeds, stores the lower of the two heights as the synced one, and deletes the
  -- blocks above `height` up to `cur`; every other block below 2^62 is fetched as before.
  pub reset_synced_to_lem :
      (n cur height j : ℕ) (s : S) {o : Option Bytes}
      → Ready (cur - height + suc n) s
      → cur < 2 ^ 62
      → j < 2 ^ 62
      → bucket.get synced_to_name s ≡ ok (some (put_be 8 cur))
      → bucket.get (put_be 8 j) s ≡ ok o
      → ((reset_synced_to bucket height s).0 ≡ ok tt)
        × (bucket.get synced_to_name (reset_synced_to bucket height s).1
            ≡ ok (some (put_be 8 (if ltb height cur then height else cur))))
        × (fetch_synced_block bucket j (reset_synced_to bucket height s).1
            ≡ (if ltb height j && leb j cur then ok none else fetch_synced_block bucket j s))
  unfolding reset_synced_to fetch_synced_block ◌>>=◌
  reset_synced_to_lem n cur height j s {o} r small sj g h =
      let (ran, name, kept) =
        reset_from_lem n cur height (put_be 8 j) s r small (put_be-ne-synced_to_name j sj) g h in
      let hit : is_hit (cur - height) cur (put_be 8 j) ≡ (ltb height j && leb j cur) =
        is_hit-sub cur height j (omega arith) (omega arith) in
      rw g (ran, name, rw (kept, hit, h) (ground arith))
