-- ===== src/Txmgr/Balances/Update.antt =====
-- masswallet/txmgr/utxostore.go: UpdateMinedBalances stores what GrossBalance reads.
use mass_net_wallet.Prelude.{
  ℕ, suc, ◌+◌, ◌<◌, ◌≡◌, refl, ap, ◌∙◌, Bool, true, false, Option, some, List, [], ◌∷◌, ◌++◌, ◌==◌,
  ltb, arith, if◌then◌else◌, length, All,
}
use mathlib.Core.Path.{subst}
use mass_net_wallet.Prelude.Bytes.{
  Bytes, bytes_eq, bytes_eq_iff, bytes_eq_refl, put_be, be, be-put_be, slice, slice_self,
  length-put_be,
}
use mass_net_wallet.Prelude.Exec.{ok, ◌>>=◌}
use mass_net_wallet.Db.{Bucket, IsBucket}
use mass_net_wallet.Txmgr.{Amounts, IsAmounts}
use mass_net_wallet.Txmgr.Addresses.{put_mined_balance, fetch_mined_balance}
use mass_net_wallet.Txmgr.Balances.{Balance, update_mined_balances, gross_balance}

module _ {S A : Type 0} (ns : Bucket S) {Ready : ℕ → S → Type 0} (laws : IsBucket ns Ready)
    (amounts : Amounts A) where
  -- what the store has at a key once the balances are written
  abbrev pub stored : Bytes → List (Balance A) → Option Bytes → Option Bytes
  stored k [] o = o
  stored k (b ∷ bs) o =
      stored k bs
        (if bytes_eq b.wallet_id k then some (put_be 8 (amounts.uint_value b.amount)) else o)

  update_mined_balances_lem :
      (bs : List (Balance A)) (n : ℕ) (k : Bytes) (s : S) {o : Option Bytes}
      → Ready (length bs + n) s
      → All (λ b. length b.wallet_id ≡ 42) bs
      → ns.get k s ≡ ok o
      → ((update_mined_balances ns amounts bs s).0 ≡ ok tt)
        × (ns.get k (update_mined_balances ns amounts bs s).1 ≡ ok (stored k bs o))
  unfolding update_mined_balances put_mined_balance ◌>>=◌
  update_mined_balances_lem [] n k s r ids g = (refl, g)
  update_mined_balances_lem (b ∷ bs) n k s {o} r ids g =
      let v = put_be 8 (amounts.uint_value b.amount) in
      let r' : Ready (suc (length bs + n)) s = subst (λ (m : ℕ). Ready m s) (omega arith) r in
      let pos : 0 < length b.wallet_id = omega (arith, ids.0) in
      let full : 0 < length v = omega (arith, length-put_be 8 (amounts.uint_value b.amount)) in
      let right : (length b.wallet_id == 42) ≡ true = ground (arith, ids.0) in
      let (done, ready) = laws.put_lem (length bs + n) b.wallet_id v s r' pos full in
      let next : ns.get k (ns.put b.wallet_id v s).1
          ≡ ok (if bytes_eq b.wallet_id k then some v else o) =
        ground (
          arith,
          laws.get-put (length bs + n) b.wallet_id v k s r' pos full,
          bytes_eq_iff b.wallet_id k,
        ) in
      let (ran, kept) =
        update_mined_balances_lem bs n k (ns.put b.wallet_id v s).1 ready ids.1 next in
      rw (right, done) (ran, kept)

  stored_absent :
      (k : Bytes) (bs : List (Balance A)) (o : Option Bytes)
      → All (λ b. bytes_eq b.wallet_id k ≡ false) bs
      → stored k bs o ≡ o
  stored_absent k [] o h = refl
  stored_absent k (b ∷ bs) o h = rw h.0 (stored_absent k bs o h.1)

  -- A wallet that occurs once has its amount.
  stored_once :
      (b : Balance A) (front back : List (Balance A)) (o : Option Bytes)
      → All (λ c. bytes_eq c.wallet_id b.wallet_id ≡ false) back
      → stored b.wallet_id (front ++ (b ∷ back)) o ≡ some (put_be 8 (amounts.uint_value b.amount))
  stored_once b [] back o h =
      let v = put_be 8 (amounts.uint_value b.amount) in
      ap (λ (t : Bool). stored b.wallet_id back (if t then some v else o))
        (bytes_eq_refl b.wallet_id)
      ∙ stored_absent b.wallet_id back (some v) h
  stored_once b (c ∷ front) back o h = stored_once b front back _ h

  -- In a ready store, for wallet ids of 42 bytes of which one does not occur again after its
  -- entry, UpdateMinedBalances succeeds, and GrossBalance of that wallet is then the amount of its
  -- entry.
  pub gross-update_mined_balances :
      IsAmounts amounts
      → (b : Balance A) (front back : List (Balance A)) (n : ℕ) (s : S) {o : Option Bytes}
      → Ready (length (front ++ (b ∷ back)) + n) s
      → All (λ c. length c.wallet_id ≡ 42) (front ++ (b ∷ back))
      → length b.wallet_id ≡ 42
      → All (λ c. bytes_eq c.wallet_id b.wallet_id ≡ false) back
      → ns.get b.wallet_id s ≡ ok o
      → ((update_mined_balances ns amounts (front ++ (b ∷ back)) s).0 ≡ ok tt)
        × (gross_balance ns amounts b.wallet_id
              (update_mined_balances ns amounts (front ++ (b ∷ back)) s).1
            ≡ ok b.amount)
  unfolding gross_balance fetch_mined_balance
  gross-update_mined_balances a b front back n s {o} r ids len once g =
      let v = put_be 8 (amounts.uint_value b.amount) in
      let (ran, kept) = update_mined_balances_lem (front ++ (b ∷ back)) n b.wallet_id s r ids g in
      let given : ltb 0 (length b.wallet_id) ≡ true = ground (arith, len) in
      let long : ltb (length v) 8 ≡ false =
        ground (arith, length-put_be 8 (amounts.uint_value b.amount)) in
      let value : be (slice 0 8 v) ≡ amounts.uint_value b.amount =
        ap be (slice_self 8 v (length-put_be 8 (amounts.uint_value b.amount)))
        ∙ be-put_be 8 (amounts.uint_value b.amount) (a.uint_value-lt b.amount) in
      (
        ran,
        rw (given, kept, stored_once b front back o once, long, value)
            (a.from_uint-uint_value b.amount),
      )
