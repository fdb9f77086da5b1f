-- ===== src/Txmgr/Unspent/Inputs.antt =====
-- The unmined transactions that spend an outpoint: hashes appended one after another.
use mass_net_wallet.Prelude.{
  ℕ, zero, suc, ◌<◌, ◌≤◌, ◌≡◌, refl, sym, ap, ◌∙◌, Option, none, some, List, [], ◌∷◌, ◌++◌, arith,
  length, take, drop, length-append, length-drop, take-length,
}
use mass_net_wallet.Prelude.Bytes.{Bytes, take-append_le, drop-append_le}
use mass_net_wallet.Prelude.Exec.{Result, ok, err, ◌>>=◌}
use mass_net_wallet.Db.{Bucket, IsBucket}
use mass_net_wallet.Db.Rules.{get-put_self}
use mass_net_wallet.Txmgr.{Hash, IsHash}
use mass_net_wallet.Txmgr.Unspent.{
  put_raw_unmined_input, fetch_unmined_input_spend_tx_hashes, hashes_loop, map_result, or_empty,
  spend_tx_hashes,
}

drop-length : (xs : Bytes) → drop (length xs) xs ≡ []
drop-length [] = refl
drop-length (x ∷ xs) = drop-length xs

hashes_loop-nil : (m : ℕ) → hashes_loop m [] ≡ ok []
unfolding hashes_loop
hashes_loop-nil zero = refl
hashes_loop-nil (suc m) = refl

hashes_loop-one : (m : ℕ) (h : Hash) → IsHash h → 0 < m → hashes_loop m h ≡ ok (h ∷ [])
unfolding hashes_loop map_result
hashes_loop-one zero h e p = absurd (omega arith)
hashes_loop-one (suc m) h e p =
    let all : take 32 h ≡ h = ap (λ (n : ℕ). take n h) (sym e) ∙ take-length h in
    let nothing : drop 32 h ≡ [] = ap (λ (n : ℕ). drop n h) (sym e) ∙ drop-length h in
    rw (e, nothing, hashes_loop-nil m) (ground (arith, all))

hashes_loop-cons :
    (m : ℕ) (raw : Bytes)
    → 32 ≤ length raw
    → hashes_loop (suc m) raw
      ≡ map_result (λ (hs : List Hash). take 32 raw ∷ hs) (hashes_loop m (drop 32 raw))
unfolding hashes_loop
hashes_loop-cons m raw h = ground arith

hashes_loop-long :
    (m : ℕ) (raw : Bytes) {hs : List Hash}
    → 0 < length raw
    → hashes_loop (suc m) raw ≡ ok hs
    → 32 ≤ length raw
unfolding hashes_loop
hashes_loop-long m raw p r = ground arith

map_result-eq-ok :
    {A B : Type 0} (f : A → B) (r : Result A) {b : B}
    → map_result f r ≡ ok b
    → (a : A) × (r ≡ ok a) × (f a ≡ b)
unfolding map_result
map_result-eq-ok f (ok a) h = (a, refl, cc)
map_result-eq-ok f (err e) h = cc

hashes_loop-append :
    (fuel m : ℕ) (raw : Bytes) (h : Hash) {hs : List Hash}
    → IsHash h
    → length raw ≤ fuel
    → length raw < m
    → hashes_loop fuel raw ≡ ok hs
    → hashes_loop m (raw ++ h) ≡ ok (hs ++ (h ∷ []))
hashes_loop-append fuel m [] h e p q r =
    ground (arith, hashes_loop-one m h e (omega arith), hashes_loop-nil fuel)
hashes_loop-append zero m (x ∷ raw) h e p q r = absurd (omega arith)
hashes_loop-append (suc fuel) zero (x ∷ raw) h e p q r = absurd (omega arith)
hashes_loop-append (suc fuel) (suc m) (x ∷ raw) h {hs} e p q r =
    let whole : Bytes = x ∷ raw in
    let long = hashes_loop-long fuel whole (omega arith) r in
    let (tl, f, g) =
      map_result-eq-ok (λ (t : List Hash). take 32 whole ∷ t) (hashes_loop fuel (drop 32 whole))
        (sym (hashes_loop-cons fuel whole long) ∙ r) in
    let ih =
      hashes_loop-append fuel m (drop 32 whole) h e (omega (arith, length-drop 32 whole))
        (omega (arith, length-drop 32 whole)) f in
    hashes_loop-cons m (whole ++ h) (omega (arith, length-append whole h))
    ∙ ap (λ (b : Bytes). map_result (λ (t : List Hash). take 32 (whole ++ h) ∷ t) (hashes_loop m b))
        (drop-append_le 32 whole h long)
    ∙ ap (map_result (λ (t : List Hash). take 32 (whole ++ h) ∷ t)) ih
    ∙ unfold map_result in
      ap (λ (t : List Hash). ok t)
        (ap (λ (b : Bytes). b ∷ (tl ++ (h ∷ []))) (take-append_le 32 whole h long)
          ∙ ap (λ (t : List Hash). t ++ (h ∷ [])) g)

hashes_loop-or_empty :
    (o : Option Bytes) {hs : List Hash}
    → spend_tx_hashes (ok o) ≡ ok hs
    → hashes_loop (length (or_empty o)) (or_empty o) ≡ ok hs
unfolding spend_tx_hashes or_empty
hashes_loop-or_empty none f = f
hashes_loop-or_empty (some raw) f = f

-- In a ready store, putRawUnminedInput of a hash under a key that is not empty succeeds, and the
-- spending transactions of the outpoint are then the earlier ones, in their order, and then the
-- new one.
pub fetch-put_raw_unmined_input :
    {S : Type 0} (ns : Bucket S) {Ready : ℕ → S → Type 0} (laws : IsBucket ns Ready) (n : ℕ)
    (k : Bytes) (h : Hash) (s : S) {o : Option Bytes} {hs : List Hash}
    → Ready (suc n) s
    → 0 < length k
    → IsHash h
    → ns.get k s ≡ ok o
    → fetch_unmined_input_spend_tx_hashes ns k s ≡ ok hs
    → ((put_raw_unmined_input ns k h s).0 ≡ ok tt)
      × (fetch_unmined_input_spend_tx_hashes ns k (put_raw_unmined_input ns k h s).1
          ≡ ok (hs ++ (h ∷ [])))
unfolding put_raw_unmined_input fetch_unmined_input_spend_tx_hashes ◌>>=◌
fetch-put_raw_unmined_input ns laws n k h s {o} {hs} r pos e g f =
    let raw = or_empty o in
    let found : spend_tx_hashes (ok o) ≡ ok hs = ap spend_tx_hashes (sym g) ∙ f in
    let some_bytes : 0 < length (raw ++ h) = omega (arith, length-append raw h) in
    rw g (
      (laws.put_lem n k (raw ++ h) s r pos some_bytes).0,
      rw (get-put_self ns laws n k s (raw ++ h) r pos some_bytes g) (
          hashes_loop-append (length raw) (length (raw ++ h)) raw h e (omega arith)
            (omega (arith, length-append raw h)) (hashes_loop-or_empty o found)),
    )
