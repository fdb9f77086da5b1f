-- ===== src/Tests/Memory.antt =====
-- A store in memory that behaves as goleveldb is documented to, for the concrete runs.
use mass_net_wallet.Prelude.{
  ◌≡◌, refl, sym, ap, ◌∙◌, Bool, true, false, ◌&&◌, Option, none, some, List, [], ◌∷◌, foldl, arith,
  ltb, if◌then◌else◌, All,
}
use mass_net_wallet.Prelude.Bytes.{Bytes, IsBytes, bytes_eq, bytes_eq_iff}
use mass_net_wallet.Prelude.Exec.{Result, ok}
use mass_net_wallet.Db.{Entry, Range, in_range, lookup}
use mass_net_wallet.Ldb.Batch.{BatchOp, put_op, delete_op}
use mass_net_wallet.Ldb.Batch.Net.{last_op, step_op}
use mass_net_wallet.Ldb.Transaction.{
  Found, value, absent, Leveldb, IsLeveldb, is_failed, found_value, after,
}

is_bytes : Bytes → Bool
is_bytes [] = true
is_bytes (b ∷ bs) = ltb b 256 && is_bytes bs

abbrev found : Option Bytes → Found
found none = absent
found (some v) = value v

keep : Range → List Entry → List Entry
keep r [] = []
keep r (e ∷ es) =
    let rest = keep r es in if is_bytes e.key && in_range r e.key then e ∷ rest else rest

unfoldable pub without : Bytes → List Entry → List Entry
without k [] = []
without k (e ∷ es) = let rest = without k es in if bytes_eq e.key k then rest else e ∷ rest

apply : List Entry → BatchOp → List Entry
apply d (put_op k v) = record { key = k; value = v } ∷ d
apply d (delete_op k) = without k d

unfoldable pub memory : Leveldb (List Entry)
unfolding keep is_bytes apply without
memory = record {
  get = λ d k. found (lookup k d);
  scan = λ d r. (keep r d, none);
  write = λ d ops. (ok tt, foldl apply d ops);
}

is_bytes_iff : (k : Bytes) → IsBytes k → is_bytes k ≡ true
unfolding is_bytes
is_bytes_iff [] h = refl
is_bytes_iff (b ∷ bs) h = ground (arith, is_bytes_iff bs h.1)

is_bytes_sound : (k : Bytes) → is_bytes k ≡ true → IsBytes k
unfolding is_bytes
is_bytes_sound [] h = tt
is_bytes_sound (b ∷ bs) h = (ground arith, is_bytes_sound bs (ground arith))

lookup-keep :
    (r : Range) (k : Bytes) (es : List Entry)
    → IsBytes k
    → lookup k (keep r es) ≡ (if in_range r k then lookup k es else none)
unfolding keep lookup
lookup-keep r k [] h = ground arith
lookup-keep r k (e ∷ es) h =
    ground (arith, lookup-keep r k es h, bytes_eq_iff e.key k, is_bytes_iff k h)

keep-within :
    (r : Range) (es : List Entry)
    → All (λ (e : Entry). IsBytes e.key × (in_range r e.key ≡ true)) (keep r es)
unfolding keep
keep-within r [] = tt
keep-within r (e ∷ es) = go (is_bytes e.key) (in_range r e.key) refl refl (keep-within r es)
  where
    go :
        (a b : Bool)
        → is_bytes e.key ≡ a
        → in_range r e.key ≡ b
        → All (λ (e : Entry). IsBytes e.key × (in_range r e.key ≡ true)) (keep r es)
        → All
            (λ (e : Entry). IsBytes e.key × (in_range r e.key ≡ true))
            (if a && b then e ∷ keep r es else keep r es)
    go true true p q tail = ((is_bytes_sound e.key p, q), tail)
    go true false p q tail = tail
    go false b p q tail = tail

pub lookup-without :
    (k j : Bytes) (es : List Entry)
    → lookup j (without k es) ≡ (if bytes_eq k j then none else lookup j es)
unfolding without lookup
lookup-without k j [] = ground arith
lookup-without k j (e ∷ es) =
    ground
      (arith, lookup-without k j es, bytes_eq_iff e.key k, bytes_eq_iff e.key j, bytes_eq_iff k j)

found_value-found : (o : Option Bytes) → found_value (found o) ≡ o
found_value-found none = refl
found_value-found (some v) = refl

is_failed-found : (o : Option Bytes) → is_failed (found o) ≡ false
is_failed-found none = refl
is_failed-found (some v) = refl

lookup-apply :
    (d : List Entry) (op : BatchOp) (k : Bytes) (o : Option (Option Bytes)) (f : Found)
    → found (lookup k d) ≡ after o f
    → found (lookup k (apply d op)) ≡ after (step_op k o op) f
unfolding apply lookup step_op
lookup-apply d (put_op j v) k o f h = ground (arith, bytes_eq_iff j k)
lookup-apply d (delete_op j) k o f h = ground (arith, bytes_eq_iff j k, lookup-without j k d)

lookup-foldl :
    (ops : List BatchOp) (d : List Entry) (k : Bytes) (o : Option (Option Bytes)) (f : Found)
    → found (lookup k d) ≡ after o f
    → found (lookup k (foldl apply d ops)) ≡ after (foldl (step_op k) o ops) f
lookup-foldl [] d k o f h = h
lookup-foldl (op ∷ ops) d k o f h =
    lookup-foldl ops (apply d op) k (step_op k o op) f (lookup-apply d op k o f h)

pub memory-IsLeveldb : IsLeveldb memory
unfolding memory
memory-IsLeveldb = record {
  lookup-scan = λ d r k e h g.
      ap (lookup k) (sym (ap (λ p. p.0) e))
      ∙ lookup-keep r k d h
      ∙ rw (found_value-found (lookup k d)) refl;
  scan_within = λ d r e. rw (← ap (λ p. p.0) e) (keep-within r d);
  get-write = λ d ops k e.
      ap (λ (r : Result (Unit {0}) × List Entry). found (lookup k r.1)) (sym e)
      ∙ unfold last_op in lookup-foldl ops d k none (found (lookup k d)) refl;
}
