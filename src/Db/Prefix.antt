-- ===== src/Db/Prefix.antt =====
-- `bytes_prefix p` is the range of exactly the keys that begin with `p`.
use mass_net_wallet.Prelude.{
  ℕ, zero, suc, ◌+◌, ◌%◌, ◌<◌, ◌≡◌, refl, ap, false, ◌∙◌, Option, none, some, [], ◌∷◌, arith, ltb,
  if◌then◌else◌, length,
}
use mass_net_wallet.Prelude.Bytes.{Bytes, IsBytes, has_prefix}
use mass_net_wallet.Db.{limit_loop, bytes_prefix, bytes_lt, in_range}

-- The same limit, computed from the front.
extend : ℕ → Option Bytes → Option Bytes
extend b (some l) = some (b ∷ l)
extend b none = if ltb b 0xff then some (((b + 1) % 256) ∷ []) else none

limit_of : Bytes → Option Bytes
limit_of [] = none
limit_of (b ∷ bs) = extend b (limit_of bs)

limit_loop-cons : (i b : ℕ) (bs : Bytes) → limit_loop (suc i) (b ∷ bs) ≡ extend b (limit_loop i bs)
unfolding limit_loop extend
limit_loop-cons zero b bs = ground arith
limit_loop-cons (suc i) b bs = ground (arith, limit_loop-cons i b bs)

limit_loop-limit_of : (p : Bytes) → limit_loop (length p) p ≡ limit_of p
unfolding limit_of
limit_loop-limit_of [] = unfold limit_loop in refl
limit_loop-limit_of (b ∷ bs) =
    limit_loop-cons (length bs) b bs ∙ ap (extend b) (limit_loop-limit_of bs)

bytes_lt-nil : (bs : Bytes) → bytes_lt bs [] ≡ false
unfolding bytes_lt
bytes_lt-nil [] = refl
bytes_lt-nil (b ∷ bs) = refl

in_range-extend :
    (b c : ℕ) (bs cs : Bytes) (o : Option Bytes)
    → c < 256
    → in_range (record { start = bs; limit = o }) cs ≡ has_prefix bs cs
    → in_range (record { start = b ∷ bs; limit = extend b o }) (c ∷ cs)
      ≡ has_prefix (b ∷ bs) (c ∷ cs)
unfolding in_range extend has_prefix
in_range-extend b c bs cs none h ih = ground (arith, bytes_lt-nil cs)
in_range-extend b c bs cs (some l) h ih = ground arith

in_range-limit_of :
    (p k : Bytes)
    → IsBytes k
    → in_range (record { start = p; limit = limit_of p }) k ≡ has_prefix p k
unfolding in_range limit_of extend has_prefix
in_range-limit_of [] [] h = refl
in_range-limit_of [] (c ∷ cs) h = refl
in_range-limit_of (b ∷ bs) [] h = ground arith
in_range-limit_of (b ∷ bs) (c ∷ cs) h =
    in_range-extend b c bs cs (limit_of bs) h.0 (in_range-limit_of bs cs h.1)

-- An iterator over `bytes_prefix p` visits a key, whatever bytes it has, exactly when the key
-- begins with `p`.
pub in_range-bytes_prefix : (p k : Bytes) → IsBytes k → in_range (bytes_prefix p) k ≡ has_prefix p k
unfolding bytes_prefix
in_range-bytes_prefix p k h = rw (limit_loop-limit_of p) (in_range-limit_of p k h)
