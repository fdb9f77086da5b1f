-- ===== src/Prelude/Bytes.antt =====
-- Byte slices as lists of numbers: big-endian integers (encoding/binary), slices and fixed fields.
use Prim.Native.Nat.{ℕ, zero, suc, ◌+◌, ◌-◌, ◌*◌, ◌/◌, ◌%◌, ◌^◌, ◌≤◌, ◌<◌}
use mathlib.Core.Path.{◌≡◌, refl, ap, ◌∙◌}
use mathlib.Core.Logic.{◌↔◌}
use mathlib.Core.Bool.{Bool, true, false, ◌&&◌}
use mathlib.Core.List.{List, [], ◌∷◌, ◌++◌}
use native.Mathlib.Omega.{arith}
use native.Mathlib.Nat.{pow-suc, sub-zero}
use mass_net_wallet.Prelude.Tests.{◌==◌}
use mass_net_wallet.Prelude.Lists.{
  length, take, drop, replicate, get_or, All, length-append, length-take, length-drop,
  length-replicate, take-length, take-append_length, drop-append_add,
}

abbrev pub Bytes : Type 0
Bytes = List ℕ

abbrev pub IsBytes : Bytes → Type 0
IsBytes = All (λ b. b < 256)

-- PutUint16, PutUint32 and PutUint64 at widths 2, 4 and 8: the low `n` bytes, highest first.
unfoldable pub put_be : ℕ → ℕ → Bytes
put_be zero v = []
put_be (suc n) v = put_be n (v / 256) ++ (v % 256 ∷ [])

be_from : ℕ → Bytes → ℕ
be_from acc [] = acc
be_from acc (b ∷ bs) = be_from (acc * 256 + b) bs

-- Uint16, Uint32 and Uint64 of exactly that many bytes.
unfoldable pub be : Bytes → ℕ
unfolding be_from
be bs = be_from 0 bs

-- s[from:to]
unfoldable pub slice : ℕ → ℕ → Bytes → Bytes
slice from to bs = take (to - from) (drop from bs)

-- What `copy` leaves of `bs` in `n` bytes of a fresh slice.
unfoldable pub field : ℕ → Bytes → Bytes
field n bs = take n (bs ++ replicate n 0)

-- make([]byte, n)
unfoldable pub zeros : ℕ → Bytes
zeros n = replicate n 0

unfoldable pub bytes_eq : Bytes → Bytes → Bool
bytes_eq [] [] = true
bytes_eq [] (b ∷ bs) = false
bytes_eq (a ∷ xs) [] = false
bytes_eq (a ∷ xs) (b ∷ ys) = a == b && bytes_eq xs ys

-- bytes.HasPrefix(bs, prefix)
unfoldable pub has_prefix : Bytes → Bytes → Bool
has_prefix [] bs = true
has_prefix (p ∷ ps) [] = false
has_prefix (p ∷ ps) (b ∷ bs) = p == b && has_prefix ps bs

pub length-put_be : (n v : ℕ) → length (put_be n v) ≡ n
unfolding put_be
length-put_be zero v = refl
length-put_be (suc n) v =
    omega (arith, length-append (put_be n (v / 256)) (v % 256 ∷ []), length-put_be n (v / 256))

be_from-append : (acc : ℕ) (xs ys : Bytes) → be_from acc (xs ++ ys) ≡ be_from (be_from acc xs) ys
unfolding be_from
be_from-append acc [] ys = refl
be_from-append acc (x ∷ xs) ys = be_from-append (acc * 256 + x) xs ys

be_from-put_be : (n acc v : ℕ) → v < 256 ^ n → be_from acc (put_be n v) ≡ acc * 256 ^ n + v
unfolding be_from put_be
be_from-put_be zero acc v h = omega arith
be_from-put_be (suc n) acc v h = rw (be_from-append acc (put_be n (v / 256)) (v % 256 ∷ [])) (
    omega (
      arith,
      be_from-put_be n acc (v / 256) (omega (arith, pow-suc 256 n)),
      pow-suc 256 n,
      ap (λ (t : ℕ). acc * t) (pow-suc 256 n),
    ))

-- A number that fits is read back.
pub be-put_be : (n v : ℕ) → v < 256 ^ n → be (put_be n v) ≡ v
unfolding be
be-put_be n v h = omega (arith, be_from-put_be n 0 v h)

pub IsBytes-append : (xs ys : Bytes) → IsBytes xs → IsBytes ys → IsBytes (xs ++ ys)
IsBytes-append [] ys h k = k
IsBytes-append (x ∷ xs) ys h k = (h.0, IsBytes-append xs ys h.1 k)

pub put_be-IsBytes : (n v : ℕ) → IsBytes (put_be n v)
unfolding put_be
put_be-IsBytes zero v = tt
put_be-IsBytes (suc n) v =
    IsBytes-append (put_be n (v / 256)) (v % 256 ∷ []) (put_be-IsBytes n (v / 256)) (omega arith)

pub length-append_bytes : (xs ys : Bytes) → length (xs ++ ys) ≡ length xs + length ys
length-append_bytes = length-append

pub length-zeros : (n : ℕ) → length (zeros n) ≡ n
unfolding zeros
length-zeros n = length-replicate n 0

pub length-field : (n : ℕ) (bs : Bytes) → length (field n bs) ≡ n
unfolding field zeros
length-field n bs = omega (
  arith,
  length-take n (bs ++ replicate n 0),
  length-append bs (replicate n 0),
  length-replicate n (zero),
)

-- A field of the right length is what was copied.
pub field_self : (n : ℕ) (bs : Bytes) → length bs ≡ n → field n bs ≡ bs
unfolding field
field_self n bs h = rw (← h) (take-append_length bs (replicate (length bs) 0))

pub slice-append_skip :
    {n : ℕ} (from to : ℕ) (xs ys : Bytes)
    → length xs ≡ n
    → n ≤ from
    → slice from to (xs ++ ys) ≡ slice (from - n) (to - n) ys
unfolding slice
slice-append_skip {n} from to xs ys e h =
    rw (drop-append_add xs ys from (omega arith), e)
      (ap (λ (k : ℕ). take k (drop (from - n) ys)) (omega arith))

pub slice-append_head : (to : ℕ) (xs ys : Bytes) → length xs ≡ to → slice 0 to (xs ++ ys) ≡ xs
unfolding slice
slice-append_head to xs ys e = rw (sub-zero, ← e) (take-append_length xs ys)

pub slice_self : (to : ℕ) (xs : Bytes) → length xs ≡ to → slice 0 to xs ≡ xs
unfolding slice
slice_self to xs e = rw (sub-zero, ← e) (take-length xs)

pub take-append_le : (n : ℕ) (xs ys : Bytes) → n ≤ length xs → take n (xs ++ ys) ≡ take n xs
take-append_le zero xs ys h = refl
take-append_le (suc n) [] ys h = absurd (omega arith)
take-append_le (suc n) (x ∷ xs) ys h = ap (λ t. x ∷ t) (take-append_le n xs ys (omega arith))

pub drop-append_le : (n : ℕ) (xs ys : Bytes) → n ≤ length xs → drop n (xs ++ ys) ≡ drop n xs ++ ys
drop-append_le zero xs ys h = refl
drop-append_le (suc n) [] ys h = absurd (omega arith)
drop-append_le (suc n) (x ∷ xs) ys h = drop-append_le n xs ys (omega arith)

-- What lies inside the first part is read from it.
pub slice-append_left :
    (from to : ℕ) (xs ys : Bytes)
    → from ≤ to
    → to ≤ length xs
    → slice from to (xs ++ ys) ≡ slice from to xs
unfolding slice
slice-append_left from to xs ys h k =
    rw (drop-append_le from xs ys (omega arith))
      (take-append_le (to - from) (drop from xs) ys (omega (arith, length-drop from xs)))

pub get_or-append_skip :
    {n : ℕ} (i : ℕ) (xs ys : Bytes)
    → length xs ≡ n
    → n ≤ i
    → get_or (xs ++ ys) i 0 ≡ get_or ys (i - n) 0
get_or-append_skip {n} i [] ys e h = ap (λ (k : ℕ). get_or ys k 0) (omega arith)
get_or-append_skip {n} zero (x ∷ xs) ys e h = absurd (omega arith)
get_or-append_skip {n} (suc i) (x ∷ xs) ys e h =
    get_or-append_skip i xs ys refl (omega arith) ∙ ap (λ (k : ℕ). get_or ys k 0) (omega arith)

pub bytes_eq_iff : (xs ys : Bytes) → (bytes_eq xs ys ≡ true) ↔ (xs ≡ ys)
unfolding bytes_eq
bytes_eq_iff [] [] = ground arith
bytes_eq_iff [] (y ∷ ys) = ground arith
bytes_eq_iff (x ∷ xs) [] = ground arith
bytes_eq_iff (x ∷ xs) (y ∷ ys) = ground (arith, bytes_eq_iff xs ys)

pub bytes_eq_refl : (xs : Bytes) → bytes_eq xs xs ≡ true
bytes_eq_refl xs = (bytes_eq_iff xs xs).1 refl

pub ruleset lengths = (arith, length-append_bytes, length-put_be, length-zeros, length-field)
