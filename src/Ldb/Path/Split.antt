-- ===== src/Ldb/Path/Split.antt =====
-- A path splits into the components that it was joined from.
use mass_net_wallet.Prelude.{
  ℕ, zero, suc, ◌+◌, ◌-◌, ◌*◌, ◌/◌, ◌%◌, ◌<◌, ◌≤◌, ◌≡◌, refl, ap, ◌∙◌, true, List, [], ◌∷◌, ◌++◌,
  arith, All,
}
use mass_net_wallet.Prelude.Bytes.{Bytes}
use mass_net_wallet.Ldb.Path.{
  bucket_path_sep, join_bucket_path, split, itoa, itoa_loop, atoi_loop, no_sep, all_digits, atoi,
}

-- A component of a path has no separator in it.
abbrev pub IsComponent : Bytes → Type 0
IsComponent s = no_sep s ≡ true

split-component : (s : Bytes) → IsComponent s → split s ≡ s ∷ []
unfolding split no_sep
split-component [] h = refl
split-component (c ∷ cs) h = ground (arith, split-component cs)

split-append :
    (s rest : Bytes) → IsComponent s → split (s ++ (bucket_path_sep ∷ rest)) ≡ s ∷ split rest
unfolding split no_sep
split-append [] rest h = refl
split-append (c ∷ cs) rest h = ground (arith, split-append cs rest)

-- strings.Split undoes strings.Join on components without a separator.
pub split-join_bucket_path :
    (s : Bytes) (ss : List Bytes)
    → All IsComponent (s ∷ ss)
    → split (join_bucket_path (s ∷ ss)) ≡ s ∷ ss
unfolding join_bucket_path
split-join_bucket_path s [] h = split-component s h.0
split-join_bucket_path s (t ∷ ts) h =
    split-append s (join_bucket_path (t ∷ ts)) h.0
    ∙ ap (λ (r : List Bytes). s ∷ r) (split-join_bucket_path t ts h.1)

no_sep-append : (xs ys : Bytes) → IsComponent xs → IsComponent ys → IsComponent (xs ++ ys)
unfolding no_sep
no_sep-append [] ys h k = k
no_sep-append (x ∷ xs) ys h k = ground (arith, no_sep-append xs ys)

itoa_loop-IsComponent : (fuel n : ℕ) → IsComponent (itoa_loop fuel n)
unfolding itoa_loop no_sep
itoa_loop-IsComponent zero n = refl
itoa_loop-IsComponent (suc fuel) n = ground (
  arith,
  itoa_loop-IsComponent fuel (n / 10),
  no_sep-append (itoa_loop fuel (n / 10)) ((b'0' + n % 10) ∷ []),
)

pub itoa-IsComponent : (n : ℕ) → IsComponent (itoa n)
unfolding itoa
itoa-IsComponent n = itoa_loop-IsComponent (suc n) n

atoi_loop-append :
    (acc : ℕ) (xs : Bytes) (c : ℕ)
    → atoi_loop acc (xs ++ (c ∷ [])) ≡ atoi_loop acc xs * 10 + (c - b'0')
unfolding atoi_loop
atoi_loop-append acc [] c = refl
atoi_loop-append acc (x ∷ xs) c = atoi_loop-append (acc * 10 + (x - b'0')) xs c

atoi_loop-itoa_loop : (fuel n : ℕ) → n < fuel → atoi_loop 0 (itoa_loop fuel n) ≡ n
unfolding itoa_loop atoi_loop
atoi_loop-itoa_loop zero n h = elim h [ ]
atoi_loop-itoa_loop (suc fuel) n h = ground (
  arith,
  atoi_loop-itoa_loop fuel (n / 10),
  atoi_loop-append 0 (itoa_loop fuel (n / 10)) (b'0' + n % 10),
)

all_digits-append :
    (xs : Bytes) (c : ℕ)
    → all_digits xs ≡ true
    → b'0' ≤ c
    → c ≤ b'9'
    → all_digits (xs ++ (c ∷ [])) ≡ true
unfolding all_digits
all_digits-append [] c h p q = ground arith
all_digits-append (x ∷ xs) c h p q = ground (arith, all_digits-append xs c)

all_digits-itoa_loop : (fuel n : ℕ) → all_digits (itoa_loop fuel n) ≡ true
unfolding itoa_loop all_digits
all_digits-itoa_loop zero n = refl
all_digits-itoa_loop (suc fuel) n = ground (
  arith,
  all_digits-itoa_loop fuel (n / 10),
  all_digits-append (itoa_loop fuel (n / 10)) (b'0' + n % 10),
)

pub all_digits-itoa : (n : ℕ) → all_digits (itoa n) ≡ true
unfolding itoa
all_digits-itoa n = all_digits-itoa_loop (suc n) n

-- The depth is read back from its digits.
pub atoi-itoa : (n : ℕ) → atoi (itoa n) ≡ n
unfolding atoi itoa
atoi-itoa n = ground (arith, all_digits-itoa_loop (suc n) n, atoi_loop-itoa_loop (suc n) n)
