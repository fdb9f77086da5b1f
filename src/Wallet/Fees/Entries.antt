-- ===== src/Wallet/Fees/Entries.antt =====
-- masswallet/common.go: how many entries of a map a set of its keys selects.
use mass_net_wallet.Prelude.{
  ◌+◌, ◌≡◌, refl, ◌∙◌, inl, inr, true, false, ◌||◌, List, [], ◌∷◌, arith, length, count, count_none,
  Bool-cases,
}
use mass_net_wallet.Prelude.Bytes.{Bytes, bytes_eq, bytes_eq_iff}
use mass_net_wallet.Wallet.Fees.{member, all_known}

-- the keys of a map
abbrev pub Distinct : List Bytes → Type 0
Distinct [] = Unit {0}
Distinct (a ∷ rest) = (member a rest ≡ false) × Distinct rest

-- A member is equal to no key that is not one.
not_member :
    (a k : Bytes) (keys : List Bytes)
    → bytes_eq k a ≡ true
    → member a keys ≡ false
    → member k keys ≡ false
not_member a k keys e h = rw ((bytes_eq_iff k a).0 e) h

bytes_eq_sym : (a b : Bytes) → bytes_eq a b ≡ bytes_eq b a
bytes_eq_sym a b = ground (arith, bytes_eq_iff a b, bytes_eq_iff b a)

count-key_none :
    (a : Bytes) (keys : List Bytes) → member a keys ≡ false → count (λ k. bytes_eq k a) keys ≡ 0
unfolding member
count-key_none a [] h = refl
count-key_none a (k ∷ keys) h = ground (arith, count-key_none a keys, bytes_eq_sym a k)

-- A key that occurs is counted once.
count-key :
    (a : Bytes) (keys : List Bytes)
    → Distinct keys
    → member a keys ≡ true
    → count (λ k. bytes_eq k a) keys ≡ 1
unfolding member
count-key a [] d h = ground arith
count-key a (k ∷ keys) d h = elim (Bool-cases (bytes_eq k a)) [
  | inl t ↦
      let none_else : member a keys ≡ false = not_member k a keys (bytes_eq_sym a k ∙ t) d.0 in
      ground (arith, count-key_none a keys)
  | inr t ↦ ground (arith, bytes_eq_sym a k, count-key a keys)
]

count-or :
    (a : Bytes) (selected keys : List Bytes)
    → member a selected ≡ false
    → count (λ k. bytes_eq k a || member k selected) keys
      ≡ count (λ k. bytes_eq k a) keys + count (λ k. member k selected) keys
count-or a selected [] h = omega arith
count-or a selected (k ∷ keys) h =
    ground (arith, not_member a k selected, count-or a selected keys h)

-- Distinct keys that all occur select as many entries.
pub count-member :
    (selected keys : List Bytes)
    → Distinct selected
    → Distinct keys
    → all_known selected keys ≡ true
    → count (λ k. member k selected) keys ≡ length selected
unfolding member all_known
count-member [] keys d e h = count_none (λ k. member k []) (λ k. refl) keys
count-member (a ∷ selected) keys d e h =
    let known : (member a keys ≡ true) × (all_known selected keys ≡ true) = ground arith in
    omega (
      arith,
      count-or a selected keys d.0,
      count-key a keys e known.0,
      count-member selected keys d.1 e known.1,
    )
