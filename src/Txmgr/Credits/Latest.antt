-- ===== src/Txmgr/Credits/Latest.antt =====
-- The search for the latest credit of an output up to a height.
use mass_net_wallet.Prelude.{
  ℕ, ◌≤◌, ◌<◌, ◌≡◌, ◌⊎◌, inl, inr, refl, ap, Bool, true, ◌&&◌, Option, none, some, List, [], ◌∷◌,
  arith, leb, ltb, ◌==◌, if◌then◌else◌, Bool-cases,
}
use mathlib.Core.Path.{subst, sym}
use mass_net_wallet.Prelude.Bytes.{be, slice}
use mass_net_wallet.Prelude.Exec.{ok}
use mass_net_wallet.Db.{Entry, Bucket}
use mass_net_wallet.Txmgr.{Hash}
use mass_net_wallet.Txmgr.Credits.{last_loop, get_last_credit_by_tx_hash_index_till_height}

abbrev pub entry_height : Entry → ℕ
entry_height e = be (slice 32 40 e.key)

abbrev pub entry_index : Entry → ℕ
entry_index e = be (slice 72 76 e.key)

-- an entry that the search may return
pub record IsCandidate (index height : ℕ) (e : Entry) : Type 0 where
  pub same : entry_index e ≡ index
  pub reached : entry_height e ≤ height
  pub mined : 0 < entry_height e

-- membership
abbrev pub Among : Entry → List Entry → Type 0
Among e [] = ⊥
Among e (f ∷ es) = (f ≡ e) ⊎ Among e es

abbrev height_of : Option Entry → ℕ
height_of none = 0
height_of (some e) = entry_height e

abbrev is_taken : ℕ → ℕ → Entry → Option Entry → Bool
is_taken index height e ret =
    entry_index e == index && (leb (entry_height e) height && ltb (height_of ret) (entry_height e))

module _ {S : Type 0} (ns : Bucket S) (index height : ℕ) where
  -- the loop, with its two variables in step
  latest : Option Entry → List Entry → Option Entry
  latest ret es = last_loop ns index height (height_of ret) ret es

  latest-cons :
      (ret : Option Entry) (e : Entry) (es : List Entry)
      → latest ret (e ∷ es) ≡ latest (if is_taken index height e ret then some e else ret) es
  unfolding latest last_loop
  latest-cons ret e es = elim (Bool-cases (is_taken index height e ret)) [
    | inl t ↦ rw t
    | inr t ↦ rw t
  ]

  latest-grows : (ret : Option Entry) (es : List Entry) → height_of ret ≤ height_of (latest ret es)
  latest-grows ret [] = unfold latest last_loop in omega arith
  latest-grows ret (e ∷ es) =
      rw (latest-cons ret e es)
        (ground (arith, latest-grows (if is_taken index height e ret then some e else ret) es))

  latest-upper :
      (ret : Option Entry) (es : List Entry) (e : Entry)
      → Among e es
      → IsCandidate index height e
      → entry_height e ≤ height_of (latest ret es)
  latest-upper ret [] e m c = absurd m
  latest-upper ret (f ∷ es) e (inl p) c =
      let c' : IsCandidate index height f = subst (IsCandidate index height) (sym p) c in
      rw (latest-cons ret f es, ← p)
        (ground (
          arith,
          latest-grows (if is_taken index height f ret then some f else ret) es,
          c'.same,
          c'.reached,
          c'.mined,
        ))
  latest-upper ret (f ∷ es) e (inr m) c =
      rw (latest-cons ret f es)
        (latest-upper (if is_taken index height f ret then some f else ret) es e m c)

  taken-IsCandidate :
      (ret : Option Entry) (e : Entry)
      → is_taken index height e ret ≡ true
      → IsCandidate index height e
  taken-IsCandidate ret e t = ground arith

  latest-found :
      (ret : Option Entry) (es : List Entry) {e : Entry}
      → latest ret es ≡ some e
      → (ret ≡ some e) ⊎ (Among e es × IsCandidate index height e)
  latest-found ret [] h = inl (unfold latest last_loop in h)
  latest-found ret (f ∷ es) {e} h = elim (Bool-cases (is_taken index height f ret)) [
    | inl t ↦ elim (latest-found (some f) es (rw t at (rw (latest-cons ret f es) at h))) [
      | inl q ↦
          let same : f ≡ e = cc q in
          inr (inl same, subst (IsCandidate index height) same (taken-IsCandidate ret f t))
      | inr (m, c) ↦ inr (inr m, c)
    ]
    | inr t ↦ elim (latest-found ret es (rw t at (rw (latest-cons ret f es) at h))) [
      | inl q ↦ inl q
      | inr (m, c) ↦ inr (inr m, c)
    ]
  ]

-- Where the entries under the transaction's hash hold a credit of that output in a block from 1 to
-- `height`, the search returns such a credit, and one that is no lower than any other.
pub get_last_credit_by_tx_hash_index_till_height_latest :
    {S : Type 0} (ns : Bucket S) (tx_sha : Hash) (index height : ℕ) (s : S) (e : Entry)
    {es : List Entry} {r : Option Entry}
    → ns.get_by_prefix tx_sha s ≡ ok es
    → get_last_credit_by_tx_hash_index_till_height ns tx_sha index height s ≡ ok r
    → Among e es
    → IsCandidate index height e
    → (l : Entry) × (r ≡ some l)
      × Among l es
      × IsCandidate index height l
      × (entry_height e ≤ entry_height l)
unfolding get_last_credit_by_tx_hash_index_till_height
get_last_credit_by_tx_hash_index_till_height_latest ns tx_sha index height s e {es} {r} g h m c =
    go r (unfold latest in ground arith)
  where
    go :
        (r : Option Entry)
        → latest ns index height none es ≡ r
        → (l : Entry) × (r ≡ some l)
          × Among l es
          × IsCandidate index height l
          × (entry_height e ≤ entry_height l)
    go none p =
        absurd (omega (arith, latest-upper ns index height none es e m c, ap height_of p, c.mined))
    go (some l) p = elim (latest-found ns index height none es p) [
      | inl q ↦ cc
      | inr (ml, cl) ↦ (
        l,
        refl,
        ml,
        cl,
        omega (arith, latest-upper ns index height none es e m c, ap height_of p),
      )
    ]
