-- ===== src/Tests/Namespaces.antt =====
-- A store in memory with a list of entries for each bucket, for the concrete runs of the stores.
use mass_net_wallet.Prelude.{
  ℕ, ◌<◌, ◌≡◌, ◌≢◌, refl, sym, ap, ◌∙◌, false, ◌||◌, Option, none, some, List, [], ◌∷◌, arith,
  if◌then◌else◌, length, ◌==◌, Bool-cases, inl, inr,
}
use mass_net_wallet.Prelude.Bytes.{Bytes, bytes_eq, bytes_eq_iff, has_prefix}
use mass_net_wallet.Prelude.Exec.{illegal_key, ok, err}
use mass_net_wallet.Prelude.Keeps.{ok_inj}
use mass_net_wallet.Db.{Entry, Bucket, IsBucket, lookup, now}
use mass_net_wallet.Db.Rules.{bytes_eq-ne}
use mass_net_wallet.Txmgr.Store.{Namespace, Namespace-discrete, IsStore}
use mass_net_wallet.Tests.Memory.{without, lookup-without}

abbrev pub Tables : Type 0
Tables = Namespace → List Entry

pick : {P : Type 0} → Dec P → List Entry → List Entry → List Entry
pick (yes p) x y = x
pick (no p) x y = y

pick-yes : {P : Type 0} (d : Dec P) (x y : List Entry) → P → pick d x y ≡ x
unfolding pick
pick-yes (yes p) x y h = refl
pick-yes (no p) x y h = absurd (p h)

pick-no : {P : Type 0} (d : Dec P) (x y : List Entry) → ¬ P → pick d x y ≡ y
unfolding pick
pick-no (yes p) x y h = absurd (h p)
pick-no (no p) x y h = refl

set_table : Namespace → List Entry → Tables → Tables
set_table a es s b = pick (Namespace-discrete a b) es (s b)

with_prefix : Bytes → List Entry → List Entry
with_prefix p [] = []
with_prefix p (e ∷ es) =
    let rest = with_prefix p es in if has_prefix p e.key then e ∷ rest else rest

unfoldable pub tables : Namespace → Bucket Tables
unfolding set_table pick with_prefix without lookup Namespace-discrete
tables a = record {
  get = λ k s. ok (lookup k (s a));
  put = λ k v s.
      if length k == 0 || (length v == 0)
      then (err illegal_key, s)
      else (ok tt, set_table a (record { key = k; value = v } ∷ s a) s);
  delete = λ k s. (ok tt, set_table a (without k (s a)) s);
  get_by_prefix = λ p s. ok (with_prefix p (s a));
}

set_table_self : (a : Namespace) (es : List Entry) (s : Tables) → set_table a es s a ≡ es
unfolding set_table
set_table_self a es s = pick-yes (Namespace-discrete a a) es (s a) refl

set_table_apart :
    (a b : Namespace) (es : List Entry) (s : Tables) → a ≢ b → set_table a es s b ≡ s b
unfolding set_table
set_table_apart a b es s h = pick-no (Namespace-discrete a b) es (s b) h

lookup-with_prefix :
    (p k : Bytes) (es : List Entry)
    → lookup k (with_prefix p es) ≡ (if has_prefix p k then lookup k es else none)
unfolding with_prefix lookup
lookup-with_prefix p k [] = ground arith
lookup-with_prefix p k (e ∷ es) = ground (arith, lookup-with_prefix p k es, bytes_eq_iff e.key k)

abbrev Any : ℕ → Tables → Type 0
Any n s = Unit {0}

module _ (a : Namespace) (k v j : Bytes) (s : Tables) where
  filled : 0 < length k → 0 < length v → (length k == 0 || (length v == 0)) ≡ false
  filled hk hv = ground arith

  put-eq :
      0 < length k
      → 0 < length v
      → (tables a).put k v s ≡ (ok tt, set_table a (record { key = k; value = v } ∷ s a) s)
  unfolding tables
  put-eq hk hv = rw (filled hk hv) refl

  get-put :
      0 < length k
      → 0 < length v
      → (tables a).get j ((tables a).put k v s).1
        ≡ (if bytes_eq k j then now (some v) ((tables a).get k s) else (tables a).get j s)
  get-put hk hv = rw (put-eq hk hv) (
      unfold tables in rw (set_table_self a (record { key = k; value = v } ∷ s a) s) (ground arith))

  get-delete :
      (tables a).get j ((tables a).delete k s).1
      ≡ (if bytes_eq k j then now none ((tables a).get k s) else (tables a).get j s)
  unfolding tables
  get-delete = rw (set_table_self a (without k (s a)) s, lookup-without k j (s a)) (ground arith)

  get-put_ne : k ≢ j → (tables a).get j ((tables a).put k v s).1 ≡ (tables a).get j s
  unfolding tables
  get-put_ne h = elim (Bool-cases (length k == 0 || (length v == 0))) [
    | inl e ↦ rw e refl
    | inr e ↦
        rw (e, set_table_self a (record { key = k; value = v } ∷ s a) s, bytes_eq-ne k j h) refl
  ]

  module _ (b : Namespace) (h : a ≢ b) where
    get-put_apart : (tables b).get j ((tables a).put k v s).1 ≡ (tables b).get j s
    unfolding tables
    get-put_apart = elim (Bool-cases (length k == 0 || (length v == 0))) [
      | inl e ↦ rw e refl
      | inr e ↦ rw (e, set_table_apart a b (record { key = k; value = v } ∷ s a) s h) refl
    ]

    get-delete_apart : (tables b).get j ((tables a).delete k s).1 ≡ (tables b).get j s
    unfolding tables
    get-delete_apart = rw (set_table_apart a b (without k (s a)) s h) refl

by_prefix :
    (a : Namespace) (p k : Bytes) (s : Tables) (es : List Entry) (o : Option Bytes)
    → (tables a).get_by_prefix p s ≡ ok es
    → (tables a).get k s ≡ ok o
    → lookup k es ≡ (if has_prefix p k then o else none)
unfolding tables
by_prefix a p k s es o e g =
    ap (lookup k) (sym (ok_inj e)) ∙ lookup-with_prefix p k (s a) ∙ rw (ok_inj g) refl

tables-IsBucket : (a : Namespace) → IsBucket (tables a) Any
tables-IsBucket a = record {
  put_lem = λ n k v s r hk hv. rw (put-eq a k v [] s hk hv) (refl, tt);
  delete_lem = λ n k s r. (unfold tables in refl, tt);
  get-put = λ n k v j s r hk hv. get-put a k v j s hk hv;
  get-delete = λ n k j s r. get-delete a k [] j s;
  lookup-get_by_prefix = λ n p k s {es} {o} r hk pos e g. by_prefix a p k s es o e g;
}

pub tables-IsStore : IsStore tables Any
tables-IsStore = record {
  is_bucket = tables-IsBucket;
  put_ready = λ a n k v s r. tt;
  get-put_ne = λ a k v j s. get-put_ne a k v j s;
  get-put_apart = λ a b k v j s h. get-put_apart a k v j s b h;
  get-delete_apart = λ a b k j s h. get-delete_apart a k [] j s b h;
}
