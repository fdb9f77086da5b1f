-- ===== src/Db.antt =====
-- masswallet/db/db.go: ranges of keys, and the interface of a bucket.
pub mod Prefix
pub mod Rules
pub mod Drivers
use mass_net_wallet.Prelude.{
  ℕ, zero, suc, ◌+◌, ◌%◌, ◌≡◌, Bool, true, false, ◌&&◌, Option, none, some, List, [], ◌∷◌, ◌<◌, ltb,
  ◌==◌, if◌then◌else◌, length, take, set, get_or,
}
use mass_net_wallet.Prelude.Bytes.{Bytes, IsBytes, bytes_eq, has_prefix}
use mass_net_wallet.Prelude.Exec.{Error, Result, ok, err, Exec}

pub record Entry : Type 0 where
  pub key : Bytes
  pub value : Bytes

-- `limit` is `none` for a nil slice: no upper end.
pub record Range : Type 0 where
  pub start : Bytes
  pub limit : Option Bytes

-- The loop of `BytesPrefix` with `i` rounds left: it looks at prefix[i - 1]. `c + 1` is a byte.
pub limit_loop : ℕ → Bytes → Option Bytes
limit_loop zero prefix = none
limit_loop (suc i) prefix =
    let next = limit_loop i prefix in
    let c = get_or prefix i 0 in
    if ltb c 0xff then some (set (take (suc i) prefix) i ((c + 1) % 256)) else next

unfoldable pub bytes_prefix : Bytes → Range
unfolding limit_loop
bytes_prefix prefix = record { start = prefix; limit = limit_loop (length prefix) prefix }

-- bytes.Compare(a, b) < 0
unfoldable pub bytes_lt : Bytes → Bytes → Bool
bytes_lt [] [] = false
bytes_lt [] (b ∷ bs) = true
bytes_lt (a ∷ xs) [] = false
bytes_lt (a ∷ xs) (b ∷ ys) =
    let rest = bytes_lt xs ys in if ltb a b then true else if a == b then rest else false

-- The keys that an iterator over the range visits: Start <= key < Limit.
unfoldable pub in_range : Range → Bytes → Bool
unfolding bytes_lt
in_range r key =
    (if bytes_lt key r.start then false else true)
    && elim r.limit [ none ↦ true | some l ↦ bytes_lt key l ]

unfoldable pub lookup : Bytes → List Entry → Option Bytes
lookup k [] = none
lookup k (e ∷ es) = if bytes_eq e.key k then some e.value else lookup k es

-- A bucket of the store whose state is `S`: the methods that the stores call.
pub record Bucket (S : Type 0) : Type 0 where
  pub get : Bytes → S → Result (Option Bytes)
  pub put : Bytes → Bytes → Exec S (Unit {0})
  pub delete : Bytes → Exec S (Unit {0})
  pub get_by_prefix : Bytes → S → Result (List Entry)

-- A read after a write: the new value where the store can be read.
abbrev pub now : {A : Type 0} → A → Result A → Result A
now v (ok old) = ok v
now v (err e) = err e

-- What a client may rely on. `Ready n s` says that the store can be read and that `n` more writes
-- can be made; a read transaction is ready for none.
pub record IsBucket {S : Type 0} (b : Bucket S) (Ready : ℕ → S → Type 0) : Type 0 where
  pub put_lem :
      (n : ℕ) (k v : Bytes) (s : S)
      → Ready (suc n) s
      → 0 < length k
      → 0 < length v
      → ((b.put k v s).0 ≡ ok tt) × Ready n (b.put k v s).1
  pub delete_lem :
      (n : ℕ) (k : Bytes) (s : S)
      → Ready (suc n) s
      → ((b.delete k s).0 ≡ ok tt) × Ready n (b.delete k s).1
  pub get-put :
      (n : ℕ) (k v j : Bytes) (s : S)
      → Ready (suc n) s
      → 0 < length k
      → 0 < length v
      → b.get j (b.put k v s).1 ≡ (if bytes_eq k j then now (some v) (b.get k s) else b.get j s)
  pub get-delete :
      (n : ℕ) (k j : Bytes) (s : S)
      → Ready (suc n) s
      → b.get j (b.delete k s).1 ≡ (if bytes_eq k j then now none (b.get k s) else b.get j s)
  -- The entries under a prefix are the bucket's pairs with that prefix.
  pub lookup-get_by_prefix :
      (n : ℕ) (prefix k : Bytes) (s : S) {es : List Entry} {o : Option Bytes}
      → Ready n s
      → IsBytes k
      → 0 < length k
      → b.get_by_prefix prefix s ≡ ok es
      → b.get k s ≡ ok o
      → lookup k es ≡ (if has_prefix prefix k then o else none)
