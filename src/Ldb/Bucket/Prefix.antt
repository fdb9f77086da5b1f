-- ===== src/Ldb/Bucket/Prefix.antt =====
-- GetByPrefix gives exactly the pairs of the bucket under a prefix, as Get reads them.
use mass_net_wallet.Prelude.{
  ℕ, ◌+◌, ◌<◌, ◌≡◌, refl, sym, ap, ◌∙◌, inl, inr, Bool, true, false, Option, none, some, List, [],
  ◌∷◌, ◌++◌, arith, if◌then◌else◌, length, Bool-cases, append_assoc, length-append,
}
use mass_net_wallet.Prelude.Bytes.{Bytes, IsBytes, bytes_eq, bytes_eq_iff, IsBytes-append}
use mass_net_wallet.Prelude.Exec.{ok}
use mass_net_wallet.Ldb.Path.{LevelBucket, inner_key}
use mass_net_wallet.Ldb.Batch.{batch_get}
use mass_net_wallet.Ldb.Transaction.{Leveldb, IsLeveldb, Transaction}
use mass_net_wallet.Ldb.Bucket.{get}
use mass_net_wallet.Ldb.Bucket.Reads.{IsReady, get_flat, flat_key, get-get_flat}
use mass_net_wallet.Prelude.{map, drop, All}
use mass_net_wallet.Prelude.Bytes.{has_prefix}
use mass_net_wallet.Db.{Entry, lookup, bytes_prefix, in_range}
use mass_net_wallet.Db.Prefix.{in_range-bytes_prefix}
use mass_net_wallet.Ldb.Batch.{get_net_puts_by_prefix}
use mass_net_wallet.Ldb.Batch.Net.{lookup-get_net_puts_by_prefix, get_net_puts_by_prefix-All}
use mass_net_wallet.Ldb.Transaction.{is_failed}
use mass_net_wallet.Ldb.Bucket.{disk_kept, add_net, strip, has_key, get_by_prefix}

lookup-append :
    (j : Bytes) (xs ys : List Entry)
    → lookup j (xs ++ ys) ≡ elim (lookup j xs) [ none ↦ lookup j ys | some v ↦ some v ]
unfolding lookup
lookup-append j [] ys = refl
lookup-append j (e ∷ xs) ys = ground (arith, lookup-append j xs ys)

has_key-lookup :
    (j : Bytes) (es : List Entry)
    → has_key j es ≡ elim (lookup j es) [ none ↦ false | some v ↦ true ]
unfolding lookup has_key
has_key-lookup j [] = refl
has_key-lookup j (e ∷ es) = ground (arith, has_key-lookup j es)

or_else : Option Bytes → Option Bytes → Option Bytes
or_else none o = o
or_else (some v) o = some v

module _ {D : Type 0} (l : Leveldb D) where
  lookup-add_net :
      (j : Bytes) (kept es : List Entry)
      → lookup j (add_net l kept es) ≡ or_else (lookup j kept) (lookup j es)
  unfolding add_net or_else lookup
  lookup-add_net j kept [] = ground arith
  lookup-add_net j kept (e ∷ es) = ground (
    arith,
    lookup-add_net j (kept ++ (e ∷ [])) es,
    lookup-add_net j kept es,
    lookup-append j kept (e ∷ []),
    has_key-lookup e.key kept,
    bytes_eq_iff e.key j,
  )

-- what the first loop keeps of one entry
pick : Bool → Option Bytes × Bool → Option Bytes → Option Bytes
pick true a o = o
pick false a none = none
pick false (v, true) (some w) = none
pick false (none, false) (some w) = some w
pick false (some v, false) (some w) = some v

module _ {D : Type 0} (l : Leveldb D) where
  lookup-disk_kept :
      (j : Bytes) (tx : Transaction D) (es : List Entry)
      → lookup j (disk_kept l tx es) ≡ pick tx.read_only (batch_get tx.b j) (lookup j es)
  unfolding disk_kept pick lookup
  lookup-disk_kept j tx [] = ground arith
  lookup-disk_kept j tx (e ∷ es) = ground (arith, lookup-disk_kept j tx es, bytes_eq_iff e.key j)

has_prefix-append : (p xs ys : Bytes) → has_prefix (p ++ xs) (p ++ ys) ≡ has_prefix xs ys
unfolding has_prefix
has_prefix-append [] xs ys = refl
has_prefix-append (x ∷ p) xs ys = ground (arith, has_prefix-append p xs ys)

has_prefix-left : (p q x : Bytes) → has_prefix (p ++ q) x ≡ true → has_prefix p x ≡ true
unfolding has_prefix
has_prefix-left [] q x h = refl
has_prefix-left (b ∷ p) q [] h = h
has_prefix-left (b ∷ p) q (c ∷ x) h = ground (arith, has_prefix-left p q x)

bytes_eq-drop :
    (p x k : Bytes) → has_prefix p x ≡ true → bytes_eq (drop (length p) x) k ≡ bytes_eq x (p ++ k)
unfolding has_prefix bytes_eq
bytes_eq-drop [] x k h = refl
bytes_eq-drop (b ∷ p) [] k h = cc
bytes_eq-drop (b ∷ p) (c ∷ x) k h = ground (arith, bytes_eq-drop p x k)

abbrev Under : Bytes → List Entry → Type 0
Under p = All (λ (e : Entry). has_prefix p e.key ≡ true)

module _ {D : Type 0} (l : Leveldb D) (p : Bytes) where
  -- Entries under a prefix, looked up without it.
  lookup-strip :
      (k : Bytes) (es : List Entry)
      → Under p es
      → lookup k (map (strip l (length p)) es) ≡ lookup (p ++ k) es
  unfolding lookup strip
  lookup-strip k [] u = refl
  lookup-strip k (e ∷ es) u = ground (arith, lookup-strip k es u.1, bytes_eq-drop p e.key k)

  disk_kept-Under :
      (tx : Transaction D) (es : List Entry) → Under p es → Under p (disk_kept l tx es)
  unfolding disk_kept
  disk_kept-Under tx [] u = u
  disk_kept-Under tx (e ∷ es) u = ground (arith, disk_kept-Under tx es u.1)

  append-Under :
      (xs : List Entry) (e : Entry)
      → Under p xs
      → has_prefix p e.key ≡ true
      → Under p (xs ++ (e ∷ []))
  append-Under [] e u h = (h, tt)
  append-Under (x ∷ xs) e u h = (u.0, append-Under xs e u.1 h)

  add_net-Under : (kept es : List Entry) → Under p kept → Under p es → Under p (add_net l kept es)
  unfolding add_net
  add_net-Under kept [] u w = u
  add_net-Under kept (e ∷ es) u w = elim (Bool-cases (has_key e.key kept)) [
    | inl h ↦ rw h (add_net-Under kept es u w.1)
    | inr h ↦ rw h (add_net-Under (kept ++ (e ∷ [])) es (append-Under kept e u w.0) w.1)
  ]

-- The prefix inside the flat keys of a bucket, and what is under a longer prefix.
Under-shorter :
    (p q r : Bytes) (es : List Entry)
    → r ≡ p ++ q
    → All (λ (e : Entry). has_prefix r e.key ≡ true) es
    → Under p es
Under-shorter p q r [] h u = tt
Under-shorter p q r (e ∷ es) h u =
    (has_prefix-left p q e.key (cc (h, u.0)), Under-shorter p q r es h u.1)

scan-Under :
    (p : Bytes) (es : List Entry)
    → All (λ (e : Entry). IsBytes e.key × (in_range (bytes_prefix p) e.key ≡ true)) es
    → All (λ (e : Entry). has_prefix p e.key ≡ true) es
scan-Under p [] u = tt
scan-Under p (e ∷ es) u = (cc (in_range-bytes_prefix p e.key u.0.0, u.0.1), scan-Under p es u.1)

module _ {D : Type 0} (l : Leveldb D) (laws : IsLeveldb l) (b : LevelBucket) where
  -- the entries before the bucket's path is taken off their keys
  all_kept : Bytes → Transaction D → List Entry → List Entry
  all_kept prefix tx found =
      if tx.read_only
      then disk_kept l tx found
      else add_net l (disk_kept l tx found) (get_net_puts_by_prefix tx.b (flat_key b prefix))

  get_by_prefix-eq-ok :
      (prefix : Bytes) (tx : Transaction D) {es : List Entry}
      → get_by_prefix l b prefix tx ≡ ok es
      → (found : List Entry) × (l.scan tx.disk (bytes_prefix (flat_key b prefix)) ≡ (found, none))
        × (es ≡ map (strip l (length b.path + 1)) (all_kept prefix tx found))
  unfolding get_by_prefix inner_key flat_key all_kept
  get_by_prefix-eq-ok prefix tx e =
      ((l.scan tx.disk (bytes_prefix (flat_key b prefix))).0, ground arith, ground arith)

  sep_path : Bytes
  sep_path = b.path ++ (b'_' ∷ [])

  flat_key-sep_path : (k : Bytes) → flat_key b k ≡ sep_path ++ k
  unfolding flat_key sep_path
  flat_key-sep_path k = sym (append_assoc b.path (b'_' ∷ []) k)

  all_kept-Under :
      (prefix : Bytes) (tx : Transaction D) (found : List Entry)
      → l.scan tx.disk (bytes_prefix (flat_key b prefix)) ≡ (found, none)
      → Under sep_path (all_kept prefix tx found)
  unfolding all_kept
  all_kept-Under prefix tx found e =
      let whole = flat_key b prefix in
      let disk = disk_kept-Under l sep_path tx found (
        Under-shorter sep_path prefix whole found (flat_key-sep_path prefix)
          (scan-Under whole found (laws.scan_within tx.disk (bytes_prefix whole) e))) in
      elim (Bool-cases tx.read_only) [
        | inl r ↦ simp r disk
        | inr r ↦ simp r (
            add_net-Under l sep_path (disk_kept l tx found) (get_net_puts_by_prefix tx.b whole) disk
              (Under-shorter sep_path prefix whole (get_net_puts_by_prefix tx.b whole)
                (flat_key-sep_path prefix) (get_net_puts_by_prefix-All tx.b whole)))
      ]

  -- What the scan says of a key that the transaction can read.
  lookup-all_kept :
      (n : ℕ) (prefix k : Bytes) (tx : Transaction D) (found : List Entry) {o : Option Bytes}
      → IsBytes (flat_key b k)
      → IsReady n tx
      → l.scan tx.disk (bytes_prefix (flat_key b prefix)) ≡ (found, none)
      → get_flat l (flat_key b k) tx ≡ ok o
      → lookup (flat_key b k) (all_kept prefix tx found) ≡ (if has_prefix prefix k then o else none)
  lookup-all_kept n prefix k tx found ok_bytes r e g =
      let whole = flat_key b prefix in
      let fk = flat_key b k in
      let same : has_prefix whole fk ≡ has_prefix prefix k =
        unfold flat_key in
        has_prefix-append b.path (b'_' ∷ prefix) (b'_' ∷ k) ∙ unfold has_prefix in ground arith in
      let read : is_failed (l.get tx.disk fk) ≡ false = unfold get_flat in ground arith in
      let range = in_range-bytes_prefix whole fk ok_bytes in
      let scanned = laws.lookup-scan tx.disk (bytes_prefix whole) fk e ok_bytes read in
      let disk = lookup-disk_kept l fk tx found in
      let net = lookup-add_net l fk (disk_kept l tx found) (get_net_puts_by_prefix tx.b whole) in
      let batch = lookup-get_net_puts_by_prefix tx.b whole fk r.consistent in
      unfold all_kept pick or_else get_flat in
      ground (arith, same, read, range, scanned, disk, net, batch, r.consistent.agrees fk)

  -- In a transaction, the entries that GetByPrefix returns are, key by key, what Get reads: the
  -- pairs of the disk and of the transaction's own writes, less what it deleted. The transaction
  -- is ready, the two reads succeed, the key is not empty, and it and the bucket's path are bytes.
  pub lookup-get_by_prefix :
      (n : ℕ) (prefix k : Bytes) (tx : Transaction D) {es : List Entry} {o : Option Bytes}
      → IsBytes b.path
      → IsBytes k
      → IsReady n tx
      → 0 < length k
      → get_by_prefix l b prefix tx ≡ ok es
      → get l b k tx ≡ ok o
      → lookup k es ≡ (if has_prefix prefix k then o else none)
  lookup-get_by_prefix n prefix k tx hp hk r pos e g =
      let (found, scanned, shape) = get_by_prefix-eq-ok prefix tx e in
      let ok_bytes : IsBytes (flat_key b k) =
        unfold flat_key in IsBytes-append b.path (b'_' ∷ k) hp (omega arith, hk) in
      let len : length sep_path ≡ length b.path + 1 =
        unfold sep_path in length-append b.path (b'_' ∷ []) in
      ap (lookup k) shape
      ∙ ap (λ (m : ℕ). lookup k (map (strip l m) (all_kept prefix tx found))) (sym len)
      ∙ lookup-strip l sep_path k (all_kept prefix tx found)
          (all_kept-Under prefix tx found scanned)
      ∙ ap (λ (f : Bytes). lookup f (all_kept prefix tx found)) (sym (flat_key-sep_path k))
      ∙ lookup-all_kept n prefix k tx found ok_bytes r scanned (sym (get-get_flat l b k tx pos) ∙ g)
