-- ===== src/Ldb/Batch/Net.antt =====
-- What a batch answers for a key is its last put or delete of that key, and so is what the
-- `leveldb.Batch` beside it does to the store.
use mass_net_wallet.Prelude.{
  ℕ, ◌+◌, ◌%◌, ◌^◌, ◌<◌, ◌≤◌, ◌≡◌, refl, ◌∙◌, Bool, true, false, not, ◌==◌, Option, none, some,
  List, [], ◌∷◌, ◌++◌, arith, foldl, All, if◌then◌else◌,
}
use mass_net_wallet.Prelude.Bytes.{Bytes, bytes_eq, bytes_eq_iff, has_prefix}
use mass_net_wallet.Db.{Entry, lookup}
use mass_net_wallet.Ldb.Batch.{
  BatchPutValue, BatchOp, put_op, delete_op, ByteMap, find, store, Batch, new_batch, get_of,
  batch_get, batch_put, batch_delete, net_puts, is_net, get_net_puts_by_prefix,
}
use mathlib.Core.List.{foldl-append}

pub find-store :
    {V : Type 0} (k j : Bytes) (v : V) (m : ByteMap V)
    → find j (store k v m) ≡ (if bytes_eq k j then some v else find j m)
unfolding find store
find-store k j v [] = refl
find-store k j v ((i, w) ∷ m) =
    ground (arith, find-store k j v m, bytes_eq_iff i k, bytes_eq_iff i j, bytes_eq_iff k j)

-- The last operation on a key: nothing, a delete, or a put of a value.
unfoldable pub step_op : Bytes → Option (Option Bytes) → BatchOp → Option (Option Bytes)
step_op k o (put_op j v) = if bytes_eq j k then some (some v) else o
step_op k o (delete_op j) = if bytes_eq j k then some none else o

unfoldable pub last_op : Bytes → List BatchOp → Option (Option Bytes)
unfolding step_op
last_op k = foldl (step_op k) none

abbrev pub answer : Option (Option Bytes) → Option Bytes × Bool
answer none = (none, false)
answer (some none) = (none, true)
answer (some (some v)) = (some v, false)

last_op-append :
    (k : Bytes) (ops : List BatchOp) (op : BatchOp)
    → last_op k (ops ++ (op ∷ [])) ≡ step_op k (last_op k ops) op
unfolding last_op
last_op-append k ops op = rw foldl-append

abbrev Unique : {V : Type 0} → ByteMap V → Type 0
Unique [] = Unit
Unique ((k, v) ∷ m) = (find k m ≡ none) × Unique m

store-Unique : {V : Type 0} (k : Bytes) (v : V) (m : ByteMap V) → Unique m → Unique (store k v m)
unfolding store
store-Unique k v [] u = (unfold find in refl, tt)
store-Unique k v ((j, w) ∷ m) u =
    ground (arith, store-Unique k v m u.1, find-store k j v m, bytes_eq_iff j k, bytes_eq_iff k j)

abbrev put_seq : Option BatchPutValue → ℕ
put_seq none = 0
put_seq (some v) = v.seq

abbrev delete_seq : Option ℕ → ℕ
delete_seq none = 0
delete_seq (some n) = n

-- A put and a delete of one key have different numbers.
abbrev are_apart : Option BatchPutValue → Option ℕ → Bool
are_apart none n = true
are_apart (some v) none = true
are_apart (some v) (some n) = not (v.seq == n)

-- The invariant of a batch.
pub record IsConsistent (b : Batch) : Type 0 where
  puts_before : (k : Bytes) → put_seq (find k b.puts) ≤ b.seq_no
  deletes_before : (k : Bytes) → delete_seq (find k b.deletes) ≤ b.seq_no
  apart : (k : Bytes) → are_apart (find k b.puts) (find k b.deletes) ≡ true
  unique : Unique b.puts
  -- the maps answer what the recorded operations do
  pub agrees : (k : Bytes) → batch_get b k ≡ answer (last_op k b.b)

pub new_batch-IsConsistent : IsConsistent new_batch
unfolding find batch_get last_op
new_batch-IsConsistent = record {
  puts_before = λ k. omega arith;
  deletes_before = λ k. omega arith;
  apart = λ k. refl;
  unique = tt;
  agrees = λ k. refl;
}

module _ (b : Batch) (c : IsConsistent b) (room : b.seq_no + 1 < 2 ^ 32) (k : Bytes) where
  -- In a consistent batch, a put is what the batch answers for its key from then on, and it
  -- changes the answer for no other key, while the sequence number does not wrap.
  pub batch_get-batch_put :
      (v j : Bytes)
      → batch_get (batch_put b k v) j ≡ (if bytes_eq k j then (some v, false) else batch_get b j)
  unfolding batch_get batch_put
  batch_get-batch_put v j = ground (
    arith,
    find-store k j (record { bytes = v; seq = (b.seq_no + 1) % 2 ^ 32 }) b.puts,
    c.deletes_before j,
  )

  pub batch_get-batch_delete :
      (j : Bytes)
      → batch_get (batch_delete b k) j ≡ (if bytes_eq k j then (none, true) else batch_get b j)
  unfolding batch_get batch_delete
  batch_get-batch_delete j =
      ground (arith, find-store k j ((b.seq_no + 1) % 2 ^ 32) b.deletes, c.puts_before j)

  pub batch_put-IsConsistent : (v : Bytes) → IsConsistent (batch_put b k v)
  batch_put-IsConsistent v =
      let new : BatchPutValue = record { bytes = v; seq = (b.seq_no + 1) % 2 ^ 32 } in
      record {
        puts_before =
            λ j. unfold batch_put in ground (arith, find-store k j new b.puts, c.puts_before j);
        deletes_before = λ j. unfold batch_put in ground (arith, c.deletes_before j);
        apart = λ j.
            unfold batch_put in
            ground (arith, find-store k j new b.puts, c.apart j, c.deletes_before j);
        unique = unfold batch_put in store-Unique k new b.puts c.unique;
        agrees = λ j.
            batch_get-batch_put v j
            ∙ unfold batch_put step_op in
              ground (arith, last_op-append j b.b (put_op k v), c.agrees j);
      }

  pub batch_delete-IsConsistent : IsConsistent (batch_delete b k)
  batch_delete-IsConsistent =
      let seq : ℕ = (b.seq_no + 1) % 2 ^ 32 in
      record {
        puts_before = λ j. unfold batch_delete in ground (arith, c.puts_before j);
        deletes_before = λ j.
            unfold batch_delete in ground (arith, find-store k j seq b.deletes, c.deletes_before j);
        apart = λ j.
            unfold batch_delete in
            ground (arith, find-store k j seq b.deletes, c.apart j, c.puts_before j);
        unique = unfold batch_delete in c.unique;
        agrees = λ j.
            batch_get-batch_delete j
            ∙ unfold batch_delete step_op in
              ground (arith, last_op-append j b.b (delete_op k), c.agrees j);
      }

lookup-net_puts-none :
    (j prefix : Bytes) (puts : ByteMap BatchPutValue) (deletes : ByteMap ℕ)
    → find j puts ≡ none
    → lookup j (net_puts puts deletes prefix) ≡ none
unfolding lookup net_puts find
lookup-net_puts-none j prefix [] deletes h = refl
lookup-net_puts-none j prefix ((k, v) ∷ m) deletes h =
    ground (arith, lookup-net_puts-none j prefix m deletes)

lookup-net_puts :
    (j prefix : Bytes) (puts : ByteMap BatchPutValue) (deletes : ByteMap ℕ)
    → Unique puts
    → are_apart (find j puts) (find j deletes) ≡ true
    → lookup j (net_puts puts deletes prefix)
      ≡ (if has_prefix prefix j then (get_of (find j deletes) (find j puts)).0 else none)
unfolding lookup net_puts is_net get_of find
lookup-net_puts j prefix [] deletes u h = ground arith
lookup-net_puts j prefix ((k, v) ∷ m) deletes u h = ground (
  arith,
  bytes_eq_iff k j,
  lookup-net_puts j prefix m deletes u.1,
  lookup-net_puts-none j prefix m deletes,
)

-- Under a prefix a consistent batch has exactly the keys that it holds a value for.
pub lookup-get_net_puts_by_prefix :
    (b : Batch) (prefix j : Bytes)
    → IsConsistent b
    → lookup j (get_net_puts_by_prefix b prefix)
      ≡ (if has_prefix prefix j then (batch_get b j).0 else none)
unfolding get_net_puts_by_prefix batch_get
lookup-get_net_puts_by_prefix b prefix j c =
    lookup-net_puts j prefix b.puts b.deletes c.unique (c.apart j)

net_puts-All :
    (prefix : Bytes) (puts : ByteMap BatchPutValue) (deletes : ByteMap ℕ)
    → All (λ (e : Entry). has_prefix prefix e.key ≡ true) (net_puts puts deletes prefix)
unfolding net_puts is_net
net_puts-All prefix [] deletes = tt
net_puts-All prefix ((k, v) ∷ m) deletes = ground (arith, net_puts-All prefix m deletes)

pub get_net_puts_by_prefix-All :
    (b : Batch) (prefix : Bytes)
    → All (λ (e : Entry). has_prefix prefix e.key ≡ true) (get_net_puts_by_prefix b prefix)
unfolding get_net_puts_by_prefix
get_net_puts_by_prefix-All b prefix = net_puts-All prefix b.puts b.deletes
