-- ===== src/Ldb/Batch.antt =====
-- masswallet/db/ldb/leveldb.go: the batch of a write transaction, which remembers for each key the
-- sequence number of its last put and of its last delete.
pub mod Net
use mass_net_wallet.Prelude.{
  ℕ, ◌+◌, ◌%◌, ◌^◌, Bool, true, false, Option, none, some, List, [], ◌∷◌, ◌++◌, ltb, if◌then◌else◌,
}
use mass_net_wallet.Prelude.Bytes.{Bytes, bytes_eq, has_prefix}
use mass_net_wallet.Db.{Entry}

pub record BatchPutValue : Type 0 where
  pub bytes : Bytes
  pub seq : ℕ

-- The calls made on the `leveldb.Batch`, first call first.
pub data BatchOp : Type 0 where
  put_op : Bytes → Bytes → BatchOp
  delete_op : Bytes → BatchOp

-- A Go map from strings: one pair for each key.
abbrev pub ByteMap : Type 0 → Type 0
ByteMap V = List (Bytes × V)

module _ {V : Type 0} where
  unfoldable pub find : Bytes → ByteMap V → Option V
  find k [] = none
  find k ((j, v) ∷ m) = if bytes_eq j k then some v else find k m

  unfoldable pub store : Bytes → V → ByteMap V → ByteMap V
  store k v [] = (k, v) ∷ []
  store k v ((j, w) ∷ m) = if bytes_eq j k then (k, v) ∷ m else (j, w) ∷ store k v m

pub record Batch : Type 0 where
  pub seq_no : ℕ
  pub b : List BatchOp
  pub puts : ByteMap BatchPutValue
  pub deletes : ByteMap ℕ

-- newBatch, after `innerBatch.Reset()`
abbrev pub new_batch : Batch
new_batch = record { seq_no = 0; b = []; puts = []; deletes = [] }

-- the value, nil for none, and whether the key is deleted
get_of : Option ℕ → Option BatchPutValue → Option Bytes × Bool
get_of none none = (none, false)
get_of none (some put_v) = (some put_v.bytes, false)
get_of (some seq_del) none = (none, true)
get_of (some seq_del) (some put_v) =
    if ltb put_v.seq seq_del then (none, true) else (some put_v.bytes, false)

unfoldable pub batch_get : Batch → Bytes → Option Bytes × Bool
unfolding get_of find
batch_get b k = get_of (find k b.deletes) (find k b.puts)

-- `seqNo` is a uint32.
unfoldable pub batch_put : Batch → Bytes → Bytes → Batch
unfolding store
batch_put b k v =
    let seq = (b.seq_no + 1) % 2 ^ 32 in
    record {
      seq_no = seq;
      b = b.b ++ (put_op k v ∷ []);
      puts = store k (record { bytes = v; seq = seq }) b.puts;
      deletes = b.deletes;
    }

unfoldable pub batch_delete : Batch → Bytes → Batch
unfolding store
batch_delete b k =
    let seq = (b.seq_no + 1) % 2 ^ 32 in
    record {
      seq_no = seq;
      b = b.b ++ (delete_op k ∷ []);
      puts = b.puts;
      deletes = store k seq b.deletes;
    }

is_net : Option ℕ → ℕ → Bool
is_net none seq = true
is_net (some seq_del) seq = ltb seq_del seq

-- GetNetPutsByPrefix: the puts under a prefix that no later delete undoes. Go's order of a map is
-- arbitrary; here it is that of `puts`.
net_puts : ByteMap BatchPutValue → ByteMap ℕ → Bytes → List Entry
net_puts [] deletes prefix = []
net_puts ((k, v) ∷ puts) deletes prefix =
    let rest = net_puts puts deletes prefix in
    if has_prefix prefix k
    then (if is_net (find k deletes) v.seq
        then record { key = k; value = v.bytes } ∷ rest
        else rest)
    else rest

unfoldable pub get_net_puts_by_prefix : Batch → Bytes → List Entry
unfolding net_puts is_net find
get_net_puts_by_prefix b prefix = net_puts b.puts b.deletes prefix
