-- ===== src/Ldb/Bucket/Commit.antt =====
-- Commit: what a write transaction reads is what stays.
use mass_net_wallet.Prelude.{
  ◌≡◌, sym, ◌∙◌, ◌⊎◌, inl, inr, true, false, Option, [], ◌∷◌, arith, Bool-cases,
}
use mass_net_wallet.Prelude.Bytes.{Bytes}
use mass_net_wallet.Prelude.Exec.{ok, Exec}
use mass_net_wallet.Ldb.Path.{LevelBucket}
use mass_net_wallet.Ldb.Batch.Net.{IsConsistent}
use mass_net_wallet.Ldb.Transaction.{
  Leveldb, IsLeveldb, Transaction, begin_read_tx, begin_tx, commit, update,
}
use mass_net_wallet.Ldb.Bucket.{get}
use mass_net_wallet.Ldb.Bucket.Reads.{get_flat, flat_key, get-get_flat, get_empty}

commit-cases :
    {D : Type 0} (l : Leveldb D) (tx : Transaction D) {d : D}
    → commit l tx ≡ (ok tt, d)
    → ((tx.read_only ≡ true) × (tx.disk ≡ d))
      ⊎ ((tx.read_only ≡ false) × (l.write tx.disk tx.b.b ≡ (ok tt, d)))
unfolding commit
commit-cases l tx e = elim (Bool-cases tx.read_only) [
  | inl r ↦ inl (r, ground arith)
  | inr r ↦ inr (r, ground arith)
]

get_flat-commit :
    {D : Type 0} (l : Leveldb D) (k : Bytes) (tx : Transaction D) {d : D} {o : Option Bytes}
    → IsLeveldb l
    → IsConsistent tx.b
    → commit l tx ≡ (ok tt, d)
    → get_flat l k tx ≡ ok o
    → get_flat l k (begin_read_tx d) ≡ ok o
unfolding get_flat begin_read_tx
get_flat-commit l k tx {d} laws c e g = elim (commit-cases l tx e) [
  | inl (r, p) ↦ rw (← p) (ground arith)
  | inr (r, p) ↦ ground (arith, laws.get-write tx.disk tx.b.b k p, c.agrees k)
]

-- After a commit that succeeds, a later read transaction reads in every bucket what the write
-- transaction read before the commit.
pub get-commit :
    {D : Type 0} (l : Leveldb D) (b : LevelBucket) (k : Bytes) (tx : Transaction D) {d : D}
    {o : Option Bytes}
    → IsLeveldb l
    → IsConsistent tx.b
    → commit l tx ≡ (ok tt, d)
    → get l b k tx ≡ ok o
    → get l b k (begin_read_tx d) ≡ ok o
get-commit l b [] tx laws c e g = get_empty l b _ ∙ sym (get_empty l b tx) ∙ g
get-commit l b (x ∷ k) tx {d} laws c e g =
    get-get_flat l b (x ∷ k) (begin_read_tx d) (omega arith)
    ∙ get_flat-commit l (flat_key b (x ∷ k)) tx laws c e
        (sym (get-get_flat l b (x ∷ k) tx (omega arith)) ∙ g)

commit-update :
    {D : Type 0} (l : Leveldb D) (f : Exec (Transaction D) (Unit {0})) (d : D)
    → (update l f d).0 ≡ ok tt
    → commit l (f (begin_tx d)).1 ≡ (ok tt, (update l f d).1)
unfolding update commit
commit-update l f d h = ground arith

-- Where Update returns no error, a later read transaction reads in every bucket what the
-- function's transaction read at its end, over a LevelDB that behaves as documented and where that
-- transaction's batch is consistent.
pub get-update :
    {D : Type 0} (l : Leveldb D) (f : Exec (Transaction D) (Unit {0})) (d : D) (b : LevelBucket)
    (k : Bytes) {o : Option Bytes}
    → IsLeveldb l
    → IsConsistent (f (begin_tx d)).1.b
    → (update l f d).0 ≡ ok tt
    → get l b k (f (begin_tx d)).1 ≡ ok o
    → get l b k (begin_read_tx (update l f d).1) ≡ ok o
get-update l f d b k laws c h g =
    get-commit l b k (f (begin_tx d)).1 laws c (commit-update l f d h) g
