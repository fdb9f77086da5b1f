-- ===== src/Txmgr/Games/Delete.antt =====
-- deleteByPrefix deletes what is under the prefix and nothing else.
use mass_net_wallet.Prelude.{
  ℕ, suc, ◌+◌, ◌<◌, ◌≡◌, refl, ap, ◌∙◌, Bool, true, false, Option, none, some, List, [], ◌∷◌, arith,
  if◌then◌else◌, length,
}
use mathlib.Core.Path.{subst}
use mass_net_wallet.Prelude.Bytes.{Bytes, IsBytes, bytes_eq, bytes_eq_iff, has_prefix}
use mass_net_wallet.Prelude.Exec.{ok, ◌>>=◌}
use mass_net_wallet.Db.{Entry, lookup, Bucket, IsBucket}
use mass_net_wallet.Txmgr.Games.{delete_entries, delete_by_prefix}

-- what is left of a value once the entries are deleted
abbrev left_of : Option Bytes → Option Bytes → Option Bytes
left_of none o = o
left_of (some v) o = none

module _ {S : Type 0} (ns : Bucket S) {Ready : ℕ → S → Type 0} (laws : IsBucket ns Ready) where
  delete_entries_lem :
      (es : List Entry) (n : ℕ) (k : Bytes) (s : S) {o : Option Bytes}
      → Ready (length es + n) s
      → ns.get k s ≡ ok o
      → ((delete_entries ns es s).0 ≡ ok tt)
        × (ns.get k (delete_entries ns es s).1 ≡ ok (left_of (lookup k es) o))
  unfolding delete_entries lookup ◌>>=◌
  delete_entries_lem [] n k s r g = (refl, g)
  delete_entries_lem (e ∷ es) n k s {o} r g =
      let r' : Ready (suc (length es + n)) s = subst (λ (m : ℕ). Ready m s) (omega arith) r in
      let (done, ready) = laws.delete_lem (length es + n) e.key s r' in
      let next : ns.get k (ns.delete e.key s).1 ≡ ok (if bytes_eq e.key k then none else o) =
        ground (arith, laws.get-delete (length es + n) e.key k s r', bytes_eq_iff e.key k) in
      let (ran, kept) = delete_entries_lem es n k (ns.delete e.key s).1 ready next in
      rw done (ran, kept ∙ ap ok (left_of_twice (bytes_eq e.key k) (lookup k es)))
    where
      left_of_twice :
          (b : Bool) (p : Option Bytes)
          → left_of p (if b then none else o) ≡ left_of (if b then some e.value else p) o
      left_of_twice true none = refl
      left_of_twice true (some v) = refl
      left_of_twice false none = refl
      left_of_twice false (some v) = refl

  -- Where the entries under a prefix are read and the store takes a write for each of them,
  -- deleteByPrefix succeeds, deletes what it holds under the prefix, and leaves every other key as
  -- it was, for keys of bytes that are not empty.
  pub delete_by_prefix_lem :
      (n : ℕ) (prefix k : Bytes) (s : S) {es : List Entry} {o : Option Bytes}
      → Ready (length es + n) s
      → IsBytes k
      → 0 < length k
      → ns.get_by_prefix prefix s ≡ ok es
      → ns.get k s ≡ ok o
      → ((delete_by_prefix ns prefix s).0 ≡ ok tt)
        × (ns.get k (delete_by_prefix ns prefix s).1 ≡ ok (if has_prefix prefix k then none else o))
  unfolding delete_by_prefix ◌>>=◌
  delete_by_prefix_lem n prefix k s {es} {o} r bytes pos found g =
      let (ran, kept) = delete_entries_lem es n k s r g in
      let under = laws.lookup-get_by_prefix (length es + n) prefix k s r bytes pos found g in
      rw found (
        ran,
        kept
            ∙ ap (λ (p : Option Bytes). ok (left_of p o)) under
            ∙ ap ok (both (has_prefix prefix k) o),
      )
    where
      both :
          (b : Bool) (p : Option Bytes)
          → left_of (if b then p else none) p ≡ (if b then none else p)
      both true none = refl
      both true (some v) = refl
      both false none = refl
      both false (some v) = refl
