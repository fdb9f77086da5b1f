-- ===== src/Db/Rules.antt =====
-- The laws of a bucket at one key and at another.
use mass_net_wallet.Prelude.{
  ℕ, suc, ◌<◌, ◌≡◌, ◌≢◌, false, Option, none, some, length, Bool-cases, inl, inr,
}
use mass_net_wallet.Prelude.Bytes.{Bytes, bytes_eq, bytes_eq_iff, bytes_eq_refl}
use mass_net_wallet.Prelude.Exec.{ok}
use mass_net_wallet.Db.{Bucket, IsBucket}

pub bytes_eq-ne : (k j : Bytes) → k ≢ j → bytes_eq k j ≡ false
bytes_eq-ne k j h = elim (Bool-cases (bytes_eq k j)) [
  | inl e ↦ absurd (h ((bytes_eq_iff k j).0 e))
  | inr e ↦ e
]

module _ {S : Type 0} (ns : Bucket S) {Ready : ℕ → S → Type 0} (laws : IsBucket ns Ready) (n : ℕ)
    (k : Bytes) (s : S) where
  pub get-put_self :
      (v : Bytes) {o : Option Bytes}
      → Ready (suc n) s
      → 0 < length k
      → 0 < length v
      → ns.get k s ≡ ok o
      → ns.get k (ns.put k v s).1 ≡ ok (some v)
  get-put_self v r hk hv g = rw (laws.get-put n k v k s r hk hv, bytes_eq_refl k, g)

  pub get-put_ne :
      (v j : Bytes)
      → Ready (suc n) s
      → 0 < length k
      → 0 < length v
      → k ≢ j
      → ns.get j (ns.put k v s).1 ≡ ns.get j s
  get-put_ne v j r hk hv h = rw (laws.get-put n k v j s r hk hv, bytes_eq-ne k j h)

  pub get-delete_self :
      {o : Option Bytes}
      → Ready (suc n) s
      → ns.get k s ≡ ok o
      → ns.get k (ns.delete k s).1 ≡ ok none
  get-delete_self r g = rw (laws.get-delete n k k s r, bytes_eq_refl k, g)

  pub get-delete_ne :
      (j : Bytes) → Ready (suc n) s → k ≢ j → ns.get j (ns.delete k s).1 ≡ ns.get j s
  get-delete_ne j r h = rw (laws.get-delete n k j s r, bytes_eq-ne k j h)
