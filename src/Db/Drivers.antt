-- ===== src/Db/Drivers.antt =====
-- masswallet/db/db.go: the registry of database drivers. What a driver opens is a parameter, and so
-- are the arguments that it takes.
use mass_net_wallet.Prelude.{
  ◌≡◌, refl, ap, inl, inr, Bool, true, false, ◌||◌, List, [], ◌∷◌, ◌++◌, arith, if◌then◌else◌,
  Bool-cases,
}
use mass_net_wallet.Prelude.Bytes.{Bytes, bytes_eq, bytes_eq_iff}
use mass_net_wallet.Prelude.Exec.{Result, err, unknown_db_type}

-- DBDriver, at arguments `Args` and databases `D`
pub record DbDriver (Args D : Type 0) : Type 0 where
  pub db_type : Bytes
  pub open_db : Args → Result D
  pub create_db : Args → Result D

module _ {Args D : Type 0} where
  unfoldable pub is_registered : Bytes → List (DbDriver Args D) → Bool
  is_registered t [] = false
  is_registered t (d ∷ ds) = bytes_eq d.db_type t || is_registered t ds

  -- RegisterDriver: what the package variable `drivers` holds then
  unfoldable pub register_driver : DbDriver Args D → List (DbDriver Args D) → List (DbDriver Args D)
  unfolding is_registered
  register_driver new drivers =
      if is_registered new.db_type drivers then drivers else drivers ++ (new ∷ [])

  unfoldable pub registered_db_types : List (DbDriver Args D) → List Bytes
  registered_db_types [] = []
  registered_db_types (d ∷ ds) = d.db_type ∷ registered_db_types ds

  unfoldable pub create_db : Bytes → Args → List (DbDriver Args D) → Result D
  create_db t args [] = err unknown_db_type
  create_db t args (d ∷ ds) =
      let rest = create_db t args ds in if bytes_eq d.db_type t then d.create_db args else rest

  unfoldable pub open_db : Bytes → Args → List (DbDriver Args D) → Result D
  open_db t args [] = err unknown_db_type
  open_db t args (d ∷ ds) =
      let rest = open_db t args ds in if bytes_eq d.db_type t then d.open_db args else rest

  open_db-append_none :
      (t : Bytes) (args : Args) (ds : List (DbDriver Args D)) (new : DbDriver Args D)
      → is_registered t ds ≡ false
      → open_db t args (ds ++ (new ∷ []))
        ≡ (if bytes_eq new.db_type t then new.open_db args else err unknown_db_type)
  unfolding open_db is_registered
  open_db-append_none t args [] new h = refl
  open_db-append_none t args (d ∷ ds) new h = ground (arith, open_db-append_none t args ds new)

  open_db-append_some :
      (t : Bytes) (args : Args) (ds : List (DbDriver Args D)) (new : DbDriver Args D)
      → is_registered t ds ≡ true
      → open_db t args (ds ++ (new ∷ [])) ≡ open_db t args ds
  unfolding open_db is_registered
  open_db-append_some t args [] new h = ground arith
  open_db-append_some t args (d ∷ ds) new h = ground (arith, open_db-append_some t args ds new)

  open_db_unknown :
      (t : Bytes) (args : Args) (ds : List (DbDriver Args D))
      → is_registered t ds ≡ false
      → open_db t args ds ≡ err unknown_db_type
  unfolding open_db is_registered
  open_db_unknown t args [] h = refl
  open_db_unknown t args (d ∷ ds) h = ground (arith, open_db_unknown t args ds)

  -- Equal types are registered alike.
  same_type :
      (new : DbDriver Args D) (t : Bytes) (ds : List (DbDriver Args D))
      → bytes_eq new.db_type t ≡ true
      → is_registered new.db_type ds ≡ is_registered t ds
  same_type new t ds h = ap (λ b. is_registered b ds) ((bytes_eq_iff new.db_type t).0 h)

  -- After RegisterDriver, OpenDB of a type that was registered before opens what it opened before;
  -- of another type it uses the new driver where that has the type, and fails where not.
  pub open_db-register_driver :
      (t : Bytes) (args : Args) (new : DbDriver Args D) (ds : List (DbDriver Args D))
      → open_db t args (register_driver new ds) ≡ (
          if is_registered t ds
          then open_db t args ds
          else (if bytes_eq new.db_type t then new.open_db args else err unknown_db_type))
  unfolding register_driver
  open_db-register_driver t args new ds = elim (Bool-cases (is_registered t ds)) [
    | inl known ↦ ground (arith, open_db-append_some t args ds new)
    | inr unknown ↦
        ground
          (arith, open_db-append_none t args ds new, open_db_unknown t args ds, same_type new t ds)
  ]
