-- ===== src/Ldb/Path/Isolation.antt =====
-- Keys of different buckets never meet in the flat key space.
use mass_net_wallet.Prelude.{
  ℕ, ◌<◌, ◌≡◌, ◌≢◌, refl, sym, ap, ◌∙◌, Bool, true, List, [], ◌∷◌, ◌++◌, arith, length, All,
  length-append, append_assoc,
}
use mass_net_wallet.Prelude.Bytes.{Bytes}
use mass_net_wallet.Prelude.Exec.{ok}
use mass_net_wallet.Ldb.Path.{
  bucket_path_sep, bucket_name_bucket, join_bucket_path, split, itoa, no_sep, is_valid_bucket_name,
  LevelBucket, inner_key, sub_bucket, top_level, index_key, atoi, all_digits,
}
use mass_net_wallet.Ldb.Path.Split.{
  IsComponent, split-join_bucket_path, itoa-IsComponent, atoi-itoa, all_digits-itoa,
}

-- A bucket that TopLevelBucket, Bucket or NewBucket can have returned: its path is its depth and
-- as many names.
pub record IsWellFormed (b : LevelBucket) : Type 0 where
  pub names : List Bytes
  pub path_lem : b.path ≡ join_bucket_path (itoa b.depth ∷ names)
  pub count : length names ≡ b.depth
  pub nested : 0 < b.depth
  pub valid : All IsComponent names

is_valid_bucket_name-IsComponent :
    (name : Bytes) → is_valid_bucket_name name ≡ true → IsComponent name
unfolding is_valid_bucket_name
is_valid_bucket_name-IsComponent name h = ground arith

pub top_level-IsWellFormed :
    (name : Bytes) → is_valid_bucket_name name ≡ true → IsWellFormed (top_level name)
unfolding top_level itoa
top_level-IsWellFormed name h = record {
  names = name ∷ [];
  path_lem = refl;
  count = refl;
  nested = omega arith;
  valid = (is_valid_bucket_name-IsComponent name h, tt);
}

All-snoc :
    (xs : List Bytes) (x : Bytes)
    → All IsComponent xs
    → IsComponent x
    → All IsComponent (xs ++ (x ∷ []))
All-snoc [] x h k = (k, tt)
All-snoc (y ∷ ys) x h k = (h.0, All-snoc ys x h.1 k)

split-path : {b : LevelBucket} (w : IsWellFormed b) → split b.path ≡ itoa b.depth ∷ w.names
split-path {b} w =
    ap split w.path_lem
    ∙ split-join_bucket_path (itoa b.depth) w.names (itoa-IsComponent b.depth, w.valid)

-- A sub bucket of a well-formed bucket is well formed.
pub sub_bucket-IsWellFormed :
    (b : LevelBucket) (name : Bytes) {s : LevelBucket}
    → IsWellFormed b
    → sub_bucket b name ≡ ok s
    → IsWellFormed s
unfolding sub_bucket
sub_bucket-IsWellFormed b name {s} w e = record {
  names = w.names ++ (name ∷ []);
  path_lem = ground (arith, split-path w);
  count = ground (arith, split-path w, w.count, length-append w.names (name ∷ []));
  nested = ground (arith, split-path w);
  valid =
      All-snoc w.names name w.valid
        (is_valid_bucket_name-IsComponent name (ground (arith, split-path w)));
}

-- The first separator is found from the left.
component_unique :
    (s t u v : Bytes)
    → IsComponent s
    → IsComponent t
    → s ++ (bucket_path_sep ∷ u) ≡ t ++ (bucket_path_sep ∷ v)
    → (s ≡ t) × (u ≡ v)
unfolding no_sep
component_unique [] [] u v h k e = ground arith
component_unique [] (y ∷ t) u v h k e = ground arith
component_unique (x ∷ s) [] u v h k e = ground arith
component_unique (x ∷ s) (y ∷ t) u v h k e = ground (arith, component_unique s t u v)

join_unique :
    (x y : Bytes) (xs ys : List Bytes) (u v : Bytes)
    → length xs ≡ length ys
    → All IsComponent (x ∷ xs)
    → All IsComponent (y ∷ ys)
    → join_bucket_path (x ∷ xs) ++ (bucket_path_sep ∷ u)
      ≡ join_bucket_path (y ∷ ys) ++ (bucket_path_sep ∷ v)
    → (join_bucket_path (x ∷ xs) ≡ join_bucket_path (y ∷ ys)) × (u ≡ v)
unfolding join_bucket_path
join_unique x y [] [] u v n h k e = component_unique x y u v h.0 k.0 e
join_unique x y [] (b ∷ ys) u v n h k e = absurd (omega arith)
join_unique x y (a ∷ xs) [] u v n h k e = absurd (omega arith)
join_unique x y (a ∷ xs) (b ∷ ys) u v n h k e =
    let (p, q) =
      component_unique x y (join_bucket_path (a ∷ xs) ++ (bucket_path_sep ∷ u))
        (join_bucket_path (b ∷ ys) ++ (bucket_path_sep ∷ v)) h.0 k.0
        (rw (append_assoc, append_assoc) at e) in
    let (r, t) = join_unique a b xs ys u v (omega arith) h.1 k.1 q in (cc (p, r), t)

inner_key-eq-ok :
    (b : LevelBucket) (k : Bytes) (p : Bool) {x : Bytes}
    → inner_key b k p ≡ ok x
    → x ≡ b.path ++ (bucket_path_sep ∷ k)
unfolding inner_key
inner_key-eq-ok b k p e = ground arith

-- A key inside a bucket begins with the digits of the bucket's depth.
depth_first :
    {b : LevelBucket} (w : IsWellFormed b) (k : Bytes)
    → (rest : Bytes) × (b.path ++ (bucket_path_sep ∷ k) ≡ itoa b.depth ++ (bucket_path_sep ∷ rest))
depth_first {b} w k = go w.names w.path_lem w.count
  where
    go :
        (names : List Bytes)
        → b.path ≡ join_bucket_path (itoa b.depth ∷ names)
        → length names ≡ b.depth
        → (rest : Bytes) × (b.path ++ (bucket_path_sep ∷ k)
            ≡ itoa b.depth ++ (bucket_path_sep ∷ rest))
    go [] p n = absurd (omega (arith, w.nested))
    go (s ∷ ss) p n = (
      join_bucket_path (s ∷ ss) ++ (bucket_path_sep ∷ k),
      rw p (unfold join_bucket_path in rw append_assoc),
    )

itoa_unique : (m n : ℕ) → itoa m ≡ itoa n → m ≡ n
itoa_unique m n e = sym (atoi-itoa m) ∙ ap atoi e ∙ atoi-itoa n

depth_unique :
    {b c : LevelBucket} (w : IsWellFormed b) (z : IsWellFormed c) (k j : Bytes)
    → b.path ++ (bucket_path_sep ∷ k) ≡ c.path ++ (bucket_path_sep ∷ j)
    → b.depth ≡ c.depth
depth_unique {b} {c} w z k j e =
    let (r, p) = depth_first w k in
    let (t, q) = depth_first z j in
    itoa_unique b.depth c.depth
      (component_unique (itoa b.depth) (itoa c.depth) r t (itoa-IsComponent b.depth)
        (itoa-IsComponent c.depth) (cc (p, q, e))).0

-- Two well-formed buckets that give one flat key have the same path, and it is the same key in
-- both: no entry of one bucket is read, overwritten or deleted through another.
pub inner_key_injective :
    (b c : LevelBucket) (k j : Bytes) (p q : Bool) {x : Bytes}
    → IsWellFormed b
    → IsWellFormed c
    → inner_key b k p ≡ ok x
    → inner_key c j q ≡ ok x
    → (b.path ≡ c.path) × (k ≡ j)
inner_key_injective b c k j p q w z e f =
    let same = sym (inner_key-eq-ok b k p e) ∙ inner_key-eq-ok c j q f in
    let deep = depth_unique w z k j same in
    let (s, t) =
      join_unique (itoa b.depth) (itoa c.depth) w.names z.names k j
        (omega (arith, w.count, z.count)) (itoa-IsComponent b.depth, w.valid)
        (itoa-IsComponent c.depth, z.valid) (cc (same, w.path_lem, z.path_lem)) in
    (cc (s, w.path_lem, z.path_lem), t)

b-ne-itoa : (n : ℕ) → bucket_name_bucket ≢ itoa n
unfolding all_digits
b-ne-itoa n e = cc (ap all_digits e, all_digits-itoa n)

-- The index entry that marks a bucket as existing is no entry of any well-formed bucket.
pub index_key-ne-inner_key :
    (b : LevelBucket) (path k : Bytes) (p : Bool)
    → IsWellFormed b
    → inner_key b k p ≢ ok (index_key path)
unfolding index_key
index_key-ne-inner_key b path k p w e =
    let (r, q) = depth_first w k in
    b-ne-itoa b.depth
      (component_unique bucket_name_bucket (itoa b.depth) path r (unfold no_sep in refl)
        (itoa-IsComponent b.depth) (inner_key-eq-ok b k p e ∙ q)).0
