-- ===== src/Ldb/Path.antt =====
-- masswallet/db/ldb/leveldb.go: the names of buckets, their paths and the keys inside them. A Go
-- string is its bytes.
pub mod Split
pub mod Isolation
use mass_net_wallet.Prelude.{
  ℕ, zero, suc, ◌+◌, ◌-◌, ◌*◌, ◌/◌, ◌%◌, ◌<◌, ◌≡◌, Bool, true, false, not, ◌&&◌, Option, none, some,
  List, [], ◌∷◌, ◌++◌, ltb, leb, ◌==◌, if◌then◌else◌, length,
}
use mass_net_wallet.Prelude.Bytes.{Bytes}
use mass_net_wallet.Prelude.Exec.{
  Error, illegal_key, illegal_bucket_path, invalid_bucket_name, Result, ok, err,
}

-- bucketPathSep, "_"
abbrev pub bucket_path_sep : ℕ
bucket_path_sep = b'_'

-- bucketNameBucket, "b"
abbrev pub bucket_name_bucket : Bytes
bucket_name_bucket = b'b' ∷ []

-- topLevelBucketDepth, "1"
abbrev pub top_level_bucket_depth : Bytes
top_level_bucket_depth = b'1' ∷ []

abbrev pub max_bucket_name_len : ℕ
max_bucket_name_len = 256

-- strings.Join(arr, "_")
unfoldable pub join_bucket_path : List Bytes → Bytes
join_bucket_path [] = []
join_bucket_path (x ∷ []) = x
join_bucket_path (x ∷ (y ∷ rest)) = x ++ (bucket_path_sep ∷ join_bucket_path (y ∷ rest))

cons_head : ℕ → List Bytes → List Bytes
cons_head c [] = (c ∷ []) ∷ []
cons_head c (x ∷ xs) = (c ∷ x) ∷ xs

-- strings.Split(s, "_")
unfoldable pub split : Bytes → List Bytes
unfolding cons_head
split [] = [] ∷ []
split (c ∷ cs) = let rest = split cs in if c == bucket_path_sep then [] ∷ rest else cons_head c rest

-- strconv.Itoa on what is not negative; `fuel` is above the number of digits
itoa_loop : ℕ → ℕ → Bytes
itoa_loop zero n = []
itoa_loop (suc fuel) n =
    let rest = itoa_loop fuel (n / 10) in
    if ltb n 10 then (b'0' + n) ∷ [] else rest ++ ((b'0' + n % 10) ∷ [])

unfoldable pub itoa : ℕ → Bytes
unfolding itoa_loop
itoa n = itoa_loop (suc n) n

atoi_loop : ℕ → Bytes → ℕ
atoi_loop acc [] = acc
atoi_loop acc (c ∷ cs) = atoi_loop (acc * 10 + (c - b'0')) cs

unfoldable pub all_digits : Bytes → Bool
all_digits [] = true
all_digits (c ∷ cs) = leb b'0' c && leb c b'9' && all_digits cs

-- `depth, _ := strconv.Atoi(s)`: 0 where `s` is no number (a sign does not occur in a path)
unfoldable pub atoi : Bytes → ℕ
unfolding atoi_loop all_digits
atoi s = if all_digits s then atoi_loop 0 s else 0

-- strings.Index(name, "_") < 0
unfoldable pub no_sep : Bytes → Bool
no_sep [] = true
no_sep (c ∷ cs) = not (c == bucket_path_sep) && no_sep cs

unfoldable pub is_valid_bucket_name : Bytes → Bool
unfolding no_sep
is_valid_bucket_name name =
    ltb 0 (length name) && leb (length name) max_bucket_name_len && no_sep name

-- levelBucket, less its pointer to the transaction and `pathLen`, which is the length of `path`
pub record LevelBucket : Type 0 where
  pub name : Bytes
  pub path : Bytes
  pub depth : ℕ

unfoldable pub inner_key : LevelBucket → Bytes → Bool → Result Bytes
inner_key b key as_prefix =
    if not as_prefix && length key == 0
    then err illegal_key
    else ok (b.path ++ (bucket_path_sep ∷ key))

unfoldable pub inner_key_for_iterator : LevelBucket → Bytes → Bytes
inner_key_for_iterator b key = b.path ++ (bucket_path_sep ∷ key)

unfoldable pub set_depth : Bytes → List Bytes → List Bytes
set_depth d [] = []
set_depth d (s ∷ ss) = d ∷ ss

unfoldable pub sub_bucket : LevelBucket → Bytes → Result LevelBucket
unfolding is_valid_bucket_name split join_bucket_path itoa set_depth
sub_bucket b name =
    if not (is_valid_bucket_name name)
    then err invalid_bucket_name
    else (let ss = split b.path in
        if ltb (length ss) 2
        then err illegal_bucket_path
        else ok (record {
          name = name;
          path = join_bucket_path (set_depth (itoa (b.depth + 1)) ss ++ (name ∷ []));
          depth = b.depth + 1;
        }))

-- the bucket that TopLevelBucket and CreateTopLevelBucket return
unfoldable pub top_level : Bytes → LevelBucket
unfolding join_bucket_path
top_level name = record {
  name = name;
  path = join_bucket_path (top_level_bucket_depth ∷ (name ∷ []));
  depth = 1;
}

-- the key of a bucket's index entry
unfoldable pub index_key : Bytes → Bytes
unfolding join_bucket_path
index_key path = join_bucket_path (bucket_name_bucket ∷ (path ∷ []))

nth : ℕ → List Bytes → Option Bytes
nth n [] = none
nth zero (x ∷ xs) = some x
nth (suc n) (x ∷ xs) = nth n xs

-- levelBucketMeta
pub record LevelBucketMeta : Type 0 where
  pub paths : List Bytes

unfoldable pub get_bucket_meta : LevelBucket → LevelBucketMeta
unfolding split
get_bucket_meta b = record { paths = split b.path }

unfoldable pub meta_depth : LevelBucketMeta → ℕ
unfolding atoi nth
meta_depth m = elim (nth 0 m.paths) [ none ↦ 0 | some s ↦ atoi s ]

-- `none` where the index is out of range
unfoldable pub meta_name : LevelBucketMeta → Option Bytes
unfolding meta_depth nth
meta_name m = nth (meta_depth m) m.paths
