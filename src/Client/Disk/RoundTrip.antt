-- ===== src/Client/Disk/RoundTrip.antt =====
-- What `KVStoreSetup` reads back of what `WriteKVPair` wrote.
use cs416_tanks.Base.{
  ℕ, ◌-◌, ◌<◌, ◌≡◌, refl, true, Option, none, some, [], ◌∷◌, ◌++◌, arith, inl, if◌then◌else◌, ltb,
  Map, lookup, insert, nat_eq, lookup-insert, ap, length, length-append,
}
use cs416_tanks.Base.Int.{IsInt64, half_range}
use cs416_tanks.Base.Bytes.{
  Bytes, bytes_eq, bytes_beq_iff, value, codes, split, split-append, format_uint, format_int,
}
use cs416_tanks.Base.Decimal.{
  format_uint_lem, atoi-format_uint, atoi-format_int, format_uint-Lacks, format_int-Lacks,
}
use cs416_tanks.Crdt.{ValueType}
use cs416_tanks.Client.Disk.{
  line_feed, dot, file_name, file_text, is_kv_file, first, value_of_lines, read_kv_file, load_files,
  Disk,
}

-- Both counters are values of Go's `int`.
abbrev pub IsValue : ValueType → Type 0
IsValue v = IsInt64 v.num_kills × IsInt64 v.num_deaths

-- The key under which a key that was written is found again.
abbrev pub reloaded_key : ℕ → ℕ
reloaded_key key = if ltb key half_range then key else half_range - 1

name_key : (key : ℕ) → first (split (file_name key) dot) ≡ format_uint key
unfolding file_name
name_key key = ground (
  arith,
  split-append (format_uint key) (codes "kv") dot (format_uint-Lacks dot key (inl (omega arith))),
)

text_lines : (v : ValueType) → IsValue v → value_of_lines (split (file_text v) line_feed) ≡ some v
unfolding file_text
text_lines v h = ground (
  arith,
  split-append (format_int v.num_kills) (format_int v.num_deaths ++ line_feed ∷ []) line_feed
      (format_int-Lacks line_feed v.num_kills (omega arith)),
  split-append (format_int v.num_deaths) [] line_feed
      (format_int-Lacks line_feed v.num_deaths (omega arith)),
  atoi-format_int v.num_kills h.0,
  atoi-format_int v.num_deaths h.1,
)

pub read_back :
    (key : ℕ) (v : ValueType)
    → IsValue v
    → read_kv_file (file_name key) (file_text v) ≡ some (reloaded_key key, v)
unfolding read_kv_file
read_back key v h = ground (arith, name_key key, text_lines v h, atoi-format_uint key)

is_kv_file-append : (s : Bytes) → is_kv_file (s ++ codes ".kv") ≡ true
is_kv_file-append [] = refl
is_kv_file-append (c ∷ s) = ground (arith, is_kv_file-append s)

pub is_kv_file-file_name : (k : ℕ) → is_kv_file (file_name k) ≡ true
unfolding file_name
is_kv_file-file_name k = is_kv_file-append (format_uint k)

append-cancel : (s t u : Bytes) → length s ≡ length t → s ++ u ≡ t ++ u → s ≡ t
append-cancel [] [] u n e = refl
append-cancel [] (b ∷ t) u n e = absurd (omega arith)
append-cancel (a ∷ s) [] u n e = absurd (omega arith)
append-cancel (a ∷ s) (b ∷ t) u n e = ground (arith, append-cancel s t u)

-- Two keys never share a file.
file_name-injective : (j k : ℕ) → file_name j ≡ file_name k → j ≡ k
unfolding file_name
file_name-injective j k e = ground (
  arith,
  append-cancel (format_uint j) (format_uint k) (codes ".kv"),
  length-append (format_uint j) (codes ".kv"),
  length-append (format_uint k) (codes ".kv"),
  ap length e,
  format_uint_lem j,
  format_uint_lem k,
  ap (value 0) (
      append-cancel (format_uint j) (format_uint k) (codes ".kv")
        (omega (
          arith,
          length-append (format_uint j) (codes ".kv"),
          length-append (format_uint k) (codes ".kv"),
          ap length e,
        ))
        e),
)

-- The directory that holds exactly the pairs of a map.
abbrev pub image : Map ℕ ValueType → Disk
image [] = []
image ((k, v) ∷ m) = (file_name k, file_text v) ∷ image m

pub insert-image :
    (k : ℕ) (v : ValueType) (m : Map ℕ ValueType)
    → insert (file_name k) (file_text v) (image m) ≡ image (insert k v m)
unfolding insert
insert-image k v [] = refl
insert-image k v ((j, w) ∷ m) =
    ground (
      arith,
      insert-image k v m,
      bytes_beq_iff (file_name j) (file_name k),
      file_name-injective j k,
    )

-- No key stands twice.
abbrev pub IsDistinct : Map ℕ ValueType → Type 0
IsDistinct [] = Unit
IsDistinct ((k, v) ∷ m) = (lookup k m ≡ none) × IsDistinct m

pub insert-IsDistinct :
    (k : ℕ) (v : ValueType) (m : Map ℕ ValueType) → IsDistinct m → IsDistinct (insert k v m)
unfolding insert lookup
insert-IsDistinct k v [] h = (refl, tt)
insert-IsDistinct k v ((j, w) ∷ m) h =
    ground (arith, insert-IsDistinct k v m h.1, lookup-insert j k v m)

-- Keys and values that survive the trip through text.
abbrev pub AreStorable : Map ℕ ValueType → Type 0
AreStorable [] = Unit
AreStorable ((k, v) ∷ m) = (k < half_range) × IsValue v × AreStorable m

abbrev pub or_else : Option ValueType → Option ValueType → Option ValueType
or_else none o = o
or_else (some v) o = some v

pub load-image :
    (m acc : Map ℕ ValueType)
    → IsDistinct m
    → AreStorable m
    → (n : Map ℕ ValueType) × (load_files (image m) acc ≡ some n)
      × ((k : ℕ) → lookup k n ≡ or_else (lookup k m) (lookup k acc))
unfolding load_files lookup
load-image [] acc d s = (acc, refl, λ k. refl)
load-image ((j, w) ∷ m) acc d s =
    let (n, loaded, found) = load-image m (insert j w acc) d.1 s.2 in
    (
      n,
      ground (arith, loaded, is_kv_file-file_name j, read_back j w s.1),
      λ k. ground (arith, found k, lookup-insert k j w acc, d.0),
    )
