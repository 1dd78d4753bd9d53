-- ===== src/Client/Disk.antt =====
-- The files of the client's key-value store: `WriteKVPair` of client/clocks.go and `KVStoreSetup` of
-- client/crdt.go. A directory is a map from file names to contents, both as bytes.
pub mod RoundTrip
use Prim.Native.Nat.{pred}
use cs416_tanks.Base.{
  ℕ, ◌-◌, ◌+◌, ◌%◌, ◌^◌, Bool, true, false, ◌&&◌, Option, none, some, List, [], ◌∷◌, ◌++◌, Map,
  insert, nat_eq, if◌then◌else◌,
}
use cs416_tanks.Base.Int.{ℤ, pos, negsuc}
use cs416_tanks.Base.Bytes.{Bytes, bytes_beq, bytes_eq, codes, split, format_uint, format_int, atoi}
use cs416_tanks.Crdt.{ValueType}

abbrev pub Disk : Type 0
Disk = Map Bytes Bytes

abbrev pub line_feed : ℕ
line_feed = 10

abbrev pub dot : ℕ
dot = b'.'

-- `strconv.FormatUint(key, 10)+".kv"`
unfoldable pub file_name : ℕ → Bytes
file_name key = format_uint key ++ codes ".kv"

-- `v0 + "\n" + v1 + "\n"`
unfoldable pub file_text : ValueType → Bytes
file_text v = format_int v.num_kills ++ line_feed ∷ (format_int v.num_deaths ++ line_feed ∷ [])

-- `WriteKVPair`, where the operating system lets the file be written or not; `none` is an error.
unfoldable pub write_kv_pair : Bool → ℕ → ValueType → Disk → Option Disk
unfolding file_name file_text
write_kv_pair writable key v d =
    if writable then some (insert (file_name key) (file_text v) d) else none

-- `filepath.Glob(…, "*.kv")`
abbrev pub is_kv_file : Bytes → Bool
is_kv_file [] = false
is_kv_file (c ∷ s) = if bytes_beq (c ∷ s) (codes ".kv") then true else is_kv_file s

abbrev pub first : List Bytes → Bytes
first [] = []
first (p ∷ ps) = p

-- `uint64(k)`
abbrev pub to_uint64 : ℤ → ℕ
to_uint64 (pos n) = n % 2 ^ 64
to_uint64 (negsuc n) = 2 ^ 64 - 1 - n % 2 ^ 64

-- `dataStr[0]` and `dataStr[1]`; `none` is an index out of range, a panic.
abbrev pub value_of_lines : List Bytes → Option ValueType
value_of_lines [] = none
value_of_lines (a ∷ []) = none
value_of_lines (a ∷ b ∷ rest) = some (record { num_kills = atoi a; num_deaths = atoi b })

-- The key and the value that one file gives.
unfoldable pub read_kv_file : Bytes → Bytes → Option (ℕ × ValueType)
read_kv_file name text = elim (value_of_lines (split text line_feed)) [
  | none ↦ none
  | some v ↦ some (to_uint64 (atoi (first (split name dot))), v)
]

-- The loop of `KVStoreSetup` over the files, in the order in which they are listed.
unfoldable pub load_files : Disk → Map ℕ ValueType → Option (Map ℕ ValueType)
load_files [] m = some m
load_files ((name, text) ∷ files) m =
    let skip = load_files files m in
    if is_kv_file name
    then elim (read_kv_file name text) [
      | none ↦ none
      | some (k, v) ↦ load_files files (insert k v m)
    ]
    else skip

unfoldable pub kv_store_setup : Disk → Option (Map ℕ ValueType)
kv_store_setup d = load_files d []
