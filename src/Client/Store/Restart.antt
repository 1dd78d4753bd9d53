-- ===== src/Client/Store/Restart.antt =====
-- A client that stops and starts again has the statistics that it had.
use cs416_tanks.Base.{
  ℕ, ◌-◌, ◌≤◌, ◌<◌, ◌≡◌, refl, Map, lookup, insert, nat_eq, true, Option, none, some, List, [], ◌∷◌,
  arith,
}
use cs416_tanks.Base.Int.{half_range}
use cs416_tanks.Crdt.{ValueType, PutArg}
use cs416_tanks.Client.Disk.{write_kv_pair, load_files, kv_store_setup}
use cs416_tanks.Client.Disk.RoundTrip.{
  IsValue, IsDistinct, AreStorable, image, insert-image, insert-IsDistinct, load-image, or_else,
  read_back, is_kv_file-file_name,
}
use cs416_tanks.Client.Store.{Client, kv_client_put}

-- The calls of `KVClientPut` that a client has served, the oldest first.
unfoldable pub put_all : List PutArg → Client → Client
put_all [] c = c
put_all (a ∷ as') c = put_all as' (kv_client_put a c).1

abbrev pub IsStorable : PutArg → Type 0
IsStorable a = (a.key < half_range) × IsValue a.value

abbrev pub AllStorable : List PutArg → Type 0
AllStorable [] = Unit
AllStorable (a ∷ as') = IsStorable a × AllStorable as'

-- The directory mirrors the map in memory.
pub record Mirrors (c : Client) : Type 0 where
  pub writes : c.writable ≡ true
  pub files : c.disk ≡ image c.kv_map
  pub distinct : IsDistinct c.kv_map
  pub storable : AreStorable c.kv_map

insert-AreStorable :
    (k : ℕ) (v : ValueType) (m : Map ℕ ValueType)
    → k < half_range
    → IsValue v
    → AreStorable m
    → AreStorable (insert k v m)
unfolding insert
insert-AreStorable k v [] lt h s = (lt, h, tt)
insert-AreStorable k v ((j, w) ∷ m) lt h s = ground (arith, insert-AreStorable k v m lt h s.2)

put-Mirrors : (a : PutArg) (c : Client) → IsStorable a → Mirrors c → Mirrors (kv_client_put a c).1
unfolding kv_client_put write_kv_pair
put-Mirrors a c h v = ground (
  arith,
  insert-image a.key a.value c.kv_map,
  insert-IsDistinct a.key a.value c.kv_map,
  insert-AreStorable a.key a.value c.kv_map,
)

put_all-Mirrors :
    (as' : List PutArg) (c : Client) → AllStorable as' → Mirrors c → Mirrors (put_all as' c)
unfolding put_all
put_all-Mirrors [] c h v = v
put_all-Mirrors (a ∷ as') c h v =
    put_all-Mirrors as' (kv_client_put a c).1 h.1 (put-Mirrors a c h.0 v)

or_else-none : (o : Option ValueType) → or_else o none ≡ o
or_else-none none = refl
or_else-none (some v) = refl

reload :
    (c : Client)
    → Mirrors c
    → (m : Map ℕ ValueType) × (kv_store_setup c.disk ≡ some m)
      × ((k : ℕ) → lookup k m ≡ lookup k c.kv_map)
unfolding kv_store_setup lookup
reload c v =
    let (m, loaded, found) = load-image c.kv_map [] v.distinct v.storable in
    (m, ground (arith, loaded), λ k. ground (arith, found k, or_else-none (lookup k c.kv_map)))

-- After any calls of `KVClientPut` on a client with an empty directory that it can write, with keys
-- below 2 ^ 63 and counters that fit Go's `int`, `KVStoreSetup` succeeds on the directory and gives
-- a map with the same value, or none, at every key as the map in memory.
pub restart_restores :
    (as' : List PutArg) (c : Client)
    → c.writable ≡ true
    → c.disk ≡ []
    → c.kv_map ≡ []
    → AllStorable as'
    → (m : Map ℕ ValueType) × (kv_store_setup (put_all as' c).disk ≡ some m)
      × ((k : ℕ) → lookup k m ≡ lookup k (put_all as' c).kv_map)
restart_restores as' c w d m h = reload (put_all as' c) (put_all-Mirrors as' c h (ground arith))

-- A key of 2 ^ 63 or more is lost: after one `KVClientPut` of it on such a client, `KVStoreSetup`
-- succeeds, has nothing at the key, and has the value at the key 2 ^ 63 - 1.
pub large_key_lost :
    (a : PutArg) (c : Client)
    → c.writable ≡ true
    → c.disk ≡ []
    → half_range ≤ a.key
    → IsValue a.value
    → (m : Map ℕ ValueType) × (kv_store_setup (kv_client_put a c).1.disk ≡ some m)
      × (lookup a.key m ≡ none)
      × (lookup (half_range - 1) m ≡ some a.value)
unfolding kv_store_setup load_files kv_client_put write_kv_pair lookup insert
large_key_lost a c w d large h = (
  (half_range - 1, a.value) ∷ [],
  ground (arith, read_back a.key a.value h, is_kv_file-file_name a.key),
  ground arith,
  ground arith,
)
