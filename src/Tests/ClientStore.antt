-- ===== src/Tests/ClientStore.antt =====
-- A client that stores statistics and starts again.
use cs416_tanks.Base.{
  ℕ, ◌+◌, ◌-◌, ◌^◌, ◌≡◌, refl, List, [], ◌∷◌, Map, lookup, nat_eq, none, some, arith, true,
}
use cs416_tanks.Base.Int.{pos, negsuc, half_range}
use cs416_tanks.Base.Bytes.{codes, format_int, atoi}
use cs416_tanks.Crdt.{ValueType, PutArg}
use cs416_tanks.Client.Disk.{file_text, kv_store_setup}
use cs416_tanks.Client.Store.{Client, kv_client_put}
use cs416_tanks.Client.Store.Restart.{put_all, restart_restores, large_key_lost}

abbrev blank : Client
blank = record { kv_map = []; disk = []; writable = true; clock = record { offset = pos 0 } }

abbrev stats : ValueType
stats = record { num_kills = pos 12; num_deaths = negsuc 2 }

abbrev puts : List PutArg
puts =
    record { key = 5; value = stats }
    ∷ record { key = 40; value = stats }
    ∷ record { key = 5; value = record stats { num_kills = pos 13 } }
    ∷ []

restart_restores_example :
    (m : Map ℕ ValueType) × (kv_store_setup (put_all puts blank).disk ≡ some m)
    × ((k : ℕ) → lookup k m ≡ lookup k (put_all puts blank).kv_map)
restart_restores_example = restart_restores puts blank refl refl refl (ground arith)

abbrev large : PutArg
large = record { key = 2 ^ 63 + 5; value = stats }

large_key_lost_example :
    (m : Map ℕ ValueType) × (kv_store_setup (kv_client_put large blank).1.disk ≡ some m)
    × (lookup large.key m ≡ none)
    × (lookup (half_range - 1) m ≡ some stats)
large_key_lost_example = large_key_lost large blank refl refl (omega arith) (omega arith)

-- The text of one file.
stats_text : file_text stats ≡ codes "12\n-3\n"
unfolding file_text format_int
stats_text = refl

-- `Atoi` saturates and gives 0 on other text.
atoi_runs :
    (atoi (codes "9223372036854775813") ≡ pos (half_range - 1)) × (atoi (codes "x1") ≡ pos 0)
unfolding atoi
atoi_runs = (refl, refl)
