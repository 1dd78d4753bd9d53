-- ===== src/Tests/ClientCounts.antt =====
-- Counts in a store that holds one value and may be out of reach.
use cs416_tanks.Base.{
  ℕ, Map, lookup, nat_eq, nat_beq, Bool-cases, inl, inr, arith, Bool, true, false, ◌≡◌, refl, [],
  ◌∷◌, some, if◌then◌else◌,
}
use cs416_tanks.Base.Int.{pos}
use cs416_tanks.Crdt.{ValueType, zero_value}
use cs416_tanks.Client.Store.{Client}
use cs416_tanks.Server.Kv.ReadBack.{client_kv_get}
use cs416_tanks.Client.Game.{add_death, add_kill}
use cs416_tanks.Client.Game.Counts.{bump, Stats, begun, ended, run_both}
use cs416_tanks.Server.State.{Status, Tables, idle, is_online}
use cs416_tanks.Server.Kv.{holders, latest_online, kv_get}
use cs416_tanks.Server.Kv.Put.{Reaches}
use cs416_tanks.Server.Kv.PutGet.{HoldersKnown}
use cs416_tanks.Server.Kv.ReadBack.{stub_kv_get}
use cs416_tanks.Client.Store.{value_at}
use cs416_tanks.Client.Game.Counts.Store.{Serving, server_stats}
use cs416_tanks.Client.Game.Counts.Served.{server_counts}
use cs416_tanks.Tests.ServerKv.{player, blank, table, all_delivered, unchanged, unchanged-IsShuffle}
use cs416_tanks.Client.Game.Counts.Lost.{ReadsPuts, EndsWith, count_reset}

abbrev value : ValueType
value = record { num_kills = pos 3; num_deaths = pos 2 }

abbrev one_value : Stats (ValueType × Bool)
one_value = record {
  kv_get = λ s. if s.1 then (zero_value, true) else (s.0, false);
  kv_put = λ v s. some (v, false);
}

one_value-ReadsPuts : ReadsPuts one_value (λ s. Unit)
one_value-ReadsPuts v s good = ((v, false), refl, refl, tt)

abbrev empty_client : Client
empty_client = record { kv_map = []; disk = []; writable = true; clock = record { offset = pos 0 } }

count_reset_example :
    (s : ValueType × Bool) × (run_both one_value
        (true ∷ true ∷ [])
        add_kill
        begun
        add_death
        begun
        (value, true)
      ≡ some (ended, begun, s))
    × (one_value.kv_get s ≡ (bump add_kill zero_value, false))
unfolding client_kv_get
count_reset_example =
    count_reset one_value (λ s. Unit) one_value-ReadsPuts add_kill add_death 7 empty_client
      (value, true) tt refl

-- The player 1 has its own counts, on a server with another player.
abbrev counted : Tables
counted = record table { key_to_clients = (1, 1 ∷ []) ∷ [] }

abbrev holder : Client
holder = record blank { kv_map = (1, value) ∷ [] }

abbrev remotes : Map ℕ Client
remotes = (11, holder) ∷ (12, blank) ∷ []

counted-HoldersKnown : HoldersKnown counted
unfolding holders lookup
counted-HoldersKnown key id v = ground arith

reach_player :
    (id h : ℕ) (cl : Client)
    → lookup id counted.connections ≡ some (player Status.connected h)
    → lookup h remotes ≡ some cl
    → cl.writable ≡ true
    → Reaches all_delivered counted.connections remotes id
reach_player id h cl listed at can_write = record {
  conn = player Status.connected h;
  listed = listed;
  handle = h;
  has_handle = refl;
  gets_through = refl;
  client = cl;
  at_handle = at;
  can_write = can_write;
}

counted-Serving : Serving all_delivered 1 (idle counted remotes)
unfolding is_online lookup
counted-Serving = record {
  released = refl;
  known = counted-HoldersKnown;
  reach = λ id h. elim (Bool-cases (nat_beq 1 id)) [
    | inl e ↦ reach_player id 11 holder (ground arith) refl refl
    | inr e ↦ reach_player id 12 blank (ground arith) refl refl
  ];
  online = refl;
}

counts_now :
    (server_stats all_delivered unchanged (1 ∷ 2 ∷ []) 1).kv_get (idle counted remotes)
    ≡ (value, false)
unfolding kv_get latest_online holders is_online lookup client_kv_get stub_kv_get value_at
counts_now = refl

server_counts_example :
    EndsWith
      (server_stats all_delivered unchanged (1 ∷ 2 ∷ []) 1)
      (bump add_kill (bump add_death value))
      (run_both
        (server_stats all_delivered unchanged (1 ∷ 2 ∷ []) 1)
        (true ∷ true ∷ false ∷ false ∷ [])
        add_death
        begun
        add_kill
        begun
        (idle counted remotes))
    × EndsWith (server_stats all_delivered unchanged (1 ∷ 2 ∷ []) 1) (bump add_death value) (
        run_both
          (server_stats all_delivered unchanged (1 ∷ 2 ∷ []) 1)
          (true ∷ false ∷ false ∷ true ∷ [])
          add_death
          begun
          add_kill
          begun
          (idle counted remotes))
server_counts_example =
    server_counts all_delivered (λ h. refl) unchanged unchanged-IsShuffle (1 ∷ 2 ∷ []) 1 (inl refl)
      add_death add_kill (idle counted remotes) value true false counted-Serving counts_now
