-- ===== src/Tests/ServerFailures.antt =====
-- Statistics on a server with three players and one that missed the last put.
use cs416_tanks.Base.{
  ℕ, ◌≡◌, ◌≢◌, refl, true, inl, inr, List, [], ◌∷◌, ◌++◌, Map, lookup, nat_eq, nat_beq, none, some,
  arith, In, AllDistinct, Bool-cases,
}
use cs416_tanks.Base.Int.{pos}
use cs416_tanks.Crdt.{ValueType}
use cs416_tanks.Client.Store.{Client, value_at}
use cs416_tanks.Server.State.{
  Status, PeerInfo, Connection, Tables, initial, idle, is_connected, is_online,
}
use cs416_tanks.Server.Monad.{Returns, ◌>>◌}
use cs416_tanks.Server.Registry.{connect}
use cs416_tanks.Server.Kv.{holders, keep_online, value_reply, kv_get, kv_put}
use cs416_tanks.Server.Kv.Put.{Reaches}
use cs416_tanks.Server.Kv.PutGet.{HoldersKnown}
use cs416_tanks.Server.Kv.ReadBack.{ReadsBack}
use cs416_tanks.Server.Kv.Failures.{report_all, survives}
use cs416_tanks.Server.Kv.Stale.{stale_read}
use cs416_tanks.Tests.ServerKv.{player, blank, all_delivered, unchanged, unchanged-IsShuffle, put}

-- Clients 1, 2 and 4 play; 3 has left. All four hold the key 5.
abbrev table : Tables
table = record initial {
  connections =
      (1, player Status.connected 11)
      ∷ (2, player Status.connected 12)
      ∷ (4, player Status.connected 14)
      ∷ (3, player Status.not_in_game 13)
      ∷ [];
  key_to_clients = (5, 1 ∷ 2 ∷ 4 ∷ 3 ∷ []) ∷ [];
}

-- What 3 has under the key.
abbrev old_value : ValueType
old_value = record { num_kills = pos 1; num_deaths = pos 0 }

abbrev behind : Client
behind = record blank { kv_map = (5, old_value) ∷ [] }

abbrev remotes : Map ℕ Client
remotes = (11, blank) ∷ (12, blank) ∷ (14, blank) ∷ (13, behind) ∷ []

table-HoldersKnown : HoldersKnown table
unfolding holders lookup
table-HoldersKnown key id v = ground arith

reach_player :
    (id h : ℕ)
    → lookup id table.connections ≡ some (player Status.connected h)
    → lookup h remotes ≡ some blank
    → Reaches all_delivered table.connections remotes id
reach_player id h listed at = record {
  conn = player Status.connected h;
  listed = listed;
  handle = h;
  has_handle = refl;
  gets_through = refl;
  client = blank;
  at_handle = at;
  can_write = refl;
}

table-Reaches :
    (id : ℕ)
    → is_online table.connections id ≡ true
    → Reaches all_delivered table.connections remotes id
unfolding is_online lookup
table-Reaches id h = elim (Bool-cases (nat_beq 1 id)) [
  | inl e ↦ reach_player id 11 (ground arith) refl
  | inr e ↦ elim (Bool-cases (nat_beq 2 id)) [
    | inl e' ↦ reach_player id 12 (ground arith) refl
    | inr e' ↦ reach_player id 14 (ground arith) refl
  ]
]

abbrev order : List ℕ
order = 1 ∷ 2 ∷ 4 ∷ 3 ∷ []

order-AllDistinct : AllDistinct order
order-AllDistinct =
    ((λ v. ground arith), ((λ v. ground arith), ((λ v. ground arith), ((λ v. v), tt))))

held_once : AllDistinct (holders 5 table.key_to_clients)
unfolding holders lookup
held_once = order-AllDistinct

abbrev crowd : List ℕ
crowd = 1 ∷ 2 ∷ 4 ∷ []

crowd-AllDistinct : AllDistinct crowd
crowd-AllDistinct = ((λ v. ground arith), ((λ v. ground arith), ((λ v. v), tt)))

crowd-online : (j : ℕ) → In j crowd → In j order × (is_online table.connections j ≡ true)
unfolding is_online lookup
crowd-online j (inl e) = (inl e, rw e refl)
crowd-online j (inr (inl e)) = (inr (inl e), rw e refl)
crowd-online j (inr (inr (inl e))) = (inr (inr (inl e)), rw e refl)
crowd-online j (inr (inr (inr no_more))) = absurd no_more

survives_example : Returns (ReadsBack put table.connections 2) (
    (kv_put all_delivered unchanged order put
        >> (report_all (1 ∷ 2 ∷ []) >> kv_get all_delivered (record { client_id = 2; key = 5 })))
      (idle table remotes))
survives_example =
    survives all_delivered unchanged order put table remotes all_delivered 2 (1 ∷ 2 ∷ []) crowd
      unchanged-IsShuffle table-HoldersKnown table-Reaches (λ h. refl) order-AllDistinct held_once
      crowd-AllDistinct crowd-online (omega arith) (omega arith)

abbrev info : PeerInfo
info = record { address = "a"; rpc_address = "b"; client_id = 3; display_name = "p" }

four_hold : holders 5 table.key_to_clients ≡ (1 ∷ 2 ∷ 4 ∷ []) ++ 3 ∷ []
unfolding holders lookup
four_hold = refl

three_kept : keep_online table.connections (holders 5 table.key_to_clients) ≡ some (1 ∷ 2 ∷ 4 ∷ [])
unfolding holders lookup keep_online
three_kept = refl

left_game : lookup 3 table.connections ≡ some (player Status.not_in_game 13)
unfolding lookup
left_game = refl

behind_there : lookup 13 remotes ≡ some behind
unfolding lookup
behind_there = refl

own_connections :
    (i : ℕ) (d : Connection)
    → lookup i table.connections ≡ some d
    → is_connected d ≡ true
    → d.rpc_client ≢ some 13
unfolding lookup
own_connections i d e on = ground (arith, e, on)

stale_read_example :
    Returns
      (λ a s. a ≡ (value_reply (value_at 5 behind.kv_map), none))
      ((kv_put all_delivered unchanged order put
          >> (connect info order >> kv_get all_delivered (record { client_id = 1; key = 5 })))
        (idle table remotes))
stale_read_example =
    stale_read all_delivered unchanged order put table remotes all_delivered 1 13 info order
      (1 ∷ 2 ∷ 4 ∷ []) (1 ∷ 2 ∷ 4 ∷ []) (player Status.not_in_game 13) behind unchanged-IsShuffle
      table-HoldersKnown table-Reaches four_hold three_kept (omega arith) left_game refl refl
      behind_there own_connections refl (λ e. ground arith)

-- It is not the value that was put.
still_old : value_at 5 behind.kv_map ≡ old_value
unfolding value_at lookup
still_old = refl
