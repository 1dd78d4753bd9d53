-- ===== src/Tests/ServerKv.antt =====
-- Statistics on a server with two players and one that has left.
use cs416_tanks.Base.{
  ℕ, true, ◌≡◌, refl, inl, inr, List, [], ◌∷◌, Map, lookup, nat_eq, nat_beq, none, some, arith,
  Bool-cases,
}
use cs416_tanks.Base.Int.{pos}
use cs416_tanks.Crdt.{PutArg}
use cs416_tanks.Client.Store.{Client}
use cs416_tanks.Server.State.{Status, zero_peer, Connection, Tables, initial, idle, is_online}
use cs416_tanks.Server.Monad.{
  done, blocked, Returns, Delivery, delivered, lock, connections_lock, key_to_clients_lock, ◌>>◌,
}
use cs416_tanks.Server.Kv.{holders, kv_get, kv_get_rest, kv_put, kv_put_rest}
use cs416_tanks.Server.Kv.Deadlock.{both_started, get_put_deadlock}
use cs416_tanks.Server.Kv.Put.{Reaches}
use cs416_tanks.Server.Kv.Choice.{IsShuffle}
use cs416_tanks.Server.Kv.PutGet.{HoldersKnown, Stored, kv_put_replicates}
use cs416_tanks.Server.Kv.ReadBack.{ReadsBack, read_back}

abbrev pub player : Status → ℕ → Connection
player s h = record {
  status = s;
  display_name = "p";
  address = "a";
  rpc_client = some h;
  rpc_address = "b";
  client = none;
  offset = pos 0;
  partner = zero_peer;
}

abbrev pub blank : Client
blank = record { kv_map = []; disk = []; writable = true; clock = record { offset = pos 0 } }

-- Clients 1 and 2 play; 3, which has left, is the only holder of the key 5.
abbrev pub table : Tables
table = record initial {
  connections =
      (1, player Status.connected 11)
      ∷ (2, player Status.connected 12)
      ∷ (3, player Status.not_in_game 13)
      ∷ [];
  key_to_clients = (5, 3 ∷ []) ∷ [];
}

abbrev remotes : Map ℕ Client
remotes = (11, blank) ∷ (12, blank) ∷ (13, blank) ∷ []

abbrev pub all_delivered : ℕ → Delivery
all_delivered h = delivered

abbrev pub unchanged : List ℕ → List ℕ
unchanged xs = xs

pub unchanged-IsShuffle : IsShuffle unchanged
unchanged-IsShuffle = record {
  members = λ xs j. (λ h. h, λ h. h);
  same_length = λ xs. refl;
  distinct = λ xs h. h;
}

table-HoldersKnown : HoldersKnown table
unfolding holders lookup
table-HoldersKnown key id v = ground arith

reach_player :
    (id h : ℕ)
    → lookup id table.connections ≡ some (player Status.connected h)
    → lookup h remotes ≡ some blank
    → Reaches all_delivered table.connections remotes id
reach_player id h listed at = record {
  conn = player Status.connected h;
  listed = listed;
  handle = h;
  has_handle = refl;
  gets_through = refl;
  client = blank;
  at_handle = at;
  can_write = refl;
}

table-Reaches :
    (id : ℕ)
    → is_online table.connections id ≡ true
    → Reaches all_delivered table.connections remotes id
unfolding is_online lookup
table-Reaches id h = elim (Bool-cases (nat_beq 1 id)) [
  | inl e ↦ reach_player id 11 (ground arith) refl
  | inr e ↦ reach_player id 12 (ground arith) refl
]

abbrev pub put : PutArg
put = record { key = 5; value = record { num_kills = pos 2; num_deaths = pos 1 } }

kv_put_replicates_example :
    Returns
      (λ a s. (a ≡ (record { ok = true }, none)) × Stored put (2 ∷ 1 ∷ 3 ∷ []) table remotes s)
      (kv_put all_delivered unchanged (2 ∷ 1 ∷ 3 ∷ []) put (idle table remotes))
kv_put_replicates_example =
    kv_put_replicates all_delivered unchanged (2 ∷ 1 ∷ 3 ∷ []) put table remotes unchanged-IsShuffle
      table-HoldersKnown table-Reaches

get_put_deadlock_example :
    (kv_get all_delivered (record { client_id = 1; key = 5 })
      ≡ (lock key_to_clients_lock >> kv_get_rest all_delivered (record { client_id = 1; key = 5 })))
    × (kv_put all_delivered unchanged (1 ∷ []) put
        ≡ (lock connections_lock >> kv_put_rest all_delivered unchanged (1 ∷ []) put))
    × ((lock key_to_clients_lock >> lock connections_lock) (idle table remotes)
        ≡ done tt (both_started table remotes all_delivered))
    × (kv_get_rest all_delivered
          (record { client_id = 1; key = 5 })
          (both_started table remotes all_delivered)
        ≡ blocked)
    × (kv_put_rest all_delivered unchanged (1 ∷ []) put (both_started table remotes all_delivered)
        ≡ blocked)
get_put_deadlock_example =
    get_put_deadlock table remotes all_delivered (record { client_id = 1; key = 5 }) unchanged
      (1 ∷ []) put

read_back_example : Returns (ReadsBack put table.connections 1) (
    (kv_put all_delivered unchanged (2 ∷ 1 ∷ 3 ∷ []) put
        >> kv_get all_delivered (record { client_id = 1; key = 5 }))
      (idle table remotes))
unfolding is_online lookup
read_back_example =
    read_back all_delivered unchanged (2 ∷ 1 ∷ 3 ∷ []) put table remotes all_delivered 1 2
      unchanged-IsShuffle table-HoldersKnown table-Reaches (λ h. refl) (inl refl) refl
