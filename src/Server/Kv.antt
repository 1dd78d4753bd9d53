-- ===== src/Server/Kv.antt =====
-- The server's side of the key-value store: `KVGet` and `KVPut` of server/server.go, with the calls
-- `KVClientGet` and `KVClientPut` of clientlib/clock.go that they make. `deliver h` is what becomes
-- of the call on the connection `h`; the orders are those of a `range` and of `rand.Perm`.
pub mod Deadlock
pub mod Put
pub mod Holders
pub mod Loop
pub mod Choice
pub mod PutGet
pub mod Get
pub mod ReadBack
pub mod Failures
pub mod Held
pub mod Stale
use cs416_tanks.Base.{
  ℕ, ◌-◌, ◌<◌, Bool, true, false, not, ◌&&◌, List, [], ◌∷◌, ◌++◌, Map, lookup, insert, Option, none,
  some, ◌==◌, nat_eq, ltb, if◌then◌else◌, length, take,
}
use cs416_tanks.Crdt.{ValueType, GetArg, GetReply, PutArg, PutReply, zero_value}
use cs416_tanks.Client.Store.{kv_client_get, kv_client_put}
use cs416_tanks.Server.State.{Connection, ServerError, key_unavailable, is_connected, is_online}
use cs416_tanks.Server.Monad.{
  Action, pure, ◌>>=◌, ◌>>◌, fail, or_crash, deref, log_fatal, get_tables, put_tables, lock, unlock,
  connections_lock, key_to_clients_lock, Delivery, call,
}

-- `keyToClients.M[key]`, nil where the key is missing.
unfoldable pub holders : ℕ → Map ℕ (List ℕ) → List ℕ
holders key m = elim (lookup key m) [ none ↦ [] | some ids ↦ ids ]

-- The loop of `KVGet` over the holders of a key, with `latestOnline`.
unfoldable pub latest_online : Map ℕ Connection → List ℕ → Option ℕ → Option ℕ
latest_online m [] found = found
latest_online m (id ∷ ids) found = latest_online m ids (if is_online m id then some id else found)

abbrev pub unavailable_reply : GetReply
unavailable_reply = record {
  ok = false;
  has_already = false;
  unavailable = true;
  value = zero_value;
}

abbrev pub already_reply : GetReply
already_reply = record { ok = true; has_already = true; unavailable = false; value = zero_value }

abbrev pub value_reply : ValueType → GetReply
value_reply v = record { ok = true; has_already = false; unavailable = false; value = v }

-- `ClientClockRemote.KVClientGet`: where the call fails it answers the zero value and no error.
abbrev pub value_or_zero : Option ValueType → ValueType
value_or_zero none = zero_value
value_or_zero (some v) = v

unfoldable pub remote_get : (ℕ → Delivery) → ℕ → ℕ → Action ValueType
remote_get deliver h key = do r ← call (deliver h) h (kv_client_get key); pure (value_or_zero r)

unfoldable pub fetch : (ℕ → Delivery) → ℕ → ℕ → Action (GetReply × Option ServerError)
unfolding remote_get
fetch deliver key id = do
  t ← get_tables
  c ← deref (lookup id t.connections)
  h ← or_crash log_fatal c.rpc_client
  v ← remote_get deliver h key
  pure (value_reply v, none)

unfoldable pub kv_get_locked : (ℕ → Delivery) → GetArg → Action (GetReply × Option ServerError)
unfolding fetch
kv_get_locked deliver arg = do
  t ← get_tables
  elim (latest_online t.connections (holders arg.key t.key_to_clients) none) [
    | none ↦ pure (unavailable_reply, some (key_unavailable arg.key))
    | some id ↦ if id == arg.client_id then pure (already_reply, none) else fetch deliver arg.key id
  ]

-- `KVGet` after its first lock; the deferred calls release the locks in the reverse order.
unfoldable pub kv_get_rest : (ℕ → Delivery) → GetArg → Action (GetReply × Option ServerError)
unfolding kv_get_locked
kv_get_rest deliver arg = do
  lock connections_lock
  reply ← kv_get_locked deliver arg
  unlock connections_lock
  unlock key_to_clients_lock
  pure reply

unfoldable pub kv_get : (ℕ → Delivery) → GetArg → Action (GetReply × Option ServerError)
unfolding kv_get_rest
kv_get deliver arg = do lock key_to_clients_lock; kv_get_rest deliver arg

-- The loop of `KVPut` that keeps the online holders. A holder that is no connection is a nil
-- pointer.
unfoldable pub keep_online : Map ℕ Connection → List ℕ → Option (List ℕ)
keep_online m [] = some []
keep_online m (id ∷ ids) =
    let rest = keep_online m ids in
    elim (lookup id m) [
      | none ↦ none
      | some c ↦ elim rest [
        | none ↦ none
        | some kept ↦ some (if is_connected c then id ∷ kept else kept)
      ]
    ]

-- The loop that looks for an id in a list.
unfoldable pub has_id : ℕ → List ℕ → Bool
has_id k [] = false
has_id k (id ∷ ids) = if id == k then true else has_id k ids

-- The loop over all connections that collects the candidates.
unfoldable pub candidates : Map ℕ Connection → List ℕ → List ℕ → List ℕ
candidates m clients [] = []
candidates m clients (id ∷ order) =
    let rest = candidates m clients order in
    if is_online m id && not (has_id id clients) then id ∷ rest else rest

abbrev pub replication_factor : ℕ
replication_factor = 3

unfoldable pub min : ℕ → ℕ → ℕ
min a b = if ltb a b then a else b

-- The clients that will hold the pair: the online holders and, where these are too few, candidates
-- in a random order. `shuffle` stands for the choice by `rand.Perm`, and the loop takes the first
-- `numRequired` of them.
unfoldable pub choose_clients : (List ℕ → List ℕ) → Map ℕ Connection → List ℕ → List ℕ → List ℕ
choose_clients shuffle m order clients =
    let others = candidates m clients order in
    if ltb (length clients) replication_factor
    then clients
      ++ take (min (replication_factor - length clients) (length others)) (shuffle others)
    else clients

-- `keyToClients.M[key] = append(…, id)` if the id is new there.
unfoldable pub add_holder : ℕ → ℕ → Map ℕ (List ℕ) → Map ℕ (List ℕ)
add_holder key id m =
    if has_id id (holders key m) then m else insert key (holders key m ++ id ∷ []) m

-- `ClientClockRemote.KVClientPut`: an error of the call or of the client's handler is an error.
unfoldable pub remote_put : (ℕ → Delivery) → ℕ → PutArg → Action (Option Bool)
remote_put deliver h arg = do
  r ← call (deliver h) h (kv_client_put arg)
  pure (elim r [ none ↦ none | some ack ↦ ack ])

-- One round of the loop that sends the pair out.
unfoldable pub put_one : (ℕ → Delivery) → PutArg → ℕ → Action (Unit {0})
unfolding remote_put
put_one deliver arg id = do
  t ← get_tables
  c ← deref (lookup id t.connections)
  h ← or_crash log_fatal c.rpc_client
  r ← remote_put deliver h arg
  ack ← or_crash log_fatal r
  u ← get_tables
  put_tables (record u { key_to_clients = add_holder arg.key id u.key_to_clients })

unfoldable pub put_each : (ℕ → Delivery) → PutArg → List ℕ → Action (Unit {0})
put_each deliver arg [] = pure tt
put_each deliver arg (id ∷ ids) = put_one deliver arg id >> put_each deliver arg ids

-- `KVPut` after its first lock.
unfoldable pub kv_put_rest :
    (ℕ → Delivery) → (List ℕ → List ℕ) → List ℕ → PutArg → Action (PutReply × Option ServerError)
kv_put_rest deliver shuffle order arg = do
  lock key_to_clients_lock
  t ← get_tables
  clients ← deref (keep_online t.connections (holders arg.key t.key_to_clients))
  put_each deliver arg (choose_clients shuffle t.connections order clients)
  unlock key_to_clients_lock
  unlock connections_lock
  pure (record { ok = true }, none)

unfoldable pub kv_put :
    (ℕ → Delivery) → (List ℕ → List ℕ) → List ℕ → PutArg → Action (PutReply × Option ServerError)
unfolding kv_put_rest
kv_put deliver shuffle order arg = do lock connections_lock; kv_put_rest deliver shuffle order arg
