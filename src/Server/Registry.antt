-- ===== src/Server/Registry.antt =====
-- The handlers of server/server.go that keep the table of connections. A `range` over that table
-- takes the order of its visits as an argument, since Go leaves it open. Logging is left out.
pub mod Workers
pub mod Search
pub mod Partners
pub mod Connects
pub mod Diagram
pub mod History
pub mod Handlers
pub mod Actions
pub mod Monitoring
pub mod Store
pub mod Clocks
pub mod Runs
pub mod Stranded
pub mod Zero
use cs416_tanks.Base.{
  ℕ, suc, ◌+◌, ◌*◌, length, Bool, true, false, not, ◌&&◌, List, [], ◌∷◌, Map, lookup, insert,
  contains, Option, none, some, ◌==◌, nat_eq, string_eq, if◌then◌else◌,
}
use cs416_tanks.Base.Int.{pos}
use cs416_tanks.Server.State.{
  Status, status_eq, PeerInfo, zero_peer, PeerNetSettings, zero_settings, RegisterRequest,
  Connection, ServerError, invalid_client, display_name_in_use, already_connected,
  min_peer_connections, Tables, is_connected, is_online,
}
use cs416_tanks.Server.Monad.{
  Action, pure, ◌>>=◌, ◌>>◌, fail, or_crash, deref, log_fatal, get_tables, put_tables, lock, unlock,
  connections_lock, display_names_lock,
}

-- `&Connection{status: NOTINGAME, displayName: name}`
abbrev pub new_connection : RegisterRequest → Connection
new_connection r = record {
  status = Status.not_in_game;
  display_name = r.display_name;
  address = "";
  rpc_client = none;
  rpc_address = "";
  client = none;
  offset = pos 0;
  partner = zero_peer;
}

abbrev pub put_connection : ℕ → Connection → Tables → Tables
put_connection id c t = record t { connections = insert id c t.connections }

unfoldable pub register : RegisterRequest → Action (PeerNetSettings × Option ServerError)
register r = do
  lock display_names_lock
  t ← get_tables
  if contains r.display_name t.display_names
      then (do
        unlock display_names_lock
        pure (zero_settings, some (display_name_in_use r.display_name)))
      else (do
        put_tables (record t { display_names = insert r.display_name true t.display_names })
        unlock display_names_lock
        lock connections_lock
        u ← get_tables
        put_tables (put_connection r.client_id (new_connection r) u)
        unlock connections_lock
        pure (record { unique_user_id = r.client_id; display_name = r.display_name }, none))

abbrev pub peer_of : ℕ → Connection → PeerInfo
peer_of id c = record {
  address = c.address;
  rpc_address = c.rpc_address;
  client_id = id;
  display_name = c.display_name;
}

-- The loop that looks for a partner of the client `me`.
unfoldable pub find_partner : ℕ → Map ℕ Connection → List ℕ → Option PeerInfo
find_partner me m [] = none
find_partner me m (id ∷ ids) =
    let rest = find_partner me m ids in
    elim (lookup id m) [
      | none ↦ rest
      | some c ↦ if not (id == me) && is_connected c then some (peer_of id c) else rest
    ]

abbrev pub or_else : Option PeerInfo → PeerInfo → PeerInfo
or_else none p = p
or_else (some q) p = q

-- The connection that `Connect` writes over the client's old one, `c`.
abbrev pub connection_of : PeerInfo → Connection → PeerInfo → Connection
connection_of info c partner = record {
  status = Status.connected;
  display_name = info.display_name;
  address = info.address;
  rpc_client = c.rpc_client;
  rpc_address = info.rpc_address;
  client = none;
  offset = pos 0;
  partner = partner;
}

-- Both refusals unlock, answer and unlock again.
abbrev reject : ServerError → Action (ℕ × Option ServerError)
reject e = do unlock connections_lock; unlock connections_lock; pure (0, some e)

accept : PeerInfo → Connection → List ℕ → Action (ℕ × Option ServerError)
accept info c order = do
  t ← get_tables
  let partner = or_else (find_partner info.client_id t.connections order) zero_peer
  put_tables (put_connection info.client_id (connection_of info c partner) t)
  unlock connections_lock
  u ← get_tables
  put_tables (record u { pending_syncs = suc u.pending_syncs })
  pure (min_peer_connections, none)

unfoldable pub connect : PeerInfo → List ℕ → Action (ℕ × Option ServerError)
unfolding accept
connect info order = do
  lock connections_lock
  t ← get_tables
  elim (lookup info.client_id t.connections) [
    | none ↦ reject (invalid_client info.client_id)
    | some c ↦ if is_connected c then reject already_connected else accept info c order
  ]

unfoldable pub disconnect : ℕ → Action (Bool × Option ServerError)
disconnect id = do
  lock connections_lock
  t ← get_tables
  elim (lookup id t.connections) [
    | none ↦ do unlock connections_lock; pure (false, some (invalid_client id))
    | some c ↦ do
      put_tables (put_connection id (record c { status = Status.not_in_game }) t)
      unlock connections_lock
      pure (true, none)
  ]

-- `m[p.ClientID] == nil || m[p.ClientID].status == DISCONNECTED`
unfoldable pub is_gone : PeerInfo → Map ℕ Connection → Bool
is_gone p m = elim (lookup p.client_id m) [ none ↦ true | some c ↦ c.status == Status.disconnected ]

-- The partner of the connection `c` of the client `id`, looked for anew if it is gone.
unfoldable pub refresh_partner : ℕ → Connection → Map ℕ Connection → List ℕ → PeerInfo
unfolding is_gone
refresh_partner id c m order =
    if is_gone c.partner m then or_else (find_partner id m order) c.partner else c.partner

-- What `GetNodes` does after its first critical section.
unfoldable pub mark_connected : ℕ → Action (Unit {0})
mark_connected id = do
  t ← get_tables
  c ← deref (lookup id t.connections)
  if c.status == Status.reconnected
      then (do
        lock connections_lock
        u ← get_tables
        d ← deref (lookup id u.connections)
        put_tables (put_connection id (record d { status = Status.connected }) u)
        unlock connections_lock)
      else pure tt

unfoldable pub get_nodes : ℕ → List ℕ → Action (List PeerInfo × Option ServerError)
unfolding mark_connected
get_nodes id order = do
  lock connections_lock
  t ← get_tables
  elim (lookup id t.connections) [
    | none ↦ do unlock connections_lock; pure ([], some (invalid_client id))
    | some c ↦ do
      let p = refresh_partner id c t.connections order
      put_tables (put_connection id (record c { partner = p }) t)
      u ← get_tables
      let nodes = if is_online u.connections p.client_id then p ∷ [] else []
      unlock connections_lock
      mark_connected id
      pure (nodes, none)
  ]

unfoldable pub notify_failure : ℕ → Action Bool
notify_failure id = do
  lock connections_lock
  t ← get_tables
  elim (lookup id t.connections) [
    | none ↦ pure tt
    | some c ↦
        if is_connected c
        then put_tables (put_connection id (record c { status = Status.disconnected }) t)
        else pure tt
  ]
  unlock connections_lock
  pure true
