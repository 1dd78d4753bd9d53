-- ===== src/Server/Registry/Workers.antt =====
-- `monitorConnections` and `awaitClientConnections` of server/server.go.
use cs416_tanks.Base.{
  ℕ, ◌+◌, ◌*◌, length, Bool, not, List, [], ◌∷◌, lookup, Option, none, some, ◌==◌, nat_eq,
  string_eq, if◌then◌else◌,
}
use cs416_tanks.Server.State.{Status, status_eq, Connection, Tables}
use cs416_tanks.Server.Monad.{
  Action, pure, ◌>>=◌, ◌>>◌, fail, or_crash, deref, log_fatal, get_tables, put_tables, lock, unlock,
  connections_lock,
}
use cs416_tanks.Server.Registry.{put_connection}

-- The call of `Recover` on a lost client. `recovers` is the client's answer, false where the call
-- failed.
unfoldable pub try_recover : (ℕ → Bool) → ℕ → Connection → Tables → Action (Unit {0})
try_recover recovers id c t = do
  h ← deref c.client
  let again = put_tables (put_connection id (record c { status = Status.reconnected }) t)
  if recovers h then again else pure tt

unfoldable pub if_lost : (ℕ → Bool) → ℕ → Option Connection → Tables → Action (Unit {0})
if_lost recovers id o t = elim o [
  | none ↦ pure tt
  | some c ↦ if c.status == Status.disconnected then try_recover recovers id c t else pure tt
]

-- One visit of the loop of `monitorConnections`.
unfoldable pub monitor_one : (ℕ → Bool) → ℕ → Action (Unit {0})
unfolding if_lost
monitor_one recovers id = do t ← get_tables; if_lost recovers id (lookup id t.connections) t

unfoldable pub monitor_all : (ℕ → Bool) → List ℕ → Action (Unit {0})
monitor_all recovers [] = pure tt
monitor_all recovers (id ∷ ids) = monitor_one recovers id >> monitor_all recovers ids

-- One round of `monitorConnections`.
unfoldable pub monitor_connections : (ℕ → Bool) → List ℕ → Action (Unit {0})
monitor_connections recovers order = do
  lock connections_lock
  monitor_all recovers order
  unlock connections_lock

-- `binary.BigEndian.Uint64`
unfoldable pub big_endian : List ℕ → ℕ → ℕ
big_endian [] n = n
big_endian (b ∷ bs) n = big_endian bs (n * 256 + b)

-- One round of `awaitClientConnections`: a connection, numbered `h`, and the bytes of its first read.
unfoldable pub await_client : ℕ → List ℕ → Action (Unit {0})
await_client h bytes = if not (length bytes == 8) then fail log_fatal else (do
  let id = big_endian bytes 0
  lock connections_lock
  t ← get_tables
  c ← or_crash log_fatal (lookup id t.connections)
  put_tables (put_connection id (record c { rpc_client = some h }) t)
  unlock connections_lock)
