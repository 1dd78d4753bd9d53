-- ===== src/Server/Registry/History.antt =====
-- The requests of the server, with `awaitClientConnections` and the rounds of its two workers.
use cs416_tanks.Base.{ℕ, Bool, List, nat_eq, string_eq}
use cs416_tanks.Server.State.{status_eq, PeerInfo, RegisterRequest}
use cs416_tanks.Server.Monad.{Action, Delivery, pure, ◌>>◌}
use cs416_tanks.Server.Registry.{register, connect, disconnect, get_nodes, notify_failure}
use cs416_tanks.Server.Registry.Workers.{monitor_connections, await_client}
use cs416_tanks.Crdt.{GetArg, PutArg}
use cs416_tanks.Server.Kv.{kv_get, kv_put}
use cs416_tanks.Server.Sync.{Reading, sync_clocks}

pub data Request : Type 0 where
  registering : RegisterRequest → Request
  connecting : PeerInfo → List ℕ → Request
  disconnecting : ℕ → Request
  asking_nodes : ℕ → List ℕ → Request
  reporting : ℕ → Request
  monitoring : (ℕ → Bool) → List ℕ → Request
  greeting : ℕ → List ℕ → Request
  getting : (ℕ → Delivery) → GetArg → Request
  putting : (ℕ → Delivery) → (List ℕ → List ℕ) → List ℕ → PutArg → Request
  synchronising : (ℕ → Reading) → List ℕ → List ℕ → Request

unfoldable pub serve : Request → Action (Unit {0})
serve (registering r) = register r >> pure tt
serve (connecting info order) = connect info order >> pure tt
serve (disconnecting id) = disconnect id >> pure tt
serve (asking_nodes id order) = get_nodes id order >> pure tt
serve (reporting id) = notify_failure id >> pure tt
serve (monitoring recovers order) = monitor_connections recovers order
serve (greeting h bytes) = await_client h bytes
serve (getting deliver arg) = kv_get deliver arg >> pure tt
serve (putting deliver shuffle order arg) = kv_put deliver shuffle order arg >> pure tt
serve (synchronising readings order order') = sync_clocks readings order order'
