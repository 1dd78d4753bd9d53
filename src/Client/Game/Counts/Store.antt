-- ===== src/Client/Game/Counts/Store.antt =====
-- The store of a player's statistics that its goroutines count in, as the server provides it:
-- `KVGet` and `KVPut` of client/crdt.go with their stubs and the handlers of server/server.go.
use cs416_tanks.Base.{
  ℕ, Bool, true, ◌≡◌, List, Map, lookup, nat_eq, Option, none, some, if◌then◌else◌,
}
use cs416_tanks.Crdt.{ValueType, zero_value}
use cs416_tanks.Client.Store.{Client}
use cs416_tanks.Server.State.{Connection, Server, unlocked, is_online}
use cs416_tanks.Server.Monad.{Outcome, done, crash, blocked, Delivery}
use cs416_tanks.Server.Kv.{kv_get, kv_put}
use cs416_tanks.Server.Kv.Put.{Reaches}
use cs416_tanks.Server.Kv.PutGet.{HoldersKnown}
use cs416_tanks.Server.Kv.Get.{GetAnswer, PutAnswer}
use cs416_tanks.Server.Kv.ReadBack.{stub_kv_get, client_kv_get}
use cs416_tanks.Server.Stubs.{client_kv_put}
use cs416_tanks.Client.Game.Counts.{Stats}

abbrev pub at_handle : Option ℕ → Map ℕ Client → Option Client
at_handle none r = none
at_handle (some h) r = lookup h r

abbrev pub at_connection : Option Connection → Map ℕ Client → Option Client
at_connection none r = none
at_connection (some c) r = at_handle c.rpc_client r

-- The client behind the connection of the player `me`.
abbrev pub own_client : ℕ → Server → Option Client
own_client me s = at_connection (lookup me s.tables.connections) s.remotes

abbrev pub read_own : Option Client → GetAnswer → ℕ → ValueType × Bool
read_own none a me = (zero_value, true)
read_own (some cl) a me = client_kv_get (stub_kv_get (some a)) me cl

-- `KVGet` of the client, by what becomes of the call; a server that is down or does not answer is
-- an error.
abbrev pub after_get : ℕ → Outcome GetAnswer → ValueType × Bool
after_get me (done a s) = read_own (own_client me s) a me
after_get me (crash c) = (zero_value, true)
after_get me blocked = (zero_value, true)

-- `KVPut` of the client; its error ends the process.
abbrev pub after_put : Outcome PutAnswer → Option Server
after_put (done a s) = if client_kv_put (some a) then some s else none
after_put (crash c) = none
after_put blocked = none

-- The statistics of the player `me` stand under its id.
abbrev pub server_stats : (ℕ → Delivery) → (List ℕ → List ℕ) → List ℕ → ℕ → Stats Server
server_stats deliver shuffle order me = record {
  kv_get = λ s. after_get me (kv_get deliver (record { client_id = me; key = me }) s);
  kv_put = λ v s. after_put (kv_put deliver shuffle order (record { key = me; value = v }) s);
}

-- The server is between two handlers, every holder has a connection, every online client is
-- reached, and the player is one of them.
pub record Serving (deliver : ℕ → Delivery) (me : ℕ) (s : Server) : Type 0 where
  pub released : s.locks ≡ unlocked
  pub known : HoldersKnown s.tables
  pub reach :
      (id : ℕ)
      → is_online s.tables.connections id ≡ true
      → Reaches deliver s.tables.connections s.remotes id
  pub online : is_online s.tables.connections me ≡ true
