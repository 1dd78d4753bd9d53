-- ===== src/Server/State.antt =====
-- The server's data: `Connection`, `Status`, the errors and the global variables of
-- server/server.go, and the messages of serverlib/serverlib.go that the handlers read.
use cs416_tanks.Base.{
  ℕ, String, Bool, true, false, ◌≡◌, ◌↔◌, Map, lookup, nat_eq, Option, none, some, List, [],
  Comparable, ◌==◌, arith,
}
use cs416_tanks.Base.Int.{pos}
use cs416_tanks.Clock.{ClockManager, Duration}
use cs416_tanks.Client.Store.{Client}

pub data Status : Type 0 where
  disconnected connected reconnected not_in_game : Status

abbrev pub status_beq : Status → Status → Bool
status_beq Status.disconnected Status.disconnected = true
status_beq Status.connected Status.connected = true
status_beq Status.reconnected Status.reconnected = true
status_beq Status.not_in_game Status.not_in_game = true
status_beq _ _ = false

pub status_beq_iff : (a b : Status) → (status_beq a b ≡ true) ↔ (a ≡ b)
status_beq_iff a b = ground arith

instance abbrev pub status_eq : Comparable Status
status_eq = record { same = status_beq; same_iff = status_beq_iff }

pub record PeerInfo : Type 0 where
  pub address : String
  pub rpc_address : String
  pub client_id : ℕ
  pub display_name : String

abbrev pub zero_peer : PeerInfo
zero_peer = record { address = ""; rpc_address = ""; client_id = 0; display_name = "" }

pub record PeerNetSettings : Type 0 where
  pub unique_user_id : ℕ
  pub display_name : String

abbrev pub zero_settings : PeerNetSettings
zero_settings = record { unique_user_id = 0; display_name = "" }

pub record RegisterRequest : Type 0 where
  pub display_name : String
  pub client_id : ℕ

-- `rpc_client` numbers the TCP connection that the client opened, and `client` is the wrapper around
-- that connection which `syncClocks` makes; `none` is nil.
pub record Connection : Type 0 where
  pub status : Status
  pub display_name : String
  pub address : String
  pub rpc_client : Option ℕ
  pub rpc_address : String
  pub client : Option ℕ
  pub offset : Duration
  pub partner : PeerInfo

pub data ServerError : Type 0 where
  invalid_client : ℕ → ServerError
  display_name_in_use : String → ServerError
  key_unavailable : ℕ → ServerError
  already_connected : ServerError

abbrev pub min_peer_connections : ℕ
min_peer_connections = 2

-- The global variables; `pending_syncs` counts the goroutines `go s.syncClocks()` that have not run.
pub record Tables : Type 0 where
  pub connections : Map ℕ Connection
  pub display_names : Map String Bool
  pub key_to_clients : Map ℕ (List ℕ)
  pub clock : ClockManager
  pub pending_syncs : ℕ

pub record Locks : Type 0 where
  pub connections_held : Bool
  pub display_names_held : Bool
  pub key_to_clients_held : Bool

-- The server and, by the number of the TCP connection, the clients that it can call.
pub record Server : Type 0 where
  pub tables : Tables
  pub locks : Locks
  pub remotes : Map ℕ Client

abbrev pub unlocked : Locks
unlocked = record {
  connections_held = false;
  display_names_held = false;
  key_to_clients_held = false;
}

-- The server between two handlers.
abbrev pub idle : Tables → Map ℕ Client → Server
idle t r = record { tables = t; locks = unlocked; remotes = r }

abbrev pub initial : Tables
initial = record {
  connections = [];
  display_names = [];
  key_to_clients = [];
  clock = record { offset = pos 0 };
  pending_syncs = 0;
}

abbrev pub is_connected : Connection → Bool
is_connected c = c.status == Status.connected

-- Whether `m[id]` is there and CONNECTED.
unfoldable pub is_online : Map ℕ Connection → ℕ → Bool
is_online m id = elim (lookup id m) [ none ↦ false | some c ↦ is_connected c ]
