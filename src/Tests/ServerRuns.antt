-- ===== src/Tests/ServerRuns.antt =====
-- A client that registers and disconnects.
use cs416_tanks.Base.{
  ◌≡◌, ◌≢◌, refl, true, [], ◌∷◌, insert, lookup, contains, some, nat_eq, string_eq,
}
use cs416_tanks.Server.State.{
  Status, RegisterRequest, PeerInfo, zero_peer, Server, Tables, idle, initial,
}
use cs416_tanks.Server.Monad.{done, blocked}
use cs416_tanks.Server.Registry.{
  new_connection, connection_of, find_partner, register, connect, disconnect,
}
use cs416_tanks.Server.Registry.History.{Request, registering, disconnecting, connecting, serve}
use cs416_tanks.Server.Registry.Diagram.{Move}
use cs416_tanks.Server.Registry.Runs.{Run, at_first, after_one, Grows, run_lem, serve-Move}

abbrev newcomer : RegisterRequest
newcomer = record { display_name = "ann"; client_id = 7 }

abbrev registered : Tables
registered = record initial {
  connections = (7, new_connection newcomer) ∷ [];
  display_names = ("ann", true) ∷ [];
}

two_requests : Run initial [] (idle registered [])
unfolding serve register disconnect lookup contains insert
two_requests =
    after_one (disconnecting 7) (idle registered []) (idle registered [])
      (after_one (registering newcomer) (idle initial []) (idle registered []) at_first refl) refl

run_lem_example :
    Grows initial (idle registered []) × ((q : Request) → serve q (idle registered []) ≢ blocked)
run_lem_example = run_lem initial [] (idle registered []) two_requests

abbrev entering_info : PeerInfo
entering_info = record { address = "a"; rpc_address = "b"; client_id = 7; display_name = "ann" }

abbrev entered : Server
entered =
    idle
      (record registered {
        connections = (7, connection_of entering_info (new_connection newcomer) zero_peer) ∷ [];
        pending_syncs = 1;
      })
      []

enters_game : serve (connecting entering_info (7 ∷ [])) (idle registered []) ≡ done tt entered
unfolding serve connect find_partner lookup insert
enters_game = refl

serve-Move_example : Move (some Status.not_in_game) (some Status.connected)
unfolding lookup
serve-Move_example =
    serve-Move initial [] (connecting entering_info (7 ∷ [])) (idle registered []) entered
      two_requests enters_game 7
