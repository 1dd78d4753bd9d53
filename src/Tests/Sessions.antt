-- ===== src/Tests/Sessions.antt =====
-- A client that starts at a server with one other client.
use cs416_tanks.Base.{
  ◌≡◌, refl, true, false, [], ◌∷◌, contains, insert, lookup, none, some, nat_eq, string_eq, arith,
}
use cs416_tanks.Base.Int.{pos}
use cs416_tanks.Server.State.{Status, Connection, Tables, idle, initial, zero_peer}
use cs416_tanks.Server.Monad.{Delivery, delivered, reply_lost, Returns, done}
use cs416_tanks.Server.Registry.{put_connection, disconnect}
use cs416_tanks.Server.Registry.History.{disconnecting, serve}
use cs416_tanks.Server.Registry.Runs.{Run, at_first, after_one}
use cs416_tanks.Session.{Launch, id_text, start_session}
use cs416_tanks.Session.Starts.{Starts, after_register}
use cs416_tanks.Session.Join.{Continues, play_twice, play_twice_lem}
use cs416_tanks.Session.Names.{name_lost}

abbrev other : Connection
other = record {
  status = Status.connected;
  display_name = "ann";
  address = "10.0.0.1:6666";
  rpc_client = some 4;
  rpc_address = "10.0.0.1:6671";
  client = none;
  offset = pos 0;
  partner = zero_peer;
}

abbrev one_client : Tables
one_client = record initial { connections = (11, other) ∷ []; display_names = ("ann", true) ∷ [] }

abbrev launch : Delivery → Launch
launch d = record {
  display_name = "bo";
  address = "10.0.0.2:6666";
  rpc_address = "10.0.0.2:6671";
  random = 1234567;
  writable = true;
  handle = 5;
  order = 11 ∷ [];
  early = false;
  registering = d;
  connecting = delivered;
}

play_twice_lem_example :
    Returns
      (Starts (launch delivered) 1234567 (id_text 1234567))
      (start_session (launch delivered) none (idle one_client []))
    × Returns
        (Continues (launch reply_lost) 1234567)
        (play_twice (launch delivered) (launch reply_lost) (idle one_client []))
unfolding contains lookup
play_twice_lem_example =
    play_twice_lem (launch delivered) (launch reply_lost) one_client [] refl refl refl (omega arith)
      refl refl

-- Since then 11 has left.
abbrev after_leaving : Tables
after_leaving =
    put_connection 11 (record other { status = Status.not_in_game })
      (after_register (launch reply_lost) one_client)

eleven_leaves : Run (after_register (launch reply_lost) one_client) [] (idle after_leaving [])
unfolding serve disconnect lookup insert
eleven_leaves =
    after_one (disconnecting 11) (idle (after_register (launch reply_lost) one_client) [])
      (idle after_leaving []) at_first refl

name_lost_example :
    (start_session (launch reply_lost) none (idle one_client [])
      ≡ done none (idle (after_register (launch reply_lost) one_client) []))
    × (start_session (launch delivered) none (idle after_leaving [])
        ≡ done none (idle after_leaving []))
unfolding contains lookup
name_lost_example =
    name_lost (launch reply_lost) (launch delivered) one_client [] (idle after_leaving []) refl refl
      refl eleven_leaves
