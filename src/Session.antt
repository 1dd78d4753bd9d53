-- ===== src/Session.antt =====
-- How client/client.go enters and leaves the game: `main` from the search for the file with its id
-- to `Connect`, `findIDFile`, the first bytes of `ClockWorker` in client/clocks.go, and
-- `Disconnect` at the end, over the server's handlers.
pub mod Ids
pub mod Starts
pub mod Join
pub mod Names
use cs416_tanks.Base.{
  ℕ, Bool, true, false, not, ◌&&◌, ◌||◌, ◌+◌, ◌/◌, ◌%◌, ◌^◌, List, [], ◌∷◌, ◌++◌, Option, none,
  some, ◌==◌, nat_eq, ltb, String, if◌then◌else◌,
}
use cs416_tanks.Base.Bytes.{Bytes, format_uint, is_digit, is_number, value}
use cs416_tanks.Server.State.{PeerInfo, PeerNetSettings}
use cs416_tanks.Server.Monad.{Action, Delivery, pure, ◌>>=◌, ◌>>◌}
use cs416_tanks.Server.Registry.{register, connect, disconnect}
use cs416_tanks.Server.Registry.Workers.{await_client}
use cs416_tanks.Server.Stubs.{ask, stub_register, stub_connect, stub_disconnect}

-- Blanks and tabs.
abbrev pub skip_blanks : Bytes → Bytes
skip_blanks [] = []
skip_blanks (c ∷ s) = if c == b' ' || c == 9 then skip_blanks s else c ∷ s

abbrev pub leading_digits : Bytes → Bytes
leading_digits [] = []
leading_digits (c ∷ s) = if is_digit c then c ∷ leading_digits s else []

-- The number of digits, or 0 where there is none or it does not fit.
abbrev pub uint64_of : Bytes → ℕ
uint64_of s = if is_number s && ltb (value 0 s) (2 ^ 64) then value 0 s else 0

-- `findIDFile`, given the text of a file that is there: `fmt.Fscanf(f, "%d\n", &id)` on a variable
-- that is 0, whose error is not looked at.
unfoldable pub scan_uint64 : Bytes → ℕ
scan_uint64 text = uint64_of (leading_digits (skip_blanks text))

-- `fmt.Sprintf("%d\n", ID)`
unfoldable pub id_text : ℕ → Bytes
id_text id = format_uint id ++ 10 ∷ []

-- `binary.BigEndian.PutUint64`
unfoldable pub put_uint64 : ℕ → List ℕ
put_uint64 n =
    (n / 2 ^ 56) % 256
    ∷ (n / 2 ^ 48) % 256
    ∷ (n / 2 ^ 40) % 256
    ∷ (n / 2 ^ 32) % 256
    ∷ (n / 2 ^ 24) % 256
    ∷ (n / 2 ^ 16) % 256
    ∷ (n / 2 ^ 8) % 256
    ∷ n % 256
    ∷ []

-- What one start of the client is given: its command line, the random number for a new id, whether
-- its id can be written to a file, the number of its TCP connection at the server, the order in
-- which `Connect` visits the clients, whether the server has read the id before `Connect`, and what
-- becomes of the two calls.
pub record Launch : Type 0 where
  pub display_name : String
  pub address : String
  pub rpc_address : String
  pub random : ℕ
  pub writable : Bool
  pub handle : ℕ
  pub order : List ℕ
  pub early : Bool
  pub registering : Delivery
  pub connecting : Delivery

pub record Session : Type 0 where
  pub id : ℕ
  pub minimum_peer_connections : ℕ
  pub id_file : Bytes

-- The client's id and the text of the file that holds it, given that text if there is a file;
-- `none` where `log.Fatal` ends the client.
unfoldable pub get_id : Launch → Option Bytes → Action (Option (ℕ × Bytes))
get_id l (some text) = pure (some (scan_uint64 text, text))
get_id l none = do
  answer ←
      ask l.registering (register (record { display_name = l.display_name; client_id = l.random }))
  let (settings, is_nil) = stub_register answer
  pure (
      if is_nil && l.writable
      then some (settings.unique_user_id, id_text settings.unique_user_id)
      else none)

abbrev pub info_of : Launch → ℕ → PeerInfo
info_of l id = record {
  address = l.address;
  rpc_address = l.rpc_address;
  client_id = id;
  display_name = l.display_name;
}

-- `Connect` and what `main` makes of its answer.
unfoldable pub enter : Launch → ℕ → Action (Option ℕ)
enter l id = do
  answer ← ask l.connecting (connect (info_of l id) l.order)
  let (minimum, is_nil) = stub_connect answer
  pure (if is_nil && not (minimum == 0) then some minimum else none)

-- The worker's message and `Connect`, in either order at the server.
unfoldable pub enter_both : Bool → Launch → ℕ → Action (Option ℕ)
enter_both true l id = do await_client l.handle (put_uint64 id); enter l id
enter_both false l id = do minimum ← enter l id; await_client l.handle (put_uint64 id); pure minimum

abbrev pub session_of : ℕ × Bytes → Option ℕ → Option Session
session_of mine none = none
session_of mine (some minimum) =
    some (record { id = mine.0; minimum_peer_connections = minimum; id_file = mine.1 })

abbrev pub enter_as : Launch → Option (ℕ × Bytes) → Action (Option Session)
enter_as l none = pure none
enter_as l (some mine) = do minimum ← enter_both l.early l mine.0; pure (session_of mine minimum)

-- `main` up to its workers, given the text of the id file if there is one.
unfoldable pub start_session : Launch → Option Bytes → Action (Option Session)
start_session l file = do mine ← get_id l file; enter_as l mine

-- `Disconnect` at the end of `main`, and whether it is acknowledged.
unfoldable pub stop_session : Delivery → ℕ → Action Bool
stop_session d id = do answer ← ask d (disconnect id); pure (stub_disconnect answer).0
