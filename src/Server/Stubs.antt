-- ===== src/Server/Stubs.antt =====
-- The stubs of serverlib/serverlib.go, by which a client calls the server. A stub is given what comes
-- of its call and answers a value and whether the error is nil. The parts of GoVector and Dinv in a
-- message are left out.
use cs416_tanks.Base.{ℕ, Bool, true, false, List, [], Option, none, some}
use cs416_tanks.Server.State.{PeerInfo, PeerNetSettings, zero_settings, ServerError}
use cs416_tanks.Server.Monad.{
  Action, Delivery, delivered, request_lost, reply_lost, pure, ◌>>=◌, ◌>>◌,
}

-- A call that may be lost on its way, or whose reply may be lost or late.
unfoldable pub ask : {A : Type 0} → Delivery → Action A → Action (Option A)
ask delivered m = m >>= λ a. pure (some a)
ask request_lost m = pure none
ask reply_lost m = m >> pure none

-- `doApiCall`: `none` for a timeout or an error, of the connection or of the server's handler.
unfoldable pub do_api_call : {A : Type 0} → Option (A × Option ServerError) → Option A
do_api_call none = none
do_api_call (some (a, some e)) = none
do_api_call (some (a, none)) = some a

-- The value of a call that came through, or a given one.
abbrev value_or : {A : Type 0} → A → Option A → A × Bool
value_or a none = (a, false)
value_or a (some b) = (b, true)

unfoldable pub stub_register :
    Option (PeerNetSettings × Option ServerError) → PeerNetSettings × Bool
unfolding do_api_call
stub_register o = value_or zero_settings (do_api_call o)

unfoldable pub stub_connect : Option (ℕ × Option ServerError) → ℕ × Bool
unfolding do_api_call
stub_connect o = value_or 0 (do_api_call o)

unfoldable pub stub_disconnect : Option (Bool × Option ServerError) → Bool × Bool
unfolding do_api_call
stub_disconnect o = value_or false (do_api_call o)

unfoldable pub stub_get_nodes : Option (List PeerInfo × Option ServerError) → List PeerInfo × Bool
unfolding do_api_call
stub_get_nodes o = value_or [] (do_api_call o)

-- `KVPut` and `NotifyFailure` answer an error only.
unfoldable pub stub_kv_put : {A : Type 0} → Option (A × Option ServerError) → Bool
stub_kv_put o = elim (do_api_call o) [ none ↦ false | some a ↦ true ]

unfoldable pub stub_notify_failure : {A : Type 0} → Option A → Bool
stub_notify_failure none = false
stub_notify_failure (some ack) = true

-- `KVPut` of client/crdt.go, which passes the error on.
unfoldable pub client_kv_put : {A : Type 0} → Option (A × Option ServerError) → Bool
client_kv_put o = stub_kv_put o
