-- ===== src/Session/Join.antt =====
-- A client that starts, stops and starts again.
use cs416_tanks.Base.{
  ℕ, Bool, true, false, ◌≡◌, ◌<◌, ◌^◌, refl, sym, subst, Map, lookup, contains, lookup-insert_self,
  Option, none, some, nat_eq, string_eq, arith,
}
use cs416_tanks.Client.Store.{Client}
use cs416_tanks.Server.State.{Status, Connection, Tables, Server, idle, unlocked}
use cs416_tanks.Server.Monad.{
  Action, Returns, Returns-bind, bind-done, done, delivered, pure, ◌>>=◌,
}
use cs416_tanks.Server.Registry.{put_connection, disconnect}
use cs416_tanks.Server.Stubs.{ask, do_api_call, stub_disconnect}
use cs416_tanks.Session.{id_text, Launch, Session, start_session, stop_session}
use cs416_tanks.Session.Starts.{Starts, resume, first_start}

abbrev pub new_session : ℕ → Session
new_session id = record { id = id; minimum_peer_connections = 2; id_file = id_text id }

-- A client plays, leaves, and plays again with the file that it has written.
abbrev pub play_on : Launch → Session → Action (Bool × Option Session)
play_on l mine = do
  ack ← stop_session delivered mine.id
  again ← start_session l (some mine.id_file)
  pure (ack, again)

abbrev play_after : Launch → Option Session → Action (Option Session × Bool × Option Session)
play_after l none = pure (none, false, none)
play_after l (some mine) = do later ← play_on l mine; pure (some mine, later.0, later.1)

abbrev pub play_twice : Launch → Launch → Action (Option Session × Bool × Option Session)
play_twice l l' = do mine ← start_session l none; play_after l' mine

released-idle : (s : Server) → s.locks ≡ unlocked → idle s.tables s.remotes ≡ s
released-idle s e = λ i. record { tables = s.tables; locks = sym e i; remotes = s.remotes }

stop_session_lem :
    (id : ℕ) (t : Tables) (r : Map ℕ Client) (c : Connection)
    → lookup id t.connections ≡ some c
    → stop_session delivered id (idle t r)
      ≡ done true (idle (put_connection id (record c { status = Status.not_in_game }) t) r)
unfolding stop_session ask stub_disconnect do_api_call disconnect
stop_session_lem id t r c e = ground (arith, e)

play_on-Starts :
    (l : Launch) (id : ℕ) (t : Tables) (r : Map ℕ Client) (c : Connection)
    → l.connecting ≡ delivered
    → id < 2 ^ 64
    → lookup id t.connections ≡ some c
    → Returns
        (λ a s. (a.0 ≡ true) × Starts l id (id_text id) a.1 s)
        (play_on l (new_session id) (idle t r))
play_on-Starts l id t r c conn small e =
    let c' : Connection = (record c { status = Status.not_in_game }) in
    let t' : Tables = (put_connection id c' t) in
    subst (Returns _)
      (sym (
        bind-done (stop_session delivered id)
          (λ ack. start_session l (some (id_text id)) >>= λ again. pure (ack, again)) (idle t r)
          (idle t' r) true (stop_session_lem id t r c e)))
      (Returns-bind (Starts l id (id_text id)) _ (start_session l (some (id_text id)))
        (λ again. pure (true, again)) (idle t' r)
        (resume l id t' r c' conn small (lookup-insert_self id c' t.connections) (λ o. cc o))
        (λ a s h. (refl, h)))

-- What the second start leaves.
abbrev pub Continues : Launch → ℕ → Option Session × Bool × Option Session → Server → Type 0
Continues l id a s = (a.0 ≡ some (new_session id)) × (a.1 ≡ true) × Starts l id (id_text id) a.2 s

play_after-Continues :
    (l : Launch) (id : ℕ) (t : Tables) (r : Map ℕ Client) (c : Connection)
    → l.connecting ≡ delivered
    → id < 2 ^ 64
    → lookup id t.connections ≡ some c
    → Returns (Continues l id) (play_after l (some (new_session id)) (idle t r))
play_after-Continues l id t r c conn small e =
    Returns-bind (λ b s. (b.0 ≡ true) × Starts l id (id_text id) b.1 s) (Continues l id)
      (play_on l (new_session id)) (λ later. pure (some (new_session id), later.0, later.1))
      (idle t r) (play_on-Starts l id t r c conn small e) (λ b s k. (refl, k.0, k.1))

-- A client without a file, whose name the server does not know, whose file can be written and whose
-- calls are answered, starts under its random number as id with two peers as its minimum. When it
-- leaves, that is acknowledged, and when it starts again with that file it has the same id. Each
-- time it is then CONNECTED at its addresses, and the server can call it, whether its id was read
-- before or after `Connect`.
pub play_twice_lem :
    (l l' : Launch) (t : Tables) (r : Map ℕ Client)
    → l.registering ≡ delivered
    → l.connecting ≡ delivered
    → l.writable ≡ true
    → l.random < 2 ^ 64
    → contains l.display_name t.display_names ≡ false
    → l'.connecting ≡ delivered
    → Returns (Starts l l.random (id_text l.random)) (start_session l none (idle t r))
      × Returns (Continues l' l.random) (play_twice l l' (idle t r))
play_twice_lem l l' t r reg conn w small new conn' =
    let first = first_start l t r reg conn w small new in
    (
      first,
      Returns-bind (Starts l l.random (id_text l.random)) (Continues l' l.random)
          (start_session l none) (play_after l') (idle t r) first
          (λ a s h.
            subst (λ o. Returns (Continues l' l.random) (play_after l' o s)) (sym h.0)
              (subst
                (λ s'.
                  Returns (Continues l' l.random) (play_after l' (some (new_session l.random)) s'))
                (released-idle s h.1.released)
                (play_after-Continues l' l.random s.tables s.remotes h.1.conn conn' small
                  h.1.listed))),
    )
