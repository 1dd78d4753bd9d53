-- ===== src/Server/Registry/Runs.antt =====
-- The server in a run of its requests, and what every run keeps.
use cs416_tanks.Base.{ℕ, true, ◌≡◌, ◌≢◌, refl, sym, subst, Map, contains, string_eq, nat_eq, String}
use cs416_tanks.Client.Store.{Client}
use cs416_tanks.Server.State.{Tables, Server, idle, unlocked}
use cs416_tanks.Server.Monad.{
  Action, Outcome, IfReturns, IfReturns-bind, done, crash, blocked, pure, ◌>>◌,
}
use cs416_tanks.Server.Registry.{register, connect, disconnect, get_nodes, notify_failure}
use cs416_tanks.Server.Kv.{kv_get, kv_put}
use cs416_tanks.Server.Registry.History.{
  Request, registering, connecting, disconnecting, asking_nodes, reporting, monitoring, greeting,
  getting, putting, synchronising, serve,
}
use cs416_tanks.Server.Registry.Diagram.{Move, Move-contains, Kept, status_at}
use cs416_tanks.Server.Registry.Handlers.{
  register-Kept, connect-Kept, disconnect-Kept, get_nodes-Kept, notify_failure-Kept,
  await_client-Kept,
}
use cs416_tanks.Server.Registry.Monitoring.{monitor_connections-Kept}
use cs416_tanks.Server.Registry.Store.{kv_get-Kept, kv_put-Kept}
use cs416_tanks.Server.Registry.Clocks.{sync_clocks-Kept}

answered :
    {A : Type 0} (t : Tables) (m : Action A) (s : Server)
    → IfReturns (λ _ s'. Kept Move unlocked t s') (m s)
    → IfReturns (λ _ s'. Kept Move unlocked t s') ((m >> pure tt) s)
answered t m s h =
    IfReturns-bind (λ _ s'. Kept Move unlocked t s') (λ _ s'. Kept Move unlocked t s') m
      (λ _. pure tt) s h (λ _ s' g. g)

serve-Kept :
    (q : Request) (t : Tables) (r : Map ℕ Client)
    → IfReturns (λ _ s. Kept Move unlocked t s) (serve q (idle t r))
unfolding serve
serve-Kept (registering q) t r = answered t (register q) (idle t r) (register-Kept t r q)
serve-Kept (connecting info order) t r =
    answered t (connect info order) (idle t r) (connect-Kept t r info order)
serve-Kept (disconnecting id) t r = answered t (disconnect id) (idle t r) (disconnect-Kept t r id)
serve-Kept (asking_nodes id order) t r =
    answered t (get_nodes id order) (idle t r) (get_nodes-Kept t r id order)
serve-Kept (reporting id) t r =
    answered t (notify_failure id) (idle t r) (notify_failure-Kept t r id)
serve-Kept (monitoring recovers order) t r = monitor_connections-Kept t r recovers order
serve-Kept (greeting h bytes) t r = await_client-Kept t r h bytes
serve-Kept (getting deliver arg) t r =
    answered t (kv_get deliver arg) (idle t r) (kv_get-Kept t r deliver arg)
serve-Kept (putting deliver shuffle order arg) t r =
    answered t (kv_put deliver shuffle order arg) (idle t r)
      (kv_put-Kept t r deliver shuffle order arg)
serve-Kept (synchronising readings order order') t r = sync_clocks-Kept t r readings order order'

-- The server after some requests, each of which has ended.
pub data Run (t : Tables) (r : Map ℕ Client) : Server → Type 0 where
  at_first : Run t r (idle t r)
  after_one : (q : Request) (s s' : Server) → Run t r s → serve q s ≡ done tt s' → Run t r s'

-- The locks are free, and no client and no name is forgotten.
pub record Grows (t : Tables) (s : Server) : Type 0 where
  pub released : s.locks ≡ unlocked
  pub ids : (id : ℕ) → contains id t.connections ≡ true → contains id s.tables.connections ≡ true
  pub names :
      (n : String) → contains n t.display_names ≡ true → contains n s.tables.display_names ≡ true

served-Kept :
    (q : Request) (s : Server)
    → s.locks ≡ unlocked
    → IfReturns (λ _ s'. Kept Move unlocked s.tables s') (serve q s)
served-Kept q s free =
    subst
      (λ l. IfReturns (λ _ s'. Kept Move unlocked s.tables s') (serve q (record s { locks = l })))
      (sym free) (serve-Kept q s.tables s.remotes)

not_blocked :
    (t : Tables) (o : Outcome (Unit {0}))
    → IfReturns (λ _ s. Kept Move unlocked t s) o
    → o ≢ blocked
not_blocked t (done a s) h e = cc e
not_blocked t (crash c) h e = cc e
not_blocked t blocked h e = h

ended-Kept :
    (q : Request) (s s' : Server)
    → s.locks ≡ unlocked
    → serve q s ≡ done tt s'
    → Kept Move unlocked s.tables s'
ended-Kept q s s' free e =
    subst (IfReturns (λ _ s''. Kept Move unlocked s.tables s'')) e (served-Kept q s free)

Run-Grows : (t : Tables) (r : Map ℕ Client) (s : Server) → Run t r s → Grows t s
Run-Grows t r _ at_first = record { released = refl; ids = λ id h. h; names = λ n h. h }
Run-Grows t r _ (after_one q s s' before e) =
    let g = Run-Grows t r s before in
    let k = ended-Kept q s s' g.released e in
    record {
      released = k.held;
      ids = λ id v.
          Move-contains id s.tables.connections s'.tables.connections (k.moves id) (g.ids id v);
      names = λ n v. k.names n (g.names n v);
    }

-- However many requests have been served in whatever order, none of which took the server down: the
-- locks are free, no client and no name is forgotten, and a further request does not wait for a lock.
pub run_lem :
    (t : Tables) (r : Map ℕ Client) (s : Server)
    → Run t r s
    → Grows t s × ((q : Request) → serve q s ≢ blocked)
run_lem t r s run =
    let g = Run-Grows t r s run in
    (g, λ q. not_blocked s.tables (serve q s) (served-Kept q s g.released))

-- Whatever requests have been served, a further one that ends moves the status of each client at
-- most once, and along the diagram: it leaves the game (a client that registers does so too), it
-- enters the game from any other status, it fails where it was CONNECTED, or it recovers where it
-- was DISCONNECTED.
pub serve-Move :
    (t : Tables) (r : Map ℕ Client) (q : Request) (s s' : Server)
    → Run t r s
    → serve q s ≡ done tt s'
    → (id : ℕ) → Move (status_at id s.tables.connections) (status_at id s'.tables.connections)
serve-Move t r q s s' run e = (ended-Kept q s s' (Run-Grows t r s run).released e).moves
