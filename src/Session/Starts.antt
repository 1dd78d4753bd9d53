-- ===== src/Session/Starts.antt =====
-- A client that starts: `await_client` and `Connect` in either order, with and without a file.
use cs416_tanks.Base.{
  ℕ, Bool, true, false, ◌≡◌, ◌≢◌, ◌<◌, ◌^◌, refl, sym, subst, ap, ◌∙◌, Map, lookup, insert,
  contains, lookup-insert_self, Option, none, some, nat_eq, string_eq, arith,
}
use cs416_tanks.Base.Bytes.{Bytes}
use cs416_tanks.Client.Store.{Client}
use cs416_tanks.Server.State.{Status, Connection, Tables, Server, idle, unlocked}
use cs416_tanks.Server.Monad.{Returns, Returns-bind, bind-done, done, delivered, pure, ◌>>◌}
use cs416_tanks.Server.Registry.{new_connection, put_connection, connection_of, register}
use cs416_tanks.Server.Registry.Workers.{await_client, big_endian}
use cs416_tanks.Server.Registry.Connects.{new_partner, after_connect, connect_lem}
use cs416_tanks.Server.Stubs.{ask, do_api_call, stub_register, stub_connect}
use cs416_tanks.Session.{
  id_text, put_uint64, Launch, Session, get_id, info_of, enter, enter_both, session_of, enter_as,
  start_session,
}
use cs416_tanks.Session.Ids.{scan_uint64-id_text, big_endian-put_uint64}

-- The worker's message, once the client is known.
await_client_lem :
    (h id : ℕ) (t : Tables) (r : Map ℕ Client) (c : Connection)
    → id < 2 ^ 64
    → lookup id t.connections ≡ some c
    → await_client h (put_uint64 id) (idle t r)
      ≡ done tt (idle (put_connection id (record c { rpc_client = some h }) t) r)
unfolding await_client put_uint64
await_client_lem h id t r c small e =
    let same : big_endian (put_uint64 id) 0 ≡ id = (big_endian-put_uint64 id small) in
    ground (arith, same, e)

enter_lem :
    (l : Launch) (id : ℕ) (t : Tables) (r : Map ℕ Client) (c : Connection)
    → l.connecting ≡ delivered
    → lookup id t.connections ≡ some c
    → c.status ≢ Status.connected
    → enter l id (idle t r) ≡ done (some 2) (idle (after_connect (info_of l id) l.order t c) r)
unfolding enter ask stub_connect do_api_call
enter_lem l id t r c d e off =
    let answer = connect_lem (info_of l id) l.order t c r e off in ground (arith, d, answer)

-- A client in the game.
pub record Joined (l : Launch) (id : ℕ) (s : Server) : Type 0 where
  pub released : s.locks ≡ unlocked
  pub conn : Connection
  pub listed : lookup id s.tables.connections ≡ some conn
  pub online : conn.status ≡ Status.connected
  pub callable : conn.rpc_client ≡ some l.handle
  pub same_address : conn.address ≡ l.address
  pub same_rpc_address : conn.rpc_address ≡ l.rpc_address

enter_both-Joined :
    (early : Bool) (l : Launch) (id : ℕ) (t : Tables) (r : Map ℕ Client) (c : Connection)
    → l.connecting ≡ delivered
    → id < 2 ^ 64
    → lookup id t.connections ≡ some c
    → c.status ≢ Status.connected
    → Returns (λ a s. (a ≡ some 2) × Joined l id s) (enter_both early l id (idle t r))
unfolding enter_both
enter_both-Joined true l id t r c d small e off =
    let c' : Connection = (record c { rpc_client = some l.handle }) in
    let t' : Tables = (put_connection id c' t) in
    let greeted = await_client_lem l.handle id t r c small e in
    let entered = enter_lem l id t' r c' d (lookup-insert_self id c' t.connections) off in
    subst (Returns _)
      (sym (
        bind-done (await_client l.handle (put_uint64 id)) (λ _. enter l id) (idle t r) (idle t' r)
          tt greeted
        ∙ entered))
      (
        refl,
        record {
          released = refl;
          conn = connection_of (info_of l id) c' (new_partner (info_of l id) l.order t' c');
          listed = lookup-insert_self id _ t'.connections;
          online = refl;
          callable = refl;
          same_address = refl;
          same_rpc_address = refl;
        },
      )
enter_both-Joined false l id t r c d small e off =
    let t' : Tables = (after_connect (info_of l id) l.order t c) in
    let c' : Connection =
      (connection_of (info_of l id) c (new_partner (info_of l id) l.order t c)) in
    let entered = enter_lem l id t r c d e off in
    let greeted =
      await_client_lem l.handle id t' r c' small (lookup-insert_self id c' t.connections) in
    let last =
      bind-done (await_client l.handle (put_uint64 id)) (λ _. pure (some 2)) (idle t' r) _ tt
        greeted in
    subst (Returns _)
      (sym (
        bind-done (enter l id) (λ minimum. await_client l.handle (put_uint64 id) >> pure minimum)
          (idle t r) (idle t' r) (some 2) entered
        ∙ last))
      (
        refl,
        record {
          released = refl;
          conn = record c' { rpc_client = some l.handle };
          listed = lookup-insert_self id _ t'.connections;
          online = refl;
          callable = refl;
          same_address = refl;
          same_rpc_address = refl;
        },
      )

-- The client has the given id and file, the server's minimum of peers, and is in the game.
abbrev pub Starts : Launch → ℕ → Bytes → Option Session → Server → Type 0
Starts l id file a s =
    (a ≡ some (record { id = id; minimum_peer_connections = 2; id_file = file })) × Joined l id s

enter_as-Starts :
    (l : Launch) (id : ℕ) (file : Bytes) (t : Tables) (r : Map ℕ Client) (c : Connection)
    → l.connecting ≡ delivered
    → id < 2 ^ 64
    → lookup id t.connections ≡ some c
    → c.status ≢ Status.connected
    → Returns (Starts l id file) (enter_as l (some (id, file)) (idle t r))
enter_as-Starts l id file t r c d small e off =
    Returns-bind (λ a s. (a ≡ some 2) × Joined l id s) (Starts l id file) (enter_both l.early l id)
      (λ minimum. pure (session_of (id, file) minimum)) (idle t r)
      (enter_both-Joined l.early l id t r c d small e off)
      (λ a s h. (ap (session_of (id, file)) h.0, h.1))

-- What `Register` writes for a new name.
abbrev pub after_register : Launch → Tables → Tables
after_register l t =
    put_connection l.random
      (new_connection (record { display_name = l.display_name; client_id = l.random }))
      (record t { display_names = insert l.display_name true t.display_names })

get_id_new :
    (l : Launch) (t : Tables) (r : Map ℕ Client)
    → l.registering ≡ delivered
    → l.writable ≡ true
    → contains l.display_name t.display_names ≡ false
    → get_id l none (idle t r)
      ≡ done (some (l.random, id_text l.random)) (idle (after_register l t) r)
unfolding get_id ask stub_register do_api_call register
get_id_new l t r d w new = ground (arith, d, w, new)

-- A client with a file of its id, which is registered and is not CONNECTED, comes back under that id.
pub resume :
    (l : Launch) (id : ℕ) (t : Tables) (r : Map ℕ Client) (c : Connection)
    → l.connecting ≡ delivered
    → id < 2 ^ 64
    → lookup id t.connections ≡ some c
    → c.status ≢ Status.connected
    → Returns (Starts l id (id_text id)) (start_session l (some (id_text id)) (idle t r))
unfolding start_session get_id
resume l id t r c d small e off =
    rw (scan_uint64-id_text id small) (enter_as-Starts l id (id_text id) t r c d small e off)

-- A client without a file and with a name that the server does not know, if its calls are answered
-- and its file can be written.
pub first_start :
    (l : Launch) (t : Tables) (r : Map ℕ Client)
    → l.registering ≡ delivered
    → l.connecting ≡ delivered
    → l.writable ≡ true
    → l.random < 2 ^ 64
    → contains l.display_name t.display_names ≡ false
    → Returns (Starts l l.random (id_text l.random)) (start_session l none (idle t r))
unfolding start_session
first_start l t r reg conn w small new =
    let t' : Tables = (after_register l t) in
    subst (Returns (Starts l l.random (id_text l.random)))
      (sym (
        bind-done (get_id l none) (enter_as l) (idle t r) (idle t' r)
          (some (l.random, id_text l.random)) (get_id_new l t r reg w new)))
      (enter_as-Starts l l.random (id_text l.random) t' r _ conn small
        (lookup-insert_self l.random _ t.connections) (λ e. cc e))
