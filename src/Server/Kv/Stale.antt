-- ===== src/Server/Kv/Stale.antt =====
-- `KVGet` after a holder that missed a `KVPut` has come back.
use cs416_tanks.Base.{
  ℕ, ◌≤◌, true, false, ◌≡◌, ◌≢◌, refl, sym, ap, subst, ◌∙◌, List, [], ◌∷◌, ◌++◌, Map, lookup,
  insert, suc, lookup-insert_self, nat_eq, Option, none, some, arith, In, length, if◌then◌else◌,
}
use cs416_tanks.Crdt.{PutArg, GetArg}
use cs416_tanks.Client.Store.{Client, value_at}
use cs416_tanks.Server.State.{
  status_eq, PeerInfo, zero_peer, Connection, Tables, idle, is_connected, is_online,
}
use cs416_tanks.Server.Monad.{Action, Returns, Delivery, delivered, done, ◌>>◌, bind-done}
use cs416_tanks.Server.Registry.{connect, connection_of, put_connection, or_else, find_partner}
use cs416_tanks.Server.Kv.{
  holders, replication_factor, latest_online, value_reply, keep_online, choose_clients, put_each,
  kv_get, kv_put,
}
use cs416_tanks.Server.Kv.Put.{Reaches}
use cs416_tanks.Server.Kv.Holders.{keep_online_total}
use cs416_tanks.Server.Kv.Choice.{IsShuffle}
use cs416_tanks.Server.Kv.PutGet.{HoldersKnown, put_returns}
use cs416_tanks.Server.Kv.Get.{GetAnswer, get_other}
use cs416_tanks.Server.Kv.Held.{locked, put_each-rest}

-- The last holder, if it is online.
latest_online-last :
    (m : Map ℕ Connection) (ids : List ℕ) (id : ℕ) (found : Option ℕ)
    → is_online m id ≡ true
    → latest_online m (ids ++ id ∷ []) found ≡ some id
unfolding latest_online
latest_online-last m [] id found online = rw (online, latest_online) refl
latest_online-last m (i ∷ ids) id found online =
    latest_online-last m ids id (if is_online m i then some i else found) online

enough_kept :
    (shuffle : List ℕ → List ℕ) (m : Map ℕ Connection) (order kept : List ℕ)
    → replication_factor ≤ length kept
    → choose_clients shuffle m order kept ≡ kept
unfolding choose_clients
enough_kept shuffle m order kept enough = ground (arith, enough)

-- A client that comes back.
connect_again :
    (info : PeerInfo) (order : List ℕ) (c : Connection) (t : Tables) (r : Map ℕ Client)
    → lookup info.client_id t.connections ≡ some c
    → is_connected c ≡ false
    → (p : PeerInfo) × (n : ℕ) × (connect info order (idle t r)
        ≡ done
            (2, none)
            (idle
              (record (put_connection info.client_id (connection_of info c p) t) {
                pending_syncs = n;
              })
              r))
unfolding connect lookup insert
connect_again info order c t r listed off = (
  or_else (find_partner info.client_id t.connections order) zero_peer,
  suc t.pending_syncs,
  rw (listed, connect) (rw (off, connect) refl),
)

online-connected :
    (m : Map ℕ Connection) (i : ℕ) (d : Connection)
    → is_online m i ≡ true
    → lookup i m ≡ some d
    → is_connected d ≡ true
unfolding is_online
online-connected m i d on e = ground (arith, on, e)

connected-online :
    (m : Map ℕ Connection) (i : ℕ) (d : Connection)
    → lookup i m ≡ some d
    → is_connected d ≡ true
    → is_online m i ≡ true
unfolding is_online
connected-online m i d e on = ground (arith, on, e)

-- A holder that is the last comes back, and is asked for the value.
back_and_get :
    (get_deliver : ℕ → Delivery) (me h key : ℕ) (info : PeerInfo) (order before : List ℕ)
    (c : Connection) (cl : Client) (t : Tables) (r : Map ℕ Client)
    → holders key t.key_to_clients ≡ before ++ info.client_id ∷ []
    → lookup info.client_id t.connections ≡ some c
    → is_connected c ≡ false
    → c.rpc_client ≡ some h
    → lookup h r ≡ some cl
    → get_deliver h ≡ delivered
    → info.client_id ≢ me
    → Returns {A = GetAnswer}
        (λ a s. a ≡ (value_reply (value_at key cl.kv_map), none))
        ((connect info order >> kv_get get_deliver (record { client_id = me; key = key }))
          (idle t r))
back_and_get get_deliver me h key info order before c cl t r last listed off has at through other =
    let (p, n, back) = connect_again info order c t r listed off in
    let c2 = connection_of info c p in
    let there = lookup-insert_self info.client_id c2 t.connections in
    let t2 : Tables = (record (put_connection info.client_id c2 t) { pending_syncs = n }) in
    let online = connected-online t2.connections info.client_id c2 there refl in
    let latest =
      ap (λ ids. latest_online t2.connections ids none) last
      ∙ latest_online-last t2.connections before info.client_id none online in
    rw (bind-done (connect info order) (λ _. get) (idle t r) (idle t2 r) (2, none) back) (
      rw
        (get_other get_deliver request t2 r info.client_id c2 h cl latest other there has at
          through)
        refl)
  where
    request : GetArg
    request = record { client_id = me; key = key }

    get : Action GetAnswer
    get = kv_get get_deliver request

-- A client that missed a put hides it. `info.client_id` is the last holder of the key; it is
-- registered but not in the game, and over its TCP connection `h`, which no other client uses,
-- stands the client `cl`. `KVPut` finds three online holders `kept`, reaches them, and sends the
-- pair to no one else. Then `info.client_id` comes back by `Connect`, and `KVGet` of another
-- client, whose call comes through, answers what `cl` has under the key, whatever was put. All
-- three handlers end.
pub stale_read :
    (deliver : ℕ → Delivery) (shuffle : List ℕ → List ℕ) (order : List ℕ) (put : PutArg)
    (t : Tables) (r : Map ℕ Client) (get_deliver : ℕ → Delivery) (me h : ℕ) (info : PeerInfo)
    (order' before kept : List ℕ) (c : Connection) (cl : Client)
    → IsShuffle shuffle
    → HoldersKnown t
    → ((id : ℕ) → is_online t.connections id ≡ true → Reaches deliver t.connections r id)
    → holders put.key t.key_to_clients ≡ before ++ info.client_id ∷ []
    → keep_online t.connections (holders put.key t.key_to_clients) ≡ some kept
    → replication_factor ≤ length kept
    → lookup info.client_id t.connections ≡ some c
    → is_connected c ≡ false
    → c.rpc_client ≡ some h
    → lookup h r ≡ some cl
    → ((i : ℕ) (d : Connection)
        → lookup i t.connections ≡ some d
        → is_connected d ≡ true
        → d.rpc_client ≢ some h)
    → get_deliver h ≡ delivered
    → info.client_id ≢ me
    → Returns
        (λ a s. a ≡ (value_reply (value_at put.key cl.kv_map), none))
        ((kv_put deliver shuffle order put
            >> (connect info order'
                >> kv_get get_deliver (record { client_id = me; key = put.key })))
          (idle t r))
stale_read deliver shuffle order put t r get_deliver me h info order' before kept c cl ok known
      reach last keeps enough listed off has at apart through other =
    let (r', sent, rest) =
      put_each-rest deliver put h kept t r (λ i v. reach i (online i v)) (λ i v. (kept-In i v).0)
        (λ i d v e. apart i d e (online-connected t.connections i d (online i v) e)) in
    let put_done =
      put_returns deliver shuffle order put t r ok known reach kept (locked t r') keeps
        (subst (λ ids. put_each deliver put ids (locked t r) ≡ done tt (locked t r'))
          (sym (enough_kept shuffle t.connections order kept enough)) sent)
        refl in
    rw
      (bind-done (kv_put deliver shuffle order put) (λ _. again) (idle t r) (idle t r')
        (record { ok = true }, none) put_done)
      (back_and_get get_deliver me h put.key info order' before c cl t r' last listed off has
        (rest ∙ at) through other)
  where
    again : Action GetAnswer
    again = connect info order' >> kv_get get_deliver (record { client_id = me; key = put.key })

    kept-In :
        (i : ℕ)
        → In i kept
        → In i (holders put.key t.key_to_clients) × (is_online t.connections i ≡ true)
    kept-In i v =
        let (kept', e, k) =
          keep_online_total t.connections (holders put.key t.key_to_clients) (known put.key) in
        let same : kept ≡ kept' = (cc (keeps, e)) in (k i).0 (subst (In i) same v)

    online : (i : ℕ) → In i kept → is_online t.connections i ≡ true
    online i v = (kept-In i v).1
