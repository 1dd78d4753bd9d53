-- ===== src/Server/Kv/Get.antt =====
-- `KVGet` on each of its branches, and after a `KVPut` of the same key.
use cs416_tanks.Base.{
  ℕ, true, ◌≡◌, ◌≢◌, refl, sym, ap, subst, ◌∙◌, ◌≤◌, ◌⊎◌, inl, inr, List, [], ◌∷◌, Map, lookup,
  insert, nat_eq, ◌==◌, Option, none, some, arith, In, length, Option-cases, Bool-cases,
}
use cs416_tanks.Crdt.{PutArg, GetArg, GetReply, PutReply}
use cs416_tanks.Client.Store.{Client, value_at, kv_client_get}
use cs416_tanks.Server.State.{
  Connection, ServerError, Tables, Server, idle, unlocked, is_online, key_unavailable,
}
use cs416_tanks.Server.Monad.{Returns, Returns-bind, Delivery, delivered, done, ◌>>◌}
use cs416_tanks.Server.Kv.{
  holders, latest_online, already_reply, value_reply, unavailable_reply, replication_factor, kv_get,
  kv_put,
}
use cs416_tanks.Server.Kv.Put.{Reaches, Stores}
use cs416_tanks.Server.Kv.Holders.{latest_online-In, latest_online-ne-none}
use cs416_tanks.Server.Kv.Choice.{IsShuffle}
use cs416_tanks.Server.Kv.PutGet.{HoldersKnown, Stored, kv_put_replicates}

abbrev pub GetAnswer : Type 0
GetAnswer = GetReply × Option ServerError

abbrev pub PutAnswer : Type 0
PutAnswer = PutReply × Option ServerError

abbrev pub latest : GetArg → Tables → Option ℕ
latest arg t = latest_online t.connections (holders arg.key t.key_to_clients) none

module _ (deliver : ℕ → Delivery) (arg : GetArg) (t : Tables) (r : Map ℕ Client) where
  get_unavailable :
      latest arg t ≡ none
      → kv_get deliver arg (idle t r)
        ≡ done (unavailable_reply, some (key_unavailable arg.key)) (idle t r)
  unfolding kv_get
  get_unavailable e = ground (arith, e)

  pub get_own :
      latest arg t ≡ some arg.client_id
      → kv_get deliver arg (idle t r) ≡ done (already_reply, none) (idle t r)
  unfolding kv_get
  get_own e = ground (arith, e)

  pub get_other :
      (id : ℕ) (c : Connection) (h : ℕ) (cl : Client)
      → latest arg t ≡ some id
      → id ≢ arg.client_id
      → lookup id t.connections ≡ some c
      → c.rpc_client ≡ some h
      → lookup h r ≡ some cl
      → deliver h ≡ delivered
      → kv_get deliver arg (idle t r)
        ≡ done (value_reply (value_at arg.key cl.kv_map), none) (idle t (insert h cl r))
  unfolding kv_get kv_client_get
  get_other id c h cl e ne listed has at through = ground (arith, e, ne, listed, has, at, through)

-- What `KVGet` may answer to the client `me` once the pair is stored: the value, or that the client
-- has it already, and then it has.
abbrev pub AnswersWith : PutArg → Map ℕ Connection → ℕ → GetAnswer → Server → Type 0
AnswersWith put m me a s =
    (a.1 ≡ none)
    × (s.locks ≡ unlocked)
    × ((a.0 ≡ value_reply put.value) ⊎ ((a.0 ≡ already_reply) × Stores put m s.remotes me))

module _ (put : PutArg) (m : Map ℕ Connection) (t : Tables) (r : Map ℕ Client) (me : ℕ)
    (deliver : ℕ → Delivery) (through : (h : ℕ) → deliver h ≡ delivered)
    (same : (i : ℕ) → is_online t.connections i ≡ true → lookup i t.connections ≡ lookup i m)
    (all_store : (j : ℕ)
      → In j (holders put.key t.key_to_clients)
      → is_online t.connections j ≡ true
      → Stores put m r j) where
  abbrev request : GetArg
  request = record { client_id = me; key = put.key }

  answer_from :
      (id : ℕ)
      → latest request t ≡ some id
      → is_online t.connections id ≡ true
      → Stores put m r id
      → Returns (AnswersWith put m me) (kv_get deliver request (idle t r))
  answer_from id e online v = elim (Bool-cases (id == me)) [
    | inl own ↦
        rw (get_own deliver request t r (ground (arith, e)))
          (refl, refl, inr (refl, subst (Stores put m r) (ground arith) v))
    | inr other ↦
        rw
          (get_other deliver request t r id v.conn v.handle v.client e (ground arith)
            (same id online ∙ v.listed) v.has_handle v.at_handle (through v.handle))
          (refl, refl, inl (ap value_reply v.has_value))
  ]

  latest-Stores :
      (id : ℕ)
      → latest request t ≡ some id
      → (is_online t.connections id ≡ true) × Stores put m r id
  latest-Stores id e =
      elim (latest_online-In t.connections (holders put.key t.key_to_clients) none id e) [
        | inl (v, online) ↦ (online, all_store id v online)
        | inr absent ↦ cc
      ]

  pub get_answers :
      (j : ℕ)
      → In j (holders put.key t.key_to_clients)
      → is_online t.connections j ≡ true
      → Returns (AnswersWith put m me) (kv_get deliver request (idle t r))
  get_answers j v online = elim (Option-cases (latest request t)) [
    | inl e ↦
        absurd
          (latest_online-ne-none t.connections (holders put.key t.key_to_clients) none j v online e)
    | inr (id, e) ↦ let (on, v') = latest-Stores id e in answer_from id e on v'
  ]

pub some_chosen :
    (put : PutArg) (order : List ℕ) (t : Tables) (r : Map ℕ Client) (s : Server) (j : ℕ)
    → Stored put order t r s
    → In j order
    → is_online t.connections j ≡ true
    → (k : ℕ) × In k (holders put.key s.tables.key_to_clients) × (is_online t.connections k ≡ true)
some_chosen put order t r s j h v online = pick h.chosen h.all_hold h.all_online h.enough
  where
    pick :
        (ids : List ℕ)
        → ((i : ℕ) → In i ids → In i (holders put.key s.tables.key_to_clients))
        → ((i : ℕ) → In i ids → is_online t.connections i ≡ true)
        → (replication_factor ≤ length ids)
          ⊎ ((i : ℕ) → In i order → is_online t.connections i ≡ true → In i ids)
        → (k : ℕ) × In k (holders put.key s.tables.key_to_clients)
          × (is_online t.connections k ≡ true)
    pick [] hold on (inl many) = absurd (omega arith)
    pick [] hold on (inr all) = absurd (all j v online)
    pick (i ∷ ids) hold on enough = (i, hold i (inl refl), on i (inl refl))

-- A `KVGet` right after a `KVPut` of the same key, from any client: if every holder has a
-- connection, every online client is reached, the put visits some online client, and the calls of
-- the get come through, then both handlers end and release their locks, and the get answers with no
-- error the value that was put, or tells the client that it has the pair already, and the client
-- has that value then.
pub put_get :
    (deliver : ℕ → Delivery) (shuffle : List ℕ → List ℕ) (order : List ℕ) (put : PutArg)
    (t : Tables) (r : Map ℕ Client) (get_deliver : ℕ → Delivery) (me j : ℕ)
    → IsShuffle shuffle
    → HoldersKnown t
    → ((id : ℕ) → is_online t.connections id ≡ true → Reaches deliver t.connections r id)
    → ((h : ℕ) → get_deliver h ≡ delivered)
    → In j order
    → is_online t.connections j ≡ true
    → Returns (AnswersWith put t.connections me) (
        (kv_put deliver shuffle order put
            >> kv_get get_deliver (record { client_id = me; key = put.key }))
          (idle t r))
put_get deliver shuffle order put t r get_deliver me j ok known reach through v online =
    Returns-bind _ (AnswersWith put t.connections me) (kv_put deliver shuffle order put)
      (λ a. kv_get get_deliver (record { client_id = me; key = put.key })) (idle t r)
      (kv_put_replicates deliver shuffle order put t r ok known reach)
      λ a s h.
        let (k, holds, on) = some_chosen put order t r s j h.1 v online in
        subst
          (λ l. Returns (AnswersWith put t.connections me) (
            kv_get get_deliver (record { client_id = me; key = put.key })
              (record { tables = s.tables; locks = l; remotes = s.remotes })))
          (sym h.1.released)
          (get_answers put t.connections s.tables s.remotes me get_deliver through
            (λ i on'. ap (lookup i) h.1.same_connections)
            (λ i v' on'. h.1.holders_store i v' (online_same i s h.1.same_connections on')) k holds
            (online_back k s h.1.same_connections on))
  where
    online_same :
        (i : ℕ) (s : Server)
        → s.tables.connections ≡ t.connections
        → is_online s.tables.connections i ≡ true
        → is_online t.connections i ≡ true
    online_same i s e h = subst (λ c. is_online c i ≡ true) e h

    online_back :
        (i : ℕ) (s : Server)
        → s.tables.connections ≡ t.connections
        → is_online t.connections i ≡ true
        → is_online s.tables.connections i ≡ true
    online_back i s e h = subst (λ c. is_online c i ≡ true) (sym e) h
