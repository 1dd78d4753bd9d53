-- ===== src/Server/Kv/ReadBack.antt =====
-- `KVGet` of client/crdt.go over the stub `KVGet` of serverlib/serverlib.go: what a client gets to
-- see of the store.
use cs416_tanks.Base.{
  ℕ, Bool, true, false, ◌≡◌, refl, ap, inl, inr, List, Map, lookup, nat_eq, Option, none, some, In,
  if◌then◌else◌,
}
use cs416_tanks.Crdt.{ValueType, PutArg, GetReply, zero_value}
use cs416_tanks.Client.Store.{Client, value_at}
use cs416_tanks.Server.State.{Connection, Tables, Server, ServerError, idle, is_online}
use cs416_tanks.Server.Monad.{Returns, Outcome, done, crash, blocked, Delivery, delivered, ◌>>◌}
use cs416_tanks.Server.Kv.{kv_get, kv_put}
use cs416_tanks.Server.Kv.Put.{Reaches}
use cs416_tanks.Server.Kv.Choice.{IsShuffle}
use cs416_tanks.Server.Kv.PutGet.{HoldersKnown}
use cs416_tanks.Server.Kv.Get.{AnswersWith, put_get}

-- The stub: `none` stands for an error, of the call or of the server's handler.
unfoldable pub stub_kv_get : Option (GetReply × Option ServerError) → Option GetReply
stub_kv_get none = none
stub_kv_get (some (reply, some e)) = none
stub_kv_get (some (reply, none)) = some reply

-- `KVGet`, given the stub's result; the second component tells of an error.
unfoldable pub client_kv_get : Option GetReply → ℕ → Client → ValueType × Bool
client_kv_get none key c = (zero_value, true)
client_kv_get (some reply) key c =
    if reply.has_already then (value_at key c.kv_map, false) else (reply.value, false)

-- The client `me`, on whichever connection it has, reads the value that was put, and no error.
abbrev pub ReadsBack :
    PutArg → Map ℕ Connection → ℕ → GetReply × Option ServerError → Server → Type 0
ReadsBack put m me a s =
    (c : Connection) (h : ℕ) (cl : Client)
    → lookup me m ≡ some c
    → c.rpc_client ≡ some h
    → lookup h s.remotes ≡ some cl
    → client_kv_get (stub_kv_get (some a)) put.key cl ≡ (put.value, false)

pub Returns-weaken :
    {A : Type 0} (P Q : A → Server → Type 0) (o : Outcome A)
    → Returns P o
    → ((a : A) (s : Server) → P a s → Q a s)
    → Returns Q o
Returns-weaken P Q (done a s) h k = k a s h
Returns-weaken P Q (crash c) h k = h
Returns-weaken P Q blocked h k = h

pub AnswersWith-ReadsBack :
    (put : PutArg) (m : Map ℕ Connection) (me : ℕ) (a : GetReply × Option ServerError) (s : Server)
    → AnswersWith put m me a s
    → ReadsBack put m me a s
unfolding stub_kv_get client_kv_get
AnswersWith-ReadsBack put m me (reply, e) s (no_error, free, inl told) c h cl l r v =
    rw (no_error, stub_kv_get) (rw told refl)
AnswersWith-ReadsBack put m me (reply, e) s (no_error, free, inr (own, held)) c h cl l r v =
    rw (no_error, stub_kv_get)
      (rw own (
        ap (λ (x : ValueType). (x, false))
          (same_client held.listed held.has_handle held.at_handle)))
  where
    same_client :
        lookup me m ≡ some held.conn
        → held.conn.rpc_client ≡ some held.handle
        → lookup held.handle s.remotes ≡ some held.client
        → value_at put.key cl.kv_map ≡ put.value
    same_client l' r' v' = cc held.has_value

-- A client that reads a key right after a `KVPut` of it, its own or another client's, sees the value
-- that was put and no error: if every holder has a connection, every online client is reached, the
-- put visits some online client, and the calls of the get come through. Both handlers end.
pub read_back :
    (deliver : ℕ → Delivery) (shuffle : List ℕ → List ℕ) (order : List ℕ) (put : PutArg)
    (t : Tables) (r : Map ℕ Client) (get_deliver : ℕ → Delivery) (me j : ℕ)
    → IsShuffle shuffle
    → HoldersKnown t
    → ((id : ℕ) → is_online t.connections id ≡ true → Reaches deliver t.connections r id)
    → ((h : ℕ) → get_deliver h ≡ delivered)
    → In j order
    → is_online t.connections j ≡ true
    → Returns (ReadsBack put t.connections me) (
        (kv_put deliver shuffle order put
            >> kv_get get_deliver (record { client_id = me; key = put.key }))
          (idle t r))
read_back deliver shuffle order put t r get_deliver me j ok known reach through v online =
    Returns-weaken (AnswersWith put t.connections me) (ReadsBack put t.connections me) _
      (put_get deliver shuffle order put t r get_deliver me j ok known reach through v online)
      (AnswersWith-ReadsBack put t.connections me)
