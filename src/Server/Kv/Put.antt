-- ===== src/Server/Kv/Put.antt =====
-- What `KVPut` leaves where it reaches every client that it chooses.
use cs416_tanks.Base.{
  ℕ, true, false, ◌≡◌, inl, inr, Map, lookup, insert, lookup-insert, nat_eq, ◌==◌, some, arith,
  Bool-cases,
}
use cs416_tanks.Crdt.{PutArg}
use cs416_tanks.Client.Disk.{write_kv_pair}
use cs416_tanks.Client.Store.{Client, value_at, kv_client_put}
use cs416_tanks.Server.State.{Connection, Server}
use cs416_tanks.Server.Monad.{Delivery, delivered, done}
use cs416_tanks.Server.Kv.{add_holder, put_one}

module _ (arg : PutArg) where
  -- What a client keeps after it has served the call.
  abbrev pub stored : Client → Client
  stored c = (kv_client_put arg c).1

  stored_writable : (c : Client) → (stored c).writable ≡ c.writable
  unfolding kv_client_put
  stored_writable c = ground arith

  stored_value : (c : Client) → value_at arg.key (stored c).kv_map ≡ arg.value
  unfolding kv_client_put value_at
  stored_value c = ground (arith, lookup-insert arg.key arg.key arg.value c.kv_map)

  stored_answer : (c : Client) → c.writable ≡ true → (kv_client_put arg c).0 ≡ some false
  unfolding kv_client_put write_kv_pair
  stored_answer c w = ground arith

-- The server can store on the client: there is a connection with a TCP connection over which the
-- call gets through, to a client that can write its files.
pub record Reaches (deliver : ℕ → Delivery) (m : Map ℕ Connection) (r : Map ℕ Client) (id : ℕ)
    : Type 0 where
  pub conn : Connection
  pub listed : lookup id m ≡ some conn
  pub handle : ℕ
  pub has_handle : conn.rpc_client ≡ some handle
  pub gets_through : deliver handle ≡ delivered
  pub client : Client
  pub at_handle : lookup handle r ≡ some client
  pub can_write : client.writable ≡ true

-- The client behind the connection has the pair.
pub record Stores (arg : PutArg) (m : Map ℕ Connection) (r : Map ℕ Client) (id : ℕ) : Type 0 where
  pub conn : Connection
  pub listed : lookup id m ≡ some conn
  pub handle : ℕ
  pub has_handle : conn.rpc_client ≡ some handle
  pub client : Client
  pub at_handle : lookup handle r ≡ some client
  pub has_value : value_at arg.key client.kv_map ≡ arg.value

module _ (arg : PutArg) (m : Map ℕ Connection) (r : Map ℕ Client) (h : ℕ) (c : Client)
    (found : lookup h r ≡ some c) where
  pub Reaches-insert :
      (deliver : ℕ → Delivery) (id : ℕ)
      → Reaches deliver m r id
      → Reaches deliver m (insert h (stored arg c) r) id
  Reaches-insert deliver id v = elim (Bool-cases (h == v.handle)) [
    | inl same ↦ record {
      conn = v.conn;
      listed = v.listed;
      handle = v.handle;
      has_handle = v.has_handle;
      gets_through = v.gets_through;
      client = stored arg c;
      at_handle = ground (arith, lookup-insert v.handle h (stored arg c) r);
      can_write = ground (arith, stored_writable arg c, v.can_write, v.at_handle);
    }
    | inr other ↦ record {
      conn = v.conn;
      listed = v.listed;
      handle = v.handle;
      has_handle = v.has_handle;
      gets_through = v.gets_through;
      client = v.client;
      at_handle = ground (arith, lookup-insert v.handle h (stored arg c) r, v.at_handle);
      can_write = v.can_write;
    }
  ]

  pub Stores-insert : (id : ℕ) → Stores arg m r id → Stores arg m (insert h (stored arg c) r) id
  Stores-insert id v = elim (Bool-cases (h == v.handle)) [
    | inl same ↦ record {
      conn = v.conn;
      listed = v.listed;
      handle = v.handle;
      has_handle = v.has_handle;
      client = stored arg c;
      at_handle = ground (arith, lookup-insert v.handle h (stored arg c) r);
      has_value = stored_value arg c;
    }
    | inr other ↦ record {
      conn = v.conn;
      listed = v.listed;
      handle = v.handle;
      has_handle = v.has_handle;
      client = v.client;
      at_handle = ground (arith, lookup-insert v.handle h (stored arg c) r, v.at_handle);
      has_value = v.has_value;
    }
  ]

  pub Stores-insert_self :
      (id : ℕ) (conn : Connection)
      → lookup id m ≡ some conn
      → conn.rpc_client ≡ some h
      → Stores arg m (insert h (stored arg c) r) id
  Stores-insert_self id conn listed has = record {
    conn = conn;
    listed = listed;
    handle = h;
    has_handle = has;
    client = stored arg c;
    at_handle = ground (arith, lookup-insert h h (stored arg c) r);
    has_value = stored_value arg c;
  }

-- One round of the loop, on a client that is reached.
pub put_one_lem :
    (deliver : ℕ → Delivery) (arg : PutArg) (id : ℕ) (s : Server)
    → (v : Reaches deliver s.tables.connections s.remotes id)
    → put_one deliver arg id s
      ≡ done tt (record s {
        tables = record s.tables { key_to_clients = add_holder arg.key id s.tables.key_to_clients };
        remotes = insert v.handle (stored arg v.client) s.remotes;
      })
unfolding put_one
put_one_lem deliver arg id s v = ground (
  arith,
  v.listed,
  v.has_handle,
  v.gets_through,
  v.at_handle,
  stored_answer arg v.client v.can_write,
)
