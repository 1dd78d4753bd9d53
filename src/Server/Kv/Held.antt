-- ===== src/Server/Kv/Held.antt =====
-- `KVPut` of a key that three online clients hold: nobody else is sent the pair.
use cs416_tanks.Base.{
  ℕ, true, false, ◌≡◌, ◌≢◌, refl, ap, ◌∙◌, inl, inr, List, [], ◌∷◌, Map, lookup, insert,
  lookup-insert_ne, nat_eq, some, In,
}
use cs416_tanks.Crdt.{PutArg}
use cs416_tanks.Client.Store.{Client}
use cs416_tanks.Server.State.{status_eq, Connection, Tables, Server}
use cs416_tanks.Server.Monad.{Delivery, done, bind-done}
use cs416_tanks.Server.Kv.{holders, add_holder, put_one, put_each}
use cs416_tanks.Server.Kv.Put.{stored, Reaches, Reaches-insert, put_one_lem}
use cs416_tanks.Server.Kv.Holders.{In-has_id}

-- The server within `KVPut`.
abbrev pub locked : Tables → Map ℕ Client → Server
locked t r = record {
  tables = t;
  locks = record {
    connections_held = true;
    display_names_held = false;
    key_to_clients_held = true;
  };
  remotes = r;
}

add_holder_old : (key id : ℕ) (m : Map ℕ (List ℕ)) → In id (holders key m) → add_holder key id m ≡ m
unfolding add_holder
add_holder_old key id m v = rw (In-has_id id (holders key m) v, add_holder) refl

-- One round, on a client that is a holder already.
put_old :
    (deliver : ℕ → Delivery) (put : PutArg) (id : ℕ) (t : Tables) (r : Map ℕ Client)
    → (v : Reaches deliver t.connections r id) → In id (holders put.key t.key_to_clients)
    → put_one deliver put id (locked t r)
      ≡ done tt (locked t (insert v.handle (stored put v.client) r))
put_old deliver put id t r v w =
    put_one_lem deliver put id (locked t r) v
    ∙ ap
        (λ m.
          done tt
            (locked (record t { key_to_clients = m }) (insert v.handle (stored put v.client) r)))
        (add_holder_old put.key id t.key_to_clients w)

-- The loop that sends the pair to holders over other TCP connections than `h`.
pub put_each-rest :
    (deliver : ℕ → Delivery) (put : PutArg) (h : ℕ) (ids : List ℕ) (t : Tables) (r : Map ℕ Client)
    → ((i : ℕ) → In i ids → Reaches deliver t.connections r i)
    → ((i : ℕ) → In i ids → In i (holders put.key t.key_to_clients))
    → ((i : ℕ) (d : Connection)
        → In i ids
        → lookup i t.connections ≡ some d
        → d.rpc_client ≢ some h)
    → (r' : Map ℕ Client) × (put_each deliver put ids (locked t r) ≡ done tt (locked t r'))
      × (lookup h r' ≡ lookup h r)
unfolding put_each
put_each-rest deliver put h [] t r reach hold apart = (r, refl, refl)
put_each-rest deliver put h (id ∷ ids) t r reach hold apart =
    let v = reach id (inl refl) in
    let r1 = insert v.handle (stored put v.client) r in
    let (r', e, same) =
      put_each-rest deliver put h ids t r1
        (λ i w.
          Reaches-insert put t.connections r v.handle v.client v.at_handle deliver i
            (reach i (inr w)))
        (λ i w. hold i (inr w)) (λ i d w. apart i d (inr w)) in
    (
      r',
      bind-done (put_one deliver put id) (λ _. put_each deliver put ids) (locked t r) (locked t r1)
            tt (put_old deliver put id t r v (hold id (inl refl)))
          ∙ e,
      same
          ∙ lookup-insert_ne h v.handle (stored put v.client) r
              (λ clash. apart id v.conn (inl refl) v.listed (v.has_handle ∙ ap some clash)),
    )
