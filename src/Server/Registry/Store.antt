-- ===== src/Server/Registry/Store.antt =====
-- What `KVGet` and `KVPut` keep of the connections.
use cs416_tanks.Base.{
  ℕ, true, refl, sym, subst, inl, inr, List, [], ◌∷◌, Map, lookup, Option, none, some, ◌==◌, nat_eq,
  Bool-cases, Option-cases, if◌then◌else◌,
}
use cs416_tanks.Crdt.{GetArg, GetReply, PutArg, PutReply}
use cs416_tanks.Client.Store.{Client, kv_client_get, kv_client_put}
use cs416_tanks.Server.State.{
  ServerError, key_unavailable, status_eq, Tables, Locks, idle, unlocked,
}
use cs416_tanks.Server.Monad.{
  Action, IfReturns, IfReturns-bind, Delivery, call, pure, ◌>>◌, or_crash, deref, nil_dereference,
  connections_lock, key_to_clients_lock, unlock, log_fatal,
}
use cs416_tanks.Server.Kv.{
  holders, latest_online, remote_get, unavailable_reply, already_reply, fetch, kv_get_locked,
  kv_get_rest, kv_get, keep_online, choose_clients, remote_put, put_one, put_each, kv_put_rest,
  kv_put,
}
use cs416_tanks.Server.Registry.Diagram.{Move, Kept, Same, Same-Move}
use cs416_tanks.Server.Registry.Actions.{both_locked, Keeps, bind-Keeps, or_crash-Keeps, call-Keeps}

abbrev key_locked : Locks
key_locked = record unlocked { key_to_clients_held = true }

fetch-Keeps :
    (t : Tables) (deliver : ℕ → Delivery) (key id : ℕ)
    → Keeps Same both_locked t (fetch deliver key id)
unfolding fetch remote_get
fetch-Keeps t deliver key id s g =
    bind-Keeps Same both_locked t (deref (lookup id s.tables.connections)) _
      (or_crash-Keeps Same both_locked t nil_dereference (lookup id s.tables.connections))
      (λ c.
        bind-Keeps Same both_locked t (or_crash log_fatal c.rpc_client) _
          (or_crash-Keeps Same both_locked t log_fatal c.rpc_client)
          (λ h.
            bind-Keeps Same both_locked t (remote_get deliver h key) _
              (bind-Keeps Same both_locked t (call (deliver h) h (kv_client_get key)) _
                (call-Keeps Same both_locked t (deliver h) h (kv_client_get key)) (λ r s' g'. g'))
              (λ v s' g'. g')))
      s g

kv_get_locked-Keeps :
    (t : Tables) (deliver : ℕ → Delivery) (arg : GetArg)
    → Keeps Same both_locked t (kv_get_locked deliver arg)
unfolding kv_get_locked
kv_get_locked-Keeps t deliver arg s g =
    by_latest (latest_online s.tables.connections (holders arg.key s.tables.key_to_clients) none)
  where
    by_latest :
        (o : Option ℕ)
        → IfReturns
            (λ _ s'. Kept Same both_locked t s')
            ((elim o as (λ _. Action (GetReply × Option ServerError)) [
              | none ↦ pure (unavailable_reply, some (key_unavailable arg.key))
              | some id ↦
                  if id == arg.client_id
                  then pure (already_reply, none)
                  else fetch deliver arg.key id
            ])
              s)
    by_latest none = g
    by_latest (some id) = elim (Bool-cases (id == arg.client_id)) [
      | inl own ↦ rw own g
      | inr other ↦ rw other (fetch-Keeps t deliver arg.key id s g)
    ]

pub kv_get-Kept :
    (t : Tables) (r : Map ℕ Client) (deliver : ℕ → Delivery) (arg : GetArg)
    → IfReturns (λ _ s. Kept Move unlocked t s) (kv_get deliver arg (idle t r))
unfolding kv_get kv_get_rest
kv_get-Kept t r deliver arg =
    IfReturns-bind (λ _ s'. Kept Same both_locked t s') (λ _ s'. Kept Move unlocked t s')
      (kv_get_locked deliver arg) _ (record (idle t r) { locks = both_locked })
      (kv_get_locked-Keeps t deliver arg (record (idle t r) { locks = both_locked })
        (record { held = refl; moves = λ id. refl; names = λ n v. v }))
      (λ reply s g.
        subst
          (λ l.
            IfReturns (λ _ s'. Kept Move unlocked t s')
              ((unlock connections_lock >> (unlock key_to_clients_lock >> pure reply))
                (record s { locks = l })))
          (sym g.held)
          (record { held = refl; moves = λ id. Same-Move _ _ (g.moves id); names = g.names }))

put_one-Keeps :
    (t : Tables) (deliver : ℕ → Delivery) (arg : PutArg) (id : ℕ)
    → Keeps Same both_locked t (put_one deliver arg id)
unfolding put_one remote_put
put_one-Keeps t deliver arg id s g =
    bind-Keeps Same both_locked t (deref (lookup id s.tables.connections)) _
      (or_crash-Keeps Same both_locked t nil_dereference (lookup id s.tables.connections))
      (λ c.
        bind-Keeps Same both_locked t (or_crash log_fatal c.rpc_client) _
          (or_crash-Keeps Same both_locked t log_fatal c.rpc_client)
          (λ h.
            bind-Keeps Same both_locked t (remote_put deliver h arg) _
              (bind-Keeps Same both_locked t (call (deliver h) h (kv_client_put arg)) _
                (call-Keeps Same both_locked t (deliver h) h (kv_client_put arg)) (λ r s' g'. g'))
              (λ r.
                bind-Keeps Same both_locked t (or_crash log_fatal r) _
                  (or_crash-Keeps Same both_locked t log_fatal r)
                  (λ ack s' g'. record { held = g'.held; moves = g'.moves; names = g'.names }))))
      s g

put_each-Keeps :
    (t : Tables) (deliver : ℕ → Delivery) (arg : PutArg) (ids : List ℕ)
    → Keeps Same both_locked t (put_each deliver arg ids)
unfolding put_each
put_each-Keeps t deliver arg [] s g = g
put_each-Keeps t deliver arg (id ∷ ids) s g =
    bind-Keeps Same both_locked t (put_one deliver arg id) (λ _. put_each deliver arg ids)
      (put_one-Keeps t deliver arg id) (λ _. put_each-Keeps t deliver arg ids) s g

abbrev put_reply : PutReply × Option ServerError
put_reply = (record { ok = true }, none)

pub kv_put-Kept :
    (t : Tables) (r : Map ℕ Client) (deliver : ℕ → Delivery) (shuffle : List ℕ → List ℕ)
    (order : List ℕ) (arg : PutArg)
    → IfReturns (λ _ s. Kept Move unlocked t s) (kv_put deliver shuffle order arg (idle t r))
unfolding kv_put kv_put_rest
kv_put-Kept t r deliver shuffle order arg =
    elim (Option-cases (keep_online t.connections (holders arg.key t.key_to_clients))) [
      | inl e ↦ rw (e, kv_put, kv_put_rest) tt
      | inr (clients, e) ↦
          rw (e, kv_put, kv_put_rest)
            (IfReturns-bind (λ _ s'. Kept Same both_locked t s') (λ _ s'. Kept Move unlocked t s')
              (put_each deliver arg (choose_clients shuffle t.connections order clients)) _
              (record (idle t r) { locks = both_locked })
              (put_each-Keeps t deliver arg (choose_clients shuffle t.connections order clients)
                (record (idle t r) { locks = both_locked })
                (record { held = refl; moves = λ id. refl; names = λ n v. v }))
              (λ _ s g.
                subst
                  (λ l.
                    IfReturns (λ _ s'. Kept Move unlocked t s')
                      ((unlock key_to_clients_lock >> (unlock connections_lock >> pure put_reply))
                        (record s { locks = l })))
                  (sym g.held)
                  (record {
                    held = refl;
                    moves = λ id. Same-Move _ _ (g.moves id);
                    names = g.names;
                  })))
    ]
