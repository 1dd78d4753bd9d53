-- ===== src/Server/Kv/Loop.antt =====
-- The loop of `KVPut` that sends the pair to the chosen clients.
use cs416_tanks.Base.{
  ℕ, ◌≡◌, ◌≢◌, refl, ◌∙◌, ◌↔◌, ◌⊎◌, inl, List, [], ◌∷◌, Map, insert, nat_eq, arith, In, All,
  All-map,
}
use cs416_tanks.Crdt.{PutArg}
use cs416_tanks.Server.State.{Connection, Server}
use cs416_tanks.Server.Monad.{Delivery, done}
use cs416_tanks.Server.Kv.{holders, add_holder, put_each}
use cs416_tanks.Server.Kv.Put.{
  stored, Reaches, Stores, Reaches-insert, Stores-insert, Stores-insert_self, put_one_lem,
}
use cs416_tanks.Server.Kv.Holders.{holders-add_holder, holders-add_holder_ne}

-- What the loop over `ids` leaves of the server `s`.
pub record Replicated (arg : PutArg) (ids : List ℕ) (s s' : Server) : Type 0 where
  pub same_locks : s'.locks ≡ s.locks
  pub same_connections : s'.tables.connections ≡ s.tables.connections
  pub same_names : s'.tables.display_names ≡ s.tables.display_names
  pub all_store : All (Stores arg s.tables.connections s'.remotes) ids
  pub still_store :
      (j : ℕ)
      → Stores arg s.tables.connections s.remotes j
      → Stores arg s.tables.connections s'.remotes j
  pub still_reach :
      (deliver : ℕ → Delivery) (j : ℕ)
      → Reaches deliver s.tables.connections s.remotes j
      → Reaches deliver s.tables.connections s'.remotes j
  pub holders_after :
      (j : ℕ)
      → In j (holders arg.key s'.tables.key_to_clients)
        ↔ (In j (holders arg.key s.tables.key_to_clients) ⊎ In j ids)
  pub other_keys :
      (k : ℕ) → arg.key ≢ k → holders k s'.tables.key_to_clients ≡ holders k s.tables.key_to_clients

-- The server after one round.
abbrev after_one :
    (deliver : ℕ → Delivery) (arg : PutArg) (id : ℕ) (s : Server)
    → Reaches deliver s.tables.connections s.remotes id
    → Server
after_one deliver arg id s v = record s {
  tables = record s.tables { key_to_clients = add_holder arg.key id s.tables.key_to_clients };
  remotes = insert v.handle (stored arg v.client) s.remotes;
}

Replicated-cons :
    (deliver : ℕ → Delivery) (arg : PutArg) (id : ℕ) (ids : List ℕ) (s s' : Server)
    → (v : Reaches deliver s.tables.connections s.remotes id)
    → Replicated arg ids (after_one deliver arg id s v) s'
    → Replicated arg (id ∷ ids) s s'
Replicated-cons deliver arg id ids s s' v rest = record {
  same_locks = rest.same_locks;
  same_connections = rest.same_connections;
  same_names = rest.same_names;
  all_store = (rest.still_store id now, rest.all_store);
  still_store =
      λ j w. rest.still_store j (Stores-insert arg m s.remotes v.handle v.client v.at_handle j w);
  still_reach = λ d j w.
      rest.still_reach d j (Reaches-insert arg m s.remotes v.handle v.client v.at_handle d j w);
  holders_after = λ j. (
    λ k. ground (
      arith,
      (rest.holders_after j).0 k,
      holders-add_holder arg.key id j s.tables.key_to_clients,
    ),
    λ k.
        ground (
          arith,
          (rest.holders_after j).1,
          holders-add_holder arg.key id j s.tables.key_to_clients,
        ),
  );
  other_keys =
      λ k ne. rest.other_keys k ne ∙ holders-add_holder_ne arg.key id k s.tables.key_to_clients ne;
}
  where
    m : Map ℕ Connection
    m = s.tables.connections

    now : Stores arg m (insert v.handle (stored arg v.client) s.remotes) id
    now =
        Stores-insert_self arg m s.remotes v.handle v.client v.at_handle id v.conn v.listed
          v.has_handle

-- The loop ends if every client that it visits is reached.
pub put_each_lem :
    (deliver : ℕ → Delivery) (arg : PutArg) (ids : List ℕ) (s : Server)
    → All (Reaches deliver s.tables.connections s.remotes) ids
    → (s' : Server) × (put_each deliver arg ids s ≡ done tt s') × Replicated arg ids s s'
unfolding put_each
put_each_lem deliver arg [] s h = (
  s,
  refl,
  record {
    same_locks = refl;
    same_connections = refl;
    same_names = refl;
    all_store = tt;
    still_store = λ j v. v;
    still_reach = λ d j v. v;
    holders_after = λ j. (inl, λ h. ground arith);
    other_keys = λ k ne. refl;
  },
)
put_each_lem deliver arg (id ∷ ids) s h =
    let v = h.0 in
    let (s', e, rest) = put_each_lem deliver arg ids (after_one deliver arg id s v) (
      All-map _ _
        (λ j.
          Reaches-insert arg s.tables.connections s.remotes v.handle v.client v.at_handle deliver j)
        ids h.1) in
    (
      s',
      ground (arith, put_one_lem deliver arg id s v, e),
      Replicated-cons deliver arg id ids s s' v rest,
    )
