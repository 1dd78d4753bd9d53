-- ===== src/Server/Kv/PutGet.antt =====
-- `KVPut`, and `KVGet` after it.
use cs416_tanks.Base.{
  ℕ, ◌≤◌, true, false, ◌≡◌, ◌≢◌, refl, ap, ◌∙◌, nat_beq, ◌⊎◌, inl, inr, List, Map, lookup, nat_eq,
  none, some, arith, In, All, All-In, All-at, AllDistinct, length, Bool-cases,
}
use cs416_tanks.Crdt.{PutArg}
use cs416_tanks.Client.Store.{Client}
use cs416_tanks.Server.State.{Connection, Tables, Server, Locks, idle, unlocked, is_online}
use cs416_tanks.Server.Monad.{Returns, Delivery, done, ◌>>=◌, ◌>>◌}
use cs416_tanks.Server.Kv.{
  holders, keep_online, choose_clients, replication_factor, put_each, kv_put,
}
use cs416_tanks.Server.Kv.Put.{Reaches, Stores}
use cs416_tanks.Server.Kv.Holders.{Keeps, keep_online_total, keep_online-AllDistinct}
use cs416_tanks.Server.Kv.Loop.{Replicated, put_each_lem}
use cs416_tanks.Server.Kv.Choice.{
  IsShuffle, kept-chosen, chosen-online, chosen_enough, chosen-AllDistinct,
}

-- Every holder of a key is a client with a connection.
abbrev pub HoldersKnown : Tables → Type 0
HoldersKnown t =
    (key id : ℕ) → In id (holders key t.key_to_clients) → lookup id t.connections ≢ none

-- What `KVPut` leaves.
pub record Stored (arg : PutArg) (order : List ℕ) (t : Tables) (r : Map ℕ Client) (s : Server)
    : Type 0 where
  pub released : s.locks ≡ unlocked
  pub same_connections : s.tables.connections ≡ t.connections
  -- Every online holder has the pair.
  pub holders_store :
      (j : ℕ)
      → In j (holders arg.key s.tables.key_to_clients)
      → is_online t.connections j ≡ true
      → Stores arg t.connections s.remotes j
  pub still_known : HoldersKnown s.tables
  pub still_reach :
      (deliver : ℕ → Delivery) (j : ℕ)
      → Reaches deliver t.connections r j
      → Reaches deliver t.connections s.remotes j
  -- The pair was sent to these clients, all different, three at least unless it was sent to all that
  -- are online.
  pub chosen : List ℕ
  pub distinct :
      AllDistinct order → AllDistinct (holders arg.key t.key_to_clients) → AllDistinct chosen
  pub all_store : All (Stores arg t.connections s.remotes) chosen
  pub all_hold : (j : ℕ) → In j chosen → In j (holders arg.key s.tables.key_to_clients)
  pub all_online : (j : ℕ) → In j chosen → is_online t.connections j ≡ true
  pub enough :
      (replication_factor ≤ length chosen)
      ⊎ ((j : ℕ) → In j order → is_online t.connections j ≡ true → In j chosen)

online-listed : (m : Map ℕ Connection) (id : ℕ) → is_online m id ≡ true → lookup id m ≢ none
unfolding is_online
online-listed m id h = ground arith

module _ (deliver : ℕ → Delivery) (shuffle : List ℕ → List ℕ) (order : List ℕ) (arg : PutArg)
    (t : Tables) (r : Map ℕ Client) (ok : IsShuffle shuffle) (known : HoldersKnown t)
    (reach : (id : ℕ)
      → is_online t.connections id ≡ true
      → Reaches deliver t.connections r id) where
  abbrev locked : Server
  locked = record {
    tables = t;
    locks = record {
      connections_held = true;
      display_names_held = false;
      key_to_clients_held = true;
    };
    remotes = r;
  }

  abbrev chosen_of : List ℕ → List ℕ
  chosen_of kept = choose_clients shuffle t.connections order kept

  all_chosen_online :
      (kept : List ℕ)
      → Keeps t.connections (holders arg.key t.key_to_clients) kept
      → (j : ℕ) → In j (chosen_of kept)
      → is_online t.connections j ≡ true
  all_chosen_online kept keeps =
      chosen-online shuffle ok t.connections order kept (λ j v. ((keeps j).0 v).1)

  pub put_returns :
      (kept : List ℕ) (s : Server)
      → keep_online t.connections (holders arg.key t.key_to_clients) ≡ some kept
      → put_each deliver arg (chosen_of kept) locked ≡ done tt s
      → s.locks ≡ locked.locks
      → kv_put deliver shuffle order arg (idle t r)
        ≡ done (record { ok = true }, none) (idle s.tables s.remotes)
  unfolding kv_put
  put_returns kept s e sent same = rw (e, sent', ◌>>◌, ◌>>=◌) refl
    where
      with_locks : Locks → Server
      with_locks l = record { tables = s.tables; locks = l; remotes = s.remotes }

      sent' : put_each deliver arg (chosen_of kept) locked ≡ done tt (with_locks locked.locks)
      sent' = sent ∙ ap (λ l. done tt (with_locks l)) same

  leaves_Stored :
      (kept : List ℕ) (s : Server)
      → keep_online t.connections (holders arg.key t.key_to_clients) ≡ some kept
      → Keeps t.connections (holders arg.key t.key_to_clients) kept
      → Replicated arg (chosen_of kept) locked s
      → Stored arg order t r (idle s.tables s.remotes)
  leaves_Stored kept s e keeps rep = record {
    released = refl;
    same_connections = rep.same_connections;
    holders_store = λ j v online.
        All-at _ j (chosen_of kept) rep.all_store (elim ((rep.holders_after j).0 v) [
          | inl old ↦ kept-chosen shuffle ok t.connections order kept j ((keeps j).1 (old, online))
          | inr new ↦ new
        ]);
    still_known = λ key j v. elim (Bool-cases (nat_beq arg.key key)) [
      | inl same ↦ elim ((rep.holders_after j).0 (ground arith)) [
        | inl old ↦ rw rep.same_connections (known arg.key j old)
        | inr new ↦
            rw rep.same_connections
              (online-listed t.connections j (all_chosen_online kept keeps j new))
      ]
      | inr other ↦ rw rep.same_connections (known key j (ground (arith, rep.other_keys key)))
    ];
    still_reach = rep.still_reach;
    chosen = chosen_of kept;
    distinct = λ ho hk.
        chosen-AllDistinct shuffle ok t.connections order kept
          (keep_online-AllDistinct t.connections (holders arg.key t.key_to_clients) kept e hk) ho;
    all_store = rep.all_store;
    all_hold = λ j v. (rep.holders_after j).1 (inr v);
    all_online = all_chosen_online kept keeps;
    enough = chosen_enough shuffle ok t.connections order kept;
  }

  -- Where `shuffle` only reorders, every holder has a connection and every online client is reached,
  -- `KVPut` ends, answers `Ok`, releases its locks and leaves the connections as they are. Then every
  -- holder still has a connection, every online holder of the key has the pair, and the pair was sent
  -- to online clients that are now holders: to three at least or to all online clients that the loop
  -- visits, and to none twice if neither the holders before nor the visits repeat one.
  pub kv_put_replicates :
      Returns
        (λ a s. (a ≡ (record { ok = true }, none)) × Stored arg order t r s)
        (kv_put deliver shuffle order arg (idle t r))
  kv_put_replicates =
      let (kept, e, keeps) =
        keep_online_total t.connections (holders arg.key t.key_to_clients) (known arg.key) in
      let (s, sent, rep) =
        put_each_lem deliver arg (chosen_of kept) locked
          (All-In _ (chosen_of kept) (λ j v. reach j (all_chosen_online kept keeps j v))) in
      rw (put_returns kept s e sent rep.same_locks) (refl, leaves_Stored kept s e keeps rep)
