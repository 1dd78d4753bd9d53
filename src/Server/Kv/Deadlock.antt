-- ===== src/Server/Kv/Deadlock.antt =====
-- `KVGet` takes the lock of the keys and then that of the connections, `KVPut` the other way round.
use cs416_tanks.Base.{ℕ, true, false, ◌≡◌, refl, List, Map}
use cs416_tanks.Crdt.{GetArg, PutArg}
use cs416_tanks.Client.Store.{Client}
use cs416_tanks.Server.State.{Tables, Server, idle}
use cs416_tanks.Server.Monad.{
  done, blocked, Delivery, lock, ◌>>◌, connections_lock, key_to_clients_lock,
}
use cs416_tanks.Server.Kv.{kv_get, kv_get_rest, kv_put, kv_put_rest}

module _ (t : Tables) (r : Map ℕ Client) (deliver : ℕ → Delivery) where
  -- The server after `KVGet` has taken its first lock and then `KVPut` its own.
  abbrev pub both_started : Server
  both_started = record {
    tables = t;
    locks = record {
      connections_held = true;
      display_names_held = false;
      key_to_clients_held = true;
    };
    remotes = r;
  }

  -- `KVGet` and `KVPut` can deadlock, whatever the tables hold. Each is its first lock and a rest.
  -- From a server with no lock held the two first locks can be taken one after the other, and then
  -- both rests are blocked.
  pub get_put_deadlock :
      (get : GetArg) (shuffle : List ℕ → List ℕ) (order : List ℕ) (put : PutArg)
      → (kv_get deliver get ≡ (lock key_to_clients_lock >> kv_get_rest deliver get))
        × (kv_put deliver shuffle order put
            ≡ (lock connections_lock >> kv_put_rest deliver shuffle order put))
        × ((lock key_to_clients_lock >> lock connections_lock) (idle t r) ≡ done tt both_started)
        × (kv_get_rest deliver get both_started ≡ blocked)
        × (kv_put_rest deliver shuffle order put both_started ≡ blocked)
  unfolding kv_get kv_put
  get_put_deadlock get shuffle order put = (refl, refl, refl, refl, refl)
