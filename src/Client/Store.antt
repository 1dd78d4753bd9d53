-- ===== src/Client/Store.antt =====
-- The client's side of the calls that the server makes to read and write its statistics:
-- `KVClientGet` and `KVClientPut` of `ClockController` in client/clocks.go.
pub mod Restart
use cs416_tanks.Base.{ℕ, Map, lookup, insert, nat_eq, Bool, true, false, Option, none, some}
use cs416_tanks.Crdt.{ValueType, PutArg, zero_value}
use cs416_tanks.Clock.{ClockManager}
use cs416_tanks.Client.Disk.{Disk, write_kv_pair}

-- What a client keeps that the server's calls read and write: `KVMap`, the files of `KVDir`, whether
-- the operating system lets a file be written, and `Clock`.
pub record Client : Type 0 where
  pub kv_map : Map ℕ ValueType
  pub disk : Disk
  pub writable : Bool
  pub clock : ClockManager

-- `m[key]` on a map of values: the zero value where the key is missing.
unfoldable pub value_at : ℕ → Map ℕ ValueType → ValueType
value_at key m = elim (lookup key m) [ none ↦ zero_value | some v ↦ v ]

unfoldable pub kv_client_get : ℕ → Client → ValueType × Client
kv_client_get key c = (value_at key c.kv_map, c)

-- The answer is the `Ack` of the response, or `none` for an error. The response is made before `ok`
-- is set, so `Ack` is false also after success.
unfoldable pub kv_client_put : PutArg → Client → Option Bool × Client
kv_client_put arg c =
    let stored = record c { kv_map = insert arg.key arg.value c.kv_map } in
    elim (write_kv_pair stored.writable arg.key arg.value stored.disk) [
      | none ↦ (none, stored)
      | some d ↦ (some false, record stored { disk = d })
    ]
