-- ===== src/Server/Sync.antt =====
-- `syncClocks` of server/server.go, with the calls `TimeRequest` and `SetOffset` of
-- clientlib/clock.go and their handlers in client/clocks.go.
pub mod Run
pub mod Offsets
pub mod Apart
pub mod Rounds
pub mod Measure
pub mod Adjust
use cs416_tanks.Base.{
  ℕ, suc, Bool, true, false, List, [], ◌∷◌, Map, lookup, insert, Option, none, some, ◌==◌, nat_eq,
  if◌then◌else◌,
}
use cs416_tanks.Base.Int.{pos, quot}
use cs416_tanks.Clock.{
  Time, Duration, add, sub, plus, minus, set_offset, get_offset, get_current_time,
}
use cs416_tanks.Client.Store.{Client}
use cs416_tanks.Server.State.{Status, status_eq, Connection}
use cs416_tanks.Server.Monad.{
  Action, pure, ◌>>=◌, ◌>>◌, or_crash, deref, log_fatal, get_tables, put_tables, lock, unlock,
  connections_lock, Delivery, call,
}

-- The readings of `time.Now()` around the request on one connection: at the server before it, at the
-- client when it is served, at the server after it; and what becomes of the two calls.
pub record Reading : Type 0 where
  pub before : Time
  pub remote : Time
  pub after : Time
  pub time_call : Delivery
  pub offset_call : Delivery

-- `TimeRequest` of `ClockController`
unfoldable pub time_request : Time → Client → Time × Client
time_request now c = (get_current_time c.clock now, c)

-- `SetOffset` of `ClockController`
unfoldable pub set_client_offset : Duration → Client → Bool × Client
set_client_offset d c = (true, record c { clock = set_offset c.clock d })

-- The stub `TimeRequest` of `ClientClockRemote`; `none` is an error.
abbrev pub remote_time_request : Delivery → ℕ → Time → Action (Option Time)
remote_time_request d h now = call d h (time_request now)

-- The stub `SetOffset`, which does not hand on the acknowledgement.
abbrev pub remote_set_offset : Delivery → ℕ → Duration → Action (Option Bool)
remote_set_offset d h offset = call d h (set_client_offset offset)

-- The offset that the answer `t` gives, between the readings `before` and `after`.
unfoldable pub client_offset : Time → Time → Time → Duration
client_offset before t after = sub (add t (quot (sub after before) 2)) after

-- `m`, `offsetTotal` and `offsetNum`
pub record Totals : Type 0 where
  pub measured : Map ℕ Duration
  pub total : Duration
  pub num : ℕ

-- One round of the first loop, for a client that is CONNECTED.
unfoldable pub measure_one : (ℕ → Reading) → ℕ → Connection → Totals → Action Totals
unfolding time_request client_offset
measure_one readings id c a = do
  h ← or_crash log_fatal c.rpc_client
  t ← get_tables
  put_tables (record t { connections = insert id (record c { client = some h }) t.connections })
  r ← remote_time_request (readings h).time_call h (readings h).remote
  answer ← or_crash log_fatal r
  let d =
      client_offset (get_current_time t.clock (readings h).before) answer
        (get_current_time t.clock (readings h).after)
  pure (record { measured = insert id d a.measured; total = plus a.total d; num = suc a.num })

-- The first loop, over the connections in the order of the `range`.
unfoldable pub measure_all : (ℕ → Reading) → List ℕ → Totals → Action Totals
measure_all readings [] a = pure a
measure_all readings (id ∷ ids) a = do
  t ← get_tables
  b ← elim (lookup id t.connections) [
    | none ↦ pure a
    | some c ↦ if c.status == Status.connected then measure_one readings id c a else pure a
  ]
  measure_all readings ids b

-- `m[key]`, zero where it is missing.
abbrev pub measured_at : ℕ → Map ℕ Duration → Duration
measured_at id m = elim (lookup id m) [ none ↦ pos 0 | some d ↦ d ]

-- One round of the second loop, for a client that is CONNECTED.
unfoldable pub adjust_one :
    (ℕ → Reading) → Duration → Map ℕ Duration → ℕ → Connection → Action (Unit {0})
unfolding set_client_offset
adjust_one readings average m id c = do
  let d = minus average (measured_at id m)
  t ← get_tables
  put_tables (record t { connections = insert id (record c { offset = d }) t.connections })
  h ← deref c.client
  r ← remote_set_offset (readings h).offset_call h d
  ack ← or_crash log_fatal r
  pure tt

unfoldable pub adjust_all : (ℕ → Reading) → Duration → Map ℕ Duration → List ℕ → Action (Unit {0})
adjust_all readings average m [] = pure tt
adjust_all readings average m (id ∷ ids) = do
  t ← get_tables
  elim (lookup id t.connections) [
    | none ↦ pure tt
    | some c ↦ if c.status == Status.connected then adjust_one readings average m id c else pure tt
  ]
  adjust_all readings average m ids

abbrev pub is_empty : Map ℕ Connection → Bool
is_empty [] = true
is_empty (e ∷ m) = false

-- Both loops and the server's own offset, under the lock.
unfoldable pub sync_locked : (ℕ → Reading) → List ℕ → List ℕ → Action (Unit {0})
unfolding measure_all adjust_all
sync_locked readings order order' = do
  t ← get_tables
  a ← measure_all readings order (record { measured = []; total = get_offset t.clock; num = 1 })
  let average = quot a.total a.num
  adjust_all readings average a.measured order'
  u ← get_tables
  put_tables (record u { clock = set_offset u.clock (plus (get_offset u.clock) average) })

-- `syncClocks`, with the orders of its two `range` loops.
unfoldable pub sync_clocks : (ℕ → Reading) → List ℕ → List ℕ → Action (Unit {0})
unfolding sync_locked
sync_clocks readings order order' = do
  lock connections_lock
  t ← get_tables
  if is_empty t.connections then pure tt else sync_locked readings order order'
  unlock connections_lock
