-- ===== src/Server/Registry/Clocks.antt =====
-- What `syncClocks` keeps of the connections.
use cs416_tanks.Base.{
  ℕ, Bool, true, false, ◌≡◌, refl, sym, ap, ◌∙◌, inl, inr, List, [], ◌∷◌, Map, lookup, insert,
  Option, none, some, ◌==◌, nat_eq, Bool-cases, if◌then◌else◌,
}
use cs416_tanks.Client.Store.{Client}
use cs416_tanks.Server.State.{Status, status_eq, Connection, Tables, Server, idle, unlocked}
use cs416_tanks.Server.Monad.{
  Action, IfReturns, IfReturns-bind, call, pure, or_crash, deref, nil_dereference, connections_lock,
  unlock, log_fatal,
}
use cs416_tanks.Clock.{Duration, minus, get_offset}
use cs416_tanks.Base.Int.{quot}
use cs416_tanks.Server.Sync.{
  Reading, time_request, set_client_offset, Totals, measure_one, measure_all, measured_at,
  adjust_one, adjust_all, is_empty, sync_locked, sync_clocks,
}
use cs416_tanks.Server.Registry.Diagram.{
  Move, Kept, Same, Same-Move, status_at, status_of, moves_put,
}
use cs416_tanks.Server.Registry.Actions.{
  connections_locked, or_crash-IfReturns, Keeps, bind-Keeps, or_crash-Keeps, call-Keeps,
}
use cs416_tanks.Server.Registry.Monitoring.{unlocks_one}

-- Within `syncClocks` no client changes its status.
module _ (t : Tables) where
  abbrev Syncing : Server → Type 0
  Syncing s = Kept Same connections_locked t s

  same_put :
      (id : ℕ) (c c' : Connection) (s : Server)
      → lookup id s.tables.connections ≡ some c
      → c'.status ≡ c.status
      → Syncing s
      → (j : ℕ) → status_at j t.connections ≡ status_at j (insert id c' s.tables.connections)
  same_put id c c' s here e g =
      moves_put Same t.connections s.tables.connections id c' g.moves
        (g.moves id ∙ ap status_of here ∙ ap some (sym e))

  measure_one-Keeps :
      (readings : ℕ → Reading) (id : ℕ) (c : Connection) (a : Totals) (s : Server)
      → lookup id s.tables.connections ≡ some c
      → Syncing s
      → IfReturns (λ _ s'. Syncing s') (measure_one readings id c a s)
  unfolding measure_one
  measure_one-Keeps readings id c a s here g =
      IfReturns-bind (λ _ s'. Syncing s' × (lookup id s'.tables.connections ≡ some c))
        (λ _ s'. Syncing s') (or_crash log_fatal c.rpc_client) _ s
        (or_crash-IfReturns (λ s'. Syncing s' × (lookup id s'.tables.connections ≡ some c))
          log_fatal c.rpc_client s (g, here))
        (λ h s1 (g1, here1).
          bind-Keeps Same connections_locked t
            (call (readings h).time_call h (time_request (readings h).remote)) _
            (call-Keeps Same connections_locked t (readings h).time_call h
              (time_request (readings h).remote))
            (λ r.
              bind-Keeps Same connections_locked t (or_crash log_fatal r) _
                (or_crash-Keeps Same connections_locked t log_fatal r) (λ answer s2 g2. g2))
            _
            (record {
              held = g1.held;
              moves = same_put id c (record c { client = some h }) s1 here1 refl g1;
              names = g1.names;
            }))

  -- One round of the first loop, by what stands under the id.
  abbrev measure_if : (ℕ → Reading) → ℕ → Totals → Option Connection → Action Totals
  measure_if readings id a o = elim o [
    | none ↦ pure a
    | some c ↦ if c.status == Status.connected then measure_one readings id c a else pure a
  ]

  measure_found :
      (readings : ℕ → Reading) (id : ℕ) (a : Totals) (s : Server) (o : Option Connection)
      → lookup id s.tables.connections ≡ o
      → Syncing s
      → IfReturns (λ _ s'. Syncing s') (measure_if readings id a o s)
  measure_found readings id a s none here g = g
  measure_found readings id a s (some c) here g = elim (Bool-cases (c.status == Status.connected)) [
    | inl on ↦ rw on (measure_one-Keeps readings id c a s here g)
    | inr off ↦ rw off g
  ]

  measure_all-Keeps :
      (readings : ℕ → Reading) (order : List ℕ) (a : Totals)
      → Keeps Same connections_locked t (measure_all readings order a)
  unfolding measure_all
  measure_all-Keeps readings [] a s g = g
  measure_all-Keeps readings (id ∷ ids) a s g =
      IfReturns-bind (λ _ s'. Syncing s') (λ _ s'. Syncing s')
        (measure_if readings id a (lookup id s.tables.connections))
        (λ b. measure_all readings ids b) s
        (measure_found readings id a s (lookup id s.tables.connections) refl g)
        (λ b s' g'. measure_all-Keeps readings ids b s' g')

  adjust_one-Keeps :
      (readings : ℕ → Reading) (average : Duration) (m : Map ℕ Duration) (id : ℕ) (c : Connection)
      (s : Server)
      → lookup id s.tables.connections ≡ some c
      → Syncing s
      → IfReturns (λ _ s'. Syncing s') (adjust_one readings average m id c s)
  unfolding adjust_one
  adjust_one-Keeps readings average m id c s here g =
      let d = minus average (measured_at id m) in
      bind-Keeps Same connections_locked t (deref c.client) _
        (or_crash-Keeps Same connections_locked t nil_dereference c.client)
        (λ h.
          bind-Keeps Same connections_locked t
            (call (readings h).offset_call h (set_client_offset d)) _
            (call-Keeps Same connections_locked t (readings h).offset_call h (set_client_offset d))
            (λ r.
              bind-Keeps Same connections_locked t (or_crash log_fatal r) _
                (or_crash-Keeps Same connections_locked t log_fatal r) (λ ack s2 g2. g2)))
        _
        (record {
          held = g.held;
          moves = same_put id c (record c { offset = d }) s here refl g;
          names = g.names;
        })

  -- One round of the second loop.
  abbrev adjust_if :
      (ℕ → Reading) → Duration → Map ℕ Duration → ℕ → Option Connection → Action (Unit {0})
  adjust_if readings average m id o = elim o [
    | none ↦ pure tt
    | some c ↦ if c.status == Status.connected then adjust_one readings average m id c else pure tt
  ]

  adjust_found :
      (readings : ℕ → Reading) (average : Duration) (m : Map ℕ Duration) (id : ℕ) (s : Server)
      (o : Option Connection)
      → lookup id s.tables.connections ≡ o
      → Syncing s
      → IfReturns (λ _ s'. Syncing s') (adjust_if readings average m id o s)
  adjust_found readings average m id s none here g = g
  adjust_found readings average m id s (some c) here g =
      elim (Bool-cases (c.status == Status.connected)) [
        | inl on ↦ rw on (adjust_one-Keeps readings average m id c s here g)
        | inr off ↦ rw off g
      ]

  adjust_all-Keeps :
      (readings : ℕ → Reading) (average : Duration) (m : Map ℕ Duration) (order : List ℕ)
      → Keeps Same connections_locked t (adjust_all readings average m order)
  unfolding adjust_all
  adjust_all-Keeps readings average m [] s g = g
  adjust_all-Keeps readings average m (id ∷ ids) s g =
      IfReturns-bind (λ _ s'. Syncing s') (λ _ s'. Syncing s')
        (adjust_if readings average m id (lookup id s.tables.connections))
        (λ _. adjust_all readings average m ids) s
        (adjust_found readings average m id s (lookup id s.tables.connections) refl g)
        (λ b s' g'. adjust_all-Keeps readings average m ids s' g')

  sync_locked-Keeps :
      (readings : ℕ → Reading) (order order' : List ℕ)
      → Keeps Same connections_locked t (sync_locked readings order order')
  unfolding sync_locked
  sync_locked-Keeps readings order order' s g =
      bind-Keeps Same connections_locked t
        (measure_all readings order
          (record { measured = []; total = get_offset s.tables.clock; num = 1 }))
        _ (measure_all-Keeps readings order _)
        (λ a.
          bind-Keeps Same connections_locked t
            (adjust_all readings (quot a.total a.num) a.measured order') _
            (adjust_all-Keeps readings (quot a.total a.num) a.measured order')
            (λ b s' g'. record { held = g'.held; moves = g'.moves; names = g'.names }))
        s g

pub sync_clocks-Kept :
    (t : Tables) (r : Map ℕ Client) (readings : ℕ → Reading) (order order' : List ℕ)
    → IfReturns (λ _ s. Kept Move unlocked t s) (sync_clocks readings order order' (idle t r))
unfolding sync_clocks
sync_clocks-Kept t r readings order order' =
    IfReturns-bind (λ _ s'. Syncing t s') (λ _ s'. Kept Move unlocked t s')
      (if is_empty t.connections then pure tt else sync_locked readings order order')
      (λ _. unlock connections_lock) (record (idle t r) { locks = connections_locked })
      (by_empty (is_empty t.connections)) (λ _ s g. unlocks_one Same t s Same-Move g)
  where
    first : Syncing t (record (idle t r) { locks = connections_locked })
    first = record { held = refl; moves = λ id. refl; names = λ n v. v }

    by_empty :
        (b : Bool)
        → IfReturns
            (λ _ s'. Syncing t s')
            ((if b then pure tt else sync_locked readings order order')
              (record (idle t r) { locks = connections_locked }))
    by_empty true = first
    by_empty false =
        sync_locked-Keeps t readings order order' (record (idle t r) { locks = connections_locked })
          first
