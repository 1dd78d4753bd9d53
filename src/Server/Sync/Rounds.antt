-- ===== src/Server/Sync/Rounds.antt =====
-- One round of the first loop of `syncClocks`, and the clients before and after it.
use cs416_tanks.Base.{
  ℕ, suc, true, false, ◌≡◌, ◌≢◌, sym, ap, subst, ◌∙◌, ◌⊎◌, inl, inr, List, ◌∷◌, Map, lookup, insert,
  lookup-insert, lookup-insert_self, lookup-insert_ne, Bool-cases, none, some, nat_eq, ◌==◌, arith,
  In, Option-cases,
}
use cs416_tanks.Base.Int.{pos}
use cs416_tanks.Clock.{Duration, ClockManager, plus, get_current_time}
use cs416_tanks.Client.Store.{Client}
use cs416_tanks.Server.State.{Status, status_eq, status_beq_iff, Connection, Server}
use cs416_tanks.Server.Monad.{done, delivered}
use cs416_tanks.Server.Sync.{
  Reading, time_request, client_offset, Totals, measure_one, measure_all, measured_at,
}

-- `h` numbers the TCP connections of the clients by their ids, and `cl` are the clients behind them.
module _ (readings : ℕ → Reading) (h : ℕ → ℕ) (cl : ℕ → Client) where
  -- A client that is CONNECTED and whose calls come through.
  pub record Ready (s : Server) (id : ℕ) : Type 0 where
    pub conn : Connection
    pub listed : lookup id s.tables.connections ≡ some conn
    pub on : conn.status ≡ Status.connected
    pub has_handle : conn.rpc_client ≡ some (h id)
    pub there : lookup (h id) s.remotes ≡ some (cl id)
    pub asked : (readings (h id)).time_call ≡ delivered
    pub told : (readings (h id)).offset_call ≡ delivered

  -- A client that both loops pass over.
  abbrev pub Skipped : Server → ℕ → Type 0
  Skipped s id =
      (c : Connection)
      → lookup id s.tables.connections ≡ some c
      → (c.status == Status.connected) ≡ false

  -- A client that the first loop has visited.
  pub record Bound (s : Server) (id : ℕ) : Type 0 where
    pub conn : Connection
    pub listed : lookup id s.tables.connections ≡ some conn
    pub on : conn.status ≡ Status.connected
    pub wrapper : conn.client ≡ some (h id)
    pub there : lookup (h id) s.remotes ≡ some (cl id)
    pub told : (readings (h id)).offset_call ≡ delivered

  -- What the server measures for a client, with the clock `b`.
  abbrev pub measured : ClockManager → ℕ → Duration
  measured b id =
      client_offset (get_current_time b (readings (h id)).before)
        (get_current_time (cl id).clock (readings (h id)).remote)
        (get_current_time b (readings (h id)).after)

  abbrev pub one_measured : ℕ → Server → Totals → Totals
  one_measured id s a =
      let d = measured s.tables.clock id in
      record { measured = insert id d a.measured; total = plus a.total d; num = suc a.num }

  abbrev pub wrap : ℕ → Connection → Server → Server
  wrap id c s = record s {
    tables = record s.tables {
      connections = insert id (record c { client = some (h id) }) s.tables.connections;
    };
    remotes = insert (h id) (cl id) s.remotes;
  }

  measure_one_lem :
      (id : ℕ) (a : Totals) (s : Server)
      → (v : Ready s id)
      → measure_one readings id v.conn a s ≡ done (one_measured id s a) (wrap id v.conn s)
  unfolding measure_one time_request
  measure_one_lem id a s v = ground (arith, v.has_handle, v.there, v.asked)

  -- The connection written for `id` does not matter to another client.
  pub Ready-other :
      (id j : ℕ) (c : Connection) (s : Server)
      → j ≢ id
      → ((k : ℕ) → lookup k (wrap id c s).remotes ≡ lookup k s.remotes)
      → Ready s j
      → Ready (wrap id c s) j
  Ready-other id j c s ne same v = record {
    conn = v.conn;
    listed =
        lookup-insert_ne j id (record c { client = some (h id) }) s.tables.connections
          (λ e. ne (sym e))
        ∙ v.listed;
    on = v.on;
    has_handle = v.has_handle;
    there = same (h j) ∙ v.there;
    asked = v.asked;
    told = v.told;
  }

  pub same_after :
      (id : ℕ) (r : Map ℕ Client)
      → lookup (h id) r ≡ some (cl id)
      → (k : ℕ) → lookup k (insert (h id) (cl id) r) ≡ lookup k r
  same_after id r there k = elim (Bool-cases (h id == k)) [
    | inl same ↦
        ground
          (arith, lookup-insert k (h id) (cl id) r, there, ap (λ i. lookup i r) (the_same same))
    | inr other ↦ ground (arith, lookup-insert k (h id) (cl id) r)
  ]
    where
      the_same : (h id == k) ≡ true → h id ≡ k
      the_same e = ground arith

  pub measure_step :
      (id : ℕ) (ids : List ℕ) (a : Totals) (s : Server)
      → (v : Ready s id)
      → measure_all readings (id ∷ ids) a s
        ≡ measure_all readings ids (one_measured id s a) (wrap id v.conn s)
  unfolding measure_all
  measure_step id ids a s v = ground (arith, v.listed, v.on, measure_one_lem id a s v)

  pub measure_skip :
      (id : ℕ) (ids : List ℕ) (a : Totals) (s : Server)
      → Skipped s id
      → measure_all readings (id ∷ ids) a s ≡ measure_all readings ids a s
  unfolding measure_all
  measure_skip id ids a s skip = elim (Option-cases (lookup id s.tables.connections)) [
    | inl e ↦ ground (arith, e)
    | inr (c, e) ↦ ground (arith, e, skip c e)
  ]

  pub measured_after :
      (id j : ℕ) (d : Duration) (m : Map ℕ Duration)
      → j ≢ id
      → measured_at j (insert id d m) ≡ measured_at j m
  measured_after id j d m ne =
      ap (λ o. elim o [ none ↦ pos 0 | some e ↦ e ]) (lookup-insert_ne j id d m (λ e. ne (sym e)))

  pub measured_now :
      (id : ℕ) (d : Duration) (m : Map ℕ Duration) → measured_at id (insert id d m) ≡ d
  measured_now id d m = ap (λ o. elim o [ none ↦ pos 0 | some e ↦ e ]) (lookup-insert_self id d m)

  pub not-Skipped : (s : Server) (id : ℕ) → Ready s id → ¬ Skipped s id
  not-Skipped s id v skip =
      cc (skip v.conn v.listed, (status_beq_iff v.conn.status Status.connected).1 v.on)

  -- A later client is not touched by the round of `id`.
  pub still :
      (id : ℕ) (ids : List ℕ) (s : Server) (v : Ready s id)
      → ¬ In id ids
      → (j : ℕ) → In j ids
      → Ready s j ⊎ Skipped s j
      → Ready (wrap id v.conn s) j ⊎ Skipped (wrap id v.conn s) j
  still id ids s v out j w (inl u) = inl (
      Ready-other id j v.conn s (λ e. out (subst (λ x. In x ids) e w))
        (same_after id s.remotes v.there) u)
  still id ids s v out j w (inr skip) = inr (λ c e. skip c (
      sym
        (lookup-insert_ne j id _ s.tables.connections (λ x. out (subst (λ y. In y ids) (sym x) w)))
      ∙ e))
