-- ===== src/Server/Registry/Stranded.antt =====
-- The nil pointer in `monitorConnections`: `Connection.client` is nil until `syncClocks` has set it.
use cs416_tanks.Base.{
  ℕ, Bool, true, ◌≡◌, ◌≢◌, ◌↔◌, ◌⊎◌, refl, sym, ap, subst, ◌∙◌, inl, inr, List, [], ◌∷◌, Map,
  lookup, insert, lookup-insert_self, lookup-insert_ne, Option, none, some, ◌==◌, nat_eq, arith, In,
  Bool-cases,
}
use cs416_tanks.Client.Store.{Client}
use cs416_tanks.Server.State.{
  Status, status_eq, status_beq_iff, PeerInfo, Connection, Tables, Server, idle, unlocked,
}
use cs416_tanks.Server.Monad.{
  Outcome, Returns, done, crash, nil_dereference, bind-done, bind-crash, ◌>>◌, unlock,
  connections_lock,
}
use cs416_tanks.Server.Registry.{put_connection, connection_of, connect, notify_failure}
use cs416_tanks.Server.Registry.Workers.{
  try_recover, if_lost, monitor_one, monitor_all, monitor_connections,
}
use cs416_tanks.Server.Registry.Connects.{new_partner, after_connect, connect_lem}
use cs416_tanks.Server.Registry.Diagram.{status_of}
use cs416_tanks.Server.Registry.Actions.{connections_locked}

-- The client is DISCONNECTED, and no round of `syncClocks` has made a wrapper of its connection.
abbrev pub IsStranded : Option Connection → Type 0
IsStranded o =
    (c : Connection) × (o ≡ some c) × (c.status ≡ Status.disconnected) × (c.client ≡ none)

abbrev pub Strands : Map ℕ Connection → List ℕ → Type 0
Strands m order = (id : ℕ) × In id order × IsStranded (lookup id m)

-- What one visit does: a crash at a stranded client, and otherwise an end that strands no one.
abbrev Visited : Option Connection → Server → Outcome (Unit {0}) → Type 0
Visited o s out =
    (IsStranded o × (out ≡ crash nil_dereference))
    ⊎ (¬ IsStranded o
        × ((s' : Server) × (out ≡ done tt s')
            × (s'.locks ≡ s.locks)
            × ((j : ℕ)
                → IsStranded (lookup j s'.tables.connections)
                  ↔ IsStranded (lookup j s.tables.connections))))

-- A connection that is not stranded is written over one that was not.
strands_put :
    (m : Map ℕ Connection) (id : ℕ) (c d : Connection)
    → lookup id m ≡ some c
    → ¬ IsStranded (some c)
    → ¬ IsStranded (some d)
    → (j : ℕ) → IsStranded (lookup j (insert id d m)) ↔ IsStranded (lookup j m)
strands_put m id c d here fine fine' j = elim (Bool-cases (id == j)) [
  | inl same ↦
      let e : id ≡ j = (ground (arith, same)) in
      subst (λ k. IsStranded (lookup k (insert id d m)) ↔ IsStranded (lookup k m)) e
        (rw (lookup-insert_self id d m, here) (λ v. absurd (fine' v), λ v. absurd (fine v)))
  | inr other ↦ rw (lookup-insert_ne j id d m (ground (arith, other))) (λ v. v, λ v. v)
]

try_recover-Visited :
    (recovers : ℕ → Bool) (id : ℕ) (c : Connection) (s : Server) (wrapper : Option ℕ)
    → c.client ≡ wrapper
    → lookup id s.tables.connections ≡ some c
    → c.status ≡ Status.disconnected
    → Visited (some c) s (try_recover recovers id c s.tables s)
unfolding try_recover
try_recover-Visited recovers id c s none e here lost =
    inl ((c, refl, lost, e), rw (e, try_recover) refl)
try_recover-Visited recovers id c s (some h) e here lost =
    let bare : ¬ IsStranded (some c) = (λ (d, same, _, none'). cc (same, none', e)) in
    inr (
      bare,
      elim (Bool-cases (recovers h)) [
        | inl back ↦ (
          record s {
            tables = put_connection id (record c { status = Status.reconnected }) s.tables;
          },
          rw (e, try_recover) (rw (back, try_recover) refl),
          refl,
          strands_put s.tables.connections id c _ here bare
              (λ (d, same, lost', _). cc (ap status_of same, lost')),
        )
        | inr gone ↦
            (s, rw (e, try_recover) (rw (gone, try_recover) refl), refl, λ j. (λ v. v, λ v. v))
      ],
    )

if_lost-Visited :
    (recovers : ℕ → Bool) (id : ℕ) (o : Option Connection) (s : Server)
    → lookup id s.tables.connections ≡ o
    → Visited o s (if_lost recovers id o s.tables s)
unfolding if_lost
if_lost-Visited recovers id none s here =
    inr (λ (d, same, _, _). cc same, (s, refl, refl, λ j. (λ v. v, λ v. v)))
if_lost-Visited recovers id (some c) s here = elim (Bool-cases (c.status == Status.disconnected)) [
  | inl lost ↦ rw lost (
      try_recover-Visited recovers id c s c.client refl here
        ((status_beq_iff c.status Status.disconnected).0 lost))
  | inr other ↦ inr (
    λ (d, same, lost, _).
        ground (arith, status_beq_iff c.status Status.disconnected, ap status_of same),
    (s, rw other refl, refl, λ j. (λ v. v, λ v. v)),
  )
]

-- The loop crashes at the first stranded client that it visits, and ends if it visits none.
monitor_all-Visited :
    (recovers : ℕ → Bool) (order : List ℕ) (s : Server)
    → (Strands s.tables.connections order × (monitor_all recovers order s ≡ crash nil_dereference))
      ⊎ (¬ Strands s.tables.connections order
          × ((s' : Server) × (monitor_all recovers order s ≡ done tt s') × (s'.locks ≡ s.locks)))
unfolding monitor_all monitor_one
monitor_all-Visited recovers [] s = inr (λ (id, v, _). absurd v, (s, refl, refl))
monitor_all-Visited recovers (id ∷ ids) s =
    elim (if_lost-Visited recovers id (lookup id s.tables.connections) s refl) [
      | inl (stranded, e) ↦ inl (
        (id, inl refl, stranded),
        bind-crash (monitor_one recovers id) (λ _. monitor_all recovers ids) s nil_dereference e,
      )
      | inr (fine, (s1, e, kept, same)) ↦ elim (monitor_all-Visited recovers ids s1) [
        | inl ((j, v, stranded), out) ↦ inl (
          (j, inr v, (same j).0 stranded),
          bind-done (monitor_one recovers id) (λ _. monitor_all recovers ids) s s1 tt e ∙ out,
        )
        | inr (none_there, (s2, out, kept2)) ↦ inr (
          λ (j, v, stranded). elim v [
            | inl here ↦
                fine (subst (λ k. IsStranded (lookup k s.tables.connections)) here stranded)
            | inr later ↦ none_there (j, later, (same j).1 stranded)
          ],
          (
            s2,
            bind-done (monitor_one recovers id) (λ _. monitor_all recovers ids) s s1 tt e ∙ out,
            kept2 ∙ kept,
          ),
        )
      ]
    ]

-- A round of `monitorConnections`, begun when no lock is held: either its loop visits a stranded
-- client, and it dereferences a nil pointer, which ends the server; or its loop visits none, and the
-- round ends and releases the lock.
pub monitor_connections_lem :
    (recovers : ℕ → Bool) (order : List ℕ) (t : Tables) (r : Map ℕ Client)
    → (Strands t.connections order
        × (monitor_connections recovers order (idle t r) ≡ crash nil_dereference))
      ⊎ (¬ Strands t.connections order
          × Returns (λ _ s. s.locks ≡ unlocked) (monitor_connections recovers order (idle t r)))
unfolding monitor_connections
monitor_connections_lem recovers order t r =
    elim (monitor_all-Visited recovers order (record (idle t r) { locks = connections_locked })) [
      | inl (strands, out) ↦ inl (
        strands,
        bind-crash (monitor_all recovers order) (λ _. unlock connections_lock) _ nil_dereference
            out,
      )
      | inr (none_there, (s, out, kept)) ↦
          let ends : monitor_connections recovers order (idle t r)
              ≡ done tt (record s { locks = unlocked }) =
            (bind-done (monitor_all recovers order) (λ _. unlock connections_lock) _ s tt out
              ∙ subst
                  (λ l.
                    unlock connections_lock (record s { locks = l })
                    ≡ done tt (record s { locks = unlocked }))
                  (sym kept) refl) in
          inr (none_there, rw ends refl)
    ]

monitor_crash :
    (recovers : ℕ → Bool) (order : List ℕ) (t : Tables) (r : Map ℕ Client)
    → Strands t.connections order
    → monitor_connections recovers order (idle t r) ≡ crash nil_dereference
monitor_crash recovers order t r strands = elim (monitor_connections_lem recovers order t r) [
  | inl (_, e) ↦ e
  | inr (none_there, _) ↦ absurd (none_there strands)
]

notify_failure_lost :
    (id : ℕ) (t : Tables) (r : Map ℕ Client) (c : Connection)
    → lookup id t.connections ≡ some c
    → c.status ≡ Status.connected
    → notify_failure id (idle t r)
      ≡ done true (idle (put_connection id (record c { status = Status.disconnected }) t) r)
unfolding notify_failure
notify_failure_lost id t r c e online = ground arith

-- A client that is registered and not CONNECTED enters by `Connect`. If it is reported as failed
-- before `syncClocks` runs, the next round of `monitorConnections` that visits it takes the server
-- down, whatever the tables hold.
pub lost_before_sync :
    (info : PeerInfo) (order visits : List ℕ) (recovers : ℕ → Bool) (t : Tables) (r : Map ℕ Client)
    (c : Connection)
    → lookup info.client_id t.connections ≡ some c
    → c.status ≢ Status.connected
    → In info.client_id visits
    → (connect info order >> notify_failure info.client_id >> monitor_connections recovers visits)
        (idle t r)
      ≡ crash nil_dereference
lost_before_sync info order visits recovers t r c e h v =
    let joined = after_connect info order t c in
    let now = connection_of info c (new_partner info order t c) in
    let lost = record now { status = Status.disconnected } in
    let there : lookup info.client_id joined.connections ≡ some now =
      lookup-insert_self info.client_id now t.connections in
    bind-done (connect info order >> notify_failure info.client_id)
      (λ _. monitor_connections recovers visits) (idle t r) _ true
      (bind-done (connect info order) (λ _. notify_failure info.client_id) (idle t r) _ _
          (connect_lem info order t c r e h)
        ∙ notify_failure_lost info.client_id joined r now there refl)
    ∙ monitor_crash recovers visits (put_connection info.client_id lost joined) r (
      info.client_id,
      v,
      (lost, lookup-insert_self info.client_id lost joined.connections, refl, refl),
    )
