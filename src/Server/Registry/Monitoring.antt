-- ===== src/Server/Registry/Monitoring.antt =====
-- What a round of `monitorConnections` keeps.
use cs416_tanks.Base.{
  ℕ, Bool, ◌≡◌, refl, sym, ap, subst, ◌∙◌, inl, inr, List, [], ◌∷◌, Map, lookup, Option, none, some,
  ◌==◌, nat_eq, Bool-cases,
}
use cs416_tanks.Client.Store.{Client}
use cs416_tanks.Server.State.{
  Status, status_eq, status_beq_iff, Connection, Tables, Server, idle, unlocked,
}
use cs416_tanks.Server.Monad.{IfReturns, IfReturns-bind, connections_lock, unlock}
use cs416_tanks.Server.Registry.Workers.{
  try_recover, if_lost, monitor_one, monitor_all, monitor_connections,
}
use cs416_tanks.Server.Registry.Diagram.{
  Move, Recovery, not_lost, Recovery-Move, Recovery-again, Kept, status_of, moves_put,
}
use cs416_tanks.Server.Registry.Actions.{connections_locked, Keeps, bind-Keeps}

try_recover-Keeps :
    (t : Tables) (recovers : ℕ → Bool) (id : ℕ) (c : Connection) (s : Server) (wrapper : Option ℕ)
    → c.client ≡ wrapper
    → lookup id s.tables.connections ≡ some c
    → c.status ≡ Status.disconnected
    → Kept Recovery connections_locked t s
    → IfReturns
        (λ _ s'. Kept Recovery connections_locked t s')
        (try_recover recovers id c s.tables s)
unfolding try_recover
try_recover-Keeps t recovers id c s none e here lost g = rw (e, try_recover) tt
try_recover-Keeps t recovers id c s (some h) e here lost g = elim (Bool-cases (recovers h)) [
  | inl back ↦
      rw (e, try_recover)
        (rw (back, try_recover)
          (record {
            held = g.held;
            moves =
                moves_put Recovery t.connections s.tables.connections id _ g.moves
                  (Recovery-again _ _ (g.moves id) (ap status_of here ∙ ap some lost));
            names = g.names;
          }))
  | inr gone ↦ rw (e, try_recover) (rw (gone, try_recover) g)
]

if_lost-Keeps :
    (t : Tables) (recovers : ℕ → Bool) (id : ℕ) (o : Option Connection) (s : Server)
    → lookup id s.tables.connections ≡ o
    → Kept Recovery connections_locked t s
    → IfReturns (λ _ s'. Kept Recovery connections_locked t s') (if_lost recovers id o s.tables s)
unfolding if_lost
if_lost-Keeps t recovers id none s here g = g
if_lost-Keeps t recovers id (some c) s here g =
    elim (Bool-cases (c.status == Status.disconnected)) [
      | inl lost ↦ rw lost (
          try_recover-Keeps t recovers id c s c.client refl here
            ((status_beq_iff c.status Status.disconnected).0 lost) g)
      | inr other ↦ rw other g
    ]

monitor_one-Keeps :
    (t : Tables) (recovers : ℕ → Bool) (id : ℕ)
    → Keeps Recovery connections_locked t (monitor_one recovers id)
unfolding monitor_one
monitor_one-Keeps t recovers id s g =
    if_lost-Keeps t recovers id (lookup id s.tables.connections) s refl g

monitor_all-Keeps :
    (t : Tables) (recovers : ℕ → Bool) (order : List ℕ)
    → Keeps Recovery connections_locked t (monitor_all recovers order)
unfolding monitor_all
monitor_all-Keeps t recovers [] s g = g
monitor_all-Keeps t recovers (id ∷ ids) s g =
    bind-Keeps Recovery connections_locked t (monitor_one recovers id)
      (λ _. monitor_all recovers ids) (monitor_one-Keeps t recovers id)
      (λ _. monitor_all-Keeps t recovers ids) s g

-- At the end of a handler that holds one lock.
pub unlocks_one :
    (R : Option Status → Option Status → Type 0) (t : Tables) (s : Server)
    → ((a b : Option Status) → R a b → Move a b)
    → Kept R connections_locked t s
    → IfReturns (λ _ s'. Kept Move unlocked t s') (unlock connections_lock s)
unlocks_one R t s f g =
    subst
      (λ l.
        IfReturns (λ _ s'. Kept Move unlocked t s')
          (unlock connections_lock (record s { locks = l })))
      (sym g.held) (record { held = refl; moves = λ id. f _ _ (g.moves id); names = g.names })

pub monitor_connections-Kept :
    (t : Tables) (r : Map ℕ Client) (recovers : ℕ → Bool) (order : List ℕ)
    → IfReturns (λ _ s. Kept Move unlocked t s) (monitor_connections recovers order (idle t r))
unfolding monitor_connections
monitor_connections-Kept t r recovers order =
    IfReturns-bind (λ _ s'. Kept Recovery connections_locked t s') (λ _ s'. Kept Move unlocked t s')
      (monitor_all recovers order) (λ _. unlock connections_lock)
      (record (idle t r) { locks = connections_locked })
      (monitor_all-Keeps t recovers order (record (idle t r) { locks = connections_locked })
        (record { held = refl; moves = λ id. not_lost _; names = λ n v. v }))
      (λ _ s g. unlocks_one Recovery t s Recovery-Move g)
