-- ===== src/Server/Sync/Run.antt =====
-- A round of `syncClocks` with any number of clients.
use cs416_tanks.Base.{
  ℕ, ◌≤◌, true, false, ◌≡◌, refl, sym, ap, subst, ◌∙◌, ◌⊎◌, ◌↔◌, inl, inr, List, [], Map, lookup,
  In, AllDistinct, arith, some, nat_eq,
}
use cs416_tanks.Base.Int.{IsInt64, quot}
use cs416_tanks.Clock.{Duration, plus, set_offset, get_offset}
use cs416_tanks.Client.Store.{Client}
use cs416_tanks.Server.State.{Tables, Server, Locks, idle, unlocked}
use cs416_tanks.Server.Monad.{done, bind-done, connections_lock, unlock}
use cs416_tanks.Server.Sync.{
  Reading, Totals, measure_all, adjust_all, measured_at, is_empty, sync_locked, sync_clocks,
}
use cs416_tanks.Server.Sync.Rounds.{Ready, Skipped, Bound, measured}
use cs416_tanks.Server.Sync.Measure.{Measured, measure_all_lem}
use cs416_tanks.Server.Sync.Adjust.{adjusted, OwnHandles, adjust_all_lem}

abbrev locked : Locks
locked = record unlocked { connections_held = true }

unlock_held :
    (s : Server) → s.locks ≡ locked → unlock connections_lock s ≡ done tt (idle s.tables s.remotes)
unlock_held s e =
    subst
      (λ l. unlock connections_lock (record s { locks = l }) ≡ done tt (idle s.tables s.remotes))
      (sym e) refl

-- The average of the offsets, the server's own among them.
abbrev pub average_of : Totals → Duration
average_of a = quot a.total a.num

-- What the round over `ids` leaves, with what it measured.
pub record Synced (readings : ℕ → Reading) (h : ℕ → ℕ) (cl : ℕ → Client) (ids : List ℕ) (t : Tables)
    (r : Map ℕ Client) (a : Totals) (s : Server) : Type 0 where
  pub fits : IsInt64 (get_offset t.clock) → IsInt64 a.total
  pub clock : s.tables.clock ≡ set_offset t.clock (plus (get_offset t.clock) (average_of a))
  pub visited :
      (j : ℕ)
      → In j ids
      → Ready readings h cl (idle t r) j
      → (2 ≤ a.num)
        × (measured_at j a.measured ≡ measured readings h cl t.clock j)
        × (lookup (h j) s.remotes ≡ some (adjusted readings h cl (average_of a) a.measured j))

module _ (readings : ℕ → Reading) (h : ℕ → ℕ) (cl : ℕ → Client) (ids ids' : List ℕ) (t : Tables)
    (r : Map ℕ Client) (distinct : AllDistinct ids) (distinct' : AllDistinct ids')
    (same : (j : ℕ) → In j ids ↔ In j ids') (own : OwnHandles h ids)
    (all : (j : ℕ)
      → In j ids
      → Ready readings h cl (idle t r) j ⊎ Skipped readings h cl (idle t r) j) where
  abbrev held : Server
  held = record (idle t r) { locks = locked }

  abbrev first : Totals
  first = record { measured = []; total = get_offset t.clock; num = 1 }

  still-Ready : (j : ℕ) → Ready readings h cl (idle t r) j → Ready readings h cl held j
  still-Ready j v = record {
    conn = v.conn;
    listed = v.listed;
    on = v.on;
    has_handle = v.has_handle;
    there = v.there;
    asked = v.asked;
    told = v.told;
  }

  at_first : (j : ℕ) → In j ids → Ready readings h cl held j ⊎ Skipped readings h cl held j
  at_first j w = elim (all j w) [ inl v ↦ inl (still-Ready j v) | inr skip ↦ inr skip ]

  between :
      (a : Totals) (s : Server)
      → Measured readings h cl ids first a held s
      → (j : ℕ) → In j ids'
      → Bound readings h cl s j ⊎ Skipped readings h cl s j
  between a s m j w = elim (at_first j ((same j).1 w)) [
    | inl v ↦ inl (m.visited j ((same j).1 w) v).0
    | inr skip ↦ inr (m.passed j ((same j).1 w) skip)
  ]

  sync_locked_lem :
      (a : Totals) × (s : Server) × (sync_locked readings ids ids' held ≡ done tt s)
      × (s.locks ≡ locked)
      × Synced readings h cl ids t r a s
  unfolding sync_locked
  sync_locked_lem =
      let (a, s, one, m) = measure_all_lem readings h cl ids first held distinct at_first in
      let (s', two, d) =
        adjust_all_lem readings h cl (average_of a) a.measured ids' s distinct'
          (λ i j u w. own i j ((same i).1 u) ((same j).1 w)) (between a s m) in
      let clock = d.same_clock ∙ m.same_clock in
      (
        a,
        record s' {
          tables = record s'.tables {
            clock = set_offset s'.tables.clock (plus (get_offset s'.tables.clock) (average_of a));
          };
        },
        bind-done (measure_all readings ids first) _ held s a one
            ∙ bind-done (adjust_all readings (average_of a) a.measured ids') _ s s' tt two,
        d.same_locks ∙ m.same_locks,
        record {
          fits = m.fits;
          clock = ap (λ c. set_offset c (plus (get_offset c) (average_of a))) clock;
          visited = λ j w v.
              let (b, f, n) = m.visited j w (still-Ready j v) in
              (omega (arith, n), f, d.set j ((same j).0 w) b);
        },
      )

  -- A round of `syncClocks` on a server that has connections.
  pub sync_clocks_lem :
      is_empty t.connections ≡ false
      → (a : Totals) × (s : Server) × (sync_clocks readings ids ids' (idle t r) ≡ done tt s)
        × Synced readings h cl ids t r a s
  unfolding sync_clocks
  sync_clocks_lem some_client =
      let (a, s, run, free, synced) = sync_locked_lem in
      (
        a,
        idle s.tables s.remotes,
        rw (some_client, sync_clocks)
            (bind-done (sync_locked readings ids ids') (λ _. unlock connections_lock) held s tt run
              ∙ unlock_held s free),
        record { fits = synced.fits; clock = synced.clock; visited = synced.visited },
      )
