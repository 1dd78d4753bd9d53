-- ===== src/Tests/ClientPeers.antt =====
-- A client with two peers, one of which is gone.
use cs416_tanks.Base.{
  ℕ, ◌+◌, ◌*◌, ◌≡◌, ◌≢◌, ◌≤◌, ◌⊎◌, refl, [], ◌∷◌, ◌++◌, lookup, erase, contains, keys, nat_eq, none,
  some, arith, true, In, if◌then◌else◌,
}
use cs416_tanks.Base.Int.{pos, ◌-ℤ◌, ltb_ℤ}
use cs416_tanks.Tests.Grid.{grid}
use cs416_tanks.Client.Peers.{
  PeerRecord, Message, Peers, remove_peer, send_each, notify_failure, handle_disconnection,
}
use cs416_tanks.Client.Peers.Removal.{Keyed, death_of, connections_of, notify_failure_lem}
use cs416_tanks.Client.Peers.{
  Dialled, opened, not_introduced, register, new_peer, add_peer, add_peers, get_more_peers,
  peer_worker, peer_at,
}
use cs416_tanks.Client.Peers.Sections.{register_end, with_peer, register_races}
use cs416_tanks.Client.Peers.Steps.{PeerStep, Reachable, Reachable-Keyed}
use cs416_tanks.Base.{false}
use cs416_tanks.Clock.{sub}
use cs416_tanks.Server.Monad.{delivered, request_lost}
use cs416_tanks.Client.Peers.{failure_notification_ttl, heartbeat_worker, heartbeat_monitor}
use cs416_tanks.Client.Peers.Beats.{remote_heartbeat, remote_ping, beat_keeps, no_beat_drops}
use cs416_tanks.Client.Peers.Flood.{Network, FloodStep, FloodRun, flood_ends, sent_on, emptied}

abbrev peer : ℕ → PeerRecord grid
peer n = record { client_id = n; api = n + 100; rpc = n + 200; last_heartbeat = pos 5 }

abbrev table : Peers grid
table = record {
  peers = (7, peer 7) ∷ (8, peer 8) ∷ [];
  record_updates = [];
  outbox = [];
  closed = [];
  monitors = [];
  heartbeats = [];
}

table-Keyed : Keyed grid table
unfolding lookup
table-Keyed j r h = ground arith

notify_failure_lem_example :
    let q = notify_failure grid (pos 50) 3 (8 ∷ []) 7 (pos 2) table in
    (lookup 7 q.peers ≡ none)
    × ((j : ℕ) → j ≢ 7 → lookup j q.peers ≡ lookup j table.peers)
    × (q.record_updates ≡ (
        if contains 7 table.peers
        then table.record_updates ++ death_of grid (pos 50) 3 7 ∷ []
        else table.record_updates))
    × (q.closed ≡ table.closed ++ connections_of grid 7 table)
    × (((ltb_ℤ (pos 0) (pos 2) ≡ true)
          × ((j : ℕ)
              → In j (8 ∷ [])
              → contains j q.peers ≡ true
              → In (j, Message.failure 7 (pos 2 -ℤ pos 1)) q.outbox))
        ⊎ ((ltb_ℤ (pos 0) (pos 2) ≡ false) × (q.outbox ≡ table.outbox)))
notify_failure_lem_example = notify_failure_lem grid (pos 50) 3 7 (8 ∷ []) (pos 2) table table-Keyed

-- What the client sends when it finds 7 gone.
abbrev told : Peers grid
told =
    send_each grid (Message.failure 7 (pos 3)) (8 ∷ [])
      (remove_peer grid (pos 50) 3 7 (emptied grid table))

told-outbox : told.outbox ≡ (8, Message.failure 7 (pos 3)) ∷ []
unfolding send_each remove_peer lookup erase
told-outbox = refl

abbrev relayed : Peers grid
relayed = notify_failure grid (pos 51) 4 (8 ∷ []) 7 (pos 3) (emptied grid table)

abbrev clients : ℕ → Peers grid
clients n = table

abbrev after : Network grid
after = sent_on grid 8 relayed clients ([] ++ [])

one_delivery : FloodRun grid 2 1 (record { clients = clients; in_flight = told.outbox }) after
one_delivery = rw (told-outbox) (
    FloodRun.onward 0 _ _ _
      (FloodStep.deliver [] [] clients 8 7 4 (pos 3) (pos 51) (8 ∷ []) (omega arith))
      (FloodRun.stay after))

told_all : handle_disconnection grid true (pos 50) 3 (8 ∷ []) 7 (emptied grid table) ≡ some told
unfolding handle_disconnection
told_all = refl

flood_ends_example : 1 ≤ 2 * (1 + 2 * (1 + 2 * (1 + 2)))
flood_ends_example =
    flood_ends grid 2 1 3 7 (pos 50) (8 ∷ []) table told clients after told_all (omega arith)
      one_delivery

-- What 8 sends on has one hop less.
relayed-outbox : relayed.outbox ≡ (8, Message.failure 7 (pos 2)) ∷ []
unfolding notify_failure send_each remove_peer lookup erase ◌-ℤ◌
relayed-outbox = refl

-- A client without peers, where 8 registers and 7 fails.
abbrev fresh : Peers grid
fresh = record table { peers = [] }

abbrev joined : Peers grid
joined = register grid (some (108, 208)) (pos 5) 8 fresh

joined-Reachable : Reachable grid 1 2 joined
joined-Reachable =
    Reachable.then_step fresh joined (Reachable.at_start fresh refl)
      (PeerStep.at_register (some (108, 208)) (pos 5) 8 fresh)

abbrev left : Peers grid
left = notify_failure grid (pos 50) 3 (8 ∷ []) 7 (pos 2) joined

left-Reachable : Reachable grid 1 2 left
left-Reachable =
    Reachable.then_step joined left joined-Reachable
      (PeerStep.at_failure (pos 50) 3 7 (8 ∷ []) (pos 2) joined)

Reachable-Keyed_example : Keyed grid left
Reachable-Keyed_example = Reachable-Keyed grid 1 2 left left-Reachable

abbrev dial : ℕ → Dialled
dial n = opened (n + 100) (n + 200)

-- A peer that cannot be introduced is not taken, and its connections are closed.
not_taken :
    (peer_worker grid 2 1 (λ n. not_introduced 108 208) (λ n. pos 5) (some (8 ∷ [])) fresh)
    ≡ some (record fresh { outbox = (8, Message.introduction) ∷ []; closed = 108 ∷ 208 ∷ [] })
unfolding peer_worker get_more_peers add_peers add_peer new_peer contains lookup keys
not_taken = refl

register_races_example :
    let q = with_peer grid 8 (108, 208) (pos 5) fresh in
    let p' = register_end grid (some (300, 301)) (pos 6) 8 q in
    (peer_worker grid 2 1 dial (λ n. pos 5) (some (8 ∷ [])) fresh ≡ some q)
    × (lookup 8 q.peers ≡ some (peer_at grid 8 (108, 208) (pos 5)))
    × (lookup 8 p'.peers ≡ some (peer_at grid 8 (300, 301) (pos 6)))
    × (p'.closed ≡ fresh.closed)
    × (p'.monitors ≡ fresh.monitors ++ 8 ∷ [])
    × (p'.heartbeats ≡ fresh.heartbeats ++ 8 ∷ [])
    × (register grid (some (300, 301)) (pos 6) 8 q ≡ q)
unfolding contains lookup keys
register_races_example =
    register_races grid 1 2 dial (λ n. pos 5) (pos 6) 8 (108, 208) (300, 301) fresh refl refl refl
      refl

beat_keeps_example :
    let (beat, q) = remote_heartbeat grid delivered (pos 9) 7 table in
    (heartbeat_worker grid beat true (pos 50) true 3 (7 ∷ []) 8 table ≡ some (true, table))
    × (heartbeat_monitor grid (pos 10) (pos 50) true true 3 (7 ∷ []) 7 q ≡ some (true, q))
    × (lookup 7 q.peers ≡ some (record (peer 7) { last_heartbeat = pos 9 }))
unfolding lookup sub ◌-ℤ◌
beat_keeps_example =
    beat_keeps grid 7 8 table table (pos 9) (pos 50) 3 (7 ∷ []) true (pos 10) true (peer 8) (peer 7)
      refl refl refl

no_beat_drops_example :
    (q : Peers grid) × (heartbeat_worker grid
        (remote_heartbeat grid request_lost (pos 9) 7 table).0
        (remote_ping grid request_lost table).0
        (pos 50)
        true
        3
        (7 ∷ [])
        8
        table
      ≡ some (false, q))
    × (lookup 8 q.peers ≡ none)
    × ((j : ℕ) → j ≢ 8 → lookup j q.peers ≡ lookup j table.peers)
    × ((j : ℕ)
        → In j (7 ∷ [])
        → contains j q.peers ≡ true
        → In (j, Message.failure 8 failure_notification_ttl) q.outbox)
unfolding lookup
no_beat_drops_example =
    no_beat_drops grid 7 8 table table (pos 9) (pos 50) 3 (7 ∷ []) true (peer 8) table-Keyed refl
