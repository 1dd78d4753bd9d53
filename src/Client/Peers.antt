-- ===== src/Client/Peers.antt =====
-- client/peers.go, and `Heartbeat` and `Recover` of client/clocks.go: the peers of a client. Each
-- function is one step under `peerLock`; `Register` and `HeartbeatWorker` let go of the lock while
-- they wait for the network, and here the table is the same afterwards (Sections has them apart).
-- An error of a send or of a `Close` is only logged by the program, but for `newPeer`, so `outbox`
-- and `closed` hold what was tried; what the network then does is left to it. A `range` over the
-- peers takes the order of its visits.
pub mod Flood
pub mod Removal
pub mod Keys
pub mod Steps
pub mod Listener
pub mod Beats
pub mod Sections
pub mod Worker
use cs416_tanks.Base.{
  ℕ, Bool, true, false, not, ◌&&◌, ◌||◌, List, [], ◌∷◌, ◌++◌, Map, lookup, insert, erase, contains,
  keys, length, Option, none, some, ◌==◌, nat_eq, ltb, if◌then◌else◌,
}
use cs416_tanks.Base.Int.{ℤ, pos, negsuc, ◌-ℤ◌, ltb_ℤ}
use cs416_tanks.Clock.{Time, Duration, sub}
use cs416_tanks.Geometry.{Geometry}
use cs416_tanks.Update.{Update, dead_player, timestamp}

abbrev pub heartbeat_timeout : Duration
heartbeat_timeout = pos 2000000000

abbrev pub failure_notification_ttl : ℤ
failure_notification_ttl = pos 3

-- What `newPeer` comes to: no connection; a UDP connection, but no TCP connection; both, but the
-- introduction is not sent; both, and it is.
pub data Dialled : Type 0 where
  unreached : Dialled
  half_open : ℕ → Dialled
  not_introduced : ℕ → ℕ → Dialled
  opened : ℕ → ℕ → Dialled

module _ (g : Geometry) where
  -- `api` and `rpc` number the UDP and TCP connections to the peer.
  pub record PeerRecord : Type 0 where
    pub client_id : ℕ
    pub api : ℕ
    pub rpc : ℕ
    pub last_heartbeat : Time

  -- What a client sends to a peer over UDP. The sender and its addresses are left out.
  pub data Message : Type 0 where
    failure : ℕ → ℤ → Message
    update : Update g → Message
    introduction : Message

  -- `peers`, the updates put into `RecordUpdates`, the messages sent to each peer, the connections
  -- closed, and the peers that a `HeartbeatMonitorWorker` or a `HeartbeatWorker` was started for.
  pub record Peers : Type 0 where
    pub peers : Map ℕ PeerRecord
    pub record_updates : List (Update g)
    pub outbox : List (ℕ × Message)
    pub closed : List ℕ
    pub monitors : List ℕ
    pub heartbeats : List ℕ

  abbrev pub send : ℕ → Message → Peers → Peers
  send id m p = record p { outbox = p.outbox ++ (id, m) ∷ [] }

  -- The reading of the clock and the nonce for the update that says that a player is dead.
  unfoldable pub remove_peer : Time → ℕ → ℕ → Peers → Peers
  remove_peer now nonce id p = elim (lookup id p.peers) [
    | none ↦ p
    | some r ↦ record p {
      peers = erase id p.peers;
      record_updates = p.record_updates ++ timestamp g (dead_player g id 0) now nonce ∷ [];
      closed = p.closed ++ r.api ∷ r.rpc ∷ [];
    }
  ]

  -- The loops that send a message to every peer, under its `ClientID`.
  unfoldable pub send_each : Message → List ℕ → Peers → Peers
  send_each m [] p = p
  send_each m (id ∷ ids) p =
      send_each m ids (elim (lookup id p.peers) [ none ↦ p | some r ↦ send r.client_id m p ])

  -- `NotifyFailure` of `ClientListener`
  unfoldable pub notify_failure : Time → ℕ → List ℕ → ℕ → ℤ → Peers → Peers
  notify_failure now nonce order id ttl p =
      let q = remove_peer now nonce id p in
      if ltb_ℤ (pos 0) ttl then send_each (failure id (ttl -ℤ pos 1)) order q else q

  -- `handleDisconnection`, once the server has been told; `none` if that fails, which ends the
  -- process.
  unfoldable pub handle_disconnection : Bool → Time → ℕ → List ℕ → ℕ → Peers → Option Peers
  handle_disconnection told now nonce order id p =
      if told
      then some (send_each (failure id failure_notification_ttl) order (remove_peer now nonce id p))
      else none

  abbrev pub peer_at : ℕ → ℕ × ℕ → Time → PeerRecord
  peer_at id c now = record { client_id = id; api = c.0; rpc = c.1; last_heartbeat = now }

  -- `newPeer`: the peer, if there was no error, and what it leaves. Where only the UDP connection
  -- could be opened, it stays open; where the introduction fails, both connections are closed.
  unfoldable pub new_peer : Dialled → Time → ℕ → Peers → Option PeerRecord × Peers
  new_peer unreached now id p = (none, p)
  new_peer (half_open a) now id p = (none, p)
  new_peer (not_introduced a r) now id p =
      let q = send id introduction p in (none, record q { closed = q.closed ++ a ∷ r ∷ [] })
  new_peer (opened a r) now id p = (some (peer_at id (a, r) now), send id introduction p)

  -- A round of the loop of `getMorePeers`; `me` is the client's own id.
  unfoldable pub add_peer : ℕ → Dialled → Time → ℕ → Peers → Peers
  add_peer me dial now id p =
      let (peer, q) = new_peer dial now id p in
      if contains id p.peers || id == me then p else elim peer [
        | none ↦ q
        | some r ↦ record q { peers = insert id r q.peers; monitors = q.monitors ++ id ∷ [] }
      ]

  unfoldable pub add_peers : ℕ → (ℕ → Dialled) → (ℕ → Time) → List ℕ → Peers → Peers
  add_peers me dial now [] p = p
  add_peers me dial now (id ∷ ids) p =
      add_peers me dial now ids (add_peer me (dial id) (now id) id p)

  -- `getMorePeers`, from the client ids of the nodes that `GetNodes` of the server answers; `none` if
  -- that is an error, which ends the process.
  unfoldable pub get_more_peers :
      ℕ → (ℕ → Dialled) → (ℕ → Time) → Option (List ℕ) → Peers → Option Peers
  get_more_peers me dial now none p = none
  get_more_peers me dial now (some ids) p = some (add_peers me dial now ids p)

  -- One round of `PeerWorker`.
  unfoldable pub peer_worker :
      ℕ → ℕ → (ℕ → Dialled) → (ℕ → Time) → Option (List ℕ) → Peers → Option Peers
  peer_worker min me dial now nodes p =
      if ltb (length (keys p.peers)) min then get_more_peers me dial now nodes p else some p

  -- One round of `OutgoingWorker`.
  unfoldable pub outgoing_worker : Update g → List ℕ → Peers → Peers
  outgoing_worker u [] p = p
  outgoing_worker u (id ∷ ids) p = outgoing_worker u ids (elim (lookup id p.peers) [
    | none ↦ p
    | some r ↦ if u.player_id == r.client_id then p else send r.client_id (update u) p
  ])

  -- What `Register` of `ClientListener` writes after its dials, if the connections could be opened;
  -- it closes none if only the first could.
  abbrev pub write_peer : Option (ℕ × ℕ) → Time → ℕ → Peers → Peers
  write_peer none now id p = p
  write_peer (some c) now id p = record p {
    peers = insert id (peer_at id c now) p.peers;
    heartbeats = p.heartbeats ++ id ∷ [];
  }

  -- `Register` of `ClientListener`: the test, and what is written.
  unfoldable pub register : Option (ℕ × ℕ) → Time → ℕ → Peers → Peers
  register dialled now id p =
      let written = write_peer dialled now id p in if contains id p.peers then p else written

  -- `Heartbeat` of `ClockController`
  unfoldable pub heartbeat : Time → ℕ → Peers → Peers
  heartbeat now id p = elim (lookup id p.peers) [
    | none ↦ p
    | some r ↦ record p { peers = insert id (record r { last_heartbeat = now }) p.peers }
  ]

  -- `Recover` of `ClockController`
  unfoldable pub recover : (ℕ → Time × ℕ) → List ℕ → Peers → Peers
  recover stamp [] p = p
  recover stamp (id ∷ ids) p = recover stamp ids (remove_peer (stamp id).0 (stamp id).1 id p)

  -- A worker ends when it has handled a disconnection.
  abbrev pub disconnected : Option Peers → Option (Bool × Peers)
  disconnected none = none
  disconnected (some p) = some (false, p)

  -- A late peer that answers is introduced to the client again.
  abbrev pub renew : Time → ℕ → PeerRecord → Peers → Peers
  renew now id r p =
      let q = send r.client_id introduction p in
      record q { peers = insert id (record r { last_heartbeat = now }) q.peers }

  -- One round of `HeartbeatMonitorWorker` after its sleep: `since` is `time.Now()` for `time.Since`,
  -- `now` the reading of `Clock`. The answer is whether the worker goes on, and `none` if the process
  -- ends.
  unfoldable pub heartbeat_monitor :
      Time → Time → Bool → Bool → ℕ → List ℕ → ℕ → Peers → Option (Bool × Peers)
  heartbeat_monitor since now ping told nonce order id p = elim (lookup id p.peers) [
    | none ↦ some (false, p)
    | some r ↦
        if ltb_ℤ heartbeat_timeout (sub since r.last_heartbeat)
        then if ping
          then some (true, renew now id r p)
          else disconnected (handle_disconnection told now nonce order id p)
        else some (true, p)
  ]

  -- One round of `HeartbeatWorker`: whether the heartbeat was answered in time without an error, and
  -- whether the peer, if it was not, answers `Ping`. The table is taken to be the same at both of its
  -- locks.
  unfoldable pub heartbeat_worker :
      Bool → Bool → Time → Bool → ℕ → List ℕ → ℕ → Peers → Option (Bool × Peers)
  heartbeat_worker beat ping now told nonce order id p = elim (lookup id p.peers) [
    | none ↦ some (false, p)
    | some r ↦
        if beat || ping
        then some (true, p)
        else disconnected (handle_disconnection told now nonce order id p)
  ]
