-- ===== src/Client/Peers/Beats.antt =====
-- The calls between peers: `Heartbeat`, `Recover` and `Ping` of `ClientClockRemote` in
-- clientlib/clock.go, with the handlers of client/clocks.go and the workers of client/peers.go at
-- both ends.
use cs416_tanks.Base.{
  ℕ, Bool, true, false, ◌≡◌, ◌≢◌, sym, ap, ◌∙◌, List, lookup, lookup-insert_self, contains, Option,
  none, some, nat_eq, arith, In,
}
use cs416_tanks.Base.Int.{ltb_ℤ}
use cs416_tanks.Clock.{Time, sub}
use cs416_tanks.Geometry.{Geometry}
use cs416_tanks.Server.Monad.{Delivery, delivered, request_lost, reply_lost}
use cs416_tanks.Client.Peers.{
  PeerRecord, Message, Peers, remove_peer, send_each, heartbeat, recover, heartbeat_timeout,
  failure_notification_ttl, heartbeat_monitor, heartbeat_worker, handle_disconnection,
}
use cs416_tanks.Client.Peers.Removal.{
  Keyed, remove_peer-peers, remove_peer-Keyed, send_each-rest, send_each-told,
}

module _ (g : Geometry) where
  -- `doApiCall` to a peer whose handler answers `answer` and leaves `after` of `before`; `none` is an
  -- error or a timeout.
  unfoldable pub call_peer : {A : Type 0} → Delivery → A → Peers g → Peers g → Option A × Peers g
  call_peer delivered answer after before = (some answer, after)
  call_peer request_lost answer after before = (none, before)
  call_peer reply_lost answer after before = (none, after)

  abbrev is_nil : Option Bool → Bool
  is_nil none = false
  is_nil (some ack) = true

  -- `Heartbeat` of the client `me`, and whether its error is nil. The handler leaves `ack` false.
  unfoldable pub remote_heartbeat : Delivery → Time → ℕ → Peers g → Bool × Peers g
  remote_heartbeat d now me p =
      let (answer, after) = call_peer d false (heartbeat g now me p) p in (is_nil answer, after)

  -- `Ping`
  unfoldable pub remote_ping : Delivery → Peers g → Bool × Peers g
  remote_ping d p = let (answer, after) = call_peer d true p p in (is_nil answer, after)

  -- `Recover`, and whether it is acknowledged.
  unfoldable pub remote_recover : Delivery → (ℕ → Time × ℕ) → List ℕ → Peers g → Bool × Peers g
  remote_recover d stamp order p =
      let (answer, after) = call_peer d true (recover g stamp order p) p in
      (elim answer [ none ↦ false | some ack ↦ ack ], after)

  heartbeat_time :
      (now : Time) (me : ℕ) (q : Peers g) (s : PeerRecord g)
      → lookup me q.peers ≡ some s
      → lookup me (heartbeat g now me q).peers ≡ some (record s { last_heartbeat = now })
  unfolding heartbeat
  heartbeat_time now me q s known =
      rw (known, heartbeat) (lookup-insert_self me (record s { last_heartbeat = now }) q.peers)

  module _ (me peer : ℕ) (p q : Peers g) (now dead_at : Time) (nonce : ℕ) (order : List ℕ)
      (told : Bool) where
    -- A heartbeat that comes through and back keeps both ends: the sender's worker goes on with the
    -- same table, and the peer's monitor goes on with its own, if it looks before the timeout.
    pub beat_keeps :
        (since : Time) (ping : Bool) (r s : PeerRecord g)
        → lookup peer p.peers ≡ some r
        → lookup me q.peers ≡ some s
        → ltb_ℤ heartbeat_timeout (sub since now) ≡ false
        → let (beat, q') = remote_heartbeat delivered now me q in
          (heartbeat_worker g beat ping dead_at told nonce order peer p ≡ some (true, p))
          × (heartbeat_monitor g since dead_at ping told nonce order me q' ≡ some (true, q'))
          × (lookup me q'.peers ≡ some (record s { last_heartbeat = now }))
    unfolding remote_heartbeat call_peer heartbeat_worker heartbeat_monitor
    beat_keeps since ping r s known known' soon = (
      ground (arith, known),
      ground (arith, heartbeat_time now me q s known', soon),
      heartbeat_time now me q s known',
    )

    -- If neither a heartbeat nor a ping comes through and the server can be told: the sender's worker
    -- ends, the peer is not known any more, the others are as before, and each of them that the loop
    -- visits is told.
    pub no_beat_drops :
        (r : PeerRecord g)
        → Keyed g p
        → lookup peer p.peers ≡ some r
        → (p' : Peers g) × (heartbeat_worker g
              (remote_heartbeat request_lost now me q).0
              (remote_ping request_lost q).0
              dead_at
              true
              nonce
              order
              peer
              p
            ≡ some (false, p'))
          × (lookup peer p'.peers ≡ none)
          × ((j : ℕ) → j ≢ peer → lookup j p'.peers ≡ lookup j p.peers)
          × ((j : ℕ)
              → In j order
              → contains j p'.peers ≡ true
              → In (j, Message.failure peer failure_notification_ttl) p'.outbox)
    unfolding remote_heartbeat remote_ping call_peer heartbeat_worker handle_disconnection
    no_beat_drops r keyed known =
        let left = remove_peer g dead_at nonce peer p in
        let m = Message.failure peer failure_notification_ttl in
        let gone = remove_peer-peers g dead_at nonce peer p in
        let rest = send_each-rest g m order left in
        (
          send_each g m order left,
          ground (arith, known),
          ap (lookup peer) rest.0 ∙ gone.0,
          (λ j ne. ap (lookup j) rest.0 ∙ gone.1 j ne),
          λ j visited known'.
              send_each-told g m order left j (remove_peer-Keyed g dead_at nonce peer p keyed)
                visited (sym (ap (contains j) rest.0) ∙ known'),
        )
