-- ===== src/Client/Peers/Steps.antt =====
-- Runs of the workers and handlers of client/peers.go.
use cs416_tanks.Base.{
  ℕ, Bool, true, false, ◌≡◌, refl, inl, inr, List, [], lookup, nat_eq, Option, none, some,
  Option-cases, if◌then◌else◌,
}
use cs416_tanks.Base.Int.{ℤ}
use cs416_tanks.Clock.{Time}
use cs416_tanks.Geometry.{Geometry}
use cs416_tanks.Update.{Update}
use cs416_tanks.Client.Peers.{
  Dialled, Peers, notify_failure, peer_worker, outgoing_worker, register, heartbeat, recover,
  heartbeat_monitor, heartbeat_worker, disconnected, handle_disconnection,
}
use cs416_tanks.Client.Peers.Sections.{register_end, heartbeat_end}
use cs416_tanks.Client.Peers.Removal.{Keyed}
use cs416_tanks.Client.Peers.Keys.{
  same-Keyed, outgoing_worker-rest, notify_failure-Keyed, recover-Keyed, peer_worker-Keyed,
  register-Keyed, heartbeat-Keyed, heartbeat_monitor-Keyed, heartbeat_worker-Keyed, answered,
  insert-Keyed, told-Keyed, AnswerKeyed,
}

module _ (g : Geometry) where
  -- A step of a client with the id `me` that wants at least `min` peers. `Register` and a round of
  -- `HeartbeatWorker` may be one step, or end in a step of their own after others.
  pub data PeerStep (me min : ℕ) : Peers g → Peers g → Type 0 where
    at_work :
        (dial : ℕ → Dialled) (now : ℕ → Time) (nodes : Option (List ℕ)) (p q : Peers g)
        → peer_worker g min me dial now nodes p ≡ some q
        → PeerStep me min p q
    at_outgoing :
        (u : Update g) (order : List ℕ) (p : Peers g)
        → PeerStep me min p (outgoing_worker g u order p)
    at_failure :
        (now : Time) (nonce id : ℕ) (order : List ℕ) (ttl : ℤ) (p : Peers g)
        → PeerStep me min p (notify_failure g now nonce order id ttl p)
    at_register :
        (dialled : Option (ℕ × ℕ)) (now : Time) (id : ℕ) (p : Peers g)
        → PeerStep me min p (register g dialled now id p)
    at_heartbeat : (now : Time) (id : ℕ) (p : Peers g) → PeerStep me min p (heartbeat g now id p)
    at_recover :
        (stamp : ℕ → Time × ℕ) (order : List ℕ) (p : Peers g)
        → PeerStep me min p (recover g stamp order p)
    at_monitor :
        (since now : Time) (ping told goes_on : Bool) (nonce id : ℕ) (order : List ℕ)
        (p q : Peers g)
        → heartbeat_monitor g since now ping told nonce order id p ≡ some (goes_on, q)
        → PeerStep me min p q
    at_beat :
        (now : Time) (beat ping told goes_on : Bool) (nonce id : ℕ) (order : List ℕ) (p q : Peers g)
        → heartbeat_worker g beat ping now told nonce order id p ≡ some (goes_on, q)
        → PeerStep me min p q
    at_register_end :
        (dialled : Option (ℕ × ℕ)) (now : Time) (id : ℕ) (p : Peers g)
        → PeerStep me min p (register_end g dialled now id p)
    at_beat_end :
        (now : Time) (beat ping told goes_on : Bool) (nonce id : ℕ) (order : List ℕ) (p q : Peers g)
        → heartbeat_end g beat ping now told nonce order id p ≡ some (goes_on, q)
        → PeerStep me min p q

  register_end-Keyed :
      (dialled : Option (ℕ × ℕ)) (now : Time) (id : ℕ) (p : Peers g)
      → Keyed g p
      → Keyed g (register_end g dialled now id p)
  unfolding register_end
  register_end-Keyed none now id p keyed = keyed
  register_end-Keyed (some c) now id p keyed = insert-Keyed g id _ p refl keyed

  heartbeat_end-Keyed :
      (now : Time) (beat ping told : Bool) (nonce id : ℕ) (order : List ℕ) (p : Peers g)
      → Keyed g p
      → AnswerKeyed g (heartbeat_end g beat ping now told nonce order id p)
  unfolding heartbeat_end handle_disconnection
  heartbeat_end-Keyed now true ping told nonce id order p keyed = keyed
  heartbeat_end-Keyed now false ping told nonce id order p keyed =
      elim (Option-cases (lookup id p.peers)) [
        | inl e ↦ rw (e, heartbeat_end) keyed
        | inr (r, e) ↦ rw (e, heartbeat_end) (by_tests ping told)
      ]
    where
      by_tests :
          (ping told : Bool)
          → AnswerKeyed g (
              if ping
              then some (true, p)
              else disconnected g (handle_disconnection g told now nonce order id p))
      by_tests true told = keyed
      by_tests false true = told-Keyed g _ now nonce id order p keyed
      by_tests false false = tt

  pub data Reachable (me min : ℕ) : Peers g → Type 0 where
    at_start : (p : Peers g) → p.peers ≡ [] → Reachable me min p
    then_step : (p q : Peers g) → Reachable me min p → PeerStep me min p q → Reachable me min q

  PeerStep-Keyed : (me min : ℕ) (p q : Peers g) → PeerStep me min p q → Keyed g p → Keyed g q
  PeerStep-Keyed me min _ _ (at_work dial now nodes p q e) keyed =
      peer_worker-Keyed g me min dial now nodes p q e keyed
  PeerStep-Keyed me min _ _ (at_outgoing u order p) keyed =
      same-Keyed g p (outgoing_worker g u order p) (outgoing_worker-rest g u order p) keyed
  PeerStep-Keyed me min _ _ (at_failure now nonce id order ttl p) keyed =
      notify_failure-Keyed g now nonce id order ttl p keyed
  PeerStep-Keyed me min _ _ (at_register dialled now id p) keyed =
      register-Keyed g dialled now id p keyed
  PeerStep-Keyed me min _ _ (at_heartbeat now id p) keyed = heartbeat-Keyed g now id p keyed
  PeerStep-Keyed me min _ _ (at_recover stamp order p) keyed = recover-Keyed g stamp order p keyed
  PeerStep-Keyed me min _ _ (at_monitor since now ping told goes_on nonce id order p q e) keyed =
      answered g _ goes_on q (heartbeat_monitor-Keyed g since now ping told nonce id order p keyed)
        e
  PeerStep-Keyed me min _ _ (at_beat now beat ping told goes_on nonce id order p q e) keyed =
      answered g _ goes_on q (heartbeat_worker-Keyed g now beat ping told nonce id order p keyed) e
  PeerStep-Keyed me min _ _ (at_register_end dialled now id p) keyed =
      register_end-Keyed dialled now id p keyed
  PeerStep-Keyed me min _ _ (at_beat_end now beat ping told goes_on nonce id order p q e) keyed =
      answered g _ goes_on q (heartbeat_end-Keyed now beat ping told nonce id order p keyed) e

  -- In every state that a client's workers and handlers reach from one without peers, every peer
  -- stands under its own id, also where other steps come between the two critical sections of
  -- `Register` or of a round of `HeartbeatWorker`.
  pub Reachable-Keyed : (me min : ℕ) (p : Peers g) → Reachable me min p → Keyed g p
  unfolding lookup
  Reachable-Keyed me min p (at_start _ e) = λ j r h. absurd (cc (rw e at h))
  Reachable-Keyed me min q (then_step p _ h step) =
      PeerStep-Keyed me min p q step (Reachable-Keyed me min p h)
