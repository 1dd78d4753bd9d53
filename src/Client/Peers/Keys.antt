-- ===== src/Client/Peers/Keys.antt =====
-- The workers and handlers of client/peers.go, one by one, over a table with each peer under its id.
use cs416_tanks.Base.{
  ℕ, Bool, true, false, ◌≡◌, refl, sym, ap, subst, ◌∙◌, inl, inr, List, [], ◌∷◌, ◌||◌, lookup,
  insert, contains, nat_eq, ◌==◌, Option, none, some, arith, lookup-insert, Bool-cases,
  Option-cases, if◌then◌else◌, ltb, length, keys,
}
use cs416_tanks.Base.Int.{ℤ, pos, ltb_ℤ}
use cs416_tanks.Clock.{Time, sub}
use cs416_tanks.Geometry.{Geometry}
use cs416_tanks.Update.{Update}
use cs416_tanks.Client.Peers.{
  PeerRecord, Message, Peers, send, remove_peer, send_each, notify_failure, handle_disconnection,
  Dialled, unreached, half_open, not_introduced, opened, new_peer, add_peer, add_peers,
  get_more_peers, peer_worker, outgoing_worker, register, heartbeat, recover, heartbeat_monitor,
  heartbeat_worker, heartbeat_timeout, renew, disconnected,
}
use cs416_tanks.Client.Peers.Removal.{Keyed, remove_peer-Keyed, send_each-rest}

module _ (g : Geometry) where
  pub same-Keyed : (p q : Peers g) → q.peers ≡ p.peers → Keyed g p → Keyed g q
  same-Keyed p q e keyed j r h = keyed j r (sym (ap (lookup j) e) ∙ h)

  pub insert-Keyed :
      (id : ℕ) (r : PeerRecord g) (p : Peers g)
      → r.client_id ≡ id
      → Keyed g p
      → (j : ℕ) (s : PeerRecord g) → lookup j (insert id r p.peers) ≡ some s
      → s.client_id ≡ j
  insert-Keyed id r p own keyed j s h = ground (arith, lookup-insert j id r p.peers, keyed j s)

  if-Keyed : (b : Bool) (p q : Peers g) → Keyed g p → Keyed g q → Keyed g (if b then p else q)
  if-Keyed true p q h k = h
  if-Keyed false p q h k = k

  pub outgoing_worker-rest :
      (u : Update g) (order : List ℕ) (p : Peers g) → (outgoing_worker g u order p).peers ≡ p.peers
  unfolding outgoing_worker
  outgoing_worker-rest u [] p = refl
  outgoing_worker-rest u (id ∷ ids) p = elim (Option-cases (lookup id p.peers)) [
    | inl e ↦ rw (e, outgoing_worker) (outgoing_worker-rest u ids p)
    | inr (r, e) ↦ elim (Bool-cases (u.player_id == r.client_id)) [
      | inl own ↦ rw (e, outgoing_worker) (rw own (outgoing_worker-rest u ids p))
      | inr other ↦
          rw (e, outgoing_worker)
            (rw other (outgoing_worker-rest u ids (send g r.client_id (Message.update u) p)))
    ]
  ]

  pub told-Keyed :
      (m : Message g) (now : Time) (nonce id : ℕ) (order : List ℕ) (p : Peers g)
      → Keyed g p
      → Keyed g (send_each g m order (remove_peer g now nonce id p))
  told-Keyed m now nonce id order p keyed =
      same-Keyed (remove_peer g now nonce id p) (send_each g m order (remove_peer g now nonce id p))
        (send_each-rest g m order (remove_peer g now nonce id p)).0
        (remove_peer-Keyed g now nonce id p keyed)

  pub notify_failure-Keyed :
      (now : Time) (nonce id : ℕ) (order : List ℕ) (ttl : ℤ) (p : Peers g)
      → Keyed g p
      → Keyed g (notify_failure g now nonce order id ttl p)
  unfolding notify_failure
  notify_failure-Keyed now nonce id order ttl p keyed = elim (Bool-cases (ltb_ℤ (pos 0) ttl)) [
    | inl e ↦ rw (e, notify_failure) (told-Keyed _ now nonce id order p keyed)
    | inr e ↦ rw (e, notify_failure) (remove_peer-Keyed g now nonce id p keyed)
  ]

  -- The answer of a worker's round, if there is one, keeps the table.
  abbrev pub AnswerKeyed : Option (Bool × Peers g) → Type 0
  AnswerKeyed none = Unit
  AnswerKeyed (some a) = Keyed g a.1

  pub answered :
      (o : Option (Bool × Peers g)) (b : Bool) (q : Peers g)
      → AnswerKeyed o
      → o ≡ some (b, q)
      → Keyed g q
  answered o b q h e = subst AnswerKeyed e h

  pub recover-Keyed :
      (stamp : ℕ → Time × ℕ) (order : List ℕ) (p : Peers g)
      → Keyed g p
      → Keyed g (recover g stamp order p)
  unfolding recover
  recover-Keyed stamp [] p keyed = keyed
  recover-Keyed stamp (id ∷ ids) p keyed =
      recover-Keyed stamp ids (remove_peer g (stamp id).0 (stamp id).1 id p)
        (remove_peer-Keyed g (stamp id).0 (stamp id).1 id p keyed)

  added-Keyed :
      (me : ℕ) (dial : Dialled) (now : Time) (id : ℕ) (p : Peers g)
      → Keyed g p
      → Keyed g (add_peer g me dial now id p)
  unfolding add_peer new_peer
  added-Keyed me unreached now id p keyed =
      if-Keyed (contains id p.peers || id == me) p p keyed keyed
  added-Keyed me (half_open a) now id p keyed =
      if-Keyed (contains id p.peers || id == me) p p keyed keyed
  added-Keyed me (not_introduced a r) now id p keyed =
      if-Keyed (contains id p.peers || id == me) p _ keyed keyed
  added-Keyed me (opened a r) now id p keyed =
      if-Keyed (contains id p.peers || id == me) p _ keyed (insert-Keyed id _ p refl keyed)

  add_peers-Keyed :
      (me : ℕ) (dial : ℕ → Dialled) (now : ℕ → Time) (ids : List ℕ) (p : Peers g)
      → Keyed g p
      → Keyed g (add_peers g me dial now ids p)
  unfolding add_peers
  add_peers-Keyed me dial now [] p keyed = keyed
  add_peers-Keyed me dial now (id ∷ ids) p keyed =
      add_peers-Keyed me dial now ids _ (added-Keyed me (dial id) (now id) id p keyed)

  pub peer_worker-Keyed :
      (me min : ℕ) (dial : ℕ → Dialled) (now : ℕ → Time) (nodes : Option (List ℕ)) (p q : Peers g)
      → peer_worker g min me dial now nodes p ≡ some q
      → Keyed g p
      → Keyed g q
  unfolding peer_worker get_more_peers
  peer_worker-Keyed me min dial now nodes p q e keyed =
      elim (Bool-cases (ltb (length (keys p.peers)) min)) [
        | inr enough ↦
            let same : p ≡ q = (cc (rw (enough, peer_worker) at e)) in subst (Keyed g) same keyed
        | inl few ↦ given nodes (rw (few, peer_worker) at e)
      ]
    where
      given : (nodes : Option (List ℕ)) → get_more_peers g me dial now nodes p ≡ some q → Keyed g q
      given none e' = absurd (cc e')
      given (some ids) e' =
          let same : add_peers g me dial now ids p ≡ q = (cc e') in
          subst (Keyed g) same (add_peers-Keyed me dial now ids p keyed)

  pub register-Keyed :
      (dialled : Option (ℕ × ℕ)) (now : Time) (id : ℕ) (p : Peers g)
      → Keyed g p
      → Keyed g (register g dialled now id p)
  unfolding register
  register-Keyed none now id p keyed = elim (Bool-cases (contains id p.peers)) [
    | inl known ↦ rw (known, register) keyed
    | inr new ↦ rw (new, register) keyed
  ]
  register-Keyed (some c) now id p keyed = elim (Bool-cases (contains id p.peers)) [
    | inl known ↦ rw (known, register) keyed
    | inr new ↦ rw (new, register) (insert-Keyed id _ p refl keyed)
  ]

  pub heartbeat-Keyed :
      (now : Time) (id : ℕ) (p : Peers g) → Keyed g p → Keyed g (heartbeat g now id p)
  unfolding heartbeat
  heartbeat-Keyed now id p keyed = elim (Option-cases (lookup id p.peers)) [
    | inl e ↦ rw (e, heartbeat) keyed
    | inr (r, e) ↦ rw (e, heartbeat) (insert-Keyed id _ p (keyed id r e) keyed)
  ]

  pub heartbeat_monitor-Keyed :
      (since now : Time) (ping told : Bool) (nonce id : ℕ) (order : List ℕ) (p : Peers g)
      → Keyed g p
      → AnswerKeyed (heartbeat_monitor g since now ping told nonce order id p)
  unfolding heartbeat_monitor handle_disconnection
  heartbeat_monitor-Keyed since now ping told nonce id order p keyed =
      elim (Option-cases (lookup id p.peers)) [
        | inl e ↦ rw (e, heartbeat_monitor) keyed
        | inr (r, e) ↦
            rw (e, heartbeat_monitor)
              (by_tests r e (ltb_ℤ heartbeat_timeout (sub since r.last_heartbeat)) ping told)
      ]
    where
      by_tests :
          (r : PeerRecord g)
          → lookup id p.peers ≡ some r
          → (late ping told : Bool)
          → AnswerKeyed (
              if late
              then if ping
                then some (true, renew g now id r p)
                else disconnected g (handle_disconnection g told now nonce order id p)
              else some (true, p))
      by_tests r e false ping told = keyed
      by_tests r e true true told = insert-Keyed id _ p (keyed id r e) keyed
      by_tests r e true false true = told-Keyed _ now nonce id order p keyed
      by_tests r e true false false = tt

  pub heartbeat_worker-Keyed :
      (now : Time) (beat ping told : Bool) (nonce id : ℕ) (order : List ℕ) (p : Peers g)
      → Keyed g p
      → AnswerKeyed (heartbeat_worker g beat ping now told nonce order id p)
  unfolding heartbeat_worker handle_disconnection
  heartbeat_worker-Keyed now beat ping told nonce id order p keyed =
      elim (Option-cases (lookup id p.peers)) [
        | inl e ↦ rw (e, heartbeat_worker) keyed
        | inr (r, e) ↦ rw (e, heartbeat_worker) (by_tests (beat || ping) told)
      ]
    where
      by_tests :
          (fine told : Bool)
          → AnswerKeyed (
              if fine
              then some (true, p)
              else disconnected g (handle_disconnection g told now nonce order id p))
      by_tests true told = keyed
      by_tests false true = told-Keyed _ now nonce id order p keyed
      by_tests false false = tt
