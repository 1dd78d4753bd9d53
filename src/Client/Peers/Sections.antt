-- ===== src/Client/Peers/Sections.antt =====
-- `Register` and `HeartbeatWorker` of client/peers.go let go of `peerLock` while they wait for the
-- network. Here the second critical section of each stands alone, since other steps can come between.
use cs416_tanks.Base.{
  ℕ, Bool, true, false, ◌≡◌, refl, ap, ◌∙◌, List, [], ◌∷◌, ◌++◌, lookup, insert, contains, keys,
  length, Option, none, some, ◌==◌, nat_eq, ltb, lookup-insert_self, contains-insert, if◌then◌else◌,
}
use cs416_tanks.Clock.{Time}
use cs416_tanks.Geometry.{Geometry}
use cs416_tanks.Client.Peers.{
  PeerRecord, Peers, introduction, send, Dialled, opened, peer_at, new_peer, add_peer, add_peers,
  get_more_peers, peer_worker, write_peer, register, disconnected, handle_disconnection,
  heartbeat_worker,
}

module _ (g : Geometry) where
  -- What `Register` does once it has the lock again, from the connections that it opened, if it did.
  unfoldable pub register_end : Option (ℕ × ℕ) → Time → ℕ → Peers g → Peers g
  register_end dialled now id p = write_peer g dialled now id p

  -- What a round of `HeartbeatWorker` does after its call: `beat` if it was answered in time
  -- without an error, `ping` if the peer answers `Ping`.
  unfoldable pub heartbeat_end :
      Bool → Bool → Time → Bool → ℕ → List ℕ → ℕ → Peers g → Option (Bool × Peers g)
  heartbeat_end beat ping now told nonce order id p =
      if beat then some (true, p) else elim (lookup id p.peers) [
        | none ↦ some (true, p)
        | some r ↦
            if ping
            then some (true, p)
            else disconnected g (handle_disconnection g told now nonce order id p)
      ]

  -- If the peer is unknown at the second lock too, `Register` is one step.
  register_apart :
      (dialled : Option (ℕ × ℕ)) (now : Time) (id : ℕ) (p : Peers g)
      → contains id p.peers ≡ false
      → register_end dialled now id p ≡ register g dialled now id p
  unfolding register_end register
  register_apart dialled now id p new = rw (new, register) refl

  -- If the peer is known at the second lock too, a round of `HeartbeatWorker` is one step.
  heartbeat_apart :
      (beat ping : Bool) (now : Time) (told : Bool) (nonce : ℕ) (order : List ℕ) (id : ℕ)
      (p : Peers g) (r : PeerRecord g)
      → lookup id p.peers ≡ some r
      → heartbeat_end beat ping now told nonce order id p
        ≡ heartbeat_worker g beat ping now told nonce order id p
  unfolding heartbeat_end heartbeat_worker
  heartbeat_apart true ping now told nonce order id p r known = rw (known, heartbeat_worker) refl
  heartbeat_apart false ping now told nonce order id p r known =
      rw (known, heartbeat_end) (rw (known, heartbeat_worker) refl)

  -- A peer that the round of `PeerWorker` has added.
  abbrev pub with_peer : ℕ → ℕ × ℕ → Time → Peers g → Peers g
  with_peer id c now p =
      let q = send g id introduction p in
      record q { peers = insert id (peer_at g id c now) q.peers; monitors = q.monitors ++ id ∷ [] }

  peer_worker_adds :
      (me min : ℕ) (dial : ℕ → Dialled) (now : ℕ → Time) (id : ℕ) (c : ℕ × ℕ) (p : Peers g)
      → contains id p.peers ≡ false
      → (id == me) ≡ false
      → ltb (length (keys p.peers)) min ≡ true
      → dial id ≡ opened c.0 c.1
      → peer_worker g min me dial now (some (id ∷ [])) p ≡ some (with_peer id c (now id) p)
  unfolding peer_worker get_more_peers add_peers add_peer new_peer
  peer_worker_adds me min dial now id c p unknown other few dialled =
      rw (few, peer_worker)
        (ap (λ d. some (add_peer g me d (now id) id p)) dialled
          ∙ rw (unknown, add_peer) (rw (other, add_peer) refl))

  register_known :
      (dialled : Option (ℕ × ℕ)) (now : Time) (id : ℕ) (p : Peers g)
      → contains id p.peers ≡ true
      → register g dialled now id p ≡ p
  unfolding register
  register_known dialled now id p known = rw (known, register) refl

  -- `Register` has found the peer `id` unknown in `p` and opens its connections `theirs`. Meanwhile
  -- `PeerWorker`, short of peers, is given `id` by the server and opens its own, `mine`. Then
  -- `Register` writes its record over the one of `PeerWorker` and closes nothing, so `mine` stays
  -- open for good, and both workers watch the peer. `Register` in one step would have changed
  -- nothing.
  pub register_races :
      (me min : ℕ) (dial : ℕ → Dialled) (now : ℕ → Time) (later : Time) (id : ℕ)
      (mine theirs : ℕ × ℕ) (p : Peers g)
      → contains id p.peers ≡ false
      → (id == me) ≡ false
      → ltb (length (keys p.peers)) min ≡ true
      → dial id ≡ opened mine.0 mine.1
      → let q = with_peer id mine (now id) p in
        let p' = register_end (some theirs) later id q in
        (peer_worker g min me dial now (some (id ∷ [])) p ≡ some q)
        × (lookup id q.peers ≡ some (peer_at g id mine (now id)))
        × (lookup id p'.peers ≡ some (peer_at g id theirs later))
        × (p'.closed ≡ p.closed)
        × (p'.monitors ≡ p.monitors ++ id ∷ [])
        × (p'.heartbeats ≡ p.heartbeats ++ id ∷ [])
        × (register g (some theirs) later id q ≡ q)
  unfolding register_end register
  register_races me min dial now later id mine theirs p unknown other few dialled = (
    peer_worker_adds me min dial now id mine p unknown other few dialled,
    lookup-insert_self id (peer_at g id mine (now id)) p.peers,
    lookup-insert_self id (peer_at g id theirs later)
        (insert id (peer_at g id mine (now id)) p.peers),
    refl,
    refl,
    refl,
    register_known (some theirs) later id (with_peer id mine (now id) p)
        (contains-insert id (peer_at g id mine (now id)) p.peers),
  )
