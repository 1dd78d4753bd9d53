-- ===== src/Client/Peers/Removal.antt =====
-- How a client forgets its peers: `NotifyFailure` and `Recover` of client/peers.go and
-- client/clocks.go.
use cs416_tanks.Base.{
  ℕ, true, false, ◌≡◌, ◌≢◌, ◌⊎◌, append-nil, refl, sym, ap, ◌∙◌, inl, inr, List, [], ◌∷◌, ◌++◌,
  lookup, contains, nat_eq, none, some, arith, In, In-append_left, In-append_right, lookup-erase,
  Bool-cases, Option-cases, if◌then◌else◌,
}
use cs416_tanks.Base.Int.{ℤ, pos, ◌-ℤ◌, ltb_ℤ}
use cs416_tanks.Clock.{Time}
use cs416_tanks.Geometry.{Geometry}
use cs416_tanks.Update.{Update, dead_player, timestamp}
use cs416_tanks.Client.Peers.{
  PeerRecord, Message, Peers, send, remove_peer, send_each, notify_failure, recover,
}

module _ (g : Geometry) where
  -- Every peer stands under its own id.
  abbrev pub Keyed : Peers g → Type 0
  Keyed p = (j : ℕ) (r : PeerRecord g) → lookup j p.peers ≡ some r → r.client_id ≡ j

  abbrev pub death_of : Time → ℕ → ℕ → Update g
  death_of now nonce id = timestamp g (dead_player g id 0) now nonce

  pub remove_peer-peers :
      (now : Time) (nonce id : ℕ) (p : Peers g)
      → (lookup id (remove_peer g now nonce id p).peers ≡ none)
        × ((j : ℕ) → j ≢ id → lookup j (remove_peer g now nonce id p).peers ≡ lookup j p.peers)
  unfolding remove_peer
  remove_peer-peers now nonce id p = elim (Option-cases (lookup id p.peers)) [
    | inl e ↦ rw (e, remove_peer) (e, λ j h. refl)
    | inr (r, e) ↦
        rw (e, remove_peer)
          (
            ground (arith, lookup-erase id id p.peers),
            λ j h. ground (arith, lookup-erase j id p.peers),
          )
  ]

  remove_peer-updates :
      (now : Time) (nonce id : ℕ) (p : Peers g)
      → (remove_peer g now nonce id p).record_updates ≡ (
          if contains id p.peers
          then p.record_updates ++ death_of now nonce id ∷ []
          else p.record_updates)
  unfolding remove_peer contains
  remove_peer-updates now nonce id p = ground arith

  -- The two connections to a peer that is known.
  abbrev pub connections_of : ℕ → Peers g → List ℕ
  connections_of id p = elim (lookup id p.peers) [ none ↦ [] | some r ↦ r.api ∷ r.rpc ∷ [] ]

  remove_peer-closed :
      (now : Time) (nonce id : ℕ) (p : Peers g)
      → (remove_peer g now nonce id p).closed ≡ p.closed ++ connections_of id p
  unfolding remove_peer
  remove_peer-closed now nonce id p = ground (arith, append-nil p.closed)

  remove_peer-outbox :
      (now : Time) (nonce id : ℕ) (p : Peers g) → (remove_peer g now nonce id p).outbox ≡ p.outbox
  unfolding remove_peer
  remove_peer-outbox now nonce id p = ground arith

  pub send_each-rest :
      (m : Message g) (ids : List ℕ) (p : Peers g)
      → ((send_each g m ids p).peers ≡ p.peers)
        × ((send_each g m ids p).record_updates ≡ p.record_updates)
        × ((send_each g m ids p).closed ≡ p.closed)
  unfolding send_each
  send_each-rest m [] p = (refl, refl, refl)
  send_each-rest m (id ∷ ids) p = elim (Option-cases (lookup id p.peers)) [
    | inl e ↦ rw (e, send_each) (send_each-rest m ids p)
    | inr (r, e) ↦ rw (e, send_each) (send_each-rest m ids (send g r.client_id m p))
  ]

  send_each-keeps :
      (m : Message g) (ids : List ℕ) (p : Peers g) (x : ℕ × Message g)
      → In x p.outbox
      → In x (send_each g m ids p).outbox
  unfolding send_each
  send_each-keeps m [] p x v = v
  send_each-keeps m (id ∷ ids) p x v = elim (Option-cases (lookup id p.peers)) [
    | inl e ↦ rw (e, send_each) (send_each-keeps m ids p x v)
    | inr (r, e) ↦
        rw (e, send_each)
          (send_each-keeps m ids (send g r.client_id m p) x
            (In-append_left x p.outbox ((r.client_id, m) ∷ []) v))
  ]

  send_each-reaches :
      (m : Message g) (ids : List ℕ) (p : Peers g) (j : ℕ) (r : PeerRecord g)
      → In j ids
      → lookup j p.peers ≡ some r
      → In (r.client_id, m) (send_each g m ids p).outbox
  unfolding send_each
  send_each-reaches m [] p j r v known = absurd v
  send_each-reaches m (id ∷ ids) p j r (inl e) known =
      rw (ap (λ k. lookup k p.peers) (sym e) ∙ known, send_each)
        (send_each-keeps m ids (send g r.client_id m p) (r.client_id, m)
          (In-append_right (r.client_id, m) p.outbox ((r.client_id, m) ∷ []) (inl refl)))
  send_each-reaches m (id ∷ ids) p j r (inr v) known = elim (Option-cases (lookup id p.peers)) [
    | inl e ↦ rw (e, send_each) (send_each-reaches m ids p j r v known)
    | inr (s, e) ↦ rw (e, send_each) (send_each-reaches m ids (send g s.client_id m p) j r v known)
  ]

  remove_peer-none :
      (now : Time) (nonce id : ℕ) (p : Peers g) (j : ℕ)
      → lookup j p.peers ≡ none
      → lookup j (remove_peer g now nonce id p).peers ≡ none
  unfolding remove_peer
  remove_peer-none now nonce id p j h = ground (arith, lookup-erase j id p.peers)

  pub remove_peer-Keyed :
      (now : Time) (nonce id : ℕ) (p : Peers g) → Keyed p → Keyed (remove_peer g now nonce id p)
  unfolding remove_peer
  remove_peer-Keyed now nonce id p keyed = elim (Option-cases (lookup id p.peers)) [
    | inl e ↦ rw (e, remove_peer) keyed
    | inr (s, e) ↦
        rw (e, remove_peer) λ j r known. keyed j r (ground (arith, lookup-erase j id p.peers))
  ]

  pub send_each-told :
      (m : Message g) (ids : List ℕ) (p : Peers g) (j : ℕ)
      → Keyed p
      → In j ids
      → contains j p.peers ≡ true
      → In (j, m) (send_each g m ids p).outbox
  unfolding contains
  send_each-told m ids p j keyed v known = elim (Option-cases (lookup j p.peers)) [
    | inl e ↦ absurd (cc (rw (e, contains) at known))
    | inr (r, e) ↦ rw⁻¹ (keyed j r e) (send_each-reaches m ids p j r v e)
  ]

  -- What a notice does at the client that gets it, whatever hops it has left: the peer is not known
  -- afterwards and the others are as before; its death is put down and its two connections are
  -- closed if and only if it was known; and if there are hops left, a notice with one hop less goes
  -- to each remaining peer that the loop visits, and if there are none, nothing is sent.
  pub notify_failure_lem :
      (now : Time) (nonce id : ℕ) (order : List ℕ) (ttl : ℤ) (p : Peers g)
      → Keyed p
      → let q = notify_failure g now nonce order id ttl p in
        (lookup id q.peers ≡ none)
        × ((j : ℕ) → j ≢ id → lookup j q.peers ≡ lookup j p.peers)
        × (q.record_updates ≡ (
            if contains id p.peers
            then p.record_updates ++ death_of now nonce id ∷ []
            else p.record_updates))
        × (q.closed ≡ p.closed ++ connections_of id p)
        × (((ltb_ℤ (pos 0) ttl ≡ true)
              × ((j : ℕ)
                  → In j order
                  → contains j q.peers ≡ true
                  → In (j, Message.failure id (ttl -ℤ pos 1)) q.outbox))
            ⊎ ((ltb_ℤ (pos 0) ttl ≡ false) × (q.outbox ≡ p.outbox)))
  unfolding notify_failure
  notify_failure_lem now nonce id order ttl p keyed = elim (Bool-cases (ltb_ℤ (pos 0) ttl)) [
    | inl e ↦
        rw (e, notify_failure)
          (
            ap (lookup id) rest.0 ∙ gone.0,
            (λ j h. ap (lookup j) rest.0 ∙ gone.1 j h),
            rest.1 ∙ remove_peer-updates now nonce id p,
            rest.2 ∙ remove_peer-closed now nonce id p,
            inl (
              refl,
              λ j v known.
                  send_each-told (Message.failure id (ttl -ℤ pos 1)) order
                    (remove_peer g now nonce id p) j (remove_peer-Keyed now nonce id p keyed) v
                    (sym (ap (contains j) rest.0) ∙ known),
            ),
          )
    | inr e ↦
        rw (e, notify_failure)
          (
            gone.0,
            gone.1,
            remove_peer-updates now nonce id p,
            remove_peer-closed now nonce id p,
            inr (refl, remove_peer-outbox now nonce id p),
          )
  ]
    where
      gone :
          (lookup id (remove_peer g now nonce id p).peers ≡ none)
          × ((j : ℕ) → j ≢ id → lookup j (remove_peer g now nonce id p).peers ≡ lookup j p.peers)
      gone = remove_peer-peers now nonce id p

      rest :
          let m = Message.failure id (ttl -ℤ pos 1) in
          ((send_each g m order (remove_peer g now nonce id p)).peers
            ≡ (remove_peer g now nonce id p).peers)
          × ((send_each g m order (remove_peer g now nonce id p)).record_updates
              ≡ (remove_peer g now nonce id p).record_updates)
          × ((send_each g m order (remove_peer g now nonce id p)).closed
              ≡ (remove_peer g now nonce id p).closed)
      rest = send_each-rest (Message.failure id (ttl -ℤ pos 1)) order (remove_peer g now nonce id p)

  recover-none :
      (stamp : ℕ → Time × ℕ) (order : List ℕ) (p : Peers g) (j : ℕ)
      → lookup j p.peers ≡ none
      → lookup j (recover g stamp order p).peers ≡ none
  unfolding recover
  recover-none stamp [] p j h = h
  recover-none stamp (id ∷ ids) p j h =
      recover-none stamp ids (remove_peer g (stamp id).0 (stamp id).1 id p) j
        (remove_peer-none (stamp id).0 (stamp id).1 id p j h)

  -- `Recover` forgets every peer that its loop visits, and keeps the others.
  pub recover_lem :
      (stamp : ℕ → Time × ℕ) (order : List ℕ) (p : Peers g) (j : ℕ)
      → (In j order → lookup j (recover g stamp order p).peers ≡ none)
        × (¬ In j order → lookup j (recover g stamp order p).peers ≡ lookup j p.peers)
  unfolding recover
  recover_lem stamp [] p j = ((λ v. absurd v), λ _. refl)
  recover_lem stamp (id ∷ ids) p j =
      let step = remove_peer-peers (stamp id).0 (stamp id).1 id p in
      let later = recover_lem stamp ids (remove_peer g (stamp id).0 (stamp id).1 id p) j in
      (
        λ v. elim v [
          | inl e ↦
              recover-none stamp ids (remove_peer g (stamp id).0 (stamp id).1 id p) j
                (ap (λ k. lookup k (remove_peer g (stamp id).0 (stamp id).1 id p).peers) e ∙ step.0)
          | inr w ↦ later.0 w
        ],
        λ out. later.1 (λ w. out (inr w)) ∙ step.1 j (λ e. out (inl e)),
      )
