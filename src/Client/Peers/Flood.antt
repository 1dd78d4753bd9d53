-- ===== src/Client/Peers/Flood.antt =====
-- How a failure notice spreads from client to client over UDP, which may lose a message and may
-- deliver in any order.
use cs416_tanks.Base.{
  ℕ, suc, zero, ◌==◌, inl, inr, true, false, ◌≡◌, refl, ap, ◌∙◌, List, [], ◌∷◌, ◌++◌, length,
  lookup, nat_eq, Option, none, some, arith, ◌≤◌, ◌+◌, ◌*◌, Option-cases, if◌then◌else◌,
}
use cs416_tanks.Base.Int.{ℤ, pos_part, pos, negsuc, ◌-ℤ◌, ltb_ℤ, int_laws}
use native.Mathlib.Nat.{mul-le-mul_right}
use cs416_tanks.Clock.{Time}
use cs416_tanks.Geometry.{Geometry}
use cs416_tanks.Client.Peers.{
  Message, Peers, send, remove_peer, send_each, notify_failure, handle_disconnection,
  failure_notification_ttl,
}

-- The most deliveries that a notice with `n` further hops can lead to, itself included, if no client
-- has more than `d` peers.
abbrev pub reach : ℕ → ℕ → ℕ
reach d zero = 1
reach d (suc n) = 1 + d * reach d n

module _ (g : Geometry) where
  -- The clients by their ids, and the messages under way with their destinations.
  pub record Network : Type 0 where
    pub clients : ℕ → Peers g
    pub in_flight : List (ℕ × Message g)

  abbrev pub put_client : ℕ → Peers g → (ℕ → Peers g) → ℕ → Peers g
  put_client id p clients i = if i == id then p else clients i

  abbrev pub emptied : Peers g → Peers g
  emptied p = record p { outbox = [] }

  -- The client `dest` has become `p`, and its messages go out.
  abbrev pub sent_on : ℕ → Peers g → (ℕ → Peers g) → List (ℕ × Message g) → Network
  sent_on dest p clients ms = record {
    clients = put_client dest p clients;
    in_flight = ms ++ p.outbox;
  }

  -- A notice reaches `dest` or is lost. Its handler visits at most `d` peers.
  pub data FloodStep (d : ℕ) : Network → Network → Type 0 where
    deliver :
        (xs ys : List (ℕ × Message g)) (clients : ℕ → Peers g) (dest id nonce : ℕ) (ttl : ℤ)
        (now : Time) (order : List ℕ)
        → length order ≤ d
        → FloodStep d
            (record { clients = clients; in_flight = xs ++ (dest, Message.failure id ttl) ∷ ys })
            (sent_on dest
              (notify_failure g now nonce order id ttl (emptied (clients dest)))
              clients
              (xs ++ ys))
    lose :
        (xs ys : List (ℕ × Message g)) (clients : ℕ → Peers g) (m : ℕ × Message g)
        → FloodStep d
            (record { clients = clients; in_flight = xs ++ m ∷ ys })
            (record { clients = clients; in_flight = xs ++ ys })

  -- A run of that many steps.
  pub data FloodRun (d : ℕ) : ℕ → Network → Network → Type 0 where
    stay : (n : Network) → FloodRun d 0 n n
    onward : (k : ℕ) (a b c : Network) → FloodStep d a b → FloodRun d k b c → FloodRun d (suc k) a c

  abbrev pub weight : ℕ → Message g → ℕ
  weight d (Message.failure id ttl) = reach d (pos_part ttl)
  weight d (Message.update u) = 1
  weight d Message.introduction = 1

  abbrev pub total : ℕ → List (ℕ × Message g) → ℕ
  total d [] = 0
  total d (m ∷ ms) = weight d m.1 + total d ms

  total-append :
      (d : ℕ) (xs ys : List (ℕ × Message g)) → total d (xs ++ ys) ≡ total d xs + total d ys
  total-append d [] ys = omega arith
  total-append d (x ∷ xs) ys = omega (arith, total-append d xs ys)

  reach_pos : (d n : ℕ) → 1 ≤ reach d n
  reach_pos d zero = omega arith
  reach_pos d (suc n) = omega arith

  weight_pos : (d : ℕ) (m : Message g) → 1 ≤ weight d m
  weight_pos d (Message.failure id ttl) = reach_pos d (pos_part ttl)
  weight_pos d (Message.update u) = omega arith
  weight_pos d Message.introduction = omega arith

  send_each-total :
      (d : ℕ) (m : Message g) (ids : List ℕ) (p : Peers g)
      → total d (send_each g m ids p).outbox ≤ total d p.outbox + length ids * weight d m
  unfolding send_each
  send_each-total d m [] p = omega arith
  send_each-total d m (id ∷ ids) p = elim (Option-cases (lookup id p.peers)) [
    | inl e ↦ rw (e, send_each) (omega (arith, send_each-total d m ids p))
    | inr (r, e) ↦
        rw (e, send_each)
          (omega (
            arith,
            send_each-total d m ids (send g r.client_id m p),
            total-append d p.outbox ((r.client_id, m) ∷ []),
          ))
  ]

  remove_peer-outbox :
      (now : Time) (nonce id : ℕ) (p : Peers g) → (remove_peer g now nonce id p).outbox ≡ p.outbox
  unfolding remove_peer
  remove_peer-outbox now nonce id p = ground arith

  -- A notice to each of at most `d` peers, from a client that has nothing else to send.
  spread :
      (d : ℕ) (m : Message g) (now : Time) (nonce id : ℕ) (order : List ℕ) (p : Peers g)
      → length order ≤ d
      → p.outbox ≡ []
      → total d (send_each g m order (remove_peer g now nonce id p)).outbox ≤ d * weight d m
  spread d m now nonce id order p few empty = omega (
    arith,
    send_each-total d m order (remove_peer g now nonce id p),
    ap (total d) (remove_peer-outbox now nonce id p ∙ empty),
    mul-le-mul_right (weight d m) few,
  )

  passes : (n : ℕ) → ltb_ℤ (pos 0) (pos (suc n)) ≡ true
  passes n = ground arith

  stops : (n : ℕ) → ltb_ℤ (pos 0) (negsuc n) ≡ false
  stops n = ground arith

  one_less : (n : ℕ) → (pos (suc n) -ℤ pos 1) ≡ pos n
  one_less n = omega int_laws

  notify_failure-total :
      (d : ℕ) (now : Time) (nonce id : ℕ) (ttl : ℤ) (order : List ℕ) (p : Peers g)
      → length order ≤ d
      → p.outbox ≡ []
      → 1 + total d (notify_failure g now nonce order id ttl p).outbox ≤ reach d (pos_part ttl)
  unfolding notify_failure
  notify_failure-total d now nonce id (pos zero) order p few empty =
      omega (arith, ap (total d) (remove_peer-outbox now nonce id p ∙ empty))
  notify_failure-total d now nonce id (pos (suc n)) order p few empty =
      rw (passes n, notify_failure)
        (rw (one_less n)
          (omega (arith, spread d (Message.failure id (pos n)) now nonce id order p few empty)))
  notify_failure-total d now nonce id (negsuc n) order p few empty =
      rw (stops n, notify_failure)
        (omega (arith, ap (total d) (remove_peer-outbox now nonce id p ∙ empty)))

  -- Each step uses up some of the weight under way.
  step-total :
      (d : ℕ) (a b : Network) → FloodStep d a b → 1 + total d b.in_flight ≤ total d a.in_flight
  step-total d _ _ (deliver xs ys clients dest id nonce ttl now order few) = omega (
    arith,
    total-append d xs ((dest, Message.failure id ttl) ∷ ys),
    total-append d xs ys,
    total-append d (xs ++ ys)
        (notify_failure g now nonce order id ttl (emptied (clients dest))).outbox,
    notify_failure-total d now nonce id ttl order (emptied (clients dest)) few refl,
  )
  step-total d _ _ (lose xs ys clients m) =
      omega (arith, total-append d xs (m ∷ ys), total-append d xs ys, weight_pos d m.1)

  run-total :
      (d k : ℕ) (a b : Network) → FloodRun d k a b → k + total d b.in_flight ≤ total d a.in_flight
  run-total d _ _ _ (stay n) = omega arith
  run-total d _ _ _ (onward k a b c step rest) =
      omega (arith, step-total d a b step, run-total d k b c rest)

  -- If a client that has nothing else to send finds a peer gone, and no client ever visits more than
  -- `d` peers, the notices cause at most this many deliveries and losses, in any order.
  pub flood_ends :
      (d k nonce id : ℕ) (now : Time) (order : List ℕ) (p q : Peers g) (clients : ℕ → Peers g)
      (after : Network)
      → handle_disconnection g true now nonce order id (emptied p) ≡ some q
      → length order ≤ d
      → FloodRun d k (record { clients = clients; in_flight = q.outbox }) after
      → k ≤ d * (1 + d * (1 + d * (1 + d)))
  unfolding handle_disconnection
  flood_ends d k nonce id now order p q clients after h few run = omega (
    arith,
    run-total d k (record { clients = clients; in_flight = q.outbox }) after run,
    same,
    three_hops,
    spread d (Message.failure id failure_notification_ttl) now nonce id order (emptied p) few refl,
  )
    where
      same :
          total d
            (send_each g
              (Message.failure id failure_notification_ttl)
              order
              (remove_peer g now nonce id (emptied p))).outbox
          ≡ total d q.outbox
      same = ap (λ (o : Option (Peers g)). elim o [ none ↦ 0 | some r ↦ total d r.outbox ]) h

      three_hops :
          d * weight d (Message.failure id failure_notification_ttl)
          ≡ d * (1 + d * (1 + d * (1 + d)))
      three_hops = ap (λ n. d * (1 + d * (1 + d * (1 + n)))) (omega arith)
