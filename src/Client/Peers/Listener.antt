-- ===== src/Client/Peers/Listener.antt =====
-- `ClientListener` of client/peers.go as the table of the listener of clientlib/clientlib.go: what a
-- message of a peer does once it is on the wire.
use cs416_tanks.Base.{
  ℕ, Bool, ◌≡◌, ◌≤◌, refl, ap, ◌∙◌, List, [], ◌∷◌, ◌++◌, length, contains, Option, none, some,
  nat_eq, if◌then◌else◌,
}
use cs416_tanks.Base.Bytes.{Bytes}
use cs416_tanks.Clock.{Time}
use cs416_tanks.Geometry.{Geometry}
use cs416_tanks.Update.{Update}
use cs416_tanks.Client.Wire.{
  Codec, buffer_size, ClientReply, ClientMessage, ClientApi, update_message, failure_message,
  register_message, send_reply, do_api_call_async, process, accept,
}
use cs416_tanks.Client.Wire.Packets.{IsFaithful}
use cs416_tanks.Client.Wire.Calls.{accept-process}
use cs416_tanks.Client.Peers.{
  Message, failure, update, introduction, Peers, notify_failure, register,
}

module _ (g : Geometry) where
  -- The message that the client `me` at the given addresses sends for each of its calls.
  unfoldable pub call_message : Update g → ℕ → Bytes → Bytes → Message g → ClientMessage (Update g)
  call_message zero_update me udp tcp (failure id hops) = failure_message zero_update id hops
  call_message zero_update me udp tcp (update u) = update_message zero_update me u
  call_message zero_update me udp tcp introduction = register_message zero_update me udp tcp

module _ (g : Geometry) (now : Time) (nonce : ℕ) (order : List ℕ)
    (dial : Bytes → Bytes → Option (ℕ × ℕ)) (dial_error : Bytes) where
  -- `NotifyUpdate`
  unfoldable pub notify_update : ℕ → Update g → Peers g → Peers g
  notify_update id u p = record p { record_updates = p.record_updates ++ u ∷ [] }

  -- The error that `Register` answers, with the peers that it finds.
  unfoldable pub register_error : Option (ℕ × ℕ) → ℕ → Peers g → Option Bytes
  register_error dialled id p =
      if contains id p.peers then none else elim dialled [ none ↦ some dial_error | some c ↦ none ]

  unfoldable pub client_listener : ClientApi (Update g) (Peers g)
  client_listener = record {
    notify_update = λ id u p. (notify_update id u p, none);
    notify_failure = λ id hops p. (notify_failure g now nonce order id hops p, none);
    register =
        λ id udp tcp p. (register g (dial udp tcp) now id p, register_error (dial udp tcp) id p);
  }

  -- What the peer should do with it.
  abbrev pub hear : ℕ → Bytes → Bytes → Message g → Peers g → Peers g
  hear me udp tcp (failure id hops) p = notify_failure g now nonce order id hops p
  hear me udp tcp (update u) p = notify_update me u p
  hear me udp tcp introduction p = register g (dial udp tcp) now me p

  module _ (m : Codec (ClientMessage (Update g))) (r : Codec ClientReply)
      (log_updates written : Bool) (zero_update : Update g) where
    process-hear :
        (me : ℕ) (udp tcp : Bytes) (msg : Message g) (p : Peers g)
        → (process m r log_updates client_listener written
            (call_message g zero_update me udp tcp msg)
            p).state
          ≡ hear me udp tcp msg p
    unfolding process client_listener call_message update_message failure_message register_message
        send_reply
    process-hear me udp tcp (failure id hops) p = refl
    process-hear me udp tcp (update u) p = refl
    process-hear me udp tcp introduction p = refl

    -- With a faithful encoding: a failure notice, an update or an introduction that a client has
    -- sent to a peer in a packet no longer than the buffer does at the peer's listener just what
    -- the peer's own handler does with it.
    pub accept_lem :
        (me : ℕ) (udp tcp : Bytes) (msg : Message g) (buf : Bytes) (sent : Bool) (p : Peers g)
        → IsFaithful m
        → do_api_call_async m r log_updates sent (call_message g zero_update me udp tcp msg)
          ≡ some buf
        → length buf ≤ buffer_size
        → (accept m r log_updates client_listener written (some buf) p).state
          ≡ hear me udp tcp msg p
    unfolding do_api_call_async
    accept_lem me udp tcp msg buf sent p faithful posted fits =
        ap (λ a. a.state)
          (accept-process m r log_updates written client_listener
            (call_message g zero_update me udp tcp msg) buf sent p faithful posted fits)
        ∙ process-hear me udp tcp msg p
