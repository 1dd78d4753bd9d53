-- ===== src/Client/Peers/Worker.antt =====
-- `ListenerWorker` of client/peers.go: the listener of clientlib/clientlib.go over the packets that
-- it reads.
use cs416_tanks.Base.{
  ℕ, Bool, ◌≡◌, ◌≤◌, refl, inl, inr, List, [], ◌∷◌, map, length, Option, none, some, All,
  Bool-cases, Option-cases,
}
use cs416_tanks.Base.Bytes.{Bytes}
use cs416_tanks.Clock.{Time}
use cs416_tanks.Geometry.{Geometry}
use cs416_tanks.Update.{Update}
use cs416_tanks.Client.Wire.{
  Codec, buffer_size, ClientReply, ClientMessage, ClientApi, receive_message, update_kind,
  failure_kind, register_kind, is_kind, do_api_call_async, send_reply, process, accept,
}
use cs416_tanks.Client.Wire.Packets.{IsFaithful}
use cs416_tanks.Client.Peers.{Message, Peers}
use cs416_tanks.Client.Peers.Removal.{Keyed}
use cs416_tanks.Client.Peers.Keys.{same-Keyed, notify_failure-Keyed, register-Keyed}
use cs416_tanks.Client.Peers.Listener.{
  notify_update, client_listener, call_message, hear, accept_lem,
}

-- A round: the reading of the clock, the nonce and the order of the peers for the handlers, whether a
-- reply can be written, and what the read gives.
pub record Round : Type 0 where
  pub now : Time
  pub nonce : ℕ
  pub order : List ℕ
  pub written : Bool
  pub read : Option Bytes

module _ (g : Geometry) where
  -- What a client `me` at the given addresses has sent.
  pub record Post : Type 0 where
    pub me : ℕ
    pub udp : Bytes
    pub tcp : Bytes
    pub msg : Message g
    pub sent : Bool

module _ (g : Geometry) (dial : Bytes → Bytes → Option (ℕ × ℕ)) (dial_error : Bytes)
    (m : Codec (ClientMessage (Update g))) (r : Codec ClientReply) (log_updates : Bool) where
  abbrev listener : Round → ClientApi (Update g) (Peers g)
  listener x = client_listener g x.now x.nonce x.order dial dial_error

  -- The rounds of the worker; an error of `Accept` is only logged.
  unfoldable pub listener_worker : List Round → Peers g → Peers g
  listener_worker [] p = p
  listener_worker (x ∷ xs) p =
      listener_worker xs (accept m r log_updates (listener x) x.written x.read p).state

  process-Keyed :
      (x : Round) (msg : ClientMessage (Update g)) (p : Peers g)
      → Keyed g p
      → Keyed g (process m r log_updates (listener x) x.written msg p).state
  unfolding process client_listener notify_update send_reply
  process-Keyed x msg p keyed = elim (Bool-cases (is_kind update_kind msg.kind)) [
    | inl e ↦
        rw (e, process)
          (same-Keyed g p
            (notify_update g x.now x.nonce x.order dial dial_error msg.client_id msg.update p) refl
            keyed)
    | inr e ↦ elim (Bool-cases (is_kind failure_kind msg.kind)) [
      | inl e' ↦
          rw (e, e', process)
            (notify_failure-Keyed g x.now x.nonce msg.client_id x.order msg.ttl p keyed)
      | inr e' ↦ elim (Bool-cases (is_kind register_kind msg.kind)) [
        | inl e'' ↦
            rw (e, e', e'', process)
              (register-Keyed g (dial msg.address msg.tcp_address) x.now msg.client_id p keyed)
        | inr e'' ↦ rw (e, e', e'', process) keyed
      ]
    ]
  ]

  accept-Keyed :
      (x : Round) (p : Peers g)
      → Keyed g p
      → Keyed g (accept m r log_updates (listener x) x.written x.read p).state
  unfolding accept
  accept-Keyed x p keyed = elim (Option-cases (receive_message m log_updates x.read)) [
    | inl e ↦ rw (e, accept) keyed
    | inr (msg, e) ↦ rw (e, accept) (process-Keyed x msg p keyed)
  ]

  pub listener_worker-Keyed :
      (xs : List Round) (p : Peers g) → Keyed g p → Keyed g (listener_worker xs p)
  unfolding listener_worker
  listener_worker-Keyed [] p keyed = keyed
  listener_worker-Keyed (x ∷ xs) p keyed = listener_worker-Keyed xs _ (accept-Keyed x p keyed)

  module _ (zero_update : Update g) where
    -- What a round reads: nothing that is a message, or a post that fits in the buffer.
    pub data Arrives (x : Round) : Option (Post g) → Type 0 where
      noise : receive_message m log_updates x.read ≡ none → Arrives x none
      intact :
          (q : Post g) (buf : Bytes)
          → do_api_call_async m r log_updates q.sent
              (call_message g zero_update q.me q.udp q.tcp q.msg)
            ≡ some buf
          → length buf ≤ buffer_size
          → x.read ≡ some buf
          → Arrives x (some q)

    abbrev pub hear_post : Round → Option (Post g) → Peers g → Peers g
    hear_post x none p = p
    hear_post x (some q) p = hear g x.now x.nonce x.order dial dial_error q.me q.udp q.tcp q.msg p

    abbrev pub hear_all : List (Round × Option (Post g)) → Peers g → Peers g
    hear_all [] p = p
    hear_all ((x, o) ∷ xs) p = hear_all xs (hear_post x o p)

    accept-hear_post :
        (x : Round) (o : Option (Post g)) (p : Peers g)
        → IsFaithful m
        → Arrives x o
        → (accept m r log_updates (listener x) x.written x.read p).state ≡ hear_post x o p
    unfolding accept
    accept-hear_post x _ p faithful (noise e) = rw (e, accept) refl
    accept-hear_post x _ p faithful (intact q buf posted fits read) = rw read (
        accept_lem g x.now x.nonce x.order dial dial_error m r log_updates x.written zero_update
          q.me q.udp q.tcp q.msg buf q.sent p faithful posted fits)

    -- With a faithful encoding: whatever packets `ListenerWorker` reads, each of them noise or a
    -- message that a client has posted and that fits in the buffer, it does in turn just what the
    -- handlers of the peer do with the messages, and nothing for the noise. Each peer still stands
    -- under its own id, if it did before.
    pub listener_worker_lem :
        (xs : List (Round × Option (Post g))) (p : Peers g)
        → IsFaithful m
        → All (λ x. Arrives x.0 x.1) xs
        → Keyed g p
        → (listener_worker (map (λ x. x.0) xs) p ≡ hear_all xs p)
          × Keyed g (listener_worker (map (λ x. x.0) xs) p)
    unfolding listener_worker
    listener_worker_lem xs p faithful arrive keyed =
        (in_turn xs p arrive, listener_worker-Keyed (map (λ x. x.0) xs) p keyed)
      where
        in_turn :
            (xs : List (Round × Option (Post g))) (p : Peers g)
            → All (λ x. Arrives x.0 x.1) xs
            → listener_worker (map (λ x. x.0) xs) p ≡ hear_all xs p
        in_turn [] p arrive = refl
        in_turn ((x, o) ∷ xs) p (arrive, rest) =
            rw (accept-hear_post x o p faithful arrive, listener_worker)
              (in_turn xs (hear_post x o p) rest)
