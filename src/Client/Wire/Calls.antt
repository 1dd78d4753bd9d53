-- ===== src/Client/Wire/Calls.antt =====
-- A call of a peer's handler over the wire, from the stub to the listener and back.
use cs416_tanks.Base.{
  Bool, true, ◌||◌, ◌≡◌, ◌≤◌, refl, sym, ap, ◌∙◌, length, Option, none, some, nat_eq, arith,
  if◌then◌else◌,
}
use cs416_tanks.Base.Int.{ℤ}
use cs416_tanks.Base.Bytes.{Bytes}
use cs416_tanks.Client.Wire.{
  Codec, buffer_size, send_message, receive_message, ClientReply, is_kind, update_kind,
  failure_kind, register_kind, CallEnd, refused, reply_end, reply_of, ClientMessage, ClientApi,
  do_api_call, send_reply, process, accept,
}
use cs416_tanks.Client.Wire.Packets.{IsFaithful, send_receive}

-- What the caller of a handler should see.
abbrev pub call_end : Option Bytes → CallEnd
call_end none = CallEnd.succeeded
call_end (some e) = refused e

-- `UPDATE` and `FAILURE`
abbrev pub is_silent : ℤ → Bool
is_silent k = is_kind update_kind k || is_kind failure_kind k

-- What the caller should see when it reads a reply, or none in time.
abbrev pub seen_end : Option Bytes → Option Bytes → CallEnd
seen_end e none = CallEnd.broken
seen_end e (some ans) = call_end e

reply_end-of : (e : Option Bytes) → reply_end (reply_of e) ≡ call_end e
unfolding reply_end reply_of
reply_end-of none = refl
reply_end-of (some e) = refl

module _ {U S : Type 0} (table : ClientApi U S) where
  -- The handler that the kind of a message stands for.
  abbrev pub handle : ClientMessage U → S → S × Option Bytes
  handle msg s =
      if is_kind update_kind msg.kind
      then table.notify_update msg.client_id msg.update s
      else if is_kind failure_kind msg.kind
      then table.notify_failure msg.client_id msg.ttl s
      else if is_kind register_kind msg.kind
      then table.register msg.client_id msg.address msg.tcp_address s
      else (s, none)

module _ {U S : Type 0} (m : Codec (ClientMessage U)) (r : Codec ClientReply)
    (log_updates written : Bool) (table : ClientApi U S) where
  process-state :
      (msg : ClientMessage U) (s : S)
      → (process m r log_updates table written msg s).state ≡ (handle table msg s).0
  unfolding process send_reply
  process-state msg s = ground arith

  process-reply :
      (msg : ClientMessage U) (s : S)
      → (process m r log_updates table written msg s).reply ≡ (
          if is_silent msg.kind
          then none
          else send_message r log_updates written (reply_of (handle table msg s).1))
  unfolding process send_reply
  process-reply msg s = ground arith

  pub accept-process :
      (msg : ClientMessage U) (buf : Bytes) (sent : Bool) (s : S)
      → IsFaithful m
      → send_message m log_updates sent msg ≡ some buf
      → length buf ≤ buffer_size
      → accept m r log_updates table written (some buf) s
        ≡ process m r log_updates table written msg s
  unfolding accept
  accept-process msg buf sent s faithful e fits =
      rw (send_receive m log_updates sent msg buf faithful e fits, accept) refl

  sent_reply :
      (msg : ClientMessage U) (s : S) (ans : Bytes)
      → (process m r log_updates table written msg s).reply ≡ some ans
      → send_message r log_updates written (reply_of (handle table msg s).1) ≡ some ans
  sent_reply msg s ans e = ground (arith, process-reply msg s)

  seen :
      (msg : ClientMessage U) (buf : Bytes) (s : S) (reply : Option Bytes)
      → IsFaithful r
      → send_message m log_updates true msg ≡ some buf
      → (process m r log_updates table written msg s).reply ≡ reply
      → ((ans : Bytes) → reply ≡ some ans → length ans ≤ buffer_size)
      → do_api_call m r log_updates true msg reply ≡ seen_end (handle table msg s).1 reply
  unfolding do_api_call receive_message
  seen msg buf s none fr sent e fits = rw (sent, do_api_call) refl
  seen msg buf s (some ans) fr sent e fits =
      rw (sent, do_api_call)
        (rw
          (
            send_receive r log_updates written (reply_of (handle table msg s).1) ans fr
                (sent_reply msg s ans e) (fits ans refl),
            do_api_call,
          )
          (reply_end-of (handle table msg s).1))

  -- With faithful encodings and packets that fit in the buffer, a message that was sent is handled
  -- by the peer's handler of its kind, whichever that is. The peer answers nothing to an update or a
  -- failure notice, and else a reply with the error of the handler, if it can write one. `doAPICall`
  -- returns that error, or nil if the handler has none; without a reply it fails.
  pub api_call_lem :
      (msg : ClientMessage U) (buf : Bytes) (s : S)
      → IsFaithful m
      → IsFaithful r
      → send_message m log_updates true msg ≡ some buf
      → length buf ≤ buffer_size
      → ((ans : Bytes)
          → (accept m r log_updates table written (some buf) s).reply ≡ some ans
          → length ans ≤ buffer_size)
      → let a = accept m r log_updates table written (some buf) s in
        (a.state ≡ (handle table msg s).0)
        × (a.reply ≡ (
            if is_silent msg.kind
            then none
            else send_message r log_updates written (reply_of (handle table msg s).1)))
        × (do_api_call m r log_updates true msg a.reply ≡ seen_end (handle table msg s).1 a.reply)
  api_call_lem msg buf s fm fr sent fits fits' =
      let same = accept-process msg buf true s fm sent fits in
      (
        ap (λ a. a.state) same ∙ process-state msg s,
        ap (λ a. a.reply) same ∙ process-reply msg s,
        seen msg buf s _ fr sent (sym (ap (λ a. a.reply) same)) fits',
      )
