-- ===== src/Client/Wire.antt =====
-- clientlib/rpc.go and clientlib/clientlib.go: the messages that clients send one another over UDP,
-- the stubs that send them and the listener that takes them. `encoding/gob` and GoVector, which
-- turn a value into bytes and back, are a parameter.
pub mod Packets
pub mod Calls
use cs416_tanks.Base.{
  ℕ, Bool, true, false, List, [], ◌∷◌, take, Option, none, some, ◌==◌, nat_eq, if◌then◌else◌,
}
use cs416_tanks.Base.Int.{ℤ, pos, negsuc}
use cs416_tanks.Base.Bytes.{Bytes}

-- `Encode` and `Decode` of gob into a fresh variable, `PrepareSend` and `UnpackReceive` of GoVector.
pub record Codec (A : Type 0) : Type 0 where
  pub encode : A → Option Bytes
  pub decode : Bytes → Option A
  pub prepare_send : A → Bytes
  pub unpack_receive : Bytes → A

abbrev pub buffer_size : ℕ
buffer_size = 1024

module _ {A : Type 0} (c : Codec A) (log_updates : Bool) where
  abbrev pub packet : A → Option Bytes
  packet msg = if log_updates then some (c.prepare_send msg) else c.encode msg

  -- `SendMessage`: the packet that was written, or `none` for an error; `written` is whether the
  -- write succeeds.
  unfoldable pub send_message : Bool → A → Option Bytes
  send_message written msg = elim (packet msg) [
    | none ↦ none
    | some buf ↦ if written then some buf else none
  ]

  -- `ReceiveMessage`, from a packet or an error of the read. A packet is cut to the buffer.
  unfoldable pub receive_message : Option Bytes → Option A
  receive_message none = none
  receive_message (some buf) =
      if log_updates
      then some (c.unpack_receive (take buffer_size buf))
      else c.decode (take buffer_size buf)

pub record ClientReply : Type 0 where
  pub kind : ℤ
  pub error : Bytes

abbrev pub is_kind : ℕ → ℤ → Bool
is_kind k (pos n) = n == k
is_kind k (negsuc n) = false

-- `OKAY` and `ERROR`
abbrev pub okay : ℕ
okay = 0

abbrev pub error_reply : ℕ
error_reply = 1

-- `UPDATE`, `FAILURE` and `REGISTER`
abbrev pub update_kind : ℕ
update_kind = 0

abbrev pub failure_kind : ℕ
failure_kind = 1

abbrev pub register_kind : ℕ
register_kind = 2

-- What a call comes to: no error, an error of the transport, an error that the peer reports, a panic.
pub data CallEnd : Type 0 where
  succeeded broken : CallEnd
  refused : Bytes → CallEnd
  panicked : CallEnd

unfoldable pub reply_end : ClientReply → CallEnd
reply_end r =
    if is_kind okay r.kind
    then CallEnd.succeeded
    else if is_kind error_reply r.kind
    then refused r.error
    else CallEnd.panicked

-- The reply with the error, if one occurred.
unfoldable pub reply_of : Option Bytes → ClientReply
reply_of none = record { kind = pos okay; error = [] }
reply_of (some e) = record { kind = pos error_reply; error = e }

module _ (U : Type 0) where
  pub record ClientMessage : Type 0 where
    pub kind : ℤ
    pub client_id : ℕ
    pub update : U
    pub address : Bytes
    pub tcp_address : Bytes
    pub ttl : ℤ

  -- The interface `ClientAPI`, of handlers that change a state and answer an error or `none`.
  pub record ClientApi (S : Type 0) : Type 0 where
    pub notify_update : ℕ → U → S → S × Option Bytes
    pub notify_failure : ℕ → ℤ → S → S × Option Bytes
    pub register : ℕ → Bytes → Bytes → S → S × Option Bytes

-- What `Accept` leaves: the state of the table, the reply that was sent, and whether it answers nil.
pub record Accepted (S : Type 0) : Type 0 where
  pub state : S
  pub reply : Option Bytes
  pub is_nil : Bool

abbrev pub is_none : Option Bytes → Bool
is_none none = true
is_none (some e) = false

abbrev pub is_sent : Option Bytes → Bool
is_sent none = false
is_sent (some b) = true

module _ {U : Type 0} (zero_update : U) where
  -- The messages of `NotifyUpdate`, `NotifyFailure` and `Register` of `ClientAPIRemote`.
  unfoldable pub update_message : ℕ → U → ClientMessage U
  update_message id u = record {
    kind = pos update_kind;
    client_id = id;
    update = u;
    address = [];
    tcp_address = [];
    ttl = pos 0;
  }

  unfoldable pub failure_message : ℕ → ℤ → ClientMessage U
  failure_message id hops = record {
    kind = pos failure_kind;
    client_id = id;
    update = zero_update;
    address = [];
    tcp_address = [];
    ttl = hops;
  }

  unfoldable pub register_message : ℕ → Bytes → Bytes → ClientMessage U
  register_message id udp tcp = record {
    kind = pos register_kind;
    client_id = id;
    update = zero_update;
    address = udp;
    tcp_address = tcp;
    ttl = pos 0;
  }

module _ {U : Type 0} (m : Codec (ClientMessage U)) (r : Codec ClientReply)
    (log_updates : Bool) where
  -- `doAPICallAsync`, by which all three stubs send
  unfoldable pub do_api_call_async : Bool → ClientMessage U → Option Bytes
  do_api_call_async written msg = send_message m log_updates written msg

  -- `doAPICall`: the packet that was written, and the end of the call when `answer` is what the read
  -- then gives.
  unfoldable pub do_api_call : Bool → ClientMessage U → Option Bytes → CallEnd
  do_api_call written msg answer = elim (send_message m log_updates written msg) [
    | none ↦ CallEnd.broken
    | some buf ↦ elim (receive_message r log_updates answer) [
      | none ↦ CallEnd.broken
      | some reply ↦ reply_end reply
    ]
  ]

module _ {S : Type 0} (r : Codec ClientReply) (log_updates : Bool) where
  unfoldable pub send_reply : Bool → S × Option Bytes → Accepted S
  send_reply written (s, e) =
      let sent = send_message r log_updates written (reply_of e) in
      record { state = s; reply = sent; is_nil = is_sent sent }

abbrev pub no_reply : {S : Type 0} → S × Option Bytes → Accepted S
no_reply (s, e) = record { state = s; reply = none; is_nil = is_none e }

module _ {U S : Type 0} (m : Codec (ClientMessage U)) (r : Codec ClientReply)
    (log_updates : Bool) where
  -- The `switch` of `Accept`
  unfoldable pub process : ClientApi U S → Bool → ClientMessage U → S → Accepted S
  process table written msg s =
      if is_kind update_kind msg.kind
      then no_reply (table.notify_update msg.client_id msg.update s)
      else if is_kind failure_kind msg.kind
      then no_reply (table.notify_failure msg.client_id msg.ttl s)
      else if is_kind register_kind msg.kind
      then send_reply r log_updates written
          (table.register msg.client_id msg.address msg.tcp_address s)
      else send_reply r log_updates written (s, none)

  unfoldable pub accept : ClientApi U S → Bool → Option Bytes → S → Accepted S
  accept table written read s = elim (receive_message m log_updates read) [
    | none ↦ record { state = s; reply = none; is_nil = false }
    | some msg ↦ process table written msg s
  ]
