-- ===== src/Tests/Wire.antt =====
-- Messages between clients, with an encoding as numbers.
use cs416_tanks.Base.{
  ℕ, zero, suc, true, false, ◌≡◌, ◌≤◌, refl, sym, ap, subst, if◌then◌else◌, ◌∙◌, [], ◌∷◌, ◌++◌,
  take, drop, length, none, some, arith, nat_eq,
}
use cs416_tanks.Base.Int.{ℤ, pos, negsuc}
use cs416_tanks.Base.Bytes.{Bytes, codes}
use cs416_tanks.Update.{UpdateKind, Update}
use cs416_tanks.Client.Wire.{
  Codec, ClientReply, ClientMessage, ClientApi, refused, send_message, receive_message, accept,
  do_api_call, process, send_reply, reply_of, reply_end, buffer_size,
}
use cs416_tanks.Client.Wire.Packets.{IsFaithful}
use cs416_tanks.Client.Wire.Calls.{handle, is_silent, seen_end, api_call_lem}
use cs416_tanks.Tests.Grid.{grid, vec}

take-length : (xs ys : Bytes) → take (length xs) (xs ++ ys) ≡ xs
take-length [] ys = refl
take-length (x ∷ xs) ys = ap (λ t. x ∷ t) (take-length xs ys)

drop-length : (xs ys : Bytes) → drop (length xs) (xs ++ ys) ≡ ys
drop-length [] ys = refl
drop-length (x ∷ xs) ys = drop-length xs ys

abbrev int_sign : ℤ → ℕ
int_sign (pos n) = 0
int_sign (negsuc n) = 1

abbrev int_size : ℤ → ℕ
int_size (pos n) = n
int_size (negsuc n) = n

abbrev int_of : ℕ → ℕ → ℤ
int_of zero n = pos n
int_of (suc s) n = negsuc n

int_of_lem : (z : ℤ) → int_of (int_sign z) (int_size z) ≡ z
int_of_lem (pos n) = refl
int_of_lem (negsuc n) = refl

abbrev kind_int : UpdateKind → ℤ
kind_int UpdateKind.position = pos 0
kind_int UpdateKind.fire = pos 1
kind_int UpdateKind.dead = pos 2
kind_int (UpdateKind.other (pos n)) = pos (suc (suc (suc n)))
kind_int (UpdateKind.other (negsuc n)) = negsuc n

abbrev kind_of : ℤ → UpdateKind
kind_of (pos zero) = UpdateKind.position
kind_of (pos (suc zero)) = UpdateKind.fire
kind_of (pos (suc (suc zero))) = UpdateKind.dead
kind_of (pos (suc (suc (suc n)))) = UpdateKind.other (pos n)
kind_of (negsuc n) = UpdateKind.other (negsuc n)

kind_of_int : (k : UpdateKind) → kind_of (kind_int k) ≡ k
kind_of_int UpdateKind.position = refl
kind_of_int UpdateKind.fire = refl
kind_of_int UpdateKind.dead = refl
kind_of_int (UpdateKind.other (pos n)) = refl
kind_of_int (UpdateKind.other (negsuc n)) = refl

kind_of_lem :
    (k : UpdateKind) → kind_of (int_of (int_sign (kind_int k)) (int_size (kind_int k))) ≡ k
kind_of_lem k = ap kind_of (int_of_lem (kind_int k)) ∙ kind_of_int k

abbrev reply_numbers : ClientReply → Bytes
reply_numbers r = int_sign r.kind ∷ int_size r.kind ∷ r.error

abbrev read_reply : Bytes → ClientReply
read_reply (s ∷ n ∷ rest) = record { kind = int_of s n; error = rest }
read_reply rest = record { kind = pos 0; error = rest }

read_reply_lem : (r : ClientReply) → read_reply (reply_numbers r) ≡ r
read_reply_lem r = ap (λ k. record { kind = k; error = r.error }) (int_of_lem r.kind)

abbrev pub message_numbers : ClientMessage (Update grid) → Bytes
message_numbers m =
    int_sign m.kind
    ∷ int_size m.kind
    ∷ m.client_id
    ∷ int_sign m.ttl
    ∷ int_size m.ttl
    ∷ int_sign (kind_int m.update.kind)
    ∷ int_size (kind_int m.update.kind)
    ∷ int_sign m.update.time
    ∷ int_size m.update.time
    ∷ m.update.nonce
    ∷ m.update.player_id
    ∷ m.update.other_player
    ∷ m.update.place.x
    ∷ m.update.place.y
    ∷ m.update.angle
    ∷ length m.address
    ∷ (m.address ++ m.tcp_address)

abbrev pub no_update : Update grid
no_update = record {
  kind = UpdateKind.position;
  time = pos 0;
  nonce = 0;
  player_id = 0;
  other_player = 0;
  place = vec 0 0;
  angle = 0;
}

abbrev no_message : ClientMessage (Update grid)
no_message = record {
  kind = pos 0;
  client_id = 0;
  update = no_update;
  address = [];
  tcp_address = [];
  ttl = pos 0;
}

abbrev read_message : Bytes → ClientMessage (Update grid)
read_message
      (k0 ∷ k1 ∷ id ∷ h0 ∷ h1 ∷ u0 ∷ u1 ∷ t0 ∷ t1 ∷ nonce ∷ who ∷ other ∷ x ∷ y ∷ angle ∷ n
        ∷ rest) =
    record {
      kind = int_of k0 k1;
      client_id = id;
      update = record {
        kind = kind_of (int_of u0 u1);
        time = int_of t0 t1;
        nonce = nonce;
        player_id = who;
        other_player = other;
        place = vec x y;
        angle = angle;
      };
      address = take n rest;
      tcp_address = drop n rest;
      ttl = int_of h0 h1;
    }
read_message rest = no_message

read_message_lem : (m : ClientMessage (Update grid)) → read_message (message_numbers m) ≡ m
read_message_lem m = λ i. record {
  kind = int_of_lem m.kind i;
  client_id = m.client_id;
  update = record {
    kind = kind_of_lem m.update.kind i;
    time = int_of_lem m.update.time i;
    nonce = m.update.nonce;
    player_id = m.update.player_id;
    other_player = m.update.other_player;
    place = m.update.place;
    angle = m.update.angle;
  };
  address = take-length m.address m.tcp_address i;
  tcp_address = drop-length m.address m.tcp_address i;
  ttl = int_of_lem m.ttl i;
}

abbrev pub messages : Codec (ClientMessage (Update grid))
messages = record {
  encode = λ m. some (message_numbers m);
  decode = λ b. some (read_message b);
  prepare_send = message_numbers;
  unpack_receive = read_message;
}

abbrev pub replies : Codec ClientReply
replies = record {
  encode = λ r. some (reply_numbers r);
  decode = λ b. some (read_reply b);
  prepare_send = reply_numbers;
  unpack_receive = read_reply;
}

pub messages-IsFaithful : IsFaithful messages
messages-IsFaithful = record {
  decodes = λ m buf e.
      let same : message_numbers m ≡ buf = (cc e) in
      ap some (ap read_message (sym same) ∙ read_message_lem m);
  unpacks = read_message_lem;
}

replies-IsFaithful : IsFaithful replies
replies-IsFaithful = record {
  decodes = λ r buf e.
      let same : reply_numbers r ≡ buf = (cc e) in
      ap some (ap read_reply (sym same) ∙ read_reply_lem r);
  unpacks = read_reply_lem;
}

abbrev pub hello : ClientMessage (Update grid)
hello = record {
  kind = pos 2;
  client_id = 5;
  update = no_update;
  address = codes "10.0.0.5:6666";
  tcp_address = codes "10.0.0.5:6671";
  ttl = pos 0;
}

-- Handlers that count their calls and refuse every registration.
abbrev counter : ClientApi (Update grid) ℕ
counter = record {
  notify_update = λ id u n. (suc n, none);
  notify_failure = λ id hops n. (suc n, none);
  register = λ id udp tcp n. (suc n, some (codes "no route"));
}

abbrev answer : Bytes
answer = 0 ∷ 1 ∷ codes "no route"

abbrev hello_packet : Bytes
hello_packet = message_numbers hello

api_call_lem_example :
    let a = accept messages replies false counter true (some hello_packet) 7 in
    (a.state ≡ (handle counter hello 7).0)
    × (a.reply ≡ (
        if is_silent hello.kind
        then none
        else send_message replies false true (reply_of (handle counter hello 7).1)))
    × (do_api_call messages replies false true hello a.reply
        ≡ seen_end (handle counter hello 7).1 a.reply)
unfolding send_message accept process send_reply receive_message reply_of
api_call_lem_example =
    api_call_lem messages replies false true counter hello hello_packet 7 messages-IsFaithful
      replies-IsFaithful refl (omega arith)
      λ ans e.
        let same : answer ≡ ans = (cc e) in subst (λ b. length b ≤ buffer_size) same (omega arith)

-- What the caller sees.
refused_end :
    do_api_call messages replies false true hello (some answer) ≡ refused (codes "no route")
unfolding send_message do_api_call receive_message reply_end
refused_end = refl
