-- ===== src/Tests/ClientWorker.antt =====
-- A listener that reads noise and an introduction.
use cs416_tanks.Base.{
  ℕ, true, false, ◌≡◌, refl, [], ◌∷◌, length, Option, none, some, arith, nat_eq, List, map, lookup,
}
use cs416_tanks.Base.Int.{pos}
use cs416_tanks.Base.Bytes.{Bytes, codes}
use cs416_tanks.Client.Wire.{send_message, receive_message, do_api_call_async, register_message}
use cs416_tanks.Client.Peers.{introduction, Peers}
use cs416_tanks.Client.Peers.Listener.{call_message}
use cs416_tanks.Tests.Grid.{grid}
use cs416_tanks.Client.Peers.Removal.{Keyed}
use cs416_tanks.Client.Peers.Worker.{
  Round, listener_worker, Post, Arrives, hear_all, listener_worker_lem,
}
use cs416_tanks.Tests.Wire.{
  messages, replies, no_update, hello, message_numbers, messages-IsFaithful,
}

abbrev alone : Peers grid
alone = record {
  peers = [];
  record_updates = [];
  outbox = [];
  closed = [];
  monitors = [];
  heartbeats = [];
}

abbrev dial_all : Bytes → Bytes → Option (ℕ × ℕ)
dial_all udp tcp = some (length udp, length tcp)

alone-Keyed : Keyed grid alone
unfolding lookup
alone-Keyed j r h = cc h

abbrev first_round : Round
first_round = record { now = pos 8; nonce = 2; order = []; written = true; read = none }

abbrev second_round : Round
second_round = record {
  now = pos 9;
  nonce = 3;
  order = [];
  written = true;
  read = some (message_numbers hello);
}

abbrev post : Post grid
post = record {
  me = 5;
  udp = codes "10.0.0.5:6666";
  tcp = codes "10.0.0.5:6671";
  msg = introduction;
  sent = true;
}

abbrev two_rounds : List (Round × Option (Post grid))
two_rounds = (first_round, none) ∷ (second_round, some post) ∷ []

noise_first :
    Arrives grid dial_all (codes "no route") messages replies false no_update first_round none
unfolding receive_message
noise_first = Arrives.noise refl

hello_second :
    Arrives grid dial_all
      (codes "no route")
      messages
      replies
      false
      no_update
      second_round
      (some post)
unfolding do_api_call_async send_message call_message register_message
hello_second = Arrives.intact post (message_numbers hello) refl (omega arith) refl

listener_worker_lem_example :
    (listener_worker grid dial_all
        (codes "no route")
        messages
        replies
        false
        (map (λ x. x.0) two_rounds)
        alone
      ≡ hear_all grid dial_all (codes "no route") messages replies false no_update two_rounds alone)
    × Keyed grid (
        listener_worker grid dial_all
          (codes "no route")
          messages
          replies
          false
          (map (λ x. x.0) two_rounds)
          alone)
listener_worker_lem_example =
    listener_worker_lem grid dial_all (codes "no route") messages replies false no_update two_rounds
      alone messages-IsFaithful (noise_first, (hello_second, tt)) alone-Keyed
