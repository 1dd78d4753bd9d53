-- ===== src/Tests/ServerRegistry.antt =====
-- The table of connections on a server with two players and one that has left.
use cs416_tanks.Base.{
  ℕ, true, ◌≡◌, ◌↔◌, ◌⊎◌, refl, inl, inr, [], ◌∷◌, lookup, nat_eq, string_eq, none, some, arith,
}
use cs416_tanks.Base.Int.{pos}
use cs416_tanks.Server.State.{
  Status, PeerInfo, zero_peer, Connection, invalid_client, min_peer_connections, Tables, initial,
  idle, unlocked, is_online,
}
use cs416_tanks.Server.Monad.{crash, unlock_of_unlocked, nil_dereference, Returns, ◌>>◌}
use cs416_tanks.Server.Registry.{find_partner, connect, get_nodes, is_gone, notify_failure}
use cs416_tanks.Server.Registry.Workers.{monitor_connections}
use cs416_tanks.Server.Registry.Zero.{at_zero, zero_named}
use cs416_tanks.Server.Registry.Stranded.{Strands, monitor_connections_lem, lost_before_sync}
use cs416_tanks.Server.Registry.Search.{IsPartner}
use cs416_tanks.Server.Registry.Partners.{
  Named, get_nodes_sound, get_nodes_finds, get_nodes_starved,
}
use cs416_tanks.Server.Registry.Connects.{
  IsRefused, Connected, connect_crashes_iff, connect_accepts,
}

abbrev peer : ℕ → PeerInfo
peer id = record { address = "a"; rpc_address = "b"; client_id = id; display_name = "p" }

abbrev player : Status → PeerInfo → Connection
player s p = record {
  status = s;
  display_name = "p";
  address = "a";
  rpc_client = some 7;
  rpc_address = "b";
  client = none;
  offset = pos 0;
  partner = p;
}

-- Client 1 and 2 play, with each other as partners; 3 has left; 4 had 3 as a partner.
abbrev table : Tables
table = record initial {
  connections =
      (1, player Status.connected (peer 2))
      ∷ (2, player Status.connected (peer 1))
      ∷ (3, player Status.not_in_game zero_peer)
      ∷ (4, player Status.connected (peer 3))
      ∷ [];
}

get_nodes_sound_example :
    Returns
      (λ a s.
        (s.locks ≡ unlocked)
        × (((lookup 1 table.connections ≡ none) × (a ≡ ([], some (invalid_client 1))))
            ⊎ ((c : Connection) × (lookup 1 table.connections ≡ some c)
                × (a.1 ≡ none)
                × Named 1 (3 ∷ 2 ∷ 1 ∷ 4 ∷ []) table.connections c a.0)))
      (get_nodes 1 (3 ∷ 2 ∷ 1 ∷ 4 ∷ []) (idle table []))
get_nodes_sound_example = get_nodes_sound 1 (3 ∷ 2 ∷ 1 ∷ 4 ∷ []) table []

get_nodes_finds_example :
    Returns
      (λ a s. (p : PeerInfo) × (a ≡ (p ∷ [], none)) × IsPartner 3 table.connections (3 ∷ 2 ∷ []) p)
      (get_nodes 3 (3 ∷ 2 ∷ []) (idle table []))
unfolding lookup is_gone is_online
get_nodes_finds_example =
    get_nodes_finds 3 2 (3 ∷ 2 ∷ []) table [] (player Status.not_in_game zero_peer) refl refl
      (inr (inl refl)) (omega arith) refl

get_nodes_starved_example :
    Returns
      (λ a s.
        (a ≡ ([], none))
        × ((e : Connection) → lookup 4 s.tables.connections ≡ some e → e.partner ≡ peer 3))
      (get_nodes 4 (1 ∷ 2 ∷ 3 ∷ 4 ∷ []) (idle table []))
unfolding lookup
get_nodes_starved_example =
    get_nodes_starved 4 (1 ∷ 2 ∷ 3 ∷ 4 ∷ []) table [] (player Status.connected (peer 3))
      (player Status.not_in_game zero_peer) refl (omega arith) refl (inl refl)

connect_crashes_iff_example :
    (connect (peer 9) (1 ∷ []) (idle table []) ≡ crash unlock_of_unlocked) ↔ IsRefused 9 table
connect_crashes_iff_example = connect_crashes_iff (peer 9) (1 ∷ []) table []

connect_accepts_example :
    Returns
      (λ a s. (a ≡ (min_peer_connections, none)) × Connected (peer 3) (4 ∷ 1 ∷ []) table s)
      (connect (peer 3) (4 ∷ 1 ∷ []) (idle table []))
unfolding lookup
connect_accepts_example =
    connect_accepts (peer 3) (4 ∷ 1 ∷ []) table [] (player Status.not_in_game zero_peer) refl
      (λ e. cc)

-- 2 was lost before its clock was synchronised.
abbrev with_lost : Tables
with_lost = record initial {
  connections =
      (1, player Status.connected (peer 2)) ∷ (2, player Status.disconnected (peer 1)) ∷ [];
}

monitor_connections_lem_example :
    (Strands with_lost.connections (1 ∷ 2 ∷ [])
      × (monitor_connections (λ n. true) (1 ∷ 2 ∷ []) (idle with_lost []) ≡ crash nil_dereference))
    ⊎ (¬ Strands with_lost.connections (1 ∷ 2 ∷ [])
        × Returns
            (λ _ s. s.locks ≡ unlocked)
            (monitor_connections (λ n. true) (1 ∷ 2 ∷ []) (idle with_lost [])))
monitor_connections_lem_example = monitor_connections_lem (λ n. true) (1 ∷ 2 ∷ []) with_lost []

two_stranded : Strands with_lost.connections (1 ∷ 2 ∷ [])
unfolding lookup
two_stranded = (2, inr (inl refl), (player Status.disconnected (peer 1), refl, refl, refl))

lost_before_sync_example :
    (connect (peer 3) (4 ∷ 1 ∷ [])
        >> notify_failure 3
        >> monitor_connections (λ n. true) (1 ∷ 3 ∷ []))
      (idle table [])
    ≡ crash nil_dereference
unfolding lookup
lost_before_sync_example =
    lost_before_sync (peer 3) (4 ∷ 1 ∷ []) (1 ∷ 3 ∷ []) (λ n. true) table []
      (player Status.not_in_game zero_peer) refl (λ e. cc) (inr (inl refl))

abbrev only_zero : Tables
only_zero = record initial { connections = (0, player Status.not_in_game zero_peer) ∷ [] }

zero_named_example :
    Returns
      (λ a s. a ≡ (zero_peer ∷ [], none))
      ((connect (at_zero "a" "b" "p") [] >> get_nodes 0 (0 ∷ [])) (idle only_zero []))
unfolding lookup find_partner
zero_named_example =
    zero_named "a" "b" "p" [] (0 ∷ []) only_zero [] (player Status.not_in_game zero_peer) refl
      (λ e. cc) refl

-- A client that connects again without having left takes the server down.
connect_twice : connect (peer 1) (2 ∷ []) (idle table []) ≡ crash unlock_of_unlocked
unfolding connect lookup
connect_twice = refl
