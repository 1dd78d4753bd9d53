-- ===== src/Server/Registry/Zero.antt =====
-- The zero value of `PeerInfo`, which stands for no partner, names the client with the id 0.
use cs416_tanks.Base.{
  ℕ, ◌≡◌, ◌≢◌, refl, ap, ◌∙◌, List, [], ◌∷◌, Map, lookup, lookup-insert_self, nat_eq, none, String,
  some, arith, true, if◌then◌else◌,
}
use cs416_tanks.Client.Store.{Client}
use cs416_tanks.Server.State.{
  Status, status_eq, PeerInfo, zero_peer, Connection, Tables, idle, is_online,
}
use cs416_tanks.Server.Monad.{Returns, bind-done, ◌>>◌}
use cs416_tanks.Server.Registry.{
  find_partner, or_else, is_gone, refresh_partner, connect, get_nodes, connection_of,
}
use cs416_tanks.Server.Registry.Partners.{get_nodes_lem, same_online}
use cs416_tanks.Server.Registry.Connects.{after_connect, connect_lem, new_partner}

abbrev pub at_zero : String → String → String → PeerInfo
at_zero address rpc_address name = record {
  address = address;
  rpc_address = rpc_address;
  client_id = 0;
  display_name = name;
}

partner_kept :
    (m : Map ℕ Connection) (order : List ℕ) (d : Connection)
    → lookup 0 m ≡ some d
    → d.status ≡ Status.connected
    → d.partner ≡ zero_peer
    → (refresh_partner 0 d m order ≡ zero_peer) × (is_online m 0 ≡ true)
unfolding refresh_partner is_gone is_online
partner_kept m order d there online zero = ground (arith, ap (λ (p : PeerInfo). p.client_id) zero)

-- The client with the id 0 is registered, is not CONNECTED, and comes in by `Connect` when the loop
-- finds no partner for it. Then `GetNodes` of this client ends, and names the client itself, by the
-- zero value.
pub zero_named :
    (address rpc_address name : String) (order order' : List ℕ) (t : Tables) (r : Map ℕ Client)
    (c : Connection)
    → lookup 0 t.connections ≡ some c
    → c.status ≢ Status.connected
    → find_partner 0 t.connections order ≡ none
    → Returns
        (λ a s. a ≡ (zero_peer ∷ [], none))
        ((connect (at_zero address rpc_address name) order >> get_nodes 0 order') (idle t r))
zero_named address rpc_address name order order' t r c e away alone =
    let info = at_zero address rpc_address name in
    let u = after_connect info order t c in
    let d = connection_of info c (new_partner info order t c) in
    let there : lookup 0 u.connections ≡ some d = lookup-insert_self 0 d t.connections in
    let none_found : d.partner ≡ zero_peer = (ap (λ o. or_else o zero_peer) alone) in
    let joined : (connect info order >> get_nodes 0 order') (idle t r)
        ≡ get_nodes 0 order' (idle u r) =
      bind-done (connect info order) (λ _. get_nodes 0 order') (idle t r) (idle u r) _
        (connect_lem info order t c r e away) in
    let (chosen, online) = partner_kept u.connections order' d there refl none_found in
    rw joined (
      rw (get_nodes_lem 0 order' u r d there) (
        ap (λ b. (if b then refresh_partner 0 d u.connections order' ∷ [] else [], none))
          (same_online 0 order' u r d there
            ∙ ap (λ (p : PeerInfo). is_online u.connections p.client_id) chosen
            ∙ online)
        ∙ ap (λ p. (p ∷ [], none)) chosen))
