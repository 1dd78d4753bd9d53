-- ===== src/Server/Registry/Connects.antt =====
-- When `Connect` ends and what it leaves, and when it takes the server down.
use cs416_tanks.Base.{
  ℕ, suc, false, ◌≡◌, ◌≢◌, ◌↔◌, refl, ◌⊎◌, inl, inr, List, Map, lookup, lookup-insert_self,
  lookup-insert_ne, nat_eq, none, some, arith, In, Option-cases,
}
use cs416_tanks.Client.Store.{Client}
use cs416_tanks.Server.State.{
  Status, PeerInfo, zero_peer, Connection, Tables, Server, idle, unlocked, is_online,
  min_peer_connections,
}
use cs416_tanks.Server.Monad.{Returns, done, crash, unlock_of_unlocked}
use cs416_tanks.Server.Registry.{find_partner, or_else, put_connection, connection_of, connect}
use cs416_tanks.Server.Registry.Search.{IsPartner, find_partner-IsPartner, find_partner-none}

-- The requests that `Connect` refuses: from a client that is not registered, or is CONNECTED.
abbrev pub IsRefused : ℕ → Tables → Type 0
IsRefused id t =
    (lookup id t.connections ≡ none)
    ⊎ ((c : Connection) × (lookup id t.connections ≡ some c) × (c.status ≡ Status.connected))

-- `Connect`, called when no lock is held, takes the server down by unlocking a mutex that is not
-- locked exactly when it refuses the request: when the client is not registered or is CONNECTED.
pub connect_crashes_iff :
    (info : PeerInfo) (order : List ℕ) (t : Tables) (r : Map ℕ Client)
    → (connect info order (idle t r) ≡ crash unlock_of_unlocked) ↔ IsRefused info.client_id t
unfolding connect
connect_crashes_iff info order t r = elim (Option-cases (lookup info.client_id t.connections)) [
  | inl e ↦ (λ h. inl e, λ h. ground arith)
  | inr (c, e) ↦ (λ h. inr (c, e, ground arith), λ h. ground arith)
]

-- What the partner that `Connect` writes is: another CONNECTED client, or the zero value where the
-- loop visits none.
abbrev pub PartnerFits : ℕ → Map ℕ Connection → List ℕ → PeerInfo → Type 0
PartnerFits me m order p =
    IsPartner me m order p
    ⊎ ((p ≡ zero_peer) × ((j : ℕ) → In j order → j ≢ me → is_online m j ≡ false))

pub find_partner-Fits :
    (me : ℕ) (m : Map ℕ Connection) (order : List ℕ)
    → PartnerFits me m order (or_else (find_partner me m order) zero_peer)
find_partner-Fits me m order = elim (Option-cases (find_partner me m order)) [
  | inl e ↦ rw e (inr (refl, λ j v ne. find_partner-none me m order j e v ne))
  | inr (p, e) ↦ rw e (inl (find_partner-IsPartner me m order p e))
]

-- What an accepted `Connect` leaves.
pub record Connected (info : PeerInfo) (order : List ℕ) (t : Tables) (s : Server) : Type 0 where
  pub released : s.locks ≡ unlocked
  pub conn : Connection
  pub listed : lookup info.client_id s.tables.connections ≡ some conn
  pub online : conn.status ≡ Status.connected
  pub same_address : conn.address ≡ info.address
  pub same_rpc_address : conn.rpc_address ≡ info.rpc_address
  pub partner_fits : PartnerFits info.client_id t.connections order conn.partner
  pub others : (j : ℕ) → info.client_id ≢ j → lookup j s.tables.connections ≡ lookup j t.connections
  pub one_more_sync : s.tables.pending_syncs ≡ suc t.pending_syncs

module _ (info : PeerInfo) (order : List ℕ) (t : Tables) (c : Connection) where
  abbrev pub new_partner : PeerInfo
  new_partner = or_else (find_partner info.client_id t.connections order) zero_peer

  abbrev pub after_connect : Tables
  after_connect = record (put_connection info.client_id (connection_of info c new_partner) t) {
    pending_syncs = suc t.pending_syncs;
  }

  pub connect_lem :
      (r : Map ℕ Client)
      → lookup info.client_id t.connections ≡ some c
      → c.status ≢ Status.connected
      → connect info order (idle t r) ≡ done (min_peer_connections, none) (idle after_connect r)
  unfolding connect
  connect_lem r e h = ground arith

-- `Connect` of a registered client that is not CONNECTED ends and answers `MinPeerConnections`. It
-- leaves the locks released, the client CONNECTED at the addresses of the request, the other
-- connections as they were, and one more clock synchronisation to run. The partner it writes is
-- another client that is CONNECTED, or the zero value if the loop visits no such client.
pub connect_accepts :
    (info : PeerInfo) (order : List ℕ) (t : Tables) (r : Map ℕ Client) (c : Connection)
    → lookup info.client_id t.connections ≡ some c
    → c.status ≢ Status.connected
    → Returns
        (λ a s. (a ≡ (min_peer_connections, none)) × Connected info order t s)
        (connect info order (idle t r))
connect_accepts info order t r c e h = rw (connect_lem info order t c r e h) (
  refl,
  record {
    released = refl;
    conn = connection_of info c (new_partner info order t c);
    listed = lookup-insert_self info.client_id _ t.connections;
    online = refl;
    same_address = refl;
    same_rpc_address = refl;
    partner_fits = find_partner-Fits info.client_id t.connections order;
    others = λ j ne. lookup-insert_ne j info.client_id _ t.connections ne;
    one_more_sync = refl;
  },
)
