-- ===== src/Server/Registry/Search.antt =====
-- Who is found as a partner.
use cs416_tanks.Base.{
  ℕ, true, false, ◌≡◌, ◌≢◌, ◌⊎◌, inl, inr, List, [], ◌∷◌, Map, lookup, nat_eq, none, some, arith,
  In, Option-cases, Bool-cases, not, ◌&&◌, ◌==◌,
}
use cs416_tanks.Server.State.{Status, PeerInfo, status_eq, Connection, is_connected, is_online}
use cs416_tanks.Server.Registry.{peer_of, find_partner}

-- What a partner that is found is: another client that is CONNECTED, with its addresses.
pub record IsPartner (me : ℕ) (m : Map ℕ Connection) (order : List ℕ) (p : PeerInfo) : Type 0 where
  pub other : p.client_id ≢ me
  pub visited : In p.client_id order
  pub conn : Connection
  pub listed : lookup p.client_id m ≡ some conn
  pub online : conn.status ≡ Status.connected
  pub is_peer : p ≡ peer_of p.client_id conn

IsPartner-later :
    (me : ℕ) (m : Map ℕ Connection) (id : ℕ) (ids : List ℕ) (p : PeerInfo)
    → IsPartner me m ids p
    → IsPartner me m (id ∷ ids) p
IsPartner-later me m id ids p h = record {
  other = h.other;
  visited = inr h.visited;
  conn = h.conn;
  listed = h.listed;
  online = h.online;
  is_peer = h.is_peer;
}

pub find_partner-IsPartner :
    (me : ℕ) (m : Map ℕ Connection) (order : List ℕ) (p : PeerInfo)
    → find_partner me m order ≡ some p
    → IsPartner me m order p
unfolding find_partner
find_partner-IsPartner me m [] p h = cc
find_partner-IsPartner me m (id ∷ ids) p h =
    by_entry (find_partner-IsPartner me m ids p) (Option-cases (lookup id m))
  where
    by_test :
        (find_partner me m ids ≡ some p → IsPartner me m ids p)
        → (c : Connection) → lookup id m ≡ some c
        → ((not (id == me) && is_connected c) ≡ true) ⊎ ((not (id == me) && is_connected c) ≡ false)
        → IsPartner me m (id ∷ ids) p
    by_test ih c e (inl hit) = record {
      other = ground arith;
      visited = inl (ground arith);
      conn = c;
      listed = ground arith;
      online = ground arith;
      is_peer = ground arith;
    }
    by_test ih c e (inr miss) = IsPartner-later me m id ids p (ih (ground arith))

    by_entry :
        (find_partner me m ids ≡ some p → IsPartner me m ids p)
        → (lookup id m ≡ none) ⊎ ((c : Connection) × (lookup id m ≡ some c))
        → IsPartner me m (id ∷ ids) p
    by_entry ih (inl e) = IsPartner-later me m id ids p (ih (ground arith))
    by_entry ih (inr (c, e)) = by_test ih c e (Bool-cases (not (id == me) && is_connected c))

pub find_partner-none :
    (me : ℕ) (m : Map ℕ Connection) (order : List ℕ) (id : ℕ)
    → find_partner me m order ≡ none
    → In id order
    → id ≢ me
    → is_online m id ≡ false
unfolding find_partner is_online
find_partner-none me m [] id h v ne = absurd v
find_partner-none me m (j ∷ js) id h v ne = ground (arith, find_partner-none me m js id)
