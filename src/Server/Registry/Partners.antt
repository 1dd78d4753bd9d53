-- ===== src/Server/Registry/Partners.antt =====
-- Whom `GetNodes` names.
use cs416_tanks.Base.{
  ℕ, true, false, ◌≡◌, ◌≢◌, refl, sym, ap, subst, ◌∙◌, ◌⊎◌, inl, inr, List, [], ◌∷◌, Map, lookup,
  lookup-insert, nat_eq, none, some, arith, In, Option-cases, Bool-cases, ◌==◌, if◌then◌else◌,
}
use cs416_tanks.Client.Store.{Client}
use cs416_tanks.Server.State.{
  Status, PeerInfo, status_eq, Connection, invalid_client, Tables, idle, unlocked, is_online,
}
use cs416_tanks.Server.Monad.{Returns, done}
use cs416_tanks.Server.Registry.Search.{IsPartner, find_partner-IsPartner, find_partner-none}
use cs416_tanks.Server.Registry.{find_partner, is_gone, refresh_partner, get_nodes, put_connection}

-- What a client with the connection `c` is told: no node, or one that is CONNECTED. That is its
-- recorded partner, or, where that is gone, another client that the loop has found.
abbrev pub Named : ℕ → List ℕ → Map ℕ Connection → Connection → List PeerInfo → Type 0
Named id order m c nodes =
    (nodes ≡ [])
    ⊎ ((p : PeerInfo) × (nodes ≡ p ∷ [])
        × (is_online m p.client_id ≡ true)
        × (((p ≡ c.partner) × (is_gone c.partner m ≡ false))
            ⊎ ((is_gone c.partner m ≡ true) × IsPartner id m order p)))

gone-offline :
    (p : PeerInfo) (m : Map ℕ Connection) → is_gone p m ≡ true → is_online m p.client_id ≡ false
unfolding is_gone is_online
gone-offline p m h = ground arith

refresh_partner-Named :
    (id : ℕ) (order : List ℕ) (m : Map ℕ Connection) (c : Connection)
    → is_online m (refresh_partner id c m order).client_id ≡ true
    → Named id order m c (refresh_partner id c m order ∷ [])
unfolding refresh_partner
refresh_partner-Named id order m c online = elim (Bool-cases (is_gone c.partner m)) [
  | inr here ↦
      inr (refresh_partner id c m order, refl, online, inl (rw (here, refresh_partner) refl, here))
  | inl gone ↦ elim (Option-cases (find_partner id m order)) [
    | inl nobody ↦ absurd (
        let kept : refresh_partner id c m order ≡ c.partner =
          (rw (gone, refresh_partner) (rw nobody refl)) in
        cc (
          ap (λ (p : PeerInfo). is_online m p.client_id) kept,
          online,
          gone-offline c.partner m gone,
        ))
    | inr (p, found) ↦
        let taken : refresh_partner id c m order ≡ p =
          (rw (gone, refresh_partner) (rw found refl)) in
        inr (
          refresh_partner id c m order,
          refl,
          online,
          inr (
            gone,
            subst (IsPartner id m order) (sym taken) (find_partner-IsPartner id m order p found),
          ),
        )
  ]
]

module _ (id : ℕ) (order : List ℕ) (t : Tables) (r : Map ℕ Client) (c : Connection)
    (known : lookup id t.connections ≡ some c) where
  -- The tables after the partner has been written.
  abbrev pub chosen : PeerInfo
  chosen = refresh_partner id c t.connections order

  abbrev pub settled : Connection
  settled = record c { partner = chosen }

  -- The table that `GetNodes` leaves: the partner is written, and RECONNECTED becomes CONNECTED.
  abbrev pub after_nodes : Tables
  after_nodes =
      let u = put_connection id settled t in
      if settled.status == Status.reconnected
      then put_connection id (record settled { status = Status.connected }) u
      else u

  pub get_nodes_lem :
      get_nodes id order (idle t r)
      ≡ done
          (
            (if is_online (put_connection id settled t).connections chosen.client_id
                then chosen ∷ []
                else []),
            none,
          )
          (idle after_nodes r)
  unfolding get_nodes
  get_nodes_lem = ground (arith, lookup-insert id id settled t.connections)

  pub same_online :
      is_online (put_connection id settled t).connections chosen.client_id
      ≡ is_online t.connections chosen.client_id
  unfolding is_online
  same_online = ground (arith, lookup-insert chosen.client_id id settled t.connections)

  nodes-Named : Named id order t.connections c (
      if is_online (put_connection id settled t).connections chosen.client_id
      then chosen ∷ []
      else [])
  nodes-Named = elim (Bool-cases (is_online t.connections chosen.client_id)) [
    | inl online ↦
        subst (λ b. Named id order t.connections c (if b then chosen ∷ [] else []))
          (sym (same_online ∙ online)) (refresh_partner-Named id order t.connections c online)
    | inr offline ↦
        subst (λ b. Named id order t.connections c (if b then chosen ∷ [] else []))
          (sym (same_online ∙ offline)) (inl refl)
  ]

-- `GetNodes` ends with the locks released. To a client that is not registered it answers an error and
-- no node. To any other it answers no error, and at most one node, which is CONNECTED: the client's
-- recorded partner, or, if that has no connection or is DISCONNECTED, another client than the one
-- that asks, one that the loop visits.
pub get_nodes_sound :
    (id : ℕ) (order : List ℕ) (t : Tables) (r : Map ℕ Client)
    → Returns
        (λ a s.
          (s.locks ≡ unlocked)
          × (((lookup id t.connections ≡ none) × (a ≡ ([], some (invalid_client id))))
              ⊎ ((c : Connection) × (lookup id t.connections ≡ some c)
                  × (a.1 ≡ none)
                  × Named id order t.connections c a.0)))
        (get_nodes id order (idle t r))
get_nodes_sound id order t r = elim (Option-cases (lookup id t.connections)) [
  | inl e ↦
      let ends : get_nodes id order (idle t r) ≡ done ([], some (invalid_client id)) (idle t r) =
        (unfold get_nodes in ground arith) in
      rw ends (refl, inl (e, refl))
  | inr (c, e) ↦
      rw (get_nodes_lem id order t r c e) (refl, inr (c, e, refl, nodes-Named id order t r c e))
]

-- If the partner of a registered client is gone (no connection, or DISCONNECTED) and the loop visits
-- some other client that is CONNECTED, then `GetNodes` names exactly one node, a partner by
-- `IsPartner`.
pub get_nodes_finds :
    (id j : ℕ) (order : List ℕ) (t : Tables) (r : Map ℕ Client) (c : Connection)
    → lookup id t.connections ≡ some c
    → is_gone c.partner t.connections ≡ true
    → In j order
    → j ≢ id
    → is_online t.connections j ≡ true
    → Returns
        (λ a s. (p : PeerInfo) × (a ≡ (p ∷ [], none)) × IsPartner id t.connections order p)
        (get_nodes id order (idle t r))
unfolding refresh_partner is_online
get_nodes_finds id j order t r c e gone v ne online =
    elim (Option-cases (find_partner id t.connections order)) [
      | inl nobody ↦ absurd (ground (arith, find_partner-none id t.connections order j nobody v ne))
      | inr (p, found) ↦
          let h = find_partner-IsPartner id t.connections order p found in
          rw (get_nodes_lem id order t r c e) (
            p,
            ground (
              arith,
              h.other,
              h.online,
              h.listed,
              lookup-insert p.client_id id (settled id order t r c e) t.connections,
            ),
            h,
          )
    ]

-- A registered client whose partner is registered but NOTINGAME or RECONNECTED is told of no node,
-- whoever else is CONNECTED, and keeps that partner.
pub get_nodes_starved :
    (id : ℕ) (order : List ℕ) (t : Tables) (r : Map ℕ Client) (c d : Connection)
    → lookup id t.connections ≡ some c
    → c.partner.client_id ≢ id
    → lookup c.partner.client_id t.connections ≡ some d
    → (d.status ≡ Status.not_in_game) ⊎ (d.status ≡ Status.reconnected)
    → Returns
        (λ a s.
          (a ≡ ([], none))
          × ((e : Connection) → lookup id s.tables.connections ≡ some e → e.partner ≡ c.partner))
        (get_nodes id order (idle t r))
unfolding refresh_partner is_online is_gone
get_nodes_starved id order t r c d e ne listed away = rw (get_nodes_lem id order t r c e) (
  ground (arith, lookup-insert c.partner.client_id id (settled id order t r c e) t.connections),
  λ f at. ground (
    arith,
    lookup-insert id id (settled id order t r c e) t.connections,
    lookup-insert id id (record (settled id order t r c e) { status = Status.connected })
        (put_connection id (settled id order t r c e) t).connections,
  ),
)
