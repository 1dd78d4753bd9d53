-- ===== src/Server/Registry/Handlers.antt =====
-- What the handlers of the table of connections keep.
use cs416_tanks.Base.{
  ℕ, true, false, ◌≡◌, refl, sym, ap, subst, inl, inr, List, Map, lookup, contains,
  lookup-insert_self, some, ◌==◌, nat_eq, string_eq, length, Bool-cases, Option-cases,
}
use cs416_tanks.Client.Store.{Client}
use cs416_tanks.Server.State.{
  Status, status_eq, status_beq_iff, PeerInfo, RegisterRequest, Connection, Tables, idle, unlocked,
  is_connected,
}
use cs416_tanks.Server.Monad.{IfReturns, IfReturns-bind}
use cs416_tanks.Server.Registry.{
  register, connect, disconnect, get_nodes, notify_failure, refresh_partner, put_connection,
  mark_connected,
}
use cs416_tanks.Server.Registry.Workers.{big_endian, await_client}
use cs416_tanks.Server.Registry.Diagram.{
  Move, stays, leaves, enters, fails, Kept, status_at, status_there, one_put, status_of, name_after,
  moves_put, Same, Same-Move, weaken,
}

now_connected :
    (id : ℕ) (t : Tables) (c : Connection)
    → lookup id t.connections ≡ some c
    → is_connected c ≡ false
    → Move (status_at id t.connections) (some Status.connected)
now_connected id t c e off =
    status_there Move id t.connections c (some Status.connected) e
      (enters c.status (λ on. cc ((status_beq_iff c.status Status.connected).1 on, off)))

not_on : (c : Connection) → (c.status == Status.reconnected) ≡ true → is_connected c ≡ false
not_on c back =
    ap (λ a. a == Status.connected) ((status_beq_iff c.status Status.reconnected).0 back)

now_lost :
    (id : ℕ) (t : Tables) (c : Connection)
    → lookup id t.connections ≡ some c
    → is_connected c ≡ true
    → Move (status_at id t.connections) (some Status.disconnected)
now_lost id t c e on =
    let same : c.status ≡ Status.connected = ((status_beq_iff c.status Status.connected).0 on) in
    status_there Move id t.connections c (some Status.disconnected) e
      (subst (λ a. Move (some a) (some Status.disconnected)) (sym same) fails)

module _ (t : Tables) (r : Map ℕ Client) where
  pub unchanged : Kept Move unlocked t (idle t r)
  unchanged = record {
    held = refl;
    moves = λ id. stays (status_at id t.connections);
    names = λ n h. h;
  }

  pub register-Kept :
      (q : RegisterRequest) → IfReturns (λ _ s. Kept Move unlocked t s) (register q (idle t r))
  unfolding register
  register-Kept q = elim (Bool-cases (contains q.display_name t.display_names)) [
    | inl e ↦ rw (e, register) unchanged
    | inr e ↦
        rw (e, register)
          (record {
            held = refl;
            moves = one_put t q.client_id _ (leaves (status_at q.client_id t.connections));
            names = λ n h. name_after n q.display_name t.display_names h;
          })
  ]

  pub disconnect-Kept :
      (id : ℕ) → IfReturns (λ _ s. Kept Move unlocked t s) (disconnect id (idle t r))
  unfolding disconnect lookup
  disconnect-Kept id = elim (Option-cases (lookup id t.connections)) [
    | inl e ↦ rw (e, disconnect) unchanged
    | inr (c, e) ↦
        rw (e, disconnect)
          (record {
            held = refl;
            moves = one_put t id _ (leaves (status_at id t.connections));
            names = λ n h. h;
          })
  ]

  pub connect-Kept :
      (info : PeerInfo) (order : List ℕ)
      → IfReturns (λ _ s. Kept Move unlocked t s) (connect info order (idle t r))
  unfolding connect lookup
  connect-Kept info order = elim (Option-cases (lookup info.client_id t.connections)) [
    | inl e ↦ rw (e, connect) tt
    | inr (c, e) ↦ elim (Bool-cases (is_connected c)) [
      | inl on ↦ rw (e, connect) (rw (on, connect) tt)
      | inr off ↦
          rw (e, connect)
            (rw (off, connect)
              (record {
                held = refl;
                moves = one_put t info.client_id _ (now_connected info.client_id t c e off);
                names = λ n h. h;
              }))
    ]
  ]

  pub notify_failure-Kept :
      (id : ℕ) → IfReturns (λ _ s. Kept Move unlocked t s) (notify_failure id (idle t r))
  unfolding notify_failure
  notify_failure-Kept id = elim (Option-cases (lookup id t.connections)) [
    | inl e ↦ rw (e, notify_failure) unchanged
    | inr (c, e) ↦ elim (Bool-cases (is_connected c)) [
      | inl on ↦
          rw (e, notify_failure)
            (rw (on, notify_failure)
              (record {
                held = refl;
                moves = one_put t id _ (now_lost id t c e on);
                names = λ n h. h;
              }))
      | inr off ↦ rw (e, notify_failure) (rw (off, notify_failure) unchanged)
    ]
  ]

  pub await_client-Kept :
      (h : ℕ) (bytes : List ℕ)
      → IfReturns (λ _ s. Kept Move unlocked t s) (await_client h bytes (idle t r))
  unfolding await_client lookup
  await_client-Kept h bytes = elim (Bool-cases (length bytes == 8)) [
    | inr short ↦ rw (short, await_client) tt
    | inl whole ↦ elim (Option-cases (lookup (big_endian bytes 0) t.connections)) [
      | inl e ↦ rw (whole, await_client) (rw (e, await_client) tt)
      | inr (c, e) ↦
          rw (whole, await_client)
            (rw (e, await_client)
              (record {
                held = refl;
                moves = one_put t (big_endian bytes 0) _ (
                    status_there Move (big_endian bytes 0) t.connections c (some c.status) e
                      (stays (some c.status)));
                names = λ n v. v;
              }))
    ]
  ]

  pub mark_connected-Kept :
      (id : ℕ) (u : Tables) (c : Connection)
      → Kept Same unlocked t (idle u r)
      → lookup id u.connections ≡ some c
      → IfReturns (λ _ s. Kept Move unlocked t s) (mark_connected id (idle u r))
  unfolding mark_connected
  mark_connected-Kept id u c same here = elim (Bool-cases (c.status == Status.reconnected)) [
    | inl back ↦
        rw (here, mark_connected)
          (rw (back, mark_connected)
            (rw (here, mark_connected)
              (record {
                held = refl;
                moves =
                    moves_put Move t.connections u.connections id _
                      (λ j. Same-Move _ _ (same.moves j))
                      (subst (λ o. Move o (some Status.connected)) (sym (same.moves id))
                        (now_connected id u c here (not_on c back)));
                names = same.names;
              })))
    | inr other ↦
        rw (here, mark_connected)
          (rw (other, mark_connected) (weaken Same Move unlocked t (idle u r) Same-Move same))
  ]

  pub get_nodes-Kept :
      (id : ℕ) (order : List ℕ)
      → IfReturns (λ _ s. Kept Move unlocked t s) (get_nodes id order (idle t r))
  unfolding get_nodes lookup
  get_nodes-Kept id order = elim (Option-cases (lookup id t.connections)) [
    | inl e ↦ rw (e, get_nodes) unchanged
    | inr (c, e) ↦
        let c' : Connection = (record c { partner = refresh_partner id c t.connections order }) in
        let u : Tables = (put_connection id c' t) in
        rw (e, get_nodes)
          (IfReturns-bind (λ _ s. Kept Move unlocked t s) (λ _ s. Kept Move unlocked t s)
            (mark_connected id) _ (idle u r)
            (mark_connected-Kept id u c'
              (record {
                held = refl;
                moves =
                    moves_put Same t.connections t.connections id c' (λ j. refl) (ap status_of e);
                names = λ n v. v;
              })
              (lookup-insert_self id c' t.connections))
            (λ _ s g. g))
  ]
