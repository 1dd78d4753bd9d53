-- ===== src/Client/Game/Counts/Served.antt =====
-- Goroutines that count over the server.
use cs416_tanks.Base.{
  ℕ, Bool, true, false, not, [], ◌∷◌, ◌≡◌, ◌≢◌, refl, sym, ap, subst, ◌∙◌, inl, inr, List, Map,
  lookup, insert, lookup-insert, nat_eq, ◌==◌, none, some, arith, In, Option-cases, Bool-cases,
  if◌then◌else◌,
}
use cs416_tanks.Crdt.{ValueType, PutArg, GetArg}
use cs416_tanks.Client.Store.{Client, value_at}
use cs416_tanks.Server.State.{Connection, Tables, Server, idle, is_online}
use cs416_tanks.Server.Monad.{Outcome, done, crash, blocked, Returns, Delivery, delivered}
use cs416_tanks.Server.Kv.{holders, already_reply, value_reply, kv_get, kv_put}
use cs416_tanks.Server.Kv.Put.{Reaches, Stores}
use cs416_tanks.Server.Kv.Holders.{latest_online-In, latest_online-ne-none}
use cs416_tanks.Server.Kv.Choice.{IsShuffle}
use cs416_tanks.Server.Kv.PutGet.{Stored, kv_put_replicates}
use cs416_tanks.Server.Kv.Get.{latest, some_chosen, get_own, get_other}
use cs416_tanks.Server.Kv.ReadBack.{stub_kv_get, client_kv_get}
use cs416_tanks.Server.Stubs.{client_kv_put, stub_kv_put, do_api_call}
use cs416_tanks.Client.Game.{Task}
use cs416_tanks.Client.Game.Counts.{bump, begun, run_both}
use cs416_tanks.Client.Game.Counts.Lost.{ReadsPuts, EndsWith, count_lost}
use cs416_tanks.Client.Game.Counts.Store.{
  at_handle, at_connection, own_client, read_own, after_get, after_put, server_stats, Serving,
}

Returns-done :
    {A : Type 0} (P : A → Server → Type 0) (o : Outcome A)
    → Returns P o
    → (a : A) × (s : Server) × (o ≡ done a s) × P a s
Returns-done P (done a s) h = (a, s, refl, h)
Returns-done P (crash c) h = absurd h
Returns-done P blocked h = absurd h

own_there :
    (me : ℕ) (s : Server) (c : Connection) (h : ℕ) (cl : Client)
    → lookup me s.tables.connections ≡ some c
    → c.rpc_client ≡ some h
    → lookup h s.remotes ≡ some cl
    → own_client me s ≡ some cl
own_there me s c h cl e f there =
    ap (λ o. at_connection o s.remotes) e ∙ ap (λ o. at_handle o s.remotes) f ∙ there

same_lookup :
    (h k : ℕ) (c d : Client) (r : Map ℕ Client)
    → lookup h r ≡ some c
    → lookup k r ≡ some d
    → lookup k (insert h c r) ≡ some d
same_lookup h k c d r e f = elim (Bool-cases (h == k)) [
  | inr other ↦ ground (arith, lookup-insert k h c r, f)
  | inl same ↦
      let hk : h ≡ k = (ground (arith, same)) in
      let cd : some c ≡ some d = (sym e ∙ ap (λ i. lookup i r) hk ∙ f) in
      ground (arith, lookup-insert k h c r, cd)
]

-- A get of the player, where the holder that is asked has the value.
module _ (deliver : ℕ → Delivery) (through : (h : ℕ) → deliver h ≡ delivered) (me : ℕ)
    (v : ValueType) (t : Tables) (r : Map ℕ Client)
    (mine : Reaches deliver t.connections r me) where
  abbrev request : GetArg
  request = record { client_id = me; key = me }

  abbrev pair : PutArg
  pair = record { key = me; value = v }

  reads_own :
      latest request t ≡ some me
      → Stores pair t.connections r me
      → after_get me (kv_get deliver request (idle t r)) ≡ (v, false)
  unfolding stub_kv_get client_kv_get
  reads_own e held =
      ap (after_get me) (get_own deliver request t r e)
      ∙ ap (λ o. read_own o (already_reply, none) me)
          (own_there me (idle t r) held.conn held.handle held.client held.listed held.has_handle
            held.at_handle)
      ∙ ap (λ (x : ValueType). (x, false)) held.has_value

  reads_other :
      (id : ℕ)
      → latest request t ≡ some id
      → id ≢ me
      → Stores pair t.connections r id
      → after_get me (kv_get deliver request (idle t r)) ≡ (v, false)
  unfolding stub_kv_get client_kv_get
  reads_other id e ne held =
      ap (after_get me) (
        get_other deliver request t r id held.conn held.handle held.client e ne held.listed
          held.has_handle held.at_handle (through held.handle))
      ∙ ap (λ o. read_own o (value_reply (value_at me held.client.kv_map), none) me)
          (own_there me (idle t (insert held.handle held.client r)) mine.conn mine.handle
            mine.client mine.listed mine.has_handle
            (same_lookup held.handle mine.handle held.client mine.client r held.at_handle
              mine.at_handle))
      ∙ ap (λ (x : ValueType). (x, false)) held.has_value

  reads_now :
      (k : ℕ)
      → In k (holders me t.key_to_clients)
      → is_online t.connections k ≡ true
      → ((i : ℕ)
          → In i (holders me t.key_to_clients)
          → is_online t.connections i ≡ true
          → Stores pair t.connections r i)
      → after_get me (kv_get deliver request (idle t r)) ≡ (v, false)
  reads_now k holds on all_store = elim (Option-cases (latest request t)) [
    | inl e ↦
        absurd (latest_online-ne-none t.connections (holders me t.key_to_clients) none k holds on e)
    | inr (id, e) ↦ elim (latest_online-In t.connections (holders me t.key_to_clients) none id e) [
      | inr absent ↦ absurd (cc absent)
      | inl (w, online) ↦ elim (Bool-cases (id == me)) [
        | inr other ↦ reads_other id e (λ same. ground arith) (all_store id w online)
        | inl own ↦
            let same : id ≡ me = (ground (arith, own)) in
            reads_own (e ∙ ap some same)
              (subst (Stores pair t.connections r) same (all_store id w online))
      ]
    ]
  ]

module _ (deliver : ℕ → Delivery) (through : (h : ℕ) → deliver h ≡ delivered)
    (shuffle : List ℕ → List ℕ) (ok : IsShuffle shuffle) (order : List ℕ) (me : ℕ)
    (visited : In me order) where
  -- What a put leaves is served again.
  Stored-Serving :
      (v : ValueType) (s s' : Server)
      → Serving deliver me s
      → Stored (record { key = me; value = v }) order s.tables s.remotes s'
      → Serving deliver me s'
  Stored-Serving v s s' good st = record {
    released = st.released;
    known = st.still_known;
    reach = λ id on.
        subst (λ m. Reaches deliver m s'.remotes id) (sym st.same_connections)
          (st.still_reach deliver id
            (good.reach id (subst (λ m. is_online m id ≡ true) st.same_connections on)));
    online = subst (λ m. is_online m me ≡ true) (sym st.same_connections) good.online;
  }

  Stored-reads :
      (v : ValueType) (s s' : Server)
      → Serving deliver me s
      → Stored (record { key = me; value = v }) order s.tables s.remotes s'
      → (server_stats deliver shuffle order me).kv_get s' ≡ (v, false)
  Stored-reads v s s' good st =
      let again = Stored-Serving v s s' good st in
      let (k, holds, on) =
        some_chosen (record { key = me; value = v }) order s.tables s.remotes s' me st visited
          good.online in
      subst
        (λ l. (server_stats deliver shuffle order me).kv_get (record s' { locks = l }) ≡ (v, false))
        (sym st.released)
        (reads_now deliver through me v s'.tables s'.remotes (again.reach me again.online) k holds
          (subst (λ m. is_online m k ≡ true) (sym st.same_connections) on)
          (λ i w on'.
            subst (λ m. Stores (record { key = me; value = v }) m s'.remotes i)
              (sym st.same_connections)
              (st.holders_store i w (subst (λ m. is_online m i ≡ true) st.same_connections on'))))

  -- The server provides the store that the goroutines count in: where it serves, a `KVPut` of the
  -- player has no error, its `KVGet` then gives the value with no error, and the server still
  -- serves.
  server_stats-ReadsPuts : ReadsPuts (server_stats deliver shuffle order me) (Serving deliver me)
  unfolding client_kv_put stub_kv_put do_api_call
  server_stats-ReadsPuts v s good =
      let put : PutArg = (record { key = me; value = v }) in
      let (a, s', e, (ea, st)) =
        Returns-done
          (λ a s1. (a ≡ (record { ok = true }, none)) × Stored put order s.tables s.remotes s1)
          (kv_put deliver shuffle order put s)
          (subst
            (λ l.
              Returns
                (λ a s1.
                  (a ≡ (record { ok = true }, none)) × Stored put order s.tables s.remotes s1)
                (kv_put deliver shuffle order put (record s { locks = l })))
            (sym good.released)
            (kv_put_replicates deliver shuffle order put s.tables s.remotes ok good.known
              good.reach)) in
      (
        s',
        ap after_put e ∙ ap (λ b. after_put (done b s')) ea,
        Stored-reads v s s' good st,
        Stored-Serving v s s' good st,
      )

  -- The goroutines of a player that is online and that `KVPut` visits, over a server whose calls
  -- come through, which is between two handlers, reaches every online client and has a connection
  -- for every holder, with `v` as the player's counts. Two goroutines that count one after the
  -- other count both, and where both read before either writes, only the one that writes last is
  -- counted: the player's `KVGet` gives these counts with no error.
  pub server_counts :
      (a b : Task) (s : Server) (v : ValueType) (x z : Bool)
      → Serving deliver me s
      → (server_stats deliver shuffle order me).kv_get s ≡ (v, false)
      → EndsWith
          (server_stats deliver shuffle order me)
          (if x then bump b (bump a v) else bump a (bump b v))
          (run_both
            (server_stats deliver shuffle order me)
            (x ∷ x ∷ not x ∷ not x ∷ [])
            a
            begun
            b
            begun
            s)
        × EndsWith (server_stats deliver shuffle order me) (bump (if z then b else a) v) (
            run_both
              (server_stats deliver shuffle order me)
              (x ∷ not x ∷ z ∷ not z ∷ [])
              a
              begun
              b
              begun
              s)
  server_counts a b s v x z good now =
      count_lost (server_stats deliver shuffle order me) (Serving deliver me) server_stats-ReadsPuts
        a b s v good now x z
