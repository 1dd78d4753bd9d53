-- ===== src/Server/Kv/Failures.antt =====
-- `KVGet` after a `KVPut` and reports of failed clients.
use cs416_tanks.Base.{
  ℕ, ◌<◌, true, false, ◌≡◌, refl, sym, ap, subst, ◌∙◌, inl, inr, List, [], ◌∷◌, Map, lookup, insert,
  lookup-insert, nat_eq, ◌==◌, arith, In, AllDistinct, length, Option-cases, Bool-cases,
}
use cs416_tanks.Base.Pigeonhole.{spare}
use cs416_tanks.Crdt.{PutArg}
use cs416_tanks.Client.Store.{Client}
use cs416_tanks.Server.State.{
  Status, status_eq, Connection, Tables, Server, idle, is_connected, is_online,
}
use cs416_tanks.Server.Monad.{
  Action, Returns, Returns-bind, Delivery, delivered, done, pure, ◌>>◌, bind-done,
}
use cs416_tanks.Server.Registry.{notify_failure}
use cs416_tanks.Server.Kv.{holders, replication_factor, kv_get, kv_put}
use cs416_tanks.Server.Kv.Put.{Reaches}
use cs416_tanks.Server.Kv.Choice.{IsShuffle}
use cs416_tanks.Server.Kv.PutGet.{HoldersKnown, Stored, kv_put_replicates}
use cs416_tanks.Server.Kv.Get.{GetAnswer, AnswersWith, get_answers}
use cs416_tanks.Server.Kv.ReadBack.{ReadsBack, Returns-weaken, AnswersWith-ReadsBack}

-- The calls of `NotifyFailure` for some clients, one after another.
unfoldable pub report_all : List ℕ → Action (Unit {0})
report_all [] = pure tt
report_all (id ∷ ids) = notify_failure id >> report_all ids

-- Between `t` and `t'` some of the clients `ids` went offline, and nothing else happened that `KVGet`
-- looks at.
record Fewer (ids : List ℕ) (t t' : Tables) : Type 0 where
  same_holders : t'.key_to_clients ≡ t.key_to_clients
  still_same :
      (i : ℕ) → is_online t'.connections i ≡ true → lookup i t'.connections ≡ lookup i t.connections
  spared : (i : ℕ) → ¬ In i ids → lookup i t'.connections ≡ lookup i t.connections

written_offline :
    (id i : ℕ) (c : Connection) (m : Map ℕ Connection)
    → (id == i) ≡ true
    → is_connected c ≡ false
    → is_online (insert id c m) i ≡ false
unfolding is_online
written_offline id i c m same off = ground (arith, lookup-insert i id c m)

is_online_same :
    (i : ℕ) (m m' : Map ℕ Connection) → lookup i m ≡ lookup i m' → is_online m i ≡ is_online m' i
unfolding is_online
is_online_same i m m' e = rw (e, is_online) refl

notify_failure-Fewer :
    (id : ℕ) (t : Tables) (r : Map ℕ Client)
    → (t' : Tables) × (notify_failure id (idle t r) ≡ done true (idle t' r)) × Fewer (id ∷ []) t t'
unfolding notify_failure
notify_failure-Fewer id t r = elim (Option-cases (lookup id t.connections)) [
  | inl e ↦ (
    t,
    rw (e, notify_failure) refl,
    record { same_holders = refl; still_same = λ i h. refl; spared = λ i h. refl },
  )
  | inr (c, e) ↦ elim (Bool-cases (is_connected c)) [
    | inr off ↦ (
      t,
      rw (e, notify_failure) (rw (off, notify_failure) refl),
      record { same_holders = refl; still_same = λ i h. refl; spared = λ i h. refl },
    )
    | inl on ↦
        let c' : Connection = (record c { status = Status.disconnected }) in
        (
          record t { connections = insert id c' t.connections },
          rw (e, notify_failure) (rw (on, notify_failure) refl),
          record {
            same_holders = refl;
            still_same = λ i h. elim (Bool-cases (id == i)) [
              | inl same ↦ absurd (cc (h, written_offline id i c' t.connections same refl))
              | inr other ↦ ground (arith, lookup-insert i id c' t.connections)
            ];
            spared = λ i h. ground (arith, lookup-insert i id c' t.connections, h);
          },
        )
  ]
]

Fewer-cons :
    (id : ℕ) (ids : List ℕ) (t u v : Tables)
    → Fewer (id ∷ []) t u
    → Fewer ids u v
    → Fewer (id ∷ ids) t v
Fewer-cons id ids t u v first rest = record {
  same_holders = rest.same_holders ∙ first.same_holders;
  still_same = λ i h.
      let e = rest.still_same i h in
      e ∙ first.still_same i (sym (is_online_same i v.connections u.connections e) ∙ h);
  spared = λ i out.
      rest.spared i (λ w. out (inr w))
      ∙ first.spared i (λ w. elim w [ inl e ↦ out (inl e) | inr no_more ↦ no_more ]);
}

report_all-Fewer :
    (ids : List ℕ) (t : Tables) (r : Map ℕ Client)
    → (t' : Tables) × (report_all ids (idle t r) ≡ done tt (idle t' r)) × Fewer ids t t'
unfolding report_all
report_all-Fewer [] t r =
    (t, refl, record { same_holders = refl; still_same = λ i h. refl; spared = λ i h. refl })
report_all-Fewer (id ∷ ids) t r =
    let (u, one, first) = notify_failure-Fewer id t r in
    let (v, more, rest) = report_all-Fewer ids u r in
    (
      v,
      bind-done (notify_failure id) (λ _. report_all ids) (idle t r) (idle u r) true one ∙ more,
      Fewer-cons id ids t u v first rest,
    )

-- One of the clients that the pair was sent to is not lost.
one_left :
    (put : PutArg) (order lost crowd : List ℕ) (t : Tables) (r : Map ℕ Client) (s : Server)
    → AllDistinct order
    → AllDistinct (holders put.key t.key_to_clients)
    → AllDistinct crowd
    → ((j : ℕ) → In j crowd → In j order × (is_online t.connections j ≡ true))
    → length lost < replication_factor
    → length lost < length crowd
    → (h : Stored put order t r s) → (k : ℕ) × In k h.chosen × (¬ In k lost)
one_left put order lost crowd t r s visits_once held_once distinct there few fewer h =
    elim h.enough [
      | inl many ↦ spare h.chosen lost (h.distinct visits_once held_once) (omega (arith, many, few))
      | inr all ↦
          let (k, v, free) = spare crowd lost distinct fewer in
          (k, all k (there k v).0 (there k v).1, free)
    ]

-- A client reads the value that was put, also after failures. `KVPut` is run, then `NotifyFailure`
-- for the clients `lost`, then the `KVGet` of any client: if `crowd` are online clients that the
-- put visits, fewer than three are lost and not the whole of `crowd`, every holder has a
-- connection, neither the holders nor the visits repeat a client, every online client is reached by
-- the put and the calls of the get come through, then all the handlers end, and the client sees the
-- value with no error.
pub survives :
    (deliver : ℕ → Delivery) (shuffle : List ℕ → List ℕ) (order : List ℕ) (put : PutArg)
    (t : Tables) (r : Map ℕ Client) (get_deliver : ℕ → Delivery) (me : ℕ) (lost crowd : List ℕ)
    → IsShuffle shuffle
    → HoldersKnown t
    → ((id : ℕ) → is_online t.connections id ≡ true → Reaches deliver t.connections r id)
    → ((h : ℕ) → get_deliver h ≡ delivered)
    → AllDistinct order
    → AllDistinct (holders put.key t.key_to_clients)
    → AllDistinct crowd
    → ((j : ℕ) → In j crowd → In j order × (is_online t.connections j ≡ true))
    → length lost < replication_factor
    → length lost < length crowd
    → Returns (ReadsBack put t.connections me) (
        (kv_put deliver shuffle order put
            >> (report_all lost >> kv_get get_deliver (record { client_id = me; key = put.key })))
          (idle t r))
survives deliver shuffle order put t r get_deliver me lost crowd ok known reach through visits_once
      held_once distinct there few fewer =
    Returns-bind _ (ReadsBack put t.connections me) (kv_put deliver shuffle order put) (λ _. later)
      (idle t r) (kv_put_replicates deliver shuffle order put t r ok known reach)
      λ a s (_, h).
        subst
          (λ l.
            Returns (ReadsBack put t.connections me)
              (later (record { tables = s.tables; locks = l; remotes = s.remotes })))
          (sym h.released) (after_put s h)
  where
    get : Action GetAnswer
    get = kv_get get_deliver (record { client_id = me; key = put.key })

    later : Action GetAnswer
    later = report_all lost >> get

    same :
        (s : Server) (t' : Tables)
        → Stored put order t r s
        → Fewer lost s.tables t'
        → (i : ℕ) → lookup i t'.connections ≡ lookup i s.tables.connections
        → lookup i t'.connections ≡ lookup i t.connections
    same s t' h f i e = e ∙ ap (lookup i) h.same_connections

    after_put :
        (s : Server)
        → Stored put order t r s
        → Returns (ReadsBack put t.connections me) (later (idle s.tables s.remotes))
    after_put s h =
        let (t', reported, f) = report_all-Fewer lost s.tables s.remotes in
        let (k, chosen, free) =
          one_left put order lost crowd t r s visits_once held_once distinct there few fewer h in
        rw
          (bind-done (report_all lost) (λ _. get) (idle s.tables s.remotes) (idle t' s.remotes) tt
            reported)
          (Returns-weaken (AnswersWith put t.connections me) (ReadsBack put t.connections me)
            (get (idle t' s.remotes))
            (get_answers put t.connections t' s.remotes me get_deliver through
              (λ i on. same s t' h f i (f.still_same i on))
              (λ j v on.
                h.holders_store j (subst (λ ks. In j (holders put.key ks)) f.same_holders v) (
                  sym (
                    is_online_same j t'.connections t.connections
                      (same s t' h f j (f.still_same j on)))
                  ∙ on))
              k (subst (λ ks. In k (holders put.key ks)) (sym f.same_holders) (h.all_hold k chosen))
              (is_online_same k t'.connections t.connections (same s t' h f k (f.spared k free))
                ∙ h.all_online k chosen))
            (AnswersWith-ReadsBack put t.connections me))
