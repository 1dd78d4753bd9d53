-- ===== src/Server/Sync/Adjust.antt =====
-- The second loop of `syncClocks`, which sets the clocks of the clients.
use cs416_tanks.Base.{
  ℕ, ◌≡◌, ◌≢◌, refl, sym, subst, ◌∙◌, ◌⊎◌, inl, inr, List, [], ◌∷◌, Map, lookup, insert,
  lookup-insert_self, lookup-insert_ne, Option-cases, some, nat_eq, arith, In, AllDistinct,
}
use cs416_tanks.Clock.{Duration, minus, set_offset}
use cs416_tanks.Client.Store.{Client}
use cs416_tanks.Server.State.{Status, status_eq, status_beq_iff, Connection, Server}
use cs416_tanks.Server.Monad.{done}
use cs416_tanks.Server.Sync.{Reading, set_client_offset, measured_at, adjust_one, adjust_all}
use cs416_tanks.Server.Sync.Rounds.{Skipped, Bound}

-- No two of the clients share a TCP connection.
abbrev pub OwnHandles : (ℕ → ℕ) → List ℕ → Type 0
OwnHandles h ids = (i j : ℕ) → In i ids → In j ids → h i ≡ h j → i ≡ j

module _ (readings : ℕ → Reading) (h : ℕ → ℕ) (cl : ℕ → Client) (average : Duration)
    (m : Map ℕ Duration) where
  abbrev offset_for : ℕ → Duration
  offset_for id = minus average (measured_at id m)

  -- The client after `SetOffset`.
  abbrev pub adjusted : ℕ → Client
  adjusted id = record (cl id) { clock = set_offset (cl id).clock (offset_for id) }

  abbrev adjust : ℕ → Connection → Server → Server
  adjust id c s = record s {
    tables = record s.tables {
      connections = insert id (record c { offset = offset_for id }) s.tables.connections;
    };
    remotes = insert (h id) (adjusted id) s.remotes;
  }

  adjust_one_lem :
      (id : ℕ) (s : Server)
      → (v : Bound readings h cl s id)
      → adjust_one readings average m id v.conn s ≡ done tt (adjust id v.conn s)
  unfolding adjust_one set_client_offset
  adjust_one_lem id s v = ground (arith, v.wrapper, v.there, v.told)

  adjust_step :
      (id : ℕ) (ids : List ℕ) (s : Server)
      → (v : Bound readings h cl s id)
      → adjust_all readings average m (id ∷ ids) s
        ≡ adjust_all readings average m ids (adjust id v.conn s)
  unfolding adjust_all
  adjust_step id ids s v = ground (arith, v.listed, v.on, adjust_one_lem id s v)

  adjust_skip :
      (id : ℕ) (ids : List ℕ) (s : Server)
      → Skipped readings h cl s id
      → adjust_all readings average m (id ∷ ids) s ≡ adjust_all readings average m ids s
  unfolding adjust_all
  adjust_skip id ids s skip = elim (Option-cases (lookup id s.tables.connections)) [
    | inl e ↦ ground (arith, e)
    | inr (c, e) ↦ ground (arith, e, skip c e)
  ]

  -- What the second loop over `ids` leaves.
  pub record Adjusted (ids : List ℕ) (s s' : Server) : Type 0 where
    pub same_locks : s'.locks ≡ s.locks
    pub same_clock : s'.tables.clock ≡ s.tables.clock
    pub others : (k : ℕ) → ((j : ℕ) → In j ids → h j ≢ k) → lookup k s'.remotes ≡ lookup k s.remotes
    pub set :
        (j : ℕ) → In j ids → Bound readings h cl s j → lookup (h j) s'.remotes ≡ some (adjusted j)

  -- A later client, over another TCP connection, is not touched by the round of `id`.
  Bound-other :
      (id j : ℕ) (c : Connection) (s : Server)
      → j ≢ id
      → h j ≢ h id
      → Bound readings h cl s j
      → Bound readings h cl (adjust id c s) j
  Bound-other id j c s ne apart v = record {
    conn = v.conn;
    listed = lookup-insert_ne j id _ s.tables.connections (λ e. ne (sym e)) ∙ v.listed;
    on = v.on;
    wrapper = v.wrapper;
    there = lookup-insert_ne (h j) (h id) (adjusted id) s.remotes (λ e. apart (sym e)) ∙ v.there;
    told = v.told;
  }

  Adjusted-Bound :
      (id : ℕ) (ids : List ℕ) (s s' : Server) (v : Bound readings h cl s id)
      → ¬ In id ids
      → OwnHandles h (id ∷ ids)
      → Adjusted ids (adjust id v.conn s) s'
      → Adjusted (id ∷ ids) s s'
  Adjusted-Bound id ids s s' v out own rest = record {
    same_locks = rest.same_locks;
    same_clock = rest.same_clock;
    others = λ k w.
        rest.others k (λ j u. w j (inr u))
        ∙ lookup-insert_ne k (h id) (adjusted id) s.remotes (w id (inl refl));
    set = λ j w u. elim w [
      | inl e ↦ subst (λ i. lookup (h i) s'.remotes ≡ some (adjusted i)) (sym e) at_head
      | inr w' ↦ rest.set j w' (
          Bound-other id j v.conn s (apart j w') (λ e. apart j w' (own j id (inr w') (inl refl) e))
            u)
    ];
  }
    where
      apart : (j : ℕ) → In j ids → j ≢ id
      apart j w e = out (subst (λ x. In x ids) e w)

      at_head : lookup (h id) s'.remotes ≡ some (adjusted id)
      at_head =
          rest.others (h id) (λ j u e. apart j u (own j id (inr u) (inl refl) e))
          ∙ lookup-insert_self (h id) (adjusted id) s.remotes

  Adjusted-Skipped :
      (id : ℕ) (ids : List ℕ) (s s' : Server)
      → Skipped readings h cl s id
      → Adjusted ids s s'
      → Adjusted (id ∷ ids) s s'
  Adjusted-Skipped id ids s s' skip rest = record {
    same_locks = rest.same_locks;
    same_clock = rest.same_clock;
    others = λ k w. rest.others k (λ j u. w j (inr u));
    set = λ j w u. elim w [
      | inl e ↦ absurd (not-Skipped (subst (Bound readings h cl s) e u))
      | inr w' ↦ rest.set j w' u
    ];
  }
    where
      not-Skipped : ¬ Bound readings h cl s id
      not-Skipped v =
          cc (skip v.conn v.listed, (status_beq_iff v.conn.status Status.connected).1 v.on)

  still :
      (id : ℕ) (ids : List ℕ) (s : Server) (v : Bound readings h cl s id)
      → ¬ In id ids
      → OwnHandles h (id ∷ ids)
      → (j : ℕ) → In j ids
      → Bound readings h cl s j ⊎ Skipped readings h cl s j
      → Bound readings h cl (adjust id v.conn s) j ⊎ Skipped readings h cl (adjust id v.conn s) j
  still id ids s v out own j w (inl u) = inl (
      Bound-other id j v.conn s (λ e. out (subst (λ x. In x ids) e w))
        (λ e. out (subst (λ x. In x ids) (own j id (inr w) (inl refl) e) w)) u)
  still id ids s v out own j w (inr skip) = inr (λ c e. skip c (
      sym
        (lookup-insert_ne j id _ s.tables.connections (λ x. out (subst (λ y. In y ids) (sym x) w)))
      ∙ e))

  pub adjust_all_lem :
      (ids : List ℕ) (s : Server)
      → AllDistinct ids
      → OwnHandles h ids
      → ((j : ℕ) → In j ids → Bound readings h cl s j ⊎ Skipped readings h cl s j)
      → (s' : Server) × (adjust_all readings average m ids s ≡ done tt s') × Adjusted ids s s'
  unfolding adjust_all
  adjust_all_lem [] s distinct own all = (
    s,
    refl,
    record { same_locks = refl; same_clock = refl; others = λ k w. refl; set = λ j w. absurd w },
  )
  adjust_all_lem (id ∷ ids) s (out, distinct) own all = elim (all id (inl refl)) [
    | inr skip ↦
        let (s', e, a) =
          adjust_all_lem ids s distinct (λ i j u w. own i j (inr u) (inr w))
            (λ j w. all j (inr w)) in
        (s', adjust_skip id ids s skip ∙ e, Adjusted-Skipped id ids s s' skip a)
    | inl v ↦
        let (s', e, a) =
          adjust_all_lem ids (adjust id v.conn s) distinct (λ i j u w. own i j (inr u) (inr w))
            (λ j w. still id ids s v out own j w (all j (inr w))) in
        (s', adjust_step id ids s v ∙ e, Adjusted-Bound id ids s s' v out own a)
  ]
