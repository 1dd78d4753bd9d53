-- ===== src/Client/Record/Checks.antt =====
-- Which updates `RecordWorker` passes on, and what it knows of their players afterwards.
use cs416_tanks.Base.{
  ℕ, false, ◌≡◌, ◌≢◌, refl, sym, subst, ◌⊎◌, inl, inr, ◌++◌, [], ◌∷◌, lookup, contains, erase, Map,
  lookup-insert_self, lookup-insert_ne, lookup-erase, nat_eq, none, some, arith, Bool-cases,
}
use cs416_tanks.Clock.{Time, before}
use cs416_tanks.Geometry.{Vec, Geometry}
use cs416_tanks.Update.{UpdateKind, Update}
use cs416_tanks.Client.Record.{
  PlayerRecord, put_record, State, fence_at, accept, prune_history, take_update, take_fire,
  take_position, pass_on, record_worker,
}
use cs416_tanks.Client.Record.Fits.{FitsAs, Fits, take_fire-cases, take_position-cases}
use cs416_tanks.Client.Record.History.{prune_from-sent}
use cs416_tanks.Client.Record.Once.{noted}

module _ (g : Geometry) (me : ℕ) (lo hi : Vec g.F) where
  -- The record of the player has the position, the angle and the time of the update.
  abbrev pub StandsAt : Update g → Map ℕ (PlayerRecord g) → Type 0
  StandsAt u m =
      (r : PlayerRecord g) × (lookup u.player_id m ≡ some r)
      × (r.place ≡ u.place)
      × (r.angle ≡ u.angle)
      × (r.time ≡ u.time)

  -- What is known of the player of an update of each kind that has been passed on.
  abbrev pub KnownAs :
      UpdateKind → Update g → Map ℕ (PlayerRecord g) → Map ℕ (PlayerRecord g) → Type 0
  KnownAs UpdateKind.dead u m m' = lookup u.player_id m' ≡ none
  KnownAs UpdateKind.fire u m m' = m' ≡ m
  KnownAs UpdateKind.position u m m' = StandsAt u m'
  KnownAs (UpdateKind.other z) u m m' = m' ≡ m

  -- From `s` to `s'` the update is displayed and sent once, and no other player is affected.
  abbrev pub PassedAs : UpdateKind → Update g → State g → State g → Type 0
  PassedAs k u s s' =
      (s'.sent ≡ s.sent ++ u ∷ [])
      × (s'.displayed ≡ s.displayed ++ u ∷ [])
      × KnownAs k u s.records s'.records
      × ((j : ℕ) → u.player_id ≢ j → lookup j s'.records ≡ lookup j s.records)

  -- Nothing is displayed or sent, and no player is affected.
  abbrev pub Ignored : State g → State g → Type 0
  Ignored s s' = (s'.sent ≡ s.sent) × (s'.displayed ≡ s.displayed) × (s'.records ≡ s.records)

  -- An update of the kind `k`: passed on if it fits, and ignored if it does not.
  abbrev Decided : UpdateKind → Update g → State g → State g → Type 0
  Decided k u s s' =
      (FitsAs g me lo hi k u s.records × PassedAs k u s s')
      ⊎ (¬ FitsAs g me lo hi k u s.records × Ignored s s')

  passed_record :
      (u : Update g) (r : PlayerRecord g) (s : State g)
      → u.kind ≡ UpdateKind.position
      → PassedAs UpdateKind.position u s (pass_on g u (put_record g u.player_id (accept g r u) s))
  unfolding accept pass_on
  passed_record u r s k = (
    refl,
    refl,
    (
      accept g r u,
      lookup-insert_self u.player_id (accept g r u) s.records,
      rw (k, accept) refl,
      rw (k, accept) refl,
      rw (k, accept) refl,
    ),
    λ j ne. lookup-insert_ne j u.player_id (accept g r u) s.records ne,
  )

  -- The `switch` of `take_update`.
  abbrev switched : Update g → State g → UpdateKind → State g
  switched u s UpdateKind.dead = pass_on g u (record s { records = erase u.player_id s.records })
  switched u s UpdateKind.fire = take_fire g me u s
  switched u s UpdateKind.position = take_position g me lo hi u s
  switched u s (UpdateKind.other z) = pass_on g u s

  switched-Decided :
      (k : UpdateKind) (u : Update g) (s : State g) → u.kind ≡ k → Decided k u s (switched u s k)
  unfolding pass_on
  switched-Decided UpdateKind.dead u s k = inl (
    tt,
    (
      refl,
      refl,
      ground (arith, lookup-erase u.player_id u.player_id s.records),
      λ j ne. ground (arith, lookup-erase j u.player_id s.records),
    ),
  )
  switched-Decided UpdateKind.fire u s k = elim (take_fire-cases g me lo hi u s) [
    | inl (fits, e) ↦
        subst (Decided UpdateKind.fire u s) (sym e) (inl (fits, (refl, refl, refl, λ j ne. refl)))
    | inr (unfit, e) ↦ subst (Decided UpdateKind.fire u s) (sym e) (inr (unfit, (refl, refl, refl)))
  ]
  switched-Decided UpdateKind.position u s k = elim (take_position-cases g me lo hi u s) [
    | inl (fits, (r, e)) ↦
        subst (Decided UpdateKind.position u s) (sym e) (inl (fits, passed_record u r s k))
    | inr (unfit, e) ↦
        subst (Decided UpdateKind.position u s) (sym e) (inr (unfit, (refl, refl, refl)))
  ]
  switched-Decided (UpdateKind.other z) u s k = inl (tt, (refl, refl, refl, λ j ne. refl))

  take_update-switched :
      (u : Update g) (s : State g) → take_update g me lo hi u s ≡ switched u s u.kind
  unfolding take_update
  take_update-switched u s = refl

  take_update-Decided :
      (u : Update g) (s : State g) → Decided u.kind u s (take_update g me lo hi u s)
  take_update-Decided u s =
      subst (Decided u.kind u s) (sym (take_update-switched u s)) (switched-Decided u.kind u s refl)

  same_records : (now : Time) (s : State g) → Ignored s (prune_history g now s)
  unfolding prune_history
  same_records now s = prune_from-sent g (fence_at now) s.history s.history_map s

  -- The update is young enough, its nonce is not in the history after pruning, and it fits.
  abbrev pub IsTaken : Time → Time → Update g → State g → Type 0
  IsTaken now now' u s =
      (before u.time (fence_at now) ≡ false)
      × (contains u.nonce (prune_history g now' s).history_map ≡ false)
      × Fits g me lo hi u s.records

  after_pruning :
      (now now' : Time) (u : Update g) (s s' : State g)
      → before u.time (fence_at now) ≡ false
      → contains u.nonce (prune_history g now' s).history_map ≡ false
      → Decided u.kind u (noted g me lo hi u (prune_history g now' s)) s'
      → (IsTaken now now' u s × PassedAs u.kind u s s') ⊎ (¬ IsTaken now now' u s × Ignored s s')
  after_pruning now now' u s s' young new h =
      let p = prune_history g now' s in
      let (sent, displayed, records) = same_records now' s in
      let before_pruning : record s { sent = p.sent; displayed = p.displayed; records = p.records }
          ≡ s =
        (λ i. record s { sent = sent i; displayed = displayed i; records = records i }) in
      elim (subst (λ t. Decided u.kind u t s') before_pruning h) [
        | inl (fits, passed) ↦ inl ((young, new, fits), passed)
        | inr (unfit, ignored) ↦ inr (λ taken. unfit taken.2, ignored)
      ]

  pub record_worker-Checked :
      (now now' : Time) (u : Update g) (s : State g)
      → let s' = record_worker g me lo hi now now' u s in
        (IsTaken now now' u s × PassedAs u.kind u s s') ⊎ (¬ IsTaken now now' u s × Ignored s s')
  unfolding record_worker
  record_worker-Checked now now' u s = elim (Bool-cases (before u.time (fence_at now))) [
    | inl old ↦ inr (λ taken. cc (old, taken.0), rw (old, record_worker) (refl, refl, refl))
    | inr young ↦ elim (Bool-cases (contains u.nonce (prune_history g now' s).history_map)) [
      | inl seen ↦
          inr
            (λ taken. cc (seen, taken.1), rw (young, record_worker) (rw seen (same_records now' s)))
      | inr new ↦ after_pruning now now' u s (record_worker g me lo hi now now' u s) young new (
          rw (young, record_worker)
            (rw new (take_update-Decided u (noted g me lo hi u (prune_history g now' s)))))
    ]
  ]
