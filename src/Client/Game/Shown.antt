-- ===== src/Client/Game/Shown.antt =====
-- One update in `doAcceptUpdates`: the list of player ids, and the kills that are counted.
use cs416_tanks.Base.{
  ℕ, true, not, ◌&&◌, ◌≡◌, ◌≢◌, refl, sym, subst, ap, ◌∙◌, ◌⊎◌, ◌↔◌, inl, inr, List, [], ◌∷◌, ◌++◌,
  append-nil, Map, lookup, insert, erase, contains, lookup-insert, nat_eq, ◌==◌, some, arith, In,
  In-append, In-append_left, In-append_right, AllDistinct, AllDistinct-append, Bool-cases,
  Option-cases, if◌then◌else◌,
}
use cs416_tanks.Geometry.{Geometry}
use cs416_tanks.Base.Int.{ℤ}
use cs416_tanks.Update.{UpdateKind, Update, UpdateKind-cases}
use cs416_tanks.Client.Game.{
  Task, add_kill, Player, player_accept, Game, count_kill, add_bullet, meet, take_in,
}

module _ (g : Geometry) where
  -- The ids are the keys, each once.
  abbrev pub IsRange : List ℕ → Map ℕ (Player g) → Type 0
  IsRange ids m = AllDistinct ids × ((id : ℕ) → In id ids ↔ (contains id m ≡ true))

  -- `playerIds` lists the players.
  abbrev pub Listed : Game g → Type 0
  Listed s = IsRange s.player_ids s.players

  -- The kills that updates report to the player `me`.
  abbrev pub kills_of : ℕ → List (Update g) → List Task
  kills_of me [] = []
  kills_of me (u ∷ us) =
      let rest = kills_of me us in
      let own = not (u.player_id == me) && u.other_player == me in
      elim u.kind [
        | UpdateKind.dead ↦ if own then add_kill ∷ rest else rest
        | UpdateKind.fire ↦ rest
        | UpdateKind.position ↦ rest
        | UpdateKind.other z ↦ rest
      ]

  contains-insert_iff :
      (j k : ℕ) (v : Player g) (m : Map ℕ (Player g))
      → (contains j (insert k v m) ≡ true) ↔ ((j ≡ k) ⊎ (contains j m ≡ true))
  unfolding contains
  contains-insert_iff j k v m =
      (λ h. ground (arith, lookup-insert j k v m), λ h. ground (arith, lookup-insert j k v m))

  pub meet-Listed :
      (id : ℕ) (s : Game g)
      → Listed s
      → Listed (meet g id s)
        × (contains id (meet g id s).players ≡ true)
        × ((meet g id s).tasks ≡ s.tasks)
        × ((meet g id s).local_player ≡ s.local_player)
  unfolding meet
  meet-Listed id s (distinct, range) = elim (Bool-cases (contains id s.players)) [
    | inl known ↦ rw (known, meet) ((distinct, range), known, refl, refl)
    | inr new ↦
        rw (new, meet)
          (
            (
              AllDistinct-append s.player_ids (id ∷ []) distinct ((λ v. v), tt)
                  λ j v w. elim w [
                    | inl e ↦ cc ((range id).0 (subst (λ t. In t s.player_ids) e v), new)
                    | inr no_more ↦ no_more
                  ],
              λ j. (
                λ v.
                    (contains-insert_iff j id _ s.players).1
                      (elim (In-append j s.player_ids (id ∷ []) v) [
                        | inl old ↦ inr ((range j).0 old)
                        | inr (inl e) ↦ inl e
                        | inr (inr no_more) ↦ absurd no_more
                      ]),
                λ h. elim ((contains-insert_iff j id _ s.players).0 h) [
                  | inl e ↦ In-append_right j s.player_ids (id ∷ []) (inl e)
                  | inr old ↦ In-append_left j s.player_ids (id ∷ []) ((range j).1 old)
                ],
              ),
            ),
            (contains-insert_iff id id _ s.players).1 (inl refl),
            refl,
            refl,
          )
  ]

  -- What an update leaves: the list fits, and the tasks are those of before and the kills counted.
  abbrev pub Took : List Task → Game g → Game g → Type 0
  Took more s s' = Listed s' × (s'.tasks ≡ s.tasks ++ more) × (s'.local_player ≡ s.local_player)

  count_kill-same :
      (killer : ℕ) (s : Game g)
      → ((count_kill g killer s).player_ids ≡ s.player_ids)
        × ((count_kill g killer s).players ≡ s.players)
        × ((count_kill g killer s).local_player ≡ s.local_player)
        × ((count_kill g killer s).tasks
            ≡ s.tasks ++ (if killer == s.local_player.id then add_kill ∷ [] else []))
  count_kill-same killer s = ground (arith, append-nil s.tasks)

  take_dead :
      (visits : Map ℕ (Player g) → List ℕ) (u : Update g) (s : Game g)
      → ((m : Map ℕ (Player g)) → IsRange (visits m) m)
      → u.kind ≡ UpdateKind.dead
      → u.player_id ≢ s.local_player.id
      → (s' : Game g) × (take_in g visits u s ≡ some s')
        × Took (kills_of s.local_player.id (u ∷ [])) s s'
  unfolding take_in
  take_dead visits u s ranges k other =
      let left = erase u.player_id s.players in
      let t = record s { players = left; player_ids = visits left } in
      let (ids, players, me, tasks) = count_kill-same u.other_player t in
      (
        count_kill g u.other_player t,
        rw (k, take_in) refl,
        (
          subst (λ ns. IsRange ns (count_kill g u.other_player t).players) (sym ids)
              (subst (IsRange (visits left)) (sym players) (ranges left)),
          tasks ∙ ap (λ ks. s.tasks ++ ks) (counted k other),
          me,
        ),
      )
    where
      counted :
          u.kind ≡ UpdateKind.dead
          → u.player_id ≢ s.local_player.id
          → (if u.other_player == s.local_player.id then add_kill ∷ [] else [])
            ≡ kills_of s.local_player.id (u ∷ [])
      counted k' other' = ground arith

  take_fire :
      (visits : Map ℕ (Player g) → List ℕ) (u : Update g) (s : Game g)
      → u.kind ≡ UpdateKind.fire
      → Listed s
      → (s' : Game g) × (take_in g visits u s ≡ some s')
        × Took (kills_of s.local_player.id (u ∷ [])) s s'
  unfolding take_in add_bullet
  take_fire visits u s k listed = (
    add_bullet g (record { player_id = u.player_id; place = u.place; angle = u.angle }) s,
    rw (k, take_in) refl,
    (listed, rw (k, kills_of) (sym (append-nil s.tasks)), refl),
  )

  take_other :
      (visits : Map ℕ (Player g) → List ℕ) (u : Update g) (z : ℤ) (s : Game g)
      → u.kind ≡ UpdateKind.other z
      → Listed s
      → (s' : Game g) × (take_in g visits u s ≡ some s')
        × Took (kills_of s.local_player.id (u ∷ [])) s s'
  unfolding take_in
  take_other visits u z s k listed =
      (s, rw (k, take_in) refl, (listed, rw (k, kills_of) (sym (append-nil s.tasks)), refl))

  take_in-position :
      (visits : Map ℕ (Player g) → List ℕ) (u : Update g) (p : Player g) (s : Game g)
      → u.kind ≡ UpdateKind.position
      → lookup u.player_id s.players ≡ some p
      → take_in g visits u s
        ≡ some (record s { players = insert u.player_id (player_accept g p u) s.players })
  unfolding take_in
  take_in-position visits u p s k e = ground arith

  take_position :
      (visits : Map ℕ (Player g) → List ℕ) (u : Update g) (s : Game g)
      → u.kind ≡ UpdateKind.position
      → Listed s
      → contains u.player_id s.players ≡ true
      → (s' : Game g) × (take_in g visits u s ≡ some s')
        × Took (kills_of s.local_player.id (u ∷ [])) s s'
  unfolding contains
  take_position visits u s k (distinct, range) known =
      elim (Option-cases (lookup u.player_id s.players)) [
        | inl lost ↦ absurd (cc (rw (lost, contains) at known))
        | inr (p, e) ↦
            let m = insert u.player_id (player_accept g p u) s.players in
            (
              record s { players = m },
              take_in-position visits u p s k e,
              (
                (
                  distinct,
                  λ j. (
                    λ v. (contains-insert_iff j u.player_id _ s.players).1 (inr ((range j).0 v)),
                    λ h. elim ((contains-insert_iff j u.player_id _ s.players).0 h) [
                      | inl same ↦
                          subst (λ t. In t s.player_ids) (sym same) ((range u.player_id).1 known)
                      | inr old ↦ (range j).1 old
                    ],
                  ),
                ),
                rw (k, kills_of) (sym (append-nil s.tasks)),
                refl,
              ),
            )
      ]

  pub take_in-Took :
      (visits : Map ℕ (Player g) → List ℕ) (u : Update g) (s : Game g)
      → ((m : Map ℕ (Player g)) → IsRange (visits m) m)
      → Listed s
      → contains u.player_id s.players ≡ true
      → u.player_id ≢ s.local_player.id
      → (s' : Game g) × (take_in g visits u s ≡ some s')
        × Took (kills_of s.local_player.id (u ∷ [])) s s'
  take_in-Took visits u s ranges listed known other = elim (UpdateKind-cases u.kind) [
    | inl k ↦ take_dead visits u s ranges k other
    | inr (inl k) ↦ take_fire visits u s k listed
    | inr (inr (inl k)) ↦ take_position visits u s k listed known
    | inr (inr (inr (z, k))) ↦ take_other visits u z s k listed
  ]

  pub kills_of-cons :
      (me : ℕ) (u : Update g) (us : List (Update g))
      → kills_of me (u ∷ us) ≡ kills_of me (u ∷ []) ++ kills_of me us
  kills_of-cons me u us = ground arith

  pub kills_of-own :
      (me : ℕ) (u : Update g) (us : List (Update g))
      → u.player_id ≡ me
      → kills_of me (u ∷ us) ≡ kills_of me us
  kills_of-own me u us e = ground arith
