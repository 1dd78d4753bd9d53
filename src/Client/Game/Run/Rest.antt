-- ===== src/Client/Game/Run/Rest.antt =====
-- What the input and the updates of a frame leave as it is: whether the player is alive, and that
-- every address in `bullets` has a bullet.
use cs416_tanks.Base.{
  ℕ, Bool, true, false, ◌≡◌, refl, subst, ◌∙◌, inl, inr, List, [], ◌∷◌, ◌++◌, Map, lookup, insert,
  erase, contains, lookup-insert, Option, some, nat_eq, ◌==◌, arith, In, In-append, Option-cases,
  Bool-cases, if◌then◌else◌,
}
use cs416_tanks.Clock.{Time}
use cs416_tanks.Geometry.{Vec, Geometry}
use cs416_tanks.Update.{Update, UpdateKind-cases}
use cs416_tanks.Client.Game.{
  Player, Bullet, Game, add_bullet, meet, count_kill, take_in, do_accept_updates, shoot,
  player_accept,
}
use cs416_tanks.Client.Game.Input.{Keys, Stamps, input_update, do_local_input}
use cs416_tanks.Client.Game.Run.{Input, input_if_alive}

module _ (g : Geometry) where
  -- Every address in `bullets` has a bullet.
  abbrev pub AllLive : Game g → Type 0
  AllLive s = (p : ℕ) → In p s.bullets → (b : Bullet g) × (lookup p s.heap ≡ some b)

  add_bullet-AllLive : (b : Bullet g) (s : Game g) → AllLive s → AllLive (add_bullet g b s)
  unfolding add_bullet
  add_bullet-AllLive b s live p v = elim (Bool-cases (s.next == p)) [
    | inl same ↦ (b, ground (arith, lookup-insert p s.next b s.heap))
    | inr other ↦ elim (In-append p s.bullets (s.next ∷ []) v) [
      | inl old ↦
          let (c, there) = live p old in (c, ground (arith, lookup-insert p s.next b s.heap, there))
      | inr (inl e) ↦ absurd (ground arith)
      | inr (inr no_more) ↦ absurd no_more
    ]
  ]

  -- What neither input nor updates change.
  abbrev pub Rest : Game g → Game g → Type 0
  Rest s s' = (s'.alive ≡ s.alive) × (AllLive s → AllLive s')

  add_bullet-Rest : (b : Bullet g) (s : Game g) → Rest s (add_bullet g b s)
  unfolding add_bullet
  add_bullet-Rest b s = (refl, add_bullet-AllLive b s)

  count_kill-Rest : (killer : ℕ) (s : Game g) → Rest s (count_kill g killer s)
  count_kill-Rest killer s = elim (Bool-cases (killer == s.local_player.id)) [
    | inl own ↦ rw own (refl, λ live. live)
    | inr other ↦ rw other (refl, λ live. live)
  ]

  -- `s'` is what `some` holds.
  became :
      (s s1 s' : Game g) → Rest s s1 → ◌≡◌ {A = Option (Game g)} (some s1) (some s') → Rest s s'
  became s s1 s' rest e = let same : s1 ≡ s' = (cc e) in subst (Rest s) same rest

  take_in-Rest :
      (visits : Map ℕ (Player g) → List ℕ) (u : Update g) (s s' : Game g)
      → take_in g visits u s ≡ some s'
      → Rest s s'
  unfolding take_in
  take_in-Rest visits u s s' e = elim (UpdateKind-cases u.kind) [
    | inl k ↦
        became s _ s'
          (count_kill-Rest u.other_player (record s {
            players = erase u.player_id s.players;
            player_ids = visits (erase u.player_id s.players);
          }))
          (rw (k, take_in) at e)
    | inr (inl k) ↦ became s _ s' (add_bullet-Rest _ s) (rw (k, take_in) at e)
    | inr (inr (inr (z, k))) ↦ became s s s' (refl, λ live. live) (rw (k, take_in) at e)
    | inr (inr (inl k)) ↦ elim (Option-cases (lookup u.player_id s.players)) [
      | inl lost ↦ cc (rw (lost, take_in) at (rw (k, take_in) at e))
      | inr (p, there) ↦
          became s (record s { players = insert u.player_id (player_accept g p u) s.players }) s'
            (refl, λ live. live) (rw (there, take_in) at (rw (k, take_in) at e))
    ]
  ]

  meet-Rest : (id : ℕ) (s : Game g) → Rest s (meet g id s)
  unfolding meet
  meet-Rest id s = elim (Bool-cases (contains id s.players)) [
    | inl known ↦ rw (known, meet) (refl, λ live. live)
    | inr new ↦ rw (new, meet) (refl, λ live. live)
  ]

  pub do_accept_updates-Rest :
      (visits : Map ℕ (Player g) → List ℕ) (us : List (Update g)) (s s' : Game g)
      → do_accept_updates g visits us s ≡ some s'
      → Rest s s'
  unfolding do_accept_updates
  do_accept_updates-Rest visits [] s s' e = became s s s' (refl, λ live. live) e
  do_accept_updates-Rest visits (u ∷ us) s s' e =
      elim (Bool-cases (u.player_id == s.local_player.id)) [
        | inl own ↦ do_accept_updates-Rest visits us s s' (rw (own, do_accept_updates) at e)
        | inr other ↦
            let e' = rw (other, do_accept_updates) at e in
            elim (Option-cases (take_in g visits u (meet g u.player_id s))) [
              | inl lost ↦ cc (rw lost at e')
              | inr (s1, one) ↦
                  let (alive0, live0) = meet-Rest u.player_id s in
                  let (alive1, live1) = take_in-Rest visits u (meet g u.player_id s) s1 one in
                  let (alive2, live2) = do_accept_updates-Rest visits us s1 s' (rw one at e') in
                  (alive2 ∙ alive1 ∙ alive0, λ live. live2 (live1 (live0 live)))
            ]
      ]

  shoot-Rest : (now : Time) (nonce : ℕ) (s : Game g) → Rest s (shoot g now nonce s)
  unfolding shoot add_bullet
  shoot-Rest now nonce s = (refl, λ live. add_bullet-AllLive _ s live)

  player_accept-id : (p : Player g) (u : Update g) → (player_accept g p u).id ≡ p.id
  unfolding player_accept
  player_accept-id p u = ground arith

  -- Nor does input change the players and what is counted.
  abbrev pub Others : Game g → Game g → Type 0
  Others s s' =
      Rest s s'
      × (s'.tasks ≡ s.tasks)
      × (s'.players ≡ s.players)
      × (s'.player_ids ≡ s.player_ids)
      × (s'.local_player.id ≡ s.local_player.id)

  either : (P : Game g → Type 0) (b : Bool) (s t : Game g) → P s → P t → P (if b then s else t)
  either P true s t hs ht = hs
  either P false s t hs ht = ht

  do_local_input-Others :
      (k : Keys) (mouse : Vec g.F) (dt : g.F) (lo hi : Vec g.F) (stamps : Stamps) (s : Game g)
      → Others s (do_local_input g k mouse dt lo hi stamps s)
  unfolding do_local_input shoot add_bullet
  do_local_input-Others k mouse dt lo hi stamps s =
      let u = input_update g k mouse dt lo hi stamps s.local_player in
      let moved = record s { local_player = player_accept g s.local_player u } in
      either (λ t. Others s (record t { record_updates = t.record_updates ++ u ∷ [] })) k.click
        (shoot g stamps.shot_now stamps.shot_nonce moved) moved
        ((refl, add_bullet-AllLive _ moved), refl, refl, refl, player_accept-id s.local_player u)
        ((refl, λ live. live), refl, refl, refl, player_accept-id s.local_player u)

  pub input_if_alive-Others :
      (lo hi : Vec g.F) (i : Input g) (s : Game g) → Others s (input_if_alive g lo hi i s)
  input_if_alive-Others lo hi i s =
      either (Others s) s.alive (do_local_input g i.keys i.mouse i.dt lo hi i.stamps s) s
        (do_local_input-Others i.keys i.mouse i.dt lo hi i.stamps s)
        ((refl, λ live. live), refl, refl, refl, refl)
