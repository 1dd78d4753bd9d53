-- ===== src/Client/Game/Input/Window.antt =====
-- The player stays in the window, and its own record of updates lets it move.
use cs416_tanks.Base.{
  ℕ, Bool, true, false, ◌&&◌, ◌||◌, ◌≡◌, refl, sym, subst, ap, ◌∙◌, [], ◌∷◌, ◌++◌, contains, nat_eq,
  Map, some, arith, In, In-append_right, inl, inr, Option-cases,
}
use cs416_tanks.Clock.{Time, before}
use cs416_tanks.Geometry.{Vec, Geometry}
use cs416_tanks.Update.{
  UpdateKind, Update, update_angle, move_left, move_right, move_down, move_up, bound, timestamp,
}
use cs416_tanks.Client.Record.{
  State, fence_at, prune_history, record_worker, take_position, take_update, pass_on,
}
use cs416_tanks.Client.Record.Once.{noted}
use cs416_tanks.Client.Record.Repeat.{same_sent}
use cs416_tanks.Client.Game.{Player, player_update, player_accept, Game, shoot, add_bullet}
use cs416_tanks.Client.Game.Input.{
  Keys, Stamps, steer, input_update, do_local_input, bot_step, BotTurn, aim, bot_place, bot_update,
  finish_move, generate_move,
}

module _ (g : Geometry) (lo hi : Vec g.F) where
  -- What `pixel.Rect.Contains` is documented to test, with a test of order `le`, and what
  -- `pixel.Clamp` is documented to give.
  pub record Rectangles (le : g.F → g.F → Bool) : Type 0 where
    pub contains_iff :
        (v : Vec g.F)
        → g.rect_contains lo hi v ≡ (le lo.x v.x && le v.x hi.x && le lo.y v.y && le v.y hi.y)
    pub clamp_low : (n l h : g.F) → le l h ≡ true → le l (g.clamp n l h) ≡ true
    pub clamp_high : (n l h : g.F) → le l h ≡ true → le (g.clamp n l h) h ≡ true

  kind_kept :
      (k : Keys) (mouse : Vec g.F) (dt : g.F) (u : Update g)
      → ((steer g k mouse dt u).kind ≡ u.kind) × ((steer g k mouse dt u).player_id ≡ u.player_id)
  unfolding steer move_left move_right move_down move_up
  kind_kept k mouse dt u = ground arith

  input_update-kind :
      (k : Keys) (mouse : Vec g.F) (dt : g.F) (stamps : Stamps) (me : Player g)
      → let u = input_update g k mouse dt lo hi stamps me in
        (u.kind ≡ UpdateKind.position)
        × (u.player_id ≡ me.id)
        × (u.time ≡ stamps.now)
        × (u.nonce ≡ stamps.nonce)
  unfolding input_update timestamp bound update_angle player_update
  input_update-kind k mouse dt stamps me =
      let h = kind_kept k mouse dt (player_update g me) in (h.0, h.1, refl, refl)

  input_update-inside :
      (le : g.F → g.F → Bool) (k : Keys) (mouse : Vec g.F) (dt : g.F) (stamps : Stamps)
      (me : Player g)
      → Rectangles le
      → le lo.x hi.x ≡ true
      → le lo.y hi.y ≡ true
      → g.rect_contains lo hi (input_update g k mouse dt lo hi stamps me).place ≡ true
  unfolding input_update timestamp bound
  input_update-inside le k mouse dt stamps me laws wide high =
      let u = update_angle g (steer g k mouse dt (player_update g me)) mouse in
      ground (
        arith,
        laws.contains_iff (bound g u lo hi).place,
        laws.clamp_low u.place.x lo.x hi.x wide,
        laws.clamp_high u.place.x lo.x hi.x wide,
        laws.clamp_low u.place.y lo.y hi.y high,
        laws.clamp_high u.place.y lo.y hi.y high,
      )

  own_position :
      (me : ℕ) (u : Update g) (r : State g)
      → u.kind ≡ UpdateKind.position
      → u.player_id ≡ me
      → g.rect_contains lo hi u.place ≡ true
      → ((take_update g me lo hi u r).sent ≡ r.sent ++ u ∷ [])
        × ((take_update g me lo hi u r).displayed ≡ r.displayed ++ u ∷ [])
  unfolding take_update take_position pass_on
  own_position me u r k own inside = ground arith

  -- `RecordWorker` takes a position of its own player that lies in the window, is young enough and
  -- has a nonce that is not marked.
  own_round :
      (me : ℕ) (now now' : Time) (u : Update g) (r : State g)
      → u.kind ≡ UpdateKind.position
      → u.player_id ≡ me
      → g.rect_contains lo hi u.place ≡ true
      → before u.time (fence_at now) ≡ false
      → contains u.nonce (prune_history g now' r).history_map ≡ false
      → let r' = record_worker g me lo hi now now' u r in
        (r'.sent ≡ r.sent ++ u ∷ []) × (r'.displayed ≡ r.displayed ++ u ∷ [])
  unfolding record_worker
  own_round me now now' u r k own inside young new =
      let sends = own_position me u (noted g me lo hi u (prune_history g now' r)) k own inside in
      let kept = same_sent g me lo hi now' r in
      rw (young, record_worker)
        (rw new
          (sends.0 ∙ ap (λ us. us ++ u ∷ []) kept.0, sends.1 ∙ ap (λ us. us ++ u ∷ []) kept.1))

  do_local_input-player :
      (k : Keys) (mouse : Vec g.F) (dt : g.F) (stamps : Stamps) (s : Game g)
      → (do_local_input g k mouse dt lo hi stamps s).local_player
        ≡ player_accept g s.local_player (input_update g k mouse dt lo hi stamps s.local_player)
  unfolding do_local_input shoot add_bullet
  do_local_input-player k mouse dt stamps s = ground arith

  do_local_input-noted :
      (k : Keys) (mouse : Vec g.F) (dt : g.F) (stamps : Stamps) (s : Game g)
      → let u = input_update g k mouse dt lo hi stamps s.local_player in
        In u (do_local_input g k mouse dt lo hi stamps s).record_updates
  unfolding do_local_input
  do_local_input-noted k mouse dt stamps s = In-append_right _ _ (_ ∷ []) (inl refl)

  player_accept-position :
      (p : Player g) (u : Update g)
      → u.kind ≡ UpdateKind.position
      → ((player_accept g p u).place ≡ u.place) × ((player_accept g p u).angle ≡ u.angle)
  unfolding player_accept
  player_accept-position p u k = ground arith

  -- Where the window is not empty: whatever keys are held and wherever the mouse is, the position
  -- that `doLocalInput` gives the player lies in the window, and it is sent and displayed by a
  -- round of `RecordWorker` that reads the clock less than a second later and has not marked its
  -- nonce.
  pub do_local_input_lem :
      (le : g.F → g.F → Bool) (k : Keys) (mouse : Vec g.F) (dt : g.F) (stamps : Stamps) (s : Game g)
      (now now' : Time) (r : State g)
      → Rectangles le
      → le lo.x hi.x ≡ true
      → le lo.y hi.y ≡ true
      → before stamps.now (fence_at now) ≡ false
      → contains stamps.nonce (prune_history g now' r).history_map ≡ false
      → let s' = do_local_input g k mouse dt lo hi stamps s in
        let u = input_update g k mouse dt lo hi stamps s.local_player in
        let r' = record_worker g s.local_player.id lo hi now now' u r in
        (g.rect_contains lo hi s'.local_player.place ≡ true)
        × (s'.local_player.place ≡ u.place)
        × (s'.local_player.angle ≡ u.angle)
        × In u s'.record_updates
        × (r'.sent ≡ r.sent ++ u ∷ [])
        × (r'.displayed ≡ r.displayed ++ u ∷ [])
  do_local_input_lem le k mouse dt stamps s now now' r laws wide high young new =
      let u = input_update g k mouse dt lo hi stamps s.local_player in
      let (kind, id, time, nonce) = input_update-kind k mouse dt stamps s.local_player in
      let inside = input_update-inside le k mouse dt stamps s.local_player laws wide high in
      let player = do_local_input-player k mouse dt stamps s in
      let stands = player_accept-position s.local_player u kind in
      let sends =
        own_round s.local_player.id now now' u r kind id inside (rw time young) (rw nonce new) in
      (
        ap (λ (p : Player g). g.rect_contains lo hi p.place) player
            ∙ ap (g.rect_contains lo hi) stands.0
            ∙ inside,
        ap (λ (p : Player g). p.place) player ∙ stands.0,
        ap (λ (p : Player g). p.angle) player ∙ stands.1,
        do_local_input-noted k mouse dt stamps s,
        sends.0,
        sends.1,
      )

  -- The tests of `GenerateMoves`.
  abbrev pub Between : Vec g.F → Type 0
  Between v =
      ((g.gt lo.x v.x || g.gt v.x hi.x) ≡ false) × ((g.gt lo.y v.y || g.gt v.y hi.y) ≡ false)

  aim-place :
      (turn : BotTurn g) (m : Map ℕ (Player g)) (u v : Update g)
      → aim g turn m u ≡ some v
      → (v.place ≡ u.place) × (v.kind ≡ u.kind)
  unfolding aim
  aim-place turn m u v e = ground arith

  bot_place-Between :
      (turn : BotTurn g) (p : Vec g.F) → Between p → Between (bot_place g turn lo hi p)
  unfolding bot_place bot_step
  bot_place-Between turn p h = ground arith

  bot_update-place :
      (turn : BotTurn g) (stamps : Stamps) (me : Player g)
      → ((bot_update g turn lo hi stamps me).place ≡ bot_place g turn lo hi me.place)
        × ((bot_update g turn lo hi stamps me).kind ≡ UpdateKind.position)
  unfolding bot_update timestamp player_update
  bot_update-place turn stamps me = (refl, refl)

  finish_move-player :
      (turn : BotTurn g) (stamps : Stamps) (u : Update g) (s : Game g)
      → u.kind ≡ UpdateKind.position
      → ((finish_move g turn stamps u s).local_player.place ≡ u.place)
        × ((finish_move g turn stamps u s).players ≡ s.players)
        × ((finish_move g turn stamps u s).alive ≡ s.alive)
  unfolding finish_move shoot add_bullet player_accept
  finish_move-player turn stamps u s k = ground arith

  -- A round of the bot that ends keeps the player between the corners, if it was there, and changes
  -- no other player.
  pub generate_move-Between :
      (turn : BotTurn g) (stamps : Stamps) (s s' : Game g)
      → Between s.local_player.place
      → generate_move g turn lo hi stamps s ≡ some s'
      → Between s'.local_player.place × (s'.players ≡ s.players) × (s'.alive ≡ s.alive)
  unfolding generate_move
  generate_move-Between turn stamps s s' h e = elim (Option-cases (aim g turn s.players u)) [
    | inl lost ↦ absurd (cc (rw (lost, generate_move) at e))
    | inr (v, aimed) ↦
        let same = aim-place turn s.players u v aimed in
        let ends : finish_move g turn stamps v s ≡ s' = cc (rw (aimed, generate_move) at e) in
        let result =
          finish_move-player turn stamps v s
            (same.1 ∙ (bot_update-place turn stamps s.local_player).1) in
        subst
          (λ (t : Game g).
            Between t.local_player.place × (t.players ≡ s.players) × (t.alive ≡ s.alive))
          ends
          (
            subst Between
                (sym (result.0 ∙ same.0 ∙ (bot_update-place turn stamps s.local_player).0))
                (bot_place-Between turn s.local_player.place h),
            result.1,
            result.2,
          )
  ]
    where
      u : Update g
      u = bot_update g turn lo hi stamps s.local_player
