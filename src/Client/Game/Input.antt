-- ===== src/Client/Game/Input.antt =====
-- `doLocalInput` of client/client.go, and a round of `GenerateMoves` of client/bot.go: how a player
-- moves.
pub mod Window
use cs416_tanks.Base.{
  ℕ, Bool, true, false, not, ◌&&◌, ◌||◌, List, [], ◌∷◌, ◌++◌, Map, lookup, Option, none, some, ◌==◌,
  nat_eq, if◌then◌else◌,
}
use cs416_tanks.Clock.{Time}
use cs416_tanks.Geometry.{Vec, Geometry}
use cs416_tanks.Update.{
  Update, update_angle, move_left, move_right, move_down, move_up, bound, timestamp,
}
use cs416_tanks.Client.Game.{Player, player_update, player_accept, Game, shoot}

-- The keys that are held, and whether the mouse button has just been pressed.
pub record Keys : Type 0 where
  pub a : Bool
  pub d : Bool
  pub s : Bool
  pub w : Bool
  pub enter : Bool
  pub click : Bool

-- The readings of the clock and the nonces of one call: for the position, and for a shot.
pub record Stamps : Type 0 where
  pub now : Time
  pub nonce : ℕ
  pub shot_now : Time
  pub shot_nonce : ℕ

module _ (g : Geometry) where
  -- The update after the keys that are held.
  unfoldable pub steer : Keys → Vec g.F → g.F → Update g → Update g
  steer k mouse dt u =
      let u1 = if k.a then move_left g u dt else u in
      let u2 = if k.d then move_right g u1 dt else u1 in
      let u3 = if k.s then move_down g u2 dt else u2 in
      let u4 = if k.w then move_up g u3 dt else u3 in
      if k.enter then record u4 { place = mouse } else u4

  -- The update that `doLocalInput` makes.
  unfoldable pub input_update :
      Keys → Vec g.F → g.F → Vec g.F → Vec g.F → Stamps → Player g → Update g
  input_update k mouse dt lo hi stamps me =
      timestamp g (bound g (update_angle g (steer k mouse dt (player_update g me)) mouse) lo hi)
        stamps.now stamps.nonce

  unfoldable pub do_local_input :
      Keys → Vec g.F → g.F → Vec g.F → Vec g.F → Stamps → Game g → Game g
  do_local_input k mouse dt lo hi stamps s =
      let u = input_update k mouse dt lo hi stamps s.local_player in
      let moved = record s { local_player = player_accept g s.local_player u } in
      let shot = if k.click then shoot g stamps.shot_now stamps.shot_nonce moved else moved in
      record shot { record_updates = shot.record_updates ++ u ∷ [] }

  -- The new coordinate of the bot, unless it leaves the window.
  unfoldable pub bot_step : g.F → g.F → g.F → g.F → g.F
  bot_step lo hi old new = if not (g.gt lo new || g.gt new hi) then new else old

  -- Whether it is time for a shot, by the first and by the second test, the player that the loop
  -- picks for its aim, 0 if there is none, and the step in both directions.
  pub record BotTurn : Type 0 where
    pub aims : Bool
    pub fires : Bool
    pub target : ℕ
    pub dx : g.F
    pub dy : g.F

  -- The angle towards the target; `none` is a nil pointer.
  unfoldable pub aim : BotTurn → Map ℕ (Player g) → Update g → Option (Update g)
  aim turn players u =
      if turn.aims && not (turn.target == 0)
      then elim (lookup turn.target players) [
        | none ↦ none
        | some p ↦ some (record u { angle = g.vec_angle (g.vec_sub p.place u.place) })
      ]
      else some u

  unfoldable pub bot_place : BotTurn → Vec g.F → Vec g.F → Vec g.F → Vec g.F
  bot_place turn lo hi p = record {
    x = bot_step lo.x hi.x p.x (g.add p.x turn.dx);
    y = bot_step lo.y hi.y p.y (g.add p.y turn.dy);
  }

  -- The update of a round, before the bot has aimed.
  unfoldable pub bot_update : BotTurn → Vec g.F → Vec g.F → Stamps → Player g → Update g
  bot_update turn lo hi stamps me =
      let u = timestamp g (player_update g me) stamps.now stamps.nonce in
      record u { place = bot_place turn lo hi u.place }

  -- What a round does with its update.
  unfoldable pub finish_move : BotTurn → Stamps → Update g → Game g → Game g
  finish_move turn stamps u s =
      let moved = record s {
        local_player = player_accept g s.local_player u;
        record_updates = s.record_updates ++ u ∷ [];
      } in
      if turn.fires then shoot g stamps.shot_now stamps.shot_nonce moved else moved

  -- One round of the loop of `GenerateMoves`.
  unfoldable pub generate_move : BotTurn → Vec g.F → Vec g.F → Stamps → Game g → Option (Game g)
  generate_move turn lo hi stamps s =
      elim (aim turn s.players (bot_update turn lo hi stamps s.local_player)) [
        | none ↦ none
        | some u ↦ some (finish_move turn stamps u s)
      ]
