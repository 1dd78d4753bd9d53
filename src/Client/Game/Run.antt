-- ===== src/Client/Game/Run.antt =====
-- `run`, `doDraw` and `doDrawLocal` of client/client.go: a frame of the game, and the loop over the
-- frames until the window is closed. What is drawn stands for the calls of the drawing library.
pub mod Lives
pub mod Rest
pub mod Safe
use cs416_tanks.Base.{
  ℕ, Bool, true, false, List, [], ◌∷◌, Map, lookup, Option, none, some, nat_eq, if◌then◌else◌,
}
use cs416_tanks.Clock.{Time}
use cs416_tanks.Geometry.{Vec, Geometry}
use cs416_tanks.Update.{Update}
use cs416_tanks.Client.Game.{Player, Bullet, Game, do_accept_updates, do_draw}
use cs416_tanks.Client.Game.Bullets.{do_update_bullets}
use cs416_tanks.Client.Game.Input.{Keys, Stamps, do_local_input}

module _ (g : Geometry) where
  -- What one frame is given: the seconds since the last one, the readings of the clock and the nonces
  -- for `doUpdateBullets` and `doLocalInput`, the keys and the mouse, and the updates that wait.
  pub record Input : Type 0 where
    pub dt : g.F
    pub stamp : ℕ → Time × ℕ
    pub keys : Keys
    pub mouse : Vec g.F
    pub stamps : Stamps
    pub updates : List (Update g)

  -- The line of `doDrawLocal`, the players and the bullets.
  pub record Picture : Type 0 where
    pub line : Option (Vec g.F × Vec g.F)
    pub players : List (Player g)
    pub bullets : List (Bullet g)

  -- `localPlayer.Pos` and `endPoint`
  unfoldable pub do_draw_local : Vec g.F → Vec g.F → Player g → Vec g.F × Vec g.F
  do_draw_local lo hi me =
      let line_length = g.vec_len (g.vec_sub hi lo) in
      (
        me.place,
        g.vec_add (g.scaled (record { x = g.cos me.angle; y = g.sin me.angle }) line_length)
            me.place,
      )

  -- The loop over the bullets; `none` is a nil pointer.
  unfoldable pub draw_bullets : List ℕ → Map ℕ (Bullet g) → Option (List (Bullet g))
  draw_bullets [] m = some []
  draw_bullets (p ∷ ps) m = elim (lookup p m) [
    | none ↦ none
    | some b ↦ elim (draw_bullets ps m) [ none ↦ none | some bs ↦ some (b ∷ bs) ]
  ]

  unfoldable pub draw_all : Vec g.F → Vec g.F → Game g → Option Picture
  draw_all lo hi s = elim (do_draw g s.player_ids s.players) [
    | none ↦ none
    | some ps ↦ elim (draw_bullets s.bullets s.heap) [
      | none ↦ none
      | some bs ↦ some (record {
        line = if s.alive then some (do_draw_local lo hi s.local_player) else none;
        players = ps;
        bullets = bs;
      })
    ]
  ]

  -- `if alive { doLocalInput(dt) }`
  abbrev pub input_if_alive : Vec g.F → Vec g.F → Input → Game g → Game g
  input_if_alive lo hi i s =
      if s.alive then do_local_input g i.keys i.mouse i.dt lo hi i.stamps s else s

  -- One frame; `visits` is the order of a `range` over the players.
  unfoldable pub run_frame :
      Vec g.F → Vec g.F → (Map ℕ (Player g) → List ℕ) → Input → Game g → Option (Picture × Game g)
  run_frame lo hi visits i s = elim (do_update_bullets g i.dt lo hi i.stamp s) [
    | none ↦ none
    | some s1 ↦ elim (do_accept_updates g visits i.updates (input_if_alive lo hi i s1)) [
      | none ↦ none
      | some s2 ↦ elim (draw_all lo hi s2) [ none ↦ none | some p ↦ some (p, s2) ]
    ]
  ]

  -- The frames until the window is closed.
  unfoldable pub run :
      Vec g.F
      → Vec g.F
      → (Map ℕ (Player g) → List ℕ)
      → List Input
      → Game g
      → Option (List Picture × Game g)
  run lo hi visits [] s = some ([], s)
  run lo hi visits (i ∷ is) s = elim (run_frame lo hi visits i s) [
    | none ↦ none
    | some (p, s1) ↦ elim (run lo hi visits is s1) [
      | none ↦ none
      | some (ps, s2) ↦ some (p ∷ ps, s2)
    ]
  ]
