-- ===== src/Tests/ClientGame.antt =====
-- Frames of a small game.
use cs416_tanks.Base.{
  ℕ, true, false, ◌≡◌, refl, inl, inr, [], ◌∷◌, ◌++◌, lookup, insert, contains, nat_eq, some, arith,
  In, AllDistinct, leb,
}
use cs416_tanks.Base.Int.{pos, ◌+ℤ◌}
use cs416_tanks.Clock.{Time, before}
use cs416_tanks.Tests.Grid.{vec, grid}
use cs416_tanks.Update.{UpdateKind, timestamp}
use cs416_tanks.Client.Record.{State, fence_at, prune_history, prune_from, record_worker}
use cs416_tanks.Client.Game.{player_update, player_accept, Player, Bullet, Game, bullet_update}
use cs416_tanks.Client.Game.Input.{
  Keys, Stamps, input_update, do_local_input, BotTurn, bot_step, bot_place, bot_update, aim,
  finish_move, generate_move,
}
use cs416_tanks.Client.Game.Input.Window.{
  Rectangles, Between, do_local_input_lem, generate_move-Between,
}
use cs416_tanks.Client.Game.Bullets.{
  do_update_bullets, bullet_rounds, bullet_round, check_bullet, kill_bullet, close_gap,
}
use cs416_tanks.Client.Game.Bullets.Frames.{Live}
use cs416_tanks.Client.Game.Bullets.Skips.{Leaves, next_skipped}

abbrev pub me : Player grid
me = record { id = 9; place = vec 10 20; angle = 3 }

abbrev pub shell : ℕ → Bullet grid
shell n = record { player_id = 7; place = vec n 300; angle = 0 }

-- Three bullets, the first of them close to the right edge of a window of 500 by 500.
abbrev pub game : Game grid
game = record {
  local_player = me;
  players = (7, record { id = 7; place = vec 50 60; angle = 0 }) ∷ [];
  player_ids = 7 ∷ [];
  bullets = 1 ∷ 2 ∷ 3 ∷ [];
  heap = (1, shell 400) ∷ (2, shell 100) ∷ (3, shell 200) ∷ [];
  next = 4;
  alive = true;
  record_updates = [];
  tasks = [];
}

abbrev pub stamp : ℕ → Time × ℕ
stamp i = (pos 5000000000, i)

game-Live : Live grid 1 (vec 0 0) (vec 500 500) stamp game
unfolding lookup
game-Live p (inl e) = (shell 400, rw e refl)
game-Live p (inr (inl e)) = (shell 100, rw e refl)
game-Live p (inr (inr (inl e))) = (shell 200, rw e refl)
game-Live p (inr (inr (inr v))) = absurd v

one_two_three : AllDistinct {A = ℕ} (1 ∷ 2 ∷ 3 ∷ [])
one_two_three = ((λ v. ground arith), ((λ v. ground arith), ((λ v. v), tt)))

first-Leaves : Leaves grid 1 (vec 0 0) (vec 500 500) stamp game.heap 1
unfolding lookup bullet_update
first-Leaves = (shell 400, refl, refl)

next_skipped_example :
    (s' : Game grid) × (do_update_bullets grid 1 (vec 0 0) (vec 500 500) stamp game ≡ some s')
    × (lookup 2 s'.heap ≡ lookup 2 game.heap)
next_skipped_example =
    next_skipped grid 1 (vec 0 0) (vec 500 500) stamp game [] 1 2 3 [] refl one_two_three
      (λ t v. absurd v) first-Leaves game-Live

-- The third bullet is moved twice in that frame.
moved_twice :
    do_update_bullets grid 1
      (vec 0 0)
      (vec 500 500)
      stamp
      (record game { heap = (1, shell 400) ∷ (2, shell 100) ∷ (3, shell 0) ∷ [] })
    ≡ some (record game {
      bullets = 2 ∷ 3 ∷ [];
      heap = (1, shell 600) ∷ (2, shell 100) ∷ (3, shell 400) ∷ [];
    })
unfolding do_update_bullets bullet_rounds bullet_round check_bullet kill_bullet close_gap
    bullet_update lookup insert
moved_twice = refl

grid-Rectangles : Rectangles grid (vec 0 0) (vec 500 500) leb
grid-Rectangles = record {
  contains_iff = λ v. refl;
  clamp_low = λ n l h e. ground arith;
  clamp_high = λ n l h e. ground arith;
}

abbrev pub keys_held : Keys
keys_held = record { a = false; d = true; s = false; w = true; enter = false; click = true }

abbrev pub stamps : Stamps
stamps = record { now = pos 5000000000; nonce = 41; shot_now = pos 5000000001; shot_nonce = 42 }

abbrev records : State grid
records = record { records = []; history = []; history_map = []; displayed = []; sent = [] }

young : before stamps.now (fence_at (pos 5000000002)) ≡ false
unfolding ◌+ℤ◌
young = refl

fresh : contains stamps.nonce (prune_history grid (pos 5000000003) records).history_map ≡ false
unfolding contains lookup prune_history prune_from
fresh = refl

do_local_input_lem_example :
    let s' = do_local_input grid keys_held (vec 90 90) 1 (vec 0 0) (vec 500 500) stamps game in
    let u =
      input_update grid keys_held (vec 90 90) 1 (vec 0 0) (vec 500 500) stamps game.local_player in
    let r' =
      record_worker grid 9 (vec 0 0) (vec 500 500) (pos 5000000002) (pos 5000000003) u records in
    (grid.rect_contains (vec 0 0) (vec 500 500) s'.local_player.place ≡ true)
    × (s'.local_player.place ≡ u.place)
    × (s'.local_player.angle ≡ u.angle)
    × In u s'.record_updates
    × (r'.sent ≡ records.sent ++ u ∷ [])
    × (r'.displayed ≡ records.displayed ++ u ∷ [])
do_local_input_lem_example =
    do_local_input_lem grid (vec 0 0) (vec 500 500) leb keys_held (vec 90 90) 1 stamps game
      (pos 5000000002) (pos 5000000003) records grid-Rectangles refl refl young fresh

abbrev turn : BotTurn grid
turn = record { aims = true; fires = false; target = 7; dx = 495; dy = 5 }

abbrev bot_moved : Game grid
bot_moved = record game {
  local_player = record me { place = vec 10 25; angle = 40 };
  record_updates =
      timestamp grid
        (record {
          kind = UpdateKind.position;
          time = pos 0;
          nonce = 0;
          player_id = 9;
          other_player = 0;
          place = vec 10 25;
          angle = 40;
        })
        stamps.now stamps.nonce
      ∷ [];
}

-- The step to the right would leave the window, the step up does not.
bot_runs : generate_move grid turn (vec 0 0) (vec 500 500) stamps game ≡ some bot_moved
unfolding generate_move aim bot_update bot_place bot_step finish_move timestamp player_update
    player_accept lookup
bot_runs = refl

generate_move-Between_example :
    Between grid (vec 0 0) (vec 500 500) bot_moved.local_player.place
    × (bot_moved.players ≡ game.players)
    × (bot_moved.alive ≡ game.alive)
generate_move-Between_example =
    generate_move-Between grid (vec 0 0) (vec 500 500) turn stamps game bot_moved (refl, refl)
      bot_runs
