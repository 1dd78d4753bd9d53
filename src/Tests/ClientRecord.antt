-- ===== src/Tests/ClientRecord.antt =====
-- A client that hears of updates, over a geometry of natural numbers.
use cs416_tanks.Base.{
  ℕ, false, true, sym, ◌∙◌, ◌++◌, insert, erase, ◌≡◌, ◌≢◌, refl, List, [], ◌∷◌, lookup, nat_eq,
  true, contains,
}
use cs416_tanks.Base.Int.{◌+ℤ◌, ◌≤ℤ◌, pos, int_laws}
use cs416_tanks.Clock.{Time, before, add}
use cs416_tanks.Tests.Grid.{vec, grid}
use cs416_tanks.Update.{UpdateKind, Update, timestamp, fire_bullet, dead_player}
use cs416_tanks.Client.Record.{
  State, time_delta, prune_history, prune_from, take_update, take_position, take_fire, pass_on,
  is_bad_shot, accept, record_worker, run_worker,
}
use cs416_tanks.Client.Record.History.{Tracks}
use cs416_tanks.Client.Record.Once.{record_worker-Tracks}
use cs416_tanks.Client.Record.Repeat.{no_repeat}
use cs416_tanks.Client.Record.Window.{repeat_at_fence}

abbrev start : State grid
start = record { records = []; history = []; history_map = []; displayed = []; sent = [] }

-- The position of player 7.
abbrev step : Update grid
step = record {
  kind = UpdateKind.position;
  time = pos 5000000000;
  nonce = 31;
  player_id = 7;
  other_player = 0;
  place = vec 10 20;
  angle = 3;
}

abbrev shot : Update grid
shot = timestamp grid (fire_bullet grid 7 (vec 10 20) 3) (pos 5000000100) 32

abbrev death : Update grid
death = timestamp grid (dead_player grid 7 9) (pos 5000000200) 33

abbrev now : Time
now = pos 5000000300

abbrev rounds : List (Time × Time × Update grid)
rounds = (now, now, shot) ∷ (now, now, step) ∷ (now, now, death) ∷ []

-- The game goes on with the first three updates, each once.
three_rounds :
    (run_worker grid 9 (vec 0 0) (vec 100 100) ((now, now, step) ∷ rounds) start).sent
    ≡ step ∷ shot ∷ death ∷ []
unfolding run_worker record_worker timestamp ◌+ℤ◌ contains lookup prune_history prune_from
    take_update take_position take_fire pass_on insert fire_bullet is_bad_shot accept dead_player
    erase
three_rounds = refl

unmarked : (n : ℕ) → contains n start.history_map ≢ true
unfolding contains lookup
unmarked n h = cc h

not_later : now ≤ℤ now
not_later = omega int_laws

start-Tracks : Tracks grid start
start-Tracks = ((λ n. (λ h. absurd (unmarked n h), λ v. absurd v)), tt)

step_sent : (record_worker grid 9 (vec 0 0) (vec 100 100) now now step start).sent ≡ step ∷ []
unfolding record_worker timestamp ◌+ℤ◌ contains lookup prune_history prune_from take_update
    take_position pass_on insert accept
step_sent = refl

step_passed : (record_worker grid 9 (vec 0 0) (vec 100 100) now now step start).sent ≢ start.sent
step_passed e = cc (sym step_sent ∙ e)

abbrev after : State grid
after =
    run_worker grid 9 (vec 0 0) (vec 100 100) rounds
      (record_worker grid 9 (vec 0 0) (vec 100 100) now now step start)

no_repeat_example :
    ((record_worker grid 9 (vec 0 0) (vec 100 100) now now step after).sent ≡ after.sent)
    × ((record_worker grid 9 (vec 0 0) (vec 100 100) now now step after).displayed
        ≡ after.displayed)
no_repeat_example =
    no_repeat grid 9 (vec 0 0) (vec 100 100) now now step rounds start start-Tracks step_passed
      (refl, not_later, (refl, not_later, (refl, not_later, not_later)))

record_worker-Tracks_example :
    Tracks grid (record_worker grid 9 (vec 0 0) (vec 100 100) now now step start)
record_worker-Tracks_example =
    record_worker-Tracks grid 9 (vec 0 0) (vec 100 100) now now step start start-Tracks

-- A kind that no client knows.
abbrev strange : Update grid
strange = record step { kind = UpdateKind.other (pos 4) }

strange_passed :
    (record_worker grid 9 (vec 0 0) (vec 100 100) now now strange start).sent ≡ strange ∷ []
unfolding record_worker timestamp ◌+ℤ◌ contains lookup prune_history prune_from take_update pass_on
    insert
strange_passed = refl

-- Player 7 has moved and died, and the move is older than the death.
abbrev after_death : State grid
after_death =
    record_worker grid 9 (vec 0 0) (vec 100 100) now now death
      (record_worker grid 9 (vec 0 0) (vec 100 100) now now step start)

after_death-Tracks : Tracks grid after_death
after_death-Tracks =
    record_worker-Tracks grid 9 (vec 0 0) (vec 100 100) now now death
      (record_worker grid 9 (vec 0 0) (vec 100 100) now now step start)
      (record_worker-Tracks grid 9 (vec 0 0) (vec 100 100) now now step start start-Tracks)

after_death-history : after_death.history ≡ step ∷ death ∷ []
unfolding record_worker timestamp ◌+ℤ◌ contains lookup prune_history prune_from take_update
    take_position pass_on insert accept dead_player erase
after_death-history = refl

death-young : before death.time (add (pos 6000000199) time_delta) ≡ false
unfolding timestamp ◌+ℤ◌
death-young = refl

both_old :
    (before step.time (add (pos 6000000201) time_delta) ≡ true)
    × (before death.time (add (pos 6000000201) time_delta) ≡ true)
unfolding timestamp ◌+ℤ◌
both_old = (refl, refl)

repeat_at_fence_example :
    let s' =
      record_worker grid 9
        (vec 0 0)
        (vec 100 100)
        (pos 6000000199)
        (pos 6000000201)
        death
        after_death in
    (s'.sent ≡ after_death.sent ++ death ∷ [])
    × (s'.displayed ≡ after_death.displayed ++ death ∷ [])
unfolding timestamp dead_player
repeat_at_fence_example =
    repeat_at_fence grid 9 (vec 0 0) (vec 100 100) (pos 6000000199) (pos 6000000201) death
      (step ∷ []) [] after_death after_death-Tracks after_death-history tt death-young
      (both_old.0, tt) both_old.1
