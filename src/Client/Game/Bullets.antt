-- ===== src/Client/Game/Bullets.antt =====
-- `doUpdateBullets` of client/client.go. Its `range` reads the array that `bullets` had at the start,
-- as long as `bullets` was then, while `append(bullets[:i], bullets[i+1:]...)` moves the elements of
-- that same array. `cells` is the array and `len` the length of `bullets`.
pub mod Loop
pub mod Frames
pub mod Skips
use cs416_tanks.Base.{
  ℕ, zero, suc, ◌+◌, ◌-◌, Bool, ◌&&◌, false, List, [], ◌∷◌, ◌++◌, take, drop, length, get_elem?,
  Map, lookup, insert, Option, none, some, nat_eq, ltb, if◌then◌else◌,
}
use cs416_tanks.Clock.{Time}
use cs416_tanks.Geometry.{Vec, Geometry}
use cs416_tanks.Update.{Update, dead_player, timestamp}
use cs416_tanks.Client.Game.{Player, Bullet, Task, add_death, Game, bullet_update}

-- The array under a slice of the length `len` after `append(s[:i], s[i+1:]...)`: the elements behind
-- `i` move down by one, and the one at `len - 1` stays there too.
unfoldable pub close_gap {ℓ} : {A : Type ℓ} → ℕ → ℕ → List A → List A
close_gap i len [] = []
close_gap zero len (c ∷ cs) = take (len - 1) cs ++ drop (len - 1) (c ∷ cs)
close_gap (suc i) len (c ∷ cs) = c ∷ close_gap i (len - 1) cs

module _ (g : Geometry) where
  pub record Frame : Type 0 where
    pub cells : List ℕ
    pub len : ℕ
    pub heap : Map ℕ (Bullet g)
    pub alive : Bool
    pub record_updates : List (Update g)
    pub tasks : List Task

  -- `if i+1 < len(bullets) ... else bullets = bullets[:i]`
  unfoldable pub kill_bullet : ℕ → Frame → Frame
  kill_bullet i f =
      if ltb (i + 1) f.len
      then record f { cells = close_gap i f.len f.cells; len = f.len - 1 }
      else record f { len = i }

  -- We have been hit.
  unfoldable pub be_hit : Player g → Bullet g → Time → ℕ → Frame → Frame
  be_hit me b now nonce f = record f {
    alive = false;
    tasks = f.tasks ++ add_death ∷ [];
    record_updates =
        f.record_updates ++ timestamp g (dead_player g me.id b.player_id) now nonce ∷ [];
  }

  -- What happens to the bullet at `i` after it has moved.
  unfoldable pub check_bullet :
      Vec g.F → Vec g.F → Player g → Time → ℕ → ℕ → Bullet g → Frame → Frame
  check_bullet lo hi me now nonce i b f =
      if g.rect_contains lo hi b.place
      then (if g.gt (g.literal 25) (g.vec_len (g.vec_sub b.place me.place)) && f.alive
          then be_hit me b now nonce f
          else f)
      else kill_bullet i f

  -- One round of the loop; `none` is an index out of range or a nil pointer.
  unfoldable pub bullet_round :
      g.F → Vec g.F → Vec g.F → Player g → (ℕ → Time × ℕ) → ℕ → Frame → Option Frame
  bullet_round dt lo hi me stamp i f = elim (get_elem? f.cells i) [
    | none ↦ none
    | some p ↦ elim (lookup p f.heap) [
      | none ↦ none
      | some b ↦
          let moved = bullet_update g dt b in
          some (
            check_bullet lo hi me (stamp i).0 (stamp i).1 i moved
              (record f { heap = insert p moved f.heap }))
    ]
  ]

  -- `rounds` rounds from `i` on.
  unfoldable pub bullet_rounds :
      g.F → Vec g.F → Vec g.F → Player g → (ℕ → Time × ℕ) → ℕ → ℕ → Frame → Option Frame
  bullet_rounds dt lo hi me stamp zero i f = some f
  bullet_rounds dt lo hi me stamp (suc rounds) i f = elim (bullet_round dt lo hi me stamp i f) [
    | none ↦ none
    | some f' ↦ bullet_rounds dt lo hi me stamp rounds (suc i) f'
  ]

  abbrev pub frame_of : Game g → Frame
  frame_of s = record {
    cells = s.bullets;
    len = length s.bullets;
    heap = s.heap;
    alive = s.alive;
    record_updates = s.record_updates;
    tasks = s.tasks;
  }

  abbrev pub after_frame : Game g → Frame → Game g
  after_frame s f = record s {
    bullets = take f.len f.cells;
    heap = f.heap;
    alive = f.alive;
    record_updates = f.record_updates;
    tasks = f.tasks;
  }

  unfoldable pub do_update_bullets :
      g.F → Vec g.F → Vec g.F → (ℕ → Time × ℕ) → Game g → Option (Game g)
  do_update_bullets dt lo hi stamp s =
      elim (bullet_rounds dt lo hi s.local_player stamp (length s.bullets) 0 (frame_of s)) [
        | none ↦ none
        | some f ↦ some (after_frame s f)
      ]
