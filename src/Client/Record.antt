-- ===== src/Client/Record.antt =====
-- client/state.go: what a client has heard of the other players, and which updates it passes on.
-- `displayed` and `sent` are the updates that have gone into `UpdateChannel` and `OutgoingUpdates`,
-- the newest last; that a send waits while its channel is full is left out.
pub mod History
pub mod Once
pub mod Repeat
pub mod Fits
pub mod Checks
pub mod Window
use cs416_tanks.Base.{
  ℕ, Bool, true, false, not, ◌&&◌, ◌||◌, List, [], ◌∷◌, ◌++◌, Map, lookup, insert, erase, contains,
  Option, none, some, ◌==◌, nat_eq, if◌then◌else◌,
}
use cs416_tanks.Base.Int.{pos, negsuc}
use cs416_tanks.Clock.{Time, Duration, add, sub, before}
use cs416_tanks.Geometry.{Vec, Geometry}
use cs416_tanks.Update.{UpdateKind, Update, player_speed, origin}

-- minus one second, in nanoseconds
abbrev pub time_delta : Duration
time_delta = negsuc 999999999

abbrev pub fence_at : Time → Time
fence_at now = add now time_delta

module _ (g : Geometry) where
  open g use {F}

  pub record PlayerRecord : Type 0 where
    pub id : ℕ
    pub time : Time
    pub place : Vec F
    pub angle : F

  unfoldable pub accept : PlayerRecord → Update g → PlayerRecord
  accept r u = elim u.kind [
    | UpdateKind.position ↦ record r { time = u.time; place = u.place; angle = u.angle }
    | UpdateKind.fire ↦ record r { time = u.time }
    | UpdateKind.dead ↦ record r { time = u.time }
    | UpdateKind.other z ↦ record r { time = u.time }
  ]

  pub record State : Type 0 where
    pub records : Map ℕ PlayerRecord
    pub history : List (Update g)
    pub history_map : Map ℕ (Unit {0})
    pub displayed : List (Update g)
    pub sent : List (Update g)

  -- The loop of `pruneHistory`: the old updates at the front are forgotten, with their nonces.
  unfoldable pub prune_from : Time → List (Update g) → Map ℕ (Unit {0}) → State → State
  prune_from fence [] seen s = record s { history = []; history_map = seen }
  prune_from fence (u ∷ us) seen s =
      let rest = prune_from fence us (erase u.nonce seen) s in
      if before u.time fence then rest else record s { history = u ∷ us; history_map = seen }

  unfoldable pub prune_history : Time → State → State
  prune_history now s = prune_from (fence_at now) s.history s.history_map s

  -- The two sends at the end of a round.
  unfoldable pub pass_on : Update g → State → State
  pass_on u s = record s { displayed = s.displayed ++ u ∷ []; sent = s.sent ++ u ∷ [] }

  -- Whether a shot is too far from where its player is thought to be.
  unfoldable pub is_bad_shot : PlayerRecord → Update g → Bool
  is_bad_shot r u =
      g.gt (g.div (g.vec_len (g.vec_sub r.place u.place)) (g.vec_len r.place)) g.half
      || g.gt (g.div (g.abs (g.sub r.angle u.angle)) (g.abs r.angle)) g.half

  -- Whether a position is further off than ten times the speed of a player allows.
  unfoldable pub is_bad_position : PlayerRecord → Update g → Bool
  is_bad_position r u =
      g.gt (g.vec_len (g.vec_sub u.place r.place))
        (g.mul (g.mul (g.literal 10) (player_speed g)) (g.seconds (sub u.time r.time)))

  abbrev pub put_record : ℕ → PlayerRecord → State → State
  put_record id r s = record s { records = insert id r s.records }

  -- `&PlayerRecord{ID: id}`
  abbrev pub new_record : ℕ → PlayerRecord
  new_record id = record { id = id; time = pos 0; place = origin g; angle = g.literal 0 }

  unfoldable pub take_fire : ℕ → Update g → State → State
  take_fire me u s =
      if u.player_id == me then pass_on u s else elim (lookup u.player_id s.records) [
        | none ↦ s
        | some r ↦ if is_bad_shot r u then s else pass_on u s
      ]

  unfoldable pub take_position : ℕ → Vec F → Vec F → Update g → State → State
  take_position me lo hi u s =
      if not (g.rect_contains lo hi u.place) then s else elim (lookup u.player_id s.records) [
        | none ↦ pass_on u (put_record u.player_id (accept (new_record u.player_id) u) s)
        | some r ↦
            if not (u.player_id == me) && is_bad_position r u
            then s
            else pass_on u (put_record u.player_id (accept r u) s)
      ]

  -- The `switch` on the kind, and the sends after it.
  unfoldable pub take_update : ℕ → Vec F → Vec F → Update g → State → State
  take_update me lo hi u s = elim u.kind [
    | UpdateKind.dead ↦ pass_on u (record s { records = erase u.player_id s.records })
    | UpdateKind.fire ↦ take_fire me u s
    | UpdateKind.position ↦ take_position me lo hi u s
    | UpdateKind.other z ↦ pass_on u s
  ]

  -- One round of `RecordWorker`, for the player `me` and a window between two corners: an update, and
  -- the readings of the clock by the test of its age and by `pruneHistory`.
  unfoldable pub record_worker : ℕ → Vec F → Vec F → Time → Time → Update g → State → State
  record_worker me lo hi now now' u s =
      if before u.time (fence_at now)
      then s
      else let p = prune_history now' s in
        if contains u.nonce p.history_map
        then p
        else take_update me lo hi u (record p {
          history_map = insert u.nonce tt p.history_map;
          history = p.history ++ u ∷ [];
        })

  -- The loop of `RecordWorker` over the rounds that it makes.
  unfoldable pub run_worker : ℕ → Vec F → Vec F → List (Time × Time × Update g) → State → State
  run_worker me lo hi [] s = s
  run_worker me lo hi ((now, now', u) ∷ rounds) s =
      run_worker me lo hi rounds (record_worker me lo hi now now' u s)
