-- ===== src/Client/Game.antt =====
-- client/player.go, client/bullet.go and client/client.go: the players and bullets that a client
-- shows. Sprites and the drawing itself are left out. The pointers to players are not shared, so a
-- player is a value; a bullet stands in `heap` under the address that `bullets` holds.
pub mod Bullets
pub mod Input
pub mod Shown
pub mod Drawn
pub mod Counts
pub mod Run
use cs416_tanks.Base.{
  ℕ, ◌+◌, Bool, true, false, List, [], ◌∷◌, ◌++◌, Map, lookup, insert, erase, contains, Option,
  none, some, ◌==◌, nat_eq, if◌then◌else◌,
}
use cs416_tanks.Geometry.{Vec, Geometry}
use cs416_tanks.Update.{UpdateKind, Update, origin, fire_bullet, timestamp}
use cs416_tanks.Base.Int.{pos}
use cs416_tanks.Clock.{Time}

-- The goroutines that add to the client's own statistics.
pub data Task : Type 0 where
  add_death add_kill : Task

module _ (g : Geometry) where
  open g use {F}

  pub record Player : Type 0 where
    pub id : ℕ
    pub place : Vec F
    pub angle : F

  abbrev pub new_player : ℕ → Player
  new_player id = record { id = id; place = origin g; angle = g.literal 0 }

  -- `Update` and `Accept` of `Player`
  unfoldable pub player_update : Player → Update g
  player_update p = record {
    kind = UpdateKind.position;
    time = pos 0;
    nonce = 0;
    player_id = p.id;
    other_player = 0;
    place = p.place;
    angle = p.angle;
  }

  unfoldable pub player_accept : Player → Update g → Player
  player_accept p u = elim u.kind [
    | UpdateKind.position ↦ record p { place = u.place; angle = u.angle }
    | UpdateKind.fire ↦ p
    | UpdateKind.dead ↦ p
    | UpdateKind.other z ↦ p
  ]

  pub record Bullet : Type 0 where
    pub player_id : ℕ
    pub place : Vec F
    pub angle : F

  -- `Update` of `Bullet`
  unfoldable pub bullet_update : F → Bullet → Bullet
  bullet_update dt b = record b {
    place = g.vec_add b.place (record {
      x = g.mul (g.mul dt (g.literal 200)) (g.cos b.angle);
      y = g.mul (g.mul dt (g.literal 200)) (g.sin b.angle);
    });
  }

  -- `localPlayer`, `players`, `playerIds`, `bullets`, `alive`, the updates that were put into
  -- `RecordUpdates` and the goroutines that were started, the newest last. `next` is a fresh address.
  pub record Game : Type 0 where
    pub local_player : Player
    pub players : Map ℕ Player
    pub player_ids : List ℕ
    pub bullets : List ℕ
    pub heap : Map ℕ Bullet
    pub next : ℕ
    pub alive : Bool
    pub record_updates : List (Update g)
    pub tasks : List Task

  -- `bullets = append(bullets, NewBullet(...))`
  unfoldable pub add_bullet : Bullet → Game → Game
  add_bullet b s = record s {
    bullets = s.bullets ++ s.next ∷ [];
    heap = insert s.next b s.heap;
    next = s.next + 1;
  }

  -- The player of an update, made if it is not known.
  unfoldable pub meet : ℕ → Game → Game
  meet id s = if contains id s.players then s else record s {
    players = insert id (new_player id) s.players;
    player_ids = s.player_ids ++ id ∷ [];
  }

  abbrev pub count_kill : ℕ → Game → Game
  count_kill killer s =
      if killer == s.local_player.id then record s { tasks = s.tasks ++ add_kill ∷ [] } else s

  -- The `switch` of `doAcceptUpdates`, with the order of its `range` over the players. `none` is a
  -- nil pointer, which `Accept` does not touch if the kind has no name.
  unfoldable pub take_in : (Map ℕ Player → List ℕ) → Update g → Game → Option Game
  take_in visits u s = elim u.kind [
    | UpdateKind.dead ↦
        let left = erase u.player_id s.players in
        some (count_kill u.other_player (record s { players = left; player_ids = visits left }))
    | UpdateKind.fire ↦
        some (add_bullet (record { player_id = u.player_id; place = u.place; angle = u.angle }) s)
    | UpdateKind.position ↦ elim (lookup u.player_id s.players) [
      | none ↦ none
      | some p ↦ some (record s { players = insert u.player_id (player_accept p u) s.players })
    ]
    | UpdateKind.other z ↦ some s
  ]

  -- `doAcceptUpdates`, over the updates that wait in `UpdateChannel`.
  unfoldable pub do_accept_updates : (Map ℕ Player → List ℕ) → List (Update g) → Game → Option Game
  do_accept_updates visits [] s = some s
  do_accept_updates visits (u ∷ us) s =
      if u.player_id == s.local_player.id
      then do_accept_updates visits us s
      else elim (take_in visits u (meet u.player_id s)) [
        | none ↦ none
        | some s' ↦ do_accept_updates visits us s'
      ]

  -- What `doDraw` shows of the other players; `none` is a nil pointer.
  unfoldable pub do_draw : List ℕ → Map ℕ Player → Option (List Player)
  do_draw [] m = some []
  do_draw (id ∷ ids) m = elim (lookup id m) [
    | none ↦ none
    | some p ↦ elim (do_draw ids m) [ none ↦ none | some ps ↦ some (p ∷ ps) ]
  ]

  -- `FireBullet`, at a reading of the clock and with a nonce.
  unfoldable pub shoot : Time → ℕ → Game → Game
  shoot now nonce s =
      let me = s.local_player in
      let offset = g.scaled (record { x = g.cos me.angle; y = g.sin me.angle }) (g.literal 30) in
      let place = g.vec_add me.place offset in
      let t = add_bullet (record { player_id = me.id; place = place; angle = me.angle }) s in
      record t {
        record_updates =
            t.record_updates ++ timestamp g (fire_bullet g me.id place me.angle) now nonce ∷ [];
      }
