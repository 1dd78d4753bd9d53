-- ===== src/Update.antt =====
-- clientlib/update.go: the updates that players send one another. The random nonce of `Timestamp` is
-- an argument.
use cs416_tanks.Base.{ℕ, ◌≡◌, ◌⊎◌, refl, inl, inr}
use cs416_tanks.Base.Int.{ℤ, pos}
use cs416_tanks.Clock.{Time}
use cs416_tanks.Geometry.{Vec, Geometry}

-- An int, which may come from the network: 0, 1, 2, or one with no name. `other (pos n)` is n + 3,
-- and `other (negsuc n)` the negative number -1 - n.
pub data UpdateKind : Type 0 where
  position fire dead : UpdateKind
  other : ℤ → UpdateKind

pub UpdateKind-cases :
    (k : UpdateKind)
    → (k ≡ UpdateKind.dead)
      ⊎ (k ≡ UpdateKind.fire)
      ⊎ (k ≡ UpdateKind.position)
      ⊎ ((z : ℤ) × (k ≡ UpdateKind.other z))
UpdateKind-cases UpdateKind.dead = inl refl
UpdateKind-cases UpdateKind.fire = inr (inl refl)
UpdateKind-cases UpdateKind.position = inr (inr (inl refl))
UpdateKind-cases (UpdateKind.other z) = inr (inr (inr (z, refl)))

module _ (g : Geometry) where
  open g use {F, literal}

  pub record Update : Type 0 where
    pub kind : UpdateKind
    pub time : Time
    pub nonce : ℕ
    pub player_id : ℕ
    pub other_player : ℕ
    pub place : Vec F
    pub angle : F

  abbrev pub player_speed : F
  player_speed = literal 150

  abbrev pub origin : Vec F
  origin = record { x = literal 0; y = literal 0 }

  unfoldable pub dead_player : ℕ → ℕ → Update
  dead_player id cause = record {
    kind = UpdateKind.dead;
    time = pos 0;
    nonce = 0;
    player_id = id;
    other_player = cause;
    place = origin;
    angle = literal 0;
  }

  unfoldable pub fire_bullet : ℕ → Vec F → F → Update
  fire_bullet id p a = record {
    kind = UpdateKind.fire;
    time = pos 0;
    nonce = 0;
    player_id = id;
    other_player = 0;
    place = p;
    angle = a;
  }

  unfoldable pub update_angle : Update → Vec F → Update
  update_angle u mouse = record u { angle = g.vec_angle (g.vec_sub mouse u.place) }

  unfoldable pub move_left : Update → F → Update
  move_left u dt = record u {
    place = record u.place { x = g.sub u.place.x (g.mul player_speed dt) };
  }

  unfoldable pub move_right : Update → F → Update
  move_right u dt = record u {
    place = record u.place { x = g.add u.place.x (g.mul player_speed dt) };
  }

  unfoldable pub move_down : Update → F → Update
  move_down u dt = record u {
    place = record u.place { y = g.sub u.place.y (g.mul player_speed dt) };
  }

  unfoldable pub move_up : Update → F → Update
  move_up u dt = record u { place = record u.place { y = g.add u.place.y (g.mul player_speed dt) } }

  unfoldable pub bound : Update → Vec F → Vec F → Update
  bound u lo hi = record u {
    place = record { x = g.clamp u.place.x lo.x hi.x; y = g.clamp u.place.y lo.y hi.y };
  }

  unfoldable pub timestamp : Update → Time → ℕ → Update
  timestamp u t nonce = record u { time = t; nonce = nonce }
