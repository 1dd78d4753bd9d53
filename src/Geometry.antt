-- ===== src/Geometry.antt =====
-- Floating-point numbers and the vectors of github.com/faiface/pixel, which the program uses and
-- does not implement: a record of the operations that it calls.
use cs416_tanks.Base.{ℕ, Bool}
use cs416_tanks.Clock.{Duration}

-- `pixel.Vec`
pub record Vec (F : Type 0) : Type 0 where
  pub x : F
  pub y : F

pub record Geometry : Type 1 where
  -- `float64`, with a literal of each natural number and of one half
  pub F : Type 0
  pub literal : ℕ → F
  pub half : F
  pub add : F → F → F
  pub sub : F → F → F
  pub mul : F → F → F
  pub div : F → F → F
  pub gt : F → F → Bool
  -- `math.Abs` and `Duration.Seconds`
  pub abs : F → F
  pub seconds : Duration → F
  -- `math.Cos` and `math.Sin`
  pub cos : F → F
  pub sin : F → F
  -- `Vec.Add`, `Vec.Scaled`, `Vec.Sub`, `Vec.Len`, `Vec.Angle`, `pixel.Clamp` and `Rect.Contains`
  pub vec_add : Vec F → Vec F → Vec F
  pub scaled : Vec F → F → Vec F
  pub vec_sub : Vec F → Vec F → Vec F
  pub vec_len : Vec F → F
  pub vec_angle : Vec F → F
  pub clamp : F → F → F → F
  pub rect_contains : Vec F → Vec F → Vec F → Bool
