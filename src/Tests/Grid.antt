-- ===== src/Tests/Grid.antt =====
-- A geometry of natural numbers.
use cs416_tanks.Base.{ℕ, ltb, leb, ◌&&◌, ◌+◌, ◌-◌, ◌*◌, if◌then◌else◌}
use cs416_tanks.Geometry.{Vec, Geometry}

abbrev pub vec : ℕ → ℕ → Vec ℕ
vec a b = record { x = a; y = b }

abbrev pub grid : Geometry
grid = record {
  F = ℕ;
  literal = λ n. n;
  half = 0;
  add = λ a b. a + b;
  sub = λ a b. a - b;
  mul = λ a b. a * b;
  div = λ a b. a - b;
  gt = λ a b. ltb b a;
  abs = λ a. a;
  seconds = λ d. 1;
  cos = λ a. 1;
  sin = λ a. 0;
  vec_add = λ a b. vec (a.x + b.x) (a.y + b.y);
  scaled = λ a n. vec (a.x * n) (a.y * n);
  vec_sub = λ a b. vec (a.x - b.x) (a.y - b.y);
  vec_len = λ a. a.x + a.y;
  vec_angle = λ a. a.x;
  clamp = λ a lo hi. if ltb a lo then lo else if ltb hi a then hi else a;
  rect_contains = λ lo hi a. leb lo.x a.x && leb a.x hi.x && leb lo.y a.y && leb a.y hi.y;
}
