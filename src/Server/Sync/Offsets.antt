-- ===== src/Server/Sync/Offsets.antt =====
-- What the server measures and sets, where nothing wraps around.
use cs416_tanks.Base.{ℕ, zero, suc, ◌*◌, ◌/◌, ◌≡◌, ap, ◌∙◌, ◌+◌, ◌<◌, ◌≤◌, ◌^◌, nat_eq, arith}
use cs416_tanks.Base.Int.{
  ℤ, pos, negsuc, pos_part, neg_part, ◌+ℤ◌, ◌-ℤ◌, quot, IsInt64, int64-id, one_part, int_laws,
}
use cs416_tanks.Clock.{add, sub, plus, minus}
use cs416_tanks.Server.Sync.{client_offset}
use native.Mathlib.Nat.{mul-div-le}

-- Far from the ends of the 64-bit range.
abbrev pub IsSmall : ℤ → Type 0
IsSmall v = (pos_part v < 2 ^ 60) × (neg_part v < 2 ^ 60)

sub_exact : (t u d : ℤ) → t -ℤ u ≡ d → IsInt64 d → sub t u ≡ d
unfolding sub
sub_exact t u d e h = ground (arith, e)

half_of_twice : (l : ℕ) → quot (pos (l + l)) 2 ≡ pos l
unfolding quot
half_of_twice l = ap pos (omega arith)

IsInt64-sum : (u v w : ℤ) → IsSmall u → IsSmall v → IsSmall w → IsInt64 (u +ℤ v -ℤ w)
IsInt64-sum u v w hu hv hw =
    omega (int_laws, one_part (u +ℤ v), one_part (u +ℤ v -ℤ w), one_part u, one_part v, one_part w)

delay_lem : (x b : ℤ) (l : ℕ) → (x +ℤ pos l +ℤ pos l +ℤ b) -ℤ (x +ℤ b) ≡ pos (l + l)
delay_lem x b l = omega int_laws

skew_lem :
    (x skew a b : ℤ) (l : ℕ)
    → (x +ℤ pos l +ℤ skew +ℤ a +ℤ pos l) -ℤ (x +ℤ pos l +ℤ pos l +ℤ b) ≡ skew +ℤ a -ℤ b
skew_lem x skew a b l = omega int_laws

-- A client that is `skew` ahead is found to be so, if its answer takes as long as the request did.
pub client_offset_lem :
    (x skew a b : ℤ) (l : ℕ)
    → IsSmall skew
    → IsSmall a
    → IsSmall b
    → l < 2 ^ 60
    → client_offset (add x b) (add (x +ℤ pos l +ℤ skew) a) (add (x +ℤ pos l +ℤ pos l) b)
      ≡ skew +ℤ a -ℤ b
unfolding client_offset
client_offset_lem x skew a b l hs ha hb hl =
    let delay =
      sub_exact (x +ℤ pos l +ℤ pos l +ℤ b) (x +ℤ b) (pos (l + l)) (delay_lem x b l) (omega arith) in
    ap (λ d. sub (x +ℤ pos l +ℤ skew +ℤ a +ℤ d) (x +ℤ pos l +ℤ pos l +ℤ b))
      (ap (λ d. quot d 2) delay ∙ half_of_twice l)
    ∙ sub_exact _ _ (skew +ℤ a -ℤ b) (skew_lem x skew a b l) (IsInt64-sum skew a b hs ha hb)

-- Half of a duration.
abbrev IsHalf : ℤ → Type 0
IsHalf v = (pos_part v ≤ 2 ^ 62) × (neg_part v ≤ 2 ^ 62)

double_le : (k q : ℕ) → 2 ≤ k → q + q ≤ k * q
double_le zero q h = absurd (omega arith)
double_le (suc zero) q h = absurd (omega arith)
double_le (suc (suc k)) q h = omega arith

div_le_half : (n k : ℕ) → 2 ≤ k → (n / k) + (n / k) ≤ n
div_le_half n k h = omega (arith, double_le k (n / k) h, mul-div-le n k)

pub quot-IsHalf : (v : ℤ) (k : ℕ) → 2 ≤ k → IsInt64 v → IsHalf (quot v k)
unfolding quot
quot-IsHalf (pos n) k h i = omega (arith, div_le_half n k h)
quot-IsHalf (negsuc n) k h i = ground (arith, div_le_half (suc n) k h)

pub adjusted_exact :
    (average skew a b : ℤ)
    → IsHalf average
    → IsSmall skew
    → IsSmall a
    → IsSmall b
    → minus average (skew +ℤ a -ℤ b) ≡ average -ℤ (skew +ℤ a -ℤ b)
adjusted_exact average skew a b hv hs ha hb = int64-id (average -ℤ (skew +ℤ a -ℤ b)) (
    omega (
      int_laws,
      one_part (average -ℤ (skew +ℤ a -ℤ b)),
      one_part (skew +ℤ a -ℤ b),
      one_part (skew +ℤ a),
      one_part average,
      one_part skew,
      one_part a,
      one_part b,
    ))

pub moved : (average b : ℤ) → IsHalf average → IsSmall b → plus b average ≡ b +ℤ average
moved average b hv hb =
    int64-id (b +ℤ average)
      (omega (int_laws, one_part (b +ℤ average), one_part b, one_part average))

pub apart_by :
    (now average skew a b : ℤ)
    → (now +ℤ skew) +ℤ (average -ℤ (skew +ℤ a -ℤ b)) ≡ (now +ℤ (b +ℤ average)) -ℤ a
apart_by now average skew a b = omega int_laws
