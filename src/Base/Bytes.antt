-- ===== src/Base/Bytes.antt =====
-- Text as a list of bytes: equality, `strings.Split` at one byte, decimal numbers as `strconv`
-- writes and reads them.
use Prim.Native.Char.{code}
use Prim.Native.Nat.{ℕ, zero, suc, ◌+◌, ◌-◌, ◌*◌, ◌/◌, ◌%◌}
use Prim.Native.String.{String}
use mathlib.Core.Path.{◌≡◌, refl}
use mathlib.Core.Logic.{◌↔◌, ◌≢◌}
use mathlib.Core.Bool.{Bool, true, false, ◌&&◌}
use mathlib.Core.List.{List, [], ◌∷◌, ◌++◌, foldl}
use native.Mathlib.Omega.{arith}
use cs416_tanks.Base.Tests.{Comparable, ltb, leb, nat_beq, if◌then◌else◌}
use cs416_tanks.Base.Lists.{All}
use cs416_tanks.Base.Int.{ℤ, pos, negsuc, sub_ℕ, half_range}

abbrev pub Bytes : Type 0
Bytes = List ℕ

-- The bytes of an ASCII literal.
abbrev pub codes : String → Bytes
codes String.[] = []
codes (String.◌∷◌ c s) = code c ∷ codes s

abbrev pub bytes_beq : Bytes → Bytes → Bool
bytes_beq [] [] = true
bytes_beq [] (b ∷ bs) = false
bytes_beq (a ∷ as') [] = false
bytes_beq (a ∷ as') (b ∷ bs) = nat_beq a b && bytes_beq as' bs

pub bytes_beq_iff : (a b : Bytes) → (bytes_beq a b ≡ true) ↔ (a ≡ b)
bytes_beq_iff [] [] = (λ h. refl, λ h. refl)
bytes_beq_iff [] (b ∷ bs) = (λ h. cc, λ h. cc)
bytes_beq_iff (a ∷ as') [] = (λ h. cc, λ h. cc)
bytes_beq_iff (a ∷ as') (b ∷ bs) =
    (λ h. ground (arith, bytes_beq_iff as' bs), λ h. ground (arith, bytes_beq_iff as' bs))

instance abbrev pub bytes_eq : Comparable Bytes
bytes_eq = record { same = bytes_beq; same_iff = bytes_beq_iff }

abbrev pub Lacks : ℕ → Bytes → Type 0
Lacks b = All (λ c. c ≢ b)

abbrev pub push_head : ℕ → List Bytes → List Bytes
push_head c [] = (c ∷ []) ∷ []
push_head c (p ∷ ps) = (c ∷ p) ∷ ps

-- `strings.Split(s, sep)` at a separator of one byte: never empty.
unfoldable pub split : Bytes → ℕ → List Bytes
split [] sep = [] ∷ []
split (c ∷ s) sep = let rest = split s sep in if nat_beq c sep then [] ∷ rest else push_head c rest

-- What stands before the first separator is the first piece.
pub split-append :
    (p s : Bytes) (sep : ℕ) → Lacks sep p → split (p ++ sep ∷ s) sep ≡ p ∷ split s sep
unfolding split
split-append [] s sep h = ground arith
split-append (c ∷ p) s sep h = ground (arith, split-append p s sep h.1)

-- The digits of `n` before `out`. The fuel `n` is enough: each round divides by ten.
unfoldable pub emit : ℕ → ℕ → Bytes → Bytes
emit zero n out = out
emit (suc f) n out =
    let rest = emit f (n / 10) ((b'0' + n % 10) ∷ out) in if nat_beq n 0 then out else rest

-- `strconv.FormatUint(n, 10)`
unfoldable pub format_uint : ℕ → Bytes
unfolding emit
format_uint n = if nat_beq n 0 then b'0' ∷ [] else emit n n []

-- `strconv.FormatInt(n, 10)`
unfoldable pub format_int : ℤ → Bytes
unfolding format_uint
format_int (pos n) = format_uint n
format_int (negsuc n) = b'-' ∷ format_uint (suc n)

abbrev pub is_digit : ℕ → Bool
is_digit c = leb b'0' c && leb c b'9'

abbrev pub all_digits : Bytes → Bool
all_digits [] = true
all_digits (c ∷ s) = is_digit c && all_digits s

-- The number that digits spell behind `n`.
abbrev pub value : ℕ → Bytes → ℕ
value = foldl (λ n c. n * 10 + (c - b'0'))

-- One digit or more.
abbrev pub is_number : Bytes → Bool
is_number [] = false
is_number (c ∷ s) = all_digits (c ∷ s)

-- `v, _ := strconv.Atoi(s)`: 0 on text that is no number, the nearest `int` out of range.
abbrev pub saturate_pos : ℕ → ℤ
saturate_pos n = if ltb n half_range then pos n else pos (half_range - 1)

abbrev pub saturate_neg : ℕ → ℤ
saturate_neg n = if ltb half_range n then negsuc (half_range - 1) else sub_ℕ 0 n

unfoldable pub atoi : Bytes → ℤ
atoi [] = pos 0
atoi (c ∷ s) =
    if nat_beq c b'-'
    then (if is_number s then saturate_neg (value 0 s) else pos 0)
    else if nat_beq c b'+'
    then (if is_number s then saturate_pos (value 0 s) else pos 0)
    else if is_number (c ∷ s)
    then saturate_pos (value 0 (c ∷ s))
    else pos 0
