-- ===== src/Base/Decimal.antt =====
-- Decimal numbers: reading what `strconv` writes.
use Prim.Native.Nat.{ℕ, zero, suc, ◌+◌, ◌/◌, ◌%◌, ◌≤◌, ◌<◌}
use mathlib.Core.Path.{◌≡◌, refl}
use mathlib.Core.Logic.{◌⊎◌, ◌≢◌, inl}
use mathlib.Core.Bool.{true}
use mathlib.Core.List.{[], ◌∷◌}
use native.Mathlib.Omega.{arith}
use cs416_tanks.Base.Int.{ℤ, pos, negsuc, IsInt64}
use cs416_tanks.Base.Bytes.{
  Bytes, Lacks, emit, format_uint, format_int, all_digits, value, is_number, saturate_pos, atoi,
}

value-emit : (f n : ℕ) (out : Bytes) → n ≤ f → value 0 (emit f n out) ≡ value n out
unfolding emit
value-emit zero n out h = ground arith
value-emit (suc f) n out h = ground (arith, value-emit f (n / 10) ((b'0' + n % 10) ∷ out))

all_digits-emit : (f n : ℕ) (out : Bytes) → all_digits out ≡ true → all_digits (emit f n out) ≡ true
unfolding emit
all_digits-emit zero n out h = h
all_digits-emit (suc f) n out h = ground (arith, all_digits-emit f (n / 10) ((b'0' + n % 10) ∷ out))

emit-ne-nil : (f n : ℕ) (out : Bytes) → out ≢ [] → emit f n out ≢ []
unfolding emit
emit-ne-nil zero n out h = h
emit-ne-nil (suc f) n out h =
    ground (arith, emit-ne-nil f (n / 10) ((b'0' + n % 10) ∷ out) (λ e. cc))

emit_pos-ne-nil : (f n : ℕ) → 0 < n → n ≤ f → emit f n [] ≢ []
unfolding emit
emit_pos-ne-nil zero n h le = absurd (omega arith)
emit_pos-ne-nil (suc f) n h le =
    ground (arith, emit-ne-nil f (n / 10) ((b'0' + n % 10) ∷ []) (λ e. cc))

is_number_of : (s : Bytes) → s ≢ [] → all_digits s ≡ true → is_number s ≡ true
is_number_of [] h d = absurd (h refl)
is_number_of (c ∷ s) h d = d

-- What `FormatUint` writes is a number, and spells `n`.
pub format_uint_lem : (n : ℕ) → (is_number (format_uint n) ≡ true) × (value 0 (format_uint n) ≡ n)
unfolding format_uint
format_uint_lem n = ground (
  arith,
  value-emit n n [],
  is_number_of (emit n n []),
  emit_pos-ne-nil n n,
  all_digits-emit n n [] refl,
)

-- A text that begins with no sign.
atoi-number : (s : Bytes) → is_number s ≡ true → atoi s ≡ saturate_pos (value 0 s)
unfolding atoi
atoi-number [] h = cc
atoi-number (c ∷ s) h = ground arith

-- `Atoi` after `FormatUint` gives the number back below 2 ^ 63, and 2 ^ 63 - 1 above.
pub atoi-format_uint : (n : ℕ) → atoi (format_uint n) ≡ saturate_pos n
atoi-format_uint n =
    let (num, spelt) = format_uint_lem n in ground (arith, atoi-number (format_uint n) num)

pub atoi-format_int : (v : ℤ) → IsInt64 v → atoi (format_int v) ≡ v
unfolding format_int atoi
atoi-format_int (pos n) h = ground (arith, atoi-format_uint n)
atoi-format_int (negsuc n) h = ground (arith, format_uint_lem (suc n))

digits-Lacks : (b : ℕ) (s : Bytes) → (b < b'0') ⊎ (b'9' < b) → all_digits s ≡ true → Lacks b s
digits-Lacks b [] h d = tt
digits-Lacks b (c ∷ s) h d = (ground arith, digits-Lacks b s h (ground arith))

number-Lacks : (b : ℕ) (s : Bytes) → (b < b'0') ⊎ (b'9' < b) → is_number s ≡ true → Lacks b s
number-Lacks b [] h d = tt
number-Lacks b (c ∷ s) h d = digits-Lacks b (c ∷ s) h d

-- No dot and no line feed in a printed number.
pub format_uint-Lacks : (b n : ℕ) → (b < b'0') ⊎ (b'9' < b) → Lacks b (format_uint n)
format_uint-Lacks b n h = number-Lacks b (format_uint n) h (format_uint_lem n).0

pub format_int-Lacks : (b : ℕ) (v : ℤ) → b < b'-' → Lacks b (format_int v)
unfolding format_int
format_int-Lacks b (pos n) h = format_uint-Lacks b n (inl (omega arith))
format_int-Lacks b (negsuc n) h = (omega arith, format_uint-Lacks b (suc n) (inl (omega arith)))
