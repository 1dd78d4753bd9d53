-- ===== src/Session/Ids.antt =====
-- The id of a client as text in its file and as bytes on the wire.
use cs416_tanks.Base.{ℕ, true, ◌≡◌, ◌<◌, ◌^◌, refl, [], ◌∷◌, ◌++◌, nat_eq, arith}
use cs416_tanks.Base.Bytes.{Bytes, format_uint, all_digits, is_number}
use cs416_tanks.Base.Decimal.{format_uint_lem}
use cs416_tanks.Server.Registry.Workers.{big_endian}
use cs416_tanks.Session.{skip_blanks, leading_digits, scan_uint64, id_text, put_uint64}

leading_digits-line : (s : Bytes) → all_digits s ≡ true → leading_digits (s ++ 10 ∷ []) ≡ s
leading_digits-line [] h = refl
leading_digits-line (c ∷ s) h = ground (arith, leading_digits-line s)

skip_blanks-number : (s : Bytes) → is_number s ≡ true → skip_blanks (s ++ 10 ∷ []) ≡ s ++ 10 ∷ []
skip_blanks-number [] h = refl
skip_blanks-number (c ∷ s) h = ground arith

number-digits : (s : Bytes) → is_number s ≡ true → all_digits s ≡ true
number-digits [] h = refl
number-digits (c ∷ s) h = h

-- The id that is written to the file is read back from it.
pub scan_uint64-id_text : (id : ℕ) → id < 2 ^ 64 → scan_uint64 (id_text id) ≡ id
unfolding scan_uint64 id_text
scan_uint64-id_text id h =
    let (num, spelt) = format_uint_lem id in
    rw
      (
        skip_blanks-number (format_uint id) num,
        leading_digits-line (format_uint id) (number-digits (format_uint id) num),
        num,
        spelt,
      )
      (ground arith)

pub big_endian-put_uint64 : (n : ℕ) → n < 2 ^ 64 → big_endian (put_uint64 n) 0 ≡ n
unfolding big_endian put_uint64
big_endian-put_uint64 n h = omega arith
