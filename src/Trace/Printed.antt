-- ===== src/Trace/Printed.antt =====
-- The text in which `fmt` prints the server's map of display names, and the line of a trace, as in
-- dtrace_parsers/*.dtrace, that holds it in quotes.
use cs416_tanks.Base.{
  ℕ, Bool, true, ◌≡◌, ◌≢◌, refl, ap, ◌∙◌, ◌↔◌, List, [], ◌∷◌, ◌++◌, map, Map, contains, In, some,
  arith, All, All-append, AllDistinct, get_elem?, append_assoc,
}
use cs416_tanks.Base.Bytes.{Bytes, Lacks, codes, split, split-append, bytes_eq}
use cs416_tanks.Trace.{head_piece, first_name, later_name, test_val_uniqueness, parse_values}
use cs416_tanks.Trace.Unique.{names_of, name_pieces, test_val_uniqueness_iff, parse_values_iff}

-- `alice:true bob:true]`
abbrev pub entries : Bytes → List Bytes → Bytes
entries k [] = k ++ codes ":true]"
entries k (j ∷ ks) = k ++ codes ":true" ++ b' ' ∷ entries j ks

-- `fmt.Sprintf("%v", m)` of a map with the keys `k ∷ ks`, in any order, all with the value true.
unfoldable pub printed : Bytes → List Bytes → Bytes
printed k ks = codes "map[" ++ entries k ks

-- The line with the printed map.
abbrev pub trace_line : Bytes → List Bytes → Bytes
trace_line k ks = b'"' ∷ (printed k ks ++ b'"' ∷ [])

-- The line without its start.
abbrev quoted_entries : Bytes → List Bytes → Bytes
quoted_entries k [] = k ++ codes ":true]\""
quoted_entries k (j ∷ ks) = k ++ codes ":true" ++ b' ' ∷ quoted_entries j ks

-- A name with no blank, colon or bracket.
abbrev pub IsPlain : Bytes → Type 0
IsPlain k = Lacks b' ' k × Lacks b':' k × Lacks b'[' k

split-prefix :
    (p s q : Bytes) (qs : List Bytes) (sep : ℕ)
    → Lacks sep p
    → split s sep ≡ q ∷ qs
    → split (p ++ s) sep ≡ (p ++ q) ∷ qs
unfolding split
split-prefix [] s q qs sep h e = e
split-prefix (c ∷ p) s q qs sep h e = ground (arith, split-prefix p s q qs sep h.1 e)

split-Lacks : (p : Bytes) (sep : ℕ) → Lacks sep p → split p sep ≡ p ∷ []
unfolding split
split-Lacks [] sep h = refl
split-Lacks (c ∷ p) sep h = ground (arith, split-Lacks p sep h.1)

-- The pieces between the blanks.
abbrev entry_pieces : Bytes → List Bytes → List Bytes
entry_pieces k [] = (k ++ codes ":true]\"") ∷ []
entry_pieces k (j ∷ ks) = (k ++ codes ":true") ∷ entry_pieces j ks

split-entries :
    (k : Bytes) (ks : List Bytes)
    → All IsPlain (k ∷ ks)
    → split (quoted_entries k ks) b' ' ≡ entry_pieces k ks
split-entries k [] h =
    split-Lacks (k ++ codes ":true]\"") b' '
      (All-append (λ c. c ≢ b' ') k (codes ":true]\"") h.0.0 (omega arith))
split-entries k (j ∷ ks) h =
    split-append (k ++ codes ":true") (quoted_entries j ks) b' '
      (All-append (λ c. c ≢ b' ') k (codes ":true") h.0.0 (omega arith))
    ∙ ap (λ ps. (k ++ codes ":true") ∷ ps) (split-entries j ks h.1)

later-entry : (k rest : Bytes) → Lacks b':' k → later_name (k ++ b':' ∷ rest) ≡ k
unfolding later_name
later-entry k rest h = ap head_piece (split-append k rest b':' h)

first-entry :
    (k rest : Bytes) → IsPlain k → first_name (codes "\"map[" ++ (k ++ b':' ∷ rest)) ≡ some k
unfolding first_name
first-entry k rest h =
    ap (λ ps. get_elem? (split (head_piece ps) b'[') 1)
      (split-append (codes "\"map[" ++ k) rest b':'
        (All-append (λ c. c ≢ b':') (codes "\"map[") k (omega arith) h.1))
    ∙ ap (λ ps. get_elem? ps 1) (split-append (codes "\"map") k b'[' (omega arith))
    ∙ ap (λ ps. get_elem? (codes "\"map" ∷ ps) 1) (split-Lacks k b'[' h.2)

names-entries :
    (k : Bytes) (ks : List Bytes)
    → All IsPlain (k ∷ ks)
    → map later_name (entry_pieces k ks) ≡ k ∷ ks
names-entries k [] h = ap (λ t. t ∷ []) (later-entry k (codes "true]\"") h.0.1)
names-entries k (j ∷ ks) h =
    ap (λ t. t ∷ map later_name (entry_pieces j ks)) (later-entry k (codes "true") h.0.1)
    ∙ ap (λ ts. k ∷ ts) (names-entries j ks h.1)

name_pieces-entries :
    (k : Bytes) (ks : List Bytes)
    → All IsPlain (k ∷ ks)
    → name_pieces (split (codes "\"map[" ++ quoted_entries k ks) b' ') ≡ some (k ∷ ks)
unfolding name_pieces
name_pieces-entries k [] h =
    ap name_pieces (
      split-prefix (codes "\"map[") (quoted_entries k []) (k ++ codes ":true]\"") [] b' '
        (omega arith) (split-entries k [] h))
    ∙ rw (first-entry k (codes "true]\"") h.0, name_pieces) refl
name_pieces-entries k (j ∷ ks) h =
    ap name_pieces (
      split-prefix (codes "\"map[") (quoted_entries k (j ∷ ks)) (k ++ codes ":true")
        (entry_pieces j ks) b' ' (omega arith) (split-entries k (j ∷ ks) h))
    ∙ rw (first-entry k (codes "true") h.0, name_pieces)
        (ap (λ ts. some (k ∷ ts)) (names-entries j ks h.1))

trace_line-entries :
    (k : Bytes) (ks : List Bytes) → trace_line k ks ≡ codes "\"map[" ++ quoted_entries k ks
unfolding printed
trace_line-entries k ks = ap (λ t. codes "\"map[" ++ t) (quoted-entries k ks)
  where
    quoted-entries : (k : Bytes) (ks : List Bytes) → entries k ks ++ b'"' ∷ [] ≡ quoted_entries k ks
    quoted-entries k [] = append_assoc k (codes ":true]") (b'"' ∷ [])
    quoted-entries k (j ∷ ks) =
        append_assoc (k ++ codes ":true") (b' ' ∷ entries j ks) (b'"' ∷ [])
        ∙ ap (λ t. k ++ codes ":true" ++ b' ' ∷ t) (quoted-entries j ks)

pieces-line :
    (k : Bytes) (ks : List Bytes)
    → All IsPlain (k ∷ ks)
    → name_pieces (split (trace_line k ks) b' ') ≡ some (k ∷ ks)
pieces-line k ks h =
    ap (λ t. name_pieces (split t b' ')) (trace_line-entries k ks) ∙ name_pieces-entries k ks h

-- `testValUniqueness` of the line of a trace that holds a printed map whose keys have no blank, colon
-- or bracket answers whether the keys are all different, and `parseValues` of it gives a map with just
-- these keys.
pub printed_checked :
    (k : Bytes) (ks : List Bytes)
    → All IsPlain (k ∷ ks)
    → ((b : Bool) × (test_val_uniqueness (trace_line k ks) ≡ some b)
        × ((b ≡ true) ↔ AllDistinct (k ∷ ks)))
      × ((m : Map Bytes Bool) × (parse_values (trace_line k ks) ≡ some m)
          × ((n : Bytes) → (contains n m ≡ true) ↔ In n (k ∷ ks)))
unfolding names_of
printed_checked k ks h = (
  test_val_uniqueness_iff (trace_line k ks) (k ∷ ks) (pieces-line k ks h),
  parse_values_iff (trace_line k ks) (k ∷ ks) (pieces-line k ks h),
)
