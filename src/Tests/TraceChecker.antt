-- ===== src/Tests/TraceChecker.antt =====
-- The trace checker on short traces.
use cs416_tanks.Base.{
  Bool, true, false, ◌≡◌, ◌≢◌, refl, ◌↔◌, List, [], ◌∷◌, Map, contains, lookup, Option, none, some,
  In, All, AllDistinct, arith, ◌==◌,
}
use cs416_tanks.Base.Bytes.{Bytes, codes, bytes_eq, split}
use cs416_tanks.Trace.{
  has_prefix, contains_text, first_name, later_name, is_variable, quoted, test_val_uniqueness,
  test_pieces, test_later, parse_values, check_traces,
}
use cs416_tanks.Trace.Unique.{names_of, name_pieces}
use cs416_tanks.Trace.Printed.{trace_line, IsPlain, printed_checked}
use cs416_tanks.Trace.Tables.{all_tables, latest}
use cs416_tanks.Trace.Clients.{read_files}
use cs416_tanks.Trace.Answers.{OneEach, AllKnown, check_traces_lem}

abbrev trace : List (List Bytes)
trace =
    (codes "variable displayNames" ∷ codes "srv-displayNames" ∷ codes "map[ann:true bo:true]" ∷ [])
    ∷ (codes "c1-display_name" ∷ codes "\"bo\"" ∷ codes "c1-display_name" ∷ codes "\"bo\"" ∷ [])
    ∷ []

-- Names with blanks are split, and two different ones are taken for a repetition.
blanks_repeat : test_val_uniqueness (codes "map[a b:true c b:true]") ≡ some false
unfolding test_val_uniqueness test_pieces test_later first_name later_name split contains lookup
    cs416_tanks.Base.insert
blanks_repeat = refl

printed_checked_example :
    ((b : Bool) × (test_val_uniqueness (trace_line (codes "ann") (codes "bo" ∷ [])) ≡ some b)
      × ((b ≡ true) ↔ AllDistinct (codes "ann" ∷ codes "bo" ∷ [])))
    × ((m : Map Bytes Bool) × (parse_values (trace_line (codes "ann") (codes "bo" ∷ [])) ≡ some m)
        × ((n : Bytes) → (contains n m ≡ true) ↔ In n (codes "ann" ∷ codes "bo" ∷ [])))
printed_checked_example =
    printed_checked (codes "ann") (codes "bo" ∷ []) (plain_ann, (plain_bo, tt))
  where
    plain_ann : IsPlain (codes "ann")
    plain_ann = omega arith

    plain_bo : IsPlain (codes "bo")
    plain_bo = omega arith

check_traces_lem_example :
    (unique : Bool) × (single : Bool) × (subset : Bool) × (check_traces trace
      ≡ some (unique, single, subset))
    × ((unique ≡ true) ↔ All AllDistinct (all_tables trace))
    × ((single ≡ true) ↔ OneEach (read_files [] trace))
    × (((single ≡ true) × (subset ≡ true)) ↔ (
        OneEach (read_files [] trace)
        × AllKnown (read_files [] trace) (latest [] (all_tables trace))))
unfolding is_variable contains_text has_prefix names_of name_pieces first_name later_name quoted
    split
check_traces_lem_example =
    check_traces_lem trace ((((codes "ann" ∷ codes "bo" ∷ [], refl), tt), (tt, tt)))
      ((tt, (((codes "bo", refl), ((codes "bo", refl), tt)), tt)))
