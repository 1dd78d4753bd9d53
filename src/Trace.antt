-- ===== src/Trace.antt =====
-- dtrace_parsers/parser.go: the checker of traces that Dinv has recorded. The lines of each `.dtrace`
-- file are given. `none` is an index out of range, which ends the program.
pub mod Unique
pub mod Clients
pub mod Printed
pub mod Tables
pub mod Reading
pub mod Answers
use cs416_tanks.Base.{
  Bool, true, false, not, ◌&&◌, ◌||◌, List, [], ◌∷◌, Map, lookup, insert, contains, Option, none,
  some, ◌==◌, get_elem?, nat_eq, if◌then◌else◌,
}
use cs416_tanks.Base.Bytes.{Bytes, codes, bytes_eq, split}

-- `strings.HasPrefix(s, p)`
unfoldable pub has_prefix : Bytes → Bytes → Bool
has_prefix s [] = true
has_prefix [] (b ∷ p) = false
has_prefix (a ∷ s) (b ∷ p) = a == b && has_prefix s p

-- `strings.Contains(s, p)`
unfoldable pub contains_text : Bytes → Bytes → Bool
contains_text [] p = has_prefix [] p
contains_text (a ∷ s) p = has_prefix (a ∷ s) p || contains_text s p

-- `strings.Split(s, sep)[0]`
abbrev pub head_piece : List Bytes → Bytes
head_piece [] = []
head_piece (p ∷ ps) = p

-- The name at the start of a printed map, behind its bracket.
unfoldable pub first_name : Bytes → Option Bytes
first_name str = get_elem? (split (head_piece (split str b':')) b'[') 1

unfoldable pub later_name : Bytes → Bytes
later_name str = head_piece (split str b':')

-- The rounds of `testValUniqueness` after the first.
unfoldable pub test_later : List Bytes → Map Bytes Bool → Bool
test_later [] values = true
test_later (str ∷ strs) values =
    let rest = test_later strs (insert (later_name str) true values) in
    if contains (later_name str) values then false else rest

unfoldable pub test_pieces : List Bytes → Option Bool
test_pieces [] = some true
test_pieces (str ∷ strs) = elim (first_name str) [
  | none ↦ none
  | some key ↦ some (test_later strs (insert key true []))
]

unfoldable pub test_val_uniqueness : Bytes → Option Bool
test_val_uniqueness s = test_pieces (split s b' ')

unfoldable pub parse_later : List Bytes → Map Bytes Bool → Map Bytes Bool
parse_later [] values = values
parse_later (str ∷ strs) values = parse_later strs (insert (later_name str) true values)

unfoldable pub parse_pieces : List Bytes → Option (Map Bytes Bool)
parse_pieces [] = some []
parse_pieces (str ∷ strs) = elim (first_name str) [
  | none ↦ none
  | some key ↦ some (parse_later strs (insert key true []))
]

unfoldable pub parse_values : Bytes → Option (Map Bytes Bool)
parse_values s = parse_pieces (split s b' ')

-- A line that names the variable, but is not its declaration.
unfoldable pub is_variable : Bytes → Bytes → Bool
is_variable name line = contains_text line name && not (has_prefix line (codes "variable"))

-- `isUnique`, after the lines of a file; `found` is `foundVariable`.
unfoldable pub unique_lines : Bool → Bool → List Bytes → Option Bool
unique_lines found unique [] = some unique
unique_lines found unique (line ∷ lines) =
    elim (if found && unique then test_val_uniqueness line else some unique) [
      | none ↦ none
      | some u ↦ unique_lines (is_variable (codes "displayNames") line) u lines
    ]

unfoldable pub unique_files : Bool → List (List Bytes) → Option Bool
unique_files unique [] = some unique
unique_files unique (file ∷ files) = elim (unique_lines false unique file) [
  | none ↦ none
  | some u ↦ unique_files u files
]

-- `clientValues`, `key` and `isCondTrue`
pub record Names : Type 0 where
  pub client_values : Map Bytes Bytes
  pub key : Bytes
  pub is_cond_true : Bool

-- A value that a client's variable has.
unfoldable pub observe : Bytes → Bytes → Names → Names
observe key val n = elim (lookup key n.client_values) [
  | none ↦ record n { client_values = insert key val n.client_values }
  | some v ↦ if val == v then n else record n { is_cond_true = false }
]

-- The text between the first two quotes.
unfoldable pub quoted : Bytes → Option Bytes
quoted line = get_elem? (split line b'"') 1

unfoldable pub observe_line : Bytes → Names → Option Names
observe_line line n = elim (quoted line) [ none ↦ none | some val ↦ some (observe n.key val n) ]

unfoldable pub note_key : Bytes → Names → Names
note_key line n =
    if is_variable (codes "display_name") line
    then record n { key = head_piece (split line b'-') }
    else n

unfoldable pub name_lines : Bool → List Bytes → Names → Option Names
name_lines found [] n = some n
name_lines found (line ∷ lines) n = elim (if found then observe_line line n else some n) [
  | none ↦ none
  | some n' ↦ name_lines (is_variable (codes "display_name") line) lines (note_key line n')
]

unfoldable pub name_files : List (List Bytes) → Names → Option Names
name_files [] n = some n
name_files (file ∷ files) n = elim (name_lines false file n) [
  | none ↦ none
  | some n' ↦ name_files files n'
]

-- `allValues`: those of the last line that has the variable.
unfoldable pub value_lines : Bool → List Bytes → Map Bytes Bool → Option (Map Bytes Bool)
value_lines found [] all = some all
value_lines found (line ∷ lines) all = elim (if found then parse_values line else some all) [
  | none ↦ none
  | some m ↦ value_lines (is_variable (codes "displayNames") line) lines m
]

unfoldable pub value_files : List (List Bytes) → Map Bytes Bool → Option (Map Bytes Bool)
value_files [] all = some all
value_files (file ∷ files) all = elim (value_lines false file all) [
  | none ↦ none
  | some m ↦ value_files files m
]

-- `isSubset`, over the entries of `clientValues`
unfoldable pub is_subset : Map Bytes Bytes → Map Bytes Bool → Bool
is_subset [] all = true
is_subset ((k, v) ∷ m) all = contains v all && is_subset m all

-- The three answers of `main`.
unfoldable pub check_traces : List (List Bytes) → Option (Bool × Bool × Bool)
check_traces files = elim (unique_files true files) [
  | none ↦ none
  | some unique ↦
      elim (name_files files (record { client_values = []; key = []; is_cond_true = true })) [
        | none ↦ none
        | some n ↦ elim (value_files files []) [
          | none ↦ none
          | some all ↦ some (unique, n.is_cond_true, is_subset n.client_values all)
        ]
      ]
]
