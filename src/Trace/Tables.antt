-- ===== src/Trace/Tables.antt =====
-- What the first test of `main` finds: whether each printed table of the server has different names.
use cs416_tanks.Base.{
  Bool, true, false, ◌≡◌, refl, ◌↔◌, List, [], ◌∷◌, ◌++◌, Map, contains, Option, none, some, nat_eq,
  In, All, AllDistinct, if◌then◌else◌,
}
use cs416_tanks.Base.Bytes.{Bytes, codes, bytes_eq}
use cs416_tanks.Trace.{
  is_variable, test_val_uniqueness, unique_lines, unique_files, value_lines, value_files,
}
use cs416_tanks.Trace.Unique.{names_of, test_val_uniqueness_iff, parse_values_iff}

-- A line behind one that names the variable is as `P` says.
abbrev pub Marked : Bytes → (Bytes → Type 0) → Bool → List Bytes → Type 0
Marked name P found [] = Unit
Marked name P false (line ∷ lines) = Marked name P (is_variable name line) lines
Marked name P true (line ∷ lines) = P line × Marked name P (is_variable name line) lines

-- A line that names can be read from.
abbrev pub IsTable : Bytes → Type 0
IsTable line = (ns : List Bytes) × (names_of line ≡ some ns)

-- The names of each table, in the order of the lines.
unfoldable pub tables : Bool → List Bytes → List (List Bytes)
tables found [] = []
tables found (line ∷ lines) =
    let rest = tables (is_variable (codes "displayNames") line) lines in
    if found then (elim (names_of line) [ none ↦ rest | some ns ↦ ns ∷ rest ]) else rest

unfoldable pub all_tables : List (List Bytes) → List (List Bytes)
all_tables [] = []
all_tables (file ∷ files) = tables false file ++ all_tables files

-- The last of some lists.
abbrev pub latest : List Bytes → List (List Bytes) → List Bytes
latest ns [] = ns
latest ns (ms ∷ rest) = latest ms rest

latest-append :
    (ns : List Bytes) (us ts : List (List Bytes)) → latest ns (us ++ ts) ≡ latest (latest ns us) ts
latest-append ns [] ts = refl
latest-append ns (ms ∷ us) ts = latest-append ms us ts

-- The answer is given, and is true just when it was and the tables have different names.
abbrev Judged : Option Bool → Bool → List (List Bytes) → Type 0
Judged answer unique ts =
    (b : Bool) × (answer ≡ some b) × ((b ≡ true) ↔ ((unique ≡ true) × All AllDistinct ts))

Judged-done : (b : Bool) → Judged (some b) b []
Judged-done b = (b, refl, ((λ h. (h, tt)), λ h. h.0))

-- A first list, then the others.
Judged-next :
    (answer : Option Bool) (unique u : Bool) (ns : List Bytes) (ts : List (List Bytes))
    → ((u ≡ true) ↔ ((unique ≡ true) × AllDistinct ns))
    → Judged answer u ts
    → Judged answer unique (ns ∷ ts)
Judged-next answer unique u ns ts one (b, e, later) = (
  b,
  e,
  (
    (λ h. let (hu, rest) = later.0 h in let (h1, h2) = one.0 hu in (h1, (h2, rest))),
    λ h. later.1 (one.1 (h.0, h.1.0), h.1.1),
  ),
)

-- One round at a table.
test_table :
    (unique : Bool) (line : Bytes) (ns : List Bytes)
    → names_of line ≡ some ns
    → (u : Bool) × ((if unique then test_val_uniqueness line else some unique) ≡ some u)
      × ((u ≡ true) ↔ ((unique ≡ true) × AllDistinct ns))
test_table false line ns e = (false, refl, ((λ h. cc h), λ h. cc h.0))
test_table true line ns e =
    let (b, found, iff) = test_val_uniqueness_iff line ns e in
    (b, found, ((λ h. (refl, iff.0 h)), λ h. iff.1 h.1))

unique_lines-Judged :
    (found unique : Bool) (lines : List Bytes)
    → Marked (codes "displayNames") IsTable found lines
    → Judged (unique_lines found unique lines) unique (tables found lines)
unfolding unique_lines tables
unique_lines-Judged found unique [] h = Judged-done unique
unique_lines-Judged false unique (line ∷ lines) h =
    unique_lines-Judged (is_variable (codes "displayNames") line) unique lines h
unique_lines-Judged true unique (line ∷ lines) ((ns, e), h) =
    let (u, tested, one) = test_table unique line ns e in
    let later = unique_lines-Judged (is_variable (codes "displayNames") line) u lines h in
    rw (e, tables)
      (rw (tested, unique_lines)
        (Judged-next (unique_lines (is_variable (codes "displayNames") line) u lines) unique u ns
          (tables (is_variable (codes "displayNames") line) lines) one later))

All-parts :
    (ts us : List (List Bytes))
    → All AllDistinct (ts ++ us) ↔ (All AllDistinct ts × All AllDistinct us)
All-parts [] us = ((λ h. (tt, h)), λ h. h.1)
All-parts (ns ∷ ts) us =
    let ih = All-parts ts us in
    ((λ h. ((h.0, (ih.0 h.1).0), (ih.0 h.1).1)), λ h. (h.0.0, ih.1 (h.0.1, h.1)))

pub unique_files-Judged :
    (unique : Bool) (files : List (List Bytes))
    → All (Marked (codes "displayNames") IsTable false) files
    → Judged (unique_files unique files) unique (all_tables files)
unfolding unique_files all_tables
unique_files-Judged unique [] h = Judged-done unique
unique_files-Judged unique (file ∷ files) h =
    let (u, read, one) = unique_lines-Judged false unique file h.0 in
    let (b, rest, more) = unique_files-Judged u files h.1 in
    let parts = All-parts (tables false file) (all_tables files) in
    (
      b,
      rw (read, unique_files) rest,
      (
        (λ t. let (hu, later) = more.0 t in let (h1, h2) = one.0 hu in (h1, parts.1 (h2, later))),
        λ t. let (here, later) = parts.0 t.1 in more.1 (one.1 (t.0, here), later),
      ),
    )

-- A map with just the given keys.
abbrev pub HasKeys : Map Bytes Bool → List Bytes → Type 0
HasKeys m ns = (n : Bytes) → (contains n m ≡ true) ↔ In n ns

value_lines-HasKeys :
    (found : Bool) (lines : List Bytes) (all : Map Bytes Bool) (ns : List Bytes)
    → Marked (codes "displayNames") IsTable found lines
    → HasKeys all ns
    → (m : Map Bytes Bool) × (value_lines found lines all ≡ some m)
      × HasKeys m (latest ns (tables found lines))
unfolding value_lines tables
value_lines-HasKeys found [] all ns h keys = (all, refl, keys)
value_lines-HasKeys false (line ∷ lines) all ns h keys =
    value_lines-HasKeys (is_variable (codes "displayNames") line) lines all ns h keys
value_lines-HasKeys true (line ∷ lines) all ns ((ms, e), h) keys =
    let (now, parsed, those) = parse_values_iff line ms e in
    let later =
      value_lines-HasKeys (is_variable (codes "displayNames") line) lines now ms h those in
    rw (e, tables) (rw (parsed, value_lines) later)

pub value_files-HasKeys :
    (files : List (List Bytes)) (all : Map Bytes Bool) (ns : List Bytes)
    → All (Marked (codes "displayNames") IsTable false) files
    → HasKeys all ns
    → (m : Map Bytes Bool) × (value_files files all ≡ some m)
      × HasKeys m (latest ns (all_tables files))
unfolding value_files all_tables
value_files-HasKeys [] all ns h keys = (all, refl, keys)
value_files-HasKeys (file ∷ files) all ns h keys =
    let (now, read, those) = value_lines-HasKeys false file all ns h.0 keys in
    let later = value_files-HasKeys files now (latest ns (tables false file)) h.1 those in
    rw (latest-append ns (tables false file) (all_tables files)) (rw (read, value_files) later)
