-- ===== src/Trace/Answers.antt =====
-- The second and third answers of `main` against the lines of the traces.
use cs416_tanks.Base.{
  Bool, true, false, ◌≡◌, refl, sym, ap, ◌∙◌, ◌↔◌, inl, inr, List, [], ◌∷◌, Map, lookup, contains,
  some, ◌==◌, nat_eq, In, All, AllDistinct, Bool-cases,
}
use cs416_tanks.Base.Bytes.{Bytes, codes, bytes_eq}
use cs416_tanks.Trace.{Names, is_subset, check_traces}
use cs416_tanks.Trace.Tables.{
  Marked, IsTable, all_tables, latest, HasKeys, unique_files-Judged, value_files-HasKeys,
}
use cs416_tanks.Trace.Unique.{none_there}
use cs416_tanks.Trace.Clients.{read_files, Kept}
use cs416_tanks.Trace.Reading.{name_files-Kept, IsQuoted, name_files-some}

lookup-In : (k v : Bytes) (m : Map Bytes Bytes) → lookup k m ≡ some v → In (k, v) m
unfolding lookup
lookup-In k v [] e = absurd (cc e)
lookup-In k v ((j, w) ∷ m) e = elim (Bool-cases (j == k)) [
  | inl same ↦
      let value : v ≡ w = (cc (rw (same, lookup) at e)) in
      inl (λ i. (sym ((bytes_eq.same_iff j k).0 same) i, value i))
  | inr other ↦ inr (lookup-In k v m (rw (other, lookup) at e))
]

is_subset_iff :
    (m : Map Bytes Bytes) (all : Map Bytes Bool)
    → (is_subset m all ≡ true) ↔ ((k v : Bytes) → In (k, v) m → contains v all ≡ true)
unfolding is_subset
is_subset_iff [] all = ((λ h k v there. absurd there), λ h. refl)
is_subset_iff ((k, v) ∷ m) all = elim (Bool-cases (contains v all)) [
  | inr missing ↦ ((λ h. cc (rw (missing, is_subset) at h)), λ h. cc (h k v (inl refl), missing))
  | inl there ↦
      let ih = is_subset_iff m all in
      (
        (λ h k1 v1 at1. elim at1 [
          | inl e ↦ ap (λ (p : Bytes × Bytes). contains p.1 all) e ∙ there
          | inr later ↦ ih.0 (rw (there, is_subset) at h) k1 v1 later
        ]),
        λ h. rw (there, is_subset) (ih.1 (λ k1 v1 later. h k1 v1 (inr later))),
      )
]

-- Every client has one name.
abbrev pub OneEach : List (Bytes × Bytes) → Type 0
OneEach obs = (k v w : Bytes) → In (k, v) obs → In (k, w) obs → v ≡ w

-- Every name of a client is in the list.
abbrev pub AllKnown : List (Bytes × Bytes) → List Bytes → Type 0
AllKnown obs ns = (k v : Bytes) → In (k, v) obs → In v ns

Kept-OneEach :
    (obs : List (Bytes × Bytes)) (n : Names) → Kept obs n → (n.is_cond_true ≡ true) ↔ OneEach obs
Kept-OneEach obs n h = (
  λ ok k v w a b. cc (h.holds ok k v a, h.holds ok k w b),
  λ one. elim (Bool-cases n.is_cond_true) [
    | inl ok ↦ ok
    | inr broken ↦ let (k, v, w, a, b, ne) = h.fails broken in absurd (ne (one k v w a b))
  ],
)

Kept-AllKnown :
    (obs : List (Bytes × Bytes)) (n : Names) (all : Map Bytes Bool) (ns : List Bytes)
    → Kept obs n
    → HasKeys all ns
    → ((n.is_cond_true ≡ true) × (is_subset n.client_values all ≡ true))
      ↔ (OneEach obs × AllKnown obs ns)
Kept-AllKnown obs n all ns h keys =
    let one = Kept-OneEach obs n h in
    let among = is_subset_iff n.client_values all in
    (
      (λ t. (
        one.0 t.0,
        λ k v there.
            (keys v).0 (among.0 t.1 k v (lookup-In k v n.client_values (h.holds t.0 k v there))),
      )),
      λ t. (
        one.1 t.0,
        among.1 (λ k v there. (keys v).1 (t.1 k v (h.observed k v (h.single k v there)))),
      ),
    )

-- With a table behind each line that names `displayNames` and two quotes in the line behind each
-- that names `display_name`, `main` gives its three answers. The first is whether every table has
-- different names, the second whether each client has one name, and the second and third hold
-- together just when each client has one name and all these are in the last table.
pub check_traces_lem :
    (files : List (List Bytes))
    → All (Marked (codes "displayNames") IsTable false) files
    → All (Marked (codes "display_name") IsQuoted false) files
    → (unique : Bool) × (single : Bool) × (subset : Bool) × (check_traces files
        ≡ some (unique, single, subset))
      × ((unique ≡ true) ↔ All AllDistinct (all_tables files))
      × ((single ≡ true) ↔ OneEach (read_files [] files))
      × (((single ≡ true) × (subset ≡ true)) ↔ (
          OneEach (read_files [] files)
          × AllKnown (read_files [] files) (latest [] (all_tables files))))
unfolding check_traces
check_traces_lem files tables quotes =
    let start : Names = (record { client_values = []; key = []; is_cond_true = true }) in
    let (unique, first, iff) = unique_files-Judged true files tables in
    let (n, second) = name_files-some files start quotes in
    let kept : Kept (read_files [] files) n =
      (name_files-Kept files [] [] start n (Kept-none, refl) second) in
    let (all, third, keys) = value_files-HasKeys files [] [] tables no_keys in
    (
      unique,
      n.is_cond_true,
      is_subset n.client_values all,
      rw (first, check_traces) (rw (second, check_traces) (rw (third, check_traces) refl)),
      ((λ h. (iff.0 h).1), λ h. iff.1 (refl, h)),
      Kept-OneEach (read_files [] files) n kept,
      Kept-AllKnown (read_files [] files) n all (latest [] (all_tables files)) kept keys,
    )
  where
    Kept-none : Kept [] (record { client_values = []; key = []; is_cond_true = true })
    Kept-none = record {
      observed = λ k v e. absurd (lookup-In k v [] e);
      known = λ k v m. absurd m;
      holds = λ ok k v m. absurd m;
      single = λ k v m. absurd m;
      fails = λ e. absurd (cc e);
    }

    no_keys : HasKeys [] []
    no_keys n = ((λ e. absurd (cc (none_there n, e))), λ m. absurd m)
