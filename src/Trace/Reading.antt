-- ===== src/Trace/Reading.antt =====
-- The lines of the traces that `main` reads for the names of the clients.
use cs416_tanks.Base.{
  Bool, true, false, ◌≡◌, refl, sym, subst, ◌∙◌, inl, inr, List, [], ◌∷◌, ◌++◌, append_assoc,
  append-nil, some, nat_eq, arith, All, Bool-cases, Option-cases,
}
use cs416_tanks.Base.Bytes.{Bytes, codes, bytes_eq}
use cs416_tanks.Trace.{
  is_variable, quoted, Names, observe, observe_line, note_key, name_lines, name_files,
}
use cs416_tanks.Trace.Tables.{Marked}
use cs416_tanks.Trace.Clients.{key_after, read_lines, last_key, read_files, Kept, observe-Kept}

-- The observations so far, and the key that the next one belongs to.
abbrev Reached : List (Bytes × Bytes) → Bytes → Names → Type 0
Reached obs key n = Kept obs n × (n.key ≡ key)

note_key-Reached :
    (obs : List (Bytes × Bytes)) (line key : Bytes) (n : Names)
    → Reached obs key n
    → Reached obs (key_after line key) (note_key line n)
unfolding note_key
note_key-Reached obs line key n (kept, e) =
    elim (Bool-cases (is_variable (codes "display_name") line)) [
      | inl here ↦
          rw (here, note_key)
            (
              record {
                observed = kept.observed;
                known = kept.known;
                holds = kept.holds;
                single = kept.single;
                fails = kept.fails;
              },
              refl,
            )
      | inr other ↦ rw (other, note_key) (kept, e)
    ]

observe-key : (key val : Bytes) (n : Names) → (observe key val n).key ≡ n.key
unfolding observe
observe-key key val n = ground arith

name_lines-Reached :
    (found : Bool) (lines : List Bytes) (obs : List (Bytes × Bytes)) (key : Bytes) (n n' : Names)
    → Reached obs key n
    → name_lines found lines n ≡ some n'
    → Reached (obs ++ read_lines found key lines) (last_key key lines) n'
unfolding name_lines read_lines observe_line
name_lines-Reached found [] obs key n n' h e =
    subst (Reached (obs ++ []) key) (cc e) (subst (λ os. Reached os key n) (sym (append-nil obs)) h)
name_lines-Reached false (line ∷ lines) obs key n n' h e =
    name_lines-Reached (is_variable (codes "display_name") line) lines obs (key_after line key)
      (note_key line n) n' (note_key-Reached obs line key n h) e
name_lines-Reached true (line ∷ lines) obs key n n' h e = elim (Option-cases (quoted line)) [
  | inl lost ↦ cc (rw (lost, name_lines) at e)
  | inr (val, here) ↦
      let rest = read_lines (is_variable (codes "display_name") line) (key_after line key) lines in
      let step = observe-Kept obs n.key val n h.0 in
      let kept : Reached (obs ++ (key, val) ∷ []) key (observe n.key val n) = (
        subst (λ k. Kept (obs ++ (k, val) ∷ []) (observe n.key val n)) h.1 step,
        observe-key n.key val n ∙ h.1,
      ) in
      let later =
        name_lines-Reached (is_variable (codes "display_name") line) lines (obs ++ (key, val) ∷ [])
          (key_after line key) (note_key line (observe n.key val n)) n'
          (note_key-Reached (obs ++ (key, val) ∷ []) line key (observe n.key val n) kept)
          (rw (here, name_lines) at e) in
      rw (here, read_lines)
        (subst (λ os. Reached os (last_key (key_after line key) lines) n')
          (append_assoc obs ((key, val) ∷ []) rest) later)
]

pub name_files-Kept :
    (files : List (List Bytes)) (obs : List (Bytes × Bytes)) (key : Bytes) (n n' : Names)
    → Reached obs key n
    → name_files files n ≡ some n'
    → Kept (obs ++ read_files key files) n'
unfolding name_files read_files
name_files-Kept [] obs key n n' h e =
    subst (Kept (obs ++ [])) (cc e) (subst (λ os. Kept os n) (sym (append-nil obs)) h.0)
name_files-Kept (file ∷ files) obs key n n' h e = elim (Option-cases (name_lines false file n)) [
  | inl lost ↦ cc (rw (lost, name_files) at e)
  | inr (n1, here) ↦
      subst (λ os. Kept os n')
        (append_assoc obs (read_lines false key file) (read_files (last_key key file) files))
        (name_files-Kept files (obs ++ read_lines false key file) (last_key key file) n1 n'
          (name_lines-Reached false file obs key n n1 h here) (rw (here, name_files) at e))
]

-- A line with two quotes.
abbrev pub IsQuoted : Bytes → Type 0
IsQuoted line = (val : Bytes) × (quoted line ≡ some val)

name_lines-some :
    (found : Bool) (lines : List Bytes) (n : Names)
    → Marked (codes "display_name") IsQuoted found lines
    → (n' : Names) × (name_lines found lines n ≡ some n')
unfolding name_lines observe_line
name_lines-some found [] n h = (n, refl)
name_lines-some false (line ∷ lines) n h =
    name_lines-some (is_variable (codes "display_name") line) lines (note_key line n) h
name_lines-some true (line ∷ lines) n ((val, e), h) =
    let later =
      name_lines-some (is_variable (codes "display_name") line) lines
        (note_key line (observe n.key val n)) h in
    rw (e, name_lines) later

pub name_files-some :
    (files : List (List Bytes)) (n : Names)
    → All (Marked (codes "display_name") IsQuoted false) files
    → (n' : Names) × (name_files files n ≡ some n')
unfolding name_files
name_files-some [] n h = (n, refl)
name_files-some (file ∷ files) n h =
    let (n1, here) = name_lines-some false file n h.0 in
    let later = name_files-some files n1 h.1 in rw (here, name_files) later
