-- ===== src/Trace/Clients.antt =====
-- What the second test of `main` finds: whether each client keeps one display name.
use cs416_tanks.Base.{
  Bool, true, false, ◌≡◌, ◌≢◌, refl, sym, ap, ◌∙◌, ◌⊎◌, inl, inr, List, [], ◌∷◌, ◌++◌, Map, lookup,
  insert, lookup-insert, lookup-insert_self, lookup-insert_ne, none, some, ◌==◌, nat_eq, In,
  In-append, In-append_left, In-append_right, Bool-cases, Option-cases, if◌then◌else◌,
}
use cs416_tanks.Base.Bytes.{Bytes, codes, bytes_eq, split}
use cs416_tanks.Trace.{head_piece, is_variable, quoted, Names, observe}

abbrev pub key_after : Bytes → Bytes → Bytes
key_after line key =
    if is_variable (codes "display_name") line then head_piece (split line b'-') else key

-- The client and the value of each line behind a line that names the variable.
unfoldable pub read_lines : Bool → Bytes → List Bytes → List (Bytes × Bytes)
read_lines found key [] = []
read_lines found key (line ∷ lines) =
    let rest = read_lines (is_variable (codes "display_name") line) (key_after line key) lines in
    if found then (elim (quoted line) [ none ↦ rest | some val ↦ (key, val) ∷ rest ]) else rest

abbrev pub last_key : Bytes → List Bytes → Bytes
last_key key [] = key
last_key key (line ∷ lines) = last_key (key_after line key) lines

unfoldable pub read_files : Bytes → List (List Bytes) → List (Bytes × Bytes)
read_files key [] = []
read_files key (file ∷ files) = read_lines false key file ++ read_files (last_key key file) files

newest :
    (obs : List (Bytes × Bytes)) (key val k v : Bytes)
    → In (k, v) (obs ++ (key, val) ∷ [])
    → In (k, v) obs ⊎ ((k ≡ key) × (v ≡ val))
newest obs key val k v m = elim (In-append (k, v) obs ((key, val) ∷ []) m) [
  | inl old ↦ inl old
  | inr (inl e) ↦ inr (ap (λ (p : Bytes × Bytes). p.0) e, ap (λ (p : Bytes × Bytes). p.1) e)
  | inr (inr no_more) ↦ absurd no_more
]

this_one :
    (obs : List (Bytes × Bytes)) (key val k v : Bytes)
    → (k ≡ key)
    → (v ≡ val)
    → In (k, v) (obs ++ (key, val) ∷ [])
this_one obs key val k v ek ev =
    In-append_right (k, v) obs ((key, val) ∷ []) (inl (λ i. (ek i, ev i)))

inserted :
    (key val k v : Bytes) (m : Map Bytes Bytes)
    → lookup k (insert key val m) ≡ some v
    → ((k ≡ key) × (v ≡ val)) ⊎ (lookup k m ≡ some v)
inserted key val k v m e = elim (Bool-cases (key == k)) [
  | inl same ↦ inl (
    sym ((bytes_eq.same_iff key k).0 same),
    cc (rw same at (rw (lookup-insert k key val m) at e)),
  )
  | inr other ↦ inr (rw other at (rw (lookup-insert k key val m) at e))
]

In-insert :
    (key val k v : Bytes) (m : Map Bytes Bytes)
    → In (k, v) (insert key val m)
    → ((k ≡ key) × (v ≡ val)) ⊎ In (k, v) m
unfolding insert
In-insert key val k v [] m = elim m [
  | inl e ↦ inl (ap (λ (p : Bytes × Bytes). p.0) e, ap (λ (p : Bytes × Bytes). p.1) e)
  | inr no_more ↦ absurd no_more
]
In-insert key val k v ((j, w) ∷ l) m = elim (Bool-cases (j == key)) [
  | inl same ↦ elim (rw (same, insert) at m) [
    | inl e ↦ inl (ap (λ (p : Bytes × Bytes). p.0) e, ap (λ (p : Bytes × Bytes). p.1) e)
    | inr old ↦ inr (inr old)
  ]
  | inr other ↦ elim (rw (other, insert) at m) [
    | inl e ↦ inr (inl e)
    | inr rest ↦ elim (In-insert key val k v l rest) [ inl e ↦ inl e | inr old ↦ inr (inr old) ]
  ]
]

-- Two values of one client.
abbrev pub Clash : List (Bytes × Bytes) → Type 0
Clash obs = (k v w : Bytes) × In (k, v) obs × In (k, w) obs × (v ≢ w)

Clash-more : (obs more : List (Bytes × Bytes)) → Clash obs → Clash (obs ++ more)
Clash-more obs more (k, v, w, a, b, ne) =
    (k, v, w, In-append_left (k, v) obs more a, In-append_left (k, w) obs more b, ne)

-- What is known after some observations.
pub record Kept (obs : List (Bytes × Bytes)) (n : Names) : Type 0 where
  pub observed : (k v : Bytes) → lookup k n.client_values ≡ some v → In (k, v) obs
  pub known : (k v : Bytes) → In (k, v) obs → (w : Bytes) × (lookup k n.client_values ≡ some w)
  pub holds :
      n.is_cond_true ≡ true → (k v : Bytes) → In (k, v) obs → lookup k n.client_values ≡ some v
  pub single : (k v : Bytes) → In (k, v) n.client_values → lookup k n.client_values ≡ some v
  pub fails : n.is_cond_true ≡ false → Clash obs

pub observe-Kept :
    (obs : List (Bytes × Bytes)) (key val : Bytes) (n : Names)
    → Kept obs n
    → Kept (obs ++ (key, val) ∷ []) (observe key val n)
unfolding observe
observe-Kept obs key val n h = elim (Option-cases (lookup key n.client_values)) [
  | inl new ↦
      rw (new, observe)
        (record {
          observed = λ k v e. elim (inserted key val k v n.client_values e) [
            | inl (ek, ev) ↦ this_one obs key val k v ek ev
            | inr old ↦ In-append_left (k, v) obs ((key, val) ∷ []) (h.observed k v old)
          ];
          known = λ k v m. still_known k (elim (newest obs key val k v m) [
            | inl old ↦ inl (h.known k v old)
            | inr (ek, ev) ↦ inr ek
          ]);
          holds = λ ok k v m. elim (newest obs key val k v m) [
            | inl old ↦
                lookup-insert_ne k key val n.client_values (λ (e : key ≡ k).
                  cc (ap (λ t. lookup t n.client_values) e, new, h.holds ok k v old))
                ∙ h.holds ok k v old
            | inr (ek, ev) ↦
                ap (λ t. lookup t (insert key val n.client_values)) ek
                ∙ lookup-insert_self key val n.client_values
                ∙ ap some (sym ev)
          ];
          single = λ k v m. elim (In-insert key val k v n.client_values m) [
            | inl (ek, ev) ↦
                ap (λ t. lookup t (insert key val n.client_values)) ek
                ∙ lookup-insert_self key val n.client_values
                ∙ ap some (sym ev)
            | inr old ↦
                lookup-insert_ne k key val n.client_values (λ (e : key ≡ k).
                  cc (ap (λ t. lookup t n.client_values) e, new, h.single k v old))
                ∙ h.single k v old
          ];
          fails = λ bad. Clash-more obs ((key, val) ∷ []) (h.fails bad);
        })
  | inr (w, old) ↦ elim (Bool-cases (val == w)) [
    | inl same ↦
        rw (old, observe)
          (rw same (record {
            observed = λ k v e. In-append_left (k, v) obs ((key, val) ∷ []) (h.observed k v e);
            known = λ k v m. elim (newest obs key val k v m) [
              | inl there ↦ h.known k v there
              | inr (ek, ev) ↦ (w, ap (λ t. lookup t n.client_values) ek ∙ old)
            ];
            holds = λ ok k v m. elim (newest obs key val k v m) [
              | inl there ↦ h.holds ok k v there
              | inr (ek, ev) ↦
                  ap (λ t. lookup t n.client_values) ek
                  ∙ old
                  ∙ ap some (sym ((bytes_eq.same_iff val w).0 same) ∙ sym ev)
            ];
            single = h.single;
            fails = λ bad. Clash-more obs ((key, val) ∷ []) (h.fails bad);
          }))
    | inr other ↦
        rw (old, observe)
          (rw other (record {
            observed = λ k v e. In-append_left (k, v) obs ((key, val) ∷ []) (h.observed k v e);
            known = λ k v m. elim (newest obs key val k v m) [
              | inl there ↦ h.known k v there
              | inr (ek, ev) ↦ (w, ap (λ t. lookup t n.client_values) ek ∙ old)
            ];
            holds = λ ok. cc ok;
            single = h.single;
            fails = λ bad. (
              key,
              w,
              val,
              In-append_left (key, w) obs ((key, val) ∷ []) (h.observed key w old),
              In-append_right (key, val) obs ((key, val) ∷ []) (inl refl),
              λ (e : w ≡ val). cc ((bytes_eq.same_iff val w).1 (sym e), other),
            );
          }))
  ]
]
  where
    still_known :
        (k : Bytes)
        → ((w : Bytes) × (lookup k n.client_values ≡ some w)) ⊎ (k ≡ key)
        → (w : Bytes) × (lookup k (insert key val n.client_values) ≡ some w)
    still_known k (inr e) = (
      val,
      ap (λ t. lookup t (insert key val n.client_values)) e
          ∙ lookup-insert_self key val n.client_values,
    )
    still_known k (inl (w, e)) = elim (Bool-cases (key == k)) [
      | inl same ↦ (val, rw (lookup-insert k key val n.client_values) (rw same refl))
      | inr other ↦ (w, rw (lookup-insert k key val n.client_values) (rw other e))
    ]
