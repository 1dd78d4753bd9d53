-- ===== src/Trace/Unique.antt =====
-- What `testValUniqueness` and `parseValues` find in a printed map.
use cs416_tanks.Base.{
  Bool, true, false, ◌≡◌, ◌≢◌, refl, sym, subst, ap, ◌∙◌, ◌⊎◌, ◌↔◌, inl, inr, List, [], ◌∷◌, map,
  Map, lookup, insert, contains, lookup-insert, Option, none, some, nat_eq, arith, In, AllDistinct,
  Bool-cases, Option-cases,
}
use cs416_tanks.Base.Bytes.{Bytes, bytes_eq, split}
use cs416_tanks.Trace.{
  first_name, later_name, test_later, test_pieces, test_val_uniqueness, parse_later, parse_pieces,
  parse_values,
}

-- The names of a printed map, in the order of the text.
unfoldable pub name_pieces : List Bytes → Option (List Bytes)
name_pieces [] = some []
name_pieces (str ∷ strs) = elim (first_name str) [
  | none ↦ none
  | some key ↦ some (key ∷ map later_name strs)
]

unfoldable pub names_of : Bytes → Option (List Bytes)
names_of s = name_pieces (split s b' ')

contains-insert_iff :
    (n k : Bytes) (m : Map Bytes Bool)
    → (contains n (insert k true m) ≡ true) ↔ ((n ≡ k) ⊎ (contains n m ≡ true))
unfolding contains
contains-insert_iff n k m = (
  λ h. ground (arith, lookup-insert n k true m, bytes_eq.same_iff k n),
  λ h. ground (arith, lookup-insert n k true m, bytes_eq.same_iff k n),
)

-- The names are different, and none is among those that were seen.
abbrev NewNames : Map Bytes Bool → List Bytes → Type 0
NewNames seen ns = AllDistinct ns × ((n : Bytes) → In n ns → contains n seen ≡ false)

test_later_iff :
    (strs : List Bytes) (seen : Map Bytes Bool)
    → (test_later strs seen ≡ true) ↔ NewNames seen (map later_name strs)
unfolding test_later
test_later_iff [] seen = (λ h. (tt, λ n v. absurd v), λ h. refl)
test_later_iff (str ∷ strs) seen = elim (Bool-cases (contains (later_name str) seen)) [
  | inl known ↦
      ((λ h. cc (rw (known, test_later) at h)), λ h. cc (h.1 (later_name str) (inl refl), known))
  | inr new ↦
      let ih = test_later_iff strs (insert (later_name str) true seen) in
      (
        λ h.
            let (distinct, apart) = ih.0 (rw (new, test_later) at h) in
            (
              (
                (λ v. cc (
                  apart (later_name str) v,
                  (contains-insert_iff (later_name str) (later_name str) seen).1 (inl refl),
                )),
                distinct,
              ),
              λ n v. elim v [
                | inl e ↦ ap (λ t. contains t seen) e ∙ new
                | inr w ↦ not_seen n (apart n w)
              ],
            ),
        λ h.
            rw (new, test_later)
              (ih.1 (
                h.0.1,
                λ n v.
                    still_new n
                      (λ (e : n ≡ later_name str).
                        h.0.0 (subst (λ t. In t (map later_name strs)) e v))
                      (h.1 n (inr v)),
              )),
      )
]
  where
    not_seen :
        (n : Bytes)
        → contains n (insert (later_name str) true seen) ≡ false
        → contains n seen ≡ false
    not_seen n e = elim (Bool-cases (contains n seen)) [
      | inl old ↦ cc (e, (contains-insert_iff n (later_name str) seen).1 (inr old))
      | inr none_seen ↦ none_seen
    ]

    still_new :
        (n : Bytes)
        → n ≢ later_name str
        → contains n seen ≡ false
        → contains n (insert (later_name str) true seen) ≡ false
    still_new n ne fresh = elim (Bool-cases (contains n (insert (later_name str) true seen))) [
      | inr none_seen ↦ none_seen
      | inl there ↦ elim ((contains-insert_iff n (later_name str) seen).0 there) [
        | inl e ↦ absurd (ne e)
        | inr old ↦ cc (old, fresh)
      ]
    ]

-- A text with names: its first name and the rest.
abbrev HasNames : List Bytes → List Bytes → Type 0
HasNames [] ns = ns ≡ []
HasNames (str ∷ strs) ns =
    (key : Bytes) × (first_name str ≡ some key) × (ns ≡ key ∷ map later_name strs)

name_pieces-HasNames : (pieces ns : List Bytes) → name_pieces pieces ≡ some ns → HasNames pieces ns
unfolding name_pieces
name_pieces-HasNames [] ns e = sym (cc e)
name_pieces-HasNames (str ∷ strs) ns e = elim (Option-cases (first_name str)) [
  | inl lost ↦ cc (rw (lost, name_pieces) at e)
  | inr (key, found) ↦ (key, found, cc (rw (found, name_pieces) at e))
]

pub none_there : (n : Bytes) → contains {V = Bool} n [] ≡ false
unfolding contains lookup
none_there n = refl

NewNames-AllDistinct :
    (key : Bytes) (ns : List Bytes) → NewNames (insert key true []) ns ↔ AllDistinct (key ∷ ns)
NewNames-AllDistinct key ns = (
  λ h. ((λ v. cc (h.1 key v, (contains-insert_iff key key []).1 (inl refl))), h.0),
  λ h. (
    h.1,
    λ n v. elim (Bool-cases (contains n (insert key true []))) [
      | inr fresh ↦ fresh
      | inl there ↦ elim ((contains-insert_iff n key []).0 there) [
        | inl e ↦ absurd (h.0 (subst (λ t. In t ns) e v))
        | inr old ↦ cc (none_there n, old)
      ]
    ],
  ),
)

test_pieces_iff :
    (pieces ns : List Bytes)
    → HasNames pieces ns
    → (b : Bool) × (test_pieces pieces ≡ some b) × ((b ≡ true) ↔ AllDistinct ns)
unfolding test_pieces
test_pieces_iff [] ns e = (true, refl, ((λ _. rw e tt), λ _. refl))
test_pieces_iff (str ∷ strs) ns (key, found, e) =
    let later = test_later_iff strs (insert key true []) in
    let all = NewNames-AllDistinct key (map later_name strs) in
    (
      test_later strs (insert key true []),
      rw (found, test_pieces) refl,
      rw e ((λ h. all.0 (later.0 h)), λ h. later.1 (all.1 h)),
    )

-- `testValUniqueness` of a text with names in it answers whether they are all different.
pub test_val_uniqueness_iff :
    (s : Bytes) (ns : List Bytes)
    → names_of s ≡ some ns
    → (b : Bool) × (test_val_uniqueness s ≡ some b) × ((b ≡ true) ↔ AllDistinct ns)
unfolding test_val_uniqueness names_of
test_val_uniqueness_iff s ns e =
    test_pieces_iff (split s b' ') ns (name_pieces-HasNames (split s b' ') ns e)

parse_later_iff :
    (strs : List Bytes) (seen : Map Bytes Bool) (n : Bytes)
    → (contains n (parse_later strs seen) ≡ true)
      ↔ (In n (map later_name strs) ⊎ (contains n seen ≡ true))
unfolding parse_later
parse_later_iff [] seen n = (inr, λ h. elim h [ inl v ↦ absurd v | inr old ↦ old ])
parse_later_iff (str ∷ strs) seen n =
    let ih = parse_later_iff strs (insert (later_name str) true seen) n in
    let here = contains-insert_iff n (later_name str) seen in
    (
      λ h. elim (ih.0 h) [
        | inl v ↦ inl (inr v)
        | inr there ↦ elim (here.0 there) [ inl e ↦ inl (inl e) | inr old ↦ inr old ]
      ],
      λ h. elim h [
        | inl (inl e) ↦ ih.1 (inr (here.1 (inl e)))
        | inl (inr v) ↦ ih.1 (inl v)
        | inr old ↦ ih.1 (inr (here.1 (inr old)))
      ],
    )

parse_first_iff :
    (strs : List Bytes) (key n : Bytes)
    → (contains n (parse_later strs (insert key true [])) ≡ true) ↔ In n (key ∷ map later_name strs)
parse_first_iff strs key n =
    let later = parse_later_iff strs (insert key true []) n in
    let first = contains-insert_iff n key [] in
    (
      λ h. elim (later.0 h) [
        | inl v ↦ inr v
        | inr there ↦ elim (first.0 there) [ inl e ↦ inl e | inr old ↦ cc (none_there n, old) ]
      ],
      λ v. later.1 (elim v [ inl e ↦ inr (first.1 (inl e)) | inr w ↦ inl w ]),
    )

-- `parseValues` of such a text gives a map with these names and no other.
pub parse_values_iff :
    (s : Bytes) (ns : List Bytes)
    → names_of s ≡ some ns
    → (m : Map Bytes Bool) × (parse_values s ≡ some m)
      × ((n : Bytes) → (contains n m ≡ true) ↔ In n ns)
unfolding parse_values names_of parse_pieces
parse_values_iff s ns e = of_pieces (split s b' ') (name_pieces-HasNames (split s b' ') ns e)
  where
    of_pieces :
        (pieces : List Bytes)
        → HasNames pieces ns
        → (m : Map Bytes Bool) × (parse_pieces pieces ≡ some m)
          × ((n : Bytes) → (contains n m ≡ true) ↔ In n ns)
    of_pieces [] h = ([], refl, λ n. rw h ((λ there. cc (none_there n, there)), λ v. absurd v))
    of_pieces (str ∷ strs) (key, found, h) = (
      parse_later strs (insert key true []),
      rw (found, parse_pieces) refl,
      λ n. rw h (parse_first_iff strs key n),
    )
