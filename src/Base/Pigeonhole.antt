-- ===== src/Base/Pigeonhole.antt =====
-- A list without repetitions that is longer than another has an element that the other has not.
use cs416_tanks.Base.{
  ℕ, ◌≤◌, ◌<◌, ◌≢◌, refl, subst, ◌⊎◌, inl, inr, List, [], ◌∷◌, ◌==◌, nat_eq, arith, length, In,
  AllDistinct, Bool-cases, if◌then◌else◌,
}

-- All but `x`.
abbrev others : ℕ → List ℕ → List ℕ
others x [] = []
others x (y ∷ ys) = let rest = others x ys in if y == x then rest else y ∷ rest

In-others : (x z : ℕ) (ys : List ℕ) → In z ys → z ≢ x → In z (others x ys)
In-others x z [] v ne = v
In-others x z (y ∷ ys) v ne = elim (Bool-cases (y == x)) [
  | inl same ↦ rw same (elim v [ inl e ↦ absurd (ground arith) | inr w ↦ In-others x z ys w ne ])
  | inr other ↦ rw other (elim v [ inl e ↦ inl e | inr w ↦ inr (In-others x z ys w ne) ])
]

others_le : (x : ℕ) (ys : List ℕ) → length (others x ys) ≤ length ys
others_le x [] = omega arith
others_le x (y ∷ ys) = ground (arith, others_le x ys)

others_lt : (x : ℕ) (ys : List ℕ) → In x ys → length (others x ys) < length ys
others_lt x [] v = absurd v
others_lt x (y ∷ ys) (inl e) = ground (arith, others_le x ys)
others_lt x (y ∷ ys) (inr v) = ground (arith, others_lt x ys v)

is_in : (x : ℕ) (ys : List ℕ) → (In x ys) ⊎ (¬ In x ys)
is_in x [] = inr (λ v. v)
is_in x (y ∷ ys) = elim (Bool-cases (x == y)) [
  | inl same ↦ inl (inl (ground arith))
  | inr other ↦ elim (is_in x ys) [
    | inl v ↦ inl (inr v)
    | inr out ↦ inr (λ v. elim v [ inl e ↦ ground arith | inr w ↦ out w ])
  ]
]

pub spare :
    (xs ys : List ℕ) → AllDistinct xs → length ys < length xs → (a : ℕ) × In a xs × (¬ In a ys)
spare [] ys distinct short = absurd (omega arith)
spare (x ∷ xs) ys (out, distinct) short = elim (is_in x ys) [
  | inr free ↦ (x, inl refl, free)
  | inl taken ↦
      let (a, v, free) = spare xs (others x ys) distinct (omega (arith, others_lt x ys taken)) in
      (a, inr v, λ w. free (In-others x a ys w (λ e. out (subst (λ t. In t xs) e v))))
]
