-- ===== src/Base/Lists.antt =====
-- Lists measured by native numbers, and predicates on lists by recursion.
use Prim.Native.Nat.{ℕ, zero, suc, ◌+◌, ◌-◌, ◌≤◌, ◌<◌}
use mathlib.Core.Path.{◌≡◌, refl, sym, ap, subst}
use mathlib.Core.Logic.{◌⊎◌, inl, inr}
use mathlib.Core.Option.{Option, none, some}
use mathlib.Core.List.{List, [], ◌∷◌, ◌++◌}
use native.Mathlib.Omega.{arith}

module _ {ℓ} {A : Type ℓ} where
  abbrev pub length : List A → ℕ
  length [] = 0
  length (x ∷ xs) = suc (length xs)

  pub length-append : (xs ys : List A) → length (xs ++ ys) ≡ length xs + length ys
  length-append [] ys = omega arith
  length-append (x ∷ xs) ys = omega (arith, length-append xs ys)

  abbrev pub take : ℕ → List A → List A
  take zero xs = []
  take (suc n) [] = []
  take (suc n) (x ∷ xs) = x ∷ take n xs

  abbrev pub drop : ℕ → List A → List A
  drop zero xs = xs
  drop (suc n) [] = []
  drop (suc n) (x ∷ xs) = drop n xs

  abbrev pub get_elem? : List A → ℕ → Option A
  get_elem? [] n = none
  get_elem? (x ∷ xs) zero = some x
  get_elem? (x ∷ xs) (suc n) = get_elem? xs n

module _ {A : Type 0} where
  -- Membership that can be taken apart.
  abbrev pub In : A → List A → Type 0
  In a [] = ⊥
  In a (x ∷ xs) = (a ≡ x) ⊎ In a xs

  pub In-append_left : (a : A) (xs ys : List A) → In a xs → In a (xs ++ ys)
  In-append_left a [] ys h = absurd h
  In-append_left a (x ∷ xs) ys (inl e) = inl e
  In-append_left a (x ∷ xs) ys (inr h) = inr (In-append_left a xs ys h)

  pub In-append_right : (a : A) (xs ys : List A) → In a ys → In a (xs ++ ys)
  In-append_right a [] ys h = h
  In-append_right a (x ∷ xs) ys h = inr (In-append_right a xs ys h)

  pub In-append : (a : A) (xs ys : List A) → In a (xs ++ ys) → In a xs ⊎ In a ys
  In-append a [] ys h = inr h
  In-append a (x ∷ xs) ys (inl e) = inl (inl e)
  In-append a (x ∷ xs) ys (inr h) = elim (In-append a xs ys h) [
    | inl p ↦ inl (inr p)
    | inr q ↦ inr q
  ]

module _ {ℓ κ} {A : Type ℓ} (P : A → Type κ) where
  abbrev pub All : List A → Type κ
  All [] = Unit
  All (x ∷ xs) = P x × All xs

  pub All-append : (xs ys : List A) → All xs → All ys → All (xs ++ ys)
  All-append [] ys hx hy = hy
  All-append (x ∷ xs) ys hx hy = (hx.0, All-append xs ys hx.1 hy)

pub All-map {ℓ κ μ} :
    {A : Type ℓ} (P : A → Type κ) (Q : A → Type μ) (f : (a : A) → P a → Q a) (xs : List A)
    → All P xs
    → All Q xs
All-map P Q f [] h = tt
All-map P Q f (x ∷ xs) h = (f x h.0, All-map P Q f xs h.1)

pub All-In {κ} : {A : Type 0} (P : A → Type κ) (xs : List A) → ((a : A) → In a xs → P a) → All P xs
All-In P [] h = tt
All-In P (x ∷ xs) h = (h x (inl refl), All-In P xs (λ a m. h a (inr m)))

module _ {A : Type 0} where
  pub All-at {κ} : (P : A → Type κ) (a : A) (xs : List A) → All P xs → In a xs → P a
  All-at P a [] h v = absurd v
  All-at P a (x ∷ xs) h (inl e) = subst P (sym e) h.0
  All-at P a (x ∷ xs) h (inr v) = All-at P a xs h.1 v

  pub In-take : (n : ℕ) (a : A) (xs : List A) → In a (take n xs) → In a xs
  In-take zero a xs h = absurd h
  In-take (suc n) a [] h = absurd h
  In-take (suc n) a (x ∷ xs) (inl e) = inl e
  In-take (suc n) a (x ∷ xs) (inr h) = inr (In-take n a xs h)

  pub take_all : (n : ℕ) (xs : List A) → length xs ≤ n → take n xs ≡ xs
  take_all zero [] h = refl
  take_all zero (x ∷ xs) h = absurd (omega arith)
  take_all (suc n) [] h = refl
  take_all (suc n) (x ∷ xs) h = ap (λ ys. x ∷ ys) (take_all n xs (omega arith))

  pub length-take : (n : ℕ) (xs : List A) → n ≤ length xs → length (take n xs) ≡ n
  length-take zero xs h = refl
  length-take (suc n) [] h = absurd (omega arith)
  length-take (suc n) (x ∷ xs) h = ap suc (length-take n xs (omega arith))

  -- No element stands twice.
  abbrev pub AllDistinct : List A → Type 0
  AllDistinct [] = Unit
  AllDistinct (x ∷ xs) = (¬ In x xs) × AllDistinct xs

  pub AllDistinct-take : (n : ℕ) (xs : List A) → AllDistinct xs → AllDistinct (take n xs)
  AllDistinct-take zero xs h = tt
  AllDistinct-take (suc n) [] h = tt
  AllDistinct-take (suc n) (x ∷ xs) h = (λ v. h.0 (In-take n x xs v), AllDistinct-take n xs h.1)

  pub AllDistinct-append :
      (xs ys : List A)
      → AllDistinct xs
      → AllDistinct ys
      → ((a : A) → In a xs → ¬ In a ys)
      → AllDistinct (xs ++ ys)
  AllDistinct-append [] ys hx hy apart = hy
  AllDistinct-append (x ∷ xs) ys hx hy apart = (
    λ v. elim (In-append x xs ys v) [ inl p ↦ hx.0 p | inr q ↦ apart x (inl refl) q ],
    AllDistinct-append xs ys hx.1 hy (λ a v. apart a (inr v)),
  )

module _ {A : Type 0} where
  pub length-drop : (n : ℕ) (xs : List A) → length (drop n xs) ≡ length xs - n
  length-drop zero xs = omega arith
  length-drop (suc n) [] = omega arith
  length-drop (suc n) (x ∷ xs) = omega (arith, length-drop n xs)

  pub AllDistinct-parts :
      (xs ys : List A)
      → AllDistinct (xs ++ ys)
      → AllDistinct xs × AllDistinct ys × ((a : A) → In a xs → ¬ In a ys)
  AllDistinct-parts [] ys h = (tt, h, λ a v. absurd v)
  AllDistinct-parts (x ∷ xs) ys h =
      let (hx, hy, apart) = AllDistinct-parts xs ys h.1 in
      (
        ((λ v. h.0 (In-append_left x xs ys v)), hx),
        hy,
        λ a v. elim v [
          | inl e ↦ λ w. h.0 (In-append_right x xs ys (subst (λ t. In t ys) e w))
          | inr w ↦ apart a w
        ],
      )

  pub length-take_some : (n : ℕ) (xs : List A) → length (take n xs) ≤ length xs
  length-take_some zero xs = omega arith
  length-take_some (suc n) [] = omega arith
  length-take_some (suc n) (x ∷ xs) = omega (arith, length-take_some n xs)

  pub In-drop : (n : ℕ) (a : A) (xs : List A) → In a (drop n xs) → In a xs
  In-drop zero a xs h = h
  In-drop (suc n) a [] h = absurd h
  In-drop (suc n) a (x ∷ xs) h = inr (In-drop n a xs h)

  pub In-drop-suc : (n : ℕ) (a : A) (xs : List A) → In a (drop (suc n) xs) → In a (drop n xs)
  In-drop-suc n a [] h = absurd h
  In-drop-suc zero a (x ∷ xs) h = inr h
  In-drop-suc (suc n) a (x ∷ xs) h = In-drop-suc n a xs h

  pub get_elem?-drop : (xs : List A) (i : ℕ) (a : A) → get_elem? xs i ≡ some a → In a (drop i xs)
  get_elem?-drop [] i a e = absurd (cc e)
  get_elem?-drop (x ∷ xs) zero a e = inl (cc e)
  get_elem?-drop (x ∷ xs) (suc i) a e = get_elem?-drop xs i a e

  pub get_elem?-in_range :
      (xs : List A) (i : ℕ) → i < length xs → (a : A) × (get_elem? xs i ≡ some a)
  get_elem?-in_range [] i h = absurd (omega arith)
  get_elem?-in_range (x ∷ xs) zero h = (x, refl)
  get_elem?-in_range (x ∷ xs) (suc i) h = get_elem?-in_range xs i (omega arith)

  pub get_elem?-append :
      (xs ys : List A) (y : A) (i : ℕ) → length xs ≡ i → get_elem? (xs ++ y ∷ ys) i ≡ some y
  get_elem?-append [] ys y i e = rw⁻¹ e refl
  get_elem?-append (x ∷ xs) ys y zero e = absurd (omega (arith, e))
  get_elem?-append (x ∷ xs) ys y (suc i) e = get_elem?-append xs ys y i (omega (arith, e))
