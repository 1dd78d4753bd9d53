-- ===== src/Client/Record/History.antt =====
-- The history of `RecordWorker` and its pruning.
use cs416_tanks.Base.{
  ℕ, true, false, ◌≡◌, ◌≢◌, refl, ap, subst, ◌↔◌, ◌⊎◌, inl, inr, List, [], ◌∷◌, ◌++◌, Map, insert,
  erase, contains, lookup-insert, lookup-erase, nat_eq, arith, In, AllDistinct, Bool-cases,
}
use cs416_tanks.Base.Int.{◌≤ℤ◌, int_laws}
use cs416_tanks.Clock.{Time, before}
use cs416_tanks.Geometry.{Geometry}
use cs416_tanks.Update.{Update}
use cs416_tanks.Client.Record.{State, fence_at, prune_from}

pub contains-insert_iff :
    (n k : ℕ) (m : Map ℕ (Unit {0}))
    → (contains n (insert k tt m) ≡ true) ↔ ((n ≡ k) ⊎ (contains n m ≡ true))
unfolding contains
contains-insert_iff n k m =
    (λ h. ground (arith, lookup-insert n k tt m), λ h. ground (arith, lookup-insert n k tt m))

contains-erase_iff :
    (n k : ℕ) (m : Map ℕ (Unit {0}))
    → (contains n (erase k m) ≡ true) ↔ ((n ≢ k) × (contains n m ≡ true))
unfolding contains
contains-erase_iff n k m =
    (λ h. ground (arith, lookup-erase n k m), λ h. ground (arith, lookup-erase n k m))

-- Adding a nanosecond count to both sides keeps the order of two times.
pub fence_mono : (t t' : Time) → t ≤ℤ t' → fence_at t ≤ℤ fence_at t'
fence_mono t t' h = omega int_laws

pub before_trans : (u f f' : Time) → f ≤ℤ f' → before u f ≡ true → before u f' ≡ true
before_trans u f f' h b = ground arith

module _ (g : Geometry) where
  abbrev pub nonces : List (Update g) → List ℕ
  nonces [] = []
  nonces (u ∷ us) = u.nonce ∷ nonces us

  pub nonces-append : (us vs : List (Update g)) → nonces (us ++ vs) ≡ nonces us ++ nonces vs
  nonces-append [] vs = refl
  nonces-append (u ∷ us) vs = ap (λ ns. u.nonce ∷ ns) (nonces-append us vs)

  pub In-nonces : (u : Update g) (us : List (Update g)) → In u us → In u.nonce (nonces us)
  In-nonces u [] v = absurd v
  In-nonces u (w ∷ us) (inl e) = inl (ap (λ (x : Update g). x.nonce) e)
  In-nonces u (w ∷ us) (inr v) = inr (In-nonces u us v)

  -- The marks are those of the updates, which all have different nonces.
  abbrev pub Marks : List (Update g) → Map ℕ (Unit {0}) → Type 0
  Marks us seen = ((n : ℕ) → (contains n seen ≡ true) ↔ In n (nonces us)) × AllDistinct (nonces us)

  abbrev pub Tracks : State g → Type 0
  Tracks s = Marks s.history s.history_map

  pub Marks-tail :
      (u : Update g) (us : List (Update g)) (seen : Map ℕ (Unit {0}))
      → Marks (u ∷ us) seen
      → Marks us (erase u.nonce seen)
  Marks-tail u us seen (marks, (fresh, rest)) = (
    λ n. (
      λ h. ground (arith, (contains-erase_iff n u.nonce seen).0 h, (marks n).0),
      λ v.
          (contains-erase_iff n u.nonce seen).1
            (λ e. fresh (subst (λ k. In k (nonces us)) e v), (marks n).1 (inr v)),
    ),
    rest,
  )

  pub prune_from-Marks :
      (fence : Time) (us : List (Update g)) (seen : Map ℕ (Unit {0})) (s : State g)
      → Marks us seen
      → Tracks (prune_from g fence us seen s)
  unfolding prune_from
  prune_from-Marks fence [] seen s h = h
  prune_from-Marks fence (u ∷ us) seen s h = elim (Bool-cases (before u.time fence)) [
    | inl old ↦
        rw (old, prune_from)
          (prune_from-Marks fence us (erase u.nonce seen) s (Marks-tail u us seen h))
    | inr young ↦ rw (young, prune_from) h
  ]

  -- Pruning keeps every update that is not too old.
  pub prune_from-keeps :
      (fence : Time) (us : List (Update g)) (seen : Map ℕ (Unit {0})) (s : State g) (u : Update g)
      → In u us
      → before u.time fence ≡ false
      → In u (prune_from g fence us seen s).history
  unfolding prune_from
  prune_from-keeps fence [] seen s u v young = absurd v
  prune_from-keeps fence (w ∷ us) seen s u v young = elim (Bool-cases (before w.time fence)) [
    | inl old ↦
        rw (old, prune_from)
          (prune_from-keeps fence us (erase w.nonce seen) s u (later old v) young)
    | inr new ↦ rw (new, prune_from) v
  ]
    where
      later : before w.time fence ≡ true → In u (w ∷ us) → In u us
      later old (inl e) = absurd (cc (ap (λ (x : Update g). before x.time fence) e))
      later old (inr v') = v'

  pub prune_from-sent :
      (fence : Time) (us : List (Update g)) (seen : Map ℕ (Unit {0})) (s : State g)
      → ((prune_from g fence us seen s).sent ≡ s.sent)
        × ((prune_from g fence us seen s).displayed ≡ s.displayed)
        × ((prune_from g fence us seen s).records ≡ s.records)
  unfolding prune_from
  prune_from-sent fence [] seen s = (refl, refl, refl)
  prune_from-sent fence (u ∷ us) seen s =
      ground (arith, prune_from-sent fence us (erase u.nonce seen) s)
