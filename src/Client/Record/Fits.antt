-- ===== src/Client/Record/Fits.antt =====
-- What `RecordWorker` tests of an update of each kind.
use cs416_tanks.Base.{
  ℕ, Bool, true, false, ◌≡◌, refl, ap, ◌⊎◌, inl, inr, lookup, Map, nat_eq, ◌==◌, none, some, arith,
  Bool-cases, Option-cases, same_id,
}
use cs416_tanks.Geometry.{Vec, Geometry}
use cs416_tanks.Update.{UpdateKind, Update}
use cs416_tanks.Client.Record.{
  PlayerRecord, put_record, new_record, State, accept, is_bad_shot, is_bad_position, take_fire,
  take_position, pass_on,
}

module _ (g : Geometry) (me : ℕ) (lo hi : Vec g.F) where
  -- What a known player may do: `me` anything, another one only what the test lets through.
  abbrev pub Allowed :
      (PlayerRecord g → Update g → Bool) → Update g → Map ℕ (PlayerRecord g) → Type 0
  Allowed bad u m =
      (u.player_id ≡ me)
      ⊎ ((r : PlayerRecord g) × (lookup u.player_id m ≡ some r) × (bad r u ≡ false))

  -- What a position must be: in the window, and of a player that is unknown or allowed to move there.
  abbrev pub Placed : Update g → Map ℕ (PlayerRecord g) → Type 0
  Placed u m =
      (g.rect_contains lo hi u.place ≡ true)
      × ((lookup u.player_id m ≡ none) ⊎ Allowed (is_bad_position g) u m)

  -- What an update of each kind must be to be passed on. Deaths, and kinds with no name, always are.
  abbrev pub FitsAs : UpdateKind → Update g → Map ℕ (PlayerRecord g) → Type 0
  FitsAs UpdateKind.dead u m = Unit {0}
  FitsAs UpdateKind.fire u m = Allowed (is_bad_shot g) u m
  FitsAs UpdateKind.position u m = Placed u m
  FitsAs (UpdateKind.other z) u m = Unit {0}

  abbrev pub Fits : Update g → Map ℕ (PlayerRecord g) → Type 0
  Fits u m = FitsAs u.kind u m

  refuted :
      (bad : PlayerRecord g → Update g → Bool) (u : Update g) (m : Map ℕ (PlayerRecord g))
      (r r' : PlayerRecord g)
      → lookup u.player_id m ≡ some r
      → lookup u.player_id m ≡ some r'
      → bad r u ≡ true
      → bad r' u ≡ false
      → ⊥
  refuted bad u m r r' e e' b b' =
      let same : r ≡ r' = (cc (e, e')) in cc (ap (λ x. bad x u) same, b, b')

  pub take_fire-cases :
      (u : Update g) (s : State g)
      → (Allowed (is_bad_shot g) u s.records × (take_fire g me u s ≡ pass_on g u s))
        ⊎ (¬ Allowed (is_bad_shot g) u s.records × (take_fire g me u s ≡ s))
  unfolding take_fire
  take_fire-cases u s = elim (Bool-cases (u.player_id == me)) [
    | inl own ↦ inl (inl (same_id u.player_id me own), rw (own, take_fire) refl)
    | inr other ↦ elim (Option-cases (lookup u.player_id s.records)) [
      | inl e ↦ inr (
        λ h. elim h [ inl own ↦ ground arith | inr (r, there, good) ↦ cc (e, there) ],
        rw (other, take_fire) (rw e refl),
      )
      | inr (r, e) ↦ elim (Bool-cases (is_bad_shot g r u)) [
        | inl bad ↦ inr (
          λ h. elim h [
            | inl own ↦ ground arith
            | inr (r', there, good) ↦ refuted (is_bad_shot g) u s.records r r' e there bad good
          ],
          rw (other, take_fire) (rw e (rw bad refl)),
        )
        | inr good ↦ inl (inr (r, e, good), rw (other, take_fire) (rw e (rw good refl)))
      ]
    ]
  ]

  pub take_position-cases :
      (u : Update g) (s : State g)
      → (Placed u s.records
          × ((r : PlayerRecord g) × (take_position g me lo hi u s
                ≡ pass_on g u (put_record g u.player_id (accept g r u) s))))
        ⊎ (¬ Placed u s.records × (take_position g me lo hi u s ≡ s))
  unfolding take_position
  take_position-cases u s = elim (Bool-cases (g.rect_contains lo hi u.place)) [
    | inr out ↦ inr (λ (within, _). cc (within, out), rw (out, take_position) refl)
    | inl within ↦ elim (Option-cases (lookup u.player_id s.records)) [
      | inl e ↦
          inl ((within, inl e), (new_record g u.player_id, rw (within, take_position) (rw e refl)))
      | inr (r, e) ↦ elim (Bool-cases (u.player_id == me)) [
        | inl own ↦ inl (
          (within, inr (inl (same_id u.player_id me own))),
          (r, rw (within, take_position) (rw e (rw own refl))),
        )
        | inr other ↦ elim (Bool-cases (is_bad_position g r u)) [
          | inl bad ↦ inr (
            λ (_, h). elim h [
              | inl new ↦ cc (e, new)
              | inr (inl own) ↦ ground arith
              | inr (inr (r', there, good)) ↦
                  refuted (is_bad_position g) u s.records r r' e there bad good
            ],
            rw (within, take_position) (rw e (rw other (rw bad refl))),
          )
          | inr good ↦ inl (
            (within, inr (inr (r, e, good))),
            (r, rw (within, take_position) (rw e (rw other (rw good refl)))),
          )
        ]
      ]
    ]
  ]
