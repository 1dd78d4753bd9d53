-- ===== src/Client/Game/Bullets/Frames.antt =====
-- What a frame of `doUpdateBullets` does to the bullets.
use cs416_tanks.Base.{
  ℕ, suc, ◌+◌, ◌≤◌, true, ◌≡◌, ◌≢◌, refl, sym, subst, ap, ◌∙◌, inl, inr, List, [], ◌∷◌, ◌++◌,
  append-nil, append_assoc, take, take_all, In-take, length, length-append, length-take_some,
  get_elem?, get_elem?-append, Map, lookup, insert, lookup-insert_self, lookup-insert_ne, some,
  nat_eq, arith, In, AllDistinct,
}
use cs416_tanks.Clock.{Time}
use cs416_tanks.Geometry.{Vec, Geometry}
use cs416_tanks.Client.Game.{Player, Bullet, Game, bullet_update}
use cs416_tanks.Client.Game.Bullets.{
  Frame, be_hit, check_bullet, bullet_round, bullet_rounds, do_update_bullets, frame_of,
  after_frame,
}
use cs416_tanks.Client.Game.Bullets.Loop.{Sound, rounds_run}

-- So many rounds for the list, and `k` more.
abbrev pub rounds_for {ℓ} : {A : Type ℓ} → List A → ℕ → ℕ
rounds_for [] k = k
rounds_for (x ∷ xs) k = suc (rounds_for xs k)

pub rounds_for-length : (xs : List ℕ) (k : ℕ) → rounds_for xs k ≡ length xs + k
rounds_for-length [] k = omega arith
rounds_for-length (x ∷ xs) k = omega (arith, rounds_for-length xs k)

module _ (g : Geometry) (dt : g.F) (lo hi : Vec g.F) (stamp : ℕ → Time × ℕ) where
  -- There is a bullet at `p`, and it stays in the window when it moves.
  abbrev pub Stays : Map ℕ (Bullet g) → ℕ → Type 0
  Stays m p =
      (b : Bullet g) × (lookup p m ≡ some b)
      × (g.rect_contains lo hi (bullet_update g dt b).place ≡ true)

  check_bullet-stays :
      (me : Player g) (now : Time) (nonce i : ℕ) (b : Bullet g) (f : Frame g)
      → g.rect_contains lo hi b.place ≡ true
      → let f' = check_bullet g lo hi me now nonce i b f in
        (f'.cells ≡ f.cells) × (f'.len ≡ f.len) × (f'.heap ≡ f.heap)
  unfolding check_bullet be_hit
  check_bullet-stays me now nonce i b f h = ground arith

  -- The rounds over `pre`, from `i` to `j`, if all of its bullets stay.
  pub stay_rounds :
      (me : Player g) (done pre rest : List ℕ) (k i j : ℕ) (f : Frame g)
      → f.cells ≡ done ++ (pre ++ rest)
      → length done ≡ i
      → length done + length pre ≡ j
      → AllDistinct pre
      → ((p : ℕ) → In p pre → Stays f.heap p)
      → (f' : Frame g) × (bullet_rounds g dt lo hi me stamp (rounds_for pre k) i f
          ≡ bullet_rounds g dt lo hi me stamp k j f')
        × (f'.cells ≡ f.cells)
        × (f'.len ≡ f.len)
        × ((p : ℕ) (b : Bullet g)
            → In p pre
            → lookup p f.heap ≡ some b
            → lookup p f'.heap ≡ some (bullet_update g dt b))
        × ((p : ℕ) → ¬ In p pre → lookup p f'.heap ≡ lookup p f.heap)
  unfolding bullet_rounds bullet_round
  stay_rounds me done [] rest k i j f cells ei ej distinct stays = (
    f,
    ap (λ n. bullet_rounds g dt lo hi me stamp k n f) (omega (arith, ei, ej)),
    refl,
    refl,
    (λ p b v e. absurd v),
    λ p out. refl,
  )
  stay_rounds me done (p ∷ pre) rest k i j f cells ei ej distinct stays =
      let (b, found, inside) = stays p (inl refl) in
      let moved = bullet_update g dt b in
      let f0 = record f { heap = insert p moved f.heap } in
      let f1 = check_bullet g lo hi me (stamp i).0 (stamp i).1 i moved f0 in
      let kept = check_bullet-stays me (stamp i).0 (stamp i).1 i moved f0 inside in
      let at : get_elem? f.cells i ≡ some p =
        ap (λ cs. get_elem? cs i) cells ∙ get_elem?-append done (pre ++ rest) p i ei in
      let step : bullet_round g dt lo hi me stamp i f ≡ some f1 =
        rw (at, bullet_round) (rw found refl) in
      let other : ((r : ℕ) → p ≢ r → lookup r f1.heap ≡ lookup r f.heap) =
        λ r ne. ap (lookup r) kept.2 ∙ lookup-insert_ne r p moved f.heap ne in
      let (f', run, same, long, ups, outs) =
        stay_rounds me (done ++ p ∷ []) pre rest k (suc i) j f1
          (kept.0 ∙ cells ∙ sym (append_assoc done (p ∷ []) (pre ++ rest)))
          (omega (arith, ei, length-append done (p ∷ [])))
          (omega (arith, ej, length-append done (p ∷ []))) distinct.1
          (λ r v.
            let (c, e, ins) = stays r (inr v) in
            (
              c,
              other r (λ (e' : p ≡ r). distinct.0 (subst (λ t. In t pre) (sym e') v)) ∙ e,
              ins,
            )) in
      (
        f',
        rw (step, bullet_rounds) run,
        same ∙ kept.0,
        long ∙ kept.1,
        (λ r c v e. elim v [
          | inl own ↦
              ap (λ t. lookup t f'.heap) own
              ∙ outs p distinct.0
              ∙ ap (lookup p) kept.2
              ∙ lookup-insert_self p moved f.heap
              ∙ ap (λ t. some (bullet_update g dt t))
                  (cc (found, subst (λ t. lookup t f.heap ≡ some c) own e))
          | inr later ↦
              ups r c later
                (other r (λ (e' : p ≡ r). distinct.0 (subst (λ t. In t pre) (sym e') later)) ∙ e)
        ]),
        λ r out. outs r (λ v. out (inr v)) ∙ other r (λ (e' : p ≡ r). out (inl (sym e'))),
      )

  abbrev pub Live : Game g → Type 0
  Live s = (p : ℕ) → In p s.bullets → (b : Bullet g) × (lookup p s.heap ≡ some b)

  pub runs :
      (s : Game g)
      → Live s
      → (f : Frame g) × (bullet_rounds g dt lo hi s.local_player stamp
            (length s.bullets)
            0
            (frame_of g s)
          ≡ some f)
        × Sound g dt lo hi s.local_player stamp (length s.bullets) f
        × ((p : ℕ) → In p f.cells → In p s.bullets)
  runs s live =
      rounds_run g dt lo hi s.local_player stamp (length s.bullets) (length s.bullets) 0
        (frame_of g s) (refl, omega arith, live) (omega arith)

  -- If every pointer of `bullets` leads to a bullet, a frame ends with no index out of range and no
  -- nil pointer. There are no more bullets afterwards than before, they are old ones, and every
  -- pointer still leads to a bullet.
  pub do_update_bullets-Live :
      (s : Game g)
      → Live s
      → (s' : Game g) × (do_update_bullets g dt lo hi stamp s ≡ some s')
        × (length s'.bullets ≤ length s.bullets)
        × ((p : ℕ) → In p s'.bullets → In p s.bullets)
        × Live s'
  unfolding do_update_bullets
  do_update_bullets-Live s live =
      let (f, run, (long, few, alive), part) = runs s live in
      (
        after_frame g s f,
        rw (run, do_update_bullets) refl,
        omega (arith, length-take_some f.len f.cells),
        (λ p v. part p (In-take f.len p f.cells v)),
        λ p v. alive p (In-take f.len p f.cells v),
      )

  -- If the pointers of `bullets` are different and every bullet stays in the window, a frame moves
  -- each bullet once and keeps them all.
  all_stay :
      (s : Game g)
      → AllDistinct s.bullets
      → ((p : ℕ) → In p s.bullets → Stays s.heap p)
      → (s' : Game g) × (do_update_bullets g dt lo hi stamp s ≡ some s')
        × (s'.bullets ≡ s.bullets)
        × ((p : ℕ) (b : Bullet g)
            → In p s.bullets
            → lookup p s.heap ≡ some b
            → lookup p s'.heap ≡ some (bullet_update g dt b))
  unfolding do_update_bullets bullet_rounds
  all_stay s distinct stays =
      let (f, run, same, long, ups, outs) =
        stay_rounds s.local_player [] s.bullets [] 0 0 (length s.bullets) (frame_of g s)
          (sym (append-nil s.bullets)) refl (omega arith) distinct stays in
      let rounds : rounds_for s.bullets 0 ≡ length s.bullets =
        omega (arith, rounds_for-length s.bullets 0) in
      (
        after_frame g s f,
        rw (rw rounds at run, do_update_bullets) refl,
        ap (λ n. take n f.cells) long
            ∙ ap (take (length s.bullets)) same
            ∙ take_all (length s.bullets) s.bullets (omega arith),
        ups,
      )
