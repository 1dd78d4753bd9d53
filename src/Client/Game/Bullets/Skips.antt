-- ===== src/Client/Game/Bullets/Skips.antt =====
-- A bullet that leaves the window hides the next one from the loop of `doUpdateBullets`.
use cs416_tanks.Base.{
  ℕ, zero, suc, ◌+◌, ◌-◌, ◌<◌, false, ◌≡◌, ◌≢◌, refl, sym, subst, ap, ◌∙◌, inl, inr, List, [], ◌∷◌,
  ◌++◌, take, In-take, drop, In-drop, length, length-append, get_elem?, get_elem?-append, Map,
  lookup, insert, lookup-insert_ne, some, nat_eq, arith, In, AllDistinct, AllDistinct-parts,
  In-append,
}
use cs416_tanks.Clock.{Time}
use cs416_tanks.Geometry.{Vec, Geometry}
use cs416_tanks.Client.Game.{Player, Bullet, Game, bullet_update}
use cs416_tanks.Client.Game.Bullets.{
  close_gap, Frame, kill_bullet, check_bullet, bullet_round, bullet_rounds, do_update_bullets,
  frame_of, after_frame,
}
use cs416_tanks.Client.Game.Bullets.Loop.{rounds-untouched}
use cs416_tanks.Client.Game.Bullets.Frames.{
  rounds_for, rounds_for-length, Stays, Live, stay_rounds, runs,
}

-- Behind the gap of `p`, the bullet `q` that moved into it is not seen again, if more follow.
closed_tail :
    (pre : List ℕ) (p q r : ℕ) (post : List ℕ) (x i len : ℕ)
    → length pre ≡ i
    → len ≡ length pre + (3 + length post)
    → In x (drop (suc i) (close_gap i len (pre ++ p ∷ q ∷ r ∷ post)))
    → In x (r ∷ post)
unfolding close_gap
closed_tail [] p q r post x zero len e l v =
    let long : len - 1 ≡ suc (suc (length post)) = omega (arith, l) in
    elim (In-append x (take (suc (length post)) (r ∷ post)) (drop (length post) (r ∷ post))
      (rw long at v)) [
        | inl kept ↦ In-take (suc (length post)) x (r ∷ post) kept
        | inr last ↦ In-drop (length post) x (r ∷ post) last
      ]
closed_tail [] p q r post x (suc i) len e l v = absurd (omega (arith, e))
closed_tail (y ∷ pre) p q r post x zero len e l v = absurd (omega (arith, e))
closed_tail (y ∷ pre) p q r post x (suc i) len e l v =
    closed_tail pre p q r post x i (len - 1) (omega (arith, e)) (omega (arith, l)) v

module _ (g : Geometry) (dt : g.F) (lo hi : Vec g.F) (stamp : ℕ → Time × ℕ) where
  -- There is a bullet at `p`, and it leaves the window.
  abbrev pub Leaves : Map ℕ (Bullet g) → ℕ → Type 0
  Leaves m p =
      (b : Bullet g) × (lookup p m ≡ some b)
      × (g.rect_contains lo hi (bullet_update g dt b).place ≡ false)

  check_bullet-leaves :
      (me : Player g) (now : Time) (nonce i : ℕ) (b : Bullet g) (f : Frame g)
      → g.rect_contains lo hi b.place ≡ false
      → i + 1 < f.len
      → let f' = check_bullet g lo hi me now nonce i b f in
        (f'.cells ≡ close_gap i f.len f.cells) × (f'.heap ≡ f.heap)
  unfolding check_bullet kill_bullet
  check_bullet-leaves me now nonce i b f out h = ground arith

  -- From the round of `p` on.
  skipped_from :
      (me : Player g) (pre : List ℕ) (p q r : ℕ) (post : List ℕ) (i : ℕ) (f f' : Frame g)
      → f.cells ≡ pre ++ (p ∷ q ∷ r ∷ post)
      → f.len ≡ length pre + (3 + length post)
      → length pre ≡ i
      → Leaves f.heap p
      → p ≢ q
      → ¬ In q (r ∷ post)
      → bullet_rounds g dt lo hi me stamp (suc (suc (suc (length post)))) i f ≡ some f'
      → lookup q f'.heap ≡ lookup q f.heap
  unfolding bullet_rounds bullet_round
  skipped_from me pre p q r post i f f' cells long ei (b, found, out) ne fresh run =
      let moved = bullet_update g dt b in
      let f0 = record f { heap = insert p moved f.heap } in
      let f1 = check_bullet g lo hi me (stamp i).0 (stamp i).1 i moved f0 in
      let gone =
        check_bullet-leaves me (stamp i).0 (stamp i).1 i moved f0 out (omega (arith, long, ei)) in
      let at : get_elem? f.cells i ≡ some p =
        ap (λ cs. get_elem? cs i) cells ∙ get_elem?-append pre (q ∷ r ∷ post) p i ei in
      let step : bullet_round g dt lo hi me stamp i f ≡ some f1 =
        rw (at, bullet_round) (rw found refl) in
      rounds-untouched g dt lo hi me stamp (suc (suc (length post))) (suc i) f1 f' q
        (rw (step, bullet_rounds) at run)
        (λ v. fresh (
          closed_tail pre p q r post q i f.len ei long
            (subst (λ cs. In q (drop (suc i) cs)) (gone.0 ∙ ap (close_gap i f.len) cells) v)))
      ∙ ap (lookup q) gone.1
      ∙ lookup-insert_ne q p moved f.heap ne

  skipped :
      (s : Game g) (pre : List ℕ) (p q r : ℕ) (post : List ℕ)
      → s.bullets ≡ pre ++ (p ∷ q ∷ r ∷ post)
      → AllDistinct s.bullets
      → ((t : ℕ) → In t pre → Stays g dt lo hi stamp s.heap t)
      → Leaves s.heap p
      → (f : Frame g)
      → bullet_rounds g dt lo hi s.local_player stamp (length s.bullets) 0 (frame_of g s) ≡ some f
      → lookup q f.heap ≡ lookup q s.heap
  skipped s pre p q r post e distinct stays (b, found, out) f run =
      let (dp, (p_fresh, (q_fresh, rest)), apart) =
        AllDistinct-parts pre (p ∷ q ∷ r ∷ post) (subst AllDistinct e distinct) in
      let k = suc (suc (suc (length post))) in
      let long : length s.bullets ≡ length pre + (3 + length post) =
        omega (arith, ap length e, length-append pre (p ∷ q ∷ r ∷ post)) in
      let (f1, run1, same, len, ups, outs) =
        stay_rounds g dt lo hi stamp s.local_player [] pre (p ∷ q ∷ r ∷ post) k 0 (length pre)
          (frame_of g s) e refl (omega arith) dp stays in
      let rounds : length s.bullets ≡ rounds_for pre k =
        omega (arith, long, rounds_for-length pre k) in
      skipped_from s.local_player pre p q r post (length pre) f1 f (same ∙ e) (len ∙ long) refl
        (b, outs p (λ v. apart p v (inl refl)) ∙ found, out) (λ (ne : p ≡ q). p_fresh (inl ne))
        q_fresh
        (sym run1
          ∙ subst (λ n. bullet_rounds g dt lo hi s.local_player stamp n 0 (frame_of g s) ≡ some f)
              rounds run)
      ∙ outs q (λ v. apart q v (inr (inl refl)))

  -- Let the bullets of `pre` stay in the window, `p` leave it, and at least two bullets follow. If
  -- all pointers are different, the frame ends and does not move the bullet `q` right behind `p`.
  pub next_skipped :
      (s : Game g) (pre : List ℕ) (p q r : ℕ) (post : List ℕ)
      → s.bullets ≡ pre ++ (p ∷ q ∷ r ∷ post)
      → AllDistinct s.bullets
      → ((t : ℕ) → In t pre → Stays g dt lo hi stamp s.heap t)
      → Leaves s.heap p
      → Live g dt lo hi stamp s
      → (s' : Game g) × (do_update_bullets g dt lo hi stamp s ≡ some s')
        × (lookup q s'.heap ≡ lookup q s.heap)
  unfolding do_update_bullets
  next_skipped s pre p q r post e distinct stays leaves live =
      let (f, run, sound, part) = runs g dt lo hi stamp s live in
      (
        after_frame g s f,
        rw (run, do_update_bullets) refl,
        skipped s pre p q r post e distinct stays leaves f run,
      )
