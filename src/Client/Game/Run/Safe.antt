-- ===== src/Client/Game/Run/Safe.antt =====
-- The loop of `run` ends its frames with no nil pointer and no index out of range.
use cs416_tanks.Base.{
  ℕ, suc, ◌+◌, ◌≡◌, refl, sym, ap, subst, ◌∙◌, inl, inr, List, [], ◌∷◌, Map, lookup, none, some,
  nat_eq, arith, length, In, Option-cases, if◌then◌else◌,
}
use cs416_tanks.Clock.{Time}
use cs416_tanks.Geometry.{Vec, Geometry}
use cs416_tanks.Client.Game.{Player, Bullet, Game, do_draw}
use cs416_tanks.Client.Game.Bullets.{do_update_bullets, bullet_rounds, frame_of}
use cs416_tanks.Client.Game.Bullets.Frames.{do_update_bullets-Live}
use cs416_tanks.Client.Game.Shown.{IsRange, Listed, kills_of}
use cs416_tanks.Client.Game.Drawn.{frame_shown}
use cs416_tanks.Client.Game.Run.{
  Input, Picture, do_draw_local, draw_bullets, draw_all, input_if_alive, run_frame, run,
}
use cs416_tanks.Client.Game.Run.Lives.{
  deaths, life, deaths-append, deaths-kills_of, do_update_bullets-life,
}
use cs416_tanks.Client.Game.Run.Rest.{AllLive, do_accept_updates-Rest, input_if_alive-Others}

module _ (g : Geometry) where
  draw_bullets-some :
      (ps : List ℕ) (m : Map ℕ (Bullet g))
      → ((p : ℕ) → In p ps → (b : Bullet g) × (lookup p m ≡ some b))
      → (bs : List (Bullet g)) × (draw_bullets g ps m ≡ some bs) × (length bs ≡ length ps)
  unfolding draw_bullets
  draw_bullets-some [] m h = ([], refl, refl)
  draw_bullets-some (p ∷ ps) m h =
      let (b, there) = h p (inl refl) in
      let (bs, drawn, long) = draw_bullets-some ps m (λ q v. h q (inr v)) in
      (b ∷ bs, rw (there, draw_bullets) (rw drawn refl), ap suc long)

  -- Between two frames.
  pub record Playing (s : Game g) : Type 0 where
    pub listed : Listed g s
    pub live : AllLive g s

  -- What a frame leaves: lives and counted deaths balance, and the dead stay dead.
  pub record Follows (s s' : Game g) : Type 0 where
    pub playing : Playing s'
    pub one_life : deaths s'.tasks + life s'.alive ≡ deaths s.tasks + life s.alive

  do_update_bullets-players :
      (dt : g.F) (lo hi : Vec g.F) (stamp : ℕ → Time × ℕ) (s s' : Game g)
      → do_update_bullets g dt lo hi stamp s ≡ some s'
      → (s'.players ≡ s.players) × (s'.player_ids ≡ s.player_ids)
  unfolding do_update_bullets
  do_update_bullets-players dt lo hi stamp s s' e =
      elim (Option-cases
        (bullet_rounds g dt lo hi s.local_player stamp (length s.bullets) 0 (frame_of g s))) [
          | inl lost ↦ cc (rw (lost, do_update_bullets) at e)
          | inr (f, done) ↦ ground (arith, done)
        ]

  same-Listed :
      (s s' : Game g)
      → s'.players ≡ s.players
      → s'.player_ids ≡ s.player_ids
      → Listed g s
      → Listed g s'
  same-Listed s s' players ids listed =
      subst (λ m. IsRange g s'.player_ids m) (sym players)
        (subst (λ l. IsRange g l s.players) (sym ids) listed)

  draw_all-some :
      (lo hi : Vec g.F) (s : Game g) (ps : List (Player g)) (bs : List (Bullet g))
      → do_draw g s.player_ids s.players ≡ some ps
      → draw_bullets g s.bullets s.heap ≡ some bs
      → (p : Picture g) × (draw_all g lo hi s ≡ some p) × (p.players ≡ ps) × (p.bullets ≡ bs)
  unfolding draw_all
  draw_all-some lo hi s ps bs e e' = (
    record {
      line = if s.alive then some (do_draw_local g lo hi s.local_player) else none;
      players = ps;
      bullets = bs;
    },
    rw (e, draw_all) (rw (e', draw_all) refl),
    refl,
    refl,
  )

  run_frame-Follows :
      (lo hi : Vec g.F) (visits : Map ℕ (Player g) → List ℕ) (i : Input g) (s : Game g)
      → ((m : Map ℕ (Player g)) → IsRange g (visits m) m)
      → Playing s
      → (p : Picture g) × (s' : Game g) × (run_frame g lo hi visits i s ≡ some (p, s'))
        × Follows s s'
        × (length p.players ≡ length s'.player_ids)
        × (length p.bullets ≡ length s'.bullets)
  unfolding run_frame
  run_frame-Follows lo hi visits i s ranges playing =
      let (s1, bullets, few, part, live1) =
        do_update_bullets-Live g i.dt lo hi i.stamp s playing.live in
      let life1 = do_update_bullets-life g i.dt lo hi i.stamp s s1 bullets in
      let (players1, ids1) = do_update_bullets-players i.dt lo hi i.stamp s s1 bullets in
      let s2 = input_if_alive g lo hi i s1 in
      let ((alive2, live2), tasks2, players2, ids2, me2) = input_if_alive-Others g lo hi i s1 in
      let listed2 = same-Listed s s2 (players2 ∙ players1) (ids2 ∙ ids1) playing.listed in
      let (s3, accepted, (listed3, tasks3, me3), (ps, drawn, shown)) =
        frame_shown g visits i.updates s2 ranges listed2 in
      let (alive3, live3) = do_accept_updates-Rest g visits i.updates s2 s3 accepted in
      let all_live = live3 (live2 live1) in
      let (bs, drawn', shown') = draw_bullets-some s3.bullets s3.heap all_live in
      let (p, picture, ep, eb) = draw_all-some lo hi s3 ps bs drawn drawn' in
      (
        p,
        s3,
        rw (bullets, run_frame) (rw (accepted, run_frame) (rw (picture, run_frame) refl)),
        record {
          playing = record { listed = listed3; live = all_live };
          one_life = omega (
            arith,
            ap deaths tasks3,
            deaths-append s2.tasks (kills_of g s2.local_player.id i.updates),
            deaths-kills_of g s2.local_player.id i.updates,
            ap deaths tasks2,
            ap life alive2,
            ap life alive3,
            life1,
          );
        },
        ap length ep ∙ shown,
        ap length eb ∙ shown',
      )

  -- Start the loop of `run` with `playerIds` listing the players, each once, and with a bullet at
  -- every address in `bullets`, where a `range` over the players visits each once. Then any number
  -- of frames ends, whatever the input, the clock and the updates that wait, with no nil pointer
  -- and no index out of range, and draws one picture each. The two facts hold again, and lives and
  -- counted deaths add up to what they were: the player dies at most once, and just then one death
  -- is counted.
  pub run-Follows :
      (lo hi : Vec g.F) (visits : Map ℕ (Player g) → List ℕ) (is : List (Input g)) (s : Game g)
      → ((m : Map ℕ (Player g)) → IsRange g (visits m) m)
      → Playing s
      → (ps : List (Picture g)) × (s' : Game g) × (run g lo hi visits is s ≡ some (ps, s'))
        × (length ps ≡ length is)
        × Follows s s'
  unfolding run
  run-Follows lo hi visits [] s ranges playing =
      ([], s, refl, refl, record { playing = playing; one_life = refl })
  run-Follows lo hi visits (i ∷ is) s ranges playing =
      let (p, s1, one, first, few, few') = run_frame-Follows lo hi visits i s ranges playing in
      let (ps, s2, more, long, later) = run-Follows lo hi visits is s1 ranges first.playing in
      (
        p ∷ ps,
        s2,
        rw (one, run) (rw more refl),
        ap suc long,
        record { playing = later.playing; one_life = later.one_life ∙ first.one_life },
      )
