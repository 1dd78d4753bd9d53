-- ===== src/Client/Game/Run/Lives.antt =====
-- A player dies once, and each death is counted once.
use cs416_tanks.Base.{
  ℕ, zero, suc, ◌+◌, Bool, true, false, ◌≡◌, refl, ◌∙◌, inl, inr, List, [], ◌∷◌, ◌++◌, lookup,
  insert, some, nat_eq, get_elem?, arith, length, Option-cases,
}
use cs416_tanks.Clock.{Time}
use cs416_tanks.Geometry.{Vec, Geometry}
use cs416_tanks.Update.{Update}
use cs416_tanks.Client.Game.{Task, add_death, add_kill, Player, Bullet, Game, bullet_update}
use cs416_tanks.Client.Game.Bullets.{
  Frame, kill_bullet, be_hit, check_bullet, bullet_round, bullet_rounds, do_update_bullets,
  frame_of,
}
use cs416_tanks.Client.Game.Shown.{kills_of}

-- The deaths that are counted.
abbrev pub deaths : List Task → ℕ
deaths [] = 0
deaths (add_death ∷ ts) = suc (deaths ts)
deaths (add_kill ∷ ts) = deaths ts

-- One for a player who is alive.
abbrev pub life : Bool → ℕ
life true = 1
life false = 0

pub deaths-append : (ts us : List Task) → deaths (ts ++ us) ≡ deaths ts + deaths us
deaths-append [] us = omega arith
deaths-append (add_death ∷ ts) us = omega (arith, deaths-append ts us)
deaths-append (add_kill ∷ ts) us = deaths-append ts us

module _ (g : Geometry) where
  pub deaths-kills_of : (me : ℕ) (us : List (Update g)) → deaths (kills_of g me us) ≡ 0
  deaths-kills_of me [] = refl
  deaths-kills_of me (u ∷ us) = ground (arith, deaths-kills_of me us)

  module _ (dt : g.F) (lo hi : Vec g.F) (stamp : ℕ → Time × ℕ) (me : Player g) where
    check_bullet-life :
        (now : Time) (nonce i : ℕ) (b : Bullet g) (f : Frame g)
        → let f' = check_bullet g lo hi me now nonce i b f in
          deaths f'.tasks + life f'.alive ≡ deaths f.tasks + life f.alive
    unfolding check_bullet be_hit kill_bullet
    check_bullet-life now nonce i b f = ground (arith, deaths-append f.tasks (add_death ∷ []))

    bullet_round-life :
        (i : ℕ) (f f' : Frame g)
        → bullet_round g dt lo hi me stamp i f ≡ some f'
        → deaths f'.tasks + life f'.alive ≡ deaths f.tasks + life f.alive
    unfolding bullet_round
    bullet_round-life i f f' e = elim (Option-cases (get_elem? f.cells i)) [
      | inl out ↦ cc (rw (out, bullet_round) at e)
      | inr (p, at) ↦ elim (Option-cases (lookup p f.heap)) [
        | inl nil ↦ cc (rw (nil, bullet_round) at (rw (at, bullet_round) at e))
        | inr (b, there) ↦
            let e' = rw (there, bullet_round) at (rw (at, bullet_round) at e) in
            let moved = bullet_update g dt b in
            ground (
              arith,
              e',
              check_bullet-life (stamp i).0 (stamp i).1 i moved
                  (record f { heap = insert p moved f.heap }),
            )
      ]
    ]

    bullet_rounds-life :
        (rounds i : ℕ) (f f' : Frame g)
        → bullet_rounds g dt lo hi me stamp rounds i f ≡ some f'
        → deaths f'.tasks + life f'.alive ≡ deaths f.tasks + life f.alive
    unfolding bullet_rounds
    bullet_rounds-life zero i f f' e = ground arith
    bullet_rounds-life (suc rounds) i f f' e =
        elim (Option-cases (bullet_round g dt lo hi me stamp i f)) [
          | inl lost ↦ cc (rw (lost, bullet_rounds) at e)
          | inr (f1, one) ↦
              bullet_rounds-life rounds (suc i) f1 f' (rw (one, bullet_rounds) at e)
              ∙ bullet_round-life i f f1 one
        ]

  pub do_update_bullets-life :
      (dt : g.F) (lo hi : Vec g.F) (stamp : ℕ → Time × ℕ) (s s' : Game g)
      → do_update_bullets g dt lo hi stamp s ≡ some s'
      → deaths s'.tasks + life s'.alive ≡ deaths s.tasks + life s.alive
  unfolding do_update_bullets
  do_update_bullets-life dt lo hi stamp s s' e =
      elim (Option-cases
        (bullet_rounds g dt lo hi s.local_player stamp (length s.bullets) 0 (frame_of g s))) [
          | inl lost ↦ cc (rw (lost, do_update_bullets) at e)
          | inr (f, done) ↦ ground (
            arith,
            bullet_rounds-life dt lo hi stamp s.local_player (length s.bullets) 0 (frame_of g s) f
                done,
          )
        ]
