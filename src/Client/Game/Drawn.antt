-- ===== src/Client/Game/Drawn.antt =====
-- The players that a client shows after `doAcceptUpdates`.
use cs416_tanks.Base.{
  ℕ, suc, true, false, ◌≡◌, ◌≢◌, refl, sym, ap, ◌∙◌, inl, inr, List, [], ◌∷◌, ◌++◌, append_assoc,
  append-nil, Map, lookup, contains, nat_eq, ◌==◌, some, arith, length, In, Bool-cases,
  Option-cases, same_id,
}
use cs416_tanks.Geometry.{Geometry}
use cs416_tanks.Update.{Update}
use cs416_tanks.Client.Game.{Task, Player, Game, meet, do_accept_updates, do_draw}
use cs416_tanks.Client.Game.Shown.{
  IsRange, Listed, kills_of, Took, meet-Listed, take_in-Took, kills_of-cons, kills_of-own,
}

module _ (g : Geometry) where
  differs : (n m : ℕ) → (n == m) ≡ false → n ≢ m
  differs n m e = ground arith

  joined :
      {t t0 t1 t' : List Task} {m m0 m1 : ℕ} (u : Update g) (us : List (Update g))
      → t' ≡ t1 ++ kills_of g m1 us
      → m1 ≡ m
      → t1 ≡ t0 ++ kills_of g m0 (u ∷ [])
      → m0 ≡ m
      → t0 ≡ t
      → t' ≡ t ++ kills_of g m (u ∷ us)
  joined {t} {t0} {t1} {t'} {m} {m0} {m1} u us e1 em1 e2 em0 e0 =
      e1
      ∙ ap (λ k. t1 ++ kills_of g k us) em1
      ∙ ap (λ l. l ++ kills_of g m us)
          (e2 ∙ ap (λ k. t0 ++ kills_of g k (u ∷ [])) em0 ∙ ap (λ l. l ++ kills_of g m (u ∷ [])) e0)
      ∙ append_assoc t (kills_of g m (u ∷ [])) (kills_of g m us)
      ∙ ap (λ l. t ++ l) (sym (kills_of-cons g m u us))

  do_accept_updates-Took :
      (visits : Map ℕ (Player g) → List ℕ) (us : List (Update g)) (s : Game g)
      → ((m : Map ℕ (Player g)) → IsRange g (visits m) m)
      → Listed g s
      → (s' : Game g) × (do_accept_updates g visits us s ≡ some s')
        × Took g (kills_of g s.local_player.id us) s s'
  unfolding do_accept_updates
  do_accept_updates-Took visits [] s ranges listed =
      (s, refl, (listed, sym (append-nil s.tasks), refl))
  do_accept_updates-Took visits (u ∷ us) s ranges listed =
      elim (Bool-cases (u.player_id == s.local_player.id)) [
        | inl own ↦
            let (s', run, (ls, tasks, me)) = do_accept_updates-Took visits us s ranges listed in
            (
              s',
              rw (own, do_accept_updates) run,
              (
                ls,
                tasks
                    ∙ ap (λ ks. s.tasks ++ ks)
                        (sym (
                          kills_of-own g s.local_player.id u us
                            (same_id u.player_id s.local_player.id own))),
                me,
              ),
            )
        | inr other ↦
            let (fits, known, tasks0, me0) = meet-Listed g u.player_id s listed in
            let s0 = meet g u.player_id s in
            let (s1, step, (fits1, tasks1, me1)) =
              take_in-Took g visits u s0 ranges fits known (λ e.
                differs u.player_id s.local_player.id other
                  (e ∙ ap (λ (p : Player g). p.id) me0)) in
            let (s', run, (ls, tasks, me)) = do_accept_updates-Took visits us s1 ranges fits1 in
            (
              s',
              rw (other, do_accept_updates) (rw step run),
              (
                ls,
                joined u us tasks (ap (λ (p : Player g). p.id) (me1 ∙ me0)) tasks1
                    (ap (λ (p : Player g). p.id) me0) tasks0,
                me ∙ me1 ∙ me0,
              ),
            )
      ]

  do_draw-Listed :
      (ids : List ℕ) (m : Map ℕ (Player g))
      → ((id : ℕ) → In id ids → contains id m ≡ true)
      → (ps : List (Player g)) × (do_draw g ids m ≡ some ps) × (length ps ≡ length ids)
  unfolding do_draw contains
  do_draw-Listed [] m h = ([], refl, refl)
  do_draw-Listed (id ∷ ids) m h = elim (Option-cases (lookup id m)) [
    | inl lost ↦ absurd (cc (rw (lost, contains) at (h id (inl refl))))
    | inr (p, e) ↦
        let (ps, drawn, long) = do_draw-Listed ids m (λ j v. h j (inr v)) in
        (p ∷ ps, rw (e, do_draw) (rw drawn refl), ap suc long)
  ]

  -- If `playerIds` lists the players, each once, and a `range` over the players visits each once,
  -- then `doAcceptUpdates` ends with no nil pointer, whatever updates wait. Afterwards `playerIds`
  -- lists the players again, one goroutine was started for each report by another player that the
  -- client has killed it, and `doDraw` shows one player for each id, with no nil pointer.
  pub frame_shown :
      (visits : Map ℕ (Player g) → List ℕ) (us : List (Update g)) (s : Game g)
      → ((m : Map ℕ (Player g)) → IsRange g (visits m) m)
      → Listed g s
      → (s' : Game g) × (do_accept_updates g visits us s ≡ some s')
        × Took g (kills_of g s.local_player.id us) s s'
        × ((ps : List (Player g)) × (do_draw g s'.player_ids s'.players ≡ some ps)
            × (length ps ≡ length s'.player_ids))
  frame_shown visits us s ranges listed =
      let (s', run, took) = do_accept_updates-Took visits us s ranges listed in
      (s', run, took, do_draw-Listed s'.player_ids s'.players (λ j. (took.0.1 j).0))
