-- ===== src/Client/Record/Repeat.antt =====
-- Whether `RecordWorker` passes an update on a second time.
use cs416_tanks.Base.{
  ℕ, true, false, ◌≡◌, ◌≢◌, refl, subst, ◌⊎◌, inl, inr, List, [], ◌∷◌, contains, nat_eq, In,
  In-append_left, In-append_right, Bool-cases,
}
use cs416_tanks.Base.Int.{◌≤ℤ◌}
use cs416_tanks.Clock.{Time, before}
use cs416_tanks.Geometry.{Vec, Geometry}
use cs416_tanks.Update.{Update}
use cs416_tanks.Client.Record.{State, fence_at, prune_history, record_worker, run_worker}
use cs416_tanks.Client.Record.History.{
  fence_mono, before_trans, In-nonces, Tracks, prune_from-keeps, prune_from-sent,
}
use cs416_tanks.Client.Record.Once.{noted, take_update-history, prune-Tracks, record_worker-Tracks}

-- Rounds from the time `t` to the time `t'`: within a round the two readings of the clock agree, and
-- no reading is before the one of the round before.
abbrev pub Steady : {A : Type 0} → Time → List (Time × Time × A) → Time → Type 0
Steady t [] t' = t ≤ℤ t'
Steady t ((now, now', u) ∷ rounds) t' = (now ≡ now') × (t ≤ℤ now) × Steady now rounds t'

module _ (g : Geometry) (me : ℕ) (lo hi : Vec g.F) where
  abbrev round : Time → Update g → State g → State g
  round t u s = record_worker g me lo hi t t u s

  -- The update is too old for the clock, or stands in the history.
  abbrev Known : Update g → Time → State g → Type 0
  Known u t s = (before u.time (fence_at t) ≡ true) ⊎ In u s.history

  pub same_sent :
      (t : Time) (s : State g)
      → ((prune_history g t s).sent ≡ s.sent) × ((prune_history g t s).displayed ≡ s.displayed)
  unfolding prune_history
  same_sent t s = let h = prune_from-sent g (fence_at t) s.history s.history_map s in (h.0, h.1)

  prune_keeps :
      (t : Time) (s : State g) (u : Update g)
      → In u s.history
      → before u.time (fence_at t) ≡ false
      → In u (prune_history g t s).history
  unfolding prune_history
  prune_keeps t s u v young = prune_from-keeps g (fence_at t) s.history s.history_map s u v young

  -- What is passed on stands in the history.
  sent-Known :
      (t : Time) (u : Update g) (s : State g)
      → (round t u s).sent ≢ s.sent
      → In u (round t u s).history
  unfolding record_worker
  sent-Known t u s new_sent = elim (Bool-cases (before u.time (fence_at t))) [
    | inl old ↦ absurd (new_sent (rw (old, record_worker) refl))
    | inr young ↦ elim (Bool-cases (contains u.nonce (prune_history g t s).history_map)) [
      | inl seen ↦ absurd (new_sent (rw (young, record_worker) (rw seen (same_sent t s).0)))
      | inr new ↦
          rw (young, record_worker)
            (rw
              (new, (take_update-history g me lo hi u (noted g me lo hi u (prune_history g t s))).0)
              (In-append_right u (prune_history g t s).history (u ∷ []) (inl refl)))
    ]
  ]

  Known-later :
      (t : Time) (w u : Update g) (s : State g)
      → In u s.history
      → before u.time (fence_at t) ≡ false
      → In u (round t w s).history
  unfolding record_worker
  Known-later t w u s v young = elim (Bool-cases (before w.time (fence_at t))) [
    | inl old ↦ rw (old, record_worker) v
    | inr fine ↦ elim (Bool-cases (contains w.nonce (prune_history g t s).history_map)) [
      | inl seen ↦ rw (fine, record_worker) (rw seen (prune_keeps t s u v young))
      | inr new ↦
          rw (fine, record_worker)
            (rw
              (new, (take_update-history g me lo hi w (noted g me lo hi w (prune_history g t s))).0)
              (In-append_left u (prune_history g t s).history (w ∷ []) (prune_keeps t s u v young)))
    ]
  ]

  Known-round :
      (now t : Time) (w u : Update g) (s : State g)
      → now ≤ℤ t
      → Known u now s
      → Known u t (round t w s)
  Known-round now t w u s le (inl old) =
      inl (before_trans u.time (fence_at now) (fence_at t) (fence_mono now t le) old)
  Known-round now t w u s le (inr v) = elim (Bool-cases (before u.time (fence_at t))) [
    | inl old ↦ inl old
    | inr young ↦ inr (Known-later t w u s v young)
  ]

  Known-dropped :
      (now t : Time) (u : Update g) (s : State g)
      → now ≤ℤ t
      → Tracks g s
      → Known u now s
      → ((round t u s).sent ≡ s.sent) × ((round t u s).displayed ≡ s.displayed)
  unfolding record_worker
  Known-dropped now t u s le tracks known = elim (Bool-cases (before u.time (fence_at t))) [
    | inl old ↦ rw (old, record_worker) (refl, refl)
    | inr young ↦ rw (young, record_worker) (rw (seen young known) (same_sent t s))
  ]
    where
      seen :
          before u.time (fence_at t) ≡ false
          → Known u now s
          → contains u.nonce (prune_history g t s).history_map ≡ true
      seen young (inl old) =
          cc (before_trans u.time (fence_at now) (fence_at t) (fence_mono now t le) old)
      seen young (inr v) =
          ((prune-Tracks g me lo hi t s tracks).0 u.nonce).1
            (In-nonces g u (prune_history g t s).history (prune_keeps t s u v young))

  run-Known :
      (t t' : Time) (rounds : List (Time × Time × Update g)) (u : Update g) (s : State g)
      → Steady t rounds t'
      → Tracks g s
      → Known u t s
      → let s' = run_worker g me lo hi rounds s in
        ((round t' u s').sent ≡ s'.sent) × ((round t' u s').displayed ≡ s'.displayed)
  unfolding run_worker
  run-Known t t' [] u s le tracks known = Known-dropped t t' u s le tracks known
  run-Known t t' ((now, now', w) ∷ rounds) u s (same, le, rest) tracks known =
      run-Known now t' rounds u (record_worker g me lo hi now now' w s) rest
        (record_worker-Tracks g me lo hi now now' w s tracks)
        (subst (λ r. Known u now (record_worker g me lo hi now r w s)) same
          (Known-round t now w u s le known))

  -- Take a round that passes an update on, from a state whose marks fit its history, any rounds after
  -- it, and then a round with the same update. If in every round the two readings of the clock agree
  -- and the readings never go back, the last round neither displays nor sends the update.
  pub no_repeat :
      (t t' : Time) (u : Update g) (rounds : List (Time × Time × Update g)) (s : State g)
      → Tracks g s
      → (record_worker g me lo hi t t u s).sent ≢ s.sent
      → Steady t rounds t'
      → let s' = run_worker g me lo hi rounds (record_worker g me lo hi t t u s) in
        ((record_worker g me lo hi t' t' u s').sent ≡ s'.sent)
        × ((record_worker g me lo hi t' t' u s').displayed ≡ s'.displayed)
  no_repeat t t' u rounds s tracks passed steady =
      run-Known t t' rounds u (round t u s) steady (record_worker-Tracks g me lo hi t t u s tracks)
        (inr (sent-Known t u s passed))
