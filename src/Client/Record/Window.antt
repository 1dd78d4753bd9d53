-- ===== src/Client/Record/Window.antt =====
-- `RecordWorker` reads the clock once for the age of an update and once more to prune its history.
use cs416_tanks.Base.{
  ℕ, true, false, ◌≡◌, sym, subst, inl, inr, List, [], ◌∷◌, ◌++◌, Map, erase, contains, nat_eq, In,
  All, Bool-cases,
}
use cs416_tanks.Clock.{Time, before}
use cs416_tanks.Geometry.{Vec, Geometry}
use cs416_tanks.Update.{Update}
use cs416_tanks.Client.Record.{State, fence_at, prune_from, prune_history, record_worker}
use cs416_tanks.Client.Record.History.{nonces, Marks, Tracks, Marks-tail, prune_from-Marks}
use cs416_tanks.Client.Record.Fits.{Fits}
use cs416_tanks.Client.Record.Checks.{record_worker-Checked}

module _ (g : Geometry) (me : ℕ) (lo hi : Vec g.F) where
  -- What is left after pruning was there before.
  prune_from-part :
      (fence : Time) (us : List (Update g)) (seen : Map ℕ (Unit {0})) (s : State g) (n : ℕ)
      → In n (nonces g (prune_from g fence us seen s).history)
      → In n (nonces g us)
  unfolding prune_from
  prune_from-part fence [] seen s n v = v
  prune_from-part fence (u ∷ us) seen s n v = elim (Bool-cases (before u.time fence)) [
    | inl old ↦ inr (prune_from-part fence us (erase u.nonce seen) s n (rw (old, prune_from) at v))
    | inr young ↦ rw (young, prune_from) at v
  ]

  -- Where all updates of `pre` are too old, and so is `u`, pruning forgets `u`.
  prune_from-forgets :
      (fence : Time) (pre us : List (Update g)) (u : Update g) (seen : Map ℕ (Unit {0}))
      (s : State g)
      → Marks g (pre ++ u ∷ us) seen
      → All (λ (w : Update g). before w.time fence ≡ true) pre
      → before u.time fence ≡ true
      → contains u.nonce (prune_from g fence (pre ++ u ∷ us) seen s).history_map ≡ false
  unfolding prune_from
  prune_from-forgets fence [] us u seen s marks gone old =
      rw (old, prune_from)
        (elim (Bool-cases
          (contains u.nonce (prune_from g fence us (erase u.nonce seen) s).history_map)) [
            | inr new ↦ new
            | inl kept ↦ absurd (
                marks.1.0 (
                  prune_from-part fence us (erase u.nonce seen) s u.nonce (
                    ((prune_from-Marks g fence us (erase u.nonce seen) s
                          (Marks-tail g u us seen marks)).0
                        u.nonce).0
                      kept)))
          ])
  prune_from-forgets fence (w ∷ pre) us u seen s marks gone old =
      rw (gone.0, prune_from)
        (prune_from-forgets fence pre us u (erase w.nonce seen) s
          (Marks-tail g w (pre ++ u ∷ us) seen marks) gone.1 old)

  forgotten :
      (now : Time) (pre us : List (Update g)) (u : Update g) (s : State g)
      → s.history ≡ pre ++ u ∷ us
      → Tracks g s
      → All (λ (w : Update g). before w.time (fence_at now) ≡ true) pre
      → before u.time (fence_at now) ≡ true
      → contains u.nonce (prune_history g now s).history_map ≡ false
  unfolding prune_history
  forgotten now pre us u s e tracks gone old =
      subst
        (λ h. contains u.nonce (prune_from g (fence_at now) h s.history_map s).history_map ≡ false)
        (sym e)
        (prune_from-forgets (fence_at now) pre us u s.history_map s
          (subst (λ h. Marks g h s.history_map) e tracks) gone old)

  -- Let an update of the history come in again, and let it fit: a death, say, or a position that is
  -- near enough to where its player is now. If it is young enough at the first reading of the clock,
  -- and it and all updates before it in the history are too old at the second, then it is displayed
  -- and sent once more.
  pub repeat_at_fence :
      (now now' : Time) (u : Update g) (pre us : List (Update g)) (s : State g)
      → Tracks g s
      → s.history ≡ pre ++ u ∷ us
      → Fits g me lo hi u s.records
      → before u.time (fence_at now) ≡ false
      → All (λ (w : Update g). before w.time (fence_at now') ≡ true) pre
      → before u.time (fence_at now') ≡ true
      → ((record_worker g me lo hi now now' u s).sent ≡ s.sent ++ u ∷ [])
        × ((record_worker g me lo hi now now' u s).displayed ≡ s.displayed ++ u ∷ [])
  repeat_at_fence now now' u pre us s tracks e fits young gone old =
      elim (record_worker-Checked g me lo hi now now' u s) [
        | inl (taken, passed) ↦ (passed.0, passed.1)
        | inr (refused, ignored) ↦
            absurd (refused (young, forgotten now' pre us u s e tracks gone old, fits))
      ]
