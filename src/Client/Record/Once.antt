-- ===== src/Client/Record/Once.antt =====
-- What a round of `RecordWorker` does to its history and to the nonces that are marked as seen.
use cs416_tanks.Base.{
  ℕ, false, ◌≡◌, subst, inl, inr, [], ◌∷◌, ◌++◌, insert, contains, nat_eq, arith, In, In-append,
  In-append_left, In-append_right, AllDistinct-append, Bool-cases,
}
use cs416_tanks.Clock.{Time, before}
use cs416_tanks.Geometry.{Vec, Geometry}
use cs416_tanks.Update.{Update}
use cs416_tanks.Client.Record.{
  State, fence_at, prune_history, take_update, take_fire, take_position, pass_on, record_worker,
}
use cs416_tanks.Client.Record.History.{
  contains-insert_iff, nonces, nonces-append, Tracks, prune_from-Marks,
}

module _ (g : Geometry) (me : ℕ) (lo hi : Vec g.F) where
  pub take_update-history :
      (u : Update g) (s : State g)
      → ((take_update g me lo hi u s).history ≡ s.history)
        × ((take_update g me lo hi u s).history_map ≡ s.history_map)
  unfolding take_update take_fire take_position pass_on
  take_update-history u s = ground arith

  -- The state before the `switch`, with the update written down.
  abbrev pub noted : Update g → State g → State g
  noted u p = record p {
    history_map = insert u.nonce tt p.history_map;
    history = p.history ++ u ∷ [];
  }

  noted-Tracks :
      (u : Update g) (p : State g)
      → Tracks g p
      → contains u.nonce p.history_map ≡ false
      → Tracks g (noted u p)
  noted-Tracks u p (marks, distinct) new = rw (nonces-append g p.history (u ∷ [])) (
    λ n. (
      λ h. elim ((contains-insert_iff n u.nonce p.history_map).0 h) [
        | inl e ↦ In-append_right n (nonces g p.history) (u.nonce ∷ []) (inl e)
        | inr old ↦ In-append_left n (nonces g p.history) (u.nonce ∷ []) ((marks n).0 old)
      ],
      λ v.
          (contains-insert_iff n u.nonce p.history_map).1
            (elim (In-append n (nonces g p.history) (u.nonce ∷ []) v) [
              | inl old ↦ inr ((marks n).1 old)
              | inr (inl e) ↦ inl e
              | inr (inr no_more) ↦ absurd no_more
            ]),
    ),
    AllDistinct-append (nonces g p.history) (u.nonce ∷ []) distinct ((λ v. v), tt)
        λ n v w. elim w [
          | inl e ↦
              absurd (cc ((marks u.nonce).1 (subst (λ k. In k (nonces g p.history)) e v), new))
          | inr no_more ↦ no_more
        ],
  )

  pub prune-Tracks : (now : Time) (s : State g) → Tracks g s → Tracks g (prune_history g now s)
  unfolding prune_history
  prune-Tracks now s h = prune_from-Marks g (fence_at now) s.history s.history_map s h

  -- Every round keeps the marks equal to the nonces of the history, all different, whatever the
  -- clock reads.
  pub record_worker-Tracks :
      (now now' : Time) (u : Update g) (s : State g)
      → Tracks g s
      → Tracks g (record_worker g me lo hi now now' u s)
  unfolding record_worker
  record_worker-Tracks now now' u s h = elim (Bool-cases (before u.time (fence_at now))) [
    | inl old ↦ rw (old, record_worker) h
    | inr young ↦
        rw (young, record_worker)
          (elim (Bool-cases (contains u.nonce (prune_history g now' s).history_map)) [
            | inl seen ↦ rw seen (prune-Tracks now' s h)
            | inr new ↦
                rw
                  (
                    new,
                    (take_update-history u (noted u (prune_history g now' s))).0,
                    (take_update-history u (noted u (prune_history g now' s))).1,
                  )
                  (noted-Tracks u (prune_history g now' s) (prune-Tracks now' s h) new)
          ])
  ]
