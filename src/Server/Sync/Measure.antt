-- ===== src/Server/Sync/Measure.antt =====
-- The first loop of `syncClocks`, which measures the clients.
use cs416_tanks.Base.{
  ℕ, ◌<◌, ◌≤◌, ◌≡◌, ◌≢◌, refl, sym, subst, ◌∙◌, ◌⊎◌, inl, inr, List, [], ◌∷◌, lookup,
  lookup-insert_self, lookup-insert_ne, some, nat_eq, arith, In, AllDistinct,
}
use cs416_tanks.Base.Int.{IsInt64, int64-IsInt64, ◌+ℤ◌}
use cs416_tanks.Client.Store.{Client}
use cs416_tanks.Server.State.{status_eq, Server}
use cs416_tanks.Server.Monad.{done}
use cs416_tanks.Server.Sync.{Reading, Totals, measure_all, measured_at}
use cs416_tanks.Server.Sync.Rounds.{
  Ready, Skipped, Bound, measured, one_measured, wrap, same_after, Ready-other, measure_step,
  measure_skip, measured_after, measured_now, not-Skipped, still,
}

-- `h` numbers the TCP connections of the clients by their ids, and `cl` are the clients behind them.
module _ (readings : ℕ → Reading) (h : ℕ → ℕ) (cl : ℕ → Client) where
  -- What the first loop over `ids` leaves.
  pub record Measured (ids : List ℕ) (a a' : Totals) (s s' : Server) : Type 0 where
    pub same_locks : s'.locks ≡ s.locks
    pub same_clock : s'.tables.clock ≡ s.tables.clock
    pub fits : IsInt64 a.total → IsInt64 a'.total
    pub more : a.num ≤ a'.num
    pub others :
        (j : ℕ)
        → ¬ In j ids
        → (lookup j s'.tables.connections ≡ lookup j s.tables.connections)
          × (measured_at j a'.measured ≡ measured_at j a.measured)
    pub same_remotes : (k : ℕ) → lookup k s'.remotes ≡ lookup k s.remotes
    pub visited :
        (j : ℕ)
        → In j ids
        → Ready readings h cl s j
        → Bound readings h cl s' j
          × (measured_at j a'.measured ≡ measured readings h cl s.tables.clock j)
          × (a.num < a'.num)
    pub passed : (j : ℕ) → In j ids → Skipped readings h cl s j → Skipped readings h cl s' j

  Measured-Ready :
      (id : ℕ) (ids : List ℕ) (a a' : Totals) (s s' : Server) (v : Ready readings h cl s id)
      → ¬ In id ids
      → Measured ids (one_measured readings h cl id s a) a' (wrap readings h cl id v.conn s) s'
      → Measured (id ∷ ids) a a' s s'
  Measured-Ready id ids a a' s s' v out rest = record {
    same_locks = rest.same_locks;
    same_clock = rest.same_clock;
    fits = λ i. rest.fits (int64-IsInt64 (a.total +ℤ measured readings h cl s.tables.clock id));
    more = omega (arith, rest.more);
    others = λ j w.
        let (e, f) = rest.others j (λ u. w (inr u)) in
        (
          e ∙ lookup-insert_ne j id _ s.tables.connections (λ x. w (inl (sym x))),
          f ∙ measured_after readings h cl id j _ a.measured (λ x. w (inl x)),
        );
    same_remotes = λ k. rest.same_remotes k ∙ same_after readings h cl id s.remotes v.there k;
    visited = λ j w u. elim w [
      | inl e ↦ subst At (sym e) at_head
      | inr w' ↦
          let (b, m, n) = rest.visited j w' (
            Ready-other readings h cl id j v.conn s (apart j w')
              (same_after readings h cl id s.remotes v.there) u) in
          (b, m, omega (arith, n))
    ];
    passed = λ j w skip. elim w [
      | inl e ↦ absurd (not-Skipped readings h cl s id v (subst (Skipped readings h cl s) e skip))
      | inr w' ↦ rest.passed j w' (λ c e.
          skip c (sym (lookup-insert_ne j id _ s.tables.connections (λ x. apart j w' (sym x))) ∙ e))
    ];
  }
    where
      apart : (j : ℕ) → In j ids → j ≢ id
      apart j w e = out (subst (λ x. In x ids) e w)

      At : ℕ → Type 0
      At j =
          Bound readings h cl s' j
          × (measured_at j a'.measured ≡ measured readings h cl s.tables.clock j)
          × (a.num < a'.num)

      at_head : At id
      at_head =
          let (e, f) = rest.others id out in
          (
            record {
              conn = record v.conn { client = some (h id) };
              listed = e ∙ lookup-insert_self id _ s.tables.connections;
              on = v.on;
              wrapper = refl;
              there =
                  rest.same_remotes (h id)
                  ∙ same_after readings h cl id s.remotes v.there (h id)
                  ∙ v.there;
              told = v.told;
            },
            f ∙ measured_now readings h cl id _ a.measured,
            omega (arith, rest.more),
          )

  Measured-Skipped :
      (id : ℕ) (ids : List ℕ) (a a' : Totals) (s s' : Server)
      → Skipped readings h cl s id
      → ¬ In id ids
      → Measured ids a a' s s'
      → Measured (id ∷ ids) a a' s s'
  Measured-Skipped id ids a a' s s' skip out rest = record {
    same_locks = rest.same_locks;
    same_clock = rest.same_clock;
    fits = rest.fits;
    more = rest.more;
    others = λ j w. rest.others j (λ u. w (inr u));
    same_remotes = rest.same_remotes;
    visited = λ j w u. elim w [
      | inl e ↦
          absurd (not-Skipped readings h cl s j u (subst (Skipped readings h cl s) (sym e) skip))
      | inr w' ↦ rest.visited j w' u
    ];
    passed = λ j w skip'. elim w [
      | inl e ↦ λ c f. skip' c (sym (rest.others j (λ u. out (subst (λ x. In x ids) e u))).0 ∙ f)
      | inr w' ↦ rest.passed j w' skip'
    ];
  }

  pub measure_all_lem :
      (ids : List ℕ) (a : Totals) (s : Server)
      → AllDistinct ids
      → ((j : ℕ) → In j ids → Ready readings h cl s j ⊎ Skipped readings h cl s j)
      → (a' : Totals) × (s' : Server) × (measure_all readings ids a s ≡ done a' s')
        × Measured ids a a' s s'
  unfolding measure_all
  measure_all_lem [] a s distinct all = (
    a,
    s,
    refl,
    record {
      same_locks = refl;
      same_clock = refl;
      fits = λ i. i;
      more = omega arith;
      others = λ j w. (refl, refl);
      same_remotes = λ k. refl;
      visited = λ j w. absurd w;
      passed = λ j w. absurd w;
    },
  )
  measure_all_lem (id ∷ ids) a s (out, distinct) all = elim (all id (inl refl)) [
    | inr skip ↦
        let (a', s', e, m) = measure_all_lem ids a s distinct (λ j w. all j (inr w)) in
        (
          a',
          s',
          measure_skip readings h cl id ids a s skip ∙ e,
          Measured-Skipped id ids a a' s s' skip out m,
        )
    | inl v ↦
        let (a', s', e, m) =
          measure_all_lem ids (one_measured readings h cl id s a) (wrap readings h cl id v.conn s)
            distinct (λ j w. still readings h cl id ids s v out j w (all j (inr w))) in
        (
          a',
          s',
          measure_step readings h cl id ids a s v ∙ e,
          Measured-Ready id ids a a' s s' v out m,
        )
  ]
