-- ===== src/Client/Game/Counts/Lost.antt =====
-- Two goroutines that count at the same time, and one whose `KVGet` fails.
use cs416_tanks.Base.{
  ℕ, Bool, true, false, not, ◌≡◌, refl, ap, ◌∙◌, List, [], ◌∷◌, Option, none, some, if◌then◌else◌,
}
use cs416_tanks.Crdt.{ValueType, zero_value}
use cs416_tanks.Client.Game.{Task}
use cs416_tanks.Client.Store.{Client}
use cs416_tanks.Server.Kv.ReadBack.{client_kv_get}
use cs416_tanks.Client.Game.Counts.{bump, Stats, Phase, begun, holding, ended, advance, run_both}

-- Where `Good` holds, a put comes through, a get after it gives the value, and `Good` holds again.
abbrev pub ReadsPuts : {S : Type 0} → Stats S → (S → Type 0) → Type 0
ReadsPuts {S} store Good =
    (v : ValueType) (s : S)
    → Good s
    → (s' : S) × (store.kv_put v s ≡ some s') × (store.kv_get s' ≡ (v, false)) × Good s'

-- Both have ended, and the store gives the value.
abbrev pub EndsWith : {S : Type 0} → Stats S → ValueType → Option (Phase × Phase × S) → Type 0
EndsWith {S} store v o = (s : S) × (o ≡ some (ended, ended, s)) × (store.kv_get s ≡ (v, false))

module _ {S : Type 0} (store : Stats S) where
  get_step :
      (a : Task) (s : S) (v : ValueType) (failed : Bool)
      → store.kv_get s ≡ (v, failed)
      → advance store a begun s ≡ some (holding (bump a v), s)
  unfolding advance
  get_step a s v failed e = ap (λ (p : ValueType × Bool). some (holding (bump a p.0), s)) e

  put_step :
      (a : Task) (s s' : S) (v : ValueType)
      → store.kv_put v s ≡ some s'
      → advance store a (holding v) s ≡ some (ended, s')
  unfolding advance
  put_step a s s' v e = rw (e, advance) refl

  module _ (a b : Task) where
    first_turn :
        (turns : List Bool) (p p' q : Phase) (s s' : S)
        → advance store a p s ≡ some (p', s')
        → run_both store (true ∷ turns) a p b q s ≡ run_both store turns a p' b q s'
    unfolding run_both
    first_turn turns p p' q s s' e = rw (e, run_both) refl

    second_turn :
        (turns : List Bool) (p q q' : Phase) (s s' : S)
        → advance store b q s ≡ some (q', s')
        → run_both store (false ∷ turns) a p b q s ≡ run_both store turns a p b q' s'
    unfolding run_both
    second_turn turns p q q' s s' e = rw (e, run_both) refl

    no_turn : (p q : Phase) (s : S) → run_both store [] a p b q s ≡ some (p, q, s)
    unfolding run_both
    no_turn p q s = refl

  module _ (Good : S → Type 0) (reads : ReadsPuts store Good) (a b : Task) (s : S) (v : ValueType)
      (good : Good s) (now : store.kv_get s ≡ (v, false)) where
    in_turn :
        (x : Bool)
        → EndsWith store
            (if x then bump b (bump a v) else bump a (bump b v))
            (run_both store (x ∷ x ∷ not x ∷ not x ∷ []) a begun b begun s)
    in_turn true =
        let (s1, put1, got1, good1) = reads (bump a v) s good in
        let (s2, put2, got2, good2) = reads (bump b (bump a v)) s1 good1 in
        (
          s2,
          first_turn a b _ begun (holding (bump a v)) begun s s (get_step a s v false now)
              ∙ first_turn a b _ (holding (bump a v)) ended begun s s1
                  (put_step a s s1 (bump a v) put1)
              ∙ second_turn a b _ ended begun (holding (bump b (bump a v))) s1 s1
                  (get_step b s1 (bump a v) false got1)
              ∙ second_turn a b _ ended (holding (bump b (bump a v))) ended s1 s2
                  (put_step b s1 s2 _ put2)
              ∙ no_turn a b ended ended s2,
          got2,
        )
    in_turn false =
        let (s1, put1, got1, good1) = reads (bump b v) s good in
        let (s2, put2, got2, good2) = reads (bump a (bump b v)) s1 good1 in
        (
          s2,
          second_turn a b _ begun begun (holding (bump b v)) s s (get_step b s v false now)
              ∙ second_turn a b _ begun (holding (bump b v)) ended s s1
                  (put_step b s s1 (bump b v) put1)
              ∙ first_turn a b _ begun (holding (bump a (bump b v))) ended s1 s1
                  (get_step a s1 (bump b v) false got1)
              ∙ first_turn a b _ (holding (bump a (bump b v))) ended ended s1 s2
                  (put_step a s1 s2 _ put2)
              ∙ no_turn a b ended ended s2,
          got2,
        )

    -- Both have read.
    both_read :
        (x : Bool) (turns : List Bool)
        → run_both store (x ∷ not x ∷ turns) a begun b begun s
          ≡ run_both store turns a (holding (bump a v)) b (holding (bump b v)) s
    both_read true turns =
        first_turn a b _ begun (holding (bump a v)) begun s s (get_step a s v false now)
        ∙ second_turn a b _ (holding (bump a v)) begun (holding (bump b v)) s s
            (get_step b s v false now)
    both_read false turns =
        second_turn a b _ begun begun (holding (bump b v)) s s (get_step b s v false now)
        ∙ first_turn a b _ begun (holding (bump a v)) (holding (bump b v)) s s
            (get_step a s v false now)

    last_wins :
        (z : Bool)
        → EndsWith store
            (bump (if z then b else a) v)
            (run_both store (z ∷ not z ∷ []) a (holding (bump a v)) b (holding (bump b v)) s)
    last_wins true =
        let (s1, put1, got1, good1) = reads (bump a v) s good in
        let (s2, put2, got2, good2) = reads (bump b v) s1 good1 in
        (
          s2,
          first_turn a b _ (holding (bump a v)) ended (holding (bump b v)) s s1
                (put_step a s s1 _ put1)
              ∙ second_turn a b _ ended (holding (bump b v)) ended s1 s2 (put_step b s1 s2 _ put2)
              ∙ no_turn a b ended ended s2,
          got2,
        )
    last_wins false =
        let (s1, put1, got1, good1) = reads (bump b v) s good in
        let (s2, put2, got2, good2) = reads (bump a v) s1 good1 in
        (
          s2,
          second_turn a b _ (holding (bump a v)) (holding (bump b v)) ended s s1
                (put_step b s s1 _ put1)
              ∙ first_turn a b _ (holding (bump a v)) ended ended s1 s2 (put_step a s1 s2 _ put2)
              ∙ no_turn a b ended ended s2,
          got2,
        )

    -- Where every `KVPut` comes through and every `KVGet` gives what was put last, as `Good`
    -- ensures: two goroutines that count one after the other count both, and where both read before
    -- either writes, only the one that writes last is counted.
    pub count_lost :
        (x z : Bool)
        → EndsWith store
            (if x then bump b (bump a v) else bump a (bump b v))
            (run_both store (x ∷ x ∷ not x ∷ not x ∷ []) a begun b begun s)
          × EndsWith store
              (bump (if z then b else a) v)
              (run_both store (x ∷ not x ∷ z ∷ not z ∷ []) a begun b begun s)
    count_lost x z =
        let (s', ends, got) = last_wins z in
        (in_turn x, (s', both_read x (z ∷ not z ∷ []) ∙ ends, got))

  -- Where `Good` ensures that a `KVPut` comes through: if a `KVGet` fails, as `KVGet` of
  -- client/crdt.go reports it, the counts begin anew: the goroutine leaves what it makes of the
  -- zero value.
  pub count_reset :
      (Good : S → Type 0) (reads : ReadsPuts store Good) (a b : Task) (key : ℕ) (c : Client) (s : S)
      → Good s
      → store.kv_get s ≡ client_kv_get none key c
      → (s' : S) × (run_both store (true ∷ true ∷ []) a begun b begun s ≡ some (ended, begun, s'))
        × (store.kv_get s' ≡ (bump a zero_value, false))
  unfolding client_kv_get
  count_reset Good reads a b key c s good failed =
      let (s1, put1, got1, good1) = reads (bump a zero_value) s good in
      (
        s1,
        first_turn a b _ begun (holding (bump a zero_value)) begun s s
              (get_step a s zero_value true failed)
            ∙ first_turn a b _ (holding (bump a zero_value)) ended begun s s1
                (put_step a s s1 _ put1)
            ∙ no_turn a b ended begun s1,
        got1,
      )
