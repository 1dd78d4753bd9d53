-- ===== src/Tests/ClientRun.antt =====
-- Two frames of a small game.
use cs416_tanks.Base.{
  ℕ, true, false, ◌≡◌, refl, ap, inl, inr, List, [], ◌∷◌, Map, lookup, contains, nat_eq, ◌==◌, some,
  arith, length, Bool-cases, if◌then◌else◌,
}
use cs416_tanks.Base.Int.{pos}
use cs416_tanks.Tests.Grid.{vec, grid}
use cs416_tanks.Update.{Update, fire_bullet, dead_player, timestamp}
use cs416_tanks.Client.Game.{Player, add_kill, Game}
use cs416_tanks.Client.Game.Shown.{IsRange, Listed, kills_of}
use cs416_tanks.Client.Game.Run.{Input, Picture, run}
use cs416_tanks.Client.Game.Run.Safe.{Playing, Follows, run-Follows}
use cs416_tanks.Tests.ClientGame.{shell, game, stamp, keys_held, stamps}

-- A `range` that visits the keys in the order of the list.
abbrev visits : Map ℕ (Player grid) → List ℕ
visits [] = []
visits ((k, v) ∷ m) = let rest = visits m in if contains k m then rest else k ∷ rest

contains-cons :
    (j k : ℕ) (v : Player grid) (m : Map ℕ (Player grid))
    → contains j ((k, v) ∷ m) ≡ (if k == j then true else contains j m)
unfolding contains lookup
contains-cons j k v m = ground arith

none_there : (j : ℕ) → contains {V = Player grid} j [] ≡ false
unfolding contains lookup
none_there j = refl

same_contains : (j k : ℕ) (m : Map ℕ (Player grid)) → k ≡ j → contains k m ≡ contains j m
same_contains j k m e = ap (λ t. contains t m) e

visits-IsRange : (m : Map ℕ (Player grid)) → IsRange grid (visits m) m
visits-IsRange [] = (tt, λ j. ((λ v. absurd v), λ h. cc (none_there j, h)))
visits-IsRange ((k, v) ∷ m) =
    let (distinct, range) = visits-IsRange m in
    elim (Bool-cases (contains k m)) [
      | inl known ↦ rw known (
        distinct,
        λ j. (
          (λ w. ground (arith, contains-cons j k v m, (range j).0 w)),
          λ h. (range j).1 (ground (arith, h, contains-cons j k v m, known, same_contains j k m)),
        ),
      )
      | inr new ↦ rw new (
        ((λ w. cc ((range k).0 w, new)), distinct),
        λ j. (
          (λ w. elim w [
            | inl e ↦ ground (arith, contains-cons j k v m, e)
            | inr w' ↦ ground (arith, contains-cons j k v m, (range j).0 w')
          ]),
          λ h. elim (Bool-cases (k == j)) [
            | inl same ↦ inl (ground arith)
            | inr other ↦ inr ((range j).1 (ground (arith, h, contains-cons j k v m)))
          ],
        ),
      )
    ]

-- Player 8 fires, player 7 reports that it was killed by us.
abbrev news : List (Update grid)
news =
    timestamp grid (fire_bullet grid 8 (vec 1 1) 2) (pos 7) 51
    ∷ timestamp grid (dead_player grid 7 9) (pos 8) 52
    ∷ []

game-Listed : Listed grid game
unfolding contains lookup
game-Listed = visits-IsRange game.players

one_kill : kills_of grid 9 news ≡ add_kill ∷ []
unfolding timestamp fire_bullet dead_player
one_kill = refl

abbrev frames : List (Input grid)
frames =
    record {
      dt = 1;
      stamp = stamp;
      keys = keys_held;
      mouse = vec 90 90;
      stamps = stamps;
      updates = news;
    }
    ∷ record {
      dt = 2;
      stamp = stamp;
      keys = keys_held;
      mouse = vec 10 90;
      stamps = stamps;
      updates = [];
    }
    ∷ []

game-Playing : Playing grid game
unfolding lookup
game-Playing = record {
  listed = game-Listed;
  live = λ p v. elim v [
    | inl e ↦ (shell 400, rw e refl)
    | inr (inl e) ↦ (shell 100, rw e refl)
    | inr (inr (inl e)) ↦ (shell 200, rw e refl)
    | inr (inr (inr none_left)) ↦ absurd none_left
  ];
}

run-Follows_example :
    (ps : List (Picture grid)) × (s' : Game grid) × (run grid
        (vec 0 0)
        (vec 500 500)
        visits
        frames
        game
      ≡ some (ps, s'))
    × (length ps ≡ length frames)
    × Follows grid game s'
run-Follows_example =
    run-Follows grid (vec 0 0) (vec 500 500) visits frames game visits-IsRange game-Playing
