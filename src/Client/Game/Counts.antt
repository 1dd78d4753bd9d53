-- ===== src/Client/Game/Counts.antt =====
-- The goroutines of `doAcceptUpdates` and `doUpdateBullets` in client/client.go that add to the
-- client's statistics, with `KVGet` and `KVPut` of client/crdt.go. The store is an interface: what
-- a `KVGet` gives and what a `KVPut` leaves. Several goroutines run at once.
pub mod Lost
pub mod Store
pub mod Served
use cs416_tanks.Base.{
  ℕ, suc, Bool, true, false, ◌≡◌, List, [], ◌∷◌, ◌++◌, Option, none, some, if◌then◌else◌,
}
use cs416_tanks.Base.Int.{ℤ, pos, ◌+ℤ◌, int64}
use cs416_tanks.Crdt.{ValueType, zero_value}
use cs416_tanks.Client.Game.{Task, add_death, add_kill}

-- `value.NumDeaths += 1` and `value.NumKills += 1`
unfoldable pub bump : Task → ValueType → ValueType
bump add_death v = record v { num_deaths = int64 (v.num_deaths +ℤ pos 1) }
bump add_kill v = record v { num_kills = int64 (v.num_kills +ℤ pos 1) }

-- The store under the client's id: `KVGet` with its error or not, and `KVPut`, which is `none`
-- where it has an error.
pub record Stats (S : Type 0) : Type 0 where
  pub kv_get : S → ValueType × Bool
  pub kv_put : ValueType → S → Option S

-- A goroutine before its `KVGet`, between its two calls, and after them.
pub data Phase : Type 0 where
  begun : Phase
  holding : ValueType → Phase
  ended : Phase

module _ {S : Type 0} (store : Stats S) where
  -- The next call of a goroutine: its new phase and the store; `none` if `log.Fatal` ends the client.
  unfoldable pub advance : Task → Phase → S → Option (Phase × S)
  advance task begun s = some (holding (bump task (store.kv_get s).0), s)
  advance task (holding v) s = elim (store.kv_put v s) [ none ↦ none | some s' ↦ some (ended, s') ]
  advance task ended s = some (ended, s)

  -- Two goroutines, in the order of the given turns: true for the first.
  unfoldable pub run_both : List Bool → Task → Phase → Task → Phase → S → Option (Phase × Phase × S)
  run_both [] a p b q s = some (p, q, s)
  run_both (true ∷ turns) a p b q s = elim (advance a p s) [
    | none ↦ none
    | some (p', s') ↦ run_both turns a p' b q s'
  ]
  run_both (false ∷ turns) a p b q s = elim (advance b q s) [
    | none ↦ none
    | some (q', s') ↦ run_both turns a p b q' s'
  ]
