-- ===== src/Server/Registry/Diagram.antt =====
-- How the `status` of one client changes in server/server.go, and what a handler keeps of the tables.
use cs416_tanks.Base.{
  ℕ, ◌≡◌, ◌≢◌, Bool, true, false, refl, sym, ap, subst, inl, inr, Map, lookup, insert, contains,
  Option, none, some, ◌==◌, nat_eq, string_eq, arith, Bool-cases, Option-cases, lookup-insert,
  String,
}
use cs416_tanks.Server.State.{Status, Connection, Tables, Locks, Server}

abbrev pub status_of : Option Connection → Option Status
status_of none = none
status_of (some c) = some c.status

-- `m[id].status`
abbrev pub status_at : ℕ → Map ℕ Connection → Option Status
status_at id m = status_of (lookup id m)

-- The diagram of the status of one client; `none` is no connection.
pub data Move : Option Status → Option Status → Type 0 where
  stays : (o : Option Status) → Move o o
  leaves : (o : Option Status) → Move o (some Status.not_in_game)
  enters : (a : Status) → a ≢ Status.connected → Move (some a) (some Status.connected)
  fails : Move (some Status.connected) (some Status.disconnected)
  recovers : Move (some Status.disconnected) (some Status.reconnected)

-- The moves of `monitorConnections`.
pub data Recovery : Option Status → Option Status → Type 0 where
  not_lost : (o : Option Status) → Recovery o o
  comes_back : Recovery (some Status.disconnected) (some Status.reconnected)

pub Recovery-Move : (a b : Option Status) → Recovery a b → Move a b
Recovery-Move _ _ (not_lost o) = stays o
Recovery-Move _ _ comes_back = recovers

-- A lost client that is found lost again has not come back in between.
pub Recovery-again :
    (a b : Option Status)
    → Recovery a b
    → b ≡ some Status.disconnected
    → Recovery a (some Status.reconnected)
Recovery-again _ _ (not_lost o) e =
    subst (λ x. Recovery x (some Status.reconnected)) (sym e) comes_back
Recovery-again _ _ comes_back e = cc e

Move-none : (a b : Option Status) → Move a b → b ≡ none → a ≡ none
Move-none _ _ (stays o) e = e
Move-none _ _ (leaves o) e = cc e
Move-none _ _ (enters a h) e = cc e
Move-none _ _ fails e = cc e
Move-none _ _ recovers e = cc e

no_status : (id : ℕ) (m : Map ℕ Connection) → status_at id m ≡ none → contains id m ≡ false
unfolding contains
no_status id m e = elim (Option-cases (lookup id m)) [
  | inl gone ↦ rw (gone, contains) refl
  | inr (c, there) ↦ cc (ap status_of there, e)
]

without : (id : ℕ) (m : Map ℕ Connection) → contains id m ≡ false → status_at id m ≡ none
unfolding contains
without id m e = elim (Option-cases (lookup id m)) [
  | inl gone ↦ ap status_of gone
  | inr (c, there) ↦ cc (rw (there, contains) at e)
]

-- No move takes a client away.
pub Move-contains :
    (id : ℕ) (m m' : Map ℕ Connection)
    → Move (status_at id m) (status_at id m')
    → contains id m ≡ true
    → contains id m' ≡ true
Move-contains id m m' move h = elim (Bool-cases (contains id m')) [
  | inl there ↦ there
  | inr gone ↦
      cc
        (no_status id m (Move-none (status_at id m) (status_at id m') move (without id m' gone)), h)
]

-- The tables `t` have become those of `s`: the locks held are `l`, the status of each client has
-- moved along `R`, and no name is forgotten.
pub record Kept (R : Option Status → Option Status → Type 0) (l : Locks) (t : Tables) (s : Server)
    : Type 0 where
  pub held : s.locks ≡ l
  pub moves : (id : ℕ) → R (status_at id t.connections) (status_at id s.tables.connections)
  pub names :
      (n : String) → contains n t.display_names ≡ true → contains n s.tables.display_names ≡ true

pub status_there :
    (R : Option Status → Option Status → Type 0) (id : ℕ) (m : Map ℕ Connection) (c : Connection)
    (o : Option Status)
    → lookup id m ≡ some c
    → R (some c.status) o
    → R (status_at id m) o
status_there R id m c o e h = subst (λ x. R (status_of x) o) (sym e) h

-- One connection is written, along `R`.
pub moves_put :
    (R : Option Status → Option Status → Type 0) (m m' : Map ℕ Connection) (id : ℕ) (c : Connection)
    → ((j : ℕ) → R (status_at j m) (status_at j m'))
    → R (status_at id m) (some c.status)
    → (j : ℕ) → R (status_at j m) (status_at j (insert id c m'))
moves_put R m m' id c all one j = elim (Bool-cases (id == j)) [
  | inl same ↦
      let here : lookup j (insert id c m') ≡ some c =
        (ground (arith, lookup-insert j id c m', same)) in
      let e : id ≡ j = (ground (arith, same)) in
      subst (λ o. R (status_at j m) (status_of o)) (sym here)
        (subst (λ k. R (status_at k m) (some c.status)) e one)
  | inr other ↦
      let there : lookup j (insert id c m') ≡ lookup j m' =
        (ground (arith, lookup-insert j id c m', other)) in
      subst (λ o. R (status_at j m) (status_of o)) (sym there) (all j)
]

pub name_after :
    (n k : String) (m : Map String Bool) → contains n m ≡ true → contains n (insert k true m) ≡ true
unfolding contains
name_after n k m h = ground (arith, lookup-insert n k true m)

-- A handler that finds the locks free writes one connection.
pub one_put :
    (t : Tables) (id : ℕ) (c : Connection)
    → Move (status_at id t.connections) (some c.status)
    → (j : ℕ) → Move (status_at j t.connections) (status_at j (insert id c t.connections))
one_put t id c move =
    moves_put Move t.connections t.connections id c (λ j. stays (status_at j t.connections)) move

abbrev pub Same : Option Status → Option Status → Type 0
Same a b = a ≡ b

pub weaken :
    (R S : Option Status → Option Status → Type 0) (l : Locks) (t : Tables) (s : Server)
    → ((a b : Option Status) → R a b → S a b)
    → Kept R l t s
    → Kept S l t s
weaken R S l t s f k = record { held = k.held; moves = λ id. f _ _ (k.moves id); names = k.names }

pub Same-Move : (a b : Option Status) → Same a b → Move a b
Same-Move a b e = subst (Move a) e (stays a)
