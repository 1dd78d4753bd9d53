-- ===== src/Server/Monad.antt =====
-- A handler as an action on the server: it ends, it takes the process down, or it waits for a lock
-- that is held.
use cs416_tanks.Base.{
  ◌≡◌, ap, ℕ, Bool, true, false, lookup, insert, nat_eq, Option, none, some, if◌then◌else◌,
}
use cs416_tanks.Client.Store.{Client}
use cs416_tanks.Server.State.{Tables, Locks, Server}

pub data Crash : Type 0 where
  unlock_of_unlocked nil_dereference log_fatal : Crash

pub data Outcome (A : Type 0) : Type 0 where
  done : A → Server → Outcome A
  crash : Crash → Outcome A
  blocked : Outcome A

abbrev pub Action : Type 0 → Type 0
Action A = Server → Outcome A

abbrev pub pure : {A : Type 0} → A → Action A
pure a s = done a s

infixl 5 ◌>>=◌ ◌>>◌
abbrev pub ◌>>=◌ : {A B : Type 0} → Action A → (A → Action B) → Action B
◌>>=◌ m f s = elim (m s) [ done a s' ↦ f a s' | crash c ↦ crash c | blocked ↦ blocked ]

abbrev pub ◌>>◌ : {A B : Type 0} → Action A → Action B → Action B
m >> k = m >>= λ _. k

-- `log.Fatal`, a nil pointer, an unlock of an unlocked mutex: the process ends, deferred calls too.
abbrev pub fail : {A : Type 0} → Crash → Action A
fail c s = crash c

abbrev pub or_crash : {A : Type 0} → Crash → Option A → Action A
or_crash c none = fail c
or_crash c (some a) = pure a

abbrev pub deref : {A : Type 0} → Option A → Action A
deref = or_crash nil_dereference

abbrev pub get_tables : Action Tables
get_tables s = done s.tables s

abbrev pub put_tables : Tables → Action (Unit {0})
put_tables t s = done tt (record s { tables = t })

pub data Mutex : Type 0 where
  connections_lock display_names_lock key_to_clients_lock : Mutex

abbrev pub is_held : Mutex → Locks → Bool
is_held connections_lock l = l.connections_held
is_held display_names_lock l = l.display_names_held
is_held key_to_clients_lock l = l.key_to_clients_held

abbrev pub set_held : Mutex → Bool → Locks → Locks
set_held connections_lock b l = record l { connections_held = b }
set_held display_names_lock b l = record l { display_names_held = b }
set_held key_to_clients_lock b l = record l { key_to_clients_held = b }

abbrev pub lock : Mutex → Action (Unit {0})
lock x s =
    if is_held x s.locks then blocked else done tt (record s { locks = set_held x true s.locks })

abbrev pub unlock : Mutex → Action (Unit {0})
unlock x s =
    if is_held x s.locks
    then done tt (record s { locks = set_held x false s.locks })
    else crash unlock_of_unlocked

-- What becomes of one remote call: it gets through and back, the request is lost, or the reply is
-- (a timeout of `doApiCall`, or an error on the connection).
pub data Delivery : Type 0 where
  delivered request_lost reply_lost : Delivery

abbrev run_remote : {A : Type 0} → Delivery → ℕ → A × Client → Action (Option A)
run_remote delivered h r s = done (some r.0) (record s { remotes = insert h r.1 s.remotes })
run_remote request_lost h r s = done none s
run_remote reply_lost h r s = done none (record s { remotes = insert h r.1 s.remotes })

-- `doApiCall` on the connection `h`; `none` is an error.
abbrev pub call : {A : Type 0} → Delivery → ℕ → (Client → A × Client) → Action (Option A)
call d h f s = elim (lookup h s.remotes) [ none ↦ done none s | some c ↦ run_remote d h (f c) s ]

-- The handler ends, and the answer and the state that it leaves satisfy `P`.
abbrev pub Returns : {A : Type 0} → (A → Server → Type 0) → Outcome A → Type 0
Returns P (done a s) = P a s
Returns P (crash c) = ⊥
Returns P blocked = ⊥

-- An action after one that ends.
pub bind-done :
    {A B : Type 0} (m : Action A) (f : A → Action B) (s s' : Server) (a : A)
    → m s ≡ done a s'
    → (m >>= f) s ≡ f a s'
bind-done m f s s' a e =
    ap (λ o. elim o [ done b s'' ↦ f b s'' | crash c ↦ crash c | blocked ↦ blocked ]) e

-- Nothing runs after a crash.
pub bind-crash :
    {A B : Type 0} (m : Action A) (f : A → Action B) (s : Server) (c : Crash)
    → m s ≡ crash c
    → (m >>= f) s ≡ crash c
bind-crash m f s c e =
    ap (λ o. elim o [ done b s' ↦ f b s' | crash d ↦ crash d | blocked ↦ blocked ]) e

-- The rule for one action after another.
pub Returns-bind :
    {A B : Type 0} (P : A → Server → Type 0) (Q : B → Server → Type 0) (m : Action A)
    (f : A → Action B) (s : Server)
    → Returns P (m s)
    → ((a : A) (s' : Server) → P a s' → Returns Q (f a s'))
    → Returns Q ((m >>= f) s)
Returns-bind {A} P Q m f s h k = by_outcome (m s) h
  where
    by_outcome :
        (o : Outcome A)
        → Returns P o
        → Returns Q (elim o [ done a s' ↦ f a s' | crash c ↦ crash c | blocked ↦ blocked ])
    by_outcome (done a s') p = k a s' p
    by_outcome (crash c) p = absurd p
    by_outcome blocked p = absurd p

-- The same where the process may also come down; a wait for a lock is excluded.
abbrev pub IfReturns : {A : Type 0} → (A → Server → Type 0) → Outcome A → Type 0
IfReturns P (done a s) = P a s
IfReturns P (crash c) = Unit
IfReturns P blocked = ⊥

pub IfReturns-bind :
    {A B : Type 0} (P : A → Server → Type 0) (Q : B → Server → Type 0) (m : Action A)
    (f : A → Action B) (s : Server)
    → IfReturns P (m s)
    → ((a : A) (s' : Server) → P a s' → IfReturns Q (f a s'))
    → IfReturns Q ((m >>= f) s)
IfReturns-bind {A} P Q m f s h k = by_outcome (m s) h
  where
    by_outcome :
        (o : Outcome A)
        → IfReturns P o
        → IfReturns Q (elim o [ done a s' ↦ f a s' | crash c ↦ crash c | blocked ↦ blocked ])
    by_outcome (done a s') p = k a s' p
    by_outcome (crash c) p = tt
    by_outcome blocked p = absurd p
