-- ===== src/Server/Registry/Actions.antt =====
-- Actions that keep the tables as a handler may leave them, composed.
use cs416_tanks.Base.{ℕ, true, ◌≡◌, refl, lookup, Option, none, some, nat_eq}
use cs416_tanks.Client.Store.{Client}
use cs416_tanks.Server.State.{Status, status_eq, Tables, Locks, Server, unlocked}
use cs416_tanks.Server.Monad.{
  Action, IfReturns, IfReturns-bind, Crash, Delivery, delivered, request_lost, reply_lost, call,
  ◌>>=◌, or_crash,
}
use cs416_tanks.Server.Registry.Diagram.{Kept}

abbrev pub connections_locked : Locks
connections_locked = record unlocked { connections_held = true }

abbrev pub both_locked : Locks
both_locked = record connections_locked { key_to_clients_held = true }

-- A test of an option changes nothing.
pub or_crash-IfReturns :
    {A : Type 0} (P : Server → Type 0) (c : Crash) (o : Option A) (s : Server)
    → P s
    → IfReturns (λ _ s'. P s') (or_crash c o s)
or_crash-IfReturns P c none s p = tt
or_crash-IfReturns P c (some a) s p = p

-- An action that keeps `Kept`, from any state that has it.
module _ (R : Option Status → Option Status → Type 0) (l : Locks) (t : Tables) where
  abbrev pub Keeps : {A : Type 0} → Action A → Type 0
  Keeps m = (s : Server) → Kept R l t s → IfReturns (λ _ s'. Kept R l t s') (m s)

  pub bind-Keeps :
      {A B : Type 0} (m : Action A) (f : A → Action B)
      → Keeps m
      → ((a : A) → Keeps (f a))
      → Keeps (m >>= f)
  bind-Keeps m f h k s g =
      IfReturns-bind (λ _ s'. Kept R l t s') (λ _ s'. Kept R l t s') m f s (h s g)
        (λ a s' g'. k a s' g')

  pub or_crash-Keeps : {A : Type 0} (c : Crash) (o : Option A) → Keeps (or_crash c o)
  or_crash-Keeps c o s g = or_crash-IfReturns (λ s'. Kept R l t s') c o s g

  -- A call changes the clients alone.
  called :
      {A : Type 0} (d : Delivery) (h : ℕ) (f : Client → A × Client) (o : Option Client) (s : Server)
      → lookup h s.remotes ≡ o
      → Kept R l t s
      → IfReturns (λ _ s'. Kept R l t s') (call d h f s)
  called d h f none s e g = rw (e, call) g
  called delivered h f (some c) s e g =
      rw (e, call) (record { held = g.held; moves = g.moves; names = g.names })
  called request_lost h f (some c) s e g = rw (e, call) g
  called reply_lost h f (some c) s e g =
      rw (e, call) (record { held = g.held; moves = g.moves; names = g.names })

  pub call-Keeps :
      {A : Type 0} (d : Delivery) (h : ℕ) (f : Client → A × Client) → Keeps (call d h f)
  call-Keeps d h f s g = called d h f (lookup h s.remotes) s refl g
