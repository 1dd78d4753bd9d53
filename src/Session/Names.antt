-- ===== src/Session/Names.antt =====
-- A display name that is lost: the server never forgets a name.
use cs416_tanks.Base.{
  ℕ, true, false, ◌≡◌, refl, sym, ap, subst, ◌∙◌, Map, contains, contains-insert, none, nat_eq,
  string_eq, arith,
}
use cs416_tanks.Client.Store.{Client}
use cs416_tanks.Server.State.{Tables, Server, idle}
use cs416_tanks.Server.Monad.{Delivery, done, delivered, request_lost, reply_lost, bind-done}
use cs416_tanks.Server.Registry.{register}
use cs416_tanks.Server.Registry.Runs.{Run, run_lem}
use cs416_tanks.Server.Stubs.{ask, do_api_call, stub_register}
use cs416_tanks.Session.{Launch, get_id, enter_as, start_session}
use cs416_tanks.Session.Starts.{after_register}

-- `Register` of a known name, whatever becomes of the call.
known_name :
    (d : Delivery) (l : Launch) (t : Tables) (r : Map ℕ Client)
    → l.registering ≡ d
    → contains l.display_name t.display_names ≡ true
    → get_id l none (idle t r) ≡ done none (idle t r)
unfolding get_id ask stub_register do_api_call register
known_name delivered l t r d e = ground (arith, d, e)
known_name request_lost l t r d e = ground (arith, d, e)
known_name reply_lost l t r d e = ground (arith, d, e)

-- `Register` of a new name, when the reply does not come.
lost_reply :
    (l : Launch) (t : Tables) (r : Map ℕ Client)
    → l.registering ≡ reply_lost
    → contains l.display_name t.display_names ≡ false
    → get_id l none (idle t r) ≡ done none (idle (after_register l t) r)
unfolding get_id ask stub_register do_api_call register
lost_reply l t r d e = ground (arith, d, e)

-- If the reply to `Register` of a new name is lost, the client ends without a file and the server
-- keeps the name. Whatever requests the server then serves, every later start under that name
-- without a file ends too, whatever becomes of its calls, and leaves the server as it was.
pub name_lost :
    (l l' : Launch) (t : Tables) (r : Map ℕ Client) (s : Server)
    → l.registering ≡ reply_lost
    → contains l.display_name t.display_names ≡ false
    → l'.display_name ≡ l.display_name
    → Run (after_register l t) r s
    → (start_session l none (idle t r) ≡ done none (idle (after_register l t) r))
      × (start_session l' none s ≡ done none s)
unfolding start_session
name_lost l l' t r s d new same run =
    let grown = (run_lem (after_register l t) r s run).0 in
    let there : contains l'.display_name s.tables.display_names ≡ true =
      (ap (λ n. contains n s.tables.display_names) same
        ∙ grown.names l.display_name (contains-insert l.display_name true t.display_names)) in
    let free : idle s.tables s.remotes ≡ s =
      (ap (λ k. record s { locks = k }) (sym grown.released)) in
    (
      bind-done (get_id l none) (enter_as l) (idle t r) (idle (after_register l t) r) none
          (lost_reply l t r d new),
      subst (λ v. start_session l' none v ≡ done none v) free
          (bind-done (get_id l' none) (enter_as l') (idle s.tables s.remotes)
            (idle s.tables s.remotes) none
            (known_name l'.registering l' s.tables s.remotes refl there)),
    )
