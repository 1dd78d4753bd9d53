-- ===== src/Server/Sync/Apart.antt =====
-- What a round of `syncClocks` leaves between the clock of a client and that of the server.
use cs416_tanks.Base.{
  ℕ, true, false, ◌⊎◌, ◌↔◌, inl, inr, List, In, AllDistinct, Bool-cases, ◌≡◌, refl, sym, ap, ◌∙◌,
  ◌<◌, ◌^◌, [], ◌∷◌, Map, lookup, some, nat_eq, arith,
}
use cs416_tanks.Base.Int.{ℤ, pos, ◌+ℤ◌, ◌-ℤ◌}
use cs416_tanks.Clock.{Time, ClockManager, minus, set_offset, get_offset, get_current_time}
use cs416_tanks.Client.Store.{Client}
use cs416_tanks.Server.State.{Connection, Tables, Server, idle}
use cs416_tanks.Server.Monad.{Returns, done}
use cs416_tanks.Server.Sync.{Reading, Totals, client_offset, is_empty, sync_clocks}
use cs416_tanks.Server.Sync.Rounds.{Ready, Skipped, measured}
use cs416_tanks.Server.Sync.Adjust.{adjusted, OwnHandles}
use cs416_tanks.Server.Sync.Run.{average_of, Synced, sync_clocks_lem}
use cs416_tanks.Server.Sync.Offsets.{
  IsSmall, client_offset_lem, quot-IsHalf, adjusted_exact, moved, apart_by,
}

has_client :
    (id : ℕ) (m : Map ℕ Connection) (c : Connection) → lookup id m ≡ some c → is_empty m ≡ false
unfolding lookup
has_client id [] c e = absurd (cc e)
has_client id (x ∷ m) c e = refl

-- The exchange with a client whose clock is `skew` ahead of the server's, begun at the server's
-- reading `x`, where the request and the answer take `l` each.
pub record Exchange (reading : Reading) (x skew : ℤ) (l : ℕ) : Type 0 where
  pub sent_at : reading.before ≡ x
  pub served_at : reading.remote ≡ x +ℤ pos l +ℤ skew
  pub answered_at : reading.after ≡ x +ℤ pos l +ℤ pos l

-- At any time from then on, the client's clock differs from the server's by the given duration.
abbrev pub IsBehind : ℤ → ℕ → ℤ → Server → Type 0
IsBehind skew h d s =
    (cl : Client) × (lookup h s.remotes ≡ some cl)
    × ((now : Time)
        → get_current_time cl.clock (now +ℤ skew) ≡ get_current_time s.tables.clock now -ℤ d)

sync_clocks_empty :
    (readings : ℕ → Reading) (ids ids' : List ℕ) (t : Tables) (r : Map ℕ Client)
    → is_empty t.connections ≡ true
    → sync_clocks readings ids ids' (idle t r) ≡ done tt (idle t r)
unfolding sync_clocks
sync_clocks_empty readings ids ids' t r e = rw (e, sync_clocks) refl

module _ (readings : ℕ → Reading) (h : ℕ → ℕ) (cl : ℕ → Client) (skew : ℕ → ℤ) where
  -- A client that is CONNECTED and answers in time, its skew, its offset and the delay below 2 ^ 60.
  pub record Party (s : Server) (id : ℕ) : Type 0 where
    pub ready : Ready readings h cl s id
    pub x : ℤ
    pub l : ℕ
    pub exchange : Exchange (readings (h id)) x (skew id) l
    pub small_skew : IsSmall (skew id)
    pub small_offset : IsSmall (cl id).clock.offset
    pub short : l < 2 ^ 60

  measured_exact :
      (b : ClockManager) (s : Server) (id : ℕ)
      → Party s id
      → IsSmall b.offset
      → measured readings h cl b id ≡ skew id +ℤ (cl id).clock.offset -ℤ b.offset
  unfolding get_current_time get_offset
  measured_exact b s id p hb =
      (λ i.
        client_offset (p.exchange.sent_at i +ℤ b.offset)
          (p.exchange.served_at i +ℤ (cl id).clock.offset) (p.exchange.answered_at i +ℤ b.offset))
      ∙ client_offset_lem p.x (skew id) (cl id).clock.offset b.offset p.l p.small_skew
          p.small_offset hb p.short

  Synced-IsBehind :
      (ids : List ℕ) (t : Tables) (r : Map ℕ Client) (a : Totals) (s : Server)
      → Synced readings h cl ids t r a s
      → IsSmall t.clock.offset
      → (j : ℕ) → In j ids
      → Party (idle t r) j
      → IsBehind (skew j) (h j) (cl j).clock.offset s
  unfolding get_current_time get_offset set_offset
  Synced-IsBehind ids t r a s synced hb j w p =
      let b = t.clock.offset in
      let (two, found, set) = synced.visited j w p.ready in
      let average = average_of a in
      let half = quot-IsHalf a.total a.num two (synced.fits (omega arith)) in
      let given =
        ap (minus average) (found ∙ measured_exact t.clock (idle t r) j p hb)
        ∙ adjusted_exact average (skew j) (cl j).clock.offset b half p.small_skew p.small_offset
            hb in
      (
        adjusted readings h cl average a.measured j,
        set,
        λ now.
            ap (λ o. (now +ℤ skew j) +ℤ o) given
            ∙ apart_by now average (skew j) (cl j).clock.offset b
            ∙ ap (λ o. (now +ℤ o) -ℤ (cl j).clock.offset) (sym (moved average b half hb))
            ∙ ap (λ k. get_current_time k now -ℤ (cl j).clock.offset) (sym synced.clock),
      )

  Party-or :
      (s : Server) (j : ℕ)
      → Party s j ⊎ Skipped readings h cl s j
      → Ready readings h cl s j ⊎ Skipped readings h cl s j
  Party-or s j (inl p) = inl p.ready
  Party-or s j (inr skip) = inr skip

  -- A round of `syncClocks`, whose loops visit the same clients, each once, in any order, ends, and
  -- leaves the clock of every client that is CONNECTED behind the server's by just the offset that
  -- the client had before the round. The calls of each come through with the same delay both ways,
  -- its skew, its offset, the server's offset and the delay are below 2 ^ 60, and no two share a
  -- TCP connection; the clients visited that are not CONNECTED are passed over.
  pub sync_apart :
      (ids ids' : List ℕ) (t : Tables) (r : Map ℕ Client)
      → AllDistinct ids
      → AllDistinct ids'
      → ((j : ℕ) → In j ids ↔ In j ids')
      → OwnHandles h ids
      → ((j : ℕ) → In j ids → Party (idle t r) j ⊎ Skipped readings h cl (idle t r) j)
      → IsSmall t.clock.offset
      → Returns
          (λ _ s.
            (j : ℕ) → In j ids → Party (idle t r) j → IsBehind (skew j) (h j) (cl j).clock.offset s)
          (sync_clocks readings ids ids' (idle t r))
  sync_apart ids ids' t r distinct distinct' same own all hb =
      elim (Bool-cases (is_empty t.connections)) [
        | inr some_client ↦
            let (a, s, run, synced) =
              sync_clocks_lem readings h cl ids ids' t r distinct distinct' same own
                (λ j w. Party-or (idle t r) j (all j w)) some_client in
            rw run (Synced-IsBehind ids t r a s synced hb)
        | inl no_client ↦ rw (sync_clocks_empty readings ids ids' t r no_client) (λ j w p.
            absurd (cc (has_client j t.connections p.ready.conn p.ready.listed, no_client)))
      ]
