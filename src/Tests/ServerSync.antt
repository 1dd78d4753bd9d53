-- ===== src/Tests/ServerSync.antt =====
-- A second synchronisation of clocks that agree.
use cs416_tanks.Base.{
  ℕ, refl, sym, subst, true, inl, inr, ◌⊎◌, ◌↔◌, List, [], ◌∷◌, Map, lookup, none, some, nat_eq,
  ◌==◌, arith, In, AllDistinct, if◌then◌else◌,
}
use cs416_tanks.Base.Int.{ℤ, pos, negsuc, ◌+ℤ◌}
use cs416_tanks.Client.Store.{Client}
use cs416_tanks.Server.State.{Status, Connection, Tables, idle, initial, zero_peer}
use cs416_tanks.Server.Monad.{delivered, Returns}
use cs416_tanks.Server.Sync.{Reading, sync_clocks}
use cs416_tanks.Server.Sync.Rounds.{Skipped}
use cs416_tanks.Server.Sync.Adjust.{OwnHandles}
use cs416_tanks.Server.Sync.Apart.{IsBehind, Party, sync_apart}

abbrev ahead : Client
ahead = record { kv_map = []; disk = []; writable = true; clock = record { offset = negsuc 4 } }

abbrev exact : Client
exact = record ahead { clock = record { offset = pos 0 } }

abbrev connected_to : ℕ → Connection
connected_to h = record {
  status = Status.connected;
  display_name = "ann";
  address = "10.0.0.1:6666";
  rpc_client = some h;
  rpc_address = "10.0.0.1:6671";
  client = none;
  offset = pos 0;
  partner = zero_peer;
}

-- Clients 7 and 8 play, 9 has left.
abbrev synchronised : Tables
synchronised = record initial {
  connections =
      (7, connected_to 4)
      ∷ (8, connected_to 5)
      ∷ (9, record (connected_to 6) { status = Status.not_in_game })
      ∷ [];
  clock = record { offset = pos 5 };
}

abbrev handles : ℕ → ℕ
handles id = if id == 8 then 5 else if id == 9 then 6 else 4

abbrev clients : ℕ → Client
clients id = if id == 8 then exact else ahead

abbrev skews : ℕ → ℤ
skews id = if id == 8 then pos 20 else pos 10

abbrev readings : ℕ → Reading
readings h =
    if h == 5
    then record {
      before = pos 200;
      remote = pos 222;
      after = pos 204;
      time_call = delivered;
      offset_call = delivered;
    }
    else record {
      before = pos 100;
      remote = pos 113;
      after = pos 106;
      time_call = delivered;
      offset_call = delivered;
    }

abbrev remotes : Map ℕ Client
remotes = (4, ahead) ∷ (5, exact) ∷ []

seven : Party readings handles clients skews (idle synchronised remotes) 7
unfolding lookup ◌+ℤ◌
seven = record {
  ready = record {
    conn = connected_to 4;
    listed = refl;
    on = refl;
    has_handle = refl;
    there = refl;
    asked = refl;
    told = refl;
  };
  x = pos 100;
  l = 3;
  exchange = record { sent_at = refl; served_at = refl; answered_at = refl };
  small_skew = omega arith;
  small_offset = omega arith;
  short = omega arith;
}

eight : Party readings handles clients skews (idle synchronised remotes) 8
unfolding lookup ◌+ℤ◌
eight = record {
  ready = record {
    conn = connected_to 5;
    listed = refl;
    on = refl;
    has_handle = refl;
    there = refl;
    asked = refl;
    told = refl;
  };
  x = pos 200;
  l = 2;
  exchange = record { sent_at = refl; served_at = refl; answered_at = refl };
  small_skew = omega arith;
  small_offset = omega arith;
  short = omega arith;
}

nine : Skipped readings handles clients (idle synchronised remotes) 9
unfolding lookup
nine c e = ground (arith, e)

abbrev order : List ℕ
order = 7 ∷ 9 ∷ 8 ∷ []

-- The order of the second loop.
abbrev order' : List ℕ
order' = 8 ∷ 7 ∷ 9 ∷ []

order-AllDistinct : AllDistinct order
order-AllDistinct = ((λ v. ground arith), ((λ v. ground arith), ((λ v. v), tt)))

order'-AllDistinct : AllDistinct order'
order'-AllDistinct = ((λ v. ground arith), ((λ v. ground arith), ((λ v. v), tt)))

same_clients : (j : ℕ) → In j order ↔ In j order'
same_clients j = ((λ v. ground arith), λ v. ground arith)

parties :
    (j : ℕ)
    → In j order
    → Party readings handles clients skews (idle synchronised remotes) j
      ⊎ Skipped readings handles clients (idle synchronised remotes) j
parties j (inl e) =
    inl (subst (Party readings handles clients skews (idle synchronised remotes)) (sym e) seven)
parties j (inr (inl e)) =
    inr (subst (Skipped readings handles clients (idle synchronised remotes)) (sym e) nine)
parties j (inr (inr (inl e))) =
    inl (subst (Party readings handles clients skews (idle synchronised remotes)) (sym e) eight)
parties j (inr (inr (inr no_more))) = absurd no_more

sync_apart_example :
    Returns
      (λ _ s.
        (j : ℕ)
        → In j order
        → Party readings handles clients skews (idle synchronised remotes) j
        → IsBehind (skews j) (handles j) (clients j).clock.offset s)
      (sync_clocks readings order order' (idle synchronised remotes))
sync_apart_example =
    sync_apart readings handles clients skews order order' synchronised remotes order-AllDistinct
      order'-AllDistinct same_clients own parties (omega arith)
  where
    own : OwnHandles handles order
    own i j u w e = ground arith
