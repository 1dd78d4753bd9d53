-- ===== src/Server/Kv/Choice.antt =====
-- The clients that `KVPut` chooses.
use cs416_tanks.Base.{
  ℕ, ◌-◌, ◌≤◌, true, false, ltb, ◌≡◌, ◌↔◌, ◌⊎◌, inl, inr, List, ◌++◌, Map, arith, In, In-append,
  In-append_left, In-append_right, In-take, length, take, take_all, length-append, length-take,
  AllDistinct, AllDistinct-take, AllDistinct-append, Bool-cases,
}
use cs416_tanks.Server.State.{Connection, is_online}
use cs416_tanks.Server.Kv.{candidates, choose_clients, replication_factor, min}
use cs416_tanks.Server.Kv.Holders.{
  In-candidates, candidates-In, not-In-candidates, candidates-AllDistinct,
}

-- What the code relies on of `rand.Perm`: the candidates come back in another order.
pub record IsShuffle (shuffle : List ℕ → List ℕ) : Type 0 where
  pub members : (xs : List ℕ) (j : ℕ) → In j (shuffle xs) ↔ In j xs
  pub same_length : (xs : List ℕ) → length (shuffle xs) ≡ length xs
  pub distinct : (xs : List ℕ) → AllDistinct xs → AllDistinct (shuffle xs)

module _ (shuffle : List ℕ → List ℕ) (ok : IsShuffle shuffle) (m : Map ℕ Connection)
    (order kept : List ℕ) where
  abbrev room : ℕ
  room = min (replication_factor - length kept) (length (candidates m kept order))

  abbrev extra : List ℕ
  extra = take room (shuffle (candidates m kept order))

  -- The choice keeps the holders.
  pub kept-chosen : (j : ℕ) → In j kept → In j (choose_clients shuffle m order kept)
  unfolding choose_clients
  kept-chosen j v = ground (arith, In-append_left j kept extra v)

  In-extra : (j : ℕ) → In j extra → In j (candidates m kept order)
  In-extra j v = (ok.members (candidates m kept order) j).0 (In-take room j _ v)

  -- Whoever is chosen is a holder or an online client.
  pub chosen-online :
      ((j : ℕ) → In j kept → is_online m j ≡ true)
      → (j : ℕ) → In j (choose_clients shuffle m order kept)
      → is_online m j ≡ true
  unfolding choose_clients
  chosen-online online j v = elim (Bool-cases (ltb (length kept) replication_factor)) [
    | inl few ↦ elim (In-append j kept extra (ground arith)) [
      | inl old ↦ online j old
      | inr new ↦ (In-candidates m kept order j (In-extra j new)).1
    ]
    | inr enough ↦ online j (ground arith)
  ]

  chosen_few :
      ltb (length kept) replication_factor ≡ true
      → choose_clients shuffle m order kept ≡ kept ++ extra
  unfolding choose_clients
  chosen_few few = ground arith

  all-chosen :
      ltb (length kept) replication_factor ≡ true
      → ltb (replication_factor - length kept) (length (candidates m kept order)) ≡ false
      → (j : ℕ) → In j order
      → is_online m j ≡ true
      → In j (choose_clients shuffle m order kept)
  unfolding min
  all-chosen few small j v online =
      rw
        (
          chosen_few few,
          take_all room (shuffle (candidates m kept order))
              (ground (arith, ok.same_length (candidates m kept order))),
        )
        (elim (candidates-In m kept order j v online) [
          | inl old ↦ In-append_left j kept _ old
          | inr new ↦ In-append_right j kept _ ((ok.members (candidates m kept order) j).1 new)
        ])

  -- Three clients are chosen, or all online clients that the loop visits.
  pub chosen_enough :
      (replication_factor ≤ length (choose_clients shuffle m order kept))
      ⊎ ((j : ℕ) → In j order → is_online m j ≡ true → In j (choose_clients shuffle m order kept))
  unfolding choose_clients min
  chosen_enough = elim (Bool-cases (ltb (length kept) replication_factor)) [
    | inl few ↦
        elim (Bool-cases
          (ltb (replication_factor - length kept) (length (candidates m kept order)))) [
            | inr small ↦ inr (all-chosen few small)
            | inl large ↦ inl (
                ground (
                  arith,
                  length-append kept extra,
                  length-take room (shuffle (candidates m kept order)),
                  ok.same_length (candidates m kept order),
                ))
          ]
    | inr enough ↦ inl (ground arith)
  ]

  -- No client is chosen twice.
  pub chosen-AllDistinct :
      AllDistinct kept → AllDistinct order → AllDistinct (choose_clients shuffle m order kept)
  unfolding choose_clients
  chosen-AllDistinct hk ho = ground (
    arith,
    AllDistinct-append kept extra hk
        (AllDistinct-take room _
          (ok.distinct (candidates m kept order) (candidates-AllDistinct m kept order ho)))
        (λ j old new. not-In-candidates m kept order j old (In-extra j new)),
  )
