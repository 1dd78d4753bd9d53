-- ===== src/Server/Kv/Holders.antt =====
-- The table of the holders of a key, and the lists of clients that `KVPut` makes.
use cs416_tanks.Base.{
  ℕ, true, not, ◌&&◌, ◌≡◌, ◌≢◌, refl, ◌↔◌, ◌⊎◌, inl, inr, List, [], ◌∷◌, ◌++◌, Map, lookup, insert,
  lookup-insert, nat_eq, if◌then◌else◌, Option, none, some, arith, In, In-append, In-append_left,
  In-append_right, AllDistinct, Bool-cases, Option-cases,
}
use cs416_tanks.Server.State.{Connection, is_connected, is_online}
use cs416_tanks.Server.Kv.{holders, has_id, add_holder, keep_online, candidates, latest_online}

pub has_id-In : (k : ℕ) (ids : List ℕ) → has_id k ids ≡ true → In k ids
unfolding has_id
has_id-In k [] h = cc
has_id-In k (id ∷ ids) h = ground (arith, has_id-In k ids)

pub In-has_id : (k : ℕ) (ids : List ℕ) → In k ids → has_id k ids ≡ true
unfolding has_id
In-has_id k [] h = absurd h
In-has_id k (id ∷ ids) (inl e) = ground arith
In-has_id k (id ∷ ids) (inr h) = ground (arith, In-has_id k ids h)

holders-insert_self :
    (key : ℕ) (ids : List ℕ) (m : Map ℕ (List ℕ)) → holders key (insert key ids m) ≡ ids
unfolding holders
holders-insert_self key ids m = ground (arith, lookup-insert key key ids m)

-- The holders of the key afterwards: those before, and the new one.
pub holders-add_holder :
    (key id j : ℕ) (m : Map ℕ (List ℕ))
    → In j (holders key (add_holder key id m)) ↔ (In j (holders key m) ⊎ (j ≡ id))
unfolding add_holder
holders-add_holder key id j m = elim (Bool-cases (has_id id (holders key m))) [
  | inl old ↦
      rw (old, add_holder) (λ h. inl h, elim [ inl h ↦ h | inr e ↦ rw e (has_id-In id _ old) ])
  | inr new ↦
      rw (new, add_holder, holders-insert_self)
        (
          λ h. elim (In-append j (holders key m) (id ∷ []) h) [
            | inl old ↦ inl old
            | inr (inl e) ↦ inr e
            | inr (inr none') ↦ absurd none'
          ],
          elim [
            | inl h ↦ In-append_left j (holders key m) (id ∷ []) h
            | inr e ↦ In-append_right j (holders key m) (id ∷ []) (inl e)
          ],
        )
]

-- The other keys keep their holders.
pub holders-add_holder_ne :
    (key id k : ℕ) (m : Map ℕ (List ℕ)) → key ≢ k → holders k (add_holder key id m) ≡ holders k m
unfolding add_holder holders
holders-add_holder_ne key id k m ne =
    ground (arith, lookup-insert k key (holders key m ++ id ∷ []) m)

-- The result of `keep_online` on holders that are all connections: those that are online.
abbrev pub Keeps : Map ℕ Connection → List ℕ → List ℕ → Type 0
Keeps m ids kept = (j : ℕ) → In j kept ↔ (In j ids × (is_online m j ≡ true))

Keeps-cons :
    (m : Map ℕ Connection) (id : ℕ) (ids kept : List ℕ) (c : Connection)
    → lookup id m ≡ some c
    → Keeps m ids kept
    → Keeps m (id ∷ ids) (if is_connected c then id ∷ kept else kept)
unfolding is_online
Keeps-cons m id ids kept c e h j = (λ k. ground (arith, (h j).0), λ k. ground (arith, (h j).1))

-- `keep_online` keeps the ids that are online, if every id has a connection.
pub keep_online_total :
    (m : Map ℕ Connection) (ids : List ℕ)
    → ((id : ℕ) → In id ids → lookup id m ≢ none)
    → (kept : List ℕ) × (keep_online m ids ≡ some kept) × Keeps m ids kept
unfolding keep_online
keep_online_total m [] known = ([], refl, λ j. (λ h. absurd h, λ h. absurd h.0))
keep_online_total m (id ∷ ids) known =
    let (kept, e, h) = keep_online_total m ids (λ j v. known j (inr v)) in
    elim (Option-cases (lookup id m)) [
      | inl missing ↦ absurd (known id (inl refl) missing)
      | inr (c, listed) ↦ (
        if is_connected c then id ∷ kept else kept,
        ground (arith, e),
        Keeps-cons m id ids kept c listed h,
      )
    ]

-- The candidates: the clients visited that are online and not chosen yet.
pub In-candidates :
    (m : Map ℕ Connection) (clients order : List ℕ) (j : ℕ)
    → In j (candidates m clients order)
    → In j order × (is_online m j ≡ true)
unfolding candidates
In-candidates m clients [] j h = absurd h
In-candidates m clients (id ∷ order) j h =
    elim (Bool-cases (is_online m id && not (has_id id clients))) [
      | inl new ↦ ground (arith, In-candidates m clients order j)
      | inr old ↦ ground (arith, In-candidates m clients order j)
    ]

pub candidates-In :
    (m : Map ℕ Connection) (clients order : List ℕ) (j : ℕ)
    → In j order
    → is_online m j ≡ true
    → (In j clients) ⊎ In j (candidates m clients order)
unfolding candidates
candidates-In m clients [] j v online = absurd v
candidates-In m clients (id ∷ order) j (inl e) online = elim (Bool-cases (has_id id clients)) [
  | inl old ↦ inl (ground (arith, has_id-In id clients old))
  | inr new ↦ inr (ground arith)
]
candidates-In m clients (id ∷ order) j (inr v) online =
    ground (arith, candidates-In m clients order j v online)

pub not-In-candidates :
    (m : Map ℕ Connection) (clients order : List ℕ) (j : ℕ)
    → In j clients
    → ¬ In j (candidates m clients order)
unfolding candidates
not-In-candidates m clients [] j v = λ h. h
not-In-candidates m clients (id ∷ order) j v =
    λ h. ground (arith, In-has_id j clients v, not-In-candidates m clients order j v)

pub candidates-AllDistinct :
    (m : Map ℕ Connection) (clients order : List ℕ)
    → AllDistinct order
    → AllDistinct (candidates m clients order)
unfolding candidates
candidates-AllDistinct m clients [] h = tt
candidates-AllDistinct m clients (id ∷ order) h =
    ground (arith, candidates-AllDistinct m clients order h.1, not_again)
  where
    not_again : ¬ In id (candidates m clients order)
    not_again v = h.0 (In-candidates m clients order id v).0

-- `KVGet` takes a holder that is online, if there is one.
pub latest_online-In :
    (m : Map ℕ Connection) (ids : List ℕ) (found : Option ℕ) (id : ℕ)
    → latest_online m ids found ≡ some id
    → (In id ids × (is_online m id ≡ true)) ⊎ (found ≡ some id)
unfolding latest_online
latest_online-In m [] found id h = inr h
latest_online-In m (j ∷ ids) found id h =
    ground (arith, latest_online-In m ids (if is_online m j then some j else found) id h)

latest_online-keeps :
    (m : Map ℕ Connection) (ids : List ℕ) (found : Option ℕ)
    → found ≢ none
    → latest_online m ids found ≢ none
unfolding latest_online
latest_online-keeps m [] found h = h
latest_online-keeps m (j ∷ ids) found h =
    latest_online-keeps m ids (if is_online m j then some j else found) (ground arith)

pub latest_online-ne-none :
    (m : Map ℕ Connection) (ids : List ℕ) (found : Option ℕ) (id : ℕ)
    → In id ids
    → is_online m id ≡ true
    → latest_online m ids found ≢ none
unfolding latest_online
latest_online-ne-none m [] found id v online = absurd v
latest_online-ne-none m (j ∷ ids) found id (inl e) online =
    latest_online-keeps m ids (if is_online m j then some j else found) (ground arith)
latest_online-ne-none m (j ∷ ids) found id (inr v) online =
    latest_online-ne-none m ids (if is_online m j then some j else found) id v online

keep_online-In :
    (m : Map ℕ Connection) (ids kept : List ℕ)
    → keep_online m ids ≡ some kept
    → (j : ℕ) → In j kept
    → In j ids
unfolding keep_online
keep_online-In m [] kept e j v = ground arith
keep_online-In m (id ∷ ids) kept e j v = elim (Option-cases (keep_online m ids)) [
  | inl none' ↦ ground arith
  | inr (l, some') ↦ ground (arith, keep_online-In m ids l some' j)
]

-- Nor does the loop that keeps the online holders repeat one.
pub keep_online-AllDistinct :
    (m : Map ℕ Connection) (ids kept : List ℕ)
    → keep_online m ids ≡ some kept
    → AllDistinct ids
    → AllDistinct kept
unfolding keep_online
keep_online-AllDistinct m [] kept e h = ground arith
keep_online-AllDistinct m (id ∷ ids) kept e h =
    by_rest (keep_online-AllDistinct m ids) (Option-cases (keep_online m ids))
  where
    by_rest :
        ((l : List ℕ) → keep_online m ids ≡ some l → AllDistinct ids → AllDistinct l)
        → (keep_online m ids ≡ none) ⊎ ((l : List ℕ) × (keep_online m ids ≡ some l))
        → AllDistinct kept
    by_rest ih (inl none') = ground arith
    by_rest ih (inr (l, some')) =
        ground (arith, ih l some' h.1, λ (v : In id l). h.0 (keep_online-In m ids l some' id v))
