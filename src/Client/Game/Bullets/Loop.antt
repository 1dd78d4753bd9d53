-- ===== src/Client/Game/Bullets/Loop.antt =====
-- The loop of `doUpdateBullets`: it never reads out of range, and which bullets it moves.
use cs416_tanks.Base.{
  ℕ, zero, suc, ◌+◌, ◌-◌, ◌≤◌, ◌<◌, ◌≡◌, refl, sym, subst, ap, ◌∙◌, ◌⊎◌, inl, inr, List, [], ◌∷◌,
  take, drop, In-take, In-drop, In-drop-suc, length-take, length-drop, get_elem?-drop,
  get_elem?-in_range, length, length-append, get_elem?, Map, lookup, insert, lookup-insert,
  lookup-insert_ne, some, nat_eq, ◌==◌, arith, In, In-append, Bool-cases, Option-cases,
}
use cs416_tanks.Clock.{Time}
use cs416_tanks.Geometry.{Vec, Geometry}
use cs416_tanks.Client.Game.{Player, Bullet, bullet_update}
use cs416_tanks.Client.Game.Bullets.{
  close_gap, Frame, kill_bullet, be_hit, check_bullet, bullet_round, bullet_rounds,
}

module _ {A : Type 0} where
  behind : (n : ℕ) (a x : A) (xs : List A) → 0 < n → In a (drop n (x ∷ xs)) → In a xs
  behind zero a x xs h v = absurd (omega arith)
  behind (suc n) a x xs h v = In-drop n a xs v

  close_gap-In : (i len : ℕ) (xs : List A) (a : A) → In a (close_gap i len xs) → In a xs
  unfolding close_gap
  close_gap-In i len [] a v = v
  close_gap-In zero len (x ∷ xs) a v =
      elim (In-append a (take (len - 1) xs) (drop (len - 1) (x ∷ xs)) v) [
        | inl kept ↦ inr (In-take (len - 1) a xs kept)
        | inr last ↦ In-drop (len - 1) a (x ∷ xs) last
      ]
  close_gap-In (suc i) len (x ∷ xs) a (inl e) = inl e
  close_gap-In (suc i) len (x ∷ xs) a (inr v) = inr (close_gap-In i (len - 1) xs a v)

  -- What stands from `i + 1` on after the gap is closed stood from `i + 1` on before.
  close_gap-part :
      (i len : ℕ) (xs : List A) (a : A)
      → i + 1 < len
      → In a (drop (suc i) (close_gap i len xs))
      → In a (drop (suc i) xs)
  unfolding close_gap
  close_gap-part i len [] a h v = absurd v
  close_gap-part zero len (x ∷ xs) a h v =
      elim (In-append a (take (len - 1) xs) (drop (len - 1) (x ∷ xs))
        (In-drop 1 a (close_gap zero len (x ∷ xs)) v)) [
          | inl kept ↦ In-take (len - 1) a xs kept
          | inr last ↦ behind (len - 1) a x xs (omega arith) last
        ]
  close_gap-part (suc i) len (x ∷ xs) a h v = close_gap-part i (len - 1) xs a (omega arith) v

  length-close_gap :
      (i len : ℕ) (xs : List A)
      → i + 1 < len
      → len ≤ length xs
      → length (close_gap i len xs) ≡ length xs
  unfolding close_gap
  length-close_gap i len [] h le = absurd (omega arith)
  length-close_gap zero len (x ∷ xs) h le = omega (
    arith,
    length-append (take (len - 1) xs) (drop (len - 1) (x ∷ xs)),
    length-take (len - 1) xs (omega arith),
    length-drop (len - 1) (x ∷ xs),
  )
  length-close_gap (suc i) len (x ∷ xs) h le =
      ap suc (length-close_gap i (len - 1) xs (omega arith) (omega arith))

module _ (g : Geometry) (dt : g.F) (lo hi : Vec g.F) (me : Player g) (stamp : ℕ → Time × ℕ) where
  -- The array is as long as it was, the slice no longer, and every pointer leads to a bullet.
  abbrev pub Sound : ℕ → Frame g → Type 0
  Sound n f =
      (length f.cells ≡ n)
      × (f.len ≤ n)
      × ((p : ℕ) → In p f.cells → (b : Bullet g) × (lookup p f.heap ≡ some b))

  check_bullet-cells :
      (now : Time) (nonce i : ℕ) (b : Bullet g) (f : Frame g)
      → let f' = check_bullet g lo hi me now nonce i b f in
        (f'.heap ≡ f.heap)
        × ((f'.cells ≡ f.cells) × ((f'.len ≡ f.len) ⊎ (f'.len ≡ i))
            ⊎ ((f'.cells ≡ close_gap i f.len f.cells) × (f'.len ≡ f.len - 1) × (i + 1 < f.len)))
  unfolding check_bullet kill_bullet be_hit
  check_bullet-cells now nonce i b f = ground arith

  -- A round at an index that is in range, with the pointer it reads and what it does.
  pub record Round (i : ℕ) (f f' : Frame g) : Type 0 where
    pub pointer : ℕ
    pub read : get_elem? f.cells i ≡ some pointer
    pub bullet : Bullet g
    pub found : lookup pointer f.heap ≡ some bullet
    pub result :
        f'
        ≡ check_bullet g lo hi me
            (stamp i).0
            (stamp i).1
            i
            (bullet_update g dt bullet)
            (record f { heap = insert pointer (bullet_update g dt bullet) f.heap })

  pub bullet_round-Round :
      (i : ℕ) (f f' : Frame g) → bullet_round g dt lo hi me stamp i f ≡ some f' → Round i f f'
  unfolding bullet_round
  bullet_round-Round i f f' e = elim (Option-cases (get_elem? f.cells i)) [
    | inl out ↦ absurd (cc (rw (out, bullet_round) at e))
    | inr (p, at) ↦ elim (Option-cases (lookup p f.heap)) [
      | inl lost ↦ absurd (cc (rw lost at (rw (at, bullet_round) at e)))
      | inr (b, found) ↦ record {
        pointer = p;
        read = at;
        bullet = b;
        found = found;
        result = cc (rw found at (rw (at, bullet_round) at e));
      }
    ]
  ]

  cells_after :
      (i : ℕ) (f f' : Frame g) (r : Round i f f')
      → (f'.heap ≡ insert r.pointer (bullet_update g dt r.bullet) f.heap)
        × ((f'.cells ≡ f.cells) × ((f'.len ≡ f.len) ⊎ (f'.len ≡ i))
            ⊎ ((f'.cells ≡ close_gap i f.len f.cells) × (f'.len ≡ f.len - 1) × (i + 1 < f.len)))
  cells_after i f f' r = rw (r.result) (
      check_bullet-cells (stamp i).0 (stamp i).1 i (bullet_update g dt r.bullet)
        (record f { heap = insert r.pointer (bullet_update g dt r.bullet) f.heap }))

  round_runs :
      (n i : ℕ) (f : Frame g)
      → Sound n f
      → i < n
      → (f' : Frame g) × (bullet_round g dt lo hi me stamp i f ≡ some f')
  unfolding bullet_round
  round_runs n i f (long, few, live) h =
      let (p, at) = get_elem?-in_range f.cells i (omega (arith, long)) in
      let (b, found) = live p (In-drop i p f.cells (get_elem?-drop f.cells i p at)) in
      (
        check_bullet g lo hi me (stamp i).0 (stamp i).1 i (bullet_update g dt b)
            (record f { heap = insert p (bullet_update g dt b) f.heap }),
        rw (at, bullet_round) (rw found refl),
      )

  still_live :
      (p q : ℕ) (b : Bullet g) (m : Map ℕ (Bullet g))
      → (c : Bullet g) × (lookup q m ≡ some c)
      → (c : Bullet g) × (lookup q (insert p b m) ≡ some c)
  still_live p q b m (c, e) = elim (Bool-cases (p == q)) [
    | inl same ↦ (b, rw (lookup-insert q p b m) (rw same refl))
    | inr other ↦ (c, rw (lookup-insert q p b m) (rw other e))
  ]

  cells-In : (i : ℕ) (f f' : Frame g) → Round i f f' → (p : ℕ) → In p f'.cells → In p f.cells
  cells-In i f f' r p v = elim ((cells_after i f f' r).1) [
    | inl (same, len) ↦ subst (In p) same v
    | inr (closed, len, in_range) ↦ close_gap-In i f.len f.cells p (subst (In p) closed v)
  ]

  Round-Sound : (n i : ℕ) (f f' : Frame g) → Sound n f → i < n → Round i f f' → Sound n f'
  Round-Sound n i f f' (long, few, live) h r = (
    elim ((cells_after i f f' r).1) [
      | inl (same, len) ↦ ap length same ∙ long
      | inr (closed, len, in_range) ↦
          ap length closed ∙ length-close_gap i f.len f.cells in_range (omega (arith, long)) ∙ long
    ],
    elim ((cells_after i f f' r).1) [
      | inl (same, inl len) ↦ omega (arith, len)
      | inl (same, inr len) ↦ omega (arith, len)
      | inr (closed, len, in_range) ↦ omega (arith, len)
    ],
    λ p v.
        subst (λ (m : Map ℕ (Bullet g)). (c : Bullet g) × (lookup p m ≡ some c))
          (sym (cells_after i f f' r).0)
          (still_live r.pointer p (bullet_update g dt r.bullet) f.heap
            (live p (cells-In i f f' r p v))),
  )

  -- From `i` on, as many rounds as are left.
  pub rounds_run :
      (k n i : ℕ) (f : Frame g)
      → Sound n f
      → i + k ≡ n
      → (f' : Frame g) × (bullet_rounds g dt lo hi me stamp k i f ≡ some f')
        × Sound n f'
        × ((p : ℕ) → In p f'.cells → In p f.cells)
  unfolding bullet_rounds
  rounds_run zero n i f sound e = (f, refl, sound, λ p v. v)
  rounds_run (suc k) n i f sound e =
      let (f', step) = round_runs n i f sound (omega arith) in
      let r = bullet_round-Round i f f' step in
      let (f'', rest, sound', part) =
        rounds_run k n (suc i) f' (Round-Sound n i f f' sound (omega arith) r) (omega arith) in
      (f'', rw (step, bullet_rounds) rest, sound', λ p v. cells-In i f f' r p (part p v))

  -- A bullet that does not stand at `i` or behind is not touched from `i` on.
  Round-untouched :
      (i : ℕ) (f f' : Frame g) (p : ℕ)
      → Round i f f'
      → ¬ In p (drop i f.cells)
      → (lookup p f'.heap ≡ lookup p f.heap) × (¬ In p (drop (suc i) f'.cells))
  Round-untouched i f f' p r out = (
    ap (lookup p) (cells_after i f f' r).0
        ∙ lookup-insert_ne p r.pointer (bullet_update g dt r.bullet) f.heap (λ e.
          out (subst (λ q. In q (drop i f.cells)) e (get_elem?-drop f.cells i r.pointer r.read))),
    λ v. out (
        In-drop-suc i p f.cells (elim ((cells_after i f f' r).1) [
          | inl (same, len) ↦ subst (λ cs. In p (drop (suc i) cs)) same v
          | inr (closed, len, in_range) ↦
              close_gap-part i f.len f.cells p in_range
                (subst (λ cs. In p (drop (suc i) cs)) closed v)
        ])),
  )

  pub rounds-untouched :
      (k i : ℕ) (f f' : Frame g) (p : ℕ)
      → bullet_rounds g dt lo hi me stamp k i f ≡ some f'
      → ¬ In p (drop i f.cells)
      → lookup p f'.heap ≡ lookup p f.heap
  unfolding bullet_rounds
  rounds-untouched zero i f f' p e out = cc e
  rounds-untouched (suc k) i f f' p e out =
      elim (Option-cases (bullet_round g dt lo hi me stamp i f)) [
        | inl stuck ↦ absurd (cc (rw (stuck, bullet_rounds) at e))
        | inr (f1, step) ↦
            let (same, out') = Round-untouched i f f1 p (bullet_round-Round i f f1 step) out in
            rounds-untouched k (suc i) f1 f' p (rw (step, bullet_rounds) at e) out' ∙ same
      ]
