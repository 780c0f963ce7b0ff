-- ===== src/Handle/Names/Naming.antt =====
-- `skynet_handle_namehandle` on the set of names that the table holds.
use native.Mathlib.Decide.{dec_lt, ℕ_discrete}
use demo_skynet_server.Common.{
  ℕ, ◌+◌, ◌-◌, ◌*◌, ◌≤◌, ◌<◌, ◌≡◌, refl, sym, ap, ap₂, ◌∙◌, ◌↔◌, ◌⊎◌, inl, inr, true, false, some,
  List, arith,
}
use demo_skynet_server.Handle.Names.{
  HandleName, NameTable, negative, strcmp, max_slot_size, init_names, namehandle,
}
use demo_skynet_server.Handle.Names.Search.{
  IsSorted, IsNamed, Parts, Parts-absent, search_all-Outcome,
}
use demo_skynet_server.Handle.Names.Insert.{Inserted, insert_name_before-Inserted}

pub init_names-IsSorted : (fresh : ℕ → HandleName) → IsSorted (init_names fresh)
unfolding init_names
init_names-IsSorted fresh = record {
  has_array = omega arith;
  fits = omega arith;
  order = λ i j h k. absurd (omega arith);
}

-- What a new name does to the table.
pub record Named (T : NameTable) (name : List ℕ) (handle : ℕ) (U : NameTable) : Type 0 where
  pub sorted : IsSorted U
  pub names : (y : List ℕ) (h : ℕ) → IsNamed U y h ↔ (IsNamed T y h ⊎ ((y ≡ name) × (h ≡ handle)))

module _ (T U : NameTable) (name : List ℕ) (handle p : ℕ) (v : IsSorted T) (d : Parts T name p)
    (t : Inserted T p (record { name = name; handle = handle }) U) where
  abbrev entry : HandleName
  entry = record { name = name; handle = handle }

  -- Where a cell of the new table comes from.
  data Origin (j : ℕ) : Type 0 where
    below : j < p → U.name j ≡ T.name j → Origin j
    here : j ≡ p → U.name j ≡ entry → Origin j
    above : (k : ℕ) → j ≡ k + 1 → p ≤ k → k < T.name_count → U.name j ≡ T.name k → Origin j

  origin : (j : ℕ) → j < U.name_count → Origin j
  origin j h = elim (dec_lt j p) [
    | yes l ↦ below l (t.low j l)
    | no l ↦ elim (ℕ_discrete j p) [
      | yes e ↦ here e (ap U.name e ∙ t.new)
      | no ne ↦
          let e : j ≡ j - 1 + 1 = omega arith in
          let inside : j - 1 < T.name_count = omega (arith, t.counts) in
          above (j - 1) e (omega arith) inside (ap U.name e ∙ t.high (j - 1) (omega arith) inside)
    ]
  ]

  ordered :
      (i j : ℕ) → i < j → Origin i → Origin j → strcmp (U.name i).name (U.name j).name ≡ negative
  ordered i j h (below l e) (below l' e') =
      ap₂ (λ a b. strcmp a.name b.name) e e' ∙ v.order i j h (omega (arith, d.inside))
  ordered i j h (below l e) (here l' e') = ap₂ (λ a b. strcmp a.name b.name) e e' ∙ d.smaller i l
  ordered i j h (below l e) (above k l' m n e') =
      ap₂ (λ a b. strcmp a.name b.name) e e' ∙ v.order i k (omega arith) n
  ordered i j h (here l e) (above k l' m n e') =
      ap₂ (λ a b. strcmp a.name b.name) e e' ∙ d.greater k m n
  ordered i j h (above k l m n e) (above k' l' m' n' e') =
      ap₂ (λ a b. strcmp a.name b.name) e e' ∙ v.order k k' (omega arith) n'
  ordered i j h (here l e) (below l' e') = absurd (omega arith)
  ordered i j h (here l e) (here l' e') = absurd (omega arith)
  ordered i j h (above k l m n e) (below l' e') = absurd (omega arith)
  ordered i j h (above k l m n e) (here l' e') = absurd (omega arith)

  IsNamed-from :
      (y : List ℕ) (h j : ℕ)
      → j < U.name_count
      → (U.name j).name ≡ y
      → (U.name j).handle ≡ h
      → Origin j
      → IsNamed T y h ⊎ ((y ≡ name) × (h ≡ handle))
  IsNamed-from y h j l a b (below k e) =
      inl (j, omega (arith, d.inside), sym (ap (λ x. x.name) e) ∙ a, sym (ap (λ x. x.handle) e) ∙ b)
  IsNamed-from y h j l a b (here k e) =
      inr (sym a ∙ ap (λ x. x.name) e, sym b ∙ ap (λ x. x.handle) e)
  IsNamed-from y h j l a b (above k g m n e) =
      inl (k, n, sym (ap (λ x. x.name) e) ∙ a, sym (ap (λ x. x.handle) e) ∙ b)

  IsNamed-into : (y : List ℕ) (h : ℕ) → IsNamed T y h → IsNamed U y h
  IsNamed-into y h (i, l, a, b) = elim (dec_lt i p) [
    | yes k ↦ (
      i,
      omega (arith, t.counts),
      ap (λ x. x.name) (t.low i k) ∙ a,
      ap (λ x. x.handle) (t.low i k) ∙ b,
    )
    | no k ↦ (
      i + 1,
      omega (arith, t.counts),
      ap (λ x. x.name) (t.high i (omega arith) l) ∙ a,
      ap (λ x. x.handle) (t.high i (omega arith) l) ∙ b,
    )
  ]

  Inserted-Named : Named T name handle U
  Inserted-Named = record {
    sorted = record {
      has_array = omega (arith, t.counts, t.fits);
      fits = t.fits;
      order = λ i j h l. ordered i j h (origin i (omega arith)) (origin j l);
    };
    names = λ y h. (
      λ (j, l, a, b). IsNamed-from y h j l a b (origin j l),
      λ c. elim c [
        | inl n ↦ IsNamed-into y h n
        | inr (a, b) ↦ (
          p,
          omega (arith, t.counts, d.inside),
          ap (λ x. x.name) t.new ∙ sym a,
          ap (λ x. x.handle) t.new ∙ sym b,
        )
      ],
    );
  }

-- While the array may still double, `skynet_handle_namehandle` ends and no assertion fails. A name
-- that is in the table already is refused and nothing changes. A new name is added with the
-- handle: the table gives every other name what it gave it, and stays in order.
pub namehandle_lem :
    (fresh : ℕ → HandleName) (handle : ℕ) (name : List ℕ) (T : NameTable)
    → IsSorted T
    → T.name_cap * 2 ≤ max_slot_size
    → ((h : ℕ) × IsNamed T name h × (namehandle fresh handle name T ≡ some (false, T)))
      ⊎ (((h : ℕ) → ¬ IsNamed T name h)
          × ((U : NameTable) × (namehandle fresh handle name T ≡ some (true, U))
              × Named T name handle U))
unfolding namehandle
namehandle_lem fresh handle name T v room = elim (search_all-Outcome T v name) [
  | inl (mid, inside, at, e) ↦
      inl ((T.name mid).handle, (mid, inside, at, refl), rw (e, namehandle) refl)
  | inr (p, d, e) ↦
      let (U, eu, t) =
        insert_name_before-Inserted fresh name handle p T v.fits v.has_array room d.inside in
      inr (
        λ h (i, l, n, g). Parts-absent T name p d i l n,
        (U, rw (e, namehandle) (rw eu refl), Inserted-Named T U name handle p v d t),
      )
]
