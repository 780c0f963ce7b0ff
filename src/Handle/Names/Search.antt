-- ===== src/Handle/Names/Search.antt =====
-- The search for a name: it ends, and finds the name or the place for it.
use native.Mathlib.Decide.{dec_lt}
use demo_skynet_server.Common.{
  ℕ, zero, suc, ◌+◌, ◌-◌, ◌/◌, ◌≤◌, ◌<◌, ◌≡◌, refl, sym, ap, subst, ◌∙◌, ◌≢◌, ◌⊎◌, inl, inr, Option,
  some, List, arith, lt→ltb, not_lt→ltb,
}
use demo_skynet_server.Handle.Names.{
  NameTable, negative, nul, positive, strcmp, Place, found, absent, search_names, search_all,
  findname,
}
use demo_skynet_server.Handle.Names.Compare.{
  strcmp_trans, strcmp_flip, strcmp-nul, below_apart, strcmp_cases,
}

-- The table is in order, without a name twice, and fits its array.
pub record IsSorted (T : NameTable) : Type 0 where
  pub has_array : 0 < T.name_cap
  pub fits : T.name_count ≤ T.name_cap
  pub order :
      (i j : ℕ) → i < j → j < T.name_count → strcmp (T.name i).name (T.name j).name ≡ negative

-- The table gives `name` to `handle`.
abbrev pub IsNamed : NameTable → List ℕ → ℕ → Type 0
IsNamed T name handle =
    (i : ℕ) × (i < T.name_count) × ((T.name i).name ≡ name) × ((T.name i).handle ≡ handle)

-- Index `p` parts the smaller names from the greater.
pub record Parts (T : NameTable) (name : List ℕ) (p : ℕ) : Type 0 where
  pub inside : p ≤ T.name_count
  pub smaller : (i : ℕ) → i < p → strcmp (T.name i).name name ≡ negative
  pub greater : (i : ℕ) → p ≤ i → i < T.name_count → strcmp name (T.name i).name ≡ negative

-- The outcome of a search.
abbrev pub Outcome : NameTable → List ℕ → Option Place → Type 0
Outcome T name o =
    ((mid : ℕ) × (mid < T.name_count) × ((T.name mid).name ≡ name) × (o ≡ some (found mid)))
    ⊎ ((p : ℕ) × Parts T name p × (o ≡ some (absent p)))

module _ (T : NameTable) (v : IsSorted T) (name : List ℕ) where
  step_found :
      (fuel begin stop : ℕ)
      → begin < stop
      → strcmp (T.name ((begin + (stop - 1)) / 2)).name name ≡ nul
      → search_names (suc fuel) T name begin stop ≡ some (found ((begin + (stop - 1)) / 2))
  unfolding search_names
  step_found fuel begin stop h e = rw (lt→ltb begin stop h, search_names) (rw e refl)

  step_up :
      (fuel begin stop : ℕ)
      → begin < stop
      → strcmp (T.name ((begin + (stop - 1)) / 2)).name name ≡ negative
      → search_names (suc fuel) T name begin stop
        ≡ search_names fuel T name ((begin + (stop - 1)) / 2 + 1) stop
  unfolding search_names
  step_up fuel begin stop h e = rw (lt→ltb begin stop h, search_names) (rw e refl)

  step_down :
      (fuel begin stop : ℕ)
      → begin < stop
      → strcmp (T.name ((begin + (stop - 1)) / 2)).name name ≡ positive
      → search_names (suc fuel) T name begin stop
        ≡ search_names fuel T name begin ((begin + (stop - 1)) / 2)
  unfolding search_names
  step_down fuel begin stop h e = rw (lt→ltb begin stop h, search_names) (rw e refl)

  step_end :
      (fuel begin stop : ℕ)
      → stop ≤ begin
      → search_names (suc fuel) T name begin stop ≡ some (absent begin)
  unfolding search_names
  step_end fuel begin stop h = rw (not_lt→ltb begin stop h, search_names) refl

  up_to :
      (mid i : ℕ)
      → i < mid + 1
      → mid < T.name_count
      → strcmp (T.name mid).name name ≡ negative
      → strcmp (T.name i).name name ≡ negative
  up_to mid i h inside e = elim (dec_lt i mid) [
    | yes l ↦ strcmp_trans _ _ name (v.order i mid l inside) e
    | no l ↦
        let same : mid ≡ i = omega arith in ap (λ k. strcmp (T.name k).name name) (sym same) ∙ e
  ]

  down_to :
      (mid i : ℕ)
      → mid ≤ i
      → i < T.name_count
      → strcmp name (T.name mid).name ≡ negative
      → strcmp name (T.name i).name ≡ negative
  down_to mid i h inside e = elim (dec_lt mid i) [
    | yes l ↦ strcmp_trans name _ _ e (v.order mid i l inside)
    | no l ↦
        let same : mid ≡ i = omega arith in ap (λ k. strcmp name (T.name k).name) (sym same) ∙ e
  ]

  search_lem :
      (fuel begin stop : ℕ)
      → stop < begin + fuel
      → begin ≤ stop
      → stop ≤ T.name_count
      → ((i : ℕ) → i < begin → strcmp (T.name i).name name ≡ negative)
      → ((i : ℕ) → stop ≤ i → i < T.name_count → strcmp name (T.name i).name ≡ negative)
      → Outcome T name (search_names fuel T name begin stop)
  search_lem zero begin stop enough le inside lo hi = absurd (omega arith)
  search_lem (suc fuel) begin stop enough le inside lo hi = elim (dec_lt begin stop) [
    | no l ↦ inr (
      begin,
      record { inside = omega arith; smaller = lo; greater = λ i h k. hi i (omega arith) k },
      step_end fuel begin stop (omega arith),
    )
    | yes l ↦ elim (strcmp_cases (T.name ((begin + (stop - 1)) / 2)).name name) [
      | inl e ↦ inl (_, omega arith, strcmp-nul _ name e, step_found fuel begin stop l e)
      | inr (inl e) ↦ subst (Outcome T name) (sym (step_up fuel begin stop l e)) (
          search_lem fuel ((begin + (stop - 1)) / 2 + 1) stop (omega arith) (omega arith) inside
            (λ i h. up_to _ i h (omega arith) e) hi)
      | inr (inr e) ↦ subst (Outcome T name) (sym (step_down fuel begin stop l e)) (
          search_lem fuel begin ((begin + (stop - 1)) / 2) (omega arith) (omega arith) (omega arith)
            lo (λ i h k. down_to _ i h k ((strcmp_flip _ name).0 e)))
    ]
  ]

  pub search_all-Outcome : Outcome T name (search_all name T)
  search_all-Outcome =
      search_lem (suc T.name_count) 0 T.name_count (omega arith) (omega arith) (omega arith)
        (λ i h. absurd (omega arith)) (λ i h k. absurd (omega arith))

-- A name that stands in the table has one place in it.
pub one_place :
    (T : NameTable)
    → IsSorted T
    → (i j : ℕ) → i < T.name_count
    → j < T.name_count
    → (T.name i).name ≡ (T.name j).name
    → i ≡ j
one_place T v i j hi hj e = elim (dec_lt i j) [
  | yes l ↦ absurd (below_apart _ (ap (λ x. strcmp x (T.name j).name) (sym e) ∙ v.order i j l hj))
  | no l ↦ elim (dec_lt j i) [
    | yes k ↦ absurd (below_apart _ (ap (λ x. strcmp x (T.name i).name) e ∙ v.order j i k hi))
    | no k ↦ omega arith
  ]
]

pub Parts-absent :
    (T : NameTable) (name : List ℕ) (p : ℕ)
    → Parts T name p
    → (i : ℕ) → i < T.name_count
    → (T.name i).name ≢ name
Parts-absent T name p d i h e = elim (dec_lt i p) [
  | yes l ↦ below_apart _ (ap (λ x. strcmp x name) (sym e) ∙ d.smaller i l)
  | no l ↦ below_apart _ (ap (λ x. strcmp name x) (sym e) ∙ d.greater i (omega arith) h)
]

-- `skynet_handle_findname` ends. For a name in the table it returns a handle that the table gives
-- to the name, and the only one; for any other name it returns 0.
pub findname_lem :
    (T : NameTable) (name : List ℕ)
    → IsSorted T
    → ((h : ℕ) × (findname name T ≡ some h)
        × IsNamed T name h
        × ((k : ℕ) → IsNamed T name k → k ≡ h))
      ⊎ ((findname name T ≡ some 0) × ((k : ℕ) → ¬ IsNamed T name k))
unfolding findname
findname_lem T name v = elim (search_all-Outcome T v name) [
  | inl (mid, inside, at, e) ↦ inl (
    (T.name mid).handle,
    rw (e, findname) refl,
    (mid, inside, at, refl),
    λ k (i, h, n, g).
        sym g ∙ ap (λ m. (T.name m).handle) (one_place T v i mid h inside (n ∙ sym at)),
  )
  | inr (p, d, e) ↦ inr (rw (e, findname) refl, λ k (i, h, n, g). Parts-absent T name p d i h n)
]
