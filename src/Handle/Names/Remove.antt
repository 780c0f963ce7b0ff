-- ===== src/Handle/Names/Remove.antt =====
-- The removal of a handle's names in `skynet_handle_retire`.
use native.Mathlib.Decide.{ℕ_discrete}
use demo_skynet_server.Common.{
  ℕ, zero, suc, ◌+◌, ◌≤◌, ◌<◌, ◌≡◌, refl, sym, ap, ap₂, subst, ◌∙◌, ◌≢◌, ◌↔◌, ◌⊎◌, inl, inr, List,
  arith, ◌==◌, Bool-cases, ==_iff, ne_of_false, if_true, if_false, if_ne, ==_refl,
}
use demo_skynet_server.Handle.Names.{
  HandleName, NameTable, negative, strcmp, put_name, remove_names,
}
use demo_skynet_server.Handle.Names.Search.{IsNamed}

-- The cells that the loop has kept, below `j`, or has still to look at, `n` from `i` on.
abbrev pub Dom : ℕ → ℕ → ℕ → ℕ → Type 0
Dom i j n k = (k < j) ⊎ ((i ≤ k) × (k < i + n))

abbrev pub Ordered : NameTable → ℕ → ℕ → ℕ → Type 0
Ordered T i j n =
    (k l : ℕ)
    → k < l
    → Dom i j n k
    → Dom i j n l
    → strcmp (T.name k).name (T.name l).name ≡ negative

-- A name of these cells that the loop keeps.
abbrev pub Left : NameTable → ℕ → ℕ → ℕ → ℕ → List ℕ → ℕ → Type 0
Left T handle i j n y h =
    (k : ℕ) × ((k < j) ⊎ ((i ≤ k) × (k < i + n) × (h ≢ handle)))
    × ((T.name k).name ≡ y)
    × ((T.name k).handle ≡ h)

pub record Removed (T : NameTable) (handle i j n : ℕ) (R : NameTable) : Type 0 where
  pub same_cap : R.name_cap ≡ T.name_cap
  pub counts : R.name_count ≤ j + n
  pub order :
      (k l : ℕ) → k < l → l < R.name_count → strcmp (R.name k).name (R.name l).name ≡ negative
  pub names : (y : List ℕ) (h : ℕ) → IsNamed R y h ↔ Left T handle i j n y h

module _ (T : NameTable) (handle i j n : ℕ) where
  skip_Removed :
      {R : NameTable}
      → (T.name i).handle ≡ handle
      → Removed T handle (i + 1) j n R
      → Removed T handle i j (suc n) R
  skip_Removed e r = record {
    same_cap = r.same_cap;
    counts = omega (arith, r.counts);
    order = r.order;
    names = λ y h. (
      λ g.
          let (k, at, a, b) = (r.names y h).0 g in
          (
            k,
            elim at [ inl l ↦ inl l | inr (l, m, ne) ↦ inr (omega arith, omega arith, ne) ],
            a,
            b,
          ),
      λ (k, at, a, b). (r.names y h).1 (
        k,
        elim at [
          | inl l ↦ inl l
          | inr (l, m, ne) ↦ elim (ℕ_discrete i k) [
            | yes same ↦ absurd (ne (sym b ∙ ap (λ x. (T.name x).handle) (sym same) ∙ e))
            | no off ↦ inr (omega arith, omega arith, ne)
          ]
        ],
        a,
        b,
      ),
    );
  }

  abbrev shifted : NameTable
  shifted = record T { name = put_name T.name j (T.name i) }

  shifted_at : shifted.name j ≡ T.name i
  shifted_at = if_true (==_refl j) (T.name i) (T.name j)

  shifted_off : (k : ℕ) → k ≢ j → shifted.name k ≡ T.name k
  shifted_off k ne = if_ne k j ne (T.name i) (T.name k)

  -- The cell of the old array that a kept cell comes from.
  source_of :
      j ≤ i
      → (k : ℕ) → Dom (i + 1) (j + 1) n k
      → ((k ≡ j) × (shifted.name k ≡ T.name i))
        ⊎ ((k ≢ j) × (shifted.name k ≡ T.name k) × Dom i j (suc n) k)
  source_of le k dom = elim (ℕ_discrete k j) [
    | yes e ↦ inl (e, ap shifted.name e ∙ shifted_at)
    | no ne ↦ inr (
      ne,
      shifted_off k ne,
      elim dom [ inl l ↦ inl (omega arith) | inr (l, m) ↦ inr (omega arith, omega arith) ],
    )
  ]

  shifted-Ordered : j ≤ i → Ordered T i j (suc n) → Ordered shifted (i + 1) (j + 1) n
  shifted-Ordered le o k l h dk dl = elim (source_of le k dk) [
    | inl (e, a) ↦ elim (source_of le l dl) [
      | inl (e', a') ↦ absurd (omega arith)
      | inr (ne, a', d) ↦
          ap₂ (λ x y. strcmp x.name y.name) a a'
          ∙ o i l (elim dl [ inl m ↦ omega arith | inr (m, m') ↦ omega arith ])
              (inr (omega arith, omega arith)) d
    ]
    | inr (ne, a, d) ↦ elim (source_of le l dl) [
      | inl (e', a') ↦
          ap₂ (λ x y. strcmp x.name y.name) a a'
          ∙ o k i (omega arith) d (inr (omega arith, omega arith))
      | inr (ne', a', d') ↦ ap₂ (λ x y. strcmp x.name y.name) a a' ∙ o k l h d d'
    ]
  ]

  keep_Removed :
      {R : NameTable}
      → j ≤ i
      → (T.name i).handle ≢ handle
      → Removed shifted handle (i + 1) (j + 1) n R
      → Removed T handle i j (suc n) R
  keep_Removed le ne r = record {
    same_cap = r.same_cap;
    counts = omega (arith, r.counts);
    order = r.order;
    names = λ y h. (λ g. out y h ((r.names y h).0 g), λ g. (r.names y h).1 (into y h g));
  }
    where
      out :
          (y : List ℕ) (h : ℕ)
          → Left shifted handle (i + 1) (j + 1) n y h
          → Left T handle i j (suc n) y h
      out y h (k, at, a, b) = elim (ℕ_discrete k j) [
        | yes e ↦
            let same : shifted.name k ≡ T.name i = ap shifted.name e ∙ shifted_at in
            let b' = sym (ap (λ x. x.handle) same) ∙ b in
            (
              i,
              inr (omega arith, omega arith, λ c. ne (b' ∙ c)),
              sym (ap (λ x. x.name) same) ∙ a,
              b',
            )
        | no off ↦
            let same = shifted_off k off in
            (
              k,
              elim at [
                | inl l ↦ inl (omega arith)
                | inr (l, m, c) ↦ inr (omega arith, omega arith, c)
              ],
              sym (ap (λ x. x.name) same) ∙ a,
              sym (ap (λ x. x.handle) same) ∙ b,
            )
      ]

      into :
          (y : List ℕ) (h : ℕ)
          → Left T handle i j (suc n) y h
          → Left shifted handle (i + 1) (j + 1) n y h
      into y h (k, at, a, b) = elim (ℕ_discrete k i) [
        | yes e ↦
            let same : shifted.name j ≡ T.name k = shifted_at ∙ ap T.name (sym e) in
            (j, inl (omega arith), ap (λ x. x.name) same ∙ a, ap (λ x. x.handle) same ∙ b)
        | no off ↦
            let off_j : k ≢ j =
              λ e. elim at [ inl l ↦ omega arith | inr (l, m, c) ↦ omega arith ] in
            let same = shifted_off k off_j in
            (
              k,
              elim at [
                | inl l ↦ inl (omega arith)
                | inr (l, m, c) ↦ inr (omega arith, omega arith, c)
              ],
              ap (λ x. x.name) same ∙ a,
              ap (λ x. x.handle) same ∙ b,
            )
      ]

put_same_at : (a : ℕ → HandleName) (i k : ℕ) → put_name a i (a i) k ≡ a k
put_same_at a i k = elim (ℕ_discrete k i) [
  | yes e ↦ if_true ((==_iff k i).1 e) (a i) (a k) ∙ ap a (sym e)
  | no ne ↦ if_ne k i ne (a i) (a k)
]

put_same : (a : ℕ → HandleName) (i : ℕ) → put_name a i (a i) ≡ a
put_same a i = λ d k. put_same_at a i k d

pub remove_names-Removed :
    (n handle i j : ℕ) (T : NameTable)
    → j ≤ i
    → Ordered T i j n
    → Removed T handle i j n (remove_names n handle i j T)
unfolding remove_names
remove_names-Removed zero handle i j T le o = record {
  same_cap = refl;
  counts = omega arith;
  order = λ k l h m. o k l h (inl (omega arith)) (inl m);
  names = λ y h. (
    λ (k, l, a, b). (k, inl l, a, b),
    λ (k, at, a, b). (k, elim at [ inl l ↦ l | inr (l, m, c) ↦ absurd (omega arith) ], a, b),
  );
}
remove_names-Removed (suc n) handle i j T le o = elim (Bool-cases ((T.name i).handle == handle)) [
  | inl t ↦ subst (Removed T handle i j (suc n)) (sym (if_true t _ _)) (
      skip_Removed T handle i j n ((==_iff _ handle).0 t) (
        remove_names-Removed n handle (i + 1) j T (omega arith)
          (λ k l h d d'. o k l h (wider k d) (wider l d'))))
  | inr t ↦
      let kept = keep_Removed T handle i j n le (ne_of_false _ handle t) (
        remove_names-Removed n handle (i + 1) (j + 1) (shifted T handle i j n) (omega arith)
          (shifted-Ordered T handle i j n le o)) in
      elim (Bool-cases (i == j)) [
        | inr u ↦ subst (Removed T handle i j (suc n)) (sym (if_false t _ _ ∙ if_false u _ _)) kept
        | inl u ↦
            let same : put_name T.name j (T.name i) ≡ T.name =
              ap (λ m. put_name T.name j (T.name m)) ((==_iff i j).0 u) ∙ put_same T.name j in
            subst (Removed T handle i j (suc n))
              (ap (λ a. remove_names n handle (i + 1) (j + 1) (record T { name = a })) same
                ∙ sym (if_false t _ _ ∙ if_true u _ _))
              kept
      ]
]
  where
    wider : (k : ℕ) → Dom (i + 1) j n k → Dom i j (suc n) k
    wider k d = elim d [ inl l ↦ inl l | inr (l, m) ↦ inr (omega arith, omega arith) ]
