-- ===== src/Hashid/Search.antt =====
-- The search of `hashid_insert` of service-src/hashid.h for a free node.
use native.Mathlib.Nat.{mod-lt, div-add-mod, add-mul-mod_self_left, mod-eq_of_lt, mod-add-mod}
use native.Mathlib.Decide.{ℕ_discrete}
use demo_skynet_server.Common.{
  ℕ, zero, suc, ◌+◌, ◌-◌, ◌*◌, ◌/◌, ◌%◌, ◌≤◌, ◌<◌, ◌≡◌, refl, sym, ap, ◌∙◌, ◌⊎◌, inl, inr, true,
  false, Option, none, some, List, if_true, if_false, Bool-cases, sum, arith, not_le→leb, ◌^◌,
}
use demo_skynet_server.Hashid.{Hashid, is_free, find_node}
use demo_skynet_server.Hashid.Inv.{Inv, busy}

free_true : (o : Option ℕ) → (elim o [ none ↦ true | some i ↦ false ]) ≡ true → o ≡ none
free_true none t = refl
free_true (some i) t = absurd (ground arith)

free_false : (o : Option ℕ) → (elim o [ none ↦ true | some i ↦ false ]) ≡ false → busy o ≡ 1
free_false none t = absurd (ground arith)
free_false (some i) t = refl

-- The loop over the nodes.
find_cases :
    (hi : Hashid) (id n i : ℕ)
    → i + n + id ≤ 2 ^ 31
    → ((find_node n hi id i ≡ none)
        × ((j : ℕ) → i ≤ j → j < i + n → busy (hi.id ((j + id) % hi.cap)) ≡ 1))
      ⊎ ((j : ℕ) × (find_node n hi id i ≡ some ((j + id) % hi.cap))
          × (hi.id ((j + id) % hi.cap) ≡ none))
unfolding find_node is_free
find_cases hi id zero i small = inl (refl, λ j l m. absurd (omega arith))
find_cases hi id (suc n) i small =
    let c : ℕ = (i + id) % hi.cap in
    let fits = if_false (not_le→leb (2 ^ 31) (i + id) (omega arith)) _ _ in
    elim (Bool-cases (is_free hi c)) [
      | inl t ↦
          inr (i, fits ∙ if_true t (some c) (find_node n hi id (i + 1)), free_true (hi.id c) t)
      | inr t ↦
          let on = fits ∙ if_false t (some c) (find_node n hi id (i + 1)) in
          elim (find_cases hi id n (i + 1) (omega arith)) [
            | inl (e, taken) ↦ inl (
              on ∙ e,
              λ j l m. elim (ℕ_discrete j i) [
                | yes same ↦
                    ap (λ k. busy (hi.id ((k + id) % hi.cap))) same ∙ free_false (hi.id c) t
                | no ne ↦ taken j (omega arith) (omega arith)
              ],
            )
            | inr (j, e, at) ↦ inr (j, on ∙ e, at)
          ]
    ]

-- Every node is tried.
tried : (cap id c : ℕ) → c < cap → (j : ℕ) × (j < cap) × ((j + id) % cap ≡ c)
tried cap id c h =
    let r : ℕ = id % cap in
    let q : ℕ = id / cap in
    let j : ℕ = (c + (cap - r)) % cap in
    let small : r < cap = mod-lt id (omega arith) in
    let whole : c + (cap - r) + id ≡ c + cap * (q + 1) = omega (
      arith,
      div-add-mod id cap,
      small,
      (let d : cap * (q + 1) ≡ cap * q + cap = grind arith in d),
    ) in
    (
      j,
      mod-lt (c + (cap - r)) (omega arith),
      mod-add-mod (c + (cap - r)) cap id
          ∙ ap (λ (z : ℕ). z % cap) whole
          ∙ add-mul-mod_self_left c cap (q + 1)
          ∙ mod-eq_of_lt h,
    )

sum_full : (n : ℕ) (f : ℕ → Option ℕ) → ((c : ℕ) → c < n → busy (f c) ≡ 1) → sum busy n f ≡ n
unfolding sum
sum_full zero f h = refl
sum_full (suc n) f h = omega (arith, sum_full n f (λ c l. h c (omega arith)), h n (omega arith))

-- Where the hash is not full, the loop finds a free node.
pub find_free_node :
    (hi : Hashid) (chains : ℕ → List ℕ)
    → Inv hi chains
    → hi.count < hi.cap
    → (id : ℕ) → id + hi.cap ≤ 2 ^ 31
    → (c : ℕ) × (find_node hi.cap hi id 0 ≡ some c) × (hi.id c ≡ none) × (c < hi.cap)
find_free_node hi chains v room id small = elim (find_cases hi id hi.cap 0 (omega arith)) [
  | inr (j, e, at) ↦ ((j + id) % hi.cap, e, at, mod-lt (j + id) (omega arith))
  | inl (e, taken) ↦ absurd (
      omega (
        arith,
        room,
        v.used,
        sum_full hi.cap hi.id (λ c l.
            let (j, k, at) = tried hi.cap id c l in
            ap (λ k. busy (hi.id k)) (sym at) ∙ taken j (omega arith) (omega arith)),
      ))
]
