-- ===== src/Timer/Wheel.antt =====
-- Where the timer wheel keeps a node, and what `add_node` does to it.
use native.Mathlib.Nat.{mul-div_cancel, one-le-pow}
use demo_skynet_server.Common.{
  ℕ, zero, suc, ◌+◌, ◌-◌, ◌*◌, ◌/◌, ◌%◌, ◌^◌, ◌≤◌, ◌<◌, bit_and, bit_or, ◌≡◌, refl, sym, ap, ◌∙◌,
  ◌≢◌, ◌⊎◌, inl, inr, true, false, ◌&&◌, List, [], ◌∷◌, ◌++◌, arith, ◌==◌, if◌then◌else◌,
  Bool-cases, ==_iff, if_true, if_false, All, All-append, bit_or-mask, bit_and-mask, subst,
}
use demo_skynet_server.Timer.{
  Node, Timer, time_level_mask, put_near, put_level, pick_level, add_node,
}

-- A node that expires at `e`, in the list of slot `k` of a level, at time `c`: the bits above the
-- level's agree, and those of the level lie ahead. On the last level time may wrap.
abbrev pub Fits : ℕ → ℕ → ℕ → ℕ → Type 0
Fits zero k c e = (e / 2 ^ 14 ≡ c / 2 ^ 14) × (c / 2 ^ 8 < e / 2 ^ 8) × (e / 2 ^ 8 % 64 ≡ k)
Fits (suc zero) k c e =
    (e / 2 ^ 20 ≡ c / 2 ^ 20) × (c / 2 ^ 14 < e / 2 ^ 14) × (e / 2 ^ 14 % 64 ≡ k)
Fits (suc (suc zero)) k c e =
    (e / 2 ^ 26 ≡ c / 2 ^ 26) × (c / 2 ^ 20 < e / 2 ^ 20) × (e / 2 ^ 20 % 64 ≡ k)
Fits (suc (suc (suc zero))) k c e = (e < 2 ^ 32) × (e / 2 ^ 26 ≢ c / 2 ^ 26) × (e / 2 ^ 26 ≡ k)
Fits (suc (suc (suc (suc i)))) k c e = ⊥

-- In the list of slot `k` of the near wheel: it expires in this block of 256 ticks.
abbrev pub FitsNear : ℕ → ℕ → ℕ → Type 0
FitsNear k c e = (e / 2 ^ 8 ≡ c / 2 ^ 8) × (c ≤ e) × (e % 2 ^ 8 ≡ k)

pub record IsValid (T : Timer) : Type 0 where
  pub now : T.time < 2 ^ 32
  pub near_fit : (k : ℕ) → All (λ (n : Node). FitsNear k T.time n.expire) (T.near k)
  pub level_fit : (i k : ℕ) → All (λ (n : Node). Fits i k T.time n.expire) (T.t i k)

-- What may be added at time `c`: what is not past, where time wraps at least 2^31 ticks before.
abbrev pub IsAhead : ℕ → ℕ → Type 0
IsAhead c e = (e < 2 ^ 32) × ((c ≤ e) ⊎ (e / 2 ^ 26 ≢ c / 2 ^ 26))

-- The two ways that `add_node` takes.
abbrev pub Placed : Timer → Node → Timer → Type 0
Placed T n T' =
    (FitsNear (n.expire % 2 ^ 8) T.time n.expire
      × (T' ≡ put_near T (n.expire % 2 ^ 8) (T.near (n.expire % 2 ^ 8) ++ n ∷ [])))
    ⊎ ((i : ℕ) × (k : ℕ) × Fits i k T.time n.expire
        × (i < 4)
        × (k < 64)
        × (T' ≡ put_level T i k (T.t i k ++ n ∷ [])))

eq_of_multiple : {x y : ℕ} (p : ℕ) → 0 < p → x * p ≡ y * p → x ≡ y
eq_of_multiple {x} {y} p pos e =
    sym (mul-div_cancel x pos) ∙ ap (λ (t : ℕ). t / p) e ∙ mul-div_cancel y pos

or_equal :
    (k a b : ℕ) → (bit_or a (2 ^ k - 1) == bit_or b (2 ^ k - 1)) ≡ true → a / 2 ^ k ≡ b / 2 ^ k
or_equal k a b h = eq_of_multiple (2 ^ k) (omega (arith, one-le-pow k 2)) (
    omega (
      arith,
      (==_iff (bit_or a (2 ^ k - 1)) (bit_or b (2 ^ k - 1))).0 h,
      bit_or-mask k a,
      bit_or-mask k b,
    ))

or_differ :
    (k a b : ℕ) → (bit_or a (2 ^ k - 1) == bit_or b (2 ^ k - 1)) ≡ false → a / 2 ^ k ≢ b / 2 ^ k
or_differ k a b h e =
    let same : bit_or a (2 ^ k - 1) ≡ bit_or b (2 ^ k - 1) =
      bit_or-mask k a ∙ ap (λ (t : ℕ). t * 2 ^ k + (2 ^ k - 1)) e ∙ sym (bit_or-mask k b) in
    let both : true ≡ false = sym ((==_iff _ _).1 same) ∙ h in cc

-- The level that the loop picks, with what it found out.
pick_level_cases :
    (c e : ℕ)
    → ((pick_level 3 e c (2 ^ 14) 0 ≡ 0) × (e / 2 ^ 14 ≡ c / 2 ^ 14))
      ⊎ ((pick_level 3 e c (2 ^ 14) 0 ≡ 1) × (e / 2 ^ 14 ≢ c / 2 ^ 14) × (e / 2 ^ 20 ≡ c / 2 ^ 20))
      ⊎ ((pick_level 3 e c (2 ^ 14) 0 ≡ 2) × (e / 2 ^ 20 ≢ c / 2 ^ 20) × (e / 2 ^ 26 ≡ c / 2 ^ 26))
      ⊎ ((pick_level 3 e c (2 ^ 14) 0 ≡ 3) × (e / 2 ^ 26 ≢ c / 2 ^ 26))
unfolding pick_level
pick_level_cases c e = elim (Bool-cases (bit_or e (2 ^ 14 - 1) == bit_or c (2 ^ 14 - 1))) [
  | inl t0 ↦ inl (if_true t0 _ _, or_equal 14 e c t0)
  | inr t0 ↦ elim (Bool-cases (bit_or e (2 ^ 20 - 1) == bit_or c (2 ^ 20 - 1))) [
    | inl t1 ↦ inr (inl (if_false t0 _ _ ∙ if_true t1 _ _, or_differ 14 e c t0, or_equal 20 e c t1))
    | inr t1 ↦ elim (Bool-cases (bit_or e (2 ^ 26 - 1) == bit_or c (2 ^ 26 - 1))) [
      | inl t2 ↦ inr (
          inr (
            inl (
              if_false t0 _ _ ∙ if_false t1 _ _ ∙ if_true t2 _ _,
              or_differ 20 e c t1,
              or_equal 26 e c t2,
            )))
      | inr t2 ↦
          inr (inr (inr (if_false t0 _ _ ∙ if_false t1 _ _ ∙ if_false t2 _ _, or_differ 26 e c t2)))
    ]
  ]
]

-- `add_node` puts a node that is ahead where it fits.
pub add_node-Placed :
    (T : Timer) (n : Node) → T.time < 2 ^ 32 → IsAhead T.time n.expire → Placed T n (add_node T n)
unfolding add_node
add_node-Placed T n now ahead =
    elim (Bool-cases (bit_or n.expire (2 ^ 8 - 1) == bit_or T.time (2 ^ 8 - 1))) [
      | inl t ↦ inl (
        (or_equal 8 n.expire T.time t, omega (arith, or_equal 8 n.expire T.time t), refl),
        if_true t _ _ ∙ ap (λ k. put_near T k (T.near k ++ n ∷ [])) (bit_and-mask 8 n.expire),
      )
      | inr t ↦ inr (elim (pick_level_cases T.time n.expire) [
        | inl (e, f0) ↦ (
          0,
          n.expire / 2 ^ 8 % 64,
          (f0, omega (arith, or_differ 8 n.expire T.time t), refl),
          omega arith,
          omega arith,
          if_false t _ _ ∙ level 0 e,
        )
        | inr (inl (e, f0, f1)) ↦ (
          1,
          n.expire / 2 ^ 14 % 64,
          (f1, omega (arith, or_differ 8 n.expire T.time t), refl),
          omega arith,
          omega arith,
          if_false t _ _ ∙ level 1 e,
        )
        | inr (inr (inl (e, f0, f1))) ↦ (
          2,
          n.expire / 2 ^ 20 % 64,
          (f1, omega (arith, or_differ 8 n.expire T.time t), refl),
          omega arith,
          omega arith,
          if_false t _ _ ∙ level 2 e,
        )
        | inr (inr (inr (e, f0))) ↦ (
          3,
          n.expire / 2 ^ 26,
          (ahead.0, f0, refl),
          omega arith,
          omega (arith, ahead.0),
          if_false t _ _ ∙ level 3 e ∙ ap (λ k. put_level T 3 k (T.t 3 k ++ n ∷ [])) top,
        )
      ])
    ]
  where
    level :
        (i : ℕ)
        → pick_level 3 n.expire T.time (2 ^ 14) 0 ≡ i
        → (let j = pick_level 3 n.expire T.time (2 ^ 14) 0 in
            let k = bit_and (n.expire / 2 ^ (8 + j * 6)) time_level_mask in
            put_level T j k (T.t j k ++ n ∷ []))
          ≡ put_level T i
              (n.expire / 2 ^ (8 + i * 6) % 64)
              (T.t i (n.expire / 2 ^ (8 + i * 6) % 64) ++ n ∷ [])
    level i e =
        ap
          (λ j.
            put_level T j (bit_and (n.expire / 2 ^ (8 + j * 6)) time_level_mask)
              (T.t j (bit_and (n.expire / 2 ^ (8 + j * 6)) time_level_mask) ++ n ∷ []))
          e
        ∙ ap (λ k. put_level T i k (T.t i k ++ n ∷ []))
            (bit_and-mask 6 (n.expire / 2 ^ (8 + i * 6)))

    top : n.expire / 2 ^ 26 % 64 ≡ n.expire / 2 ^ 26
    top = omega (arith, ahead.0)

All-put :
    (P : ℕ → Node → Type 0) (f : ℕ → List Node) (i : ℕ) (ns : List Node)
    → ((k : ℕ) → All (P k) (f k))
    → All (P i) ns
    → (k : ℕ) → All (P k) (if k == i then ns else f k)
All-put P f i ns all new k = elim (Bool-cases (k == i)) [
  | inl t ↦ rw t (rw ((==_iff k i).0 t) new)
  | inr t ↦ rw t (all k)
]

All-put_level :
    (P : ℕ → ℕ → Node → Type 0) (f : ℕ → ℕ → List Node) (i j : ℕ) (ns : List Node)
    → ((l k : ℕ) → All (P l k) (f l k))
    → All (P i j) ns
    → (l k : ℕ) → All (P l k) (if l == i && k == j then ns else f l k)
All-put_level P f i j ns all new l k = elim (Bool-cases (l == i)) [
  | inl t ↦ elim (Bool-cases (k == j)) [
    | inl u ↦ rw (t, u) (rw ((==_iff l i).0 t, (==_iff k j).0 u) new)
    | inr u ↦ rw (t, u) (all l k)
  ]
  | inr t ↦ rw t (all l k)
]

pub put_near-IsValid :
    (T : Timer) (i : ℕ) (ns : List Node)
    → IsValid T
    → All (λ (n : Node). FitsNear i T.time n.expire) ns
    → IsValid (put_near T i ns)
put_near-IsValid T i ns v new = record {
  now = v.now;
  near_fit = All-put (λ k n. FitsNear k T.time n.expire) T.near i ns v.near_fit new;
  level_fit = v.level_fit;
}

pub put_level-IsValid :
    (T : Timer) (i j : ℕ) (ns : List Node)
    → IsValid T
    → All (λ (n : Node). Fits i j T.time n.expire) ns
    → IsValid (put_level T i j ns)
put_level-IsValid T i j ns v new = record {
  now = v.now;
  near_fit = v.near_fit;
  level_fit = All-put_level (λ l k n. Fits l k T.time n.expire) T.t i j ns v.level_fit new;
}

-- `add_node` of a node that is ahead keeps every node in its place.
pub add_node-IsValid :
    (T : Timer) (n : Node) → IsValid T → IsAhead T.time n.expire → IsValid (add_node T n)
add_node-IsValid T n v ahead = elim (add_node-Placed T n v.now ahead) [
  | inl (fits, e) ↦ subst IsValid (sym e) (
      put_near-IsValid T _ _ v
        (All-append _ (T.near (n.expire % 2 ^ 8)) (n ∷ []) (v.near_fit _) (fits, tt)))
  | inr (i, k, fits, li, lk, e) ↦
      subst IsValid (sym e)
        (put_level-IsValid T i k _ v (All-append _ (T.t i k) (n ∷ []) (v.level_fit i k) (fits, tt)))
]
