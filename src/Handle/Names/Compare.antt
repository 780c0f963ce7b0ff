-- ===== src/Handle/Names/Compare.antt =====
-- The order of names that `strcmp` gives.
use demo_skynet_server.Common.{
  ℕ, ◌<◌, ◌≡◌, refl, sym, ap₂, ◌∙◌, ◌↔◌, ◌⊎◌, inl, inr, List, [], ◌∷◌, arith, ◌==◌, ltb, Bool-cases,
  ==_iff, ==_refl, ltb→lt, ne_of_false, not_ltb, if_true, if_false,
}
use demo_skynet_server.Handle.Names.{Sign, negative, nul, positive, strcmp}

sign_apart : (negative ≡ nul → ⊥) × (negative ≡ positive → ⊥) × (nul ≡ positive → ⊥)
sign_apart = (λ e. cc, λ e. cc, λ e. cc)

-- The three ways in which two first bytes compare.
pub strcmp_heads :
    (a b : ℕ) (us vs : List ℕ)
    → ((a ≡ b) × (strcmp (a ∷ us) (b ∷ vs) ≡ strcmp us vs))
      ⊎ (((a < b) × (strcmp (a ∷ us) (b ∷ vs) ≡ negative))
          ⊎ ((b < a) × (strcmp (a ∷ us) (b ∷ vs) ≡ positive)))
unfolding strcmp
strcmp_heads a b us vs = elim (Bool-cases (a == b)) [
  | inl t ↦ inl ((==_iff a b).0 t, if_true t _ _)
  | inr t ↦ inr (elim (Bool-cases (ltb a b)) [
    | inl l ↦ inl (ltb→lt a b l, if_false t _ _ ∙ if_true l _ _)
    | inr l ↦ inr (omega (arith, not_ltb a b l, ne_of_false a b t), if_false t _ _ ∙ if_false l _ _)
  ])
]

pub strcmp_self : (a : List ℕ) → strcmp a a ≡ nul
unfolding strcmp
strcmp_self [] = refl
strcmp_self (a ∷ us) = if_true (==_refl a) _ _ ∙ strcmp_self us

pub strcmp-nul : (a b : List ℕ) → strcmp a b ≡ nul → a ≡ b
unfolding strcmp
strcmp-nul [] [] e = refl
strcmp-nul [] (b ∷ vs) e = absurd (sign_apart.0 e)
strcmp-nul (a ∷ us) [] e = absurd (sign_apart.2 (sym e))
strcmp-nul (a ∷ us) (b ∷ vs) e = elim (strcmp_heads a b us vs) [
  | inl (h, r) ↦ ap₂ ◌∷◌ h (strcmp-nul us vs (sym r ∙ e))
  | inr (inl (h, r)) ↦ absurd (sign_apart.0 (sym r ∙ e))
  | inr (inr (h, r)) ↦ absurd (sign_apart.2 (sym e ∙ r))
]

strcmp-negative :
    (a b : ℕ) (us vs : List ℕ)
    → (strcmp (a ∷ us) (b ∷ vs) ≡ negative) ↔ ((a < b) ⊎ ((a ≡ b) × (strcmp us vs ≡ negative)))
strcmp-negative a b us vs = elim (strcmp_heads a b us vs) [
  | inl (h, r) ↦
      (λ e. inr (h, sym r ∙ e), λ c. elim c [ inl l ↦ absurd (omega arith) | inr (k, e) ↦ r ∙ e ])
  | inr (inl (h, r)) ↦ (λ e. inl h, λ c. r)
  | inr (inr (h, r)) ↦ (
    λ e. absurd (sign_apart.1 (sym e ∙ r)),
    λ c. elim c [ inl l ↦ absurd (omega arith) | inr (k, e) ↦ absurd (omega arith) ],
  )
]

strcmp-positive :
    (a b : ℕ) (us vs : List ℕ)
    → (strcmp (a ∷ us) (b ∷ vs) ≡ positive) ↔ ((b < a) ⊎ ((b ≡ a) × (strcmp us vs ≡ positive)))
strcmp-positive a b us vs = elim (strcmp_heads a b us vs) [
  | inl (h, r) ↦ (
    λ e. inr (sym h, sym r ∙ e),
    λ c. elim c [ inl l ↦ absurd (omega arith) | inr (k, e) ↦ r ∙ e ],
  )
  | inr (inr (h, r)) ↦ (λ e. inl h, λ c. r)
  | inr (inl (h, r)) ↦ (
    λ e. absurd (sign_apart.1 (sym r ∙ e)),
    λ c. elim c [ inl l ↦ absurd (omega arith) | inr (k, e) ↦ absurd (omega arith) ],
  )
]

pub strcmp_flip : (a b : List ℕ) → (strcmp a b ≡ positive) ↔ (strcmp b a ≡ negative)
unfolding strcmp
strcmp_flip [] [] = (λ e. absurd (sign_apart.2 e), λ e. absurd (sign_apart.0 (sym e)))
strcmp_flip [] (b ∷ vs) = (λ e. absurd (sign_apart.1 e), λ e. absurd (sign_apart.1 (sym e)))
strcmp_flip (a ∷ us) [] = (λ e. refl, λ e. refl)
strcmp_flip (a ∷ us) (b ∷ vs) = (
  λ e. (strcmp-negative b a vs us).1 (elim ((strcmp-positive a b us vs).0 e) [
    | inl h ↦ inl h
    | inr (h, r) ↦ inr (h, (strcmp_flip us vs).0 r)
  ]),
  λ e. (strcmp-positive a b us vs).1 (elim ((strcmp-negative b a vs us).0 e) [
    | inl h ↦ inl h
    | inr (h, r) ↦ inr (h, (strcmp_flip us vs).1 r)
  ]),
)

pub strcmp_trans :
    (a b c : List ℕ) → strcmp a b ≡ negative → strcmp b c ≡ negative → strcmp a c ≡ negative
unfolding strcmp
strcmp_trans a [] [] e f = absurd (sign_apart.0 (sym f))
strcmp_trans [] [] (c ∷ ws) e f = refl
strcmp_trans (a ∷ us) [] (c ∷ ws) e f = absurd (sign_apart.1 (sym e))
strcmp_trans a (b ∷ vs) [] e f = absurd (sign_apart.1 (sym f))
strcmp_trans [] (b ∷ vs) (c ∷ ws) e f = refl
strcmp_trans (a ∷ us) (b ∷ vs) (c ∷ ws) e f =
    (strcmp-negative a c us ws).1 (elim ((strcmp-negative a b us vs).0 e) [
      | inl h ↦ inl (elim ((strcmp-negative b c vs ws).0 f) [
        | inl k ↦ omega arith
        | inr (k, r) ↦ omega arith
      ])
      | inr (h, r) ↦ elim ((strcmp-negative b c vs ws).0 f) [
        | inl k ↦ inl (omega arith)
        | inr (k, t) ↦ inr (omega arith, strcmp_trans us vs ws r t)
      ]
    ])

pub below_apart : (a : List ℕ) → strcmp a a ≡ negative → ⊥
below_apart a e = sign_apart.0 (sym e ∙ strcmp_self a)

-- Every comparison ends in one of three ways.
pub strcmp_cases :
    (a b : List ℕ) → (strcmp a b ≡ nul) ⊎ ((strcmp a b ≡ negative) ⊎ (strcmp a b ≡ positive))
strcmp_cases a b = sign_cases (strcmp a b)
  where
    sign_cases : (s : Sign) → (s ≡ nul) ⊎ ((s ≡ negative) ⊎ (s ≡ positive))
    sign_cases nul = inl refl
    sign_cases negative = inr (inl refl)
    sign_cases positive = inr (inr refl)
