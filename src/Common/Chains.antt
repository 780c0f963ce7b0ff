-- ===== src/Common/Chains.antt =====
-- Linked chains of nodes, as lists of their addresses.
use Prim.Native.Nat.{ℕ, zero, suc, ◌+◌, ◌≤◌, ◌<◌}
use mathlib.Core.Path.{◌≡◌, refl, sym, ap, ◌∙◌}
use mathlib.Core.Logic.{◌≢◌, inl, inr}
use native.Mathlib.Decide.{ℕ_discrete}
use mathlib.Core.Option.{Option, none, some}
use mathlib.Core.List.{List, [], ◌∷◌, ◌++◌}
use native.Mathlib.Omega.{arith}
use demo_skynet_server.Common.Tests.{
  ◌==◌, if◌then◌else◌, if_true, if_false, Bool-cases, ==_iff, ne_of_false,
}
use demo_skynet_server.Common.Lists.{length}

-- How often an address is in a list.
abbrev pub count : ℕ → List ℕ → ℕ
count p [] = 0
count p (x ∷ xs) = (if x == p then 1 else 0) + count p xs

abbrev pub first : List ℕ → Option ℕ
first [] = none
first (x ∷ xs) = some x

-- Each node of the list points to the one behind it, and the last one to none.
abbrev pub Links : (ℕ → Option ℕ) → List ℕ → Type 0
Links f [] = Unit
Links f (p ∷ ps) = (f p ≡ first ps) × Links f ps

pub count-append : (p : ℕ) (xs ys : List ℕ) → count p (xs ++ ys) ≡ count p xs + count p ys
count-append p [] ys = omega arith
count-append p (x ∷ xs) ys = omega (arith, count-append p xs ys)

pub Links-frame :
    (f g : ℕ → Option ℕ) (xs : List ℕ)
    → ((p : ℕ) → 0 < count p xs → g p ≡ f p)
    → Links f xs
    → Links g xs
Links-frame f g [] same l = tt
Links-frame f g (x ∷ xs) same l =
    (same x (ground arith) ∙ l.0, Links-frame f g xs (λ p h. same p (omega arith)) l.1)

pub counted : (x t : ℕ) → x ≡ t → (if x == t then 1 else 0) ≡ suc 0
counted x t h = ground arith

pub absent : (c x : ℕ) (xs : List ℕ) → x ≢ c → count c xs ≡ count c (x ∷ xs)
absent c x xs ne = ground arith

-- A list of different numbers below `n` has at most `n` members.
abbrev without : ℕ → List ℕ → List ℕ
without n [] = []
without n (x ∷ xs) = if x == n then without n xs else x ∷ without n xs

without_lem :
    (n : ℕ) (xs : List ℕ)
    → (length xs ≡ length (without n xs) + count n xs)
      × ((c : ℕ) → c ≢ n → count c (without n xs) ≡ count c xs)
      × (count n (without n xs) ≡ 0)
without_lem n [] = (omega arith, λ c ne. refl, refl)
without_lem n (x ∷ xs) =
    let (size, others, gone) = without_lem n xs in
    elim (Bool-cases (x == n)) [
      | inl t ↦
          let e = (==_iff x n).0 t in
          (
            rw t (omega (arith, size)),
            λ c ne.
                ap (count c) (if_true t (without n xs) (x ∷ without n xs))
                ∙ others c ne
                ∙ absent c x xs (λ f. ne (sym f ∙ e)),
            ap (count n) (if_true t (without n xs) (x ∷ without n xs)) ∙ gone,
          )
      | inr t ↦
          let ne = ne_of_false x n t in
          (
            rw t (omega (arith, size)),
            λ c h.
                ap (count c) (if_false t (without n xs) (x ∷ without n xs))
                ∙ ap (λ (k : ℕ). (if x == c then 1 else 0) + k) (others c h),
            ap (count n) (if_false t (without n xs) (x ∷ without n xs))
                ∙ sym (absent n x (without n xs) ne)
                ∙ gone,
          )
    ]

pub pigeon :
    (n : ℕ) (xs : List ℕ)
    → ((c : ℕ) → count c xs ≤ 1)
    → ((c : ℕ) → n ≤ c → count c xs ≡ 0)
    → length xs ≤ n
pigeon zero [] few below = omega arith
pigeon zero (x ∷ xs) few below = absurd (omega (arith, below x (omega arith), counted x x refl))
pigeon (suc n) xs few below =
    let (size, others, gone) = without_lem n xs in
    omega (
      arith,
      size,
      few n,
      pigeon n (without n xs)
          (λ c. elim (ℕ_discrete c n) [
            | yes e ↦ omega (arith, ap (λ (k : ℕ). count k (without n xs)) e, gone)
            | no ne ↦ omega (arith, others c ne, few c)
          ])
          (λ c h. elim (ℕ_discrete c n) [
            | yes e ↦ ap (λ (k : ℕ). count k (without n xs)) e ∙ gone
            | no ne ↦ others c ne ∙ below c (omega arith)
          ]),
    )
