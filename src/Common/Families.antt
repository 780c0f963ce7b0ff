-- ===== src/Common/Families.antt =====
-- Families indexed by numbers: one member changed, and the sum of a weight over the first `n`.
use Prim.Native.Nat.{ℕ, zero, suc, ◌+◌, ◌≤◌, ◌<◌}
use mathlib.Core.Path.{◌≡◌, refl, sym, ap, ◌∙◌}
use mathlib.Core.Logic.{◌≢◌}
use native.Mathlib.Omega.{arith}
use native.Mathlib.Decide.{ℕ_discrete}
use demo_skynet_server.Common.Tests.{◌==◌, if◌then◌else◌, if_true, if_ne, ==_refl}

module _ {ℓ} {A : Type ℓ} where
  abbrev pub update : (ℕ → A) → ℕ → A → (ℕ → A)
  update f i a = λ k. if k == i then a else f k

  pub update_at : (f : ℕ → A) (i : ℕ) (a : A) → update f i a i ≡ a
  update_at f i a = if_true (==_refl i) a (f i)

  pub update_off : (f : ℕ → A) (i k : ℕ) (a : A) → k ≢ i → update f i a k ≡ f k
  update_off f i k a ne = if_ne k i ne a (f k)

  unfoldable pub sum : (A → ℕ) → ℕ → (ℕ → A) → ℕ
  sum w zero f = 0
  sum w (suc n) f = sum w n f + w (f n)

  sum-update_past :
      (w : A → ℕ) (n : ℕ) (f : ℕ → A) (i : ℕ) (a : A) → n ≤ i → sum w n (update f i a) ≡ sum w n f
  unfolding sum
  sum-update_past w zero f i a h = refl
  sum-update_past w (suc n) f i a h =
      omega
        (arith, sum-update_past w n f i a (omega arith), ap w (update_off f i n a (omega arith)))

  pub sum-update :
      (w : A → ℕ) (n : ℕ) (f : ℕ → A) (i : ℕ) (a : A)
      → i < n
      → sum w n (update f i a) + w (f i) ≡ sum w n f + w a
  unfolding sum
  sum-update w zero f i a h = absurd (omega arith)
  sum-update w (suc n) f i a h = elim (ℕ_discrete i n) [
    | yes e ↦ omega (
      arith,
      sum-update_past w n f i a (omega arith),
      ap w (ap (update f i a) (sym e) ∙ update_at f i a),
      ap (λ k. w (f k)) e,
    )
    | no ne ↦
        omega (arith, sum-update w n f i a (omega arith), ap w (update_off f i n a (omega arith)))
  ]

  -- One thread's share is in the sum, and so are those of two threads.
  pub sum-one : (w : A → ℕ) (n : ℕ) (f : ℕ → A) (i : ℕ) → i < n → w (f i) ≤ sum w n f
  unfolding sum
  sum-one w zero f i h = absurd (omega arith)
  sum-one w (suc n) f i h = elim (ℕ_discrete i n) [
    | yes e ↦ omega (arith, ap (λ k. w (f k)) e)
    | no ne ↦ omega (arith, sum-one w n f i (omega arith))
  ]

  pub sum-two :
      (w : A → ℕ) (n : ℕ) (f : ℕ → A) (i j : ℕ)
      → i < n
      → j < n
      → i ≢ j
      → w (f i) + w (f j) ≤ sum w n f
  unfolding sum
  sum-two w zero f i j h k ne = absurd (omega arith)
  sum-two w (suc n) f i j h k ne = elim (ℕ_discrete i n) [
    | yes e ↦ omega (arith, ap (λ m. w (f m)) e, sum-one w n f j (omega arith))
    | no off ↦ elim (ℕ_discrete j n) [
      | yes e ↦ omega (arith, ap (λ m. w (f m)) e, sum-one w n f i (omega arith))
      | no off' ↦ omega (arith, sum-two w n f i j (omega arith) (omega arith) ne)
    ]
  ]

  pub sum-zero : (w : A → ℕ) (n : ℕ) (a : A) → w a ≡ 0 → sum w n (λ i. a) ≡ 0
  unfolding sum
  sum-zero w zero a h = refl
  sum-zero w (suc n) a h = omega (arith, sum-zero w n a h)

  pub sum_mono : (w u : A → ℕ) (n : ℕ) (f : ℕ → A) → ((a : A) → w a ≤ u a) → sum w n f ≤ sum u n f
  unfolding sum
  sum_mono w u zero f h = omega arith
  sum_mono w u (suc n) f h = omega (arith, sum_mono w u n f h, h (f n))
