-- ===== src/Crypt/DiffieHellman/Exchange.antt =====
-- `dhexchange` and `dhsecret` of lualib-src/lua-crypt.c, on both sides of an exchange.
use mathlib.Core.Option
use native.Mathlib.Nat.{pow-succ', pow-zero, mod-mod}
use native.Mathlib.Decide.{ℕ_discrete}
use demo_skynet_server.Common.{
  ℕ, zero, suc, ◌+◌, ◌*◌, ◌/◌, ◌%◌, ◌^◌, ◌<◌, ◌≡◌, refl, sym, ap, ap₂, ◌∙◌, ◌≢◌, bit_or,
  bit_or-fields, some, List, [], ◌∷◌, length, All, ◌==◌, if_false, ==_differ, and_left, arith,
}
use demo_skynet_server.Crypt.DiffieHellman.{
  P, word, G, read32, read64, push64, dhexchange, dhsecret,
}
use demo_skynet_server.Crypt.DiffieHellman.Multiply.{same_rest}
use demo_skynet_server.Crypt.DiffieHellman.Power.{rest_mul, rest_pow, pow-add, powmodp_lem}

-- A power of `G` is no multiple of `P`, for `G` has an inverse.
abbrev inverse : ℕ
inverse = 7378697629483820623

power_nonzero : (n : ℕ) → G ^ n % P ≢ 0
power_nonzero zero e = omega (arith, e, pow-zero G)
power_nonzero (suc n) e = power_nonzero n (
    sym (
      same_rest (inverse * G ^ suc n) (G ^ n) (2 * G ^ n)
        (omega (arith, ap (λ (z : ℕ). inverse * z) (pow-succ' G n))))
    ∙ rest_mul inverse (G ^ suc n) inverse 0 refl e)

read32_lem :
    (a b c d : ℕ)
    → a < 256
    → b < 256
    → c < 256
    → read32 a b c d ≡ d * 2 ^ 24 + (c * 2 ^ 16 + (b * 2 ^ 8 + a))
unfolding read32
read32_lem a b c d ha hb hc =
    ap (λ (z : ℕ). bit_or (bit_or z (c * 2 ^ 16)) (d * 2 ^ 24)) (bit_or-fields 8 a b ha)
    ∙ ap (λ (z : ℕ). bit_or z (d * 2 ^ 24)) (bit_or-fields 16 (b * 2 ^ 8 + a) c (omega arith))
    ∙ bit_or-fields 24 (c * 2 ^ 16 + (b * 2 ^ 8 + a)) d (omega arith)

abbrev Byte : ℕ → Type 0
Byte b = b < 256

-- The eight bytes, the first the lowest.
read64_lem :
    (a b c d e f g h : ℕ)
    → All Byte (a ∷ b ∷ c ∷ d ∷ e ∷ f ∷ g ∷ h ∷ [])
    → read64 (a ∷ b ∷ c ∷ d ∷ e ∷ f ∷ g ∷ h ∷ [])
      ≡ some (
          (h * 2 ^ 24 + (g * 2 ^ 16 + (f * 2 ^ 8 + e))) * 2 ^ 32
          + (d * 2 ^ 24 + (c * 2 ^ 16 + (b * 2 ^ 8 + a))))
unfolding read64
read64_lem a b c d e f g h (ha, (hb, (hc, (hd, (he, (hf, (hg, (hh, u)))))))) =
    ap₂ (λ l u. some (bit_or l (u * 2 ^ 32))) (read32_lem a b c d ha hb hc)
      (read32_lem e f g h he hf hg)
    ∙ ap (λ (z : ℕ). some z)
        (bit_or-fields 32 (d * 2 ^ 24 + (c * 2 ^ 16 + (b * 2 ^ 8 + a))) _ (omega arith))

pub read64-push64 : (r : ℕ) → r < word → read64 (push64 r) ≡ some r
unfolding push64
read64-push64 r h =
    read64_lem (r % 256) (r / 2 ^ 8 % 256) (r / 2 ^ 16 % 256) (r / 2 ^ 24 % 256) (r / 2 ^ 32 % 256)
      (r / 2 ^ 40 % 256) (r / 2 ^ 48 % 256) (r / 2 ^ 56 % 256)
      (
        omega arith,
        (
          omega arith,
          (
            omega arith,
            (omega arith, (omega arith, (omega arith, (omega arith, (omega arith, tt))))),
          ),
        ),
      )
    ∙ ap (λ (z : ℕ). some z) (omega arith)

-- Eight bytes that are not all zero.
abbrev pub IsKey : List ℕ → Type 0
IsKey x = (length x ≡ 8) × All Byte x × (read64 x ≢ some 0)

number : (x : List ℕ) → length x ≡ 8 → All Byte x → (n : ℕ) × (read64 x ≡ some n) × (n < word)
number (a ∷ b ∷ c ∷ d ∷ e ∷ f ∷ g ∷ h ∷ []) l all =
    (_, read64_lem a b c d e f g h all, omega (arith, all))
number [] l all = absurd (omega arith)
number (a ∷ []) l all = absurd (omega arith)
number (a ∷ b ∷ []) l all = absurd (omega arith)
number (a ∷ b ∷ c ∷ []) l all = absurd (omega arith)
number (a ∷ b ∷ c ∷ d ∷ []) l all = absurd (omega arith)
number (a ∷ b ∷ c ∷ d ∷ e ∷ []) l all = absurd (omega arith)
number (a ∷ b ∷ c ∷ d ∷ e ∷ f ∷ []) l all = absurd (omega arith)
number (a ∷ b ∷ c ∷ d ∷ e ∷ f ∷ g ∷ []) l all = absurd (omega arith)
number (a ∷ b ∷ c ∷ d ∷ e ∷ f ∷ g ∷ h ∷ i ∷ x) l all = absurd (omega arith)

pow-mul : (a m n : ℕ) → (a ^ m) ^ n ≡ a ^ (m * n)
pow-mul a m zero =
    pow-zero (a ^ m)
    ∙ sym (ap (λ (k : ℕ). a ^ k) (let z : m * 0 ≡ 0 = omega arith in z) ∙ pow-zero a)
pow-mul a m (suc n) =
    pow-succ' (a ^ m) n
    ∙ ap (λ (z : ℕ). a ^ m * z) (pow-mul a m n)
    ∙ sym (pow-add a m (m * n))
    ∙ ap (λ (k : ℕ). a ^ k) (let s : m + m * n ≡ m * suc n = grind arith in s)

-- The public value, as a number and as bytes.
module _ (x : List ℕ) (m : ℕ) (at : read64 x ≡ some m) (pos : 0 < m) (small : m < word) where
  abbrev public : ℕ
  public = G ^ m % P

  exchanged : dhexchange x ≡ some (push64 public)
  unfolding dhexchange
  exchanged =
      rw (at, ==_differ m 0 (omega arith))
        (ap (Option.map push64) (
          powmodp_lem G m (omega arith) pos small
          ∙ ap (λ (z : ℕ). some z) (if_false (and_left (G == P) (m == 1) refl) P (G ^ m % P))))

  secret_with : (n : ℕ) → dhsecret (push64 (G ^ n % P)) x ≡ some (push64 (G ^ (n * m) % P))
  unfolding dhsecret
  secret_with n =
      let g : ℕ = G ^ n % P in
      rw
        (
          read64-push64 g (omega arith),
          at,
          ==_differ g 0 (power_nonzero n),
          ==_differ m 0 (omega arith),
        )
        (ap (Option.map push64) (
          powmodp_lem g m (omega arith) pos small
          ∙ ap (λ (z : ℕ). some z)
              (if_false (and_left (g == P) (m == 1) (==_differ g P (omega arith))) P (g ^ m % P)
                ∙ rest_pow g (G ^ n) (mod-mod (G ^ n) P) m
                ∙ ap (λ (z : ℕ). z % P) (pow-mul G n m))))

key_number : (x : List ℕ) → IsKey x → (n : ℕ) × (read64 x ≡ some n) × (0 < n) × (n < word)
key_number x (size, all, nonzero) =
    let (n, at, small) = number x size all in
    (
      n,
      at,
      elim (ℕ_discrete n 0) [
        | yes z ↦ absurd (nonzero (at ∙ ap (λ (k : ℕ). some k) z))
        | no ne ↦ omega arith
      ],
      small,
    )

-- For any two keys of eight bytes that are not all zero, `dhexchange` gives a public value for each,
-- and `dhsecret` gives both sides the same secret, each from its own key and the other's value.
pub dhsecret_agrees :
    (x y : List ℕ)
    → IsKey x
    → IsKey y
    → (gx : List ℕ) × (gy : List ℕ) × (s : List ℕ) × (dhexchange x ≡ some gx)
      × (dhexchange y ≡ some gy)
      × (dhsecret gy x ≡ some s)
      × (dhsecret gx y ≡ some s)
dhsecret_agrees x y kx ky =
    let (m, at_x, pos_m, small_m) = key_number x kx in
    let (n, at_y, pos_n, small_n) = key_number y ky in
    let swap : m * n ≡ n * m = grind arith in
    (
      push64 (G ^ m % P),
      push64 (G ^ n % P),
      push64 (G ^ (n * m) % P),
      exchanged x m at_x pos_m small_m,
      exchanged y n at_y pos_n small_n,
      secret_with x m at_x pos_m small_m n,
      secret_with y n at_y pos_n small_n m ∙ ap (λ k. some (push64 (G ^ k % P))) swap,
    )
