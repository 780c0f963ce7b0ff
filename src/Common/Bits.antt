-- ===== src/Common/Bits.antt =====
-- `&` and `|` with a mask of low ones, as arithmetic, at every width.
use Prim.Native.Nat.{
  ℕ, zero, suc, ◌+◌, ◌-◌, ◌*◌, ◌/◌, ◌%◌, ◌^◌, ◌≤◌, ◌<◌, ◌∣◌, min, max, bit_and, bit_or, digits,
  bit_and-bitwise, bit_or-bitwise,
}
use mathlib.Core.Path.{◌≡◌, sym, ap, ◌∙◌}
use native.Mathlib.Nat.{
  pow-succ', pow-le-pow_right, one-le-pow, le_refl, zero-mod, zero-div, div-add-mod,
  div-div-eq-div-mul,
}
use native.Mathlib.Decide.{dec_le}
use native.Mathlib.Omega.{arith}

-- One more bit of the mask: the remainder by `2 * p` in terms of the half.
mod-two-mul : (x p : ℕ) → 0 < p → x % (2 * p) ≡ x / 2 % p * 2 + x % 2
mod-two-mul x p h = omega (
  arith,
  div-add-mod x (2 * p),
  div-add-mod (x / 2) p,
  div-div-eq-div-mul x 2 p,
  ap (λ (t : ℕ). p * t) (div-div-eq-div-mul x 2 p),
)

mask_half : (k : ℕ) → ((2 ^ suc k - 1) / 2 ≡ 2 ^ k - 1) × ((2 ^ suc k - 1) % 2 ≡ 1)
mask_half k =
    (omega (arith, pow-succ' 2 k, one-le-pow k 2), omega (arith, pow-succ' 2 k, one-le-pow k 2))

mod-pow-suc : (x k : ℕ) → x % 2 ^ suc k ≡ x / 2 % 2 ^ k * 2 + x % 2
mod-pow-suc x k = rw (pow-succ' 2 k) (mod-two-mul x (2 ^ k) (omega (arith, one-le-pow k 2)))

-- The digit recursions behind the native operations, with any fuel that covers the number.
and_digits-mask : (n k a : ℕ) → a ≤ n → digits (λ y. 0) min n a (2 ^ k - 1) ≡ a % 2 ^ k
and_digits-mask zero k zero h = sym (zero-mod _)
and_digits-mask zero k (suc a) h = absurd (omega arith)
and_digits-mask (suc n) k zero h = sym (zero-mod _)
and_digits-mask (suc n) zero (suc a) h =
    omega (arith, and_digits-mask n 0 (suc a / 2) (omega arith))
and_digits-mask (suc n) (suc k) (suc a) h =
    rw ((mask_half k).0, (mask_half k).1, mod-pow-suc (suc a) k)
      (omega (arith, and_digits-mask n k (suc a / 2) (omega arith)))

or_digits-mask :
    (n k a : ℕ) → a ≤ n → digits (λ y. y) max n a (2 ^ k - 1) ≡ a / 2 ^ k * 2 ^ k + (2 ^ k - 1)
or_digits-mask zero k zero h = rw (zero-div) (omega arith)
or_digits-mask zero k (suc a) h = absurd (omega arith)
or_digits-mask (suc n) k zero h = rw (zero-div) (omega arith)
or_digits-mask (suc n) zero (suc a) h = omega (arith, or_digits-mask n 0 (suc a / 2) (omega arith))
or_digits-mask (suc n) (suc k) (suc a) h =
    rw ((mask_half k).0, (mask_half k).1)
      (omega (
        arith,
        or_digits-mask n k (suc a / 2) (omega arith),
        pow-succ' 2 k,
        one-le-pow k 2,
        div-div-eq-div-mul (suc a) 2 (2 ^ k),
        ap (λ (t : ℕ). suc a / t) (pow-succ' 2 k),
        ap (λ (t : ℕ). suc a / 2 ^ suc k * t) (pow-succ' 2 k),
        ap (λ (t : ℕ). t * 2 ^ k) (ap (λ (t : ℕ). suc a / t) (pow-succ' 2 k)),
        ap (λ (t : ℕ). t * 2 ^ k) (div-div-eq-div-mul (suc a) 2 (2 ^ k)),
      ))

-- `a & (2^k - 1)` is the remainder by `2^k`.
pub bit_and-mask : (k a : ℕ) → bit_and a (2 ^ k - 1) ≡ a % 2 ^ k
bit_and-mask k a = bit_and-bitwise a (2 ^ k - 1) ∙ and_digits-mask a k a (le_refl a)

-- `a | (2^k - 1)` raises the low `k` bits.
pub bit_or-mask : (k a : ℕ) → bit_or a (2 ^ k - 1) ≡ a / 2 ^ k * 2 ^ k + (2 ^ k - 1)
bit_or-mask k a = bit_or-bitwise a (2 ^ k - 1) ∙ or_digits-mask a k a (le_refl a)

double_field : (q k : ℕ) → (q * 2 ^ suc k / 2 ≡ q * 2 ^ k) × (q * 2 ^ suc k % 2 ≡ 0)
double_field q k =
    let twice : q * 2 ^ suc k ≡ 2 * (q * 2 ^ k) =
      ap (λ (t : ℕ). q * t) (pow-succ' 2 k) ∙ omega arith in
    (omega (arith, twice), omega (arith, twice))

or_digits-fields :
    (n k r q : ℕ) → r ≤ n → r < 2 ^ k → digits (λ y. y) max n r (q * 2 ^ k) ≡ q * 2 ^ k + r
or_digits-fields zero k zero q h lt = omega arith
or_digits-fields zero k (suc r) q h lt = absurd (omega arith)
or_digits-fields (suc n) k zero q h lt = omega arith
or_digits-fields (suc n) zero (suc r) q h lt = absurd (omega arith)
or_digits-fields (suc n) (suc k) (suc r) q h lt =
    rw ((double_field q k).0, (double_field q k).1)
      (omega (
        arith,
        double_field q k,
        or_digits-fields n k (suc r / 2) q (omega arith) (omega (arith, pow-succ' 2 k)),
      ))

zero_field : (k m : ℕ) → 0 ≡ 0 / 2 ^ k % 2 ^ m * 2 ^ k
zero_field k m = rw (zero-div, zero-mod) (omega arith)

and_digits-field :
    (n k m a : ℕ)
    → a ≤ n
    → digits (λ y. 0) min n a ((2 ^ m - 1) * 2 ^ k) ≡ a / 2 ^ k % 2 ^ m * 2 ^ k
and_digits-field n zero m a h =
    ap (digits (λ y. 0) min n a) (omega arith) ∙ and_digits-mask n m a h ∙ lowest
  where
    whole : a ≡ a / 2 ^ 0
    whole = omega arith

    lowest : a % 2 ^ m ≡ a / 2 ^ 0 % 2 ^ m * 2 ^ 0
    lowest = ap (λ (t : ℕ). t % 2 ^ m) whole ∙ omega arith
and_digits-field zero (suc k) m zero h = zero_field (suc k) m
and_digits-field zero (suc k) m (suc a) h = absurd (omega arith)
and_digits-field (suc n) (suc k) m zero h = zero_field (suc k) m
and_digits-field (suc n) (suc k) m (suc a) h =
    rw ((double_field (2 ^ m - 1) k).0, (double_field (2 ^ m - 1) k).1)
      (omega (
        arith,
        and_digits-field n k m (suc a / 2) (omega arith),
        ap (λ (t : ℕ). t % 2 ^ m * 2 ^ k) halved,
        double_field (suc a / 2 ^ suc k % 2 ^ m) k,
      ))
  where
    halved : suc a / 2 / 2 ^ k ≡ suc a / 2 ^ suc k
    halved = div-div-eq-div-mul (suc a) 2 (2 ^ k) ∙ ap (λ (t : ℕ). suc a / t) (sym (pow-succ' 2 k))

-- `r | (q << k)` is a sum where `r` fits into `k` bits.
pub bit_or-fields : (k r q : ℕ) → r < 2 ^ k → bit_or r (q * 2 ^ k) ≡ q * 2 ^ k + r
bit_or-fields k r q h = bit_or-bitwise r (q * 2 ^ k) ∙ or_digits-fields r k r q (le_refl r) h

-- `a & mask` for a mask of `m` ones above `k` zeros.
pub bit_and-field : (k m a : ℕ) → bit_and a ((2 ^ m - 1) * 2 ^ k) ≡ a / 2 ^ k % 2 ^ m * 2 ^ k
bit_and-field k m a = bit_and-bitwise a ((2 ^ m - 1) * 2 ^ k) ∙ and_digits-field a k m a (le_refl a)

two-pow-add : (a b : ℕ) → 2 ^ (a + b) ≡ 2 ^ a * 2 ^ b
two-pow-add zero b = let e : zero + b ≡ b = omega arith in ap (λ (t : ℕ). 2 ^ t) e ∙ omega arith
two-pow-add (suc a) b =
    let e : suc a + b ≡ suc (a + b) = omega arith in
    ap (λ (t : ℕ). 2 ^ t) e
    ∙ pow-succ' 2 (a + b)
    ∙ omega
        (arith, ap (λ (t : ℕ). 2 * t) (two-pow-add a b), ap (λ (t : ℕ). t * 2 ^ b) (pow-succ' 2 a))

-- Powers of two divide the larger ones.
pub two-pow-dvd : (a b : ℕ) → a ≤ b → 2 ^ a ∣ 2 ^ b
two-pow-dvd a b h =
    let e : b ≡ a + (b - a) = omega arith in
    ∣ (2 ^ (b - a), ap (λ (t : ℕ). 2 ^ t) e ∙ two-pow-add a (b - a)) ∣₁

pub two-pow-le : {a b : ℕ} → a ≤ b → 2 ^ a ≤ 2 ^ b
two-pow-le h = pow-le-pow_right {n = 2} (omega arith) h

pub le_of_two-pow-le : (a b : ℕ) → 2 ^ a ≤ 2 ^ b → a ≤ b
le_of_two-pow-le a b h = elim (dec_le a b) [
  | yes p ↦ p
  | no np ↦
      absurd
        (omega (arith, two-pow-le {a = suc b} {b = a} (omega arith), pow-succ' 2 b, one-le-pow b 2))
]

or_digits-lt : (n k a b : ℕ) → a ≤ n → a < 2 ^ k → b < 2 ^ k → digits (λ y. y) max n a b < 2 ^ k
or_digits-lt zero k zero b h la lb = omega arith
or_digits-lt zero k (suc a) b h la lb = absurd (omega arith)
or_digits-lt (suc n) k zero b h la lb = omega arith
or_digits-lt (suc n) zero (suc a) b h la lb = absurd (omega arith)
or_digits-lt (suc n) (suc k) (suc a) b h la lb = omega (
  arith,
  pow-succ' 2 k,
  or_digits-lt n k (suc a / 2) (b / 2) (omega arith) (omega (arith, pow-succ' 2 k))
      (omega (arith, pow-succ' 2 k)),
)

or_digits-ge : (n a b : ℕ) → a ≤ n → a ≤ digits (λ y. y) max n a b
or_digits-ge zero zero b h = omega arith
or_digits-ge zero (suc a) b h = absurd (omega arith)
or_digits-ge (suc n) zero b h = omega arith
or_digits-ge (suc n) (suc a) b h = omega (arith, or_digits-ge n (suc a / 2) (b / 2) (omega arith))

-- `a | b` is at least `a`.
pub bit_or-ge : (a b : ℕ) → a ≤ bit_or a b
bit_or-ge a b = omega (arith, bit_or-bitwise a b, or_digits-ge a a b (le_refl a))

-- `a | b` needs no more bits than `a` and `b`.
pub bit_or-lt : (k a b : ℕ) → a < 2 ^ k → b < 2 ^ k → bit_or a b < 2 ^ k
bit_or-lt k a b la lb =
    let e = bit_or-bitwise a b in omega (arith, e, or_digits-lt a k a b (le_refl a) la lb)

or_digits-zero : (m b : ℕ) → b ≤ m → digits (λ y. y) max m b 0 ≡ b
or_digits-zero zero zero h = omega arith
or_digits-zero zero (suc b) h = absurd (omega arith)
or_digits-zero (suc m) zero h = omega arith
or_digits-zero (suc m) (suc b) h = omega (arith, or_digits-zero m (suc b / 2) (omega arith))

or_digits-swap :
    (n m a b : ℕ) → a ≤ n → b ≤ m → digits (λ y. y) max n a b ≡ digits (λ y. y) max m b a
or_digits-swap zero m zero b h k = omega (arith, or_digits-zero m b k)
or_digits-swap zero m (suc a) b h k = absurd (omega arith)
or_digits-swap (suc n) m zero b h k = omega (arith, or_digits-zero m b k)
or_digits-swap (suc n) zero (suc a) zero h k = omega (arith, or_digits-zero (suc n) (suc a) h)
or_digits-swap (suc n) zero (suc a) (suc b) h k = absurd (omega arith)
or_digits-swap (suc n) (suc m) (suc a) zero h k = omega (arith, or_digits-zero (suc n) (suc a) h)
or_digits-swap (suc n) (suc m) (suc a) (suc b) h k =
    omega (arith, or_digits-swap n m (suc a / 2) (suc b / 2) (omega arith) (omega arith))

pub bit_or_comm : (a b : ℕ) → bit_or a b ≡ bit_or b a
bit_or_comm a b =
    bit_or-bitwise a b ∙ or_digits-swap a b a b (le_refl a) (le_refl b) ∙ sym (bit_or-bitwise b a)
