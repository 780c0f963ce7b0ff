-- ===== src/Crypt/DiffieHellman/Power.antt =====
-- `pow_mod_p` and `powmodp` of lualib-src/lua-crypt.c.
use native.Mathlib.Nat.{pow-succ', pow-zero, mod-mod, div-add-mod}
use native.Mathlib.Decide.{dec_lt, ℕ_discrete}
use demo_skynet_server.Common.{
  ℕ, zero, suc, ◌+◌, ◌*◌, ◌/◌, ◌%◌, ◌^◌, ◌≤◌, ◌<◌, ◌≡◌, refl, sym, ap, ap₂, ◌∙◌, ◌&&◌, some, ◌==◌,
  if◌then◌else◌, if_true, if_false, ==_iff, ==_differ, lt→ltb, not_lt→ltb, arith, and_left,
  and_right,
}
use demo_skynet_server.Crypt.DiffieHellman.{P, word, square_mod_p, pow_mod_p, powmodp}
use demo_skynet_server.Crypt.DiffieHellman.Multiply.{same_rest, mul_mod_p_lem}

-- A product has the rest of the product of the rests.
rest_mul_left : (x y : ℕ) → x % P * y % P ≡ x * y % P
rest_mul_left x y = sym (
    same_rest (x * y) (x % P * y) (x / P * y)
      (ap (λ (z : ℕ). z * y) (sym (div-add-mod x P)) ∙ grind arith))

rest_mul_right : (x y : ℕ) → x * (y % P) % P ≡ x * y % P
rest_mul_right x y =
    let c : x * (y % P) ≡ y % P * x = grind arith in
    let d : y * x ≡ x * y = grind arith in
    ap (λ (z : ℕ). z % P) c ∙ rest_mul_left y x ∙ ap (λ (z : ℕ). z % P) d

pub rest_mul : (x y x' y' : ℕ) → x % P ≡ x' % P → y % P ≡ y' % P → x * y % P ≡ x' * y' % P
rest_mul x y x' y' e f =
    sym (rest_mul_left x y)
    ∙ sym (rest_mul_right (x % P) y)
    ∙ ap₂ (λ u v. u * v % P) e f
    ∙ rest_mul_right (x' % P) y'
    ∙ rest_mul_left x' y'

pub rest_pow : (x y : ℕ) → x % P ≡ y % P → (n : ℕ) → x ^ n % P ≡ y ^ n % P
rest_pow x y e zero = ap (λ (z : ℕ). z % P) (pow-zero x ∙ sym (pow-zero y))
rest_pow x y e (suc n) =
    ap (λ (z : ℕ). z % P) (pow-succ' x n)
    ∙ rest_mul x (x ^ n) y (y ^ n) e (rest_pow x y e n)
    ∙ sym (ap (λ (z : ℕ). z % P) (pow-succ' y n))

pub pow-add : (a m n : ℕ) → a ^ (m + n) ≡ a ^ m * a ^ n
pow-add a zero n =
    (let z : 0 + n ≡ n = omega arith in ap (λ (k : ℕ). a ^ k) z)
    ∙ omega (arith, ap (λ (z : ℕ). z * a ^ n) (pow-zero a))
pow-add a (suc m) n =
    (let s : suc m + n ≡ suc (m + n) = omega arith in ap (λ (k : ℕ). a ^ k) s)
    ∙ pow-succ' a (m + n)
    ∙ ap (λ (z : ℕ). a * z) (pow-add a m n)
    ∙ (let assoc : a * (a ^ m * a ^ n) ≡ a * a ^ m * a ^ n = grind arith in assoc)
    ∙ ap (λ (z : ℕ). z * a ^ n) (sym (pow-succ' a m))

power_one : (a : ℕ) → a ^ 1 ≡ a
power_one a = pow-succ' a 0 ∙ omega (arith, ap (λ (z : ℕ). a * z) (pow-zero a))

-- The result for half of the exponent gives the result.
squared :
    (a b t : ℕ)
    → a ≤ P
    → t ≤ P
    → t % P ≡ a ^ (b / 2) % P
    → square_mod_p a b (some t) ≡ some (a ^ b % P)
unfolding square_mod_p
squared a b t ha ht e =
    let h : ℕ = b / 2 in
    let square : t * t % P ≡ a ^ (h + h) % P =
      rest_mul t t (a ^ h) (a ^ h) e e ∙ ap (λ (z : ℕ). z % P) (sym (pow-add a h h)) in
    elim (ℕ_discrete (b % 2) 0) [
      | yes even ↦
          let half : h + h ≡ b = omega arith in
          rw (mul_mod_p_lem t t ht (omega arith), (==_iff (b % 2) 0).1 even)
            (ap (λ (z : ℕ). some z) (square ∙ ap (λ (n : ℕ). a ^ n % P) half))
      | no odd ↦
          let half : suc (h + h) ≡ b = omega arith in
          rw (mul_mod_p_lem t t ht (omega arith), ==_differ (b % 2) 0 odd)
            (mul_mod_p_lem (t * t % P) a (omega arith) (omega arith)
              ∙ ap (λ (z : ℕ). some z)
                  (rest_mul (t * t % P) a (a ^ (h + h)) a (mod-mod (t * t) P ∙ square) refl
                    ∙ ap (λ (z : ℕ). z % P)
                        ((let c : a ^ (h + h) * a ≡ a * a ^ (h + h) = grind arith in c)
                          ∙ sym (pow-succ' a (h + h))
                          ∙ ap (λ (n : ℕ). a ^ n) half)))
    ]

-- `pow_mod_p` by the number of the bits of the exponent.
pow_mod_p_lem :
    (k a b : ℕ)
    → a ≤ P
    → 0 < b
    → b < 2 ^ k
    → pow_mod_p k a b ≡ some (if b == 1 then a else a ^ b % P)
unfolding pow_mod_p
pow_mod_p_lem zero a b ha pos small = absurd (omega (arith, small))
pow_mod_p_lem (suc k) a b ha pos small = elim (ℕ_discrete b 1) [
  | yes one ↦ rw ((==_iff b 1).1 one) refl
  | no more ↦
      let half = pow_mod_p_lem k a (b / 2) ha (omega arith) (omega (arith, small, pow-succ' 2 k)) in
      rw (==_differ b 1 more) (ap (square_mod_p a b) half ∙ halved a b (b / 2) ha refl)
]
  where
    halved :
        (a b h : ℕ)
        → a ≤ P
        → h ≡ b / 2
        → square_mod_p a b (some (if h == 1 then a else a ^ h % P)) ≡ some (a ^ b % P)
    halved a b h ha e = elim (ℕ_discrete h 1) [
      | yes one ↦
          ap (λ (z : ℕ). square_mod_p a b (some z)) (if_true ((==_iff h 1).1 one) a (a ^ h % P))
          ∙ squared a b a ha ha
              (ap (λ (z : ℕ). z % P) (sym (power_one a)) ∙ ap (λ (n : ℕ). a ^ n % P) (sym one ∙ e))
      | no more ↦
          ap (λ (z : ℕ). square_mod_p a b (some z)) (if_false (==_differ h 1 more) a (a ^ h % P))
          ∙ squared a b (a ^ h % P) ha (omega arith)
              (mod-mod (a ^ h) P ∙ ap (λ (n : ℕ). a ^ n % P) e)
    ]

-- The one case in which the result is not below `P`.
only_one :
    (a b : ℕ)
    → a ≤ P
    → (if b == 1 then a else a ^ b % P) ≡ (if a == P && b == 1 then P else a ^ b % P)
only_one a b ha = elim (ℕ_discrete b 1) [
  | no more ↦
      if_false (==_differ b 1 more) a (a ^ b % P)
      ∙ sym (if_false (and_right (a == P) (b == 1) (==_differ b 1 more)) P (a ^ b % P))
  | yes one ↦ if_true ((==_iff b 1).1 one) a (a ^ b % P) ∙ elim (ℕ_discrete a P) [
    | yes top ↦
        top ∙ sym (if_true (ap₂ ◌&&◌ ((==_iff a P).1 top) ((==_iff b 1).1 one)) P (a ^ b % P))
    | no below ↦
        omega (arith, power_one a)
        ∙ ap (λ (n : ℕ). a ^ n % P) (sym one)
        ∙ sym (if_false (and_left (a == P) (b == 1) (==_differ a P below)) P (a ^ b % P))
  ]
]

-- `powmodp` is the power modulo `P` for a number of 64 bits and an exponent of 64 bits that is not
-- zero, within 64 calls of `pow_mod_p`; except that it gives `P` back for the power 1 of `P` itself.
pub powmodp_lem :
    (a b : ℕ)
    → a < word
    → 0 < b
    → b < word
    → powmodp a b ≡ some (if a == P && b == 1 then P else a ^ b % P)
unfolding powmodp
powmodp_lem a b ha pos hb = elim (dec_lt P a) [
  | yes above ↦
      let r : ℕ = a % P in
      ap (λ (z : ℕ). pow_mod_p 64 z b) (if_true (lt→ltb P a above) r a)
      ∙ pow_mod_p_lem 64 r b (omega arith) pos hb
      ∙ ap (λ (z : ℕ). some z)
          (only_one r b (omega arith)
            ∙ if_false (and_left (r == P) (b == 1) (==_differ r P (omega arith))) P (r ^ b % P)
            ∙ rest_pow r a (mod-mod a P) b
            ∙ sym
                (if_false (and_left (a == P) (b == 1) (==_differ a P (omega arith))) P (a ^ b % P)))
  | no below ↦
      ap (λ (z : ℕ). pow_mod_p 64 z b) (if_false (not_lt→ltb P a (omega arith)) (a % P) a)
      ∙ pow_mod_p_lem 64 a b (omega arith) pos hb
      ∙ ap (λ (z : ℕ). some z) (only_one a b (omega arith))
]
