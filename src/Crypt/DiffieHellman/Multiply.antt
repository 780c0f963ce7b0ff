-- ===== src/Crypt/DiffieHellman/Multiply.antt =====
-- `mul_mod_p` of lualib-src/lua-crypt.c.
use native.Mathlib.Nat.{add-mul-mod_self_right, add-mul, pow-succ'}
use native.Mathlib.Decide.{dec_le, ℕ_discrete}
use demo_skynet_server.Common.{
  ℕ, zero, suc, ◌+◌, ◌-◌, ◌*◌, ◌/◌, ◌%◌, ◌^◌, ◌≤◌, ◌<◌, ◌≡◌, refl, sym, ap, ◌∙◌, ◌≢◌, ◌⊎◌, inl, inr,
  some, ◌==◌, if◌then◌else◌, if_true, if_false, ==_iff, ==_differ, le→leb, not_le→leb, arith,
}
use demo_skynet_server.Crypt.DiffieHellman.{P, word, add_mod_p, double_mod_p, mul_loop, mul_mod_p}

-- Equal up to multiples of `P`.
pub same_rest : (x y k : ℕ) → x ≡ y + k * P → x % P ≡ y % P
same_rest x y k e = ap (λ (z : ℕ). z % P) e ∙ add-mul-mod_self_right y k P

add_cases :
    (m a : ℕ)
    → m < P
    → a ≤ P
    → ((add_mod_p m a ≡ m + a) ⊎ (add_mod_p m a + P ≡ m + a)) × (add_mod_p m a < P)
unfolding add_mod_p
add_cases m a hm ha = elim (dec_le ((word + P - a) % word) m) [
  | yes l ↦ rw (le→leb ((word + P - a) % word) m l) (inr (omega arith), omega arith)
  | no l ↦ rw (not_le→leb ((word + P - a) % word) m (omega arith)) (inl (omega arith), omega arith)
]

double_cases :
    (a : ℕ)
    → a ≤ P
    → ((double_mod_p a ≡ 2 * a) ⊎ (double_mod_p a + P ≡ 2 * a)) × (double_mod_p a ≤ P)
unfolding double_mod_p
double_cases a ha = elim (dec_le ((word + P - a) % word) a) [
  | yes l ↦ rw (le→leb ((word + P - a) % word) a l) (inr (omega arith), omega arith)
  | no l ↦ rw (not_le→leb ((word + P - a) % word) a (omega arith)) (inl (omega arith), omega arith)
]

loop_end : (fuel a m : ℕ) → mul_loop (suc fuel) a 0 m ≡ some m
unfolding mul_loop
loop_end fuel a m = refl

loop_on :
    (fuel a b m : ℕ)
    → b ≢ 0
    → mul_loop (suc fuel) a b m
      ≡ mul_loop fuel (double_mod_p a) (b / 2) (if b % 2 == 0 then m else add_mod_p m a)
unfolding mul_loop
loop_on fuel a b m ne = if_false (==_differ b 0 ne) _ _

-- What one round adds: the sum and the product that are left are the same up to `P`.
round_rest :
    (a b m m' : ℕ)
    → a ≤ P
    → ((m' ≡ m + b % 2 * a) ⊎ (m' + P ≡ m + b % 2 * a))
    → (m' + double_mod_p a * (b / 2)) % P ≡ (m + a * b) % P
round_rest a b m m' ha added =
    let d : ℕ = double_mod_p a in
    let q : ℕ = b / 2 in
    let halves : b ≡ 2 * q + b % 2 = omega arith in
    let product : a * b ≡ 2 * (a * q) + a * (b % 2) = ap (λ (x : ℕ). a * x) halves ∙ grind arith in
    let comm : b % 2 * a ≡ a * (b % 2) = grind arith in
    elim (double_cases a ha).0 [
      | inl e ↦
          let twice : d * q ≡ 2 * (a * q) = ap (λ (x : ℕ). x * q) e ∙ grind arith in
          sym (elim added [
            | inl f ↦ same_rest (m + a * b) (m' + d * q) 0 (omega (arith, product, comm, twice, f))
            | inr f ↦ same_rest (m + a * b) (m' + d * q) 1 (omega (arith, product, comm, twice, f))
          ])
      | inr e ↦
          let twice : d * q + P * q ≡ 2 * (a * q) =
            sym (add-mul d P q) ∙ ap (λ (x : ℕ). x * q) e ∙ grind arith in
          sym (elim added [
            | inl f ↦ same_rest (m + a * b) (m' + d * q) q (omega (arith, product, comm, twice, f))
            | inr f ↦
                same_rest (m + a * b) (m' + d * q) (q + 1) (omega (arith, product, comm, twice, f))
          ])
    ]

mul_loop_lem :
    (k a b m : ℕ) → a ≤ P → m < P → b < 2 ^ k → mul_loop (suc k) a b m ≡ some ((m + a * b) % P)
mul_loop_lem zero a b m ha hm hb =
    let z : b ≡ 0 = omega (arith, hb) in
    ap (λ (x : ℕ). mul_loop 1 a x m) z
    ∙ loop_end 0 a m
    ∙ ap (λ (x : ℕ). some x) (omega (arith, hm, ap (λ (x : ℕ). a * x) z))
mul_loop_lem (suc k) a b m ha hm hb = elim (ℕ_discrete b 0) [
  | yes z ↦
      ap (λ (x : ℕ). mul_loop (suc (suc k)) a x m) z
      ∙ loop_end (suc k) a m
      ∙ ap (λ (x : ℕ). some x) (omega (arith, hm, ap (λ (x : ℕ). a * x) z))
  | no ne ↦
      let m' : ℕ = if b % 2 == 0 then m else add_mod_p m a in
      let added = added_cases b m a hm ha in
      loop_on (suc k) a b m ne
      ∙ mul_loop_lem k (double_mod_p a) (b / 2) m' (double_cases a ha).1 added.1
          (omega (arith, hb, pow-succ' 2 k))
      ∙ ap (λ (x : ℕ). some x) (round_rest a b m m' ha added.0)
]
  where
    added_cases :
        (b m a : ℕ)
        → m < P
        → a ≤ P
        → (((if b % 2 == 0 then m else add_mod_p m a) ≡ m + b % 2 * a)
            ⊎ ((if b % 2 == 0 then m else add_mod_p m a) + P ≡ m + b % 2 * a))
          × ((if b % 2 == 0 then m else add_mod_p m a) < P)
    added_cases b m a hm ha = elim (ℕ_discrete (b % 2) 0) [
      | yes z ↦
          let e = if_true ((==_iff (b % 2) 0).1 z) m (add_mod_p m a) in
          (inl (omega (arith, e, ap (λ (x : ℕ). x * a) z)), omega (arith, e, hm))
      | no one ↦
          let e = if_false (==_differ (b % 2) 0 one) m (add_mod_p m a) in
          let bit : b % 2 ≡ 1 = omega arith in
          let c = add_cases m a hm ha in
          (
            elim c.0 [
              | inl f ↦ inl (omega (arith, e, f, ap (λ (x : ℕ). x * a) bit))
              | inr f ↦ inr (omega (arith, e, f, ap (λ (x : ℕ). x * a) bit))
            ],
            omega (arith, e, c.1),
          )
    ]

-- `mul_mod_p` is the product modulo `P`, in every case within its 64 bits.
pub mul_mod_p_lem : (a b : ℕ) → a ≤ P → b < word → mul_mod_p a b ≡ some (a * b % P)
unfolding mul_mod_p
mul_mod_p_lem a b ha hb =
    mul_loop_lem 64 a b 0 ha (omega arith) (omega (arith, hb))
    ∙ ap (λ (x : ℕ). some (x % P)) (omega arith)
