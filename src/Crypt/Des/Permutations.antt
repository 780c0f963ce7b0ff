-- ===== src/Crypt/Des/Permutations.antt =====
-- `DES_IP` and `DES_FP` of lualib-src/lua-crypt.c undo each other.
use demo_skynet_server.Common.{
  ℕ, ◌+◌, ◌*◌, ◌/◌, ◌%◌, ◌^◌, ◌≤◌, ◌<◌, ◌≡◌, ap, ap₂, ◌∙◌, bit_and, bit_or, bit_xor, bit_xor_both,
  bit_xor_twice, bit_xor-shift, bit_xor-lt, bit_and-le, arith,
}
use native.Mathlib.Nat.{one-le-pow, mul-div_left, mul-le-mul_right}
use demo_skynet_server.Crypt.Base64.RoundTrip.{or_high}
use demo_skynet_server.Crypt.Des.{
  shl, swap_x, swap_y, rotate_left, rotate_right, left_x, left_y, right_x, right_y, des_ip, des_fp,
}

-- Both words have 32 bits.
abbrev pub Words : ℕ × ℕ → Type 0
Words p = (p.0 < 2 ^ 32) × (p.1 < 2 ^ 32)

shl_fits : (t k mask : ℕ) → t ≤ mask → mask * 2 ^ k < 2 ^ 32 → shl t k ≡ t * 2 ^ k
shl_fits t k mask h room = let le = mul-le-mul_right (2 ^ k) h in omega (arith, le, room)

-- What is exchanged is the same the second time.
same_bits :
    (k mask x y : ℕ)
    → mask * 2 ^ k < 2 ^ 32
    → bit_and
        (bit_xor
          (bit_xor x (shl (bit_and (bit_xor (x / 2 ^ k) y) mask) k) / 2 ^ k)
          (bit_xor y (bit_and (bit_xor (x / 2 ^ k) y) mask)))
        mask
      ≡ bit_and (bit_xor (x / 2 ^ k) y) mask
same_bits k mask x y room =
    let t : ℕ = bit_and (bit_xor (x / 2 ^ k) y) mask in
    let back : shl t k / 2 ^ k ≡ t =
      ap (λ (z : ℕ). z / 2 ^ k) (shl_fits t k mask (bit_and-le (bit_xor (x / 2 ^ k) y) mask) room)
      ∙ mul-div_left t (omega (arith, one-le-pow k 2)) in
    ap (λ (z : ℕ). bit_and (bit_xor z (bit_xor y t)) mask)
      (bit_xor-shift k x (shl t k) ∙ ap (λ (z : ℕ). bit_xor (x / 2 ^ k) z) back)
    ∙ ap (λ (z : ℕ). bit_and z mask) (bit_xor_both (x / 2 ^ k) y t)

swap_x_twice :
    (k mask : ℕ) (p : ℕ × ℕ) → mask * 2 ^ k < 2 ^ 32 → swap_x k mask (swap_x k mask p) ≡ p
unfolding swap_x
swap_x_twice k mask (x, y) room =
    let t : ℕ = bit_and (bit_xor (x / 2 ^ k) y) mask in
    ap (λ s. (bit_xor (bit_xor x (shl t k)) (shl s k), bit_xor (bit_xor y t) s))
      (same_bits k mask x y room)
    ∙ ap₂ (λ a b. (a, b)) (bit_xor_twice x (shl t k)) (bit_xor_twice y t)

swap_y_twice :
    (k mask : ℕ) (p : ℕ × ℕ) → mask * 2 ^ k < 2 ^ 32 → swap_y k mask (swap_y k mask p) ≡ p
unfolding swap_y
swap_y_twice k mask (x, y) room =
    let t : ℕ = bit_and (bit_xor (y / 2 ^ k) x) mask in
    ap (λ s. (bit_xor (bit_xor x t) s, bit_xor (bit_xor y (shl t k)) (shl s k)))
      (same_bits k mask y x room)
    ∙ ap₂ (λ a b. (a, b)) (bit_xor_twice x t) (bit_xor_twice y (shl t k))

-- The words stay words.
swap_x-Words : (k mask : ℕ) (p : ℕ × ℕ) → mask < 2 ^ 32 → Words p → Words (swap_x k mask p)
unfolding swap_x
swap_x-Words k mask (x, y) small (hx, hy) =
    let t : ℕ = bit_and (bit_xor (x / 2 ^ k) y) mask in
    (
      bit_xor-lt 32 x (shl t k) hx (omega arith),
      bit_xor-lt 32 y t hy (omega (arith, small, bit_and-le (bit_xor (x / 2 ^ k) y) mask)),
    )

swap_y-Words : (k mask : ℕ) (p : ℕ × ℕ) → mask < 2 ^ 32 → Words p → Words (swap_y k mask p)
unfolding swap_y
swap_y-Words k mask (x, y) small (hx, hy) =
    let t : ℕ = bit_and (bit_xor (y / 2 ^ k) x) mask in
    (
      bit_xor-lt 32 x t hx (omega (arith, small, bit_and-le (bit_xor (y / 2 ^ k) x) mask)),
      bit_xor-lt 32 y (shl t k) hy (omega arith),
    )

rotate_left_lem : (x : ℕ) → x < 2 ^ 32 → rotate_left x ≡ x % 2 ^ 31 * 2 + x / 2 ^ 31
unfolding rotate_left
rotate_left_lem x h =
    let e : shl x 1 ≡ x % 2 ^ 31 * 2 ^ 1 = omega arith in
    ap (λ (z : ℕ). bit_or z (x / 2 ^ 31) % 2 ^ 32) e
    ∙ ap (λ (z : ℕ). z % 2 ^ 32) (or_high 1 (x % 2 ^ 31) (x / 2 ^ 31) (omega arith))
    ∙ omega arith

rotate_right_lem : (x : ℕ) → x < 2 ^ 32 → rotate_right x ≡ x % 2 * 2 ^ 31 + x / 2
unfolding rotate_right
rotate_right_lem x h =
    let e : shl x 31 ≡ x % 2 * 2 ^ 31 = omega arith in
    ap (λ (z : ℕ). bit_or z (x / 2 ^ 1) % 2 ^ 32) e
    ∙ ap (λ (z : ℕ). z % 2 ^ 32) (or_high 31 (x % 2) (x / 2 ^ 1) (omega arith))
    ∙ omega arith

right-left : (x : ℕ) → x < 2 ^ 32 → rotate_right (rotate_left x) ≡ x
right-left x h =
    let e = rotate_left_lem x h in
    omega (arith, e, rotate_right_lem (rotate_left x) (omega (arith, e)))

left-right : (x : ℕ) → x < 2 ^ 32 → rotate_left (rotate_right x) ≡ x
left-right x h =
    let e = rotate_right_lem x h in
    omega (arith, e, rotate_left_lem (rotate_right x) (omega (arith, e)))

left_x-Words : (p : ℕ × ℕ) → Words p → Words (left_x p)
unfolding left_x rotate_left
left_x-Words (x, y) (hx, hy) = (omega arith, hy)

left_y-Words : (p : ℕ × ℕ) → Words p → Words (left_y p)
unfolding left_y rotate_left
left_y-Words (x, y) (hx, hy) = (hx, omega arith)

right_x-Words : (p : ℕ × ℕ) → Words p → Words (right_x p)
unfolding right_x rotate_right
right_x-Words (x, y) (hx, hy) = (omega arith, hy)

right_y-Words : (p : ℕ × ℕ) → Words p → Words (right_y p)
unfolding right_y rotate_right
right_y-Words (x, y) (hx, hy) = (hx, omega arith)

right_x-left_x : (p : ℕ × ℕ) → Words p → right_x (left_x p) ≡ p
unfolding right_x left_x
right_x-left_x (x, y) (hx, hy) = ap (λ z. (z, y)) (right-left x hx)

right_y-left_y : (p : ℕ × ℕ) → Words p → right_y (left_y p) ≡ p
unfolding right_y left_y
right_y-left_y (x, y) (hx, hy) = ap (λ z. (x, z)) (right-left y hy)

left_x-right_x : (p : ℕ × ℕ) → Words p → left_x (right_x p) ≡ p
unfolding right_x left_x
left_x-right_x (x, y) (hx, hy) = ap (λ z. (z, y)) (left-right x hx)

left_y-right_y : (p : ℕ × ℕ) → Words p → left_y (right_y p) ≡ p
unfolding right_y left_y
left_y-right_y (x, y) (hx, hy) = ap (λ z. (x, z)) (left-right y hy)

-- The four exchanges that both permutations share, in one order and in the other.
abbrev mixed : ℕ × ℕ → ℕ × ℕ
mixed p = swap_y 8 0x00FF00FF (swap_y 2 0x33333333 (swap_x 16 0x0000FFFF (swap_x 4 0x0F0F0F0F p)))

abbrev unmixed : ℕ × ℕ → ℕ × ℕ
unmixed p = swap_x 4 0x0F0F0F0F (swap_x 16 0x0000FFFF (swap_y 2 0x33333333 (swap_y 8 0x00FF00FF p)))

unmixed-mixed : (p : ℕ × ℕ) → unmixed (mixed p) ≡ p
unmixed-mixed p =
    ap (λ q. swap_x 4 0x0F0F0F0F (swap_x 16 0x0000FFFF (swap_y 2 0x33333333 q)))
      (swap_y_twice 8 0x00FF00FF _ (omega arith))
    ∙ ap (λ q. swap_x 4 0x0F0F0F0F (swap_x 16 0x0000FFFF q))
        (swap_y_twice 2 0x33333333 _ (omega arith))
    ∙ ap (λ q. swap_x 4 0x0F0F0F0F q) (swap_x_twice 16 0x0000FFFF _ (omega arith))
    ∙ swap_x_twice 4 0x0F0F0F0F p (omega arith)

mixed-unmixed : (p : ℕ × ℕ) → mixed (unmixed p) ≡ p
mixed-unmixed p =
    ap (λ q. swap_y 8 0x00FF00FF (swap_y 2 0x33333333 (swap_x 16 0x0000FFFF q)))
      (swap_x_twice 4 0x0F0F0F0F _ (omega arith))
    ∙ ap (λ q. swap_y 8 0x00FF00FF (swap_y 2 0x33333333 q))
        (swap_x_twice 16 0x0000FFFF _ (omega arith))
    ∙ ap (λ q. swap_y 8 0x00FF00FF q) (swap_y_twice 2 0x33333333 _ (omega arith))
    ∙ swap_y_twice 8 0x00FF00FF p (omega arith)

mixed-Words : (p : ℕ × ℕ) → Words p → Words (mixed p)
mixed-Words p h =
    swap_y-Words 8 0x00FF00FF (swap_y 2 0x33333333 (swap_x 16 0x0000FFFF (swap_x 4 0x0F0F0F0F p)))
      (omega arith)
      (swap_y-Words 2 0x33333333 (swap_x 16 0x0000FFFF (swap_x 4 0x0F0F0F0F p)) (omega arith) (
        swap_x-Words 16 0x0000FFFF (swap_x 4 0x0F0F0F0F p) (omega arith)
          (swap_x-Words 4 0x0F0F0F0F p (omega arith) h)))

unmixed-Words : (p : ℕ × ℕ) → Words p → Words (unmixed p)
unmixed-Words p h =
    swap_x-Words 4 0x0F0F0F0F (swap_x 16 0x0000FFFF (swap_y 2 0x33333333 (swap_y 8 0x00FF00FF p)))
      (omega arith)
      (swap_x-Words 16 0x0000FFFF (swap_y 2 0x33333333 (swap_y 8 0x00FF00FF p)) (omega arith) (
        swap_y-Words 2 0x33333333 (swap_y 8 0x00FF00FF p) (omega arith)
          (swap_y-Words 8 0x00FF00FF p (omega arith) h)))

pub des_ip-Words : (p : ℕ × ℕ) → Words p → Words (des_ip p)
unfolding des_ip
des_ip-Words p h = left_x-Words (swap_x 0 0xAAAAAAAA (left_y (mixed p))) (
    swap_x-Words 0 0xAAAAAAAA (left_y (mixed p)) (omega arith)
      (left_y-Words (mixed p) (mixed-Words p h)))

pub des_fp-Words : (p : ℕ × ℕ) → Words p → Words (des_fp p)
unfolding des_fp
des_fp-Words p h = unmixed-Words (right_y (swap_x 0 0xAAAAAAAA (right_x p))) (
    right_y-Words (swap_x 0 0xAAAAAAAA (right_x p))
      (swap_x-Words 0 0xAAAAAAAA (right_x p) (omega arith) (right_x-Words p h)))

pub des_fp-des_ip : (p : ℕ × ℕ) → Words p → des_fp (des_ip p) ≡ p
unfolding des_fp des_ip
des_fp-des_ip p h =
    let m : ℕ × ℕ = left_y (mixed p) in
    ap (λ q. unmixed (right_y (swap_x 0 0xAAAAAAAA q)))
      (right_x-left_x (swap_x 0 0xAAAAAAAA m)
        (swap_x-Words 0 0xAAAAAAAA m (omega arith) (left_y-Words (mixed p) (mixed-Words p h))))
    ∙ ap (λ q. unmixed (right_y q)) (swap_x_twice 0 0xAAAAAAAA m (omega arith))
    ∙ ap unmixed (right_y-left_y (mixed p) (mixed-Words p h))
    ∙ unmixed-mixed p

pub des_ip-des_fp : (p : ℕ × ℕ) → Words p → des_ip (des_fp p) ≡ p
unfolding des_fp des_ip
des_ip-des_fp p h =
    let m : ℕ × ℕ = swap_x 0 0xAAAAAAAA (right_x p) in
    ap (λ q. left_x (swap_x 0 0xAAAAAAAA (left_y q))) (mixed-unmixed (right_y m))
    ∙ ap (λ q. left_x (swap_x 0 0xAAAAAAAA q))
        (left_y-right_y m (swap_x-Words 0 0xAAAAAAAA (right_x p) (omega arith) (right_x-Words p h)))
    ∙ ap left_x (swap_x_twice 0 0xAAAAAAAA (right_x p) (omega arith))
    ∙ left_x-right_x p h
