-- ===== src/Crypt/Des.antt =====
-- lualib-src/lua-crypt.c: DES on one block, and its key schedule. A string is the list of its bytes, `SK` is the list of the pairs of words that a round takes, and `none` is an error.
pub mod Tables
pub mod Texts
pub mod Permutations
pub mod Feistel
pub mod Blocks
pub mod Keys
mod Tests
use demo_skynet_server.Common.{
  ℕ, zero, suc, ◌+◌, ◌-◌, ◌*◌, ◌/◌, ◌%◌, ◌^◌, bit_and, bit_or, bit_xor, Bool, true, false, ◌||◌,
  ◌&&◌, Option, none, some, List, [], ◌∷◌, ◌++◌, reverse, replicate, take, ◌==◌, ltb, leb,
  if◌then◌else◌, length, ◌>>=◌,
}
use demo_skynet_server.Crypt.Base64.{entry}
use demo_skynet_server.Crypt.Des.Tables.{sb1, sb2, sb3, sb4, sb5, sb6, sb7, sb8, lhs, rhs}

-- `<<` on `uint32_t`
abbrev pub shl : ℕ → ℕ → ℕ
shl x k = x * 2 ^ k % 2 ^ 32

pub get_uint32 : ℕ → ℕ → ℕ → ℕ → ℕ
get_uint32 a b c d = bit_or (bit_or (bit_or (a * 2 ^ 24) (b * 2 ^ 16)) (c * 2 ^ 8)) d

abbrev pub put_uint32 : ℕ → List ℕ
put_uint32 n = n / 2 ^ 24 % 256 ∷ n / 2 ^ 16 % 256 ∷ n / 2 ^ 8 % 256 ∷ n % 256 ∷ []

-- A line of `DES_IP` and `DES_FP`, with the shift of `X`, and with that of `Y`.
pub swap_x : ℕ → ℕ → ℕ × ℕ → ℕ × ℕ
swap_x k mask (x, y) =
    let t = bit_and (bit_xor (x / 2 ^ k) y) mask in (bit_xor x (shl t k), bit_xor y t)

pub swap_y : ℕ → ℕ → ℕ × ℕ → ℕ × ℕ
swap_y k mask (x, y) =
    let t = bit_and (bit_xor (y / 2 ^ k) x) mask in (bit_xor x t, bit_xor y (shl t k))

pub rotate_left : ℕ → ℕ
rotate_left x = bit_or (shl x 1) (x / 2 ^ 31) % 2 ^ 32

pub rotate_right : ℕ → ℕ
rotate_right x = bit_or (shl x 31) (x / 2 ^ 1) % 2 ^ 32

-- `DES_IP`, the first permutation, and `DES_FP`, the last.
pub left_y : ℕ × ℕ → ℕ × ℕ
left_y (x, y) = (x, rotate_left y)

pub left_x : ℕ × ℕ → ℕ × ℕ
left_x (x, y) = (rotate_left x, y)

pub right_y : ℕ × ℕ → ℕ × ℕ
right_y (x, y) = (x, rotate_right y)

pub right_x : ℕ × ℕ → ℕ × ℕ
right_x (x, y) = (rotate_right x, y)

pub des_ip : ℕ × ℕ → ℕ × ℕ
des_ip p = left_x (
    swap_x 0 0xAAAAAAAA (
      left_y
        (swap_y 8 0x00FF00FF (swap_y 2 0x33333333 (swap_x 16 0x0000FFFF (swap_x 4 0x0F0F0F0F p))))))

pub des_fp : ℕ × ℕ → ℕ × ℕ
des_fp p = swap_x 4 0x0F0F0F0F (
    swap_x 16 0x0000FFFF
      (swap_y 2 0x33333333 (swap_y 8 0x00FF00FF (right_y (swap_x 0 0xAAAAAAAA (right_x p))))))

-- Four boxes of a round.
pub boxes : List ℕ → List ℕ → List ℕ → List ℕ → ℕ → ℕ
boxes s0 s8 s16 s24 t =
    bit_xor
      (bit_xor (bit_xor (entry s0 (t % 64)) (entry s8 (t / 2 ^ 8 % 64)))
        (entry s16 (t / 2 ^ 16 % 64)))
      (entry s24 (t / 2 ^ 24 % 64))

-- `DES_ROUND`: the new `Y`.
pub des_round : ℕ × ℕ → ℕ → ℕ → ℕ
des_round (k, k') x y =
    bit_xor (bit_xor y (boxes sb8 sb6 sb4 sb2 (bit_xor k x)))
      (boxes sb7 sb5 sb3 sb1 (bit_xor k' (bit_or (shl x 28) (x / 2 ^ 4))))

-- The sixteen rounds of `des_crypt`, two by two.
pub des_rounds : List (ℕ × ℕ) → ℕ × ℕ → ℕ × ℕ
des_rounds [] p = p
des_rounds (j ∷ []) p = p
des_rounds (j ∷ k ∷ sk) (x, y) =
    let x' = des_round j y x in let y' = des_round k x' y in des_rounds sk (x', y')

pub des_crypt : List (ℕ × ℕ) → List ℕ → List ℕ
des_crypt sk (a ∷ b ∷ c ∷ d ∷ e ∷ f ∷ g ∷ h ∷ []) =
    let (x, y) = des_rounds sk (des_ip (get_uint32 a b c d, get_uint32 e f g h)) in
    let (y', x') = des_fp (y, x) in put_uint32 y' ++ put_uint32 x'
des_crypt sk input = []

-- The key schedule `des_main_ks`.
pub or_all : List ℕ → ℕ
or_all [] = 0
or_all (x ∷ xs) = bit_or x (or_all xs)

pub choice_x : ℕ → ℕ
choice_x x = or_all (
    shl (entry lhs (x % 16)) 3
    ∷ shl (entry lhs (x / 2 ^ 8 % 16)) 2
    ∷ shl (entry lhs (x / 2 ^ 16 % 16)) 1
    ∷ entry lhs (x / 2 ^ 24 % 16)
    ∷ shl (entry lhs (x / 2 ^ 5 % 16)) 7
    ∷ shl (entry lhs (x / 2 ^ 13 % 16)) 6
    ∷ shl (entry lhs (x / 2 ^ 21 % 16)) 5
    ∷ shl (entry lhs (x / 2 ^ 29 % 16)) 4
    ∷ [])

pub choice_y : ℕ → ℕ
choice_y y = or_all (
    shl (entry rhs (y / 2 ^ 1 % 16)) 3
    ∷ shl (entry rhs (y / 2 ^ 9 % 16)) 2
    ∷ shl (entry rhs (y / 2 ^ 17 % 16)) 1
    ∷ entry rhs (y / 2 ^ 25 % 16)
    ∷ shl (entry rhs (y / 2 ^ 4 % 16)) 7
    ∷ shl (entry rhs (y / 2 ^ 12 % 16)) 6
    ∷ shl (entry rhs (y / 2 ^ 20 % 16)) 5
    ∷ shl (entry rhs (y / 2 ^ 28 % 16)) 4
    ∷ [])

pub subkey : ℕ → ℕ → ℕ
subkey x y = or_all (
    bit_and (shl x 4) 0x24000000
    ∷ bit_and (shl x 28) 0x10000000
    ∷ bit_and (shl x 14) 0x08000000
    ∷ bit_and (shl x 18) 0x02080000
    ∷ bit_and (shl x 6) 0x01000000
    ∷ bit_and (shl x 9) 0x00200000
    ∷ bit_and (x / 2 ^ 1) 0x00100000
    ∷ bit_and (shl x 10) 0x00040000
    ∷ bit_and (shl x 2) 0x00020000
    ∷ bit_and (x / 2 ^ 10) 0x00010000
    ∷ bit_and (y / 2 ^ 13) 0x00002000
    ∷ bit_and (y / 2 ^ 4) 0x00001000
    ∷ bit_and (shl y 6) 0x00000800
    ∷ bit_and (y / 2 ^ 1) 0x00000400
    ∷ bit_and (y / 2 ^ 14) 0x00000200
    ∷ bit_and y 0x00000100
    ∷ bit_and (y / 2 ^ 5) 0x00000020
    ∷ bit_and (y / 2 ^ 10) 0x00000010
    ∷ bit_and (y / 2 ^ 3) 0x00000008
    ∷ bit_and (y / 2 ^ 18) 0x00000004
    ∷ bit_and (y / 2 ^ 26) 0x00000002
    ∷ bit_and (y / 2 ^ 24) 0x00000001
    ∷ [])

pub subkey' : ℕ → ℕ → ℕ
subkey' x y = or_all (
    bit_and (shl x 15) 0x20000000
    ∷ bit_and (shl x 17) 0x10000000
    ∷ bit_and (shl x 10) 0x08000000
    ∷ bit_and (shl x 22) 0x04000000
    ∷ bit_and (x / 2 ^ 2) 0x02000000
    ∷ bit_and (shl x 1) 0x01000000
    ∷ bit_and (shl x 16) 0x00200000
    ∷ bit_and (shl x 11) 0x00100000
    ∷ bit_and (shl x 3) 0x00080000
    ∷ bit_and (x / 2 ^ 6) 0x00040000
    ∷ bit_and (shl x 15) 0x00020000
    ∷ bit_and (x / 2 ^ 4) 0x00010000
    ∷ bit_and (y / 2 ^ 2) 0x00002000
    ∷ bit_and (shl y 8) 0x00001000
    ∷ bit_and (y / 2 ^ 14) 0x00000808
    ∷ bit_and (y / 2 ^ 9) 0x00000400
    ∷ bit_and y 0x00000200
    ∷ bit_and (shl y 7) 0x00000100
    ∷ bit_and (y / 2 ^ 7) 0x00000020
    ∷ bit_and (y / 2 ^ 3) 0x00000011
    ∷ bit_and (shl y 2) 0x00000004
    ∷ bit_and (y / 2 ^ 21) 0x00000002
    ∷ [])

pub rotate_half : ℕ → ℕ → ℕ
rotate_half n x = bit_and (bit_or (shl x n) (x / 2 ^ (28 - n))) 0x0FFFFFFF

-- `n` rounds of the loop over the subkeys, from round `i` on.
pub subkeys : ℕ → ℕ → ℕ → ℕ → List (ℕ × ℕ)
subkeys zero i x y = []
subkeys (suc n) i x y =
    let shift = if ltb i 2 || i == 8 || i == 15 then 1 else 2 in
    let x' = rotate_half shift x in
    let y' = rotate_half shift y in (subkey x' y', subkey' x' y') ∷ subkeys n (i + 1) x' y'

pub des_main_ks : ℕ → ℕ → List (ℕ × ℕ)
des_main_ks x y =
    let (x', y') = swap_y 0 0x10101010 (swap_y 4 0x0F0F0F0F (x, y)) in
    subkeys 16 0 (bit_and (choice_x x') 0x0FFFFFFF) (bit_and (choice_y y') 0x0FFFFFFF)

pub des_key : List ℕ → Option (List (ℕ × ℕ))
des_key (a ∷ b ∷ c ∷ d ∷ e ∷ f ∷ g ∷ h ∷ []) =
    some (des_main_ks (get_uint32 a b c d) (get_uint32 e f g h))
des_key key = none
