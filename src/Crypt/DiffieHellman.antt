-- ===== src/Crypt/DiffieHellman.antt =====
-- lualib-src/lua-crypt.c: the key exchange `dhexchange` and `dhsecret`, over the numbers of 64 bits
-- modulo the prime `P`. A string is the list of its bytes, and `none` is an error.
pub mod Multiply
pub mod Power
pub mod Exchange
mod Tests
use mathlib.Core.Option
use demo_skynet_server.Common.{
  ℕ, zero, suc, ◌+◌, ◌-◌, ◌*◌, ◌/◌, ◌%◌, ◌^◌, bit_or, Bool, true, false, Option, none, some, List,
  [], ◌∷◌, ◌==◌, ltb, leb, if◌then◌else◌, length, ◌>>=◌,
}

-- "The biggest 64bit prime"
abbrev pub P : ℕ
P = 0xffffffffffffffc5

abbrev pub word : ℕ
word = 0x10000000000000000

-- The two steps in the loop of `mul_mod_p`, in 64 bits.
pub add_mod_p : ℕ → ℕ → ℕ
add_mod_p m a = let t = (word + P - a) % word in if leb t m then m - t else (m + a) % word

pub double_mod_p : ℕ → ℕ
double_mod_p a =
    if leb ((word + P - a) % word) a then (a * 2 % word + word - P) % word else a * 2 % word

-- The loop of `mul_mod_p`, on fuel; `none` is out of fuel, which `mul_mod_p` never is.
pub mul_loop : ℕ → ℕ → ℕ → ℕ → Option ℕ
mul_loop zero a b m = none
mul_loop (suc fuel) a b m =
    let rest = mul_loop fuel (double_mod_p a) (b / 2) (if b % 2 == 0 then m else add_mod_p m a) in
    if b == 0 then some m else rest

-- `mul_mod_p`: at most 64 rounds with a bit, and the test that ends the loop.
pub mul_mod_p : ℕ → ℕ → Option ℕ
mul_mod_p a b = mul_loop 65 a b 0

-- `pow_mod_p`, on fuel: in the code `pow_mod_p(a, 0)` calls itself for ever. First what is done
-- with the result of the call for half of `b`.
pub square_mod_p : ℕ → ℕ → Option ℕ → Option ℕ
square_mod_p a b half = do
  t ← half
  t' ← mul_mod_p t t
  if b % 2 == 0 then some t' else mul_mod_p t' a

pub pow_mod_p : ℕ → ℕ → ℕ → Option ℕ
pow_mod_p zero a b = none
pow_mod_p (suc fuel) a b =
    let half = pow_mod_p fuel a (b / 2) in if b == 1 then some a else square_mod_p a b half

pub powmodp : ℕ → ℕ → Option ℕ
powmodp a b = pow_mod_p 64 (if ltb P a then a % P else a) b

-- Four bytes as `uint32_t`, as `ldhexchange` and `read64` put them together.
pub read32 : ℕ → ℕ → ℕ → ℕ → ℕ
read32 a b c d = bit_or (bit_or (bit_or a (b * 2 ^ 8)) (c * 2 ^ 16)) (d * 2 ^ 24)

-- The number of a key, where its size is right.
pub read64 : List ℕ → Option ℕ
read64 (a ∷ b ∷ c ∷ d ∷ e ∷ f ∷ g ∷ h ∷ []) =
    some (bit_or (read32 a b c d) (read32 e f g h * 2 ^ 32))
read64 bytes = none

pub push64 : ℕ → List ℕ
push64 r =
    r % 256
    ∷ r / 2 ^ 8 % 256
    ∷ r / 2 ^ 16 % 256
    ∷ r / 2 ^ 24 % 256
    ∷ r / 2 ^ 32 % 256
    ∷ r / 2 ^ 40 % 256
    ∷ r / 2 ^ 48 % 256
    ∷ r / 2 ^ 56 % 256
    ∷ []

abbrev pub G : ℕ
G = 5

-- `ldhexchange`
pub dhexchange : List ℕ → Option (List ℕ)
dhexchange x = do x64 ← read64 x; if x64 == 0 then none else Option.map push64 (powmodp G x64)

-- `ldhsecret`
pub dhsecret : List ℕ → List ℕ → Option (List ℕ)
dhsecret x y = do
  xx ← read64 x
  yy ← read64 y
  if xx == 0 then none else if yy == 0 then none else Option.map push64 (powmodp xx yy)
