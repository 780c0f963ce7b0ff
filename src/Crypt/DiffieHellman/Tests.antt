-- ===== src/Crypt/DiffieHellman/Tests.antt =====
-- Concrete keys for the key exchange of lualib-src/lua-crypt.c.
use demo_skynet_server.Common.{
  ℕ, ◌+◌, ◌%◌, ◌^◌, ◌≡◌, refl, ap, Option, none, some, List, [], ◌∷◌, arith, ◌==◌, ◌&&◌,
  if◌then◌else◌,
}
use demo_skynet_server.Crypt.DiffieHellman.{
  P, add_mod_p, double_mod_p, mul_loop, mul_mod_p, square_mod_p, pow_mod_p, powmodp, read32, read64,
  push64, dhexchange, dhsecret,
}
use demo_skynet_server.Crypt.DiffieHellman.Power.{powmodp_lem}
use demo_skynet_server.Crypt.DiffieHellman.Exchange.{IsKey, dhsecret_agrees}

abbrev key : List ℕ
key = 3 ∷ 0 ∷ 0 ∷ 0 ∷ 0 ∷ 0 ∷ 0 ∷ 0 ∷ []

abbrev other_key : List ℕ
other_key = 6 ∷ 0 ∷ 0 ∷ 0 ∷ 0 ∷ 0 ∷ 0 ∷ 1 ∷ []

public_value : dhexchange key ≡ some (125 ∷ 0 ∷ 0 ∷ 0 ∷ 0 ∷ 0 ∷ 0 ∷ 0 ∷ [])
unfolding dhexchange read64 read32 powmodp pow_mod_p square_mod_p mul_mod_p mul_loop add_mod_p
    double_mod_p push64
public_value = refl

number_of : Option ℕ → ℕ
number_of none = 0
number_of (some n) = n

key-IsKey : IsKey key
unfolding read64 read32 number_of
key-IsKey = (refl, omega arith, λ e. omega (arith, ap number_of e))

other_key-IsKey : IsKey other_key
unfolding read64 read32 number_of
other_key-IsKey = (refl, omega arith, λ e. omega (arith, ap number_of e))

dhsecret_agrees_example :
    (gx : List ℕ) × (gy : List ℕ) × (s : List ℕ) × (dhexchange key ≡ some gx)
    × (dhexchange other_key ≡ some gy)
    × (dhsecret gy key ≡ some s)
    × (dhsecret gx other_key ≡ some s)
dhsecret_agrees_example = dhsecret_agrees key other_key key-IsKey other_key-IsKey

powmodp_lem_example :
    powmodp (P + 2) 10 ≡ some (if P + 2 == P && ◌==◌ 10 1 then P else (P + 2) ^ 10 % P)
powmodp_lem_example = powmodp_lem (P + 2) 10 (omega arith) (omega arith) (omega arith)
