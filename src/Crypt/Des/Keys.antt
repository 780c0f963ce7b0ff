-- ===== src/Crypt/Des/Keys.antt =====
-- The key schedule of lualib-src/lua-crypt.c's DES.
use demo_skynet_server.Common.{
  ℕ, zero, suc, ◌+◌, ◌%◌, ◌≡◌, refl, some, List, [], ◌∷◌, length, arith,
}
use demo_skynet_server.Crypt.Des.{get_uint32, subkeys, des_main_ks, des_key}

length-subkeys : (n i x y : ℕ) → length (subkeys n i x y) ≡ n
unfolding subkeys
length-subkeys zero i x y = refl
length-subkeys (suc n) i x y = omega (arith, length-subkeys n (i + 1) _ _)

schedule_even : (x y : ℕ) → length (des_main_ks x y) % 2 ≡ 0
unfolding des_main_ks
schedule_even x y = omega (arith, length-subkeys 16 0 _ _)

pub key_schedule :
    (key : List ℕ)
    → length key ≡ 8
    → (sk : List (ℕ × ℕ)) × (des_key key ≡ some sk) × (length sk % 2 ≡ 0)
unfolding des_key
key_schedule (a ∷ b ∷ c ∷ d ∷ e ∷ f ∷ g ∷ h ∷ []) l =
    (_, refl, schedule_even (get_uint32 a b c d) (get_uint32 e f g h))
key_schedule ([]) l = absurd (omega arith)
key_schedule (a ∷ []) l = absurd (omega arith)
key_schedule (a ∷ b ∷ []) l = absurd (omega arith)
key_schedule (a ∷ b ∷ c ∷ []) l = absurd (omega arith)
key_schedule (a ∷ b ∷ c ∷ d ∷ []) l = absurd (omega arith)
key_schedule (a ∷ b ∷ c ∷ d ∷ e ∷ []) l = absurd (omega arith)
key_schedule (a ∷ b ∷ c ∷ d ∷ e ∷ f ∷ []) l = absurd (omega arith)
key_schedule (a ∷ b ∷ c ∷ d ∷ e ∷ f ∷ g ∷ []) l = absurd (omega arith)
key_schedule (a ∷ b ∷ c ∷ d ∷ e ∷ f ∷ g ∷ h ∷ i ∷ key) l = absurd (omega arith)
