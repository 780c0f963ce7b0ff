-- ===== src/Crypt/Des/Tests.antt =====
-- Concrete runs of the DES of lualib-src/lua-crypt.c.
use demo_skynet_server.Common.{◌≡◌, refl, [], ◌∷◌}
use demo_skynet_server.Crypt.Base64.{entry}
use demo_skynet_server.Crypt.Des.{
  get_uint32, swap_x, swap_y, rotate_left, rotate_right, left_x, left_y, right_x, right_y, des_ip,
  des_fp, boxes, des_round, des_rounds, des_crypt, or_all, choice_x, choice_y, subkey, subkey',
  rotate_half, subkeys, des_main_ks,
}

-- The published example of DES.
known_answer :
    des_crypt
      (des_main_ks 0x13345779 0x9BBCDFF1)
      (0x01 ∷ 0x23 ∷ 0x45 ∷ 0x67 ∷ 0x89 ∷ 0xAB ∷ 0xCD ∷ 0xEF ∷ [])
    ≡ 0x85 ∷ 0xE8 ∷ 0x13 ∷ 0x54 ∷ 0x0F ∷ 0x0A ∷ 0xB4 ∷ 0x05 ∷ []
unfolding get_uint32 swap_x swap_y rotate_left rotate_right left_x left_y right_x right_y des_ip
    des_fp boxes des_round des_rounds des_crypt or_all choice_x choice_y subkey subkey' rotate_half
    subkeys des_main_ks entry
known_answer = refl
