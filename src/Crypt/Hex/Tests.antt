-- ===== src/Crypt/Hex/Tests.antt =====
-- Concrete texts in the hexadecimal form of lualib-src/lua-crypt.c.
use demo_skynet_server.Common.{ℕ, ◌≡◌, refl, none, some, List, [], ◌∷◌, arith}
use demo_skynet_server.Crypt.Base64.{entry}
use demo_skynet_server.Crypt.Hex.{ltohex, hex_digit, lfromhex}
use demo_skynet_server.Crypt.Hex.RoundTrip.{lfromhex-ltohex}

abbrev text : List ℕ
text = 0 ∷ 171 ∷ 255 ∷ []

in_hex : ltohex text ≡ 48 ∷ 48 ∷ 97 ∷ 98 ∷ 102 ∷ 102 ∷ []
unfolding ltohex entry
in_hex = refl

-- "0g" is taken for the byte 16, and "g0" for 0.
letter_g : lfromhex (48 ∷ 103 ∷ 103 ∷ 48 ∷ []) ≡ some (16 ∷ 0 ∷ [])
unfolding lfromhex hex_digit
letter_g = refl

letter_h : lfromhex (48 ∷ 104 ∷ []) ≡ none
unfolding lfromhex hex_digit
letter_h = refl

lfromhex-ltohex_example : lfromhex (ltohex text) ≡ some text
lfromhex-ltohex_example = lfromhex-ltohex text (omega arith)
