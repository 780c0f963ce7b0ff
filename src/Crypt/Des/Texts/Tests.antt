-- ===== src/Crypt/Des/Texts/Tests.antt =====
-- A text under the DES of lualib-src/lua-crypt.c.
use demo_skynet_server.Common.{ℕ, ◌≡◌, refl, some, List, [], ◌∷◌, arith}
use demo_skynet_server.Crypt.Des.Texts.{ldesencode, ldesdecode}
use demo_skynet_server.Crypt.Des.Texts.RoundTrip.{ldesdecode-ldesencode}

abbrev key : List ℕ
key = 0x13 ∷ 0x34 ∷ 0x57 ∷ 0x79 ∷ 0x9B ∷ 0xBC ∷ 0xDF ∷ 0xF1 ∷ []

abbrev text : List ℕ
text = 104 ∷ 0x80 ∷ 0 ∷ []

ldesdecode-ldesencode_example :
    (coded : List ℕ) × (ldesencode key text ≡ some coded) × (ldesdecode key coded ≡ some text)
ldesdecode-ldesencode_example = ldesdecode-ldesencode key text refl (omega arith)
