-- ===== src/Crypt/Base64/Tests.antt =====
-- Concrete texts in the base64 of lualib-src/lua-crypt.c.
use demo_skynet_server.Common.{ℕ, ◌≡◌, refl, none, some, List, [], ◌∷◌, arith}
use demo_skynet_server.Crypt.Base64.{
  entry, decoded, b64index, lb64encode, decode_group, decode_loop, lb64decode,
}
use demo_skynet_server.Crypt.Base64.RoundTrip.{lb64decode-lb64encode}

abbrev text : List ℕ
text = 104 ∷ 255 ∷ 108 ∷ 0 ∷ 111 ∷ []

encoded : lb64encode text ≡ 97 ∷ 80 ∷ 57 ∷ 115 ∷ 65 ∷ 71 ∷ 56 ∷ 61 ∷ []
unfolding lb64encode entry
encoded = refl

-- A newline between the characters is skipped, and one behind the last is an error.
newline_inside : lb64decode (97 ∷ 80 ∷ 10 ∷ 57 ∷ 115 ∷ []) ≡ some (104 ∷ 255 ∷ 108 ∷ [])
unfolding lb64decode decode_loop decode_group b64index decoded
newline_inside = refl

newline_behind : lb64decode (97 ∷ 80 ∷ 57 ∷ 115 ∷ 10 ∷ []) ≡ none
unfolding lb64decode decode_loop decode_group b64index decoded
newline_behind = refl

lb64decode-lb64encode_example : lb64decode (lb64encode text) ≡ some text
lb64decode-lb64encode_example = lb64decode-lb64encode text (omega arith)
