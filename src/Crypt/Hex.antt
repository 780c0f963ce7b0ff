-- ===== src/Crypt/Hex.antt =====
-- lualib-src/lua-crypt.c: `hexencode` and `hexdecode`.
pub mod RoundTrip
mod Tests
use demo_skynet_server.Common.{
  ℕ, zero, suc, ◌+◌, ◌-◌, ◌*◌, ◌/◌, ◌%◌, ◌^◌, bit_or, Bool, true, false, ◌&&◌, ◌||◌, Option, none,
  some, List, [], ◌∷◌, ◌==◌, ltb, leb, if◌then◌else◌, length, ◌>>=◌,
}
use demo_skynet_server.Crypt.Base64.{entry}

abbrev pub hex : List ℕ
hex = 48 ∷ 49 ∷ 50 ∷ 51 ∷ 52 ∷ 53 ∷ 54 ∷ 55 ∷ 56 ∷ 57 ∷ 97 ∷ 98 ∷ 99 ∷ 100 ∷ 101 ∷ 102 ∷ []

-- `ltohex`
pub ltohex : List ℕ → List ℕ
ltohex [] = []
ltohex (t ∷ text) = entry hex (t / 2 ^ 4) ∷ entry hex (t % 16) ∷ ltohex text

-- The macro `HEX`, whose result is stored in eight bits.
pub hex_digit : ℕ → ℕ
hex_digit c = if leb 48 c && leb c 57 then c - 48 else (c + 256 - 97 + 10) % 256

-- The loop of `lfromhex`; `none` is an error, as it is for a text of odd size.
pub lfromhex : List ℕ → Option (List ℕ)
lfromhex [] = some []
lfromhex (a ∷ []) = none
lfromhex (a ∷ b ∷ text) =
    let hi = hex_digit a in
    let low = hex_digit b in
    let rest = lfromhex text in
    if ltb 16 hi || ltb 16 low
    then none
    else rest >>= λ bytes. some (bit_or (hi * 2 ^ 4) low % 256 ∷ bytes)
