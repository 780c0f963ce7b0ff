-- ===== src/Crypt/Hex/RoundTrip.antt =====
-- `ltohex` and then `lfromhex` of lualib-src/lua-crypt.c.
use demo_skynet_server.Common.{
  ℕ, ◌*◌, ◌/◌, ◌%◌, ◌^◌, ◌<◌, ◌≡◌, refl, ap, ap₂, ◌∙◌, bit_or, true, ◌||◌, none, some, List, [],
  ◌∷◌, All, ◌==◌, ==_iff, not_lt→ltb, if_false, ◌>>=◌, all_below, all_below_lem, arith,
}
use demo_skynet_server.Crypt.Base64.{entry}
use demo_skynet_server.Crypt.Base64.RoundTrip.{or_high}
use demo_skynet_server.Crypt.Hex.{hex, ltohex, hex_digit, lfromhex}

all_digits : all_below (λ k. hex_digit (entry hex k) == k) 16 ≡ true
unfolding hex_digit entry
all_digits = refl

hex_digit-entry : (k : ℕ) → k < 16 → hex_digit (entry hex k) ≡ k
hex_digit-entry k h =
    (==_iff (hex_digit (entry hex k)) k).0
      (all_below_lem (λ k. hex_digit (entry hex k) == k) 16 k all_digits h)

-- What `ltohex` makes of a string of bytes, `lfromhex` takes back.
pub lfromhex-ltohex : (text : List ℕ) → All (λ b. b < 256) text → lfromhex (ltohex text) ≡ some text
unfolding ltohex lfromhex
lfromhex-ltohex [] all = refl
lfromhex-ltohex (t ∷ text) (h, all) =
    let hi : ℕ = hex_digit (entry hex (t / 2 ^ 4)) in
    let low : ℕ = hex_digit (entry hex (t % 16)) in
    let e : hi ≡ t / 2 ^ 4 = hex_digit-entry (t / 2 ^ 4) (omega arith) in
    let f : low ≡ t % 16 = hex_digit-entry (t % 16) (omega arith) in
    if_false (ap₂ ◌||◌ (not_lt→ltb 16 hi (omega (arith, e))) (not_lt→ltb 16 low (omega (arith, f))))
      none (lfromhex (ltohex text) >>= λ bytes. some (bit_or (hi * 2 ^ 4) low % 256 ∷ bytes))
    ∙ ap (λ r. r >>= λ bytes. some (bit_or (hi * 2 ^ 4) low % 256 ∷ bytes))
        (lfromhex-ltohex text all)
    ∙ ap (λ (z : ℕ). some (z ∷ text)) (omega (arith, e, f, or_high 4 hi low (omega (arith, f))))
