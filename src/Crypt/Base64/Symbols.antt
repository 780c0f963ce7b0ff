-- ===== src/Crypt/Base64/Symbols.antt =====
-- The characters of lualib-src/lua-crypt.c's base64: `b64index` undoes `encoding`.
use demo_skynet_server.Common.{
  ℕ, ◌<◌, ◌≡◌, refl, ap, Bool, true, false, ◌==◌, ==_iff, all_below, all_below_lem, arith,
}
use demo_skynet_server.Crypt.Base64.{
  Symbol, invalid, padding, value, encoding, entry, decoded, b64index,
}

is_value : ℕ → Symbol → Bool
is_value k invalid = false
is_value k padding = false
is_value k (value n) = n == k

is_value_lem : (k : ℕ) (s : Symbol) → is_value k s ≡ true → s ≡ value k
unfolding is_value
is_value_lem k invalid e = absurd (ground arith)
is_value_lem k padding e = absurd (ground arith)
is_value_lem k (value n) e = ap value ((==_iff n k).0 e)

all_values : all_below (λ k. is_value k (b64index (entry encoding k))) 64 ≡ true
unfolding is_value b64index entry decoded
all_values = refl

pub b64index-entry : (k : ℕ) → k < 64 → b64index (entry encoding k) ≡ value k
b64index-entry k h =
    is_value_lem k (b64index (entry encoding k))
      (all_below_lem (λ k. is_value k (b64index (entry encoding k))) 64 k all_values h)
