-- ===== src/Crypt/Des/Blocks.antt =====
-- `des_crypt` of lualib-src/lua-crypt.c on one block.
use demo_skynet_server.Common.{
  ℕ, ◌+◌, ◌*◌, ◌/◌, ◌%◌, ◌^◌, ◌<◌, ◌≡◌, ap, ap₂, ◌∙◌, bit_or, List, [], ◌∷◌, ◌++◌, length, reverse,
  arith,
}
use demo_skynet_server.Crypt.Base64.RoundTrip.{or_high}
use demo_skynet_server.Crypt.Des.{get_uint32, put_uint32, des_ip, des_fp, des_rounds, des_crypt}
use demo_skynet_server.Crypt.Des.Permutations.{
  Words, des_ip-Words, des_fp-Words, des_fp-des_ip, des_ip-des_fp,
}
use demo_skynet_server.Crypt.Des.Feistel.{exchange, des_rounds_back, des_rounds-Words}

get_uint32_lem :
    (a b c d : ℕ)
    → b < 256
    → c < 256
    → d < 256
    → get_uint32 a b c d ≡ a * 2 ^ 24 + b * 2 ^ 16 + c * 2 ^ 8 + d
unfolding get_uint32
get_uint32_lem a b c d hb hc hd =
    let first : a * 2 ^ 24 + b * 2 ^ 16 ≡ (a * 2 ^ 8 + b) * 2 ^ 16 = omega arith in
    let second : (a * 2 ^ 8 + b) * 2 ^ 16 + c * 2 ^ 8 ≡ (a * 2 ^ 16 + b * 2 ^ 8 + c) * 2 ^ 8 =
      omega arith in
    ap (λ (z : ℕ). bit_or (bit_or z (c * 2 ^ 8)) d)
      (or_high 24 a (b * 2 ^ 16) (omega arith) ∙ first)
    ∙ ap (λ (z : ℕ). bit_or z d) (or_high 16 (a * 2 ^ 8 + b) (c * 2 ^ 8) (omega arith) ∙ second)
    ∙ or_high 8 (a * 2 ^ 16 + b * 2 ^ 8 + c) d hd
    ∙ omega arith

pub get_uint32-lt :
    (a b c d : ℕ) → a < 256 → b < 256 → c < 256 → d < 256 → get_uint32 a b c d < 2 ^ 32
get_uint32-lt a b c d ha hb hc hd = omega (arith, get_uint32_lem a b c d hb hc hd)

get_put :
    (n : ℕ)
    → n < 2 ^ 32
    → get_uint32 (n / 2 ^ 24 % 256) (n / 2 ^ 16 % 256) (n / 2 ^ 8 % 256) (n % 256) ≡ n
get_put n h =
    get_uint32_lem (n / 2 ^ 24 % 256) (n / 2 ^ 16 % 256) (n / 2 ^ 8 % 256) (n % 256) (omega arith)
      (omega arith) (omega arith)
    ∙ omega arith

pub put-get :
    (a b c d : ℕ)
    → a < 256
    → b < 256
    → c < 256
    → d < 256
    → put_uint32 (get_uint32 a b c d) ≡ a ∷ b ∷ c ∷ d ∷ []
put-get a b c d ha hb hc hd =
    let e = get_uint32_lem a b c d hb hc hd in
    ap₂ ◌∷◌ (omega (arith, e)) (
      ap₂ ◌∷◌ (omega (arith, e)) (ap₂ ◌∷◌ (omega (arith, e)) (ap (λ z. z ∷ []) (omega (arith, e)))))

-- The block of two words, and what `des_crypt` does with the words.
abbrev pub block_of : ℕ × ℕ → List ℕ
block_of p = put_uint32 p.0 ++ put_uint32 p.1

abbrev pub cipher : List (ℕ × ℕ) → ℕ × ℕ → ℕ × ℕ
cipher sk p = des_fp (exchange (des_rounds sk (des_ip p)))

pub cipher-Words : (sk : List (ℕ × ℕ)) (p : ℕ × ℕ) → Words p → Words (cipher sk p)
cipher-Words sk p h =
    let w = des_rounds-Words sk (des_ip p) (des_ip-Words p h) in
    des_fp-Words (exchange (des_rounds sk (des_ip p))) (w.1, w.0)

pub des_crypt-block_of :
    (sk : List (ℕ × ℕ)) (p : ℕ × ℕ) → Words p → des_crypt sk (block_of p) ≡ block_of (cipher sk p)
unfolding des_crypt
des_crypt-block_of sk (x, y) (hx, hy) =
    ap₂ (λ a b. block_of (cipher sk (a, b))) (get_put x hx) (get_put y hy)

pub cipher_back :
    (sk : List (ℕ × ℕ)) (p : ℕ × ℕ)
    → length sk % 2 ≡ 0
    → Words p
    → cipher (reverse sk) (cipher sk p) ≡ p
cipher_back sk p even h =
    let z : ℕ × ℕ = des_ip p in
    let hz = des_ip-Words p h in
    let w = des_rounds-Words sk z hz in
    ap (λ q. des_fp (exchange (des_rounds (reverse sk) q)))
      (des_ip-des_fp (exchange (des_rounds sk z)) (w.1, w.0))
    ∙ ap (λ q. des_fp (exchange q)) (des_rounds_back sk z even)
    ∙ des_fp-des_ip p h
