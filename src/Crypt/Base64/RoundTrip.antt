-- ===== src/Crypt/Base64/RoundTrip.antt =====
-- `lb64encode` and then `lb64decode` of lualib-src/lua-crypt.c.
use demo_skynet_server.Common.{
  ℕ, ◌+◌, ◌-◌, ◌*◌, ◌/◌, ◌%◌, ◌^◌, ◌<◌, ◌≡◌, refl, sym, ap, ap₂, ◌∙◌, bit_or, bit_or-fields,
  bit_or_comm, Option, none, some, List, [], ◌∷◌, ◌++◌, All, ==_iff, if_true, ◌>>=◌, arith,
}
use demo_skynet_server.Crypt.Base64.{
  Symbol, padding, value, encoding, entry, b64index, decoded, lb64encode, decode_group, decode_loop,
  lb64decode,
}
use demo_skynet_server.Crypt.Base64.Symbols.{b64index-entry}

pub or_high : (k q r : ℕ) → r < 2 ^ k → bit_or (q * 2 ^ k) r ≡ q * 2 ^ k + r
or_high k q r h = bit_or_comm (q * 2 ^ k) r ∙ bit_or-fields k r q h

or_three :
    (k l a b c : ℕ)
    → b * 2 ^ l < 2 ^ k
    → c < 2 ^ l
    → (a * 2 ^ k + b * 2 ^ l ≡ (a * 2 ^ (k - l) + b) * 2 ^ l)
    → bit_or (bit_or (a * 2 ^ k) (b * 2 ^ l)) c ≡ a * 2 ^ k + b * 2 ^ l + c
or_three k l a b c hb hc e =
    ap (λ (z : ℕ). bit_or z c) (or_high k a (b * 2 ^ l) hb ∙ e)
    ∙ or_high l (a * 2 ^ (k - l) + b) c hc
    ∙ ap (λ (z : ℕ). z + c) (sym e)

-- What comes of a group of four characters and of the rest.
abbrev then_rest : List Symbol → List ℕ → Option (List ℕ)
then_rest c text = decode_group c >>= λ out. decode_loop none text >>= λ rest. some (out ++ rest)

four :
    (a b c d : ℕ) (text : List ℕ) (u v w x : ℕ)
    → b64index a ≡ value u
    → b64index b ≡ value v
    → b64index c ≡ value w
    → b64index d ≡ value x
    → decode_loop none (a ∷ b ∷ c ∷ d ∷ text)
      ≡ then_rest (value u ∷ value v ∷ value w ∷ value x ∷ []) text
unfolding decode_loop
four a b c d text u v w x e f g h = rw (e, f, g, h, decode_loop) refl

three :
    (a b c : ℕ) (text : List ℕ) (u v w : ℕ)
    → b64index a ≡ value u
    → b64index b ≡ value v
    → b64index c ≡ value w
    → decode_loop none (a ∷ b ∷ c ∷ 61 ∷ text)
      ≡ then_rest (value u ∷ value v ∷ value w ∷ padding ∷ []) text
unfolding decode_loop b64index decoded
three a b c text u v w e f g = rw (e, f, g, decode_loop) refl

two :
    (a b : ℕ) (text : List ℕ) (u v : ℕ)
    → b64index a ≡ value u
    → b64index b ≡ value v
    → decode_loop none (a ∷ b ∷ 61 ∷ 61 ∷ text)
      ≡ then_rest (value u ∷ value v ∷ padding ∷ padding ∷ []) text
unfolding decode_loop b64index decoded
two a b text u v e f = rw (e, f, decode_loop) refl

-- The switch of the decoder on what the encoder makes of three, two bytes and one.
group_of_three :
    (a b c v : ℕ)
    → a < 256
    → b < 256
    → c < 256
    → v ≡ a * 2 ^ 16 + b * 2 ^ 8 + c
    → decode_group (
        value (v / 2 ^ 18) ∷ value (v / 2 ^ 12 % 64) ∷ value (v / 2 ^ 6 % 64) ∷ value (v % 64) ∷ [])
      ≡ some (a ∷ b ∷ c ∷ [])
unfolding decode_group
group_of_three a b c v ha hb hc e =
    let first : v / 2 ^ 18 * 2 ^ 18 + v / 2 ^ 12 % 64 * 2 ^ 12 ≡ v / 2 ^ 12 * 2 ^ 12 =
      omega arith in
    let second : v / 2 ^ 12 * 2 ^ 12 + v / 2 ^ 6 % 64 * 2 ^ 6 ≡ v / 2 ^ 6 * 2 ^ 6 = omega arith in
    let whole : bit_or
          (bit_or (bit_or (v / 2 ^ 18 * 2 ^ 18) (v / 2 ^ 12 % 64 * 2 ^ 12))
            (v / 2 ^ 6 % 64 * 2 ^ 6))
          (v % 64)
        ≡ v =
      ap (λ (z : ℕ). bit_or (bit_or z (v / 2 ^ 6 % 64 * 2 ^ 6)) (v % 64))
        (or_high 18 (v / 2 ^ 18) (v / 2 ^ 12 % 64 * 2 ^ 12) (omega arith) ∙ first)
      ∙ ap (λ (z : ℕ). bit_or z (v % 64))
          (or_high 12 (v / 2 ^ 12) (v / 2 ^ 6 % 64 * 2 ^ 6) (omega arith) ∙ second)
      ∙ or_high 6 (v / 2 ^ 6) (v % 64) (omega arith)
      ∙ omega arith in
    let bytes : ◌≡◌ {A = List ℕ} (v / 2 ^ 16 % 256 ∷ v / 2 ^ 8 % 256 ∷ v % 256 ∷ [])
        (a ∷ b ∷ c ∷ []) =
      ap₂ ◌∷◌ (omega arith) (ap₂ ◌∷◌ (omega arith) (ap (λ x. x ∷ []) (omega arith))) in
    ap (λ (z : ℕ). some (z / 2 ^ 16 % 256 ∷ z / 2 ^ 8 % 256 ∷ z % 256 ∷ [])) whole
    ∙ ap (λ x. some x) bytes

group_of_two :
    (a b v : ℕ)
    → a < 256
    → b < 256
    → v ≡ a * 2 ^ 8 + b
    → decode_group
        (value (v / 2 ^ 10) ∷ value (v / 2 ^ 4 % 64) ∷ value (v % 16 * 2 ^ 2) ∷ padding ∷ [])
      ≡ some (a ∷ b ∷ [])
unfolding decode_group
group_of_two a b v ha hb e =
    let first : v / 2 ^ 10 * 2 ^ 10 + v / 2 ^ 4 % 64 * 2 ^ 4 ≡ v / 2 ^ 4 * 2 ^ 4 = omega arith in
    let whole : bit_or (bit_or (v / 2 ^ 10 * 2 ^ 10) (v / 2 ^ 4 % 64 * 2 ^ 4))
          (v % 16 * 2 ^ 2 / 2 ^ 2)
        ≡ v =
      ap (λ (z : ℕ). bit_or z (v % 16 * 2 ^ 2 / 2 ^ 2))
        (or_high 10 (v / 2 ^ 10) (v / 2 ^ 4 % 64 * 2 ^ 4) (omega arith) ∙ first)
      ∙ or_high 4 (v / 2 ^ 4) (v % 16 * 2 ^ 2 / 2 ^ 2) (omega arith)
      ∙ omega arith in
    if_true ((==_iff (v % 16 * 2 ^ 2 % 4) 0).1 (omega arith)) _ none
    ∙ ap (λ (z : ℕ). some (z / 2 ^ 8 % 256 ∷ z % 256 ∷ [])) whole
    ∙ ap (λ x. some x) (ap₂ ◌∷◌ (omega arith) (ap (λ x. x ∷ []) (omega arith)))

group_of_one :
    (a : ℕ)
    → a < 256
    → decode_group (value (a / 2 ^ 2) ∷ value (a % 4 * 2 ^ 4) ∷ padding ∷ padding ∷ [])
      ≡ some (a ∷ [])
unfolding decode_group
group_of_one a ha =
    if_true ((==_iff (a % 4 * 2 ^ 4 % 16) 0).1 (omega arith)) _ none
    ∙ ap (λ (z : ℕ). some (z ∷ []))
        (omega (arith, or_high 2 (a / 2 ^ 2) (a % 4 * 2 ^ 4 / 2 ^ 4) (omega arith)))

-- What `lb64encode` makes of a string of bytes, of any size, `lb64decode` takes back.
pub lb64decode-lb64encode :
    (text : List ℕ) → All (λ b. b < 256) text → lb64decode (lb64encode text) ≡ some text
unfolding lb64encode lb64decode decode_loop
lb64decode-lb64encode [] all = refl
lb64decode-lb64encode (a ∷ []) (ha, u) =
    two (entry encoding (a / 2 ^ 2)) (entry encoding (a % 4 * 2 ^ 4)) [] (a / 2 ^ 2) (a % 4 * 2 ^ 4)
      (b64index-entry (a / 2 ^ 2) (omega arith)) (b64index-entry (a % 4 * 2 ^ 4) (omega arith))
    ∙ ap (λ r. r >>= λ out. decode_loop none [] >>= λ rest. some (out ++ rest)) (group_of_one a ha)
lb64decode-lb64encode (a ∷ b ∷ []) (ha, (hb, u)) =
    let v : ℕ = bit_or (a * 2 ^ 8) b in
    let e : v ≡ a * 2 ^ 8 + b = or_high 8 a b (omega arith) in
    three (entry encoding (v / 2 ^ 10)) (entry encoding (v / 2 ^ 4 % 64))
      (entry encoding (v % 16 * 2 ^ 2)) [] (v / 2 ^ 10) (v / 2 ^ 4 % 64) (v % 16 * 2 ^ 2)
      (b64index-entry (v / 2 ^ 10) (omega (arith, e)))
      (b64index-entry (v / 2 ^ 4 % 64) (omega arith))
      (b64index-entry (v % 16 * 2 ^ 2) (omega arith))
    ∙ ap (λ r. r >>= λ out. decode_loop none [] >>= λ rest. some (out ++ rest))
        (group_of_two a b v ha hb e)
lb64decode-lb64encode (a ∷ b ∷ c ∷ text) (ha, (hb, (hc, all))) =
    let v : ℕ = bit_or (bit_or (a * 2 ^ 16) (b * 2 ^ 8)) c in
    let e : v ≡ a * 2 ^ 16 + b * 2 ^ 8 + c =
      or_three 16 8 a b c (omega arith) (omega arith) (omega arith) in
    four (entry encoding (v / 2 ^ 18)) (entry encoding (v / 2 ^ 12 % 64))
      (entry encoding (v / 2 ^ 6 % 64)) (entry encoding (v % 64)) (lb64encode text) (v / 2 ^ 18)
      (v / 2 ^ 12 % 64) (v / 2 ^ 6 % 64) (v % 64) (b64index-entry (v / 2 ^ 18) (omega (arith, e)))
      (b64index-entry (v / 2 ^ 12 % 64) (omega arith))
      (b64index-entry (v / 2 ^ 6 % 64) (omega arith)) (b64index-entry (v % 64) (omega arith))
    ∙ ap (λ r. r >>= λ out. decode_loop none (lb64encode text) >>= λ rest. some (out ++ rest))
        (group_of_three a b c v ha hb hc e)
    ∙ ap (λ r. r >>= λ rest. some (a ∷ b ∷ c ∷ rest)) (lb64decode-lb64encode text all)
