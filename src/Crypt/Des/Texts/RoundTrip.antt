-- ===== src/Crypt/Des/Texts/RoundTrip.antt =====
-- `ldesencode` and then `ldesdecode` of lualib-src/lua-crypt.c.
use demo_skynet_server.Common.{
  ℕ, ◌+◌, ◌-◌, ◌%◌, ◌<◌, ◌≡◌, refl, sym, ap, ap₂, ◌∙◌, true, ◌&&◌, Option, none, some, List, [],
  ◌∷◌, ◌++◌, append-nil, All, length, reverse, replicate, take, ◌==◌, ==_iff, ltb, lt→ltb,
  if◌then◌else◌, if_true, ◌>>=◌, arith,
}
use demo_skynet_server.Crypt.Des.{get_uint32, des_crypt}
use demo_skynet_server.Crypt.Des.Keys.{key_schedule}
use demo_skynet_server.Crypt.Des.Texts.{
  encode_blocks, ldesencode, decode_blocks, padding_of, ldesdecode,
}
use demo_skynet_server.Crypt.Des.Texts.Padding.{unpadded}
use demo_skynet_server.Crypt.Des.Permutations.{Words}
use demo_skynet_server.Crypt.Des.Blocks.{
  block_of, cipher, cipher-Words, des_crypt-block_of, cipher_back, put-get, get_uint32-lt,
}

abbrev Byte : ℕ → Type 0
Byte b = b < 256

-- The blocks under one key schedule.
module _ (sk : List (ℕ × ℕ)) (even : length sk % 2 ≡ 0) where
  -- One block in front of others: what is encoded, and what is decoded from it.
  front :
      (a b c d e f g h : ℕ) (cs : List ℕ)
      → All Byte (a ∷ b ∷ c ∷ d ∷ e ∷ f ∷ g ∷ h ∷ [])
      → (decode_blocks (reverse sk) (des_crypt sk (a ∷ b ∷ c ∷ d ∷ e ∷ f ∷ g ∷ h ∷ []) ++ cs)
          ≡ a ∷ b ∷ c ∷ d ∷ e ∷ f ∷ g ∷ h ∷ decode_blocks (reverse sk) cs)
        × (length (des_crypt sk (a ∷ b ∷ c ∷ d ∷ e ∷ f ∷ g ∷ h ∷ []) ++ cs) ≡ 8 + length cs)
  unfolding decode_blocks
  front a b c d e f g h cs (ha, (hb, (hc, (hd, (he, (hf, (hg, (hh, u)))))))) =
      let x : ℕ = get_uint32 a b c d in
      let y : ℕ = get_uint32 e f g h in
      let words : Words (x, y) =
        (get_uint32-lt a b c d ha hb hc hd, get_uint32-lt e f g h he hf hg hh) in
      let bytes : block_of (x, y) ≡ a ∷ b ∷ c ∷ d ∷ e ∷ f ∷ g ∷ h ∷ [] =
        ap₂ ◌++◌ (put-get a b c d ha hb hc hd) (put-get e f g h he hf hg hh) in
      let encoded : des_crypt sk (a ∷ b ∷ c ∷ d ∷ e ∷ f ∷ g ∷ h ∷ [])
          ≡ block_of (cipher sk (x, y)) =
        ap (des_crypt sk) (sym bytes) ∙ des_crypt-block_of sk (x, y) words in
      (
        ap (λ r. decode_blocks (reverse sk) (r ++ cs)) encoded
            ∙ ap (λ r. r ++ decode_blocks (reverse sk) cs)
                (des_crypt-block_of (reverse sk) (cipher sk (x, y)) (cipher-Words sk (x, y) words)
                  ∙ ap block_of (cipher_back sk (x, y) even words)
                  ∙ bytes),
        ap (λ r. length (r ++ cs)) encoded ∙ omega arith,
      )

  -- A text with its padding.
  abbrev padded : List ℕ → ℕ → List ℕ
  padded text m = text ++ 0x80 ∷ replicate m 0

  record Decodes (text : List ℕ) : Type 0 where
    zeros : ℕ
    few : zeros < 8
    whole : decode_blocks (reverse sk) (encode_blocks sk text) ≡ padded text zeros
    size : length (encode_blocks sk text) ≡ length text + 1 + zeros
    blocks : length (encode_blocks sk text) % 8 ≡ 0

  last_block :
      (a b c d e f g h : ℕ)
      → All Byte (a ∷ b ∷ c ∷ d ∷ e ∷ f ∷ g ∷ h ∷ [])
      → (decode_blocks (reverse sk) (des_crypt sk (a ∷ b ∷ c ∷ d ∷ e ∷ f ∷ g ∷ h ∷ []))
          ≡ a ∷ b ∷ c ∷ d ∷ e ∷ f ∷ g ∷ h ∷ [])
        × (length (des_crypt sk (a ∷ b ∷ c ∷ d ∷ e ∷ f ∷ g ∷ h ∷ [])) ≡ 8)
  unfolding decode_blocks
  last_block a b c d e f g h all =
      let block : List ℕ = des_crypt sk (a ∷ b ∷ c ∷ d ∷ e ∷ f ∷ g ∷ h ∷ []) in
      let r = front a b c d e f g h [] all in
      (
        ap (decode_blocks (reverse sk)) (sym (append-nil block)) ∙ r.0,
        ap length (sym (append-nil block)) ∙ r.1,
      )

  -- The block at the end.
  last :
      (rest : List ℕ) (m a b c d e f g h : ℕ)
      → All Byte (a ∷ b ∷ c ∷ d ∷ e ∷ f ∷ g ∷ h ∷ [])
      → encode_blocks sk rest ≡ des_crypt sk (a ∷ b ∷ c ∷ d ∷ e ∷ f ∷ g ∷ h ∷ [])
      → a ∷ b ∷ c ∷ d ∷ e ∷ f ∷ g ∷ h ∷ [] ≡ padded rest m
      → length rest + 1 + m ≡ 8
      → Decodes rest
  last rest m a b c d e f g h all at bytes size =
      let r = last_block a b c d e f g h all in
      let eight : length (encode_blocks sk rest) ≡ 8 = ap length at ∙ r.1 in
      record {
        zeros = m;
        few = omega arith;
        whole = ap (decode_blocks (reverse sk)) at ∙ r.0 ∙ bytes;
        size = omega arith;
        blocks = omega arith;
      }

  decodes : (text : List ℕ) → All Byte text → Decodes text
  unfolding encode_blocks
  decodes (a ∷ b ∷ c ∷ d ∷ e ∷ f ∷ g ∷ h ∷ text)
        (ha, (hb, (hc, (hd, (he, (hf, (hg, (hh, all)))))))) =
      let r = decodes text all in
      let fr =
        front a b c d e f g h (encode_blocks sk text)
          (ha, (hb, (hc, (hd, (he, (hf, (hg, (hh, tt)))))))) in
      record {
        zeros = r.zeros;
        few = r.few;
        whole = fr.0 ∙ ap (λ z. a ∷ b ∷ c ∷ d ∷ e ∷ f ∷ g ∷ h ∷ z) r.whole;
        size = omega (arith, fr.1, r.size);
        blocks = omega (arith, fr.1, r.blocks);
      }
  decodes ([]) all = last ([]) 7 0x80 0 0 0 0 0 0 0 (omega (arith, all)) refl refl (omega arith)
  decodes (a ∷ []) all =
      last (a ∷ []) 6 a 0x80 0 0 0 0 0 0 (omega (arith, all)) refl refl (omega arith)
  decodes (a ∷ b ∷ []) all =
      last (a ∷ b ∷ []) 5 a b 0x80 0 0 0 0 0 (omega (arith, all)) refl refl (omega arith)
  decodes (a ∷ b ∷ c ∷ []) all =
      last (a ∷ b ∷ c ∷ []) 4 a b c 0x80 0 0 0 0 (omega (arith, all)) refl refl (omega arith)
  decodes (a ∷ b ∷ c ∷ d ∷ []) all =
      last (a ∷ b ∷ c ∷ d ∷ []) 3 a b c d 0x80 0 0 0 (omega (arith, all)) refl refl (omega arith)
  decodes (a ∷ b ∷ c ∷ d ∷ e ∷ []) all =
      last (a ∷ b ∷ c ∷ d ∷ e ∷ []) 2 a b c d e 0x80 0 0 (omega (arith, all)) refl refl
        (omega arith)
  decodes (a ∷ b ∷ c ∷ d ∷ e ∷ f ∷ []) all =
      last (a ∷ b ∷ c ∷ d ∷ e ∷ f ∷ []) 1 a b c d e f 0x80 0 (omega (arith, all)) refl refl
        (omega arith)
  decodes (a ∷ b ∷ c ∷ d ∷ e ∷ f ∷ g ∷ []) all =
      last (a ∷ b ∷ c ∷ d ∷ e ∷ f ∷ g ∷ []) 0 a b c d e f g 0x80 (omega (arith, all)) refl refl
        (omega arith)

-- With a key of eight bytes, what `ldesencode` makes of any text, the empty one too, `ldesdecode`
-- takes back: neither is an error, and the padding is told from the text.
pub ldesdecode-ldesencode :
    (key text : List ℕ)
    → length key ≡ 8
    → All (λ b. b < 256) text
    → (coded : List ℕ) × (ldesencode key text ≡ some coded) × (ldesdecode key coded ≡ some text)
unfolding ldesencode ldesdecode
ldesdecode-ldesencode key text l all =
    let (sk, at, even) = key_schedule key l in
    let d = decodes sk even text all in
    let coded : List ℕ = encode_blocks sk text in
    let out : List ℕ → Option (List ℕ) = λ z. padding_of 8 (reverse z) 1 >>= λ padding.
    if ltb 8 padding then none else some (take (length coded - padding) z) in
    let right_size : (length coded % 8 == 0 && ltb 0 (length coded)) ≡ true =
      ap₂ ◌&&◌ ((==_iff (length coded % 8) 0).1 d.blocks)
        (lt→ltb 0 (length coded) (omega (arith, d.size))) in
    (
      coded,
      ap (λ r. r >>= λ sk. some (encode_blocks sk text)) at,
      ap
            (λ r. r >>= λ esk.
              if length coded % 8 == 0 && ltb 0 (length coded)
              then (padding_of 8 (reverse (decode_blocks (reverse esk) coded)) 1 >>= λ padding.
                  if ltb 8 padding
                  then none
                  else some (take (length coded - padding) (decode_blocks (reverse esk) coded)))
              else none)
            at
          ∙ if_true right_size (out (decode_blocks (reverse sk) coded)) none
          ∙ ap out d.whole
          ∙ unpadded text d.zeros (length coded) d.few d.size,
    )
