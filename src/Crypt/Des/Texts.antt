-- ===== src/Crypt/Des/Texts.antt =====
-- lualib-src/lua-crypt.c: `desencode` and `desdecode` of texts, with their padding.
pub mod Padding
pub mod RoundTrip
mod Tests
use demo_skynet_server.Common.{
  ℕ, zero, suc, ◌+◌, ◌-◌, ◌*◌, ◌/◌, ◌%◌, ◌^◌, Bool, true, false, ◌&&◌, Option, none, some, List, [],
  ◌∷◌, ◌++◌, reverse, replicate, take, ◌==◌, ltb, if◌then◌else◌, length, ◌>>=◌,
}
use demo_skynet_server.Crypt.Des.{des_crypt, des_key}

-- `ldesencode`: the whole blocks, and the rest with 0x80 and zeros behind it.
abbrev pub tail : List ℕ → List ℕ
tail rest = rest ++ 0x80 ∷ replicate (7 - length rest) 0

pub encode_blocks : List (ℕ × ℕ) → List ℕ → List ℕ
encode_blocks sk (a ∷ b ∷ c ∷ d ∷ e ∷ f ∷ g ∷ h ∷ text) =
    des_crypt sk (a ∷ b ∷ c ∷ d ∷ e ∷ f ∷ g ∷ h ∷ []) ++ encode_blocks sk text
encode_blocks sk rest = des_crypt sk (tail rest)

pub ldesencode : List ℕ → List ℕ → Option (List ℕ)
ldesencode key text = des_key key >>= λ sk. some (encode_blocks sk text)

-- `ldesdecode`: the blocks, and the padding that they end with. Where the last eight bytes are all
-- zero the result is an error; the code reads on in front of a buffer of eight bytes before it.
pub decode_blocks : List (ℕ × ℕ) → List ℕ → List ℕ
decode_blocks sk (a ∷ b ∷ c ∷ d ∷ e ∷ f ∷ g ∷ h ∷ text) =
    des_crypt sk (a ∷ b ∷ c ∷ d ∷ e ∷ f ∷ g ∷ h ∷ []) ++ decode_blocks sk text
decode_blocks sk rest = []

pub padding_of : ℕ → List ℕ → ℕ → Option ℕ
padding_of zero bytes padding = some padding
padding_of (suc n) [] padding = some padding
padding_of (suc n) (b ∷ bytes) padding =
    let rest = padding_of n bytes (padding + 1) in
    if b == 0 then rest else if b == 0x80 then some padding else none

pub ldesdecode : List ℕ → List ℕ → Option (List ℕ)
ldesdecode key text = des_key key >>= λ esk.
    if length text % 8 == 0 && ltb 0 (length text)
    then (let out = decode_blocks (reverse esk) text in
        padding_of 8 (reverse out) 1 >>= λ padding.
        if ltb 8 padding then none else some (take (length text - padding) out))
    else none
