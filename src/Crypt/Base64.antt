-- ===== src/Crypt/Base64.antt =====
-- lualib-src/lua-crypt.c: `base64encode` and `base64decode`. A string is the list of its bytes.
pub mod Symbols
pub mod RoundTrip
mod Tests
use demo_skynet_server.Common.{
  ℕ, zero, suc, ◌+◌, ◌-◌, ◌*◌, ◌/◌, ◌%◌, ◌^◌, bit_or, Bool, true, false, Option, none, some, List,
  [], ◌∷◌, ◌++◌, ◌==◌, ltb, if◌then◌else◌, length, ◌>>=◌,
}

-- What a character stands for, `b64index`: -1 is `invalid` and -2 is `padding`.
pub data Symbol : Type 0 where
  invalid : Symbol
  padding : Symbol
  value : ℕ → Symbol

abbrev pub encoding : List ℕ
encoding =
    65 ∷ 66 ∷ 67 ∷ 68 ∷ 69 ∷ 70 ∷ 71 ∷ 72 ∷ 73 ∷ 74 ∷ 75 ∷ 76 ∷ 77 ∷ 78 ∷ 79 ∷ 80 ∷ 81 ∷ 82 ∷ 83
    ∷ 84 ∷ 85 ∷ 86 ∷ 87 ∷ 88 ∷ 89 ∷ 90 ∷ 97 ∷ 98 ∷ 99 ∷ 100 ∷ 101 ∷ 102 ∷ 103 ∷ 104 ∷ 105 ∷ 106
    ∷ 107 ∷ 108 ∷ 109 ∷ 110 ∷ 111 ∷ 112 ∷ 113 ∷ 114 ∷ 115 ∷ 116 ∷ 117 ∷ 118 ∷ 119 ∷ 120 ∷ 121 ∷ 122
    ∷ 48 ∷ 49 ∷ 50 ∷ 51 ∷ 52 ∷ 53 ∷ 54 ∷ 55 ∷ 56 ∷ 57 ∷ 43 ∷ 47 ∷ []

abbrev pub decoding : List Symbol
decoding =
    value 62
    ∷ invalid
    ∷ invalid
    ∷ invalid
    ∷ value 63
    ∷ value 52
    ∷ value 53
    ∷ value 54
    ∷ value 55
    ∷ value 56
    ∷ value 57
    ∷ value 58
    ∷ value 59
    ∷ value 60
    ∷ value 61
    ∷ invalid
    ∷ invalid
    ∷ invalid
    ∷ padding
    ∷ invalid
    ∷ invalid
    ∷ invalid
    ∷ value 0
    ∷ value 1
    ∷ value 2
    ∷ value 3
    ∷ value 4
    ∷ value 5
    ∷ value 6
    ∷ value 7
    ∷ value 8
    ∷ value 9
    ∷ value 10
    ∷ value 11
    ∷ value 12
    ∷ value 13
    ∷ value 14
    ∷ value 15
    ∷ value 16
    ∷ value 17
    ∷ value 18
    ∷ value 19
    ∷ value 20
    ∷ value 21
    ∷ value 22
    ∷ value 23
    ∷ value 24
    ∷ value 25
    ∷ invalid
    ∷ invalid
    ∷ invalid
    ∷ invalid
    ∷ invalid
    ∷ invalid
    ∷ value 26
    ∷ value 27
    ∷ value 28
    ∷ value 29
    ∷ value 30
    ∷ value 31
    ∷ value 32
    ∷ value 33
    ∷ value 34
    ∷ value 35
    ∷ value 36
    ∷ value 37
    ∷ value 38
    ∷ value 39
    ∷ value 40
    ∷ value 41
    ∷ value 42
    ∷ value 43
    ∷ value 44
    ∷ value 45
    ∷ value 46
    ∷ value 47
    ∷ value 48
    ∷ value 49
    ∷ value 50
    ∷ value 51
    ∷ []

-- A read of `encoding`, which never reads past the end.
unfoldable pub entry : List ℕ → ℕ → ℕ
entry [] i = 0
entry (c ∷ cs) zero = c
entry (c ∷ cs) (suc i) = entry cs i

-- `decoding[c]`, and -1 from `decoding_size` on.
pub decoded : List Symbol → ℕ → Symbol
decoded [] i = invalid
decoded (s ∷ ss) zero = s
decoded (s ∷ ss) (suc i) = decoded ss i

pub b64index : ℕ → Symbol
b64index c = if ltb c 43 then invalid else decoded decoding (c - 43)

-- `lb64encode`
pub lb64encode : List ℕ → List ℕ
lb64encode [] = []
lb64encode (a ∷ []) = entry encoding (a / 2 ^ 2) ∷ entry encoding (a % 4 * 2 ^ 4) ∷ 61 ∷ 61 ∷ []
lb64encode (a ∷ b ∷ []) =
    let v = bit_or (a * 2 ^ 8) b in
    entry encoding (v / 2 ^ 10)
    ∷ entry encoding (v / 2 ^ 4 % 64)
    ∷ entry encoding (v % 16 * 2 ^ 2)
    ∷ 61
    ∷ []
lb64encode (a ∷ b ∷ c ∷ text) =
    let v = bit_or (bit_or (a * 2 ^ 16) (b * 2 ^ 8)) c in
    entry encoding (v / 2 ^ 18)
    ∷ entry encoding (v / 2 ^ 12 % 64)
    ∷ entry encoding (v / 2 ^ 6 % 64)
    ∷ entry encoding (v % 64)
    ∷ lb64encode text

-- The switch of `lb64decode` over the four symbols `c`; `none` is the error.
pub decode_group : List Symbol → Option (List ℕ)
decode_group (value a ∷ value b ∷ value c ∷ value d ∷ []) =
    let v = bit_or (bit_or (bit_or (a * 2 ^ 18) (b * 2 ^ 12)) (c * 2 ^ 6)) d in
    some (v / 2 ^ 16 % 256 ∷ v / 2 ^ 8 % 256 ∷ v % 256 ∷ [])
decode_group (value a ∷ value b ∷ value c ∷ padding ∷ []) =
    let v = bit_or (bit_or (a * 2 ^ 10) (b * 2 ^ 4)) (c / 2 ^ 2) in
    if c % 4 == 0 then some (v / 2 ^ 8 % 256 ∷ v % 256 ∷ []) else none
decode_group (value a ∷ value b ∷ padding ∷ padding ∷ []) =
    let v = bit_or (a * 2 ^ 2) (b / 2 ^ 4) in if b % 16 == 0 then some (v % 256 ∷ []) else none
decode_group c = none

-- The two loops of `lb64decode`: `none` is at the head of the outer one, and `some c` in the inner
-- one with the symbols `c` so far.
abbrev pub so_far : Option (List Symbol) → List Symbol
so_far none = []
so_far (some c) = c

pub decode_loop : Option (List Symbol) → List ℕ → Option (List ℕ)
decode_loop none [] = some []
decode_loop (some c) [] = none
decode_loop at (t ∷ text) = elim (b64index t) [
  | invalid ↦ decode_loop (some (so_far at)) text
  | s ↦
      let c = so_far at ++ s ∷ [] in
      elim (length c == 4) [
        | true ↦ decode_group c >>= λ out. decode_loop none text >>= λ rest. some (out ++ rest)
        | false ↦ decode_loop (some c) text
      ]
]

-- `lb64decode`; `none` is the error.
pub lb64decode : List ℕ → Option (List ℕ)
lb64decode text = decode_loop none text
