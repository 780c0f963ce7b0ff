-- ===== src/Sproto/Fuel.antt =====
-- The fuel of `sproto_unpack` is enough: with more, its result is the same.
use demo_skynet_server.Common.{
  ℕ, zero, suc, ◌+◌, ◌*◌, ◌/◌, ◌%◌, ◌^◌, ◌≤◌, ◌<◌, ◌⊎◌, ◌≡◌, refl, ap, Option, none, some, List, [],
  ◌∷◌, arith, length, length-drop, ◌==◌, ltb, if◌then◌else◌, Bool-cases, inl, inr,
}
use demo_skynet_server.Sproto.{Unpacker, emit, take_byte, unpack_seg, unpack_ff, unpack_rounds}

-- How many bytes of the source are left.
abbrev pub left : Option (List ℕ) → ℕ
left none = 0
left (some xs) = length xs

abbrev Shrinks : ℕ → Option Unpacker → Type 0
Shrinks n none = Unit
Shrinks n (some u) = left u.src ≤ n

Shrinks-le : (m n : ℕ) (r : Option Unpacker) → m ≤ n → Shrinks m r → Shrinks n r
Shrinks-le m n none h s = tt
Shrinks-le m n (some u) h s = omega arith

emit-src : (limit b : ℕ) (u : Unpacker) → (emit limit b u).src ≡ u.src
emit-src limit b u = elim (Bool-cases (ltb u.at limit)) [ inl t ↦ rw t refl | inr t ↦ rw t refl ]

take_cases :
    (beyond : ℕ) (src : Option (List ℕ))
    → (take_byte beyond src ≡ none)
      ⊎ ((b : ℕ) × (src' : Option (List ℕ)) × (take_byte beyond src ≡ some (b, src'))
          × (left src' ≤ left src))
unfolding take_byte
take_cases beyond none = inl refl
take_cases beyond (some []) = inr (beyond, none, refl, omega arith)
take_cases beyond (some (b ∷ bs)) = inr (b, some bs, refl, omega arith)

unpack_seg-Shrinks :
    (n beyond limit header i : ℕ) (u : Unpacker)
    → Shrinks (left u.src) (unpack_seg n beyond limit header i u)
unfolding unpack_seg
unpack_seg-Shrinks zero beyond limit header i u = omega arith
unpack_seg-Shrinks (suc n) beyond limit header i u = elim (Bool-cases (header / 2 ^ i % 2 == 0)) [
  | inl t ↦
      let same = emit-src limit 0 u in
      rw (t, unpack_seg)
        (Shrinks-le (left (emit limit 0 u).src) (left u.src)
          (unpack_seg n beyond limit header (i + 1) (emit limit 0 u)) (omega (arith, ap left same))
          (unpack_seg-Shrinks n beyond limit header (i + 1) (emit limit 0 u)))
  | inr t ↦ elim (take_cases beyond u.src) [
    | inl e ↦ rw (t, e, unpack_seg) tt
    | inr (b, src, e, less) ↦
        let u' : Unpacker = emit limit b (record u { src = src }) in
        rw (t, e, unpack_seg)
          (Shrinks-le (left u'.src) (left u.src) (unpack_seg n beyond limit header (i + 1) u')
            (omega (arith, less, ap left (emit-src limit b (record u { src = src }))))
            (unpack_seg-Shrinks n beyond limit header (i + 1) u'))
  ]
]

unpack_ff-Shrinks :
    (limit : ℕ) (src : List ℕ) (u : Unpacker) → Shrinks (length src) (unpack_ff limit src u)
unfolding unpack_ff
unpack_ff-Shrinks limit [] u = tt
unpack_ff-Shrinks limit (count ∷ src) u =
    elim (Bool-cases (ltb (length src + 1) ((count + 1) * 8 + 1))) [
      | inl t ↦ rw (t, unpack_ff) tt
      | inr t ↦ rw (t, unpack_ff) (omega (arith, length-drop ((count + 1) * 8) src))
    ]

-- What a round does behind its header.
abbrev round : ℕ → ℕ → ℕ → List ℕ → Unpacker → Option Unpacker
round beyond limit header src u =
    if header == 0xff
    then unpack_ff limit src u
    else unpack_seg 8 beyond limit header 0 (record u { src = some src })

round-Shrinks :
    (beyond limit header : ℕ) (src : List ℕ) (u : Unpacker)
    → Shrinks (length src) (round beyond limit header src u)
round-Shrinks beyond limit header src u = elim (Bool-cases (header == 0xff)) [
  | inl t ↦ rw t (unpack_ff-Shrinks limit src u)
  | inr t ↦ rw t (unpack_seg-Shrinks 8 beyond limit header 0 (record u { src = some src }))
]

src_cases :
    (src : Option (List ℕ))
    → ((src ≡ none) ⊎ (src ≡ some []))
      ⊎ ((header : ℕ) × (rest : List ℕ) × (src ≡ some (header ∷ rest)))
src_cases none = inl (inl refl)
src_cases (some []) = inl (inr refl)
src_cases (some (header ∷ rest)) = inr (header, rest, refl)

after_round :
    {n : ℕ} {f g : Unpacker → Option Unpacker} (r : Option Unpacker)
    → Shrinks n r
    → ((u : Unpacker) → left u.src ≤ n → f u ≡ g u)
    → (elim r [ none ↦ none | some u ↦ f u ]) ≡ (elim r [ none ↦ none | some u ↦ g u ])
after_round none s h = refl
after_round (some u) s h = h u s

-- With more fuel than there are bytes left, the loop has the result that it has with any more: its
-- `none` is the code's -1, and never that the fuel is used up.
pub unpack_total :
    (beyond limit fuel fuel' : ℕ) (u : Unpacker)
    → left u.src < fuel
    → fuel ≤ fuel'
    → unpack_rounds fuel' beyond limit u ≡ unpack_rounds fuel beyond limit u
unfolding unpack_rounds
unpack_total beyond limit zero fuel' u h m = absurd (omega arith)
unpack_total beyond limit (suc fuel) zero u h m = absurd (omega arith)
unpack_total beyond limit (suc fuel) (suc fuel') u h m = elim (src_cases u.src) [
  | inl (inl e) ↦ rw (e, unpack_rounds) refl
  | inl (inr e) ↦ rw (e, unpack_rounds) refl
  | inr (header, src, e) ↦
      let short : length src < fuel = omega (arith, h, ap left e) in
      rw (e, unpack_rounds)
        (after_round (round beyond limit header src u) (round-Shrinks beyond limit header src u)
          (λ u' l. unpack_total beyond limit fuel fuel' u' (omega arith) (omega arith)))
]
