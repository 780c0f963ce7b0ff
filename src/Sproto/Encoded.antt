-- ===== src/Sproto/Encoded.antt =====
-- The packed form of lualib-src/sproto/sproto.c, apart from how it is written: a block of eight bytes is
-- a header with a bit for each byte that is not zero, and these bytes; a run of blocks may stand as
-- it is behind 0xff and its length.
use native.Mathlib.Nat.{pow-succ'}
use demo_skynet_server.Common.{
  ℕ, zero, suc, ◌+◌, ◌*◌, ◌^◌, ◌≤◌, ◌<◌, ◌≡◌, refl, sym, ap, subst, ◌≢◌, List, [], ◌∷◌, ◌++◌,
  append_assoc, append-nil, arith, length, ◌==◌, if◌then◌else◌, Bool-cases, inl, inr, if_true,
  if_false, ==_iff, ne_of_false, ◌⊎◌, replicate,
}

unfoldable pub nonzeros : List ℕ → List ℕ
nonzeros [] = []
nonzeros (b ∷ bs) = if b == 0 then nonzeros bs else b ∷ nonzeros bs

-- Bit `i` of the header says whether byte `i` is not zero.
unfoldable pub header_bits : List ℕ → ℕ
header_bits [] = 0
header_bits (b ∷ bs) = (if b == 0 then 0 else 1) + 2 * header_bits bs

abbrev pub packed_block : List ℕ → List ℕ
packed_block bs = header_bits bs ∷ nonzeros bs

-- The packed bytes of the first list stand for the bytes of the second.
pub data Encodes : List ℕ → List ℕ → Type 0 where
  done : Encodes [] []
  block :
      (bs : List ℕ) {p q : List ℕ}
      → length bs ≡ 8
      → length (nonzeros bs) < 8
      → Encodes p q
      → Encodes (packed_block bs ++ p) (bs ++ q)
  run :
      (k : ℕ) (bs : List ℕ) {p q : List ℕ}
      → k < 256
      → length bs ≡ (k + 1) * 8
      → Encodes p q
      → Encodes (0xff ∷ k ∷ bs ++ p) (bs ++ q)

pub Encodes-append :
    {p q p' q' : List ℕ} → Encodes p q → Encodes p' q' → Encodes (p ++ p') (q ++ q')
Encodes-append done e = e
Encodes-append {p' = p'} {q' = q'} (block bs {p} {q} l n e) e' =
    subst (λ x. Encodes ((packed_block bs ++ p) ++ p') x) (sym (append_assoc bs q q'))
      (subst (λ x. Encodes x (bs ++ (q ++ q'))) (sym (append_assoc (packed_block bs) p p'))
        (block bs l n (Encodes-append e e')))
Encodes-append {p' = p'} {q' = q'} (run k bs {p} {q} h l e) e' =
    subst (λ x. Encodes (((0xff ∷ k ∷ bs) ++ p) ++ p') x) (sym (append_assoc bs q q'))
      (subst (λ x. Encodes x (bs ++ (q ++ q'))) (sym (append_assoc (0xff ∷ k ∷ bs) p p'))
        (run k bs h l (Encodes-append e e')))

pub one_block :
    (bs : List ℕ) → length bs ≡ 8 → length (nonzeros bs) < 8 → Encodes (packed_block bs) bs
one_block bs l n =
    subst (λ x. Encodes x bs) (append-nil (packed_block bs))
      (subst (λ x. Encodes (packed_block bs ++ []) x) (append-nil bs) (block bs l n done))

pub one_run : (k : ℕ) (bs : List ℕ) → k < 256 → length bs ≡ (k + 1) * 8 → Encodes (0xff ∷ k ∷ bs) bs
one_run k bs h l =
    subst (λ x. Encodes x bs) (append-nil (0xff ∷ k ∷ bs))
      (subst (λ x. Encodes (0xff ∷ k ∷ bs ++ []) x) (append-nil bs) (run k bs h l done))

-- The parts of a block: one more byte in front.
pub nonzeros_cases :
    (b : ℕ) (bs : List ℕ)
    → ((b ≡ 0) × (nonzeros (b ∷ bs) ≡ nonzeros bs) × (header_bits (b ∷ bs) ≡ 2 * header_bits bs))
      ⊎ ((b ≢ 0)
          × (nonzeros (b ∷ bs) ≡ b ∷ nonzeros bs)
          × (header_bits (b ∷ bs) ≡ 1 + 2 * header_bits bs))
unfolding nonzeros header_bits
nonzeros_cases b bs = elim (Bool-cases (b == 0)) [
  | inl t ↦ inl ((==_iff b 0).0 t, if_true t _ _, rw t (omega arith))
  | inr t ↦ inr (ne_of_false b 0 t, if_false t _ _, rw t (omega arith))
]

pub length-nonzeros-le : (bs : List ℕ) → length (nonzeros bs) ≤ length bs
unfolding nonzeros
length-nonzeros-le [] = omega arith
length-nonzeros-le (b ∷ bs) = elim (nonzeros_cases b bs) [
  | inl (z, n, h) ↦ omega (arith, ap length n, length-nonzeros-le bs)
  | inr (z, n, h) ↦ omega (arith, ap length n, length-nonzeros-le bs)
]

pub header_bits-lt : (bs : List ℕ) → header_bits bs < 2 ^ length bs
unfolding header_bits
header_bits-lt [] = omega arith
header_bits-lt (b ∷ bs) = elim (nonzeros_cases b bs) [
  | inl (z, n, h) ↦ omega (arith, h, header_bits-lt bs, pow-succ' 2 (length bs))
  | inr (z, n, h) ↦ omega (arith, h, header_bits-lt bs, pow-succ' 2 (length bs))
]

-- A header of ones only stands before a block without zeros.
pub header_bits-full :
    (bs : List ℕ) → header_bits bs + 1 ≡ 2 ^ length bs → length (nonzeros bs) ≡ length bs
unfolding header_bits nonzeros
header_bits-full [] h = refl
header_bits-full (b ∷ bs) h = elim (nonzeros_cases b bs) [
  | inl (z, n, e) ↦ absurd (omega (arith, h, e, pow-succ' 2 (length bs)))
  | inr (z, n, e) ↦
      omega (arith, ap length n, header_bits-full bs (omega (arith, h, e, pow-succ' 2 (length bs))))
]

-- A zero in a block leaves fewer bytes that are not.
pub length-nonzeros-zero :
    (bs : List ℕ) (n : ℕ) → length (nonzeros (bs ++ replicate n 0)) ≤ length bs
unfolding nonzeros
length-nonzeros-zero [] zero = omega arith
length-nonzeros-zero [] (suc n) = omega (arith, length-nonzeros-zero [] n)
length-nonzeros-zero (b ∷ bs) n = elim (nonzeros_cases b (bs ++ replicate n 0)) [
  | inl (z, e, h) ↦ omega (arith, ap length e, length-nonzeros-zero bs n)
  | inr (z, e, h) ↦ omega (arith, ap length e, length-nonzeros-zero bs n)
]
