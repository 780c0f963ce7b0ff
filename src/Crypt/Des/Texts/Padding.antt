-- ===== src/Crypt/Des/Texts/Padding.antt =====
-- The padding of lualib-src/lua-crypt.c's `desdecode`.
use demo_skynet_server.Common.{
  ℕ, zero, suc, ◌+◌, ◌-◌, ◌<◌, ◌≡◌, refl, ap, ◌∙◌, none, some, List, [], ◌∷◌, ◌++◌, append_assoc,
  length, reverse, reverse-append, replicate, take, take-append, take_all, ltb, not_lt→ltb,
  if◌then◌else◌, if_false, ◌>>=◌, arith,
}
use demo_skynet_server.Crypt.Des.Texts.{padding_of}

-- What the padding is taken for.
padding_of_zeros :
    (n m : ℕ) (bytes : List ℕ) (padding : ℕ)
    → m < n
    → padding_of n (replicate m 0 ++ 0x80 ∷ bytes) padding ≡ some (padding + m)
unfolding padding_of
padding_of_zeros zero m bytes padding h = absurd (omega arith)
padding_of_zeros (suc n) zero bytes padding h = ap (λ (z : ℕ). some z) (omega arith)
padding_of_zeros (suc n) (suc m) bytes padding h =
    padding_of_zeros n m bytes (padding + 1) (omega arith) ∙ ap (λ (z : ℕ). some z) (omega arith)

abbrev zeros_of : ℕ → List ℕ
zeros_of m = replicate m 0

reverse-replicate : (m : ℕ) → reverse (zeros_of m) ≡ zeros_of m
reverse-replicate zero = refl
reverse-replicate (suc m) = ap (λ z. z ++ 0 ∷ []) (reverse-replicate m) ∙ snoc m
  where
    snoc : (m : ℕ) → zeros_of m ++ 0 ∷ [] ≡ 0 ∷ zeros_of m
    snoc zero = refl
    snoc (suc m) = ap (λ z. 0 ∷ z) (snoc m)

reverse-padded :
    (text : List ℕ) (m : ℕ)
    → reverse (text ++ 0x80 ∷ replicate m 0) ≡ replicate m 0 ++ 0x80 ∷ reverse text
reverse-padded text m =
    reverse-append text (0x80 ∷ replicate m 0)
    ∙ ap (λ z. (z ++ 0x80 ∷ []) ++ reverse text) (reverse-replicate m)
    ∙ append_assoc (replicate m 0) (0x80 ∷ []) (reverse text)

pub unpadded :
    (text : List ℕ) (m size : ℕ)
    → m < 8
    → size ≡ length text + 1 + m
    → (padding_of 8 (reverse (text ++ 0x80 ∷ replicate m 0)) 1 >>= λ padding.
        if ltb 8 padding then none else some (take (size - padding) (text ++ 0x80 ∷ replicate m 0)))
      ≡ some text
unpadded text m size few e =
    ap
      (λ r. r >>= λ padding.
        if ltb 8 padding then none else some (take (size - padding) (text ++ 0x80 ∷ replicate m 0)))
      (ap (λ r. padding_of 8 r 1) (reverse-padded text m)
        ∙ padding_of_zeros 8 m (reverse text) 1 few)
    ∙ if_false (not_lt→ltb 8 (1 + m) (omega arith)) none
        (some (take (size - (1 + m)) (text ++ 0x80 ∷ replicate m 0)))
    ∙ ap (λ (n : ℕ). some (take n (text ++ 0x80 ∷ replicate m 0))) (omega arith)
    ∙ ap (λ z. some z)
        (take-append (length text) text (0x80 ∷ replicate m 0) (omega arith)
          ∙ take_all (length text) text refl)
