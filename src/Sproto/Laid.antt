-- ===== src/Sproto/Laid.antt =====
-- How packed bytes lie in the buffer of `sproto_pack`: behind those that are there already.
use demo_skynet_server.Common.{
  ℕ, zero, suc, ◌+◌, ◌-◌, ◌*◌, ◌/◌, ◌≤◌, ◌<◌, ◌≡◌, refl, sym, ap, ap₂, subst, ◌∙◌, ◌⊎◌, inl, inr,
  List, [], ◌∷◌, ◌++◌, append-nil, arith, length, take, replicate, length-append, length-replicate,
  put, put_at, put_off, write_list, write_list_off, region, region_same, region-append,
  region-write_list,
}
use demo_skynet_server.Sproto.{write_ff, read}
use demo_skynet_server.Sproto.Encoded.{
  Encodes, Encodes-append, one_run, packed_block, nonzeros, header_bits,
}

pub Encodes-extend :
    (buf buf' : ℕ → ℕ) (a m : ℕ) (bytes q b : List ℕ)
    → Encodes (region buf 0 a) q
    → ((k : ℕ) → k < a → buf' k ≡ buf k)
    → region buf' a m ≡ bytes
    → Encodes bytes b
    → Encodes (region buf' 0 (a + m)) (q ++ b)
Encodes-extend buf buf' a m bytes q b e same at_a e' =
    subst (λ x. Encodes x (q ++ b))
      (sym (
        region-append buf' 0 a m
        ∙ ap₂ ◌++◌ (region_same buf buf' 0 a (λ k l h. same k (omega arith)))
            ((let z : 0 + a ≡ a = omega arith in ap (λ x. region buf' x m) z) ∙ at_a)))
      (Encodes-append e e')

-- A block behind the index `at`.
pub block_region :
    (buf : ℕ → ℕ) (at : ℕ) (bs : List ℕ)
    → region
        (put (write_list buf (at + 1) (nonzeros bs)) at (header_bits bs))
        at
        (length (nonzeros bs) + 1)
      ≡ packed_block bs
unfolding region
block_region buf at bs =
    (let s : length (nonzeros bs) + 1 ≡ suc (length (nonzeros bs)) = omega arith in
      ap (region (put written at (header_bits bs)) at) s)
    ∙ ap₂ ◌∷◌ (put_at written at (header_bits bs)) (
        region_same written _ (at + 1) (length (nonzeros bs))
          (λ k l h. put_off written at (header_bits bs) k (omega arith))
        ∙ region-write_list buf (at + 1) (nonzeros bs) (length (nonzeros bs)) refl)
  where
    written : ℕ → ℕ
    written = write_list buf (at + 1) (nonzeros bs)

pub block_below :
    (buf : ℕ → ℕ) (at : ℕ) (bs : List ℕ) (k : ℕ)
    → k < at
    → put (write_list buf (at + 1) (nonzeros bs)) at (header_bits bs) k ≡ buf k
block_below buf at bs k h =
    put_off (write_list buf (at + 1) (nonzeros bs)) at (header_bits bs) k (omega arith)
    ∙ write_list_off buf (at + 1) (nonzeros bs) k (inl (omega arith))

-- A run of `k + 1` blocks, of which the last may be short.
module _ (src : List ℕ) (des : ℕ) (buf : ℕ → ℕ) (k : ℕ) (more : k * 8 < length src)
    (most : length src ≤ (k + 1) * 8) where
  abbrev pub filled : List ℕ
  filled = src ++ replicate ((k + 1) * 8 - length src) 0

  pub length-filled : length filled ≡ (k + 1) * 8
  length-filled = omega (
    arith,
    length-append src (replicate ((k + 1) * 8 - length src) 0),
    length-replicate {A = ℕ} ((k + 1) * 8 - length src) 0,
  )

  whole : write_ff src des buf ≡ write_list buf des (0xff ∷ k ∷ filled)
  unfolding write_ff
  whole =
      let aligned : (length src + 7) / 8 * 8 ≡ (k + 1) * 8 = omega arith in
      let blocks : (length src + 7) / 8 * 8 / 8 - 1 ≡ k = omega arith in
      ap₂ (λ m (a : ℕ). write_list buf des (0xff ∷ m ∷ (src ++ replicate (a - length src) 0)))
        blocks aligned

  pub write_ff_off :
      (j : ℕ) → (j < des) ⊎ (des + (2 + (k + 1) * 8) ≤ j) → write_ff src des buf j ≡ buf j
  write_ff_off j h =
      ap (λ f. f j) whole
      ∙ write_list_off buf des (0xff ∷ k ∷ filled) j
          (elim h [ inl l ↦ inl l | inr l ↦ inr (omega (arith, length-filled)) ])

  pub region-write_ff : region (write_ff src des buf) des (2 + (k + 1) * 8) ≡ 0xff ∷ k ∷ filled
  region-write_ff =
      ap (λ f. region f des (2 + (k + 1) * 8)) whole
      ∙ region-write_list buf des (0xff ∷ k ∷ filled) (2 + (k + 1) * 8)
          (omega (arith, length-filled))

-- `junk n` are the `n` bytes behind the source.
abbrev pub IsBehind : (ℕ → List ℕ) → Type 0
IsBehind junk = (n : ℕ) → length (junk n) ≡ n

no_bytes : (xs : List ℕ) → length xs ≡ 0 → xs ≡ []
no_bytes [] h = refl
no_bytes (x ∷ xs) h = absurd (omega arith)

pub read_inside :
    (junk : ℕ → List ℕ) (n : ℕ) (src : List ℕ)
    → IsBehind junk
    → n ≤ length src
    → read junk n src ≡ take n src
unfolding read
read_inside junk n src behind h =
    ap (λ xs. take n src ++ xs)
      (no_bytes (junk (n - length src)) (omega (arith, behind (n - length src))))
    ∙ append-nil (take n src)

take_past : (n : ℕ) (xs : List ℕ) → length xs ≤ n → take n xs ≡ xs
take_past zero [] h = refl
take_past zero (x ∷ xs) h = absurd (omega arith)
take_past (suc n) [] h = refl
take_past (suc n) (x ∷ xs) h = ap (λ r. x ∷ r) (take_past n xs (omega arith))

pub read_past :
    (junk : ℕ → List ℕ) (n : ℕ) (src : List ℕ)
    → length src ≤ n
    → read junk n src ≡ src ++ junk (n - length src)
unfolding read
read_past junk n src h = ap (λ xs. xs ++ junk (n - length src)) (take_past n src h)

no_zeros : (bs : List ℕ) (n : ℕ) → n ≡ length bs → bs ++ replicate (n - length bs) 0 ≡ bs
no_zeros bs n e =
    (let z : n - length bs ≡ 0 = omega arith in ap (λ (m : ℕ). bs ++ replicate m 0) z)
    ∙ append-nil bs

-- A run of whole blocks behind what stands for `q`.
pub run_Encodes :
    (run : List ℕ) (des : ℕ) (buf : ℕ → ℕ) (q : List ℕ) (k : ℕ)
    → k < 256
    → length run ≡ (k + 1) * 8
    → Encodes (region buf 0 des) q
    → Encodes (region (write_ff run des buf) 0 (des + (2 + (k + 1) * 8))) (q ++ run)
run_Encodes run des buf q k few size e =
    let more : k * 8 < length run = omega (arith, size) in
    let most : length run ≤ (k + 1) * 8 = omega (arith, size) in
    Encodes-extend buf (write_ff run des buf) des (2 + (k + 1) * 8) (0xff ∷ k ∷ run) q run e
      (λ j h. write_ff_off run des buf k more most j (inl h))
      (region-write_ff run des buf k more most
        ∙ ap (λ x. 0xff ∷ k ∷ x) (no_zeros run ((k + 1) * 8) (sym size)))
      (one_run k run few size)
