-- ===== src/Sproto/Packed.antt =====
-- The rounds of `sproto_pack`.
use native.Mathlib.Decide.{dec_lt}
use demo_skynet_server.Common.{
  ℕ, ◌+◌, ◌-◌, ◌*◌, ◌≤◌, ◌<◌, ◌≡◌, sym, ap, ◌∙◌, ◌⊎◌, inl, List, ◌++◌, append_assoc, arith, length,
  take, drop, replicate, length-append, length-replicate, length-take, length-drop, take-drop,
  drop-drop, if_false, not_lt→ltb,
}
use demo_skynet_server.Sproto.{Packer, segment, pack_round}
use demo_skynet_server.Sproto.Encoded.{nonzeros, length-nonzeros-le, length-nonzeros-zero}
use demo_skynet_server.Sproto.Laid.{IsBehind, read_inside, read_past}
use demo_skynet_server.Sproto.Rounds.{segment_full, segment_short}
use demo_skynet_server.Sproto.Pack.{
  Settled, Running, block-Settled, run_starts, run_goes_on, run_is_full, run_ends,
}

-- Between two rounds, with `rest` of the source `src` to come.
pub data Between (src rest : List ℕ) (p : Packer) : Type 0 where
  settled : (q : List ℕ) → Settled p q → q ++ rest ≡ src → Between src rest p
  running :
      (k : ℕ) (q : List ℕ)
      → Running p k q
      → q ++ p.ff_src ≡ src
      → length p.ff_src ≡ (k + 1) * 8 + length rest
      → drop ((k + 1) * 8) p.ff_src ≡ rest
      → Between src rest p

-- After the last round.
pub data After (src : List ℕ) (p : Packer) : Type 0 where
  settled_after : (q pad : List ℕ) → Settled p q → q ≡ src ++ pad → length pad < 8 → After src p
  running_after :
      (k : ℕ) (q : List ℕ)
      → Running p k q
      → q ++ p.ff_src ≡ src
      → k * 8 < length p.ff_src
      → length p.ff_src ≤ (k + 1) * 8
      → (0 < k) ⊎ (length p.ff_src ≡ 8)
      → After src p

module _ (junk : ℕ → List ℕ) (behind : IsBehind junk) (limit : ℕ) (src : List ℕ) where
  -- A whole block.
  module _ (rest : List ℕ) (p : Packer) (whole : 8 ≤ length rest)
      (fits : (pack_round junk limit rest p).at ≤ limit) where
    seg_is : segment rest ≡ take 8 rest
    seg_is = segment_full rest whole

    shorter : length (drop 8 rest) + 8 ≡ length rest
    shorter = omega (arith, length-drop 8 rest)

    Settled-round :
        (q : List ℕ)
        → Settled p q
        → q ++ rest ≡ src
        → Between src (drop 8 rest) (pack_round junk limit rest p)
    Settled-round q s e = elim (dec_lt (length (nonzeros (segment rest))) 8) [
      | yes small ↦
          settled (q ++ segment rest) (block-Settled junk limit rest p behind q s small fits) (
            ap (λ x. (q ++ x) ++ drop 8 rest) seg_is
            ∙ append_assoc q (take 8 rest) (drop 8 rest)
            ∙ ap (λ x. q ++ x) (take-drop 8 rest)
            ∙ e)
      | no large ↦
          let all_eight : length (nonzeros (segment rest)) ≡ 8 = omega (
            arith,
            length-nonzeros-le (segment rest),
            ap length seg_is,
            length-take 8 rest whole,
          ) in
          let (r, from) = run_starts junk limit rest p behind q s all_eight in
          let from' = from ∙ if_false (not_lt→ltb (length rest) 8 whole) (segment rest) rest in
          running 0 q r (ap (λ x. q ++ x) from' ∙ e) (omega (arith, ap length from', shorter))
            (ap (drop 8) from')
    ]

    Running-round :
        (k : ℕ) (q : List ℕ)
        → Running p k q
        → q ++ p.ff_src ≡ src
        → length p.ff_src ≡ (k + 1) * 8 + length rest
        → drop ((k + 1) * 8) p.ff_src ≡ rest
        → Between src (drop 8 rest) (pack_round junk limit rest p)
    Running-round k q r e len from = elim (dec_lt (length (nonzeros (segment rest))) 6) [
      | yes small ↦
          let run : List ℕ = take ((k + 1) * 8) p.ff_src in
          settled ((q ++ run) ++ segment rest)
            (run_ends junk limit rest p behind k q r run small fits
              (read_inside junk ((k + 1) * 8) p.ff_src behind (omega arith))
              (length-take ((k + 1) * 8) p.ff_src (omega arith)))
            (ap (λ x. ((q ++ run) ++ x) ++ drop 8 rest) seg_is
              ∙ append_assoc (q ++ run) (take 8 rest) (drop 8 rest)
              ∙ ap (λ x. (q ++ run) ++ x) (take-drop 8 rest ∙ sym from)
              ∙ append_assoc q run (drop ((k + 1) * 8) p.ff_src)
              ∙ ap (λ x. q ++ x) (take-drop ((k + 1) * 8) p.ff_src)
              ∙ e)
      | no many ↦ elim (dec_lt (k + 1) 255) [
        | yes few ↦
            let (r', from') = run_goes_on junk limit rest p behind k q r (omega arith) few in
            let next : drop ((k + 1 + 1) * 8) p.ff_src ≡ drop 8 rest =
              (let a : (k + 1 + 1) * 8 ≡ (k + 1) * 8 + 8 = omega arith in
                ap (λ m. drop m p.ff_src) a)
              ∙ sym (drop-drop 8 ((k + 1) * 8) p.ff_src)
              ∙ ap (drop 8) from in
            running (k + 1) q r' (ap (λ x. q ++ x) from' ∙ e)
              (omega (arith, ap length from', len, shorter))
              (ap (drop ((k + 1 + 1) * 8)) from' ∙ next)
        | no last ↦
            let run : List ℕ = take (256 * 8) p.ff_src in
            let next : drop (256 * 8) p.ff_src ≡ drop 8 rest =
              (let a : 256 * 8 ≡ (k + 1) * 8 + 8 = omega (arith, r.few) in
                ap (λ m. drop m p.ff_src) a)
              ∙ sym (drop-drop 8 ((k + 1) * 8) p.ff_src)
              ∙ ap (drop 8) from in
            settled (q ++ run)
              (run_is_full junk limit rest p behind k q r run (omega arith) (omega (arith, r.few))
                fits (read_inside junk (256 * 8) p.ff_src behind (omega (arith, r.few, len)))
                (length-take (256 * 8) p.ff_src (omega (arith, r.few, len))))
              (append_assoc q run (drop 8 rest)
                ∙ ap (λ x. q ++ (run ++ x)) (sym next)
                ∙ ap (λ x. q ++ x) (take-drop (256 * 8) p.ff_src)
                ∙ e)
      ]
    ]

    pub whole_round : Between src rest p → Between src (drop 8 rest) (pack_round junk limit rest p)
    whole_round (settled q s e) = Settled-round q s e
    whole_round (running k q r e len from) = Running-round k q r e len from

  -- The last block, if it is short: it has a zero, so it starts no run.
  module _ (rest : List ℕ) (p : Packer) (some_left : 0 < length rest) (short : length rest < 8)
      (fits : (pack_round junk limit rest p).at ≤ limit) where
    abbrev pad : List ℕ
    pad = replicate (8 - length rest) 0

    length-pad : length pad ≡ 8 - length rest
    length-pad = length-replicate {A = ℕ} (8 - length rest) 0

    seg_padded : segment rest ≡ rest ++ pad
    seg_padded = segment_short rest short

    has_zero : length (nonzeros (segment rest)) < 8
    has_zero = omega (
      arith,
      ap (λ x. length (nonzeros x)) seg_padded,
      length-nonzeros-zero rest (8 - length rest),
      length-pad,
    )

    padded : (q : List ℕ) → q ++ rest ≡ src → q ++ segment rest ≡ src ++ pad
    padded q e = ap (λ x. q ++ x) seg_padded ∙ sym (append_assoc q rest pad) ∙ ap (λ x. x ++ pad) e

    pub short_round : Between src rest p → After src (pack_round junk limit rest p)
    short_round (settled q s e) =
        settled_after (q ++ segment rest) pad
          (block-Settled junk limit rest p behind q s has_zero fits) (padded q e)
          (omega (arith, length-pad))
    short_round (running k q r e len from) = elim (dec_lt (length (nonzeros (segment rest))) 6) [
      | yes small ↦
          let run : List ℕ = take ((k + 1) * 8) p.ff_src in
          settled_after ((q ++ run) ++ segment rest) pad
            (run_ends junk limit rest p behind k q r run small fits
              (read_inside junk ((k + 1) * 8) p.ff_src behind (omega arith))
              (length-take ((k + 1) * 8) p.ff_src (omega arith)))
            (padded (q ++ run) (
              ap (λ x. (q ++ run) ++ x) (sym from)
              ∙ append_assoc q run (drop ((k + 1) * 8) p.ff_src)
              ∙ ap (λ x. q ++ x) (take-drop ((k + 1) * 8) p.ff_src)
              ∙ e))
            (omega (arith, length-pad))
      | no many ↦ elim (dec_lt (k + 1) 255) [
        | yes few ↦
            let (r', from') = run_goes_on junk limit rest p behind k q r (omega arith) few in
            running_after (k + 1) q r' (ap (λ x. q ++ x) from' ∙ e)
              (omega (arith, ap length from', len)) (omega (arith, ap length from', len))
              (inl (omega arith))
        | no last ↦
            let over : List ℕ = junk (256 * 8 - length p.ff_src) in
            let size : length over ≡ 256 * 8 - length p.ff_src =
              behind (256 * 8 - length p.ff_src) in
            settled_after (q ++ (p.ff_src ++ over)) over
              (run_is_full junk limit rest p behind k q r (p.ff_src ++ over) (omega arith)
                (omega (arith, r.few)) fits
                (read_past junk (256 * 8) p.ff_src (omega (arith, r.few, len)))
                (omega (arith, length-append p.ff_src over, size, len, r.few)))
              (sym (append_assoc q p.ff_src over) ∙ ap (λ x. x ++ over) e)
              (omega (arith, size, len, r.few))
      ]
    ]
