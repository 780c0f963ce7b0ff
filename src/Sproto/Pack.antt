-- ===== src/Sproto/Pack.antt =====
-- `sproto_pack` of lualib-src/sproto/sproto.c: what it writes is a packed form of its source.
use demo_skynet_server.Common.{
  ℕ, ◌+◌, ◌*◌, ◌≤◌, ◌<◌, ◌≡◌, refl, sym, ap, subst, ◌∙◌, inl, inr, List, ◌++◌, arith, length,
  region, region_same, if_true, if_false, not_lt→ltb, lt→ltb,
}
use demo_skynet_server.Sproto.{Packer, write_ff, read, segment, pack_round}
use demo_skynet_server.Sproto.Encoded.{Encodes, one_block, nonzeros, packed_block}
use demo_skynet_server.Sproto.Segments.{pack_seg_run, pack_seg_block, pack_seg_size}
use demo_skynet_server.Sproto.Laid.{
  Encodes-extend, block_region, block_below, write_ff_off, run_Encodes, IsBehind,
}
use demo_skynet_server.Sproto.Rounds.{
  packed, flushed, first_run, round_first, round_longer, round_full, round_block, round_ends,
  flushed_fits, length-segment,
}

-- No run is open, and what is written stands for `q`.
abbrev pub Settled : Packer → List ℕ → Type 0
Settled p q = (p.ff_n ≡ 0) × Encodes (region p.buf 0 p.at) q

-- A run of `k + 1` blocks is open behind what stands for `q`.
pub record Running (p : Packer) (k : ℕ) (q : List ℕ) : Type 0 where
  pub blocks : p.ff_n ≡ k + 1
  pub few : k < 255
  pub before : Encodes (region p.buf 0 p.ff_des) q
  pub place : p.at ≡ p.ff_des + (2 + (k + 1) * 8)

module _ (junk : ℕ → List ℕ) (limit : ℕ) (rest : List ℕ) (p : Packer) (behind : IsBehind junk) where
  abbrev seg : List ℕ
  seg = segment rest

  abbrev p' : Packer
  p' = pack_round junk limit rest p

  abbrev n : ℕ
  n = (packed junk limit rest p).0

  abbrev buf : ℕ → ℕ
  buf = (packed junk limit rest p).1

  eight : length seg ≡ 8
  eight = length-segment rest

  pub block-Settled :
      (q : List ℕ) → Settled p q → length (nonzeros seg) < 8 → p'.at ≤ limit → Settled p' (q ++ seg)
  block-Settled q (z, e) small fits =
      let size = pack_seg_size limit seg p.at p.ff_n p.buf eight small (inl z) in
      let round = round_block junk limit rest p z (omega (arith, size, small)) in
      let (same, wrote) =
        pack_seg_block limit seg p.at p.ff_n p.buf eight small (inl z)
          (omega (arith, size, fits, ap (λ (x : Packer). x.at) round)) in
      subst (λ x. Settled x (q ++ seg)) (sym round)
        (
          refl,
          subst (λ m. Encodes (region buf 0 (p.at + m)) (q ++ seg)) (sym size)
              (Encodes-extend p.buf buf p.at (length (nonzeros seg) + 1) (packed_block seg) q seg e
                (λ k h. ap (λ f. f k) wrote ∙ block_below p.buf p.at seg k h)
                (ap (λ f. region f p.at (length (nonzeros seg) + 1)) wrote
                  ∙ block_region p.buf p.at seg)
                (one_block seg eight small)),
        )

  pub run_starts :
      (q : List ℕ)
      → Settled p q
      → length (nonzeros seg) ≡ 8
      → Running p' 0 q × (p'.ff_src ≡ (first_run junk limit rest p).ff_src)
  run_starts q (z, e) whole =
      let (size, below) = pack_seg_run limit seg p.at p.ff_n p.buf eight (inr whole) in
      let ten : n ≡ 10 = size ∙ if_false (not_lt→ltb 0 p.ff_n (omega arith)) 8 10 in
      let round = round_first junk limit rest p ten in
      (
        subst (λ x. Running x 0 q) (sym round)
            (record {
              blocks = refl;
              few = omega arith;
              before =
                  subst (λ r. Encodes r q)
                    (sym (region_same p.buf buf 0 p.at (λ k l h. below k (omega arith)))) e;
              place = omega (arith, ten);
            }),
        ap (λ (x : Packer). x.ff_src) round,
      )

  module _ (k : ℕ) (q : List ℕ) (r : Running p k q) where
    below_run : 6 ≤ length (nonzeros seg) → (n ≡ 8) × Encodes (region buf 0 p.ff_des) q
    below_run many =
        let (size, below) =
          pack_seg_run limit seg p.at p.ff_n p.buf eight (inl (omega (arith, r.blocks), many)) in
        (
          size ∙ if_true (lt→ltb 0 p.ff_n (omega (arith, r.blocks))) 8 10,
          subst (λ x. Encodes x q)
              (sym (region_same p.buf buf 0 p.ff_des (λ j l h. below j (omega (arith, r.place)))))
              r.before,
        )

    pub run_goes_on :
        6 ≤ length (nonzeros seg) → k + 1 < 255 → Running p' (k + 1) q × (p'.ff_src ≡ p.ff_src)
    run_goes_on many few =
        let (eight_more, e) = below_run many in
        let round =
          round_longer junk limit rest p eight_more (omega (arith, r.blocks))
            (omega (arith, r.blocks)) in
        (
          subst (λ x. Running x (k + 1) q) (sym round)
              (record {
                blocks = omega (arith, r.blocks);
                few = few;
                before = e;
                place = omega (arith, r.place, eight_more);
              }),
          ap (λ (x : Packer). x.ff_src) round,
        )

    -- The 256th block of a run.
    pub run_is_full :
        (run : List ℕ)
        → 6 ≤ length (nonzeros seg)
        → k + 1 ≡ 255
        → p'.at ≤ limit
        → read junk (256 * 8) p.ff_src ≡ run
        → length run ≡ 256 * 8
        → Settled p' (q ++ run)
    run_is_full run many last fits bytes size =
        let (eight_more, e) = below_run many in
        let round =
          round_full junk limit rest p eight_more (omega (arith, r.blocks))
            (omega (arith, r.blocks)) in
        let at' = ap (λ (x : Packer). x.at) round in
        let wrote : flushed junk limit rest p 256 ≡ write_ff run p.ff_des buf =
          flushed_fits junk limit rest p 256 (omega (arith, at', fits))
          ∙ ap (λ x. write_ff x p.ff_des buf) bytes in
        let place : p.at + n ≡ p.ff_des + (2 + (255 + 1) * 8) =
          omega (arith, r.place, eight_more, last) in
        subst (λ x. Settled x (q ++ run)) (sym round)
          (
            refl,
            subst (λ f. Encodes (region f 0 (p.at + n)) (q ++ run)) (sym wrote)
                (subst (λ m. Encodes (region (write_ff run p.ff_des buf) 0 m) (q ++ run))
                  (sym place) (run_Encodes run p.ff_des buf q 255 (omega arith) size e)),
          )

    -- A block with a header behind a run.
    pub run_ends :
        (run : List ℕ)
        → length (nonzeros seg) < 6
        → p'.at ≤ limit
        → read junk ((k + 1) * 8) p.ff_src ≡ run
        → length run ≡ (k + 1) * 8
        → Settled p' ((q ++ run) ++ seg)
    run_ends run small fits bytes size =
        let seg_size = pack_seg_size limit seg p.at p.ff_n p.buf eight (omega arith) (inr small) in
        let round =
          round_ends junk limit rest p (omega (arith, r.blocks)) (omega (arith, seg_size, small)) in
        let at' = ap (λ (x : Packer). x.at) round in
        let (same, wrote) =
          pack_seg_block limit seg p.at p.ff_n p.buf eight (omega arith) (inr small)
            (omega (arith, seg_size, fits, at')) in
        let below : Encodes (region buf 0 p.ff_des) q =
          subst (λ x. Encodes x q)
            (sym (
              region_same p.buf buf 0 p.ff_des (λ j l h.
                ap (λ f. f j) wrote ∙ block_below p.buf p.at seg j (omega (arith, r.place)))))
            r.before in
        let after : ℕ → ℕ = write_ff run p.ff_des buf in
        let flush : flushed junk limit rest p p.ff_n ≡ after =
          flushed_fits junk limit rest p p.ff_n (omega (arith, at', fits))
          ∙ ap (λ (c : ℕ). write_ff (read junk (c * 8) p.ff_src) p.ff_des buf) r.blocks
          ∙ ap (λ x. write_ff x p.ff_des buf) bytes in
        let run_there : Encodes (region after 0 p.at) (q ++ run) =
          subst (λ m. Encodes (region after 0 m) (q ++ run)) (sym r.place)
            (run_Encodes run p.ff_des buf q k (omega (arith, r.few)) size below) in
        let seg_there : region after p.at (length (nonzeros seg) + 1) ≡ packed_block seg =
          region_same buf after p.at (length (nonzeros seg) + 1) (λ j l h.
            write_ff_off run p.ff_des buf k (omega (arith, size)) (omega (arith, size)) j
              (inr (omega (arith, r.place))))
          ∙ ap (λ f. region f p.at (length (nonzeros seg) + 1)) wrote
          ∙ block_region p.buf p.at seg in
        subst (λ x. Settled x ((q ++ run) ++ seg)) (sym round)
          (
            refl,
            subst (λ f. Encodes (region f 0 (p.at + n)) ((q ++ run) ++ seg)) (sym flush)
                (subst (λ m. Encodes (region after 0 (p.at + m)) ((q ++ run) ++ seg)) (sym seg_size)
                  (Encodes-extend after after p.at (length (nonzeros seg) + 1) (packed_block seg)
                    (q ++ run) seg run_there (λ j h. refl) seg_there
                    (one_block seg eight (omega arith)))),
          )
