-- ===== src/Sproto/Rounds.antt =====
-- One round of the loop of `sproto_pack`, by what the block is and whether a run is open.
use native.Mathlib.Decide.{dec_lt, ℕ_discrete}
use demo_skynet_server.Common.{
  and_left, and_right, ℕ, ◌+◌, ◌-◌, ◌*◌, ◌≤◌, ◌<◌, ◌≡◌, refl, ap, ◌∙◌, ◌≢◌, Bool, true, false, ◌&&◌,
  List, ◌++◌, arith, length, take, ◌==◌, ltb, leb, if◌then◌else◌, if_true, if_false, ==_iff,
  ==_differ, lt→ltb, not_lt→ltb, le→leb, replicate, length-append, length-replicate, length-take,
}
use demo_skynet_server.Sproto.{Packer, pack_seg, write_ff, read, segment, pack_round}

module _ (junk : ℕ → List ℕ) (limit : ℕ) (rest : List ℕ) (p : Packer) where
  abbrev pub packed : ℕ × (ℕ → ℕ)
  packed = pack_seg limit (segment rest) p.at p.ff_n p.buf

  abbrev pub flushed : ℕ → ℕ → ℕ
  flushed count =
      if leb (p.at + packed.0) limit
      then write_ff (read junk (count * 8) p.ff_src) p.ff_des packed.1
      else packed.1

  abbrev pub first_run : Packer
  first_run = record {
    at = p.at + packed.0;
    ff_n = 1;
    ff_src = if ltb (length rest) 8 then segment rest else rest;
    ff_des = p.at;
    buf = packed.1;
  }

  abbrev pub longer_run : Packer
  longer_run = record p { at = p.at + packed.0; ff_n = p.ff_n + 1; buf = packed.1 }

  abbrev pub full_run : Packer
  full_run = record p { at = p.at + packed.0; ff_n = 0; buf = flushed 256 }

  abbrev pub no_run : Packer
  no_run = record p {
    at = p.at + packed.0;
    ff_n = 0;
    buf = if ltb 0 p.ff_n then flushed p.ff_n else packed.1;
  }

  abbrev in_run : Packer
  in_run = if p.ff_n + 1 == 256 then full_run else longer_run

  pub round_first : packed.0 ≡ 10 → pack_round junk limit rest p ≡ first_run
  unfolding pack_round
  round_first e =
      if_true ((==_iff packed.0 10).1 e) first_run
        (if packed.0 == 8 && ltb 0 p.ff_n then in_run else no_run)

  on :
      packed.0 ≢ 10
      → pack_round junk limit rest p ≡ (if packed.0 == 8 && ltb 0 p.ff_n then in_run else no_run)
  unfolding pack_round
  on ne =
      if_false (==_differ packed.0 10 ne) first_run
        (if packed.0 == 8 && ltb 0 p.ff_n then in_run else no_run)

  open_run : packed.0 ≡ 8 → 0 < p.ff_n → pack_round junk limit rest p ≡ in_run
  open_run e h =
      on (omega arith)
      ∙ if_true (rw ((==_iff packed.0 8).1 e, lt→ltb 0 p.ff_n h) refl) in_run no_run

  pub round_longer :
      packed.0 ≡ 8 → 0 < p.ff_n → p.ff_n + 1 ≢ 256 → pack_round junk limit rest p ≡ longer_run
  round_longer e h ne = open_run e h ∙ if_false (==_differ (p.ff_n + 1) 256 ne) full_run longer_run

  pub round_full :
      packed.0 ≡ 8 → 0 < p.ff_n → p.ff_n + 1 ≡ 256 → pack_round junk limit rest p ≡ full_run
  round_full e h s = open_run e h ∙ if_true ((==_iff (p.ff_n + 1) 256).1 s) full_run longer_run

  -- A block with a header, behind no run.
  pub round_block :
      p.ff_n ≡ 0
      → packed.0 ≢ 10
      → pack_round junk limit rest p ≡ record p { at = p.at + packed.0; ff_n = 0; buf = packed.1 }
  round_block z ne =
      on ne
      ∙ if_false (and_right (packed.0 == 8) (ltb 0 p.ff_n) (not_lt→ltb 0 p.ff_n (omega arith)))
          in_run no_run
      ∙ ap (λ f. record p { at = p.at + packed.0; ff_n = 0; buf = f })
          (if_false (not_lt→ltb 0 p.ff_n (omega arith)) (flushed p.ff_n) packed.1)

  -- A block with a header that ends a run.
  pub round_ends :
      0 < p.ff_n
      → packed.0 < 8
      → pack_round junk limit rest p
        ≡ record p { at = p.at + packed.0; ff_n = 0; buf = flushed p.ff_n }
  round_ends h small =
      on (omega arith)
      ∙ if_false (and_left (packed.0 == 8) (ltb 0 p.ff_n) (==_differ packed.0 8 (omega arith)))
          in_run no_run
      ∙ ap (λ f. record p { at = p.at + packed.0; ff_n = 0; buf = f })
          (if_true (lt→ltb 0 p.ff_n h) (flushed p.ff_n) packed.1)

  pub flushed_fits :
      (count : ℕ)
      → p.at + packed.0 ≤ limit
      → flushed count ≡ write_ff (read junk (count * 8) p.ff_src) p.ff_des packed.1
  flushed_fits count h = if_true (le→leb (p.at + packed.0) limit h) _ _

-- The block in front.
pub segment_full : (rest : List ℕ) → 8 ≤ length rest → segment rest ≡ take 8 rest
segment_full rest h = if_false (not_lt→ltb (length rest) 8 h) _ _

pub segment_short :
    (rest : List ℕ) → length rest < 8 → segment rest ≡ rest ++ replicate (8 - length rest) 0
segment_short rest h = if_true (lt→ltb (length rest) 8 h) _ _

pub length-segment : (rest : List ℕ) → length (segment rest) ≡ 8
length-segment rest = elim (dec_lt (length rest) 8) [
  | yes l ↦
      ap length (segment_short rest l)
      ∙ omega (
        arith,
        length-append rest (replicate (8 - length rest) 0),
        length-replicate {A = ℕ} (8 - length rest) 0,
      )
  | no l ↦ ap length (segment_full rest (omega arith)) ∙ length-take 8 rest (omega arith)
]

-- Every round moves on by the size of its block.
pub round_at :
    (junk : ℕ → List ℕ) (limit : ℕ) (rest : List ℕ) (p : Packer)
    → (pack_round junk limit rest p).at ≡ p.at + (packed junk limit rest p).0
round_at junk limit rest p = elim (ℕ_discrete (packed junk limit rest p).0 10) [
  | yes e ↦ ap (λ (x : Packer). x.at) (round_first junk limit rest p e)
  | no ne ↦
      ap (λ (x : Packer). x.at) (on junk limit rest p ne)
      ∙ either_at ((packed junk limit rest p).0 == 8 && ltb 0 p.ff_n) (in_run junk limit rest p)
          (no_run junk limit rest p)
          (either_at (p.ff_n + 1 == 256) (full_run junk limit rest p) (longer_run junk limit rest p)
            refl refl)
          refl
]
  where
    either_at :
        {m : ℕ} (b : Bool) (x y : Packer) → x.at ≡ m → y.at ≡ m → (if b then x else y).at ≡ m
    either_at true x y e f = e
    either_at false x y e f = f
