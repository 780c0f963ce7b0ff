-- ===== src/Sproto/Segments.antt =====
-- `pack_seg` of lualib-src/sproto/sproto.c: what it writes.
use native.Mathlib.Nat.{pow-succ'}
use demo_skynet_server.Common.{
  ℕ, suc, ◌+◌, ◌*◌, ◌^◌, ◌≤◌, ◌<◌, bit_or, bit_or-fields, ◌≡◌, refl, sym, ap, ap₂, subst, ◌∙◌, ◌≢◌,
  ◌⊎◌, inl, inr, Bool, true, ◌&&◌, ◌||◌, List, [], ◌∷◌, arith, length, ◌==◌, ltb, if◌then◌else◌,
  Bool-cases, if_true, if_false, ==_iff, ==_differ, lt→ltb, put, put_off, write_list,
}
use demo_skynet_server.Sproto.{Segment, seg_loop, pack_seg}
use demo_skynet_server.Sproto.Encoded.{nonzeros, header_bits, nonzeros_cases, length-nonzeros-le}

abbrev start : ℕ → (ℕ → ℕ) → Segment
start at buf = record { header = 0; notzero = 0; at = at; buf = buf }

abbrev noted : ℕ → ℕ → ℕ → Segment → Segment
noted limit b i s = record {
  header = bit_or s.header (1 * 2 ^ i);
  notzero = s.notzero + 1;
  at = if ltb s.at limit then s.at + 1 else s.at;
  buf = if ltb s.at limit then put s.buf s.at b else s.buf;
}

loop_zero :
    (limit b : ℕ) (bs : List ℕ) (i : ℕ) (s : Segment)
    → b ≡ 0
    → seg_loop limit (b ∷ bs) i s ≡ seg_loop limit bs (i + 1) s
unfolding seg_loop
loop_zero limit b bs i s z =
    ap (seg_loop limit bs (i + 1)) (if_true ((==_iff b 0).1 z) s (noted limit b i s))

loop_byte :
    (limit b : ℕ) (bs : List ℕ) (i : ℕ) (s : Segment)
    → b ≢ 0
    → seg_loop limit (b ∷ bs) i s ≡ seg_loop limit bs (i + 1) (noted limit b i s)
unfolding seg_loop
loop_byte limit b bs i s z =
    ap (seg_loop limit bs (i + 1)) (if_false (==_differ b 0 z) s (noted limit b i s))

loop_end : (limit i : ℕ) (s : Segment) → seg_loop limit [] i s ≡ s
unfolding seg_loop
loop_end limit i s = refl

-- What the loop does at any size of the buffer.
record Looped (bs : List ℕ) (i : ℕ) (s t : Segment) : Type 0 where
  pub bits : t.header ≡ s.header + header_bits bs * 2 ^ i
  pub counts : t.notzero ≡ s.notzero + length (nonzeros bs)
  pub below : (k : ℕ) → k < s.at → t.buf k ≡ s.buf k

noted_below :
    (limit b i : ℕ) (s : Segment) (k : ℕ)
    → k < s.at
    → ((noted limit b i s).buf k ≡ s.buf k) × (k < (noted limit b i s).at)
noted_below limit b i s k h = elim (Bool-cases (ltb s.at limit)) [
  | inl t ↦ rw t (put_off s.buf s.at b k (omega arith), omega arith)
  | inr t ↦ rw t (refl, h)
]

seg_loop-Looped :
    (limit : ℕ) (bs : List ℕ) (i : ℕ) (s : Segment)
    → s.header < 2 ^ i
    → Looped bs i s (seg_loop limit bs i s)
unfolding nonzeros header_bits
seg_loop-Looped limit [] i s h =
    subst (Looped [] i s) (sym (loop_end limit i s))
      (record { bits = omega arith; counts = omega arith; below = λ k l. refl })
seg_loop-Looped limit (b ∷ bs) i s h = elim (nonzeros_cases b bs) [
  | inl (z, n, e) ↦
      let t = seg_loop-Looped limit bs (i + 1) s (omega (arith, pow_next i)) in
      subst (Looped (b ∷ bs) i s) (sym (loop_zero limit b bs i s z)) (record {
        bits = omega (
          arith,
          t.bits,
          ap (λ (x : ℕ). x * 2 ^ i) e,
          ap (λ (x : ℕ). header_bits bs * x) (pow_next i),
        );
        counts = omega (arith, t.counts, ap length n);
        below = t.below;
      })
  | inr (z, n, e) ↦
      let sum : bit_or s.header (1 * 2 ^ i) ≡ 1 * 2 ^ i + s.header = bit_or-fields i s.header 1 h in
      let t =
        seg_loop-Looped limit bs (i + 1) (noted limit b i s) (omega (arith, pow_next i, sum)) in
      subst (Looped (b ∷ bs) i s) (sym (loop_byte limit b bs i s z)) (record {
        bits = omega (
          arith,
          t.bits,
          sum,
          ap (λ (x : ℕ). x * 2 ^ i) e,
          ap (λ (x : ℕ). header_bits bs * x) (pow_next i),
        );
        counts = omega (arith, t.counts, ap length n);
        below = λ k l. t.below k (noted_below limit b i s k l).1 ∙ (noted_below limit b i s k l).0;
      })
]
  where
    pow_next : (j : ℕ) → 2 ^ (j + 1) ≡ 2 * 2 ^ j
    pow_next j = let e : j + 1 ≡ suc j = omega arith in ap (λ (x : ℕ). 2 ^ x) e ∙ pow-succ' 2 j

-- Where there is room for them, the bytes that are not zero are written one behind the other.
seg_loop-buf :
    (limit : ℕ) (bs : List ℕ) (i : ℕ) (s : Segment)
    → s.at + length (nonzeros bs) ≤ limit
    → (seg_loop limit bs i s).buf ≡ write_list s.buf s.at (nonzeros bs)
unfolding nonzeros write_list
seg_loop-buf limit [] i s h = ap (λ (t : Segment). t.buf) (loop_end limit i s)
seg_loop-buf limit (b ∷ bs) i s h = elim (nonzeros_cases b bs) [
  | inl (z, n, e) ↦
      ap (λ (t : Segment). t.buf) (loop_zero limit b bs i s z)
      ∙ seg_loop-buf limit bs (i + 1) s (omega (arith, h, ap length n))
      ∙ ap (write_list s.buf s.at) (sym n)
  | inr (z, n, e) ↦
      let room : ltb s.at limit ≡ true = lt→ltb s.at limit (omega (arith, h, ap length n)) in
      let at' : (noted limit b i s).at ≡ s.at + 1 = if_true room _ _ in
      ap (λ (t : Segment). t.buf) (loop_byte limit b bs i s z)
      ∙ seg_loop-buf limit bs (i + 1) (noted limit b i s) (omega (arith, h, ap length n, at'))
      ∙ ap₂ (λ f a. write_list f a (nonzeros bs)) (if_true room (put s.buf s.at b) s.buf) at'
      ∙ ap (write_list s.buf s.at) (sym n)
]

-- What `pack_seg` does with a block of eight bytes.
module _ (limit : ℕ) (bs : List ℕ) (at n : ℕ) (buf : ℕ → ℕ) (eight : length bs ≡ 8) where
  abbrev looped : Segment
  looped = seg_loop limit bs 0 (start (at + 1) buf)

  l : Looped bs 0 (start (at + 1) buf) looped
  l = seg_loop-Looped limit bs 0 (start (at + 1) buf) (omega arith)

  count : looped.notzero ≡ length (nonzeros bs)
  count = omega (arith, l.counts)

  abbrev full : Bool
  full = (looped.notzero == 7 || looped.notzero == 6) && ltb 0 n

  abbrev size : ℕ
  size = if full then 8 else looped.notzero

  -- The block goes on, or starts, a run of 0xff.
  pub pack_seg_run :
      ((0 < n) × (6 ≤ length (nonzeros bs))) ⊎ (length (nonzeros bs) ≡ 8)
      → ((pack_seg limit bs at n buf).0 ≡ (if ltb 0 n then 8 else 10))
        × ((k : ℕ) → k ≤ at → (pack_seg limit bs at n buf).1 k ≡ buf k)
  unfolding pack_seg
  pack_seg_run h =
      let eight_size : size ≡ 8 = ground (arith, count, h, length-nonzeros-le bs, eight) in
      (
        ap (λ (r : ℕ × (ℕ → ℕ)). r.0) (if_true ((==_iff size 8).1 eight_size) _ _),
        λ k m.
            ap (λ (r : ℕ × (ℕ → ℕ)). r.1 k) (if_true ((==_iff size 8).1 eight_size) _ _)
            ∙ l.below k (omega arith),
      )

  -- The block is written with a header.
  pub pack_seg_block :
      length (nonzeros bs) < 8
      → ((n ≡ 0) ⊎ (length (nonzeros bs) < 6))
      → at + 1 + length (nonzeros bs) ≤ limit
      → ((pack_seg limit bs at n buf).0 ≡ length (nonzeros bs) + 1)
        × ((pack_seg limit bs at n buf).1
            ≡ put (write_list buf (at + 1) (nonzeros bs)) at (header_bits bs))
  unfolding pack_seg
  pack_seg_block small quiet room =
      let small_size : size ≡ length (nonzeros bs) = ground (arith, count, quiet, small) in
      let other =
        if_false (==_differ size 8 (omega (arith, small_size, small)))
          (if ltb 0 n then 8 else 10, looped.buf)
          (size + 1, if ltb at limit then put looped.buf at looped.header else looped.buf) in
      (
        ap (λ (r : ℕ × (ℕ → ℕ)). r.0) other ∙ ap (λ (k : ℕ). k + 1) small_size,
        ap (λ (r : ℕ × (ℕ → ℕ)). r.1) other
            ∙ if_true (lt→ltb at limit (omega arith)) (put looped.buf at looped.header) looped.buf
            ∙ ap₂ (λ f (b : ℕ). put f at b) (seg_loop-buf limit bs 0 (start (at + 1) buf) room)
                (omega (arith, l.bits)),
      )

  -- The size never depends on the room.
  pub pack_seg_size :
      length (nonzeros bs) < 8
      → ((n ≡ 0) ⊎ (length (nonzeros bs) < 6))
      → (pack_seg limit bs at n buf).0 ≡ length (nonzeros bs) + 1
  unfolding pack_seg
  pack_seg_size small quiet =
      let small_size : size ≡ length (nonzeros bs) = ground (arith, count, quiet, small) in
      ap (λ (r : ℕ × (ℕ → ℕ)). r.0)
        (if_false (==_differ size 8 (omega (arith, small_size, small)))
          (if ltb 0 n then 8 else 10, looped.buf)
          (size + 1, if ltb at limit then put looped.buf at looped.header else looped.buf))
      ∙ ap (λ (k : ℕ). k + 1) small_size
