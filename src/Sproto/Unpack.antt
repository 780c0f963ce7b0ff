-- ===== src/Sproto/Unpack.antt =====
-- `sproto_unpack` of lualib-src/sproto/sproto.c on packed bytes.
use native.Mathlib.Nat.{pow-succ', div-div-eq-div-mul}
use demo_skynet_server.Common.{
  ℕ, zero, suc, ◌+◌, ◌*◌, ◌/◌, ◌%◌, ◌^◌, ◌≤◌, ◌<◌, ◌≡◌, refl, sym, ap, ap₂, ◌∙◌, ◌≢◌, none, some,
  List, [], ◌∷◌, ◌++◌, arith, length, take, drop, length-append, take-append, drop-append, take_all,
  drop_all, false, ◌==◌, leb, if◌then◌else◌, if_true, if_false, ==_iff, ==_differ, not_lt→ltb,
  lt→ltb, le→leb, inl, inr, put, write_list, write_list-append,
}
use demo_skynet_server.Sproto.{Unpacker, emit, take_byte, unpack_seg, unpack_ff, unpack_rounds}
use demo_skynet_server.Sproto.Encoded.{
  Encodes, done, block, run, nonzeros, header_bits, nonzeros_cases, header_bits-full,
}

abbrev pub state : List ℕ → ℕ → ℕ → (ℕ → ℕ) → Unpacker
state src at size buf = record { src = some src; at = at; size = size; buf = buf }

div_next : (header i : ℕ) → header / 2 ^ (i + 1) ≡ header / 2 ^ i / 2
div_next header i =
    (let s : i + 1 ≡ suc i = omega arith in ap (λ (x : ℕ). header / 2 ^ x) s)
    ∙ ap (λ (x : ℕ). header / x) (omega (arith, pow-succ' 2 i))
    ∙ sym (div-div-eq-div-mul header (2 ^ i) 2)

later :
    (rest : List ℕ) (at size m : ℕ) (f : ℕ → ℕ)
    → some (state rest (at + 1 + m) (size + 1 + m) f)
      ≡ some (state rest (at + suc m) (size + suc m) f)
later rest at size m f =
    let a : at + 1 + m ≡ at + suc m = omega arith in
    let s : size + 1 + m ≡ size + suc m = omega arith in ap₂ (λ x y. some (state rest x y f)) a s

joined :
    (at size : ℕ) (buf : ℕ → ℕ) (bs q : List ℕ)
    → some (
        state []
          (at + length bs + length q)
          (size + length bs + length q)
          (write_list (write_list buf at bs) (at + length bs) q))
      ≡ some
          (state [] (at + length (bs ++ q)) (size + length (bs ++ q)) (write_list buf at (bs ++ q)))
joined at size buf bs q =
    let sizes = length-append bs q in
    let a : at + length bs + length q ≡ at + length (bs ++ q) = omega (arith, sizes) in
    let s : size + length bs + length q ≡ size + length (bs ++ q) = omega (arith, sizes) in
    ap₂ (λ x y. some (state [] x y (write_list (write_list buf at bs) (at + length bs) q))) a s
    ∙ ap (λ f. some (state [] (at + length (bs ++ q)) (size + length (bs ++ q)) f))
        (write_list-append buf at bs q)

module _ (beyond limit : ℕ) where
  bit_zero :
      (n header i : ℕ) (u : Unpacker)
      → header / 2 ^ i % 2 ≡ 0
      → unpack_seg (suc n) beyond limit header i u
        ≡ unpack_seg n beyond limit header (i + 1) (emit limit 0 u)
  unfolding unpack_seg
  bit_zero n header i u z = rw ((==_iff (header / 2 ^ i % 2) 0).1 z, unpack_seg) refl

  bit_one :
      (n header i b : ℕ) (src : List ℕ) (at size : ℕ) (buf : ℕ → ℕ)
      → header / 2 ^ i % 2 ≢ 0
      → unpack_seg (suc n) beyond limit header i (state (b ∷ src) at size buf)
        ≡ unpack_seg n beyond limit header (i + 1) (emit limit b (state src at size buf))
  unfolding unpack_seg take_byte
  bit_one n header i b src at size buf z = rw (==_differ (header / 2 ^ i % 2) 0 z, unpack_seg) refl

  emit_room :
      (b : ℕ) (src : List ℕ) (at size : ℕ) (buf : ℕ → ℕ)
      → at < limit
      → emit limit b (state src at size buf) ≡ state src (at + 1) (size + 1) (put buf at b)
  emit_room b src at size buf h =
      if_true (lt→ltb at limit h) (state src (at + 1) (size + 1) (put buf at b))
        (state src at (size + 1) buf)

  -- The loop over the bits gives the block back.
  seg_block :
      (bs rest : List ℕ) (header i at size : ℕ) (buf : ℕ → ℕ)
      → header / 2 ^ i ≡ header_bits bs
      → at + length bs ≤ limit
      → unpack_seg (length bs) beyond limit header i (state (nonzeros bs ++ rest) at size buf)
        ≡ some (state rest (at + length bs) (size + length bs) (write_list buf at bs))
  unfolding unpack_seg nonzeros header_bits write_list
  seg_block [] rest header i at size buf e room =
      let z : at ≡ at + 0 = omega arith in
      let y : size ≡ size + 0 = omega arith in ap₂ (λ a s. some (state rest a s buf)) z y
  seg_block (b ∷ bs) rest header i at size buf e room =
      let next = div_next header i in
      let fits : at + 1 + length bs ≤ limit = omega (arith, room) in
      elim (nonzeros_cases b bs) [
        | inl (z, n, h) ↦
            ap
              (λ x.
                unpack_seg (suc (length bs)) beyond limit header i (state (x ++ rest) at size buf))
              n
            ∙ bit_zero (length bs) header i (state (nonzeros bs ++ rest) at size buf)
                (omega (arith, e, h))
            ∙ ap (unpack_seg (length bs) beyond limit header (i + 1)) (
                emit_room 0 (nonzeros bs ++ rest) at size buf (omega (arith, room))
                ∙ ap (λ x. state (nonzeros bs ++ rest) (at + 1) (size + 1) (put buf at x)) (sym z))
            ∙ seg_block bs rest header (i + 1) (at + 1) (size + 1) (put buf at b)
                (omega (arith, e, h, next)) fits
            ∙ later rest at size (length bs) (write_list (put buf at b) (at + 1) bs)
        | inr (z, n, h) ↦
            ap
              (λ x.
                unpack_seg (suc (length bs)) beyond limit header i (state (x ++ rest) at size buf))
              n
            ∙ bit_one (length bs) header i b (nonzeros bs ++ rest) at size buf (omega (arith, e, h))
            ∙ ap (unpack_seg (length bs) beyond limit header (i + 1))
                (emit_room b (nonzeros bs ++ rest) at size buf (omega (arith, room)))
            ∙ seg_block bs rest header (i + 1) (at + 1) (size + 1) (put buf at b)
                (omega (arith, e, h, next)) fits
            ∙ later rest at size (length bs) (write_list (put buf at b) (at + 1) bs)
      ]

  -- The branch of 0xff gives the run back.
  ff_run :
      (k : ℕ) (bs rest : List ℕ) (at size : ℕ) (buf : ℕ → ℕ) (u : Unpacker)
      → length bs ≡ (k + 1) * 8
      → u.at ≡ at
      → u.size ≡ size
      → u.buf ≡ buf
      → at + length bs ≤ limit
      → unpack_ff limit (k ∷ bs ++ rest) u
        ≡ some (state rest (at + length bs) (size + length bs) (write_list buf at bs))
  unfolding unpack_ff
  ff_run k bs rest at size buf u e at_is size_is buf_is room =
      let n : ℕ = (k + 1) * 8 in
      let src : List ℕ = bs ++ rest in
      let result : Unpacker = record {
        src = some (drop n src);
        at = u.at + n;
        size = u.size + n;
        buf = if leb (u.at + n) limit then write_list u.buf u.at (take n src) else u.buf;
      } in
      let taken : take n src ≡ bs =
        take-append n bs rest (omega (arith, e)) ∙ take_all n bs (sym e) in
      let left : drop n src ≡ rest =
        drop-append n bs rest (omega (arith, e)) ∙ ap (λ x. x ++ rest) (drop_all n bs (sym e)) in
      if_false (not_lt→ltb (length src + 1) (n + 1) (omega (arith, e, length-append bs rest))) none
        (some result)
      ∙ ap (λ f. some (record result { buf = f }))
          (if_true (le→leb (u.at + n) limit (omega (arith, room, e, at_is)))
              (write_list u.buf u.at (take n src)) u.buf
            ∙ ap (write_list u.buf u.at) taken
            ∙ ap₂ (λ f a. write_list f a bs) buf_is at_is)
      ∙ ap₂
          (λ x a.
            some (record { src = some x; at = a; size = u.size + n; buf = write_list buf at bs }))
          left (ap₂ ◌+◌ at_is (sym e))
      ∙ ap (λ z. some (state rest (at + length bs) z (write_list buf at bs)))
          (ap₂ ◌+◌ size_is (sym e))

  round_block :
      (fuel : ℕ) (bs p : List ℕ) (at size : ℕ) (buf : ℕ → ℕ)
      → length bs ≡ 8
      → length (nonzeros bs) < 8
      → at + length bs ≤ limit
      → unpack_rounds
          (suc fuel)
          beyond
          limit
          (state (header_bits bs ∷ nonzeros bs ++ p) at size buf)
        ≡ unpack_rounds fuel beyond limit
            (state p (at + length bs) (size + length bs) (write_list buf at bs))
  unfolding unpack_rounds
  round_block fuel bs p at size buf e small room =
      let seg = seg_block bs p (header_bits bs) 0 at size buf (omega arith) room in
      let seg8 : unpack_seg 8 beyond limit (header_bits bs) 0 (state (nonzeros bs ++ p) at size buf)
          ≡ some (state p (at + length bs) (size + length bs) (write_list buf at bs)) =
        ap
          (λ n. unpack_seg n beyond limit (header_bits bs) 0 (state (nonzeros bs ++ p) at size buf))
          (sym e)
        ∙ seg in
      let plain : header_bits bs == 0xff ≡ false = ==_differ (header_bits bs) 0xff (λ ones.
        omega
          (arith, header_bits-full bs (omega (arith, ones, ap (λ (x : ℕ). 2 ^ x) e)), e, small)) in
      rw (plain, seg8, unpack_rounds) refl

  round_run :
      (fuel k : ℕ) (bs p : List ℕ) (at size : ℕ) (buf : ℕ → ℕ)
      → length bs ≡ (k + 1) * 8
      → at + length bs ≤ limit
      → unpack_rounds (suc fuel) beyond limit (state (0xff ∷ k ∷ bs ++ p) at size buf)
        ≡ unpack_rounds fuel beyond limit
            (state p (at + length bs) (size + length bs) (write_list buf at bs))
  unfolding unpack_rounds
  round_run fuel k bs p at size buf e room =
      rw
        (
          ff_run k bs p at size buf (state (0xff ∷ k ∷ bs ++ p) at size buf) e refl refl refl room,
          unpack_rounds,
        )
        refl

  rounds_end :
      (fuel at size : ℕ) (buf : ℕ → ℕ)
      → unpack_rounds (suc fuel) beyond limit (state [] at size buf) ≡ some (state [] at size buf)
  unfolding unpack_rounds
  rounds_end fuel at size buf = refl

  -- The loop gives back the bytes that the packed bytes stand for.
  pub rounds_Encodes :
      {p q : List ℕ}
      → Encodes p q
      → (fuel at size : ℕ) (buf : ℕ → ℕ) → length p < fuel
      → at + length q ≤ limit
      → unpack_rounds fuel beyond limit (state p at size buf)
        ≡ some (state [] (at + length q) (size + length q) (write_list buf at q))
  unfolding write_list
  rounds_Encodes e zero at size buf enough room = absurd (omega arith)
  rounds_Encodes done (suc fuel) at size buf enough room =
      rounds_end fuel at size buf ∙ ap₂ (λ a s. some (state [] a s buf)) (omega arith) (omega arith)
  rounds_Encodes (block bs {p} {q} l small e) (suc fuel) at size buf enough room =
      let sizes = length-append bs q in
      round_block fuel bs p at size buf l small (omega (arith, room, sizes))
      ∙ rounds_Encodes {p = p} {q = q} e fuel (at + length bs) (size + length bs)
          (write_list buf at bs) (omega (arith, enough, length-append (nonzeros bs) p))
          (omega (arith, room, sizes))
      ∙ joined at size buf bs q
  rounds_Encodes (run k bs {p} {q} few l e) (suc fuel) at size buf enough room =
      let sizes = length-append bs q in
      round_run fuel k bs p at size buf l (omega (arith, room, sizes))
      ∙ rounds_Encodes {p = p} {q = q} e fuel (at + length bs) (size + length bs)
          (write_list buf at bs) (omega (arith, enough, length-append bs p))
          (omega (arith, room, sizes))
      ∙ joined at size buf bs q
