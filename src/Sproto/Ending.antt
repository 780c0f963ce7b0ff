-- ===== src/Sproto/Ending.antt =====
-- `sproto_pack` as a whole.
use native.Mathlib.Decide.{dec_lt, ℕ_discrete}
use demo_skynet_server.Common.{
  ℕ, zero, suc, ◌+◌, ◌-◌, ◌*◌, ◌/◌, ◌≤◌, ◌<◌, ◌≡◌, refl, sym, ap, subst, ◌∙◌, ◌⊎◌, inl, inr, List,
  [], ◌∷◌, ◌++◌, append_assoc, append-nil, arith, length, drop, replicate, length-replicate,
  length-drop, take_all, region, if_true, if_false, not_lt→ltb, lt→ltb, le→leb, ==_iff, ==_differ,
}
use demo_skynet_server.Sproto.{Packer, write_ff, pack_round, pack_rounds, pack_end, sproto_pack}
use demo_skynet_server.Sproto.Encoded.{Encodes, done, one_run}
use demo_skynet_server.Sproto.Laid.{
  Encodes-extend, write_ff_off, region-write_ff, length-filled, IsBehind, read_inside,
}
use demo_skynet_server.Sproto.Rounds.{round_at}
use demo_skynet_server.Sproto.Packed.{
  Between, settled, running, After, settled_after, running_after, whole_round, short_round,
}

-- The packed bytes stand for the source, filled up to whole blocks.
abbrev pub Packs : List ℕ → ℕ × (ℕ → ℕ) → Type 0
Packs src r = (pad : List ℕ) × (length pad < 8) × Encodes (region r.1 0 r.0) (src ++ pad)

module _ (junk : ℕ → List ℕ) (behind : IsBehind junk) (limit : ℕ) where
  end_size : (p : Packer) → (pack_end junk limit p).0 ≡ p.at
  unfolding pack_end
  end_size p = refl

  end_settled : (p : Packer) → p.ff_n ≡ 0 → p.at ≤ limit → pack_end junk limit p ≡ (p.at, p.buf)
  unfolding pack_end
  end_settled p z fits =
      ap (λ f. (p.at, f))
        (if_true (le→leb p.at limit fits) _ p.buf
          ∙ if_false (==_differ p.ff_n 1 (omega arith)) _ _
          ∙ if_false (not_lt→ltb 1 p.ff_n (omega arith)) _ _)

  end_running :
      (p : Packer) (k : ℕ)
      → p.ff_n ≡ k + 1
      → p.at ≤ limit
      → (0 < k) ⊎ (length p.ff_src ≡ 8)
      → pack_end junk limit p ≡ (p.at, write_ff p.ff_src p.ff_des p.buf)
  unfolding pack_end
  end_running p k e fits long = elim (ℕ_discrete p.ff_n 1) [
    | yes one ↦
        let size : 8 ≡ length p.ff_src = elim long [ inl h ↦ omega arith | inr h ↦ sym h ] in
        ap (λ f. (p.at, f))
          (if_true (le→leb p.at limit fits) _ p.buf
            ∙ if_true ((==_iff p.ff_n 1).1 one) _ _
            ∙ ap (λ x. write_ff x p.ff_des p.buf)
                (read_inside junk 8 p.ff_src behind (omega (arith, size))
                  ∙ take_all 8 p.ff_src size))
    | no more ↦
        ap (λ f. (p.at, f))
          (if_true (le→leb p.at limit fits) _ p.buf
            ∙ if_false (==_differ p.ff_n 1 more) _ _
            ∙ if_true (lt→ltb 1 p.ff_n (omega arith)) _ _)
  ]

  ends :
      (src : List ℕ) (p : Packer) → After src p → p.at ≤ limit → Packs src (pack_end junk limit p)
  ends src p (settled_after q pad (z, e) q_is small) fits =
      subst (Packs src) (sym (end_settled p z fits))
        (pad, small, subst (Encodes (region p.buf 0 p.at)) q_is e)
  ends src p (running_after k q r e more most long) fits =
      let out : ℕ → ℕ = write_ff p.ff_src p.ff_des p.buf in
      let pad : List ℕ = replicate ((k + 1) * 8 - length p.ff_src) 0 in
      let size = length-replicate {A = ℕ} ((k + 1) * 8 - length p.ff_src) 0 in
      let whole : Encodes (region out 0 (p.ff_des + (2 + (k + 1) * 8))) (q ++ (p.ff_src ++ pad)) =
        Encodes-extend p.buf out p.ff_des (2 + (k + 1) * 8) (0xff ∷ k ∷ (p.ff_src ++ pad)) q
          (p.ff_src ++ pad) r.before
          (λ j h. write_ff_off p.ff_src p.ff_des p.buf k more most j (inl h))
          (region-write_ff p.ff_src p.ff_des p.buf k more most)
          (one_run k (p.ff_src ++ pad) (omega (arith, r.few))
            (length-filled p.ff_src p.ff_des p.buf k more most)) in
      subst (Packs src) (sym (end_running p k r.blocks fits long)) (
        pad,
        omega (arith, size),
        subst (λ m. Encodes (region out 0 m) (src ++ pad)) (sym r.place)
            (subst (Encodes (region out 0 (p.ff_des + (2 + (k + 1) * 8))))
              (sym (append_assoc q p.ff_src pad) ∙ ap (λ x. x ++ pad) e) whole),
      )

  -- Nothing left after the last whole block.
  all_whole : (src : List ℕ) (p : Packer) → Between src [] p → After src p
  all_whole src p (settled q s e) =
      settled_after q [] s (sym (append-nil q) ∙ e ∙ sym (append-nil src)) (omega arith)
  all_whole src p (running k q r e len from) =
      running_after k q r e (omega (arith, len)) (omega (arith, len))
        (elim (ℕ_discrete k 0) [ yes z ↦ inr (omega (arith, len)) | no nz ↦ inl (omega arith) ])

  rounds_at : (k : ℕ) (rest : List ℕ) (p : Packer) → p.at ≤ (pack_rounds k junk limit rest p).at
  unfolding pack_rounds
  rounds_at zero rest p = omega arith
  rounds_at (suc k) rest p =
      omega (
        arith,
        round_at junk limit rest p,
        rounds_at k (drop 8 rest) (pack_round junk limit rest p),
      )

  rounds_After :
      (src : List ℕ) (k : ℕ) (rest : List ℕ) (p : Packer)
      → k ≡ (length rest + 7) / 8
      → Between src rest p
      → (pack_rounds k junk limit rest p).at ≤ limit
      → After src (pack_rounds k junk limit rest p)
  unfolding pack_rounds
  rounds_After src zero [] p e b fits = all_whole src p b
  rounds_After src zero (x ∷ rest) p e b fits = absurd (omega arith)
  rounds_After src (suc k) rest p e b fits =
      let on = rounds_at k (drop 8 rest) (pack_round junk limit rest p) in
      elim (dec_lt (length rest) 8) [
        | no whole ↦
            rounds_After src k (drop 8 rest) (pack_round junk limit rest p)
              (omega (arith, e, length-drop 8 rest))
              (whole_round junk behind limit src rest p (omega arith) (omega (arith, fits, on)) b)
              fits
        | yes short ↦
            let last : 0 ≡ k = omega (arith, e) in
            subst
              (λ m.
                After src (pack_rounds m junk limit (drop 8 rest) (pack_round junk limit rest p)))
              last
              (short_round junk behind limit src rest p (omega (arith, e)) short
                (omega (arith, fits, on)) b)
      ]

-- Where the buffer has room for the size that `sproto_pack` returns, the bytes that it writes are a
-- packed form of the source, filled up to a multiple of eight bytes.
pub sproto_pack-Packs :
    (junk : ℕ → List ℕ) (src : List ℕ) (bufsz : ℕ) (buf : ℕ → ℕ)
    → IsBehind junk
    → (sproto_pack junk src bufsz buf).0 ≤ bufsz
    → Packs src (sproto_pack junk src bufsz buf)
unfolding sproto_pack region
sproto_pack-Packs junk src bufsz buf behind fits =
    let first : Packer = record { at = 0; ff_n = 0; ff_src = []; ff_des = 0; buf = buf } in
    let last : Packer = pack_rounds ((length src + 7) / 8) junk bufsz src first in
    let fits' : last.at ≤ bufsz = omega (arith, fits, end_size junk behind bufsz last) in
    ends junk behind bufsz src last
      (rounds_After junk behind bufsz src ((length src + 7) / 8) src first refl
        (settled [] (refl, done) refl) fits')
      fits'
