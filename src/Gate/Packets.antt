-- ===== src/Gate/Packets.antt =====
-- The packets of `lpack` of lualib-src/lua-netpack.c, read by the gate.
use demo_skynet_server.Common.{
  ℕ, zero, suc, ◌-◌, ◌/◌, ◌^◌, ◌<◌, bit_and, bit_and-mask, ◌≡◌, refl, sym, ap, ap₂, subst, ◌∙◌, inl,
  inr, Option-cases, none, some, some_eq, List, [], ◌∷◌, ◌++◌, arith, length, take, drop, take_all,
  take-append, drop-append_past, length-append, All, All-append, leb, if_true, if_false, Bool-cases,
  not_leb,
}
use demo_skynet_server.Databuffer.{header_of}
use demo_skynet_server.Databuffer.Header.{IsByte, header_of-pair}
use demo_skynet_server.Gate.{Split, split_body, split_packets, pack, pack_all}
use demo_skynet_server.Gate.Cut.{body_cuts, split_parses}

abbrev framed : List ℕ → List ℕ
framed p = bit_and (length p / 2 ^ 8) 0xff ∷ bit_and (length p) 0xff ∷ p

pack_inv : (p bytes : List ℕ) → pack p ≡ some bytes → (length p < 2 ^ 16) × (bytes ≡ framed p)
unfolding pack
pack_inv p bytes e = elim (Bool-cases (leb 0x10000 (length p))) [
  | inl t ↦ absurd (let both : none ≡ some bytes = sym (if_true t _ _) ∙ e in cc)
  | inr t ↦ (not_leb 0x10000 (length p) t, some_eq (sym e ∙ if_false t _ _))
]

pack_all_inv :
    (p : List ℕ) (ps : List (List ℕ)) (bytes : List ℕ)
    → pack_all (p ∷ ps) ≡ some bytes
    → (length p < 2 ^ 16) × (rest : List ℕ) × (pack_all ps ≡ some rest) × (bytes ≡ framed p ++ rest)
unfolding pack_all
pack_all_inv p ps bytes e = elim (Option-cases (pack p)) [
  | inl n ↦ absurd (let both : none ≡ some bytes = sym (rw (n, pack_all) refl) ∙ e in cc)
  | inr (b, eb) ↦ elim (Option-cases (pack_all ps)) [
    | inl n ↦ absurd (let both : none ≡ some bytes = sym (rw (eb, pack_all) (rw n refl)) ∙ e in cc)
    | inr (rest, er) ↦
        let (small, at) = pack_inv p b eb in
        (
          small,
          rest,
          er,
          some_eq (sym e ∙ rw (eb, pack_all) (rw er refl)) ∙ ap (λ bs. bs ++ rest) at,
        )
  ]
]

header_of-framed :
    (p rest : List ℕ) → length p < 2 ^ 16 → header_of 2 (take 2 (framed p ++ rest)) ≡ length p
header_of-framed p rest small =
    header_of-pair (bit_and (length p / 2 ^ 8) 0xff) (bit_and (length p) 0xff)
      (omega (arith, bit_and-mask 8 (length p)))
    ∙ omega (arith, bit_and-mask 8 (length p), bit_and-mask 8 (length p / 2 ^ 8))

split_framed :
    (fuel : ℕ) (p rest : List ℕ)
    → length p < 2 ^ 16
    → 0 < length p
    → let s = split_packets fuel 0 rest in
      split_packets (suc fuel) 0 (framed p ++ rest) ≡ (p ∷ s.0, s.1, s.2)
split_framed fuel p rest small pos =
    split_parses fuel 0 (framed p ++ rest) refl (omega arith)
    ∙ ap (λ k. split_body (split_packets fuel 0) k (p ++ rest)) (header_of-framed p rest small)
    ∙ body_cuts (split_packets fuel 0) (length p) (p ++ rest) (omega (arith, length-append p rest))
        (omega arith)
    ∙ ap₂
        (λ q r.
          (q ∷ (split_packets fuel 0 r).0, (split_packets fuel 0 r).1, (split_packets fuel 0 r).2))
        (take-append (length p) p rest (omega arith) ∙ take_all (length p) p refl)
        (drop-append_past (length p) p rest (omega arith)
          ∙ (let e : length p - length p ≡ 0 = omega arith in ap (λ k. drop k rest) e))

split_none : (fuel : ℕ) → split_packets (suc fuel) 0 [] ≡ ([], 0, [])
unfolding split_packets
split_none fuel = refl

pub split_packets-pack_all :
    (fuel : ℕ) (ps : List (List ℕ)) (bytes : List ℕ)
    → pack_all ps ≡ some bytes
    → All (λ p. 0 < length p) ps
    → length bytes < fuel
    → split_packets fuel 0 bytes ≡ (ps, 0, [])
unfolding pack_all
split_packets-pack_all zero ps bytes e pos h = absurd (omega arith)
split_packets-pack_all (suc fuel) [] bytes e pos h =
    ap (split_packets (suc fuel) 0) (sym (some_eq e)) ∙ split_none fuel
split_packets-pack_all (suc fuel) (p ∷ ps) bytes e pos h =
    let (small, rest, er, at) = pack_all_inv p ps bytes e in
    ap (split_packets (suc fuel) 0) at
    ∙ split_framed fuel p rest small pos.0
    ∙ ap (λ (s : Split). (p ∷ s.0, s.1, s.2))
        (split_packets-pack_all fuel ps rest er pos.1
          (omega (arith, h, ap length at, length-append p rest)))

pub pack_all-bytes :
    (ps : List (List ℕ)) (bytes : List ℕ)
    → pack_all ps ≡ some bytes
    → All (All IsByte) ps
    → All IsByte bytes
unfolding pack_all
pack_all-bytes [] bytes e b = subst (All IsByte) (some_eq e) tt
pack_all-bytes (p ∷ ps) bytes e b =
    let (small, rest, er, at) = pack_all_inv p ps bytes e in
    subst (All IsByte) (sym at) (
      omega (arith, bit_and-mask 8 (length p / 2 ^ 8)),
      (
        omega (arith, bit_and-mask 8 (length p)),
        All-append IsByte p rest b.0 (pack_all-bytes ps rest er b.1),
      ),
    )
