-- ===== src/Gate/Resume.antt =====
-- The split of a stream that comes in two parts.
use native.Mathlib.Decide.{dec_lt, ℕ_discrete}
use demo_skynet_server.Common.{
  ℕ, zero, suc, ◌+◌, ◌≤◌, ◌<◌, ◌≡◌, refl, sym, ap, ap₂, subst, ◌∙◌, ◌≢◌, List, [], ◌∷◌, ◌++◌,
  append-nil, arith, length, take, drop, length-drop, length-append, drop-append, take-append,
}
use demo_skynet_server.Databuffer.{header_of}
use demo_skynet_server.Gate.{Split, split_body, split_packets}
use demo_skynet_server.Gate.Cut.{
  body_waits, body_empty, body_cuts, split_parses, split_known, split_short,
}

-- A body looks on only at bytes behind it.
body_same :
    (cut cut' : List ℕ → Split) (header : ℕ) (bytes : List ℕ)
    → ((b : List ℕ) → length b + header ≤ length bytes → cut b ≡ cut' b)
    → split_body cut header bytes ≡ split_body cut' header bytes
body_same cut cut' header bytes same = elim (dec_lt (length bytes) header) [
  | yes l ↦ body_waits cut header bytes l ∙ sym (body_waits cut' header bytes l)
  | no l ↦ elim (ℕ_discrete header 0) [
    | yes z ↦
        body_empty cut bytes header z
        ∙ same bytes (omega arith)
        ∙ sym (body_empty cut' bytes header z)
    | no nz ↦
        body_cuts cut header bytes (omega arith) nz
        ∙ ap (λ (s : Split). (take header bytes ∷ s.0, s.1, s.2))
            (same (drop header bytes) (omega (arith, length-drop header bytes)))
        ∙ sym (body_cuts cut' header bytes (omega arith) nz)
  ]
]

split_enough :
    (f g header : ℕ) (bytes : List ℕ)
    → length bytes < f
    → length bytes < g
    → split_packets f header bytes ≡ split_packets g header bytes
split_enough zero g header bytes h k = absurd (omega arith)
split_enough (suc f) zero header bytes h k = absurd (omega arith)
split_enough (suc f) (suc g) header bytes h k = elim (ℕ_discrete header 0) [
  | yes z ↦ elim (dec_lt (length bytes) 2) [
    | yes l ↦ split_short f header bytes z l ∙ sym (split_short g header bytes z l)
    | no l ↦
        split_parses f header bytes z (omega arith)
        ∙ body_same _ _ (header_of 2 (take 2 bytes)) (drop 2 bytes) (λ b m.
          split_enough f g 0 b (omega (arith, length-drop 2 bytes))
            (omega (arith, length-drop 2 bytes)))
        ∙ sym (split_parses g header bytes z (omega arith))
  ]
  | no nz ↦
      split_known f header bytes nz
      ∙ body_same _ _ header bytes (λ b m. split_enough f g 0 b (omega arith) (omega arith))
      ∙ sym (split_known g header bytes nz)
]

-- The split with as much fuel as it needs.
abbrev pub whole : ℕ → List ℕ → Split
whole header bytes = split_packets (suc (length bytes)) header bytes

pub split-whole :
    (fuel header : ℕ) (bytes : List ℕ)
    → length bytes < fuel
    → split_packets fuel header bytes ≡ whole header bytes
split-whole fuel header bytes h =
    split_enough fuel (suc (length bytes)) header bytes h (omega arith)

whole_known :
    (header : ℕ) (bytes : List ℕ)
    → header ≢ 0
    → whole header bytes ≡ split_body (whole 0) header bytes
whole_known header bytes nz =
    split_known (length bytes) header bytes nz
    ∙ body_same _ _ header bytes (λ b m. split-whole (length bytes) 0 b (omega arith))

whole_parses :
    (bytes : List ℕ)
    → 2 ≤ length bytes
    → whole 0 bytes ≡ split_body (whole 0) (header_of 2 (take 2 bytes)) (drop 2 bytes)
whole_parses bytes h =
    split_parses (length bytes) 0 bytes refl h
    ∙ body_same _ _ (header_of 2 (take 2 bytes)) (drop 2 bytes)
        (λ b m. split-whole (length bytes) 0 b (omega (arith, length-drop 2 bytes)))

-- `out` is what `s` becomes when `ys` comes behind.
abbrev pub Joins : List ℕ → Split → Split → Type 0
Joins ys s out = let t = whole s.1 (s.2 ++ ys) in out ≡ (s.0 ++ t.0, t.1, t.2)

body_Joins :
    (header : ℕ) (xs ys : List ℕ)
    → ((b : List ℕ) → length b + header ≤ length xs → Joins ys (whole 0 b) (whole 0 (b ++ ys)))
    → Joins ys (split_body (whole 0) header xs) (split_body (whole 0) header (xs ++ ys))
body_Joins header xs ys ih = elim (dec_lt (length xs) header) [
  | yes l ↦
      subst (λ s. Joins ys s (split_body (whole 0) header (xs ++ ys)))
        (sym (body_waits (whole 0) header xs l)) (sym (whole_known header (xs ++ ys) (omega arith)))
  | no l ↦ elim (ℕ_discrete header 0) [
    | yes z ↦
        subst (λ s. Joins ys s (split_body (whole 0) header (xs ++ ys)))
          (sym (body_empty (whole 0) xs header z))
          (body_empty (whole 0) (xs ++ ys) header z ∙ ih xs (omega arith))
    | no nz ↦
        subst (λ s. Joins ys s (split_body (whole 0) header (xs ++ ys)))
          (sym (body_cuts (whole 0) header xs (omega arith) nz))
          (body_cuts (whole 0) header (xs ++ ys) (omega (arith, length-append xs ys)) nz
            ∙ ap₂ (λ p r. (p ∷ (whole 0 r).0, (whole 0 r).1, (whole 0 r).2))
                (take-append header xs ys (omega arith)) (drop-append header xs ys (omega arith))
            ∙ ap (λ (s : Split). (take header xs ∷ s.0, s.1, s.2))
                (ih (drop header xs) (omega (arith, length-drop header xs))))
  ]
]

resume :
    (n header : ℕ) (xs ys : List ℕ)
    → length xs < n
    → Joins ys (whole header xs) (whole header (xs ++ ys))
resume zero header xs ys h = absurd (omega arith)
resume (suc n) header xs ys h = elim (ℕ_discrete header 0) [
  | yes z ↦ elim (dec_lt (length xs) 2) [
    | yes l ↦
        subst (λ s. Joins ys s (whole header (xs ++ ys)))
          (sym (split_short (length xs) header xs z l)) (ap (λ k. whole k (xs ++ ys)) z)
    | no l ↦
        subst (λ k. Joins ys (whole k xs) (whole k (xs ++ ys))) (sym z)
          (subst (λ s. Joins ys s (whole 0 (xs ++ ys))) (sym (whole_parses xs (omega arith)))
            (whole_parses (xs ++ ys) (omega (arith, length-append xs ys))
              ∙ ap₂ (λ p r. split_body (whole 0) (header_of 2 p) r)
                  (take-append 2 xs ys (omega arith)) (drop-append 2 xs ys (omega arith))
              ∙ body_Joins (header_of 2 (take 2 xs)) (drop 2 xs) ys
                  (λ b m. resume n 0 b ys (omega (arith, length-drop 2 xs)))))
  ]
  | no nz ↦
      subst (λ s. Joins ys s (whole header (xs ++ ys))) (sym (whole_known header xs nz))
        (whole_known header (xs ++ ys) nz
          ∙ body_Joins header xs ys (λ b m. resume n 0 b ys (omega arith)))
]

-- What the first part leaves, with the second part behind it, splits as the rest of the stream.
pub whole-append :
    (header : ℕ) (xs ys : List ℕ) → Joins ys (whole header xs) (whole header (xs ++ ys))
whole-append header xs ys = resume (suc (length xs)) header xs ys (omega arith)

nothing_added : (ps qs : List (List ℕ)) → ps ≡ ps ++ qs → qs ≡ []
nothing_added ps [] e = refl
nothing_added ps (q ∷ qs) e = absurd (omega (arith, ap length e, length-append ps (q ∷ qs)))

-- What a split leaves has no packet in it.
pub whole_left :
    (header : ℕ) (xs : List ℕ) → let s = whole header xs in whole s.1 s.2 ≡ ([], s.1, s.2)
whole_left header xs =
    let s : Split = whole header xs in
    let again : s ≡ (s.0 ++ (whole s.1 s.2).0, (whole s.1 s.2).1, (whole s.1 s.2).2) =
      subst
        (λ bs. whole header bs ≡ (s.0 ++ (whole s.1 s.2).0, (whole s.1 s.2).1, (whole s.1 s.2).2))
        (append-nil xs)
        (subst
          (λ bs.
            whole header (xs ++ []) ≡ (s.0 ++ (whole s.1 bs).0, (whole s.1 bs).1, (whole s.1 bs).2))
          (append-nil s.2) (whole-append header xs [])) in
    ap₂ (λ p (r : ℕ × List ℕ). (p, r.0, r.1))
      (nothing_added s.0 (whole s.1 s.2).0 (ap (λ (u : Split). u.0) again))
      (ap (λ (u : Split). (u.1, u.2)) (sym again))
