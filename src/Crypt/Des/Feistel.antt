-- ===== src/Crypt/Des/Feistel.antt =====
-- The rounds of `des_crypt` of lualib-src/lua-crypt.c: with the keys in reverse order they undo each
-- other.
use demo_skynet_server.Common.{
  ℕ, zero, suc, ◌/◌, ◌%◌, ◌^◌, ◌<◌, ◌≡◌, refl, ap, ◌∙◌, bit_or, bit_xor, bit_xor_twice,
  bit_xor_assoc, bit_xor-lt, Bool, true, ◌&&◌, List, [], ◌∷◌, ◌++◌, length, reverse, length-reverse,
  ltb, ltb→lt, both, arith,
}
use demo_skynet_server.Crypt.Base64.{entry}
use demo_skynet_server.Crypt.Des.{shl, boxes, des_round, des_rounds}
use demo_skynet_server.Crypt.Des.Tables.{sb1, sb2, sb3, sb4, sb5, sb6, sb7, sb8}
use demo_skynet_server.Crypt.Des.Permutations.{Words}

-- A round changes the half that it is given by what depends on the other half only.
des_round_twice : (k : ℕ × ℕ) (x y : ℕ) → des_round k x (des_round k x y) ≡ y
unfolding des_round
des_round_twice (k, k') x y =
    let a : ℕ = boxes sb8 sb6 sb4 sb2 (bit_xor k x) in
    let b : ℕ = boxes sb7 sb5 sb3 sb1 (bit_xor k' (bit_or (shl x 28) (x / 2 ^ 4))) in
    bit_xor_assoc (bit_xor (bit_xor y a) b) a b
    ∙ ap (λ (z : ℕ). bit_xor z (bit_xor a b)) (bit_xor_assoc y a b)
    ∙ bit_xor_twice y (bit_xor a b)

-- One round and the exchange of the halves.
abbrev turn : ℕ × ℕ → ℕ × ℕ → ℕ × ℕ
turn k (x, y) = (y, des_round k y x)

abbrev pub turns : List (ℕ × ℕ) → ℕ × ℕ → ℕ × ℕ
turns [] p = p
turns (k ∷ ks) p = turns ks (turn k p)

abbrev pub exchange : ℕ × ℕ → ℕ × ℕ
exchange (x, y) = (y, x)

des_rounds-turns :
    (sk : List (ℕ × ℕ)) (p : ℕ × ℕ) → length sk % 2 ≡ 0 → des_rounds sk p ≡ turns sk p
unfolding des_rounds
des_rounds-turns [] p even = refl
des_rounds-turns (j ∷ []) p even = absurd (omega arith)
des_rounds-turns (j ∷ k ∷ sk) (x, y) even =
    des_rounds-turns sk (des_round j y x, des_round k (des_round j y x) y) (omega arith)

turns-append : (ks ks' : List (ℕ × ℕ)) (p : ℕ × ℕ) → turns (ks ++ ks') p ≡ turns ks' (turns ks p)
turns-append [] ks' p = refl
turns-append (k ∷ ks) ks' p = turns-append ks ks' (turn k p)

turns_back :
    (ks : List (ℕ × ℕ)) (p : ℕ × ℕ) → turns (reverse ks) (exchange (turns ks p)) ≡ exchange p
turns_back [] p = refl
turns_back (k ∷ ks) (x, y) =
    turns-append (reverse ks) (k ∷ []) (exchange (turns ks (turn k (x, y))))
    ∙ ap (turn k) (turns_back ks (turn k (x, y)))
    ∙ ap (λ z. (y, z)) (des_round_twice k y x)

-- The rounds, the exchange of the halves, and the rounds with the keys in reverse order.
pub des_rounds_back :
    (sk : List (ℕ × ℕ)) (p : ℕ × ℕ)
    → length sk % 2 ≡ 0
    → des_rounds (reverse sk) (exchange (des_rounds sk p)) ≡ exchange p
des_rounds_back sk p even =
    des_rounds-turns (reverse sk) (exchange (des_rounds sk p))
      (omega (arith, length-reverse sk, even))
    ∙ ap (λ q. turns (reverse sk) (exchange q)) (des_rounds-turns sk p even)
    ∙ turns_back sk p

-- Every entry of a table has 32 bits.
abbrev are_words : List ℕ → Bool
are_words [] = true
are_words (e ∷ es) = ltb e (2 ^ 32) && are_words es

entry-lt : (table : List ℕ) (i : ℕ) → are_words table ≡ true → entry table i < 2 ^ 32
unfolding entry
entry-lt [] i h = omega arith
entry-lt (e ∷ es) zero h = ltb→lt e (2 ^ 32) (both (ltb e (2 ^ 32)) (are_words es) h).0
entry-lt (e ∷ es) (suc i) h = entry-lt es i (both (ltb e (2 ^ 32)) (are_words es) h).1

boxes-lt :
    (s0 s8 s16 s24 : List ℕ) (t : ℕ)
    → are_words s0 ≡ true
    → are_words s8 ≡ true
    → are_words s16 ≡ true
    → are_words s24 ≡ true
    → boxes s0 s8 s16 s24 t < 2 ^ 32
unfolding boxes
boxes-lt s0 s8 s16 s24 t h0 h8 h16 h24 =
    bit_xor-lt 32 _ (entry s24 (t / 2 ^ 24 % 64))
      (bit_xor-lt 32 _ (entry s16 (t / 2 ^ 16 % 64))
        (bit_xor-lt 32 (entry s0 (t % 64)) (entry s8 (t / 2 ^ 8 % 64)) (entry-lt s0 (t % 64) h0)
          (entry-lt s8 (t / 2 ^ 8 % 64) h8))
        (entry-lt s16 (t / 2 ^ 16 % 64) h16))
      (entry-lt s24 (t / 2 ^ 24 % 64) h24)

des_round-lt : (k : ℕ × ℕ) (x y : ℕ) → y < 2 ^ 32 → des_round k x y < 2 ^ 32
unfolding des_round
des_round-lt (k, k') x y h =
    bit_xor-lt 32 (bit_xor y (boxes sb8 sb6 sb4 sb2 (bit_xor k x))) _
      (bit_xor-lt 32 y (boxes sb8 sb6 sb4 sb2 (bit_xor k x)) h
        (boxes-lt sb8 sb6 sb4 sb2 (bit_xor k x) refl refl refl refl))
      (boxes-lt sb7 sb5 sb3 sb1 (bit_xor k' (bit_or (shl x 28) (x / 2 ^ 4))) refl refl refl refl)

pub des_rounds-Words : (sk : List (ℕ × ℕ)) (p : ℕ × ℕ) → Words p → Words (des_rounds sk p)
unfolding des_rounds
des_rounds-Words [] p h = h
des_rounds-Words (j ∷ []) p h = h
des_rounds-Words (j ∷ k ∷ sk) (x, y) (hx, hy) =
    des_rounds-Words sk (des_round j y x, des_round k (des_round j y x) y)
      (des_round-lt j y x hx, des_round-lt k (des_round j y x) y hy)
