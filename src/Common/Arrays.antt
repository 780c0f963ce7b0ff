-- ===== src/Common/Arrays.antt =====
-- Byte arrays as functions of the index: writes, and the bytes of a region as a list.
use Prim.Native.Nat.{ℕ, zero, suc, ◌+◌, ◌≤◌, ◌<◌}
use mathlib.Core.Path.{◌≡◌, refl, ap, ap₂, ◌∙◌}
use mathlib.Core.Logic.{◌≢◌, ◌⊎◌, inl, inr}
use mathlib.Core.List.{List, [], ◌∷◌, ◌++◌}
use native.Mathlib.Omega.{arith}
use demo_skynet_server.Common.Tests.{◌==◌, if◌then◌else◌, if_true, if_ne, ==_refl}
use demo_skynet_server.Common.Lists.{length}

abbrev pub put : (ℕ → ℕ) → ℕ → ℕ → (ℕ → ℕ)
put buf at b = λ k. if k == at then b else buf k

pub put_at : (buf : ℕ → ℕ) (at b : ℕ) → put buf at b at ≡ b
put_at buf at b = if_true (==_refl at) b (buf at)

pub put_off : (buf : ℕ → ℕ) (at b k : ℕ) → k ≢ at → put buf at b k ≡ buf k
put_off buf at b k ne = if_ne k at ne b (buf k)

unfoldable pub write_list : (ℕ → ℕ) → ℕ → List ℕ → (ℕ → ℕ)
write_list buf at [] = buf
write_list buf at (b ∷ bs) = write_list (put buf at b) (at + 1) bs

unfoldable pub region : (ℕ → ℕ) → ℕ → ℕ → List ℕ
region buf at zero = []
region buf at (suc n) = buf at ∷ region buf (at + 1) n

pub write_list_off :
    (buf : ℕ → ℕ) (at : ℕ) (bs : List ℕ) (k : ℕ)
    → (k < at) ⊎ (at + length bs ≤ k)
    → write_list buf at bs k ≡ buf k
unfolding write_list
write_list_off buf at [] k h = refl
write_list_off buf at (b ∷ bs) k h =
    write_list_off (put buf at b) (at + 1) bs k
      (elim h [ inl l ↦ inl (omega arith) | inr l ↦ inr (omega arith) ])
    ∙ put_off buf at b k (elim h [ inl l ↦ λ e. omega arith | inr l ↦ λ e. omega arith ])

pub length-region : (buf : ℕ → ℕ) (at n : ℕ) → length (region buf at n) ≡ n
unfolding region
length-region buf at zero = refl
length-region buf at (suc n) = omega (arith, length-region buf (at + 1) n)

pub region_same :
    (buf buf' : ℕ → ℕ) (at n : ℕ)
    → ((k : ℕ) → at ≤ k → k < at + n → buf' k ≡ buf k)
    → region buf' at n ≡ region buf at n
unfolding region
region_same buf buf' at zero h = refl
region_same buf buf' at (suc n) h =
    ap₂ ◌∷◌ (h at (omega arith) (omega arith))
      (region_same buf buf' (at + 1) n (λ k l m. h k (omega arith) (omega arith)))

pub region-write_list :
    (buf : ℕ → ℕ) (at : ℕ) (bs : List ℕ) (n : ℕ)
    → n ≡ length bs
    → region (write_list buf at bs) at n ≡ bs
unfolding region write_list
region-write_list buf at [] zero e = refl
region-write_list buf at [] (suc n) e = absurd (omega arith)
region-write_list buf at (b ∷ bs) zero e = absurd (omega arith)
region-write_list buf at (b ∷ bs) (suc n) e =
    ap₂ ◌∷◌ (write_list_off (put buf at b) (at + 1) bs at (inl (omega arith)) ∙ put_at buf at b)
      (region-write_list (put buf at b) (at + 1) bs n (omega arith))

pub region-append :
    (buf : ℕ → ℕ) (at m n : ℕ) → region buf at (m + n) ≡ region buf at m ++ region buf (at + m) n
unfolding region
region-append buf at zero n =
    let e : at ≡ at + 0 = omega arith in
    let z : 0 + n ≡ n = omega arith in ap (region buf at) z ∙ ap (λ k. region buf k n) e
region-append buf at (suc m) n =
    let s : suc m + n ≡ suc (m + n) = omega arith in
    let e : at + 1 + m ≡ at + suc m = omega arith in
    ap (region buf at) s
    ∙ ap (λ r. buf at ∷ r)
        (region-append buf (at + 1) m n ∙ ap (λ k. region buf (at + 1) m ++ region buf k n) e)

pub write_list-append :
    (buf : ℕ → ℕ) (at : ℕ) (xs ys : List ℕ)
    → write_list (write_list buf at xs) (at + length xs) ys ≡ write_list buf at (xs ++ ys)
unfolding write_list
write_list-append buf at [] ys =
    let e : at + 0 ≡ at = omega arith in ap (λ k. write_list buf k ys) e
write_list-append buf at (x ∷ xs) ys =
    (let e : at + suc (length xs) ≡ at + 1 + length xs = omega arith in
      ap (λ k. write_list (write_list (put buf at x) (at + 1) xs) k ys) e)
    ∙ write_list-append (put buf at x) (at + 1) xs ys
