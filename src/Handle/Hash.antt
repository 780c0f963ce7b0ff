-- ===== src/Handle/Hash.antt =====
-- Where the registry of skynet-src/skynet_handle.c looks for a handle: slots are picked by the low
-- bits, and the search of `skynet_handle_register` comes by every slot.
use native.Mathlib.Nat.{
  mod-add-mod, mod-mod_of_dvd, div-add-mod, add-mul-mod_self_left, mod-lt, mod-eq_of_lt,
}
use native.Mathlib.Decide.{dec_lt}
use demo_skynet_server.Common.{
  ℕ, zero, suc, ◌+◌, ◌-◌, ◌*◌, ◌/◌, ◌%◌, ◌^◌, ◌≤◌, ◌<◌, ◌≡◌, sym, ap, ◌∙◌, ◌≢◌, none, some, arith,
  inl, inr, Option-cases, bit_and-mask, two-pow-dvd, two-pow-le,
}
use demo_skynet_server.Handle.{Storage, slot_at, candidate, hash_of, find_free}

-- The slot of a handle is its remainder by the number of slots, a power of two.
pub hash_of-mod :
    (k : ℕ) (s : Storage) (handle : ℕ)
    → s.slot_size ≡ 2 ^ k
    → hash_of s handle ≡ handle % s.slot_size
hash_of-mod k s handle e = rw e (bit_and-mask k handle)

candidate-mod :
    (s : Storage) (i : ℕ)
    → i + s.handle_index < 2 ^ 32
    → candidate s i ≡ (i + s.handle_index) % 2 ^ 24
candidate-mod s i h =
    bit_and-mask 24 ((i + s.handle_index) % 2 ^ 32) ∙ ap (λ (t : ℕ). t % 2 ^ 24) (mod-eq_of_lt h)

pub candidate-lt : (s : Storage) (i : ℕ) → candidate s i < 2 ^ 24
candidate-lt s i = omega (arith, bit_and-mask 24 ((i + s.handle_index) % 2 ^ 32))

pub find_free_sound :
    (s : Storage) (n i : ℕ) {handle : ℕ}
    → find_free s n i ≡ some handle
    → (m : ℕ) × (handle ≡ candidate s m) × (slot_at s.slot (hash_of s handle) ≡ none)
unfolding find_free
find_free_sound s zero i e = cc
find_free_sound s (suc n) i {handle} e =
    elim (Option-cases (slot_at s.slot (hash_of s (candidate s i)))) [
      | inl free ↦
          let at : candidate s i ≡ handle =
            (let h : some (candidate s i) ≡ some handle = rw (free, find_free) at e in cc) in
          (i, sym at, rw (← at) free)
      | inr (c, taken) ↦ find_free_sound s n (i + 1) (rw (taken, find_free) at e)
    ]

pub find_free-none :
    (s : Storage) (n i : ℕ)
    → find_free s n i ≡ none
    → (m : ℕ) → i ≤ m
    → m < i + n
    → slot_at s.slot (hash_of s (candidate s m)) ≢ none
unfolding find_free
find_free-none s zero i e m h h' = absurd (omega arith)
find_free-none s (suc n) i e m h h' =
    elim (Option-cases (slot_at s.slot (hash_of s (candidate s i)))) [
      | inl free ↦
          absurd (let found : some (candidate s i) ≡ none = rw (free, find_free) at e in cc)
      | inr (c, taken) ↦ elim (dec_lt i m) [
        | yes later ↦
            find_free-none s n (i + 1) (rw (taken, find_free) at e) m (omega arith) (omega arith)
        | no same ↦
            let at : m ≡ i = omega arith in
            rw at (λ free. let both : none ≡ some c = sym free ∙ taken in cc)
      ]
    ]

-- Every slot is tried in one of the first `slot_size` rounds.
round_of : (n index j : ℕ) → ℕ
round_of n index j = (j + n - index % n) % n

round_of_lem :
    (n index j : ℕ)
    → 0 < n
    → j < n
    → (round_of n index j < n) × ((round_of n index j + index) % n ≡ j)
unfolding round_of
round_of_lem n index j pos h = (
  mod-lt (j + n - index % n) pos,
  mod-add-mod (j + n - index % n) n index
      ∙ ap (λ (t : ℕ). t % n) regroup
      ∙ add-mul-mod_self_left j n (1 + index / n)
      ∙ mod-eq_of_lt h,
)
  where
    regroup : j + n - index % n + index ≡ j + n * (1 + index / n)
    regroup = omega (arith, div-add-mod index n, mod-lt index pos)

-- The search comes by slot `j`.
pub reaches_slot :
    (k : ℕ) (s : Storage) (j : ℕ)
    → s.slot_size ≡ 2 ^ k
    → k ≤ 24
    → s.handle_index ≤ 2 ^ 24
    → j < s.slot_size
    → (i : ℕ) × (i < s.slot_size) × (hash_of s (candidate s i) ≡ j)
reaches_slot k s j e kb ib h =
    let (lt, at) = round_of_lem s.slot_size s.handle_index j (omega arith) h in
    (
      round_of s.slot_size s.handle_index j,
      lt,
      hash_of-mod k s _ e
          ∙ ap (λ (t : ℕ). t % s.slot_size) (candidate-mod s _ (omega (arith, small)))
          ∙ mod-mod_of_dvd s.slot_size _ (rw e (two-pow-dvd k 24 kb))
          ∙ at,
    )
  where
    small : s.slot_size ≤ 2 ^ 24
    small = rw e (two-pow-le kb)

-- Where the search finds no slot, none is free.
pub find_free_full :
    (k : ℕ) (s : Storage)
    → s.slot_size ≡ 2 ^ k
    → k ≤ 24
    → s.handle_index ≤ 2 ^ 24
    → find_free s s.slot_size 0 ≡ none
    → (j : ℕ) → j < s.slot_size
    → slot_at s.slot j ≢ none
find_free_full k s e kb ib full j h =
    let (i, lt, at) = reaches_slot k s j e kb ib h in
    rw (← at) (find_free-none s s.slot_size 0 full i (omega arith) (omega arith))
