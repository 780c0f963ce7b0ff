-- ===== src/Timer/Tick.antt =====
-- `timer_shift` as a whole: its loop ends in time, and the tick moves every node to where it fits.
use demo_skynet_server.Common.{
  ℕ, suc, ◌+◌, ◌-◌, ◌/◌, ◌%◌, ◌^◌, ◌<◌, bit_and, ◌≡◌, ◌∙◌, inl, inr, true, false, some, [], arith,
  ◌==◌, Bool-cases, ==_iff, if_true, if_false, ne_of_false, bit_and-mask,
}
use demo_skynet_server.Timer.{Timer, time_level_mask, move_list, shift_levels, timer_shift}
use demo_skynet_server.Timer.Wheel.{IsValid}
use demo_skynet_server.Timer.Shift.{
  Rolls, tick, ticked, Shifted, moved, calm, levels_stop, levels_move, levels_on, masked_zero,
  masked_nonzero,
}

module _ (T : Timer) (v : IsValid T) (done : T.near (T.time % 2 ^ 8) ≡ [])
    (no_wrap : T.time + 1 < 2 ^ 32) where
  abbrev ct : ℕ
  ct = tick T.time

  -- The outcome of the loop from level `i` on, at the mask and the shifted time that it has there.
  abbrev Outcome : ℕ → ℕ → ℕ → ℕ → Type 0
  Outcome fuel mask time i =
      (T' : Timer) × (shift_levels fuel (ticked T) ct mask time i ≡ some T') × Shifted T T'

  -- A level whose slot is not 0 is the last.
  at_slot :
      (fuel mask time i : ℕ)
      → i < 4
      → (bit_and ct (mask - 1) == 0) ≡ true
      → (bit_and time time_level_mask == 0) ≡ false
      → Rolls i T.time (bit_and time time_level_mask)
      → Outcome (suc fuel) mask time i
  at_slot fuel mask time i li a b r = (
    move_list (ticked T) i (bit_and time time_level_mask),
    levels_move fuel (ticked T) ct mask time i a b,
    moved T v done i (bit_and time time_level_mask) li (omega (arith, bit_and-mask 6 time)) r,
  )

  level_three : ct % 2 ^ 26 ≡ 0 → Outcome 1 (2 ^ 26) (ct / 2 ^ 8 / 2 ^ 6 / 2 ^ 6 / 2 ^ 6) 3
  level_three z =
      let time : ℕ = ct / 2 ^ 8 / 2 ^ 6 / 2 ^ 6 / 2 ^ 6 in
      elim (Bool-cases (bit_and time time_level_mask == 0)) [
        | inl b ↦ absurd (omega (arith, masked_zero 6 time b, z))
        | inr b ↦
            at_slot 0 (2 ^ 26) time 3 (omega arith)
              ((==_iff (bit_and ct (2 ^ 26 - 1)) 0).1 (bit_and-mask 26 ct ∙ z)) b
              (omega (arith, bit_and-mask 6 time, masked_nonzero 6 time b, z))
      ]

  level_two : ct % 2 ^ 20 ≡ 0 → Outcome 2 (2 ^ 20) (ct / 2 ^ 8 / 2 ^ 6 / 2 ^ 6) 2
  level_two z =
      let time : ℕ = ct / 2 ^ 8 / 2 ^ 6 / 2 ^ 6 in
      let a = (==_iff (bit_and ct (2 ^ 20 - 1)) 0).1 (bit_and-mask 20 ct ∙ z) in
      elim (Bool-cases (bit_and time time_level_mask == 0)) [
        | inl b ↦
            let (T', e, s) = level_three (omega (arith, masked_zero 6 time b, z)) in
            (T', levels_on 1 (ticked T) ct (2 ^ 20) time 2 a b ∙ e, s)
        | inr b ↦
            at_slot 1 (2 ^ 20) time 2 (omega arith) a b
              (omega (arith, bit_and-mask 6 time, masked_nonzero 6 time b, z))
      ]

  level_one : ct % 2 ^ 14 ≡ 0 → Outcome 3 (2 ^ 14) (ct / 2 ^ 8 / 2 ^ 6) 1
  level_one z =
      let time : ℕ = ct / 2 ^ 8 / 2 ^ 6 in
      let a = (==_iff (bit_and ct (2 ^ 14 - 1)) 0).1 (bit_and-mask 14 ct ∙ z) in
      elim (Bool-cases (bit_and time time_level_mask == 0)) [
        | inl b ↦
            let (T', e, s) = level_two (omega (arith, masked_zero 6 time b, z)) in
            (T', levels_on 2 (ticked T) ct (2 ^ 14) time 1 a b ∙ e, s)
        | inr b ↦
            at_slot 2 (2 ^ 14) time 1 (omega arith) a b
              (omega (arith, bit_and-mask 6 time, masked_nonzero 6 time b, z))
      ]

  level_zero : Outcome 4 (2 ^ 8) (ct / 2 ^ 8) 0
  level_zero = elim (Bool-cases (bit_and ct (2 ^ 8 - 1) == 0)) [
    | inr a ↦ (
      ticked T,
      levels_stop 3 (ticked T) ct (2 ^ 8) (ct / 2 ^ 8) 0 a,
      calm T v done (omega (arith, masked_nonzero 8 ct a)),
    )
    | inl a ↦ elim (Bool-cases (bit_and (ct / 2 ^ 8) time_level_mask == 0)) [
      | inr b ↦ at_slot 3 (2 ^ 8) (ct / 2 ^ 8) 0 (omega arith) a b (
          omega (
            arith,
            bit_and-mask 6 (ct / 2 ^ 8),
            masked_nonzero 6 (ct / 2 ^ 8) b,
            masked_zero 8 ct a,
          ))
      | inl b ↦
          let (T', e, s) =
            level_one (omega (arith, masked_zero 6 (ct / 2 ^ 8) b, masked_zero 8 ct a)) in
          (T', levels_on 3 (ticked T) ct (2 ^ 8) (ct / 2 ^ 8) 0 a b ∙ e, s)
    ]
  ]

-- At a timer whose current list is empty `timer_shift` ends within four rounds of its loop and
-- never looks beyond the last level. The time goes on by one tick modulo 2^32, and each node that
-- was on the wheel is on it as often as before, in the list where the new time wants it.
pub timer_shift_total :
    (T : Timer)
    → IsValid T
    → T.near (T.time % 2 ^ 8) ≡ []
    → (T' : Timer) × (timer_shift T ≡ some T') × Shifted T T'
unfolding timer_shift
timer_shift_total T v done = elim (Bool-cases (tick T.time == 0)) [
  | inl z ↦ (
    move_list (ticked T) 3 0,
    if_true z _ _,
    moved T v done 3 0 (omega arith) (omega arith)
        (omega (arith, v.now, (==_iff (tick T.time) 0).0 z)),
  )
  | inr nz ↦
      let (T', e, s) = level_zero T v done (omega (arith, v.now, ne_of_false (tick T.time) 0 nz)) in
      (T', if_false nz _ _ ∙ e, s)
]
