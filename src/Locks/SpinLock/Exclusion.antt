-- ===== src/Locks/SpinLock/Exclusion.antt =====
-- One thread at a time holds a spinlock.
use native.Mathlib.Decide.{ℕ_discrete}
use demo_skynet_server.Common.{
  update, sum, sum-update, sum-one, sum-two, sum-zero, ℕ, ◌+◌, ◌≤◌, ◌<◌, ◌≡◌, refl, sym, ap, List,
  [], ◌∷◌, arith, All,
}
use demo_skynet_server.Locks.SpinLock.{
  Place, outside, spins, holds, Call, locks, tries, System, spinlock_init, act, run,
}

abbrev has : Place → ℕ
has outside = 0
has spins = 0
has holds = 1

-- The field counts the threads that hold the lock, of `n` threads.
abbrev pub IsCounted : ℕ → System → Type 0
IsCounted n s = (s.lock ≡ sum has n s.place) × (s.lock ≤ 1)

act_lem :
    (call : Call) (lock : ℕ) (p : Place)
    → has p ≤ lock
    → lock ≤ 1
    → ((act call lock p).0 + has p ≡ lock + has (act call lock p).1) × ((act call lock p).0 ≤ 1)
unfolding act
act_lem locks lock outside h k = omega arith
act_lem tries lock outside h k = ground arith
act_lem call lock spins h k = ground arith
act_lem call lock holds h k = omega arith

run-IsCounted :
    (n : ℕ) (steps : List (ℕ × Call)) (s : System)
    → All (λ st. st.0 < n) steps
    → IsCounted n s
    → IsCounted n (run steps s)
unfolding run
run-IsCounted n [] s h c = c
run-IsCounted n ((i, call) ∷ steps) s h c =
    let r = act call s.lock (s.place i) in
    let moved =
      act_lem call s.lock (s.place i) (omega (arith, c, sum-one has n s.place i h.0)) c.1 in
    run-IsCounted n steps (record { lock = r.0; place = update s.place i r.1 }) h.1
      (omega (arith, c, moved, sum-update has n s.place i r.1 h.0), moved.1)

-- Whatever steps the threads take, in whatever order, no two of them are between `spinlock_lock`, or a
-- `spinlock_trylock` that succeeds, and `spinlock_unlock`.
pub spinlock_exclusion :
    (n : ℕ) (steps : List (ℕ × Call)) (i j : ℕ)
    → All (λ st. st.0 < n) steps
    → i < n
    → j < n
    → (run steps spinlock_init).place i ≡ holds
    → (run steps spinlock_init).place j ≡ holds
    → i ≡ j
unfolding spinlock_init
spinlock_exclusion n steps i j h hi hj at_i at_j =
    let s = run steps spinlock_init in
    let c =
      run-IsCounted n steps spinlock_init h (sym (sum-zero has n outside refl), omega arith) in
    elim (ℕ_discrete i j) [
      | yes e ↦ e
      | no ne ↦
          absurd (omega (arith, c, sum-two has n s.place i j hi hj ne, ap has at_i, ap has at_j))
    ]
