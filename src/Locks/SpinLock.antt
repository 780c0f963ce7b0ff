-- ===== src/Locks/SpinLock.antt =====
-- skynet-src/spinlock.h
pub mod Exclusion
mod Tests
use demo_skynet_server.Common.{
  update, ℕ, zero, suc, ◌+◌, Bool, true, false, List, [], ◌∷◌, ◌==◌, if◌then◌else◌,
}

-- What a thread is at: outside, in the loop of `spinlock_lock`, or between it and `spinlock_unlock`.
pub data Place : Type 0 where
  outside : Place
  spins : Place
  holds : Place

-- What a thread outside does next.
pub data Call : Type 0 where
  locks : Call
  tries : Call

-- The field `lock`, and the threads.
pub record System : Type 0 where
  pub lock : ℕ
  pub place : ℕ → Place

-- `spinlock_init`
pub spinlock_init : System
spinlock_init = record { lock = 0; place = λ i. outside }

-- One step of a thread: the field after it, and where the thread is then. `spins` is one
-- test-and-set of `spinlock_lock`, `tries` is `spinlock_trylock`, and `holds` is `spinlock_unlock`.
pub act : Call → ℕ → Place → ℕ × Place
act locks lock outside = (lock, spins)
act tries lock outside = (1, if lock == 0 then holds else outside)
act call lock spins = (1, if lock == 0 then holds else spins)
act call lock holds = (0, outside)

pub run : List (ℕ × Call) → System → System
run [] s = s
run ((i, call) ∷ steps) s =
    let r = act call s.lock (s.place i) in
    run steps (record { lock = r.0; place = update s.place i r.1 })
