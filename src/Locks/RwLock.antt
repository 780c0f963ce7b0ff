-- ===== src/Locks/RwLock.antt =====
-- skynet-src/rwlock.h
pub mod Exclusion
pub mod Waiting
mod Tests
use demo_skynet_server.Common.{
  update, ℕ, zero, suc, ◌+◌, ◌-◌, Bool, true, false, List, [], ◌∷◌, ◌==◌, if◌then◌else◌,
}

-- `struct rwlock`
pub record RwLock : Type 0 where
  pub write : ℕ
  pub read : ℕ

-- What a thread is at. In `rwlock_rlock`: its inner loop, its atomic addition, its test of `write`
-- after that, and its subtraction where the test fails. In `rwlock_wlock`: its first and its second
-- loop. `reads` and `writes` are between the lock and its unlock.
pub data Place : Type 0 where
  outside : Place
  awaits_writer : Place
  adds : Place
  tests : Place
  subtracts : Place
  reads : Place
  claims : Place
  awaits_readers : Place
  writes : Place

-- What a thread outside wants.
pub data Call : Type 0 where
  to_read : Call
  to_write : Call

pub record System : Type 0 where
  pub lock : RwLock
  pub place : ℕ → Place

-- `rwlock_init`
pub rwlock_init : System
rwlock_init = record { lock = record { write = 0; read = 0 }; place = λ i. outside }

-- One step of a thread: the lock after it, and where the thread is then. `reads` is
-- `rwlock_runlock`, and `writes` is `rwlock_wunlock`.
pub act : Call → RwLock → Place → RwLock × Place
act to_read lock outside = (lock, awaits_writer)
act to_write lock outside = (lock, claims)
act call lock awaits_writer = (lock, if lock.write == 0 then adds else awaits_writer)
act call lock adds = (record lock { read = lock.read + 1 }, tests)
act call lock tests = (lock, if lock.write == 0 then reads else subtracts)
act call lock subtracts = (record lock { read = lock.read - 1 }, awaits_writer)
act call lock reads = (record lock { read = lock.read - 1 }, outside)
act call lock claims =
    (record lock { write = 1 }, if lock.write == 0 then awaits_readers else claims)
act call lock awaits_readers = (lock, if lock.read == 0 then writes else awaits_readers)
act call lock writes = (record lock { write = 0 }, outside)

pub step : ℕ × Call → System → System
step (i, call) s =
    let r = act call s.lock (s.place i) in record { lock = r.0; place = update s.place i r.1 }

pub run : List (ℕ × Call) → System → System
run [] s = s
run (st ∷ sts) s = run sts (step st s)
