-- ===== src/Locks/RwLock/Tests.antt =====
-- Concrete steps of three threads at the lock of skynet-src/rwlock.h.
use demo_skynet_server.Common.{sum, ℕ, ◌≤◌, ◌<◌, ◌≡◌, ◌≢◌, ◌⊎◌, refl, List, [], ◌∷◌, ◌++◌, arith}
use demo_skynet_server.Locks.RwLock.{
  reads, writes, Call, to_read, to_write, rwlock_init, act, step, run,
}
use demo_skynet_server.Locks.RwLock.Exclusion.{reading, counted, rwlock_exclusion}
use demo_skynet_server.Locks.RwLock.Waiting.{writer_served}

abbrev reader_in : List (ℕ × Call)
reader_in = (0, to_read) ∷ (0, to_read) ∷ (0, to_read) ∷ (0, to_read) ∷ []

-- A writer comes while 0 reads.
abbrev writer_waits : List (ℕ × Call)
writer_waits = reader_in ++ (1, to_write) ∷ (1, to_write) ∷ (1, to_write) ∷ []

-- A second reader, 2, is past its inner loop when the writer comes.
abbrev late_reader : List (ℕ × Call)
late_reader =
    (2, to_read)
    ∷ (2, to_read)
    ∷ (1, to_write)
    ∷ (1, to_write)
    ∷ (1, to_write)
    ∷ (2, to_read)
    ∷ (2, to_read)
    ∷ []

rwlock_exclusion_example :
    ((run late_reader rwlock_init).place 2 ≢ reads)
    × (((run late_reader rwlock_init).place 2 ≢ writes) ⊎ (◌≡◌ {A = ℕ} 1 2))
unfolding run step act rwlock_init
rwlock_exclusion_example =
    rwlock_exclusion 3 late_reader 1 2 (omega arith) (omega arith) (omega arith) refl

abbrev reader_out : List (ℕ × Call)
reader_out = writer_waits ++ (0, to_read) ∷ []

writer_served_example :
    (sum reading 3 (step (2, to_read) (run reader_out rwlock_init)).place
      ≤ sum reading 3 (run reader_out rwlock_init).place)
    × ((0 < sum counted 3 (run reader_out rwlock_init).place)
        ⊎ ((step (1, to_write) (run reader_out rwlock_init)).place 1 ≡ writes))
unfolding run step act rwlock_init
writer_served_example =
    writer_served 3 reader_out 1 to_write (2, to_read) (omega arith) (omega arith) (omega arith)
      refl
