-- ===== src/Locks/SpinLock/Tests.antt =====
-- Concrete steps of two threads at a spinlock of skynet-src/spinlock.h.
use demo_skynet_server.Common.{ℕ, ◌≡◌, refl, List, [], ◌∷◌, arith}
use demo_skynet_server.Locks.SpinLock.{spins, Call, locks, tries, spinlock_init, act, run}
use demo_skynet_server.Locks.SpinLock.Exclusion.{spinlock_exclusion}

-- 0 gets the lock while 1 spins and 2 tries in vain; 0 unlocks, and 1 gets it.
abbrev steps : List (ℕ × Call)
steps =
    (0, locks) ∷ (1, locks) ∷ (0, locks) ∷ (1, locks) ∷ (2, tries) ∷ (0, locks) ∷ (1, locks) ∷ []

spinlock_exclusion_example : ◌≡◌ {A = ℕ} 1 1
unfolding run act spinlock_init
spinlock_exclusion_example =
    spinlock_exclusion 3 steps 1 1 (omega arith) (omega arith) (omega arith) refl refl

waits : (run ((0, locks) ∷ (1, locks) ∷ (0, locks) ∷ (1, locks) ∷ []) spinlock_init).place 1 ≡ spins
unfolding run act spinlock_init
waits = refl
