-- ===== src/Locks.antt =====
-- The locks of skynet-src/spinlock.h and skynet-src/rwlock.h, without USE_PTHREAD_LOCK. Each access to
-- the lock's fields is one step, threads take their steps in any order, and every thread sees the
-- writes in that order.
pub mod SpinLock
pub mod RwLock
