-- ===== src/Locks/RwLock/Waiting.antt =====
-- A writer that waits for the readers is not kept waiting by new ones.
use demo_skynet_server.Common.{
  update_at, sum, sum-update, sum-one, ℕ, ◌≤◌, ◌<◌, ◌≡◌, refl, ap, ◌∙◌, List, arith, All, ◌⊎◌, inl,
  inr,
}
use native.Mathlib.Decide.{dec_lt, ℕ_discrete}
use demo_skynet_server.Locks.RwLock.{
  RwLock, Place, awaits_readers, writes, Call, rwlock_init, act, step, run,
}
use demo_skynet_server.Locks.RwLock.Exclusion.{counted, owning, reading, acted, reached-IsGuarded}

-- No step lets a further reader in.
writer_not_overtaken :
    (n : ℕ) (sts : List (ℕ × Call)) (i : ℕ) (st : ℕ × Call)
    → All (λ st. st.0 < n) sts
    → i < n
    → st.0 < n
    → (run sts rwlock_init).place i ≡ awaits_readers
    → sum reading n (step st (run sts rwlock_init)).place
      ≤ sum reading n (run sts rwlock_init).place
unfolding step
writer_not_overtaken n sts i (k, call) h hi hk at =
    let s = run sts rwlock_init in
    let g = reached-IsGuarded n sts h in
    let a = acted n k call s g hk in
    let moved = sum-update reading n s.place k (act call s.lock (s.place k)).1 hk in
    elim (dec_lt (reading (s.place k)) (reading (act call s.lock (s.place k)).1)) [
      | yes enters ↦
          absurd (
            omega
              (arith, a.new_reader enters, g.owner, sum-one owning n s.place i hi, ap owning at))
      | no stays ↦ omega (arith, moved)
    ]

enters_free :
    (call : Call) (lock : RwLock) → lock.read ≡ 0 → act call lock awaits_readers ≡ (lock, writes)
unfolding act
enters_free call lock e = rw e refl

writer_enters :
    (n : ℕ) (sts : List (ℕ × Call)) (i : ℕ) (call : Call)
    → All (λ st. st.0 < n) sts
    → i < n
    → (run sts rwlock_init).place i ≡ awaits_readers
    → sum counted n (run sts rwlock_init).place ≡ 0
    → (step (i, call) (run sts rwlock_init)).place i ≡ writes
unfolding step
writer_enters n sts i call h hi at none =
    let s = run sts rwlock_init in
    update_at s.place i _
    ∙ ap (λ (p : Place). (act call s.lock p).1) at
    ∙ ap (λ (r : RwLock × Place). r.1)
        (enters_free call s.lock ((reached-IsGuarded n sts h).readers ∙ none))

-- From the time a writer waits for the readers, whatever steps `n` threads took before: no step of
-- any thread adds a reader, and either some thread still counts in `read`, or the writer's own next
-- step lets it in.
pub writer_served :
    (n : ℕ) (sts : List (ℕ × Call)) (i : ℕ) (call : Call) (st : ℕ × Call)
    → All (λ st. st.0 < n) sts
    → i < n
    → st.0 < n
    → (run sts rwlock_init).place i ≡ awaits_readers
    → (sum reading n (step st (run sts rwlock_init)).place
        ≤ sum reading n (run sts rwlock_init).place)
      × ((0 < sum counted n (run sts rwlock_init).place)
          ⊎ ((step (i, call) (run sts rwlock_init)).place i ≡ writes))
writer_served n sts i call st h hi hk at = (
  writer_not_overtaken n sts i st h hi hk at,
  elim (ℕ_discrete (sum counted n (run sts rwlock_init).place) 0) [
    | yes none ↦ inr (writer_enters n sts i call h hi at none)
    | no some_one ↦ inl (omega arith)
  ],
)
