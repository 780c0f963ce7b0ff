-- ===== src/Locks/RwLock/Exclusion.antt =====
-- A writer is alone, and `read` never goes below zero.
use native.Mathlib.Decide.{ℕ_discrete, dec_lt}
use demo_skynet_server.Common.{
  sum, sum-update, sum-one, sum-two, sum-zero, sum_mono, ℕ, ◌+◌, ◌≤◌, ◌<◌, ◌≡◌, refl, sym, ap, ◌≢◌,
  ◌⊎◌, List, [], ◌∷◌, arith, All, inl, inr,
}
use demo_skynet_server.Locks.RwLock.{
  RwLock, Place, outside, awaits_writer, adds, tests, subtracts, reads, claims, awaits_readers,
  writes, Call, to_read, to_write, System, rwlock_init, act, step, run,
}

-- A place between the addition to `read` and the subtraction.
abbrev pub counted : Place → ℕ
counted tests = 1
counted subtracts = 1
counted reads = 1
counted _ = 0

-- A place where `write` is the thread's.
abbrev pub owning : Place → ℕ
owning awaits_readers = 1
owning writes = 1
owning _ = 0

abbrev pub reading : Place → ℕ
reading reads = 1
reading _ = 0

abbrev pub writing : Place → ℕ
writing writes = 1
writing _ = 0

-- The invariant for `n` threads.
pub record IsGuarded (n : ℕ) (s : System) : Type 0 where
  pub readers : s.lock.read ≡ sum counted n s.place
  pub owner : s.lock.write ≡ sum owning n s.place
  pub flag : s.lock.write ≤ 1
  pub alone : (sum writing n s.place ≡ 0) ⊎ (sum reading n s.place ≡ 0)

-- What one step of a thread at `p` keeps.
pub record Acted (lock : RwLock) (p : Place) (lock' : RwLock) (p' : Place) : Type 0 where
  pub reads_counted : lock'.read + counted p ≡ lock.read + counted p'
  pub owns : lock'.write + owning p ≡ lock.write + owning p'
  pub flag : lock'.write ≤ 1
  pub new_writer : writing p < writing p' → lock.read ≡ 0
  pub new_reader : reading p < reading p' → lock.write ≡ 0

act_lem :
    (call : Call) (lock : RwLock) (p : Place)
    → counted p ≤ lock.read
    → owning p ≤ lock.write
    → lock.write ≤ 1
    → Acted lock p (act call lock p).0 (act call lock p).1
unfolding act
act_lem to_read lock outside h k l = ground arith
act_lem to_write lock outside h k l = ground arith
act_lem call lock awaits_writer h k l = ground arith
act_lem call lock adds h k l = ground arith
act_lem call lock tests h k l = ground arith
act_lem call lock subtracts h k l = ground arith
act_lem call lock reads h k l = ground arith
act_lem call lock claims h k l = ground arith
act_lem call lock awaits_readers h k l = ground arith
act_lem call lock writes h k l = ground arith

reading-counted : (p : Place) → reading p ≤ counted p
reading-counted p = ground arith

writing-owning : (p : Place) → writing p ≤ owning p
writing-owning p = ground arith

one_kind : (p : Place) → reading p + writing p ≤ 1
one_kind p = ground arith

alone_lem :
    {lock : RwLock} {p : Place} {lock' : RwLock} {p' : Place}
    → Acted lock p lock' p'
    → (R W R' W' : ℕ) → R ≤ lock.read
    → W ≤ lock.write
    → R' + reading p ≡ R + reading p'
    → W' + writing p ≡ W + writing p'
    → ((W ≡ 0) ⊎ (R ≡ 0))
    → ((W' ≡ 0) ⊎ (R' ≡ 0))
alone_lem {lock} {p} {lock'} {p'} a R W R' W' few one r w alone =
    elim (dec_lt (writing p) (writing p')) [
      | yes enters ↦ inr (omega (arith, a.new_writer enters, one_kind p'))
      | no stays ↦ elim (dec_lt (reading p) (reading p')) [
        | yes enters ↦ inl (omega (arith, a.new_reader enters, one_kind p'))
        | no stays' ↦ elim alone [ inl z ↦ inl (omega arith) | inr z ↦ inr (omega arith) ]
      ]
    ]

module _ (n : ℕ) (i : ℕ) (call : Call) (s : System) (g : IsGuarded n s) (h : i < n) where
  abbrev r : RwLock × Place
  r = act call s.lock (s.place i)

  pub acted : Acted s.lock (s.place i) r.0 r.1
  acted =
      act_lem call s.lock (s.place i) (omega (arith, g.readers, sum-one counted n s.place i h))
        (omega (arith, g.owner, sum-one owning n s.place i h)) g.flag

  pub step-IsGuarded : IsGuarded n (step (i, call) s)
  unfolding step
  step-IsGuarded = record {
    readers = omega (arith, g.readers, acted.reads_counted, sum-update counted n s.place i r.1 h);
    owner = omega (arith, g.owner, acted.owns, sum-update owning n s.place i r.1 h);
    flag = acted.flag;
    alone =
        alone_lem acted (sum reading n s.place) (sum writing n s.place) _ _
          (omega (arith, g.readers, sum_mono reading counted n s.place reading-counted))
          (omega (arith, g.owner, sum_mono writing owning n s.place writing-owning))
          (sum-update reading n s.place i r.1 h) (sum-update writing n s.place i r.1 h) g.alone;
  }

run-IsGuarded :
    (n : ℕ) (sts : List (ℕ × Call)) (s : System)
    → All (λ st. st.0 < n) sts
    → IsGuarded n s
    → IsGuarded n (run sts s)
unfolding run
run-IsGuarded n [] s h g = g
run-IsGuarded n ((i, call) ∷ sts) s h g =
    run-IsGuarded n sts (step (i, call) s) h.1 (step-IsGuarded n i call s g h.0)

pub start-IsGuarded : (n : ℕ) → IsGuarded n rwlock_init
unfolding rwlock_init
start-IsGuarded n = record {
  readers = sym (sum-zero counted n outside refl);
  owner = sym (sum-zero owning n outside refl);
  flag = omega arith;
  alone = inl (sum-zero writing n outside refl);
}

pub reached-IsGuarded :
    (n : ℕ) (sts : List (ℕ × Call)) → All (λ st. st.0 < n) sts → IsGuarded n (run sts rwlock_init)
reached-IsGuarded n sts h = run-IsGuarded n sts rwlock_init h (start-IsGuarded n)

-- Whatever steps the threads take, in whatever order: while a thread writes no thread reads, and no
-- other thread writes.
pub rwlock_exclusion :
    (n : ℕ) (sts : List (ℕ × Call)) (i j : ℕ)
    → All (λ st. st.0 < n) sts
    → i < n
    → j < n
    → (run sts rwlock_init).place i ≡ writes
    → ((run sts rwlock_init).place j ≢ reads) × (((run sts rwlock_init).place j ≢ writes) ⊎ (i ≡ j))
rwlock_exclusion n sts i j h hi hj at_i =
    let s = run sts rwlock_init in
    let g = reached-IsGuarded n sts h in
    let own = ap writing at_i in
    (
      λ at_j. elim g.alone [
        | inl z ↦ omega (arith, sum-one writing n s.place i hi, own)
        | inr z ↦ omega (arith, sum-one reading n s.place j hj, ap reading at_j)
      ],
      elim (ℕ_discrete i j) [
        | yes e ↦ inr e
        | no ne ↦ inl (λ at_j. omega (
          arith,
          g.owner,
          g.flag,
          sum-two owning n s.place i j hi hj ne,
          ap owning at_i,
          ap owning at_j,
        ))
      ],
    )

-- Where a thread subtracts from `read` it is above zero: the counter never wraps round.
rwlock_counter :
    (n : ℕ) (sts : List (ℕ × Call)) (i : ℕ)
    → All (λ st. st.0 < n) sts
    → i < n
    → ((run sts rwlock_init).place i ≡ reads) ⊎ ((run sts rwlock_init).place i ≡ subtracts)
    → 0 < (run sts rwlock_init).lock.read
rwlock_counter n sts i h hi at =
    let s = run sts rwlock_init in
    let share : counted (s.place i) ≡ 1 = elim at [ inl e ↦ ap counted e | inr e ↦ ap counted e ] in
    omega (arith, (reached-IsGuarded n sts h).readers, sum-one counted n s.place i hi, share)
