-- ===== src/Timer/OnTime.antt =====
-- Over any number of ticks: a timer fires at its tick, not before and not after.
use demo_skynet_server.Common.{
  ℕ, zero, suc, ◌+◌, ◌-◌, ◌%◌, ◌^◌, ◌≤◌, ◌<◌, ◌≡◌, refl, sym, ap, ap₂, ◌∙◌, ◌⊎◌, inl, inr,
  Bool-cases, some, List, [], ◌∷◌, ◌++◌, arith, map, replicate, length, ltb, ◌==◌, ==_iff, ==_refl,
  true, if_true, if_false, ltb→lt, ==_differ, not_ltb, ne_of_false,
}
use demo_skynet_server.Timer.{Node, Timer, timer_add, timer_update, update_ticks, Clock, updatetime}
use demo_skynet_server.Timer.Pending.{pending, count, node_eq}
use demo_skynet_server.Timer.Fire.{IsIdle, timer_update_exact, timer_add-IsIdle}

ticks_step :
    (k : ℕ) (T T1 T2 : Timer) (fired : List Node) (later : List (List Node))
    → timer_update T ≡ some (fired, T1)
    → update_ticks k T1 ≡ some (later, T2)
    → update_ticks (suc k) T ≡ some (fired ∷ later, T2)
unfolding update_ticks
ticks_step k T T1 T2 fired later e1 e2 = rw (e1, update_ticks) (rw (e2, update_ticks) refl)

ticks_none : (T : Timer) → update_ticks 0 T ≡ some ([], T)
unfolding update_ticks
ticks_none T = refl

-- A node whose time comes in `j + 1` ticks is not dispatched by the first `j` of them, is
-- dispatched by the last as often as it was on the wheel, and is then off the wheel.
pub fires_on_time :
    (j : ℕ) (T : Timer) (n : Node)
    → IsIdle T
    → n.expire ≡ (T.time + suc j) % 2 ^ 32
    → suc j < 2 ^ 32
    → (fs : List (List Node)) × (T' : Timer) × (update_ticks (suc j) T ≡ some (fs, T'))
      × (map (count n) fs ≡ replicate j 0 ++ pending n T ∷ [])
      × IsIdle T'
      × (pending n T' ≡ 0)
fires_on_time zero T n i e small =
    let (fired, T1, e1, i1, time1, exact) = timer_update_exact T i in
    let now = (==_iff n.expire T1.time).1 (omega (arith, e, time1)) in
    (
      fired ∷ [],
      T1,
      ticks_step 0 T T1 T1 fired [] e1 (ticks_none T1),
      ap (λ k. k ∷ []) ((exact n).0 ∙ if_true now (pending n T) 0),
      i1,
      (exact n).1 ∙ if_true now 0 (pending n T),
    )
fires_on_time (suc j) T n i e small =
    let (fired, T1, e1, i1, time1, exact) = timer_update_exact T i in
    let early = ==_differ n.expire T1.time (λ h. omega (arith, h, e, time1, i.valid.now)) in
    let (fs, T2, e2, counts, i2, off) =
      fires_on_time j T1 n i1 (omega (arith, e, time1, i.valid.now)) (omega arith) in
    (
      fired ∷ fs,
      T2,
      ticks_step (suc j) T T1 T2 fired fs e1 e2,
      ap₂ ◌∷◌ ((exact n).0 ∙ if_false early (pending n T) 0) (
          counts
          ∙ ap (λ k. replicate j 0 ++ k ∷ []) ((exact n).1 ∙ if_false early 0 (pending n T))),
      i2,
      off,
    )

node_eq_refl : (n : Node) → node_eq n n ≡ true
node_eq_refl n = rw (==_refl n.expire, ==_refl n.handle, ==_refl n.session) refl

count_self : (n : Node) → count n (n ∷ []) ≡ 1
count_self n = rw (node_eq_refl n) (omega arith)

-- A timeout of `time` ticks, set at an idle timer, fires at exactly the tick that is `time` ticks
-- later: once for each time that its node was on the wheel before, and once for the new timeout.
pub timer_add_fires :
    (T : Timer) (handle session t : ℕ)
    → IsIdle T
    → suc t < 2 ^ 31
    → let node : Node = record {
      expire = (suc t + T.time) % 2 ^ 32;
      handle = handle;
      session = session;
    } in
      (fs : List (List Node)) × (T' : Timer) × (update_ticks
          (suc t)
          (timer_add T handle session (suc t))
        ≡ some (fs, T'))
      × (map (count node) fs ≡ replicate t 0 ++ (pending node T + 1) ∷ [])
      × IsIdle T'
      × (pending node T' ≡ 0)
timer_add_fires T handle session t i small =
    let node : Node = record {
      expire = (suc t + T.time) % 2 ^ 32;
      handle = handle;
      session = session;
    } in
    let (i1, same, added) = timer_add-IsIdle T handle session (suc t) i (omega arith) small in
    let (fs, T', e, counts, i', off) =
      fires_on_time t (timer_add T handle session (suc t)) node i1 (omega (arith, same))
        (omega arith) in
    (
      fs,
      T',
      e,
      counts
          ∙ ap (λ k. replicate t 0 ++ k ∷ [])
              (added node ∙ ap (λ k. pending node T + k) (count_self node)),
      i',
      off,
    )

update_ticks_total :
    (k : ℕ) (T : Timer)
    → IsIdle T
    → (fs : List (List Node)) × (T' : Timer) × (update_ticks k T ≡ some (fs, T'))
      × IsIdle T'
      × (length fs ≡ k)
      × (T'.time ≡ (T.time + k) % 2 ^ 32)
update_ticks_total zero T i = ([], T, ticks_none T, i, refl, omega (arith, i.valid.now))
update_ticks_total (suc k) T i =
    let (fired, T1, e1, i1, time1, exact) = timer_update_exact T i in
    let (fs, T2, e2, i2, len, time2) = update_ticks_total k T1 i1 in
    (
      fired ∷ fs,
      T2,
      ticks_step k T T1 T2 fired fs e1 e2,
      i2,
      omega (arith, len),
      omega (arith, time1, time2),
    )

-- For a reading of the clock that is fewer than 2^32 ticks ahead of the last one, or behind it, on an
-- idle timer `skynet_updatetime` ends, with an idle timer that remembers the reading. A reading behind
-- the last one, or equal to it, fires nothing and leaves the whole wheel and `current` as they are;
-- one ahead runs timer_update as many times as it is ahead, and moves `current` by as many.
pub updatetime_total :
    (cp : ℕ) (c : Clock)
    → IsIdle c.wheel
    → cp < 2 ^ 64
    → c.current_point < 2 ^ 64
    → c.current < 2 ^ 64
    → cp < c.current_point + 2 ^ 32
    → (fs : List (List Node)) × (c' : Clock) × (updatetime cp c ≡ some (fs, c'))
      × IsIdle c'.wheel
      × (c'.current_point ≡ cp)
      × (((cp ≤ c.current_point) × (fs ≡ []) × (c'.wheel ≡ c.wheel))
          ⊎ ((c.current_point < cp)
              × (update_ticks (cp - c.current_point) c.wheel ≡ some (fs, c'.wheel))))
      × (length fs ≡ cp - c.current_point)
      × (c'.wheel.time ≡ (c.wheel.time + (cp - c.current_point)) % 2 ^ 32)
      × (c'.current ≡ (c.current + (cp - c.current_point)) % 2 ^ 64)
unfolding updatetime
updatetime_total cp c i h64 p64 small near = elim (Bool-cases (ltb cp c.current_point)) [
  | inl t ↦
      let back = ltb→lt cp c.current_point t in
      (
        [],
        record c { current_point = cp },
        if_true t _ _,
        i,
        refl,
        inl (omega arith, refl, refl),
        omega arith,
        omega (arith, i.valid.now),
        omega arith,
      )
  | inr t ↦ elim (Bool-cases (cp == c.current_point)) [
    | inl u ↦
        let same = (==_iff cp c.current_point).0 u in
        (
          [],
          c,
          if_false t _ _ ∙ if_true u _ _,
          i,
          sym same,
          inl (omega arith, refl, refl),
          omega arith,
          omega (arith, i.valid.now),
          omega arith,
        )
    | inr u ↦
        let ahead : c.current_point ≤ cp = not_ltb cp c.current_point t in
        let whole : (cp + 2 ^ 64 - c.current_point) % 2 ^ 32 ≡ cp - c.current_point = omega arith in
        let (fs, T, e, i', len, time') =
          update_ticks_total ((cp + 2 ^ 64 - c.current_point) % 2 ^ 32) c.wheel i in
        (
          fs,
          record {
            wheel = T;
            current = (c.current + (cp + 2 ^ 64 - c.current_point) % 2 ^ 32) % 2 ^ 64;
            current_point = cp;
          },
          if_false t _ _ ∙ if_false u _ _ ∙ rw e refl,
          i',
          refl,
          inr (
            omega (arith, ne_of_false cp c.current_point u),
            ap (λ k. update_ticks k c.wheel) (sym whole) ∙ e,
          ),
          omega (arith, len),
          omega (arith, time'),
          omega arith,
        )
  ]
]
