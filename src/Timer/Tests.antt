-- ===== src/Timer/Tests.antt =====
-- Concrete runs of the timer wheel of skynet-src/skynet_timer.c.
use demo_skynet_server.Common.{
  ◌≤◌, ◌<◌, ◌⊎◌, ◌+◌, ◌-◌, ◌%◌, ◌^◌, ◌≡◌, refl, none, some, List, [], ◌∷◌, ◌++◌, arith, map,
  replicate, length, ◌==◌, if◌then◌else◌,
}
use demo_skynet_server.Timer.{
  Node, Timer, create_timer, add_node, pick_level, timer_execute, execute_rounds, shift_levels,
  timer_add, timer_shift, timer_update, update_ticks, Clock, updatetime,
}
use demo_skynet_server.Timer.Pending.{pending, count}
use demo_skynet_server.Timer.Shift.{Shifted}
use demo_skynet_server.Timer.Tick.{timer_shift_total}
use demo_skynet_server.Timer.Fire.{
  IsIdle, create_timer-IsIdle, timer_update_exact, timer_add-IsIdle,
}
use demo_skynet_server.Timer.OnTime.{fires_on_time, timer_add_fires, updatetime_total}

-- Two services' timeouts: in 2 ticks, on the near wheel, and in 300 ticks, on level 0.
abbrev soon : Node
soon = record { expire = 2; handle = 7; session = 1 }

abbrev late : Node
late = record { expire = 300; handle = 8; session = 1 }

abbrev one_set : Timer
one_set = timer_add create_timer 7 1 2

one_set-IsIdle : IsIdle one_set
one_set-IsIdle =
    (timer_add-IsIdle create_timer 7 1 2 create_timer-IsIdle (omega arith) (omega arith)).0

timer_add_fires_example :
    (fs : List (List Node)) × (T' : Timer) × (update_ticks 300 (timer_add one_set 8 1 300)
      ≡ some (fs, T'))
    × (map (count late) fs ≡ replicate 299 0 ++ (pending late one_set + 1) ∷ [])
    × IsIdle T'
    × (pending late T' ≡ 0)
unfolding create_timer timer_add add_node pick_level
timer_add_fires_example = timer_add_fires one_set 8 1 299 one_set-IsIdle (omega arith)

fires_on_time_example :
    (fs : List (List Node)) × (T' : Timer) × (update_ticks 2 one_set ≡ some (fs, T'))
    × (map (count soon) fs ≡ 0 ∷ pending soon one_set ∷ [])
    × IsIdle T'
    × (pending soon T' ≡ 0)
unfolding create_timer timer_add add_node pick_level
fires_on_time_example = fires_on_time 1 one_set soon one_set-IsIdle refl (omega arith)

timer_update_exact_example :
    (fired : List Node) × (T' : Timer) × (timer_update one_set ≡ some (fired, T'))
    × IsIdle T'
    × (T'.time ≡ (one_set.time + 1) % 2 ^ 32)
    × ((n : Node)
        → (count n fired ≡ (if n.expire == T'.time then pending n one_set else 0))
          × (pending n T' ≡ (if n.expire == T'.time then 0 else pending n one_set)))
timer_update_exact_example = timer_update_exact one_set one_set-IsIdle

timer_shift_total_example : (T' : Timer) × (timer_shift one_set ≡ some T') × Shifted one_set T'
timer_shift_total_example = timer_shift_total one_set one_set-IsIdle.valid one_set-IsIdle.done

-- The clock reads three ticks more than the last time.
abbrev clock : Clock
clock = record { wheel = one_set; current = 50; current_point = 1000 }

updatetime_total_example :
    (fs : List (List Node)) × (c' : Clock) × (updatetime 1003 clock ≡ some (fs, c'))
    × IsIdle c'.wheel
    × (c'.current_point ≡ 1003)
    × (((1003 ≤ 1000) × (fs ≡ []) × (c'.wheel ≡ one_set))
        ⊎ ((1000 < 1003) × (update_ticks (1003 - 1000) one_set ≡ some (fs, c'.wheel))))
    × (length fs ≡ 1003 - 1000)
    × (c'.wheel.time ≡ (one_set.time + (1003 - 1000)) % 2 ^ 32)
    × (c'.current ≡ (50 + (1003 - 1000)) % 2 ^ 64)
updatetime_total_example =
    updatetime_total 1003 clock one_set-IsIdle (omega arith) (omega arith) (omega arith)
      (omega arith)

-- The timeout in 2 ticks fires in the second tick.
two_ticks : elim (update_ticks 2 one_set) [ none ↦ [] | some r ↦ r.0 ] ≡ [] ∷ (soon ∷ []) ∷ []
unfolding create_timer timer_add add_node pick_level update_ticks timer_update timer_execute
    execute_rounds timer_shift shift_levels
two_ticks = refl
