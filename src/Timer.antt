-- ===== src/Timer.antt =====
-- skynet-src/skynet_timer.c: the timer wheel. Time is counted in ticks of a centisecond, modulo
-- 2^32. The linked lists of the wheel are lists, first node first. Each function runs under the
-- timer's lock, except where it says so.
pub mod Wheel
pub mod Pending
pub mod Shift
pub mod Tick
pub mod Fire
pub mod OnTime
mod Tests
use demo_skynet_server.Common.{
  ℕ, zero, suc, ◌+◌, ◌-◌, ◌*◌, ◌/◌, ◌%◌, ◌^◌, bit_and, bit_or, Bool, true, false, ◌&&◌, Option,
  none, some, List, [], ◌∷◌, ◌++◌, ◌==◌, ltb, if◌then◌else◌,
}

-- `struct timer_node`, with the `struct timer_event` behind it.
pub record Node : Type 0 where
  pub expire : ℕ
  pub handle : ℕ
  pub session : ℕ

-- `struct timer` without its lock and its clocks: the lists `near[i]`, and `t[level][i]`.
pub record Timer : Type 0 where
  pub near : ℕ → List Node
  pub t : ℕ → ℕ → List Node
  pub time : ℕ

abbrev pub time_near_mask : ℕ
time_near_mask = 0xff

abbrev pub time_level_mask : ℕ
time_level_mask = 0x3f

-- `timer_create_timer`
pub create_timer : Timer
create_timer = record { near = λ i. []; t = λ level i. []; time = 0 }

abbrev pub put_near : Timer → ℕ → List Node → Timer
put_near T i ns = record T { near = λ k. if k == i then ns else T.near k }

abbrev pub put_level : Timer → ℕ → ℕ → List Node → Timer
put_level T level i ns = record T { t = λ l k. if l == level && k == i then ns else T.t l k }

-- The loop of `add_node` that picks the level: `mask` starts at `TIME_NEAR << TIME_LEVEL_SHIFT`.
pub pick_level : ℕ → ℕ → ℕ → ℕ → ℕ → ℕ
pick_level zero expire now mask i = i
pick_level (suc n) expire now mask i =
    let further = pick_level n expire now (mask * 2 ^ 6 % 2 ^ 32) (i + 1) in
    if bit_or expire (mask - 1) == bit_or now (mask - 1) then i else further

-- `add_node`: the node goes to the end of its list.
pub add_node : Timer → Node → Timer
add_node T node =
    if bit_or node.expire time_near_mask == bit_or T.time time_near_mask
    then put_near T (bit_and node.expire time_near_mask)
        (T.near (bit_and node.expire time_near_mask) ++ node ∷ [])
    else let i = pick_level 3 node.expire T.time (2 ^ 14) 0 in
      let k = bit_and (node.expire / 2 ^ (8 + i * 6)) time_level_mask in
      put_level T i k (T.t i k ++ node ∷ [])

-- `timer_add`; a positive `time` is an `int`.
pub timer_add : Timer → ℕ → ℕ → ℕ → Timer
timer_add T handle session time =
    add_node T (record { expire = (time + T.time) % 2 ^ 32; handle = handle; session = session })

-- The loop of `move_list` over the nodes taken off their list.
pub add_nodes : Timer → List Node → Timer
add_nodes T [] = T
add_nodes T (node ∷ nodes) = add_nodes (add_node T node) nodes

-- `move_list`
pub move_list : Timer → ℕ → ℕ → Timer
move_list T level idx = add_nodes (put_level T level idx []) (T.t level idx)

-- The loop of `timer_shift`, with fuel: `none` if the fuel runs out. `ct` is the new time.
pub shift_levels : ℕ → Timer → ℕ → ℕ → ℕ → ℕ → Option Timer
shift_levels zero T ct mask time i = none
shift_levels (suc fuel) T ct mask time i =
    let further = shift_levels fuel T ct (mask * 2 ^ 6) (time / 2 ^ 6) (i + 1) in
    let idx = bit_and time time_level_mask in
    if bit_and ct (mask - 1) == 0
    then if idx == 0 then further else some (move_list T i idx)
    else some T

-- `timer_shift`. Four rounds are enough: see `timer_shift_total`.
pub timer_shift : Timer → Option Timer
timer_shift T =
    let ct = (T.time + 1) % 2 ^ 32 in
    let T' = record T { time = ct } in
    if ct == 0 then some (move_list T' 3 0) else shift_levels 4 T' ct (2 ^ 8) (ct / 2 ^ 8) 0

-- The loop of `timer_execute` on the list of the current tick, with fuel: `none` if the fuel runs
-- out. Each round takes the list off the wheel; its nodes are then dispatched, in order, without
-- the lock. Here no other thread adds a timer meanwhile.
pub execute_rounds : ℕ → Timer → ℕ → Option (List Node × Timer)
execute_rounds zero T idx = none
execute_rounds (suc fuel) T idx = elim (T.near idx) [
  | [] ↦ some ([], T)
  | node ∷ nodes ↦ elim (execute_rounds fuel (put_near T idx []) idx) [
    | none ↦ none
    | some (later, T') ↦ some ((node ∷ nodes) ++ later, T')
  ]
]

-- `timer_execute`: what is dispatched, in order. The second round finds the list empty.
pub timer_execute : Timer → Option (List Node × Timer)
timer_execute T = execute_rounds 2 T (bit_and T.time time_near_mask)

-- `timer_update`: what is dispatched, in order.
pub timer_update : Timer → Option (List Node × Timer)
timer_update T = elim (timer_execute T) [
  | none ↦ none
  | some (first, T1) ↦ elim (timer_shift T1) [
    | none ↦ none
    | some T2 ↦ elim (timer_execute T2) [
      | none ↦ none
      | some (second, T3) ↦ some (first ++ second, T3)
    ]
  ]
]

-- The loop of `skynet_updatetime` over `n` ticks: what each tick dispatches.
pub update_ticks : ℕ → Timer → Option (List (List Node) × Timer)
update_ticks zero T = some ([], T)
update_ticks (suc n) T = elim (timer_update T) [
  | none ↦ none
  | some (fired, T1) ↦ elim (update_ticks n T1) [
    | none ↦ none
    | some (later, T2) ↦ some (fired ∷ later, T2)
  ]
]

-- The clocks of `struct timer`, beside the wheel. `current` and `current_point` are 64 bits wide.
pub record Clock : Type 0 where
  pub wheel : Timer
  pub current : ℕ
  pub current_point : ℕ

-- `skynet_updatetime`, where the monotonic clock reads `cp`.
pub updatetime : ℕ → Clock → Option (List (List Node) × Clock)
updatetime cp c =
    let diff = (cp + 2 ^ 64 - c.current_point) % 2 ^ 32 in
    let ticked : Option (List (List Node) × Clock) = elim (update_ticks diff c.wheel) [
      | none ↦ none
      | some (fired, T) ↦
          some
            (fired, record { wheel = T; current = (c.current + diff) % 2 ^ 64; current_point = cp })
    ] in
    if ltb cp c.current_point
    then some ([], record c { current_point = cp })
    else if cp == c.current_point
    then some ([], c)
    else ticked
