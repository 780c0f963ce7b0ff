-- ===== src/Timer/Fire.antt =====
-- What the timer dispatches, and when.
use native.Mathlib.Decide.{dec_lt}
use demo_skynet_server.Common.{
  ℕ, zero, suc, ◌+◌, ◌-◌, ◌%◌, ◌^◌, ◌<◌, bit_and, ◌≡◌, refl, sym, ap, ◌∙◌, ◌≢◌, ◌⊎◌, inl, inr, true,
  some, List, [], ◌∷◌, append-nil, arith, ◌==◌, if◌then◌else◌, Bool-cases, ==_iff, ==_refl, if_true,
  if_ne, ne_of_false, All, All-mono, bit_and-mask,
}
use demo_skynet_server.Timer.{
  Node, Timer, create_timer, put_near, add_node, timer_add, execute_rounds, timer_execute,
  timer_shift, timer_update,
}
use demo_skynet_server.Timer.Wheel.{
  Fits, IsValid, IsAhead, add_node-Placed, add_node-IsValid, put_near-IsValid,
}
use demo_skynet_server.Timer.Pending.{
  pending, count, node_eq, pending-put_near, pending-add_node, time-add_node, pending-zero,
}
use demo_skynet_server.Timer.Tick.{timer_shift_total}

-- Between the calls of `timer_update`: nothing that is due is left on the wheel.
pub record IsIdle (T : Timer) : Type 0 where
  pub valid : IsValid T
  pub done : T.near (T.time % 2 ^ 8) ≡ []

pub create_timer-IsIdle : IsIdle create_timer
unfolding create_timer
create_timer-IsIdle = record {
  valid = record { now = omega arith; near_fit = λ k. tt; level_fit = λ i k. tt };
  done = refl;
}

-- What `timer_execute` does.
pub record Executed (T : Timer) (fired : List Node) (T' : Timer) : Type 0 where
  pub idle : IsIdle T'
  pub same_time : T'.time ≡ T.time
  pub due : All (λ (n : Node). n.expire ≡ T.time) fired
  pub taken : (n : Node) → pending n T ≡ count n fired + pending n T'

execute-empty :
    (f : ℕ) (T : Timer) (idx : ℕ) → T.near idx ≡ [] → execute_rounds (suc f) T idx ≡ some ([], T)
unfolding execute_rounds
execute-empty f T idx e = rw (e, execute_rounds) refl

execute_cases :
    (T : Timer) (idx : ℕ)
    → execute_rounds 2 T idx ≡ some (T.near idx, put_near T idx [])
      ⊎ (T.near idx ≡ []) × (execute_rounds 2 T idx ≡ some ([], T))
unfolding execute_rounds
execute_cases T idx = by_list (T.near idx) refl
  where
    by_list :
        (ns : List Node)
        → T.near idx ≡ ns
        → execute_rounds 2 T idx ≡ some (T.near idx, put_near T idx [])
          ⊎ (T.near idx ≡ []) × (execute_rounds 2 T idx ≡ some ([], T))
    by_list [] e = inr (e, execute-empty 1 T idx e)
    by_list (n ∷ ns) e =
        let cleared =
          execute-empty 0 (put_near T idx []) idx (if_true (==_refl idx) [] (T.near idx)) in
        inl (
          rw (e, execute_rounds)
            (rw cleared (ap (λ ms. some (ms, put_near T idx [])) (append-nil (n ∷ ns)))))

timer_execute_lem :
    (T : Timer)
    → IsValid T
    → (fired : List Node) × (T' : Timer) × (timer_execute T ≡ some (fired, T'))
      × Executed T fired T'
unfolding timer_execute
timer_execute_lem T v = elim (execute_cases T (bit_and T.time (2 ^ 8 - 1))) [
  | inl e ↦ (
    _,
    _,
    e,
    record {
      idle = record {
        valid = put_near-IsValid T (bit_and T.time (2 ^ 8 - 1)) [] v tt;
        done = if_true ((==_iff _ _).1 (sym (bit_and-mask 8 T.time))) [] (T.near (T.time % 2 ^ 8));
      };
      same_time = refl;
      due =
          All-mono _ _ (λ n f. omega (arith, bit_and-mask 8 T.time, f))
            (T.near (bit_and T.time (2 ^ 8 - 1))) (v.near_fit (bit_and T.time (2 ^ 8 - 1)));
      taken = λ n. omega (
        arith,
        pending-put_near n T (bit_and T.time (2 ^ 8 - 1)) [] (omega (arith, bit_and-mask 8 T.time)),
      );
    },
  )
  | inr (empty, e) ↦ (
    [],
    T,
    e,
    record {
      idle = record { valid = v; done = ap T.near (sym (bit_and-mask 8 T.time)) ∙ empty };
      same_time = refl;
      due = tt;
      taken = λ n. omega arith;
    },
  )
]

node_eq-expire : (n m : Node) → node_eq n m ≡ true → m.expire ≡ n.expire
node_eq-expire n m t = ground arith

pub count-zero :
    (n : Node) (ns : List Node) → All (λ (m : Node). m.expire ≢ n.expire) ns → count n ns ≡ 0
count-zero n [] a = refl
count-zero n (m ∷ ms) a = elim (Bool-cases (node_eq n m)) [
  | inl t ↦ absurd (a.0 (node_eq-expire n m t))
  | inr t ↦ rw t (omega (arith, count-zero n ms a.1))
]

Fits-later : (l k c e : ℕ) → Fits l k c e → e ≢ c
Fits-later zero k c e f = omega arith
Fits-later (suc zero) k c e f = omega arith
Fits-later (suc (suc zero)) k c e f = omega arith
Fits-later (suc (suc (suc zero))) k c e f = omega arith
Fits-later (suc (suc (suc (suc l)))) k c e f = absurd f

-- What is due at an idle timer is not on the wheel.
idle-pending : (n : Node) (T : Timer) → IsIdle T → n.expire ≡ T.time → pending n T ≡ 0
idle-pending n T i e =
    pending-zero n T
      (λ k. elim (Bool-cases (k == T.time % 2 ^ 8)) [
        | inl t ↦ ap (count n) (ap T.near ((==_iff k (T.time % 2 ^ 8)).0 t) ∙ i.done)
        | inr t ↦ count-zero n (T.near k) (
            All-mono _ _ (λ m f. omega (arith, ne_of_false k (T.time % 2 ^ 8) t, f, e)) (T.near k)
              (i.valid.near_fit k))
      ])
      (λ l k. count-zero n (T.t l k) (
        All-mono _ _ (λ m f h. Fits-later l k T.time m.expire f (h ∙ e)) (T.t l k)
          (i.valid.level_fit l k)))

execute-idle : (T : Timer) → IsIdle T → timer_execute T ≡ some ([], T)
unfolding timer_execute
execute-idle T i =
    execute-empty 1 T (bit_and T.time (2 ^ 8 - 1)) (ap T.near (bit_and-mask 8 T.time) ∙ i.done)

update_parts :
    (T T2 T3 : Timer) (fired : List Node)
    → timer_execute T ≡ some ([], T)
    → timer_shift T ≡ some T2
    → timer_execute T2 ≡ some (fired, T3)
    → timer_update T ≡ some (fired, T3)
unfolding timer_update
update_parts T T2 T3 fired e1 e2 e3 =
    rw (e1, timer_update) (rw (e2, timer_update) (rw (e3, timer_update) refl))

-- Started between two calls, `timer_update` ends. The time goes on by one tick modulo 2^32. Each
-- node that expires exactly then is dispatched as often as it was on the wheel, and is off it; every
-- other node is not dispatched and stays on the wheel as often as it was; and the timer is ready
-- for the next call.
pub timer_update_exact :
    (T : Timer)
    → IsIdle T
    → (fired : List Node) × (T' : Timer) × (timer_update T ≡ some (fired, T'))
      × IsIdle T'
      × (T'.time ≡ (T.time + 1) % 2 ^ 32)
      × ((n : Node)
          → (count n fired ≡ (if n.expire == T'.time then pending n T else 0))
            × (pending n T' ≡ (if n.expire == T'.time then 0 else pending n T)))
timer_update_exact T i =
    let (T2, e2, s) = timer_shift_total T i.valid i.done in
    let (fired, T3, e3, x) = timer_execute_lem T2 s.valid in
    (
      fired,
      T3,
      update_parts T T2 T3 fired (execute-idle T i) e2 e3,
      x.idle,
      x.same_time ∙ s.next_tick,
      λ n. elim (Bool-cases (n.expire == T3.time)) [
        | inl t ↦
            let off = idle-pending n T3 x.idle ((==_iff n.expire T3.time).0 t) in
            rw t (omega (arith, x.taken n, s.kept n, off), off)
        | inr t ↦
            let unfired = count-zero n fired (
              All-mono _ _ (λ m d h. ne_of_false n.expire T3.time t (sym h ∙ d ∙ sym x.same_time))
                fired x.due) in
            rw t (unfired, omega (arith, x.taken n, s.kept n, unfired))
      ],
    )

-- `timer_add` keeps an idle timer idle, and puts the new node on the wheel once.
pub timer_add-IsIdle :
    (T : Timer) (handle session time : ℕ)
    → IsIdle T
    → 0 < time
    → time < 2 ^ 31
    → let node : Node = record {
      expire = (time + T.time) % 2 ^ 32;
      handle = handle;
      session = session;
    } in
      IsIdle (timer_add T handle session time)
      × ((timer_add T handle session time).time ≡ T.time)
      × ((n : Node)
          → pending n (timer_add T handle session time) ≡ pending n T + count n (node ∷ []))
unfolding timer_add
timer_add-IsIdle T handle session time i pos small = (
  record {
    valid = add_node-IsValid T node i.valid ahead;
    done = ap (add_node T node).near (ap (λ c. c % 2 ^ 8) same) ∙ still_done;
  },
  same,
  λ n. pending-add_node n T node i.valid.now ahead,
)
  where
    node : Node
    node = record { expire = (time + T.time) % 2 ^ 32; handle = handle; session = session }

    ahead : IsAhead T.time node.expire
    ahead = elim (dec_lt (time + T.time) (2 ^ 32)) [
      | yes fits ↦ (omega arith, inl (omega arith))
      | no wraps ↦ (omega arith, inr (omega (arith, i.valid.now)))
    ]

    same : (add_node T node).time ≡ T.time
    same = time-add_node T node i.valid.now ahead

    still_done : (add_node T node).near (T.time % 2 ^ 8) ≡ []
    still_done = elim (add_node-Placed T node i.valid.now ahead) [
      | inl (fits, e) ↦
          ap (λ (x : Timer). x.near (T.time % 2 ^ 8)) e
          ∙ if_ne (T.time % 2 ^ 8) (node.expire % 2 ^ 8) (λ h. omega (arith, h, fits, i.valid.now))
              _ _
          ∙ i.done
      | inr (l, k, fits, li, lk, e) ↦ ap (λ (x : Timer). x.near (T.time % 2 ^ 8)) e ∙ i.done
    ]
