-- ===== src/Timer/Shift.antt =====
-- `timer_shift`: the time goes on by one tick, and the nodes whose turn comes move down.
use demo_skynet_server.Common.{
  ℕ, zero, suc, ◌+◌, ◌-◌, ◌*◌, ◌/◌, ◌%◌, ◌^◌, ◌<◌, bit_and, ◌≡◌, refl, sym, ◌∙◌, ◌≢◌, inl, inr,
  true, false, ◌&&◌, some, [], arith, ◌==◌, Bool-cases, ==_iff, if_true, if_false, ne_of_false, All,
  All-mono, bit_and-mask,
}
use demo_skynet_server.Timer.{Node, Timer, put_level, time_level_mask, move_list, shift_levels}
use demo_skynet_server.Timer.Wheel.{Fits, FitsNear, IsValid, IsAhead}
use demo_skynet_server.Timer.Pending.{pending, pending-time, add_nodes-Grown, pending-put_level}

-- The tick after `c` at which level `i` moves the list of its slot `idx`.
abbrev pub Rolls : ℕ → ℕ → ℕ → Type 0
Rolls zero c idx =
    ((c + 1) % 2 ^ 8 ≡ 0) × (idx ≡ (c + 1) / 2 ^ 8 % 64) × (idx ≢ 0) × (c + 1 < 2 ^ 32)
Rolls (suc zero) c idx =
    ((c + 1) % 2 ^ 14 ≡ 0) × (idx ≡ (c + 1) / 2 ^ 14 % 64) × (idx ≢ 0) × (c + 1 < 2 ^ 32)
Rolls (suc (suc zero)) c idx =
    ((c + 1) % 2 ^ 20 ≡ 0) × (idx ≡ (c + 1) / 2 ^ 20 % 64) × (idx ≢ 0) × (c + 1 < 2 ^ 32)
Rolls (suc (suc (suc zero))) c idx =
    ((c + 1) % 2 ^ 26 ≡ 0) × (idx ≡ (c + 1) / 2 ^ 26 % 64) × (c < 2 ^ 32)
Rolls (suc (suc (suc (suc i)))) c idx = ⊥

abbrev pub tick : ℕ → ℕ
tick c = (c + 1) % 2 ^ 32

-- A node that is not in the list which moves fits where it is at the next tick too.
refit : (i l idx k c e : ℕ) → Rolls i c idx → (l ≡ i → k ≢ idx) → Fits l k c e → Fits l k (tick c) e
refit zero zero idx k c e r ne f = let ne' = ne refl in omega arith
refit zero (suc zero) idx k c e r ne f = omega arith
refit zero (suc (suc zero)) idx k c e r ne f = omega arith
refit zero (suc (suc (suc zero))) idx k c e r ne f = omega arith
refit (suc zero) zero idx k c e r ne f = omega arith
refit (suc zero) (suc zero) idx k c e r ne f = let ne' = ne refl in omega arith
refit (suc zero) (suc (suc zero)) idx k c e r ne f = omega arith
refit (suc zero) (suc (suc (suc zero))) idx k c e r ne f = omega arith
refit (suc (suc zero)) zero idx k c e r ne f = omega arith
refit (suc (suc zero)) (suc zero) idx k c e r ne f = omega arith
refit (suc (suc zero)) (suc (suc zero)) idx k c e r ne f = let ne' = ne refl in omega arith
refit (suc (suc zero)) (suc (suc (suc zero))) idx k c e r ne f = omega arith
refit (suc (suc (suc zero))) zero idx k c e r ne f = omega arith
refit (suc (suc (suc zero))) (suc zero) idx k c e r ne f = omega arith
refit (suc (suc (suc zero))) (suc (suc zero)) idx k c e r ne f = omega arith
refit (suc (suc (suc zero))) (suc (suc (suc zero))) idx k c e r ne f =
    let ne' = ne refl in omega arith
refit i (suc (suc (suc (suc l)))) idx k c e r ne f = absurd f
refit (suc (suc (suc (suc i)))) l idx k c e r ne f = absurd r

-- A node of the list that moves is not past at the next tick.
moved_IsAhead : (i idx c e : ℕ) → c < 2 ^ 32 → Rolls i c idx → Fits i idx c e → IsAhead (tick c) e
moved_IsAhead zero idx c e lt r f = (omega arith, inl (omega arith))
moved_IsAhead (suc zero) idx c e lt r f = (omega arith, inl (omega arith))
moved_IsAhead (suc (suc zero)) idx c e lt r f = (omega arith, inl (omega arith))
moved_IsAhead (suc (suc (suc zero))) idx c e lt r f = (f.0, inl (omega arith))
moved_IsAhead (suc (suc (suc (suc i)))) idx c e lt r f = absurd r

-- Between the ticks that start a block of 256 nothing moves.
calm_fit : (l k c e : ℕ) → c < 2 ^ 32 → (c + 1) % 2 ^ 8 ≢ 0 → Fits l k c e → Fits l k (tick c) e
calm_fit zero k c e lt r f = omega arith
calm_fit (suc zero) k c e lt r f = omega arith
calm_fit (suc (suc zero)) k c e lt r f = omega arith
calm_fit (suc (suc (suc zero))) k c e lt r f = omega arith
calm_fit (suc (suc (suc (suc l)))) k c e lt r f = absurd f

Rolls-block : (i idx c : ℕ) → Rolls i c idx → (c + 1) % 2 ^ 8 ≡ 0
Rolls-block zero idx c r = omega arith
Rolls-block (suc zero) idx c r = omega arith
Rolls-block (suc (suc zero)) idx c r = omega arith
Rolls-block (suc (suc (suc zero))) idx c r = omega arith
Rolls-block (suc (suc (suc (suc i)))) idx c r = absurd r

not_both : (l i k idx : ℕ) → (l == i && k == idx) ≡ false → l ≡ i → k ≡ idx → ⊥
not_both l i k idx t el ek = ground arith

-- What is valid at `T`, whose current list is empty, read at the next tick.
abbrev pub ticked : Timer → Timer
ticked T = record T { time = tick T.time }

-- `T'` is `T` one tick later, with the same nodes, each in its place.
pub record Shifted (T T' : Timer) : Type 0 where
  pub valid : IsValid T'
  pub next_tick : T'.time ≡ tick T.time
  pub kept : (n : Node) → pending n T' ≡ pending n T

module _ (T : Timer) (v : IsValid T) (done : T.near (T.time % 2 ^ 8) ≡ []) where
  later_near :
      (k : ℕ) → All (λ (n : Node). FitsNear k T.time n.expire × (n.expire ≢ T.time)) (T.near k)
  later_near k = elim (Bool-cases (k == T.time % 2 ^ 8)) [
    | inl t ↦ rw ((==_iff k (T.time % 2 ^ 8)).0 t, done) tt
    | inr t ↦
        All-mono _ _ (λ n f. (f, λ e. omega (arith, ne_of_false k (T.time % 2 ^ 8) t, f, e)))
          (T.near k) (v.near_fit k)
  ]

  calm_IsValid : (T.time + 1) % 2 ^ 8 ≢ 0 → IsValid (ticked T)
  calm_IsValid r = record {
    now = omega arith;
    near_fit = λ k. All-mono _ _ (λ n f. omega arith) (T.near k) (later_near k);
    level_fit = λ l k.
        All-mono _ _ (λ n f. calm_fit l k T.time n.expire v.now r f) (T.t l k) (v.level_fit l k);
  }

  -- Without the list that moves the wheel is valid at the next tick.
  rolled_IsValid : (i idx : ℕ) → Rolls i T.time idx → IsValid (put_level (ticked T) i idx [])
  rolled_IsValid i idx r = record {
    now = omega arith;
    near_fit = λ k.
        All-mono _ _ (λ n f. absurd (omega (arith, Rolls-block i idx T.time r, f))) (T.near k)
          (later_near k);
    level_fit = λ l k. elim (Bool-cases (l == i && k == idx)) [
      | inl t ↦ rw t tt
      | inr t ↦ rw t (
          All-mono _ _
            (λ n f. refit i l idx k T.time n.expire r (λ el ek. not_both l i k idx t el ek) f)
            (T.t l k) (v.level_fit l k))
    ];
  }

  -- The list that moves at the next tick is taken down, and nothing else changes.
  pub moved :
      (i idx : ℕ) → i < 4 → idx < 64 → Rolls i T.time idx → Shifted T (move_list (ticked T) i idx)
  unfolding move_list
  moved i idx li lk r =
      let g = add_nodes-Grown (put_level (ticked T) i idx []) (T.t i idx) (rolled_IsValid i idx r) (
        All-mono _ _ (λ n f. moved_IsAhead i idx T.time n.expire v.now r f) (T.t i idx)
          (v.level_fit i idx)) in
      record {
        valid = g.valid;
        next_tick = g.same_time;
        kept = λ n. omega (
          arith,
          g.added n,
          pending-put_level n (ticked T) i idx [] li lk,
          pending-time n T (tick T.time),
        );
      }

  pub calm : (T.time + 1) % 2 ^ 8 ≢ 0 → Shifted T (ticked T)
  calm r = record {
    valid = calm_IsValid r;
    next_tick = refl;
    kept = λ n. pending-time n T (tick T.time);
  }

module _ (fuel : ℕ) (T : Timer) (ct mask time i : ℕ) where
  pub levels_stop :
      (bit_and ct (mask - 1) == 0) ≡ false → shift_levels (suc fuel) T ct mask time i ≡ some T
  unfolding shift_levels
  levels_stop a = if_false a _ _

  pub levels_move :
      (bit_and ct (mask - 1) == 0) ≡ true
      → (bit_and time time_level_mask == 0) ≡ false
      → shift_levels (suc fuel) T ct mask time i
        ≡ some (move_list T i (bit_and time time_level_mask))
  unfolding shift_levels
  levels_move a b = if_true a _ _ ∙ if_false b _ _

  pub levels_on :
      (bit_and ct (mask - 1) == 0) ≡ true
      → (bit_and time time_level_mask == 0) ≡ true
      → shift_levels (suc fuel) T ct mask time i
        ≡ shift_levels fuel T ct (mask * 2 ^ 6) (time / 2 ^ 6) (i + 1)
  unfolding shift_levels
  levels_on a b = if_true a _ _ ∙ if_true b _ _

pub masked_zero : (k x : ℕ) → (bit_and x (2 ^ k - 1) == 0) ≡ true → x % 2 ^ k ≡ 0
masked_zero k x t = sym (bit_and-mask k x) ∙ (==_iff (bit_and x (2 ^ k - 1)) 0).0 t

pub masked_nonzero : (k x : ℕ) → (bit_and x (2 ^ k - 1) == 0) ≡ false → x % 2 ^ k ≢ 0
masked_nonzero k x t e = ne_of_false (bit_and x (2 ^ k - 1)) 0 t (bit_and-mask k x ∙ e)
