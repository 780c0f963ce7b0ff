-- ===== src/Timer/Pending.antt =====
-- How often a node is on the timer wheel, and that moving nodes about does not change it.
use native.Mathlib.Decide.{ℕ_discrete}
use demo_skynet_server.Common.{
  ℕ, zero, suc, ◌+◌, ◌%◌, ◌^◌, ◌<◌, ◌≡◌, refl, sym, ap, ap₂, ◌∙◌, ◌≢◌, inl, inr, Bool, ◌&&◌, List,
  [], ◌∷◌, ◌++◌, arith, ◌==◌, if◌then◌else◌, Bool-cases, ==_iff, ==_refl, if_true, if_ne, All,
  subst,
}
use demo_skynet_server.Timer.{Node, Timer, put_near, put_level, add_node, add_nodes}
use demo_skynet_server.Timer.Wheel.{IsValid, IsAhead, add_node-Placed, add_node-IsValid}

pub sum_below : ℕ → (ℕ → ℕ) → ℕ
sum_below zero f = 0
sum_below (suc m) f = sum_below m f + f m

sum_below-same :
    (m : ℕ) (f g : ℕ → ℕ) → ((k : ℕ) → k < m → g k ≡ f k) → sum_below m g ≡ sum_below m f
unfolding sum_below
sum_below-same zero f g h = refl
sum_below-same (suc m) f g h =
    ap₂ ◌+◌ (sum_below-same m f g (λ k lt. h k (omega arith))) (h m (omega arith))

-- A change at one index changes the sum by as much.
sum_below-change :
    (m : ℕ) (f g : ℕ → ℕ) (i : ℕ)
    → i < m
    → ((k : ℕ) → k ≢ i → g k ≡ f k)
    → sum_below m g + f i ≡ sum_below m f + g i
unfolding sum_below
sum_below-change zero f g i lt h = absurd (omega arith)
sum_below-change (suc m) f g i lt h = elim (ℕ_discrete i m) [
  | yes e ↦
      omega
        (arith, sum_below-same m f g (λ k lt'. h k (λ e'. omega (arith, e, e'))), ap f e, ap g e)
  | no ne ↦ omega (arith, sum_below-change m f g i (omega arith) h, h m (λ e. ne (sym e)))
]

pub sum_below-zero : (m : ℕ) (f : ℕ → ℕ) → ((k : ℕ) → f k ≡ 0) → sum_below m f ≡ 0
unfolding sum_below
sum_below-zero zero f h = refl
sum_below-zero (suc m) f h = omega (arith, sum_below-zero m f h, h m)

abbrev pub node_eq : Node → Node → Bool
node_eq a b = a.expire == b.expire && (a.handle == b.handle && a.session == b.session)

abbrev pub count : Node → List Node → ℕ
count n [] = 0
count n (x ∷ xs) = (if node_eq n x then 1 else 0) + count n xs

-- On how many places of the wheel a node is.
pub pending : Node → Timer → ℕ
pending n T =
    sum_below 256 (λ k. count n (T.near k))
    + sum_below 4 (λ i. sum_below 64 (λ k. count n (T.t i k)))

pub count-append : (n : Node) (xs ys : List Node) → count n (xs ++ ys) ≡ count n xs + count n ys
count-append n [] ys = omega arith
count-append n (x ∷ xs) ys = omega (arith, count-append n xs ys)

pub pending-put_near :
    (n : Node) (T : Timer) (i : ℕ) (ns : List Node)
    → i < 256
    → pending n (put_near T i ns) + count n (T.near i) ≡ pending n T + count n ns
unfolding pending
pending-put_near n T i ns lt =
    omega (arith, changed, ap (count n) (if_true (==_refl i) ns (T.near i)))
  where
    changed :
        sum_below 256 (λ k. count n (if k == i then ns else T.near k)) + count n (T.near i)
        ≡ sum_below 256 (λ k. count n (T.near k)) + count n (if i == i then ns else T.near i)
    changed =
        sum_below-change 256 (λ k. count n (T.near k))
          (λ k. count n (if k == i then ns else T.near k)) i lt
          (λ k ne. ap (count n) (if_ne k i ne ns (T.near k)))

pub pending-put_level :
    (n : Node) (T : Timer) (i j : ℕ) (ns : List Node)
    → i < 4
    → j < 64
    → pending n (put_level T i j ns) + count n (T.t i j) ≡ pending n T + count n ns
unfolding pending
pending-put_level n T i j ns li lj = omega (arith, outer, inner, here)
  where
    new : ℕ → ℕ → ℕ
    new l k = count n (if l == i && k == j then ns else T.t l k)

    off_level : (l k : ℕ) → l ≢ i → (if l == i && k == j then ns else T.t l k) ≡ T.t l k
    off_level l k ne = elim (Bool-cases (l == i)) [
      | inl t ↦ absurd (ne ((==_iff l i).0 t))
      | inr t ↦ rw t refl
    ]

    outer :
        sum_below 4 (λ l. sum_below 64 (new l)) + sum_below 64 (λ k. count n (T.t i k))
        ≡ sum_below 4 (λ l. sum_below 64 (λ k. count n (T.t l k))) + sum_below 64 (new i)
    outer =
        sum_below-change 4 (λ l. sum_below 64 (λ k. count n (T.t l k))) (λ l. sum_below 64 (new l))
          i li
          (λ l ne.
            sum_below-same 64 (λ k. count n (T.t l k)) (new l)
              (λ k lt. ap (count n) (off_level l k ne)))

    off_slot : (k : ℕ) → k ≢ j → (if i == i && k == j then ns else T.t i k) ≡ T.t i k
    off_slot k ne = elim (Bool-cases (k == j)) [
      | inl t ↦ absurd (ne ((==_iff k j).0 t))
      | inr t ↦ rw (==_refl i, t) refl
    ]

    inner :
        sum_below 64 (new i) + count n (T.t i j) ≡ sum_below 64 (λ k. count n (T.t i k)) + new i j
    inner =
        sum_below-change 64 (λ k. count n (T.t i k)) (new i) j lj
          (λ k ne. ap (count n) (off_slot k ne))

    here : new i j ≡ count n ns
    here = rw (==_refl i, ==_refl j) refl

-- `add_node` adds its node once, and leaves the time alone.
pub pending-add_node :
    (n : Node) (T : Timer) (m : Node)
    → T.time < 2 ^ 32
    → IsAhead T.time m.expire
    → pending n (add_node T m) ≡ pending n T + count n (m ∷ [])
pending-add_node n T m now ahead = elim (add_node-Placed T m now ahead) [
  | inl (fits, e) ↦ omega (
    arith,
    ap (pending n) e,
    pending-put_near n T (m.expire % 2 ^ 8) (T.near (m.expire % 2 ^ 8) ++ m ∷ []) (omega arith),
    count-append n (T.near (m.expire % 2 ^ 8)) (m ∷ []),
  )
  | inr (i, k, fits, li, lk, e) ↦ omega (
    arith,
    ap (pending n) e,
    pending-put_level n T i k (T.t i k ++ m ∷ []) li lk,
    count-append n (T.t i k) (m ∷ []),
  )
]

pub time-add_node :
    (T : Timer) (m : Node)
    → T.time < 2 ^ 32
    → IsAhead T.time m.expire
    → (add_node T m).time ≡ T.time
time-add_node T m now ahead = elim (add_node-Placed T m now ahead) [
  | inl (fits, e) ↦ ap (λ (x : Timer). x.time) e
  | inr (i, k, fits, li, lk, e) ↦ ap (λ (x : Timer). x.time) e
]

-- What adding the nodes `ns` to `T` makes of it.
pub record Grown (T : Timer) (ns : List Node) (T' : Timer) : Type 0 where
  pub valid : IsValid T'
  pub same_time : T'.time ≡ T.time
  pub added : (n : Node) → pending n T' ≡ pending n T + count n ns

pub add_nodes-Grown :
    (T : Timer) (ns : List Node)
    → IsValid T
    → All (λ (m : Node). IsAhead T.time m.expire) ns
    → Grown T ns (add_nodes T ns)
unfolding add_nodes
add_nodes-Grown T [] v a = record { valid = v; same_time = refl; added = λ n. omega arith }
add_nodes-Grown T (m ∷ ms) v a =
    let same = time-add_node T m v.now a.0 in
    let g =
      add_nodes-Grown (add_node T m) ms (add_node-IsValid T m v a.0)
        (subst (λ c. All (λ (x : Node). IsAhead c x.expire) ms) (sym same) a.1) in
    record {
      valid = g.valid;
      same_time = g.same_time ∙ same;
      added = λ n. omega (arith, g.added n, pending-add_node n T m v.now a.0);
    }

pub pending-time : (n : Node) (T : Timer) (c : ℕ) → pending n (record T { time = c }) ≡ pending n T
unfolding pending
pending-time n T c = refl

pub pending-zero :
    (n : Node) (T : Timer)
    → ((k : ℕ) → count n (T.near k) ≡ 0)
    → ((i k : ℕ) → count n (T.t i k) ≡ 0)
    → pending n T ≡ 0
unfolding pending
pending-zero n T near levels =
    ap₂ ◌+◌ (sum_below-zero 256 _ near)
      (sum_below-zero 4 _ (λ i. sum_below-zero 64 (λ k. count n (T.t i k)) (levels i)))
    ∙ omega arith
