-- ===== src/MessageQueue/Fifo.antt =====
-- The ring of `struct message_queue` as a first-in first-out queue without a bound.
use native.Mathlib.Nat.{mod-eq_of_lt, mod-add-mod, mod_self}
use demo_skynet_server.Common.{
  ℕ, zero, suc, ◌+◌, ◌-◌, ◌*◌, ◌%◌, ◌<◌, ◌≡◌, refl, sym, ap, ap₂, ◌∙◌, List, [], ◌∷◌, ◌++◌, none,
  some, true, false, ◌⊎◌, inl, inr, Bool-cases, ltb, leb, ◌==◌, if◌then◌else◌, arith, length,
  get_or, set, replicate, get_or-set_self, get_or-set_ne, length-append, append_assoc, subst,
}
use demo_skynet_server.MessageQueue.{
  Message, MessageQueue, blank, advance, span, mq_length, raise_threshold, take_message, pop,
  copy_cells, expand_queue, write_tail, append,
}
use demo_skynet_server.MessageQueue.Inv.{IsValid, write_tail-IsValid}

-- The `n` cells from index `h` on, going round at `cap`.
abbrev pub window : List Message → ℕ → ℕ → ℕ → List Message
window b cap h zero = []
window b cap h (suc n) = get_or b h blank ∷ window b cap (advance cap h) n

-- The waiting messages, oldest first.
abbrev pub contents : MessageQueue → List Message
contents q = window q.queue q.cap q.head (mq_length q)

length-window : (b : List Message) (cap h n : ℕ) → length (window b cap h n) ≡ n
length-window b cap h zero = refl
length-window b cap h (suc n) = ap suc (length-window b cap (advance cap h) n)

-- `skynet_mq_length` is the number of waiting messages.
pub mq_length-contents : (q : MessageQueue) → length (contents q) ≡ mq_length q
mq_length-contents q = length-window q.queue q.cap q.head (mq_length q)

-- The index `n` cells after `h`.
abbrev after : ℕ → ℕ → ℕ → ℕ
after cap h n = if ltb (h + n) cap then h + n else h + n - cap

-- A write just behind a window extends it.
window-set :
    (b : List Message) (cap : ℕ) (m : Message) (n h i : ℕ)
    → length b ≡ cap
    → h < cap
    → n < cap
    → i ≡ after cap h n
    → window (set b i m) cap h (suc n) ≡ window b cap h n ++ m ∷ []
window-set b cap m zero h i eb hh hn e =
    ap (λ x. x ∷ [])
      (let at : i ≡ h = ground arith in rw at (get_or-set_self b h m blank (omega arith)))
window-set b cap m (suc n) h i eb hh hn e =
    ap₂ ◌∷◌ (get_or-set_ne b i h m blank (ground arith))
      (window-set b cap m n (advance cap h) i eb (ground arith) (omega arith) (ground arith))

advance-mod : (room h x : ℕ) → h < room → h ≡ x % room → advance room h ≡ (x + 1) % room
advance-mod room h x hh e =
    let step = mod-add-mod x room 1 in
    elim (Bool-cases (leb room (h + 1))) [
      | inl t ↦ rw t (
          let full : h + 1 ≡ room = ground arith in
          omega (arith, step, mod_self room, ap (λ k. (k + 1) % room) e, ap (λ k. k % room) full))
      | inr t ↦ rw t (
          omega (
            arith,
            step,
            mod-eq_of_lt {n = h + 1} {m = room} (ground arith),
            ap (λ k. (k + 1) % room) e,
          ))
    ]

-- What `expand_queue` copies is the window of the whole ring.
copy_cells-window :
    (b : List Message) (cap head n i h : ℕ)
    → h < cap
    → h ≡ (head + i) % cap
    → copy_cells b cap head n i ≡ window b cap h n
unfolding copy_cells
copy_cells-window b cap head zero i h hh e = refl
copy_cells-window b cap head (suc n) i h hh e = ap₂ ◌∷◌ (ap (λ j. get_or b j blank) (sym e)) (
    copy_cells-window b cap head n (i + 1) (advance cap h) (ground arith)
      (advance-mod cap h (head + i) hh e ∙ ap (λ k. k % cap) (omega arith)))

get_or-append_at :
    (pre xs : List Message) (x : Message) (h : ℕ)
    → h ≡ length pre
    → get_or (pre ++ (x ∷ xs)) h blank ≡ x
get_or-append_at [] xs x h e = rw e
get_or-append_at (y ∷ pre) xs x h e = rw e (get_or-append_at pre xs x (length pre) refl)

-- A window that does not go round reads a block of the array.
window-block :
    (xs pre post : List Message) (cap h : ℕ)
    → h ≡ length pre
    → length pre + length xs < cap
    → window (pre ++ (xs ++ post)) cap h (length xs) ≡ xs
window-block [] pre post cap h e lt = refl
window-block (x ∷ xs) pre post cap h e lt = ap₂ ◌∷◌ (get_or-append_at pre (xs ++ post) x h e) (
    subst (λ b. window b cap (advance cap h) (length xs) ≡ xs)
      (append_assoc pre (x ∷ []) (xs ++ post))
      (window-block xs (pre ++ x ∷ []) post cap (advance cap h)
        (ground (arith, length-append pre (x ∷ []))) (omega (arith, length-append pre (x ∷ [])))))

-- The doubled array holds the whole old ring, from index 0 on.
contents-expand_queue :
    {q : MessageQueue} → IsValid q → contents (expand_queue q) ≡ window q.queue q.cap q.head q.cap
unfolding expand_queue mq_length
contents-expand_queue {q} v =
    rw
      (copy_cells-window q.queue q.cap q.head q.cap 0 q.head v.head_in
        (sym (mod-eq_of_lt (omega arith)) ∙ ap (λ k. k % q.cap) (omega arith)))
      (subst (λ n. window (ring ++ replicate q.cap blank) (q.cap * 2) 0 n ≡ ring) size
        (window-block ring [] (replicate q.cap blank) (q.cap * 2) 0 refl
          (omega (arith, ring_length))))
  where
    ring : List Message
    ring = window q.queue q.cap q.head q.cap

    ring_length : length ring ≡ q.cap
    ring_length = length-window q.queue q.cap q.head q.cap

    size : length ring ≡ span (q.cap * 2) 0 q.cap
    size = ground (arith, ring_length)

written-contents :
    {q : MessageQueue} (m : Message)
    → IsValid q
    → window (write_tail q m).queue q.cap q.head (suc (mq_length q)) ≡ contents q ++ m ∷ []
unfolding write_tail mq_length
written-contents {q} m v =
    window-set q.queue q.cap m (span q.cap q.head q.tail) q.head q.tail v.cells v.head_in
      (ground arith) (ground arith)

-- `skynet_mq_push` puts the message behind all that wait, also when it doubles the array.
pub append_refines :
    {q : MessageQueue} (m : Message) → IsValid q → contents (append q m) ≡ contents q ++ m ∷ []
unfolding append write_tail mq_length
append_refines {q} m v = elim (Bool-cases (q.head == advance q.cap q.tail)) [
  | inl e ↦ rw e (
      contents-expand_queue (write_tail-IsValid m v)
      ∙ subst (λ n. window b q.cap q.head n ≡ contents q ++ m ∷ []) (full e) (written-contents m v))
  | inr e ↦
      rw e (
        subst (λ n. window b q.cap q.head n ≡ contents q ++ m ∷ []) (more e) (written-contents m v))
]
  where
    b : List Message
    b = set q.queue q.tail m

    full : (q.head == advance q.cap q.tail) ≡ true → suc (span q.cap q.head q.tail) ≡ q.cap
    full e = ground arith

    more :
        (q.head == advance q.cap q.tail) ≡ false
        → suc (span q.cap q.head q.tail) ≡ span q.cap q.head (advance q.cap q.tail)
    more e = ground arith

contents-raise_threshold :
    (fuel n : ℕ) (q : MessageQueue) → contents (raise_threshold fuel n q) ≡ contents q
unfolding raise_threshold mq_length
contents-raise_threshold zero n q = refl
contents-raise_threshold (suc fuel) n q = elim (Bool-cases (ltb q.overload_threshold n)) [
  | inl e ↦ rw e (
      contents-raise_threshold fuel n
        (record q { overload = n; overload_threshold = q.overload_threshold * 2 }))
  | inr e ↦ rw e refl
]

-- `skynet_mq_pop` returns the oldest message and leaves the others, and returns none exactly when
-- none waits.
pub pop_refines :
    {q : MessageQueue}
    → IsValid q
    → ((contents q ≡ []) × ((pop q).0 ≡ none) × (contents (pop q).1 ≡ []))
      ⊎ ((m : Message) × (contents q ≡ m ∷ contents (pop q).1) × ((pop q).0 ≡ some m))
unfolding pop take_message mq_length
pop_refines {q} v = elim (Bool-cases (q.head == q.tail)) [
  | inl e ↦ rw e (inl (none_left e, refl, none_left e))
  | inr e ↦ rw e (
      inr (
        get_or q.queue q.head blank,
        ap (window q.queue q.cap q.head) (one_less e)
            ∙ ap (λ ms. get_or q.queue q.head blank ∷ ms)
                (sym
                  (contents-raise_threshold left left (record q { head = advance q.cap q.head }))),
        refl,
      ))
]
  where
    none_left :
        (q.head == q.tail) ≡ true → window q.queue q.cap q.head (span q.cap q.head q.tail) ≡ []
    none_left e =
        let zero_long : span q.cap q.head q.tail ≡ 0 = ground arith in
        ap (window q.queue q.cap q.head) zero_long

    left : ℕ
    left = span q.cap (advance q.cap q.head) q.tail

    one_less : (q.head == q.tail) ≡ false → span q.cap q.head q.tail ≡ suc left
    one_less e = ground arith

pub pop-none-mq_length : {q : MessageQueue} → IsValid q → (pop q).0 ≡ none → mq_length (pop q).1 ≡ 0
pop-none-mq_length {q} v ret = elim (pop_refines v) [
  | inl (e, r, e') ↦ sym (mq_length-contents (pop q).1) ∙ ap length e'
  | inr (m, e, r) ↦ absurd (let both : none ≡ some m = sym ret ∙ r in cc)
]
