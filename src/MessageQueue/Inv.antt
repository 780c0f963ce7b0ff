-- ===== src/MessageQueue/Inv.antt =====
-- The representation invariant of `struct message_queue`.
use demo_skynet_server.Common.{
  ℕ, zero, suc, ◌+◌, ◌≤◌, ◌<◌, ◌≡◌, List, arith, length, replicate, length-append, length-set,
  length-replicate, ltb, ◌==◌, inl, inr, Bool-cases,
}
use demo_skynet_server.MessageQueue.{
  Message, MessageQueue, blank, create, mq_overload, raise_threshold, take_message, pop, copy_cells,
  expand_queue, write_tail, append,
}

-- The array has `cap` cells, both indices are inside it, and the threshold is not zero.
pub record IsValid (q : MessageQueue) : Type 0 where
  pub cells : length q.queue ≡ q.cap
  pub roomy : 2 ≤ q.cap
  pub head_in : q.head < q.cap
  pub tail_in : q.tail < q.cap
  pub threshold : 0 < q.overload_threshold

pub create-IsValid : (handle : ℕ) → IsValid (create handle)
unfolding create
create-IsValid handle = omega arith

length-copy_cells : (b : List Message) (cap head n i : ℕ) → length (copy_cells b cap head n i) ≡ n
unfolding copy_cells
length-copy_cells b cap head zero i = omega arith
length-copy_cells b cap head (suc n) i = omega (arith, length-copy_cells b cap head n (i + 1))

pub expand_queue-IsValid : {q : MessageQueue} → IsValid q → IsValid (expand_queue q)
unfolding expand_queue
expand_queue-IsValid {q} v = omega (
  arith,
  length-append (copy_cells q.queue q.cap q.head q.cap 0) (replicate q.cap blank),
  length-copy_cells q.queue q.cap q.head q.cap 0,
  length-replicate q.cap blank,
)

pub write_tail-IsValid : {q : MessageQueue} (m : Message) → IsValid q → IsValid (write_tail q m)
unfolding write_tail
write_tail-IsValid {q} m v = ground (arith, length-set q.queue q.tail m)

-- `skynet_mq_push` keeps the ring valid, also when it doubles the array.
pub append-IsValid : {q : MessageQueue} (m : Message) → IsValid q → IsValid (append q m)
unfolding append
append-IsValid {q} m v =
    let w = write_tail-IsValid m v in
    elim (Bool-cases ((write_tail q m).head == (write_tail q m).tail)) [
      | inl e ↦ rw e (expand_queue-IsValid w)
      | inr e ↦ rw e w
    ]

pub raise_threshold-IsValid :
    (fuel n : ℕ) {q : MessageQueue} → IsValid q → IsValid (raise_threshold fuel n q)
unfolding raise_threshold
raise_threshold-IsValid zero n v = v
raise_threshold-IsValid (suc fuel) n {q} v = elim (Bool-cases (ltb q.overload_threshold n)) [
  | inl e ↦ rw e (raise_threshold-IsValid fuel n (omega arith))
  | inr e ↦ rw e v
]

pub take_message-IsValid : {q : MessageQueue} → IsValid q → IsValid (take_message q).1
unfolding take_message
take_message-IsValid {q} v = raise_threshold-IsValid _ _ (ground arith)

-- `skynet_mq_pop` keeps the ring valid.
pub pop-IsValid : {q : MessageQueue} → IsValid q → IsValid (pop q).1
unfolding pop
pop-IsValid {q} v = elim (Bool-cases (q.head == q.tail)) [
  | inl e ↦ rw e (omega arith)
  | inr e ↦ rw e (take_message-IsValid v)
]

pub mq_overload-IsValid : {q : MessageQueue} → IsValid q → IsValid (mq_overload q).1
unfolding mq_overload
mq_overload-IsValid v = ground arith
