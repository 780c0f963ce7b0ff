-- ===== src/MessageQueue/Frame.antt =====
-- What the operations on one message queue leave alone.
use demo_skynet_server.Common.{
  ℕ, zero, suc, ◌*◌, ◌≡◌, refl, inl, inr, true, false, none, some, arith, ltb, ◌==◌, Bool-cases,
}
use demo_skynet_server.MessageQueue.{
  Message, MessageQueue, mq_length, raise_threshold, take_message, pop, advance, span, write_tail,
  expand_queue, append, create,
}
use demo_skynet_server.MessageQueue.Inv.{IsValid}

pub record Kept (q r : MessageQueue) : Type 0 where
  pub next : r.next ≡ q.next
  pub release : r.release ≡ q.release
  pub handle : r.handle ≡ q.handle

raise_threshold-Kept :
    (f n : ℕ) (q : MessageQueue)
    → Kept q (raise_threshold f n q) × ((raise_threshold f n q).in_global ≡ q.in_global)
unfolding raise_threshold
raise_threshold-Kept zero n q = ground arith
raise_threshold-Kept (suc f) n q = elim (Bool-cases (ltb q.overload_threshold n)) [
  | inl e ↦ rw e (
      ground (
        arith,
        raise_threshold-Kept f n
            (record q { overload = n; overload_threshold = q.overload_threshold * 2 }),
      ))
  | inr e ↦ rw e (ground arith)
]

take_message-Kept :
    (q : MessageQueue) → Kept q (take_message q).1 × ((take_message q).1.in_global ≡ q.in_global)
unfolding take_message
take_message-Kept q =
    let kept = raise_threshold-Kept left left (record q { head = advance q.cap q.head }) in
    (record { next = kept.0.next; release = kept.0.release; handle = kept.0.handle }, kept.1)
  where
    left : ℕ
    left = span q.cap (advance q.cap q.head) q.tail

pub pop-Kept : (q : MessageQueue) → Kept q (pop q).1
unfolding pop
pop-Kept q = elim (Bool-cases (q.head == q.tail)) [
  | inl e ↦ rw e (ground arith)
  | inr e ↦ rw e (take_message-Kept q).0
]

-- A pop that finds a message keeps the mark of the global queue; one that finds none clears it.
pub in_global-pop-some :
    (q : MessageQueue) (m : Message) → (pop q).0 ≡ some m → (pop q).1.in_global ≡ q.in_global
unfolding pop
in_global-pop-some q m h = elim (Bool-cases (q.head == q.tail)) [
  | inl e ↦ (let no_message : none ≡ some m = rw e at h in cc)
  | inr e ↦ rw e (take_message-Kept q).1
]

pub in_global-pop-none : (q : MessageQueue) → (pop q).0 ≡ none → (pop q).1.in_global ≡ false
unfolding pop
in_global-pop-none q h = ground arith

pub append-Kept :
    (q : MessageQueue) (m : Message) → Kept q (append q m) × ((append q m).in_global ≡ q.in_global)
unfolding append write_tail expand_queue
append-Kept q m = ground arith

-- The ring of a queue whose other fields change.
pub record SameRing (q r : MessageQueue) : Type 0 where
  pub cap : r.cap ≡ q.cap
  pub head : r.head ≡ q.head
  pub tail : r.tail ≡ q.tail
  pub queue : r.queue ≡ q.queue
  pub overload_threshold : r.overload_threshold ≡ q.overload_threshold

pub SameRing-IsValid : {q r : MessageQueue} → SameRing q r → IsValid q → IsValid r
SameRing-IsValid s v = ground arith

pub SameRing-mq_length : {q r : MessageQueue} → SameRing q r → mq_length r ≡ mq_length q
unfolding mq_length
SameRing-mq_length s = ground arith

pub SameRing-of_body :
    {q r : MessageQueue} → record q { next = none } ≡ record r { next = none } → SameRing q r
SameRing-of_body e = ground arith

pub mq_length-create : (handle : ℕ) → mq_length (create handle) ≡ 0
unfolding create mq_length
mq_length-create handle = refl

pub create_flags :
    (handle : ℕ)
    → ((create handle).in_global ≡ true)
      × ((create handle).release ≡ false)
      × ((create handle).next ≡ none)
unfolding create
create_flags handle = (refl, refl, refl)
