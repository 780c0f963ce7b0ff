-- ===== src/MessageQueue/Overload.antt =====
-- The overload mark of a message queue: `skynet_mq_pop` notes a queue that has outgrown its
-- threshold, and `skynet_mq_overload` reports it.
use native.Mathlib.Decide.{ℕ_discrete}
use demo_skynet_server.Common.{
  ℕ, zero, suc, ◌+◌, ◌*◌, ◌≤◌, ◌<◌, ◌≡◌, refl, ◌≢◌, ◌⊎◌, inl, inr, none, arith, Bool-cases, ltb,
  ==_iff, ==_differ,
}
use demo_skynet_server.MessageQueue.{
  MessageQueue, advance, span, mq_length, mq_overload, raise_threshold, take_message, pop,
}
use demo_skynet_server.MessageQueue.Inv.{IsValid}

-- What the loop of `skynet_mq_pop` makes of the mark of `q` at length `n`.
pub record Raised (n : ℕ) (q r : MessageQueue) : Type 0 where
  pub ended : n ≤ r.overload_threshold
  pub marked :
      ((r.overload_threshold ≡ q.overload_threshold) × (r.overload ≡ q.overload))
      ⊎ ((q.overload_threshold < n) × (r.overload ≡ n) × (r.overload_threshold < 2 * n))
  pub kept_ring : (r.cap ≡ q.cap) × (r.head ≡ q.head) × (r.tail ≡ q.tail)

raise_threshold-Raised :
    (fuel n : ℕ) (q : MessageQueue)
    → 0 < q.overload_threshold
    → n < q.overload_threshold + fuel
    → Raised n q (raise_threshold fuel n q)
unfolding raise_threshold
raise_threshold-Raised zero n q pos h = ground arith
raise_threshold-Raised (suc fuel) n q pos h = elim (Bool-cases (ltb q.overload_threshold n)) [
  | inl e ↦ rw e (
      ground (
        arith,
        raise_threshold-Raised fuel n
            (record q { overload = n; overload_threshold = q.overload_threshold * 2 }) (omega arith)
            (ground arith),
      ))
  | inr e ↦ rw e (ground arith)
]

-- The pop that takes a message.
pop_raises :
    (q : MessageQueue)
    → IsValid q
    → q.head ≢ q.tail
    → let r = (pop q).1 in
      (mq_length r ≤ r.overload_threshold)
      × (((r.overload_threshold ≡ q.overload_threshold) × (r.overload ≡ q.overload))
          ⊎ ((q.overload_threshold < mq_length r)
              × (r.overload ≡ mq_length r)
              × (r.overload_threshold < 2 * mq_length r)))
unfolding pop take_message mq_length
pop_raises q v ne = rw (==_differ q.head q.tail ne) (ground (arith, raised))
  where
    left : ℕ
    left = span q.cap (advance q.cap q.head) q.tail

    raised :
        Raised left
          (record q { head = advance q.cap q.head })
          (raise_threshold left left (record q { head = advance q.cap q.head }))
    raised =
        raise_threshold-Raised left left (record q { head = advance q.cap q.head }) v.threshold
          (omega (arith, v.threshold))

pop_takes : (q : MessageQueue) → q.head ≢ q.tail → (pop q).0 ≢ none
unfolding pop
pop_takes q ne = rw (==_differ q.head q.tail ne) (λ p. cc)

pop_resets :
    (q : MessageQueue)
    → q.head ≡ q.tail
    → let r = (pop q).1 in
      ((pop q).0 ≡ none) × (r.overload_threshold ≡ 1024) × (r.overload ≡ q.overload)
unfolding pop
pop_resets q e = rw ((==_iff q.head q.tail).1 e) (refl, refl, refl)

length_zero : (q : MessageQueue) → q.head ≡ q.tail → mq_length q ≡ 0
unfolding mq_length
length_zero q e = ground arith

length_pos : (q : MessageQueue) → IsValid q → q.head ≢ q.tail → 0 < mq_length q
unfolding mq_length
length_pos q v ne = ground (arith, v.head_in, v.tail_in)

-- A pop on an empty queue sets the threshold back to MQ_OVERLOAD, which is 1024, and leaves the mark.
-- One on any other queue takes a message, after which the threshold is at least the length that is
-- left: where that length was within the old threshold nothing is marked, and else the length is
-- marked and the new threshold is below twice it.
pub pop_overload :
    (q : MessageQueue)
    → IsValid q
    → let r = (pop q).1 in
      ((mq_length q ≡ 0)
        × ((pop q).0 ≡ none)
        × (r.overload_threshold ≡ 1024)
        × (r.overload ≡ q.overload))
      ⊎ ((0 < mq_length q)
          × ((pop q).0 ≢ none)
          × (mq_length r ≤ r.overload_threshold)
          × (((r.overload_threshold ≡ q.overload_threshold) × (r.overload ≡ q.overload))
              ⊎ ((q.overload_threshold < mq_length r)
                  × (r.overload ≡ mq_length r)
                  × (r.overload_threshold < 2 * mq_length r))))
pop_overload q v = elim (ℕ_discrete q.head q.tail) [
  | yes e ↦
      let (empty, threshold, mark) = pop_resets q e in inl (length_zero q e, empty, threshold, mark)
  | no ne ↦
      let (ended, marked) = pop_raises q v ne in
      inr (length_pos q v ne, pop_takes q ne, ended, marked)
]

-- A mark is reported once: the next call reports none until another pop marks the queue.
pub mq_overload_once :
    (q : MessageQueue) → ((mq_overload q).0 ≡ q.overload) × ((mq_overload (mq_overload q).1).0 ≡ 0)
unfolding mq_overload
mq_overload_once q = ground arith
