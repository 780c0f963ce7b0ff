-- ===== src/GlobalQueue/Drop.antt =====
-- `_drop_queue`: the loop ends, and hands over every message that waits.
use demo_skynet_server.Common.{ℕ, zero, suc, ◌<◌, ◌≡◌, refl, ap, ◌∙◌, inl, inr, some, arith, length}
use demo_skynet_server.MessageQueue.{MessageQueue, pop}
use demo_skynet_server.MessageQueue.Inv.{IsValid, pop-IsValid}
use demo_skynet_server.MessageQueue.Fifo.{contents, pop_refines}
use demo_skynet_server.MessageQueue.Frame.{pop-Kept}
use demo_skynet_server.GlobalQueue.{drop_messages}

-- With fuel for one round more than there are messages, the loop hands over the messages that wait,
-- oldest first, and keeps the link.
pub drop_messages-contents :
    (fuel : ℕ) {q : MessageQueue}
    → IsValid q
    → length (contents q) < fuel
    → (r : MessageQueue) × (drop_messages fuel q ≡ some (contents q, r)) × (r.next ≡ q.next)
unfolding drop_messages
drop_messages-contents zero v h = absurd (omega arith)
drop_messages-contents (suc fuel) {q} v h = elim (pop_refines v) [
  | inl (e, ret, e') ↦ ((pop q).1, rw (ret, drop_messages, e) refl, (pop-Kept q).next)
  | inr (m, e, ret) ↦
      let (r, er, en) = drop_messages-contents fuel (pop-IsValid v) (omega (arith, ap length e)) in
      (r, rw (ret, drop_messages, e) (rw er refl), en ∙ (pop-Kept q).next)
]
