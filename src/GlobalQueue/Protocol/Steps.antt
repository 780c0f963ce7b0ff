-- ===== src/GlobalQueue/Protocol/Steps.antt =====
-- What holds in every state that the threads reach.

use demo_skynet_server.Common.{
  count, some_eq, ℕ, ◌+◌, ◌≤◌, ◌<◌, ◌≡◌, refl, sym, ap, ◌∙◌, false, some, List, [], arith, subst,
  inl, inr, Bool-cases,
}
use demo_skynet_server.MessageQueue.{MessageQueue, mq_length}
use demo_skynet_server.GlobalQueue.{mq_init}
use demo_skynet_server.GlobalQueue.Chain.{IsChain}
use demo_skynet_server.GlobalQueue.Ownership.{Inv, placed, IsHealthy}
use demo_skynet_server.GlobalQueue.Operations.{
  mq_create-Inv, mq_push-Inv, mq_pop-Inv, mq_mark_release-Inv, mq_release-Inv, give-Inv, take-Inv,
  held_live, placed-le-one,
}
use demo_skynet_server.GlobalQueue.Protocol.{
  System, Action, creates, gives, takes, sends, receives, marks, discards, IsEnabled, step, start,
  Reach, here, next, IsSound,
}

pub start-Inv : Inv mq_init [] []
unfolding mq_init
start-Inv = record {
  chain = record {
    links = tt;
    front = refl;
    back = refl;
    apart = λ p h. refl;
    once = λ p. omega arith;
    live = λ p h. absurd (omega arith);
  };
  place = λ p. omega arith;
  healthy = λ p. tt;
}

start-IsSound : IsSound start
unfolding start
start-IsSound = ([], start-Inv)

-- A step that is allowed succeeds: no assertion of the C code fails and no freed memory is touched.
-- And it keeps the global queue well formed and every message queue in its one place.
pub step-IsSound :
    (a : Action) (s : System)
    → IsSound s
    → IsEnabled a s
    → (t : System) × (step a s ≡ some t) × IsSound t
unfolding step
step-IsSound (creates p handle) s (ps, v) e =
    (_, refl, (ps, mq_create-Inv s.world ps s.held p v handle e))
step-IsSound (gives p) s (ps, v) mine =
    let (w, ew, v') = give-Inv s.world ps s.held p v mine in (_, rw ew refl, (_, v'))
step-IsSound takes s (ps, v) e =
    let (o, w, ps', ew, front, v') = take-Inv s.world ps s.held v in (_, rw ew refl, (ps', v'))
step-IsSound (sends p m) s (ps, v) (q, e, rel) =
    let (w, ps', ew, v') = mq_push-Inv s.world ps s.held p v q m e rel in (_, rw ew refl, (ps', v'))
step-IsSound (receives p) s (ps, v) (mine, (q, e, rel)) =
    let (w, ew, v') = mq_pop-Inv s.world ps s.held p v q e rel mine in (_, rw ew refl, (ps, v'))
step-IsSound (marks p) s (ps, v) (q, e, rel) =
    let (w, ps', ew, v') = mq_mark_release-Inv s.world ps s.held p v q e rel in
    (_, rw ew refl, (ps', v'))
step-IsSound (discards p) s (ps, v) mine =
    let (q, e) = held_live s.world ps s.held p v mine in
    let (w, ps', ew, v') = mq_release-Inv s.world ps s.held p v q e mine in
    (_, rw ew refl, (ps', v'))

Reach-IsSound : {s : System} → Reach s → IsSound s
Reach-IsSound (here s e) = subst IsSound (sym e) start-IsSound
Reach-IsSound (next {s} a t r en e) =
    let (t', e', v) = step-IsSound a s (Reach-IsSound r) en in
    subst IsSound (some_eq (sym e' ∙ e)) v

-- In every state that the threads reach, the global queue is a well-formed list, and no message
-- queue is in two places: twice in the list, held twice, or both.
pub reached_once :
    {s : System} (p : ℕ)
    → Reach s
    → (ps : List ℕ) × IsChain s.world ps × (count p ps + count p s.held ≤ 1)
reached_once {s} p r =
    let (ps, v) = Reach-IsSound r in
    (ps, v.chain, omega (arith, v.place p, placed-le-one (s.world.heap p)))

-- In every state that the threads reach, a message queue whose service is not deleted and that has
-- a message waiting is in exactly one place, the global queue or a thread's hands: it is never
-- forgotten.
pub reached_waiting :
    {s : System} (p : ℕ) {q : MessageQueue}
    → Reach s
    → s.world.heap p ≡ some q
    → q.release ≡ false
    → 0 < mq_length q
    → (ps : List ℕ) × IsChain s.world ps × (count p ps + count p s.held ≡ 1)
reached_waiting {s} p {q} r e rel busy =
    let (ps, v) = Reach-IsSound r in
    (
      ps,
      v.chain,
      elim (Bool-cases q.in_global) [
        | inl t ↦ v.place p ∙ ap placed e ∙ rw t refl
        | inr t ↦ absurd (omega (arith, (subst IsHealthy e (v.healthy p)).1 t))
      ],
    )
