-- ===== src/GlobalQueue.antt =====
-- skynet-src/skynet_mq.c: the global queue, a linked list through the `next` fields of the message
-- queues, and the functions that move a message queue into it and out of it. The heap gives the
-- struct at an address, `none` where nothing is allocated. `none` as a result is a failed
-- assertion or an access to freed memory. Each function is one section under the spinlocks.
pub mod Chain
pub mod Drop
pub mod Ownership
pub mod Operations
pub mod Protocol
use mathlib.Core.Option
use demo_skynet_server.Common.{
  ℕ, zero, suc, ◌+◌, Bool, true, false, not, Option, none, some, List, [], ◌∷◌, ◌==◌, ltb,
  if◌then◌else◌, ◌>>=◌, ◌>>◌, assert,
}
use demo_skynet_server.MessageQueue.{Message, MessageQueue, create, pop, append, mq_length}

abbrev pub Heap : Type 0
Heap = ℕ → Option MessageQueue

-- All message queues, and the `head` and `tail` of `struct global_queue`.
pub record World : Type 0 where
  pub heap : Heap
  pub head : Option ℕ
  pub tail : Option ℕ

-- `skynet_mq_init`
pub mq_init : World
mq_init = record { heap = λ p. none; head = none; tail = none }

abbrev pub update : Heap → ℕ → Option MessageQueue → Heap
update h p q k = if k == p then q else h k

abbrev pub store : World → ℕ → MessageQueue → World
store w p q = record w { heap = update w.heap p (some q) }

abbrev pub is_null : Option ℕ → Bool
is_null none = true
is_null (some p) = false

abbrev pub is_at : Option ℕ → ℕ → Bool
is_at none p = false
is_at (some k) p = k == p

-- The link of `skynet_globalmq_push`, by the old tail.
link_last : World → ℕ → Option ℕ → Option World
link_last w p none = some (record w { head = some p; tail = some p })
link_last w p (some t) = do
  last ← w.heap t
  some (record w { heap = update w.heap t (some (record last { next = some p })); tail = some p })

-- `skynet_globalmq_push`
pub globalmq_push : ℕ → World → Option World
unfolding link_last
globalmq_push p w = do q ← w.heap p; assert (is_null q.next); link_last w p w.tail

-- The body of `skynet_globalmq_pop` at the queue `p` in front.
unlink_first : World → ℕ → Option (Option ℕ × World)
unlink_first w p = do
  q ← w.heap p
  let w' = store w p (record q { next = none })
  elim q.next [
    | none ↦ assert (is_at w.tail p) >> some (some p, record w' { head = none; tail = none })
    | some k ↦ some (some p, record w' { head = some k })
  ]

-- `skynet_globalmq_pop`: the queue taken is `none` where the list is empty.
pub globalmq_pop : World → Option (Option ℕ × World)
unfolding unlink_first
globalmq_pop w = elim w.head [ none ↦ some (none, w) | some p ↦ unlink_first w p ]

-- `skynet_mq_create`; the allocator gives the address.
pub mq_create : ℕ → ℕ → World → World
mq_create p handle w = store w p (create handle)

-- `skynet_mq_push`
pub mq_push : ℕ → Message → World → Option World
mq_push p m w = do
  q ← w.heap p
  let q' = append q m
  if q'.in_global
      then some (store w p q')
      else globalmq_push p (store w p (record q' { in_global = true }))

-- `skynet_mq_pop`
pub mq_pop : ℕ → World → Option (Option Message × World)
mq_pop p w = do q ← w.heap p; some ((pop q).0, store w p (pop q).1)

-- `skynet_mq_mark_release`
pub mq_mark_release : ℕ → World → Option World
mq_mark_release p w = do
  q ← w.heap p
  assert (not q.release)
  let w' = store w p (record q { release = true })
  if q.in_global then some w' else globalmq_push p w'

-- The loop of `_drop_queue`, with fuel: the messages handed to `drop_func`, in order.
pub drop_messages : ℕ → MessageQueue → Option (List Message × MessageQueue)
drop_messages zero q = none
drop_messages (suc fuel) q =
    let rest = drop_messages fuel (pop q).1 in
    elim (pop q).0 [ none ↦ some ([], (pop q).1) | some m ↦ Option.map (λ r. (m ∷ r.0, r.1)) rest ]

-- `_drop_queue`, with its `_release`: the queue is emptied and freed.
pub drop_queue : ℕ → World → Option (List Message × World)
drop_queue p w = do
  q ← w.heap p
  r ← drop_messages (suc (mq_length q)) q
  assert (is_null r.1.next)
  some (r.0, record w { heap = update w.heap p none })

-- `skynet_mq_release`: what is dropped, in order.
pub mq_release : ℕ → World → Option (List Message × World)
mq_release p w = do
  q ← w.heap p
  if q.release then drop_queue p w else Option.map (λ w'. ([], w')) (globalmq_push p w)
