-- ===== src/MessageQueue.antt =====
-- skynet-src/skynet_mq.c: the ring buffer of one service's message queue. The functions here are
-- the parts of the C functions that work on `struct message_queue` alone; those that also touch
-- the global queue are in GlobalQueue. Each takes the struct before and returns it after, as under
-- the queue's spinlock. An `int` is a native number: no field goes below zero.
pub mod Inv
pub mod Fifo
pub mod Overload
pub mod History
pub mod Frame
mod Tests
use demo_skynet_server.Common.{
  ℕ, zero, suc, ◌+◌, ◌-◌, ◌*◌, ◌%◌, ◌<◌, Bool, true, false, Option, none, some, List, [], ◌∷◌, ◌++◌,
  ltb, leb, ◌==◌, if◌then◌else◌, get_or, set, replicate,
}

-- `struct skynet_message`; `payload` is the address in the field `data`.
pub record Message : Type 0 where
  pub source : ℕ
  pub session : ℕ
  pub payload : ℕ
  pub sz : ℕ

abbrev pub default_queue_size : ℕ
default_queue_size = 64

abbrev pub mq_overload_threshold : ℕ
mq_overload_threshold = 1024

-- `struct message_queue` without its lock. `queue` is the allocated array, `next` the link in the
-- global queue.
pub record MessageQueue : Type 0 where
  pub handle : ℕ
  pub cap : ℕ
  pub head : ℕ
  pub tail : ℕ
  pub release : Bool
  pub in_global : Bool
  pub overload : ℕ
  pub overload_threshold : ℕ
  pub queue : List Message
  pub next : Option ℕ

-- What an array cell holds before it is written.
abbrev pub blank : Message
blank = record { source = 0; session = 0; payload = 0; sz = 0 }

-- `skynet_mq_create`
unfoldable pub create : ℕ → MessageQueue
create handle = record {
  handle = handle;
  cap = default_queue_size;
  head = 0;
  tail = 0;
  release = false;
  in_global = true;
  overload = 0;
  overload_threshold = mq_overload_threshold;
  queue = replicate default_queue_size blank;
  next = none;
}

-- The step of an index round the array: `if (++i >= cap) i = 0;`.
abbrev pub advance : ℕ → ℕ → ℕ
advance cap i = if leb cap (i + 1) then 0 else i + 1

-- `tail - head`, plus `cap` where that is negative.
abbrev pub span : ℕ → ℕ → ℕ → ℕ
span cap head tail = if leb head tail then tail - head else tail + cap - head

-- `skynet_mq_length`
unfoldable pub mq_length : MessageQueue → ℕ
mq_length q = span q.cap q.head q.tail

-- `skynet_mq_overload`: reports the overload once and clears it.
pub mq_overload : MessageQueue → ℕ × MessageQueue
mq_overload q = if q.overload == 0 then (0, q) else (q.overload, record q { overload = 0 })

-- `while (length > q->overload_threshold) { q->overload = length; q->overload_threshold *= 2; }`
-- with fuel.
pub raise_threshold : ℕ → ℕ → MessageQueue → MessageQueue
raise_threshold zero length q = q
raise_threshold (suc fuel) length q =
    let rest =
      raise_threshold fuel length
        (record q { overload = length; overload_threshold = q.overload_threshold * 2 }) in
    if ltb q.overload_threshold length then rest else q

-- The branch of `skynet_mq_pop` where a message is there: the cell is read, `head` goes on, and
-- the overload is noted.
pub take_message : MessageQueue → Message × MessageQueue
take_message q =
    let head' = advance q.cap q.head in
    let length = span q.cap head' q.tail in
    (get_or q.queue q.head blank, raise_threshold length length (record q { head = head' }))

-- `skynet_mq_pop`: `none` is the return value 1.
pub pop : MessageQueue → Option Message × MessageQueue
pop q =
    if q.head == q.tail
    then (none, record q { overload_threshold = mq_overload_threshold; in_global = false })
    else let (m, q') = take_message q in (some m, q')

-- The loop of `expand_queue`: `n` cells from `i` on.
pub copy_cells : List Message → ℕ → ℕ → ℕ → ℕ → List Message
copy_cells queue cap head zero i = []
copy_cells queue cap head (suc n) i =
    get_or queue ((head + i) % cap) blank ∷ copy_cells queue cap head n (i + 1)

-- `expand_queue`
pub expand_queue : MessageQueue → MessageQueue
expand_queue q = record q {
  queue = copy_cells q.queue q.cap q.head q.cap 0 ++ replicate q.cap blank;
  head = 0;
  tail = q.cap;
  cap = q.cap * 2;
}

-- `q->queue[q->tail] = *message; if (++ q->tail >= q->cap) q->tail = 0;`
unfoldable pub write_tail : MessageQueue → Message → MessageQueue
write_tail q m = record q { queue = set q.queue q.tail m; tail = advance q.cap q.tail }

-- The ring part of `skynet_mq_push`, above its test of `in_global`.
unfoldable pub append : MessageQueue → Message → MessageQueue
append q m = let q' = write_tail q m in if q'.head == q'.tail then expand_queue q' else q'
