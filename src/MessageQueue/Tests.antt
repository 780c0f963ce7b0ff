-- ===== src/MessageQueue/Tests.antt =====
-- Concrete runs of the message queue of skynet-src/skynet_mq.c.
use demo_skynet_server.Common.{
  ℕ, ◌*◌, ◌≤◌, ◌<◌, ◌≡◌, ◌≢◌, refl, ◌⊎◌, true, false, none, some, [], ◌∷◌, ◌++◌, arith,
}
use demo_skynet_server.MessageQueue.{
  Message, MessageQueue, create, mq_length, take_message, write_tail, expand_queue, pop, append,
  blank,
}
use demo_skynet_server.MessageQueue.Inv.{IsValid}
use demo_skynet_server.MessageQueue.Fifo.{contents, append_refines, pop_refines}
use demo_skynet_server.MessageQueue.Overload.{pop_overload}
use demo_skynet_server.MessageQueue.History.{pushes, pops, replies, list_replies, create_refines}

abbrev msg : ℕ → Message
msg n = record { source = 1; session = n; payload = 4096; sz = 16 }

-- Two messages in a full turn of a ring of two cells, whose threshold is 1.
abbrev small : MessageQueue
small = record {
  handle = 9;
  cap = 4;
  head = 3;
  tail = 2;
  release = false;
  in_global = true;
  overload = 0;
  overload_threshold = 1;
  queue = msg 1 ∷ msg 2 ∷ blank ∷ msg 0 ∷ [];
  next = none;
}

small-IsValid : IsValid small
unfolding mq_length
small-IsValid = ground arith

create_refines_example :
    replies (create 9) (pops ∷ pushes (msg 1) ∷ pushes (msg 2) ∷ pops ∷ pops ∷ [])
    ≡ list_replies [] (pops ∷ pushes (msg 1) ∷ pushes (msg 2) ∷ pops ∷ pops ∷ [])
create_refines_example =
    create_refines 9 (pops ∷ pushes (msg 1) ∷ pushes (msg 2) ∷ pops ∷ pops ∷ [])

append_refines_example : contents (append small (msg 3)) ≡ contents small ++ msg 3 ∷ []
append_refines_example = append_refines (msg 3) small-IsValid

pop_refines_example :
    ((contents small ≡ []) × ((pop small).0 ≡ none) × (contents (pop small).1 ≡ []))
    ⊎ ((m : Message) × (contents small ≡ m ∷ contents (pop small).1) × ((pop small).0 ≡ some m))
pop_refines_example = pop_refines small-IsValid

small_has_one : (pop small).0 ≢ none
unfolding pop take_message
small_has_one e = cc

pop_overload_example :
    let r = (pop small).1 in
    ((mq_length small ≡ 0)
      × ((pop small).0 ≡ none)
      × (r.overload_threshold ≡ 1024)
      × (r.overload ≡ 0))
    ⊎ ((0 < mq_length small)
        × ((pop small).0 ≢ none)
        × (mq_length r ≤ r.overload_threshold)
        × (((r.overload_threshold ≡ 1) × (r.overload ≡ 0))
            ⊎ ((1 < mq_length r)
                × (r.overload ≡ mq_length r)
                × (r.overload_threshold < 2 * mq_length r))))
pop_overload_example = pop_overload small small-IsValid

-- The push that fills the ring doubles it.
doubled : (append small (msg 3)).cap ≡ 8
unfolding append write_tail expand_queue
doubled = refl

popped : (pop small).0 ≡ some (msg 0)
unfolding pop take_message
popped = refl
