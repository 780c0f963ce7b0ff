-- ===== src/GlobalQueue/Protocol/Tests.antt =====
-- Concrete runs of the message queues of skynet-src/skynet_mq.c together.
use demo_skynet_server.Common.{count, ℕ, ◌+◌, ◌≤◌, ◌≡◌, refl, true, some, List, [], ◌∷◌, arith}
use demo_skynet_server.MessageQueue.{Message, MessageQueue, create, append, write_tail, mq_length}
use demo_skynet_server.MessageQueue.Inv.{create-IsValid, append-IsValid}
use demo_skynet_server.MessageQueue.Fifo.{contents, mq_length-contents}
use demo_skynet_server.GlobalQueue.{mq_init, mq_create, mq_push, store, drop_messages}
use demo_skynet_server.GlobalQueue.Chain.{IsChain}
use demo_skynet_server.GlobalQueue.Drop.{drop_messages-contents}
use demo_skynet_server.GlobalQueue.Ownership.{Inv}
use demo_skynet_server.GlobalQueue.Protocol.{System, creates, sends, step, start, Reach, here, next}
use demo_skynet_server.GlobalQueue.Protocol.Steps.{reached_once, reached_waiting}

abbrev msg : Message
msg = record { source = 1; session = 5; payload = 4096; sz = 16 }

abbrev waiting : MessageQueue
waiting = append (create 9) msg

-- A service whose queue is at 100 and whose handle is 9: it is created, is sent a message, and
-- is put into the global queue.
abbrev made : System
made = record { world = mq_create 100 9 start.world; held = 100 ∷ [] }

abbrev sent : System
sent = record { world = store made.world 100 waiting; held = 100 ∷ [] }

made-Reach : Reach made
unfolding step start mq_init
made-Reach = next (creates 100 9) made (here start refl) refl refl

sent-Reach : Reach sent
unfolding step start mq_init mq_create mq_push append write_tail create
sent-Reach = next (sends 100 msg) sent made-Reach (create 9, refl, refl) refl

reached_once_example :
    (ps : List ℕ) × IsChain sent.world ps × (count 100 ps + count 100 sent.held ≤ 1)
reached_once_example = reached_once 100 sent-Reach

reached_waiting_example :
    (ps : List ℕ) × IsChain sent.world ps × (count 100 ps + count 100 sent.held ≡ 1)
unfolding append write_tail create mq_length
reached_waiting_example = reached_waiting 100 {q = waiting} sent-Reach refl refl (omega arith)

drop_messages-contents_example :
    (r : MessageQueue) × (drop_messages 5 waiting ≡ some (contents waiting, r))
    × (r.next ≡ waiting.next)
unfolding append write_tail create mq_length
drop_messages-contents_example =
    drop_messages-contents 5 (append-IsValid msg (create-IsValid 9))
      (omega (arith, mq_length-contents waiting))

-- The same queue when its service is deleted, held by the worker that is to release it.
abbrev deleted : MessageQueue
deleted = record waiting { release = true }
