-- ===== src/MessageQueue/History.antt =====
-- A history of pushes and pops of one message queue, against a list without a bound.
use demo_skynet_server.Common.{
  ℕ, ◌≡◌, refl, ap, ◌∙◌, inl, inr, List, [], ◌∷◌, ◌++◌, Option, none, some,
}
use demo_skynet_server.MessageQueue.{Message, MessageQueue, create, pop, append, mq_length}
use demo_skynet_server.MessageQueue.Inv.{IsValid, append-IsValid, pop-IsValid, create-IsValid}
use demo_skynet_server.MessageQueue.Fifo.{contents, append_refines, pop_refines}

pub data Call : Type 0 where
  pushes : Message → Call
  pops : Call

-- What the pops of a history return, in order.
pub replies : MessageQueue → List Call → List (Option Message)
replies q [] = []
replies q (pushes m ∷ cs) = replies (append q m) cs
replies q (pops ∷ cs) = (pop q).0 ∷ replies (pop q).1 cs

-- The same for a list, oldest first.
pub list_replies : List Message → List Call → List (Option Message)
list_replies ms [] = []
list_replies ms (pushes m ∷ cs) = list_replies (ms ++ m ∷ []) cs
list_replies [] (pops ∷ cs) = none ∷ list_replies [] cs
list_replies (m ∷ ms) (pops ∷ cs) = some m ∷ list_replies ms cs

replies_from :
    (cs : List Call) {q : MessageQueue} → IsValid q → replies q cs ≡ list_replies (contents q) cs
unfolding replies list_replies
replies_from [] v = refl
replies_from (pushes m ∷ cs) v = rw (← append_refines m v) (replies_from cs (append-IsValid m v))
replies_from (pops ∷ cs) v = elim (pop_refines v) [
  | inl (e, r, e') ↦
      rw (e, r)
        (ap (λ rs. none ∷ rs) (replies_from cs (pop-IsValid v) ∙ ap (λ ms. list_replies ms cs) e'))
  | inr (m, e, r) ↦ rw (e, r) (ap (λ rs. some m ∷ rs) (replies_from cs (pop-IsValid v)))
]

-- No history of pushes and pops tells a new message queue from an empty list without a bound, from
-- which the oldest message is taken.
pub create_refines : (handle : ℕ) (cs : List Call) → replies (create handle) cs ≡ list_replies [] cs
unfolding create mq_length
create_refines handle cs = replies_from cs (create-IsValid handle)
