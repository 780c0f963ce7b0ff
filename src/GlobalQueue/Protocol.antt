-- ===== src/GlobalQueue/Protocol.antt =====
-- How the threads of the server use the message queues: what each may call and when, as steps of
-- the whole state. The rules of use are those of skynet-src/skynet_server.c: a queue is created
-- held by its service's creator; a worker holds the queue that it took from the global queue;
-- only a service that is not yet deleted is sent messages or has its messages received.
pub mod Steps
mod Tests
use demo_skynet_server.Common.{
  count, ℕ, zero, suc, ◌+◌, ◌≤◌, ◌<◌, ◌≡◌, refl, Bool, true, false, Option, none, some, List, [],
  ◌∷◌, ◌==◌, if◌then◌else◌, ◌>>=◌,
}
use demo_skynet_server.MessageQueue.{Message, MessageQueue}
use demo_skynet_server.GlobalQueue.{
  World, mq_init, globalmq_push, globalmq_pop, mq_create, mq_push, mq_pop, mq_mark_release,
  mq_release,
}
use demo_skynet_server.GlobalQueue.Ownership.{Inv, remove, hold, unless_found}

-- The memory, and the queues that threads hold.
pub record System : Type 0 where
  pub world : World
  pub held : List ℕ

pub data Action : Type 0 where
  creates : ℕ → ℕ → Action
  gives : ℕ → Action
  takes : Action
  sends : ℕ → Message → Action
  receives : ℕ → Action
  marks : ℕ → Action
  discards : ℕ → Action

-- The queue at `p` belongs to a service that is not deleted.
abbrev pub IsLive : System → ℕ → Type 0
IsLive s p = (q : MessageQueue) × (s.world.heap p ≡ some q) × (q.release ≡ false)

abbrev pub IsEnabled : Action → System → Type 0
IsEnabled (creates p handle) s = s.world.heap p ≡ none
IsEnabled (gives p) s = 0 < count p s.held
IsEnabled takes s = Unit
IsEnabled (sends p m) s = IsLive s p
IsEnabled (receives p) s = (0 < count p s.held) × IsLive s p
IsEnabled (marks p) s = IsLive s p
IsEnabled (discards p) s = 0 < count p s.held

pub step : Action → System → Option System
step (creates p handle) s = some (record { world = mq_create p handle s.world; held = p ∷ s.held })
step (gives p) s = do
  w ← globalmq_push p s.world
  some (record { world = w; held = remove p s.held })
step takes s = do r ← globalmq_pop s.world; some (record { world = r.1; held = hold r.0 s.held })
step (sends p m) s = do w ← mq_push p m s.world; some (record s { world = w })
step (receives p) s = do
  r ← mq_pop p s.world
  some (record { world = r.1; held = unless_found p r.0 s.held })
step (marks p) s = do w ← mq_mark_release p s.world; some (record s { world = w })
step (discards p) s = do
  r ← mq_release p s.world
  some (record { world = r.1; held = remove p s.held })

pub start : System
start = record { world = mq_init; held = [] }

-- What a run of allowed steps reaches.
pub data Reach : System → Type 0 where
  here : (s : System) → s ≡ start → Reach s
  next :
      {s : System} (a : Action) (t : System) → Reach s → IsEnabled a s → step a s ≡ some t → Reach t

-- The invariant of a state, for some order of the global queue.
abbrev pub IsSound : System → Type 0
IsSound s = (ps : List ℕ) × Inv s.world ps s.held
