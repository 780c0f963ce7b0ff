-- ===== src/Send/Tests.antt =====
-- Concrete sends of skynet-src/skynet_server.c.
use demo_skynet_server.Common.{
  ◌+◌, ◌-◌, ◌<◌, ◌^◌, ◌≡◌, ◌⊎◌, refl, true, false, none, some, ◌==◌, arith,
}
use demo_skynet_server.Send.{
  Context, newsession, filter_args, message_isremote, undelivered, NodeState, type_and_size,
  harbor_send, context_push, route, send, harbor_init,
}
use demo_skynet_server.Send.Routing.{newsession_lem}

-- The service 0x01000001 of node 1, at its last session.
abbrev service : Context
service = record { handle = 0x01000001; session_id = 2 ^ 31 - 1 }

-- NodeState 1 with its harbor service and one service.
abbrev node : NodeState
node = record { harbor = 2 ^ 24; remote = true; is_there = λ handle. handle == 0x01000001 }

-- A message of the type of the system to another node.
refused : send 8192 node service 0 0x02000005 4 0 4096 16 ≡ none
unfolding send filter_args route harbor_send message_isremote type_and_size
refused = refl

-- Nobody has this handle on the own node.
nobody : send 8192 node service 0 0x01000009 0 0 4096 16 ≡ some (undelivered, none, service)
unfolding send filter_args route context_push message_isremote
nobody = refl

newsession_lem_example :
    let r = newsession service in
    (0 < r.0)
    × (r.0 < 2 ^ 31)
    × (r.1.session_id ≡ r.0)
    × (((r.0 ≡ service.session_id + 1) × (service.session_id + 1 < 2 ^ 31))
        ⊎ ((r.0 ≡ 1) × (service.session_id + 1 ≡ 2 ^ 31)))
newsession_lem_example = newsession_lem service (omega arith)

own_node : harbor_init 1 ≡ 2 ^ 24
unfolding harbor_init
own_node = refl

remote_type : message_isremote (2 ^ 24) 0x01000007 ≡ false
unfolding message_isremote
remote_type = refl
