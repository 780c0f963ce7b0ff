-- ===== src/Send.antt =====
-- How a service sends a message: `skynet_send` of skynet-src/skynet_server.c, with the type in the
-- high byte of the size, and what skynet-src/skynet_harbor.c says of a handle's node. The message
-- goes on to a queue (skynet_context_push) or to the harbor service; here it is returned.
pub mod Fields
pub mod Routing
mod Tests
use demo_skynet_server.Common.{
  ℕ, zero, suc, ◌+◌, ◌-◌, ◌*◌, ◌/◌, ◌%◌, ◌^◌, bit_and, bit_or, Bool, true, false, not, ◌||◌, ◌&&◌,
  Option, none, some, ◌==◌, leb, if◌then◌else◌,
}
use demo_skynet_server.MessageQueue.{Message}

abbrev pub message_type_mask : ℕ
message_type_mask = 2 ^ 56 - 1

-- The fields of `struct skynet_context` that a send reads and writes.
pub record Context : Type 0 where
  pub handle : ℕ
  pub session_id : ℕ

-- `skynet_context_newsession`; a word from 2^31 on is a negative `int`.
pub newsession : Context → ℕ × Context
newsession ctx =
    let session = (ctx.session_id + 1) % 2 ^ 32 in
    if session == 0 || leb (2 ^ 31) session
    then (1, record ctx { session_id = 1 })
    else (session, record ctx { session_id = session })

-- `_filter_args`: the session, the address of the data, the size with the type in it, and the
-- context. `copy` is the address of the copy; `none` is the failed assertion on the session.
pub filter_args : ℕ → Context → ℕ → ℕ → ℕ → ℕ → Option (ℕ × ℕ × ℕ × Context)
filter_args copy ctx type session payload sz =
    let needcopy = bit_and type 0x10000 == 0 in
    let given = if needcopy && not (payload == 0) then copy else payload in
    let typed = bit_or sz (bit_and type 0xff * 2 ^ 56) in
    let fresh = newsession ctx in
    if bit_and type 0x20000 == 0
    then some (session, given, typed, ctx)
    else if session == 0
    then some (fresh.0, given, typed, fresh.1)
    else none

-- `skynet_harbor_init`
pub harbor_init : ℕ → ℕ
harbor_init harbor = harbor * 2 ^ 24 % 2 ^ 32

-- `skynet_harbor_message_isremote`, on a node that is set up.
pub message_isremote : ℕ → ℕ → Bool
message_isremote harbor handle =
    let h = bit_and handle ((2 ^ 8 - 1) * 2 ^ 24) in not (h == harbor) && not (h == 0)

-- What becomes of a message: `undelivered` is one whose receiver is not there, and whose data is freed.
pub data Route : Type 0 where
  too_large : Route
  kept : Route
  to_remote : ℕ → Message → Route
  to_local : ℕ → Message → Route
  undelivered : Route

-- `dispatch_message` and `skynet_harbor_send`: the type and the size of a message.
pub type_and_size : Message → ℕ × ℕ
type_and_size m = (m.sz / 2 ^ 56, bit_and m.sz message_type_mask)

abbrev pub ptype_system : ℕ
ptype_system = 4

abbrev pub ptype_harbor : ℕ
ptype_harbor = 5

-- What stands around a send: the bits of this node, whether REMOTE is set, and for which handles
-- skynet_handle_grab finds a service.
pub record NodeState : Type 0 where
  pub harbor : ℕ
  pub remote : Bool
  pub is_there : ℕ → Bool

-- `skynet_harbor_send`; `none` is the failed assertion.
pub harbor_send : NodeState → ℕ → Message → Option Route
harbor_send node destination m =
    let type = (type_and_size m).0 in
    if not (type == ptype_system) && (not (type == ptype_harbor) && node.remote)
    then some (to_remote destination m)
    else none

-- `skynet_context_push`, with what `skynet_send` does where it fails: the return value -1 is `none`.
pub context_push : NodeState → ℕ → Message → Route × Option ℕ
context_push node destination m =
    if node.is_there destination
    then (to_local destination m, some m.session)
    else (undelivered, none)

-- The part of `skynet_send` behind `_filter_args`.
pub route : NodeState → ℕ → Message → Option (Route × Option ℕ)
route node destination m =
    let sent : Option (Route × Option ℕ) = elim (harbor_send node destination m) [
      | none ↦ none
      | some r ↦ some (r, some m.session)
    ] in
    if destination == 0
    then some (kept, some m.session)
    else if message_isremote node.harbor destination
    then sent
    else some (context_push node destination m)

-- `skynet_send`: the route, the return value, where `none` is -1, and the context. The outer `none` is
-- a failed assertion.
pub send : ℕ → NodeState → Context → ℕ → ℕ → ℕ → ℕ → ℕ → ℕ → Option (Route × Option ℕ × Context)
send copy node ctx source destination type session payload sz =
    let from = if source == 0 then ctx.handle else source in
    let routed : Option (Route × Option ℕ × Context) =
      elim (filter_args copy ctx type session payload sz) [
        | none ↦ none
        | some (session', payload', sz', ctx') ↦
            let m : Message = record {
              source = from;
              session = session';
              payload = payload';
              sz = sz';
            } in
            elim (route node destination m) [ none ↦ none | some (r, back) ↦ some (r, back, ctx') ]
      ] in
    if bit_and sz message_type_mask == sz then routed else some (too_large, none, ctx)
