-- ===== src/Gate.antt =====
-- service-src/service_gate.c: how the gate cuts what a connection receives into packets, and to whom it
-- sends them. The sends themselves are left out: the messages are returned.
pub mod Forward
pub mod Cut
pub mod Framing
pub mod Packets
pub mod Resume
pub mod Segments
pub mod Stuck
mod Tests
use demo_skynet_server.Common.{
  ℕ, zero, suc, ◌+◌, ◌^◌, ◌/◌, bit_and, Bool, true, false, Option, none, some, List, [], ◌∷◌, ◌++◌,
  ◌%◌, not, ◌==◌, ltb, leb, if◌then◌else◌, length, take, drop,
}
use demo_skynet_server.Databuffer.{
  Databuffer, Pool, databuffer_push, databuffer_read, databuffer_readheader, databuffer_reset,
  databuffer_clear, header_of,
}

-- What `_forward` reads of `struct gate` and `struct connection`: the handles of the broker, the watchdog
-- and the agent, where 0 is none, the tag of clients' messages, the agent's client and the socket's id.
pub record Receivers : Type 0 where
  pub broker : ℕ
  pub watchdog : ℕ
  pub client_tag : ℕ
  pub agent : ℕ
  pub client : ℕ
  pub id : ℕ

-- A message as `skynet_send` gets it, its data as bytes and its type without PTYPE_TAG_DONTCOPY.
pub record Sent : Type 0 where
  pub source : ℕ
  pub destination : ℕ
  pub type : ℕ
  pub data_bytes : List ℕ

-- A number in decimal digits; 10 of them are enough for an `int`.
pub decimal : ℕ → ℕ → List ℕ
decimal zero n = []
decimal (suc fuel) n =
    let high = decimal fuel (n / 10) in
    if ltb n 10 then (48 + n) ∷ [] else high ++ (48 + n % 10) ∷ []

-- The text "%d data " that snprintf writes, with at most 16 of the 32 bytes that it may.
pub data_text : ℕ → List ℕ
data_text id = decimal 10 id ++ 32 ∷ 100 ∷ 97 ∷ 116 ∷ 97 ∷ 32 ∷ []

-- What is sent, whether the connection was closed, and what is left.
abbrev pub Dispatched : Type 0
Dispatched = Option (List Sent × Bool × Databuffer × Pool)

-- The read of a packet and the message that is made of it.
pub read_packet : (List ℕ → Sent) → ℕ → Databuffer → Pool → Option (List Sent × Databuffer × Pool)
read_packet message size db mp = elim (databuffer_read size db mp) [
  | none ↦ none
  | some (bytes, db', mp') ↦ some (message bytes ∷ [], db', mp')
]

-- `_forward`: to the broker, to the agent or to the watchdog, whichever is there first; with nobody
-- there the bytes stay where they are.
pub forward : Receivers → ℕ → Databuffer → Pool → Option (List Sent × Databuffer × Pool)
forward to size db mp =
    let to_broker =
      read_packet
        (λ bytes. record {
          source = 0;
          destination = to.broker;
          type = to.client_tag;
          data_bytes = bytes;
        })
        size db mp in
    let to_agent =
      read_packet
        (λ bytes. record {
          source = to.client;
          destination = to.agent;
          type = to.client_tag;
          data_bytes = bytes;
        })
        size db mp in
    let to_watchdog =
      read_packet
        (λ bytes. record {
          source = 0;
          destination = to.watchdog;
          type = 0;
          data_bytes = data_text to.id ++ bytes;
        })
        size db mp in
    if not (to.broker == 0)
    then to_broker
    else if not (to.agent == 0)
    then to_agent
    else if not (to.watchdog == 0)
    then to_watchdog
    else some ([], db, mp)

-- The body of the loop of `dispatch_message` once the header is read; `further` is the rest of
-- the loop. A size from 2^31 on is a negative `int`.
pub handle_size :
    (Databuffer → Pool → Dispatched) → Receivers → Option ℕ → Databuffer → Pool → Dispatched
handle_size further to none db mp = some ([], false, db, mp)
handle_size further to (some size) db mp =
    let cleared = databuffer_clear db mp in
    let closed : Dispatched = some ([], true, cleared.0, cleared.1) in
    let sent : Dispatched = elim (forward to size db mp) [
      | none ↦ none
      | some (packets, db', mp') ↦ elim (further (databuffer_reset db') mp') [
        | none ↦ none
        | some (later, shut, db'', mp'') ↦ some (packets ++ later, shut, db'', mp'')
      ]
    ] in
    if leb (2 ^ 31) size
    then some ([], false, db, mp)
    else if size == 0
    then further db mp
    else if leb 0x1000000 size
    then closed
    else sent

-- The loop of `dispatch_message`, with fuel.
pub dispatch_rounds : ℕ → ℕ → Receivers → Databuffer → Pool → Dispatched
dispatch_rounds zero header_size to db mp = none
dispatch_rounds (suc fuel) header_size to db mp = elim (databuffer_readheader header_size db mp) [
  | none ↦ none
  | some (size, db', mp') ↦ handle_size (dispatch_rounds fuel header_size to) to size db' mp'
]

-- `dispatch_message`. One round more than there are bytes is enough: see `dispatch_message_lem`.
pub dispatch_message : ℕ → Receivers → List ℕ → Databuffer → Pool → Dispatched
dispatch_message header_size to bytes db mp =
    let r = databuffer_push bytes (length bytes) db mp in
    dispatch_rounds (suc r.0.size) header_size to r.0 r.1

-- The packets of a stream of bytes, with what is left: a header that is already read, or 0, and the
-- bytes behind it.
abbrev pub Split : Type 0
Split = List (List ℕ) × ℕ × List ℕ

pub split_body : (List ℕ → Split) → ℕ → List ℕ → Split
split_body further header bytes =
    let rest = further (drop header bytes) in
    if ltb (length bytes) header
    then ([], header, bytes)
    else if header == 0
    then further bytes
    else (take header bytes ∷ rest.0, rest.1, rest.2)

pub split_packets : ℕ → ℕ → List ℕ → Split
split_packets zero header bytes = ([], header, bytes)
split_packets (suc fuel) header bytes =
    let further = split_packets fuel 0 in
    if header == 0
    then if ltb (length bytes) 2
      then ([], 0, bytes)
      else split_body further (header_of 2 (take 2 bytes)) (drop 2 bytes)
    else split_body further header bytes

-- `lpack` of lualib-src/lua-netpack.c, with write_size: the packet behind its length, for a client or
-- service that talks to a gate; `none` is the error for a packet that is too long.
pub pack : List ℕ → Option (List ℕ)
pack bytes =
    if leb 0x10000 (length bytes)
    then none
    else some (bit_and (length bytes / 2 ^ 8) 0xff ∷ bit_and (length bytes) 0xff ∷ bytes)

-- Several packets, one behind the other.
pub pack_all : List (List ℕ) → Option (List ℕ)
pack_all [] = some []
pack_all (p ∷ ps) = elim (pack p) [
  | none ↦ none
  | some bytes ↦ elim (pack_all ps) [ none ↦ none | some rest ↦ some (bytes ++ rest) ]
]
