-- ===== src/Gate/Forward.antt =====
-- The message that `_forward` of service-src/service_gate.c makes of a packet.
use demo_skynet_server.Common.{
  ℕ, ◌≡◌, refl, ◌≢◌, ◌⊎◌, inl, inr, some, List, [], ◌∷◌, ◌++◌, ◌==◌, if◌then◌else◌, Bool-cases,
  ==_iff,
}
use demo_skynet_server.Databuffer.{Databuffer, Pool, databuffer_read}
use demo_skynet_server.Gate.{Receivers, Sent, data_text, read_packet, forward}

-- Somebody is there to send to.
abbrev pub IsHeard : Receivers → Type 0
IsHeard to = (to.broker ≢ 0) ⊎ (to.agent ≢ 0) ⊎ (to.watchdog ≢ 0)

-- The broker is sent the packet itself, and so is the agent, in the name of its client; the watchdog is
-- sent a text with the socket's id and the packet in it.
abbrev pub outgoing : Receivers → List ℕ → Sent
outgoing to packet =
    if to.broker == 0
    then if to.agent == 0
      then record {
        source = 0;
        destination = to.watchdog;
        type = 0;
        data_bytes = data_text to.id ++ packet;
      }
      else record {
        source = to.client;
        destination = to.agent;
        type = to.client_tag;
        data_bytes = packet;
      }
    else record { source = 0; destination = to.broker; type = to.client_tag; data_bytes = packet }

read_packet_lem :
    (message : List ℕ → Sent) (size : ℕ) (db db' : Databuffer) (mp mp' : Pool) (packet : List ℕ)
    → databuffer_read size db mp ≡ some (packet, db', mp')
    → read_packet message size db mp ≡ some (message packet ∷ [], db', mp')
unfolding read_packet
read_packet_lem message size db db' mp mp' packet e = rw (e, read_packet) refl

pub forward_lem :
    (to : Receivers) (size : ℕ) (db db' : Databuffer) (mp mp' : Pool) (packet : List ℕ)
    → IsHeard to
    → databuffer_read size db mp ≡ some (packet, db', mp')
    → forward to size db mp ≡ some (outgoing to packet ∷ [], db', mp')
unfolding forward
forward_lem to size db db' mp mp' packet heard e = elim (Bool-cases (to.broker == 0)) [
  | inr b ↦ rw b (read_packet_lem _ size db db' mp mp' packet e)
  | inl b ↦ elim (Bool-cases (to.agent == 0)) [
    | inr a ↦ rw (b, a) (read_packet_lem _ size db db' mp mp' packet e)
    | inl a ↦ elim (Bool-cases (to.watchdog == 0)) [
      | inr w ↦ rw (b, a, w) (read_packet_lem _ size db db' mp mp' packet e)
      | inl w ↦ elim heard [
        | inl h ↦ absurd (h ((==_iff to.broker 0).0 b))
        | inr (inl h) ↦ absurd (h ((==_iff to.agent 0).0 a))
        | inr (inr h) ↦ absurd (h ((==_iff to.watchdog 0).0 w))
      ]
    ]
  ]
]
