-- ===== src/Gate/Tests.antt =====
-- Concrete runs of the gate's packets of service-src/service_gate.c.
use demo_skynet_server.Common.{
  ℕ, ◌≡◌, ◌+◌, length, map, inl, inr, refl, false, some, List, [], ◌∷◌, ◌++◌, arith,
}
use demo_skynet_server.Databuffer.{Databuffer, Pool, empty_pool, empty_buffer}
use demo_skynet_server.Databuffer.Stream.{IsValid, stream, flat}
use demo_skynet_server.Gate.{
  Receivers, data_text, decimal, split_body, split_packets, dispatch_message, pack, pack_all,
}
use demo_skynet_server.Gate.Framing.{IsFed, Follows, dispatch_message_lem}
use demo_skynet_server.Gate.Segments.{dispatch_all, join, dispatch_all-pack_all}
use demo_skynet_server.Gate.Stuck.{dispatch_all_stuck}
use demo_skynet_server.Gate.Forward.{outgoing}

-- "hi" and "!", in three pieces that cut both headers.
abbrev pieces : List (List ℕ)
pieces = (0 ∷ []) ∷ (2 ∷ 104 ∷ 105 ∷ 0 ∷ []) ∷ (1 ∷ 33 ∷ []) ∷ []

abbrev packets : List (List ℕ)
packets = (104 ∷ 105 ∷ []) ∷ (33 ∷ []) ∷ []

packed : pack_all packets ≡ some (join pieces)
unfolding pack_all pack join
packed = refl

-- A watchdog alone, and an agent for the client 7 beside it.
abbrev watched : Receivers
watched = record { broker = 0; watchdog = 11; client_tag = 3; agent = 0; client = 7; id = 42 }

abbrev served : Receivers
served = record watched { agent = 12 }

dispatch_all-pack_all_example :
    (db : Databuffer) × (mp' : Pool) × (dispatch_all 2 watched pieces empty_buffer empty_pool
      ≡ some (map (outgoing watched) packets, false, db, mp'))
    × (db.header ≡ 0)
    × (stream db ≡ [])
dispatch_all-pack_all_example =
    dispatch_all-pack_all watched packets pieces empty_pool (inr (inr (λ e. omega (arith, e))))
      packed (omega arith, (omega arith, tt))
      ((omega arith, (omega arith, tt)), ((omega arith, tt), tt))

-- "42 data !"
to_watchdog :
    (outgoing watched (33 ∷ [])).data_bytes ≡ 52 ∷ 50 ∷ 32 ∷ 100 ∷ 97 ∷ 116 ∷ 97 ∷ 32 ∷ 33 ∷ []
unfolding data_text decimal
to_watchdog = refl

to_agent :
    outgoing served (33 ∷ [])
    ≡ record { source = 7; destination = 12; type = 3; data_bytes = 33 ∷ [] }
to_agent = refl

-- A connection that waits for 3 bytes and has one of them.
abbrev waiting : Databuffer
waiting = record {
  header = 3;
  offset = 0;
  size = 1;
  chunks = record { node = 0; buffer = 97 ∷ []; size = 1 } ∷ [];
}

waiting-IsFed : IsFed waiting
unfolding flat
waiting-IsFed = record {
  valid = record { chained = ((refl, tt), omega arith); counted = refl };
  bytes = (omega arith, tt);
  header = omega arith;
}

dispatch_message_lem_example :
    Follows served
      (split_packets 5 3 (stream waiting ++ 98 ∷ 99 ∷ 0 ∷ []))
      (dispatch_message 2 served (98 ∷ 99 ∷ 0 ∷ []) waiting empty_pool)
dispatch_message_lem_example =
    dispatch_message_lem served (inr (inl (λ e. omega (arith, e)))) (98 ∷ 99 ∷ 0 ∷ []) waiting
      empty_pool waiting-IsFed (omega arith, (omega arith, (omega arith, tt)))

split_three : split_packets 5 3 (97 ∷ 98 ∷ 99 ∷ 0 ∷ []) ≡ ((97 ∷ 98 ∷ 99 ∷ []) ∷ [], 0, 0 ∷ [])
unfolding split_packets split_body
split_three = refl

-- A connection that has the first byte of a header of four, 0x80.
abbrev begun : Databuffer
begun = record {
  header = 0;
  offset = 0;
  size = 1;
  chunks = record { node = 0; buffer = 128 ∷ []; size = 1 } ∷ [];
}

begun-IsValid : IsValid begun
unfolding flat
begun-IsValid = record { chained = ((refl, tt), omega arith); counted = refl }

begun-stream : stream begun ++ 0 ∷ 0 ∷ 1 ∷ 97 ∷ [] ≡ 128 ∷ 0 ∷ 0 ∷ 1 ∷ 97 ∷ []
unfolding flat
begun-stream = refl

dispatch_all_stuck_example :
    (db' : Databuffer) × (mp' : Pool) × (dispatch_all 4 served
        ((0 ∷ 0 ∷ 1 ∷ 97 ∷ []) ∷ (98 ∷ []) ∷ [])
        begun
        empty_pool
      ≡ some ([], false, db', mp'))
    × (stream db' ≡ (97 ∷ []) ++ join ((98 ∷ []) ∷ []))
    × (db'.size ≡ 1 + length (join ((98 ∷ []) ∷ [])))
dispatch_all_stuck_example =
    dispatch_all_stuck served (0 ∷ 0 ∷ 1 ∷ 97 ∷ []) (97 ∷ []) 128 0 0 1 ((98 ∷ []) ∷ []) begun
      empty_pool begun-IsValid refl begun-stream (omega arith)
