-- ===== src/Gate/Stuck.antt =====
-- A length of 2^31 or more in a header of four bytes: service-src/service_gate.c takes it for a
-- header that has not come yet.
use demo_skynet_server.Common.{
  ℕ, ◌+◌, ◌^◌, ◌≤◌, ◌≡◌, refl, sym, ap, subst, ◌∙◌, false, some, List, [], ◌∷◌, ◌++◌, append_assoc,
  append-nil, arith, length, take, drop, length-append, le→leb, if_true,
}
use demo_skynet_server.Databuffer.{Databuffer, Pool, databuffer_push, header_of}
use demo_skynet_server.Databuffer.Stream.{IsValid, stream, push_lem}
use demo_skynet_server.Databuffer.Header.{header_of-four, readheader_negative, readheader_four}
use demo_skynet_server.Gate.{Receivers, Dispatched, handle_size, dispatch_rounds, dispatch_message}
use demo_skynet_server.Gate.Segments.{dispatch_all, join}

-- A connection whose header is a negative `int`.
record IsStuck (db : Databuffer) : Type 0 where
  pub valid : IsValid db
  pub negative : 2 ^ 31 ≤ db.header

-- A round that finds the header negative.
round_negative :
    (fuel : ℕ) (to : Receivers) (size : ℕ) (db : Databuffer) (mp : Pool)
    → 2 ^ 31 ≤ size
    → handle_size (dispatch_rounds fuel 4 to) to (some size) db mp ≡ some ([], false, db, mp)
unfolding handle_size
round_negative fuel to size db mp h = if_true (le→leb (2 ^ 31) size h) _ _

-- The outcome where the bytes `rest` wait.
Waits : List ℕ → ℕ → Dispatched → Type 0
Waits rest header r =
    (db' : Databuffer) × (mp' : Pool) × (r ≡ some ([], false, db', mp'))
    × IsStuck db'
    × (db'.header ≡ header)
    × (stream db' ≡ rest)

message_stuck :
    (to : Receivers) (bytes : List ℕ) (db : Databuffer) (mp : Pool)
    → IsStuck db
    → Waits (stream db ++ bytes) db.header (dispatch_message 4 to bytes db mp)
unfolding dispatch_message dispatch_rounds Waits
message_stuck to bytes db mp w =
    let (v', added, same, size) = push_lem bytes db mp w.valid in
    let r = databuffer_push bytes (length bytes) db mp in
    let big : 2 ^ 31 ≤ r.0.header = omega (arith, same, w.negative) in
    let read = readheader_negative 4 r.0 r.1 big in
    (
      r.0,
      r.1,
      rw (read, dispatch_rounds) (round_negative r.0.size to r.0.header r.0 r.1 big),
      record { valid = v'; negative = big },
      same,
      added,
    )

-- The message whose first four bytes are the header.
message_begins :
    (to : Receivers) (bytes : List ℕ) (db : Databuffer) (mp : Pool)
    → IsValid db
    → db.header ≡ 0
    → 4 ≤ length (stream db ++ bytes)
    → 2 ^ 31 ≤ header_of 4 (take 4 (stream db ++ bytes))
    → Waits
        (drop 4 (stream db ++ bytes))
        (header_of 4 (take 4 (stream db ++ bytes)))
        (dispatch_message 4 to bytes db mp)
unfolding dispatch_message dispatch_rounds Waits
message_begins to bytes db mp v z long big =
    let (v', added, same, size) = push_lem bytes db mp v in
    let r = databuffer_push bytes (length bytes) db mp in
    let there : 2 ^ 31 ≤ header_of 4 (take 4 (stream r.0)) =
      subst (λ bs. 2 ^ 31 ≤ header_of 4 (take 4 bs)) (sym added) big in
    let (db', mp', read, v'', left, head) =
      readheader_four r.0 r.1 v' (omega (arith, same)) (omega (arith, ap length added)) there in
    let big' : 2 ^ 31 ≤ db'.header = omega (arith, head, there) in
    (
      db',
      mp',
      rw (read, dispatch_rounds) (round_negative r.0.size to db'.header db' mp' big'),
      record { valid = v''; negative = big' },
      head ∙ ap (λ bs. header_of 4 (take 4 bs)) added,
      left ∙ ap (drop 4) added,
    )

all_step :
    (to : Receivers) (bytes : List ℕ) (pieces : List (List ℕ)) (db db1 db2 : Databuffer)
    (mp mp1 mp2 : Pool)
    → dispatch_message 4 to bytes db mp ≡ some ([], false, db1, mp1)
    → dispatch_all 4 to pieces db1 mp1 ≡ some ([], false, db2, mp2)
    → dispatch_all 4 to (bytes ∷ pieces) db mp ≡ some ([], false, db2, mp2)
unfolding dispatch_all
all_step to bytes pieces db db1 db2 mp mp1 mp2 e1 e2 =
    rw (e1, dispatch_all) (rw (e2, dispatch_all) refl)

all_stuck :
    (to : Receivers) (pieces : List (List ℕ)) (db : Databuffer) (mp : Pool)
    → IsStuck db
    → Waits (stream db ++ join pieces) db.header (dispatch_all 4 to pieces db mp)
unfolding Waits dispatch_all join
all_stuck to [] db mp w = (db, mp, refl, w, refl, sym (append-nil (stream db)))
all_stuck to (bytes ∷ pieces) db mp w =
    let (db1, mp1, e1, w1, h1, s1) = message_stuck to bytes db mp w in
    let (db2, mp2, e2, w2, h2, s2) = all_stuck to pieces db1 mp1 w1 in
    (
      db2,
      mp2,
      all_step to bytes pieces db db1 db2 mp mp1 mp2 e1 e2,
      w2,
      h2 ∙ h1,
      s2 ∙ ap (λ bs. bs ++ join pieces) s1 ∙ append_assoc (stream db) bytes (join pieces),
    )

-- With headers of four bytes, let the next packet's header be complete with the bytes that come, and its
-- first byte be 128 or more, a length of 2^31 or more. Then whatever comes after, in any number of
-- pieces, nothing is sent to anybody and the connection is not closed, but every byte behind the
-- header is kept in the buffer.
pub dispatch_all_stuck :
    (to : Receivers) (bytes rest : List ℕ) (a b c d : ℕ) (pieces : List (List ℕ)) (db : Databuffer)
    (mp : Pool)
    → IsValid db
    → db.header ≡ 0
    → stream db ++ bytes ≡ a ∷ b ∷ c ∷ d ∷ rest
    → 2 ^ 7 ≤ a
    → (db' : Databuffer) × (mp' : Pool) × (dispatch_all 4 to (bytes ∷ pieces) db mp
        ≡ some ([], false, db', mp'))
      × (stream db' ≡ rest ++ join pieces)
      × (db'.size ≡ length rest + length (join pieces))
unfolding Waits
dispatch_all_stuck to bytes rest a b c d pieces db mp v z e high =
    let big : 2 ^ 31 ≤ header_of 4 (take 4 (stream db ++ bytes)) =
      subst (λ bs. 2 ^ 31 ≤ header_of 4 (take 4 bs)) (sym e) (header_of-four a b c d high) in
    let (db1, mp1, e1, w1, h1, s1) =
      message_begins to bytes db mp v z (omega (arith, ap length e)) big in
    let (db2, mp2, e2, w2, h2, s2) = all_stuck to pieces db1 mp1 w1 in
    let left : stream db2 ≡ rest ++ join pieces =
      s2 ∙ ap (λ bs. bs ++ join pieces) (s1 ∙ ap (drop 4) e) in
    (
      db2,
      mp2,
      all_step to bytes pieces db db1 db2 mp mp1 mp2 e1 e2,
      left,
      omega (arith, w2.valid.counted, ap length left, length-append rest (join pieces)),
    )
