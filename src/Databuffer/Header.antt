-- ===== src/Databuffer/Header.antt =====
-- `databuffer_readheader` of service-src/databuffer.h with a header of two bytes, on the stream.
use demo_skynet_server.Common.{
  ℕ, ◌+◌, ◌*◌, ◌^◌, ◌≤◌, ◌<◌, bit_or-lt, bit_or, bit_or-ge, bit_or_comm, bit_or-fields, ◌≡◌, refl,
  ap, ◌∙◌, ◌≢◌, false, none, some, List, [], ◌∷◌, arith, length, take, drop, All, ltb, lt→ltb,
  not_lt→ltb, Bool-cases, inl, inr, ==_iff, ==_differ, if_true, if_false,
}
use demo_skynet_server.Databuffer.{
  Databuffer, Pool, header_of, ready, databuffer_readheader, databuffer_reset,
}
use demo_skynet_server.Databuffer.Stream.{IsValid, stream, read_lem}

abbrev pub IsByte : ℕ → Type 0
IsByte b = b < 2 ^ 8

-- A header of two bytes is a number of 16 bits: it is never a negative `int`.
pub header_of-two : (plen : List ℕ) → All IsByte plen → 2 ≤ length plen → header_of 2 plen < 2 ^ 16
unfolding header_of
header_of-two [] v h = absurd (omega arith)
header_of-two (a ∷ []) v h = absurd (omega arith)
header_of-two (a ∷ b ∷ rest) v h =
    bit_or-lt 16 (a * 2 ^ 8) b (omega (arith, v.0)) (omega (arith, v.1.0))

pub readheader_short :
    (db : Databuffer) (mp : Pool)
    → IsValid db
    → db.header ≡ 0
    → length (stream db) < 2
    → databuffer_readheader 2 db mp ≡ some (none, db, mp)
unfolding databuffer_readheader
readheader_short db mp v z h =
    if_true ((==_iff db.header 0).1 z) _ _
    ∙ if_true (lt→ltb db.size 2 (omega (arith, v.counted))) _ _

pub readheader_known :
    (db : Databuffer) (mp : Pool)
    → db.header ≢ 0
    → databuffer_readheader 2 db mp ≡ some (ready db, db, mp)
unfolding databuffer_readheader
readheader_known db mp nz = if_false (==_differ db.header 0 nz) _ _

pub readheader_parses :
    (db : Databuffer) (mp : Pool)
    → IsValid db
    → db.header ≡ 0
    → 2 ≤ length (stream db)
    → (db' : Databuffer) × (mp' : Pool) × (databuffer_readheader 2 db mp
        ≡ some (ready db', db', mp'))
      × IsValid db'
      × (stream db' ≡ drop 2 (stream db))
      × (db'.header ≡ header_of 2 (take 2 (stream db)))
unfolding databuffer_readheader
readheader_parses db mp v z h =
    let (db', mp', e, v', left, same) = read_lem 2 db mp v (omega arith) h in
    (
      record db' { header = header_of 2 (take 2 (stream db)) },
      mp',
      if_true ((==_iff db.header 0).1 z) _ _
          ∙ if_false (not_lt→ltb db.size 2 (omega (arith, v.counted))) _ _
          ∙ rw e refl,
      record { chained = v'.chained; counted = v'.counted },
      left,
      refl,
    )

pub ready_short : (db : Databuffer) → db.header < 2 ^ 16 → db.size < db.header → ready db ≡ none
unfolding ready
ready_short db small h =
    rw (lt→ltb db.size db.header h, lt→ltb db.header (2 ^ 31) (omega arith)) refl

pub ready_full : (db : Databuffer) → db.header ≤ db.size → ready db ≡ some db.header
unfolding ready
ready_full db h = rw (not_lt→ltb db.size db.header h) refl

pub reset_lem :
    (db : Databuffer)
    → IsValid db
    → IsValid (databuffer_reset db)
      × (stream (databuffer_reset db) ≡ stream db)
      × ((databuffer_reset db).header ≡ 0)
unfolding databuffer_reset
reset_lem db v = (record { chained = v.chained; counted = v.counted }, refl, refl)

pub header_of-pair : (a b : ℕ) → b < 2 ^ 8 → header_of 2 (a ∷ b ∷ []) ≡ a * 2 ^ 8 + b
unfolding header_of
header_of-pair a b h = bit_or_comm (a * 2 ^ 8) b ∙ bit_or-fields 8 b a h

ready_negative : (db : Databuffer) → 2 ^ 31 ≤ db.header → ready db ≡ some db.header
unfolding ready
ready_negative db h =
    let big : ltb db.header (2 ^ 31) ≡ false = not_lt→ltb db.header (2 ^ 31) h in
    elim (Bool-cases (ltb db.size db.header)) [ inl t ↦ rw (t, big) refl | inr t ↦ rw t refl ]

-- A negative header is returned as it is, at every size.
pub readheader_negative :
    (header_size : ℕ) (db : Databuffer) (mp : Pool)
    → 2 ^ 31 ≤ db.header
    → databuffer_readheader header_size db mp ≡ some (some db.header, db, mp)
unfolding databuffer_readheader
readheader_negative header_size db mp h =
    if_false (==_differ db.header 0 (omega arith)) _ _
    ∙ ap (λ o. some (o, db, mp)) (ready_negative db h)

-- A header of four bytes whose first byte has its top bit set.
pub header_of-four : (a b c d : ℕ) → 2 ^ 7 ≤ a → 2 ^ 31 ≤ header_of 4 (a ∷ b ∷ c ∷ d ∷ [])
unfolding header_of
header_of-four a b c d h =
    omega (arith, bit_or-ge (a * 2 ^ 24) (bit_or (b * 2 ^ 16) (bit_or (c * 2 ^ 8) d)))

-- A negative header of four bytes that is read now.
pub readheader_four :
    (db : Databuffer) (mp : Pool)
    → IsValid db
    → db.header ≡ 0
    → 4 ≤ length (stream db)
    → 2 ^ 31 ≤ header_of 4 (take 4 (stream db))
    → (db' : Databuffer) × (mp' : Pool) × (databuffer_readheader 4 db mp
        ≡ some (some db'.header, db', mp'))
      × IsValid db'
      × (stream db' ≡ drop 4 (stream db))
      × (db'.header ≡ header_of 4 (take 4 (stream db)))
unfolding databuffer_readheader
readheader_four db mp v z h big =
    let (db', mp', e, v', left, same) = read_lem 4 db mp v (omega arith) h in
    let parsed : Databuffer = record db' { header = header_of 4 (take 4 (stream db)) } in
    (
      parsed,
      mp',
      if_true ((==_iff db.header 0).1 z) _ _
          ∙ if_false (not_lt→ltb db.size 4 (omega (arith, v.counted))) _ _
          ∙ rw e (ap (λ o. some (o, parsed, mp')) (ready_negative parsed big)),
      record { chained = v'.chained; counted = v'.counted },
      left,
      refl,
    )
