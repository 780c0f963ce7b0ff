-- ===== src/Gate/Framing.antt =====
-- `dispatch_message` of service-src/service_gate.c with a header of two bytes: it cuts the stream as
-- `split_packets` does.
use native.Mathlib.Decide.{dec_lt, ℕ_discrete}
use demo_skynet_server.Common.{
  ℕ, zero, suc, ◌+◌, ◌^◌, ◌≤◌, ◌<◌, ◌≡◌, refl, sym, ap, ap₂, subst, ◌∙◌, ◌≢◌, map, false, some,
  List, [], ◌∷◌, ◌++◌, arith, length, take, drop, length-drop, length-take, All, All-append, lt→ltb,
  ==_iff, ==_differ, if_true, if_false, All-take, All-drop, not_le→leb,
}
use demo_skynet_server.Databuffer.{
  Databuffer, Pool, header_of, ready, databuffer_push, databuffer_readheader, databuffer_reset,
}
use demo_skynet_server.Databuffer.Stream.{IsValid, stream, push_lem, read_lem}
use demo_skynet_server.Databuffer.Header.{
  IsByte, header_of-two, readheader_short, readheader_known, readheader_parses, ready_short,
  ready_full, reset_lem,
}
use demo_skynet_server.Gate.Forward.{IsHeard, outgoing, forward_lem}
use demo_skynet_server.Gate.Cut.{body_waits, body_empty, body_cuts, split_parses}
use demo_skynet_server.Gate.{
  Dispatched, Receivers, handle_size, dispatch_rounds, dispatch_message, Split, split_body,
  split_packets,
}

-- A connection's buffer between two messages, of bytes, with a header of 16 bits.
pub record IsFed (db : Databuffer) : Type 0 where
  pub valid : IsValid db
  pub bytes : All IsByte (stream db)
  pub header : db.header < 2 ^ 16

-- The outcome that cuts the stream as `s` says.
abbrev pub Follows : Receivers → Split → Dispatched → Type 0
Follows to s r =
    (db' : Databuffer) × (mp' : Pool) × (r ≡ some (map (outgoing to) s.0, false, db', mp'))
    × IsFed db'
    × (db'.header ≡ s.1)
    × (stream db' ≡ s.2)

module _ (to : Receivers) (heard : IsHeard to) where
  -- The rest of the loop, from a buffer whose header is used up.
  abbrev FollowsOn : (Databuffer → Pool → Dispatched) → (List ℕ → Split) → ℕ → Type 0
  FollowsOn further cut limit =
      (db : Databuffer) (mp : Pool)
      → IsFed db
      → db.header ≡ 0
      → length (stream db) < limit
      → Follows to (cut (stream db)) (further db mp)

  module _ (further : Databuffer → Pool → Dispatched) (cut : List ℕ → Split) (limit : ℕ)
      (on : FollowsOn further cut limit) where
    handle_zero :
        (size : ℕ) (db : Databuffer) (mp : Pool)
        → size ≡ 0
        → handle_size further to (some size) db mp ≡ further db mp
    unfolding handle_size
    handle_zero size db mp z =
        if_false (not_le→leb (2 ^ 31) size (omega arith)) _ _ ∙ if_true ((==_iff size 0).1 z) _ _

    handle_packet :
        (size : ℕ) (db : Databuffer) (mp : Pool)
        → IsFed db
        → size < 2 ^ 16
        → size ≢ 0
        → size ≤ length (stream db)
        → length (stream db) < limit + size
        → let s = cut (drop size (stream db)) in
          Follows to
            (take size (stream db) ∷ s.0, s.1, s.2)
            (handle_size further to (some size) db mp)
    unfolding handle_size
    handle_packet size db mp f small nz inside short =
        let (db1, mp1, read, v1, left, same) = read_lem size db mp f.valid (omega arith) inside in
        let e1 = forward_lem to size db db1 mp mp1 (take size (stream db)) heard read in
        let (v2, same2, z2) = reset_lem db1 v1 in
        let rest : stream (databuffer_reset db1) ≡ drop size (stream db) = same2 ∙ left in
        let (db3, mp3, e3, f3, h3, s3) =
          on (databuffer_reset db1) mp1
            (record {
              valid = v2;
              bytes = subst (All IsByte) (sym rest) (All-drop IsByte size (stream db) f.bytes);
              header = omega arith;
            })
            z2 (omega (arith, ap length rest, length-drop size (stream db))) in
        let cut_same : cut (stream (databuffer_reset db1)) ≡ cut (drop size (stream db)) =
          ap cut rest in
        (
          db3,
          mp3,
          if_false (not_le→leb (2 ^ 31) size (omega arith)) _ _
              ∙ if_false (==_differ size 0 nz) _ _
              ∙ if_false (not_le→leb 0x1000000 size (omega arith)) _ _
              ∙ rw e1 (rw e3 refl)
              ∙ ap
                  (λ (s : Split).
                    some (
                      outgoing to (take size (stream db)) ∷ map (outgoing to) s.0,
                      false,
                      db3,
                      mp3,
                    ))
                  cut_same,
          f3,
          h3 ∙ ap (λ (s : Split). s.1) cut_same,
          s3 ∙ ap (λ (s : Split). s.2) cut_same,
        )

    -- A buffer whose header is known.
    handle_lem :
        (db : Databuffer) (mp : Pool)
        → IsFed db
        → length (stream db) < limit + db.header
        → Follows to
            (split_body cut db.header (stream db))
            (handle_size further to (ready db) db mp)
    unfolding handle_size
    handle_lem db mp f short = elim (dec_lt (length (stream db)) db.header) [
      | yes l ↦ (
        db,
        mp,
        ap (λ o. handle_size further to o db mp)
              (ready_short db f.header (omega (arith, f.valid.counted)))
            ∙ ap (λ (s : Split). some (map (outgoing to) s.0, false, db, mp))
                (sym (body_waits cut db.header (stream db) l)),
        f,
        ap (λ (s : Split). s.1) (sym (body_waits cut db.header (stream db) l)),
        ap (λ (s : Split). s.2) (sym (body_waits cut db.header (stream db) l)),
      )
      | no l ↦
          let full = ready_full db (omega (arith, f.valid.counted)) in
          elim (ℕ_discrete db.header 0) [
            | yes z ↦
                subst
                  (λ o.
                    Follows to (split_body cut db.header (stream db))
                      (handle_size further to o db mp))
                  (sym full)
                  (subst (λ r. Follows to (split_body cut db.header (stream db)) r)
                    (sym (handle_zero db.header db mp z))
                    (subst (λ s. Follows to s (further db mp))
                      (sym (body_empty cut (stream db) db.header z)) (on db mp f z (omega arith))))
            | no nz ↦
                subst
                  (λ o.
                    Follows to (split_body cut db.header (stream db))
                      (handle_size further to o db mp))
                  (sym full)
                  (subst (λ s. Follows to s (handle_size further to (some db.header) db mp))
                    (sym (body_cuts cut db.header (stream db) (omega arith) nz))
                    (handle_packet db.header db mp f f.header nz (omega arith) short))
          ]
    ]

  rounds_known :
      (fuel : ℕ) (db : Databuffer) (mp : Pool)
      → db.header ≢ 0
      → (dispatch_rounds (suc fuel) 2 to db mp
          ≡ handle_size (dispatch_rounds fuel 2 to) to (ready db) db mp)
        × (split_packets (suc fuel) db.header (stream db)
            ≡ split_body (split_packets fuel 0) db.header (stream db))
  unfolding dispatch_rounds split_packets
  rounds_known fuel db mp nz = (
    rw (readheader_known db mp nz, dispatch_rounds) refl,
    if_false (==_differ db.header 0 nz) _ _,
  )

  rounds_short :
      (fuel : ℕ) (db : Databuffer) (mp : Pool)
      → IsValid db
      → db.header ≡ 0
      → length (stream db) < 2
      → (dispatch_rounds (suc fuel) 2 to db mp ≡ some ([], false, db, mp))
        × (split_packets (suc fuel) db.header (stream db) ≡ ([], 0, stream db))
  unfolding dispatch_rounds split_packets handle_size
  rounds_short fuel db mp v z h = (
    rw (readheader_short db mp v z h, dispatch_rounds) refl,
    if_true ((==_iff db.header 0).1 z) _ _ ∙ if_true (lt→ltb (length (stream db)) 2 h) _ _,
  )

  rounds_parses :
      (fuel : ℕ) (db db' : Databuffer) (mp mp' : Pool)
      → databuffer_readheader 2 db mp ≡ some (ready db', db', mp')
      → dispatch_rounds (suc fuel) 2 to db mp
        ≡ handle_size (dispatch_rounds fuel 2 to) to (ready db') db' mp'
  unfolding dispatch_rounds
  rounds_parses fuel db db' mp mp' e = rw (e, dispatch_rounds) refl

  parsed_IsFed :
      (db db' : Databuffer)
      → IsFed db
      → IsValid db'
      → 2 ≤ length (stream db)
      → stream db' ≡ drop 2 (stream db)
      → db'.header ≡ header_of 2 (take 2 (stream db))
      → IsFed db'
  parsed_IsFed db db' f v h left same = record {
    valid = v;
    bytes = subst (All IsByte) (sym left) (All-drop IsByte 2 (stream db) f.bytes);
    header = omega (
      arith,
      same,
      header_of-two (take 2 (stream db)) (All-take IsByte 2 (stream db) f.bytes)
          (omega (arith, length-take 2 (stream db) h)),
    );
  }

  rounds_lem :
      (fuel : ℕ) (db : Databuffer) (mp : Pool)
      → IsFed db
      → length (stream db) < fuel
      → Follows to (split_packets fuel db.header (stream db)) (dispatch_rounds fuel 2 to db mp)
  rounds_lem zero db mp f h = absurd (omega arith)
  rounds_lem (suc fuel) db mp f h =
      let on : FollowsOn (dispatch_rounds fuel 2 to) (split_packets fuel 0) fuel = λ d m g z l.
        subst (λ k. Follows to (split_packets fuel k (stream d)) (dispatch_rounds fuel 2 to d m)) z
          (rounds_lem fuel d m g l) in
      elim (ℕ_discrete db.header 0) [
        | no nz ↦
            let (e, e') = rounds_known fuel db mp nz in
            subst (λ r. Follows to (split_packets (suc fuel) db.header (stream db)) r) (sym e)
              (subst
                (λ s. Follows to s (handle_size (dispatch_rounds fuel 2 to) to (ready db) db mp))
                (sym e')
                (handle_lem (dispatch_rounds fuel 2 to) (split_packets fuel 0) fuel on db mp f
                  (omega arith)))
        | yes z ↦ elim (dec_lt (length (stream db)) 2) [
          | yes short ↦
              let (e, e') = rounds_short fuel db mp f.valid z short in
              (
                db,
                mp,
                e ∙ ap (λ (s : Split). some (map (outgoing to) s.0, false, db, mp)) (sym e'),
                f,
                z ∙ ap (λ (s : Split). s.1) (sym e'),
                ap (λ (s : Split). s.2) (sym e'),
              )
          | no long ↦
              let (db', mp', e, v', left, same) = readheader_parses db mp f.valid z (omega arith) in
              let body =
                handle_lem (dispatch_rounds fuel 2 to) (split_packets fuel 0) fuel on db' mp'
                  (parsed_IsFed db db' f v' (omega arith) left same)
                  (omega (arith, ap length left, length-drop 2 (stream db))) in
              subst (λ r. Follows to (split_packets (suc fuel) db.header (stream db)) r)
                (sym (rounds_parses fuel db db' mp mp' e))
                (subst
                  (λ s.
                    Follows to s (handle_size (dispatch_rounds fuel 2 to) to (ready db') db' mp'))
                  (ap₂ (split_body (split_packets fuel 0)) same left
                    ∙ sym (split_parses fuel db.header (stream db) z (omega arith)))
                  body)
        ]
      ]

  -- With a header of two bytes and a broker, an agent or a watchdog to send to, `dispatch_message` ends,
  -- and no assertion fails and no null pointer is read. It sends the packets into which the bytes that
  -- wait and the new ones split, in order and each as `outgoing` says, never closes the connection, and
  -- keeps what is left for the next call.
  pub dispatch_message_lem :
      (bytes : List ℕ) (db : Databuffer) (mp : Pool)
      → IsFed db
      → All IsByte bytes
      → Follows to
          (split_packets (suc (db.size + length bytes)) db.header (stream db ++ bytes))
          (dispatch_message 2 to bytes db mp)
  unfolding dispatch_message
  dispatch_message_lem bytes db mp f b =
      let (v, added, same, size) = push_lem bytes db mp f.valid in
      let r = databuffer_push bytes (length bytes) db mp in
      let after =
        rounds_lem (suc r.0.size) r.0 r.1
          (record {
            valid = v;
            bytes = subst (All IsByte) (sym added) (All-append IsByte (stream db) bytes f.bytes b);
            header = omega (arith, same, f.header);
          })
          (omega (arith, v.counted)) in
      subst (λ s. Follows to s (dispatch_rounds (suc r.0.size) 2 to r.0 r.1))
        (ap (λ k. split_packets (suc k) r.0.header (stream r.0)) size
          ∙ ap₂ (split_packets (suc (db.size + length bytes))) same added)
        after
