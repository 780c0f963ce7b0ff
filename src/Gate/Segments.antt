-- ===== src/Gate/Segments.antt =====
-- Bytes that come in any number of pieces, as from a socket: the packets do not depend on the pieces.
use mathlib.Core.List.{map-append}
use demo_skynet_server.Common.{
  ℕ, suc, ◌+◌, ◌<◌, ◌≡◌, refl, sym, ap, ap₂, subst, ◌∙◌, map, true, false, none, some, List, [],
  ◌∷◌, ◌++◌, append_assoc, append-nil, arith, length, length-append, All, All-left, All-right,
}
use demo_skynet_server.Databuffer.{Databuffer, Pool, empty_buffer}
use demo_skynet_server.Databuffer.Stream.{stream, empty_buffer-IsValid, empty_buffer-stream}
use demo_skynet_server.Databuffer.Header.{IsByte}
use demo_skynet_server.Gate.{Dispatched, Receivers, Sent, Split, dispatch_message, pack_all}
use demo_skynet_server.Gate.Forward.{IsHeard, outgoing}
use demo_skynet_server.Gate.Cut.{split_short}
use demo_skynet_server.Gate.Framing.{IsFed, Follows, dispatch_message_lem}
use demo_skynet_server.Gate.Packets.{split_packets-pack_all, pack_all-bytes}
use demo_skynet_server.Gate.Resume.{whole, split-whole, whole-append, whole_left}

-- `dispatch_message` on one piece after the other, until the connection is closed.
unfoldable pub dispatch_all : ℕ → Receivers → List (List ℕ) → Databuffer → Pool → Dispatched
dispatch_all header_size to [] db mp = some ([], false, db, mp)
dispatch_all header_size to (bytes ∷ pieces) db mp =
    elim (dispatch_message header_size to bytes db mp) [
      | none ↦ none
      | some (sent, true, db', mp') ↦ some (sent, true, db', mp')
      | some (sent, false, db', mp') ↦ elim (dispatch_all header_size to pieces db' mp') [
        | none ↦ none
        | some (later, closed, db'', mp'') ↦ some (sent ++ later, closed, db'', mp'')
      ]
    ]

unfoldable pub join : List (List ℕ) → List ℕ
join [] = []
join (bytes ∷ pieces) = bytes ++ join pieces

-- No packet waits in the buffer.
abbrev IsDrained : Databuffer → Type 0
IsDrained db = whole db.header (stream db) ≡ ([], db.header, stream db)

all_parts :
    (to : Receivers) (bytes : List ℕ) (pieces : List (List ℕ)) (sent later : List Sent)
    (db db1 db2 : Databuffer) (mp mp1 mp2 : Pool)
    → dispatch_message 2 to bytes db mp ≡ some (sent, false, db1, mp1)
    → dispatch_all 2 to pieces db1 mp1 ≡ some (later, false, db2, mp2)
    → dispatch_all 2 to (bytes ∷ pieces) db mp ≡ some (sent ++ later, false, db2, mp2)
unfolding dispatch_all
all_parts to bytes pieces sent later db db1 db2 mp mp1 mp2 e1 e2 =
    rw (e1, dispatch_all) (rw (e2, dispatch_all) refl)

dispatch_all_lem :
    (to : Receivers)
    → IsHeard to
    → (pieces : List (List ℕ)) (db : Databuffer) (mp : Pool) → IsFed db
    → IsDrained db
    → All IsByte (join pieces)
    → Follows to (whole db.header (stream db ++ join pieces)) (dispatch_all 2 to pieces db mp)
unfolding dispatch_all join
dispatch_all_lem to heard [] db mp f d b =
    subst (λ s. Follows to s (some ([], false, db, mp)))
      (sym d ∙ ap (whole db.header) (sym (append-nil (stream db)))) (db, mp, refl, f, refl, refl)
dispatch_all_lem to heard (bytes ∷ pieces) db mp f d b =
    let first : Split = whole db.header (stream db ++ bytes) in
    let cut =
      split-whole (suc (db.size + length bytes)) db.header (stream db ++ bytes)
        (omega (arith, f.valid.counted, length-append (stream db) bytes)) in
    let (db1, mp1, e1, f1, h1, s1) =
      subst (λ s. Follows to s (dispatch_message 2 to bytes db mp)) cut
        (dispatch_message_lem to heard bytes db mp f (All-left IsByte bytes (join pieces) b)) in
    let drained : IsDrained db1 =
      ap₂ whole h1 s1
      ∙ whole_left db.header (stream db ++ bytes)
      ∙ ap₂ (λ h s. ([], h, s)) (sym h1) (sym s1) in
    let (db2, mp2, e2, f2, h2, s2) =
      dispatch_all_lem to heard pieces db1 mp1 f1 drained
        (All-right IsByte bytes (join pieces) b) in
    let rest : whole db1.header (stream db1 ++ join pieces)
        ≡ whole first.1 (first.2 ++ join pieces) =
      ap₂ (λ h s. whole h (s ++ join pieces)) h1 s1 in
    let joined =
      ap (whole db.header) (sym (append_assoc (stream db) bytes (join pieces)))
      ∙ whole-append db.header (stream db ++ bytes) (join pieces) in
    (
      db2,
      mp2,
      all_parts to bytes pieces _ _ db db1 db2 mp mp1 mp2 e1 e2
          ∙ ap (λ (ms : List Sent). some (ms, false, db2, mp2))
              (sym
                (map-append (outgoing to) first.0 (whole db1.header (stream db1 ++ join pieces)).0))
          ∙ ap (λ (s : Split). some (map (outgoing to) (first.0 ++ s.0), false, db2, mp2)) rest
          ∙ ap (λ (s : Split). some (map (outgoing to) s.0, false, db2, mp2)) (sym joined),
      f2,
      h2 ∙ ap (λ (s : Split). s.1) rest ∙ ap (λ (s : Split). s.1) (sym joined),
      s2 ∙ ap (λ (s : Split). s.2) rest ∙ ap (λ (s : Split). s.2) (sym joined),
    )

-- Packets that are not empty and that `lpack` has packed come to the services behind a gate with headers
-- of two bytes, into whatever pieces the socket cuts the bytes: one message for each packet, in order,
-- and nothing is left. To a broker or an agent the message is the packet exactly as it was; to a
-- watchdog, which is sent it where there is neither, it is the packet behind the text "%d data " with
-- the socket's id. No assertion fails, no null pointer is read and the connection stays open.
pub dispatch_all-pack_all :
    (to : Receivers) (ps pieces : List (List ℕ)) (mp : Pool)
    → IsHeard to
    → pack_all ps ≡ some (join pieces)
    → All (λ p. 0 < length p) ps
    → All (All IsByte) ps
    → (db : Databuffer) × (mp' : Pool) × (dispatch_all 2 to pieces empty_buffer mp
        ≡ some (map (outgoing to) ps, false, db, mp'))
      × (db.header ≡ 0)
      × (stream db ≡ [])
dispatch_all-pack_all to ps pieces mp heard e pos b =
    let (waiting, size, header) = empty_buffer-stream in
    let fed : IsFed empty_buffer = record {
      valid = empty_buffer-IsValid;
      bytes = subst (All IsByte) (sym waiting) tt;
      header = omega (arith, header);
    } in
    let drained : IsDrained empty_buffer =
      ap₂ whole header waiting
      ∙ split_short 0 0 [] refl (omega arith)
      ∙ ap₂ (λ h s. ([], h, s)) (sym header) (sym waiting) in
    let packets : whole empty_buffer.header (stream empty_buffer ++ join pieces) ≡ (ps, 0, []) =
      ap₂ (λ h w. whole h (w ++ join pieces)) header waiting
      ∙ split_packets-pack_all (suc (length (join pieces))) ps (join pieces) e pos (omega arith) in
    let (db, mp', ed, f, h, w) =
      dispatch_all_lem to heard pieces empty_buffer mp fed drained
        (pack_all-bytes ps (join pieces) e b) in
    (
      db,
      mp',
      ed ∙ ap (λ (s : Split). some (map (outgoing to) s.0, false, db, mp')) packets,
      h ∙ ap (λ (s : Split). s.1) packets,
      w ∙ ap (λ (s : Split). s.2) packets,
    )
