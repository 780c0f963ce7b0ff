-- ===== src/Databuffer/Stream.antt =====
-- The chunks of service-src/databuffer.h as one stream of bytes: what a push adds and a read takes.
use demo_skynet_server.Common.{
  ℕ, ◌+◌, ◌-◌, ◌≤◌, ◌<◌, ◌≡◌, refl, sym, ap, ap₂, ◌∙◌, inl, inr, some, List, [], ◌∷◌, ◌++◌,
  append_assoc, append-nil, arith, length, take, drop, length-append, drop-nil, length-drop,
  take_all, drop-append, take-append, drop-append_past, take-append_past, drop-drop, All,
  All-append, ltb, ◌==◌, Bool-cases, ltb→lt, not_ltb, not_lt→ltb, ==_iff, ne_of_false, if_true,
  if_false,
}
use demo_skynet_server.Databuffer.{
  Chunk, Databuffer, Pool, empty_buffer, take_node, databuffer_push, read_chunks, databuffer_read,
}

unfoldable pub flat : List Chunk → List ℕ
flat [] = []
flat (c ∷ cs) = c.buffer ++ flat cs

abbrev pub first_size : List Chunk → ℕ
first_size [] = 0
first_size (c ∷ cs) = c.size

abbrev pub IsSized : Chunk → Type 0
IsSized c = c.size ≡ length c.buffer

-- The bytes that wait.
abbrev pub stream : Databuffer → List ℕ
stream db = drop db.offset (flat db.chunks)

abbrev IsChained : List Chunk → ℕ → Type 0
IsChained cs offset = All IsSized cs × (offset ≤ first_size cs)

pub record IsValid (db : Databuffer) : Type 0 where
  pub chained : All IsSized db.chunks × (db.offset ≤ first_size db.chunks)
  pub counted : db.size ≡ length (stream db)

pub empty_buffer-IsValid : IsValid empty_buffer
unfolding empty_buffer flat
empty_buffer-IsValid = record { chained = (tt, omega arith); counted = refl }

flat-append : (cs ds : List Chunk) → flat (cs ++ ds) ≡ flat cs ++ flat ds
unfolding flat
flat-append [] ds = refl
flat-append (c ∷ cs) ds =
    ap (λ bs. c.buffer ++ bs) (flat-append cs ds) ∙ sym (append_assoc c.buffer (flat cs) (flat ds))

offset_inside : (cs : List Chunk) (offset : ℕ) → IsChained cs offset → offset ≤ length (flat cs)
unfolding flat
offset_inside [] offset v = v.1
offset_inside (c ∷ cs) offset v = omega (arith, v.1, v.0.0, length-append c.buffer (flat cs))

pushed_first :
    (cs : List Chunk) (c : Chunk) (offset : ℕ)
    → offset ≤ first_size cs
    → offset ≤ first_size (cs ++ c ∷ [])
pushed_first [] c offset h = omega arith
pushed_first (d ∷ cs) c offset h = h

-- `databuffer_push` puts the bytes behind those that wait, and keeps the buffer well formed.
pub push_lem :
    (bytes : List ℕ) (db : Databuffer) (mp : Pool)
    → IsValid db
    → let r = databuffer_push bytes (length bytes) db mp in
      IsValid r.0
      × (stream r.0 ≡ stream db ++ bytes)
      × (r.0.header ≡ db.header)
      × (r.0.size ≡ db.size + length bytes)
unfolding databuffer_push flat
push_lem bytes db mp v = (
  record {
    chained = (
      All-append IsSized db.chunks _ v.chained.0 (refl, tt),
      pushed_first db.chunks _ db.offset v.chained.1,
    );
    counted = omega (arith, v.counted, ap length added, length-append (stream db) bytes);
  },
  added,
  refl,
  refl,
)
  where
    c : Chunk
    c = record { node = (take_node mp).0; buffer = bytes; size = length bytes }

    one : flat (c ∷ []) ≡ bytes
    one = append-nil bytes

    added : drop db.offset (flat (db.chunks ++ c ∷ [])) ≡ stream db ++ bytes
    added =
        ap (drop db.offset) (flat-append db.chunks (c ∷ []) ∙ ap (λ bs. flat db.chunks ++ bs) one)
        ∙ drop-append db.offset (flat db.chunks) bytes (offset_inside db.chunks db.offset v.chained)

-- What a read of `sz` bytes leaves of the chunks `cs` and what it returns.
record Reads (cs : List Chunk) (db : Databuffer) (sz : ℕ) (bytes : List ℕ) (db' : Databuffer)
    : Type 0 where
  pub taken : bytes ≡ take sz (drop db.offset (flat cs))
  pub chained : IsChained db'.chunks db'.offset
  pub left : stream db' ≡ drop sz (drop db.offset (flat cs))
  pub same_size : db'.size ≡ db.size
  pub same_header : db'.header ≡ db.header

module _ (c : Chunk) (cs : List Chunk) (db : Databuffer) (v : IsChained (c ∷ cs) db.offset) where
  abbrev part : List ℕ
  part = drop db.offset c.buffer

  abbrev bsz : ℕ
  bsz = c.size - db.offset

  part_size : bsz ≡ length part
  part_size = omega (arith, length-drop db.offset c.buffer, v.0.0)

  parts : drop db.offset (flat (c ∷ cs)) ≡ part ++ flat cs
  unfolding flat
  parts = drop-append db.offset c.buffer (flat cs) (omega (arith, v.0.0, v.1))

  abbrev next : Databuffer
  next = record db { offset = 0; chunks = cs }

  within_Reads :
      (sz : ℕ)
      → sz < bsz
      → Reads (c ∷ cs) db sz (take sz part) (record db { offset = db.offset + sz; chunks = c ∷ cs })
  within_Reads sz h = record {
    taken = sym (ap (take sz) parts ∙ take-append sz part (flat cs) (omega (arith, part_size)));
    chained = (v.0, omega arith);
    left = sym (drop-drop sz db.offset (flat (c ∷ cs)));
    same_size = refl;
    same_header = refl;
  }

  all_Reads : (sz : ℕ) → bsz ≡ sz → Reads (c ∷ cs) db sz (take sz part) next
  all_Reads sz h = record {
    taken = sym (ap (take sz) parts ∙ take-append sz part (flat cs) (omega (arith, part_size)));
    chained = (v.0.1, omega arith);
    left = sym (
        ap (drop sz) parts
        ∙ drop-append_past sz part (flat cs) (omega (arith, part_size))
        ∙ (let e : sz - length part ≡ 0 = omega (arith, part_size) in
            ap (λ k. drop k (flat cs)) e));
    same_size = refl;
    same_header = refl;
  }

  more_Reads :
      (sz : ℕ) (bytes : List ℕ) (db' : Databuffer)
      → bsz ≤ sz
      → Reads cs next (sz - bsz) bytes db'
      → Reads (c ∷ cs) db sz (take bsz part ++ bytes) db'
  more_Reads sz bytes db' h r = record {
    taken =
        ap₂ ◌++◌ (take_all bsz part part_size)
          (r.taken ∙ ap (λ k. take (sz - k) (flat cs)) part_size)
        ∙ sym (ap (take sz) parts ∙ take-append_past sz part (flat cs) (omega (arith, part_size)));
    chained = r.chained;
    left =
        r.left
        ∙ ap (λ k. drop (sz - k) (flat cs)) part_size
        ∙ sym (ap (drop sz) parts ∙ drop-append_past sz part (flat cs) (omega (arith, part_size)));
    same_size = r.same_size;
    same_header = r.same_header;
  }

read_chunks_lem :
    (cs : List Chunk) (db : Databuffer) (mp : Pool) (sz : ℕ)
    → IsChained cs db.offset
    → 0 < sz
    → sz ≤ length (drop db.offset (flat cs))
    → (bytes : List ℕ) × (db' : Databuffer) × (mp' : Pool) × (read_chunks cs db mp sz
        ≡ some (bytes, db', mp'))
      × Reads cs db sz bytes db'
unfolding read_chunks flat
read_chunks_lem [] db mp sz v pos h = absurd (omega (arith, ap length (drop-nil {A = ℕ} db.offset)))
read_chunks_lem (c ∷ cs) db mp sz v pos h = elim (Bool-cases (ltb sz (bsz c cs db v))) [
  | inl t ↦ (_, _, _, if_true t _ _, within_Reads c cs db v sz (ltb→lt sz _ t))
  | inr t ↦ elim (Bool-cases (bsz c cs db v == sz)) [
    | inl u ↦ (_, _, _, if_false t _ _ ∙ if_true u _ _, all_Reads c cs db v sz ((==_iff _ sz).0 u))
    | inr u ↦
        let big : bsz c cs db v ≤ sz = not_ltb sz _ t in
        let ne = ne_of_false (bsz c cs db v) sz u in
        let (bytes, db', mp', e, r) =
          read_chunks_lem cs (next c cs db v) (record mp { freelist = c.node ∷ mp.freelist })
            (sz - bsz c cs db v) (v.0.1, omega arith) (omega arith)
            (omega (
              arith,
              h,
              part_size c cs db v,
              ap length (parts c cs db v),
              length-append (part c cs db v) (flat cs),
            )) in
        (
          _,
          db',
          mp',
          if_false t _ _ ∙ if_false u _ _ ∙ rw e refl,
          more_Reads c cs db v sz bytes db' big r,
        )
  ]
]

-- A read of a positive number of bytes that are there ends, no assertion fails and no null pointer
-- is read. It returns these bytes, in order and across chunks, leaves the others, and keeps the
-- buffer well formed.
pub read_lem :
    (sz : ℕ) (db : Databuffer) (mp : Pool)
    → IsValid db
    → 0 < sz
    → sz ≤ length (stream db)
    → (db' : Databuffer) × (mp' : Pool) × (databuffer_read sz db mp
        ≡ some (take sz (stream db), db', mp'))
      × IsValid db'
      × (stream db' ≡ drop sz (stream db))
      × (db'.header ≡ db.header)
unfolding databuffer_read
read_lem sz db mp v pos h =
    let start : Databuffer = record db { size = db.size - sz } in
    let (bytes, db', mp', e, r) = read_chunks_lem db.chunks start mp sz v.chained pos h in
    (
      db',
      mp',
      if_false (not_lt→ltb db.size sz (omega (arith, v.counted))) _ _
          ∙ e
          ∙ ap (λ bs. some (bs, db', mp')) r.taken,
      record {
        chained = r.chained;
        counted =
            omega (arith, r.same_size, v.counted, ap length r.left, length-drop sz (stream db));
      },
      r.left,
      r.same_header,
    )

pub empty_buffer-stream :
    (stream empty_buffer ≡ []) × (empty_buffer.size ≡ 0) × (empty_buffer.header ≡ 0)
unfolding empty_buffer flat
empty_buffer-stream = (refl, refl, refl)
