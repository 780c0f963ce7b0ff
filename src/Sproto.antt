-- ===== src/Sproto.antt =====
-- lualib-src/sproto/sproto.c: the packing of zero bytes that sproto messages are sent with. A buffer
-- is a function of the index and its size is its end, `limit`: at the index `at` the C code's
-- `bufsz` is `limit - at`, which may be negative.
pub mod Encoded
pub mod Segments
pub mod Laid
pub mod Rounds
pub mod Pack
pub mod Packed
pub mod Ending
pub mod Unpack
pub mod Fuel
pub mod RoundTrip
mod Tests
use demo_skynet_server.Common.{
  ℕ, zero, suc, ◌+◌, ◌-◌, ◌*◌, ◌/◌, ◌%◌, ◌^◌, bit_or, Bool, true, false, ◌&&◌, ◌||◌, Option, none,
  some, List, [], ◌∷◌, ◌++◌, ◌==◌, ltb, leb, if◌then◌else◌, length, take, drop, replicate, put,
  write_list,
}

-- The loop of `pack_seg`: the header so far, how many bytes are not zero, and where the next goes.
pub record Segment : Type 0 where
  pub header : ℕ
  pub notzero : ℕ
  pub at : ℕ
  pub buf : ℕ → ℕ

pub seg_loop : ℕ → List ℕ → ℕ → Segment → Segment
seg_loop limit [] i s = s
seg_loop limit (b ∷ bs) i s =
    let room = ltb s.at limit in
    let s' : Segment = record {
      header = bit_or s.header (1 * 2 ^ i);
      notzero = s.notzero + 1;
      at = if room then s.at + 1 else s.at;
      buf = if room then put s.buf s.at b else s.buf;
    } in
    seg_loop limit bs (i + 1) (if b == 0 then s else s')

-- `pack_seg`: how many bytes of the buffer the segment takes, and the buffer.
pub pack_seg : ℕ → List ℕ → ℕ → ℕ → (ℕ → ℕ) → ℕ × (ℕ → ℕ)
pack_seg limit src at n buf =
    let s = seg_loop limit src 0 (record { header = 0; notzero = 0; at = at + 1; buf = buf }) in
    let notzero = if (s.notzero == 7 || s.notzero == 6) && ltb 0 n then 8 else s.notzero in
    if notzero == 8
    then (if ltb 0 n then 8 else 10, s.buf)
    else (notzero + 1, if ltb at limit then put s.buf at s.header else s.buf)

-- `write_ff`, where `src` is the list of the `n` bytes.
pub write_ff : List ℕ → ℕ → (ℕ → ℕ) → (ℕ → ℕ)
write_ff src des buf =
    let align8_n = (length src + 7) / 8 * 8 in
    write_list buf des (0xff ∷ (align8_n / 8 - 1) ∷ (src ++ replicate (align8_n - length src) 0))

-- `n` bytes from the start of `src`; `junk` is what stands in memory behind the source.
pub read : (ℕ → List ℕ) → ℕ → List ℕ → List ℕ
read junk n src = take n src ++ junk (n - length src)

-- The variables of the loop of `sproto_pack`; `ff_src` is what lies at `ff_srcstart`, to the end.
pub record Packer : Type 0 where
  pub at : ℕ
  pub ff_n : ℕ
  pub ff_src : List ℕ
  pub ff_des : ℕ
  pub buf : ℕ → ℕ

-- The segment in front of `rest`, filled up with zeros.
abbrev pub segment : List ℕ → List ℕ
segment rest = if ltb (length rest) 8 then rest ++ replicate (8 - length rest) 0 else take 8 rest

-- One round of the loop of `sproto_pack`, with the sources from `src` on in `rest`.
pub pack_round : (ℕ → List ℕ) → ℕ → List ℕ → Packer → Packer
pack_round junk limit rest p =
    let (n, buf) = pack_seg limit (segment rest) p.at p.ff_n p.buf in
    let flush : ℕ → ℕ → ℕ = λ count.
      if leb (p.at + n) limit
      then write_ff (read junk (count * 8) p.ff_src) p.ff_des buf
      else buf in
    if n == 10
    then record {
      at = p.at + n;
      ff_n = 1;
      ff_src = if ltb (length rest) 8 then segment rest else rest;
      ff_des = p.at;
      buf = buf;
    }
    else if n == 8 && ltb 0 p.ff_n
    then if p.ff_n + 1 == 256
      then record p { at = p.at + n; ff_n = 0; buf = flush 256 }
      else record p { at = p.at + n; ff_n = p.ff_n + 1; buf = buf }
    else record p { at = p.at + n; ff_n = 0; buf = if ltb 0 p.ff_n then flush p.ff_n else buf }

pub pack_rounds : ℕ → (ℕ → List ℕ) → ℕ → List ℕ → Packer → Packer
pack_rounds zero junk limit rest p = p
pack_rounds (suc k) junk limit rest p =
    pack_rounds k junk limit (drop 8 rest) (pack_round junk limit rest p)

-- The end of `sproto_pack`.
pub pack_end : (ℕ → List ℕ) → ℕ → Packer → ℕ × (ℕ → ℕ)
pack_end junk limit p =
    let buf =
      if p.ff_n == 1
      then write_ff (read junk 8 p.ff_src) p.ff_des p.buf
      else if ltb 1 p.ff_n
      then write_ff p.ff_src p.ff_des p.buf
      else p.buf in
    (p.at, if leb p.at limit then buf else p.buf)

-- `sproto_pack`: the size of the packed bytes, and the buffer.
pub sproto_pack : (ℕ → List ℕ) → List ℕ → ℕ → (ℕ → ℕ) → ℕ × (ℕ → ℕ)
sproto_pack junk src bufsz buf = pack_end junk bufsz (
    pack_rounds ((length src + 7) / 8) junk bufsz src
      (record { at = 0; ff_n = 0; ff_src = []; ff_des = 0; buf = buf }))

-- The variables of `sproto_unpack`. `src` is what is left of the source, `none` when a byte behind
-- its end has been read.
pub record Unpacker : Type 0 where
  pub src : Option (List ℕ)
  pub at : ℕ
  pub size : ℕ
  pub buf : ℕ → ℕ

-- The write of one byte, where there is room.
abbrev pub emit : ℕ → ℕ → Unpacker → Unpacker
emit limit b u =
    if ltb u.at limit
    then record u { at = u.at + 1; size = u.size + 1; buf = put u.buf u.at b }
    else record u { size = u.size + 1 }

-- The byte at `src`, which may be the one behind the end, `beyond`; `none` is the return value -1.
pub take_byte : ℕ → Option (List ℕ) → Option (ℕ × Option (List ℕ))
take_byte beyond none = none
take_byte beyond (some []) = some (beyond, none)
take_byte beyond (some (b ∷ bs)) = some (b, some bs)

-- The loop over the bits of a header, `n` rounds from bit `i` on.
pub unpack_seg : ℕ → ℕ → ℕ → ℕ → ℕ → Unpacker → Option Unpacker
unpack_seg zero beyond limit header i u = some u
unpack_seg (suc n) beyond limit header i u = elim (header / 2 ^ i % 2 == 0) [
  | true ↦ unpack_seg n beyond limit header (i + 1) (emit limit 0 u)
  | false ↦ elim (take_byte beyond u.src) [
    | none ↦ none
    | some (b, src) ↦
        unpack_seg n beyond limit header (i + 1) (emit limit b (record u { src = src }))
  ]
]

-- The branch for a header of 0xff, with the source behind it.
pub unpack_ff : ℕ → List ℕ → Unpacker → Option Unpacker
unpack_ff limit [] u = none
unpack_ff limit (count ∷ src) u =
    let n = (count + 1) * 8 in
    if ltb (length src + 1) (n + 1)
    then none
    else some (record {
      src = some (drop n src);
      at = u.at + n;
      size = u.size + n;
      buf = if leb (u.at + n) limit then write_list u.buf u.at (take n src) else u.buf;
    })

-- The loop of `sproto_unpack`, with fuel.
pub unpack_rounds : ℕ → ℕ → ℕ → Unpacker → Option Unpacker
unpack_rounds zero beyond limit u = none
unpack_rounds (suc fuel) beyond limit u = elim u.src [
  | none ↦ some u
  | some [] ↦ some u
  | some (header ∷ src) ↦
      elim (if header == 0xff
        then unpack_ff limit src u
        else unpack_seg 8 beyond limit header 0 (record u { src = some src })) [
          | none ↦ none
          | some u' ↦ unpack_rounds fuel beyond limit u'
        ]
]

-- `sproto_unpack`: the size of the unpacked bytes and the buffer; `none` is the return value -1. One
-- round more than there are bytes is enough: see `unpack_total`.
pub sproto_unpack : ℕ → List ℕ → ℕ → (ℕ → ℕ) → Option (ℕ × (ℕ → ℕ))
sproto_unpack beyond src bufsz buf =
    elim (unpack_rounds (suc (length src)) beyond bufsz
      (record { src = some src; at = 0; size = 0; buf = buf })) [
        | none ↦ none
        | some u ↦ some (u.size, u.buf)
      ]
