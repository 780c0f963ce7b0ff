-- ===== src/Databuffer.antt =====
-- service-src/databuffer.h: the bytes that a connection of the gate has received, as a list of
-- chunks read as one stream, and the pool of list nodes that all connections share. `none` as a
-- result is a failed assertion or an access through a null pointer.
pub mod Stream
pub mod Header
pub mod Nodes
pub mod Returned
mod Tests
use demo_skynet_server.Common.{
  ℕ, zero, suc, ◌+◌, ◌-◌, ◌*◌, ◌%◌, ◌^◌, bit_or, Bool, true, false, ◌&&◌, Option, none, some, List,
  [], ◌∷◌, ◌++◌, ◌==◌, ltb, if◌then◌else◌, take, drop, get_or,
}

-- `struct message`, with the address of the node. `buffer` holds the bytes.
pub record Chunk : Type 0 where
  pub node : ℕ
  pub buffer : List ℕ
  pub size : ℕ

-- `struct databuffer`; the chunks from `head` to `tail`. `header` is a word of 32 bits.
pub record Databuffer : Type 0 where
  pub header : ℕ
  pub offset : ℕ
  pub size : ℕ
  pub chunks : List Chunk

abbrev pub message_pool : ℕ
message_pool = 1023

-- `struct messagepool`: how many blocks of nodes it owns, and the nodes on its free list. The
-- nodes of block `b` are the addresses from `b * 1023` on.
pub record Pool : Type 0 where
  pub blocks : ℕ
  pub freelist : List ℕ

-- What memset makes of the structs.
pub empty_buffer : Databuffer
empty_buffer = record { header = 0; offset = 0; size = 0; chunks = [] }

pub empty_pool : Pool
empty_pool = record { blocks = 0; freelist = [] }

-- `n` nodes in a row, from the address `a` on.
pub row : ℕ → ℕ → List ℕ
row zero a = []
row (suc n) a = a ∷ row n (a + 1)

-- The node that `databuffer_push` takes, and the pool without it.
pub take_node : Pool → ℕ × Pool
take_node mp = elim mp.freelist [
  | m ∷ rest ↦ (m, record mp { freelist = rest })
  | [] ↦ (
    mp.blocks * message_pool,
    record {
      blocks = mp.blocks + 1;
      freelist = row (message_pool - 1) (mp.blocks * message_pool + 1);
    },
  )
]

-- `databuffer_push`
pub databuffer_push : List ℕ → ℕ → Databuffer → Pool → Databuffer × Pool
databuffer_push bytes sz db mp =
    let (m, mp') = take_node mp in
    let c : Chunk = record { node = m; buffer = bytes; size = sz } in
    (record db { size = db.size + sz; chunks = db.chunks ++ c ∷ [] }, mp')

-- The loop of `databuffer_read` on the list `chunks`: the bytes, and what is left. A chunk read to
-- its end leaves the list, and its node goes to the pool, which is `_return_message`.
pub read_chunks : List Chunk → Databuffer → Pool → ℕ → Option (List ℕ × Databuffer × Pool)
read_chunks [] db mp sz = none
read_chunks (c ∷ cs) db mp sz =
    let bsz = c.size - db.offset in
    let part = drop db.offset c.buffer in
    let mp' : Pool = record mp { freelist = c.node ∷ mp.freelist } in
    let next : Databuffer = record db { offset = 0; chunks = cs } in
    let further = read_chunks cs next mp' (sz - bsz) in
    if ltb sz bsz
    then some (take sz part, record db { offset = db.offset + sz; chunks = c ∷ cs }, mp)
    else if bsz == sz
    then some (take sz part, next, mp')
    else elim further [
      | none ↦ none
      | some (bytes, db', mp'') ↦ some (take bsz part ++ bytes, db', mp'')
    ]

-- `databuffer_read`
pub databuffer_read : ℕ → Databuffer → Pool → Option (List ℕ × Databuffer × Pool)
databuffer_read sz db mp =
    if ltb db.size sz then none else read_chunks db.chunks (record db { size = db.size - sz }) mp sz

-- The big-endian number in the bytes read, as a word of 32 bits.
pub header_of : ℕ → List ℕ → ℕ
header_of header_size plen =
    if header_size == 2
    then bit_or (get_or plen 0 0 * 2 ^ 8) (get_or plen 1 0)
    else bit_or (get_or plen 0 0 * 2 ^ 24)
        (bit_or (get_or plen 1 0 * 2 ^ 16) (bit_or (get_or plen 2 0 * 2 ^ 8) (get_or plen 3 0)))

-- The end of `databuffer_readheader`: `none` is the return value -1. A word from 2^31 on is a
-- negative `int`, and so less than any size.
pub ready : Databuffer → Option ℕ
ready db = if ltb db.size db.header && ltb db.header (2 ^ 31) then none else some db.header

-- `databuffer_readheader`
pub databuffer_readheader : ℕ → Databuffer → Pool → Option (Option ℕ × Databuffer × Pool)
databuffer_readheader header_size db mp =
    let parsed : Option (Option ℕ × Databuffer × Pool) = elim (databuffer_read header_size db mp) [
      | none ↦ none
      | some (plen, db', mp') ↦
          let db'' : Databuffer = record db' { header = header_of header_size plen } in
          some (ready db'', db'', mp')
    ] in
    if db.header == 0
    then if ltb db.size header_size then some (none, db, mp) else parsed
    else some (ready db, db, mp)

-- `databuffer_reset`
pub databuffer_reset : Databuffer → Databuffer
databuffer_reset db = record db { header = 0 }

-- The loop of `databuffer_clear`.
pub return_all : List Chunk → Pool → Pool
return_all [] mp = mp
return_all (c ∷ cs) mp = return_all cs (record mp { freelist = c.node ∷ mp.freelist })

-- `databuffer_clear`
pub databuffer_clear : Databuffer → Pool → Databuffer × Pool
databuffer_clear db mp = (empty_buffer, return_all db.chunks mp)

-- `messagepool_free`: every block is freed.
pub messagepool_free : Pool → Pool
messagepool_free mp = empty_pool
