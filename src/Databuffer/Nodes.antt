-- ===== src/Databuffer/Nodes.antt =====
-- Who has the nodes of the pool of service-src/databuffer.h: each is on the free list or in one buffer.
use native.Mathlib.Decide.{dec_lt, ℕ_discrete}
use demo_skynet_server.Common.{
  ℕ, zero, suc, ◌+◌, ◌-◌, ◌*◌, ◌≤◌, ◌<◌, ◌≡◌, refl, sym, subst, ap, List, [], ◌∷◌, ◌++◌, arith,
  length, count, count-append, counted, absent,
}
use demo_skynet_server.Databuffer.{
  Chunk, Databuffer, Pool, message_pool, row, take_node, databuffer_push,
}
use demo_skynet_server.Databuffer.Stream.{IsValid, stream, push_lem}

unfoldable pub nodes : List Chunk → List ℕ
nodes [] = []
nodes (c ∷ cs) = c.node ∷ nodes cs

-- How often a node is in this buffer, in the others, whose nodes are `others`, or on the free list.
abbrev pub uses : ℕ → Databuffer → List ℕ → Pool → ℕ
uses p db others mp = count p (nodes db.chunks) + count p others + count p mp.freelist

-- Every node of the pool's blocks has exactly one place, and there are no other nodes.
pub record IsOwned (db : Databuffer) (others : List ℕ) (mp : Pool) : Type 0 where
  pub one_place : (p : ℕ) → p < mp.blocks * message_pool → uses p db others mp ≡ 1
  pub no_others : (p : ℕ) → mp.blocks * message_pool ≤ p → uses p db others mp ≡ 0

pub row_out_below : (n a p : ℕ) → p < a → count p (row n a) ≡ 0
unfolding row
row_out_below zero a p h = refl
row_out_below (suc n) a p h =
    omega (
      arith,
      absent p a (row n (a + 1)) (λ e. omega arith),
      row_out_below n (a + 1) p (omega arith),
    )

pub row_out_above : (n a p : ℕ) → a + n ≤ p → count p (row n a) ≡ 0
unfolding row
row_out_above zero a p h = refl
row_out_above (suc n) a p h =
    omega (
      arith,
      absent p a (row n (a + 1)) (λ e. omega arith),
      row_out_above n (a + 1) p (omega arith),
    )

pub row_in : (n a p : ℕ) → a ≤ p → p < a + n → count p (row n a) ≡ 1
unfolding row
row_in zero a p h l = absurd (omega arith)
row_in (suc n) a p h l = elim (ℕ_discrete a p) [
  | yes e ↦ omega (arith, counted a p e, row_out_below n (a + 1) p (omega arith))
  | no ne ↦
      omega (arith, absent p a (row n (a + 1)) ne, row_in n (a + 1) p (omega arith) (omega arith))
]

nodes-append : (cs ds : List Chunk) → nodes (cs ++ ds) ≡ nodes cs ++ nodes ds
unfolding nodes
nodes-append [] ds = refl
nodes-append (c ∷ cs) ds = ap (λ ns. c.node ∷ ns) (nodes-append cs ds)

-- The node that is taken is the one that the pool no longer has.
take_node_some :
    (m : ℕ) (rest : List ℕ) (mp : Pool)
    → mp.freelist ≡ m ∷ rest
    → take_node mp ≡ (m, record mp { freelist = rest })
unfolding take_node
take_node_some m rest mp e = rw e refl

take_node_none :
    (mp : Pool)
    → mp.freelist ≡ []
    → take_node mp ≡ (
      mp.blocks * message_pool,
      record {
        blocks = mp.blocks + 1;
        freelist = row (message_pool - 1) (mp.blocks * message_pool + 1);
      },
    )
unfolding take_node
take_node_none mp e = rw e refl

-- What `take_node` does to the places of a node.
record Takes (mp : Pool) (r : ℕ × Pool) : Type 0 where
  pub more : mp.blocks ≤ r.1.blocks
  pub old :
      (p : ℕ) → p < mp.blocks * message_pool → count p (r.0 ∷ r.1.freelist) ≡ count p mp.freelist
  pub new :
      (p : ℕ)
      → mp.blocks * message_pool ≤ p
      → p < r.1.blocks * message_pool
      → count p (r.0 ∷ r.1.freelist) ≡ 1
  pub beyond :
      (p : ℕ) → r.1.blocks * message_pool ≤ p → count p (r.0 ∷ r.1.freelist) ≡ count p mp.freelist

take_node-Takes : (fl : List ℕ) (mp : Pool) → mp.freelist ≡ fl → Takes mp (take_node mp)
take_node-Takes (m ∷ rest) mp e = subst (Takes mp) (sym (take_node_some m rest mp e)) (record {
  more = omega arith;
  old = λ p h. ap (count p) (sym e);
  new = λ p h l. absurd (omega arith);
  beyond = λ p h. ap (count p) (sym e);
})
take_node-Takes [] mp e =
    let a : ℕ = mp.blocks * message_pool in
    subst (Takes mp) (sym (take_node_none mp e)) (record {
      more = omega arith;
      old = λ p h. omega (
        arith,
        ap (count p) e,
        absent p a (row 1022 (a + 1)) (λ q. omega arith),
        row_out_below 1022 (a + 1) p (omega arith),
      );
      new = λ p h l. elim (ℕ_discrete a p) [
        | yes q ↦ omega (arith, counted a p q, row_out_below 1022 (a + 1) p (omega arith))
        | no ne ↦ omega (
          arith,
          absent p a (row 1022 (a + 1)) ne,
          row_in 1022 (a + 1) p (omega arith) (omega arith),
        )
      ];
      beyond = λ p h. omega (
        arith,
        ap (count p) e,
        absent p a (row 1022 (a + 1)) (λ q. omega arith),
        row_out_above 1022 (a + 1) p (omega arith),
      );
    })

push_uses :
    (bytes : List ℕ) (sz p : ℕ) (db : Databuffer) (others : List ℕ) (mp : Pool)
    → let r = databuffer_push bytes sz db mp in
      (uses p r.0 others r.1
        ≡ count p (nodes db.chunks)
          + count p others
          + count p ((take_node mp).0 ∷ (take_node mp).1.freelist))
      × (r.1.blocks ≡ (take_node mp).1.blocks)
unfolding databuffer_push nodes
push_uses bytes sz p db others mp =
    let m : ℕ = (take_node mp).0 in
    let c : Chunk = record { node = m; buffer = bytes; size = sz } in
    (
      omega (
        arith,
        ap (count p) (nodes-append db.chunks (c ∷ [])),
        count-append p (nodes db.chunks) (m ∷ []),
      ),
      refl,
    )

push-IsOwned :
    (bytes : List ℕ) (sz : ℕ) (db : Databuffer) (others : List ℕ) (mp : Pool)
    → IsOwned db others mp
    → let r = databuffer_push bytes sz db mp in IsOwned r.0 others r.1
push-IsOwned bytes sz db others mp o =
    let t = take_node-Takes mp.freelist mp refl in
    record {
      one_place = λ p h.
          let (u, b) = push_uses bytes sz p db others mp in
          elim (dec_lt p (mp.blocks * message_pool)) [
            | yes l ↦ omega (arith, u, t.old p l, o.one_place p l)
            | no l ↦
                omega
                  (arith, u, t.new p (omega arith) (omega (arith, b)), o.no_others p (omega arith))
          ];
      no_others = λ p h.
          let (u, b) = push_uses bytes sz p db others mp in
          omega (arith, u, t.beyond p (omega (arith, b)), o.no_others p (omega (arith, b, t.more)));
    }

-- `databuffer_push` puts the bytes behind those that wait, keeps the buffer well formed, and takes a
-- node that nobody has: if before it each node of the pool stands exactly once, on the free list or
-- in one of the buffers, then it is so after it, also where the pool has grown by a block.
pub databuffer_push_lem :
    (bytes : List ℕ) (db : Databuffer) (others : List ℕ) (mp : Pool)
    → IsValid db
    → IsOwned db others mp
    → let r = databuffer_push bytes (length bytes) db mp in
      IsValid r.0
      × (stream r.0 ≡ stream db ++ bytes)
      × (r.0.header ≡ db.header)
      × (r.0.size ≡ db.size + length bytes)
      × IsOwned r.0 others r.1
databuffer_push_lem bytes db others mp v o =
    let (v', added, header, size) = push_lem bytes db mp v in
    (v', added, header, size, push-IsOwned bytes (length bytes) db others mp o)
