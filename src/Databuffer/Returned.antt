-- ===== src/Databuffer/Returned.antt =====
-- The nodes that a read or a clear of service-src/databuffer.h gives back to the pool.
use demo_skynet_server.Common.{ℕ, ◌+◌, ◌≡◌, refl, List, [], ◌∷◌, arith, count}
use demo_skynet_server.Databuffer.{
  Chunk, Databuffer, Pool, return_all, databuffer_clear, empty_buffer,
}
use demo_skynet_server.Databuffer.Nodes.{nodes, IsOwned}

-- The nodes that a read takes out of the buffer go to the free list.
Moves : List Chunk → Pool → Databuffer → Pool → Type 0
Moves cs mp db' mp' =
    (mp'.blocks ≡ mp.blocks)
    × ((p : ℕ)
        → count p (nodes db'.chunks) + count p mp'.freelist
          ≡ count p (nodes cs) + count p mp.freelist)

return_all_lem :
    (cs : List Chunk) (mp : Pool)
    → ((return_all cs mp).blocks ≡ mp.blocks)
      × ((p : ℕ) → count p (return_all cs mp).freelist ≡ count p (nodes cs) + count p mp.freelist)
unfolding return_all nodes
return_all_lem [] mp = (refl, λ p. omega arith)
return_all_lem (c ∷ cs) mp =
    let (blocks, moved) = return_all_lem cs (record mp { freelist = c.node ∷ mp.freelist }) in
    (blocks, λ p. omega (arith, moved p))

pub databuffer_clear-IsOwned :
    (db : Databuffer) (others : List ℕ) (mp : Pool)
    → IsOwned db others mp
    → let r = databuffer_clear db mp in IsOwned r.0 others r.1
unfolding databuffer_clear nodes empty_buffer
databuffer_clear-IsOwned db others mp o =
    let (blocks, moved) = return_all_lem db.chunks mp in
    record {
      one_place = λ p l. omega (arith, moved p, o.one_place p (omega (arith, blocks)));
      no_others = λ p l. omega (arith, moved p, o.no_others p (omega (arith, blocks)));
    }
