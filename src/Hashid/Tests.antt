-- ===== src/Hashid/Tests.antt =====
-- Concrete operations on the hash of service-src/hashid.h.
use demo_skynet_server.Common.{
  ℕ, ◌+◌, ◌^◌, ◌≤◌, ◌<◌, ◌≡◌, ◌≢◌, ◌⊎◌, refl, Option, none, some, arith,
}
use demo_skynet_server.Hashid.{
  Hashid, hash_cap, hashid_init, has_id, lookup_chain, hashid_lookup, hashid_remove, is_free,
  find_node, insert_node, hashid_insert,
}
use demo_skynet_server.Hashid.Table.{Reached, initial, inserted, Differs, hashid_refines}

-- 7 and 23 have the same bucket.
abbrev one : Hashid
one = insert_node (hashid_init 3) 7 1

abbrev two : Hashid
two = insert_node one 23 2

one-Reached : Reached 3 one
unfolding hashid_init hash_cap hashid_lookup lookup_chain hashid_insert find_node is_free
one-Reached = inserted 7 1 initial refl (omega arith) (omega arith) refl

two-Reached : Reached 3 two
unfolding hashid_init hash_cap hashid_lookup lookup_chain hashid_insert find_node is_free
    insert_node has_id
two-Reached = inserted 23 2 one-Reached refl (omega arith) (omega arith) refl

both_found :
    (hashid_lookup two 7 ≡ some (some 1))
    × (hashid_lookup two 23 ≡ some (some 2))
    × (hashid_lookup two 39 ≡ some none)
unfolding hashid_init hash_cap hashid_lookup lookup_chain insert_node has_id
both_found = (refl, refl, refl)

-- The largest `int` in a hash of three nodes, where its first node is taken: the next sum overflows.
overflows : hashid_insert one 0x7fffffff ≡ none
unfolding hashid_init hash_cap hashid_lookup lookup_chain hashid_insert find_node is_free
    insert_node has_id
overflows = refl

hashid_refines_example :
    ((found : Option ℕ) × (hashid_lookup two 7 ≡ some found))
    × ((2 ^ 31 < 7 + two.cap)
        ⊎ (two.cap ≤ two.count)
        ⊎ (hashid_lookup two 7 ≢ some none)
        ⊎ ((c : ℕ) × (hi' : Hashid) × (hashid_insert two 7 ≡ some (c, hi'))
            × (c < two.cap)
            × Differs two hi' 7 (some c)))
    × ((r : Option ℕ) × (hi' : Hashid) × (hashid_remove two 7 ≡ some (r, hi'))
        × (hashid_lookup two 7 ≡ some r)
        × Differs two hi' 7 none)
hashid_refines_example = hashid_refines 3 two 7 two-Reached
