-- ===== src/Hashid.antt =====
-- service-src/hashid.h: the hash from the ids of sockets to the slots of the gate's connections. A node is
-- known by its index, a null pointer is `none`, and so is the id -1 of a free node. Ids are not negative.
pub mod Size
pub mod Inv
pub mod Search
pub mod Insert
pub mod Remove
pub mod Removed
pub mod Table
mod Tests
use demo_skynet_server.Common.{
  ℕ, zero, suc, ◌+◌, ◌-◌, ◌*◌, ◌%◌, bit_and, Bool, true, false, Option, none, some, ◌==◌, ltb, leb,
  ◌^◌, if◌then◌else◌, update,
}

-- `struct hashid`, with the fields of its nodes.
pub record Hashid : Type 0 where
  pub hashmod : ℕ
  pub cap : ℕ
  pub count : ℕ
  pub id : ℕ → Option ℕ
  pub next : ℕ → Option ℕ
  pub hash : ℕ → Option ℕ

-- The loop of `hashid_init`: the next power of two from 16 on; `max` rounds are enough: see
-- `hash_cap_enough`.
pub hash_cap : ℕ → ℕ → ℕ → ℕ
hash_cap zero max hashcap = hashcap
hash_cap (suc n) max hashcap =
    let rest = hash_cap n max (hashcap * 2) in if ltb hashcap max then rest else hashcap

pub hashid_init : ℕ → Hashid
hashid_init max = record {
  hashmod = hash_cap max max 16 - 1;
  cap = max;
  count = 0;
  id = λ i. none;
  next = λ i. none;
  hash = λ h. none;
}

abbrev pub bucket : Hashid → ℕ → ℕ
bucket hi id = bit_and id hi.hashmod

pub has_id : Hashid → ℕ → ℕ → Bool
has_id hi c id = elim (hi.id c) [ none ↦ false | some i ↦ i == id ]

-- The loop of `hashid_lookup` from the node `c` on; the outer `none` is out of fuel. A chain is no longer
-- than there are nodes.
pub lookup_chain : ℕ → Hashid → ℕ → Option ℕ → Option (Option ℕ)
lookup_chain fuel hi id none = some none
lookup_chain zero hi id (some c) = none
lookup_chain (suc fuel) hi id (some c) =
    let rest = lookup_chain fuel hi id (hi.next c) in if has_id hi c id then some (some c) else rest

-- `hashid_lookup`; the inner `none` is -1.
pub hashid_lookup : Hashid → ℕ → Option (Option ℕ)
hashid_lookup hi id = lookup_chain hi.cap hi id (hi.hash (bucket hi id))

-- `_clear` in `hashid_remove`
pub clear_node : Hashid → ℕ → Hashid
clear_node hi c = record hi {
  id = update hi.id c none;
  next = update hi.next c none;
  count = hi.count - 1;
}

-- The loop of `hashid_remove` behind the node `c`.
pub remove_chain : ℕ → Hashid → ℕ → ℕ → Option ℕ → Option (Option ℕ × Hashid)
remove_chain fuel hi id c none = some (none, hi)
remove_chain zero hi id c (some d) = none
remove_chain (suc fuel) hi id c (some d) =
    let rest = remove_chain fuel hi id d (hi.next d) in
    if has_id hi d id
    then some (some d, clear_node (record hi { next = update hi.next c (hi.next d) }) d)
    else rest

pub remove_first : Hashid → ℕ → Option ℕ → Option (Option ℕ × Hashid)
remove_first hi id none = some (none, hi)
remove_first hi id (some c) =
    if has_id hi c id
    then some
        (some c, clear_node (record hi { hash = update hi.hash (bucket hi id) (hi.next c) }) c)
    else remove_chain hi.cap hi id c (hi.next c)

-- `hashid_remove`
pub hashid_remove : Hashid → ℕ → Option (Option ℕ × Hashid)
hashid_remove hi id = remove_first hi id (hi.hash (bucket hi id))

pub is_free : Hashid → ℕ → Bool
is_free hi c = elim (hi.id c) [ none ↦ true | some i ↦ false ]

-- The loop of `hashid_insert`, with `n` rounds left. The sum of the index and the id is an `int`: from
-- 2^31 on it overflows, after which nothing is promised; `none` stands for that as well.
pub find_node : ℕ → Hashid → ℕ → ℕ → Option ℕ
find_node zero hi id i = none
find_node (suc n) hi id i =
    let rest = find_node n hi id (i + 1) in
    if leb (2 ^ 31) (i + id)
    then none
    else if is_free hi ((i + id) % hi.cap)
    then some ((i + id) % hi.cap)
    else rest

-- `hashid_insert`; `none` is a failed assertion, or the overflow of an `int`.
pub insert_node : Hashid → ℕ → ℕ → Hashid
insert_node hi id c =
    let h = bucket hi id in
    record hi {
      count = hi.count + 1;
      id = update hi.id c (some id);
      next = elim (hi.hash h) [ none ↦ hi.next | some d ↦ update hi.next c (some d) ];
      hash = update hi.hash h (some c);
    }

pub hashid_insert : Hashid → ℕ → Option (ℕ × Hashid)
hashid_insert hi id = elim (find_node hi.cap hi id 0) [
  | none ↦ none
  | some c ↦ elim (hi.next c) [ none ↦ some (c, insert_node hi id c) | some d ↦ none ]
]
