-- ===== src/Hashid/Size.antt =====
-- The size of the array of buckets of service-src/hashid.h.
use demo_skynet_server.Common.{
  ℕ, zero, suc, ◌+◌, ◌-◌, ◌*◌, ◌≤◌, ◌<◌, inl, inr, bit_and-le, Bool-cases, ltb, not_ltb, arith,
}
use demo_skynet_server.Hashid.{bucket, hash_cap, hashid_init}

-- The rounds are enough for the loop to end by its test.
pub hash_cap_enough :
    (n max h : ℕ) → 0 < h → max ≤ h + n → (max ≤ hash_cap n max h) × (0 < hash_cap n max h)
unfolding hash_cap
hash_cap_enough zero max h pos room = (omega arith, pos)
hash_cap_enough (suc n) max h pos room = elim (Bool-cases (ltb h max)) [
  | inl t ↦ rw t (hash_cap_enough n max (h * 2) (omega arith) (omega arith))
  | inr t ↦ rw t (not_ltb h max t, pos)
]

-- Every id has its bucket inside the array.
pub bucket-lt : (max id : ℕ) → bucket (hashid_init max) id < hash_cap max max 16
unfolding hashid_init
bucket-lt max id = omega (
  arith,
  bit_and-le id (hash_cap max max 16 - 1),
  (hash_cap_enough max max 16 (omega arith) (omega arith)).1,
)
