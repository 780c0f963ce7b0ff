-- ===== src/Handle.antt =====
-- skynet-src/skynet_handle.c: the registry of services by handle. A context is the number of its
-- address. Its field `handle`, which skynet_context_handle reads, lies outside the registry and is
-- an argument, `handle_of`. Each function runs under the registry's lock. The names are in Names.
pub mod Hash
pub mod Inv
pub mod Doubling
pub mod Register
pub mod Retire
pub mod Names
mod Tests
use mathlib.Core.Option
use demo_skynet_server.Common.{
  ℕ, zero, suc, ◌+◌, ◌-◌, ◌*◌, ◌%◌, ◌^◌, bit_and, bit_or, Bool, true, false, ◌&&◌, Option, none,
  some, List, [], ◌∷◌, ◌==◌, leb, if◌then◌else◌, get_or, set, replicate,
}

abbrev pub handle_mask : ℕ
handle_mask = 0xffffff

abbrev pub default_slot_size : ℕ
default_slot_size = 4

-- `struct handle_storage` without its lock and its names.
pub record Storage : Type 0 where
  pub harbor : ℕ
  pub handle_index : ℕ
  pub slot_size : ℕ
  pub slot : List (Option ℕ)

-- `skynet_handle_init`
pub handle_init : ℕ → Storage
handle_init harbor = record {
  harbor = bit_and harbor 0xff * 2 ^ 24;
  handle_index = 1;
  slot_size = default_slot_size;
  slot = replicate default_slot_size none;
}

-- `s->slot[hash]`
abbrev pub slot_at : List (Option ℕ) → ℕ → Option ℕ
slot_at slot hash = get_or slot hash none

-- The handle that `skynet_handle_register` tries in round `i`, and its slot.
abbrev pub candidate : Storage → ℕ → ℕ
candidate s i = bit_and ((i + s.handle_index) % 2 ^ 32) handle_mask

abbrev pub hash_of : Storage → ℕ → ℕ
hash_of s handle = bit_and handle (s.slot_size - 1)

-- The search for a free slot, `n` rounds from round `i` on: the handle whose slot is free.
pub find_free : Storage → ℕ → ℕ → Option ℕ
find_free s zero i = none
find_free s (suc n) i =
    let rest = find_free s n (i + 1) in
    elim (slot_at s.slot (hash_of s (candidate s i))) [
      | none ↦ some (candidate s i)
      | some ctx ↦ rest
    ]

-- The copy into a table of twice the size. `none` is a read through a null pointer or the failed
-- assertion that the new slot is free.
pub rehash : (ℕ → ℕ) → ℕ → List (Option ℕ) → List (Option ℕ) → Option (List (Option ℕ))
rehash handle_of size [] new_slot = some new_slot
rehash handle_of size (none ∷ old) new_slot = none
rehash handle_of size (some ctx ∷ old) new_slot =
    let hash = bit_and (handle_of ctx) (size * 2 - 1) in
    let rest = rehash handle_of size old (set new_slot hash (some ctx)) in
    elim (slot_at new_slot hash) [ none ↦ rest | some other ↦ none ]

-- `none` is a failed assertion: the table is at its largest.
pub double_slots : (ℕ → ℕ) → Storage → Option Storage
double_slots handle_of s =
    if leb (s.slot_size * 2 - 1) handle_mask
    then Option.map (λ new_slot. record s { slot = new_slot; slot_size = s.slot_size * 2 })
        (rehash handle_of s.slot_size s.slot (replicate (s.slot_size * 2) none))
    else none

-- `skynet_handle_register`, with fuel for its outer loop: the handle and the registry.
pub register_rounds : ℕ → (ℕ → ℕ) → ℕ → Storage → Option (ℕ × Storage)
register_rounds zero handle_of ctx s = none
register_rounds (suc fuel) handle_of ctx s = elim (find_free s s.slot_size 0) [
  | some handle ↦ some (
    bit_or handle s.harbor,
    record s { slot = set s.slot (hash_of s handle) (some ctx); handle_index = handle + 1 },
  )
  | none ↦ elim (double_slots handle_of s) [
    | none ↦ none
    | some s' ↦ register_rounds fuel handle_of ctx s'
  ]
]

-- One doubling is always enough: see `register_total`.
pub register : (ℕ → ℕ) → ℕ → Storage → Option (ℕ × Storage)
register handle_of ctx s = register_rounds 2 handle_of ctx s

-- `skynet_handle_grab`, less the count of references: the context with this handle.
pub grab : (ℕ → ℕ) → ℕ → Storage → Option ℕ
grab handle_of handle s = elim (slot_at s.slot (hash_of s handle)) [
  | none ↦ none
  | some ctx ↦ if handle_of ctx == handle then some ctx else none
]

-- `skynet_handle_retire`, less the names: the context to release, if the handle was registered.
pub retire : (ℕ → ℕ) → ℕ → Storage → Option ℕ × Storage
retire handle_of handle s = elim (grab handle_of handle s) [
  | none ↦ (none, s)
  | some ctx ↦ (some ctx, record s { slot = set s.slot (hash_of s handle) none })
]

-- `ctx->handle = skynet_handle_register(ctx)`, in skynet_context_new of skynet_server.c: the new
-- handle is written into the context. The source does so after it has released the lock of the registry;
-- here a registration and this write are one step, and the test `lost` shows what may come in between.
pub set_handle : (ℕ → ℕ) → ℕ → ℕ → ℕ → ℕ
set_handle handle_of ctx handle c = if c == ctx then handle else handle_of c
