-- ===== src/Handle/Names/RetireAll.antt =====
-- `skynet_handle_retireall` of skynet-src/skynet_handle.c, where no service comes while it runs: the retired
-- contexts are released, and what a release does beside that is not modelled.
pub mod Step
pub mod Passes
use demo_skynet_server.Common.{
  ℕ, zero, suc, ◌+◌, Bool, true, false, Option, none, some, ◌==◌, if◌then◌else◌,
}
use demo_skynet_server.Handle.{Storage, slot_at}
use demo_skynet_server.Handle.Names.{NameTable, retire_named}

-- The inner loop, `k` rounds from the slot `i` on, with the number `n` of those retired so far.
pub retire_slots : (ℕ → ℕ) → ℕ → ℕ → ℕ → Storage → NameTable → ℕ × Storage × NameTable
retire_slots handle_of zero i n s T = (n, s, T)
retire_slots handle_of (suc k) i n s T = elim (slot_at s.slot i) [
  | none ↦ retire_slots handle_of k (i + 1) n s T
  | some ctx ↦ elim (handle_of ctx == 0) [
    | true ↦ retire_slots handle_of k (i + 1) n s T
    | false ↦
        let r = retire_named handle_of (handle_of ctx) s T in
        retire_slots handle_of k (i + 1) (elim r.0 [ none ↦ n | some released ↦ n + 1 ]) r.1 r.2
  ]
]

-- The outer loop, on fuel.
pub retire_rounds : ℕ → (ℕ → ℕ) → Storage → NameTable → Option (Storage × NameTable)
retire_rounds zero handle_of s T = none
retire_rounds (suc fuel) handle_of s T =
    let r = retire_slots handle_of s.slot_size 0 0 s T in
    let rest = retire_rounds fuel handle_of r.1 r.2 in if r.0 == 0 then some (r.1, r.2) else rest

pub retireall : (ℕ → ℕ) → Storage → NameTable → Option (Storage × NameTable)
retireall handle_of s T = retire_rounds 2 handle_of s T
