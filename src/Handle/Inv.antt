-- ===== src/Handle/Inv.antt =====
-- The invariant of the registry of skynet-src/skynet_handle.c, and its doubling.
use demo_skynet_server.Common.{
  ℕ, ◌*◌, ◌/◌, ◌%◌, ◌^◌, ◌≤◌, bit_and, ◌≡◌, refl, sym, ◌∙◌, none, some, arith, length,
  get_or-replicate,
}
use demo_skynet_server.Handle.{Storage, default_slot_size, handle_init, slot_at}

pub record IsValid (handle_of : ℕ → ℕ) (s : Storage) : Type 0 where
  pub bits : ℕ
  pub power : s.slot_size ≡ 2 ^ bits
  pub small : bits ≤ 24
  pub cells : length s.slot ≡ s.slot_size
  pub index : s.handle_index ≤ 2 ^ 24
  pub node : ℕ
  pub own_node : s.harbor ≡ node * 2 ^ 24
  pub registered :
      (j ctx : ℕ)
      → slot_at s.slot j ≡ some ctx
      → (handle_of ctx % s.slot_size ≡ j) × (handle_of ctx / 2 ^ 24 ≡ node)

pub handle_init-IsValid : (handle_of : ℕ → ℕ) (harbor : ℕ) → IsValid handle_of (handle_init harbor)
unfolding handle_init
handle_init-IsValid handle_of harbor = record {
  bits = 2;
  power = refl;
  small = omega arith;
  cells = refl;
  index = omega arith;
  node = bit_and harbor 0xff;
  own_node = refl;
  registered = λ j ctx e.
      absurd
        (let empty : none ≡ some ctx = sym (get_or-replicate default_slot_size j none) ∙ e in cc);
}
