-- ===== src/Handle/Tests.antt =====
-- Concrete runs of the registry of skynet-src/skynet_handle.c.
use demo_skynet_server.Common.{
  ℕ, zero, ◌^◌, ◌%◌, ◌/◌, suc, some_eq, subst, ◌≡◌, ◌≢◌, refl, sym, ◌∙◌, Option, none, some, [],
  ◌∷◌, arith, get_or-replicate,
}
use demo_skynet_server.Handle.{
  Storage, default_slot_size, handle_init, slot_at, find_free, rehash, double_slots,
  register_rounds, register, grab, retire, set_handle,
}
use demo_skynet_server.Handle.Inv.{IsValid, handle_init-IsValid}
use demo_skynet_server.Handle.Register.{Registered, register_total}
use demo_skynet_server.Handle.Retire.{register_reuses_zero}

-- No context has a handle yet.
abbrev no_handle : ℕ → ℕ
no_handle c = 0

-- The node with harbor id 1, with no service.
abbrev fresh : Storage
fresh = handle_init 1

none-some : {c : ℕ} → none ≡ some c → ⊥
none-some e = cc

none_there : (ctx j : ℕ) → slot_at fresh.slot j ≢ some ctx
unfolding handle_init
none_there ctx j e = none-some (sym (get_or-replicate default_slot_size j none) ∙ e)

register_total_example :
    (handle : ℕ) × (t : Storage) × (register no_handle 4096 fresh ≡ some (handle, t))
    × Registered no_handle fresh 4096 handle t
unfolding handle_init
register_total_example =
    register_total no_handle fresh 4096 (handle_init-IsValid no_handle 1) (omega arith)
      (none_there 4096)

-- The service at 4096 with handle 0x01000002, in a table of four slots.
abbrev pub one_handle : ℕ → ℕ
one_handle = set_handle no_handle 4096 0x01000002

abbrev pub one_service : Storage
one_service = record {
  harbor = 2 ^ 24;
  handle_index = 3;
  slot_size = 4;
  slot = none ∷ none ∷ some 4096 ∷ none ∷ [];
}

pub one_service-IsValid : IsValid one_handle one_service
unfolding set_handle
one_service-IsValid = record {
  bits = 2;
  power = refl;
  small = omega arith;
  cells = refl;
  index = omega arith;
  node = 1;
  own_node = refl;
  registered = in_place;
}
  where
    in_place :
        (j ctx : ℕ)
        → slot_at one_service.slot j ≡ some ctx
        → (one_handle ctx % 4 ≡ j) × (one_handle ctx / 2 ^ 24 ≡ 1)
    in_place zero ctx e = absurd (none-some e)
    in_place (suc zero) ctx e = absurd (none-some e)
    in_place (suc (suc zero)) ctx e =
        let same : 4096 ≡ ctx = some_eq e in
        subst (λ c. (one_handle c % 4 ≡ 2) × (one_handle c / 2 ^ 24 ≡ 1)) same (refl, refl)
    in_place (suc (suc (suc j))) ctx e = absurd (none-some (sym (get_or-replicate 1 j none) ∙ e))

retires : (retire one_handle 0x01000002 one_service).0 ≡ some 4096
unfolding retire grab set_handle
retires = refl

-- The node with harbor id 0 when all ids have been handed out once.
abbrev worn : Storage
worn = record (handle_init 0) { handle_index = 2 ^ 24 }

worn-IsValid : IsValid no_handle worn
unfolding handle_init
worn-IsValid = record {
  bits = 2;
  power = refl;
  small = omega arith;
  cells = refl;
  index = omega arith;
  node = 0;
  own_node = refl;
  registered = λ j ctx e. absurd (none_there ctx j e);
}

register_reuses_zero_example :
    (t : Storage) × (register no_handle 4096 worn ≡ some (worn.harbor, t))
unfolding handle_init
register_reuses_zero_example = register_reuses_zero no_handle worn 4096 worn-IsValid refl refl

-- The first handle of a node with harbor id 1.
first_handle :
    ◌≡◌ {A = Option ℕ}
      (elim (register no_handle 4096 fresh) [ none ↦ none | some r ↦ some r.0 ])
      (some 0x01000001)
unfolding register register_rounds find_free handle_init
first_handle = refl

-- Three services, and one at 4099 that is registered as 0x01000003 but whose handle is not written yet.
abbrev early : ℕ → ℕ
early =
    set_handle (set_handle (set_handle no_handle 4096 0x01000004) 4097 0x01000001) 4098 0x01000002

abbrev full : Storage
full = record {
  harbor = 2 ^ 24;
  handle_index = 5;
  slot_size = 4;
  slot = some 4096 ∷ some 4097 ∷ some 4098 ∷ some 4099 ∷ [];
}

-- Another registration doubles the table: the service at 4099 cannot be found afterwards.
lost :
    ◌≡◌ {A = Option ℕ}
      (elim (register early 4100 full) [
        | none ↦ some 0
        | some (handle, t) ↦ grab (set_handle early 4099 0x01000003) 0x01000003 t
      ])
      none
unfolding register register_rounds find_free double_slots rehash grab set_handle handle_init
lost = refl
