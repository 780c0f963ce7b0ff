-- ===== src/Handle/Retire.antt =====
-- `skynet_handle_retire`, and the ids that `skynet_handle_register` hands out when its counter has
-- gone through them all.
use native.Mathlib.Nat.{mod-lt, one-le-pow, zero-mod}
use native.Mathlib.Decide.{ℕ_discrete}
use demo_skynet_server.Common.{
  ne_of_false, if_true, if_false, if◌then◌else◌, ◌==◌, ==_iff, Bool-cases, ℕ, zero, suc, ◌+◌, ◌%◌,
  ◌^◌, ◌<◌, bit_or, bit_and, bit_or-fields, ◌≡◌, refl, sym, ap, ◌∙◌, ◌≢◌, none, some, arith, inl,
  inr, Option-cases, length, set, some_eq, get_or-set_self, get_or-set_ne, length-set,
}
use demo_skynet_server.Handle.{
  Storage, slot_at, hash_of, grab, retire, find_free, register, register_rounds, candidate,
  handle_mask,
}
use demo_skynet_server.Handle.Hash.{hash_of-mod}
use demo_skynet_server.Handle.Inv.{IsValid}
use demo_skynet_server.Handle.Register.{grab_found, empty_grab}

grab_same_slot :
    (handle_of : ℕ → ℕ) (t s : Storage) (g : ℕ)
    → slot_at t.slot (hash_of t g) ≡ slot_at s.slot (hash_of s g)
    → grab handle_of g t ≡ grab handle_of g s
unfolding grab
grab_same_slot handle_of t s g e = rw (e, grab) refl

pub record Retired (handle_of : ℕ → ℕ) (s : Storage) (handle : ℕ) (t : Storage) : Type 0 where
  pub valid : IsValid handle_of t
  pub finds : (g : ℕ) → grab handle_of g t ≡ (if g == handle then none else grab handle_of g s)

module _ (handle_of : ℕ → ℕ) (s : Storage) (v : IsValid handle_of s) (handle ctx : ℕ)
    (held : grab handle_of handle s ≡ some ctx) where
  abbrev cleared : Storage
  cleared = record s { slot = set s.slot (hash_of s handle) none }

  full : slot_at s.slot (hash_of s handle) ≡ some ctx
  full = (grab_found handle_of s handle ctx held).0

  inside : hash_of s handle < length s.slot
  inside =
      let pos : 0 < s.slot_size = omega (arith, v.power, one-le-pow v.bits 2) in
      omega
        (arith, v.cells, hash_of-mod v.bits s handle v.power, mod-lt handle {m = s.slot_size} pos)

  at_hash : slot_at cleared.slot (hash_of s handle) ≡ none
  at_hash = get_or-set_self s.slot (hash_of s handle) none none inside

  cleared_old : (j c : ℕ) → slot_at cleared.slot j ≡ some c → slot_at s.slot j ≡ some c
  cleared_old j c e = elim (ℕ_discrete (hash_of s handle) j) [
    | yes at ↦
        absurd (let both : none ≡ some c = sym at_hash ∙ ap (slot_at cleared.slot) at ∙ e in cc)
    | no ne ↦ sym (get_or-set_ne s.slot (hash_of s handle) j none none ne) ∙ e
  ]

  others_kept : (g : ℕ) → g ≢ handle → grab handle_of g cleared ≡ grab handle_of g s
  others_kept g ne = elim (ℕ_discrete (hash_of s handle) (hash_of s g)) [
    | yes at ↦
        empty_grab handle_of cleared g (ap (slot_at cleared.slot) (sym at) ∙ at_hash)
        ∙ sym (elim (Option-cases (grab handle_of g s)) [
          | inl e ↦ e
          | inr (c, e) ↦
              let (full_g, at_g) = grab_found handle_of s g c e in
              let same : ctx ≡ c = some_eq (sym full ∙ ap (slot_at s.slot) at ∙ full_g) in
              absurd (
                ne
                  (sym at_g ∙ ap handle_of (sym same) ∙ (grab_found handle_of s handle ctx held).1))
        ])
    | no apart ↦
        grab_same_slot handle_of cleared s g
          (get_or-set_ne s.slot (hash_of s handle) (hash_of s g) none none apart)
  ]

-- A handle that is in use is retired: the context is handed over for release, the handle is no
-- longer found, every other handle is found as before, and the registry stays well formed. One
-- that is not in use changes nothing.
pub retire_lem :
    (handle_of : ℕ → ℕ) (s : Storage) (handle : ℕ)
    → IsValid handle_of s
    → ((retire handle_of handle s).0 ≡ grab handle_of handle s)
      × Retired handle_of s handle (retire handle_of handle s).1
unfolding retire
retire_lem handle_of s handle v = elim (Option-cases (grab handle_of handle s)) [
  | inl e ↦
      rw (e, retire)
        (
          refl,
          record {
            valid = v;
            finds = λ g. elim (Bool-cases (g == handle)) [
              | inl t ↦ rw t (ap (λ x. grab handle_of x s) ((==_iff g handle).0 t) ∙ e)
              | inr t ↦ rw t refl
            ];
          },
        )
  | inr (ctx, e) ↦
      rw (e, retire)
        (
          refl,
          record {
            valid = record {
              bits = v.bits;
              power = v.power;
              small = v.small;
              cells = length-set s.slot (hash_of s handle) none ∙ v.cells;
              index = v.index;
              node = v.node;
              own_node = v.own_node;
              registered = λ j c h. v.registered j c (cleared_old handle_of s v handle ctx e j c h);
            };
            finds = λ g. elim (Bool-cases (g == handle)) [
              | inl t ↦
                  ap
                    (λ x. grab handle_of x (record s { slot = set s.slot (hash_of s handle) none }))
                    ((==_iff g handle).0 t)
                  ∙ empty_grab handle_of _ handle (at_hash handle_of s v handle ctx e)
                  ∙ sym (if_true t none (grab handle_of g s))
              | inr t ↦
                  others_kept handle_of s v handle ctx e g (ne_of_false g handle t)
                  ∙ sym (if_false t none (grab handle_of g s))
            ];
          },
        )
]

find_free-first :
    (s : Storage) (n : ℕ)
    → 0 < n
    → slot_at s.slot (hash_of s (candidate s 0)) ≡ none
    → find_free s n 0 ≡ some (candidate s 0)
unfolding find_free
find_free-first s zero pos e = absurd (omega arith)
find_free-first s (suc n) pos e = rw (e, find_free) refl

-- When the counter has gone through all ids, the next service may get the id 0, which is reserved
-- for the system: with slot 0 free, the handle that `skynet_handle_register` returns is the harbor
-- id alone, which on a node with harbor id 0 is the handle 0, the value for "no service".
pub register_reuses_zero :
    (handle_of : ℕ → ℕ) (s : Storage) (ctx : ℕ)
    → IsValid handle_of s
    → s.handle_index ≡ 2 ^ 24
    → slot_at s.slot 0 ≡ none
    → (t : Storage) × (register handle_of ctx s ≡ some (s.harbor, t))
unfolding register register_rounds
register_reuses_zero handle_of s ctx v last free =
    (first_slot, rw (search, register_rounds) (ap (λ h. some (h, first_slot)) plain))
  where
    first_slot : Storage
    first_slot = record s { slot = set s.slot (hash_of s 0) (some ctx); handle_index = 0 + 1 }

    zero_next : candidate s 0 ≡ 0
    zero_next = ap (λ (k : ℕ). bit_and ((0 + k) % 2 ^ 32) handle_mask) last

    slot_zero : hash_of s (candidate s 0) ≡ 0
    slot_zero = ap (hash_of s) zero_next ∙ hash_of-mod v.bits s 0 v.power ∙ zero-mod s.slot_size

    search : find_free s s.slot_size 0 ≡ some 0
    search =
        find_free-first s s.slot_size (omega (arith, v.power, one-le-pow v.bits 2))
          (ap (slot_at s.slot) slot_zero ∙ free)
        ∙ ap some zero_next

    plain : bit_or 0 s.harbor ≡ s.harbor
    plain =
        ap (bit_or 0) v.own_node
        ∙ bit_or-fields 24 0 v.node (omega arith)
        ∙ omega (arith, v.own_node)
