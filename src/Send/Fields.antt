-- ===== src/Send/Fields.antt =====
-- The bits of handles and sizes that `skynet_send` of skynet-src/skynet_server.c reads.
use demo_skynet_server.Common.{
  ℕ, ◌+◌, ◌-◌, ◌*◌, ◌/◌, ◌%◌, ◌^◌, ◌≤◌, ◌<◌, bit_and, bit_or, bit_and-mask, bit_and-field,
  bit_or-fields, ◌≡◌, refl, sym, ap, ap₂, ◌∙◌, ◌⊎◌, inl, inr, true, false, arith, ◌==◌, Bool-cases,
  ==_iff, ==_differ, ne_of_false,
}
use demo_skynet_server.MessageQueue.{Message}
use demo_skynet_server.Send.{message_type_mask, message_isremote, type_and_size}

-- The node in the high byte of a handle is this one or none.
abbrev pub IsLocal : ℕ → ℕ → Type 0
IsLocal harbor handle = (handle / 2 ^ 24 % 2 ^ 8 * 2 ^ 24 ≡ harbor) ⊎ (handle / 2 ^ 24 % 2 ^ 8 ≡ 0)

pub message_isremote_cases :
    (harbor handle : ℕ)
    → ((message_isremote harbor handle ≡ true) × (¬ IsLocal harbor handle))
      ⊎ ((message_isremote harbor handle ≡ false) × IsLocal harbor handle)
unfolding message_isremote
message_isremote_cases harbor handle =
    let h = bit_and handle ((2 ^ 8 - 1) * 2 ^ 24) in
    let field : h ≡ handle / 2 ^ 24 % 2 ^ 8 * 2 ^ 24 = bit_and-field 24 8 handle in
    elim (Bool-cases (h == harbor)) [
      | inl t ↦ inr (rw t refl, inl (sym field ∙ (==_iff h harbor).0 t))
      | inr t ↦ elim (Bool-cases (h == 0)) [
        | inl u ↦ inr (rw (t, u) refl, inr (omega (arith, field, (==_iff h 0).0 u)))
        | inr u ↦ inl (
          rw (t, u) refl,
          λ l. elim l [
            | inl e ↦ ne_of_false h harbor t (field ∙ e)
            | inr e ↦ ne_of_false h 0 u (omega (arith, field, e))
          ],
        )
      ]
    ]

-- The size that `_filter_args` writes gives back the type and the size.
pub typed_size :
    (type sz : ℕ) (m : Message)
    → sz < 2 ^ 56
    → m.sz ≡ bit_or sz (bit_and type 0xff * 2 ^ 56)
    → type_and_size m ≡ (type % 2 ^ 8, sz)
unfolding type_and_size
typed_size type sz m small e =
    let sum : m.sz ≡ type % 2 ^ 8 * 2 ^ 56 + sz =
      e
      ∙ ap (λ (t : ℕ). bit_or sz (t * 2 ^ 56)) (bit_and-mask 8 type)
      ∙ bit_or-fields 56 sz (type % 2 ^ 8) small in
    let high : m.sz / 2 ^ 56 ≡ type % 2 ^ 8 = omega (arith, sum) in
    let low : bit_and m.sz message_type_mask ≡ sz = bit_and-mask 56 m.sz ∙ omega (arith, sum) in
    ap₂ (λ a b. (a, b)) high low

pub fits : (sz : ℕ) → sz < 2 ^ 56 → (bit_and sz message_type_mask == sz) ≡ true
fits sz h = (==_iff _ sz).1 (bit_and-mask 56 sz ∙ omega arith)

pub fits_not : (sz : ℕ) → 2 ^ 56 ≤ sz → (bit_and sz message_type_mask == sz) ≡ false
fits_not sz h = ==_differ _ sz (λ e. omega (arith, e, bit_and-mask 56 sz))
