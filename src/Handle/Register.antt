-- ===== src/Handle/Register.antt =====
-- What `skynet_handle_register` and `skynet_handle_grab` promise.
use native.Mathlib.Nat.{mod-mod_of_dvd, mod-lt, one-le-pow}
use native.Mathlib.Decide.{ℕ_discrete}
use demo_skynet_server.Common.{
  ℕ, ◌+◌, ◌*◌, ◌/◌, ◌%◌, ◌^◌, ◌<◌, bit_or, ◌≡◌, refl, sym, ap, ◌∙◌, ◌≢◌, ◌⊎◌, Option, none, some,
  arith, inl, inr, Option-cases, Bool-cases, length, set, some_eq, ==_iff, ◌==◌, if◌then◌else◌,
  get_or-set_self, get_or-set_ne, length-set, two-pow-dvd, bit_or-fields, if_true, if_false,
  ne_of_false, if_ne,
}
use demo_skynet_server.Handle.{
  Storage, slot_at, hash_of, find_free, register_rounds, register, grab, set_handle,
}
use demo_skynet_server.Handle.Hash.{hash_of-mod, candidate-lt, find_free_sound, find_free_full}
use demo_skynet_server.Handle.Inv.{IsValid}
use demo_skynet_server.Handle.Doubling.{Doubled, double_slots-Doubled}

-- `skynet_handle_grab` finds exactly the context that the table holds under a handle.
pub grab_found :
    (handle_of : ℕ → ℕ) (s : Storage) (handle c : ℕ)
    → grab handle_of handle s ≡ some c
    → (slot_at s.slot (hash_of s handle) ≡ some c) × (handle_of c ≡ handle)
unfolding grab
grab_found handle_of s handle c e = elim (Option-cases (slot_at s.slot (hash_of s handle))) [
  | inl empty ↦ absurd (let h : none ≡ some c = rw (empty, grab) at e in cc)
  | inr (d, full) ↦
      let h : (if handle_of d == handle then some d else none) ≡ some c = rw (full, grab) at e in
      elim (Bool-cases (handle_of d == handle)) [
        | inl t ↦
            let same : d ≡ c = some_eq (sym (if_true t (some d) none) ∙ h) in
            (full ∙ ap some same, ap handle_of (sym same) ∙ (==_iff (handle_of d) handle).0 t)
        | inr t ↦ absurd (let no_match : none ≡ some c = sym (if_false t (some d) none) ∙ h in cc)
      ]
]

pub found_grab :
    (handle_of : ℕ → ℕ) (s : Storage) (handle c : ℕ)
    → slot_at s.slot (hash_of s handle) ≡ some c
    → handle_of c ≡ handle
    → grab handle_of handle s ≡ some c
unfolding grab
found_grab handle_of s handle c e at =
    rw (e, grab) (if_true ((==_iff (handle_of c) handle).1 at) _ _)

module _ (handle_of : ℕ → ℕ) (s : Storage) (v : IsValid handle_of s) (ctx h0 : ℕ)
    (fresh : (j : ℕ) → slot_at s.slot j ≢ some ctx)
    (found : find_free s s.slot_size 0 ≡ some h0) where
  abbrev new_handle : ℕ
  new_handle = bit_or h0 s.harbor

  abbrev assigned : ℕ → ℕ
  assigned = set_handle handle_of ctx new_handle

  abbrev filled : Storage
  filled = record s { slot = set s.slot (hash_of s h0) (some ctx); handle_index = h0 + 1 }

  small_handle : h0 < 2 ^ 24
  small_handle = let (m, e, free) = find_free_sound s s.slot_size 0 found in rw e (candidate-lt s m)

  sum : new_handle ≡ v.node * 2 ^ 24 + h0
  sum = ap (bit_or h0) v.own_node ∙ bit_or-fields 24 h0 v.node small_handle

  same_slot : new_handle % s.slot_size ≡ h0 % s.slot_size
  same_slot =
      ap (λ x. x % s.slot_size) sum
      ∙ sym (
          mod-mod_of_dvd s.slot_size (v.node * 2 ^ 24 + h0)
            (rw v.power (two-pow-dvd v.bits 24 v.small)))
      ∙ ap (λ x. x % s.slot_size) low
    where
      low : (v.node * 2 ^ 24 + h0) % 2 ^ 24 ≡ h0
      low = omega (arith, small_handle)

  slot_of_h0 : hash_of s h0 ≡ h0 % s.slot_size
  slot_of_h0 = hash_of-mod v.bits s h0 v.power

  was_free : slot_at s.slot (h0 % s.slot_size) ≡ none
  was_free = ap (slot_at s.slot) (sym slot_of_h0) ∙ (find_free_sound s s.slot_size 0 found).2

  assigned_self : assigned ctx ≡ new_handle
  unfolding set_handle
  assigned_self = if_true ((==_iff ctx ctx).1 refl) _ _

  assigned_other : (c : ℕ) → c ≢ ctx → assigned c ≡ handle_of c
  unfolding set_handle
  assigned_other c ne = if_ne c ctx ne _ _

  inside : hash_of s h0 < length s.slot
  inside =
      let pos : 0 < s.slot_size = omega (arith, v.power, one-le-pow v.bits 2) in
      omega (arith, v.cells, slot_of_h0, mod-lt h0 {m = s.slot_size} pos)

  -- An entry of the table after the registration is the new one or an old one.
  filled_cases :
      (j c : ℕ)
      → slot_at filled.slot j ≡ some c
      → ((j ≡ hash_of s h0) × (c ≡ ctx)) ⊎ ((c ≢ ctx) × (slot_at s.slot j ≡ some c))
  filled_cases j c e = elim (ℕ_discrete (hash_of s h0) j) [
    | yes at ↦ inl (
      sym at,
      some_eq (
          sym e
          ∙ ap (slot_at filled.slot) (sym at)
          ∙ get_or-set_self s.slot (hash_of s h0) (some ctx) none inside),
    )
    | no ne ↦
        let old : slot_at s.slot j ≡ some c =
          sym (get_or-set_ne s.slot (hash_of s h0) j (some ctx) none ne) ∙ e in
        inr ((λ same. fresh j (old ∙ ap some same)), old)
  ]

  new_slot_of : hash_of s new_handle ≡ hash_of s h0
  new_slot_of = hash_of-mod v.bits s new_handle v.power ∙ same_slot ∙ sym slot_of_h0

  finds_new : grab assigned new_handle filled ≡ some ctx
  finds_new =
      found_grab assigned filled new_handle ctx
        (ap (slot_at filled.slot) new_slot_of
          ∙ get_or-set_self s.slot (hash_of s h0) (some ctx) none inside)
        assigned_self

  keeps_others : (g c : ℕ) → grab handle_of g s ≡ some c → grab assigned g filled ≡ some c
  keeps_others g c h =
      let (full, at) = grab_found handle_of s g c h in
      found_grab assigned filled g c
        (get_or-set_ne s.slot (hash_of s h0) (hash_of s g) (some ctx) none (λ same.
            let both : none ≡ some c =
              sym was_free ∙ ap (slot_at s.slot) (sym slot_of_h0 ∙ same) ∙ full in
            cc)
          ∙ full)
        (assigned_other c (λ same. fresh (hash_of s g) (full ∙ ap some same)) ∙ at)

  adds_no_other :
      (g c : ℕ) → g ≢ new_handle → grab assigned g filled ≡ some c → grab handle_of g s ≡ some c
  adds_no_other g c ne h =
      let (full, at) = grab_found assigned filled g c h in
      elim (filled_cases (hash_of s g) c full) [
        | inl (slot, same) ↦ absurd (ne (sym at ∙ ap assigned same ∙ assigned_self))
        | inr (other, old) ↦ found_grab handle_of s g c old (sym (assigned_other c other) ∙ at)
      ]

  filled-IsValid : IsValid assigned filled
  filled-IsValid = record {
    bits = v.bits;
    power = v.power;
    small = v.small;
    cells = length-set s.slot (hash_of s h0) (some ctx) ∙ v.cells;
    index = omega (arith, small_handle);
    node = v.node;
    own_node = v.own_node;
    registered = λ j c e. elim (filled_cases j c e) [
      | inl (at, same) ↦ (
        ap (λ x. assigned x % s.slot_size) same
            ∙ ap (λ x. x % s.slot_size) assigned_self
            ∙ same_slot
            ∙ sym slot_of_h0
            ∙ sym at,
        ap (λ x. assigned x / 2 ^ 24) same
            ∙ ap (λ x. x / 2 ^ 24) assigned_self
            ∙ ap (λ x. x / 2 ^ 24) sum
            ∙ omega (arith, small_handle),
      )
      | inr (ne, old) ↦ (
        ap (λ x. x % s.slot_size) (assigned_other c ne) ∙ (v.registered j c old).0,
        ap (λ x. x / 2 ^ 24) (assigned_other c ne) ∙ (v.registered j c old).1,
      )
    ];
  }

pub empty_grab :
    (handle_of : ℕ → ℕ) (s : Storage) (handle : ℕ)
    → slot_at s.slot (hash_of s handle) ≡ none
    → grab handle_of handle s ≡ none
unfolding grab
empty_grab handle_of s handle e = rw (e, grab) refl

-- Two lookups that find the same are the same.
same_finds :
    (o o' : Option ℕ)
    → ((c : ℕ) → o' ≡ some c → o ≡ some c)
    → ((c : ℕ) → o ≡ some c → o' ≡ some c)
    → o ≡ o'
same_finds none none into from = refl
same_finds none (some c) into from = into c refl
same_finds (some c) o' into from = sym (from c refl)

-- What a registration of `ctx` under `handle` does.
pub record Registered (handle_of : ℕ → ℕ) (s : Storage) (ctx handle : ℕ) (t : Storage)
    : Type 0 where
  pub valid : IsValid (set_handle handle_of ctx handle) t
  pub same_harbor : t.harbor ≡ s.harbor
  pub in_harbor : handle / 2 ^ 24 * 2 ^ 24 ≡ s.harbor
  pub unused : grab handle_of handle s ≡ none
  pub finds :
      (g : ℕ)
      → grab (set_handle handle_of ctx handle) g t
        ≡ (if g == handle then some ctx else grab handle_of g s)

Registered-free :
    (handle_of : ℕ → ℕ) (s : Storage) (v : IsValid handle_of s) (ctx h0 : ℕ)
    → (fresh : (j : ℕ) → slot_at s.slot j ≢ some ctx) → (e : find_free s s.slot_size 0 ≡ some h0)
    → Registered handle_of s ctx
        (bit_or h0 s.harbor)
        (record s { slot = set s.slot (hash_of s h0) (some ctx); handle_index = h0 + 1 })
Registered-free handle_of s v ctx h0 fresh e = record {
  valid = filled-IsValid handle_of s v ctx h0 fresh e;
  same_harbor = refl;
  in_harbor = omega (
    arith,
    sum handle_of s v ctx h0 fresh e,
    small_handle handle_of s v ctx h0 fresh e,
    v.own_node,
  );
  unused = empty_grab handle_of s _ (
      ap (slot_at s.slot) (new_slot_of handle_of s v ctx h0 fresh e)
      ∙ (find_free_sound s s.slot_size 0 e).2);
  finds = λ g. elim (Bool-cases (g == bit_or h0 s.harbor)) [
    | inl t ↦
        ap
          (λ x.
            grab (set_handle handle_of ctx (bit_or h0 s.harbor)) x
              (record s { slot = set s.slot (hash_of s h0) (some ctx); handle_index = h0 + 1 }))
          ((==_iff g (bit_or h0 s.harbor)).0 t)
        ∙ finds_new handle_of s v ctx h0 fresh e
        ∙ sym (if_true t (some ctx) (grab handle_of g s))
    | inr t ↦
        same_finds _ _ (keeps_others handle_of s v ctx h0 fresh e g) (λ c.
          adds_no_other handle_of s v ctx h0 fresh e g c (ne_of_false g (bit_or h0 s.harbor) t))
        ∙ sym (if_false t (some ctx) (grab handle_of g s))
  ];
}

Doubled-grab :
    (handle_of : ℕ → ℕ) (s t : Storage) (v : IsValid handle_of s) (g c : ℕ)
    → Doubled handle_of s t
    → grab handle_of g s ≡ some c
    → grab handle_of g t ≡ some c
Doubled-grab handle_of s t v g c d h =
    let (full, at) = grab_found handle_of s g c h in
    found_grab handle_of t g c
      (ap (slot_at t.slot)
          (hash_of-mod d.valid.bits t g d.valid.power ∙ ap (λ x. x % t.slot_size) (sym at))
        ∙ d.kept (hash_of s g) c full)
      at

Doubled-same :
    (handle_of : ℕ → ℕ) (s t : Storage) (v : IsValid handle_of s) (g : ℕ)
    → Doubled handle_of s t
    → grab handle_of g t ≡ grab handle_of g s
Doubled-same handle_of s t v g d =
    same_finds _ _ (λ c. Doubled-grab handle_of s t v g c d)
      (λ c h.
        let (full, at) = grab_found handle_of t g c h in
        let old = d.none_new (hash_of t g) c full in
        found_grab handle_of s g c
          (ap (slot_at s.slot) (
              hash_of-mod v.bits s g v.power
              ∙ ap (λ x. x % s.slot_size) (sym at)
              ∙ (v.registered (hash_of t g % s.slot_size) c old).0)
            ∙ old)
          at)

Registered-Doubled :
    (handle_of : ℕ → ℕ) (s t u : Storage) (v : IsValid handle_of s) (ctx handle : ℕ)
    → Doubled handle_of s t
    → Registered handle_of t ctx handle u
    → Registered handle_of s ctx handle u
Registered-Doubled handle_of s t u v ctx handle d r = record {
  valid = r.valid;
  same_harbor = r.same_harbor ∙ d.same_harbor;
  in_harbor = r.in_harbor ∙ d.same_harbor;
  unused = sym (Doubled-same handle_of s t v handle d) ∙ r.unused;
  finds = λ g.
      r.finds g ∙ ap (λ o. if g == handle then some ctx else o) (Doubled-same handle_of s t v g d);
}

-- While the table has fewer than 2^24 slots, `skynet_handle_register` of a context that is not in
-- it succeeds: no assertion fails, no null pointer is read and its outer loop ends after at most
-- one doubling. The handle carries the node's harbor id, was not in use, and finds the context from then on; every
-- other handle finds what it found before; and the registry stays well formed.
pub register_total :
    (handle_of : ℕ → ℕ) (s : Storage) (ctx : ℕ)
    → IsValid handle_of s
    → s.slot_size < 2 ^ 24
    → ((j : ℕ) → slot_at s.slot j ≢ some ctx)
    → (handle : ℕ) × (t : Storage) × (register handle_of ctx s ≡ some (handle, t))
      × Registered handle_of s ctx handle t
unfolding register register_rounds
register_total handle_of s ctx v fits fresh = elim (Option-cases (find_free s s.slot_size 0)) [
  | inr (h0, e) ↦ (_, _, rw (e, register_rounds) refl, Registered-free handle_of s v ctx h0 fresh e)
  | inl e ↦
      let full = find_free_full v.bits s v.power v.small v.index e in
      let (t, et, d) = double_slots-Doubled handle_of s v fits full in
      elim (Option-cases (find_free t t.slot_size 0)) [
        | inl e' ↦ absurd (d.room e')
        | inr (h0, e') ↦ (
          _,
          _,
          rw (e, register_rounds) (rw et (rw (e', register_rounds) refl)),
          Registered-Doubled handle_of s t _ v ctx _ d (
              Registered-free handle_of t d.valid ctx h0
                (λ j h. fresh (j % s.slot_size) (d.none_new j ctx h)) e'),
        )
      ]
]
