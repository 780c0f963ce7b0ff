-- ===== src/Handle/Doubling.antt =====
-- `skynet_handle_register` on a full table: the copy into a table of twice the size.
use mathlib.Core.Option
use native.Mathlib.Nat.{
  mod-mod_of_dvd, dvd-mul_right, mod-lt, mod_self, zero-mod, pow-succ', one-le-pow,
}
use native.Mathlib.Decide.{ℕ_discrete}
use demo_skynet_server.Common.{
  ℕ, suc, ◌+◌, ◌-◌, ◌*◌, ◌%◌, ◌^◌, ◌≤◌, ◌<◌, bit_and, ◌≡◌, refl, sym, ap, ◌∙◌, ◌≢◌, Option, none,
  some, List, [], ◌∷◌, arith, inl, inr, Option-cases, bit_and-mask, length, subst, set, replicate,
  some_eq, get_or-set_self, get_or-set_ne, length-set, length-replicate, get_or-replicate,
  two-pow-le, true, leb, le→leb, if_true,
}
use demo_skynet_server.Handle.{Storage, handle_mask, slot_at, find_free, rehash, double_slots}
use demo_skynet_server.Handle.Hash.{find_free_full}
use demo_skynet_server.Handle.Inv.{IsValid}

-- What the copy has done when the slots below `i` are copied from `slot`, of size `n`, to
-- `new_slot`.
record Copied (handle_of : ℕ → ℕ) (slot : List (Option ℕ)) (n i : ℕ) (new_slot : List (Option ℕ))
    : Type 0 where
  size : length new_slot ≡ n * 2
  from :
      (j ctx : ℕ)
      → slot_at new_slot j ≡ some ctx
      → (handle_of ctx % (n * 2) ≡ j) × (j % n < i) × (slot_at slot (j % n) ≡ some ctx)
  into :
      (m ctx : ℕ)
      → m < i
      → slot_at slot m ≡ some ctx
      → slot_at new_slot (handle_of ctx % (n * 2)) ≡ some ctx

rehash-cons :
    (handle_of : ℕ → ℕ) (n ctx : ℕ) (old new_slot : List (Option ℕ)) (hash : ℕ)
    → bit_and (handle_of ctx) (n * 2 - 1) ≡ hash
    → slot_at new_slot hash ≡ none
    → rehash handle_of n (some ctx ∷ old) new_slot
      ≡ rehash handle_of n old (set new_slot hash (some ctx))
unfolding rehash
rehash-cons handle_of n ctx old new_slot hash e free =
    let at : slot_at new_slot (bit_and (handle_of ctx) (n * 2 - 1)) ≡ none =
      ap (slot_at new_slot) e ∙ free in
    rw (at, rehash) (ap (λ x. rehash handle_of n old (set new_slot x (some ctx))) e)

module _ (handle_of : ℕ → ℕ) (slot : List (Option ℕ)) (n bits : ℕ) (pos : 0 < n)
    (width : n ≡ 2 ^ bits)
    (at_home : (j ctx : ℕ) → slot_at slot j ≡ some ctx → handle_of ctx % n ≡ j) where
  low_bits : (x : ℕ) → x % (n * 2) % n ≡ x % n
  low_bits x = mod-mod_of_dvd n x (dvd-mul_right n 2)

  copy_step :
      (i ctx : ℕ) (new_slot : List (Option ℕ))
      → slot_at slot i ≡ some ctx
      → Copied handle_of slot n i new_slot
      → (slot_at new_slot (handle_of ctx % (n * 2)) ≡ none)
        × Copied handle_of slot n (suc i) (set new_slot (handle_of ctx % (n * 2)) (some ctx))
  copy_step i ctx new_slot e c = (
    free,
    record {
      size = length-set new_slot hash (some ctx) ∙ c.size;
      from = λ j d h. elim (ℕ_discrete hash j) [
        | yes at ↦
            let same : ctx ≡ d =
              some_eq
                (sym (get_or-set_self new_slot hash (some ctx) none inside) ∙ (rw (← at) at h)) in
            let below : j % n ≡ i = ap (λ x. x % n) (sym at) ∙ home in
            (
              ap (λ x. handle_of x % (n * 2)) (sym same) ∙ at,
              omega arith,
              ap (slot_at slot) below ∙ e ∙ ap some same,
            )
        | no ne ↦
            let old = c.from j d (sym (get_or-set_ne new_slot hash j (some ctx) none ne) ∙ h) in
            (old.0, omega arith, old.2)
      ];
      into = λ m d lt h. elim (ℕ_discrete hash (handle_of d % (n * 2))) [
        | yes at ↦
            let below : i ≡ m =
              sym home ∙ ap (λ x. x % n) at ∙ low_bits (handle_of d) ∙ at_home m d h in
            ap (slot_at (set new_slot hash (some ctx))) (sym at)
            ∙ get_or-set_self new_slot hash (some ctx) none inside
            ∙ sym e
            ∙ ap (slot_at slot) below
            ∙ h
        | no ne ↦
            get_or-set_ne new_slot hash _ (some ctx) none ne ∙ c.into m d (earlier m d lt h ne) h
      ];
    },
  )
    where
      hash : ℕ
      hash = handle_of ctx % (n * 2)

      home : hash % n ≡ i
      home = low_bits (handle_of ctx) ∙ at_home i ctx e

      inside : hash < length new_slot
      inside = omega (arith, mod-lt (handle_of ctx) {m = n * 2} (omega arith), c.size)

      free : slot_at new_slot hash ≡ none
      free = elim (Option-cases (slot_at new_slot hash)) [
        | inl e' ↦ e'
        | inr (d, e') ↦ absurd (omega (arith, (c.from hash d e').1, home))
      ]

      earlier :
          (m d : ℕ) → m < suc i → slot_at slot m ≡ some d → hash ≢ handle_of d % (n * 2) → m < i
      earlier m d lt h ne = elim (ℕ_discrete m i) [
        | yes at ↦
            let same : ctx ≡ d = some_eq (sym e ∙ ap (slot_at slot) (sym at) ∙ h) in
            absurd (ne (ap (λ x. handle_of x % (n * 2)) same))
        | no other ↦ omega arith
      ]

  -- The copy of the slots from `i` on, all of them full, never meets a full slot.
  rehash_copies :
      (old : List (Option ℕ)) (i : ℕ) (new_slot : List (Option ℕ))
      → length old + i ≡ n
      → ((m : ℕ) → slot_at old m ≡ slot_at slot (i + m))
      → ((m : ℕ) → m < n → slot_at slot m ≢ none)
      → Copied handle_of slot n i new_slot
      → (t : List (Option ℕ)) × (rehash handle_of n old new_slot ≡ some t)
        × Copied handle_of slot n n t
  unfolding rehash
  rehash_copies [] i new_slot len same full c =
      (new_slot, refl, subst (λ k. Copied handle_of slot n k new_slot) (omega arith) c)
  rehash_copies (none ∷ old) i new_slot len same full c =
      absurd (full i (omega arith) (ap (slot_at slot) (omega arith) ∙ sym (same 0)))
  rehash_copies (some ctx ∷ old) i new_slot len same full c =
      let (free, c') =
        copy_step i ctx new_slot (ap (slot_at slot) (omega arith) ∙ sym (same 0)) c in
      let (t, et, ct) =
        rehash_copies old (suc i) (set new_slot (handle_of ctx % (n * 2)) (some ctx)) (omega arith)
          (λ m. same (suc m) ∙ ap (slot_at slot) (omega arith)) full c' in
      (t, rehash-cons handle_of n ctx old new_slot _ (masked (handle_of ctx)) free ∙ et, ct)
    where
      masked : (x : ℕ) → bit_and x (n * 2 - 1) ≡ x % (n * 2)
      masked x =
          let wide : n * 2 ≡ 2 ^ suc bits = omega (arith, width, pow-succ' 2 bits) in
          rw wide (bit_and-mask (suc bits) x)

-- `double_slots` on a full table: it succeeds, keeps each service in its slot, and leaves one of
-- the slots 0 and `slot_size` free.
pub record Doubled (handle_of : ℕ → ℕ) (s t : Storage) : Type 0 where
  pub valid : IsValid handle_of t
  pub same_harbor : t.harbor ≡ s.harbor
  pub twice : t.slot_size ≡ s.slot_size * 2
  pub kept :
      (j ctx : ℕ)
      → slot_at s.slot j ≡ some ctx
      → slot_at t.slot (handle_of ctx % t.slot_size) ≡ some ctx
  pub none_new :
      (j ctx : ℕ) → slot_at t.slot j ≡ some ctx → slot_at s.slot (j % s.slot_size) ≡ some ctx
  pub room : find_free t t.slot_size 0 ≢ none

pub double_slots-Doubled :
    (handle_of : ℕ → ℕ) (s : Storage)
    → (v : IsValid handle_of s) → s.slot_size < 2 ^ 24
    → ((j : ℕ) → j < s.slot_size → slot_at s.slot j ≢ none)
    → (t : Storage) × (double_slots handle_of s ≡ some t) × Doubled handle_of s t
unfolding double_slots
double_slots-Doubled handle_of s v fits full =
    let (new_slot, en, c) =
      rehash_copies handle_of s.slot s.slot_size v.bits pos v.power
        (λ j ctx e. (v.registered j ctx e).0) s.slot 0 (replicate (s.slot_size * 2) none)
        (omega (arith, v.cells)) (λ m. ap (slot_at s.slot) (omega arith)) full empty in
    (
      grown new_slot,
      if_true may_grow _ _ ∙ ap (Option.map grown) en,
      record {
        valid = grown-IsValid new_slot c;
        same_harbor = refl;
        twice = refl;
        kept = λ j ctx e. c.into j ctx (home_lt j ctx e) e;
        none_new = λ j ctx e. (c.from j ctx e).2;
        room = has_room new_slot c;
      },
    )
  where
    pos : 0 < s.slot_size
    pos = omega (arith, v.power, one-le-pow v.bits 2)

    empty : Copied handle_of s.slot s.slot_size 0 (replicate (s.slot_size * 2) none)
    empty = record {
      size = length-replicate (s.slot_size * 2) none;
      from = λ j ctx e. absurd (
          let no_entry : none ≡ some ctx = sym (get_or-replicate (s.slot_size * 2) j none) ∙ e in
          cc);
      into = λ m ctx lt e. absurd (omega arith);
    }

    small : v.bits < 24
    small = elim (ℕ_discrete v.bits 24) [
      | yes e ↦ absurd (omega (arith, v.power, ap (λ (b : ℕ). 2 ^ b) e))
      | no ne ↦ omega (arith, v.small)
    ]

    width : s.slot_size * 2 ≡ 2 ^ suc v.bits
    width = omega (arith, v.power, pow-succ' 2 v.bits)

    may_grow : leb (s.slot_size * 2 - 1) handle_mask ≡ true
    may_grow =
        let limit : 2 ^ suc v.bits ≤ 2 ^ 24 = two-pow-le small in le→leb _ _ (omega (arith, width))

    grown : List (Option ℕ) → Storage
    grown new_slot = record s { slot = new_slot; slot_size = s.slot_size * 2 }

    home_lt : (j ctx : ℕ) → slot_at s.slot j ≡ some ctx → j < s.slot_size
    home_lt j ctx e =
        omega (arith, (v.registered j ctx e).0, mod-lt (handle_of ctx) {m = s.slot_size} pos)

    grown-IsValid :
        (new_slot : List (Option ℕ))
        → Copied handle_of s.slot s.slot_size s.slot_size new_slot
        → IsValid handle_of (grown new_slot)
    grown-IsValid new_slot c = record {
      bits = suc v.bits;
      power = width;
      small = small;
      cells = c.size;
      index = v.index;
      node = v.node;
      own_node = v.own_node;
      registered = λ j ctx e.
          ((c.from j ctx e).0, (v.registered (j % s.slot_size) ctx (c.from j ctx e).2).1);
    }

    has_room :
        (new_slot : List (Option ℕ))
        → Copied handle_of s.slot s.slot_size s.slot_size new_slot
        → find_free (grown new_slot) (s.slot_size * 2) 0 ≢ none
    has_room new_slot c e =
        let all_full = find_free_full (suc v.bits) (grown new_slot) width small v.index e in
        elim (Option-cases (slot_at new_slot 0)) [
          | inl e0 ↦ all_full 0 (omega (arith, pos)) e0
          | inr (c0, e0) ↦ elim (Option-cases (slot_at new_slot s.slot_size)) [
            | inl en ↦ all_full s.slot_size (omega (arith, pos)) en
            | inr (cn, en) ↦
                let low = c.from 0 c0 e0 in
                let high = c.from s.slot_size cn en in
                let same : c0 ≡ cn = some_eq (
                  sym low.2
                  ∙ ap (slot_at s.slot) (zero-mod s.slot_size ∙ sym (mod_self s.slot_size))
                  ∙ high.2) in
                omega (arith, pos, low.0, high.0, ap (λ x. handle_of x % (s.slot_size * 2)) same)
          ]
        ]
