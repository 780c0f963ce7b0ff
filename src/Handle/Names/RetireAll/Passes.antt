-- ===== src/Handle/Names/RetireAll/Passes.antt =====
-- The passes of `skynet_handle_retireall` of skynet-src/skynet_handle.c over the slots.
use native.Mathlib.Nat.{mod-lt, one-le-pow}
use native.Mathlib.Decide.{ℕ_discrete}
use demo_skynet_server.Common.{
  ℕ, zero, suc, ◌+◌, ◌<◌, ◌≡◌, refl, sym, ap, ◌∙◌, ◌≢◌, ◌⊎◌, inl, inr, Bool-cases, none, some,
  Option-cases, List, ◌==◌, ==_iff, ==_differ, ne_of_false, if_true, if_false, arith,
}
use demo_skynet_server.Handle.{Storage, slot_at, hash_of, grab}
use demo_skynet_server.Handle.Hash.{hash_of-mod}
use demo_skynet_server.Handle.Inv.{IsValid}
use demo_skynet_server.Handle.Register.{grab_found}
use demo_skynet_server.Handle.Names.{NameTable}
use demo_skynet_server.Handle.Names.Search.{IsSorted, IsNamed}
use demo_skynet_server.Handle.Names.RetireAll.{retire_slots, retire_rounds, retireall}
use demo_skynet_server.Handle.Names.RetireAll.Step.{
  Cleared, Kept, Kept-refl, Kept-trans, cleared, unnamed, named, retired-Kept, retired-Cleared,
}

module _ (handle_of : ℕ → ℕ) where
  -- A slot that needs no retirement.
  next-Cleared :
      (s : Storage) (i : ℕ)
      → Cleared handle_of i s
      → ((ctx : ℕ) → slot_at s.slot i ≡ some ctx → handle_of ctx ≡ 0)
      → Cleared handle_of (i + 1) s
  next-Cleared s i before here j c l e = elim (ℕ_discrete j i) [
    | yes same ↦ here c (sym (ap (slot_at s.slot) same) ∙ e)
    | no ne ↦ before j c (omega arith) e
  ]

  record Pass (s : Storage) (T : NameTable) (r : ℕ × Storage × NameTable) : Type 0 where
    pub kept : Kept handle_of s T r.1 r.2
    pub cleared : Cleared handle_of s.slot_size r.1

  pass :
      (k i n : ℕ) (s : Storage) (T : NameTable)
      → IsValid handle_of s
      → IsSorted T
      → Cleared handle_of i s
      → i + k ≡ s.slot_size
      → Pass s T (retire_slots handle_of k i n s T)
  unfolding retire_slots
  pass zero i n s T v w before e = record {
    kept = Kept-refl handle_of s T v w;
    cleared = λ j c l f. before j c (omega arith) f;
  }
  pass (suc k) i n s T v w before e = elim (Option-cases (slot_at s.slot i)) [
    | inl empty ↦
        rw (empty, retire_slots)
          (pass k (i + 1) n s T v w
            (next-Cleared s i before (λ c f. (let both : none ≡ some c = sym empty ∙ f in cc)))
            (omega arith))
    | inr (ctx, at) ↦ elim (Bool-cases (handle_of ctx == 0)) [
      | inl t ↦
          rw (at, t, retire_slots)
            (pass k (i + 1) n s T v w
              (next-Cleared s i before (λ c f.
                (let same : some ctx ≡ some c = sym at ∙ f in
                  ap handle_of (sym (let g : ctx ≡ c = cc in g)) ∙ (==_iff (handle_of ctx) 0).0 t)))
              (omega arith))
      | inr t ↦
          let nonzero = ne_of_false (handle_of ctx) 0 t in
          let one = retired-Kept handle_of s T v w i ctx at nonzero in
          let rest =
            pass k (i + 1) (n + 1) (cleared handle_of s T v w i ctx at nonzero)
              (unnamed handle_of s T v w i ctx at nonzero) one.valid one.sorted
              (retired-Cleared handle_of s T v w i ctx at nonzero before
                (omega (arith, v.cells, e)))
              (omega arith) in
          let all : Pass s T (
              retire_slots handle_of k (i + 1) (n + 1) (cleared handle_of s T v w i ctx at nonzero)
                (unnamed handle_of s T v w i ctx at nonzero)) =
            record {
              kept = Kept-trans handle_of s _ _ T _ _ one rest.kept;
              cleared = rest.cleared;
            } in
          rw (at, t, named handle_of s T v w i ctx at nonzero, retire_slots) all
    ]
  ]

  -- A pass that finds nothing to retire.
  idle :
      (k i n : ℕ) (s : Storage) (T : NameTable)
      → Cleared handle_of (i + k) s
      → retire_slots handle_of k i n s T ≡ (n, s, T)
  unfolding retire_slots
  idle zero i n s T before = refl
  idle (suc k) i n s T before =
      let on = idle k (i + 1) n s T (λ j c l e. before j c (omega arith) e) in
      elim (Option-cases (slot_at s.slot i)) [
        | inl empty ↦ rw (empty, retire_slots) on
        | inr (ctx, at) ↦
            rw (at, (==_iff (handle_of ctx) 0).1 (before i ctx (omega arith) at), retire_slots) on
      ]

  idle_round :
      (fuel : ℕ) (s : Storage) (T : NameTable)
      → Cleared handle_of s.slot_size s
      → retire_rounds (suc fuel) handle_of s T ≡ some (s, T)
  unfolding retire_rounds
  idle_round fuel s T clear =
      rw (idle s.slot_size 0 0 s T (λ j c l e. clear j c (omega arith) e), retire_rounds) refl

  two_rounds :
      (s : Storage) (T : NameTable)
      → Cleared handle_of s.slot_size (retire_slots handle_of s.slot_size 0 0 s T).1
      → (retire_slots handle_of s.slot_size 0 0 s T).1.slot_size ≡ s.slot_size
      → retireall handle_of s T
        ≡ some (
          (retire_slots handle_of s.slot_size 0 0 s T).1,
          (retire_slots handle_of s.slot_size 0 0 s T).2,
        )
  unfolding retireall retire_rounds
  two_rounds s T clear size =
      let r : ℕ × Storage × NameTable = retire_slots handle_of s.slot_size 0 0 s T in
      let rest = idle_round 0 r.1 r.2 (λ j c l e. clear j c (omega (arith, size)) e) in
      elim (ℕ_discrete r.0 0) [
        | yes z ↦ if_true ((==_iff r.0 0).1 z) (some (r.1, r.2)) (retire_rounds 1 handle_of r.1 r.2)
        | no nz ↦
            if_false (==_differ r.0 0 nz) (some (r.1, r.2)) (retire_rounds 1 handle_of r.1 r.2)
            ∙ rest
      ]

  cleared_grab :
      (t : Storage)
      → IsValid handle_of t
      → Cleared handle_of t.slot_size t
      → (h : ℕ) → h ≢ 0
      → grab handle_of h t ≡ none
  cleared_grab t v clear h nonzero = elim (Option-cases (grab handle_of h t)) [
    | inl e ↦ e
    | inr (ctx, e) ↦
        let (at, own) = grab_found handle_of t h ctx e in
        let pos : 0 < t.slot_size = omega (arith, v.power, one-le-pow v.bits 2) in
        let inside : hash_of t h < t.slot_size =
          omega (arith, hash_of-mod v.bits t h v.power, mod-lt h {m = t.slot_size} pos) in
        absurd (nonzero (sym own ∙ clear (hash_of t h) ctx inside at))
  ]

-- `skynet_handle_retireall` of a well-formed registry ends after at most two passes over the slots. Then no
-- handle other than 0 is found, the handle 0 finds what it found before, every name that is left is one
-- from before and names a handle that was not in use or is 0, and the registry and its names stay well formed.
pub retireall_lem :
    (handle_of : ℕ → ℕ) (s : Storage) (T : NameTable)
    → IsValid handle_of s
    → IsSorted T
    → (t : Storage) × (U : NameTable) × (retireall handle_of s T ≡ some (t, U))
      × ((h : ℕ) → h ≢ 0 → grab handle_of h t ≡ none)
      × (grab handle_of 0 t ≡ grab handle_of 0 s)
      × ((y : List ℕ) (h : ℕ)
          → IsNamed U y h
          → IsNamed T y h × ((h ≡ 0) ⊎ (grab handle_of h s ≡ none)))
      × IsValid handle_of t
      × IsSorted U
retireall_lem handle_of s T v w =
    let r : ℕ × Storage × NameTable = retire_slots handle_of s.slot_size 0 0 s T in
    let p =
      pass handle_of s.slot_size 0 0 s T v w (λ j c l e. absurd (omega arith)) (omega arith) in
    let k = p.kept in
    let none_left =
      cleared_grab handle_of r.1 k.valid (λ j c l e. p.cleared j c (omega (arith, k.size)) e) in
    (
      r.1,
      r.2,
      two_rounds handle_of s T p.cleared k.size,
      none_left,
      k.zero_stays,
      λ y h e.
          let (in_T, same) = k.names y h e in
          (in_T, elim (ℕ_discrete h 0) [ yes z ↦ inl z | no nz ↦ inr (sym same ∙ none_left h nz) ]),
      k.valid,
      k.sorted,
    )
