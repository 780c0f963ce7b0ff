-- ===== src/Handle/Names/RetireAll/Step.antt =====
-- One retirement in a pass of `skynet_handle_retireall` of skynet-src/skynet_handle.c over the slots.
use native.Mathlib.Decide.{ℕ_discrete}
use demo_skynet_server.Common.{
  ℕ, ◌+◌, ◌<◌, ◌≡◌, refl, sym, ap, subst, ◌∙◌, ◌≢◌, none, some, List, length, set, get_or-set_self,
  get_or-set_ne, ==_iff, ==_differ, if_false, arith,
}
use demo_skynet_server.Handle.{Storage, slot_at, hash_of, grab, retire}
use demo_skynet_server.Handle.Hash.{hash_of-mod}
use demo_skynet_server.Handle.Inv.{IsValid}
use demo_skynet_server.Handle.Retire.{Retired, retire_lem}
use demo_skynet_server.Handle.Names.{NameTable, remove_names, retire_named}
use demo_skynet_server.Handle.Names.Search.{IsSorted, IsNamed}
use demo_skynet_server.Handle.Names.Retiring.{remove_names-Unnamed}

module _ (handle_of : ℕ → ℕ) where
  -- No slot below `i` holds a context with a handle other than 0.
  abbrev pub Cleared : ℕ → Storage → Type 0
  Cleared i s = (j ctx : ℕ) → j < i → slot_at s.slot j ≡ some ctx → handle_of ctx ≡ 0

  -- What `t` and `U` keep of `s` and `T`.
  pub record Kept (s : Storage) (T : NameTable) (t : Storage) (U : NameTable) : Type 0 where
    pub valid : IsValid handle_of t
    pub sorted : IsSorted U
    pub size : t.slot_size ≡ s.slot_size
    pub zero_stays : grab handle_of 0 t ≡ grab handle_of 0 s
    pub names :
        (y : List ℕ) (h : ℕ)
        → IsNamed U y h
        → IsNamed T y h × (grab handle_of h t ≡ grab handle_of h s)

  pub Kept-refl : (s : Storage) (T : NameTable) → IsValid handle_of s → IsSorted T → Kept s T s T
  Kept-refl s T v w = record {
    valid = v;
    sorted = w;
    size = refl;
    zero_stays = refl;
    names = λ y h e. (e, refl);
  }

  pub Kept-trans :
      (s t u : Storage) (T U V : NameTable) → Kept s T t U → Kept t U u V → Kept s T u V
  Kept-trans s t u T U V a b = record {
    valid = b.valid;
    sorted = b.sorted;
    size = b.size ∙ a.size;
    zero_stays = b.zero_stays ∙ a.zero_stays;
    names =
        λ y h e. let (in_U, f) = b.names y h e in let (in_T, g) = a.names y h in_U in (in_T, f ∙ g);
  }

  -- A context in the slot `i`, whose handle is not 0.
  module _ (s : Storage) (T : NameTable) (v : IsValid handle_of s) (w : IsSorted T) (i ctx : ℕ)
      (at : slot_at s.slot i ≡ some ctx) (nonzero : handle_of ctx ≢ 0) where
    own_slot : hash_of s (handle_of ctx) ≡ i
    own_slot = hash_of-mod v.bits s (handle_of ctx) v.power ∙ (v.registered i ctx at).0

    held : grab handle_of (handle_of ctx) s ≡ some ctx
    unfolding grab
    held =
        rw
          (ap (slot_at s.slot) own_slot ∙ at, (==_iff (handle_of ctx) (handle_of ctx)).1 refl, grab)
          refl

    abbrev pub cleared : Storage
    cleared = record s { slot = set s.slot i none }

    abbrev pub unnamed : NameTable
    unnamed = remove_names T.name_count (handle_of ctx) 0 0 T

    retired : retire handle_of (handle_of ctx) s ≡ (some ctx, cleared)
    unfolding retire
    retired =
        rw (held, retire) (ap (λ k. (some ctx, record s { slot = set s.slot k none })) own_slot)

    pub named : retire_named handle_of (handle_of ctx) s T ≡ (some ctx, cleared, unnamed)
    unfolding retire_named
    named = rw (retired, retire_named) (ap (λ r. (some ctx, r.1, unnamed)) retired)

    gone : Retired handle_of s (handle_of ctx) cleared
    gone =
        subst (λ r. Retired handle_of s (handle_of ctx) r.1) retired
          (retire_lem handle_of s (handle_of ctx) v).1

    still : (h : ℕ) → h ≢ handle_of ctx → grab handle_of h cleared ≡ grab handle_of h s
    still h ne = gone.finds h ∙ if_false (==_differ h (handle_of ctx) ne) none (grab handle_of h s)

    pub retired-Kept : Kept s T cleared unnamed
    retired-Kept = record {
      valid = gone.valid;
      sorted = (remove_names-Unnamed (handle_of ctx) T w).sorted;
      size = refl;
      zero_stays = still 0 (λ e. nonzero (sym e));
      names = λ y h e.
          let (in_T, ne) = ((remove_names-Unnamed (handle_of ctx) T w).names y h).0 e in
          (in_T, still h ne);
    }

    pub retired-Cleared : Cleared i s → i < length s.slot → Cleared (i + 1) cleared
    retired-Cleared before inside j c l e = elim (ℕ_discrete i j) [
      | yes same ↦
          (let both : none ≡ some c =
              sym (get_or-set_self s.slot i none none inside)
              ∙ ap (slot_at cleared.slot) same
              ∙ e in
            cc)
      | no ne ↦ before j c (omega arith) (sym (get_or-set_ne s.slot i j none none ne) ∙ e)
    ]
