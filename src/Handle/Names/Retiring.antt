-- ===== src/Handle/Names/Retiring.antt =====
-- `skynet_handle_retire` as a whole: the slot and the names.
use demo_skynet_server.Common.{
  ℕ, ◌≡◌, refl, sym, subst, ◌∙◌, ◌≢◌, ◌↔◌, ◌⊎◌, inl, inr, Option, none, some, Option-cases, List,
  arith,
}
use demo_skynet_server.Handle.{Storage, grab, retire}
use demo_skynet_server.Handle.Inv.{IsValid}
use demo_skynet_server.Handle.Retire.{Retired, retire_lem}
use demo_skynet_server.Handle.Names.{NameTable, remove_names, retire_named}
use demo_skynet_server.Handle.Names.Search.{IsSorted, IsNamed}
use demo_skynet_server.Handle.Names.Remove.{Removed, remove_names-Removed}

-- What the removal of the names of `handle` does to the table.
pub record Unnamed (T : NameTable) (handle : ℕ) (U : NameTable) : Type 0 where
  pub sorted : IsSorted U
  pub names : (y : List ℕ) (h : ℕ) → IsNamed U y h ↔ (IsNamed T y h × (h ≢ handle))

pub remove_names-Unnamed :
    (handle : ℕ) (T : NameTable)
    → IsSorted T
    → Unnamed T handle (remove_names T.name_count handle 0 0 T)
remove_names-Unnamed handle T v = record {
  sorted = record {
    has_array = omega (arith, r.same_cap, v.has_array);
    fits = omega (arith, r.same_cap, r.counts, v.fits);
    order = r.order;
  };
  names = λ y h. (
    λ g.
        let (k, at, a, b) = (r.names y h).0 g in
        elim at [ inl l ↦ absurd (omega arith) | inr (l, m, ne) ↦ ((k, omega arith, a, b), ne) ],
    λ ((k, l, a, b), ne). (r.names y h).1 (k, inr (omega arith, omega arith, ne), a, b),
  );
}
  where
    r : Removed T handle 0 0 T.name_count (remove_names T.name_count handle 0 0 T)
    r = remove_names-Removed T.name_count handle 0 0 T (omega arith) (λ k l h d e.
        v.order k l h (elim e [ inl m ↦ absurd (omega arith) | inr (m, m') ↦ omega arith ]))

-- `skynet_handle_retire` as a whole. It hands over for release the context that the handle finds.
-- The handle is then no longer found and every other handle is found as before. Where the handle
-- was in use no name gives it any more and all other names stay; where it was not the names do not
-- change. The registry and its names stay well formed.
pub retire_named_lem :
    (handle_of : ℕ → ℕ) (handle : ℕ) (s : Storage) (T : NameTable)
    → IsValid handle_of s
    → IsSorted T
    → let r = retire_named handle_of handle s T in
      (r.0 ≡ grab handle_of handle s)
      × Retired handle_of s handle r.1
      × (((r.0 ≡ none) × (r.2 ≡ T)) ⊎ ((r.0 ≢ none) × Unnamed T handle r.2))
unfolding retire_named
retire_named_lem handle_of handle s T v w = elim (Option-cases (retire handle_of handle s).0) [
  | inl e ↦ subst Outcome (sym (unused e)) (sym e ∙ found, gone, inl (refl, refl))
  | inr (ctx, e) ↦
      subst Outcome (sym (used ctx e))
        (sym e ∙ found, gone, inr (λ h. cc, remove_names-Unnamed handle T w))
]
  where
    found : (retire handle_of handle s).0 ≡ grab handle_of handle s
    found = (retire_lem handle_of s handle v).0

    gone : Retired handle_of s handle (retire handle_of handle s).1
    gone = (retire_lem handle_of s handle v).1

    Outcome : Option ℕ × Storage × NameTable → Type 0
    Outcome r =
        (r.0 ≡ grab handle_of handle s)
        × Retired handle_of s handle r.1
        × (((r.0 ≡ none) × (r.2 ≡ T)) ⊎ ((r.0 ≢ none) × Unnamed T handle r.2))

    unused :
        (retire handle_of handle s).0 ≡ none
        → retire_named handle_of handle s T ≡ (none, (retire handle_of handle s).1, T)
    unused e = rw (e, retire_named) refl

    used :
        (ctx : ℕ)
        → (retire handle_of handle s).0 ≡ some ctx
        → retire_named handle_of handle s T
          ≡ (some ctx, (retire handle_of handle s).1, remove_names T.name_count handle 0 0 T)
    used ctx e = rw (e, retire_named) refl
