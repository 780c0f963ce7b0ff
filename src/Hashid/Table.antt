-- ===== src/Hashid/Table.antt =====
-- The hash of service-src/hashid.h as a table of ids, through any history of its operations.
use native.Mathlib.Decide.{dec_lt}
use demo_skynet_server.Common.{
  ℕ, ◌≤◌, ◌<◌, ◌≡◌, refl, sym, ap, subst, ◌∙◌, ◌≢◌, ◌⊎◌, inl, inr, Option, none, some, List, [],
  ◌∷◌, update, sum-zero, arith, ◌+◌, ◌^◌,
}
use demo_skynet_server.Hashid.{
  Hashid, bucket, insert_node, hashid_init, hashid_lookup, hashid_insert, hashid_remove,
  remove_first,
}
use demo_skynet_server.Hashid.Inv.{Inv, busy, in_bucket, once, length-chain, lookup_cases}
use demo_skynet_server.Hashid.Search.{find_free_node}
use demo_skynet_server.Hashid.Insert.{insert_node-Inv, insert_lookups, insert_succeeds}
use demo_skynet_server.Hashid.Remove.{removed, cut, remove_all, missed_all}
use demo_skynet_server.Hashid.Removed.{removed-Inv, remove_lookups}

-- The states that come of `hashid_init` by inserting ids that are not in it, while it is not full, and by
-- removing any ids. The ids that are inserted are so small that no sum of an id and an index overflows.
pub data Reached (max : ℕ) : Hashid → Type 0 where
  initial : Reached max (hashid_init max)
  inserted :
      {hi hi' : Hashid} (id c : ℕ)
      → Reached max hi
      → hashid_lookup hi id ≡ some none
      → hi.count < hi.cap
      → id + hi.cap ≤ 2 ^ 31
      → hashid_insert hi id ≡ some (c, hi')
      → Reached max hi'
  removes :
      {hi hi' : Hashid} (id : ℕ) (r : Option ℕ)
      → Reached max hi
      → hashid_remove hi id ≡ some (r, hi')
      → Reached max hi'

-- A lookup in `hi'` gives what one in `hi` gives, but for `id`, for which it gives `r`.
abbrev pub Differs : Hashid → Hashid → ℕ → Option ℕ → Type 0
Differs hi hi' id r =
    (hashid_lookup hi' id ≡ some r)
    × ((id' : ℕ) → id' ≢ id → hashid_lookup hi' id' ≡ hashid_lookup hi id')

abbrev Chained : Hashid → Type 0
Chained hi = (chains : ℕ → List ℕ) × Inv hi chains

init-Inv : (max : ℕ) → Inv (hashid_init max) (λ h. [])
unfolding hashid_init
init-Inv max = record {
  links = λ h. tt;
  heads = λ h. refl;
  places = λ h c. refl;
  inside = λ c l. refl;
  single = λ c d i e f. cc;
  free = λ c e. refl;
  used = sym (sum-zero busy max none refl);
}

insert_lem :
    (hi : Hashid) (id : ℕ)
    → Chained hi
    → hashid_lookup hi id ≡ some none
    → hi.count < hi.cap
    → id + hi.cap ≤ 2 ^ 31
    → (c : ℕ) × (hi' : Hashid) × (hashid_insert hi id ≡ some (c, hi'))
      × Chained hi'
      × (c < hi.cap)
      × Differs hi hi' id (some c)
insert_lem hi id (chains, v) new room small =
    let (c, found, vacant, inside) = find_free_node hi chains v room id small in
    let missing : (d : ℕ) → hi.id d ≢ some id = elim (lookup_cases hi chains v id) [
      | inl (e, m) ↦ m
      | inr (d, e, at) ↦ (let wrong : some (some d) ≡ some none = sym e ∙ new in cc)
    ] in
    (
      c,
      insert_node hi id c,
      insert_succeeds hi id c found (v.free c vacant),
      (
        update chains (bucket hi id) (c ∷ chains (bucket hi id)),
        insert_node-Inv hi chains v id c vacant inside missing,
      ),
      inside,
      insert_lookups hi chains v id c vacant inside missing,
    )

remove_lem :
    (hi : Hashid) (id : ℕ)
    → Chained hi
    → (r : Option ℕ) × (hi' : Hashid) × (hashid_remove hi id ≡ some (r, hi'))
      × Chained hi'
      × (hashid_lookup hi id ≡ some r)
      × Differs hi hi' id none
unfolding hashid_remove
remove_lem hi id (chains, v) =
    let h : ℕ = bucket hi id in
    let start = ap (remove_first hi id) (v.heads h) in
    let short = length-chain hi chains v h in
    elim (lookup_cases hi chains v id) [
      | inl (e, missing) ↦ (
        none,
        hi,
        start ∙ missed_all hi id missing (chains h) (v.links h) short,
        (chains, v),
        e,
        (e, λ id' ne. refl),
      )
      | inr (c, e, at) ↦
          let (next, hash, out, u, here, there) =
            remove_all hi id c at (λ d f. v.single d c id f at) (chains h) (v.links h)
              (once hi chains v h) (omega (arith, in_bucket hi chains v c id at)) short
              (v.heads h) in
          (
            some c,
            removed hi c hash next,
            start ∙ out,
            (
              update chains h (cut c (chains h)),
              removed-Inv hi chains v id c at next hash u here there,
            ),
            e,
            remove_lookups hi chains v id c at next hash u here there,
          )
    ]

-- The hash of a result.
abbrev after {ℓ} : {A : Type ℓ} → Hashid → Option (A × Hashid) → Hashid
after hi none = hi
after hi (some r) = r.1

Reached-Chained : {max : ℕ} {hi : Hashid} → Reached max hi → Chained hi
Reached-Chained {max} initial = (λ h. [], init-Inv max)
Reached-Chained (inserted {hi} id c before new room small e) =
    let (c', hi', e', chained, inside, d) =
      insert_lem hi id (Reached-Chained before) new room small in
    subst Chained (ap (after hi) (sym e' ∙ e)) chained
Reached-Chained (removes {hi} id r before e) =
    let (r', hi', e', chained, found, d) = remove_lem hi id (Reached-Chained before) in
    subst Chained (ap (after hi) (sym e' ∙ e)) chained

-- In every state that the operations reach by inserting ids that are at most 2^31 less the size: a lookup
-- ends; an insertion of such an id that is not in the table succeeds while it is not full, no assertion
-- fails, no `int` overflows, and it gives a slot below the size; a removal
-- ends and gives the slot that a lookup finds, or -1 where it finds none. After an insertion a lookup
-- of the id gives its slot, after a removal -1, and all other ids are found where they were.
pub hashid_refines :
    (max : ℕ) (hi : Hashid) (id : ℕ)
    → Reached max hi
    → ((found : Option ℕ) × (hashid_lookup hi id ≡ some found))
      × ((2 ^ 31 < id + hi.cap)
          ⊎ (hi.cap ≤ hi.count)
          ⊎ (hashid_lookup hi id ≢ some none)
          ⊎ ((c : ℕ) × (hi' : Hashid) × (hashid_insert hi id ≡ some (c, hi'))
              × (c < hi.cap)
              × Differs hi hi' id (some c)))
      × ((r : Option ℕ) × (hi' : Hashid) × (hashid_remove hi id ≡ some (r, hi'))
          × (hashid_lookup hi id ≡ some r)
          × Differs hi hi' id none)
hashid_refines max hi id reached =
    let chained = Reached-Chained reached in
    let (chains, v) = chained in
    let (r, hi', out, on, found, d) = remove_lem hi id chained in
    (
      (r, found),
      elim (dec_lt (2 ^ 31) (id + hi.cap)) [
        | yes large ↦ inl large
        | no small ↦ elim (dec_lt hi.count hi.cap) [
          | no full ↦ inr (inl (omega arith))
          | yes room ↦ elim (lookup_cases hi chains v id) [
            | inr (c, e, at) ↦
                inr (inr (inl (λ f. (let wrong : some (some c) ≡ some none = sym e ∙ f in cc))))
            | inl (e, missing) ↦
                let (c, hi'', out', on', inside, d') =
                  insert_lem hi id chained e room (omega arith) in
                inr (inr (inr (c, hi'', out', inside, d')))
          ]
        ]
      ],
      (r, hi', out, found, d),
    )
