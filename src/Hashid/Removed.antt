-- ===== src/Hashid/Removed.antt =====
-- The hash of service-src/hashid.h after `hashid_remove`.
use native.Mathlib.Decide.{ℕ_discrete, dec_lt}
use demo_skynet_server.Common.{
  ℕ, ◌<◌, ◌≡◌, sym, ap, subst, ◌∙◌, ◌≢◌, inl, inr, Option, none, some, List, count, first, Links,
  Links-frame, Option-cases, update, update_at, update_off, sum-update, sum-one, arith,
}
use demo_skynet_server.Hashid.{Hashid, bucket, hashid_lookup}
use demo_skynet_server.Hashid.Inv.{
  Inv, busy, place_of, once, in_other_bucket, lookup_cases, lookup_found, lookup_missing,
}
use demo_skynet_server.Hashid.Remove.{cut, cut_others, cut_gone, Unlinks, removed}

module _ (hi : Hashid) (chains : ℕ → List ℕ) (v : Inv hi chains) (id c : ℕ)
    (at_c : hi.id c ≡ some id) (next hash : ℕ → Option ℕ)
    (u : Unlinks hi c (chains (bucket hi id)) next)
    (here : hash (bucket hi id) ≡ first (cut c (chains (bucket hi id))))
    (there : (k : ℕ) → k ≢ bucket hi id → hash k ≡ hi.hash k) where
  abbrev h : ℕ
  h = bucket hi id

  abbrev hi' : Hashid
  hi' = removed hi c hash next

  abbrev chains' : ℕ → List ℕ
  chains' = update chains h (cut c (chains h))

  inside : c < hi.cap
  inside = elim (dec_lt c hi.cap) [
    | yes l ↦ l
    | no far ↦ (let wrong : none ≡ some id = sym (v.inside c (omega arith)) ∙ at_c in cc)
  ]

  removed_place : (k x : ℕ) → count x (chains' k) ≡ place_of hi.hashmod (hi'.id x) k
  removed_place k x = elim (ℕ_discrete x c) [
    | yes e ↦
        ap (λ y. count y (chains' k)) e
        ∙ elim (ℕ_discrete k h) [
          | yes f ↦
              ap (λ j. count c (chains' j)) f
              ∙ ap (count c) (update_at chains h (cut c (chains h)))
              ∙ cut_gone c (chains h) (once hi chains v h c)
          | no ne ↦
              ap (count c) (update_off chains h k (cut c (chains h)) ne)
              ∙ in_other_bucket hi chains v c id k at_c (λ f. ne (sym f))
        ]
        ∙ sym (ap (λ o. place_of hi.hashmod o k) (ap hi'.id e ∙ update_at hi.id c none))
    | no off ↦
        elim (ℕ_discrete k h) [
          | yes f ↦
              ap (λ j. count x (chains' j)) f
              ∙ ap (count x) (update_at chains h (cut c (chains h)))
              ∙ cut_others c x (chains h) off
              ∙ ap (λ j. count x (chains j)) (sym f)
          | no ne ↦ ap (count x) (update_off chains h k (cut c (chains h)) ne)
        ]
        ∙ v.places k x
        ∙ ap (λ o. place_of hi.hashmod o k) (sym (update_off hi.id c x none off))
  ]

  -- A node of another chain is not in the one that changes.
  elsewhere : (k x : ℕ) → k ≢ h → 0 < count x (chains k) → count x (chains h) ≡ 0
  elsewhere k x ne p = elim (Option-cases (hi.id x)) [
    | inl e ↦ v.places h x ∙ ap (λ o. place_of hi.hashmod o h) e
    | inr (i, e) ↦ elim (ℕ_discrete (bucket hi i) h) [
      | yes same ↦
          absurd (omega (arith, p, in_other_bucket hi chains v x i k e (λ f. ne (sym f ∙ same))))
      | no off ↦ in_other_bucket hi chains v x i h e off
    ]
  ]

  kept : (x i : ℕ) → hi'.id x ≡ some i → (hi.id x ≡ some i) × (x ≢ c)
  kept x i e = elim (ℕ_discrete x c) [
    | yes f ↦ (let wrong : none ≡ some i = sym (ap hi'.id f ∙ update_at hi.id c none) ∙ e in cc)
    | no off ↦ (sym (update_off hi.id c x none off) ∙ e, off)
  ]

  pub removed-Inv : Inv hi' chains'
  removed-Inv = record {
    links = λ k. elim (ℕ_discrete k h) [
      | yes e ↦
          subst (Links next) (sym (ap chains' e ∙ update_at chains h (cut c (chains h)))) u.linked
      | no ne ↦
          subst (Links next) (sym (update_off chains h k (cut c (chains h)) ne)) (
            Links-frame hi.next next (chains k) (λ x p. u.others x (elsewhere k x ne p))
              (v.links k))
    ];
    heads = λ k. elim (ℕ_discrete k h) [
      | yes e ↦
          ap hash e ∙ here ∙ sym (ap first (ap chains' e ∙ update_at chains h (cut c (chains h))))
      | no ne ↦
          there k ne ∙ v.heads k ∙ sym (ap first (update_off chains h k (cut c (chains h)) ne))
    ];
    places = removed_place;
    inside = λ x l. elim (ℕ_discrete x c) [
      | yes e ↦ ap hi'.id e ∙ update_at hi.id c none
      | no off ↦ update_off hi.id c x none off ∙ v.inside x l
    ];
    single = λ x y i e f. v.single x y i (kept x i e).0 (kept y i f).0;
    free = λ x e. elim (ℕ_discrete x c) [
      | yes f ↦ ap next f ∙ u.gone
      | no off ↦
          let e' : hi.id x ≡ none = sym (update_off hi.id c x none off) ∙ e in
          u.others x (v.places h x ∙ ap (λ o. place_of hi.hashmod o h) e') ∙ v.free x e'
    ];
    used = omega (
      arith,
      v.used,
      sum-update busy hi.cap hi.id c none inside,
      ap busy at_c,
      sum-one busy hi.cap hi.id c inside,
    );
  }

  pub remove_lookups :
      (hashid_lookup hi' id ≡ some none)
      × ((id' : ℕ) → id' ≢ id → hashid_lookup hi' id' ≡ hashid_lookup hi id')
  remove_lookups = (
    lookup_missing hi' chains' removed-Inv id
        (λ x e. (kept x id e).1 (v.single x c id (kept x id e).0 at_c)),
    λ id' ne. elim (lookup_cases hi chains v id') [
      | inl (e, missing) ↦
          lookup_missing hi' chains' removed-Inv id' (λ x f. missing x (kept x id' f).0) ∙ sym e
      | inr (d, e, at) ↦
          lookup_found hi' chains' removed-Inv id' d (
            update_off hi.id c d none (λ f.
              (let same : some id' ≡ some id = sym at ∙ ap hi.id f ∙ at_c in
                ne (let g : id' ≡ id = cc in g)))
            ∙ at)
          ∙ sym e
    ],
  )
