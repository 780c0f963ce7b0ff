-- ===== src/Hashid/Insert.antt =====
-- `hashid_insert` of service-src/hashid.h.
use native.Mathlib.Decide.{ℕ_discrete}
use demo_skynet_server.Common.{
  absent, ℕ, ◌<◌, ◌≡◌, refl, sym, ap, subst, ◌∙◌, ◌≢◌, inl, inr, none, some, List, ◌∷◌, ==_iff,
  ==_differ, if_true, if_false, Option-cases, count, first, Links, Links-frame, counted, update,
  update_at, update_off, sum-update, arith,
}
use demo_skynet_server.Hashid.{Hashid, bucket, find_node, insert_node, hashid_lookup, hashid_insert}
use demo_skynet_server.Hashid.Inv.{
  Inv, busy, place_of, in_no_bucket, lookup_cases, lookup_found, lookup_missing,
}

-- A new id in the free node `c`.
module _ (hi : Hashid) (chains : ℕ → List ℕ) (v : Inv hi chains) (id c : ℕ)
    (vacant : hi.id c ≡ none) (inside : c < hi.cap) (missing : (d : ℕ) → hi.id d ≢ some id) where
  abbrev h : ℕ
  h = bucket hi id

  abbrev hi' : Hashid
  hi' = insert_node hi id c

  abbrev chains' : ℕ → List ℕ
  chains' = update chains h (c ∷ chains h)

  next_here : hi'.next c ≡ first (chains h)
  unfolding insert_node
  next_here = elim (Option-cases (hi.hash h)) [
    | inl e ↦ rw e (v.free c vacant ∙ sym e ∙ v.heads h)
    | inr (d, e) ↦ rw e (update_at hi.next c (some d) ∙ sym e ∙ v.heads h)
  ]

  next_there : (x : ℕ) → x ≢ c → hi'.next x ≡ hi.next x
  unfolding insert_node
  next_there x ne = elim (Option-cases (hi.hash h)) [
    | inl e ↦ rw e refl
    | inr (d, e) ↦ rw e (update_off hi.next c x (some d) ne)
  ]

  id_here : hi'.id c ≡ some id
  unfolding insert_node
  id_here = update_at hi.id c (some id)

  id_there : (x : ℕ) → x ≢ c → hi'.id x ≡ hi.id x
  unfolding insert_node
  id_there x ne = update_off hi.id c x (some id) ne

  -- A chain without `c` is linked as it was.
  old-Links : (k : ℕ) → Links hi'.next (chains k)
  old-Links k =
      Links-frame hi.next hi'.next (chains k)
        (λ x p. next_there x (λ e.
          omega
            (arith, p, ap (λ (y : ℕ). count y (chains k)) e, in_no_bucket hi chains v c k vacant)))
        (v.links k)

  new_place : (k x : ℕ) → count x (chains' k) ≡ place_of hi.hashmod (hi'.id x) k
  new_place k x = elim (ℕ_discrete k h) [
    | yes e ↦
        ap (count x) (ap (update chains h (c ∷ chains h)) e ∙ update_at chains h (c ∷ chains h))
        ∙ elim (ℕ_discrete x c) [
          | yes f ↦
              ap (λ (y : ℕ). count y (c ∷ chains h)) f
              ∙ omega (arith, counted c c refl, in_no_bucket hi chains v c h vacant)
              ∙ sym (
                  ap (λ o. place_of hi.hashmod o k) (ap hi'.id f ∙ id_here)
                  ∙ if_true ((==_iff h k).1 (sym e)) 1 0)
          | no ne ↦
              sym (absent x c (chains h) (λ f. ne (sym f)))
              ∙ v.places h x
              ∙ ap (λ o. place_of hi.hashmod o h) (sym (id_there x ne))
              ∙ ap (place_of hi.hashmod (hi'.id x)) (sym e)
        ]
    | no ne ↦ ap (count x) (update_off chains h k (c ∷ chains h) ne) ∙ elim (ℕ_discrete x c) [
      | yes f ↦
          ap (λ (y : ℕ). count y (chains k)) f
          ∙ in_no_bucket hi chains v c k vacant
          ∙ sym (
              ap (λ o. place_of hi.hashmod o k) (ap hi'.id f ∙ id_here)
              ∙ if_false (==_differ h k (λ e. ne (sym e))) 1 0)
      | no off ↦ v.places k x ∙ ap (λ o. place_of hi.hashmod o k) (sym (id_there x off))
    ]
  ]

  pub insert_node-Inv : Inv hi' chains'
  unfolding insert_node
  insert_node-Inv = record {
    links = λ k. elim (ℕ_discrete k h) [
      | yes e ↦
          subst (Links hi'.next) (sym (ap chains' e ∙ update_at chains h (c ∷ chains h)))
            (next_here, old-Links h)
      | no ne ↦ subst (Links hi'.next) (sym (update_off chains h k (c ∷ chains h) ne)) (old-Links k)
    ];
    heads = λ k. elim (ℕ_discrete k h) [
      | yes e ↦
          ap hi'.hash e
          ∙ update_at hi.hash h (some c)
          ∙ sym (ap first (ap chains' e ∙ update_at chains h (c ∷ chains h)))
      | no ne ↦
          update_off hi.hash h k (some c) ne
          ∙ v.heads k
          ∙ sym (ap first (update_off chains h k (c ∷ chains h) ne))
    ];
    places = new_place;
    inside = λ x l. id_there x (λ e. omega arith) ∙ v.inside x l;
    single = λ x y i e f. elim (ℕ_discrete x c) [
      | yes at_x ↦ elim (ℕ_discrete y c) [
        | yes at_y ↦ at_x ∙ sym at_y
        | no off_y ↦
            absurd (missing y (sym (id_there y off_y) ∙ f ∙ sym e ∙ ap hi'.id at_x ∙ id_here))
      ]
      | no off_x ↦ elim (ℕ_discrete y c) [
        | yes at_y ↦
            absurd (missing x (sym (id_there x off_x) ∙ e ∙ sym f ∙ ap hi'.id at_y ∙ id_here))
        | no off_y ↦ v.single x y i (sym (id_there x off_x) ∙ e) (sym (id_there y off_y) ∙ f)
      ]
    ];
    free = λ x e. elim (ℕ_discrete x c) [
      | yes at_x ↦ (let wrong : none ≡ some id = sym e ∙ ap hi'.id at_x ∙ id_here in cc)
      | no off ↦ next_there x off ∙ v.free x (sym (id_there x off) ∙ e)
    ];
    used = omega (arith, v.used, sum-update busy hi.cap hi.id c (some id) inside, ap busy vacant);
  }

  pub insert_lookups :
      (hashid_lookup hi' id ≡ some (some c))
      × ((id' : ℕ) → id' ≢ id → hashid_lookup hi' id' ≡ hashid_lookup hi id')
  insert_lookups = (
    lookup_found hi' chains' insert_node-Inv id c id_here,
    λ id' ne. elim (lookup_cases hi chains v id') [
      | inl (e, none_there) ↦
          lookup_missing hi' chains' insert_node-Inv id' (λ x f. elim (ℕ_discrete x c) [
            | yes at_x ↦
                (let same : some id' ≡ some id = sym f ∙ ap hi'.id at_x ∙ id_here in
                  ne (let g : id' ≡ id = cc in g))
            | no off ↦ none_there x (sym (id_there x off) ∙ f)
          ])
          ∙ sym e
      | inr (d, e, at) ↦
          lookup_found hi' chains' insert_node-Inv id' d (
            id_there d
              (λ same. (let wrong : none ≡ some id' = sym vacant ∙ ap hi.id (sym same) ∙ at in cc))
            ∙ at)
          ∙ sym e
    ],
  )

pub insert_succeeds :
    (hi : Hashid) (id c : ℕ)
    → find_node hi.cap hi id 0 ≡ some c
    → hi.next c ≡ none
    → hashid_insert hi id ≡ some (c, insert_node hi id c)
unfolding hashid_insert
insert_succeeds hi id c e f = rw (e, f, hashid_insert) refl
