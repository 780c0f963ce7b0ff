-- ===== src/Hashid/Inv.antt =====
-- The invariant of the hash of service-src/hashid.h, and what a lookup finds.
use native.Mathlib.Decide.{ℕ_discrete}
use demo_skynet_server.Common.{
  absent, pigeon, ℕ, zero, suc, ◌≤◌, ◌<◌, ◌≡◌, refl, ap, ◌∙◌, ◌≢◌, ◌⊎◌, inl, inr, bit_and, true,
  false, Option, none, some, List, [], ◌∷◌, ◌==◌, ==_iff, ==_differ, ne_of_false, if◌then◌else◌,
  if_true, if_false, Bool-cases, length, count, first, Links, sum, arith,
}
use demo_skynet_server.Hashid.{Hashid, bucket, has_id, lookup_chain, hashid_lookup}

abbrev pub busy : Option ℕ → ℕ
busy none = 0
busy (some i) = 1

-- How often a node with this id stands in the chain of the bucket `h`.
abbrev pub place_of : ℕ → Option ℕ → ℕ → ℕ
place_of m none h = 0
place_of m (some i) h = if bit_and i m == h then 1 else 0

-- The chain of the bucket `h` is the list `chains h`.
pub record Inv (hi : Hashid) (chains : ℕ → List ℕ) : Type 0 where
  pub links : (h : ℕ) → Links hi.next (chains h)
  pub heads : (h : ℕ) → hi.hash h ≡ first (chains h)
  pub places : (h c : ℕ) → count c (chains h) ≡ place_of hi.hashmod (hi.id c) h
  pub inside : (c : ℕ) → hi.cap ≤ c → hi.id c ≡ none
  pub single : (c d i : ℕ) → hi.id c ≡ some i → hi.id d ≡ some i → c ≡ d
  pub free : (c : ℕ) → hi.id c ≡ none → hi.next c ≡ none
  pub used : hi.count ≡ sum busy hi.cap hi.id

place_of-le : (m h : ℕ) (o : Option ℕ) → place_of m o h ≤ 1
place_of-le m h none = omega arith
place_of-le m h (some i) = ground arith

pub once : (hi : Hashid) (chains : ℕ → List ℕ) → Inv hi chains → (h c : ℕ) → count c (chains h) ≤ 1
once hi chains v h c = omega (arith, v.places h c, place_of-le hi.hashmod h (hi.id c))

pub in_bucket :
    (hi : Hashid) (chains : ℕ → List ℕ)
    → Inv hi chains
    → (c i : ℕ) → hi.id c ≡ some i
    → count c (chains (bucket hi i)) ≡ 1
in_bucket hi chains v c i at =
    v.places (bucket hi i) c
    ∙ ap (λ o. place_of hi.hashmod o (bucket hi i)) at
    ∙ if_true ((==_iff (bucket hi i) (bucket hi i)).1 refl) 1 0

pub in_no_bucket :
    (hi : Hashid) (chains : ℕ → List ℕ)
    → Inv hi chains
    → (c h : ℕ) → hi.id c ≡ none
    → count c (chains h) ≡ 0
in_no_bucket hi chains v c h at = v.places h c ∙ ap (λ o. place_of hi.hashmod o h) at

pub in_other_bucket :
    (hi : Hashid) (chains : ℕ → List ℕ)
    → Inv hi chains
    → (c i h : ℕ) → hi.id c ≡ some i
    → bucket hi i ≢ h
    → count c (chains h) ≡ 0
in_other_bucket hi chains v c i h at ne =
    v.places h c
    ∙ ap (λ o. place_of hi.hashmod o h) at
    ∙ if_false (==_differ (bucket hi i) h ne) 1 0

pub length-chain :
    (hi : Hashid) (chains : ℕ → List ℕ) → Inv hi chains → (h : ℕ) → length (chains h) ≤ hi.cap
length-chain hi chains v h =
    pigeon hi.cap (chains h) (once hi chains v h)
      (λ c l. in_no_bucket hi chains v c h (v.inside c l))

-- The test of a node's id.
test_true : (o : Option ℕ) (i : ℕ) → (elim o [ none ↦ false | some j ↦ j == i ]) ≡ true → o ≡ some i
test_true none i t = absurd (ground arith)
test_true (some j) i t = ap some ((==_iff j i).0 t)

test_false :
    (o : Option ℕ) (i : ℕ) → (elim o [ none ↦ false | some j ↦ j == i ]) ≡ false → o ≢ some i
test_false none i t = λ e. cc
test_false (some j) i t = λ e. (let same : j ≡ i = cc in ne_of_false j i t same)

pub has_id-true : (hi : Hashid) (c i : ℕ) → has_id hi c i ≡ true → hi.id c ≡ some i
unfolding has_id
has_id-true hi c i t = test_true (hi.id c) i t

pub has_id-false : (hi : Hashid) (c i : ℕ) → has_id hi c i ≡ false → hi.id c ≢ some i
unfolding has_id
has_id-false hi c i t = test_false (hi.id c) i t

-- The walk along a chain.
lookup_walk :
    (hi : Hashid) (id fuel : ℕ) (xs : List ℕ)
    → Links hi.next xs
    → length xs ≤ fuel
    → ((lookup_chain fuel hi id (first xs) ≡ some none)
        × ((c : ℕ) → 0 < count c xs → hi.id c ≢ some id))
      ⊎ ((c : ℕ) × (lookup_chain fuel hi id (first xs) ≡ some (some c)) × (hi.id c ≡ some id))
unfolding lookup_chain
lookup_walk hi id fuel [] l h = inl (refl, λ c k. absurd (omega arith))
lookup_walk hi id zero (x ∷ xs) l h = absurd (omega arith)
lookup_walk hi id (suc fuel) (x ∷ xs) l h = elim (Bool-cases (has_id hi x id)) [
  | inl t ↦
      inr
        (x, if_true t (some (some x)) (lookup_chain fuel hi id (hi.next x)), has_id-true hi x id t)
  | inr t ↦
      let on =
        if_false t (some (some x)) (lookup_chain fuel hi id (hi.next x))
        ∙ ap (lookup_chain fuel hi id) l.0 in
      elim (lookup_walk hi id fuel xs l.1 (omega arith)) [
        | inl (e, missing) ↦ inl (
          on ∙ e,
          λ c k. elim (ℕ_discrete x c) [
            | yes same ↦ λ f. has_id-false hi x id t (ap hi.id same ∙ f)
            | no ne ↦ missing c (omega (arith, k, absent c x xs ne))
          ],
        )
        | inr (c, e, at) ↦ inr (c, on ∙ e, at)
      ]
]

-- What `hashid_lookup` finds.
pub lookup_cases :
    (hi : Hashid) (chains : ℕ → List ℕ)
    → Inv hi chains
    → (id : ℕ)
    → ((hashid_lookup hi id ≡ some none) × ((c : ℕ) → hi.id c ≢ some id))
      ⊎ ((c : ℕ) × (hashid_lookup hi id ≡ some (some c)) × (hi.id c ≡ some id))
unfolding hashid_lookup
lookup_cases hi chains v id =
    let h : ℕ = bucket hi id in
    let start = ap (lookup_chain hi.cap hi id) (v.heads h) in
    elim (lookup_walk hi id hi.cap (chains h) (v.links h) (length-chain hi chains v h)) [
      | inl (e, missing) ↦
          inl (start ∙ e, λ c at. missing c (omega (arith, in_bucket hi chains v c id at)) at)
      | inr (c, e, at) ↦ inr (c, start ∙ e, at)
    ]

pub lookup_found :
    (hi : Hashid) (chains : ℕ → List ℕ)
    → Inv hi chains
    → (id c : ℕ) → hi.id c ≡ some id
    → hashid_lookup hi id ≡ some (some c)
lookup_found hi chains v id c at = elim (lookup_cases hi chains v id) [
  | inl (e, missing) ↦ absurd (missing c at)
  | inr (d, e, at') ↦ e ∙ ap (λ (k : ℕ). some (some k)) (v.single d c id at' at)
]

pub lookup_missing :
    (hi : Hashid) (chains : ℕ → List ℕ)
    → Inv hi chains
    → (id : ℕ) → ((c : ℕ) → hi.id c ≢ some id)
    → hashid_lookup hi id ≡ some none
lookup_missing hi chains v id missing = elim (lookup_cases hi chains v id) [
  | inl (e, m) ↦ e
  | inr (c, e, at) ↦ absurd (missing c at)
]
