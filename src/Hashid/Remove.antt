-- ===== src/Hashid/Remove.antt =====
-- `hashid_remove` of service-src/hashid.h.
use native.Mathlib.Decide.{ℕ_discrete}
use demo_skynet_server.Common.{
  absent, ℕ, zero, suc, ◌+◌, ◌-◌, ◌≤◌, ◌<◌, ◌≡◌, refl, sym, ap, subst, ◌∙◌, ◌≢◌, inl, inr, false,
  Option, none, some, List, [], ◌∷◌, ◌==◌, ==_iff, ==_differ, if◌then◌else◌, if_true, if_false,
  Bool-cases, length, count, first, Links, Links-frame, counted, update, update_at, update_off,
  arith,
}
use demo_skynet_server.Hashid.{Hashid, bucket, has_id, clear_node, remove_chain, remove_first}
use demo_skynet_server.Hashid.Inv.{has_id-true, has_id-false}

-- The chain without the node `c`.
abbrev pub cut : ℕ → List ℕ → List ℕ
cut c [] = []
cut c (x ∷ xs) = if x == c then xs else x ∷ cut c xs

cut_here : (c x : ℕ) (xs : List ℕ) → x ≡ c → cut c (x ∷ xs) ≡ xs
cut_here c x xs e = if_true ((==_iff x c).1 e) xs (x ∷ cut c xs)

cut_on : (c x : ℕ) (xs : List ℕ) → x ≢ c → cut c (x ∷ xs) ≡ x ∷ cut c xs
cut_on c x xs ne = if_false (==_differ x c ne) xs (x ∷ cut c xs)

pub cut_others : (c y : ℕ) (xs : List ℕ) → y ≢ c → count y (cut c xs) ≡ count y xs
cut_others c y [] ne = refl
cut_others c y (x ∷ xs) ne = elim (ℕ_discrete x c) [
  | yes e ↦ ap (count y) (cut_here c x xs e) ∙ absent y x xs (λ f. ne (sym f ∙ e))
  | no off ↦
      ap (count y) (cut_on c x xs off)
      ∙ ap (λ (k : ℕ). (if x == y then 1 else 0) + k) (cut_others c y xs ne)
]

pub cut_gone : (c : ℕ) (xs : List ℕ) → count c xs ≤ 1 → count c (cut c xs) ≡ 0
cut_gone c [] h = refl
cut_gone c (x ∷ xs) h = elim (ℕ_discrete x c) [
  | yes e ↦ ap (count c) (cut_here c x xs e) ∙ omega (arith, h, counted x c e)
  | no off ↦
      ap (count c) (cut_on c x xs off)
      ∙ sym (absent c x (cut c xs) off)
      ∙ cut_gone c xs (omega (arith, h, absent c x xs off))
]

-- The links after the node `c` is taken out of the chain.
pub record Unlinks (hi : Hashid) (c : ℕ) (xs : List ℕ) (next : ℕ → Option ℕ) : Type 0 where
  pub linked : Links next (cut c xs)
  pub gone : next c ≡ none
  pub others : (x : ℕ) → count x xs ≡ 0 → next x ≡ hi.next x

abbrev pub removed : Hashid → ℕ → (ℕ → Option ℕ) → (ℕ → Option ℕ) → Hashid
removed hi c hash next = record hi {
  hash = hash;
  next = next;
  id = update hi.id c none;
  count = hi.count - 1;
}

abbrev unlinked : Hashid → ℕ → ℕ → (ℕ → Option ℕ)
unlinked hi b d = update (update hi.next b (hi.next d)) d none

-- The loop behind the node `b`, in a chain where `c` has the id.
module _ (hi : Hashid) (id c : ℕ) (at_c : hi.id c ≡ some id)
    (only : (d : ℕ) → hi.id d ≡ some id → d ≡ c) where
  remove_walk :
      (fuel b : ℕ) (ys : List ℕ)
      → Links hi.next (b ∷ ys)
      → ((x : ℕ) → count x (b ∷ ys) ≤ 1)
      → 0 < count c ys
      → length ys ≤ fuel
      → (next : ℕ → Option ℕ) × (remove_chain fuel hi id b (first ys)
          ≡ some (some c, removed hi c hi.hash next))
        × Unlinks hi c (b ∷ ys) next
  unfolding remove_chain clear_node
  remove_walk fuel b [] l few here room = absurd (omega arith)
  remove_walk zero b (y ∷ ys) l few here room = absurd (omega arith)
  remove_walk (suc fuel) b (y ∷ ys) l few here room = elim (Bool-cases (has_id hi y id)) [
    | inl t ↦
        let is_c : y ≡ c = only y (has_id-true hi y id t) in
        let b_off : b ≢ y = λ e. omega (arith, few y, counted b y e, counted y y refl) in
        let out : Option (Option ℕ × Hashid) = remove_chain fuel hi id y (hi.next y) in
        (
          unlinked hi b y,
          if_true t (some (some y, removed hi y hi.hash (unlinked hi b y))) out
              ∙ ap (λ k. some (some k, removed hi k hi.hash (unlinked hi b y))) is_c,
          record {
            linked =
                subst (Links (unlinked hi b y))
                  (sym (
                    cut_on c b (y ∷ ys) (λ e. b_off (e ∙ sym is_c))
                    ∙ ap (λ z. b ∷ z) (cut_here c y ys is_c)))
                  (
                    update_off (update hi.next b (hi.next y)) y b none b_off
                        ∙ update_at hi.next b (hi.next y)
                        ∙ l.1.0,
                    Links-frame hi.next (unlinked hi b y) ys
                        (λ x p.
                          update_off (update hi.next b (hi.next y)) y x none
                            (λ e. omega (arith, p, few x, counted y x (sym e)))
                          ∙ update_off hi.next b x (hi.next y)
                              (λ e. omega (arith, p, few x, counted b x (sym e))))
                        l.1.1,
                  );
            gone =
                ap (unlinked hi b y) (sym is_c) ∙ update_at (update hi.next b (hi.next y)) y none;
            others = λ x z.
                update_off (update hi.next b (hi.next y)) y x none
                  (λ e. omega (arith, z, counted y x (sym e)))
                ∙ update_off hi.next b x (hi.next y) (λ e. omega (arith, z, counted b x (sym e)));
          },
        )
    | inr t ↦
        let off : y ≢ c = λ e. has_id-false hi y id t (ap hi.id e ∙ at_c) in
        let (next, out, u) =
          remove_walk fuel y ys l.1 (λ x. omega (arith, few x))
            (omega (arith, here, absent c y ys off)) (omega arith) in
        (
          next,
          if_false t _ (remove_chain fuel hi id y (hi.next y))
              ∙ ap (remove_chain fuel hi id y) l.1.0
              ∙ out,
          record {
            linked =
                subst (Links next)
                  (sym (cut_on c b (y ∷ ys) (λ e. omega (arith, here, few c, counted b c e))))
                  (
                    u.others b (omega (arith, few b, counted b b refl))
                        ∙ l.0
                        ∙ sym (ap first (cut_on c y ys off)),
                    u.linked,
                  );
            gone = u.gone;
            others = λ x z. u.others x (omega (arith, z));
          },
        )
  ]

  -- The whole of the chain.
  pub remove_all :
      (xs : List ℕ)
      → Links hi.next xs
      → ((x : ℕ) → count x xs ≤ 1)
      → 0 < count c xs
      → length xs ≤ hi.cap
      → hi.hash (bucket hi id) ≡ first xs
      → (next : ℕ → Option ℕ) × (hash : ℕ → Option ℕ) × (remove_first hi id (first xs)
          ≡ some (some c, removed hi c hash next))
        × Unlinks hi c xs next
        × (hash (bucket hi id) ≡ first (cut c xs))
        × ((k : ℕ) → k ≢ bucket hi id → hash k ≡ hi.hash k)
  unfolding remove_first clear_node
  remove_all [] l few here room top = absurd (omega arith)
  remove_all (x ∷ xs) l few here room top = elim (Bool-cases (has_id hi x id)) [
    | inl t ↦
        let is_c : x ≡ c = only x (has_id-true hi x id t) in
        let hash : ℕ → Option ℕ = update hi.hash (bucket hi id) (hi.next x) in
        let next : ℕ → Option ℕ = update hi.next x none in
        (
          next,
          hash,
          if_true t (some (some x, removed hi x hash next))
                (remove_chain hi.cap hi id x (hi.next x))
              ∙ ap (λ k. some (some k, removed hi k hash next)) is_c,
          record {
            linked = subst (Links next) (sym (cut_here c x xs is_c)) (
                Links-frame hi.next next xs
                  (λ y p.
                    update_off hi.next x y none (λ e. omega (arith, p, few y, counted x y (sym e))))
                  l.1);
            gone = ap next (sym is_c) ∙ update_at hi.next x none;
            others =
                λ y z. update_off hi.next x y none (λ e. omega (arith, z, counted x y (sym e)));
          },
          update_at hi.hash (bucket hi id) (hi.next x)
              ∙ l.0
              ∙ sym (ap first (cut_here c x xs is_c)),
          λ k ne. update_off hi.hash (bucket hi id) k (hi.next x) ne,
        )
    | inr t ↦
        let off : x ≢ c = λ e. has_id-false hi x id t (ap hi.id e ∙ at_c) in
        let (next, out, u) =
          remove_walk hi.cap x xs l few (omega (arith, here, absent c x xs off)) (omega arith) in
        (
          next,
          hi.hash,
          if_false t _ (remove_chain hi.cap hi id x (hi.next x))
              ∙ ap (remove_chain hi.cap hi id x) l.0
              ∙ out,
          u,
          top ∙ sym (ap first (cut_on c x xs off)),
          λ k ne. refl,
        )
  ]

-- Where no node has the id, nothing changes.
module _ (hi : Hashid) (id : ℕ) (missing : (d : ℕ) → hi.id d ≢ some id) where
  has_none : (d : ℕ) → has_id hi d id ≡ false
  has_none d = elim (Bool-cases (has_id hi d id)) [
    | inl t ↦ absurd (missing d (has_id-true hi d id t))
    | inr f ↦ f
  ]

  missed_walk :
      (fuel b : ℕ) (ys : List ℕ)
      → Links hi.next (b ∷ ys)
      → length ys ≤ fuel
      → remove_chain fuel hi id b (first ys) ≡ some (none, hi)
  unfolding remove_chain
  missed_walk fuel b [] l room = refl
  missed_walk zero b (y ∷ ys) l room = absurd (omega arith)
  missed_walk (suc fuel) b (y ∷ ys) l room =
      if_false (has_none y) _ (remove_chain fuel hi id y (hi.next y))
      ∙ ap (remove_chain fuel hi id y) l.1.0
      ∙ missed_walk fuel y ys l.1 (omega arith)

  pub missed_all :
      (xs : List ℕ)
      → Links hi.next xs
      → length xs ≤ hi.cap
      → remove_first hi id (first xs) ≡ some (none, hi)
  unfolding remove_first
  missed_all [] l room = refl
  missed_all (x ∷ xs) l room =
      if_false (has_none x) _ (remove_chain hi.cap hi id x (hi.next x))
      ∙ ap (remove_chain hi.cap hi id x) l.0
      ∙ missed_walk hi.cap x xs l (omega arith)
