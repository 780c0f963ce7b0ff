-- ===== src/Handle/Names/Insert.antt =====
-- `_insert_name_before` and `skynet_handle_namehandle`: a new name goes to its place in the order.
use native.Mathlib.Decide.{ℕ_discrete}
use demo_skynet_server.Common.{
  ℕ, zero, suc, ◌+◌, ◌-◌, ◌*◌, ◌≤◌, ◌<◌, ◌≡◌, refl, sym, ap, ◌∙◌, ◌≢◌, ◌⊎◌, inl, inr, some, List,
  arith, leb, Bool-cases, le→leb, if_true, if_false, if_ne, ==_refl, not_leb,
}
use demo_skynet_server.Handle.Names.{
  HandleName, NameTable, max_slot_size, put_name, copy_names, move_names_up, insert_name_before,
}

put_at : (a : ℕ → HandleName) (i : ℕ) (x : HandleName) → put_name a i x i ≡ x
put_at a i x = if_true (==_refl i) x (a i)

put_off : (a : ℕ → HandleName) (i k : ℕ) (x : HandleName) → k ≢ i → put_name a i x k ≡ a k
put_off a i k x ne = if_ne k i ne x (a k)

-- A copy leaves the cells below and above its target alone, and fills the target.
copy_names_off :
    (n i shift : ℕ) (a b : ℕ → HandleName) (k : ℕ)
    → (k < i + shift) ⊎ (i + n + shift ≤ k)
    → copy_names n i shift a b k ≡ b k
unfolding copy_names
copy_names_off zero i shift a b k h = refl
copy_names_off (suc n) i shift a b k h =
    copy_names_off n (i + 1) shift a (put_name b (i + shift) (a i)) k
      (elim h [ inl l ↦ inl (omega arith) | inr l ↦ inr (omega arith) ])
    ∙ put_off b (i + shift) k (a i) (λ e. elim h [ inl l ↦ omega arith | inr l ↦ omega arith ])

copy_names_on :
    (n i shift : ℕ) (a b : ℕ → HandleName) (k : ℕ)
    → i ≤ k
    → k < i + n
    → copy_names n i shift a b (k + shift) ≡ a k
unfolding copy_names
copy_names_on zero i shift a b k h l = absurd (omega arith)
copy_names_on (suc n) i shift a b k h l = elim (ℕ_discrete i k) [
  | yes e ↦
      copy_names_off n (i + 1) shift a (put_name b (i + shift) (a i)) (k + shift)
        (inl (omega arith))
      ∙ ap (λ m. put_name b (i + shift) (a i) (m + shift)) (sym e)
      ∙ put_at b (i + shift) (a i)
      ∙ ap a e
  | no ne ↦
      copy_names_on n (i + 1) shift a (put_name b (i + shift) (a i)) k (omega arith) (omega arith)
]

move_names_up_off :
    (n before : ℕ) (a : ℕ → HandleName) (k : ℕ)
    → (k ≤ before) ⊎ (before + n < k)
    → move_names_up n before a k ≡ a k
unfolding move_names_up
move_names_up_off zero before a k h = refl
move_names_up_off (suc n) before a k h =
    move_names_up_off n before (put_name a (before + suc n) (a (before + suc n - 1))) k
      (elim h [ inl l ↦ inl l | inr l ↦ inr (omega arith) ])
    ∙ put_off a (before + suc n) k _ (λ e. elim h [ inl l ↦ omega arith | inr l ↦ omega arith ])

move_names_up_on :
    (n before : ℕ) (a : ℕ → HandleName) (k : ℕ)
    → before ≤ k
    → k < before + n
    → move_names_up n before a (k + 1) ≡ a k
unfolding move_names_up
move_names_up_on zero before a k h l = absurd (omega arith)
move_names_up_on (suc n) before a k h l = elim (ℕ_discrete (before + suc n) (k + 1)) [
  | yes e ↦
      move_names_up_off n before (put_name a (before + suc n) (a (before + suc n - 1))) (k + 1)
        (inr (omega arith))
      ∙ ap (put_name a (before + suc n) (a (before + suc n - 1))) (sym e)
      ∙ put_at a (before + suc n) (a (before + suc n - 1))
      ∙ (let same : before + suc n - 1 ≡ k = omega arith in ap a same)
  | no ne ↦
      move_names_up_on n before (put_name a (before + suc n) (a (before + suc n - 1))) k h
        (omega arith)
      ∙ put_off a (before + suc n) k _ (omega arith)
]

-- The table `U` is `T` with `entry` put in before index `p`.
pub record Inserted (T : NameTable) (p : ℕ) (entry : HandleName) (U : NameTable) : Type 0 where
  pub counts : U.name_count ≡ T.name_count + 1
  pub fits : U.name_count ≤ U.name_cap
  pub low : (k : ℕ) → k < p → U.name k ≡ T.name k
  pub new : U.name p ≡ entry
  pub high : (k : ℕ) → p ≤ k → k < T.name_count → U.name (k + 1) ≡ T.name k

pub insert_name_before-Inserted :
    (fresh : ℕ → HandleName) (name : List ℕ) (handle p : ℕ) (T : NameTable)
    → T.name_count ≤ T.name_cap
    → 0 < T.name_cap
    → T.name_cap * 2 ≤ max_slot_size
    → p ≤ T.name_count
    → (U : NameTable) × (insert_name_before fresh name handle p T ≡ some U)
      × Inserted T p (record { name = name; handle = handle }) U
unfolding insert_name_before
insert_name_before-Inserted fresh name handle p T fits pos room inside =
    elim (Bool-cases (leb T.name_cap T.name_count)) [
      | inl t ↦ (
        record {
          name_cap = T.name_cap * 2;
          name_count = T.name_count + 1;
          name = put_name grown p entry;
        },
        if_true t _ _ ∙ if_true (le→leb (T.name_cap * 2) max_slot_size room) _ _,
        record {
          counts = refl;
          fits = omega arith;
          low = λ k h.
              put_off grown p k entry (omega arith)
              ∙ copy_names_off (T.name_count - p) p 1 T.name copied k (inl (omega arith))
              ∙ ap copied (sym (k_zero k))
              ∙ copy_names_on p 0 0 T.name fresh k (omega arith) (omega arith);
          new = put_at grown p entry;
          high = λ k h l.
              put_off grown p (k + 1) entry (omega arith)
              ∙ copy_names_on (T.name_count - p) p 1 T.name copied k h (omega arith);
        },
      )
      | inr t ↦
          let less = not_leb T.name_cap T.name_count t in
          (
            record T { name_count = T.name_count + 1; name = put_name moved p entry },
            if_false t _ _,
            record {
              counts = refl;
              fits = omega arith;
              low = λ k h.
                  put_off moved p k entry (omega arith)
                  ∙ move_names_up_off (T.name_count - p) p T.name k (inl (omega arith));
              new = put_at moved p entry;
              high = λ k h l.
                  put_off moved p (k + 1) entry (omega arith)
                  ∙ move_names_up_on (T.name_count - p) p T.name k h (omega arith);
            },
          )
    ]
  where
    entry : HandleName
    entry = record { name = name; handle = handle }

    copied : ℕ → HandleName
    copied = copy_names p 0 0 T.name fresh

    grown : ℕ → HandleName
    grown = copy_names (T.name_count - p) p 1 T.name copied

    moved : ℕ → HandleName
    moved = move_names_up (T.name_count - p) p T.name

    k_zero : (k : ℕ) → k + 0 ≡ k
    k_zero k = omega arith
