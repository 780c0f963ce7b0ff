-- ===== src/GlobalQueue/Operations.antt =====
-- Each function on the message queues succeeds where it may be called, and keeps every queue in its
-- place.
use demo_skynet_server.Common.{
  first, count, ◌>>◌, assert, ne_of_false, ==_refl, ℕ, suc, ◌+◌, ◌≤◌, ◌<◌, ◌≡◌, refl, sym, ap, ap₂,
  subst, ◌∙◌, ◌≢◌, inl, inr, Bool, true, false, ◌||◌, Option, none, some, List, [], ◌∷◌, ◌++◌,
  arith, ◌==◌, if◌then◌else◌, if_true, if_false, not, Bool-cases, Option-cases, ==_iff,
}
use demo_skynet_server.MessageQueue.{Message, MessageQueue, create, pop, append, mq_length}
use demo_skynet_server.MessageQueue.Inv.{IsValid, append-IsValid, pop-IsValid, create-IsValid}
use demo_skynet_server.MessageQueue.Fifo.{contents, mq_length-contents, pop-none-mq_length}
use demo_skynet_server.MessageQueue.Frame.{
  Kept, pop-Kept, append-Kept, in_global-pop-some, in_global-pop-none, create_flags,
  mq_length-create, SameRing, SameRing-IsValid, SameRing-mq_length,
}
use demo_skynet_server.GlobalQueue.{
  World, update, store, globalmq_push, globalmq_pop, mq_create, mq_push, mq_pop, mq_mark_release,
  mq_release, drop_queue, is_null,
}
use demo_skynet_server.GlobalQueue.Drop.{drop_messages-contents}
use demo_skynet_server.GlobalQueue.Chain.{globalmq_pop_leaves, next_of, next_of-some}
use demo_skynet_server.GlobalQueue.Ownership.{
  Inv, IsHealthy, placed, remove, hold, unless_found, count-remove, store-Inv, clear-Inv,
  placed-SameBody, IsHealthy-SameBody, store-IsChain, push-Inv,
}

count_self : (p : ℕ) → count p (p ∷ []) ≡ 1
count_self p = rw (==_refl p) (omega arith)

pub count_other : (p k : ℕ) → k ≢ p → count k (p ∷ []) ≡ 0
count_other p k ne = elim (Bool-cases (p == k)) [
  | inl t ↦ absurd (ne (sym ((==_iff p k).0 t)))
  | inr t ↦ rw t (omega arith)
]

placed_flags :
    (q r : MessageQueue)
    → r.in_global ≡ q.in_global
    → r.release ≡ q.release
    → placed (some q) ≡ placed (some r)
placed_flags q r a b = ap₂ (λ x y. if x || y then 1 else 0) (sym a) (sym b)

assert_then {ℓ} : {B : Type ℓ} {b : Bool} → b ≡ true → (k : Option B) → (assert b >> k) ≡ k
assert_then e k = rw e refl

pub placed-le-one : (o : Option MessageQueue) → placed o ≤ 1
placed-le-one none = omega arith
placed-le-one (some q) = elim (Bool-cases (q.in_global || q.release)) [
  | inl t ↦ rw t (omega arith)
  | inr t ↦ rw t (omega arith)
]

true_ne_false : true ≡ false → ⊥
true_ne_false e = cc

module _ (w : World) (ps held : List ℕ) (p : ℕ) (v : Inv w ps held) where
  placed_at : (q : MessageQueue) → w.heap p ≡ some q → count p ps + count p held ≡ placed (some q)
  placed_at q e = v.place p ∙ ap placed e

  IsHealthy-at : (q : MessageQueue) → w.heap p ≡ some q → IsHealthy (some q)
  IsHealthy-at q e = subst IsHealthy e (v.healthy p)

  -- `skynet_mq_create`: the new queue is held by its creator.
  pub mq_create-Inv : (handle : ℕ) → w.heap p ≡ none → Inv (mq_create p handle w) ps (p ∷ held)
  unfolding mq_create
  mq_create-Inv handle e =
      store-Inv w ps held (p ∷ held) p (create handle) (flags.2 ∙ sym (rw (e, next_of) refl))
        (create-IsValid handle, λ x. mq_length-create handle)
        (rw flags.0 (omega (arith, v.place p ∙ ap placed e, count_self p)))
        (λ k ne. omega (arith, count_other p k ne)) v
    where
      flags :
          ((create handle).in_global ≡ true)
          × ((create handle).release ≡ false)
          × ((create handle).next ≡ none)
      flags = create_flags handle

  -- A queue in no place is pushed to the global queue after its struct is written.
  store_push :
      (q r : MessageQueue)
      → w.heap p ≡ some q
      → r.next ≡ q.next
      → IsHealthy (some r)
      → placed (some q) ≡ 0
      → placed (some r) ≡ 1
      → (w' : World) × (globalmq_push p (store w p r) ≡ some w') × Inv w' (ps ++ p ∷ []) held
  store_push q r e en h idle busy =
      push-Inv (store w p r) ps held held p r
        (store-IsChain w ps p r (en ∙ sym (next_of-some w p q e)) v.chain)
        (λ k. elim (Bool-cases (k == p)) [ inl t ↦ rw t h | inr t ↦ rw t (v.healthy k) ])
        (rw (==_refl p) refl) (omega (arith, placed_at q e))
        (λ k. elim (Bool-cases (k == p)) [
          | inl t ↦ rw t (rw ((==_iff k p).0 t) (omega (arith, placed_at q e, count_self p)))
          | inr t ↦ rw t (omega (arith, v.place k, count_other p k (ne_of_false k p t)))
        ])

  -- `skynet_mq_push` to a service that is not deleted.
  pub mq_push-Inv :
      (q : MessageQueue) (m : Message)
      → w.heap p ≡ some q
      → q.release ≡ false
      → (w' : World) × (ps' : List ℕ) × (mq_push p m w ≡ some w') × Inv w' ps' held
  unfolding mq_push
  mq_push-Inv q m e rel = elim (Bool-cases (append q m).in_global) [
    | inl t ↦ (
      store w p (append q m),
      ps,
      rw e (rw t refl),
      store-Inv w ps held held p (append q m) (kept.0.next ∙ sym (next_of-some w p q e))
          (valid, λ f. absurd (true_ne_false (sym t ∙ f)))
          (placed_at q e ∙ placed_flags q (append q m) kept.1 kept.0.release) (λ k ne. refl) v,
    )
    | inr t ↦
        let (w', ew, v') =
          store_push q (record (append q m) { in_global = true }) e kept.0.next
            (omega (arith, valid), λ f. absurd (true_ne_false f)) (idle t) refl in
        (w', ps ++ p ∷ [], rw e (rw t ew), v')
  ]
    where
      kept : Kept q (append q m) × ((append q m).in_global ≡ q.in_global)
      kept = append-Kept q m

      idle : (append q m).in_global ≡ false → placed (some q) ≡ 0
      idle t = rw (sym kept.1 ∙ t, rel) refl

      valid : IsValid (append q m)
      valid = append-IsValid m (IsHealthy-at q e).0

  -- `skynet_mq_pop` by the thread that holds the queue of a service that is not deleted: where it
  -- finds no message, the thread has given up the queue.
  pub mq_pop-Inv :
      (q : MessageQueue)
      → w.heap p ≡ some q
      → q.release ≡ false
      → 0 < count p held
      → (w' : World) × (mq_pop p w ≡ some ((pop q).0, w'))
        × Inv w' ps (unless_found p (pop q).0 held)
  unfolding mq_pop
  mq_pop-Inv q e rel mine = (
    store w p (pop q).1,
    rw e refl,
    elim (Option-cases (pop q).0) [
      | inl ret ↦ rw ret (
          store-Inv w ps held (remove p held) p (pop q).1 linked (valid, λ f. emptied ret)
            (given_up ret) (λ k ne. omega (arith, count-remove p k held mine, count_other p k ne))
            v)
      | inr (m, ret) ↦ rw ret (
          store-Inv w ps held held p (pop q).1 linked
            (valid, λ f. absurd (not_idle (sym (in_global-pop-some q m ret) ∙ f)))
            (placed_at q e ∙ placed_flags q (pop q).1 (in_global-pop-some q m ret) kept.release)
            (λ k ne. refl) v)
    ],
  )
    where
      kept : Kept q (pop q).1
      kept = pop-Kept q

      linked : (pop q).1.next ≡ next_of w.heap p
      linked = kept.next ∙ sym (next_of-some w p q e)

      valid : IsValid (pop q).1
      valid = pop-IsValid (IsHealthy-at q e).0

      emptied : (pop q).0 ≡ none → mq_length (pop q).1 ≡ 0
      emptied ret = pop-none-mq_length (IsHealthy-at q e).0 ret

      not_idle : q.in_global ≡ false → ⊥
      not_idle f =
          let none_placed : placed (some q) ≡ 0 = rw (f, rel) refl in
          omega (arith, placed_at q e, none_placed)

      given_up : (pop q).0 ≡ none → count p ps + count p (remove p held) ≡ placed (some (pop q).1)
      given_up ret =
          let none_placed : placed (some (pop q).1) ≡ 0 =
            rw (in_global-pop-none q ret, kept.release, rel) refl in
          omega (
            arith,
            placed_at q e,
            none_placed,
            placed-le-one (some q),
            count-remove p p held mine,
            count_self p,
          )

  -- `skynet_mq_mark_release` of a service that was not deleted.
  pub mq_mark_release-Inv :
      (q : MessageQueue)
      → w.heap p ≡ some q
      → q.release ≡ false
      → (w' : World) × (ps' : List ℕ) × (mq_mark_release p w ≡ some w') × Inv w' ps' held
  unfolding mq_mark_release
  mq_mark_release-Inv q e rel = elim (Bool-cases q.in_global) [
    | inl t ↦ (
      store w p marked,
      ps,
      rw e (assert_then (ap not rel) _ ∙ if_true t _ _),
      store-Inv w ps held held p marked (sym (next_of-some w p q e)) (ring.0, λ f. ring.1 f)
          (placed_at q e ∙ rw t refl) (λ k ne. refl) v,
    )
    | inr t ↦
        let (w', ew, v') =
          store_push q marked e refl (ring.0, λ f. ring.1 f) (rw (t, rel) refl) (rw t refl) in
        (w', ps ++ p ∷ [], rw e (assert_then (ap not rel) _ ∙ if_false t _ _ ∙ ew), v')
  ]
    where
      marked : MessageQueue
      marked = record q { release = true }

      ring : IsValid marked × (q.in_global ≡ false → mq_length marked ≡ 0)
      ring =
          let same : SameRing q marked = record {
            cap = refl;
            head = refl;
            tail = refl;
            queue = refl;
            overload_threshold = refl;
          } in
          (
            SameRing-IsValid same (IsHealthy-at q e).0,
            λ f. SameRing-mq_length same ∙ (IsHealthy-at q e).1 f,
          )

  -- A queue that a thread holds is not in the global queue, and held once.
  held_alone : 0 < count p held → (count p ps ≡ 0) × (count p (remove p held) ≡ 0)
  held_alone mine = (
    omega (arith, v.place p, placed-le-one (w.heap p)),
    omega (arith, v.place p, placed-le-one (w.heap p), count-remove p p held mine, count_self p),
  )

  pub held_live : 0 < count p held → (q : MessageQueue) × (w.heap p ≡ some q)
  held_live mine = elim (Option-cases (w.heap p)) [
    | inl e ↦ absurd (omega (arith, v.place p ∙ ap placed e))
    | inr found ↦ found
  ]

  -- A thread puts the queue that it holds into the global queue.
  pub give-Inv :
      0 < count p held
      → (w' : World) × (globalmq_push p w ≡ some w') × Inv w' (ps ++ p ∷ []) (remove p held)
  give-Inv mine =
      push-Inv w ps held (remove p held) p (held_live mine).0 v.chain v.healthy (held_live mine).1
        (held_alone mine).0 (λ k. omega (arith, v.place k, count-remove p k held mine))

  drop_queue_lem :
      (q : MessageQueue)
      → w.heap p ≡ some q
      → 0 < count p held
      → drop_queue p w ≡ some (contents q, record w { heap = update w.heap p none })
  unfolding drop_queue
  drop_queue_lem q e mine =
      let (r, er, en) =
        drop_messages-contents (suc (mq_length q)) (IsHealthy-at q e).0
          (omega (arith, mq_length-contents q)) in
      let unlinked : r.next ≡ none =
        en ∙ sym (next_of-some w p q e) ∙ v.chain.apart p (held_alone mine).0 in
      rw e (rw er (assert_then (ap is_null unlinked) _))

  pub mq_release-Inv :
      (q : MessageQueue)
      → w.heap p ≡ some q
      → 0 < count p held
      → (w' : World) × (ps' : List ℕ) × (mq_release p w
          ≡ some (if q.release then contents q else [], w'))
        × Inv w' ps' (remove p held)
  unfolding mq_release
  mq_release-Inv q e mine = elim (Bool-cases q.release) [
    | inl t ↦ (
      record w { heap = update w.heap p none },
      ps,
      rw e (
          if_true t _ _
          ∙ drop_queue_lem q e mine
          ∙ ap (λ ms. some (ms, record w { heap = update w.heap p none }))
              (sym (if_true t (contents q) []))),
      clear-Inv w ps held (remove p held) p (held_alone mine).0 (held_alone mine).1
          (λ k ne. omega (arith, count-remove p k held mine, count_other p k ne)) v,
    )
    | inr t ↦
        let (w', ew, v') = give-Inv mine in
        (
          w',
          ps ++ p ∷ [],
          rw e (
              if_false t _ _ ∙ rw ew (ap (λ ms. some (ms, w')) (sym (if_false t (contents q) [])))),
          v',
        )
  ]

-- `skynet_globalmq_pop`: the thread holds what it took, or the global queue was empty.
pub take-Inv :
    (w : World) (ps held : List ℕ)
    → Inv w ps held
    → (o : Option ℕ) × (w' : World) × (ps' : List ℕ) × (globalmq_pop w ≡ some (o, w'))
      × (o ≡ first ps)
      × Inv w' ps' (hold o held)
unfolding globalmq_pop
take-Inv w [] held v = (none, w, [], rw v.chain.front refl, refl, v)
take-Inv w (p ∷ ps) held v =
    let (w', ew, l) = globalmq_pop_leaves w ps p v.chain in
    (
      some p,
      w',
      ps,
      ew,
      refl,
      record {
        chain = l.chain;
        place = λ k. omega (arith, v.place k ∙ placed-SameBody (w.heap k) (w'.heap k) (l.same k));
        healthy = λ k. IsHealthy-SameBody (w.heap k) (w'.heap k) (l.same k) (v.healthy k);
      },
    )
