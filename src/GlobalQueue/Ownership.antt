-- ===== src/GlobalQueue/Ownership.antt =====
-- Where each message queue is: in the global queue, with a thread that works on it, or idle.
use demo_skynet_server.Common.{
  count, count-append, Links-frame, ne_of_false, if_ne, ℕ, ◌+◌, ◌<◌, ◌≡◌, refl, sym, ap, ◌∙◌, ◌≢◌,
  inl, inr, false, ◌||◌, Option, none, some, List, [], ◌∷◌, ◌++◌, arith, ◌==◌, if◌then◌else◌,
  Bool-cases, ==_iff,
}
use demo_skynet_server.MessageQueue.{Message, MessageQueue, mq_length}
use demo_skynet_server.MessageQueue.Inv.{IsValid}
use demo_skynet_server.MessageQueue.Frame.{
  SameRing, SameRing-of_body, SameRing-IsValid, SameRing-mq_length,
}
use demo_skynet_server.GlobalQueue.{Heap, World, update, store, globalmq_push}
use demo_skynet_server.GlobalQueue.Chain.{
  next_of, IsChain, SameBody, next_of-update, globalmq_push_joins,
}

abbrev pub remove : ℕ → List ℕ → List ℕ
remove p [] = []
remove p (x ∷ xs) = if x == p then xs else x ∷ remove p xs

abbrev pub hold : Option ℕ → List ℕ → List ℕ
hold none xs = xs
hold (some p) xs = p ∷ xs

abbrev pub unless_found : ℕ → Option Message → List ℕ → List ℕ
unless_found p none xs = remove p xs
unless_found p (some m) xs = xs

-- In how many places a queue has to be: one if its flag says so or if it waits to be freed.
abbrev pub placed : Option MessageQueue → ℕ
placed none = 0
placed (some q) = if q.in_global || q.release then 1 else 0

-- A queue that is idle has no message waiting.
abbrev pub IsHealthy : Option MessageQueue → Type 0
IsHealthy none = Unit
IsHealthy (some q) = IsValid q × (q.in_global ≡ false → mq_length q ≡ 0)

pub count-remove :
    (p k : ℕ) (xs : List ℕ) → 0 < count p xs → count k (p ∷ []) + count k (remove p xs) ≡ count k xs
count-remove p k [] h = absurd (omega arith)
count-remove p k (x ∷ xs) h = elim (Bool-cases (x == p)) [
  | inl t ↦ rw t (rw ((==_iff x p).0 t) (omega arith))
  | inr t ↦ rw t (omega (arith, count-remove p k xs (counts_on t)))
]
  where
    counts_on : (x == p) ≡ false → 0 < count p xs
    counts_on t = ground arith

-- The global queue is the list `ps`, and the threads hold the queues `held`.
pub record Inv (w : World) (ps held : List ℕ) : Type 0 where
  pub chain : IsChain w ps
  pub place : (p : ℕ) → count p ps + count p held ≡ placed (w.heap p)
  pub healthy : (p : ℕ) → IsHealthy (w.heap p)

pub placed-SameBody : (o o' : Option MessageQueue) → SameBody o o' → placed o ≡ placed o'
placed-SameBody none none s = refl
placed-SameBody none (some r) s = absurd s
placed-SameBody (some q) none s = absurd s
placed-SameBody (some q) (some r) s =
    ap (λ (x : MessageQueue). if x.in_global || x.release then 1 else 0) s

pub IsHealthy-SameBody : (o o' : Option MessageQueue) → SameBody o o' → IsHealthy o → IsHealthy o'
IsHealthy-SameBody none none s h = tt
IsHealthy-SameBody none (some r) s h = absurd s
IsHealthy-SameBody (some q) none s h = absurd s
IsHealthy-SameBody (some q) (some r) s h =
    let ring : SameRing q r = SameRing-of_body s in
    (
      SameRing-IsValid ring h.0,
      λ e. SameRing-mq_length ring ∙ h.1 (ap (λ (x : MessageQueue). x.in_global) s ∙ e),
    )

-- A write of a struct that keeps the `next` field keeps the list.
pub store-IsChain :
    (w : World) (ps : List ℕ) (p : ℕ) (r : MessageQueue)
    → r.next ≡ next_of w.heap p
    → IsChain w ps
    → IsChain (store w p r) ps
store-IsChain w ps p r en c = record {
  links = Links-frame (next_of w.heap) _ ps (λ k h. same k) c.links;
  front = c.front;
  back = c.back;
  apart = λ k h. same k ∙ c.apart k h;
  once = c.once;
  live = λ k h. found k (c.live k h);
}
  where
    same : (k : ℕ) → next_of (update w.heap p (some r)) k ≡ next_of w.heap k
    same k = next_of-update w.heap p k r ∙ elim (Bool-cases (k == p)) [
      | inl t ↦ rw t (en ∙ ap (next_of w.heap) (sym ((==_iff k p).0 t)))
      | inr t ↦ rw t refl
    ]

    found :
        (k : ℕ)
        → (x : MessageQueue) × (w.heap k ≡ some x)
        → (x : MessageQueue) × (update w.heap p (some r) k ≡ some x)
    found k (x, h) = elim (Bool-cases (k == p)) [ inl t ↦ (r, rw t refl) | inr t ↦ (x, rw t h) ]

pub store-Inv :
    (w : World) (ps held held' : List ℕ) (p : ℕ) (r : MessageQueue)
    → r.next ≡ next_of w.heap p
    → IsHealthy (some r)
    → count p ps + count p held' ≡ placed (some r)
    → ((k : ℕ) → k ≢ p → count k held' ≡ count k held)
    → Inv w ps held
    → Inv (store w p r) ps held'
store-Inv w ps held held' p r en h at off v = record {
  chain = store-IsChain w ps p r en v.chain;
  place = λ k. elim (Bool-cases (k == p)) [
    | inl t ↦ rw t (rw ((==_iff k p).0 t) at)
    | inr t ↦ rw t (ap (λ n. count k ps + n) (off k (ne_of_false k p t)) ∙ v.place k)
  ];
  healthy = λ k. elim (Bool-cases (k == p)) [ inl t ↦ rw t h | inr t ↦ rw t (v.healthy k) ];
}

-- A push of a queue that is in no place: it is then in the global queue, which stays well formed.
pub push-Inv :
    (w : World) (ps held held' : List ℕ) (p : ℕ) (q : MessageQueue)
    → IsChain w ps
    → ((k : ℕ) → IsHealthy (w.heap k))
    → w.heap p ≡ some q
    → count p ps ≡ 0
    → ((k : ℕ) → count k ps + count k (p ∷ []) + count k held' ≡ placed (w.heap k))
    → (w' : World) × (globalmq_push p w ≡ some w') × Inv w' (ps ++ p ∷ []) held'
push-Inv w ps held held' p q c healthy e out place =
    let (w', ew, j) = globalmq_push_joins w ps p q c out e in
    (
      w',
      ew,
      record {
        chain = j.chain;
        place = λ k.
            ap (λ n. n + count k held') (count-append k ps (p ∷ []))
            ∙ place k
            ∙ placed-SameBody (w.heap k) (w'.heap k) (j.same k);
        healthy = λ k. IsHealthy-SameBody (w.heap k) (w'.heap k) (j.same k) (healthy k);
      },
    )

next_of-clear :
    (h : Heap) (p k : ℕ) → next_of (update h p none) k ≡ (if k == p then none else next_of h k)
next_of-clear h p k = elim (Bool-cases (k == p)) [
  | inl t ↦ rw (t, next_of) refl
  | inr t ↦ rw (t, next_of) refl
]

-- Freeing a queue that is in no place but a thread's hands keeps the others where they are.
pub clear-Inv :
    (w : World) (ps held held' : List ℕ) (p : ℕ)
    → count p ps ≡ 0
    → count p held' ≡ 0
    → ((k : ℕ) → k ≢ p → count k held' ≡ count k held)
    → Inv w ps held
    → Inv (record w { heap = update w.heap p none }) ps held'
clear-Inv w ps held held' p out gone off v = record {
  chain = record {
    links = Links-frame (next_of w.heap) _ ps (λ k h. same k (inside k h)) v.chain.links;
    front = v.chain.front;
    back = v.chain.back;
    apart = λ k h.
        next_of-clear w.heap p k
        ∙ elim (Bool-cases (k == p)) [ inl t ↦ rw t refl | inr t ↦ rw t (v.chain.apart k h) ];
    once = v.chain.once;
    live = λ k h.
        ((v.chain.live k h).0, if_ne k p (inside k h) none (w.heap k) ∙ (v.chain.live k h).1);
  };
  place = λ k. elim (Bool-cases (k == p)) [
    | inl t ↦ rw t (rw ((==_iff k p).0 t) (omega arith))
    | inr t ↦ rw t (ap (λ n. count k ps + n) (off k (ne_of_false k p t)) ∙ v.place k)
  ];
  healthy = λ k. elim (Bool-cases (k == p)) [ inl t ↦ rw t tt | inr t ↦ rw t (v.healthy k) ];
}
  where
    inside : (k : ℕ) → 0 < count k ps → k ≢ p
    inside k h e = omega (arith, ap (λ x. count x ps) e)

    same : (k : ℕ) → k ≢ p → next_of (update w.heap p none) k ≡ next_of w.heap k
    same k ne = next_of-clear w.heap p k ∙ if_ne k p ne none (next_of w.heap k)
