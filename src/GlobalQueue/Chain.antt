-- ===== src/GlobalQueue/Chain.antt =====
-- The linked list of the global queue: what `skynet_globalmq_push` and `skynet_globalmq_pop` do to
-- the list of addresses that it stands for.
use demo_skynet_server.Common.{
  count, first, Links, count-append, Links-frame, counted, if_ne, ==_refl, ℕ, ◌≤◌, ◌<◌, ◌≡◌, refl,
  sym, ap, ◌∙◌, ◌≢◌, inl, inr, true, false, Option, none, some, List, [], ◌∷◌, ◌++◌, arith, ◌==◌,
  if◌then◌else◌, Bool-cases, ==_iff,
}
use demo_skynet_server.MessageQueue.{MessageQueue}
use demo_skynet_server.GlobalQueue.{Heap, World, update, is_at, globalmq_push, globalmq_pop}

abbrev pub last : List ℕ → Option ℕ
last [] = none
last (x ∷ []) = some x
last (x ∷ y ∷ xs) = last (y ∷ xs)

-- The `next` field at an address.
abbrev pub next_of : Heap → ℕ → Option ℕ
next_of h p = elim (h p) [ none ↦ none | some q ↦ q.next ]

-- The global queue of `w` is the list `ps`; a queue outside it points nowhere.
pub record IsChain (w : World) (ps : List ℕ) : Type 0 where
  pub links : Links (next_of w.heap) ps
  pub front : w.head ≡ first ps
  pub back : w.tail ≡ last ps
  pub apart : (p : ℕ) → count p ps ≡ 0 → next_of w.heap p ≡ none
  pub once : (p : ℕ) → count p ps ≤ 1
  pub live : (p : ℕ) → 0 < count p ps → (q : MessageQueue) × (w.heap p ≡ some q)

-- The same struct, up to its `next`.
abbrev pub SameBody : Option MessageQueue → Option MessageQueue → Type 0
SameBody none none = Unit
SameBody (some q) (some r) = record q { next = none } ≡ record r { next = none }
SameBody (some q) none = ⊥
SameBody none (some r) = ⊥

pub SameBody-refl : (o : Option MessageQueue) → SameBody o o
SameBody-refl none = tt
SameBody-refl (some q) = refl

count-last : (xs : List ℕ) (t : ℕ) → last xs ≡ some t → 0 < count t xs
count-last [] t e = cc
count-last (x ∷ []) t e = ground arith
count-last (x ∷ y ∷ xs) t e = omega (arith, count-last (y ∷ xs) t e)

last-append : (xs : List ℕ) (p : ℕ) → last (xs ++ p ∷ []) ≡ some p
last-append [] p = refl
last-append (x ∷ []) p = refl
last-append (x ∷ y ∷ xs) p = last-append (y ∷ xs) p

first-append : (xs : List ℕ) (p t : ℕ) → last xs ≡ some t → first (xs ++ p ∷ []) ≡ first xs
first-append [] p t e = cc
first-append (x ∷ xs) p t e = refl

last-some : (x : ℕ) (xs : List ℕ) → (t : ℕ) × (last (x ∷ xs) ≡ some t)
last-some x [] = (x, refl)
last-some x (y ∷ xs) = last-some y xs

-- Pointing the last one to a new queue appends that queue.
Links-append :
    (f g : ℕ → Option ℕ) (xs : List ℕ) (t p : ℕ)
    → last xs ≡ some t
    → ((k : ℕ) → count k xs ≤ 1)
    → ((k : ℕ) → k ≢ t → g k ≡ f k)
    → g t ≡ some p
    → g p ≡ none
    → Links f xs
    → Links g (xs ++ p ∷ [])
Links-append f g [] t p e once same gt gp l = cc
Links-append f g (x ∷ []) t p e once same gt gp l = ((let at : x ≡ t = cc in rw at gt), (gp, tt))
Links-append f g (x ∷ y ∷ xs) t p e once same gt gp l = (
  same x (λ h. omega (arith, once t, count-last (y ∷ xs) t e, counted x t h)) ∙ l.0,
  Links-append f g (y ∷ xs) t p e (λ k. omega (arith, once k)) same gt gp l.1,
)

pub next_of-some :
    (w : World) (p : ℕ) (q : MessageQueue) → w.heap p ≡ some q → next_of w.heap p ≡ q.next
next_of-some w p q e = rw (e, next_of) refl

-- What a push of `p` does to the list `ps`.
pub record Joined (w w' : World) (ps : List ℕ) (p : ℕ) : Type 0 where
  pub chain : IsChain w' (ps ++ p ∷ [])
  pub same : (k : ℕ) → SameBody (w.heap k) (w'.heap k)

pub next_of-update :
    (h : Heap) (p k : ℕ) (q : MessageQueue)
    → next_of (update h p (some q)) k ≡ (if k == p then q.next else next_of h k)
next_of-update h p k q = elim (Bool-cases (k == p)) [
  | inl t ↦ rw (t, next_of) refl
  | inr t ↦ rw (t, next_of) refl
]

pub SameBody-live :
    (o o' : Option MessageQueue)
    → SameBody o o'
    → (q : MessageQueue) × (o ≡ some q)
    → (r : MessageQueue) × (o' ≡ some r)
SameBody-live none none s (q, e) = cc
SameBody-live none (some r) s l = absurd s
SameBody-live (some q) none s l = absurd s
SameBody-live (some q) (some r) s l = (r, refl)

ne_last : (ps : List ℕ) (t p : ℕ) → last ps ≡ some t → count p ps ≡ 0 → p ≢ t
ne_last ps t p e out h = omega (arith, count-last ps t e, ap (λ k. count k ps) h)

out_before : (ps : List ℕ) (p k : ℕ) → count k (ps ++ p ∷ []) ≡ 0 → count k ps ≡ 0
out_before ps p k h = omega (arith, count-append k ps (p ∷ []))

once_append :
    (ps : List ℕ) (p : ℕ)
    → ((k : ℕ) → count k ps ≤ 1)
    → count p ps ≡ 0
    → (k : ℕ) → count k (ps ++ p ∷ []) ≤ 1
once_append ps p once out k = elim (Bool-cases (p == k)) [
  | inl t ↦ rw (count-append k ps (p ∷ []), t) (rw (← (==_iff p k).0 t, out) (omega arith))
  | inr t ↦ rw (count-append k ps (p ∷ []), t) (omega (arith, once k))
]

live_joined :
    (h h' : Heap) (ps : List ℕ) (p : ℕ) (q : MessageQueue)
    → ((k : ℕ) → SameBody (h k) (h' k))
    → ((k : ℕ) → 0 < count k ps → (q : MessageQueue) × (h k ≡ some q))
    → h p ≡ some q
    → (k : ℕ) → 0 < count k (ps ++ p ∷ [])
    → (r : MessageQueue) × (h' k ≡ some r)
live_joined h h' ps p q same live e k c =
    SameBody-live (h k) (h' k) (same k) (elim (Bool-cases (p == k)) [
      | inl t ↦ (q, rw (← (==_iff p k).0 t) e)
      | inr t ↦ live k (omega (arith, count-append k ps (p ∷ []), apart t))
    ])
  where
    apart : (p == k) ≡ false → count k (p ∷ []) ≡ 0
    apart t = ground arith

pub SameBody-update :
    (h : Heap) (p k : ℕ) (q : MessageQueue) (o : Option ℕ)
    → h p ≡ some q
    → SameBody (h k) (update h p (some (record q { next = o })) k)
SameBody-update h p k q o e = elim (Bool-cases (k == p)) [
  | inl t ↦ let at : k ≡ p = (==_iff k p).0 t in rw (t, at, e) refl
  | inr t ↦ rw t (SameBody-refl (h k))
]

join_empty :
    (w : World) (p : ℕ) (q : MessageQueue)
    → IsChain w []
    → w.heap p ≡ some q
    → Joined w (record w { head = some p; tail = some p }) [] p
join_empty w p q c e = record {
  chain = record {
    links = (c.apart p refl, tt);
    front = refl;
    back = refl;
    apart = λ k h. c.apart k refl;
    once = λ k. ground arith;
    live = live_joined w.heap w.heap [] p q (λ k. SameBody-refl (w.heap k)) c.live e;
  };
  same = λ k. SameBody-refl (w.heap k);
}

join_last :
    (w : World) (ps : List ℕ) (p t : ℕ) (q r : MessageQueue)
    → IsChain w ps
    → count p ps ≡ 0
    → w.heap p ≡ some q
    → w.heap t ≡ some r
    → last ps ≡ some t
    → Joined w
        (record w { heap = update w.heap t (some (record r { next = some p })); tail = some p })
        ps
        p
join_last w ps p t q r c out ep et e = record {
  chain = record {
    links =
        Links-append (next_of w.heap) _ ps t p e c.once
          (λ k ne. next_of-update w.heap t k tied ∙ if_ne k t ne (some p) _)
          (next_of-update w.heap t t tied ∙ ground arith)
          (next_of-update w.heap t p tied
            ∙ if_ne p t (ne_last ps t p e out) (some p) _
            ∙ c.apart p out)
          c.links;
    front = c.front ∙ sym (first-append ps p t e);
    back = sym (last-append ps p);
    apart = λ k h.
        next_of-update w.heap t k tied
        ∙ if_ne k t (ne_last ps t k e (out_before ps p k h)) (some p) _
        ∙ c.apart k (out_before ps p k h);
    once = once_append ps p c.once out;
    live = live_joined w.heap _ ps p q (λ k. SameBody-update w.heap t k r (some p) et) c.live ep;
  };
  same = λ k. SameBody-update w.heap t k r (some p) et;
}
  where
    tied : MessageQueue
    tied = record r { next = some p }

-- A queue outside the global queue is put at its end, and the assertion of `skynet_globalmq_push`
-- holds.
pub globalmq_push_joins :
    (w : World) (ps : List ℕ) (p : ℕ) (q : MessageQueue)
    → IsChain w ps
    → count p ps ≡ 0
    → w.heap p ≡ some q
    → (w' : World) × (globalmq_push p w ≡ some w') × Joined w w' ps p
unfolding globalmq_push
globalmq_push_joins w [] p q c out e =
    let free : q.next ≡ none = sym (next_of-some w p q e) ∙ c.apart p out in
    (record w { head = some p; tail = some p }, rw (e, free, c.back) refl, join_empty w p q c e)
globalmq_push_joins w (x ∷ xs) p q c out e =
    let free : q.next ≡ none = sym (next_of-some w p q e) ∙ c.apart p out in
    let (t, et) = last-some x xs in
    let (r, er) = c.live t (count-last (x ∷ xs) t et) in
    let back : w.tail ≡ some t = c.back ∙ et in
    (
      record w { heap = update w.heap t (some (record r { next = some p })); tail = some p },
      rw (e, free, back) (rw er refl),
      join_last w (x ∷ xs) p t q r c out e er et,
    )

-- What a pop makes of the list `p ∷ ps`.
pub record Left (w w' : World) (ps : List ℕ) : Type 0 where
  pub chain : IsChain w' ps
  pub same : (k : ℕ) → SameBody (w.heap k) (w'.heap k)

pop_front_links :
    (w : World) (ps : List ℕ) (p : ℕ) (q : MessageQueue) (k : ℕ)
    → IsChain w (p ∷ ps)
    → 0 < count k ps
    → next_of (update w.heap p (some (record q { next = none }))) k ≡ next_of w.heap k
pop_front_links w ps p q k c h =
    next_of-update w.heap p k (record q { next = none })
    ∙ if_ne k p (λ e. omega (arith, c.once k, counted p k (sym e))) none (next_of w.heap k)

pop_front_apart :
    (w : World) (ps : List ℕ) (p : ℕ) (q : MessageQueue) (k : ℕ)
    → IsChain w (p ∷ ps)
    → count k ps ≡ 0
    → next_of (update w.heap p (some (record q { next = none }))) k ≡ none
pop_front_apart w ps p q k c h =
    next_of-update w.heap p k (record q { next = none })
    ∙ elim (Bool-cases (k == p)) [ inl t ↦ rw t refl | inr t ↦ rw t (c.apart k (ground arith)) ]

Left-chain :
    (w : World) (ps : List ℕ) (p : ℕ) (q : MessageQueue) (back : Option ℕ)
    → IsChain w (p ∷ ps)
    → w.heap p ≡ some q
    → back ≡ last ps
    → Left w
        (record w {
          heap = update w.heap p (some (record q { next = none }));
          head = first ps;
          tail = back;
        })
        ps
Left-chain w ps p q back c e eb = record {
  chain = record {
    links = Links-frame (next_of w.heap) _ ps (λ k h. pop_front_links w ps p q k c h) c.links.1;
    front = refl;
    back = eb;
    apart = λ k h. pop_front_apart w ps p q k c h;
    once = λ k. omega (arith, c.once k);
    live = λ k h.
        SameBody-live (w.heap k) _ (SameBody-update w.heap p k q none e) (c.live k (omega arith));
  };
  same = λ k. SameBody-update w.heap p k q none e;
}

pop_front :
    (w : World) (ps : List ℕ) (p : ℕ) (q : MessageQueue)
    → IsChain w (p ∷ ps)
    → w.heap p ≡ some q
    → q.next ≡ first ps
    → (w' : World) × (globalmq_pop w ≡ some (some p, w')) × Left w w' ps
unfolding globalmq_pop
pop_front w [] p q c e points =
    let at : is_at w.tail p ≡ true = rw c.back (==_refl p) in
    (_, rw (c.front) (rw e (rw (points, at) refl)), Left-chain w [] p q none c e refl)
pop_front w (x ∷ ps) p q c e points =
    (_, rw (c.front) (rw e (rw points refl)), Left-chain w (x ∷ ps) p q w.tail c e c.back)

-- `skynet_globalmq_pop` takes the first queue of the list.
pub globalmq_pop_leaves :
    (w : World) (ps : List ℕ) (p : ℕ)
    → IsChain w (p ∷ ps)
    → (w' : World) × (globalmq_pop w ≡ some (some p, w')) × Left w w' ps
unfolding globalmq_pop
globalmq_pop_leaves w ps p c =
    let (q, e) = c.live p (ground arith) in
    let points : q.next ≡ first ps = sym (next_of-some w p q e) ∙ c.links.0 in
    pop_front w ps p q c e points
