-- ===== src/Monitor/Check.antt =====
-- What `skynet_monitor_check` reports between two looks.
use native.Mathlib.Decide.{ℕ_discrete}
use demo_skynet_server.Common.{
  ℕ, ◌^◌, ◌<◌, ◌≡◌, refl, sym, ap, subst, ◌∙◌, ◌≢◌, Option, none, some, List, [], ◌∷◌, arith,
  length, ◌==◌, if◌then◌else◌, zero, suc, ◌*◌, ◌/◌, ◌≤◌, take, drop, ap₂, ==_iff, ==_differ,
  if_true, if_false,
}
use demo_skynet_server.Monitor.Writes.{
  ends, write_all_lem, last_source, last_destination, write_all-fields, ends-take, ends-drop,
}
use demo_skynet_server.Monitor.{
  Monitor, monitor_new, trigger, triggers, check, Write, write_one, write_all,
}

-- A monitor as a look leaves it.
pub record IsChecked (sm : Monitor) : Type 0 where
  pub word : sm.version < 2 ^ 32
  pub seen : sm.check_version ≡ sm.version

pub monitor_new-IsChecked : IsChecked monitor_new
unfolding monitor_new
monitor_new-IsChecked = record { word = omega arith; seen = refl }

-- The message that the fields name.
abbrev current : Monitor → Option (ℕ × ℕ)
current sm = if sm.destination == 0 then none else some (sm.source, sm.destination)

check_equal : (sm : Monitor) → sm.version ≡ sm.check_version → check sm ≡ (current sm, sm)
unfolding check
check_equal sm e = if_true ((==_iff sm.version sm.check_version).1 e) _ _

check_differ :
    (sm : Monitor)
    → sm.version ≢ sm.check_version
    → check sm ≡ (none, record sm { check_version = sm.version })
unfolding check
check_differ sm e = if_false (==_differ sm.version sm.check_version e) _ _

-- Source and destination after a trigger for the message `e` and the first `n` writes of those for
-- the messages `es`, where no further trigger has ended.
abbrev pub source_at : ℕ → ℕ × ℕ → List (ℕ × ℕ) → ℕ
source_at zero e es = e.0
source_at (suc n) e [] = e.0
source_at (suc n) e (e' ∷ es) = e'.0

abbrev pub destination_at : ℕ → ℕ × ℕ → List (ℕ × ℕ) → ℕ
destination_at zero e es = e.1
destination_at (suc zero) e es = e.1
destination_at (suc (suc n)) e [] = e.1
destination_at (suc (suc n)) e (e' ∷ es) = e'.1

abbrev pub message_at : ℕ → ℕ × ℕ → List (ℕ × ℕ) → Option (ℕ × ℕ)
message_at n e es =
    if destination_at n e es == 0 then none else some (source_at n e es, destination_at n e es)

fields_at :
    (e : ℕ × ℕ) (es : List (ℕ × ℕ)) (j n : ℕ)
    → j ≤ n
    → n < 3
    → n ≤ 3 * length es
    → (last_source (drop j (take n (triggers es))) (last_source (take j (triggers es)) e.0)
        ≡ source_at n e es)
      × (last_destination
            (drop j (take n (triggers es)))
            (last_destination (take j (triggers es)) e.1)
          ≡ destination_at n e es)
unfolding last_source last_destination triggers trigger
fields_at e es zero zero le n3 h = (refl, refl)
fields_at e es (suc j) zero le n3 h = absurd (omega arith)
fields_at e [] j (suc n) le n3 h = absurd (omega arith)
fields_at e (e' ∷ es) zero (suc zero) le n3 h = (refl, refl)
fields_at e (e' ∷ es) zero (suc (suc zero)) le n3 h = (refl, refl)
fields_at e (e' ∷ es) (suc zero) (suc zero) le n3 h = (refl, refl)
fields_at e (e' ∷ es) (suc zero) (suc (suc zero)) le n3 h = (refl, refl)
fields_at e (e' ∷ es) (suc (suc zero)) (suc (suc zero)) le n3 h = (refl, refl)
fields_at e (e' ∷ es) (suc (suc j)) (suc zero) le n3 h = absurd (omega arith)
fields_at e (e' ∷ es) (suc (suc (suc j))) (suc (suc n)) le n3 h = absurd (omega arith)
fields_at e (e' ∷ es) j (suc (suc (suc n))) le n3 h = absurd (omega arith)

abbrev reported : ℕ → ℕ → Option (ℕ × ℕ)
reported s d = if d == 0 then none else some (s, d)

current_same : (s s' d d' : ℕ) → s ≡ s' → d ≡ d' → reported s d ≡ reported s' d'
current_same s s' d d' e f = ap₂ reported e f

-- What a look leaves.
looked_at :
    (sm : Monitor)
    → sm.version < 2 ^ 32
    → IsChecked (check sm).1
      × ((check sm).1.source ≡ sm.source)
      × ((check sm).1.destination ≡ sm.destination)
looked_at sm h = elim (ℕ_discrete sm.version sm.check_version) [
  | yes e ↦
      let same : (check sm).1 ≡ sm =
        ap (λ (r : Option (ℕ × ℕ) × Monitor). r.1) (check_equal sm e) in
      (
        subst IsChecked (sym same) (record { word = h; seen = sym e }),
        ap (λ (m : Monitor). m.source) same,
        ap (λ (m : Monitor). m.destination) same,
      )
  | no ne ↦
      let same : (check sm).1 ≡ record sm { check_version = sm.version } =
        ap (λ (r : Option (ℕ × ℕ) × Monitor). r.1) (check_differ sm ne) in
      (
        subst IsChecked (sym same) (record { word = h; seen = refl }),
        ap (λ (m : Monitor). m.source) same,
        ap (λ (m : Monitor). m.destination) same,
      )
]

-- A look after the writes `ws`.
second_look :
    (sm : Monitor) (ws : List Write)
    → IsChecked sm
    → ends ws < 2 ^ 32
    → (check (write_all ws sm)).0 ≡ (if ends ws == 0 then current (write_all ws sm) else none)
second_look sm ws v h =
    let after : Monitor = write_all ws sm in
    let (version, same) = write_all_lem ws sm v.word in
    elim (ℕ_discrete (ends ws) 0) [
      | yes z ↦
          ap (λ (r : Option (ℕ × ℕ) × Monitor). r.0)
            (check_equal after (omega (arith, z, version, same, v.seen, v.word)))
          ∙ sym (if_true ((==_iff (ends ws) 0).1 z) (current after) none)
      | no nz ↦
          ap (λ (r : Option (ℕ × ℕ) × Monitor). r.0)
            (check_differ after (λ q. omega (arith, q, nz, version, same, v.seen, v.word)))
          ∙ sym (if_false (==_differ (ends ws) 0 nz) (current after) none)
    ]

told_fields :
    (sm : Monitor) (e : ℕ × ℕ)
    → ((write_all (trigger e.0 e.1) sm).source ≡ e.0)
      × ((write_all (trigger e.0 e.1) sm).destination ≡ e.1)
unfolding write_all write_one trigger
told_fields sm e = (refl, refl)

at_last :
    (sm : Monitor) (e : ℕ × ℕ) (es : List (ℕ × ℕ)) (j n : ℕ)
    → j ≤ n
    → n < 3
    → n ≤ 3 * length es
    → (first : Monitor)
    → first.source ≡ (write_all (take j (triggers es)) (write_all (trigger e.0 e.1) sm)).source
    → first.destination
      ≡ (write_all (take j (triggers es)) (write_all (trigger e.0 e.1) sm)).destination
    → current (write_all (drop j (take n (triggers es))) first) ≡ message_at n e es
at_last sm e es j n le n3 inside first f g =
    let told : Monitor = write_all (trigger e.0 e.1) sm in
    let before : List Write = take j (triggers es) in
    let between : List Write = drop j (take n (triggers es)) in
    let (s0, d0) = told_fields sm e in
    let (s1, d1) = write_all-fields before told in
    let (s2, d2) = write_all-fields between first in
    let (s3, d3) = fields_at e es j n le n3 inside in
    current_same (write_all between first).source (source_at n e es)
      (write_all between first).destination (destination_at n e es)
      (s2 ∙ ap (last_source between) (f ∙ s1 ∙ ap (last_source before) s0) ∙ s3)
      (d2 ∙ ap (last_destination between) (g ∙ d1 ∙ ap (last_destination before) d0) ∙ d3)

-- A worker has just told its monitor of the message `e` and goes on with the messages `es`. The
-- monitor thread looks after `j` of the writes for `es`, where it may be within a trigger, and again
-- when `n` of them are done. The second look reports exactly if no trigger has ended since, with fewer
-- than 2^32 in between, and it then reports the source and the destination of `e`, or where
-- skynet_monitor_trigger has written it already that of the next message; a message to 0, which is
-- none, is not reported. Either way the monitor is ready for the next look.
pub check_lem :
    (sm : Monitor) (e : ℕ × ℕ) (es : List (ℕ × ℕ)) (j n : ℕ)
    → sm.version < 2 ^ 32
    → j < 3
    → j ≤ n
    → n ≤ 3 * length es
    → n < 3 * 2 ^ 32
    → let told = write_all (trigger e.0 e.1) sm in
      let first = (check (write_all (take j (triggers es)) told)).1 in
      let second = check (write_all (drop j (take n (triggers es))) first) in
      (second.0 ≡ (if n / 3 == 0 then message_at n e es else none)) × IsChecked second.1
check_lem sm e es j n word j3 le inside few =
    let told : Monitor = write_all (trigger e.0 e.1) sm in
    let before : List Write = take j (triggers es) in
    let between : List Write = drop j (take n (triggers es)) in
    let (version1, same1) = write_all_lem (trigger e.0 e.1) sm word in
    let (version2, same2) = write_all_lem before told (omega (arith, version1)) in
    let (v, source1, destination1) = looked_at (write_all before told) (omega (arith, version2)) in
    let first : Monitor = (check (write_all before told)).1 in
    let (version3, same3) = write_all_lem between first v.word in
    let (v', source2, destination2) =
      looked_at (write_all between first) (omega (arith, version3)) in
    let count : ends between ≡ n / 3 = ends-drop es j n j3 le inside ∙ ends-take es n inside in
    let second = second_look first between v (omega (arith, count)) in
    (
      elim (ℕ_discrete (n / 3) 0) [
        | no nz ↦
            second
            ∙ if_false (==_differ (ends between) 0 (omega (arith, count))) _ _
            ∙ sym (if_false (==_differ (n / 3) 0 nz) (message_at n e es) none)
        | yes z ↦
            second
            ∙ if_true ((==_iff (ends between) 0).1 (omega (arith, count))) _ _
            ∙ at_last sm e es j n le (omega arith) inside first source1 destination1
            ∙ sym (if_true ((==_iff (n / 3) 0).1 z) (message_at n e es) none)
      ],
      v',
    )
