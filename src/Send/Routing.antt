-- ===== src/Send/Routing.antt =====
-- What `skynet_send` does with a message, on each branch.
use native.Mathlib.Decide.{dec_lt}
use demo_skynet_server.Common.{
  ℕ, ◌+◌, ◌%◌, ◌^◌, ◌≤◌, ◌<◌, bit_and, ◌≡◌, ◌≢◌, Option, none, refl, ◌⊎◌, inl, inr, true, false,
  ◌||◌, some, arith, ◌==◌, leb, if◌then◌else◌, ==_differ, le→leb, not_le→leb,
}
use demo_skynet_server.MessageQueue.{Message}
use demo_skynet_server.Send.Fields.{IsLocal}
use demo_skynet_server.Send.{
  Context, newsession, Route, too_large, kept, to_remote, to_local, undelivered, NodeState,
  type_and_size,
}

-- The message that is sent on: from whom, in which session, and of which type and size.
pub record Carries (ctx : Context) (source type sz session : ℕ) (m : Message) : Type 0 where
  pub sender : m.source ≡ (if source == 0 then ctx.handle else source)
  pub in_session : m.session ≡ session
  pub decoded : type_and_size m ≡ (type % 2 ^ 8, sz)

-- The session of a message that its sender gives none.
abbrev pub session_of : Context → ℕ → ℕ
session_of ctx type = if bit_and type 0x20000 == 0 then 0 else (newsession ctx).0

pub IsRouted : NodeState → Context → ℕ → ℕ → ℕ → ℕ → Option ℕ → Route → Type 0
IsRouted node ctx source destination type sz back too_large = (2 ^ 56 ≤ sz) × (back ≡ none)
IsRouted node ctx source destination type sz back kept =
    (sz < 2 ^ 56) × (destination ≡ 0) × (back ≡ some (session_of ctx type))
IsRouted node ctx source destination type sz back (to_remote d m) =
    (sz < 2 ^ 56)
    × (d ≡ destination)
    × (destination ≢ 0)
    × (¬ IsLocal node.harbor destination)
    × (back ≡ some (session_of ctx type))
    × Carries ctx source type sz (session_of ctx type) m
IsRouted node ctx source destination type sz back (to_local d m) =
    (sz < 2 ^ 56)
    × (d ≡ destination)
    × (destination ≢ 0)
    × IsLocal node.harbor destination
    × (node.is_there destination ≡ true)
    × (back ≡ some (session_of ctx type))
    × Carries ctx source type sz (session_of ctx type) m
IsRouted node ctx source destination type sz back undelivered =
    (sz < 2 ^ 56)
    × (destination ≢ 0)
    × IsLocal node.harbor destination
    × (node.is_there destination ≡ false)
    × (back ≡ none)

-- The assertion of skynet_harbor_send fails: the message is for another node, and it is of the
-- type of the system or the harbor, or the harbor service has not been started.
pub Fails : NodeState → ℕ → ℕ → ℕ → Type 0
Fails node destination type sz =
    (sz < 2 ^ 56)
    × (destination ≢ 0)
    × (¬ IsLocal node.harbor destination)
    × ((type % 2 ^ 8 ≡ 4) ⊎ (type % 2 ^ 8 ≡ 5) ⊎ (node.remote ≡ false))

-- What `send` makes of a message `m` that `_filter_args` has made.
Outcome : NodeState → Context → ℕ → ℕ → ℕ → ℕ → Option (Route × Option ℕ) → Type 0
Outcome node ctx source destination type sz o =
    ((o ≡ none) × Fails node destination type sz)
    ⊎ ((r : Route) × (back : Option ℕ) × (o ≡ some (r, back))
        × IsRouted node ctx source destination type sz back r)

-- A session from skynet_context_newsession is positive and stays so; the next one is one more, up to
-- the largest `int`, and then 1.
pub newsession_lem :
    (ctx : Context)
    → ctx.session_id < 2 ^ 31
    → let r = newsession ctx in
      (0 < r.0)
      × (r.0 < 2 ^ 31)
      × (r.1.session_id ≡ r.0)
      × (((r.0 ≡ ctx.session_id + 1) × (ctx.session_id + 1 < 2 ^ 31))
          ⊎ ((r.0 ≡ 1) × (ctx.session_id + 1 ≡ 2 ^ 31)))
unfolding newsession
newsession_lem ctx h = elim (dec_lt (ctx.session_id + 1) (2 ^ 31)) [
  | yes l ↦
      let same : (ctx.session_id + 1) % 2 ^ 32 ≡ ctx.session_id + 1 = omega arith in
      let stays : (((ctx.session_id + 1) % 2 ^ 32 == 0)
            || leb (2 ^ 31) ((ctx.session_id + 1) % 2 ^ 32))
          ≡ false =
        rw
          (
            ==_differ ((ctx.session_id + 1) % 2 ^ 32) 0 (omega arith),
            not_le→leb (2 ^ 31) ((ctx.session_id + 1) % 2 ^ 32) (omega arith),
          )
          refl in
      rw stays (omega arith, omega arith, refl, inl (same, l))
  | no l ↦
      let wraps : (((ctx.session_id + 1) % 2 ^ 32 == 0)
            || leb (2 ^ 31) ((ctx.session_id + 1) % 2 ^ 32))
          ≡ true =
        rw
          (
            ==_differ ((ctx.session_id + 1) % 2 ^ 32) 0 (omega arith),
            le→leb (2 ^ 31) ((ctx.session_id + 1) % 2 ^ 32) (omega arith),
          )
          refl in
      rw wraps (omega arith, omega arith, refl, inr (refl, omega arith))
]
