-- ===== src/Monitor.antt =====
-- skynet-src/skynet_monitor.c: one monitor for each worker thread, which is told of every message that
-- the worker starts or ends, and is looked at by the monitor thread every few seconds. `version` is a
-- word of 32 bits.
pub mod Writes
pub mod Check
mod Tests
use demo_skynet_server.Common.{
  ℕ, zero, suc, ◌+◌, ◌%◌, ◌^◌, Bool, true, false, Option, none, some, List, [], ◌∷◌, ◌==◌,
  if◌then◌else◌, ◌++◌,
}

-- `struct skynet_monitor`
pub record Monitor : Type 0 where
  pub version : ℕ
  pub check_version : ℕ
  pub source : ℕ
  pub destination : ℕ

-- `skynet_monitor_new`
pub monitor_new : Monitor
monitor_new = record { version = 0; check_version = 0; source = 0; destination = 0 }

-- The writes of a worker to its monitor; no lock keeps the monitor thread from looking in between.
pub data Write : Type 0 where
  write_source write_destination : ℕ → Write
  add_version : Write

pub write_one : Write → Monitor → Monitor
write_one (write_source source) sm = record sm { source = source }
write_one (write_destination destination) sm = record sm { destination = destination }
write_one add_version sm = record sm { version = (sm.version + 1) % 2 ^ 32 }

-- `skynet_monitor_trigger`: its three writes, first to last.
pub trigger : ℕ → ℕ → List Write
trigger source destination = write_source source ∷ write_destination destination ∷ add_version ∷ []

pub write_all : List Write → Monitor → Monitor
write_all [] sm = sm
write_all (w ∷ ws) sm = write_all ws (write_one w sm)

-- The writes of a worker that calls `skynet_monitor_trigger` again and again.
pub triggers : List (ℕ × ℕ) → List Write
triggers [] = []
triggers (e ∷ es) = trigger e.0 e.1 ++ triggers es

-- `skynet_monitor_check`: from whom and to whom the message is that is reported, whose receiver
-- skynet_context_endless marks.
pub check : Monitor → Option (ℕ × ℕ) × Monitor
check sm =
    if sm.version == sm.check_version
    then (if sm.destination == 0 then none else some (sm.source, sm.destination), sm)
    else (none, record sm { check_version = sm.version })
