-- ===== src/Monitor/Tests.antt =====
-- Concrete looks at a monitor of skynet-src/skynet_monitor.c.
use demo_skynet_server.Common.{
  ◌-◌, ◌^◌, ◌≡◌, refl, none, some, [], ◌∷◌, arith, ◌==◌, if◌then◌else◌, take, drop,
}
use demo_skynet_server.Monitor.{Monitor, trigger, triggers, check, write_one, write_all}
use demo_skynet_server.Monitor.Check.{IsChecked, message_at, check_lem}

-- The counter is about to start again.
abbrev last : Monitor
last = record { version = 2 ^ 32 - 1; check_version = 5; source = 0; destination = 0 }

-- Looks after one and after two of the writes for the message from 6 to 8: the second is reported
-- with the new source and destination, though its trigger has not ended.
check_lem_example :
    let told = write_all (trigger 5 9) last in
    let first = (check (write_all (take 1 (triggers ((6, 8) ∷ []))) told)).1 in
    let second = check (write_all (drop 1 (take 2 (triggers ((6, 8) ∷ [])))) first) in
    (second.0 ≡ (if 0 == 0 then message_at 2 (5, 9) ((6, 8) ∷ []) else none)) × IsChecked second.1
check_lem_example =
    check_lem last (5, 9) ((6, 8) ∷ []) 1 2 (omega arith) (omega arith) (omega arith) (omega arith)
      (omega arith)

-- Within the next trigger the report mixes two messages: from 6, but to 9.
torn :
    (check (write_all (take 1 (triggers ((6, 8) ∷ []))) (check (write_all (trigger 5 9) last)).1)).0
    ≡ some (6, 9)
unfolding check trigger triggers write_one write_all
torn = refl
