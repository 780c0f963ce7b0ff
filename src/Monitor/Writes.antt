-- ===== src/Monitor/Writes.antt =====
-- What a row of writes to a monitor of skynet-src/skynet_monitor.c leaves in its fields.
use demo_skynet_server.Common.{
  ℕ, zero, suc, ◌+◌, ◌*◌, ◌/◌, ◌%◌, ◌^◌, ◌≤◌, ◌<◌, ◌≡◌, refl, List, [], ◌∷◌, arith, length, take,
  drop,
}
use demo_skynet_server.Monitor.{
  Monitor, trigger, triggers, Write, write_source, write_destination, add_version, write_one,
  write_all,
}

-- How many triggers end in these writes.
pub ends : List Write → ℕ
ends [] = 0
ends (add_version ∷ ws) = suc (ends ws)
ends (write_source source ∷ ws) = ends ws
ends (write_destination destination ∷ ws) = ends ws

pub write_all_lem :
    (ws : List Write) (sm : Monitor)
    → sm.version < 2 ^ 32
    → ((write_all ws sm).version ≡ (sm.version + ends ws) % 2 ^ 32)
      × ((write_all ws sm).check_version ≡ sm.check_version)
unfolding write_all write_one ends
write_all_lem [] sm h = (omega arith, refl)
write_all_lem (write_source source ∷ ws) sm h = write_all_lem ws (record sm { source = source }) h
write_all_lem (write_destination destination ∷ ws) sm h =
    write_all_lem ws (record sm { destination = destination }) h
write_all_lem (add_version ∷ ws) sm h =
    let (v, c) =
      write_all_lem ws (record sm { version = (sm.version + 1) % 2 ^ 32 }) (omega arith) in
    (omega (arith, v), c)

-- The source and the destination that are written last.
unfoldable pub last_source : List Write → ℕ → ℕ
last_source [] s = s
last_source (write_source source ∷ ws) s = last_source ws source
last_source (write_destination destination ∷ ws) s = last_source ws s
last_source (add_version ∷ ws) s = last_source ws s

unfoldable pub last_destination : List Write → ℕ → ℕ
last_destination [] d = d
last_destination (write_source source ∷ ws) d = last_destination ws d
last_destination (write_destination destination ∷ ws) d = last_destination ws destination
last_destination (add_version ∷ ws) d = last_destination ws d

pub write_all-fields :
    (ws : List Write) (sm : Monitor)
    → ((write_all ws sm).source ≡ last_source ws sm.source)
      × ((write_all ws sm).destination ≡ last_destination ws sm.destination)
unfolding write_all write_one last_source last_destination
write_all-fields [] sm = (refl, refl)
write_all-fields (write_source source ∷ ws) sm = write_all-fields ws (record sm { source = source })
write_all-fields (write_destination destination ∷ ws) sm =
    write_all-fields ws (record sm { destination = destination })
write_all-fields (add_version ∷ ws) sm =
    write_all-fields ws (record sm { version = (sm.version + 1) % 2 ^ 32 })

pub ends-take :
    (es : List (ℕ × ℕ)) (n : ℕ) → n ≤ 3 * length es → ends (take n (triggers es)) ≡ n / 3
unfolding ends triggers trigger
ends-take es zero h = omega arith
ends-take [] (suc n) h = absurd (omega arith)
ends-take (e ∷ es) (suc zero) h = omega arith
ends-take (e ∷ es) (suc (suc zero)) h = omega arith
ends-take (e ∷ es) (suc (suc (suc n))) h = omega (arith, ends-take es n (omega arith))

pub ends-drop :
    (es : List (ℕ × ℕ)) (j n : ℕ)
    → j < 3
    → j ≤ n
    → n ≤ 3 * length es
    → ends (drop j (take n (triggers es))) ≡ ends (take n (triggers es))
unfolding ends triggers trigger
ends-drop es zero n j3 le h = refl
ends-drop es (suc j) zero j3 le h = absurd (omega arith)
ends-drop [] (suc j) (suc n) j3 le h = absurd (omega arith)
ends-drop (e ∷ es) (suc zero) (suc n) j3 le h = refl
ends-drop (e ∷ es) (suc (suc zero)) (suc zero) j3 le h = absurd (omega arith)
ends-drop (e ∷ es) (suc (suc zero)) (suc (suc n)) j3 le h = refl
ends-drop (e ∷ es) (suc (suc (suc j))) (suc n) j3 le h = absurd (omega arith)
