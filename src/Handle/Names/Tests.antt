-- ===== src/Handle/Names/Tests.antt =====
-- Concrete runs of the names of skynet-src/skynet_handle.c.
use demo_skynet_server.Common.{
  ℕ, ◌≡◌, refl, ap₂, ◌≢◌, ◌⊎◌, true, false, Option, none, some, List, [], ◌∷◌, arith, ◌==◌,
  if◌then◌else◌,
}
use demo_skynet_server.Handle.{Storage, grab}
use demo_skynet_server.Handle.Tests.{one_handle, one_service, one_service-IsValid}
use demo_skynet_server.Handle.Retire.{Retired}
use demo_skynet_server.Handle.Names.{
  HandleName, NameTable, strcmp, search_names, findname, copy_names, insert_name_before, namehandle,
  remove_names, retire_named,
}
use demo_skynet_server.Handle.Names.Search.{IsSorted, IsNamed, findname_lem}
use demo_skynet_server.Handle.Names.Naming.{Named, namehandle_lem}
use demo_skynet_server.Handle.Inv.{IsValid}
use demo_skynet_server.Handle.Names.RetireAll.{retireall}
use demo_skynet_server.Handle.Names.RetireAll.Passes.{retireall_lem}
use demo_skynet_server.Handle.Names.Retiring.{Unnamed, retire_named_lem}

abbrev nothing : HandleName
nothing = record { name = []; handle = 0 }

-- ".a" for 0x01000002 and ".c" for 0x01000003.
abbrev two_names : NameTable
two_names = record {
  name_cap = 2;
  name_count = 2;
  name = λ i.
      if i == 0
      then record { name = 46 ∷ 97 ∷ []; handle = 0x01000002 }
      else if i == 1
      then record { name = 46 ∷ 99 ∷ []; handle = 0x01000003 }
      else nothing;
}

two_names-IsSorted : IsSorted two_names
unfolding strcmp
two_names-IsSorted = record {
  has_array = omega arith;
  fits = omega arith;
  order = λ i j h k.
      let first : i ≡ 0 = omega arith in
      let second : j ≡ 1 = omega arith in
      ap₂ (λ a b. strcmp (two_names.name a).name (two_names.name b).name) first second;
}

abbrev dot_b : List ℕ
dot_b = 46 ∷ 98 ∷ []

findname_lem_example :
    ((h : ℕ) × (findname dot_b two_names ≡ some h)
      × IsNamed two_names dot_b h
      × ((k : ℕ) → IsNamed two_names dot_b k → k ≡ h))
    ⊎ ((findname dot_b two_names ≡ some 0) × ((k : ℕ) → ¬ IsNamed two_names dot_b k))
findname_lem_example = findname_lem two_names dot_b two_names-IsSorted

-- The array is full, and is doubled for the new name.
namehandle_lem_example :
    ((h : ℕ) × IsNamed two_names dot_b h
      × (namehandle (λ k. nothing) 5 dot_b two_names ≡ some (false, two_names)))
    ⊎ (((h : ℕ) → ¬ IsNamed two_names dot_b h)
        × ((U : NameTable) × (namehandle (λ k. nothing) 5 dot_b two_names ≡ some (true, U))
            × Named two_names dot_b 5 U))
namehandle_lem_example =
    namehandle_lem (λ k. nothing) 5 dot_b two_names two_names-IsSorted (omega arith)

retire_named_lem_example :
    let r = retire_named one_handle 0x01000002 one_service two_names in
    (r.0 ≡ grab one_handle 0x01000002 one_service)
    × Retired one_handle one_service 0x01000002 r.1
    × (((r.0 ≡ none) × (r.2 ≡ two_names)) ⊎ ((r.0 ≢ none) × Unnamed two_names 0x01000002 r.2))
retire_named_lem_example =
    retire_named_lem one_handle 0x01000002 one_service two_names one_service-IsValid
      two_names-IsSorted

finds_c : findname (46 ∷ 99 ∷ []) two_names ≡ some 0x01000003
unfolding findname search_names strcmp
finds_c = refl

-- The names after ".b" was added, in order.
three_names :
    ◌≡◌ {A = Option ℕ}
      (elim (namehandle (λ k. nothing) 5 dot_b two_names) [
        | none ↦ none
        | some r ↦ findname dot_b r.1
      ])
      (some 5)
unfolding namehandle findname search_names strcmp insert_name_before copy_names
three_names = refl

one_name_left : (remove_names 2 0x01000002 0 0 two_names).name_count ≡ 1
unfolding remove_names
one_name_left = refl

retireall_lem_example :
    (t : Storage) × (U : NameTable) × (retireall one_handle one_service two_names ≡ some (t, U))
    × ((h : ℕ) → h ≢ 0 → grab one_handle h t ≡ none)
    × (grab one_handle 0 t ≡ grab one_handle 0 one_service)
    × ((y : List ℕ) (h : ℕ)
        → IsNamed U y h
        → IsNamed two_names y h × ((h ≡ 0) ⊎ (grab one_handle h one_service ≡ none)))
    × IsValid one_handle t
    × IsSorted U
retireall_lem_example =
    retireall_lem one_handle one_service two_names one_service-IsValid two_names-IsSorted
