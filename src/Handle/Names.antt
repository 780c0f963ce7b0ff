-- ===== src/Handle/Names.antt =====
-- The names of services in skynet-src/skynet_handle.c: a sorted array, searched by halves. A name
-- is the list of its bytes before the closing zero. The array is a function of the index; only
-- the cells below `name_count` count.
pub mod Compare
pub mod Search
pub mod Insert
pub mod Naming
pub mod Remove
pub mod Retiring
pub mod RetireAll
mod Tests
use mathlib.Core.Option
use demo_skynet_server.Common.{
  ℕ, zero, suc, ◌+◌, ◌-◌, ◌*◌, ◌/◌, Bool, true, false, Option, none, some, List, [], ◌∷◌, ◌==◌, ltb,
  leb, if◌then◌else◌,
}
use demo_skynet_server.Handle.{Storage, retire, grab}

-- `struct handle_name`
pub record HandleName : Type 0 where
  pub name : List ℕ
  pub handle : ℕ

-- The fields `name_cap`, `name_count` and `name` of `struct handle_storage`.
pub record NameTable : Type 0 where
  pub name_cap : ℕ
  pub name_count : ℕ
  pub name : ℕ → HandleName

abbrev pub max_slot_size : ℕ
max_slot_size = 0x40000000

-- The names of `skynet_handle_init`; the cells of a fresh array hold anything.
pub init_names : (ℕ → HandleName) → NameTable
init_names fresh = record { name_cap = 2; name_count = 0; name = fresh }

pub data Sign : Type 0 where
  negative : Sign
  nul : Sign
  positive : Sign

-- The sign of `strcmp`.
pub strcmp : List ℕ → List ℕ → Sign
strcmp [] [] = nul
strcmp [] (b ∷ vs) = negative
strcmp (a ∷ us) [] = positive
strcmp (a ∷ us) (b ∷ vs) =
    let rest = strcmp us vs in if a == b then rest else if ltb a b then negative else positive

-- Where the search of `skynet_handle_findname` and `_insert_name` ends: at the index of the name,
-- or with the last value of `begin`.
pub data Place : Type 0 where
  found : ℕ → Place
  absent : ℕ → Place

-- The loop of `skynet_handle_findname` and `_insert_name`, with fuel; `stop` is `end + 1`.
pub search_names : ℕ → NameTable → List ℕ → ℕ → ℕ → Option Place
search_names zero T name begin stop = none
search_names (suc fuel) T name begin stop = elim (ltb begin stop) [
  | false ↦ some (absent begin)
  | true ↦
      let mid = (begin + (stop - 1)) / 2 in
      elim (strcmp (T.name mid).name name) [
        | nul ↦ some (found mid)
        | negative ↦ search_names fuel T name (mid + 1) stop
        | positive ↦ search_names fuel T name begin mid
      ]
]

-- The search over the whole table. This fuel is enough: see `findname_lem`.
abbrev pub search_all : List ℕ → NameTable → Option Place
search_all name T = search_names (suc T.name_count) T name 0 T.name_count

-- `skynet_handle_findname`: 0 for a name that is not there.
pub findname : List ℕ → NameTable → Option ℕ
findname name T = elim (search_all name T) [
  | none ↦ none
  | some (found mid) ↦ some (T.name mid).handle
  | some (absent begin) ↦ some 0
]

abbrev pub put_name : (ℕ → HandleName) → ℕ → HandleName → (ℕ → HandleName)
put_name a i x = λ k. if k == i then x else a k

-- `n` rounds of a loop that copies the cells from `i` on, `shift` places up, into another array.
pub copy_names : ℕ → ℕ → ℕ → (ℕ → HandleName) → (ℕ → HandleName) → (ℕ → HandleName)
copy_names zero i shift a n = n
copy_names (suc k) i shift a n = copy_names k (i + 1) shift a (put_name n (i + shift) (a i))

-- The loop that moves the cells up within the array: `i` from `before + n` down to `before + 1`.
pub move_names_up : ℕ → ℕ → (ℕ → HandleName) → (ℕ → HandleName)
move_names_up zero before a = a
move_names_up (suc n) before a =
    move_names_up n before (put_name a (before + suc n) (a (before + suc n - 1)))

-- `_insert_name_before`; `none` is the failed assertion on `name_cap`, and `fresh` is what the new
-- array holds before it is written.
pub insert_name_before : (ℕ → HandleName) → List ℕ → ℕ → ℕ → NameTable → Option NameTable
insert_name_before fresh name handle before T =
    let entry : HandleName = record { name = name; handle = handle } in
    let grown =
      copy_names (T.name_count - before) before 1 T.name (copy_names before 0 0 T.name fresh) in
    let moved = move_names_up (T.name_count - before) before T.name in
    if leb T.name_cap T.name_count
    then if leb (T.name_cap * 2) max_slot_size
      then some (record {
        name_cap = T.name_cap * 2;
        name_count = T.name_count + 1;
        name = put_name grown before entry;
      })
      else none
    else some (record T { name_count = T.name_count + 1; name = put_name moved before entry })

-- `skynet_handle_namehandle`: whether the name was new, and so is returned.
pub namehandle : (ℕ → HandleName) → ℕ → List ℕ → NameTable → Option (Bool × NameTable)
namehandle fresh handle name T = elim (search_all name T) [
  | none ↦ none
  | some (found mid) ↦ some (false, T)
  | some (absent begin) ↦
      Option.map (λ T'. (true, T')) (insert_name_before fresh name handle begin T)
]

-- The loop of `skynet_handle_retire` over the names: `n` rounds from `i` on.
pub remove_names : ℕ → ℕ → ℕ → ℕ → NameTable → NameTable
remove_names zero handle i j T = record T { name_count = j }
remove_names (suc n) handle i j T =
    let skipped = remove_names n handle (i + 1) j T in
    let kept =
      remove_names n handle (i + 1) (j + 1) (record T { name = put_name T.name j (T.name i) }) in
    let stays = remove_names n handle (i + 1) (j + 1) T in
    if (T.name i).handle == handle then skipped else if i == j then stays else kept

-- The whole of `skynet_handle_retire`: the slot, then the names; the context to release.
pub retire_named : (ℕ → ℕ) → ℕ → Storage → NameTable → Option ℕ × Storage × NameTable
retire_named handle_of handle s T =
    let r = retire handle_of handle s in
    elim r.0 [
      | none ↦ (none, r.1, T)
      | some ctx ↦ (some ctx, r.1, remove_names T.name_count handle 0 0 T)
    ]
