-- ===== src/Databuffer/Tests.antt =====
-- Concrete runs of the data buffer of service-src/databuffer.h.
use native.Mathlib.Decide.{dec_lt, ℕ_discrete}
use demo_skynet_server.Common.{
  ℕ, ◌+◌, ◌≡◌, ◌≢◌, ◌==◌, if◌then◌else◌, if_false, ==_differ, counted, refl, Option, none, some,
  List, [], ◌∷◌, ◌++◌, arith, take, drop,
}
use demo_skynet_server.Databuffer.{
  Databuffer, Pool, row, databuffer_push, read_chunks, databuffer_read, databuffer_clear,
  return_all,
}
use demo_skynet_server.Databuffer.Stream.{IsValid, stream, flat, read_lem}
use demo_skynet_server.Databuffer.Nodes.{
  nodes, IsOwned, row_in, row_out_below, row_out_above, databuffer_push_lem,
}

-- 1 is read already; 2, 3 and 4, 5, 6 wait.
abbrev two_chunks : Databuffer
two_chunks = record {
  header = 0;
  offset = 1;
  size = 5;
  chunks =
      record { node = 0; buffer = 1 ∷ 2 ∷ 3 ∷ []; size = 3 }
      ∷ record { node = 1; buffer = 4 ∷ 5 ∷ 6 ∷ []; size = 3 }
      ∷ [];
}

abbrev pool : Pool
pool = record { blocks = 1; freelist = 2 ∷ 3 ∷ [] }

two_chunks-IsValid : IsValid two_chunks
unfolding flat
two_chunks-IsValid = record { chained = ((refl, (refl, tt)), omega arith); counted = refl }

read_lem_example :
    (db' : Databuffer) × (mp' : Pool) × (databuffer_read 3 two_chunks pool
      ≡ some (take 3 (stream two_chunks), db', mp'))
    × IsValid db'
    × (stream db' ≡ drop 3 (stream two_chunks))
    × (db'.header ≡ 0)
unfolding flat
read_lem_example = read_lem 3 two_chunks pool two_chunks-IsValid (omega arith) (omega arith)

-- A connection that has the nodes 0 and 1 of the only block, where another has all the others: the
-- free list is empty, and a push takes a node of a new block.
abbrev exhausted : Pool
exhausted = record { blocks = 1; freelist = [] }

if_zero : (x p : ℕ) → x ≢ p → ◌≡◌ {A = ℕ} (if x == p then 1 else 0) 0
if_zero x p ne = if_false (==_differ x p ne) 1 0

exhausted-IsOwned : IsOwned two_chunks (row 1021 2) exhausted
unfolding nodes
exhausted-IsOwned = record {
  one_place = λ p h. elim (dec_lt p 2) [
    | yes l ↦ elim (ℕ_discrete 0 p) [
      | yes e ↦
          omega (arith, counted 0 p e, row_out_below 1021 2 p l, if_zero 1 p (λ q. omega arith))
      | no ne ↦ omega (arith, if_zero 0 p ne, row_out_below 1021 2 p l, counted 1 p (omega arith))
    ]
    | no l ↦ omega (
      arith,
      if_zero 0 p (λ q. omega arith),
      if_zero 1 p (λ q. omega arith),
      row_in 1021 2 p (omega arith) (omega arith),
    )
  ];
  no_others = λ p h. omega (
    arith,
    if_zero 0 p (λ q. omega arith),
    if_zero 1 p (λ q. omega arith),
    row_out_above 1021 2 p (omega arith),
  );
}

databuffer_push_lem_example :
    let r = databuffer_push (7 ∷ 8 ∷ []) 2 two_chunks exhausted in
    IsValid r.0
    × (stream r.0 ≡ stream two_chunks ++ 7 ∷ 8 ∷ [])
    × (r.0.header ≡ 0)
    × (r.0.size ≡ 5 + 2)
    × IsOwned r.0 (row 1021 2) r.1
databuffer_push_lem_example =
    databuffer_push_lem (7 ∷ 8 ∷ []) two_chunks (row 1021 2) exhausted two_chunks-IsValid
      exhausted-IsOwned

across :
    ◌≡◌ {A = Option (List ℕ)}
      (elim (databuffer_read 3 two_chunks pool) [ none ↦ none | some r ↦ some r.0 ])
      (some (2 ∷ 3 ∷ 4 ∷ []))
unfolding databuffer_read read_chunks
across = refl

cleared : (databuffer_clear two_chunks pool).1.freelist ≡ 1 ∷ 0 ∷ 2 ∷ 3 ∷ []
unfolding databuffer_clear return_all
cleared = refl
