-- ===== src/Tests/Backends.antt =====
-- The theorems of src/tactmon/backend at concrete inputs.
use tactmon.Prelude.{
  ℕ, ◌≤◌, ◌<◌, ◌≡◌, refl, ◌⊎◌, Bool, true, false, not, Option, none, some, List, [], ◌∷◌, ◌++◌,
  arith, Bytes, if◌then◌else◌, codes, equal, throws, Result, ok, fault,
}
use tactmon.Backend.Monitor.{Products, RibbitMonitor, on_update, on_records}
use tactmon.Backend.Monitor.Laws.{Announces, newest, on_update-IsRaised, on_records-newest}
use tactmon.Backend.Product.{Build}
use tactmon.Backend.ProductCache.{ProductCache, load_configuration, find_factory}
use tactmon.Backend.ProductCache.Builds.{loads, AreDistinct, ids, is_member, loads}
use tactmon.Backend.ProductCache.Runs.{
  IsSound, Serves, load_configuration-Serves, failed_load-Serves, Operation, load_config,
  remove_expired, register, run, run-AreDistinct,
}
use tactmon.Backend.Pool.{
  resume, notify_one, Pool, new_pool, opened, open_connection, return_connection, take_front,
}
use tactmon.Backend.Pool.Laws.{
  Reaches, starts, moves, opens, gives, IsConserved, Reaches-IsConserved,
}
use tactmon.Backend.Pool.Wakes.{Reaches-serves}
use tactmon.Ribbit.Records.{SummaryRecord}

-- A table as an association list, of which the first entry counts.
abbrev Table : Type 0
Table = List (Bytes × ℕ)

abbrev find_name : Bytes → Table → Option ℕ
find_name name [] = none
find_name name ((n, id) ∷ t) = if equal n name then some id else find_name name t

abbrev add_name : Bytes → ℕ → Table → Table
add_name name id t = (name, id) ∷ t

abbrev association_list : Products Table
association_list = record {
  get_by_name = find_name;
  insert = add_name;
  update = add_name;
  get-insert = λ name other id table h. refl;
  get-update = λ name other id old table h. refl;
}

abbrev monitor : RibbitMonitor Table
monitor = record { table = (codes "wow", 5) ∷ []; listeners = 0 ∷ []; calls = [] }

abbrev summary : List SummaryRecord
summary =
    record { product = codes "wow"; sequence_id = 7; flags = [] }
    ∷ record { product = codes "wow"; sequence_id = 9; flags = codes "bgdl" }
    ∷ []

on_update-IsRaised_example :
    Announces association_list
      (codes "wow")
      monitor
      (on_update association_list false (some summary) monitor)
on_update-IsRaised_example =
    on_update-IsRaised association_list (codes "wow") 0 [] false (some summary) monitor refl

on_records-newest_example :
    association_list.get_by_name (codes "wow") (on_records association_list summary monitor).table
    ≡ some 7
unfolding newest equal
on_records-newest_example = on_records-newest association_list (codes "wow") summary monitor

-- A product that cannot be loaded from the configuration `bad`, and throws on `worse`.
abbrev load : ℕ → Bytes → Bytes → Result Bool
load i build cdn =
    if equal build (codes "worse") then fault throws else ok (not (equal build (codes "bad")))

abbrev good_build : Build
good_build = record { id = 4; build_config = codes "b"; cdn_config = codes "c" }

abbrev bad_build : Build
bad_build = record { id = 3; build_config = codes "bad"; cdn_config = codes "c" }

abbrev worse_build : Build
worse_build = record { id = 5; build_config = codes "worse"; cdn_config = codes "c" }

abbrev cache : ProductCache
cache = record { products = []; factories = (codes "wow", 0) ∷ []; calls = [] }

cache-IsSound : IsSound cache
unfolding ids
cache-IsSound = record { distinct = tt; idle = tt }

load_configuration-Serves_example :
    Serves load
      (codes "wow")
      good_build
      1
      cache
      (load_configuration load (codes "wow") good_build 1 60 0 cache)
load_configuration-Serves_example =
    load_configuration-Serves load (codes "wow") good_build 1 60 0 cache cache-IsSound

failed_load-Serves_example :
    let first = load_configuration load (codes "wow") bad_build 1 60 0 cache in
    let second = load_configuration load (codes "wow") bad_build 2 60 9 first.0 in
    (first.1 ≡ ok false) × (second.1 ≡ ok true) × (second.0.calls ≡ first.0.calls ++ ((2, 3) ∷ []))
unfolding ids is_member find_factory loads equal
failed_load-Serves_example =
    failed_load-Serves load (codes "wow") (codes "wow") bad_build 1 2 60 0 9 0 cache cache-IsSound
      refl refl refl

abbrev operations : List Operation
operations =
    load_config (codes "wow") good_build 1 60 0
    ∷ load_config (codes "wow") worse_build 2 60 10
    ∷ load_config (codes "wow") worse_build 3 60 20
    ∷ register (codes "wow") 3
    ∷ remove_expired 100
    ∷ []

run-AreDistinct_example : AreDistinct (ids (run load operations cache).products)
unfolding ids
run-AreDistinct_example = run-AreDistinct load operations cache tt

-- A pool of one connection, which is taken while another thread waits for it, and then given back.
abbrev taken : Pool
taken = record { idle = []; rented = 0 ∷ []; capacity = 1; waiting = 0; woken = 0; notifying = 0 }

taken-Reaches : Reaches 1 taken
unfolding new_pool opened open_connection take_front
taken-Reaches = moves starts (opens (new_pool 1))

Reaches-IsConserved_example : IsConserved 1 taken
Reaches-IsConserved_example = Reaches-IsConserved 1 taken taken-Reaches

abbrev returned : Pool
returned = record taken { idle = 0 ∷ []; rented = []; waiting = 1; notifying = 1 }

returned-Reaches : Reaches 1 returned
unfolding open_connection take_front return_connection
returned-Reaches =
    moves (moves taken-Reaches (opens taken)) (gives (record taken { waiting = 1 }) 0 [] [] refl)

Reaches-serves_example :
    (◌≤◌ 1 1)
    × (((◌<◌ 0 0) × ((resume returned).0 ≡ some 0))
        ⊎ ((◌<◌ 0 1)
            × (0 < (notify_one returned).woken)
            × ((resume (notify_one returned)).0 ≡ some 0)))
Reaches-serves_example = Reaches-serves 1 returned 0 [] returned-Reaches (omega arith) refl
