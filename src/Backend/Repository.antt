-- ===== src/Backend/Repository.antt =====
-- src/tactmon/backend/db/orm/PreparedStatement.hpp and db/repository/Repository.hpp: what a statement
-- makes of the answer of the database, and the copy of a table in memory. A transaction of libpqxx
-- is its outcome, and the constructor of an entity is a parameter, which throws on a bad row.
pub mod Laws
use tactmon.Prelude.{
  ◌>>=◌, ℕ, ◌+◌, Bool, true, false, Option, none, some, List, [], ◌∷◌, ltb, ◌==◌, if◌then◌else◌,
  throws, Result, ok, fault,
}

-- Of `exec_prepared` and `commit`: one of them throws, or there are rows.
pub data Transaction {ℓ} (R : Type ℓ) : Type ℓ where
  failed : Transaction R
  committed : List R → Transaction R

module _ {ℓ κ} {R : Type ℓ} {U : Type κ} (entity : R → Option U) where
  -- The rows of `Execute`; the first bad one throws.
  unfoldable pub read_rows : List R → Option (List U)
  read_rows [] = some []
  read_rows (row ∷ rows) =
      let rest = read_rows rows in
      elim (entity row) [
        | none ↦ none
        | some e ↦ elim rest [ none ↦ none | some es ↦ some (e ∷ es) ]
      ]

  -- The `catch`: `aborts` is whether a transaction that is committed can be aborted.
  unfoldable pub aborted : {A : Type κ} → Bool → A → Result A
  aborted aborts a = if aborts then ok a else fault throws

  unfoldable pub execute : Bool → Transaction R → Result (List U)
  unfolding read_rows aborted
  execute aborts failed = ok []
  execute aborts (committed rows) = elim (read_rows rows) [
    | none ↦ aborted aborts []
    | some es ↦ ok es
  ]

  unfoldable pub read_one : List R → Option (Option U)
  read_one [] = some none
  read_one (row ∷ []) = elim (entity row) [ none ↦ none | some e ↦ some (some e) ]
  read_one (row ∷ next ∷ rows) = some none

  unfoldable pub execute_one : Bool → Transaction R → Result (Option U)
  unfolding read_one aborted
  execute_one aborts failed = ok none
  execute_one aborts (committed rows) = elim (read_one rows) [
    | none ↦ aborted aborts none
    | some e ↦ ok e
  ]

-- `_storage`, a flat_map from primary keys, and the expiry of `_refreshTimer`.
pub record Repository {ℓ} (E : Type ℓ) : Type ℓ where
  pub storage : List (ℕ × E)
  pub expires_at : Option ℕ

module _ {ℓ} {E : Type ℓ} where
  -- `flat_map::find`.
  unfoldable pub find_key : ℕ → List (ℕ × E) → Option E
  find_key id [] = none
  find_key id ((k, e) ∷ rest) = if k == id then some e else find_key id rest

  -- `flat_map::emplace`: a key that is there keeps its value.
  unfoldable pub emplace : ℕ → E → List (ℕ × E) → List (ℕ × E)
  emplace id e [] = (id, e) ∷ []
  emplace id e ((k, old) ∷ rest) =
      let below = emplace id e rest in
      if ltb id k
      then (id, e) ∷ (k, old) ∷ rest
      else if id == k
      then (k, old) ∷ rest
      else (k, old) ∷ below

  -- `Get` and `operator []`.
  unfoldable pub get : ℕ → Repository E → Option E
  unfolding find_key
  get id r = find_key id r.storage

  -- The entities that `ForEach` and `WithValues` go through.
  unfoldable pub values : List (ℕ × E) → List E
  values [] = []
  values ((k, e) ∷ rest) = e ∷ values rest

  unfoldable pub for_each : Repository E → List E
  unfolding values
  for_each r = values r.storage

  unfoldable pub any_value : (E → Bool) → List (ℕ × E) → Bool
  any_value callback [] = false
  any_value callback ((k, e) ∷ rest) = if callback e then true else any_value callback rest

  unfoldable pub any : (E → Bool) → Repository E → Bool
  unfolding any_value
  any callback r = any_value callback r.storage

  -- `LoadFromDB_`, with the primary key of an entity and what `Execute` gave.
  unfoldable pub fill : (E → ℕ) → List E → List (ℕ × E) → List (ℕ × E)
  fill key [] storage = storage
  fill key (e ∷ es) storage = fill key es (emplace (key e) e storage)

  unfoldable pub load_from_db : (E → ℕ) → List E → Repository E → Repository E
  unfolding fill
  load_from_db key es r = record r { storage = fill key es [] }

  -- `Refresh_`, at a time, by a timer that is aborted or not.
  unfoldable pub refresh :
      (E → ℕ) → Bool → ℕ → ℕ → Result (List E) → Repository E → Result (Repository E)
  unfolding load_from_db
  refresh key true now interval answer r = ok r
  refresh key false now interval answer r = do
    es ← answer
    ok (record (load_from_db key es r) { expires_at = some (now + interval) })

  -- The constructor, behind the preparation of the statement on the pool.
  unfoldable pub new_repository : (E → ℕ) → ℕ → ℕ → Result (List E) → Result (Repository E)
  unfolding refresh
  new_repository key now interval answer =
      refresh key false now interval answer (record { storage = []; expires_at = none })
