-- ===== src/Tests/Repositories.antt =====
-- A table of rows whose entities are pairs of an id and a name.
use tactmon.Prelude.{
  ℕ, ◌*◌, ◌≡◌, refl, ◌↔◌, true, false, Option, none, some, [], ◌∷◌, ◌==◌, if◌then◌else◌, ok,
}
use tactmon.Backend.Repository.{
  Transaction, committed, failed, read_rows, execute, Repository, get, any, emplace, fill,
  load_from_db, refresh, new_repository,
}
use tactmon.Backend.Repository.Laws.{IsSorted, Arises, opens, first_of, refresh-first, Arises-any}

abbrev entity : ℕ → Option (ℕ × ℕ)
entity n = if n == 0 then none else some (n, n * 2)

abbrev id_of : ℕ × ℕ → ℕ
id_of (id, name) = id

abbrev stale : Repository (ℕ × ℕ)
stale = record { storage = (9, (9, 9)) ∷ []; expires_at = some 60 }

abbrev rows : Transaction ℕ
rows = committed (7 ∷ 3 ∷ 5 ∷ 3 ∷ [])

refresh-first_example :
    (after : Repository (ℕ × ℕ)) × (refresh id_of false 60 60 (execute entity true rows) stale
      ≡ ok after)
    × (get 3 after ≡ some (3, 6))
    × (rows ≡ failed → get 3 after ≡ none)
    × (after.expires_at ≡ some 120)
unfolding execute read_rows first_of
refresh-first_example =
    refresh-first entity id_of true rows ((7, 14) ∷ (3, 6) ∷ (5, 10) ∷ (3, 6) ∷ []) 60 60 3 stale
      refl

abbrev loaded : Repository (ℕ × ℕ)
loaded = record { storage = (3, (3, 6)) ∷ (5, (5, 10)) ∷ (7, (7, 14)) ∷ []; expires_at = some 60 }

loaded-Arises : Arises id_of loaded
unfolding new_repository refresh load_from_db fill emplace
loaded-Arises = opens 0 60 (ok ((7, 14) ∷ (3, 6) ∷ (5, 10) ∷ (3, 6) ∷ [])) loaded refl

Arises-any_example :
    IsSorted loaded.storage
    × ((any (λ e. e.1 == 10) loaded ≡ true)
        ↔ ((id : ℕ) × (e : ℕ × ℕ) × (get id loaded ≡ some e) × ((e.1 == 10) ≡ true)))
Arises-any_example = Arises-any id_of loaded (λ e. e.1 == 10) loaded-Arises
