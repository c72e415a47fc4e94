-- ===== src/Backend/ProductCache/Expiry.antt =====
-- How long a build stays in the cache.
use tactmon.Prelude.{ℕ, Bool, not, ◌||◌, List, [], ◌∷◌, leb, ◌==◌, if◌then◌else◌}
use tactmon.Backend.ProductCache.{Record, ProductCache}

-- The records with the time of the first one of the build set anew.
touched : ℕ → ℕ → List Record → List Record
touched id until [] = []
touched id until (r ∷ rs) =
    if r.product.current_build.id == id
    then record r { expiration = until } ∷ rs
    else r ∷ touched id until rs

-- Whether one record is kept.
stays : ℕ → Record → Bool
stays t r = not (leb r.expiration t) || r.product.is_loading
