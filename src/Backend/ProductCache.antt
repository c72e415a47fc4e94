-- ===== src/Backend/ProductCache.antt =====
-- src/tactmon/backend/ProductCache.cpp: the products in memory and the time until which they stay.
-- An operation ends before the next begins; the source has no lock. Time is in seconds; `std::chrono::high_resolution_clock::now()` is an argument.
pub mod Builds
pub mod Runs
pub mod Expiry
use tactmon.Prelude.{
  ℕ, ◌+◌, ◌*◌, Bool, true, false, Option, none, some, List, [], ◌∷◌, ◌++◌, map, Bytes, leb, ◌==◌,
  if◌then◌else◌, length, equal, Result, ok,
}
use tactmon.Backend.Product.{Build, Product, Call, add_listener, load_build, product_of}

-- `ProductCache::Record`.
pub record Record : Type 0 where
  pub product : Product
  pub expiration : ℕ

-- A factory makes a product of an implementation, and is given by its number. The handlers that
-- were called are kept with the state.
pub record ProductCache : Type 0 where
  pub products : List Record
  pub factories : List (Bytes × ℕ)
  pub calls : List Call

abbrev pub minute : ℕ
minute = 60

abbrev pub default_lifetime : ℕ
default_lifetime = 15 * minute

-- `RemoveExpiredEntries` on one record: nothing where it is removed.
unfoldable pub keep_record : ℕ → Record → Option Record
keep_record now r =
    if leb r.expiration now
    then (if r.product.is_loading
        then some (record r { expiration = r.expiration + minute })
        else none)
    else some r

unfoldable pub keep_records : ℕ → List Record → List Record
unfolding keep_record
keep_records now [] = []
keep_records now (r ∷ rs) = elim (keep_record now r) [
  | none ↦ keep_records now rs
  | some kept ↦ kept ∷ keep_records now rs
]

unfoldable pub remove_expired_entries : ℕ → ProductCache → ProductCache
unfolding keep_records
remove_expired_entries now c = record c { products = keep_records now c.products }

-- The loop of `LoadConfiguration`: the records with the first one of the build changed, and the
-- handlers called; nothing where there is none.
unfoldable pub join_loaded : ℕ → ℕ → ℕ → List Record → Option (List Record × List Call)
join_loaded id handler until [] = none
join_loaded id handler until (r ∷ rs) =
    if r.product.current_build.id == id
    then (if r.product.is_loading
        then some (record { product = add_listener handler r.product; expiration = until } ∷ rs, [])
        else some (record r { expiration = until } ∷ rs, (handler, id) ∷ []))
    else elim (join_loaded id handler until rs) [
      | none ↦ none
      | some (rest, calls) ↦ some (r ∷ rest, calls)
    ]

-- `std::unordered_map::find` and `emplace`: what is there already stays.
unfoldable pub find_factory : Bytes → List (Bytes × ℕ) → Option ℕ
find_factory name [] = none
find_factory name ((n, f) ∷ fs) = if equal n name then some f else find_factory name fs

unfoldable pub register_factory : Bytes → ℕ → ProductCache → ProductCache
unfolding find_factory
register_factory name f c = elim (find_factory name c.factories) [
  | none ↦ record c { factories = (name, f) ∷ c.factories }
  | some g ↦ c
]

unfoldable pub is_aware_of : Bytes → ProductCache → Bool
unfolding find_factory
is_aware_of name c = elim (find_factory name c.factories) [ none ↦ false | some f ↦ true ]

unfoldable pub size : ProductCache → ℕ
size c = length c.products

-- `ForEachProduct`: what the handler is called with.
unfoldable pub for_each_product : ProductCache → List (Product × ℕ)
for_each_product c = map (λ r. (r.product, r.expiration)) c.products

module _ (load : ℕ → Bytes → Bytes → Result Bool) where
  -- The end of `LoadConfiguration`, where no record has the build and there is a factory.
  unfoldable pub load_new : ℕ → Build → ℕ → ℕ → ProductCache → ProductCache × Result Bool
  unfolding load_build add_listener product_of
  load_new factory b handler now c =
      let (p, calls, success) = load_build load b (add_listener handler (product_of factory)) in
      (
        record c {
          products =
              c.products ++ (record { product = p; expiration = now + default_lifetime } ∷ []);
          calls = c.calls ++ calls;
        },
        success,
      )

  -- `LoadConfiguration`.
  unfoldable pub load_configuration :
      Bytes → Build → ℕ → ℕ → ℕ → ProductCache → ProductCache × Result Bool
  unfolding join_loaded find_factory load_new
  load_configuration name b handler lifetime now c =
      elim (join_loaded b.id handler (now + lifetime) c.products) [
        | some (products, calls) ↦
            (record c { products = products; calls = c.calls ++ calls }, ok true)
        | none ↦ elim (find_factory name c.factories) [
          | none ↦ (c, ok false)
          | some factory ↦ load_new factory b handler now c
        ]
      ]
