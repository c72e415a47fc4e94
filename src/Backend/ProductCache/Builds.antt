-- ===== src/Backend/ProductCache/Builds.antt =====
-- The builds in the cache are distinct, and a handler is called when its build is there.
use tactmon.Prelude.{
  ℕ, ◌+◌, ◌≡◌, refl, ap, inl, inr, Bool, true, false, ◌||◌, none, some, List, [], ◌∷◌, ◌++◌, map,
  arith, Bytes, ◌==◌, if◌then◌else◌, Bool-cases, All, Result, ok, fault,
}
use tactmon.Backend.Product.{Build, Call, add_listener, load_build, product_of, finish_load}
use tactmon.Backend.ProductCache.{Record, ProductCache, join_loaded, load_new, default_lifetime}

unfoldable pub ids : List Record → List ℕ
ids rs = map (λ r. r.product.current_build.id) rs

unfoldable pub is_member : ℕ → List ℕ → Bool
is_member n [] = false
is_member n (m ∷ ms) = (m == n) || is_member n ms

-- No build stands twice.
abbrev pub AreDistinct : List ℕ → Type 0
AreDistinct [] = Unit {0}
AreDistinct (n ∷ ns) = (is_member n ns ≡ false) × AreDistinct ns

-- No product is being loaded, as `Load` leaves it where it does not throw.
abbrev pub IsIdle : List Record → Type 0
IsIdle = All (λ r. r.product.is_loading ≡ false)

-- The loop finds nothing exactly where the build is not there.
pub join_loaded-none :
    (id handler until : ℕ) (rs : List Record)
    → is_member id (ids rs) ≡ false
    → join_loaded id handler until rs ≡ none
unfolding join_loaded is_member ids
join_loaded-none id handler until [] h = refl
join_loaded-none id handler until (r ∷ rs) h =
    elim (Bool-cases (r.product.current_build.id == id)) [
      | inl e ↦ absurd (ground (arith, h, e))
      | inr e ↦ rw e (
          let later : is_member id (ids rs) ≡ false = ground (arith, h, e) in
          rw (join_loaded-none id handler until rs later) refl)
    ]

-- Where it is, the builds stay, nothing is being loaded, and the handler is called.
pub record Joined (id handler until : ℕ) (rs : List Record) : Type 0 where
  pub joined : List Record
  pub join_eq : join_loaded id handler until rs ≡ some (joined, (handler, id) ∷ [])
  pub ids_eq : ids joined ≡ ids rs
  pub idle : IsIdle joined

pub join_loaded-Joined :
    (id handler until : ℕ) (rs : List Record)
    → IsIdle rs
    → is_member id (ids rs) ≡ true
    → Joined id handler until rs
unfolding join_loaded is_member ids
join_loaded-Joined id handler until [] i h = absurd (ground (arith, h))
join_loaded-Joined id handler until (r ∷ rs) (l, i) h =
    elim (Bool-cases (r.product.current_build.id == id)) [
      | inl e ↦ record {
        joined = record r { expiration = until } ∷ rs;
        join_eq = rw (e, l) refl;
        ids_eq = refl;
        idle = (l, i);
      }
      | inr e ↦
          let later : is_member id (ids rs) ≡ true = ground (arith, h, e) in
          let rest = join_loaded-Joined id handler until rs i later in
          record {
            joined = r ∷ rest.joined;
            join_eq = rw (e, rest.join_eq) refl;
            ids_eq = ap (λ ns. r.product.current_build.id ∷ ns) rest.ids_eq;
            idle = (l, rest.idle);
          }
    ]

-- Where it is, whether or not a product is being loaded: the builds stay.
pub record Kept (id handler until : ℕ) (rs : List Record) : Type 0 where
  pub joined : List Record
  pub called : List Call
  pub join_eq : join_loaded id handler until rs ≡ some (joined, called)
  pub ids_eq : ids joined ≡ ids rs

pub join_loaded-Kept :
    (id handler until : ℕ) (rs : List Record)
    → is_member id (ids rs) ≡ true
    → Kept id handler until rs
unfolding join_loaded is_member ids add_listener
join_loaded-Kept id handler until [] h = absurd (ground (arith, h))
join_loaded-Kept id handler until (r ∷ rs) h =
    elim (Bool-cases (r.product.current_build.id == id)) [
      | inl e ↦ elim (Bool-cases r.product.is_loading) [
        | inl l ↦ record {
          joined = record { product = add_listener handler r.product; expiration = until } ∷ rs;
          called = [];
          join_eq = rw (e, l) refl;
          ids_eq = refl;
        }
        | inr l ↦ record {
          joined = record r { expiration = until } ∷ rs;
          called = (handler, id) ∷ [];
          join_eq = rw (e, l) refl;
          ids_eq = refl;
        }
      ]
      | inr e ↦
          let later : is_member id (ids rs) ≡ true = ground (arith, h, e) in
          let rest = join_loaded-Kept id handler until rs later in
          record {
            joined = r ∷ rest.joined;
            called = rest.called;
            join_eq = rw (e, rest.join_eq) refl;
            ids_eq = ap (λ ns. r.product.current_build.id ∷ ns) rest.ids_eq;
          }
    ]

-- Whether a result is true, and whether it is an exception.
unfoldable pub succeeds : Result Bool → Bool
succeeds (ok b) = b
succeeds (fault e) = false

unfoldable pub throws_out : Result Bool → Bool
throws_out (ok b) = false
throws_out (fault e) = true

-- A product that is made for a build has that build, whether or not it could be loaded.
module _ (load : ℕ → Bytes → Bytes → Result Bool) where
  -- What `Load` on a new product ends in: the number of no build is not loaded.
  unfoldable pub loads : ℕ → Build → Result Bool
  loads factory b = if b.id == 0 then ok true else load factory b.build_config b.cdn_config

  pub record Loaded (factory : ℕ) (b : Build) (handler now : ℕ) (c : ProductCache) : Type 0 where
    pub added : Record
    pub products_eq :
        (load_new load factory b handler now c).0.products ≡ c.products ++ (added ∷ [])
    pub id_eq : added.product.current_build.id ≡ b.id
    pub loading_eq : added.product.is_loading ≡ throws_out (loads factory b)
    pub expiration_eq : added.expiration ≡ now + default_lifetime
    pub result : (load_new load factory b handler now c).1 ≡ loads factory b
    pub calls_eq :
        (load_new load factory b handler now c).0.calls
        ≡ c.calls ++ (if succeeds (loads factory b) then (handler, b.id) ∷ [] else [])

  -- The record of a product that was made for a build.
  added_record : ℕ → Build → ℕ → ℕ → Bool → Record
  added_record factory b handler now loading = record {
    product = record {
      current_build = b;
      implementation = factory;
      listeners = handler ∷ [];
      is_loading = loading;
    };
    expiration = now + default_lifetime;
  }

  loaded_lem :
      (factory : ℕ) (b : Build) (handler now : ℕ) (c : ProductCache) (o : Result Bool)
      → (b.id == 0) ≡ false
      → load factory b.build_config b.cdn_config ≡ o
      → Loaded factory b handler now c
  unfolding load_new load_build add_listener product_of finish_load loads added_record succeeds
      throws_out
  loaded_lem factory b handler now c (ok true) e l = record {
    added = added_record factory b handler now false;
    products_eq = rw (e, l) refl;
    id_eq = refl;
    loading_eq = rw (e, l) refl;
    expiration_eq = refl;
    result = rw (e, l) refl;
    calls_eq = rw (e, l) refl;
  }
  loaded_lem factory b handler now c (ok false) e l = record {
    added = added_record factory b handler now false;
    products_eq = rw (e, l) refl;
    id_eq = refl;
    loading_eq = rw (e, l) refl;
    expiration_eq = refl;
    result = rw (e, l) refl;
    calls_eq = rw (e, l) refl;
  }
  loaded_lem factory b handler now c (fault f) e l = record {
    added = added_record factory b handler now true;
    products_eq = rw (e, l) refl;
    id_eq = refl;
    loading_eq = rw (e, l) refl;
    expiration_eq = refl;
    result = rw (e, l) refl;
    calls_eq = rw (e, l) refl;
  }

  pub load_new-Loaded :
      (factory : ℕ) (b : Build) (handler now : ℕ) (c : ProductCache)
      → Loaded factory b handler now c
  unfolding load_new load_build add_listener product_of finish_load loads added_record succeeds
      throws_out
  load_new-Loaded factory b handler now c = elim (Bool-cases (b.id == 0)) [
    | inl e ↦ record {
      added =
          added_record factory (record { id = 0; build_config = []; cdn_config = [] }) handler now
            false;
      products_eq = rw e refl;
      id_eq = ground (arith, e);
      loading_eq = rw e refl;
      expiration_eq = refl;
      result = rw e refl;
      calls_eq = rw e (let z : b.id ≡ 0 = ground (arith, e) in rw z refl);
    }
    | inr e ↦ loaded_lem factory b handler now c (load factory b.build_config b.cdn_config) e refl
  ]
