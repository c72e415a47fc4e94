-- ===== src/Backend/Product.antt =====
-- src/tactmon/backend/Product.cpp: a product that is loaded for one build, and who waits for it.
-- The build is `db::entity::build::Entity`; a default one has the number 0. The product of
-- libtactmon is numbered, and what its `Load` returns or throws on two configurations is a parameter.
use tactmon.Prelude.{
  ℕ, Bool, true, false, List, [], ◌∷◌, ◌++◌, map, Bytes, ◌==◌, if◌then◌else◌, Result, ok, fault,
}

-- The columns of the build that are read.
pub record Build : Type 0 where
  pub id : ℕ
  pub build_config : Bytes
  pub cdn_config : Bytes

abbrev pub no_build : Build
no_build = record { id = 0; build_config = []; cdn_config = [] }

-- Handlers are numbered.
pub record Product : Type 0 where
  pub current_build : Build
  pub implementation : ℕ
  pub listeners : List ℕ
  pub is_loading : Bool

-- A call of a handler: the handler, and the build of the product that it is handed.
abbrev pub Call : Type 0
Call = ℕ × ℕ

-- `Product(std::shared_ptr<...>)`.
unfoldable pub product_of : ℕ → Product
product_of i = record {
  current_build = no_build;
  implementation = i;
  listeners = [];
  is_loading = false;
}

unfoldable pub add_listener : ℕ → Product → Product
add_listener handler p = record p { listeners = p.listeners ++ (handler ∷ []) }

-- The end of `Load`: the flag is taken back and each listener is called.
unfoldable pub finish_load : Product → Product × List Call × Result Bool
finish_load p =
    (record p { is_loading = false }, map (λ h. (h, p.current_build.id)) p.listeners, ok true)

module _ (load : ℕ → Bytes → Bytes → Result Bool) where
  -- `Load` on a build: the product, the calls of handlers, and the result. Where the loading throws,
  -- the flag is left set.
  unfoldable pub load_build : Build → Product → Product × List Call × Result Bool
  unfolding finish_load
  load_build b p =
      let begun : Product = record p { current_build = b; is_loading = true } in
      if b.id == p.current_build.id
      then finish_load p
      else if p.is_loading
      then finish_load begun
      else elim (load p.implementation b.build_config b.cdn_config) [
        | ok loaded ↦
            if loaded
            then finish_load begun
            else (record begun { is_loading = false }, [], ok false)
        | fault e ↦ (begun, [], fault e)
      ]
