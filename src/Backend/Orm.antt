-- ===== src/Backend/Orm.antt =====
-- src/tactmon/backend/db/orm: the templates that write SQL statements at compile time. A template
-- with a static `render_to` is a function that gives a `Component`, a struct is a value.
pub mod Digits
pub mod Shared
pub mod Selectors
pub mod Statements
pub mod Renders
use tactmon.Prelude.{ℕ, Option, none, some, List, [], ◌∷◌, ◌++◌, Bytes}

-- `std::string`, `uint32_t` and `uint64_t`, the types of the columns and of the results.
pub data ValueType : Type 0 where
  text word32 word64 : ValueType

-- `render_to` on a text and the number of the next parameter: nothing where a `static_assert`
-- fails. `parameter_types` are those of the arguments of a statement, `value_type` is that of the
-- component, nothing where it declares none.
pub record Component : Type 0 where
  pub value_type : Option ValueType
  pub parameter_types : List ValueType
  pub render_to : Bytes → ℕ → Option (Bytes × ℕ)

-- What is done with a text that was written.
infixl 5 ◌>>=◌
abbrev pub ◌>>=◌ {ℓ κ} : {A : Type ℓ} {B : Type κ} → Option A → (A → Option B) → Option B
none >>= next = none
some a >>= next = next a

-- `utility::tuple_cat` of the types of components.
unfoldable pub types_of : List Component → List ValueType
types_of [] = []
types_of (c ∷ cs) = c.parameter_types ++ types_of cs

-- `detail/VariadicRenderable.hpp`: the components behind the first, each behind the token.
unfoldable pub render_rest : Bytes → List Component → Bytes → ℕ → Option (Bytes × ℕ)
render_rest token [] prev p = some (prev, p)
render_rest token (c ∷ cs) prev p = do
  (str, u) ← c.render_to (prev ++ token) p
  render_rest token cs str u

unfoldable pub render_all : Bytes → List Component → Bytes → ℕ → Option (Bytes × ℕ)
unfolding render_rest
render_all token [] prev p = some (prev, p)
render_all token (c ∷ cs) prev p = do (str, u) ← c.render_to prev p; render_rest token cs str u
