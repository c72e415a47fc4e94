-- ===== src/Ribbit/Execute.antt =====
-- src/libtactmon/libtactmon/ribbit/Commands.hpp and Enums.hpp: the request of each command, the
-- parts of an answer, and the exchange. Sockets, the HTTP parser of Boost.Beast and the regular
-- expression library are parameters: `exchange` gives the answer of the host to a request, or
-- nothing where it could not be had, and `boundary` finds the boundary of a multipart answer.
pub mod Laws
use tactmon.Prelude.{
  true, false, Option, none, some, List, [], ◌∷◌, ◌++◌, Bytes, codes, Result, ok, ◌>>=◌,
}
use tactmon.Text.Tokenizer.{tokenize_text}
use tactmon.Ribbit.Commands.{crlf}

pub data Region : Type 0 where
  eu us kr cn tw : Region

pub data Version : Type 0 where
  v1 v2 : Version

-- The commands that have traits.
pub data Command : Type 0 where
  summary product_versions product_cdns product_bgdl : Command

-- The formatters of `Region` and `Version`.
unfoldable pub region_text : Region → Bytes
region_text eu = codes "eu"
region_text us = codes "us"
region_text kr = codes "kr"
region_text cn = codes "cn"
region_text tw = codes "tw"

unfoldable pub version_text : Version → Bytes
version_text v1 = codes "v1"
version_text v2 = codes "v2"

-- `Format` of the command's traits, with its arguments put in; `summary` takes none.
unfoldable pub command_format : Command → Bytes → Bytes → Bytes
command_format summary version product = version ++ codes "/summary"
command_format product_versions version product =
    version ++ (codes "/products/" ++ (product ++ codes "/versions"))
command_format product_cdns version product =
    version ++ (codes "/products/" ++ (product ++ codes "/cdns"))
command_format product_bgdl version product =
    version ++ (codes "/products/" ++ (product ++ codes "/cdns"))

unfoldable pub command_text : Command → Version → Bytes → Bytes
unfolding command_format version_text
command_text c v product = command_format c (version_text v) product ++ crlf

unfoldable pub host : Region → Bytes
unfolding region_text
host r = region_text r ++ codes ".version.battle.net"

-- `VersionTraits<V>::ParseCore`.
unfoldable pub parse_core : (Bytes → Option Bytes) → Version → Bytes → Result (List Bytes)
parse_core boundary v1 input = elim (boundary input) [
  | none ↦ ok []
  | some b ↦ tokenize_text input (codes "--" ++ (b ++ crlf)) true
]
parse_core boundary v2 input = tokenize_text input (crlf ++ crlf) false

-- The loop of `VersionTraits<V>::Parse`: the first part that parses.
unfoldable pub first_parsed {ℓ} :
    {A : Type ℓ} → (Bytes → Result (Option A)) → List Bytes → Result (Option A)
first_parsed parse [] = ok none
first_parsed parse (part ∷ parts) = do
  value ← parse part
  elim value [ some a ↦ ok (some a) | none ↦ first_parsed parse parts ]

unfoldable pub parse_answer {ℓ} :
    {A : Type ℓ}
    → (Bytes → Option Bytes)
    → Version
    → (Bytes → Result (Option A))
    → Bytes
    → Result (Option A)
parse_answer boundary v parse payload = do
  parts ← parse_core boundary v payload
  first_parsed parse parts

-- `Execute`.
unfoldable pub execute {ℓ} :
    {A : Type ℓ}
    → (Bytes → Bytes → Option Bytes)
    → (Bytes → Option Bytes)
    → Command
    → Version
    → (Bytes → Result (Option A))
    → Region
    → Bytes
    → Result (Option A)
execute exchange boundary c v parse region product =
    elim (exchange (host region) (command_text c v product)) [
      | none ↦ ok none
      | some response ↦ parse_answer boundary v parse response
    ]
