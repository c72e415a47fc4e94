-- ===== src/Program.antt =====
-- src/tactmon/Program.cpp: what the listener of the monitor does with the versions of a product. The
-- table of builds is a parameter; how each resolution of a configuration ends is an argument.
pub mod Again
pub mod Laws
use tactmon.Prelude.{
  ℕ, Bool, true, false, not, ◌&&◌, ◌||◌, Option, none, some, List, [], ◌∷◌, ◌++◌, Bytes, ◌==◌,
  if◌then◌else◌, equal,
}
use tactmon.Ribbit.Records.{VersionsRecord}
use tactmon.Tact.Data.FileLocation.{ArchiveFileLocation}

-- `build::Entity`, less the time and the members that the listener does not read.
pub record BuildEntity : Type 0 where
  pub id : ℕ
  pub build_name : Bytes
  pub build_config : Bytes
  pub cdn_config : Bytes

-- `NewBuild`; its configuration always has a value.
pub record NewBuild : Type 0 where
  pub regions : List Bytes
  pub configuration : BuildEntity

-- `db::repository::Build`: GetByBuildName of a name and a region, and Insert of a region, a product,
-- a name, a build configuration and a server configuration, which gives the row.
pub record Builds (T : Type 0) : Type 0 where
  pub get_by_build_name : Bytes → Bytes → T → Option BuildEntity
  pub insert : Bytes → Bytes → Bytes → Bytes → Bytes → T → Option BuildEntity × T

-- The test of `find_if`: the name is that of the configuration of the version.
unfoldable pub is_same : BuildEntity → Bytes → VersionsRecord → NewBuild → Bool
is_same row name version build =
    (build.configuration.id == row.id)
    || (equal build.configuration.build_name name
        && (equal build.configuration.cdn_config version.cdn_config
            && equal build.configuration.build_config version.build_config))

-- A new row: its region goes to the first build that is the same, or to a build of its own.
unfoldable pub add_build : BuildEntity → Bytes → VersionsRecord → List NewBuild → List NewBuild
unfolding is_same
add_build row name version [] = record { regions = version.region ∷ []; configuration = row } ∷ []
add_build row name version (b ∷ bs) =
    let rest = add_build row name version bs in
    if is_same row name version b
    then record b { regions = b.regions ++ (version.region ∷ []) } ∷ bs
    else b ∷ rest

-- A version without a row changes no build.
unfoldable pub store : Option BuildEntity → Bytes → VersionsRecord → List NewBuild → List NewBuild
unfolding add_build
store none name version bs = bs
store (some row) name version bs = add_build row name version bs

-- The builds that `LoadConfiguration` is called with, each with the name of the product.
unfoldable pub loads : Bytes → List NewBuild → List (Bytes × BuildEntity)
loads product [] = []
loads product (b ∷ bs) = (product, b.configuration) ∷ loads product bs

-- How `ResolveConfiguration` of a version ends, which asks the cache and the network: it throws, it
-- gives nothing, or it gives a configuration with a name of its build.
pub data Resolution : Type 0 where
  thrown missing : Resolution
  named : Bytes → Resolution

-- A version, and how the resolution of its configuration ends in the pass over the versions.
abbrev pub Resolved : Type 0
Resolved = VersionsRecord × Resolution

-- Whether no resolution throws.
unfoldable pub completes : List Resolved → Bool
completes [] = true
completes ((v, thrown) ∷ vs) = false
completes ((v, missing) ∷ vs) = completes vs
completes ((v, named name) ∷ vs) = completes vs

module _ {T : Type 0} (builds : Builds T) where
  -- The lambda that gives `databaseRecord`: a row that is there already gives nothing.
  unfoldable pub database_record : Bytes → Bytes → VersionsRecord → T → Option BuildEntity × T
  database_record product name version table =
      elim (builds.get_by_build_name name version.region table) [
        | some row ↦ (none, table)
        | none ↦
            builds.insert version.region product name version.build_config version.cdn_config table
      ]

  unfoldable pub on_version : Bytes → VersionsRecord → Bytes → List NewBuild × T → List NewBuild × T
  unfolding database_record store
  on_version product version name (new_builds, table) =
      let found = database_record product name version table in
      (store found.0 name version new_builds, found.1)

  -- The loop over the versions; one whose resolution throws ends it.
  unfoldable pub on_versions : Bytes → List Resolved → List NewBuild × T → List NewBuild × T
  unfolding on_version
  on_versions product [] s = s
  on_versions product ((v, thrown) ∷ vs) s = s
  on_versions product ((v, missing) ∷ vs) s = on_versions product vs s
  on_versions product ((v, named name) ∷ vs) s =
      on_versions product vs (on_version product v name s)

  -- The listener: `new_builds` is the vector that it has captured. What is given are the calls of
  -- `LoadConfiguration`, which are made as long as none throws, and the state. `aware` is `IsAwareOf`,
  -- `served` whether there is a server, `answered` whether the servers of the product could be asked
  -- for. An exception of the loop leaves the listener, with what is in the vector and the table.
  unfoldable pub on_product :
      Bool
      → Bool
      → Bool
      → Option (List Resolved)
      → Bytes
      → List NewBuild × T
      → List (Bytes × BuildEntity) × (List NewBuild × T)
  unfolding on_versions loads completes
  on_product aware served answered versions product s =
      if not aware then ([], s) else elim versions [
        | none ↦ ([], s)
        | some records ↦
            let after = on_versions product records s in
            if not answered
            then ([], s)
            else ((if completes records && served then loads product after.0 else []), after)
      ]
