-- ===== src/Tests/Listeners.antt =====
-- The listener over a table of builds that is a list of rows.
use tactmon.Prelude.{
  ◌≡◌, refl, ◌&&◌, Option, none, some, List, [], ◌∷◌, Bytes, if◌then◌else◌, length, codes, equal,
}
use mathlib.Core.Path.{subst}
use tactmon.Ribbit.Records.{VersionsRecord}
use tactmon.Program.{
  Resolved, thrown, missing, named, completes, BuildEntity, NewBuild, Builds, on_versions,
}
use tactmon.Program.Again.{Inserts, IsNamed, here, on_versions-again}

-- Name, region and row.
abbrev Table : Type 0
Table = List (Bytes × Bytes × BuildEntity)

abbrev find_row : Bytes → Bytes → Table → Option BuildEntity
find_row name region [] = none
find_row name region ((n, r, row) ∷ rows) =
    if equal n name && equal r region then some row else find_row name region rows

abbrev row_of : Bytes → Bytes → Bytes → Table → BuildEntity
row_of name build cdn rows = record {
  id = length rows;
  build_name = name;
  build_config = build;
  cdn_config = cdn;
}

abbrev builds : Builds Table
builds = record {
  get_by_build_name = find_row;
  insert = λ region product name build cdn rows.
      (some (row_of name build cdn rows), (name, region, row_of name build cdn rows) ∷ rows);
}

builds-Inserts : Inserts builds
builds-Inserts = record {
  inserted = λ region product name build cdn t e. (row_of name build cdn t, refl, λ n r. refl);
}

abbrev version : Bytes → VersionsRecord
version region = record {
  region = region;
  build_config = codes "b1";
  cdn_config = codes "c1";
  key_ring = [];
  build_id = 1;
  versions_name = codes "1.0";
  product_config = [];
}

abbrev old : NewBuild
old = record {
  regions = codes "eu" ∷ [];
  configuration = record {
    id = 40;
    build_name = codes "build 0";
    build_config = codes "b0";
    cdn_config = codes "c0";
  };
}

abbrev us : VersionsRecord
us = version (codes "us")

abbrev eu : VersionsRecord
eu = version (codes "eu")

abbrev versions : List Resolved
versions = (us, named (codes "build 1")) ∷ (eu, missing) ∷ (us, named (codes "build 1")) ∷ []

-- The second pass breaks off at a version whose resolution throws.
abbrev again : List Resolved
again = (eu, missing) ∷ (us, named (codes "build 1")) ∷ (eu, thrown) ∷ []

us_named : (name : Bytes) → named (codes "build 1") ≡ named name → IsNamed us name versions
us_named name e =
    let same : codes "build 1" ≡ name = cc in subst (λ n. IsNamed us n versions) same here

on_versions-again_example :
    on_versions builds
      (codes "wowt")
      again
      (on_versions builds (codes "wow") versions (old ∷ [], []))
    ≡ on_versions builds (codes "wow") versions (old ∷ [], [])
unfolding completes
on_versions-again_example =
    on_versions-again builds builds-Inserts (codes "wow") (codes "wowt") versions again
      (old ∷ [], []) refl ((λ name e. cc), (us_named, ((λ name e. cc), tt)))
