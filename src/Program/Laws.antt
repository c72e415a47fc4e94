-- ===== src/Program/Laws.antt =====
-- The builds that the listener collects.
use tactmon.Prelude.{ℕ, ◌≢◌, List, [], ◌∷◌, Bytes}
use tactmon.Ribbit.Records.{VersionsRecord}
use tactmon.Program.{BuildEntity, NewBuild, Builds, add_build}

-- No build has the id.
abbrev IsFree : ℕ → List NewBuild → Type 0
IsFree id [] = Unit {0}
IsFree id (b ∷ bs) = (b.configuration.id ≢ id) × IsFree id bs

abbrev pub AreApart : List NewBuild → Type 0
AreApart [] = Unit {0}
AreApart (b ∷ bs) = IsFree b.configuration.id bs × AreApart bs

module _ {T : Type 0} (builds : Builds T) where
  -- A version adds a row to the builds, or leaves them.
  data Added (v : VersionsRecord) (bs : List NewBuild) : List NewBuild → Type 0 where
    left : Added v bs bs
    added : (row : BuildEntity) (name : Bytes) → Added v bs (add_build row name v bs)
