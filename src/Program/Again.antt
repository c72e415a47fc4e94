-- ===== src/Program/Again.antt =====
-- Versions that come a second time.
use tactmon.Prelude.{
  ◌≡◌, refl, ap, ◌∙◌, ◌≢◌, inl, inr, true, ◌&&◌, none, some, List, [], ◌∷◌, arith, Bytes,
  if◌then◌else◌, Option-cases, equal, equal_iff, All,
}
use tactmon.Ribbit.Records.{VersionsRecord}
use tactmon.Program.{
  Resolved, Resolution, thrown, missing, named, completes, BuildEntity, NewBuild, Builds, store,
  database_record, on_version, on_versions,
}

-- An insert of a build that is not there gives a row, which the select gives from then on for the
-- name and the region; other builds stay.
pub record Inserts {T : Type 0} (builds : Builds T) : Type 0 where
  pub inserted :
      (region product name build cdn : Bytes) (t : T)
      → builds.get_by_build_name name region t ≡ none
      → (row : BuildEntity) × ((builds.insert region product name build cdn t).0 ≡ some row)
        × ((n r : Bytes)
            → builds.get_by_build_name n r (builds.insert region product name build cdn t).1 ≡ (
                if equal name n && equal region r
                then some row
                else builds.get_by_build_name n r t))

-- A pass resolves the version to a configuration of the name.
pub data IsNamed (w : VersionsRecord) (name : Bytes) : List Resolved → Type 0 where
  here : {vs : List Resolved} → IsNamed w name ((w, named name) ∷ vs)
  there :
      {vs : List Resolved} (v : VersionsRecord) (r : Resolution)
      → IsNamed w name vs
      → IsNamed w name ((v, r) ∷ vs)

-- Each version that the second pass resolves, the first resolves, to the same name.
abbrev pub AreNamed : List Resolved → List Resolved → Type 0
AreNamed vs = All (λ x. (name : Bytes) → x.1 ≡ named name → IsNamed x.0 name vs)

module _ {T : Type 0} (builds : Builds T) (law : Inserts builds) where
  -- The select gives a row for the name and the region of the version.
  abbrev IsKnown : VersionsRecord → Bytes → T → Type 0
  IsKnown v name t = builds.get_by_build_name name v.region t ≢ none

  -- A pass that resolves a version has it known.
  abbrev AreKnown : T → List Resolved → Type 0
  AreKnown t = All (λ x. (name : Bytes) → x.1 ≡ named name → IsKnown x.0 name t)

  database_record-keeps :
      (product name n r : Bytes) (v : VersionsRecord) (t : T)
      → builds.get_by_build_name n r t ≢ none
      → builds.get_by_build_name n r (database_record builds product name v t).1 ≢ none
  unfolding database_record
  database_record-keeps product name n r v t h =
      elim (Option-cases (builds.get_by_build_name name v.region t)) [
        | inr (row, e) ↦ rw (e, database_record) h
        | inl e ↦
            let i = law.inserted v.region product name v.build_config v.cdn_config t e in
            let held = i.2 n r in rw (e, database_record) (ground (arith, held, h))
      ]

  database_record-finds :
      (product name : Bytes) (v : VersionsRecord) (t : T)
      → builds.get_by_build_name name v.region (database_record builds product name v t).1 ≢ none
  unfolding database_record
  database_record-finds product name v t =
      elim (Option-cases (builds.get_by_build_name name v.region t)) [
        | inr (row, e) ↦ rw (e, database_record) (ground (arith, e))
        | inl e ↦
            let i = law.inserted v.region product name v.build_config v.cdn_config t e in
            let held = i.2 name v.region in
            let same = (equal_iff name name).1 refl in
            let here = (equal_iff v.region v.region).1 refl in
            rw (e, database_record) (ground (arith, held, same, here))
      ]

  on_version-skips :
      (product : Bytes) (v : VersionsRecord) (name : Bytes) (bs : List NewBuild) (t : T)
      → IsKnown v name t
      → on_version builds product v name (bs, t) ≡ (bs, t)
  unfolding on_version database_record store
  on_version-skips product v name bs t h =
      elim (Option-cases (builds.get_by_build_name name v.region t)) [
        | inl e ↦ absurd (h e)
        | inr (row, e) ↦ rw (e, on_version, database_record) refl
      ]

  on_versions-keeps :
      (product : Bytes) (w : VersionsRecord) (other : Bytes) (vs : List Resolved)
      (s : List NewBuild × T)
      → IsKnown w other s.1
      → IsKnown w other (on_versions builds product vs s).1
  unfolding on_versions on_version
  on_versions-keeps product w other [] s h = h
  on_versions-keeps product w other ((v, thrown) ∷ vs) s h = h
  on_versions-keeps product w other ((v, missing) ∷ vs) s h =
      on_versions-keeps product w other vs s h
  on_versions-keeps product w other ((v, named name) ∷ vs) (bs, t) h =
      on_versions-keeps product w other vs (on_version builds product v name (bs, t))
        (database_record-keeps product name other w.region v t h)

  on_versions-makes :
      (product : Bytes) (w : VersionsRecord) (other : Bytes) (vs : List Resolved)
      (s : List NewBuild × T)
      → completes vs ≡ true
      → IsNamed w other vs
      → IsKnown w other (on_versions builds product vs s).1
  unfolding on_versions on_version completes
  on_versions-makes product w other _ (bs, t) c (here {vs = vs}) =
      on_versions-keeps product w other vs (on_version builds product w other (bs, t))
        (database_record-finds product other w t)
  on_versions-makes product w other _ s c (there {vs = vs} v thrown n) = cc
  on_versions-makes product w other _ s c (there {vs = vs} v missing n) =
      on_versions-makes product w other vs s c n
  on_versions-makes product w other _ s c (there {vs = vs} v (named name) n) =
      on_versions-makes product w other vs (on_version builds product v name s) c n

  all_known :
      (product : Bytes) (vs ws : List Resolved) (s : List NewBuild × T)
      → completes vs ≡ true
      → AreNamed vs ws
      → AreKnown (on_versions builds product vs s).1 ws
  all_known product vs [] s c n = tt
  all_known product vs ((w, r) ∷ ws) s c (n, ns) =
      (λ name e. on_versions-makes product w name vs s c (n name e), all_known product vs ws s c ns)

  on_versions-skips :
      (product : Bytes) (vs : List Resolved) (bs : List NewBuild) (t : T)
      → AreKnown t vs
      → on_versions builds product vs (bs, t) ≡ (bs, t)
  unfolding on_versions
  on_versions-skips product [] bs t h = refl
  on_versions-skips product ((v, thrown) ∷ vs) bs t h = refl
  on_versions-skips product ((v, missing) ∷ vs) bs t (h, hs) = on_versions-skips product vs bs t hs
  on_versions-skips product ((v, named name) ∷ vs) bs t (h, hs) =
      ap (on_versions builds product vs) (on_version-skips product v name bs t (h name refl))
      ∙ on_versions-skips product vs bs t hs

  -- Versions are taken once. After a pass in which no resolution throws, a second pass, for the same
  -- product or another, changes neither the builds nor the table, when each version that it resolves
  -- was resolved by the first pass, to a configuration of the same name, and the table of builds takes
  -- what is inserted into it. The second pass may fail to resolve some, or break off.
  pub on_versions-again :
      (product other : Bytes) (vs ws : List Resolved) (s : List NewBuild × T)
      → completes vs ≡ true
      → AreNamed vs ws
      → on_versions builds other ws (on_versions builds product vs s)
        ≡ on_versions builds product vs s
  on_versions-again product other vs ws s c n =
      let after = on_versions builds product vs s in
      on_versions-skips other ws after.0 after.1 (all_known product vs ws s c n)
