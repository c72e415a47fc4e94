-- ===== src/Tests/Downloads.antt =====
-- Downloads over a file system that is a map from paths.
use tactmon.Prelude.{
  ℕ, ◌≡◌, refl, true, Option, none, some, [], ◌∷◌, ◌++◌, Bytes, ◌==◌, if◌then◌else◌, length, codes,
  equal, equal_iff, throws, Result, ok, fault,
}
use tactmon.Tact.Cache.{FileSystem, get_absolute_path, without_separator, caught, resolve}
use tactmon.Download.{whole_task, Request, request_of, Exchange, answered, run_file}
use tactmon.Download.Laws.{run_file-resolve}

abbrev Files : Type 0
Files = Bytes → Option Bytes

abbrev files : FileSystem Files
files = record {
  same = equal;
  content = λ path f. f path;
  write = λ path text f other. if equal path other then some text else f other;
  remove = λ path f other. if equal path other then none else f other;
  same-refl = λ path. (equal_iff path path).1 refl;
  content-write = λ path other text f. refl;
  content-remove = λ path other f. refl;
}

abbrev join : Bytes → Bytes → Bytes
join root relative = root ++ (b'/' ∷ relative)

abbrev empty : Files
empty path = none

abbrev decimal : ℕ → Bytes
decimal n = n ∷ []

-- The parser refuses what does not start with the byte 1.
abbrev parser : Bytes → Result (Option ℕ)
parser [] = fault throws
parser (b ∷ bs) = if b == 1 then ok (some (length bs)) else fault throws

abbrev network : Request → Exchange
network r = answered (if equal r.target (codes "/data") then 200 else 404) (1 ∷ 2 ∷ 3 ∷ []) true

run_file-resolve_example :
    let (result, after) =
      run_file files join
        (codes "root")
        network
        decimal
        true
        (codes "host")
        (whole_task (codes "/data"))
        empty in
    (result ≡ ok (some (1 ∷ 2 ∷ 3 ∷ [])))
    × (resolve files join (codes "root") (codes "/data") parser after ≡ ok (some 2, after))
    × (after (codes "root/other") ≡ none)
unfolding request_of whole_task get_absolute_path without_separator caught equal
run_file-resolve_example =
    run_file-resolve files join (codes "root") network decimal (codes "host") (codes "root/other")
      (whole_task (codes "/data")) empty 200 (1 ∷ 2 ∷ 3 ∷ []) true parser refl refl
