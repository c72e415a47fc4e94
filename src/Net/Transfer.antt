-- ===== src/Net/Transfer.antt =====
-- src/tactmon/net/Session.cpp: the second part of `ProcessRequest`, which asks one server after the
-- other for what is left of a range, and `CollectAvailableCDNs`. What the network does is given:
-- which server answers to a path, and how each attempt to read from one ends.
pub mod Laws
pub mod Whole
use tactmon.Prelude.{
  ◌>>=◌, ℕ, Bool, Option, none, some, List, [], ◌∷◌, ◌++◌, Bytes, ltb, ◌==◌, if◌then◌else◌, length,
  take, drop, codes, equal, throws, Result, ok, fault, add64, sub64,
}
use tactmon.Ribbit.Records.{CdnsRecord}

-- `fmt::format("{}-{}", offset, offset + length - 1)`, for a length that is not 0.
unfoldable pub range_text : (ℕ → Bytes) → ℕ → ℕ → Option Bytes
range_text decimal offset len =
    if len == 0
    then none
    else some (decimal offset ++ (codes "-" ++ decimal (sub64 (add64 offset len) 1)))

-- `fmt::format("/{}/data/{}/{}/{}", ...)`: `substr(2, 2)` throws on a shorter name.
unfoldable pub remote_path : CdnsRecord → Bytes → Result Bytes
remote_path cdn archive =
    if ltb (length archive) 2
    then fault throws
    else ok (
        codes "/"
        ++ (cdn.path
            ++ (codes "/data/"
                ++ (take 2 archive
                    ++ (codes "/" ++ (take 2 (drop 2 archive) ++ (codes "/" ++ archive)))))))

-- `emplace` of the path of a server: the first one stays.
unfoldable pub emplace : Bytes → Bytes → List (Bytes × Bytes) → List (Bytes × Bytes)
emplace host path [] = (host, path) ∷ []
emplace host path ((h, p) ∷ found) =
    let rest = emplace host path found in if equal h host then (h, p) ∷ found else (h, p) ∷ rest

module _ (answers : Bytes → Bytes → Bool) where
  unfoldable pub collect_hosts : Bytes → List Bytes → List (Bytes × Bytes) → List (Bytes × Bytes)
  unfolding emplace
  collect_hosts path [] found = found
  collect_hosts path (host ∷ hosts) found =
      collect_hosts path hosts (if answers host path then emplace host path found else found)

  -- `CollectAvailableCDNs`, from what was found so far.
  unfoldable pub collect_available :
      Bytes → List CdnsRecord → List (Bytes × Bytes) → Result (List (Bytes × Bytes))
  unfolding collect_hosts remote_path
  collect_available archive [] found = ok found
  collect_available archive (cdn ∷ cdns) found = do
    path ← remote_path cdn archive
    collect_available archive cdns (collect_hosts path cdn.hosts found)

-- `params.Offset` and `params.Length`.
pub record Position : Type 0 where
  pub offset : ℕ
  pub len : ℕ

-- The feedback of the transform on the bytes that it was given.
unfoldable pub advance : ℕ → Position → Position
advance n p = record { offset = add64 p.offset n; len = sub64 p.len n }

unfoldable pub advance_all : List ℕ → Position → Position
unfolding advance
advance_all [] p = p
advance_all (n ∷ ns) p = advance_all ns (advance n p)

-- How an attempt ends: with a host that is not resolved, which throws; with no request sent; with a
-- request that gives no data, since it fails or is answered with 404; with data that breaks off; with
-- all data. The numbers are the sizes of the parts in which data comes in.
pub data Outcome : Type 0 where
  unresolved unreachable refused : Outcome
  interrupted complete : List ℕ → Outcome

pub record Request : Type 0 where
  pub host : Bytes
  pub path : Bytes
  pub range : Option Bytes

pub record Attempt : Type 0 where
  pub host : Bytes
  pub path : Bytes
  pub outcome : Outcome

module _ (decimal : ℕ → Bytes) where
  unfoldable pub request_of : Attempt → Position → Request
  unfolding range_text
  request_of a p = record {
    host = a.host;
    path = a.path;
    range = range_text decimal p.offset p.len;
  }

-- What is done by the outcome of an attempt: its request, and the rest of the loop. The exception of
-- a host that is not resolved leaves the loop with the requests so far, and the position.
unfoldable pub after_outcome :
    Outcome → Request → (Position → List Request × Position) → Position → List Request × Position
unfolding advance_all
after_outcome unresolved r rest p = ([], p)
after_outcome unreachable r rest p = rest p
after_outcome refused r rest p = (r ∷ (rest p).0, (rest p).1)
after_outcome (interrupted ns) r rest p =
    (r ∷ (rest (advance_all ns p)).0, (rest (advance_all ns p)).1)
after_outcome (complete ns) r rest p =
    let q = advance_all ns p in if q.len == 0 then (r ∷ [], q) else (r ∷ (rest q).0, (rest q).1)

-- The loop over the servers: the requests, and the position in the end.
unfoldable pub fetch_all : (ℕ → Bytes) → List Attempt → Position → List Request × Position
unfolding after_outcome request_of
fetch_all decimal [] p = ([], p)
fetch_all decimal (a ∷ attempts) p =
    after_outcome a.outcome (request_of decimal a p) (fetch_all decimal attempts) p
