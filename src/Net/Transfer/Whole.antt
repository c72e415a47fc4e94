-- ===== src/Net/Transfer/Whole.antt =====
-- What happens to a whole file, which is asked for by a length of 0.
use tactmon.Prelude.{
  ℕ, ◌+◌, ◌-◌, ◌%◌, ◌<◌, ◌≡◌, refl, ap, ◌∙◌, ◌≢◌, true, false, none, some, List, [], ◌∷◌, ◌++◌,
  arith, Bytes, ◌==◌, codes, size_mod,
}
use tactmon.Net.Transfer.{
  range_text, Position, advance, advance_all, complete, Request, Attempt, request_of, after_outcome,
  fetch_all,
}
use tactmon.Net.Transfer.Laws.{sum, is_sent, after-sent}

-- What is left of a length of 0 after some bytes: the length wraps around.
advance_all-zero :
    (ns : List ℕ) (p : Position)
    → p.len < size_mod
    → sum ns < size_mod
    → (advance_all ns p).len ≡ (p.len + size_mod - sum ns) % size_mod
unfolding advance_all advance sum
advance_all-zero [] p h b = omega arith
advance_all-zero (n ∷ ns) p h b =
    advance_all-zero ns
      (record { offset = (p.offset + n) % size_mod; len = (p.len + size_mod - n) % size_mod })
      (omega arith) (omega arith)
    ∙ omega arith

-- What comes in moves the offset.
advance_all-offset :
    (ns : List ℕ) (p : Position)
    → p.offset + sum ns < size_mod
    → (advance_all ns p).offset ≡ p.offset + sum ns
unfolding advance_all advance sum
advance_all-offset [] p b = omega arith
advance_all-offset (n ∷ ns) p b =
    advance_all-offset ns
      (record { offset = (p.offset + n) % size_mod; len = (p.len + size_mod - n) % size_mod })
      (omega arith)
    ∙ omega arith

-- The end of an attempt that brings in all data, where the length that is left is not 0.
complete-goes_on :
    (ns : List ℕ) (r : Request) (rest : Position → List Request × Position) (p : Position)
    → (advance_all ns p).len ≢ 0
    → (after_outcome (complete ns) r rest p).0 ≡ r ∷ (rest (advance_all ns p)).0
unfolding after_outcome
complete-goes_on ns r rest p h =
    let more : ((advance_all ns p).len == 0) ≡ false = ground (arith, h) in rw more refl

-- A whole file, asked for by an offset and a length of 0, is not recognised as complete: once all of
-- it has come in from a server, its request without a range is followed by one to the next server
-- for the bytes behind it, up to the largest number of 64 bits.
pub fetch_all-whole :
    (decimal : ℕ → Bytes) (host path : Bytes) (ns : List ℕ) (next : Attempt) (after : List Attempt)
    → 0 < sum ns
    → sum ns < size_mod
    → is_sent next.outcome ≡ true
    → let p : Position = record { offset = 0; len = 0 } in
      let a : Attempt = record { host = host; path = path; outcome = complete ns } in
      (later : List Request) × ((fetch_all decimal (a ∷ next ∷ after) p).0
        ≡ record { host = host; path = path; range = none }
          ∷ record {
            host = next.host;
            path = next.path;
            range = some (decimal (sum ns) ++ (codes "-" ++ decimal (size_mod - 1)));
          }
          ∷ later)
unfolding fetch_all request_of range_text
fetch_all-whole decimal host path ns next after pos b sent =
    let p : Position = record { offset = 0; len = 0 } in
    let q = advance_all ns p in
    let first : Request = record { host = host; path = path; range = none } in
    let e : q.len ≡ (0 + size_mod - sum ns) % size_mod = advance_all-zero ns p (omega arith) b in
    let left : q.len ≢ 0 = λ z. absurd (omega (arith, e, z)) in
    let more : (q.len == 0) ≡ false = ground (arith, left) in
    let start : q.offset ≡ sum ns = omega (arith, advance_all-offset ns p (omega arith)) in
    let last : ((q.offset + q.len) % size_mod + size_mod - 1) % size_mod ≡ size_mod - 1 =
      omega (arith, e, start) in
    let asked : range_text decimal q.offset q.len
        ≡ some (decimal (sum ns) ++ (codes "-" ++ decimal (size_mod - 1))) =
      rw (more, last, start) refl in
    let own =
      after-sent next.outcome (request_of decimal next q) (fetch_all decimal after) q sent in
    (
      own.0,
      complete-goes_on ns first (fetch_all decimal (next ∷ after)) p left
          ∙ ap (λ rs. first ∷ rs) own.1
          ∙ ap
              (λ range.
                first ∷ record { host = next.host; path = next.path; range = range } ∷ own.0)
              asked,
    )
