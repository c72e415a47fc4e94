-- ===== src/Net/Transfer/Laws.antt =====
-- A transfer that breaks off goes on, at the next server, where it broke off.
use tactmon.Prelude.{
  ℕ, ◌+◌, ◌-◌, ◌%◌, ◌≤◌, ◌<◌, ◌≡◌, refl, ap, ◌∙◌, inl, inr, Bool, true, false, some, List, [], ◌∷◌,
  ◌++◌, arith, Bytes, ◌==◌, Bool-cases, codes, All, size_mod,
}
use mathlib.Core.List.{append_assoc}
use tactmon.Net.Transfer.{
  range_text, Position, advance, advance_all, Outcome, unresolved, unreachable, refused,
  interrupted, complete, Request, Attempt, request_of, after_outcome, fetch_all,
}

unfoldable pub sum : List ℕ → ℕ
sum [] = 0
sum (n ∷ ns) = n + sum ns

-- Parts of a range that does not wrap around.
advance_all_lem :
    (ns : List ℕ) (offset len : ℕ)
    → sum ns ≤ len
    → offset + len < size_mod
    → advance_all ns (record { offset = offset; len = len })
      ≡ record { offset = offset + sum ns; len = len - sum ns }
unfolding advance_all advance sum
advance_all_lem [] offset len h b =
    let e : offset + 0 ≡ offset = omega arith in
    let f : len - 0 ≡ len = omega arith in rw (e, f) refl
advance_all_lem (n ∷ ns) offset len h b =
    let e : (offset + n) % size_mod ≡ offset + n = omega arith in
    let f : (len + size_mod - n) % size_mod ≡ len - n = omega arith in
    let g : offset + n + sum ns ≡ offset + (n + sum ns) = omega arith in
    let k : len - n - sum ns ≡ len - (n + sum ns) = omega arith in
    rw (e, f)
      (advance_all_lem ns (offset + n) (len - n) (omega arith) (omega arith) ∙ rw (g, k) refl)

-- What an attempt brings in.
unfoldable pub received : Outcome → ℕ
unfolding sum
received unresolved = 0
received unreachable = 0
received refused = 0
received (interrupted ns) = sum ns
received (complete ns) = sum ns

-- Whether the host of an attempt is resolved.
unfoldable pub is_resolved : Outcome → Bool
is_resolved unresolved = false
is_resolved unreachable = true
is_resolved refused = true
is_resolved (interrupted ns) = true
is_resolved (complete ns) = true

unfoldable pub received_all : List Attempt → ℕ
unfolding received
received_all [] = 0
received_all (a ∷ attempts) = received a.outcome + received_all attempts

-- The range that is left once `k` bytes have come in.
abbrev rest_from : ℕ → ℕ → ℕ → Position
rest_from k offset len = record { offset = offset + k; len = len - k }

-- An attempt that leaves something to read.
after-left :
    (o : Outcome) (r : Request) (rest : Position → List Request × Position) (offset len : ℕ)
    → is_resolved o ≡ true
    → received o < len
    → offset + len < size_mod
    → (sent : List Request) × (after_outcome o r rest (record { offset = offset; len = len }) ≡ (
      sent ++ (rest (rest_from (received o) offset len)).0,
      (rest (rest_from (received o) offset len)).1,
    ))
unfolding after_outcome received is_resolved
after-left unresolved r rest offset len q h b = cc
after-left unreachable r rest offset len q h b =
    let e : offset + 0 ≡ offset = omega arith in
    let f : len - 0 ≡ len = omega arith in ([], rw (e, f) refl)
after-left refused r rest offset len q h b =
    let e : offset + 0 ≡ offset = omega arith in
    let f : len - 0 ≡ len = omega arith in (r ∷ [], rw (e, f) refl)
after-left (interrupted ns) r rest offset len q h b =
    (r ∷ [], rw (advance_all_lem ns offset len (omega arith) b) refl)
after-left (complete ns) r rest offset len q h b =
    let left : (len - sum ns == 0) ≡ false = ground arith in
    (r ∷ [], rw (advance_all_lem ns offset len (omega arith) b) (rw left refl))

fetch-left :
    (decimal : ℕ → Bytes) (before after : List Attempt) (offset len : ℕ)
    → All (λ a. is_resolved a.outcome ≡ true) before
    → received_all before < len
    → offset + len < size_mod
    → (sent : List Request) × (fetch_all decimal
          (before ++ after)
          (record { offset = offset; len = len })
        ≡ (
          sent ++ (fetch_all decimal after (rest_from (received_all before) offset len)).0,
          (fetch_all decimal after (rest_from (received_all before) offset len)).1,
        ))
unfolding fetch_all received_all
fetch-left decimal [] after offset len q h b =
    let e : offset + 0 ≡ offset = omega arith in
    let f : len - 0 ≡ len = omega arith in ([], rw (e, f) refl)
fetch-left decimal (a ∷ before) after offset len (q, qs) h b =
    let k = received a.outcome in
    let one =
      after-left a.outcome (request_of decimal a (record { offset = offset; len = len }))
        (fetch_all decimal (before ++ after)) offset len q (omega arith) b in
    let later =
      fetch-left decimal before after (offset + k) (len - k) qs (omega arith) (omega arith) in
    let e : offset + k + received_all before ≡ offset + (k + received_all before) = omega arith in
    let f : len - k - received_all before ≡ len - (k + received_all before) = omega arith in
    (
      one.0 ++ later.0,
      one.1
          ∙ rw later.1 (
              rw
                (
                  e,
                  f,
                  append_assoc one.0 later.0
                      (fetch_all decimal after (rest_from (k + received_all before) offset len)).0,
                )
                refl),
    )

-- Whether an attempt sends its request.
unfoldable pub is_sent : Outcome → Bool
is_sent unresolved = false
is_sent unreachable = false
is_sent refused = true
is_sent (interrupted ns) = true
is_sent (complete ns) = true

pub after-sent :
    (o : Outcome) (r : Request) (rest : Position → List Request × Position) (p : Position)
    → is_sent o ≡ true
    → (later : List Request) × ((after_outcome o r rest p).0 ≡ r ∷ later)
unfolding after_outcome is_sent
after-sent unresolved r rest p h = cc
after-sent unreachable r rest p h = cc
after-sent refused r rest p h = (_, refl)
after-sent (interrupted ns) r rest p h = (_, refl)
after-sent (complete ns) r rest p h = elim (Bool-cases ((advance_all ns p).len == 0)) [
  | inl e ↦ ([], rw e refl)
  | inr e ↦ ((rest (advance_all ns p)).0, rw e refl)
]

-- For a range that does not wrap around: when the attempts before one have brought in `k` bytes,
-- fewer than the range has, the attempt asks for the bytes from `k` behind the start to the same
-- end, whatever the attempts before it came to, as long as their hosts were resolved.
pub fetch_all-resumes :
    (decimal : ℕ → Bytes) (before after : List Attempt) (a : Attempt) (offset len k : ℕ)
    → All (λ x. is_resolved x.outcome ≡ true) before
    → received_all before ≡ k
    → k < len
    → offset + len < size_mod
    → is_sent a.outcome ≡ true
    → (earlier later : List Request) × ((fetch_all decimal
          (before ++ (a ∷ after))
          (record { offset = offset; len = len })).0
        ≡ earlier
          ++ (record {
            host = a.host;
            path = a.path;
            range = some (decimal (offset + k) ++ (codes "-" ++ decimal (offset + len - 1)));
          }
              ∷ later))
unfolding fetch_all request_of range_text
fetch_all-resumes decimal before after a offset len k q e h b sent =
    let p = rest_from k offset len in
    let left = fetch-left decimal before (a ∷ after) offset len q (omega (arith, e)) b in
    let own = after-sent a.outcome (request_of decimal a p) (fetch_all decimal after) p sent in
    let some_left : (len - k == 0) ≡ false = ground arith in
    let last : ((offset + k + (len - k)) % size_mod + size_mod - 1) % size_mod ≡ offset + len - 1 =
      omega arith in
    (
      left.0,
      own.0,
      ap (λ out. out.0) left.1
          ∙ ap (λ k. left.0 ++ (fetch_all decimal (a ∷ after) (rest_from k offset len)).0) e
          ∙ ap (λ rs. left.0 ++ rs) (own.1 ∙ rw (some_left, last) refl),
    )
