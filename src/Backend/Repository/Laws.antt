-- ===== src/Backend/Repository/Laws.antt =====
-- The copy of a table: what it holds behind each refresh.
use tactmon.Prelude.{
  ℕ, ◌+◌, ◌≤◌, ◌<◌, ◌≡◌, refl, ap, ◌∙◌, ◌↔◌, inl, inr, Bool, true, false, Option, none, some, List,
  [], ◌∷◌, arith, ltb, ◌==◌, if◌then◌else◌, Bool-cases, Result, ok, fault,
}
use mathlib.Core.Path.{subst}
use tactmon.Backend.Repository.{
  Transaction, failed, committed, execute, Repository, find_key, emplace, get, any_value, any, fill,
  load_from_db, refresh, new_repository,
}

module _ {ℓ} {E : Type ℓ} where
  -- The keys of a storage rise.
  abbrev IsAbove : ℕ → List (ℕ × E) → Type 0
  IsAbove k [] = Unit {0}
  IsAbove k ((j, e) ∷ rest) = k < j × IsAbove k rest

  abbrev pub IsSorted : List (ℕ × E) → Type 0
  IsSorted [] = Unit {0}
  IsSorted ((k, e) ∷ rest) = IsAbove k rest × IsSorted rest

  -- The first entity of a primary key, in the order of the rows.
  unfoldable pub first_of : (E → ℕ) → ℕ → List E → Option E
  first_of key id [] = none
  first_of key id (e ∷ es) = if key e == id then some e else first_of key id es

  abbrev or_else : Option E → Option E → Option E
  or_else (some e) other = some e
  or_else none other = other

  IsAbove-lower : (j k : ℕ) (s : List (ℕ × E)) → j < k → IsAbove k s → IsAbove j s
  IsAbove-lower j k [] h a = a
  IsAbove-lower j k ((i, e) ∷ s) h a = (omega (arith, a.0), IsAbove-lower j k s h a.1)

  emplace-IsAbove :
      (j id : ℕ) (e : E) (s : List (ℕ × E)) → j < id → IsAbove j s → IsAbove j (emplace id e s)
  unfolding emplace
  emplace-IsAbove j id e [] h a = (h, a)
  emplace-IsAbove j id e ((k, old) ∷ s) h a =
      let rest = emplace-IsAbove j id e s h a.1 in
      elim (Bool-cases (ltb id k)) [
        | inl l ↦ rw l (h, a)
        | inr l ↦ rw l (elim (Bool-cases (id == k)) [ inl q ↦ rw q a | inr q ↦ rw q (a.0, rest) ])
      ]

  emplace-IsSorted : (id : ℕ) (e : E) (s : List (ℕ × E)) → IsSorted s → IsSorted (emplace id e s)
  unfolding emplace
  emplace-IsSorted id e [] h = (h, h)
  emplace-IsSorted id e ((k, old) ∷ s) h =
      let rest = emplace-IsSorted id e s h.1 in
      elim (Bool-cases (ltb id k)) [
        | inl l ↦ rw l ((ground arith, IsAbove-lower id k s (ground arith) h.0), h)
        | inr l ↦ rw l (elim (Bool-cases (id == k)) [
          | inl q ↦ rw q h
          | inr q ↦ rw q (emplace-IsAbove k id e s (ground arith) h.0, rest)
        ])
      ]

  find_key-above : (id k : ℕ) (s : List (ℕ × E)) → id ≤ k → IsAbove k s → find_key id s ≡ none
  unfolding find_key
  find_key-above id k [] h a = refl
  find_key-above id k ((j, e) ∷ s) h a = ground (arith, a.0, find_key-above id k s h a.1)

  find_key-emplace :
      (j id : ℕ) (e : E) (s : List (ℕ × E))
      → IsSorted s
      → find_key j (emplace id e s) ≡ or_else (find_key j s) (if id == j then some e else none)
  unfolding find_key emplace
  find_key-emplace j id e [] h = ground arith
  find_key-emplace j id e ((k, old) ∷ s) h =
      let rest = find_key-emplace j id e s h.1 in
      let above = find_key-above j k s in ground (arith, rest, above, h.0)

  fill-IsSorted :
      (key : E → ℕ) (es : List E) (s : List (ℕ × E)) → IsSorted s → IsSorted (fill key es s)
  unfolding fill
  fill-IsSorted key [] s h = h
  fill-IsSorted key (e ∷ es) s h =
      fill-IsSorted key es (emplace (key e) e s) (emplace-IsSorted (key e) e s h)

  find_key-fill :
      (key : E → ℕ) (id : ℕ) (es : List E) (s : List (ℕ × E))
      → IsSorted s
      → find_key id (fill key es s) ≡ or_else (find_key id s) (first_of key id es)
  unfolding fill first_of
  find_key-fill key id [] s h = ground arith
  find_key-fill key id (e ∷ es) s h =
      let rest = find_key-fill key id es (emplace (key e) e s) (emplace-IsSorted (key e) e s h) in
      let here = find_key-emplace id (key e) e s h in ground (arith, rest, here)

  any_value-found :
      (callback : E → Bool) (s : List (ℕ × E))
      → IsSorted s
      → any_value callback s ≡ true
      → (id : ℕ) × (e : E) × (find_key id s ≡ some e) × (callback e ≡ true)
  unfolding any_value find_key
  any_value-found callback [] h t = ground arith
  any_value-found callback ((k, e) ∷ s) h t = elim (Bool-cases (callback e)) [
    | inl c ↦ (k, e, ground arith, c)
    | inr c ↦
        let (id, found, f, d) = any_value-found callback s h.1 (ground arith) in
        let apart = λ (q : id ≡ k). find_key-above id k s (omega (arith, q)) h.0 in
        (id, found, ground (arith, apart, f), d)
  ]

  found-any_value :
      (callback : E → Bool) (s : List (ℕ × E)) (id : ℕ) (e : E)
      → find_key id s ≡ some e
      → callback e ≡ true
      → any_value callback s ≡ true
  unfolding any_value find_key
  found-any_value callback [] id e f c = ground arith
  found-any_value callback ((k, x) ∷ s) id e f c =
      let rest = found-any_value callback s id e in ground (arith, rest)

failed-nothing {ℓ κ} :
    {R : Type ℓ} {E : Type κ} (entity : R → Option E) (aborts : Bool) (t : Transaction R)
    (es : List E)
    → t ≡ failed
    → execute entity aborts t ≡ ok es
    → es ≡ []
unfolding execute
failed-nothing entity aborts failed es f e = cc
failed-nothing entity aborts (committed rows) es f e = cc

-- What `Execute` gives is what the next refresh puts in place of the copy, whatever the copy was:
-- `Get` gives the first entity of a key. When the transaction failed, that is nothing for any key.
-- The timer is set to the interval from then.
pub refresh-first {ℓ κ} :
    {R : Type ℓ} {E : Type κ} (entity : R → Option E) (key : E → ℕ) (aborts : Bool)
    (t : Transaction R) (es : List E) (now interval id : ℕ) (r : Repository E)
    → execute entity aborts t ≡ ok es
    → (after : Repository E) × (refresh key false now interval (execute entity aborts t) r
        ≡ ok after)
      × (get id after ≡ first_of key id es)
      × (t ≡ failed → get id after ≡ none)
      × (after.expires_at ≡ some (now + interval))
unfolding refresh load_from_db get execute first_of
refresh-first entity key aborts t es now interval id r e =
    let after = record (load_from_db key es r) { expires_at = some (now + interval) } in
    let held : get id after ≡ first_of key id es = find_key-fill key id es [] tt in
    (
      after,
      rw e refl,
      held,
      λ f. held ∙ ap (first_of key id) (failed-nothing entity aborts t es f e),
      refl,
    )

refresh-keeps {ℓ} :
    {E : Type ℓ} (key : E → ℕ) (stopped : Bool) (now interval : ℕ) (answer : Result (List E))
    (r after : Repository E)
    → IsSorted r.storage
    → refresh key stopped now interval answer r ≡ ok after
    → IsSorted after.storage
unfolding refresh load_from_db
refresh-keeps key true now interval answer r after h e =
    let same : r ≡ after = cc in subst (λ x. IsSorted x.storage) same h
refresh-keeps key false now interval (fault f) r after h e = cc
refresh-keeps key false now interval (ok es) r after h e =
    let same : record (load_from_db key es r) { expires_at = some (now + interval) } ≡ after = cc in
    subst (λ x. IsSorted x.storage) same (fill-IsSorted key es [] tt)

-- The repositories that there can be: the constructor makes one, and the timer refreshes it or is
-- aborted.
pub data Arises {ℓ} {E : Type ℓ} (key : E → ℕ) : Repository E → Type ℓ where
  opens :
      (now interval : ℕ) (answer : Result (List E)) (r : Repository E)
      → new_repository key now interval answer ≡ ok r
      → Arises key r
  refreshes :
      (stopped : Bool) (now interval : ℕ) (answer : Result (List E)) (r after : Repository E)
      → Arises key r
      → refresh key stopped now interval answer r ≡ ok after
      → Arises key after

Arises-IsSorted {ℓ} :
    {E : Type ℓ} {key : E → ℕ} {r : Repository E} → Arises key r → IsSorted r.storage
unfolding new_repository
Arises-IsSorted {key = key} (opens now interval answer r e) =
    refresh-keeps key false now interval answer (record { storage = []; expires_at = none }) r tt e
Arises-IsSorted {key = key} (refreshes stopped now interval answer r after a e) =
    refresh-keeps key stopped now interval answer r after (Arises-IsSorted a) e

-- The keys of the copy rise from the constructor on, over refreshes of which some are aborted. So
-- no two entities of it have one key, and `Any` is true exactly where `Get` gives, for some key, an
-- entity for which its callback is.
pub Arises-any {ℓ} :
    {E : Type ℓ} (key : E → ℕ) (r : Repository E) (callback : E → Bool)
    → Arises key r
    → IsSorted r.storage
      × ((any callback r ≡ true) ↔ ((id : ℕ) × (e : E) × (get id r ≡ some e) × (callback e ≡ true)))
unfolding get any
Arises-any key r callback a =
    let sorted = Arises-IsSorted a in
    (
      sorted,
      (
        any_value-found callback r.storage sorted,
        λ (id, e, f, c). found-any_value callback r.storage id e f c,
      ),
    )
