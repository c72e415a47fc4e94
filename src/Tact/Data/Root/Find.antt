-- ===== src/Tact/Data/Root/Find.antt =====
-- `FindFile` by id on a root manifest.
use tactmon.Prelude.{
  ℕ, zero, suc, ◌+◌, ◌-◌, ◌/◌, ◌≤◌, ◌<◌, ◌≡◌, refl, sym, ap, ◌∙◌, ◌≢◌, ◌⊎◌, inl, inr, true, false,
  Option, none, some, List, [], ◌∷◌, ◌++◌, arith, ltb, ◌==◌, lt→ltb, le→ltb, Bool-cases, length,
  get_elem?, All, length-append,
}
use mathlib.Core.List.{append-nil}
use tactmon.Tact.Data.Root.{Entry, Block, below_at, lower_loop, lower_bound, find_by_id}

-- The ids of a list of entries are below, or above, a number.
abbrev pub Below : ℕ → List Entry → Type 0
Below n = All (λ e. e.file_data_id < n)

abbrev pub AtLeast : ℕ → List Entry → Type 0
AtLeast n = All (λ e. n ≤ e.file_data_id)

below_at-front :
    (n i : ℕ) (before rest : List Entry)
    → Below n before
    → i < length before
    → below_at n (before ++ rest) i ≡ true
unfolding below_at
below_at-front n i [] rest b h = absurd (omega arith)
below_at-front n zero (x ∷ before) rest (p, b) h = lt→ltb x.file_data_id n p
below_at-front n (suc i) (x ∷ before) rest (p, b) h = below_at-front n i before rest b (omega arith)

below_at-back :
    (n i : ℕ) (before rest : List Entry)
    → AtLeast n rest
    → length before ≤ i
    → below_at n (before ++ rest) i ≡ false
unfolding below_at
below_at-back n i [] [] b h = refl
below_at-back n zero [] (x ∷ rest) (p, b) h = le→ltb x.file_data_id n p
below_at-back n (suc i) [] (x ∷ rest) (p, b) h = below_at-back n i [] rest b (omega arith)
below_at-back n zero (x ∷ before) rest b h = absurd (omega arith)
below_at-back n (suc i) (x ∷ before) rest b h = below_at-back n i before rest b (omega arith)

-- The search ends at the place that parts the entries below from the others.
lower_loop-parts :
    (fuel n : ℕ) (before rest : List Entry) (first count : ℕ)
    → Below n before
    → AtLeast n rest
    → first ≤ length before
    → length before ≤ first + count
    → count ≤ fuel
    → lower_loop fuel n (before ++ rest) first count ≡ length before
unfolding lower_loop
lower_loop-parts zero n before rest first count b a lo hi f = omega arith
lower_loop-parts (suc fuel) n before rest first count b a lo hi f =
    let half = count / 2 in
    elim (Bool-cases (count == 0)) [
      | inl z ↦ rw (z, lower_loop) (ground (arith, z))
      | inr z ↦
          let some_left : count ≢ 0 = ground (arith, z) in
          elim (nat_cases (first + half) (length before)) [
            | inl l ↦
                rw (z, below_at-front n (first + half) before rest b l, lower_loop)
                  (lower_loop-parts fuel n before rest (first + half + 1) (count - (half + 1)) b a
                    (omega arith) (omega (arith, some_left)) (omega (arith, some_left)))
            | inr g ↦
                rw (z, below_at-back n (first + half) before rest a g, lower_loop)
                  (lower_loop-parts fuel n before rest first half b a (omega arith) (omega arith)
                    (omega (arith, some_left)))
          ]
    ]
  where
    nat_cases : (i j : ℕ) → (i < j) ⊎ (j ≤ i)
    nat_cases i j = elim (Bool-cases (ltb i j)) [
      | inl l ↦ inl (ground (arith, l))
      | inr g ↦ inr (ground (arith, g))
    ]

get_elem?-append :
    (before rest : List Entry) → get_elem? (before ++ rest) (length before) ≡ get_elem? rest 0
get_elem?-append [] rest = refl
get_elem?-append (x ∷ before) rest = get_elem?-append before rest

lower_bound-parts :
    (n : ℕ) (before rest : List Entry)
    → Below n before
    → AtLeast n rest
    → lower_bound n (before ++ rest) ≡ get_elem? rest 0
unfolding lower_bound
lower_bound-parts n before rest b a =
    let all = before ++ rest in
    ap (get_elem? all) (
      lower_loop-parts (length all) n before rest 0 (length all) b a (omega arith)
        (omega (arith, length-append before rest)) (omega arith))
    ∙ get_elem?-append before rest

lower_bound-none : (n : ℕ) (es : List Entry) → Below n es → lower_bound n es ≡ none
lower_bound-none n es b = ap (lower_bound n) (sym (append-nil es)) ∙ lower_bound-parts n es [] b tt

-- Blocks all of whose ids are below a number.
abbrev pub AllBelow : ℕ → List Block → Type 0
AllBelow n = All (λ b. Below n b.entries)

find_by_id-cons :
    (n : ℕ) (b : Block) (blocks : List Block) (o : Option Entry)
    → lower_bound n b.entries ≡ o
    → find_by_id n (b ∷ blocks)
      ≡ elim o [ some e ↦ some e.content_key | none ↦ find_by_id n blocks ]
unfolding find_by_id
find_by_id-cons n b blocks o e =
    ap (λ p. elim p [ some e ↦ some e.content_key | none ↦ find_by_id n blocks ]) e

-- Behind blocks with smaller ids only, `FindFile` by id gives the key of the first entry of the
-- next block whose id is not below the one asked for, also where that id is larger and so that of
-- another file. In that block the ids that are below the one asked for stand in front of the others,
-- as they do where ids are ordered.
pub find_by_id-lower_bound :
    (n : ℕ) (blocks rest : List Block) (b : Block) (before after : List Entry) (e : Entry)
    → AllBelow n blocks
    → b.entries ≡ before ++ (e ∷ after)
    → Below n before
    → AtLeast n (e ∷ after)
    → find_by_id n (blocks ++ (b ∷ rest)) ≡ some e.content_key
find_by_id-lower_bound n [] rest b before after e a split lo hi =
    find_by_id-cons n b rest (some e)
      (ap (lower_bound n) split ∙ lower_bound-parts n before (e ∷ after) lo hi)
find_by_id-lower_bound n (x ∷ blocks) rest b before after e (p, a) split lo hi =
    find_by_id-cons n x (blocks ++ (b ∷ rest)) none (lower_bound-none n x.entries p)
    ∙ (find_by_id-lower_bound n blocks rest b before after e a split lo hi)

-- An id above all others is not found.
pub find_by_id-none : (n : ℕ) (blocks : List Block) → AllBelow n blocks → find_by_id n blocks ≡ none
unfolding find_by_id
find_by_id-none n [] a = refl
find_by_id-none n (x ∷ blocks) (p, a) =
    find_by_id-cons n x blocks none (lower_bound-none n x.entries p) ∙ find_by_id-none n blocks a
