-- ===== src/Backend/Monitor/Laws.antt =====
-- What a pass over a summary does to the numbers in the table, and whom it calls.
use tactmon.Prelude.{
  ℕ, ◌<◌, max, ◌≡◌, refl, sym, ap, ◌∙◌, inl, inr, Bool, true, false, ◌&&◌, ◌||◌, Option, none, some,
  List, [], ◌∷◌, ◌++◌, arith, Bytes, ltb, if◌then◌else◌, Bool-cases, Option-cases, equal, equal_iff,
  is_empty,
}
use mathlib.Core.Path.{subst}
use mathlib.Core.List.{append-nil, append_assoc}
use tactmon.Backend.Monitor.{
  Products, Call, RibbitMonitor, ProductState, updated, call_all, notify_product_update, on_record,
  on_records, on_update,
}
use tactmon.Ribbit.Records.{SummaryRecord}

-- A missing number is below every number.
abbrev pub IsBelow : Option ℕ → Option ℕ → Type 0
IsBelow none none = ⊥
IsBelow none (some b) = Unit {0}
IsBelow (some a) none = ⊥
IsBelow (some a) (some b) = a < b

-- Whether a call names the product.
unfoldable pub is_named : Bytes → List Call → Bool
is_named name [] = false
is_named name (c ∷ cs) = equal c.product name || is_named name cs

-- The number rises where `b` holds, and stays as it is elsewhere.
abbrev pub IsRaised : Bool → Option ℕ → Option ℕ → Type 0
IsRaised true old new = IsBelow old new
IsRaised false old new = new ≡ old

IsBelow-trans : (a b c : Option ℕ) → IsBelow a b → IsBelow b c → IsBelow a c
IsBelow-trans none none c h k = absurd h
IsBelow-trans (some a) none c h k = absurd h
IsBelow-trans none (some b) none h k = absurd k
IsBelow-trans none (some b) (some c) h k = tt
IsBelow-trans (some a) (some b) none h k = absurd k
IsBelow-trans (some a) (some b) (some c) h k = omega arith

IsRaised-trans :
    (p q : Bool) (a b c : Option ℕ) → IsRaised p a b → IsRaised q b c → IsRaised (p || q) a c
IsRaised-trans true true a b c h k = IsBelow-trans a b c h k
IsRaised-trans true false a b c h k = subst (IsBelow a) (sym k) h
IsRaised-trans false true a b c h k = subst (λ o. IsBelow o c) h k
IsRaised-trans false false a b c h k = k ∙ h

is_named-append :
    (name : Bytes) (cs ds : List Call)
    → is_named name (cs ++ ds) ≡ (is_named name cs || is_named name ds)
unfolding is_named
is_named-append name [] ds = refl
is_named-append name (c ∷ cs) ds = ground (arith, is_named-append name cs ds)

is_named-call_all :
    (l : ℕ) (ls : List ℕ) (name product : Bytes) (id : ℕ) (s : ProductState)
    → is_named name (call_all (l ∷ ls) product id s) ≡ equal product name
unfolding is_named call_all
is_named-call_all l [] name product id s = ground arith
is_named-call_all l (k ∷ ls) name product id s =
    ground (arith, is_named-call_all k ls name product id s)

-- The calls that a step adds are named, and the number in the table raised, together.
record IsStep {T : Type 0} (db : Products T) (name : Bytes) (m n : RibbitMonitor T) : Type 0 where
  added : List Call
  calls_eq : n.calls ≡ m.calls ++ added
  listeners_eq : n.listeners ≡ m.listeners
  raised :
      IsRaised (is_named name added) (db.get_by_name name m.table) (db.get_by_name name n.table)

module _ {T : Type 0} (db : Products T) (name : Bytes) where
  IsStep-refl : (m : RibbitMonitor T) → IsStep db name m m
  unfolding is_named
  IsStep-refl m = record {
    added = [];
    calls_eq = sym (append-nil m.calls);
    listeners_eq = refl;
    raised = refl;
  }

  IsStep-trans :
      (m n p : RibbitMonitor T) → IsStep db name m n → IsStep db name n p → IsStep db name m p
  IsStep-trans m n p s t = record {
    added = s.added ++ t.added;
    calls_eq =
        t.calls_eq ∙ ap (λ cs. cs ++ t.added) s.calls_eq ∙ append_assoc m.calls s.added t.added;
    listeners_eq = t.listeners_eq ∙ s.listeners_eq;
    raised =
        rw (is_named-append name s.added t.added)
          (IsRaised-trans (is_named name s.added) (is_named name t.added) _ _ _ s.raised t.raised);
  }

  -- A product whose number is stored anew, with every listener called.
  stored-IsStep :
      (l : ℕ) (ls : List ℕ) (product : Bytes) (id : ℕ) (table : T) (m : RibbitMonitor T)
      → m.listeners ≡ l ∷ ls
      → IsBelow (db.get_by_name product m.table) (some id)
      → db.get_by_name name table
        ≡ (if equal product name then some id else db.get_by_name name m.table)
      → IsStep db name m (notify_product_update product id (record m { table = table }))
  unfolding notify_product_update
  stored-IsStep l ls product id table m e below got = record {
    added = call_all m.listeners product id updated;
    calls_eq = refl;
    listeners_eq = refl;
    raised =
        rw (e, is_named-call_all l ls name product id updated)
          (elim (Bool-cases (equal product name)) [
            | inl same ↦
                let at_name : product ≡ name = (equal_iff product name).0 same in
                rw (got, same)
                  (subst (λ p. IsBelow (db.get_by_name p m.table) (some id)) at_name below)
            | inr other ↦ rw (got, other) refl
          ]);
  }

  on_record-IsStep :
      (l : ℕ) (ls : List ℕ) (r : SummaryRecord) (m : RibbitMonitor T)
      → m.listeners ≡ l ∷ ls
      → IsStep db name m (on_record db r m)
  unfolding on_record
  on_record-IsStep l ls r m e = elim (Bool-cases (is_empty r.flags)) [
    | inr flagged ↦ rw flagged (IsStep-refl m)
    | inl plain ↦ rw plain (elim (Option-cases (db.get_by_name r.product m.table)) [
      | inl unknown ↦
          rw (unknown, on_record)
            (stored-IsStep l ls r.product r.sequence_id _ m e (rw unknown tt)
              (db.get-insert r.product name r.sequence_id m.table unknown))
      | inr (previous, known) ↦
          rw (known, on_record)
            (elim (Bool-cases (ltb previous r.sequence_id)) [
              | inr old ↦ rw old (IsStep-refl m)
              | inl newer ↦ rw newer (
                  stored-IsStep l ls r.product r.sequence_id _ m e
                    (rw known (let lt : previous < r.sequence_id = ground (arith, newer) in lt))
                    (db.get-update r.product name r.sequence_id previous m.table known))
            ])
    ])
  ]

  on_records-IsStep :
      (l : ℕ) (ls : List ℕ) (rs : List SummaryRecord) (m : RibbitMonitor T)
      → m.listeners ≡ l ∷ ls
      → IsStep db name m (on_records db rs m)
  unfolding on_records
  on_records-IsStep l ls [] m e = IsStep-refl m
  on_records-IsStep l ls (r ∷ rs) m e =
      let first = on_record-IsStep l ls r m e in
      IsStep-trans m (on_record db r m) (on_records db rs (on_record db r m)) first
        (on_records-IsStep l ls rs (on_record db r m) (first.listeners_eq ∙ e))

-- What an untruncated step says of its calls.
abbrev pub Announces :
    {T : Type 0} → Products T → Bytes → RibbitMonitor T → RibbitMonitor T → Type 0
Announces db name m n =
    (added : List Call) × (n.calls ≡ m.calls ++ added)
    × IsRaised (is_named name added) (db.get_by_name name m.table) (db.get_by_name name n.table)

announced :
    {T : Type 0} (db : Products T) (name : Bytes) (m n : RibbitMonitor T)
    → IsStep db name m n
    → Announces db name m n
announced db name m n s = (s.added, s.calls_eq, s.raised)

-- For any product, with a listener registered: the calls that a pass of `OnUpdate` makes name the
-- product exactly when its number in the table rises, or is new; else the number stays as it was.
pub on_update-IsRaised :
    {T : Type 0} (db : Products T) (name : Bytes) (l : ℕ) (ls : List ℕ) (aborted : Bool)
    (summary : Option (List SummaryRecord)) (m : RibbitMonitor T)
    → m.listeners ≡ l ∷ ls
    → Announces db name m (on_update db aborted summary m)
unfolding on_update
on_update-IsRaised db name l ls true summary m e = announced db name m m (IsStep-refl db name m)
on_update-IsRaised db name l ls false none m e = announced db name m m (IsStep-refl db name m)
on_update-IsRaised db name l ls false (some records) m e =
    announced db name m (on_records db records m) (on_records-IsStep db name l ls records m e)

-- The number of a product after a list of records: the largest of the one it had and those of its
-- records with no flags.
abbrev raise : ℕ → Option ℕ → Option ℕ
raise id none = some id
raise id (some old) = some (max old id)

unfoldable pub newest : Bytes → List SummaryRecord → Option ℕ → Option ℕ
newest name [] old = old
newest name (r ∷ rs) old =
    newest name rs
      (if is_empty r.flags && equal r.product name then raise r.sequence_id old else old)

module _ {T : Type 0} (db : Products T) (name : Bytes) where
  -- What is known of a product by its own name.
  known_by :
      (product : Bytes) (table : T) (o : Option ℕ)
      → db.get_by_name product table ≡ o
      → equal product name ≡ true
      → db.get_by_name name table ≡ o
  known_by product table o e same =
      subst (λ p. db.get_by_name p table ≡ o) ((equal_iff product name).0 same) e

  on_record-newest :
      (r : SummaryRecord) (m : RibbitMonitor T)
      → db.get_by_name name (on_record db r m).table
        ≡ newest name (r ∷ []) (db.get_by_name name m.table)
  unfolding on_record notify_product_update newest
  on_record-newest r m = elim (Bool-cases (is_empty r.flags)) [
    | inr flagged ↦ rw flagged refl
    | inl plain ↦ rw plain (elim (Option-cases (db.get_by_name r.product m.table)) [
      | inl unknown ↦
          rw (unknown, on_record)
            (rw (db.get-insert r.product name r.sequence_id m.table unknown)
              (elim (Bool-cases (equal r.product name)) [
                | inr other ↦ rw other refl
                | inl same ↦ rw (same, known_by r.product m.table none unknown same) refl
              ]))
      | inr (previous, known) ↦
          rw (known, on_record)
            (elim (Bool-cases (ltb previous r.sequence_id)) [
              | inl newer ↦ rw newer (
                  rw (db.get-update r.product name r.sequence_id previous m.table known)
                    (elim (Bool-cases (equal r.product name)) [
                      | inr other ↦ rw other refl
                      | inl same ↦
                          rw (same, known_by r.product m.table (some previous) known same)
                            (let e : r.sequence_id ≡ max previous r.sequence_id =
                                ground (arith, newer) in
                              ap some e)
                    ]))
              | inr old ↦ rw old (elim (Bool-cases (equal r.product name)) [
                | inr other ↦ rw other refl
                | inl same ↦
                    rw (same, known_by r.product m.table (some previous) known same)
                      (let e : previous ≡ max previous r.sequence_id = ground (arith, old) in
                        ap some e)
              ])
            ])
    ])
  ]

  -- After a pass over a summary, the number of a product is the largest of the one it had and
  -- those of its records with no flags.
  pub on_records-newest :
      (rs : List SummaryRecord) (m : RibbitMonitor T)
      → db.get_by_name name (on_records db rs m).table
        ≡ newest name rs (db.get_by_name name m.table)
  unfolding on_records newest
  on_records-newest [] m = refl
  on_records-newest (r ∷ rs) m =
      on_records-newest rs (on_record db r m) ∙ ap (newest name rs) (on_record-newest r m)
