-- ===== src/Backend/Pool/Laws.antt =====
-- Connections are neither lost nor handed out twice.
use tactmon.Prelude.{
  ℕ, zero, suc, ◌+◌, ◌-◌, ◌<◌, ◌≡◌, refl, sym, ap, ◌∙◌, inl, inr, Option, none, some, List, [], ◌∷◌,
  ◌++◌, arith, ltb, ◌==◌, if◌then◌else◌, lt→ltb, le→ltb, Bool-cases, length, take, is_empty,
  length-append, take_all, undefined, ok, fault,
}
use mathlib.Core.List.{Perm, perm_middle, perm-append_left_iff, append_assoc, append-nil}
use mathlib.Core.List.Perm
use mathlib.Core.Path.{subst}
use tactmon.Backend.Pool.{
  Pool, opened, new_pool, prepare, take_front, open_connection, resume, wake, return_connection,
  notify_one,
}

-- What a thread can do: begin to open a connection, go on with that when it has been woken, give
-- one of those that are rented back, and notify behind that; and a thread that waits may wake up.
pub data Moves : Pool → Pool → Type 0 where
  opens : (s : Pool) → Moves s (open_connection s).1
  resumes : (s : Pool) → 0 < s.woken → Moves s (resume s).1
  gives :
      (s : Pool) (c : ℕ) (before after : List ℕ)
      → s.rented ≡ before ++ (c ∷ after)
      → Moves s (return_connection c (before ++ after) s)
  notifies : (s : Pool) → 0 < s.notifying → Moves s (notify_one s)
  wakes : (s : Pool) → Moves s (wake s)

-- The states in which a pool can be, in any interleaving of threads.
pub data Reaches (capacity : ℕ) : Pool → Type 0 where
  starts : Reaches capacity (new_pool capacity)
  moves : {s t : Pool} → Reaches capacity s → Moves s t → Reaches capacity t

-- The connections, idle or rented, are those that were opened.
pub record IsConserved (n : ℕ) (s : Pool) : Type 0 where
  pub conserved : Perm (s.idle ++ s.rented) (opened n)
  pub counted : length s.idle + length s.rented ≡ n
  pub capacity_eq : s.capacity ≡ n

-- What `Open` does: it takes the first connection that is idle, or waits.
pub data Opened (s : Pool) : Option ℕ × Pool → Type 0 where
  takes :
      (c : ℕ) (rest : List ℕ)
      → s.idle ≡ c ∷ rest
      → Opened s (some c, record s { idle = rest; rented = c ∷ s.rented })
  waits : s.idle ≡ [] → Opened s (none, record s { waiting = s.waiting + 1 })

pub opened_lem : (s : Pool) → Opened s (open_connection s)
unfolding open_connection take_front
opened_lem s = by_idle s.idle refl
  where
    by_idle :
        (cs : List ℕ)
        → s.idle ≡ cs
        → Opened s (elim (take_front cs) [
          | none ↦ (none, record s { waiting = s.waiting + 1 })
          | some (c, rest) ↦ (some c, record s { idle = rest; rented = c ∷ s.rented })
        ])
    by_idle [] e = waits e
    by_idle (c ∷ cs) e = takes c cs e

length-opened : (n : ℕ) → length (opened n) ≡ n
unfolding opened
length-opened zero = refl
length-opened (suc n) = omega (arith, length-append (opened n) (n ∷ []), length-opened n)

new_pool-IsConserved : (n : ℕ) → IsConserved n (new_pool n)
unfolding new_pool
new_pool-IsConserved n = record {
  conserved = subst (λ cs. Perm cs (opened n)) (sym (append-nil (opened n))) (Perm.refl (opened n));
  counted = omega (arith, length-opened n);
  capacity_eq = refl;
}

Opened-IsConserved :
    (n : ℕ) (s : Pool) (out : Option ℕ × Pool)
    → Opened s out
    → IsConserved n s
    → IsConserved n out.1
Opened-IsConserved n s _ (takes c rest e) inv = record {
  conserved =
      Perm.trans (perm_middle rest s.rented)
        (subst (λ cs. Perm (cs ++ s.rented) (opened n)) e inv.conserved);
  counted = omega (arith, inv.counted, ap length e);
  capacity_eq = inv.capacity_eq;
}
Opened-IsConserved n s _ (waits e) inv = record {
  conserved = inv.conserved;
  counted = inv.counted;
  capacity_eq = inv.capacity_eq;
}

-- Only the connections count for what is conserved.
same-IsConserved :
    (n : ℕ) (s t : Pool)
    → s.idle ≡ t.idle
    → s.rented ≡ t.rented
    → s.capacity ≡ t.capacity
    → IsConserved n s
    → IsConserved n t
same-IsConserved n s t i r k inv = record {
  conserved =
      subst (λ cs. Perm cs (opened n)) (ap (λ cs. cs ++ s.rented) i ∙ ap (λ cs. t.idle ++ cs) r)
        inv.conserved;
  counted = omega (arith, inv.counted, ap length i, ap length r);
  capacity_eq = sym k ∙ inv.capacity_eq;
}

wake-IsConserved : (n : ℕ) (s : Pool) → IsConserved n s → IsConserved n (wake s)
unfolding wake
wake-IsConserved n s inv = elim (Bool-cases (s.waiting == 0)) [
  | inl z ↦ rw (z, wake) inv
  | inr z ↦ rw (z, wake) (same-IsConserved n s _ refl refl refl inv)
]

Moves-IsConserved : (n : ℕ) {s t : Pool} → Moves s t → IsConserved n s → IsConserved n t
unfolding return_connection resume notify_one
Moves-IsConserved n (opens s) inv = Opened-IsConserved n s (open_connection s) (opened_lem s) inv
Moves-IsConserved n (resumes s h) inv =
    let u : Pool = record s { woken = s.woken - 1 } in
    Opened-IsConserved n u (open_connection u) (opened_lem u)
      (same-IsConserved n s u refl refl refl inv)
Moves-IsConserved n (notifies s h) inv =
    let u : Pool = record s { notifying = s.notifying - 1 } in
    wake-IsConserved n u (same-IsConserved n s u refl refl refl inv)
Moves-IsConserved n (wakes s) inv = wake-IsConserved n s inv
Moves-IsConserved n (gives s c before after e) inv = record {
  conserved =
      Perm.trans
        (subst (λ cs. Perm cs (s.idle ++ (before ++ (c ∷ after))))
          (sym (append_assoc s.idle (c ∷ []) (before ++ after)))
          ((perm-append_left_iff s.idle).1 (Perm.symm (perm_middle before after))))
        (subst (λ cs. Perm (s.idle ++ cs) (opened n)) e inv.conserved);
  counted = omega (
    arith,
    inv.counted,
    ap length e,
    length-append s.idle (c ∷ []),
    length-append before (c ∷ after),
    length-append before after,
  );
  capacity_eq = inv.capacity_eq;
}

-- In every state that a pool of `n` connections can be in, the connections that are idle and those
-- that are rented are together the `n` that were opened, each of them once.
pub Reaches-IsConserved : (n : ℕ) (s : Pool) → Reaches n s → IsConserved n s
Reaches-IsConserved n s starts = new_pool-IsConserved n
Reaches-IsConserved n s (moves r m) = Moves-IsConserved n m (Reaches-IsConserved n _ r)

-- In a state that can be reached, `Prepare` reaches every connection where none is rented, and is
-- an access out of bounds where one is.
pub prepare_lem :
    (n : ℕ) (s : Pool)
    → Reaches n s
    → prepare s ≡ (if is_empty s.rented then ok s.idle else fault undefined)
unfolding prepare
prepare_lem n s r = by_rented s.rented refl
  where
    inv : IsConserved n s
    inv = Reaches-IsConserved n s r

    by_rented :
        (cs : List ℕ)
        → s.rented ≡ cs
        → (if ltb (length s.idle) s.capacity then fault undefined else ok (take s.capacity s.idle))
          ≡ (if is_empty cs then ok s.idle else fault undefined)
    by_rented [] e =
        let full : length s.idle ≡ s.capacity =
          omega (arith, inv.counted, inv.capacity_eq, ap length e) in
        rw (le→ltb (length s.idle) s.capacity (omega (arith, full)))
          (ap ok (take_all s.capacity s.idle (omega (arith, full))))
    by_rented (c ∷ cs) e =
        rw
          (lt→ltb (length s.idle) s.capacity
            (omega (arith, inv.counted, inv.capacity_eq, ap length e)))
          refl
