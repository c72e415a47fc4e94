-- ===== src/Backend/Pool/Wakes.antt =====
-- Who waits for a connection is woken for it.
use tactmon.Prelude.{
  ℕ, ◌+◌, ◌-◌, ◌≤◌, ◌<◌, ◌≡◌, refl, ap, ◌∙◌, ◌⊎◌, inl, inr, false, Option, some, List, [], ◌∷◌,
  arith, ◌==◌, Bool-cases, length, length-append,
}
use tactmon.Backend.Pool.{
  Pool, new_pool, take_front, open_connection, resume, wake, return_connection, notify_one,
}
use tactmon.Backend.Pool.Laws.{
  Moves, opens, resumes, gives, notifies, wakes, Reaches, starts, moves, Opened, takes, waits,
  opened_lem, Reaches-IsConserved,
}

-- Where a thread waits, a wake-up is on its way for each connection that is idle: a thread has been
-- woken, or will notify.
abbrev pub IsServed : Pool → Type 0
IsServed s = 0 < s.waiting → length s.idle ≤ s.woken + s.notifying

Opened-IsServed :
    (s : Pool) (out : Option ℕ × Pool)
    → Opened s out
    → (0 < s.waiting → length s.idle ≤ s.woken + s.notifying + 1)
    → IsServed out.1
Opened-IsServed s _ (takes c rest e) h w = omega (arith, h w, ap length e)
Opened-IsServed s _ (waits e) h w = omega (arith, ap length e)

wake-IsServed :
    (s : Pool) → (0 < s.waiting → length s.idle ≤ s.woken + s.notifying + 1) → IsServed (wake s)
unfolding wake
wake-IsServed s h = elim (Bool-cases (s.waiting == 0)) [
  | inl z ↦ rw (z, wake) (λ w. absurd (ground (arith, z, w)))
  | inr z ↦ rw (z, wake) (λ w. omega (arith, h (ground (arith, z))))
]

Moves-IsServed : {s t : Pool} → Moves s t → IsServed s → IsServed t
unfolding return_connection resume notify_one
Moves-IsServed (opens s) h =
    Opened-IsServed s (open_connection s) (opened_lem s) (λ w. omega (arith, h w))
Moves-IsServed (resumes s p) h =
    let u : Pool = record s { woken = s.woken - 1 } in
    Opened-IsServed u (open_connection u) (opened_lem u) (λ w. omega (arith, h w))
Moves-IsServed (gives s c before after e) h = λ w. omega (arith, h w, length-append s.idle (c ∷ []))
Moves-IsServed (notifies s p) h =
    wake-IsServed (record s { notifying = s.notifying - 1 }) (λ w. omega (arith, h w))
Moves-IsServed (wakes s) h = wake-IsServed s (λ w. omega (arith, h w))

Reaches-IsServed : (n : ℕ) (s : Pool) → Reaches n s → IsServed s
unfolding new_pool
Reaches-IsServed n s starts = λ w. absurd (omega (arith, w))
Reaches-IsServed n s (moves r m) = Moves-IsServed m (Reaches-IsServed n _ r)

-- A thread that has been woken takes the first connection, where one is idle.
resume-takes : (s : Pool) (c : ℕ) (rest : List ℕ) → s.idle ≡ c ∷ rest → (resume s).0 ≡ some c
unfolding resume open_connection take_front
resume-takes s c rest e = rw e refl

notify_one-wakes :
    (s : Pool) → 0 < s.waiting → (0 < (notify_one s).woken) × ((notify_one s).idle ≡ s.idle)
unfolding notify_one wake
notify_one-wakes s w =
    let some_wait : (s.waiting == 0) ≡ false = ground (arith, w) in
    rw (some_wait, wake) (omega arith, refl)

-- No wake-up is lost. In every state that a pool of `n` connections can be in, in which a thread
-- waits in `Open` and a connection is idle: the connections are rented but for as many as there are
-- threads that have been woken or will notify; and either a thread has been woken, which takes the
-- first idle connection when it goes on, or a thread will notify, and its notification wakes one that
-- waits, which then takes that connection.
pub Reaches-serves :
    (n : ℕ) (s : Pool) (c : ℕ) (rest : List ℕ)
    → Reaches n s
    → 0 < s.waiting
    → s.idle ≡ c ∷ rest
    → (n ≤ length s.rented + (s.woken + s.notifying))
      × (((0 < s.woken) × ((resume s).0 ≡ some c))
          ⊎ ((0 < s.notifying) × (0 < (notify_one s).woken) × ((resume (notify_one s)).0 ≡ some c)))
Reaches-serves n s c rest r w e =
    let served = Reaches-IsServed n s r w in
    let inv = Reaches-IsConserved n s r in
    (
      omega (arith, served, inv.counted),
      elim (Bool-cases (s.woken == 0)) [
        | inr k ↦ inl (ground (arith, k), resume-takes s c rest e)
        | inl k ↦
            let none_woken : s.woken ≡ 0 = ground (arith, k) in
            let one = notify_one-wakes s w in
            inr (
              omega (arith, served, none_woken, ap length e),
              one.0,
              resume-takes (notify_one s) c rest (one.1 ∙ e),
            )
      ],
    )
