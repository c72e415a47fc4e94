-- ===== src/Net/Outgoing/Laws.antt =====
-- The queue of answers is empty whenever no handler runs.
use tactmon.Prelude.{
  ℕ, suc, ◌≤◌, ◌<◌, ◌≡◌, refl, ap, Bool, true, false, List, [], ◌∷◌, ◌++◌, arith, length, All,
  All-append,
}
use mathlib.Core.Path.{subst}
use tactmon.Net.Outgoing.{
  queue_limit, Session, begin_read, new_session, start_front, update_outgoing, begin_write,
  Processed, answered, unanswered, finished, process_request, handle_end, handle_read, handle_write,
}

-- What can happen to a session: a read that is under way ends, or a write.
pub data Happens : Session → Session → Type 0 where
  reads :
      (s : Session) (n : ℕ) (p : Processed)
      → s.reading ≡ suc n
      → Happens s (handle_read p (record s { reading = n }))
  ends :
      (s : Session) (n : ℕ) → s.reading ≡ suc n → Happens s (handle_end (record s { reading = n }))
  writes :
      (s : Session) (m failed : Bool) (before after : List Bool)
      → s.writing ≡ before ++ (m ∷ after)
      → Happens s (handle_write m failed (record s { writing = before ++ after }))

-- The sessions that can come about, in any order of the ends of reads and writes.
pub data Arises : Session → Type 0 where
  opens : Arises new_session
  goes : {s t : Session} → Arises s → Happens s t → Arises t

-- Nothing is queued, and each message that is being written closes the connection. At most one
-- read is under way.
pub record IsDrained (s : Session) : Type 0 where
  pub drained : s.queue ≡ []
  pub closing : All (λ m. m ≡ false) s.writing
  pub single : s.reading ≤ 1

begin_write-drained :
    (m : Bool) (s : Session)
    → s.queue ≡ []
    → begin_write m s ≡ record s { queue = []; writing = s.writing ++ (m ∷ []) }
unfolding begin_write update_outgoing start_front
begin_write-drained m s e = rw e refl

-- The end of a write starts no read where nothing is queued.
handle_write-reading :
    (m failed : Bool) (s : Session) → s.queue ≡ [] → (handle_write m failed s).reading ≡ s.reading
unfolding handle_write update_outgoing start_front
handle_write-reading m true s e = refl
handle_write-reading true false s e = rw e refl
handle_write-reading false false s e = refl

All-middle :
    {A : Type 0} (P : A → Type 0) (before : List A) (m : A) (after : List A)
    → All P (before ++ (m ∷ after))
    → P m × All P (before ++ after)
All-middle P [] m after h = h
All-middle P (b ∷ before) m after (h, hs) =
    let rest = All-middle P before m after hs in (rest.0, (h, rest.1))

Happens-IsDrained : {s t : Session} → Happens s t → IsDrained s → IsDrained t
unfolding handle_read process_request begin_read handle_end handle_write update_outgoing start_front
Happens-IsDrained (reads s n answered e) inv =
    let w = begin_write-drained false (record s { reading = n }) inv.drained in
    rw w (record {
      drained = refl;
      closing = All-append (λ m. m ≡ false) s.writing (false ∷ []) inv.closing (refl, tt);
      single = omega (arith, inv.single, e);
    })
Happens-IsDrained (reads s n unanswered e) inv =
    rw (inv.drained)
      (record { drained = refl; closing = inv.closing; single = omega (arith, inv.single, e) })
Happens-IsDrained (reads s n finished e) inv = record {
  drained = inv.drained;
  closing = inv.closing;
  single = omega (arith, inv.single, e);
}
Happens-IsDrained (ends s n e) inv = record {
  drained = inv.drained;
  closing = inv.closing;
  single = omega (arith, inv.single, e);
}
Happens-IsDrained (writes s m true before after e) inv =
    let w =
      All-middle (λ m. m ≡ false) before m after (subst (All (λ m. m ≡ false)) e inv.closing) in
    record { drained = inv.drained; closing = w.1; single = inv.single }
Happens-IsDrained (writes s m false before after e) inv =
    let w =
      All-middle (λ m. m ≡ false) before m after (subst (All (λ m. m ≡ false)) e inv.closing) in
    rw w.0 (record { drained = inv.drained; closing = w.1; single = inv.single })

Arises-IsDrained : {s : Session} → Arises s → IsDrained s
unfolding new_session
Arises-IsDrained opens = record { drained = refl; closing = tt; single = omega arith }
Arises-IsDrained (goes a h) = Happens-IsDrained h (Arises-IsDrained a)

-- In every session that can come about, the queue is empty whenever no handler runs, and one read
-- at most is under way. So a message that is queued is written at once, whatever else is being
-- written, the queue stays below its limit, and the end of a write never starts a read.
pub Arises-bounds :
    (s : Session) (m failed : Bool)
    → Arises s
    → (s.queue ≡ [])
      × (s.reading ≤ 1)
      × (begin_write m s ≡ record s { queue = []; writing = s.writing ++ (m ∷ []) })
      × (length (begin_write m s).queue < queue_limit)
      × ((handle_write m failed s).reading ≡ s.reading)
Arises-bounds s m failed a =
    let inv = Arises-IsDrained a in
    let w = begin_write-drained m s inv.drained in
    (
      inv.drained,
      inv.single,
      w,
      omega (arith, ap (λ t. length t.queue) w),
      handle_write-reading m failed s inv.drained,
    )
