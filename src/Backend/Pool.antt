-- ===== src/Backend/Pool.antt =====
-- src/tactmon/backend/ConnectionPool.cpp: the pool of connections. A connection is its number; a
-- `Connection` that is alive is on the list `rented`. Threads are counted by where they stand: each
-- function is what a thread does while it holds the mutex, or the call of `notify_one` behind it.
pub mod Laws
pub mod Wakes
use tactmon.Prelude.{
  ℕ, zero, suc, ◌+◌, ◌-◌, Option, none, some, List, [], ◌∷◌, ◌++◌, ltb, ◌==◌, if◌then◌else◌, length,
  take, undefined, Result, ok, fault,
}

-- `waiting` threads are blocked in `_condition.wait`, `woken` ones have been woken there and do not
-- hold the mutex yet, and `notifying` ones have left the mutex in `Return` and are in front of
-- `notify_one`.
pub record Pool : Type 0 where
  pub idle : List ℕ
  pub rented : List ℕ
  pub capacity : ℕ
  pub waiting : ℕ
  pub woken : ℕ
  pub notifying : ℕ

-- The connections that the constructor opens.
unfoldable pub opened : ℕ → List ℕ
opened zero = []
opened (suc n) = opened n ++ (n ∷ [])

-- `Pool::Pool`, with `_poolCapacity`, which is 10.
unfoldable pub new_pool : ℕ → Pool
unfolding opened
new_pool capacity = record {
  idle = opened capacity;
  rented = [];
  capacity = capacity;
  waiting = 0;
  woken = 0;
  notifying = 0;
}

-- `Pool::Prepare` of a statement on each connection: an access out of bounds where fewer than
-- the capacity are idle. What is returned are the connections that it was prepared on.
unfoldable pub prepare : Pool → Result (List ℕ)
prepare s = if ltb (length s.idle) s.capacity then fault undefined else ok (take s.capacity s.idle)

-- `Pool::Open` from where it holds the mutex: a round of its loop. The caller waits where no
-- connection is idle, and takes the first one else.
unfoldable pub take_front : List ℕ → Option (ℕ × List ℕ)
take_front [] = none
take_front (c ∷ cs) = some (c, cs)

unfoldable pub open_connection : Pool → Option ℕ × Pool
unfolding take_front
open_connection s = elim (take_front s.idle) [
  | none ↦ (none, record s { waiting = s.waiting + 1 })
  | some (c, rest) ↦ (some c, record s { idle = rest; rented = c ∷ s.rented })
]

-- A woken caller holds the mutex again, and tests the condition of the loop.
unfoldable pub resume : Pool → Option ℕ × Pool
unfolding open_connection
resume s = open_connection (record s { woken = s.woken - 1 })

-- A caller that waits is woken: by `notify_one`, or by nothing at all, as a condition variable may.
unfoldable pub wake : Pool → Pool
wake s = if s.waiting == 0 then s else record s { waiting = s.waiting - 1; woken = s.woken + 1 }

-- `Pool::Return`, by the destructor of `Connection`, of a connection that leaves `others` rented: up
-- to the unlocking of the mutex.
unfoldable pub return_connection : ℕ → List ℕ → Pool → Pool
return_connection c others s = record s {
  idle = s.idle ++ (c ∷ []);
  rented = others;
  notifying = s.notifying + 1;
}

-- The end of `Pool::Return`.
unfoldable pub notify_one : Pool → Pool
unfolding wake
notify_one s = wake (record s { notifying = s.notifying - 1 })

-- `size`.
unfoldable pub size : Pool → ℕ
size s = s.capacity
