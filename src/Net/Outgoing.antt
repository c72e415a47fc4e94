-- ===== src/Net/Outgoing.antt =====
-- src/tactmon/net/Session.cpp: the queue of answers of a session, and the handlers that run, one
-- at a time, when a read or a write of the socket is done. A message is its `keep_alive`.
pub mod Laws
use tactmon.Prelude.{
  ℕ, ◌+◌, Bool, true, false, List, [], ◌∷◌, ◌++◌, ltb, ◌==◌, if◌then◌else◌, length,
}

abbrev pub queue_limit : ℕ
queue_limit = 8

-- The queue, the messages that are being written, the reads that are under way, and whether the
-- socket was shut down.
pub record Session : Type 0 where
  pub queue : List Bool
  pub writing : List Bool
  pub reading : ℕ
  pub is_shut : Bool

-- `Run`, on a new session.
unfoldable pub begin_read : Session → Session
begin_read s = record s { reading = s.reading + 1 }

unfoldable pub new_session : Session
new_session = record { queue = []; writing = []; reading = 1; is_shut = false }

-- `UpdateOutgoing`: the front of the queue is written; the result is whether the queue was full.
unfoldable pub start_front : List Bool → Session → Session
start_front [] s = s
start_front (m ∷ rest) s = record s { queue = rest; writing = s.writing ++ (m ∷ []) }

unfoldable pub update_outgoing : Session → Session × Bool
unfolding start_front
update_outgoing s = (start_front s.queue s, length s.queue == queue_limit)

-- `BeginWrite`.
unfoldable pub begin_write : Bool → Session → Session
unfolding update_outgoing
begin_write m s =
    let pushed = record s { queue = s.queue ++ (m ∷ []) } in
    if length pushed.queue == 1 then (update_outgoing pushed).0 else pushed

-- What `ProcessRequest` comes to: an answer by `writeError`, with a `keep_alive` of false and the
-- result true; the result true with no answer, where the header cannot be written; false, where
-- the file was sent or could not be.
pub data Processed : Type 0 where
  answered unanswered finished : Processed

unfoldable pub process_request : Processed → Session → Session × Bool
unfolding begin_write
process_request answered s = (begin_write false s, true)
process_request unanswered s = (s, true)
process_request finished s = (s, false)

-- `HandleRead` at the end of the stream, and on a request.
unfoldable pub handle_end : Session → Session
handle_end s = record s { is_shut = true }

unfoldable pub handle_read : Processed → Session → Session
unfolding process_request begin_read
handle_read p s =
    let (t, more) = process_request p s in
    if more then (if ltb (length t.queue) queue_limit then begin_read t else t) else t

-- `HandleWrite`, of a message and whether the write failed.
unfoldable pub handle_write : Bool → Bool → Session → Session
unfolding update_outgoing begin_read
handle_write keep_alive failed s =
    if failed
    then s
    else (if keep_alive
        then (let (t, was_full) = update_outgoing s in if was_full then begin_read t else t)
        else record s { is_shut = true })
