-- ===== src/Logging/Async.antt =====
-- pkg/logging/async.go: the asynchronous handler, as the steps of the callers, of the worker and of
-- Close. A step is what happens between two points where another goroutine can run: one operation on
-- a channel or one atomic operation. `E` are the log entries. Flush, which only waits, and the wait
-- at the end of Close are left out.
pub mod Counts
pub mod Panics
use mcp_memory_core.Base.Int.{int64}
use mathlib.Core.List.{◌++◌}
use mcp_memory_core.Base.{
  ℕ, zero, suc, ◌+◌, ◌%◌, ◌≡◌, Bool, true, false, Option, none, some, List, [], ◌∷◌, length, ltb,
  if◌then◌else◌,
}

-- How far the Close of a handler is, which its closeOnce runs once.
pub data Stage : Type 0 where
  not_closing flagged signaled finished : Stage

-- A handler value: WithAttrs and WithGroup make a copy that shares the channels and the statistics,
-- but has a `closed` flag and a `closeOnce` of its own.
pub record Handle : Type 0 where
  pub closed : Bool
  pub stage : Stage

-- The shared part, with the callers that are under way: `sending` have passed the test of `closed`,
-- and `uncounted` have sent their entry and not yet counted it. `in_flight` is the entry that the
-- worker has taken and not yet counted. The counters have 64 bits.
pub record Async (E : Type 0) : Type 0 where
  pub capacity : ℕ
  pub buffer : List E
  pub buffer_closed : Bool
  pub close_signaled : Bool
  pub handles : List Handle
  pub sending : List E
  pub uncounted : ℕ
  pub in_flight : Option E
  pub worker_done : Bool
  pub buffered : ℕ
  pub processed : ℕ
  pub dropped : ℕ
  pub errors : ℕ
  pub panicked : Bool

abbrev pub fresh_handle : Handle
fresh_handle = record { closed = false; stage = not_closing }

-- A buffer size that is not positive gives a thousand.
unfoldable pub new_async_handler : {E : Type 0} → ℕ → Async E
new_async_handler size = record {
  capacity = if ltb 0 size then size else 1000;
  buffer = [];
  buffer_closed = false;
  close_signaled = false;
  handles = fresh_handle ∷ [];
  sending = [];
  uncounted = 0;
  in_flight = none;
  worker_done = false;
  buffered = 0;
  processed = 0;
  dropped = 0;
  errors = 0;
  panicked = false;
}

-- The handler at a position, and the handlers with the one there replaced.
unfoldable pub handle_at : ℕ → List Handle → Option Handle
handle_at i [] = none
handle_at zero (h ∷ hs) = some h
handle_at (suc i) (h ∷ hs) = handle_at i hs

unfoldable pub put_handle : ℕ → Handle → List Handle → List Handle
put_handle i g [] = []
put_handle zero g (h ∷ hs) = g ∷ hs
put_handle (suc i) g (h ∷ hs) = h ∷ put_handle i g hs

module _ {E : Type 0} where
  -- WithAttrs and WithGroup: `closed` is copied by value.
  unfoldable pub derive : Handle → Async E → Async E
  derive h s = record s {
    handles = s.handles ++ (record { closed = h.closed; stage = not_closing } ∷ []);
  }

  -- Handle, up to the send. A closed handler returns an error.
  unfoldable pub begin_handle : Handle → E → Async E → Async E
  begin_handle h e s = if h.closed then s else record s { sending = e ∷ s.sending }

  -- The select of Handle: a send on a closed channel panics, and a full buffer drops the entry.
  unfoldable pub send : E → List E → Async E → Async E
  send e others s =
      if s.buffer_closed
      then record s { panicked = true; sending = others }
      else if ltb (length s.buffer) s.capacity
      then record s { buffer = s.buffer ++ (e ∷ []); sending = others; uncounted = s.uncounted + 1 }
      else record s { sending = others; dropped = int64 (s.dropped + 1) }

  -- The count after a send.
  unfoldable pub count_buffered : ℕ → Async E → Async E
  count_buffered left s = record s { uncounted = left; buffered = int64 (s.buffered + 1) }

  -- The worker takes the oldest entry, in its loop or in the drain.
  unfoldable pub take_entry : E → List E → Async E → Async E
  take_entry e rest s = record s { buffer = rest; in_flight = some e }

  -- The wrapped handler has returned, with an error or without.
  unfoldable pub finish_entry : Bool → Async E → Async E
  finish_entry true s = record s { in_flight = none; errors = int64 (s.errors + 1) }
  finish_entry false s = record s { in_flight = none; processed = int64 (s.processed + 1) }

  abbrev pub at_stage : ℕ → Stage → Async E → Async E
  unfolding put_handle
  at_stage i stage s = record s {
    handles = put_handle i (record { closed = true; stage = stage }) s.handles;
  }

  -- The steps of Close: the flag, close(closeCh) and close(buffer). Closing a channel twice panics.
  unfoldable pub start_close : ℕ → Async E → Async E
  unfolding at_stage
  start_close i s = at_stage i flagged s

  unfoldable pub signal_close : ℕ → Async E → Async E
  unfolding at_stage
  signal_close i s =
      if s.close_signaled
      then record s { panicked = true }
      else record (at_stage i signaled s) { close_signaled = true }

  unfoldable pub close_buffer : ℕ → Async E → Async E
  unfolding at_stage
  close_buffer i s =
      if s.buffer_closed
      then record s { panicked = true }
      else record (at_stage i finished s) { buffer_closed = true }

  pub data Step (s : Async E) : Async E → Type 0 where
    derives : (i : ℕ) (h : Handle) → handle_at i s.handles ≡ some h → Step s (derive h s)
    begins :
        (i : ℕ) (h : Handle) (e : E) → handle_at i s.handles ≡ some h → Step s (begin_handle h e s)
    sends : (e : E) (others : List E) → s.sending ≡ e ∷ others → Step s (send e others s)
    counts : (left : ℕ) → s.uncounted ≡ suc left → Step s (count_buffered left s)
    takes :
        (e : E) (rest : List E)
        → s.worker_done ≡ false
        → s.in_flight ≡ none
        → s.buffer ≡ e ∷ rest
        → Step s (take_entry e rest s)
    finishes : (failed : Bool) (e : E) → s.in_flight ≡ some e → Step s (finish_entry failed s)
    worker_ends :
        s.close_signaled ≡ true
        → s.in_flight ≡ none
        → s.buffer ≡ []
        → Step s (record s { worker_done = true })
    starts_close :
        (i : ℕ) (h : Handle)
        → handle_at i s.handles ≡ some h
        → h.stage ≡ not_closing
        → Step s (start_close i s)
    signals :
        (i : ℕ) (h : Handle)
        → handle_at i s.handles ≡ some h
        → h.stage ≡ flagged
        → Step s (signal_close i s)
    closes_buffer :
        (i : ℕ) (h : Handle)
        → handle_at i s.handles ≡ some h
        → h.stage ≡ signaled
        → Step s (close_buffer i s)

  -- A panic ends the program.
  pub data Reachable (size : ℕ) : Async E → Type 0 where
    starts : Reachable size (new_async_handler size)
    follows : (s t : Async E) → Reachable size s → s.panicked ≡ false → Step s t → Reachable size t
