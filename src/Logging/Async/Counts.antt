-- ===== src/Logging/Async/Counts.antt =====
-- The statistics of the asynchronous handler (pkg/logging/async.go) under every interleaving.
use mcp_memory_core.Base.{
  ℕ, ◌+◌, ◌≤◌, ◌≡◌, refl, Bool, true, false, Option, none, some, List, [], ◌∷◌, length,
  length-append, arith,
}
use mcp_memory_core.Base.Int.{int64}
use mcp_memory_core.Logging.Async.{
  Async, Handle, Step, derives, begins, sends, counts, takes, finishes, worker_ends, starts_close,
  signals, closes_buffer, Reachable, starts, follows, new_async_handler, derive, begin_handle, send,
  count_buffered, take_entry, finish_entry, start_close, signal_close, close_buffer,
}

module _ {E : Type 0} where
  abbrev pub busy : Option E → ℕ
  busy none = 0
  busy (some e) = 1

  -- The entries that were sent are those that were handled, those in the buffer, and the worker's.
  abbrev pub Conserves : Async E → Type 0
  Conserves s =
      int64 (s.buffered + s.uncounted)
      ≡ int64 (s.processed + s.errors + length s.buffer + busy s.in_flight)

  abbrev pub IsBounded : Async E → Type 0
  IsBounded s = length s.buffer ≤ s.capacity

  send_keeps :
      (e : E) (others : List E) (s : Async E)
      → Conserves s
      → IsBounded s
      → Conserves (send e others s) × IsBounded (send e others s)
  unfolding send
  send_keeps e others s c b = ground (arith, length-append s.buffer (e ∷ []))

  begin_keeps :
      (h : Handle) (e : E) (s : Async E)
      → Conserves s
      → IsBounded s
      → Conserves (begin_handle h e s) × IsBounded (begin_handle h e s)
  unfolding begin_handle
  begin_keeps h e s c b = ground arith

  signal_keeps :
      (i : ℕ) (s : Async E)
      → Conserves s
      → IsBounded s
      → Conserves (signal_close i s) × IsBounded (signal_close i s)
  unfolding signal_close
  signal_keeps i s c b = ground arith

  close_keeps :
      (i : ℕ) (s : Async E)
      → Conserves s
      → IsBounded s
      → Conserves (close_buffer i s) × IsBounded (close_buffer i s)
  unfolding close_buffer
  close_keeps i s c b = ground arith

  finish_keeps :
      (failed : Bool) (s : Async E) (e : E)
      → s.in_flight ≡ some e
      → Conserves s
      → IsBounded s
      → Conserves (finish_entry failed s) × IsBounded (finish_entry failed s)
  unfolding finish_entry
  finish_keeps true s e h c b = ground arith
  finish_keeps false s e h c b = ground arith

  take_keeps :
      (s : Async E) (e : E) (rest : List E)
      → s.in_flight ≡ none
      → s.buffer ≡ e ∷ rest
      → Conserves s
      → IsBounded s
      → Conserves (take_entry e rest s) × IsBounded (take_entry e rest s)
  unfolding take_entry
  take_keeps s e rest idle h c b = ground arith

  Step-keeps : (s t : Async E) → Step s t → Conserves s → IsBounded s → Conserves t × IsBounded t
  unfolding derive count_buffered start_close
  Step-keeps s _ (derives i h given) c b = (c, b)
  Step-keeps s _ (begins i h e given) c b = begin_keeps h e s c b
  Step-keeps s _ (sends e others given) c b = send_keeps e others s c b
  Step-keeps s _ (counts left given) c b = (omega (arith, c, given), b)
  Step-keeps s _ (takes e rest on idle given) c b = take_keeps s e rest idle given c b
  Step-keeps s _ (finishes failed e given) c b = finish_keeps failed s e given c b
  Step-keeps s _ (worker_ends closing idle empty) c b = (c, b)
  Step-keeps s _ (starts_close i h given unclosed) c b = (c, b)
  Step-keeps s _ (signals i h given stage) c b = signal_keeps i s c b
  Step-keeps s _ (closes_buffer i h given stage) c b = close_keeps i s c b

  -- Under every interleaving of callers, worker, copies and Close: the entries sent, counted or not
  -- yet, are those processed, those that failed, those in the buffer and the one that the worker has,
  -- up to the wrap-around of the 64-bit counters; and the buffer never exceeds its capacity.
  pub async_counts : (size : ℕ) (s : Async E) → Reachable size s → Conserves s × IsBounded s
  unfolding new_async_handler
  async_counts size _ starts = (refl, ground arith)
  async_counts size _ (follows s t r live h) =
      let (c, b) = async_counts size s r in Step-keeps s t h c b
