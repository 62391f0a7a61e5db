-- ===== src/Logging/Async/Panics.antt =====
-- Copies of a closed asynchronous handler (pkg/logging/async.go).
use mcp_memory_core.Base.{ℕ, ◌≡◌, refl, subst, true, false, some, List, ◌∷◌}
use mcp_memory_core.Logging.Async.{
  Async, Handle, Step, begins, sends, Reachable, follows, handle_at, begin_handle, send,
}

begun :
    {E : Type 0} (h : Handle) (e : E) (s : Async E)
    → h.closed ≡ false
    → begin_handle h e s ≡ record s { sending = e ∷ s.sending }
unfolding begin_handle
begun h e s unclosed = rw unclosed refl

sent :
    {E : Type 0} (e : E) (others : List E) (s : Async E)
    → s.buffer_closed ≡ true
    → (send e others s).panicked ≡ true
unfolding send
sent e others s closed = rw closed refl

-- In any reachable state in which some Close has closed the buffer, a handler whose own flag is not
-- set, such as a copy made by WithAttrs before that Close, can be called, and the call panics.
pub open_copy_panics :
    {E : Type 0} (size : ℕ) (s : Async E) (i : ℕ) (h : Handle) (e : E)
    → Reachable size s
    → s.panicked ≡ false
    → s.buffer_closed ≡ true
    → handle_at i s.handles ≡ some h
    → h.closed ≡ false
    → (t : Async E) × Reachable size t × (t.panicked ≡ true)
open_copy_panics size s i h e r live closed at_i unclosed =
    let called = record s { sending = e ∷ s.sending } in
    let begins_there : Step s called = subst (Step s) (begun h e s unclosed) (begins i h e at_i) in
    (
      send e s.sending called,
      follows called (send e s.sending called) (follows s called r live begins_there) live
          (sends e s.sending refl),
      sent e s.sending called closed,
    )
