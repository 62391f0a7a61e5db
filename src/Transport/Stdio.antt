-- ===== src/Transport/Stdio.antt =====
-- internal/transport/stdio.go: the loop over the lines of standard input, over a handler of requests
-- with a state `S` of its own. Logging is left out.
pub mod Replies
use mcp_memory_core.Base.{
  ℕ, suc, String, ◌==◌, Bool, Option, none, some, List, [], ◌∷◌, if◌then◌else◌,
}
use mcp_memory_core.Base.Text.{trim_space}
use mcp_memory_core.Base.Json.{Value, null}
use mcp_memory_core.Errors.{GoError, AppError, app, plain, error_text, wrap}
use mcp_memory_core.Errors.Codes.{transport_invalid_json, transport_marshal}
use mcp_memory_core.Storage.{Ctx, CtxErr, later, ctx_error, Answer, ok, err}
use mcp_memory_core.Transport.Rpc.{JsonRpcRequest, JsonRpcResponse}
use mcp_memory_core.Transport.ErrorMapper.{to_json_rpc_response, create_fallback_error_response}
use Prim.Native.String.{◌++◌}

-- A *AppError as an error.
abbrev pub as_error : Option AppError → Option GoError
as_error none = none
as_error (some a) = some (app a)

-- The parameters: json.Marshal and json.Unmarshal, and the handler.
module _ {S R : Type 0} (encode : JsonRpcResponse R → Answer String)
    (parse : String → Answer JsonRpcRequest)
    (handler : JsonRpcRequest → S → S × JsonRpcResponse R) where
  abbrev pub or_nothing : Answer String → Option String
  or_nothing (ok bytes) = some bytes
  or_nothing (err e) = none

  abbrev pub or_fallback : Value → Answer String → Option String
  unfolding create_fallback_error_response
  or_fallback id (ok bytes) = some bytes
  or_fallback id (err e) =
      or_nothing (encode (create_fallback_error_response id "Critical serialization error"))

  abbrev pub or_error : Value → Answer String → Option String
  unfolding to_json_rpc_response wrap
  or_error id (ok bytes) = some bytes
  or_error id (err e) = or_fallback id (
      encode (
        to_json_rpc_response id
          (as_error (wrap (some e) transport_marshal "Failed to serialize response"))))

  -- The line that goes to standard output, if any.
  unfoldable pub send_response : JsonRpcResponse R → Option String
  send_response resp = or_error resp.id (encode resp)

  abbrev pub reply_to : Answer JsonRpcRequest → S → S × Option String
  unfolding send_response to_json_rpc_response wrap
  reply_to (err e) s = (
    s,
    send_response (
        to_json_rpc_response null
          (as_error (wrap (some e) transport_invalid_json "Invalid JSON format"))),
  )
  reply_to (ok req) s = let r = handler req s in (r.0, send_response r.1)

  abbrev pub printed : Option String → List String → List String
  printed none lines = lines
  printed (some line) lines = line ∷ lines

  -- What the loop's body does with a line: the new state, and the lines it prints.
  unfoldable pub handle_line : String → S → S × Option String
  unfolding trim_space send_response
  handle_line line s =
      if trim_space line == "" then (s, none) else reply_to (parse (trim_space line)) s

  abbrev pub finished : Option GoError → Option GoError
  finished none = none
  finished (some e) = some (plain ("error reading from stdin: " ++ error_text e))

  -- `o` is what the line printed and `rest` the outcome of the lines after it.
  abbrev pub continued :
      Option CtxErr
      → S
      → Option String
      → S × (List String × Option GoError)
      → S × (List String × Option GoError)
  continued (some c) s o rest = (s, ([], some (ctx_error c)))
  continued none s o (last, (lines, e)) = (last, (printed o lines, e))

  -- The loop of Start. `running` is what each test of t.running finds, `ctx` what each poll of the
  -- context finds, and `failed` the error of the scanner after the last line; io.EOF is no error.
  -- The result is the handler's last state, the printed lines and the error that Start returns.
  unfoldable pub start :
      Ctx → (ℕ → Bool) → Option GoError → List String → S → S × (List String × Option GoError)
  unfolding handle_line ctx_error
  start ctx running failed [] s = if running 0 then (s, ([], finished failed)) else (s, ([], none))
  start ctx running failed (line ∷ lines) s =
      let (after, o) = handle_line line s in
      let rest = start (later 1 ctx) (λ k. running (suc k)) failed lines after in
      if running 0 then continued (ctx 0) s o rest else (s, ([], none))
