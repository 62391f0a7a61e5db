-- ===== src/Errors.antt =====
-- pkg/errors/errors.go: the application error, its constructors and its readers. A Go `error` is
-- an `Option GoError`, with `none` for nil.
pub mod Codes
pub mod Http
pub mod Laws
pub mod Status
use Prim.Native.String.{◌++◌}
use mcp_memory_core.Base.{
  String, ◌==◌, Bool, true, false, Option, none, some, List, [], ◌∷◌, if◌then◌else◌,
}
use mcp_memory_core.Base.Json.{Value, null}
use Codes.{
  ErrorCode, custom, code_string, internal, entity_not_found, entity_already_exists,
  validation_required, validation_invalid,
}

mutual
  -- `plain` is an error of any other type, known by its `Error()`.
  pub data GoError : Type 0 where
    plain : String → GoError
    app : AppError → GoError

  -- The fields Code, Message, Details, Internal and Stack.
  pub data AppError : Type 0 where
    app_error : ErrorCode → String → Value → Cause → List String → AppError

  -- The field Internal, which may be nil.
  pub data Cause : Type 0 where
    no_cause : Cause
    cause : GoError → Cause

abbrev pub code_of : AppError → ErrorCode
code_of (app_error c m d i s) = c

abbrev pub message_of : AppError → String
message_of (app_error c m d i s) = m

abbrev pub details_of : AppError → Value
details_of (app_error c m d i s) = d

abbrev pub cause_of : AppError → Cause
cause_of (app_error c m d i s) = i

abbrev pub stack_of : AppError → List String
stack_of (app_error c m d i s) = s

-- err.Error() of any error
unfoldable pub error_text : GoError → String
error_text (plain s) = s
error_text (app e) = message_of e

unfoldable pub unwrap : AppError → Option GoError
unwrap (app_error c m d no_cause s) = none
unwrap (app_error c m d (cause e) s) = some e

-- The methods that write to the receiver return the new value.
unfoldable pub with_details : AppError → Value → AppError
with_details (app_error c m d i s) details = app_error c m details i s

abbrev append_entry : List String → String → List String
append_entry [] entry = entry ∷ []
append_entry (x ∷ xs) entry = x ∷ append_entry xs entry

unfoldable pub with_stack : AppError → String → AppError
with_stack (app_error c m d i s) entry = app_error c m d i (append_entry s entry)

-- New; and Newf and Wrapf with the message already formatted.
unfoldable pub new : ErrorCode → String → AppError
new code message = app_error code message null no_cause []

unfoldable pub wrap : Option GoError → ErrorCode → String → Option AppError
wrap none code message = none
wrap (some (app e)) code message = some (app_error code message null (cause (app e)) (stack_of e))
wrap (some (plain s)) code message = some (app_error code message null (cause (plain s)) [])

-- Wrap of an error that is not nil.
unfoldable pub wrap_error : GoError → ErrorCode → String → AppError
wrap_error (app e) code message = app_error code message null (cause (app e)) (stack_of e)
wrap_error (plain s) code message = app_error code message null (cause (plain s)) []

-- `==` on error codes, which are texts
unfoldable pub same_code : ErrorCode → ErrorCode → Bool
same_code c d = code_string c == code_string d

unfoldable pub is : Option GoError → ErrorCode → Bool
unfolding same_code
is none code = false
is (some (plain s)) code = false
is (some (app e)) code = same_code (code_of e) code

unfoldable pub is_any : Option GoError → List ErrorCode → Bool
is_any err [] = false
is_any err (c ∷ cs) = let rest = is_any err cs in if is err c then true else rest

unfoldable pub get_code : Option GoError → ErrorCode
get_code none = custom ""
get_code (some (plain s)) = internal
get_code (some (app e)) = code_of e

unfoldable pub get_message : Option GoError → String
get_message none = ""
get_message (some (plain s)) = "An internal error occurred"
get_message (some (app e)) = message_of e

abbrev inner : AppError → Cause → GoError
inner e no_cause = app e
inner e (cause i) = i

unfoldable pub get_internal : Option GoError → Option GoError
get_internal none = none
get_internal (some (plain s)) = some (plain s)
get_internal (some (app e)) = some (inner e (cause_of e))

unfoldable pub not_found : String → AppError
unfolding new
not_found resource = new entity_not_found (resource ++ " not found")

unfoldable pub already_exists : String → AppError
unfolding new
already_exists resource = new entity_already_exists (resource ++ " already exists")

unfoldable pub required : String → AppError
unfolding new
required name = new validation_required (name ++ " is required")

unfoldable pub invalid : String → String → AppError
unfolding new
invalid name reason = new validation_invalid (name ++ " is invalid: " ++ reason)

-- Internal
unfoldable pub internal_error : Option GoError → Option AppError
unfolding wrap
internal_error err = wrap err internal "An internal error occurred"
