-- ===== src/Errors/Laws.antt =====
-- What wrapping keeps, and how codes and their texts correspond.
use mcp_memory_core.Base.{◌≡◌, ◌↔◌, refl, String, eq_iff, true, none, some, List, [], ◌∷◌, arith}
use mcp_memory_core.Errors.Codes.{ErrorCode, code_string, of_string, find_code, named_codes}
use mcp_memory_core.Errors.{
  GoError, AppError, app, plain, stack_of, unwrap, wrap, get_code, get_message, get_internal, is,
}

find_code_text : (s : String) (cs : List ErrorCode) → code_string (find_code s cs) ≡ s
unfolding find_code code_string
find_code_text s [] = refl
find_code_text s (c ∷ cs) = ground (arith, eq_iff (code_string c) s, find_code_text s cs)

-- Converting any text to a code and back gives the text, constants and unknown codes alike.
pub code_string-of_string : (s : String) → code_string (of_string s) ≡ s
unfolding of_string
code_string-of_string s = find_code_text s named_codes

-- The stack of an application error; other errors have none.
abbrev pub stack_of_error : GoError → List String
stack_of_error (plain s) = []
stack_of_error (app a) = stack_of a

-- Wrapping an error sets the code and the message, makes the wrapped error the one that Unwrap and
-- GetInternal answer, and keeps the stack of an application error; wrapping nil is nil.
pub wrap_readers :
    (e : GoError) (c : ErrorCode) (m : String)
    → (wrap none c m ≡ none)
      × ((w : AppError) × (wrap (some e) c m ≡ some w)
          × (get_code (some (app w)) ≡ c)
          × (get_message (some (app w)) ≡ m)
          × (unwrap w ≡ some e)
          × (get_internal (some (app w)) ≡ some e)
          × (stack_of w ≡ stack_of_error e))
unfolding wrap get_code get_message unwrap get_internal
wrap_readers (plain s) c m = (refl, (_, refl, refl, refl, refl, refl, refl))
wrap_readers (app a) c m = (refl, (_, refl, refl, refl, refl, refl, refl))

-- Is looks at the outermost code only: after wrapping it answers whether the texts of the new code
-- and of the one asked for are equal.
pub is-wrap :
    (e : GoError) (c d : ErrorCode) (m : String) (w : AppError)
    → wrap (some e) c m ≡ some w
    → (is (some (app w)) d ≡ true) ↔ (code_string c ≡ code_string d)
unfolding wrap is
is-wrap (plain s) c d m w h = ground (arith, eq_iff (code_string c) (code_string d))
is-wrap (app a) c d m w h = ground (arith, eq_iff (code_string c) (code_string d))
