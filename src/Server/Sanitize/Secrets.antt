-- ===== src/Server/Sanitize/Secrets.antt =====
-- The replies to failed tool calls hide the words that cmd/mcp-server/main.go looks for.
use Prim.Native.Char.{Char}
use Prim.Native.String.{◌++◌}
use mcp_memory_core.Base.{
  ◌≡◌, refl, ◌∙◌, String, Bool, true, false, arith, Bool-cases, inl, inr, if◌then◌else◌,
}
use mcp_memory_core.Base.Text.{contains, has_prefix, to_lower}
use mcp_memory_core.Base.Text.Search.{
  to_lower-append, contains-append_left, is_clear, contains-clear,
}
use mcp_memory_core.Errors.{GoError, plain, app, app_error, no_cause, cause, error_text}
use mcp_memory_core.Server.Sanitize.{
  friendly, sanitize_error_string, full_text, needs_sanitization, error_message,
}

if_both {ℓ κ} :
    {A : Type ℓ} (P : A → Type κ) (b : Bool) (x y : A) → P x → P y → P (if b then x else y)
if_both P true x y hx hy = hx
if_both P false x y hx hy = hy

-- The friendly messages are these eight.
friendly_cases {ℓ} :
    (P : String → Type ℓ)
    → P "Storage operation failed"
    → P "Memory operation failed"
    → P "Access denied"
    → P "Connection error"
    → P "Operation timed out"
    → P "Requested resource not found"
    → P "Invalid input provided"
    → P "Internal server error"
    → (s : String) → P (friendly s)
unfolding friendly
friendly_cases P storage memory access connection timeout missing invalid other s =
    if_both P _ _ _ storage (
      if_both P _ _ _ memory (
        if_both P _ _ _ access (
          if_both P _ _ _ connection
            (if_both P _ _ _ timeout (if_both P _ _ _ missing (if_both P _ _ _ invalid other))))))

-- In lower case the text has none of the four words.
abbrev pub IsClean : (Char → Char) → String → Type 0
IsClean u s =
    (contains (to_lower u s) "password" ≡ false)
    × (contains (to_lower u s) "secret" ≡ false)
    × (contains (to_lower u s) "token" ≡ false)
    × (contains (to_lower u s) "key" ≡ false)

friendly-IsClean : (u : Char → Char) (s : String) → IsClean u (friendly s)
unfolding to_lower contains has_prefix
friendly-IsClean u =
    friendly_cases (IsClean u) (refl, refl, refl, refl) (refl, refl, refl, refl)
      (refl, refl, refl, refl) (refl, refl, refl, refl) (refl, refl, refl, refl)
      (refl, refl, refl, refl) (refl, refl, refl, refl) (refl, refl, refl, refl)

-- A word that the full text lacks is not in the error's own text.
absent_in_text :
    (u : Char → Char) (e : GoError) (word : String)
    → contains (to_lower u (full_text e)) word ≡ false
    → contains (to_lower u (error_text e)) word ≡ false
unfolding full_text
absent_in_text u (plain s) word h = h
absent_in_text u (app (app_error c m d no_cause stack)) word h = h
absent_in_text u (app (app_error c m d (cause e) stack)) word h = ground (
  arith,
  contains-append_left (to_lower u m) (to_lower u (": " ++ error_text e)) word,
  to_lower-append u m (": " ++ error_text e),
)

-- The words are not in "internal error: ", nor do they begin there.
absent_after_label :
    (u : Char → Char) (s word : String)
    → is_clear "internal error: " word ≡ true
    → contains (to_lower u s) word ≡ false
    → contains (to_lower u ("Internal error: " ++ s)) word ≡ false
unfolding to_lower
absent_after_label u s word clear h =
    rw (to_lower-append u "Internal error: " s)
      (contains-clear "internal error: " (to_lower u s) word clear ∙ h)

-- The reply to a failed tool call has none of the words "password", "secret", "token" and "key", in
-- upper or lower case, whatever the error and the errors that it wraps say.
pub error_message-IsClean : (u : Char → Char) (e : GoError) → IsClean u (error_message u e)
unfolding error_message sanitize_error_string
error_message-IsClean u e = elim (Bool-cases (needs_sanitization (to_lower u (full_text e)))) [
  | inl found ↦ rw found (friendly-IsClean u (to_lower u (full_text e)))
  | inr clean ↦ rw clean (
    absent_after_label u (error_text e) "password" refl
        (absent_in_text u e "password" (ground arith)),
    absent_after_label u (error_text e) "secret" refl (absent_in_text u e "secret" (ground arith)),
    absent_after_label u (error_text e) "token" refl (absent_in_text u e "token" (ground arith)),
    absent_after_label u (error_text e) "key" refl (absent_in_text u e "key" (ground arith)),
  )
]
