-- ===== src/Logging/Masker.antt =====
-- pkg/logging/masker.go: the masking of sensitive data. A compiled regular expression is a parameter,
-- the function that cuts the bytes of a text into what it matches and what lies between.
pub mod Shown
use Prim.Native.Nat.{ℕ, ◌-◌}
use Prim.Native.Char.{Char, code}
use Prim.Native.String
use Prim.Native.String.{String}
use mcp_memory_core.Base.Hash.{utf8}
use mcp_memory_core.Base.{
  zero, suc, ◌==◌, Bool, true, false, ◌||◌, not, Option, none, some, List, [], ◌∷◌, any, leb,
  length, if◌then◌else◌,
}
use mathlib.Core.List
use mcp_memory_core.Base.Json.{Value, null, boolean, number, str, array, object}
use mcp_memory_core.Base.Text.{contains, to_lower}

pub record MaskingConfig : Type 0 where
  pub enabled : Bool
  pub fields : List String
  pub patterns : List String
  pub mask_emails : Bool
  pub mask_phone_numbers : Bool
  pub mask_credit_cards : Bool
  pub mask_ssn : Bool
  pub mask_api_keys : Bool

-- The bytes of a text.
unfoldable pub bytes_of : String → List ℕ
unfolding utf8
bytes_of String.[] = []
bytes_of (String.◌∷◌ c s) = List.◌++◌ (utf8 (code c)) (bytes_of s)

pub data Piece : Type 0 where
  between matched : List ℕ → Piece

-- What a regular expression makes of the bytes of a text.
abbrev pub Pattern : Type 0
Pattern = List ℕ → List Piece

pub record Masker : Type 0 where
  pub config : MaskingConfig
  pub patterns : List Pattern

-- s[:n] and s[n:]
unfoldable pub first : ℕ → List ℕ → List ℕ
first zero s = []
first (suc n) [] = []
first (suc n) (b ∷ s) = b ∷ first n s

unfoldable pub after : ℕ → List ℕ → List ℕ
after zero s = s
after (suc n) [] = []
after (suc n) (b ∷ s) = after n s

-- strings.Repeat("*", n)
unfoldable pub stars : ℕ → List ℕ
stars zero = []
stars (suc n) = b'*' ∷ stars n

-- A match of more than four bytes keeps the first two and the last two.
unfoldable pub mask_match : List ℕ → List ℕ
unfolding first after stars
mask_match s =
    if leb (length s) 4
    then stars 3
    else List.◌++◌ (first 2 s) (List.◌++◌ (stars (length s - 4)) (after (length s - 2) s))

-- pattern.ReplaceAllStringFunc
unfoldable pub replace_all : List Piece → List ℕ
unfolding mask_match
replace_all [] = []
replace_all (between s ∷ ps) = List.◌++◌ s (replace_all ps)
replace_all (matched s ∷ ps) = List.◌++◌ (mask_match s) (replace_all ps)

unfoldable pub mask_bytes : List Pattern → List ℕ → List ℕ
unfolding replace_all
mask_bytes [] s = s
mask_bytes (p ∷ ps) s = mask_bytes ps (replace_all (p s))

-- MaskString. `decode` is the text of bytes, as an encoder shows it: where the masking has cut a
-- character, some of its bytes stand alone.
unfoldable pub mask_string : (List ℕ → String) → List Pattern → String → String
unfolding mask_bytes bytes_of
mask_string decode ps s = decode (mask_bytes ps (bytes_of s))

abbrev pub sensitive_fields : List String
sensitive_fields =
    "password" ∷ "passwd" ∷ "pwd" ∷ "secret" ∷ "token" ∷ "key" ∷ "auth" ∷ "authorization"
    ∷ "credential" ∷ "private" ∷ "confidential" ∷ []

-- A value that is not a text keeps its kind.
abbrev pub masked_value : (String → String) → Value → Value
masked_value mask (str s) = str (mask s)
masked_value mask null = null
masked_value mask (boolean b) = boolean b
masked_value mask (number s) = number s
masked_value mask (array xs) = array xs
masked_value mask (object fs) = object fs

-- `u` is unicode.ToLower beyond ASCII.
module _ (u : Char → Char) (decode : List ℕ → String) where
  unfoldable pub should_mask_field : MaskingConfig → String → Bool
  unfolding to_lower contains
  should_mask_field config name =
      any (λ f. to_lower u f == to_lower u name) config.fields
      || any (λ w. contains (to_lower u name) w) sensitive_fields

  -- The value of an attribute.
  unfoldable pub mask_attr : Masker → String → Value → Value
  unfolding should_mask_field mask_string
  mask_attr m name v =
      if not m.config.enabled
      then v
      else if should_mask_field m.config name
      then str "***MASKED***"
      else masked_value (mask_string decode m.patterns) v

-- regexp.Compile is a parameter; a pattern that it refuses is left out.
module _ (compile : String → Option Pattern) where
  abbrev pub add_pattern : Bool → String → List Pattern → List Pattern
  add_pattern false p ps = ps
  add_pattern true p ps = elim (compile p) [ none ↦ ps | some re ↦ List.◌++◌ ps (re ∷ []) ]

  unfoldable pub compile_all : List String → List Pattern
  compile_all [] = []
  compile_all (p ∷ ps) =
      let rest = compile_all ps in elim (compile p) [ none ↦ rest | some re ↦ re ∷ rest ]

  unfoldable pub new_masker : MaskingConfig → Masker
  unfolding compile_all
  new_masker config = record {
    config = config;
    patterns = add_pattern config.mask_api_keys "(?i)\\b[a-z0-9]{32,}\\b" (
        add_pattern config.mask_ssn "\\b\\d{3}-?\\d{2}-?\\d{4}\\b" (
          add_pattern config.mask_credit_cards "\\b\\d{4}[-\\s]?\\d{4}[-\\s]?\\d{4}[-\\s]?\\d{4}\\b"
            (add_pattern config.mask_phone_numbers "\\b\\d{3}[-.]?\\d{3}[-.]?\\d{4}\\b" (
              add_pattern config.mask_emails "[a-zA-Z0-9._%+-]+@[a-zA-Z0-9.-]+\\.[a-zA-Z]{2,}"
                (compile_all config.patterns)))));
  }
