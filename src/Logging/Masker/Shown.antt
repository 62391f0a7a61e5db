-- ===== src/Logging/Masker/Shown.antt =====
-- What the masking of pkg/logging/masker.go lets through.
use Prim.Native.Nat.{◌-◌}
use mcp_memory_core.Base.{◌≡◌, refl, true, List, [], ◌∷◌, leb, length, ℕ}
use mcp_memory_core.Logging.Masker.{Piece, between, matched, first, after, mask_match, replace_all}

-- Two matches that look alike when they are masked: both are short, or they have the same length and
-- the same two bytes at each end.
pub data LookAlike (s t : List ℕ) : Type 0 where
  short : leb (length s) 4 ≡ true → leb (length t) 4 ≡ true → LookAlike s t
  long :
      length s ≡ length t
      → first 2 s ≡ first 2 t
      → after (length s - 2) s ≡ after (length t - 2) t
      → LookAlike s t

-- Texts that are cut into pieces the same way, with the same text between the matches.
pub data Alike : List Piece → List Piece → Type 0 where
  done : Alike [] []
  same : (s : List ℕ) (ps qs : List Piece) → Alike ps qs → Alike (between s ∷ ps) (between s ∷ qs)
  like :
      (s t : List ℕ) (ps qs : List Piece)
      → LookAlike s t
      → Alike ps qs
      → Alike (matched s ∷ ps) (matched t ∷ qs)

mask_match_alike : (s t : List ℕ) → LookAlike s t → mask_match s ≡ mask_match t
unfolding mask_match
mask_match_alike s t (short a b) = rw (a, b) refl
mask_match_alike s t (long l f e) = rw (e, f, l) refl

-- The replacement of the matches gives nothing of a match away but its number of bytes and two bytes
-- at each end, and of a match of at most four bytes nothing but that it is so short: texts that are cut
-- the same way and agree in the rest become the same bytes.
pub replace_all-Alike : (ps qs : List Piece) → Alike ps qs → replace_all ps ≡ replace_all qs
unfolding replace_all
replace_all-Alike _ _ done = refl
replace_all-Alike _ _ (same s ps qs h) = rw (replace_all-Alike ps qs h) refl
replace_all-Alike _ _ (like s t ps qs l h) =
    rw (mask_match_alike s t l, replace_all-Alike ps qs h) refl
