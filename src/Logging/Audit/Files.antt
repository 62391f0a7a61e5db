-- ===== src/Logging/Audit/Files.antt =====
-- The files of an audit logger (pkg/logging/audit.go): the log and the rotated files, which the code
-- names FilePath and FilePath.1, FilePath.2 and so on. A file is the list of what the writes have put
-- into it, a whole line each, or a part of one where a write has failed.
pub mod Rotation
use mcp_memory_core.Base.{
  ℕ, zero, suc, ◌+◌, ◌-◌, String, Bool, true, false, not, ◌&&◌, Option, none, some, List, [], ◌∷◌,
  eqb, is_some, if◌then◌else◌,
}
use mathlib.Core.List.{◌++◌}
use mcp_memory_core.Base.Int.{ℤ, pos, negsuc, is_less}

-- `is_open` is whether the logger's file is open. What the operating system does with the next
-- operations: `can_stat`, `can_close`, `can_rename` the log and `can_open` a new one; `can_move i` is
-- whether the rotated file `i` is seen by os.Stat and then removed or renamed without an error.
-- `cut_short` is none where a line is written whole, and where the write fails, as on a full disk, it
-- is the part of the line that has got into the file. `size` is the number of bytes of a file.
pub record AuditFiles : Type 0 where
  pub log : Option (List String)
  pub rotated : ℕ → Option (List String)
  pub is_open : Bool
  pub can_stat : Bool
  pub can_close : Bool
  pub can_rename : Bool
  pub can_open : Bool
  pub can_move : ℕ → Bool
  pub cut_short : String → Option String
  pub size : List String → ℕ

abbrev pub update : ℕ → Option (List String) → (ℕ → Option (List String)) → ℕ → Option (List String)
update i f fs j = if eqb i j then f else fs j

abbrev pub lines_of : Option (List String) → List String
lines_of none = []
lines_of (some lines) = lines

abbrev pub extended : String → AuditFiles → AuditFiles
extended text fs = record fs { log = some (lines_of fs.log ++ (text ∷ [])) }

-- The files after the write of a line, and whether it has succeeded.
abbrev pub write_open : String → Option String → AuditFiles → AuditFiles × Bool
write_open line none fs = (extended line fs, true)
write_open line (some part) fs = (extended part fs, false)

-- encoder.Encode of a line: a write fails on a closed file, and where the operating system fails.
unfoldable pub write_line : String → AuditFiles → AuditFiles × Bool
write_line line fs = if fs.is_open then write_open line (fs.cut_short line) fs else (fs, false)

-- The body of the loop of rotate, for the file `i`. The errors of os.Remove and os.Rename are ignored.
unfoldable pub move_up : (ℕ → Bool) → ℕ → ℕ → (ℕ → Option (List String)) → ℕ → Option (List String)
move_up can_move max i fs =
    if not (is_some (fs i) && can_move i)
    then fs
    else if eqb (i + 1) max
    then update i none fs
    else update i none (update (i + 1) (fs i) fs)

-- for i := MaxFiles - 1; i > 0; i--
unfoldable pub move_all : (ℕ → Bool) → ℕ → ℕ → (ℕ → Option (List String)) → ℕ → Option (List String)
unfolding move_up
move_all can_move max zero fs = fs
move_all can_move max (suc i) fs = move_all can_move max i (move_up can_move max (suc i) fs)

-- MaxFiles, which the constructor makes positive.
abbrev pub file_count : ℤ → ℕ
file_count (pos n) = n
file_count (negsuc n) = 0

unfoldable pub rotate : ℤ → AuditFiles → AuditFiles
unfolding move_all
rotate max fs =
    if not fs.can_close
    then fs
    else let moved = move_all fs.can_move (file_count max) (file_count max - 1) fs.rotated in
      let closed = record fs { is_open = false; rotated = moved } in
      if not (fs.can_rename && is_some fs.log)
      then closed
      else let renamed = record closed { log = none; rotated = update 1 fs.log moved } in
        if fs.can_open then record renamed { log = some []; is_open = true } else renamed

-- The size of the log reaches the maximum.
unfoldable pub is_full : ℤ → AuditFiles → Bool
is_full max_size fs = not (is_less (pos (fs.size (lines_of fs.log))) max_size)

unfoldable pub check_rotation : ℤ → ℤ → AuditFiles → AuditFiles
unfolding rotate is_full
check_rotation max_size max fs =
    if not fs.can_stat then fs else if is_full max_size fs then rotate max fs else fs
