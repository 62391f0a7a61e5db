-- ===== src/Storage/Factory.antt =====
-- internal/storage/factory.go: the backend that the settings name. `B` are the backends, `memory`
-- the empty one of NewMemoryBackend, and `open_sqlite` is NewSqliteBackend.
pub mod Started
use Prim.Native.String.{◌++◌}
use mcp_memory_core.Base.{String, ◌==◌, ◌||◌, Bool, Option, none, some, if◌then◌else◌}
use mcp_memory_core.Errors.{GoError, app, new}
use mcp_memory_core.Errors.Codes.{configuration}
use mcp_memory_core.Storage.{Answer, ok, err}
use mcp_memory_core.Config.{Settings}

module _ {B : Type 0} (memory : B) (open_sqlite : String → Bool → Answer B) where
  abbrev pub refusal : String → Answer B
  unfolding new
  refusal message = err (app (new configuration message))

  unfoldable pub new_backend : {F : Type 0} → Option (Settings F) → Answer B
  unfolding refusal
  new_backend none = refusal "Configuration cannot be nil"
  new_backend (some cfg) =
      if cfg.storage_type == "sqlite"
      then (if cfg.storage_path == ""
          then refusal "Storage path is required for SQLite backend"
          else open_sqlite cfg.storage_path cfg.wal_mode)
      else if cfg.storage_type == "memory" || cfg.storage_type == ""
      then ok memory
      else refusal ("Unsupported storage type: " ++ cfg.storage_type)
