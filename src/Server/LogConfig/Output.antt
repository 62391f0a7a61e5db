-- ===== src/Server/LogConfig/Output.antt =====
-- Where the logs of cmd/mcp-server/main.go go.
use Prim.Native.Char.{Char}
use mcp_memory_core.Base.{
  ◌≡◌, ◌↔◌, refl, sym, ◌∙◌, String, ◌==◌, eq_iff, Bool, true, false, Option, none, some, arith,
}
use mcp_memory_core.Config.{Settings}
use mcp_memory_core.Config.Logging.{LoggingSettings}
use mcp_memory_core.Server.LogConfig.{
  LogOutput, stdout, output_of, with_settings, apply_env_overrides, configured,
  convert_legacy_log_config,
}

is_stdout : LogOutput → Bool
is_stdout stdout = true
is_stdout _ = false

kept_off_stdout :
    {F : Type 0} (u : Char → Char) (level : String) (l : Option (LoggingSettings F))
    → is_stdout (configured u true level l).output ≡ false
unfolding configured is_stdout with_settings output_of
kept_off_stdout u level none = refl
kept_off_stdout u level (some l) = ground arith

stdout_iff : (o : LogOutput) → (o ≡ stdout) ↔ (is_stdout o ≡ true)
unfolding is_stdout
stdout_iff stdout = (λ h. refl, λ h. refl)
stdout_iff _ = (λ h. absurd (cc h), λ h. absurd (cc h))

overridden :
    (u : Char → Char) (name : String) (kept : LogOutput)
    → is_stdout kept ≡ false
    → is_stdout (output_of u false name kept) ≡ (name == "stdout")
unfolding output_of is_stdout
overridden u name kept h = ground (arith, h, eq_iff name "stdout")

on_stdout :
    (o : LogOutput) (name : String)
    → is_stdout o ≡ (name == "stdout")
    → (o ≡ stdout) ↔ (name ≡ "stdout")
on_stdout o name h = (
  λ out. (eq_iff name "stdout").0 (sym h ∙ (stdout_iff o).0 out),
  λ named. (stdout_iff o).1 (h ∙ (eq_iff name "stdout").1 named),
)

-- With the stdio transport, logs go to standard output, among the JSON-RPC responses, exactly if
-- the environment variable MCP_LOG_OUTPUT is "stdout", whatever the settings say.
pub stdio_logs_iff :
    {F : Type 0} (u : Char → Char) (env : String → String) (cfg : Settings F)
    → cfg.transport_type ≡ "stdio"
    → ((convert_legacy_log_config u env cfg).output ≡ stdout) ↔ (env "MCP_LOG_OUTPUT" ≡ "stdout")
unfolding convert_legacy_log_config apply_env_overrides
stdio_logs_iff u env cfg stdio = rw stdio (
    on_stdout _ (env "MCP_LOG_OUTPUT")
      (overridden u (env "MCP_LOG_OUTPUT") _ (kept_off_stdout u cfg.log_level cfg.logging)))
