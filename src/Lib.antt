-- ===== src/Lib.antt =====
-- A model of mcp-memory-core: a server that keeps entities for a client and speaks JSON-RPC over
-- standard input, HTTP or server-sent events.
--
-- A request goes from a transport to the server, from there as a tool call to the manager, and from
-- the manager to a storage backend; the reply comes back the same way, and the transport picks its
-- HTTP status. The settings choose the transport and the backend.
--
-- Which file models what:
--   Errors          pkg/errors/errors.go: the application error and its readers; Errors/Codes has the
--                   error codes, Errors/Http the statuses of pkg/errors/http.go.
--   Storage         pkg/mcp/types.go and internal/storage/backend.go: entities, contexts and the
--                   interface Backend. Storage/Lawful is the contract that the manager relies on,
--                   Storage/Memory the backend of internal/storage/memory.go, Storage/Sqlite that
--                   of internal/storage/sqlite.go, and Storage/Factory NewBackend of
--                   internal/storage/factory.go.
--   Knowledge       internal/knowledge/manager.go: the checks of the arguments and the preparation of
--                   a batch; Knowledge/Manager has HandleCallTool and the handlers.
--   Config          pkg/config/config.go: Validate; Config/Logging has validateLoggingConfig.
--   Transport       internal/transport: Rpc (transport.go), ErrorMapper (error_mapper.go), Session
--                   (session.go), Http (http.go), Stdio (stdio.go) and Factory (factory.go).
--   Server          cmd/mcp-server/main.go: Validate (validateRequest), Names (isValidToolName),
--                   Sanitize (sanitizeErrorString), Call (HandleRequest, handleToolsList and
--                   handleToolsCall), LogConfig (convertLegacyLogConfig and applyEnvOverrides).
--   Transport/Sse   internal/transport/sse.go: the connection of a client and the queue of its session;
--                   Steps has the steps that its goroutines take, Rpc the endpoint /rpc.
--   Logging         pkg/logging: Sampler (sampler.go), Strategy (sampling_strategies.go:
--                   FixedRate, AdaptiveLoad, PriorityBased, TailBased, and Advanced, which
--                   combines them), Async (async.go), Level (level.go; Hierarchy and Dynamic have
--                   the handlers that override a level), Masker (masker.go), Audit (audit.go;
--                   Files has the rotation of the log's files, Events the events of the Log
--                   methods), ErrorMetrics (error_metrics.go), Health (health.go), Factory
--                   (GetLogger and UpdateLevel of factory.go) and Otlp (the validation of
--                   OTLPConfig in config.go).
--   Base            maps, texts, lists, JSON values, integers, float64 and hashes; Tests the theorems
--                   at concrete inputs.
--
-- How the code is translated. A Go function keeps its name in lower case with underscores. A method
-- that writes to its receiver takes the state and returns the new one beside its result. An `error`
-- is an option, a pair (T, error) an Answer. A map is an association list, whose order stands for the
-- order of `range`; where that order can differ between two calls, each call has a map of its own. A
-- context is the sequence of what each poll of ctx.Done() finds, so a call can be canceled between any
-- two polls. A method that holds a lock for its whole body is one step; where a lock is released in
-- between, as in the cleanup of sessions, or where goroutines share a channel, as in the asynchronous
-- log handler, there are several. Every loop runs over a list, so no fuel is needed.
--
-- What comes from outside is an argument: the SQL driver (Storage/Sqlite/Driver), json.Marshal
-- and json.Unmarshal, mapstructure.Decode, the clock, UUIDs and random IDs, the table of
-- unicode.ToLower beyond ASCII, the operations and comparisons of float64 (Base/Float), the
-- hash SHA-256, the matches of a regular expression in the bytes of a text, the text that an
-- encoder shows for bytes, url.Parse, the files of the audit log with the errors of the
-- operating system, and the figures of the Go runtime. Go's int has no bounds where the code
-- only compares the integers it reads; the 64-bit counters of the logging wrap around.
--
-- Not modelled: the schema of the database, sockets and the shutdown of the servers, the
-- recovery from panics, the metrics for Prometheus, the tracing, the export to OTLP, the
-- logging middleware and its context, the helpers that log errors, and the admin server.
pub mod Base
pub mod Errors
pub mod Storage
pub mod Knowledge
pub mod Config
pub mod Logging
pub mod Transport
pub mod Server
pub mod Tests
