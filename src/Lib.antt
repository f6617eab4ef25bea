-- ===== src/Lib.antt =====
-- Verification of the Python library of agentware, the layer between an agent's model and its tools:
-- python/src/haikeilabs/agentware. Paths below are relative to that directory.
--
-- A tool call passes through `MiddlewareImpl.execute` (middleware/middleware.py) or
-- `AuditedToolClient.Execute` (middleware/tool_client.py): a policy evaluator decides, an auditor
-- records the decision, and only then the tool runs, with redacted arguments where the decision
-- filters. Two evaluators are modelled: the policy bundle of the control plane
-- (kei/policy_bundle.py), and the client of kei-proxy (kei/evaluator.py). Around the model stand the
-- guardrails (middleware/guardrails) and the compaction of the conversation (llmcontext), which
-- `run_inference` (middleware/inference.py) puts together. `InferenceExecutor.execute`
-- (executor/executor.py) alternates the model and the tools. Tools are declared in a manifest
-- (toolspec), and those of connectors are called over the MCP route of kei-proxy (kei/mcproute.py).
-- The manifest is registered with the control plane (kei/tool_sync.py), and a runtime child is
-- supervised (kei/runtime_link.py).
--
-- Files and the code they model:
--   Prelude       shared helpers: tests on numbers, lists, dictionaries, texts, Python values, and
--                 `Exec`, code that reads and writes a state and may raise
--   Types         middleware/types.py: `CallerContext`, `delegate`, `Decision`, `MessageMeta`
--   Audit         middleware/audit.py: `InMemoryAuditor`, its records and `query`
--   Middleware    middleware/middleware.py: `MiddlewareImpl`; Journal, what it does to its collaborators
--   ToolClient    middleware/tool_client.py: `AuditedToolClient`
--   Bundle        kei/policy_bundle.py: `Rule`, `Condition`, `PolicyBundleData.evaluate`
--   Bundle.Wire   `from_wire`, `_parse_rule`, `_parse_condition`, `to_dict`
--   Bundle.Lifecycle  `PolicyBundleLifecycle`: credentials, start, refresh, evaluate, the cached file
--   Evaluator     kei/evaluator.py: `KeiProxyEvaluator`, `AuthorizationResponse`, `resources_touched`
--   Guardrails    middleware/guardrails: nudge.py, step_enforcer.py, error_tracker.py,
--                 response_validator.py, facade.py, each in the module of its name
--   Llm           llm: messages, tool calls, responses, and the protocol of a backend
--   Executor      executor/executor.py: `InferenceExecutor.execute`; Guarded, an agent whose tool
--                 executor is the middleware
--   Inference     middleware/inference.py: what `run_inference` makes of a response; Loop, its rounds
--   ToolSpec      toolspec/__init__.py: `ToolSpec.to_wire`, `serialize_tool_specs`; Parse and
--                 Manifest, `parse_manifest_v3`
--   McpRoute      kei/mcproute.py: errors and results; Transport, `Client._send`; Stream,
--                 `Client._read_sse`; Client, `call`, `list_tools`, `call_tool`
--   RuntimeLink   kei/runtime_link.py: its vocabulary; Config, `normalize_config` and the backoff;
--                 Lines, `parse_child_line_counted`; Machine, the handlers and transitions of `Link`;
--                 Machine.Supervisor, `start`, `stop` and `_supervise` as a step relation
--   ToolSync      kei/tool_sync.py: configuration, client and requests of a sync; Attempts,
--                 `sync_tool_manifest`, `sync_tool_specs`, `sync_manifest_path`
--   Context       llmcontext/strategies.py: `TieredCompact`; the default token counter of
--                 llmcontext/context_window.py
--   Context.Window  llmcontext/context_window.py: `ContextWindowManager`
--   Jobs          jobs/manager.py and jobs/job.py: `InMemoryJobManager`
--   Tests         concrete inputs, and the theorems at them
--
-- State. An object is a record, and a method a function from the record to the record, beside its
-- result. Where collaborators are called, the state of all of them is one type `W`, and the calls are
-- in `Exec W`: what was written before an exception stays written. The clock, the environment, the
-- outcome of a fetch and of a write to disk are arguments.
--
-- Taken from outside, as parameters: `str`, `int`, `lower`, regular expressions and ISO dates
-- (`Prelude.Python`, with the laws that the round trip uses), `json.loads` and the compiled patterns
-- of the response validator, the SHA-256 digest, `inspect.signature`, `uuid4`,
-- `strftime`, the operations on float ratios of the context window, the extraction of reasoning, and
-- for the MCP route what httpx does with a request, URLs, IP addresses and `lstat`. A date is a number of
-- clock ticks without time zone, and a float its `repr`. The patterns and the JSON parser of the
-- runtime link are given from outside, and so is the product of a jitter and a delay; its durations
-- and times are whole milliseconds.
--
-- Bounds. The scan for braces of the response validator recurses on fuel, the length of the text,
-- which is enough since each round of the loop takes at least one character; the decimal digits of a
-- number recurse on the number itself, since each round divides it by ten. The loops of the
-- executor and of `run_inference` recurse on the rounds that their own limit leaves. All other loops
-- run over a list, but for the attempts of a sync, which recurse on their number.
--
-- Not modelled: the tool registry, tool formats, memory, the extraction of reasoning, the
-- dictionaries of the events of the runtime link and its process with the timers, the runtime
-- socket, configuration, and what only reads and writes the outside world (HTTP, sockets,
-- subprocesses, logging).
pub mod Prelude
pub mod Types
pub mod Audit
pub mod Middleware
pub mod ToolClient
pub mod Bundle
pub mod Evaluator
pub mod Guardrails
pub mod Llm
pub mod Executor
pub mod Inference
pub mod ToolSpec
pub mod McpRoute
pub mod RuntimeLink
pub mod ToolSync
pub mod Jobs
pub mod Context
pub mod Tests
