-- ===== src/Lib.antt =====
-- A verification library for the AshJazz AI agent framework (pkg/ai).
--
-- The framework's parts and how they interact. A caller asks a model through an llm.Provider; the
-- resilience package wraps the provider with a circuit breaker, counts upstream failures and traces
-- each outcome through the obs package. The rate limiter decides whether a call may start, and the
-- fallback cache serves exact and stale answers when it may not. The agent's executor asks a provider
-- for tool calls and runs them from its registry until the model answers or a limit is met. The rag
-- package cuts documents into chunks, which the vector store keeps, and its retriever finds
-- them there. The OpenAI adapter is such a provider: it maps requests and responses to the protocol,
-- classifies failures for the breaker, and turns a stream of events into a channel of chunks. The obs
-- package also keeps the chain of each request, scans what its logger and its spans send, and links the
-- planes of a request; the eval package scores predictions, with evidence that leads back to a request. The prompt
-- package finds a template by its name and version below a root, and renders it.
--
--   Errors                      errors.Is and %w of Go, pkg/ai/internal/apperror/errors.go
--   Json                        map[string]any values, their deep copies and reflect.DeepEqual
--   Llm                         pkg/ai/llm/llm.go
--   Obs.Identity                pkg/ai/obs/correlation.go
--   Obs.Summary                 pkg/ai/obs/safe_summary.go
--   Obs.Trace                   pkg/ai/obs/obs.go, trace_helpers.go, failure_trace.go,
--                               export_failure.go, observation_type.go
--   Resilience.CircuitBreaker   pkg/ai/resilience/circuit_breaker.go
--   Resilience.OutcomeTrace,
--   Resilience.ProviderWrapper  pkg/ai/resilience/provider_wrapper.go
--   RateLimit                   pkg/ai/ratelimit/memory_limiter.go
--   Cache                       pkg/ai/cache/memory_fallback.go
--   Agent.Tool                  pkg/ai/agent/agent.go
--   Agent.Registry              pkg/ai/agent/registry.go
--   Agent.Executor              pkg/ai/agent/executor.go; Loop is Run, Observation its traces
--   VectorDb                    pkg/ai/vectordb/vectordb.go and memory_store.go; Search is its search
--   Rag.Metadata, Rag.Chunker   pkg/ai/rag/rag.go and chunker_recursive.go
--   Rag.RetrievalTrace,
--   Rag.Retriever               pkg/ai/rag/retriever.go
--   OpenAi.ToolCalls            pkg/ai/llm/openai/stream_tool_call.go
--   OpenAi.Stream               pkg/ai/llm/openai/stream.go; Transcript is what a stream means to send
--   OpenAi.Failures             pkg/ai/llm/openai/errors.go
--   OpenAi.Wire, OpenAi.Mapping,
--   OpenAi.Settings,
--   OpenAi.Provider             pkg/ai/llm/openai/provider.go
--   Obs.ChainRecorder           pkg/ai/obs/chain_recorder.go
--   Obs.Redaction               pkg/ai/obs/redaction.go and baggage_policy.go
--   Obs.DualPlaneLink           pkg/ai/obs/dual_plane_link.go
--   Obs.Logger                  pkg/ai/obs/logger.go
--   Obs.SpanMapper              pkg/ai/obs/otel_mapper.go and otel_tracer.go
--   Eval.Dataset                pkg/ai/eval/eval.go, dataset_identity.go and dataset_json.go
--   Eval.Evidence, Eval.Metrics,
--   Eval.Runner                 pkg/ai/eval/evidence.go, metrics.go and runner.go
--   Eval.Retrieval              pkg/ai/eval/retrieval_metrics.go
--   FakeProvider                pkg/ai/llm/testutil/fake_provider.go
--   Prompt.Paths,
--   Prompt.Registry             pkg/ai/prompt/filesystem.go; Paths is where a template is found
--   Prompt.Rendering            pkg/ai/prompt/render.go
--
-- Names are the source's in snake_case: beforeCall is before_call, memoryBucket is MemoryBucket. A
-- method takes the struct as a record and returns the new one; a nil pointer or interface is none. A
-- critical section under a lock is one function, and goroutines are steps that interleave
-- (Resilience.CircuitBreaker.Concurrent). Clocks of the breaker, the limiter and the cache are readings
-- that a function takes as arguments; the executor reads time, and whether its context is done, from
-- the world that providers, tools and tracers act on. A time counts nanoseconds from the zero
-- time.Time, a duration is a signed integer, and the difference of two times saturates as Go's does. An
-- error's text is its format and arguments. A Go map is an association list in some order.
--
-- The goroutine of a stream is run to its end: each send is taken, or cut off by the end of the context,
-- as a parameter says. net/http is a parameter (OpenAi.Provider.Client) that acts on a world, and so are
-- the file system (Prompt.Registry.Files), text/template, json's encoder and decoders, time.Format and strconv's print of a float64.
--
-- Bounds and fuel: the executor's token count and tool deadline wrap as 64-bit integers do. Other ints
-- that the code only adds to are unbounded here; the breaker's counters stay below the configured limits
-- (CircuitBreaker.Invariant), so that they cannot wrap, and the end of a chunk that overflows is the panic
-- of its slice. A float64 of the vector store and of the limiter is its IEEE bits, compared as Go compares
-- them; the machine's arithmetic on it is a parameter, with the facts of IEEE 754 that a theorem needs as a
-- hypothesis (RateLimit.Burst.IsIeee), as SHA-256 is one. The executor's loop has the step limit as its fuel and the
-- chunker's the number of runes; that this is enough is part of the results.
--
-- Not modelled: the smoke programs and the service around them. The text of errors.Error, panics of protected
-- functions, tools and providers, and invalid UTF-8 in strings are not modelled either; nor is the part
-- of the Unicode table that strings.ToLower reads beyond ASCII, which is a parameter.
pub mod Prelude
pub mod Errors
pub mod Json
pub mod Llm
pub mod Obs
pub mod Resilience
pub mod RateLimit
pub mod Cache
pub mod Agent
pub mod VectorDb
pub mod Rag
pub mod OpenAi
pub mod Eval
pub mod Prompt
pub mod FakeProvider
