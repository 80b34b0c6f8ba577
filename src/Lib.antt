-- ===== src/Lib.antt =====
-- onair: a proxy in front of backends that speak the OpenAI and Anthropic interfaces. A request
-- is authenticated, its model looked up among the configured routes, the backends bound to the
-- route ordered as candidates, and the outcome observed. This library models the deciding parts.
--
-- The parts, with their paths from the repository's root:
--   Core/Error          crates/onair-core/src/error.rs: the errors of the API, both renderings
--   Core/Sanitize       crates/onair-core/src/sanitize.rs: texts for paths, keys and logs
--   Core/Cidr           crates/onair-core/src/ip_cidr.rs: address blocks
--   Core/Auth           crates/onair-core/src/auth.rs: authenticate and its loop over the clients
--   Core/ContextCache   crates/onair-core/src/context_size_cache.rs
--   Core/Config         crates/onair-core/src/config.rs, routing_markers.rs, compat.rs: the file
--                       as deserialised (Types), its checks (TopLevel, Markers), the clients and
--                       backends (Secrets), the routes (Routes), Config::resolve (Resolve) and
--                       the store of the running configuration with its reload (Reload)
--   Core/Openai         crates/onair-core/src/openai/response.rs: JSON values (Json), the usage that
--                       bodies report (Usage), the rewriting of models and totals (Rewrite), the
--                       frames of event streams (Sse), SseNormalizer (Normalizer) and
--                       ResponsesSseNormalizer (ResponsesStream), whose output is a list of lines
--                       and events before they are printed, and
--                       ChatCompletionsSseNormalizer (ChatStream), with chunks,
--                       AnthropicSseNormalizer (AnthropicStream) and
--                       AnthropicMessagesToChatSseNormalizer (MessagesStream)
--   Proxy/Routing       crates/onair-proxy/src/routing.rs: path capabilities (Paths), request
--                       modes (Modes), strategies (Strategy) and BackendSelector (Select)
--   Proxy/Attempts      crates/onair-proxy/src/proxy.rs, proxy/context.rs, attempt.rs, upstream.rs:
--                       the record of an attempt (Builder), its failures (Failure), the context
--                       (Context) and the loop over the candidates (Run), with debug capture off
--   Proxy/Errors        crates/onair-proxy/src/proxy.rs, proxy/upstream.rs: the answer to a response
--                       of a backend that is no success
--   Observe/ClientInfo  crates/onair-obs/src/observe/client_info.rs: the client behind proxies
--   Observe/Timeline    crates/onair-obs/src/observe/timeline.rs: the milestones of a request
--   Observe/Health      crates/onair-obs/src/observe/health.rs: the health of the backends
--   Observe/Inspector   crates/onair-obs/src/observe/inspector: records.rs, store.rs, live.rs
--   Prelude             shared lists, sets, maps, texts and bits
--   Tests               runs at concrete inputs, and the theorems applied to them
-- Functions keep their names. A Result or an error is a sum, a mutable store is taken and
-- returned, and the locks are left out: an operation runs alone. Config feeds Routing with the
-- resolved backends and routes, and Select/Configured joins the two.
--
-- Numbers are native; `u64` counters wrap or saturate as written in the source, and `usize` has
-- 64 bits. Sets and maps are lists in ascending order of their keys. One loop runs on fuel, that of
-- SseLineParser::push: it has a turn for every byte, and each turn that goes on takes a byte at
-- least. The other loops are over a list, a text or a value.
--
-- Parameters stand for code that is not in the repository: the comparison `ct_eq`, the parsers
-- of addresses and of URLs, header names and values, the process environment, the clocks, the
-- random draw, `checked_sub` of instants, the parser and the serializer of `serde_json` (JsonCodec)
-- and, for the attempts, what each turn meets: the rewriting of the body, the send and the clocks
-- (World). `V` is the type of TOML values.
--
-- Not modelled: the translation between the interfaces, the rewriting of requests, HTTP and its
-- handlers apart from the loop over the candidates, persistence in SQLite, captures on disk, metrics, probes and logging.
pub mod Prelude
pub mod Core
pub mod Proxy
pub mod Observe
mod Tests
