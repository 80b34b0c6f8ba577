-- ===== src/Tests/Fixtures.antt =====
-- A configuration file with two backends, one client and one public route.
use onair.Prelude.{String, true, false, [], ◌∷◌, Option, ℕ}
use onair.Core.Config.Types.{
  BackendConfig, RouteConfig, ConfigFile, ResolvedBackend, ResolvedRoute, ResolvedClient, Config,
  RouteBackendBinding, RouteKey, ContextLengthSpec, ToolSchemaMode, ResponsesStorePolicy,
  ResponsesMaxOutputTokensPolicy, ChatStreamUsagePolicy, TelemetryExporter, ContextLengthConfig,
  DebugCaptureMode, RoutingStrategy, UnknownMarkerPolicy,
}
use onair.Core.Config.Secrets.{Host, Url}

abbrev pub url : Url
url = record {
  scheme = "http";
  host_str = Option.some "127.0.0.1";
  username = "";
  password = Option.none;
  query = Option.none;
  fragment = Option.none;
}

abbrev pub host : Host
host = record {
  var = λ _. Option.none;
  parse_url = λ _. Option.some url;
  header_name = λ _. true;
  header_value = λ _. true;
}

abbrev pub backend_config : String → ℕ → BackendConfig ℕ
backend_config id weight = record {
  id = id;
  base_url = "http://127.0.0.1:8080/";
  api_key = Option.none;
  api_key_env = Option.none;
  timeout_ms = 1000;
  tool_schema_mode = ToolSchemaMode.preserve;
  responses_store = ResponsesStorePolicy.preserve;
  responses_max_output_tokens = ResponsesMaxOutputTokensPolicy.preserve;
  chat_stream_usage = ChatStreamUsagePolicy.preserve;
  supports = "chat" ∷ "streaming" ∷ [];
  weight = weight;
  extra_body = ("top_k", 1) ∷ [];
  expose_backend_errors = false;
  stream_capture = false;
}

abbrev pub route_config : RouteConfig ℕ
route_config = record {
  public = Option.some "chat-model";
  path = Option.none;
  expose = [];
  backends = "qwen@a" ∷ "qwen@b" ∷ [];
  context_length = ContextLengthConfig.value 4096;
  tool_schema_mode = Option.none;
  responses_store = Option.none;
  responses_max_output_tokens = Option.none;
  chat_stream_usage = Option.none;
  extra_body = ("seed", 7) ∷ [];
  expose_backend_errors = Option.none;
  stream_capture = Option.none;
  request_headers = [];
  anthropic_max_tokens = Option.none;
}

abbrev pub file : ConfigFile ℕ
file = record {
  server = record {
    bind = "127.0.0.1:3000";
    request_body_limit_bytes = 1048576;
    trusted_proxy_cidrs = [];
  };
  telemetry = record {
    service_name = "onair";
    exporter = TelemetryExporter.none;
    otlp_endpoint = Option.none;
    export_interval_ms = 1000;
  };
  debug_capture = record {
    enabled = false;
    mode = DebugCaptureMode.failures;
    directory = "captures";
  };
  inspector = record {
    enabled = true;
    retention_requests = 2;
    allow_remote = false;
    persistence = record { enabled = false; path = Option.none; drain_timeout_ms = 500 };
  };
  health = record { active = false; interval_ms = 30000; timeout_ms = 5000; path = "/v1/models" };
  routing = record {
    strategy = RoutingStrategy.priority;
    fallback_attempts = 1;
    unknown_capability_policy = UnknownMarkerPolicy.warn;
    unknown_endpoint_policy = UnknownMarkerPolicy.warn;
  };
  access = record { default_models = "chat-model" ∷ [] };
  clients =
      record { id = "cli"; api_key = Option.some "key"; api_key_env = Option.none; models = [] }
      ∷ [];
  backends = backend_config "a" 1 ∷ backend_config "b" 3 ∷ [];
  routes = route_config ∷ [];
}

-- What it resolves to.
abbrev pub backend : String → ℕ → ResolvedBackend ℕ
backend id weight = record {
  id = id;
  base_url = "http://127.0.0.1:8080";
  api_key = Option.none;
  timeout = 1000;
  supports = "chat" ∷ "streaming" ∷ [];
  tool_schema_mode = ToolSchemaMode.preserve;
  responses_store = ResponsesStorePolicy.preserve;
  responses_max_output_tokens = ResponsesMaxOutputTokensPolicy.preserve;
  chat_stream_usage = ChatStreamUsagePolicy.preserve;
  weight = weight;
  extra_body = ("top_k", 1) ∷ [];
  expose_backend_errors = false;
  stream_capture = false;
}

abbrev pub binding : String → RouteBackendBinding
binding id = record { backend_id = id; backend_model = "qwen" }

abbrev pub route : ResolvedRoute ℕ
route = record {
  key = RouteKey.public "chat-model";
  expose = [];
  context_length = ContextLengthSpec.static 4096;
  tool_schema_mode = ToolSchemaMode.preserve;
  responses_store = ResponsesStorePolicy.preserve;
  responses_max_output_tokens = ResponsesMaxOutputTokensPolicy.preserve;
  chat_stream_usage = ChatStreamUsagePolicy.preserve;
  backends = binding "a" ∷ binding "b" ∷ [];
  extra_body = ("seed", 7) ∷ ("top_k", 1) ∷ [];
  expose_backend_errors = false;
  stream_capture = false;
  request_headers = [];
  anthropic_max_tokens = Option.none;
}

abbrev pub client : ResolvedClient
client = record { id = "cli"; api_key = "key"; models = "chat-model" ∷ [] }

abbrev pub resolved : Config ℕ
resolved = record {
  server = file.server;
  telemetry = file.telemetry;
  debug_capture = file.debug_capture;
  inspector = file.inspector;
  health = file.health;
  routing = file.routing;
  clients = client ∷ [];
  backends = backend "a" 1 ∷ backend "b" 3 ∷ [];
  routes = route ∷ [];
}
