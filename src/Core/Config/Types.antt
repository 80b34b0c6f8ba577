-- ===== src/Core/Config/Types.antt =====
-- The data of config.rs. `V` stands for `toml::Value`; durations are in milliseconds; the socket
-- address that the server binds and the paths are texts.
use onair.Prelude.{ℕ, String, Bool, List, Option, StringSet, StringMap}
use onair.Core.Cidr.{IpCidr}

pub data TelemetryExporter : Type 0 where
  none otlp : TelemetryExporter

pub data DebugCaptureMode : Type 0 where
  all failures : DebugCaptureMode

pub data RoutingStrategy : Type 0 where
  priority sticky round_robin weighted_random : RoutingStrategy

pub data UnknownMarkerPolicy : Type 0 where
  warn error : UnknownMarkerPolicy

pub data ToolSchemaMode : Type 0 where
  preserve llamacpp_compat : ToolSchemaMode

pub data ResponsesStorePolicy : Type 0 where
  preserve force_false : ResponsesStorePolicy

pub data ResponsesMaxOutputTokensPolicy : Type 0 where
  preserve drop rename_to_max_tokens rename_to_max_completion_tokens :
      ResponsesMaxOutputTokensPolicy

pub data ChatStreamUsagePolicy : Type 0 where
  preserve insert force_true : ChatStreamUsagePolicy

pub record ServerConfig : Type 0 where
  pub bind : String
  pub request_body_limit_bytes : ℕ
  pub trusted_proxy_cidrs : List IpCidr

pub record TelemetryConfig : Type 0 where
  pub service_name : String
  pub exporter : TelemetryExporter
  pub otlp_endpoint : Option String
  pub export_interval_ms : ℕ

pub record DebugCaptureConfig : Type 0 where
  pub enabled : Bool
  pub mode : DebugCaptureMode
  pub directory : String

pub record InspectorPersistenceConfig : Type 0 where
  pub enabled : Bool
  pub path : Option String
  pub drain_timeout_ms : ℕ

pub record InspectorConfig : Type 0 where
  pub enabled : Bool
  pub retention_requests : ℕ
  pub allow_remote : Bool
  pub persistence : InspectorPersistenceConfig

pub record HealthConfig : Type 0 where
  pub active : Bool
  pub interval_ms : ℕ
  pub timeout_ms : ℕ
  pub path : String

pub record RoutingConfig : Type 0 where
  pub strategy : RoutingStrategy
  pub fallback_attempts : ℕ
  pub unknown_capability_policy : UnknownMarkerPolicy
  pub unknown_endpoint_policy : UnknownMarkerPolicy

pub record AccessConfig : Type 0 where
  pub default_models : List String

pub record ClientConfig : Type 0 where
  pub id : String
  pub api_key : Option String
  pub api_key_env : Option String
  pub models : List String

pub record ResolvedClient : Type 0 where
  pub id : String
  pub api_key : String
  pub models : StringSet

pub data RouteKey : Type 0 where
  public : String → RouteKey
  path : String → RouteKey

pub data ContextLengthMode : Type 0 where
  none upstream : ContextLengthMode

pub data ContextLengthConfig : Type 0 where
  value : ℕ → ContextLengthConfig
  mode : ContextLengthMode → ContextLengthConfig

pub data ContextLengthSpec : Type 0 where
  none : ContextLengthSpec
  static : ℕ → ContextLengthSpec
  upstream : String → String → Option ℕ → ContextLengthSpec

pub record RouteBackendBinding : Type 0 where
  pub backend_id : String
  pub backend_model : String

module _ (V : Type 0) where
  pub record BackendConfig : Type 0 where
    pub id : String
    pub base_url : String
    pub api_key : Option String
    pub api_key_env : Option String
    pub timeout_ms : ℕ
    pub tool_schema_mode : ToolSchemaMode
    pub responses_store : ResponsesStorePolicy
    pub responses_max_output_tokens : ResponsesMaxOutputTokensPolicy
    pub chat_stream_usage : ChatStreamUsagePolicy
    pub supports : StringSet
    pub weight : ℕ
    pub extra_body : StringMap V
    pub expose_backend_errors : Bool
    pub stream_capture : Bool

  pub record RouteConfig : Type 0 where
    pub public : Option String
    pub path : Option String
    pub expose : StringSet
    pub backends : List String
    pub context_length : ContextLengthConfig
    pub tool_schema_mode : Option ToolSchemaMode
    pub responses_store : Option ResponsesStorePolicy
    pub responses_max_output_tokens : Option ResponsesMaxOutputTokensPolicy
    pub chat_stream_usage : Option ChatStreamUsagePolicy
    pub extra_body : StringMap V
    pub expose_backend_errors : Option Bool
    pub stream_capture : Option Bool
    pub request_headers : StringMap String
    pub anthropic_max_tokens : Option ℕ

  pub record ResolvedBackend : Type 0 where
    pub id : String
    pub base_url : String
    pub api_key : Option String
    pub timeout : ℕ
    pub supports : StringSet
    pub tool_schema_mode : ToolSchemaMode
    pub responses_store : ResponsesStorePolicy
    pub responses_max_output_tokens : ResponsesMaxOutputTokensPolicy
    pub chat_stream_usage : ChatStreamUsagePolicy
    pub weight : ℕ
    pub extra_body : StringMap V
    pub expose_backend_errors : Bool
    pub stream_capture : Bool

  pub record ResolvedRoute : Type 0 where
    pub key : RouteKey
    pub expose : StringSet
    pub context_length : ContextLengthSpec
    pub tool_schema_mode : ToolSchemaMode
    pub responses_store : ResponsesStorePolicy
    pub responses_max_output_tokens : ResponsesMaxOutputTokensPolicy
    pub chat_stream_usage : ChatStreamUsagePolicy
    pub backends : List RouteBackendBinding
    pub extra_body : StringMap V
    pub expose_backend_errors : Bool
    pub stream_capture : Bool
    pub request_headers : StringMap String
    pub anthropic_max_tokens : Option ℕ

  pub record ConfigFile : Type 0 where
    pub server : ServerConfig
    pub telemetry : TelemetryConfig
    pub debug_capture : DebugCaptureConfig
    pub inspector : InspectorConfig
    pub health : HealthConfig
    pub routing : RoutingConfig
    pub access : AccessConfig
    pub clients : List ClientConfig
    pub backends : List BackendConfig
    pub routes : List RouteConfig

  pub record Config : Type 0 where
    pub server : ServerConfig
    pub telemetry : TelemetryConfig
    pub debug_capture : DebugCaptureConfig
    pub inspector : InspectorConfig
    pub health : HealthConfig
    pub routing : RoutingConfig
    pub clients : List ResolvedClient
    pub backends : List ResolvedBackend
    pub routes : List ResolvedRoute
