-- ===== src/Observe/Inspector/Records.antt =====
-- The records of inspector/records.rs, with the snapshot of timeline.rs. Serialisation is not
-- modelled.
use onair.Prelude.{ℕ, String, Bool, Option, List}

pub record TimelineSnapshot : Type 0 where
  pub started_unix_ms : ℕ
  pub total_us : ℕ
  pub proxy_entry_us : ℕ
  pub auth_done_us : Option ℕ
  pub request_inspected_us : Option ℕ
  pub route_selected_us : Option ℕ
  pub request_rewritten_us : Option ℕ
  pub debug_capture_done_us : Option ℕ
  pub backend_forward_start_us : Option ℕ
  pub backend_headers_received_us : Option ℕ
  pub backend_body_first_chunk_us : Option ℕ
  pub backend_body_complete_us : Option ℕ
  pub response_rewritten_us : Option ℕ
  pub client_response_ready_us : Option ℕ
  pub stream_complete_us : Option ℕ

pub record InspectorAttemptRecord : Type 0 where
  pub attempt : ℕ
  pub backend : String
  pub backend_target : String
  pub backend_remote_addr : Option String
  pub debug_capture_id : Option String
  pub status : ℕ
  pub outcome : String
  pub error_kind : Option String
  pub started_us : ℕ
  pub ended_us : ℕ
  pub elapsed_us : ℕ
  pub elapsed_ms : ℕ
  pub upstream_status : Option ℕ
  pub request_rewritten_us : Option ℕ
  pub debug_capture_done_us : Option ℕ
  pub backend_forward_start_us : Option ℕ
  pub backend_headers_received_us : Option ℕ
  pub backend_body_first_chunk_us : Option ℕ
  pub backend_body_complete_us : Option ℕ
  pub stream_complete_us : Option ℕ

pub record InspectorRequestBase : Type 0 where
  pub record_id : String
  pub client_request_id : Option String
  pub started_at_unix_ms : ℕ
  pub method : String
  pub path : String
  pub query : Option String
  pub route : String
  pub identity : String
  pub requested_model : String
  pub public_model : String
  pub backend_model : String
  pub backend : String
  pub backend_target : String
  pub backend_remote_addr : Option String
  pub stream : Bool
  pub peer_addr : String
  pub effective_client_addr : String
  pub trusted_proxy_addr : String
  pub forwarded_for : String
  pub user_agent : String
  pub request_body_bytes : ℕ
  pub debug_capture_id : Option String
  pub exposed_backend_error : Bool

pub data InspectorOutcome : Type 0 where
  in_flight completed : InspectorOutcome
  preflight : (stage : String) → InspectorOutcome
  upstream_timeout upstream_request_failed upstream_non_success : InspectorOutcome
  upstream_body_read_failed upstream_stream_failed stream_incomplete interrupted : InspectorOutcome

pub record InspectorTokenCounts : Type 0 where
  pub input : ℕ
  pub cached_input : ℕ
  pub output : ℕ

pub record InspectorRequestRecord : Type 0 where
  pub base : InspectorRequestBase
  pub outcome : InspectorOutcome
  pub status : ℕ
  pub error_kind : Option String
  pub backend_attempts : List InspectorAttemptRecord
  pub retried_attempts : List InspectorAttemptRecord
  pub response_body_bytes : Option ℕ
  pub input_tokens : ℕ
  pub cached_input_tokens : ℕ
  pub output_tokens : ℕ
  pub completed_at_unix_ms : ℕ
  pub timeline : TimelineSnapshot

pub record InspectorRequestRecordInit : Type 0 where
  pub base : InspectorRequestBase
  pub outcome : InspectorOutcome
  pub status : ℕ
  pub error_kind : Option String
  pub backend_attempts : List InspectorAttemptRecord
  pub retried_attempts : List InspectorAttemptRecord
  pub response_body_bytes : Option ℕ
  pub tokens : InspectorTokenCounts
  pub timeline : TimelineSnapshot

-- `InspectorRequestRecord::new`; `wall` is what `unix_millis` returns.
abbrev pub new_record : InspectorRequestRecordInit → (wall : ℕ) → InspectorRequestRecord
new_record init wall = record {
  base = init.base;
  outcome = init.outcome;
  status = init.status;
  error_kind = init.error_kind;
  backend_attempts = init.backend_attempts;
  retried_attempts = init.retried_attempts;
  response_body_bytes = init.response_body_bytes;
  input_tokens = init.tokens.input;
  cached_input_tokens = init.tokens.cached_input;
  output_tokens = init.tokens.output;
  completed_at_unix_ms = wall;
  timeline = init.timeline;
}

-- The records are told apart by it.
abbrev pub id_of : InspectorRequestRecord → String
id_of r = r.base.record_id
