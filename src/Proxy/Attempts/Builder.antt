-- ===== src/Proxy/Attempts/Builder.antt =====
-- crates/onair-proxy/src/proxy/attempt.rs: the record of one attempt as it is made.
use onair.Prelude.{ℕ, String, Option, none, some, unwrap_or, ◌-◌, ◌/◌}
use onair.Observe.Inspector.Records.{InspectorAttemptRecord}
use onair.Observe.Timeline.{set_first}

pub record InspectorAttemptInit : Type 0 where
  pub attempt : ℕ
  pub backend : String
  pub backend_target : String
  pub backend_remote_addr : Option String
  pub debug_capture : Option String
  pub started_us : ℕ

pub record InspectorAttemptBuilder : Type 0 where
  pub attempt : ℕ
  pub backend : String
  pub backend_target : String
  pub backend_remote_addr : Option String
  pub debug_capture_id : Option String
  pub started_us : ℕ
  pub request_rewritten_us : Option ℕ
  pub debug_capture_done_us : Option ℕ
  pub backend_forward_start_us : Option ℕ
  pub backend_headers_received_us : Option ℕ
  pub backend_body_first_chunk_us : Option ℕ
  pub backend_body_complete_us : Option ℕ
  pub stream_complete_us : Option ℕ

-- `new`; a capture stands for its id and an address for its text.
unfoldable pub new_builder : InspectorAttemptInit → InspectorAttemptBuilder
new_builder init = record {
  attempt = init.attempt;
  backend = init.backend;
  backend_target = init.backend_target;
  backend_remote_addr = init.backend_remote_addr;
  debug_capture_id = init.debug_capture;
  started_us = init.started_us;
  request_rewritten_us = none;
  debug_capture_done_us = none;
  backend_forward_start_us = none;
  backend_headers_received_us = none;
  backend_body_first_chunk_us = none;
  backend_body_complete_us = none;
  stream_complete_us = none;
}

abbrev pub set_debug_capture : Option String → InspectorAttemptBuilder → InspectorAttemptBuilder
set_debug_capture capture b = record b { debug_capture_id = capture }

abbrev pub set_backend_remote_addr :
    Option String → InspectorAttemptBuilder → InspectorAttemptBuilder
set_backend_remote_addr address b = record b { backend_remote_addr = address }

abbrev pub mark_request_rewritten : ℕ → InspectorAttemptBuilder → InspectorAttemptBuilder
mark_request_rewritten us b = record b { request_rewritten_us = some us }

abbrev pub mark_debug_capture_done : ℕ → InspectorAttemptBuilder → InspectorAttemptBuilder
mark_debug_capture_done us b = record b { debug_capture_done_us = some us }

abbrev pub mark_backend_forward_start : ℕ → InspectorAttemptBuilder → InspectorAttemptBuilder
mark_backend_forward_start us b = record b { backend_forward_start_us = some us }

abbrev pub mark_backend_headers_received : ℕ → InspectorAttemptBuilder → InspectorAttemptBuilder
mark_backend_headers_received us b = record b { backend_headers_received_us = some us }

abbrev pub mark_body_first_chunk : ℕ → InspectorAttemptBuilder → InspectorAttemptBuilder
mark_body_first_chunk us b = record b {
  backend_body_first_chunk_us = set_first b.backend_body_first_chunk_us us;
}

abbrev pub mark_body_complete : ℕ → InspectorAttemptBuilder → InspectorAttemptBuilder
mark_body_complete us b = record b { backend_body_complete_us = some us }

abbrev pub mark_stream_complete : ℕ → InspectorAttemptBuilder → InspectorAttemptBuilder
mark_stream_complete us b = record b { stream_complete_us = some us }

-- The record, at an end and with an outcome: `elapsed_ms` is the whole milliseconds.
unfoldable pub finish_builder :
    InspectorAttemptBuilder
    → (status : ℕ) → (upstream_status : Option ℕ) → (outcome : String)
    → (error_kind : Option String) → (ended_us : ℕ) → InspectorAttemptRecord
finish_builder b status upstream_status outcome error_kind ended_us = record {
  attempt = b.attempt;
  backend = b.backend;
  backend_target = b.backend_target;
  backend_remote_addr = b.backend_remote_addr;
  debug_capture_id = b.debug_capture_id;
  status = status;
  outcome = outcome;
  error_kind = error_kind;
  started_us = b.started_us;
  ended_us = ended_us;
  elapsed_us = ended_us - b.started_us;
  elapsed_ms = (ended_us - b.started_us) / 1000;
  upstream_status = upstream_status;
  request_rewritten_us = b.request_rewritten_us;
  debug_capture_done_us = b.debug_capture_done_us;
  backend_forward_start_us = b.backend_forward_start_us;
  backend_headers_received_us = b.backend_headers_received_us;
  backend_body_first_chunk_us = b.backend_body_first_chunk_us;
  backend_body_complete_us = b.backend_body_complete_us;
  stream_complete_us = b.stream_complete_us;
}

unfoldable pub to_attempt_record : InspectorAttemptBuilder → (now_us : ℕ) → InspectorAttemptRecord
unfolding finish_builder
to_attempt_record b now_us = finish_builder b 0 none "in_progress" none now_us

unfoldable pub finish_at_body_complete_or :
    InspectorAttemptBuilder
    → (status : ℕ) → (upstream_status : Option ℕ) → (outcome : String)
    → (error_kind : Option String) → (fallback_ended_us : ℕ) → InspectorAttemptRecord
unfolding finish_builder
finish_at_body_complete_or b status upstream_status outcome error_kind fallback_ended_us =
    finish_builder b status upstream_status outcome error_kind
      (unwrap_or b.backend_body_complete_us fallback_ended_us)
