-- ===== src/Observe/Inspector/Live.antt =====
-- The live record of one request: inspector/live.rs. Each operation takes the store and returns
-- it; the locks are not modelled.
pub mod Sessions
use onair.Prelude.{ℕ, Bool, true, false, if◌then◌else◌}
use onair.Observe.Inspector.Records.{InspectorRequestBase, TimelineSnapshot, InspectorRequestRecord}
use onair.Observe.Inspector.Store.{InspectorStore, upsert, upsert_final}

pub record LiveRecord : Type 0 where
  pub enabled : Bool
  pub retention_requests : ℕ
  pub current : InspectorRequestRecord

unfoldable pub publish_initial : LiveRecord → InspectorStore → InspectorStore
publish_initial live store =
    if live.enabled then upsert store live.enabled live.retention_requests live.current else store

unfoldable pub update :
    (InspectorRequestRecord → InspectorRequestRecord)
    → LiveRecord
    → InspectorStore
    → LiveRecord × InspectorStore
update mutate live store =
    let changed = mutate live.current in
    if live.enabled
    then (
      record {
        enabled = live.enabled;
        retention_requests = live.retention_requests;
        current = changed;
      },
      upsert store live.enabled live.retention_requests changed,
    )
    else (live, store)

abbrev pub base_started : ℕ → InspectorRequestBase → InspectorRequestBase
base_started started b = record {
  record_id = b.record_id;
  client_request_id = b.client_request_id;
  started_at_unix_ms = started;
  method = b.method;
  path = b.path;
  query = b.query;
  route = b.route;
  identity = b.identity;
  requested_model = b.requested_model;
  public_model = b.public_model;
  backend_model = b.backend_model;
  backend = b.backend;
  backend_target = b.backend_target;
  backend_remote_addr = b.backend_remote_addr;
  stream = b.stream;
  peer_addr = b.peer_addr;
  effective_client_addr = b.effective_client_addr;
  trusted_proxy_addr = b.trusted_proxy_addr;
  forwarded_for = b.forwarded_for;
  user_agent = b.user_agent;
  request_body_bytes = b.request_body_bytes;
  debug_capture_id = b.debug_capture_id;
  exposed_backend_error = b.exposed_backend_error;
}

abbrev pub timeline_started : ℕ → TimelineSnapshot → TimelineSnapshot
timeline_started started t = record {
  started_unix_ms = started;
  total_us = t.total_us;
  proxy_entry_us = t.proxy_entry_us;
  auth_done_us = t.auth_done_us;
  request_inspected_us = t.request_inspected_us;
  route_selected_us = t.route_selected_us;
  request_rewritten_us = t.request_rewritten_us;
  debug_capture_done_us = t.debug_capture_done_us;
  backend_forward_start_us = t.backend_forward_start_us;
  backend_headers_received_us = t.backend_headers_received_us;
  backend_body_first_chunk_us = t.backend_body_first_chunk_us;
  backend_body_complete_us = t.backend_body_complete_us;
  response_rewritten_us = t.response_rewritten_us;
  client_response_ready_us = t.client_response_ready_us;
  stream_complete_us = t.stream_complete_us;
}

-- The final record with the start of the live one.
abbrev pub with_started : ℕ → InspectorRequestRecord → InspectorRequestRecord
with_started started r = record {
  base = base_started started r.base;
  outcome = r.outcome;
  status = r.status;
  error_kind = r.error_kind;
  backend_attempts = r.backend_attempts;
  retried_attempts = r.retried_attempts;
  response_body_bytes = r.response_body_bytes;
  input_tokens = r.input_tokens;
  cached_input_tokens = r.cached_input_tokens;
  output_tokens = r.output_tokens;
  completed_at_unix_ms = r.completed_at_unix_ms;
  timeline = timeline_started started r.timeline;
}

unfoldable pub finalize : LiveRecord → InspectorRequestRecord → InspectorStore → InspectorStore
finalize live final_record store =
    if live.enabled
    then upsert_final store live.enabled live.retention_requests
        (with_started live.current.base.started_at_unix_ms final_record)
    else store
