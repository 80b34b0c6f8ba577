-- ===== src/Observe/Timeline.antt =====
-- crates/onair-obs/src/observe/timeline.rs: the milestones of a request. The clock is read by the
-- caller: `elapsed_us` is what `duration_micros(self.started.elapsed())` gives.
use onair.Prelude.{ℕ, Option, none, some, min, ◌-◌, ◌^◌}
use onair.Observe.Inspector.Records.{TimelineSnapshot}

-- `saturating_u64`
abbrev pub saturating_u64 : ℕ → ℕ
saturating_u64 n = min n (2 ^ 64 - 1)

pub data TimelineEvent : Type 0 where
  auth_done request_inspected route_selected request_rewritten debug_capture_done : TimelineEvent
  backend_forward_start backend_headers_received backend_body_first_chunk : TimelineEvent
  backend_body_complete response_rewritten client_response_ready stream_complete : TimelineEvent

pub record RequestTimeline : Type 0 where
  pub started_unix_ms : ℕ
  pub proxy_entry_us : ℕ
  pub auth_done_us : Option ℕ
  pub request_inspected_us : Option ℕ
  pub route_selected_us : Option ℕ
  pub request_rewritten_us : Option ℕ
  pub debug_capture_done_us : Option ℕ
  pub backend_forward_start_us : Option ℕ
  pub backend_headers_received_us : Option ℕ
  pub backend_body_first_chunk_us : Option ℕ
  pub backend_body_complete_us : Option ℕ
  pub response_rewritten_us : Option ℕ
  pub client_response_ready_us : Option ℕ
  pub stream_complete_us : Option ℕ

-- `start`, at a reading of the wall clock.
unfoldable pub start : ℕ → RequestTimeline
start unix_millis = record {
  started_unix_ms = unix_millis;
  proxy_entry_us = 0;
  auth_done_us = none;
  request_inspected_us = none;
  route_selected_us = none;
  request_rewritten_us = none;
  debug_capture_done_us = none;
  backend_forward_start_us = none;
  backend_headers_received_us = none;
  backend_body_first_chunk_us = none;
  backend_body_complete_us = none;
  response_rewritten_us = none;
  client_response_ready_us = none;
  stream_complete_us = none;
}

-- `if field.is_none() { field = Some(value) }`
abbrev pub set_first : Option ℕ → ℕ → Option ℕ
set_first none value = some value
set_first (some first) value = some first

-- `mark`; the source returns `elapsed_us` as well.
unfoldable pub mark : TimelineEvent → ℕ → RequestTimeline → RequestTimeline
mark auth_done us t = record t { auth_done_us = some us }
mark request_inspected us t = record t { request_inspected_us = some us }
mark route_selected us t = record t { route_selected_us = some us }
mark request_rewritten us t = record t { request_rewritten_us = some us }
mark debug_capture_done us t = record t { debug_capture_done_us = some us }
mark backend_forward_start us t = record t { backend_forward_start_us = some us }
mark backend_headers_received us t = record t { backend_headers_received_us = some us }
mark backend_body_first_chunk us t = record t {
  backend_body_first_chunk_us = set_first t.backend_body_first_chunk_us us;
}
mark backend_body_complete us t = record t { backend_body_complete_us = some us }
mark response_rewritten us t = record t { response_rewritten_us = some us }
mark client_response_ready us t = record t { client_response_ready_us = some us }
mark stream_complete us t = record t { stream_complete_us = some us }

unfoldable pub snapshot : RequestTimeline → ℕ → TimelineSnapshot
snapshot t us = record {
  started_unix_ms = saturating_u64 t.started_unix_ms;
  total_us = us;
  proxy_entry_us = t.proxy_entry_us;
  auth_done_us = t.auth_done_us;
  request_inspected_us = t.request_inspected_us;
  route_selected_us = t.route_selected_us;
  request_rewritten_us = t.request_rewritten_us;
  debug_capture_done_us = t.debug_capture_done_us;
  backend_forward_start_us = t.backend_forward_start_us;
  backend_headers_received_us = t.backend_headers_received_us;
  backend_body_first_chunk_us = t.backend_body_first_chunk_us;
  backend_body_complete_us = t.backend_body_complete_us;
  response_rewritten_us = t.response_rewritten_us;
  client_response_ready_us = t.client_response_ready_us;
  stream_complete_us = t.stream_complete_us;
}
