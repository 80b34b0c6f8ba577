-- ===== src/Proxy/Attempts/Context.antt =====
-- What an attempt at a backend reads and changes: `ProxyContext` of
-- crates/onair-proxy/src/proxy/context.rs and `record_retry`, `record_final_failure` of proxy.rs.
-- Debug capture is off; the metrics and the finished records are lists of what was recorded.
use onair.Prelude.{
  ℕ, ◌+◌, String, Bool, Option, none, some, or_else, unwrap_or, List, [], ◌∷◌, ◌++◌, ◌+ˢ◌,
}
use onair.Core.Error.{ApiError}
use onair.Observe.Health.{BackendHealthStore, record_failure, traffic}
use onair.Observe.Inspector.Records.{
  InspectorAttemptRecord, InspectorRequestBase, InspectorRequestRecord, InspectorOutcome,
  InspectorTokenCounts, new_record,
}
use onair.Observe.Timeline.{
  RequestTimeline, request_rewritten, backend_forward_start, mark, snapshot,
}
use onair.Proxy.Routing.Select.{SelectedRoute}
use onair.Proxy.Attempts.Builder.{
  InspectorAttemptBuilder, new_builder, finish_builder, mark_request_rewritten,
  mark_backend_forward_start, set_debug_capture,
}
use onair.Proxy.Attempts.Failure.{
  ReqwestError, FailureKind, client_status, outcome, error_kind_of, inspector_outcome,
}

pub record MetricLabels : Type 0 where
  pub route : String
  pub identity : String
  pub public_model : String
  pub backend : String
  pub stream : Bool

pub record ModelLogFields : Type 0 where
  pub requested : String
  pub public_name : String
  pub backend_name : String

-- The calls of the metrics: labels with a status.
pub record RequestCount : Type 0 where
  pub labels : MetricLabels
  pub status : ℕ

-- What the backend sends back, as far as the loop looks at it.
pub record UpstreamResponse : Type 0 where
  pub status : ℕ
  pub remote_addr : Option String

pub data SendResult : Type 0 where
  response : UpstreamResponse → SendResult
  shutdown : SendResult
  request_error : ReqwestError → SendResult

-- One turn of the loop as the rest of the world makes it: the error of the rewriting of the body,
-- if it fails, the outcome of the send, and the readings of the clocks.
pub record Turn : Type 0 where
  pub rewrite_error : Option ApiError
  pub sent : SendResult
  pub started_us : ℕ
  pub rewritten_us : ℕ
  pub forward_us : ℕ
  pub headers_us : ℕ
  pub ended_us : ℕ
  pub wall : ℕ
  pub instant : ℕ
  pub attempt_elapsed : ℕ
  pub request_elapsed : ℕ

module _ (V : Type 0) where
  pub record ProxyContext : Type 0 where
    pub health : BackendHealthStore
    pub backend_requests : List MetricLabels
    pub requests : List RequestCount
    pub final_records : List InspectorRequestRecord
    pub inspector_base : InspectorRequestBase
    pub backend_target : String
    pub backend_remote_addr : Option String
    pub route : SelectedRoute V
    pub labels : MetricLabels
    pub model_log_fields : ModelLogFields
    pub requested_model : Option String
    pub timeline : RequestTimeline
    pub attempt : ℕ
    pub max_attempts : ℕ
    pub backend_attempts : List InspectorAttemptRecord
    pub retried_attempts : List InspectorAttemptRecord
    pub current_attempt : Option InspectorAttemptBuilder

  -- `Instant::checked_sub`, `Url::parse` with the host and the port that it finds, and the turns.
  pub record World : Type 0 where
    pub checked_sub : ℕ → ℕ → Option ℕ
    pub parse_url : String → Option (Option String × Option String)
    pub turn : ℕ → SelectedRoute V → Turn

host_and_port : Option (Option String × Option String) → String
host_and_port none = "unknown"
host_and_port (some (host, none)) = unwrap_or host "unknown"
host_and_port (some (host, some port)) = unwrap_or host "unknown" +ˢ ":" +ˢ port

unfoldable pub backend_target : (String → Option (Option String × Option String)) → String → String
unfolding host_and_port
backend_target parse_url base_url = host_and_port (parse_url base_url)

abbrev pub no_tokens : InspectorTokenCounts
no_tokens = record { input = 0; cached_input = 0; output = 0 }

unfoldable pub forward_attempt : Turn → InspectorAttemptBuilder → InspectorAttemptBuilder
forward_attempt t b =
    mark_backend_forward_start t.forward_us
      (set_debug_capture none (mark_request_rewritten t.rewritten_us b))

module _ {V : Type 0} where
  unfoldable pub from_route : Option String → SelectedRoute V → ModelLogFields
  from_route requested_model route = record {
    requested = unwrap_or requested_model "none";
    public_name = unwrap_or route.public_model "none";
    backend_name = unwrap_or route.backend_model "none";
  }

  unfoldable pub apply_route : World V → SelectedRoute V → ProxyContext V → ProxyContext V
  unfolding backend_target from_route
  apply_route w route c =
      let target = backend_target w.parse_url route.base_url in
      let fields = from_route c.requested_model route in
      record c {
        backend_target = target;
        backend_remote_addr = none;
        model_log_fields = fields;
        labels = record c.labels {
          backend = route.backend_id;
          public_model = unwrap_or (or_else route.public_model c.requested_model) "none";
        };
        inspector_base = record c.inspector_base {
          requested_model = fields.requested;
          public_model = fields.public_name;
          backend_model = fields.backend_name;
          backend = route.backend_id;
          backend_target = target;
          backend_remote_addr = none;
          debug_capture_id = none;
        };
        route = route;
      }

  unfoldable pub record_retried_attempt : InspectorAttemptRecord → ProxyContext V → ProxyContext V
  record_retried_attempt attempt c = record c {
    backend_attempts = c.backend_attempts ++ (attempt ∷ []);
    retried_attempts = c.retried_attempts ++ (attempt ∷ []);
  }

  unfoldable pub record_retry :
      World V
      → Turn
      → InspectorAttemptBuilder
      → FailureKind
      → SelectedRoute V
      → ProxyContext V
      → ProxyContext V
  unfolding record_retried_attempt apply_route finish_builder record_failure
  record_retry w t attempt_record kind next_route c =
      let failed = record c {
        health =
            record_failure w.checked_sub c.health c.labels.backend t.wall t.instant
              t.attempt_elapsed (client_status kind) (error_kind_of kind) traffic;
      } in
      let attempt =
        finish_builder attempt_record (client_status kind) none (outcome kind)
          (some (error_kind_of kind)) t.ended_us in
      let recorded = record_retried_attempt attempt failed in
      apply_route w next_route (record recorded { attempt = c.attempt + 1 })

  -- `record_context_inspector`: the record that the live one is finished with.
  unfoldable pub record_context_inspector :
      Turn
      → InspectorOutcome
      → (status : ℕ) → (error_kind : Option String) → (response_body_bytes : Option ℕ)
      → InspectorTokenCounts
      → ProxyContext V
      → ProxyContext V
  unfolding snapshot
  record_context_inspector t result status error_kind response_body_bytes tokens c = record c {
    final_records =
        c.final_records
        ++ (new_record
              (record {
                base = record c.inspector_base {
                  backend_remote_addr = c.backend_remote_addr;
                  debug_capture_id = none;
                };
                outcome = result;
                status = status;
                error_kind = error_kind;
                backend_attempts = c.backend_attempts;
                retried_attempts = c.retried_attempts;
                response_body_bytes = response_body_bytes;
                tokens = tokens;
                timeline = snapshot c.timeline t.ended_us;
              })
              t.wall
            ∷ []);
  }

  unfoldable pub record_final_failure :
      World V → Turn → InspectorAttemptBuilder → FailureKind → ProxyContext V → ProxyContext V
  unfolding record_context_inspector finish_builder record_failure
  record_final_failure w t attempt_record kind c =
      let attempt =
        finish_builder attempt_record (client_status kind) none (outcome kind)
          (some (error_kind_of kind)) t.ended_us in
      record_context_inspector t (inspector_outcome kind) (client_status kind)
        (some (error_kind_of kind)) none no_tokens
        (record c {
          requests = c.requests ++ (record { labels = c.labels; status = client_status kind } ∷ []);
          health =
              record_failure w.checked_sub c.health c.labels.backend t.wall t.instant
                t.request_elapsed (client_status kind) (error_kind_of kind) traffic;
          backend_attempts = c.backend_attempts ++ (attempt ∷ []);
        })

  -- The part of `prepare_outbound` before the request is built: the record of the attempt, and the
  -- milestones if the body can be rewritten.
  unfoldable pub begin_attempt : Turn → ProxyContext V → InspectorAttemptBuilder
  unfolding new_builder
  begin_attempt t c = new_builder (record {
    attempt = c.attempt;
    backend = c.labels.backend;
    backend_target = c.backend_target;
    backend_remote_addr = c.backend_remote_addr;
    debug_capture = none;
    started_us = t.started_us;
  })

  unfoldable pub count_attempt : ProxyContext V → ProxyContext V
  count_attempt c = record c { backend_requests = c.backend_requests ++ (c.labels ∷ []) }

  unfoldable pub mark_forwarded : Turn → ProxyContext V → ProxyContext V
  unfolding mark
  mark_forwarded t c = record c {
    timeline =
        mark backend_forward_start t.forward_us (mark request_rewritten t.rewritten_us c.timeline);
  }
