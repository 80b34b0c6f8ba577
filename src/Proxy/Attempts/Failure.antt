-- ===== src/Proxy/Attempts/Failure.antt =====
-- The failures of a send: `FailureKind` of crates/onair-proxy/src/proxy.rs and the classification of
-- proxy/upstream.rs.
use onair.Prelude.{ℕ, String, Bool, true, not, ◌&&◌, ◌||◌, if◌then◌else◌}
use onair.Core.Error.{ApiError, upstream, timeout}
use onair.Observe.Inspector.Records.{InspectorOutcome, upstream_timeout, upstream_request_failed}

-- What a `reqwest::Error` answers of itself.
pub record ReqwestError : Type 0 where
  pub is_timeout : Bool
  pub is_connect : Bool
  pub is_request : Bool
  pub is_body : Bool
  pub is_decode : Bool
  pub is_redirect : Bool

unfoldable pub upstream_error_kind : ReqwestError → String
upstream_error_kind e =
    if e.is_timeout
    then "timeout"
    else if e.is_connect
    then "connect"
    else if e.is_request
    then "request"
    else if e.is_body
    then "body"
    else if e.is_decode
    then "decode"
    else if e.is_redirect
    then "redirect"
    else "unknown"

unfoldable pub retryable_send_error : ReqwestError → Bool
retryable_send_error e =
    e.is_connect || (e.is_request && not e.is_body && not e.is_decode && not e.is_redirect)

pub data FailureKind : Type 0 where
  timed_out : FailureKind
  request_failed : (error_kind : String) → (retryable : Bool) → FailureKind

abbrev pub client_status : FailureKind → ℕ
client_status timed_out = 504
client_status (request_failed error_kind retryable) = 502

abbrev pub outcome : FailureKind → String
outcome timed_out = "upstream_timeout"
outcome (request_failed error_kind retryable) = "upstream_request_failed"

abbrev pub error_kind_of : FailureKind → String
error_kind_of timed_out = "timeout"
error_kind_of (request_failed error_kind retryable) = error_kind

abbrev pub api_error : FailureKind → ApiError
api_error timed_out = timeout
api_error (request_failed error_kind retryable) = upstream 502

abbrev pub inspector_outcome : FailureKind → InspectorOutcome
inspector_outcome timed_out = upstream_timeout
inspector_outcome (request_failed error_kind retryable) = upstream_request_failed

abbrev pub is_retryable : FailureKind → Bool
is_retryable timed_out = true
is_retryable (request_failed error_kind retryable) = retryable

unfoldable pub classify_failure : ReqwestError → FailureKind
unfolding upstream_error_kind retryable_send_error
classify_failure e =
    if e.is_timeout
    then timed_out
    else request_failed (upstream_error_kind e) (retryable_send_error e)
