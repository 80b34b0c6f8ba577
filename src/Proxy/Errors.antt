-- ===== src/Proxy/Errors.antt =====
-- The answer to a response of the backend that is no success: `read_capped_upstream_error_body` of
-- crates/onair-proxy/src/proxy/upstream.rs, and the rest of `do_proxy` and `forward_upstream_error`
-- of proxy.rs. Debug capture is off.
pub mod Exposed
use onair.Prelude.{
  ℕ, ◌+◌, ◌-◌, ◌*◌, String, Bool, true, false, not, ◌&&◌, Option, none, some, and_then, map_option,
  or_else, unwrap_or, ltb, eqb, if◌then◌else◌, List, [], ◌∷◌, ◌++◌, length, take, Bytes,
}
use onair.Core.Error.{ApiError, upstream, map_upstream_status}
use onair.Observe.Health.{record_failure, traffic}
use onair.Observe.Inspector.Records.{InspectorAttemptRecord, InspectorOutcome, upstream_non_success}
use onair.Observe.Timeline.{mark, backend_body_first_chunk, backend_body_complete}
use onair.Proxy.Attempts.Builder.{
  InspectorAttemptBuilder, finish_builder, mark_body_first_chunk, mark_body_complete,
}
use onair.Proxy.Attempts.Context.{ProxyContext, World, Turn, record_context_inspector, no_tokens}

abbrev pub max_upstream_error_capture_bytes : ℕ
max_upstream_error_capture_bytes = 1024 * 1024

-- What the reader of the body meets: a chunk at a time on the clock or an error of the transfer; then
-- the end, the signal to shut down, or the loss of the sender of that signal, where
-- `next_stream_chunk` gives no chunk either although the signal is not set.
pub data Chunk : Type 0 where
  chunk : Bytes → (us : ℕ) → Chunk
  broken : Chunk

pub data BodyEnd : Type 0 where
  ended : (us : ℕ) → BodyEnd
  sender_dropped : (us : ℕ) → BodyEnd
  shut_down : BodyEnd

pub record CapturedUpstreamErrorBody : Type 0 where
  pub bytes : Bytes
  pub truncated : Bool

pub data Captured : Type 0 where
  captured : CapturedUpstreamErrorBody → Captured
  shutdown_error upstream_error : Captured

module _ {V : Type 0} where
  mark_first_chunk : ℕ → ProxyContext V → ProxyContext V
  unfolding mark
  mark_first_chunk us c = record c {
    timeline = mark backend_body_first_chunk us c.timeline;
    current_attempt = map_option (mark_body_first_chunk us) c.current_attempt;
  }

  mark_complete : ℕ → ProxyContext V → ProxyContext V
  unfolding mark
  mark_complete us c = record c {
    timeline = mark backend_body_complete us c.timeline;
    current_attempt = map_option (mark_body_complete us) c.current_attempt;
  }

  -- The loop, with the bytes read so far.
  unfoldable pub read_capped :
      List Chunk → BodyEnd → Bytes → ProxyContext V → Captured × ProxyContext V
  unfolding mark_first_chunk mark_complete
  read_capped [] shut_down bytes c = (shutdown_error, c)
  read_capped [] (ended us) bytes c =
      (captured (record { bytes = bytes; truncated = false }), mark_complete us c)
  read_capped [] (sender_dropped us) bytes c =
      (captured (record { bytes = bytes; truncated = false }), mark_complete us c)
  read_capped (broken ∷ chunks) end bytes c = (upstream_error, c)
  read_capped (chunk read us ∷ chunks) end bytes c =
      let remaining = max_upstream_error_capture_bytes - length bytes in
      let extended = bytes ++ read in
      let marked = mark_first_chunk us c in
      let rest = read_capped chunks end extended marked in
      if ltb remaining (length read)
      then (captured (record { bytes = bytes ++ take remaining read; truncated = true }), marked)
      else if eqb (length extended) max_upstream_error_capture_bytes
      then (captured (record { bytes = extended; truncated = true }), marked)
      else rest

  unfoldable pub read_capped_upstream_error_body :
      List Chunk → BodyEnd → ProxyContext V → Captured × ProxyContext V
  unfolding read_capped
  read_capped_upstream_error_body chunks end c = read_capped chunks end [] c

-- The body that is read at all, and the one that is forwarded.
unfoldable pub captured_body : Captured → Option CapturedUpstreamErrorBody
captured_body (captured body) = some body
captured_body _ = none

unfoldable pub forwarded_body : Bool → Option CapturedUpstreamErrorBody → Option Bytes
forwarded_body expose_backend_errors none = none
forwarded_body expose_backend_errors (some body) =
    if expose_backend_errors && not body.truncated then some body.bytes else none

-- The headers of the backend's response that are looked at, where they are valid texts.
pub record ErrorHeaders : Type 0 where
  pub content_type : Option String
  pub retry_after : Option String

pub record ForwardedError : Type 0 where
  pub status : ℕ
  pub cache_control : String
  pub content_type : String
  pub retry_after : Option String
  pub body : Bytes

pub data ErrorAnswer : Type 0 where
  forwarded : ForwardedError → ErrorAnswer
  sanitized : ApiError → ErrorAnswer

module _ {V : Type 0} where
  finish_current : ℕ → ℕ → Turn → Option InspectorAttemptBuilder → ProxyContext V → ProxyContext V
  unfolding finish_builder
  finish_current client_status upstream_status t none c = c
  finish_current client_status upstream_status t (some b) c = record c {
    current_attempt = none;
    backend_attempts =
        c.backend_attempts
        ++ (finish_builder b client_status (some upstream_status) "upstream_non_success" none
              t.ended_us
            ∷ []);
  }

  -- `record_final_attempt`
  unfoldable pub record_final_attempt : ℕ → ℕ → Turn → ProxyContext V → ProxyContext V
  unfolding finish_current
  record_final_attempt client_status upstream_status t c =
      finish_current client_status upstream_status t c.current_attempt c

  -- The metrics, the health and the attempt, which both answers record.
  unfoldable pub record_non_success : World V → Turn → ℕ → ℕ → ProxyContext V → ProxyContext V
  unfolding record_final_attempt record_failure
  record_non_success w t client_status upstream_status c =
      record_final_attempt client_status upstream_status t (record c {
        requests = c.requests ++ (record { labels = c.labels; status = client_status } ∷ []);
        health =
            record_failure w.checked_sub c.health c.labels.backend t.wall t.instant
              t.request_elapsed upstream_status "upstream_non_success" traffic;
      })

  unfoldable pub forward_upstream_error :
      World V → Turn → ℕ → ErrorHeaders → Bytes → ProxyContext V → ErrorAnswer × ProxyContext V
  unfolding record_non_success record_context_inspector map_upstream_status
  forward_upstream_error w t upstream_status headers body c =
      let recorded =
        record_non_success w t (map_upstream_status upstream_status) upstream_status c in
      (
        forwarded (record {
          status = map_upstream_status upstream_status;
          cache_control = "no-store";
          content_type = unwrap_or headers.content_type "application/json";
          retry_after = headers.retry_after;
          body = body;
        }),
        record_context_inspector t upstream_non_success (map_upstream_status upstream_status) none
            (some (length body)) no_tokens
            (record recorded {
              inspector_base = record recorded.inspector_base { exposed_backend_error = true };
            }),
      )

  unfoldable pub sanitize_upstream_error :
      World V → Turn → ℕ → ProxyContext V → ErrorAnswer × ProxyContext V
  unfolding record_non_success record_context_inspector upstream
  sanitize_upstream_error w t upstream_status c =
      let api_error = upstream upstream_status in
      (
        sanitized api_error,
        record_context_inspector t upstream_non_success api_error.status none none no_tokens
            (record_non_success w t api_error.status upstream_status c),
      )

  unfoldable pub answer_with :
      World V
      → Turn
      → ℕ
      → ErrorHeaders
      → Option Bytes
      → ProxyContext V
      → ErrorAnswer × ProxyContext V
  unfolding forward_upstream_error sanitize_upstream_error
  answer_with w t upstream_status headers (some body) c =
      forward_upstream_error w t upstream_status headers body c
  answer_with w t upstream_status headers none c = sanitize_upstream_error w t upstream_status c

  -- The part of `do_proxy` for a status that is no success: the body is read only where it may be
  -- exposed.
  unfoldable pub answer_non_success :
      World V
      → Turn
      → ℕ
      → ErrorHeaders
      → List Chunk
      → BodyEnd
      → ProxyContext V
      → ErrorAnswer × ProxyContext V
  unfolding answer_with forwarded_body captured_body read_capped_upstream_error_body
  answer_non_success w t upstream_status headers chunks end c =
      let expose = c.route.expose_backend_errors in
      let read = read_capped_upstream_error_body chunks end c in
      let body = if expose then captured_body read.0 else none in
      answer_with w t upstream_status headers (forwarded_body expose body)
        (if expose then read.1 else c)
