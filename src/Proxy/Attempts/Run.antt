-- ===== src/Proxy/Attempts/Run.antt =====
-- The loop of `do_proxy` in crates/onair-proxy/src/proxy.rs: an attempt for each candidate until one
-- answers.
pub mod Trail
pub mod Ends
pub mod Untouched
use onair.Prelude.{ℕ, Option, none, some, List, [], ◌∷◌, ◌+◌, take, length, if◌then◌else◌, Bool}
use onair.Core.Error.{ApiError, internal}
use onair.Observe.Timeline.{backend_headers_received, mark}
use onair.Proxy.Routing.Select.{SelectedRoute}
use onair.Proxy.Attempts.Builder.{
  InspectorAttemptBuilder, mark_backend_headers_received, set_backend_remote_addr,
}
use onair.Proxy.Attempts.Failure.{FailureKind, classify_failure, is_retryable, api_error}
use onair.Proxy.Attempts.Context.{
  ProxyContext, World, Turn, SendResult, UpstreamResponse, response, shutdown, request_error,
  record_retry, record_final_failure, begin_attempt, count_attempt, forward_attempt, mark_forwarded,
}

-- How the loop ends: with a response to go on with, or with an error for the client.
pub data LoopEnd : Type 0 where
  answered : UpstreamResponse → LoopEnd
  refused : ApiError → LoopEnd

module _ (V : Type 0) where
  -- How one turn of the loop ends: with an end of the loop, or with a failure of the send.
  pub data TurnEnd : Type 0 where
    settled : LoopEnd → ProxyContext V → TurnEnd
    failed : FailureKind → InspectorAttemptBuilder → ProxyContext V → TurnEnd

module _ {V : Type 0} where
  unfoldable pub answer :
      Turn → InspectorAttemptBuilder → UpstreamResponse → ProxyContext V → ProxyContext V
  unfolding mark
  answer t b r c = record c {
    timeline = mark backend_headers_received t.headers_us c.timeline;
    backend_remote_addr = r.remote_addr;
    current_attempt =
        some (set_backend_remote_addr r.remote_addr (mark_backend_headers_received t.headers_us b));
  }

  unfoldable pub send_attempt :
      Turn → SendResult → InspectorAttemptBuilder → ProxyContext V → TurnEnd V
  unfolding answer classify_failure internal
  send_attempt t (response r) b c = settled (answered r) (answer t b r c)
  send_attempt t shutdown b c = settled (refused internal) c
  send_attempt t (request_error e) b c = failed (classify_failure e) b c

  unfoldable pub prepared : Turn → Option ApiError → ProxyContext V → TurnEnd V
  unfolding send_attempt begin_attempt count_attempt forward_attempt mark_forwarded
  prepared t (some e) c = settled (refused e) (count_attempt c)
  prepared t none c =
      send_attempt t t.sent (forward_attempt t (begin_attempt t c))
        (mark_forwarded t (count_attempt c))

  unfoldable pub attempt_turn : World V → ProxyContext V → TurnEnd V
  unfolding prepared
  attempt_turn w c = let t = w.turn c.attempt c.route in prepared t t.rewrite_error c

  unfoldable pub give_up :
      World V
      → Turn
      → FailureKind
      → InspectorAttemptBuilder
      → ProxyContext V
      → LoopEnd × ProxyContext V
  unfolding record_final_failure
  give_up w t kind b c = (refused (api_error kind), record_final_failure w t b kind c)

  -- The loop; a turn that fails goes on with the next fallback route if the failure is retryable.
  unfoldable pub run_attempts :
      World V → List (SelectedRoute V) → ProxyContext V → LoopEnd × ProxyContext V
  unfolding attempt_turn give_up record_retry
  run_attempts w [] c = elim (attempt_turn w c) [
    | settled e d ↦ (e, d)
    | failed kind b d ↦ give_up w (w.turn c.attempt c.route) kind b d
  ]
  run_attempts w (next_route ∷ later) c = elim (attempt_turn w c) [
    | settled e d ↦ (e, d)
    | failed kind b d ↦
        let t = w.turn c.attempt c.route in
        if is_retryable kind
        then run_attempts w later (record_retry w t b kind next_route d)
        else give_up w t kind b d
  ]

-- The candidates behind the first that the configuration lets the loop try, and the number of
-- attempts that the context is started with.
unfoldable pub fallback_routes {ℓ} : {A : Type ℓ} → ℕ → List A → List A
fallback_routes fallback_attempts routes = take fallback_attempts routes

unfoldable pub max_attempts_for {ℓ} : {A : Type ℓ} → List A → ℕ
max_attempts_for fallback = 1 + length fallback
