-- ===== src/Tests/Attempts.antt =====
-- A request whose first backend refuses the connection and whose second answers.
use onair.Prelude.{
  Bytes, ℕ, zero, suc, ◌≡◌, ◌≤◌, ◌+◌, refl, true, false, Option, List, [], ◌∷◌, length,
}
use onair.Proxy.Routing.Select.{SelectedRoute, build_candidate}
use onair.Proxy.Attempts.Failure.{ReqwestError, classify_failure}
use onair.Proxy.Attempts.Context.{
  ProxyContext, World, Turn, SendResult, UpstreamResponse, response, request_error,
}
use onair.Proxy.Errors.{chunk, ended, sender_dropped, ErrorHeaders, forwarded, answer_non_success}
use onair.Proxy.Attempts.Run.{answered, run_attempts, fallback_routes, max_attempts_for}
use onair.Proxy.Attempts.Run.Trail.{IsRouted, Follows, retries, run-Follows}
use onair.Proxy.Attempts.Run.Ends.{Reaches, now, later, run_attempts-le, run_attempts-answers}
use onair.Proxy.Attempts.Run.Untouched.{is_candidate}
use onair.Tests.Routing.{selected}

abbrev no_connection : ReqwestError
no_connection = record {
  is_timeout = false;
  is_connect = true;
  is_request = true;
  is_body = false;
  is_decode = false;
  is_redirect = false;
}

abbrev fine : UpstreamResponse
fine = record { status = 200; remote_addr = Option.some "127.0.0.1:8080" }

abbrev sent_at : ℕ → SendResult
sent_at (suc zero) = request_error no_connection
sent_at n = response fine

abbrev turn_at : ℕ → Turn
turn_at n = record {
  rewrite_error = Option.none;
  sent = sent_at n;
  started_us = 10;
  rewritten_us = 20;
  forward_us = 30;
  headers_us = 40;
  ended_us = 50;
  wall = 1000;
  instant = 1000;
  attempt_elapsed = 1;
  request_elapsed = 2;
}

abbrev world : World ℕ
world = record {
  checked_sub = λ a b. Option.none;
  parse_url = λ url. Option.some (Option.some "127.0.0.1", Option.some "8080");
  turn = λ n route. turn_at n;
}

abbrev context : ProxyContext ℕ
context = record {
  health = [];
  backend_requests = [];
  requests = [];
  final_records = [];
  inspector_base = record {
    record_id = "r";
    client_request_id = Option.none;
    started_at_unix_ms = 0;
    method = "POST";
    path = "/v1/chat/completions";
    query = Option.none;
    route = "/v1/chat/completions";
    identity = "c";
    requested_model = "chat-model";
    public_model = "chat-model";
    backend_model = "qwen";
    backend = "a";
    backend_target = "127.0.0.1:8080";
    backend_remote_addr = Option.none;
    stream = false;
    peer_addr = "unknown";
    effective_client_addr = "unknown";
    trusted_proxy_addr = "none";
    forwarded_for = "none";
    user_agent = "none";
    request_body_bytes = 2;
    debug_capture_id = Option.none;
    exposed_backend_error = false;
  };
  backend_target = "127.0.0.1:8080";
  backend_remote_addr = Option.none;
  route = selected "a" 1;
  labels = record {
    route = "/v1/chat/completions";
    identity = "c";
    public_model = "chat-model";
    backend = "a";
    stream = false;
  };
  model_log_fields = record {
    requested = "chat-model";
    public_name = "chat-model";
    backend_name = "qwen";
  };
  requested_model = Option.some "chat-model";
  timeline = record {
    started_unix_ms = 0;
    proxy_entry_us = 0;
    auth_done_us = Option.none;
    request_inspected_us = Option.none;
    route_selected_us = Option.none;
    request_rewritten_us = Option.none;
    debug_capture_done_us = Option.none;
    backend_forward_start_us = Option.none;
    backend_headers_received_us = Option.none;
    backend_body_first_chunk_us = Option.none;
    backend_body_complete_us = Option.none;
    response_rewritten_us = Option.none;
    client_response_ready_us = Option.none;
    stream_complete_us = Option.none;
  };
  attempt = 1;
  max_attempts = 2;
  backend_attempts = [];
  retried_attempts = [];
  current_attempt = Option.none;
}

abbrev fallback : List (SelectedRoute ℕ)
fallback = selected "b" 3 ∷ []

context-IsRouted : IsRouted context
unfolding build_candidate
context-IsRouted = refl

second-Reaches : Reaches world.turn fine 1 (selected "a" 1) fallback
unfolding classify_failure
second-Reaches = later refl (now refl)

not_candidate : is_candidate "c" (selected "a" 1 ∷ fallback) ≡ false
unfolding build_candidate
not_candidate = refl

falls_back : (run_attempts world fallback context).0 ≡ answered fine
unfolding run_attempts
falls_back = refl

recorded : length (run_attempts world fallback context).1.retried_attempts ≡ 1
unfolding run_attempts
recorded = refl

run-Follows_example :
    Follows world fallback context
      (retries world.turn 1 (selected "a" 1) fallback)
      (run_attempts world fallback context)
run-Follows_example = run-Follows world fallback context context-IsRouted

run_attempts-le_example :
    ((run_attempts world (fallback_routes 2 fallback) context).1.attempt
      ≤ max_attempts_for (fallback_routes 2 fallback))
    × ((run_attempts world (fallback_routes 2 fallback) context).1.attempt ≤ 1 + 2)
run_attempts-le_example = run_attempts-le world context 2 fallback context-IsRouted refl

run_attempts-answers_example : (run_attempts world fallback context).0 ≡ answered fine
run_attempts-answers_example =
    run_attempts-answers world fallback context fine context-IsRouted second-Reaches

abbrev failure : Bytes
failure = b'{' ∷ b'}' ∷ []

abbrev exposing : ProxyContext ℕ
exposing = record context { route = record context.route { expose_backend_errors = true } }

abbrev no_headers : ErrorHeaders
no_headers = record { content_type = Option.none; retry_after = Option.none }

body_shown :
    (answer_non_success world
      (turn_at 1)
      500
      no_headers
      (chunk failure 60 ∷ [])
      (ended 70)
      exposing).0
    ≡ forwarded (record {
      status = 502;
      cache_control = "no-store";
      content_type = "application/json";
      retry_after = Option.none;
      body = failure;
    })
unfolding answer_non_success
body_shown = refl

-- A body that is cut where the sender of the signal is gone counts as whole.
cut_body_shown :
    (answer_non_success world
      (turn_at 1)
      500
      no_headers
      (chunk failure 60 ∷ [])
      (sender_dropped 70)
      exposing).0
    ≡ forwarded (record {
      status = 502;
      cache_control = "no-store";
      content_type = "application/json";
      retry_after = Option.none;
      body = failure;
    })
unfolding answer_non_success
cut_body_shown = refl
