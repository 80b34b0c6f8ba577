-- ===== src/Core/Error.antt =====
-- crates/onair-core/src/error.rs: the errors that a client sees, in the OpenAI and the Anthropic
-- form. A `StatusCode` is its number.
pub mod Upstream
use onair.Prelude.{ℕ, String, Bool, ◌||◌, Option, none, some, eqb, if◌then◌else◌, ◌==◌, ◌+ˢ◌}

pub record ApiError : Type 0 where
  pub status : ℕ
  pub message : String
  pub kind : String
  pub code : Option String
  pub param : Option String

pub record OpenAiError : Type 0 where
  pub message : String
  pub kind : String
  pub param : Option String
  pub code : Option String

pub record AnthropicErrorBody : Type 0 where
  pub message : String
  pub kind : String
  pub body_type : String

unfoldable pub authentication : String → ApiError
authentication message = record {
  status = 401;
  message = message;
  kind = "authentication_error";
  code = some "invalid_api_key";
  param = none;
}

unfoldable pub bad_request : String → Option String → ApiError
bad_request message param = record {
  status = 400;
  message = message;
  kind = "invalid_request_error";
  code = none;
  param = param;
}

unfoldable pub model_not_found : String → ApiError
model_not_found model = record {
  status = 404;
  message = "The model '" +ˢ model +ˢ "' does not exist or is not available.";
  kind = "invalid_request_error";
  code = some "model_not_found";
  param = some "model";
}

unavailable_message : String → Option String → String
unavailable_message path (some model) =
    "The model '" +ˢ model +ˢ "' is configured but does not serve endpoint '" +ˢ path +ˢ "'."
unavailable_message path none = "The requested endpoint '" +ˢ path +ˢ "' is unavailable."

unfoldable pub endpoint_unavailable : String → Option String → ApiError
unfolding unavailable_message
endpoint_unavailable path model = record {
  status = 404;
  message = unavailable_message path model;
  kind = "invalid_request_error";
  code = some "endpoint_unavailable";
  param = some "endpoint";
}

unfoldable pub not_found : String → ApiError
not_found message = record {
  status = 404;
  message = message;
  kind = "invalid_request_error";
  code = some "not_found";
  param = none;
}

-- The status that a client sees in place of an upstream status.
unfoldable pub map_upstream_status : ℕ → ℕ
map_upstream_status status =
    if eqb status 400 || eqb status 422 || eqb status 429 || eqb status 408 then status else 502

unfoldable pub upstream : ℕ → ApiError
unfolding map_upstream_status
upstream status =
    if eqb status 400 || eqb status 422
    then record {
      status = status;
      message = "The request could not be completed by the selected model.";
      kind = "invalid_request_error";
      code = none;
      param = none;
    }
    else if eqb status 429
    then record {
      status = 429;
      message = "The selected model is temporarily rate limited.";
      kind = "rate_limit_error";
      code = some "rate_limit_exceeded";
      param = none;
    }
    else if eqb status 408
    then record {
      status = 408;
      message = "The selected model did not respond in time.";
      kind = "server_error";
      code = some "request_timeout";
      param = none;
    }
    else record {
      status = map_upstream_status status;
      message = "The selected model could not complete the request.";
      kind = "server_error";
      code = some "upstream_error";
      param = none;
    }

unfoldable pub timeout : ApiError
timeout = record {
  status = 504;
  message = "The selected model did not respond in time.";
  kind = "server_error";
  code = some "request_timeout";
  param = none;
}

unfoldable pub internal : ApiError
internal = record {
  status = 500;
  message = "The request could not be completed.";
  kind = "server_error";
  code = some "internal_error";
  param = none;
}

unfoldable pub into_parts : ApiError → ℕ × OpenAiError
into_parts e =
    (e.status, record { message = e.message; kind = e.kind; param = e.param; code = e.code })

unfoldable pub anthropic_kind : ℕ → String → String
anthropic_kind status kind =
    if eqb status 404
    then "not_found_error"
    else if kind == "invalid_request_error"
    then "invalid_request_error"
    else if kind == "authentication_error"
    then "authentication_error"
    else if kind == "rate_limit_error"
    then "rate_limit_error"
    else if kind == "server_error"
    then "api_error"
    else "api_error"

unfoldable pub into_anthropic_parts : ApiError → ℕ × AnthropicErrorBody
unfolding anthropic_kind
into_anthropic_parts e = (
  e.status,
  record { message = e.message; kind = anthropic_kind e.status e.kind; body_type = "error" },
)

-- `Result<A, ApiError>`
pub data ApiResult {ℓ} (A : Type ℓ) : Type ℓ where
  ok : A → ApiResult A
  err : ApiError → ApiResult A
