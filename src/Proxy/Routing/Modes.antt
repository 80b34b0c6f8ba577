-- ===== src/Proxy/Routing/Modes.antt =====
-- Which request mode a backend can serve a path in, from routing.rs. `route_expose` is `none` for
-- a request without a route.
pub mod Justified
use onair.Prelude.{
  String, Bool, true, false, not, ◌&&◌, ◌||◌, List, [], ◌∷◌, Option, none, some, ◌==◌, any,
  is_empty, trim_end_matches, StringSet, contains, if◌then◌else◌,
}
use onair.Core.Config.Markers.{
  responses_via_chat_completions, chat_completions_via_responses, chat_completions_via_messages,
}

-- openai/request.rs
pub data RequestMode : Type 0 where
  native responses_via_chat_completions_mode chat_completions_via_responses_mode : RequestMode
  chat_completions_via_messages_mode anthropic_messages_native : RequestMode

abbrev pub has_capability : StringSet → String → Bool
has_capability capabilities capability =
    contains capabilities capability || contains capabilities "all"

unfoldable pub supports_candidates : StringSet → StringSet → Bool
supports_candidates capabilities candidates = any (has_capability capabilities) candidates

abbrev pub supports_messages : StringSet → Bool
supports_messages supports = has_capability supports "messages"

abbrev pub supports_responses : StringSet → Bool
supports_responses supports =
    has_capability supports "responses" || has_capability supports "response"

abbrev pub supports_chat_compat : StringSet → Bool
supports_chat_compat supports =
    has_capability supports "chat"
    || has_capability supports "chat_completions"
    || has_capability supports "completions"

abbrev pub has_tool_capability : StringSet → Bool
has_tool_capability supports =
    has_capability supports "tools"
    || has_capability supports "tool_calls"
    || has_capability supports "function_calling"
    || has_capability supports "functions"

abbrev pub is_empty_set : StringSet → Bool
is_empty_set [] = true
is_empty_set (x ∷ xs) = false

-- `route_expose.is_none_or(|expose| expose.is_empty() || test(expose))`
abbrev pub open_or : (StringSet → Bool) → Option StringSet → Bool
open_or test none = true
open_or test (some expose) = is_empty_set expose || test expose

abbrev pub route_supports_messages : Option StringSet → Bool
route_supports_messages = open_or supports_messages

abbrev pub route_supports_responses : Option StringSet → Bool
route_supports_responses = open_or supports_responses

abbrev pub route_supports_chat_compat : Option StringSet → Bool
route_supports_chat_compat = open_or supports_chat_compat

abbrev pub route_supports_tools : Option StringSet → Bool
route_supports_tools = open_or has_tool_capability

abbrev pub route_supports_compat_marker : StringSet → Option StringSet → String → Bool
route_supports_compat_marker supports none marker = contains supports marker
route_supports_compat_marker supports (some expose) marker =
    if is_empty_set expose then contains supports marker else contains expose marker

unfoldable pub supports_tools : StringSet → Option StringSet → Bool
supports_tools supports expose = has_tool_capability supports && route_supports_tools expose

unfoldable pub request_mode_for_responses : StringSet → Option StringSet → Option RequestMode
request_mode_for_responses supports expose =
    if supports_responses supports && route_supports_responses expose
    then some native
    else if supports_chat_compat supports
        && route_supports_compat_marker supports expose responses_via_chat_completions
    then some responses_via_chat_completions_mode
    else none

unfoldable pub request_mode_for_chat_completions : StringSet → Option StringSet → Option RequestMode
request_mode_for_chat_completions supports expose =
    if supports_chat_compat supports && route_supports_chat_compat expose
    then some native
    else if supports_responses supports
        && route_supports_compat_marker supports expose chat_completions_via_responses
    then some chat_completions_via_responses_mode
    else if supports_messages supports
        && route_supports_compat_marker supports expose chat_completions_via_messages
    then some chat_completions_via_messages_mode
    else none

unfoldable pub request_mode_for_messages : StringSet → Option StringSet → Option RequestMode
request_mode_for_messages supports expose =
    if supports_messages supports && route_supports_messages expose
    then some anthropic_messages_native
    else none

unfoldable pub request_mode_for_other :
    StringSet → StringSet → Option StringSet → Option RequestMode
request_mode_for_other candidates supports expose =
    if not (supports_candidates supports candidates)
    then none
    else if not (open_or (λ set. supports_candidates set candidates) expose)
    then none
    else some native

unfoldable pub request_mode_for_path :
    String → StringSet → StringSet → Option StringSet → Option RequestMode
unfolding request_mode_for_responses request_mode_for_chat_completions request_mode_for_messages
    request_mode_for_other supports_candidates
request_mode_for_path path candidates supports expose =
    let normalized = trim_end_matches b'/' path in
    if normalized == "/v1/responses"
    then request_mode_for_responses supports expose
    else if normalized == "/v1/chat/completions" || normalized == "/v1/chat/completion"
    then request_mode_for_chat_completions supports expose
    else if normalized == "/v1/messages"
    then request_mode_for_messages supports expose
    else request_mode_for_other candidates supports expose
