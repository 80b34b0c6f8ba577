-- ===== src/Proxy/Routing/Modes/Justified.antt =====
-- What the choice of a request mode guarantees.
use onair.Prelude.{
  ◌≡◌, refl, String, Bool, true, ◌||◌, Option, some, ◌==◌, trim_end_matches, StringSet, arith,
  if◌then◌else◌,
}
use onair.Core.Config.Markers.{
  responses_via_chat_completions, chat_completions_via_responses, chat_completions_via_messages,
}
use onair.Proxy.Routing.Modes.{
  RequestMode, native, responses_via_chat_completions_mode, chat_completions_via_responses_mode,
  chat_completions_via_messages_mode, anthropic_messages_native, supports_candidates,
  supports_messages, supports_responses, supports_chat_compat, route_supports_compat_marker,
  open_or, request_mode_for_path, request_mode_for_responses, request_mode_for_chat_completions,
  request_mode_for_messages, request_mode_for_other,
}

-- The endpoints that a request mode translates between, and the rest.
pub data Endpoint : Type 0 where
  responses chat_completions messages other : Endpoint

abbrev pub endpoint_of : String → Endpoint
endpoint_of path =
    let normalized = trim_end_matches b'/' path in
    if normalized == "/v1/responses"
    then responses
    else if normalized == "/v1/chat/completions" || normalized == "/v1/chat/completion"
    then chat_completions
    else if normalized == "/v1/messages"
    then messages
    else other

-- The endpoint of the backend that a request for an endpoint goes to in a mode.
abbrev pub upstream_endpoint : RequestMode → Endpoint → Endpoint
upstream_endpoint native e = e
upstream_endpoint responses_via_chat_completions_mode e = chat_completions
upstream_endpoint chat_completions_via_responses_mode e = responses
upstream_endpoint chat_completions_via_messages_mode e = messages
upstream_endpoint anthropic_messages_native e = messages

-- Whether a capability set, with the capabilities that stand for the path, covers an endpoint.
abbrev pub covers : StringSet → StringSet → Endpoint → Bool
covers candidates capabilities responses = supports_responses capabilities
covers candidates capabilities chat_completions = supports_chat_compat capabilities
covers candidates capabilities messages = supports_messages capabilities
covers candidates capabilities other = supports_candidates capabilities candidates

-- The marker that has to be opted in to for a translation, with the translated endpoint.
unfoldable pub IsOptedIn : StringSet → Option StringSet → Endpoint → RequestMode → Type 0
IsOptedIn supports expose e native = Unit
IsOptedIn supports expose e responses_via_chat_completions_mode =
    (e ≡ responses)
    × (route_supports_compat_marker supports expose responses_via_chat_completions ≡ true)
IsOptedIn supports expose e chat_completions_via_responses_mode =
    (e ≡ chat_completions)
    × (route_supports_compat_marker supports expose chat_completions_via_responses ≡ true)
IsOptedIn supports expose e chat_completions_via_messages_mode =
    (e ≡ chat_completions)
    × (route_supports_compat_marker supports expose chat_completions_via_messages ≡ true)
IsOptedIn supports expose e anthropic_messages_native = e ≡ messages

abbrev mode_for : StringSet → StringSet → Option StringSet → Endpoint → Option RequestMode
mode_for candidates supports expose responses = request_mode_for_responses supports expose
mode_for candidates supports expose chat_completions =
    request_mode_for_chat_completions supports expose
mode_for candidates supports expose messages = request_mode_for_messages supports expose
mode_for candidates supports expose other = request_mode_for_other candidates supports expose

request_mode_for_path-mode_for :
    (path : String) (candidates supports : StringSet) (expose : Option StringSet)
    → request_mode_for_path path candidates supports expose
      ≡ mode_for candidates supports expose (endpoint_of path)
unfolding request_mode_for_path
request_mode_for_path-mode_for path candidates supports expose = ground arith

mode_for-IsJustified :
    (candidates supports : StringSet) (expose : Option StringSet) (e : Endpoint)
    (mode : RequestMode)
    → mode_for candidates supports expose e ≡ some mode
    → (covers candidates supports (upstream_endpoint mode e) ≡ true)
      × IsOptedIn supports expose e mode
unfolding request_mode_for_responses request_mode_for_chat_completions request_mode_for_messages
    request_mode_for_other IsOptedIn
mode_for-IsJustified candidates supports expose responses native chosen = (ground arith, _)
mode_for-IsJustified candidates supports expose responses responses_via_chat_completions_mode
      chosen =
    (ground arith, (refl, ground arith))
mode_for-IsJustified candidates supports expose responses chat_completions_via_responses_mode
      chosen =
    ground arith
mode_for-IsJustified candidates supports expose responses chat_completions_via_messages_mode
      chosen =
    ground arith
mode_for-IsJustified candidates supports expose responses anthropic_messages_native chosen =
    ground arith
mode_for-IsJustified candidates supports expose chat_completions native chosen = (ground arith, _)
mode_for-IsJustified candidates supports expose chat_completions responses_via_chat_completions_mode
      chosen =
    ground arith
mode_for-IsJustified candidates supports expose chat_completions chat_completions_via_responses_mode
      chosen =
    (ground arith, (refl, ground arith))
mode_for-IsJustified candidates supports expose chat_completions chat_completions_via_messages_mode
      chosen =
    (ground arith, (refl, ground arith))
mode_for-IsJustified candidates supports expose chat_completions anthropic_messages_native chosen =
    ground arith
mode_for-IsJustified candidates supports expose messages native chosen = ground arith
mode_for-IsJustified candidates supports expose messages responses_via_chat_completions_mode
      chosen =
    ground arith
mode_for-IsJustified candidates supports expose messages chat_completions_via_responses_mode
      chosen =
    ground arith
mode_for-IsJustified candidates supports expose messages chat_completions_via_messages_mode chosen =
    ground arith
mode_for-IsJustified candidates supports expose messages anthropic_messages_native chosen =
    (ground arith, refl)
mode_for-IsJustified candidates supports expose other native chosen = (ground arith, _)
mode_for-IsJustified candidates supports expose other responses_via_chat_completions_mode chosen =
    ground arith
mode_for-IsJustified candidates supports expose other chat_completions_via_responses_mode chosen =
    ground arith
mode_for-IsJustified candidates supports expose other chat_completions_via_messages_mode chosen =
    ground arith
mode_for-IsJustified candidates supports expose other anthropic_messages_native chosen =
    ground arith

-- A request mode that is chosen goes to an endpoint that the backend's capabilities cover, and a
-- mode that translates between endpoints is chosen only if its marker is opted in to: in the
-- route's `expose` where that is given and not empty, and in the backend's capabilities otherwise.
pub request_mode_for_path-IsJustified :
    (path : String) (candidates supports : StringSet) (expose : Option StringSet)
    (mode : RequestMode)
    → request_mode_for_path path candidates supports expose ≡ some mode
    → (covers candidates supports (upstream_endpoint mode (endpoint_of path)) ≡ true)
      × IsOptedIn supports expose (endpoint_of path) mode
request_mode_for_path-IsJustified path candidates supports expose mode chosen =
    mode_for-IsJustified candidates supports expose (endpoint_of path) mode
      (rw (request_mode_for_path-mode_for path candidates supports expose) at chosen)

mode_for-keeps :
    (candidates supports : StringSet) (expose : Option StringSet) (e : Endpoint)
    → covers candidates supports e ≡ true
    → open_or (λ set. covers candidates set e) expose ≡ true
    → (mode : RequestMode) × (mode_for candidates supports expose e ≡ some mode)
      × (upstream_endpoint mode e ≡ e)
unfolding request_mode_for_responses request_mode_for_chat_completions request_mode_for_messages
    request_mode_for_other
mode_for-keeps candidates supports expose responses has exposed = (native, ground arith, refl)
mode_for-keeps candidates supports expose chat_completions has exposed =
    (native, ground arith, refl)
mode_for-keeps candidates supports expose messages has exposed =
    (anthropic_messages_native, ground arith, refl)
mode_for-keeps candidates supports expose other has exposed = (native, ground arith, refl)

-- A backend that covers the endpoint of the path itself takes the request, and without a
-- translation, where there is no route or the route's `expose` is empty or covers it too.
pub request_mode_for_path-keeps :
    (path : String) (candidates supports : StringSet) (expose : Option StringSet)
    → covers candidates supports (endpoint_of path) ≡ true
    → open_or (λ set. covers candidates set (endpoint_of path)) expose ≡ true
    → (mode : RequestMode) × (request_mode_for_path path candidates supports expose ≡ some mode)
      × (upstream_endpoint mode (endpoint_of path) ≡ endpoint_of path)
request_mode_for_path-keeps path candidates supports expose has exposed =
    rw (request_mode_for_path-mode_for path candidates supports expose)
      (mode_for-keeps candidates supports expose (endpoint_of path) has exposed)
