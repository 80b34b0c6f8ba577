-- ===== src/Core/Config/Routes.antt =====
-- The routes of config.rs: validation, binding to backends, and inheritance from the first binding.
pub mod Entries
pub mod Bindings
use onair.Prelude.{
  ℕ, String, Bool, true, false, not, ◌||◌, List, [], ◌∷◌, Option, none, some, ◌==◌, head?, find,
  any, length, is_empty, unwrap_or, map_option, and_then, rsplit_once, StringSet, StringMap,
  contains, merge, if◌then◌else◌, ◌+ˢ◌,
}
use onair.Core.Config.Types
use onair.Core.Config.Types.{
  RoutingConfig, RouteKey, public, path, RouteConfig, ResolvedBackend, ResolvedRoute,
  RouteBackendBinding, ContextLengthConfig, value, mode, upstream, ContextLengthSpec, static,
  ToolSchemaMode, ResponsesStorePolicy, ResponsesMaxOutputTokensPolicy, ChatStreamUsagePolicy,
}
use onair.Core.Config.Markers.{
  canonicalize_marker_set, validate_markers, responses_via_chat_completions,
  chat_completions_via_responses, chat_completions_via_messages,
}
use onair.Core.Config.Secrets.{Host}
use onair.Core.Config.Result.{
  Result, ok, err, fail_if, ok_or, ◌>>=◌, ◌>>◌, route_key_ambiguous, duplicate_route,
  header_name_invalid, header_value_invalid, backend_id_missing, model_empty, unknown_backend,
}

key_of : Option String → Option String → Option RouteKey
key_of (some name) none = some (public name)
key_of none (some p) = some (path p)
key_of _ _ = none

unfoldable pub format_route_key : RouteKey → String
format_route_key (public p) = "public=" +ˢ p
format_route_key (path p) = "path=" +ˢ p

unfoldable pub eq_key : RouteKey → RouteKey → Bool
eq_key (public a) (public b) = a == b
eq_key (path a) (path b) = a == b
eq_key _ _ = false

-- The model and the backend id of an entry, split at the last '@'.
check_entry : String → Option (String × String) → Result (Option String × String)
check_entry entry none = ok (none, entry)
check_entry entry (some (model, backend_id)) = do
  fail_if (is_empty backend_id) (backend_id_missing entry)
  fail_if (is_empty model) (model_empty entry)
  ok (some model, backend_id)

unfoldable pub parse_route_backend : String → Result (Option String × String)
unfolding check_entry
parse_route_backend entry = check_entry entry (rsplit_once b'@' entry)

default_model : RouteKey → String → String
default_model (public name) backend_id = name
default_model (path p) backend_id = backend_id

unfoldable pub resolve_context_length_policy :
    ContextLengthConfig → String → String → ContextLengthSpec
resolve_context_length_policy (value n) backend_id backend_model = static n
resolve_context_length_policy (mode Types.ContextLengthMode.none) backend_id backend_model =
    Types.ContextLengthSpec.none
resolve_context_length_policy (mode Types.ContextLengthMode.upstream) backend_id backend_model =
    upstream backend_id backend_model none

unfoldable pub resolve_context_lengths :
    RouteKey → ContextLengthConfig → List RouteBackendBinding → ContextLengthSpec
unfolding resolve_context_length_policy
resolve_context_lengths (path p) config bindings = Types.ContextLengthSpec.none
resolve_context_lengths (public name) config bindings =
    let first = head? bindings in
    resolve_context_length_policy config
      (unwrap_or (map_option (λ (b : RouteBackendBinding). b.backend_id) first) "")
      (unwrap_or (map_option (λ (b : RouteBackendBinding). b.backend_model) first) name)

-- `route_can_serve` decides whether a warning is logged; the check of a marker pair is
-- `is_compat_marker_pair`.
has_marker : StringSet → String → Bool
has_marker set marker = contains set marker || contains set "all"

unfoldable pub is_compat_marker_pair : String → StringSet → Bool
unfolding has_marker
is_compat_marker_pair marker supports =
    if marker == responses_via_chat_completions
    then has_marker supports "chat"
      || has_marker supports "chat_completions"
      || has_marker supports "completions"
    else if marker == chat_completions_via_responses
    then has_marker supports "responses" || has_marker supports "response"
    else if marker == chat_completions_via_messages
    then has_marker supports "messages"
    else false

-- A route's own value wins over the inherited one, which defaults to false.
abbrev inherit : Option Bool → Option Bool → Bool
inherit (some own) inherited = own
inherit none inherited = unwrap_or inherited false

module _ {V : Type 0} where
  unfoldable pub route_key : RouteConfig V → Option RouteKey
  unfolding key_of
  route_key route = key_of route.public route.path

  unfoldable pub route_can_serve : StringSet → ResolvedBackend V → Bool
  unfolding is_compat_marker_pair
  route_can_serve expose backend =
      any
        (λ marker.
          contains backend.supports marker || is_compat_marker_pair marker backend.supports)
        expose

  abbrev pub find_backend : String → List (ResolvedBackend V) → Option (ResolvedBackend V)
  find_backend backend_id backends = find (λ b. b.id == backend_id) backends

  unfoldable pub bind_routes :
      RouteKey → List String → List (ResolvedBackend V) → Result (List RouteBackendBinding)
  unfolding default_model
  bind_routes key [] backends = ok []
  bind_routes key (entry ∷ entries) backends = do
    parsed ← parse_route_backend entry
    backend ← ok_or (find_backend parsed.1 backends) (unknown_backend key parsed.1)
    bindings ← bind_routes key entries backends
    ok (
        record {
          backend_id = backend.id;
          backend_model = unwrap_or parsed.0 (default_model key parsed.1);
        }
        ∷ bindings)

  -- The backend of the first binding, from which a route inherits.
  abbrev pub first_backend :
      List RouteBackendBinding → List (ResolvedBackend V) → Option (ResolvedBackend V)
  first_backend bindings backends =
      and_then (head? bindings) (λ first. find_backend first.backend_id backends)

  unfoldable pub resolve_expose_backend_errors :
      Option Bool → List RouteBackendBinding → List (ResolvedBackend V) → Bool
  resolve_expose_backend_errors route_value bindings backends = inherit route_value (
      map_option (λ (b : ResolvedBackend V). b.expose_backend_errors)
        (first_backend bindings backends))

  unfoldable pub resolve_stream_capture :
      Option Bool → List RouteBackendBinding → List (ResolvedBackend V) → Bool
  resolve_stream_capture route_value bindings backends =
      inherit route_value
        (map_option (λ (b : ResolvedBackend V). b.stream_capture) (first_backend bindings backends))

  unfoldable pub backend_extra_body : Option (ResolvedBackend V) → StringMap V
  backend_extra_body none = []
  backend_extra_body (some backend) = backend.extra_body

  unfoldable pub merge_extra_body :
      List RouteBackendBinding → List (ResolvedBackend V) → StringMap V → StringMap V
  unfolding backend_extra_body
  merge_extra_body bindings backends route_extra_body =
      merge (merge [] (backend_extra_body (first_backend bindings backends))) route_extra_body

  abbrev pub resolve_route :
      List (ResolvedBackend V)
      → RouteKey
      → RouteConfig V
      → List RouteBackendBinding
      → ResolvedRoute V
  resolve_route backends key route bindings = record {
    key = key;
    expose = canonicalize_marker_set route.expose;
    context_length = resolve_context_lengths key route.context_length bindings;
    tool_schema_mode = unwrap_or route.tool_schema_mode ToolSchemaMode.preserve;
    responses_store = unwrap_or route.responses_store ResponsesStorePolicy.preserve;
    responses_max_output_tokens =
        unwrap_or route.responses_max_output_tokens ResponsesMaxOutputTokensPolicy.preserve;
    chat_stream_usage = unwrap_or route.chat_stream_usage ChatStreamUsagePolicy.preserve;
    backends = bindings;
    extra_body = merge_extra_body bindings backends route.extra_body;
    expose_backend_errors =
        resolve_expose_backend_errors route.expose_backend_errors bindings backends;
    stream_capture = resolve_stream_capture route.stream_capture bindings backends;
    request_headers = route.request_headers;
    anthropic_max_tokens = route.anthropic_max_tokens;
  }

  unfoldable pub resolved_from :
      List (ResolvedBackend V) → List (RouteKey × RouteConfig V) → Result (List (ResolvedRoute V))
  resolved_from backends [] = ok []
  resolved_from backends ((key, route) ∷ rest) = do
    bindings ← bind_routes key route.backends backends
    routes ← resolved_from backends rest
    ok (resolve_route backends key route bindings ∷ routes)

module _ (host : Host) where
  unfoldable pub validate_request_headers : StringMap String → RouteKey → Result (Unit {0})
  validate_request_headers [] key = ok tt
  validate_request_headers ((name, text) ∷ headers) key = do
    fail_if (not (host.header_name name)) (header_name_invalid key name)
    fail_if (not (host.header_value text)) (header_value_invalid key name)
    validate_request_headers headers key

  module _ {V : Type 0} where
    -- the loop, with the keys seen so far
    unfoldable pub routes_from :
        RoutingConfig
        → List RouteKey
        → List (RouteConfig V)
        → Result (List (RouteKey × RouteConfig V))
    routes_from config seen [] = ok []
    routes_from config seen (route ∷ rest) = do
      key ← ok_or (route_key route) (route_key_ambiguous route.public route.path)
      fail_if (any (eq_key key) seen) (duplicate_route key)
      let expose = canonicalize_marker_set route.expose
      validate_markers expose config.unknown_endpoint_policy
          ("route '" +ˢ format_route_key key +ˢ "'")
      validate_request_headers route.request_headers key
      validated ← routes_from config (key ∷ seen) rest
      ok ((key, record route { expose = expose }) ∷ validated)

    unfoldable pub validate_routes :
        List (RouteConfig V) → RoutingConfig → Result (List (RouteKey × RouteConfig V))
    unfolding routes_from
    validate_routes routes config = routes_from config [] routes

    unfoldable pub resolve_routes :
        List (RouteConfig V)
        → List (ResolvedBackend V)
        → RoutingConfig
        → Result (List (ResolvedRoute V))
    resolve_routes configs backends routing = do
      validated ← validate_routes configs routing
      resolved_from backends validated
