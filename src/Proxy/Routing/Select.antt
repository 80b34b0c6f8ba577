-- ===== src/Proxy/Routing/Select.antt =====
-- `BackendSelector` of routing.rs: the candidates for a request, in the order of the attempts.
pub mod Order
pub mod Errors
pub mod Offers
pub mod Configured
pub mod Candidates
pub mod Collect
use onair.Prelude.{
  ℕ, String, Bool, true, false, not, ◌&&◌, List, [], ◌∷◌, ◌++◌, map, Option, none, some, ◌==◌, find,
  any, length, unwrap_or, map_option, and_then, trim_end_matches, StringSet, StringMap, contains,
  if◌then◌else◌,
}
use onair.Core.Error.{
  ApiError, ApiResult, ok, err, bad_request, model_not_found, endpoint_unavailable,
}
use onair.Core.Config.Types.{
  ResolvedBackend, ResolvedRoute, RouteBackendBinding, RouteKey, public, path, RoutingStrategy,
  priority, sticky, round_robin, weighted_random, ToolSchemaMode, ResponsesStorePolicy,
  ResponsesMaxOutputTokensPolicy, ChatStreamUsagePolicy,
}
use onair.Core.Config.Routes.{find_backend, format_route_key}
use onair.Core.Config.Resolve.{is_public}
use onair.Proxy.Routing.Paths.{path_capability_candidates}
use onair.Proxy.Routing.Modes.{RequestMode, has_capability, supports_tools, request_mode_for_path}
use onair.Proxy.Routing.Strategy.{
  RoundRobinCounters, next_index, rotate_left, sticky_index, weighted_rotation,
}

module _ (V : Type 0) where
  pub record SelectedRoute : Type 0 where
    pub backend_id : String
    pub base_url : String
    pub api_key : Option String
    pub timeout : ℕ
    pub public_model : Option String
    pub backend_model : Option String
    pub request_mode : RequestMode
    pub tool_schema_mode : ToolSchemaMode
    pub responses_store : ResponsesStorePolicy
    pub responses_max_output_tokens : ResponsesMaxOutputTokensPolicy
    pub chat_stream_usage : ChatStreamUsagePolicy
    pub weight : ℕ
    pub route_key_label : String
    pub extra_body : StringMap V
    pub request_headers : StringMap String
    pub expose_backend_errors : Bool
    pub stream_capture : Bool
    pub anthropic_max_tokens : Option ℕ

  -- The request, with the configuration that it is routed by.
  pub record SelectionRequest : Type 0 where
    pub backends : List (ResolvedBackend V)
    pub routes : List (ResolvedRoute V)
    pub strategy : RoutingStrategy
    pub path : String
    pub model : Option String
    pub stream : Bool
    pub tools : Bool
    pub sticky_key : Option String

-- A vector with a first element.
pub record NonEmptyVec {ℓ} (A : Type ℓ) : Type ℓ where
  pub head : A
  pub tail : List A

module _ {ℓ} {A : Type ℓ} where
  abbrev pub from_vec : List A → Option (NonEmptyVec A)
  from_vec [] = none
  from_vec (x ∷ xs) = some (record { head = x; tail = xs })

  abbrev pub to_vec : NonEmptyVec A → List A
  to_vec v = v.head ∷ v.tail

module _ {B : Type 0} where
  push_some : Option B → List B → List B
  push_some none bs = bs
  push_some (some b) bs = b ∷ bs

module _ {A B : Type 0} where
  -- A loop with `continue` that pushes candidates and carries the flag `tool_incompatible`.
  pub collect : (A → Bool → Option B × Bool) → List A → Bool → List B × Bool
  collect step [] flag = ([], flag)
  collect step (a ∷ later) flag =
      let (found, flag') = step a flag in
      let (rest, last) = collect step later flag' in (push_some found rest, last)

check_tools : Bool → Option RequestMode → Bool → Option RequestMode × Bool
check_tools lacking none flag = (none, flag)
check_tools true (some mode) flag = (none, true)
check_tools false (some mode) flag = (some mode, flag)

abbrev is_path : String → RouteKey → Bool
is_path requested (path p) = trim_end_matches b'/' p == trim_end_matches b'/' requested
is_path requested (public name) = false

abbrev pub Found : (V : Type 0) → Type 0
Found V = ApiResult (List (SelectedRoute V) × Bool)

abbrev pub Selection : (V : Type 0) → Type 0
Selection V = ApiResult (NonEmptyVec (SelectedRoute V)) × RoundRobinCounters

module _ {V : Type 0} where
  abbrev route_expose : Option (ResolvedRoute V) → Option StringSet
  route_expose route = map_option (λ (r : ResolvedRoute V). r.expose) route

  pub mode_of :
      SelectionRequest V → ResolvedBackend V → Option (ResolvedRoute V) → Option RequestMode
  mode_of request backend route =
      request_mode_for_path request.path (path_capability_candidates request.path) backend.supports
        (route_expose route)

  is_eligible :
      SelectionRequest V
      → ResolvedBackend V
      → Option (ResolvedRoute V)
      → Bool
      → Option RequestMode × Bool
  is_eligible request backend route flag =
      if request.stream && not (has_capability backend.supports "streaming")
      then (none, flag)
      else check_tools (request.tools && not (supports_tools backend.supports (route_expose route)))
          (mode_of request backend route) flag

  route_or {κ} : {A : Type κ} → Option (ResolvedRoute V) → (ResolvedRoute V → A) → A → A
  route_or none field default = default
  route_or (some route) field default = field route

  unfoldable pub build_candidate :
      ResolvedBackend V
      → Option (ResolvedRoute V)
      → Option RouteBackendBinding
      → Option String
      → RequestMode
      → SelectedRoute V
  unfolding route_or
  build_candidate backend route binding model request_mode = record {
    backend_id = backend.id;
    base_url = backend.base_url;
    api_key = backend.api_key;
    timeout = backend.timeout;
    public_model = model;
    backend_model = map_option (λ (b : RouteBackendBinding). b.backend_model) binding;
    request_mode = request_mode;
    tool_schema_mode = route_or route (λ r. r.tool_schema_mode) backend.tool_schema_mode;
    responses_store = route_or route (λ r. r.responses_store) backend.responses_store;
    responses_max_output_tokens =
        route_or route (λ r. r.responses_max_output_tokens) backend.responses_max_output_tokens;
    chat_stream_usage = route_or route (λ r. r.chat_stream_usage) backend.chat_stream_usage;
    weight = backend.weight;
    route_key_label = route_or route (λ r. format_route_key r.key) "none";
    extra_body = route_or route (λ r. r.extra_body) [];
    request_headers = route_or route (λ r. r.request_headers) [];
    expose_backend_errors = route_or route (λ r. r.expose_backend_errors) false;
    stream_capture = route_or route (λ r. r.stream_capture) false;
    anthropic_max_tokens = route_or route (λ r. r.anthropic_max_tokens) none;
  }

  candidate :
      ResolvedBackend V
      → Option (ResolvedRoute V)
      → Option RouteBackendBinding
      → Option String
      → Option RequestMode × Bool
      → Option (SelectedRoute V) × Bool
  candidate backend route binding model (mode, flag) =
      (map_option (build_candidate backend route binding model) mode, flag)

  try_backend :
      SelectionRequest V
      → ResolvedRoute V
      → String
      → RouteBackendBinding
      → Option (ResolvedBackend V)
      → Bool
      → Option (SelectedRoute V) × Bool
  try_backend request route model binding none flag = (none, flag)
  try_backend request route model binding (some backend) flag =
      candidate backend (some route) (some binding) (some model)
        (is_eligible request backend (some route) flag)

  -- One round of the loop over the bindings of a public route.
  pub try_binding :
      SelectionRequest V
      → ResolvedRoute V
      → String
      → RouteBackendBinding
      → Bool
      → Option (SelectedRoute V) × Bool
  try_binding request route model binding flag =
      try_backend request route model binding (find_backend binding.backend_id request.backends)
        flag

  unbound : Option (ResolvedRoute V) → ResolvedBackend V → Bool
  unbound none backend = false
  unbound (some route) backend =
      not (any (λ (b : RouteBackendBinding). b.backend_id == backend.id) route.backends)

  -- One round of the loop over all backends, for a request without a model.
  try_any :
      SelectionRequest V
      → Option (ResolvedRoute V)
      → ResolvedBackend V
      → Bool
      → Option (SelectedRoute V) × Bool
  try_any request route backend flag =
      if unbound route backend
      then (none, flag)
      else candidate backend route none none (is_eligible request backend route flag)

  abbrev pub public_route : SelectionRequest V → String → Option (ResolvedRoute V)
  public_route request model = find (λ (r : ResolvedRoute V). is_public model r.key) request.routes

  abbrev pub path_route : SelectionRequest V → Option (ResolvedRoute V)
  path_route request = find (λ (r : ResolvedRoute V). is_path request.path r.key) request.routes

  model_candidates : SelectionRequest V → String → Option (ResolvedRoute V) → Found V
  model_candidates request model none = err (model_not_found model)
  model_candidates request model (some route) =
      ok (collect (try_binding request route model) route.backends false)

  gather : SelectionRequest V → Option String → Found V
  gather request (some model) = model_candidates request model (public_route request model)
  gather request none = ok (collect (try_any request (path_route request)) request.backends false)

  no_candidate : SelectionRequest V → Bool → ApiError
  no_candidate request tool_incompatible =
      if request.tools && tool_incompatible
      then bad_request "The selected model does not support tool calling." (some "tools")
      else endpoint_unavailable request.path request.model

  -- How far the strategy rotates the candidates, and the counters behind it.
  pub rotation :
      SelectionRequest V
      → RoundRobinCounters
      → (ℕ → ℕ)
      → RoutingStrategy
      → List (SelectedRoute V)
      → ℕ × RoundRobinCounters
  rotation request counters draw priority candidates = (0, counters)
  rotation request counters draw sticky candidates =
      (sticky_index (unwrap_or request.sticky_key request.path) (length candidates), counters)
  rotation request counters draw round_robin candidates =
      next_index counters (unwrap_or request.model request.path) (length candidates)
  rotation request counters draw weighted_random candidates =
      (weighted_rotation draw (map (λ (c : SelectedRoute V). c.weight) candidates), counters)

  or_unrotated :
      SelectedRoute V
      → List (SelectedRoute V)
      → Option (NonEmptyVec (SelectedRoute V))
      → NonEmptyVec (SelectedRoute V)
  or_unrotated first rest none = record { head = first; tail = rest }
  or_unrotated first rest (some v) = v

  -- `from_vec` is applied to a list that is not empty; `or_unrotated` stands for its `expect`.
  rotated : SelectedRoute V → List (SelectedRoute V) → ℕ × RoundRobinCounters → Selection V
  rotated first rest (i, counters) =
      (ok (or_unrotated first rest (from_vec (rotate_left i (first ∷ rest)))), counters)

  pub finish_selection :
      SelectionRequest V
      → RoundRobinCounters
      → (ℕ → ℕ)
      → List (SelectedRoute V)
      → Bool
      → Selection V
  finish_selection request counters draw [] flag = (err (no_candidate request flag), counters)
  finish_selection request counters draw (first ∷ rest) flag =
      rotated first rest (rotation request counters draw request.strategy (first ∷ rest))

  select_found : SelectionRequest V → RoundRobinCounters → (ℕ → ℕ) → Found V → Selection V
  select_found request counters draw (err e) = (err e, counters)
  select_found request counters draw (ok (candidates, flag)) =
      finish_selection request counters draw candidates flag

  unfoldable pub select : SelectionRequest V → RoundRobinCounters → (ℕ → ℕ) → Selection V
  unfolding select_found finish_selection gather rotated rotation no_candidate or_unrotated
      model_candidates collect push_some try_any try_binding try_backend unbound candidate
      is_eligible check_tools mode_of
  select request counters draw = select_found request counters draw (gather request request.model)
