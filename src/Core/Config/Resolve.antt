-- ===== src/Core/Config/Resolve.antt =====
-- The resolution of a configuration file, from config.rs.
pub mod Validity
use onair.Prelude.{
  ℕ, String, Bool, true, false, not, List, [], ◌∷◌, Option, none, some, ◌==◌, any, StringMap, get,
  put, is_some, if◌then◌else◌,
}
use onair.Core.Config.Types
use onair.Core.Config.Types.{
  ConfigFile, Config, ResolvedClient, ResolvedRoute, RouteKey, public, path, ContextLengthSpec,
  static, upstream,
}
use onair.Core.Config.Result.{Result, ok, fail_if, ◌>>=◌, ◌>>◌, model_without_route}
use onair.Core.Config.TopLevel.{validate_top_level}
use onair.Core.Config.Secrets.{Host, resolve_clients, resolve_backends}
use onair.Core.Config.Routes.{resolve_routes}
use onair.Core.ContextCache.{ContextSizeCache, lookup}

-- `matches!(key, RouteKey::Public(public) if public == model)`
abbrev pub is_public : String → RouteKey → Bool
is_public model (public name) = name == model
is_public model (path p) = false

-- `models.entry(name).or_insert(spec)`
or_insert : StringMap ContextLengthSpec → String → ContextLengthSpec → StringMap ContextLengthSpec
or_insert models name spec = if is_some (get models name) then models else put name spec models

with_size : ContextLengthSpec → Option ℕ → ContextLengthSpec
with_size (upstream backend_id backend_model _) n_ctx = upstream backend_id backend_model n_ctx
with_size spec n_ctx = spec

add_model :
    (String → Option ℕ)
    → StringMap ContextLengthSpec
    → RouteKey
    → ContextLengthSpec
    → StringMap ContextLengthSpec
add_model size models (path p) spec = models
add_model size models (public name) spec = or_insert models name (with_size spec (size name))

module _ {V : Type 0} where
  abbrev pub has_public_route : List (ResolvedRoute V) → String → Bool
  has_public_route routes model = any (λ (r : ResolvedRoute V). is_public model r.key) routes

  models_have_routes : String → List String → List (ResolvedRoute V) → Result (Unit {0})
  models_have_routes client_id [] routes = ok tt
  models_have_routes client_id (model ∷ models) routes = do
    fail_if (not (has_public_route routes model)) (model_without_route client_id model)
    models_have_routes client_id models routes

  unfoldable pub validate_allowed_routes :
      List ResolvedClient → List (ResolvedRoute V) → Result (Unit {0})
  unfolding models_have_routes
  validate_allowed_routes [] routes = ok tt
  validate_allowed_routes (client ∷ clients) routes = do
    models_have_routes client.id client.models routes
    validate_allowed_routes clients routes

  unfoldable pub resolve : Host → ConfigFile V → Result (Config V)
  resolve host file = do
    validate_top_level file
    clients ← resolve_clients host file.clients file.access
    backends ← resolve_backends host file.backends file.routing.unknown_capability_policy
    routes ← resolve_routes host file.routes backends file.routing
    validate_allowed_routes clients routes
    ok (record {
      server = file.server;
      telemetry = file.telemetry;
      debug_capture = file.debug_capture;
      inspector = file.inspector;
      health = file.health;
      routing = file.routing;
      clients = clients;
      backends = backends;
      routes = routes;
    })

  context_lengths_from :
      (String → Option ℕ)
      → StringMap ContextLengthSpec
      → List (ResolvedRoute V)
      → StringMap ContextLengthSpec
  context_lengths_from size models [] = models
  context_lengths_from size models (route ∷ routes) =
      context_lengths_from size (add_model size models route.key route.context_length) routes

  unfoldable pub public_model_context_lengths : Config V → StringMap ContextLengthSpec
  unfolding context_lengths_from add_model or_insert with_size
  public_model_context_lengths config = context_lengths_from (λ _. none) [] config.routes

  unfoldable pub public_model_context_lengths_with_cache :
      Config V → ContextSizeCache → StringMap ContextLengthSpec
  unfolding context_lengths_from add_model or_insert with_size
  public_model_context_lengths_with_cache config cache =
      context_lengths_from (lookup cache) [] config.routes
