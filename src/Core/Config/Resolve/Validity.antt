-- ===== src/Core/Config/Resolve/Validity.antt =====
-- What a resolved configuration satisfies, from `Config::resolve` of config.rs.
use onair.Prelude.{String, ◌≡◌, true, List, [], ◌∷◌, arith, All}
use onair.Core.Config.Types.{ConfigFile, Config, ResolvedClient, ResolvedRoute}
use onair.Core.Config.Result.{ok, Ensures, Ensures-ok, Ensures-then, Ensures-bind}
use onair.Core.Config.TopLevel.Bounds.{HasBounds, top_level-HasBounds}
use onair.Core.Config.Secrets.{Host}
use onair.Core.Config.Secrets.Backends
use onair.Core.Config.Secrets.Backends.{resolve_backends-IsSound}
use onair.Core.Config.Routes.Bindings
use onair.Core.Config.Routes.Bindings.{resolve_routes-IsSound}
use onair.Core.Config.Resolve.{
  has_public_route, models_have_routes, validate_allowed_routes, resolve,
}

module _ {V : Type 0} where
  -- Every model that a client may name has a public route.
  abbrev pub IsRoutable : List (ResolvedRoute V) → ResolvedClient → Type 0
  IsRoutable routes client = All (λ model. has_public_route routes model ≡ true) client.models

  models_have_routes-Ensures :
      (id : String) (models : List String) (routes : List (ResolvedRoute V))
      → Ensures
          (λ _. All (λ model. has_public_route routes model ≡ true) models)
          (models_have_routes id models routes)
  unfolding models_have_routes
  models_have_routes-Ensures id [] routes = Ensures-ok tt
  models_have_routes-Ensures id (model ∷ models) routes = Ensures-then _ _ _ λ found. record {
    at = λ u h. (ground arith, (models_have_routes-Ensures id models routes).at u h);
  }

  validate_allowed_routes-Ensures :
      (clients : List ResolvedClient) (routes : List (ResolvedRoute V))
      → Ensures (λ _. All (IsRoutable routes) clients) (validate_allowed_routes clients routes)
  unfolding validate_allowed_routes
  validate_allowed_routes-Ensures [] routes = Ensures-ok tt
  validate_allowed_routes-Ensures (client ∷ clients) routes = Ensures-bind _ _ λ u routable.
      record {
        at = λ v h. (
          (models_have_routes-Ensures client.id client.models routes).at u routable,
          (validate_allowed_routes-Ensures clients routes).at v h,
        );
      }

  -- At least one backend, each with a positive weight and an id of its own without '@'; routes with
  -- distinct keys, bound to backends of the configuration; a public route for each model of each
  -- client; and what `HasBounds` says of the settings.
  pub record IsValid (config : Config V) : Type 0 where
    pub backends : Backends.IsSound config.backends
    pub routes : Bindings.IsSound config.backends config.routes
    pub routable : All (IsRoutable config.routes) config.clients
    pub bounds : HasBounds config.debug_capture config.inspector config.health config.routing

  resolve-Ensures : (host : Host) (file : ConfigFile V) → Ensures IsValid (resolve host file)
  unfolding resolve
  resolve-Ensures host file = Ensures-bind _ _ λ u top. Ensures-bind _ _ λ clients _.
      Ensures-bind _ _ λ backends found. Ensures-bind _ _ λ routes resolved.
        Ensures-bind _ _ λ v allowed. Ensures-ok (record {
          backends = (resolve_backends-IsSound host file.backends _).at backends found;
          routes =
              (resolve_routes-IsSound host file.routes backends file.routing).at routes resolved;
          routable = (validate_allowed_routes-Ensures clients routes).at v allowed;
          bounds = (top_level-HasBounds file).at u top;
        })

-- Every file that resolves, whatever the environment and the third-party parsers answer, gives a
-- configuration with a backend, each of positive weight and with an id of its own without '@',
-- routes with distinct keys bound to those backends, and a public route for each model of each
-- client. Its health check has an interval and a timeout, and a path that starts with one '/', has
-- no "://" and no control character; its inspector keeps 1 to 1000000 records, drains for 1 to 60000
-- milliseconds, and has a path if it is persistent; a debug capture that is on has a directory with
-- a proper part and no part ".."; and at most 16 attempts fall back.
pub resolve-IsValid :
    {V : Type 0} (host : Host) (file : ConfigFile V) (config : Config V)
    → resolve host file ≡ ok config
    → IsValid config
resolve-IsValid host file = (resolve-Ensures host file).at
