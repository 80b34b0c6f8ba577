-- ===== src/Tests/Configuration.antt =====
-- The configuration of the fixtures, and the theorems on configurations applied to it.
use onair.Prelude.{
  ◌≡◌, ◌⊎◌, true, refl, [], ◌∷◌, Option, get, or_else, ◌+ˢ◌, trim, insert, extend, merge, put,
}
use onair.Core.Config.Reload.{
  reload_config_with_retries, config_reload_max_attempts, wait_for_reload_quiet, Batch, EventKind,
}
use onair.Core.Config.Reload.Running.{IsKept, IsReplaced, reload_config_with_retries-settles}
use onair.Core.Config.Result.{ok, ◌>>=◌, fail_if}
use onair.Core.Config.TopLevel.{
  validate_top_level, validate_health_config, validate_inspector_config,
  validate_debug_capture_config, validate_routing_config,
}
use onair.Core.Config.Markers.{is_known_marker, canonicalize_marker_set, validate_markers}
use onair.Core.Config.Secrets.{
  resolve_secret, resolve_optional_secret, clients_from, resolve_clients,
  normalize_backend_base_url, backends_from, resolve_backends,
}
use onair.Core.Config.Routes.{
  parse_route_backend, merge_extra_body, first_backend, backend_extra_body, resolve_routes,
  validate_routes, route_key, validate_request_headers, resolved_from, bind_routes,
  resolve_context_lengths, resolve_expose_backend_errors, resolve_stream_capture,
}
use onair.Core.Config.Routes.Entries.{parse_route_backend-join, parse_route_backend-Means, Means}
use onair.Core.Config.Routes.Bindings.{get-merge_extra_body}
use onair.Core.Config.Resolve.{resolve, validate_allowed_routes}
use onair.Core.Config.Resolve.Validity.{IsValid, resolve-IsValid}
use onair.Tests.Fixtures.{file, host, resolved, route}

pub file-resolves : resolve host file ≡ ok resolved
unfolding resolve validate_top_level validate_health_config validate_inspector_config
    validate_debug_capture_config validate_routing_config is_known_marker canonicalize_marker_set
    validate_markers resolve_secret resolve_optional_secret clients_from resolve_clients
    normalize_backend_base_url backends_from resolve_backends resolve_routes validate_allowed_routes
    ◌>>=◌ fail_if trim insert extend merge put validate_routes route_key validate_request_headers
    resolved_from bind_routes parse_route_backend resolve_context_lengths merge_extra_body
    resolve_expose_backend_errors resolve_stream_capture
file-resolves = refl

resolve-IsValid_example : IsValid resolved
resolve-IsValid_example = resolve-IsValid host file resolved file-resolves

parse_route_backend-join_example :
    parse_route_backend ("org@model" +ˢ ("@" +ˢ "a")) ≡ ok (Option.some "org@model", "a")
parse_route_backend-join_example = parse_route_backend-join "org@model" "a" refl refl refl

entry-parses : parse_route_backend "qwen@a" ≡ ok (Option.some "qwen", "a")
unfolding parse_route_backend ◌>>=◌ fail_if
entry-parses = refl

parse_route_backend-Means_example : Means "qwen@a" (Option.some "qwen", "a")
parse_route_backend-Means_example =
    parse_route_backend-Means "qwen@a" (Option.some "qwen", "a") entry-parses

get-merge_extra_body_example :
    get (merge_extra_body route.backends resolved.backends (("seed", 7) ∷ [])) "top_k"
    ≡ or_else
        (get (("seed", 7) ∷ []) "top_k")
        (get (backend_extra_body (first_backend route.backends resolved.backends)) "top_k")
unfolding backend_extra_body
get-merge_extra_body_example =
    get-merge_extra_body route.backends resolved.backends (("seed", 7) ∷ []) "top_k" (refl, _)
      (refl, _)

reload_config_with_retries-settles_example :
    let result =
      reload_config_with_retries host (λ attempt. Option.some file) (record { inner = resolved }) in
    IsKept host
      (λ attempt. Option.some file)
      (record { inner = resolved })
      1
      config_reload_max_attempts
      result
    ⊎ IsReplaced host (λ attempt. Option.some file) 1 config_reload_max_attempts result
reload_config_with_retries-settles_example =
    reload_config_with_retries-settles host (λ attempt. Option.some file)
      (record { inner = resolved })

reload_waits :
    wait_for_reload_quiet "/etc/onair.toml" "onair.toml" (
      Batch.empty (Option.some (record { kind = EventKind.modify; paths = [] }) ∷ [])
      ∷ Batch.empty []
      ∷ [])
    ≡ Option.some (true, [])
unfolding wait_for_reload_quiet
reload_waits = refl
