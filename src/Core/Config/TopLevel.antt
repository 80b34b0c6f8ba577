-- ===== src/Core/Config/TopLevel.antt =====
-- The checks of config.rs on single sections of the file.
pub mod Bounds
use Prim.Native.String.{[], ◌∷◌}
use onair.Prelude.{
  ℕ, String, code, Bool, true, false, not, ◌&&◌, ◌||◌, [], ◌∷◌, Option, none, some, ◌==◌, eqb, ltb,
  leb, any, is_empty, is_some, split, strip_prefix, if◌then◌else◌,
}
use onair.Core.Config.Types.{
  DebugCaptureConfig, InspectorConfig, HealthConfig, RoutingConfig, ConfigFile,
}
use onair.Core.Config.Result.{
  Result, ok, err, fail_if, ◌>>◌, health_interval_zero, health_timeout_zero, health_path_not_rooted,
  health_path_absolute, health_path_control, retention_zero, retention_too_large,
  persistence_path_required, persistence_path_empty, drain_timeout_zero, drain_timeout_too_large,
  capture_directory_empty, capture_directory_parent, capture_directory_unnamed,
  fallback_attempts_too_large,
}

abbrev pub max_fallback_attempts : ℕ
max_fallback_attempts = 16

abbrev pub max_inspector_retention_requests : ℕ
max_inspector_retention_requests = 1000000

abbrev pub max_inspector_persistence_drain_timeout_ms : ℕ
max_inspector_persistence_drain_timeout_ms = 60000

-- `str::contains` for a text
pub contains_text : String → String → Bool
contains_text p [] = is_some (strip_prefix p [])
contains_text p (c ∷ s) = is_some (strip_prefix p (c ∷ s)) || contains_text p s

-- `char::is_control`: the characters of the class Cc
abbrev is_control : ℕ → Bool
is_control k = ltb k 0x20 || (leb 0x7f k && leb k 0x9f)

pub any_control : String → Bool
any_control [] = false
any_control (c ∷ s) = is_control (code c) || any_control s

unfoldable pub validate_health_config : HealthConfig → Result (Unit {0})
unfolding contains_text any_control
validate_health_config config = do
  fail_if (eqb config.interval_ms 0) health_interval_zero
  fail_if (eqb config.timeout_ms 0) health_timeout_zero
  fail_if (not (is_some (strip_prefix "/" config.path))) health_path_not_rooted
  fail_if (is_some (strip_prefix "//" config.path) || contains_text "://" config.path)
      health_path_absolute
  fail_if (any_control config.path) health_path_control

check_persistence_path : Bool → Option String → Result (Unit {0})
check_persistence_path false path = ok tt
check_persistence_path true none = err persistence_path_required
check_persistence_path true (some path) = fail_if (is_empty path) persistence_path_empty

unfoldable pub validate_inspector_config : InspectorConfig → Result (Unit {0})
unfolding check_persistence_path
validate_inspector_config config = do
  fail_if (eqb config.retention_requests 0) retention_zero
  fail_if (ltb max_inspector_retention_requests config.retention_requests) retention_too_large
  check_persistence_path config.persistence.enabled config.persistence.path
  fail_if (eqb config.persistence.drain_timeout_ms 0) drain_timeout_zero
  fail_if (ltb max_inspector_persistence_drain_timeout_ms config.persistence.drain_timeout_ms)
      drain_timeout_too_large

-- The components of a Unix path: `ParentDir` is "..", and `Normal` is any other part that is
-- neither empty nor ".".
is_parent_dir : String → Bool
is_parent_dir part = part == ".."

is_normal : String → Bool
is_normal part = not (is_empty part) && not (part == ".") && not (part == "..")

unfoldable pub validate_debug_capture_config : DebugCaptureConfig → Result (Unit {0})
unfolding is_parent_dir is_normal
validate_debug_capture_config config = if not config.enabled then ok tt else do
  let parts = split b'/' config.directory
  fail_if (is_empty config.directory) capture_directory_empty
  fail_if (any is_parent_dir parts) capture_directory_parent
  fail_if (not (any is_normal parts)) capture_directory_unnamed

unfoldable pub validate_routing_config : RoutingConfig → Result (Unit {0})
validate_routing_config config =
    fail_if (ltb max_fallback_attempts config.fallback_attempts) fallback_attempts_too_large

unfoldable pub validate_top_level : {V : Type 0} → ConfigFile V → Result (Unit {0})
unfolding validate_debug_capture_config validate_inspector_config validate_health_config
    validate_routing_config
validate_top_level file = do
  validate_debug_capture_config file.debug_capture
  validate_inspector_config file.inspector
  validate_health_config file.health
  validate_routing_config file.routing
